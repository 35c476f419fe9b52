-- ===== src/Samples/Filters.antt =====
-- A replica that follows one database and one table of it, and two qualified names.
use Prim.Native.String.{String}
use myduckserver.Base.{false, ◌≡◌, refl, done, some, [], ◌∷◌}
use myduckserver.Identifier.Quoting.{connect_identifiers_ansi_injective}
use myduckserver.Filtering.{
  UnresolvedTable, FilterConfiguration, new_filter_configuration, add_name, add_table, lower_names,
  lower_tables, set_do_databases, set_ignore_databases, set_do_tables, set_ignore_tables,
  is_table_filtered_out, verify_all_tables_are_qualified,
}
use myduckserver.Filtering.Decision.{
  skips, names_table, is_table_filtered_out-skips, unlisted_database_replicated,
}

abbrev same_case : String → String
same_case s = s

abbrev orders : UnresolvedTable
orders = record { database = "shop"; name = "orders" }

abbrev shop_filters : FilterConfiguration
shop_filters = record {
  do_databases = "shop" ∷ [];
  ignore_databases = [];
  do_tables = ("shop", "orders" ∷ []) ∷ [];
  ignore_tables = [];
}

abbrev orders_filters : FilterConfiguration
orders_filters = record {
  do_databases = [];
  ignore_databases = [];
  do_tables = ("shop", "orders" ∷ []) ∷ [];
  ignore_tables = [];
}

shop_filters_set :
    set_do_tables same_case (orders ∷ []) (
      set_ignore_databases same_case []
        (set_do_databases same_case ("shop" ∷ []) new_filter_configuration))
    ≡ done shop_filters
unfolding set_do_tables set_ignore_databases set_do_databases new_filter_configuration lower_names
    lower_tables add_name add_table verify_all_tables_are_qualified
shop_filters_set = refl

ignored_tables_set : set_ignore_tables same_case [] shop_filters ≡ done shop_filters
unfolding set_ignore_tables lower_tables verify_all_tables_are_qualified
ignored_tables_set = refl

orders_filters_set :
    set_do_tables same_case (orders ∷ []) new_filter_configuration ≡ done orders_filters
unfolding set_do_tables new_filter_configuration lower_tables add_table
    verify_all_tables_are_qualified
orders_filters_set = refl

is_table_filtered_out-skips_example :
    is_table_filtered_out same_case (some shop_filters) "shop" "carts"
    ≡ skips same_case ("shop" ∷ []) [] (orders ∷ []) [] "shop" "carts"
is_table_filtered_out-skips_example =
    is_table_filtered_out-skips same_case ("shop" ∷ []) [] (orders ∷ []) [] new_filter_configuration
      shop_filters shop_filters "shop" "carts" shop_filters_set ignored_tables_set

unlisted_database_replicated_example :
    (is_table_filtered_out same_case (some orders_filters) "crm" "orders" ≡ false)
    × (names_table same_case (orders ∷ []) "crm" "orders" ≡ false)
unlisted_database_replicated_example =
    unlisted_database_replicated same_case (orders ∷ []) orders_filters "crm" "orders"
      orders_filters_set refl

connect_identifiers_ansi_injective_example :
    ◌≡◌ {A = String} "a\"b" "a\"b" × ◌≡◌ {A = String} "c.d" "c.d"
connect_identifiers_ansi_injective_example =
    connect_identifiers_ansi_injective "a\"b" "c.d" "a\"b" "c.d" refl
