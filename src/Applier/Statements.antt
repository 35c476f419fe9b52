-- ===== src/Applier/Statements.antt =====
-- mysqlutil/node.go: which statements of go-mysql-server commit a transaction, and which change a schema.
use myduckserver.Base.{Bool, true, false}

-- The plan nodes that the program tells apart, and the others.
pub data Node : Type 0 where
  start_transaction commit insert_into update delete_from load_data lock_tables unlock_tables : Node
  create_db drop_db alter_db create_table drop_table rename_table : Node
  add_column rename_column drop_column modify_column alter_default_set alter_default_drop : Node
  truncate analyze_table create_index drop_index alter_index create_view drop_view : Node
  drop_role create_role alter_user create_user drop_user grant rename_user : Node
  start_replica stop_replica reset_replica change_replication_source other_node : Node

-- CauseImplicitCommitAfter
unfoldable pub cause_implicit_commit_after : Node → Bool
cause_implicit_commit_after create_db = true
cause_implicit_commit_after drop_db = true
cause_implicit_commit_after alter_db = true
cause_implicit_commit_after create_table = true
cause_implicit_commit_after drop_table = true
cause_implicit_commit_after rename_table = true
cause_implicit_commit_after add_column = true
cause_implicit_commit_after rename_column = true
cause_implicit_commit_after drop_column = true
cause_implicit_commit_after modify_column = true
cause_implicit_commit_after alter_default_set = true
cause_implicit_commit_after alter_default_drop = true
cause_implicit_commit_after truncate = true
cause_implicit_commit_after analyze_table = true
cause_implicit_commit_after create_index = true
cause_implicit_commit_after drop_index = true
cause_implicit_commit_after alter_index = true
cause_implicit_commit_after create_view = true
cause_implicit_commit_after drop_view = true
cause_implicit_commit_after drop_role = true
cause_implicit_commit_after create_role = true
cause_implicit_commit_after alter_user = true
cause_implicit_commit_after create_user = true
cause_implicit_commit_after drop_user = true
cause_implicit_commit_after grant = true
cause_implicit_commit_after rename_user = true
cause_implicit_commit_after start_replica = true
cause_implicit_commit_after stop_replica = true
cause_implicit_commit_after reset_replica = true
cause_implicit_commit_after change_replication_source = true
cause_implicit_commit_after _ = false

-- CauseImplicitCommitBefore
unfoldable pub cause_implicit_commit_before : Node → Bool
unfolding cause_implicit_commit_after
cause_implicit_commit_before start_transaction = true
cause_implicit_commit_before lock_tables = true
cause_implicit_commit_before unlock_tables = true
cause_implicit_commit_before n = cause_implicit_commit_after n

-- CauseSchemaChange
unfoldable pub cause_schema_change : Node → Bool
cause_schema_change create_db = true
cause_schema_change drop_db = true
cause_schema_change alter_db = true
cause_schema_change create_table = true
cause_schema_change drop_table = true
cause_schema_change rename_table = true
cause_schema_change add_column = true
cause_schema_change rename_column = true
cause_schema_change drop_column = true
cause_schema_change modify_column = true
cause_schema_change alter_default_set = true
cause_schema_change alter_default_drop = true
cause_schema_change create_index = true
cause_schema_change drop_index = true
cause_schema_change alter_index = true
cause_schema_change create_view = true
cause_schema_change drop_view = true
cause_schema_change _ = false
