-- ===== src/Delta/Plans.antt =====
-- Which plan a batch of row events leads to, and what the plan leaves out.
use myduckserver.Base.{ℕ, ◌+◌, Bool, true, false, List, [], ◌∷◌, ◌≡◌, refl, arith}
use myduckserver.Delta.{
  RowEventType, delete_row_event, update_row_event, insert_row_event, Counters, no_counts,
  update_action_stats, observe_events, count_event, Plan, insert_only, delete_only, zero_delete,
  without_index, general_case, choose_plan,
}

-- An event with its number of rows.
abbrev pub Events : Type 0
Events = List (RowEventType × ℕ)

-- The events of a batch, counted in order.
unfoldable pub count_events : Events → Counters → Counters
count_events [] c = c
count_events ((e, n) ∷ es) c = count_events es (count_event e n c)

-- The before images, and the after images, that the events of a batch bring.
abbrev pub deleted_rows : Events → ℕ
deleted_rows [] = 0
deleted_rows ((delete_row_event, n) ∷ es) = n + deleted_rows es
deleted_rows ((update_row_event, n) ∷ es) = n + deleted_rows es
deleted_rows ((insert_row_event, n) ∷ es) = deleted_rows es

abbrev pub inserted_rows : Events → ℕ
inserted_rows [] = 0
inserted_rows ((delete_row_event, n) ∷ es) = inserted_rows es
inserted_rows ((update_row_event, n) ∷ es) = n + inserted_rows es
inserted_rows ((insert_row_event, n) ∷ es) = n + inserted_rows es

-- The plan has a statement that deletes rows, and one that inserts them.
abbrev pub deletes : Plan → Bool
deletes insert_only = false
deletes delete_only = true
deletes zero_delete = false
deletes without_index = true
deletes general_case = true

abbrev pub inserts : Plan → Bool
inserts insert_only = true
inserts delete_only = false
inserts zero_delete = true
inserts without_index = true
inserts general_case = true

-- How many events of each type a batch has.
abbrev delete_events : Events → ℕ
delete_events [] = 0
delete_events ((delete_row_event, n) ∷ es) = 1 + delete_events es
delete_events ((update_row_event, n) ∷ es) = delete_events es
delete_events ((insert_row_event, n) ∷ es) = delete_events es

abbrev update_events : Events → ℕ
update_events [] = 0
update_events ((delete_row_event, n) ∷ es) = update_events es
update_events ((update_row_event, n) ∷ es) = 1 + update_events es
update_events ((insert_row_event, n) ∷ es) = update_events es

abbrev insert_events : Events → ℕ
insert_events [] = 0
insert_events ((delete_row_event, n) ∷ es) = insert_events es
insert_events ((update_row_event, n) ∷ es) = insert_events es
insert_events ((insert_row_event, n) ∷ es) = 1 + insert_events es

count_events-counts :
    (es : Events) (c : Counters)
    → ((count_events es c).event_delete ≡ c.event_delete + delete_events es)
      × ((count_events es c).event_update ≡ c.event_update + update_events es)
      × ((count_events es c).event_insert ≡ c.event_insert + insert_events es)
      × ((count_events es c).action_delete ≡ c.action_delete + deleted_rows es)
unfolding count_events count_event update_action_stats observe_events
count_events-counts [] c = ground arith
count_events-counts ((delete_row_event, n) ∷ es) c =
    ground (arith, count_events-counts es (count_event delete_row_event n c))
count_events-counts ((update_row_event, n) ∷ es) c =
    ground (arith, count_events-counts es (count_event update_row_event n c))
count_events-counts ((insert_row_event, n) ∷ es) c =
    ground (arith, count_events-counts es (count_event insert_row_event n c))

deleted_rows_none : (es : Events) → delete_events es + update_events es ≡ 0 → deleted_rows es ≡ 0
deleted_rows_none [] h = refl
deleted_rows_none ((delete_row_event, n) ∷ es) h = absurd (omega arith)
deleted_rows_none ((update_row_event, n) ∷ es) h = absurd (omega arith)
deleted_rows_none ((insert_row_event, n) ∷ es) h = deleted_rows_none es h

inserted_rows_none : (es : Events) → insert_events es + update_events es ≡ 0 → inserted_rows es ≡ 0
inserted_rows_none [] h = refl
inserted_rows_none ((delete_row_event, n) ∷ es) h = inserted_rows_none es h
inserted_rows_none ((update_row_event, n) ∷ es) h = absurd (omega arith)
inserted_rows_none ((insert_row_event, n) ∷ es) h = absurd (omega arith)

-- The plan that updateTable takes after any batch of events loses no change: where it has no deleting
-- statement, the batch brought no row to delete, and where it has no inserting statement, none to insert.
pub choose_plan-covers :
    (no_index : Bool) (es : Events)
    → (deletes (choose_plan no_index (count_events es no_counts)) ≡ false → deleted_rows es ≡ 0)
      × (inserts (choose_plan no_index (count_events es no_counts)) ≡ false → inserted_rows es ≡ 0)
unfolding choose_plan no_counts
choose_plan-covers no_index es =
    let k = count_events-counts es no_counts in
    let d = deleted_rows_none es in
    let i = inserted_rows_none es in (λ h. ground (arith, k, d), λ h. ground (arith, k, i))
