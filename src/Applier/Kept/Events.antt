-- ===== src/Applier/Kept/Events.antt =====
-- What the events of the primary keep.
use Prim.Native.String.{String}
use text.Mathlib.Text.{◌==◌ as same}
use myduckserver.Base.{
  ℕ, ◌==◌, Bool, true, false, ◌||◌, if◌then◌else◌, Option, none, some, get_elem?, Outcome, done,
  failed, panicked, ◌≡◌, refl,
}
use myduckserver.Base.Actions.{
  Nothing, Keeps, >>-Keeps, >>=-Keeps, pure-Keeps, fail-Keeps, modify-Keeps, if-Keeps, choice-Keeps,
  here-Keeps, match-Keeps, option-Keeps, panic-Keeps, ◌>>◌, pure,
}
use myduckserver.Delta.{RowEventType}
use myduckserver.Delta.Flush.{Engine}
use myduckserver.Applier.{
  Gtid, Positions, BinlogFormat, BinlogQuery, TableMap, ApplyError, Applying, Apply,
  checksum_failed,
}
use myduckserver.Applier.Server.{Server}
use myduckserver.Applier.Rows.{Rower}
use myduckserver.Applier.RowEvents.{unsupported}
use myduckserver.Applier.Variables.{Vars, parse_query_event_vars}
use myduckserver.Applier.Events.{
  EventKind, rand_event, xid_event, query_event, rotate_event, format_description_event,
  previous_gtids_event, gtid_event, table_map_event, rows_event, heartbeat_event, stop_event,
  other_event, BinlogReader, with_format, is_format_description, rows_applied, announce, strip,
  set_variables, recorded, execute_recorded, execute_query, process_query, process_rotate,
  process_format_description, process_previous_gtids, persisted, persist_source_uuid, begin_if,
  begin_txn, process_gtid, note_table_map, process_table_map, process_rows_event, process_other,
  process_kind, process_binlog_event,
}
use myduckserver.Applier.Kept.{Core, Changes, Holds, record_error-Holds}
use myduckserver.Applier.Commit.{record_error}
use myduckserver.Applier.Kept.Commit.{extend_or_commit_batch_txn-Holds}
use myduckserver.Applier.Kept.Query.{execute_query_with_engine-Holds}
use myduckserver.Applier.Kept.Rows.{process_row_event-Holds}

module _ {D T P X V B R E O : Type 0} {v : Server D T P V} {p : Positions P} {e : Engine D B R}
    {o : D → O} {J : Core P → O → Type 0} {G : Gtid → Type 0} (laws : Changes v p e o J G)
    (w : Rower B X V) (x : BinlogReader E) (no_index : Bool)
    (received : (f : BinlogFormat) (ev : E) (g : Gtid) (b : Bool)
      → x.gtid f ev ≡ some (g, b)
      → G g) where
  with_format-Holds :
      {A : Type 0} {k : BinlogFormat → Apply D B P A}
      → ((f : BinlogFormat) → Keeps (Holds o J) (k f))
      → Keeps (Holds o J) (with_format v p e w x no_index k)
  with_format-Holds h = match-Keeps (λ r. r.applier.format) (here-Keeps _) h

  strip_by-Holds :
      (now : ℕ) (ev : E) (f : BinlogFormat)
      → Keeps (Holds {B = B} o J) (λ r.
        if is_format_description (x.kind ev)
        then (r, done ev)
        else if (x.strip_checksum f ev).1
        then (r, done (x.strip_checksum f ev).0)
        else (record_error v now checksum_failed >> pure (x.strip_checksum f ev).0) r)
  strip_by-Holds now ev f =
      choice-Keeps (λ r. is_format_description (x.kind ev)) (here-Keeps _)
        (choice-Keeps (λ r. (x.strip_checksum f ev).1) (here-Keeps _)
          (>>-Keeps (record_error-Holds o J v now _) (pure-Keeps _)))

  strip-Holds : (now : ℕ) (ev : E) → Keeps (Holds o J) (strip v p e w x no_index now ev)
  unfolding strip
  strip-Holds now ev = match-Keeps (λ r. r.applier.format) (here-Keeps _) (strip_by-Holds now ev)

  set_variables-Holds :
      (flags : ℕ) (c : Core P) (d : D)
      → J c (o d)
      → J c (o (set_variables v p e w x no_index flags d))
  unfolding set_variables
  set_variables-Holds flags c d h = laws.serving.set_session_variable c _ _ _ (
      laws.serving.set_session_variable c _ _ _
        (laws.serving.set_session_variable c _ _ _ (laws.serving.set_session_variable c _ _ _ h)))

  recorded-Holds :
      (now : ℕ) (q : Applying D B P × Outcome ApplyError Nothing)
      → Holds o J q.0
      → Holds o J (recorded v p e w x no_index now q).0
  recorded-Holds now (r, done _) h = h
  recorded-Holds now (r, failed err) h = (record_error-Holds o J v now _).keeps r h
  recorded-Holds now (r, panicked) h = h

  execute_recorded-Holds :
      (now : ℕ) (q : BinlogQuery) → Keeps (Holds o J) (execute_recorded v p e w x no_index now q)
  unfolding execute_recorded
  execute_recorded-Holds now q = record {
    keeps = λ r h.
        recorded-Holds now _ ((execute_query_with_engine-Holds laws no_index now q).keeps r h);
  }

  execute_query-Holds :
      (now : ℕ) (q : BinlogQuery) (vars : Vars)
      → Keeps (Holds o J) (execute_query v p e w x no_index now q vars)
  execute_query-Holds now q (done (flags, mode)) =
      >>-Keeps (modify-Keeps _ (λ r h. set_variables-Holds flags _ r.database h))
        (>>-Keeps (execute_recorded-Holds now q) (modify-Keeps _ (λ r h. h)))
  execute_query-Holds now q (failed err) = here-Keeps _
  execute_query-Holds now q panicked = here-Keeps _

  process_query-Holds :
      (now : ℕ) (ev : E) → Keeps (Holds o J) (process_query v p e w x no_index now ev)
  unfolding process_query
  process_query-Holds now ev = with_format-Holds λ f.
      match-Keeps (λ r. x.query f ev) (here-Keeps _)
        (λ q.
          execute_query-Holds now q
            (parse_query_event_vars x.query_var f.header_length (x.bytes ev)))

  process_rotate-Holds : (now : ℕ) → Keeps (Holds o J) (process_rotate v p e w x no_index now)
  unfolding process_rotate
  process_rotate-Holds now =
      match-Keeps (λ r. r.applier.current_gtid) (here-Keeps _)
        (λ g. extend_or_commit_batch_txn-Holds laws no_index now)

  process_format_description-Holds :
      (ev : E) → Keeps (Holds o J) (process_format_description v p e w x no_index ev)
  unfolding process_format_description
  process_format_description-Holds ev =
      match-Keeps (λ r. x.format ev) (here-Keeps _) (λ f. record { keeps = λ r h. h })

  process_previous_gtids-Holds :
      (ev : E) → Keeps (Holds o J) (process_previous_gtids v p e w x no_index ev)
  unfolding process_previous_gtids
  process_previous_gtids-Holds ev =
      with_format-Holds λ f. if-Keeps (x.previous_gtids f ev) (pure-Keeps tt) (fail-Keeps _)

  persisted-Holds :
      (uuid : String) (b : Bool) → Keeps (Holds o J) (persisted v p e w x no_index uuid b)
  persisted-Holds uuid true = record { keeps = λ r h. h }
  persisted-Holds uuid false = here-Keeps _

  persist_source_uuid-Holds :
      (g : Gtid) → Keeps (Holds o J) (persist_source_uuid v p e w x no_index g)
  unfolding persist_source_uuid
  persist_source_uuid-Holds g =
      choice-Keeps (λ r. same r.applier.replication_source_uuid "")
        (choice-Keeps (λ r. v.has_configuration r.database)
          (record {
            keeps = λ r h.
                (persisted-Holds (v.source_server g) _).keeps _
                  (laws.serving.put_source_uuid _ (v.source_server g) r.database h);
          })
          (here-Keeps _))
        (here-Keeps _)

  begin_if-Holds : (now : ℕ) (b : Bool) → Keeps (Holds o J) (begin_if v p e w x no_index now b)
  begin_if-Holds now b =
      if-Keeps b (execute_query_with_engine-Holds laws no_index now _) (pure-Keeps tt)

  begin_txn-Holds :
      (now : ℕ) (q : Option (Gtid × Bool))
      → ((g : Gtid) (b : Bool) → q ≡ some (g, b) → G g)
      → Keeps (Holds o J) (begin_txn v p e w x no_index now q)
  unfolding announce
  begin_txn-Holds now none h = fail-Keeps _
  begin_txn-Holds now (some (g, b)) h =
      >>-Keeps (modify-Keeps _ (λ r k. laws.announced _ g _ (h g b refl) k))
        (>>-Keeps (begin_if-Holds now b) (persist_source_uuid-Holds g))

  process_gtid-Holds :
      (now : ℕ) (ev : E) → Keeps (Holds o J) (process_gtid v p e w x no_index now ev)
  unfolding process_gtid
  process_gtid-Holds now ev =
      with_format-Holds λ f. begin_txn-Holds now (x.gtid f ev) (λ g b q. received f ev g b q)

  note_table_map-Holds :
      (now id : ℕ) (t : TableMap) → Keeps (Holds o J) (note_table_map v p e w x no_index now id t)
  unfolding note_table_map
  note_table_map-Holds now id t = if-Keeps (id == 16777215) (modify-Keeps _ (λ r h. h)) (
      >>-Keeps
        (if-Keeps (unsupported t.flags == 0) (pure-Keeps tt) (record_error-Holds o J v now _))
        (modify-Keeps _ (λ r h. h)))

  process_table_map-Holds :
      (now : ℕ) (ev : E) → Keeps (Holds o J) (process_table_map v p e w x no_index now ev)
  unfolding process_table_map
  process_table_map-Holds now ev = with_format-Holds λ f.
      option-Keeps (x.table_map f ev) (fail-Keeps _) (note_table_map-Holds now (x.table_id f ev))

  process_rows_event-Holds :
      (now : ℕ) (event : RowEventType) (ev : E)
      → Keeps (Holds o J) (process_rows_event v p e w x no_index now event ev)
  unfolding process_rows_event rows_applied
  process_rows_event-Holds now event ev = with_format-Holds λ f.
      >>-Keeps (process_row_event-Holds laws w now event (x.table_id f ev) (x.rows f ev))
        (modify-Keeps _ (λ r h. laws.changed _ _ h))

  process_other-Holds : (ev : E) → Keeps (Holds o J) (process_other v p e w x no_index ev)
  unfolding process_other
  process_other-Holds ev =
      option-Keeps (get_elem? (x.bytes ev) 4) panic-Keeps
        (λ b. if-Keeps ((b == 161) || (b == 163)) (pure-Keeps tt) (fail-Keeps _))

  process_kind-Holds :
      (now : ℕ) (k : EventKind) (ev : E)
      → Keeps (Holds o J) (process_kind v p e w x no_index now k ev)
  unfolding process_kind
  process_kind-Holds now rand_event ev = pure-Keeps tt
  process_kind-Holds now xid_event ev = extend_or_commit_batch_txn-Holds laws no_index now
  process_kind-Holds now query_event ev = process_query-Holds now ev
  process_kind-Holds now rotate_event ev = process_rotate-Holds now
  process_kind-Holds now format_description_event ev = process_format_description-Holds ev
  process_kind-Holds now previous_gtids_event ev = process_previous_gtids-Holds ev
  process_kind-Holds now gtid_event ev = process_gtid-Holds now ev
  process_kind-Holds now table_map_event ev = process_table_map-Holds now ev
  process_kind-Holds now (rows_event event) ev = process_rows_event-Holds now event ev
  process_kind-Holds now heartbeat_event ev = pure-Keeps tt
  process_kind-Holds now stop_event ev = pure-Keeps tt
  process_kind-Holds now other_event ev = process_other-Holds ev

  pub process_binlog_event-Holds :
      (now : ℕ) (ev : E) → Keeps (Holds o J) (process_binlog_event v p e w x no_index now ev)
  unfolding process_binlog_event
  process_binlog_event-Holds now ev =
      >>-Keeps (modify-Keeps _ (λ r h. h))
        (>>=-Keeps (strip-Holds now ev) (λ s. process_kind-Holds now (x.kind s) s))
