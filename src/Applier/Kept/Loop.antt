-- ===== src/Applier/Kept/Loop.antt =====
-- What the turns of the loop keep.
use Prim.Native.String.{String}
use myduckserver.Base.{
  Option, none, refl, ℕ, Bool, true, false, not, if◌then◌else◌, some, Outcome, done, failed,
  panicked, ◌≡◌,
}
use myduckserver.Base.Actions.{Nothing}
use myduckserver.Delta.{on_close}
use myduckserver.Delta.Flush.{Engine}
use myduckserver.Applier.{Gtid, Positions, BinlogFormat, ApplyError, Applying}
use myduckserver.Applier.Server.{Server}
use myduckserver.Applier.Commit.{normal_commit}
use myduckserver.Applier.Rows.{Rower}
use myduckserver.Applier.Events.{BinlogReader}
use myduckserver.Applier.Loop.{
  Connected, connected, connect_stopped, connect_failed, streaming, connect_to, Happening,
  connecting, binlog_event, sql_error, producer_error, ticking, stopping, Handler, log_outcome,
  on_tick, on_stop, handle, connect, turn, Reaches, at_start, turned,
}
use myduckserver.Applier.Connecting.{
  start_position, begin_stream, begun_at, start_replication_event_stream, note_source_uuid,
}
use myduckserver.Applier.Kept.{Core, core, Changes, Holds, record_error-Holds}
use myduckserver.Applier.Kept.Commit.{commit_ongoing_txn-Holds, extend_or_commit_batch_txn-Holds}
use myduckserver.Applier.Kept.Events.{process_binlog_event-Holds}

module _ {D T P X V B R E O : Type 0} {v : Server D T P V} {p : Positions P} {e : Engine D B R}
    {o : D → O} {J : Core P → O → Type 0} {G : Gtid → Type 0} (laws : Changes v p e o J G)
    (w : Rower B X V) (x : BinlogReader E) (no_index : Bool)
    (received : (f : BinlogFormat) (ev : E) (g : Gtid) (b : Bool)
      → x.gtid f ev ≡ some (g, b)
      → G g) where
  abbrev IsHeld : Handler D B P → Type 0
  IsHeld h = Holds o J h.applying

  log_outcome-IsHeld :
      (now : ℕ) (h : Handler D B P) (q : Applying D B P × Outcome ApplyError Nothing)
      → Holds o J q.0
      → IsHeld (log_outcome v p e w x no_index now h q)
  unfolding log_outcome
  log_outcome-IsHeld now h (r, done _) k = k
  log_outcome-IsHeld now h (r, failed err) k = (record_error-Holds o J v now err).keeps r k
  log_outcome-IsHeld now h (r, panicked) k = k

  choice-IsHeld :
      (b : Bool) (g h : Handler D B P) → IsHeld g → IsHeld h → IsHeld (if b then g else h)
  choice-IsHeld true g h k l = k
  choice-IsHeld false g h k l = l

  on_tick-IsHeld :
      (now : ℕ) (h : Handler D B P) → IsHeld h → IsHeld (on_tick v p e w x no_index now h)
  unfolding on_tick
  on_tick-IsHeld now h k =
      choice-IsHeld _ _ h
        (log_outcome-IsHeld now h _
          ((extend_or_commit_batch_txn-Holds laws no_index now).keeps h.applying k))
        k

  on_stop-IsHeld :
      (now : ℕ) (h : Handler D B P) → IsHeld h → IsHeld (on_stop v p e w x no_index now h)
  unfolding on_stop
  on_stop-IsHeld now h k =
      choice-IsHeld _ _ _
        (log_outcome-IsHeld now h _
          ((commit_ongoing_txn-Holds laws no_index now normal_commit on_close).keeps h.applying k))
        k

  handle-IsHeld :
      (now : ℕ) (ev : Happening E) (h : Handler D B P)
      → IsHeld h
      → IsHeld (handle v p e w x no_index now ev h)
  unfolding handle
  handle-IsHeld now (connecting c) h k = k
  handle-IsHeld now (binlog_event ev) h k =
      log_outcome-IsHeld now h _
        ((process_binlog_event-Holds laws w x no_index received now ev).keeps h.applying k)
  handle-IsHeld now (sql_error message bad) h k = choice-IsHeld bad _ h k k
  handle-IsHeld now (producer_error err) h k = (record_error-Holds o J v now err).keeps h.applying k
  handle-IsHeld now ticking h k = on_tick-IsHeld now h k
  handle-IsHeld now stopping h k = on_stop-IsHeld now h k

  begun_at-IsHeld :
      (now : ℕ) (flavor : String) (gtid_mode : Bool) (q : Option P) (r : Applying D B P)
      → start_position v p flavor gtid_mode r.database ≡ q
      → Holds o J r
      → Holds o J (begun_at v p now gtid_mode q r).0
  unfolding begin_stream
  begun_at-IsHeld now flavor gtid_mode none r s k = k
  begun_at-IsHeld now flavor true (some q) r s k =
      laws.serving.assign_gtid_executed _ r.database
        (laws.restarted (core r.applier) flavor true q r.database s k)
  begun_at-IsHeld now flavor false (some q) r s k =
      laws.restarted (core r.applier) flavor false q r.database s k

  start_replication_event_stream-IsHeld :
      (now : ℕ) (flavor : String) (gtid_mode : Bool) (r : Applying D B P)
      → Holds o J r
      → Holds o J (start_replication_event_stream v p now flavor gtid_mode r).0
  unfolding start_replication_event_stream
  start_replication_event_stream-IsHeld now flavor gtid_mode r k =
      by_id (v.load_replica_server_id r.database) _
        (begun_at-IsHeld now flavor gtid_mode _ r refl k)
    where
      by_id :
          (b : Bool) (q : Applying D B P × Bool)
          → Holds o J q.0
          → Holds o J (if b then q else (r, false)).0
      by_id true q h = h
      by_id false q h = k

  streaming-IsHeld :
      (now : ℕ) (h : Handler D B P) (q : Applying D B P × Bool)
      → Holds o J q.0
      → IsHeld (streaming v p e w x no_index now h q)
  streaming-IsHeld now h (r, true) k = k
  streaming-IsHeld now h (r, false) k = (record_error-Holds o J v now _).keeps r k

  connect_to-IsHeld :
      (now : ℕ) (c : Connected) (h : Handler D B P)
      → IsHeld h
      → IsHeld (connect_to v p e w x no_index now c h)
  connect_to-IsHeld now (connected flavor gtid_mode) h k =
      streaming-IsHeld now h _
        (start_replication_event_stream-IsHeld now flavor gtid_mode h.applying k)
  connect_to-IsHeld now connect_stopped h k = k
  connect_to-IsHeld now connect_failed h k = (record_error-Holds o J v now _).keeps h.applying k

  connect-IsHeld :
      (now : ℕ) (ev : Happening E) (h : Handler D B P)
      → IsHeld h
      → IsHeld (connect v p e w x no_index now ev h)
  unfolding connect note_source_uuid
  connect-IsHeld now (connecting c) h k = connect_to-IsHeld now c _ k
  connect-IsHeld now (binlog_event ev) h k = k
  connect-IsHeld now (sql_error message bad) h k = k
  connect-IsHeld now (producer_error err) h k = k
  connect-IsHeld now ticking h k = k
  connect-IsHeld now stopping h k = k

  turn-IsHeld :
      (now : ℕ) (ev : Happening E) (h : Handler D B P)
      → IsHeld h
      → IsHeld (turn v p e w x no_index now ev h)
  unfolding turn
  turn-IsHeld now ev h k =
      let on = handle v p e w x no_index now ev h in
      let off = connect v p e w x no_index now ev h in
      choice-IsHeld (not h.running) h (if h.has_conn then on else off) k
        (choice-IsHeld h.has_conn on off (handle-IsHeld now ev h k) (connect-IsHeld now ev h k))

  pub Reaches-IsHeld :
      (h : Handler D B P) {k : Handler D B P} → Reaches v p e w x no_index h k → IsHeld h → IsHeld k
  Reaches-IsHeld h at_start q = q
  Reaches-IsHeld h (turned now ev s) q = turn-IsHeld now ev _ (Reaches-IsHeld h s q)
