-- ===== src/Logrepl/Failures.antt =====
-- How many failures the loop of StartReplication outlives.
use myduckserver.Base.{
  ℕ, ◌+◌, ◌-◌, ◌≤◌, ◌<◌, ltb, if_both, if◌then◌else◌, Bool, true, false, not, List, [], ◌∷◌,
  Outcome, done, failed, panicked, ◌≡◌, refl, arith,
}
use myduckserver.Base.Actions.{Nothing}
use myduckserver.Delta.{time_tick as time_tick_reason}
use myduckserver.Delta.Flush.{Engine}
use myduckserver.Logrepl.{LogError, Replica}
use myduckserver.Logrepl.Session.{Session}
use myduckserver.Logrepl.Rows.{Writer}
use myduckserver.Logrepl.Commit.{commit_ongoing_txn_if_clean}
use myduckserver.Logrepl.Messages.{Types, process_message}
use myduckserver.Logrepl.Loop.{
  max_consecutive_failures, Event, connect, deadline, tick, keepalive, xlog, receive_failed, fatal,
  stop, Loop, shutdown, handle_err_with_retry, send_standby_status_update, reconnect,
  after_rollback, after_tick, after_message, on_event, on_lost, step,
}

-- Whether a connection fails by the event: it is lost, or it is not there and cannot be opened.
abbrev fails : Bool → Event → Bool
fails true receive_failed = true
fails false (connect ok) = not ok
fails _ _ = false

module _ {D T B R : Type 0} (db : Session D T) (e : Engine D B R) (x : Writer B) (ty : Types)
    (no_index : Bool) where
  -- The loop behind the events, and the number of connections that failed on the way.
  abbrev pub run : List (ℕ × Event) → Loop D B → Loop D B
  run [] l = l
  run ((now, ev) ∷ evs) l = run evs (step db e x ty no_index now ev l)

  abbrev pub failures : List (ℕ × Event) → Loop D B → ℕ
  failures [] l = 0
  failures ((now, ev) ∷ evs) l =
      let rest = failures evs (step db e x ty no_index now ev l) in
      if fails l.connected ev then rest + 1 else rest

  -- A step that goes on has at least `n` failures on its count, and fewer than the maximum.
  record IsCounted (n : ℕ) (l : Loop D B) : Type 0 where
    counted : l.running ≡ true → (n ≤ l.conn_err_cnt) × (l.conn_err_cnt < max_consecutive_failures)

  shutdown-IsCounted : (now n : ℕ) (l : Loop D B) → IsCounted n (shutdown db e x ty no_index now l)
  unfolding shutdown
  shutdown-IsCounted now n l = record { counted = λ h. ground arith }

  handle_err_with_retry-IsCounted :
      (now : ℕ) (increment : Bool) (n : ℕ) (l : Loop D B)
      → (n ≤ (if increment then l.conn_err_cnt + 1 else l.conn_err_cnt))
      → IsCounted n (handle_err_with_retry db e x ty no_index now increment l)
  unfolding handle_err_with_retry shutdown
  handle_err_with_retry-IsCounted now increment n l p = record { counted = λ h. ground arith }

  module _ (now : ℕ) (ok : Bool) (n : ℕ) (l : Loop D B) (p : n ≤ l.conn_err_cnt)
      (q : l.conn_err_cnt < max_consecutive_failures) where
    send_standby_status_update-IsCounted :
        IsCounted n (send_standby_status_update db e x ty no_index now ok l)
    unfolding send_standby_status_update
    send_standby_status_update-IsCounted =
        if_both (IsCounted n) ok (record { counted = λ h. (p, q) })
          (handle_err_with_retry-IsCounted now false n l p)

    after_rollback-IsCounted :
        (o : Replica D B × Outcome LogError Nothing)
        → IsCounted n (after_rollback db e x ty no_index now l o)
    after_rollback-IsCounted (r, done _) = record { counted = λ h. (p, q) }
    after_rollback-IsCounted (r, failed _) = shutdown-IsCounted now n _
    after_rollback-IsCounted (r, panicked) = shutdown-IsCounted now n _

  module _ (now : ℕ) (ok : Bool) (n : ℕ) (l : Loop D B) (p : n ≤ l.conn_err_cnt)
      (q : l.conn_err_cnt < max_consecutive_failures) where
    after_tick-IsCounted :
        (o : Replica D B × Outcome LogError Nothing)
        → IsCounted n (after_tick db e x ty no_index now ok l o)
    after_tick-IsCounted (r, done _) =
        send_standby_status_update-IsCounted now ok n (record l { replica = r }) p q
    after_tick-IsCounted (r, failed _) = shutdown-IsCounted now n _
    after_tick-IsCounted (r, panicked) = shutdown-IsCounted now n _

    after_message-IsCounted :
        (o : Replica D B × Outcome LogError Bool)
        → IsCounted n (after_message db e x ty no_index now ok l o)
    after_message-IsCounted (r, done true) =
        send_standby_status_update-IsCounted now ok n (record l { replica = r }) p q
    after_message-IsCounted (r, done false) = record { counted = λ h. (p, q) }
    after_message-IsCounted (r, failed _) =
        handle_err_with_retry-IsCounted now true n (record l { replica = r }) (omega arith)
    after_message-IsCounted (r, panicked) = shutdown-IsCounted now n _

  module _ (now n : ℕ) (l : Loop D B) (p : n ≤ l.conn_err_cnt)
      (q : l.conn_err_cnt < max_consecutive_failures) where
    on_event-IsCounted :
        (ev : Event)
        → IsCounted (if fails true ev then n + 1 else n) (on_event db e x ty no_index now ev l)
    unfolding on_event
    on_event-IsCounted (connect ok) = record { counted = λ h. (p, q) }
    on_event-IsCounted (deadline ok) =
        if_both (IsCounted n) (ltb 0 l.replica.state.last_received_lsn) {y = l}
          (send_standby_status_update-IsCounted now ok n l p q) (record { counted = λ h. (p, q) })
    on_event-IsCounted (tick ok) =
        if_both (IsCounted n) (ltb 200 (now - l.replica.state.last_commit_time)) {y = l}
          (after_tick-IsCounted now ok n l p q
            (commit_ongoing_txn_if_clean db e no_index now time_tick_reason l.replica))
          (record { counted = λ h. (p, q) })
    on_event-IsCounted (keepalive wal_end reply ok) =
        if_both (IsCounted n) reply (send_standby_status_update-IsCounted now ok n _ p q)
          (record { counted = λ h. (p, q) })
    on_event-IsCounted (xlog wal_end m ok) =
        after_message-IsCounted now ok n l p q
          (process_message db e x ty no_index now wal_end m l.replica)
    on_event-IsCounted receive_failed =
        handle_err_with_retry-IsCounted now true (n + 1) l (omega arith)
    on_event-IsCounted fatal = shutdown-IsCounted now n l
    on_event-IsCounted stop = shutdown-IsCounted now n l

    on_lost-IsCounted :
        (ev : Event)
        → IsCounted (if fails false ev then n + 1 else n) (on_lost db e x ty no_index now ev l)
    unfolding on_lost reconnect
    on_lost-IsCounted (connect true) = after_rollback-IsCounted now true n l p q _
    on_lost-IsCounted (connect false) =
        handle_err_with_retry-IsCounted now true (n + 1) l (omega arith)
    on_lost-IsCounted stop = shutdown-IsCounted now n l
    on_lost-IsCounted (deadline ok) = record { counted = λ h. (p, q) }
    on_lost-IsCounted (tick ok) = record { counted = λ h. (p, q) }
    on_lost-IsCounted (keepalive wal_end reply ok) = record { counted = λ h. (p, q) }
    on_lost-IsCounted (xlog wal_end m ok) = record { counted = λ h. (p, q) }
    on_lost-IsCounted receive_failed = record { counted = λ h. (p, q) }
    on_lost-IsCounted fatal = record { counted = λ h. (p, q) }

  step-IsCounted :
      (now n : ℕ) (ev : Event) (l : Loop D B)
      → IsCounted n l
      → IsCounted (if fails l.connected ev then n + 1 else n) (step db e x ty no_index now ev l)
  unfolding step
  step-IsCounted now n ev l h = by_cases l.running l.connected refl refl
    where
      by_cases :
          (running connected : Bool)
          → l.running ≡ running
          → l.connected ≡ connected
          → IsCounted (if fails connected ev then n + 1 else n) (
              if not running
              then l
              else if connected
              then on_event db e x ty no_index now ev l
              else on_lost db e x ty no_index now ev l)
      by_cases false c r d = record { counted = λ k. ground arith }
      by_cases true true r d = on_event-IsCounted now n l (h.counted r).0 (h.counted r).1 ev
      by_cases true false r d = on_lost-IsCounted now n l (h.counted r).0 (h.counted r).1 ev

  IsCounted-weaken : {m n : ℕ} {l : Loop D B} → m ≤ n → IsCounted n l → IsCounted m l
  IsCounted-weaken p h = record { counted = λ r. (let k = h.counted r in (omega arith, k.1)) }

  run-IsCounted :
      (n : ℕ) (evs : List (ℕ × Event)) (l : Loop D B)
      → IsCounted n l
      → IsCounted (n + failures evs l) (run evs l)
  run-IsCounted n [] l h = IsCounted-weaken (omega arith) h
  run-IsCounted n ((now, ev) ∷ evs) l h =
      let f = if fails l.connected ev then n + 1 else n in
      IsCounted-weaken (ground arith)
        (run-IsCounted f evs (step db e x ty no_index now ev l) (step-IsCounted now n ev l h))

  run-failures :
      (evs : List (ℕ × Event)) (l : Loop D B)
      → l.conn_err_cnt ≡ 0
      → (run evs l).running ≡ true
      → failures evs l < max_consecutive_failures
  run-failures evs l h r =
      let k =
        (run-IsCounted 0 evs l (record { counted = λ r. (omega arith, omega arith) })).counted r in
      omega arith

  -- A loop that starts without a failure on its count is stopped by the time that ten connections have failed,
  -- however many messages were received and however many new connections were opened in between.
  pub run_stops :
      (evs : List (ℕ × Event)) (l : Loop D B)
      → l.conn_err_cnt ≡ 0
      → max_consecutive_failures ≤ failures evs l
      → (run evs l).running ≡ false
  run_stops evs l h p = by_cases (run evs l).running refl
    where
      by_cases : (b : Bool) → (run evs l).running ≡ b → b ≡ false
      by_cases false r = refl
      by_cases true r = (let k = run-failures evs l h r in ground arith)
