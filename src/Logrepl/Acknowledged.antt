-- ===== src/Logrepl/Acknowledged.antt =====
-- What the loop tells the primary: a flush position is told only when the database has stored it.
use myduckserver.Base.{
  if_both, ℕ, ◌+◌, Bool, true, false, List, [], ◌∷◌, Outcome, done, failed, panicked, ◌≡◌, ap,
}
use myduckserver.Base.Actions.{Nothing, >>-Keeps, ignoring-Keeps}
use myduckserver.Delta.{time_tick as time_tick_reason, on_close}
use myduckserver.Delta.Flush.{Engine}
use myduckserver.Logrepl.{LogError, reset, Replica}
use myduckserver.Logrepl.Session.{Session}
use myduckserver.Logrepl.Rows.{Writer}
use myduckserver.Logrepl.Messages.{Types}
use myduckserver.Logrepl.Durable.{
  StoresPositions, IsDurable, commit_ongoing_txn_if_clean-IsDurable, rollback_txn-IsDurable,
}
use myduckserver.Logrepl.Durable.Messages.{process_message-IsDurable}
use myduckserver.Logrepl.Loop.{
  Event, connect, deadline, tick, keepalive, xlog, receive_failed, fatal, stop, Loop, shutdown,
  handle_err_with_retry, send_standby_status_update, reconnect, after_rollback, after_tick,
  after_message, on_event, on_lost, step, Reach, here, next,
}

module _ {D : Type 0} (stored : D → ℕ) where
  -- Every position that was told is the one behind the position that the database of that time has stored.
  abbrev pub AllStored : List (ℕ × D) → Type 0
  AllStored [] = Unit {0}
  AllStored ((p, d) ∷ told) = (p ≡ stored d + 1) × AllStored told

  -- The position that the replicator holds is the stored one, and so was each that it told.
  pub record IsAcknowledged {B : Type 0} (l : Loop D B) : Type 0 where
    pub durable : IsDurable stored l.replica
    pub told : AllStored l.sent

module _ {D T B R : Type 0} (db : Session D T) (e : Engine D B R) (stored pending : D → ℕ)
    (laws : StoresPositions db e stored pending) where
  module _ (x : Writer B) (ty : Types) (no_index : Bool) (now : ℕ) where
    shutdown-IsAcknowledged :
        (l : Loop D B)
        → IsAcknowledged stored l
        → IsAcknowledged stored (shutdown db e x ty no_index now l)
    unfolding shutdown
    shutdown-IsAcknowledged l h =
        let k =
          >>-Keeps
            (ignoring-Keeps (
              commit_ongoing_txn_if_clean-IsDurable db e stored pending laws no_index now on_close))
            (ignoring-Keeps (rollback_txn-IsDurable db e stored pending laws)) in
        record { durable = k.keeps l.replica h.durable; told = h.told }

    handle_err_with_retry-IsAcknowledged :
        (increment : Bool) (l : Loop D B)
        → IsAcknowledged stored l
        → IsAcknowledged stored (handle_err_with_retry db e x ty no_index now increment l)
    unfolding handle_err_with_retry
    handle_err_with_retry-IsAcknowledged increment l h =
        if_both (IsAcknowledged stored) _ (record { durable = h.durable; told = h.told })
          (shutdown-IsAcknowledged _ (record { durable = h.durable; told = h.told }))

    send_standby_status_update-IsAcknowledged :
        (ok : Bool) (l : Loop D B)
        → IsAcknowledged stored l
        → IsAcknowledged stored (send_standby_status_update db e x ty no_index now ok l)
    unfolding send_standby_status_update
    send_standby_status_update-IsAcknowledged true l h = record {
      durable = h.durable;
      told = (ap (λ n. n + 1) h.durable, h.told);
    }
    send_standby_status_update-IsAcknowledged false l h =
        handle_err_with_retry-IsAcknowledged false l h

    after_rollback-IsAcknowledged :
        (l : Loop D B) (o : Replica D B × Outcome LogError Nothing)
        → IsDurable stored o.0
        → AllStored stored l.sent
        → IsAcknowledged stored (after_rollback db e x ty no_index now l o)
    unfolding reset
    after_rollback-IsAcknowledged l (r, done _) h t = record { durable = h; told = t }
    after_rollback-IsAcknowledged l (r, failed _) h t =
        shutdown-IsAcknowledged _ (record { durable = h; told = t })
    after_rollback-IsAcknowledged l (r, panicked) h t =
        shutdown-IsAcknowledged _ (record { durable = h; told = t })

    after_tick-IsAcknowledged :
        (ok : Bool) (l : Loop D B) (o : Replica D B × Outcome LogError Nothing)
        → IsDurable stored o.0
        → AllStored stored l.sent
        → IsAcknowledged stored (after_tick db e x ty no_index now ok l o)
    after_tick-IsAcknowledged ok l (r, done _) h t =
        send_standby_status_update-IsAcknowledged ok _ (record { durable = h; told = t })
    after_tick-IsAcknowledged ok l (r, failed _) h t =
        shutdown-IsAcknowledged _ (record { durable = h; told = t })
    after_tick-IsAcknowledged ok l (r, panicked) h t =
        shutdown-IsAcknowledged _ (record { durable = h; told = t })

    after_message-IsAcknowledged :
        (ok : Bool) (l : Loop D B) (o : Replica D B × Outcome LogError Bool)
        → IsDurable stored o.0
        → AllStored stored l.sent
        → IsAcknowledged stored (after_message db e x ty no_index now ok l o)
    after_message-IsAcknowledged ok l (r, done true) h t =
        send_standby_status_update-IsAcknowledged ok _ (record { durable = h; told = t })
    after_message-IsAcknowledged ok l (r, done false) h t = record { durable = h; told = t }
    after_message-IsAcknowledged ok l (r, failed _) h t =
        handle_err_with_retry-IsAcknowledged true _ (record { durable = h; told = t })
    after_message-IsAcknowledged ok l (r, panicked) h t =
        shutdown-IsAcknowledged _ (record { durable = h; told = t })

    on_event-IsAcknowledged :
        (ev : Event) (l : Loop D B)
        → IsAcknowledged stored l
        → IsAcknowledged stored (on_event db e x ty no_index now ev l)
    unfolding on_event
    on_event-IsAcknowledged (connect ok) l h = h
    on_event-IsAcknowledged (deadline ok) l h =
        if_both (IsAcknowledged stored) _ (send_standby_status_update-IsAcknowledged ok l h) h
    on_event-IsAcknowledged (tick ok) l h =
        if_both (IsAcknowledged stored) _
          (after_tick-IsAcknowledged ok l _
            ((commit_ongoing_txn_if_clean-IsDurable db e stored pending laws no_index now
                time_tick_reason).keeps
              l.replica h.durable)
            h.told)
          h
    on_event-IsAcknowledged (keepalive wal_end reply ok) l h =
        if_both (IsAcknowledged stored) reply
          (send_standby_status_update-IsAcknowledged ok _
            (record { durable = h.durable; told = h.told }))
          (record { durable = h.durable; told = h.told })
    on_event-IsAcknowledged (xlog wal_end m ok) l h =
        after_message-IsAcknowledged ok l _
          ((process_message-IsDurable db e stored pending laws x ty no_index now wal_end m).keeps
            l.replica h.durable)
          h.told
    on_event-IsAcknowledged receive_failed l h = handle_err_with_retry-IsAcknowledged true l h
    on_event-IsAcknowledged fatal l h = shutdown-IsAcknowledged l h
    on_event-IsAcknowledged stop l h = shutdown-IsAcknowledged l h

    on_lost-IsAcknowledged :
        (ev : Event) (l : Loop D B)
        → IsAcknowledged stored l
        → IsAcknowledged stored (on_lost db e x ty no_index now ev l)
    unfolding on_lost reconnect
    on_lost-IsAcknowledged (connect true) l h =
        after_rollback-IsAcknowledged l _
          ((rollback_txn-IsDurable db e stored pending laws).keeps l.replica h.durable) h.told
    on_lost-IsAcknowledged (connect false) l h = handle_err_with_retry-IsAcknowledged true l h
    on_lost-IsAcknowledged stop l h = shutdown-IsAcknowledged l h
    on_lost-IsAcknowledged (deadline ok) l h = h
    on_lost-IsAcknowledged (tick ok) l h = h
    on_lost-IsAcknowledged (keepalive wal_end reply ok) l h = h
    on_lost-IsAcknowledged (xlog wal_end m ok) l h = h
    on_lost-IsAcknowledged receive_failed l h = h
    on_lost-IsAcknowledged fatal l h = h

    step-IsAcknowledged :
        (ev : Event) (l : Loop D B)
        → IsAcknowledged stored l
        → IsAcknowledged stored (step db e x ty no_index now ev l)
    unfolding step
    step-IsAcknowledged ev l h = if_both (IsAcknowledged stored) _ h (
        if_both (IsAcknowledged stored) _ (on_event-IsAcknowledged ev l h)
          (on_lost-IsAcknowledged ev l h))

  -- When the session and the engine store positions as StoresPositions says, and the loop starts with the position
  -- that the database has stored, then whatever happens, in whatever order, the position that the replicator holds
  -- is always the stored one, and every flush position that the primary was told is the one behind the position
  -- that was stored at that time.
  pub Reach-IsAcknowledged :
      (x : Writer B) (ty : Types) (no_index : Bool) {l m : Loop D B}
      → Reach db e x ty no_index l m
      → IsAcknowledged stored l
      → IsAcknowledged stored m
  Reach-IsAcknowledged x ty no_index here h = h
  Reach-IsAcknowledged x ty no_index (next now ev r) h =
      step-IsAcknowledged x ty no_index now ev _ (Reach-IsAcknowledged x ty no_index r h)
