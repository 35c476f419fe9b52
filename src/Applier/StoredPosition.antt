-- ===== src/Applier/StoredPosition.antt =====
-- What a commit that succeeds has stored: the position that it shows.
use myduckserver.Base.{
  ℕ, Bool, true, false, if◌then◌else◌, Option, none, some, ◌≡◌, refl, sym, ap, ◌∙◌, done, failed,
}
use myduckserver.Base.Actions.{pure, fail, modify}
use myduckserver.Base.Leads.{Leads, >>-Leads, modify-Leads, Keeps-Leads}
use myduckserver.Delta.{FlushReason}
use myduckserver.Delta.Flush.{Engine}
use myduckserver.Applier.{Positions, empty_position, Applying}
use myduckserver.Applier.Server.{
  Server, Executed, nothing_to_commit, execution_failed, rows_read, reading_failed, Committed,
  committed_ok, tx_done, not_committed,
}
use myduckserver.Applier.Commit.{
  CommitKind, save_position, saved, commit_session, commit_in, closed, commit_txn_in_progress,
  settle, position_reached, commit_ongoing_txn, execute, executed,
}
use myduckserver.Applier.Kept.{Core, core, core_serving}
use myduckserver.Applier.Kept.Commit.{flush_delta_buffer-Holds}
use myduckserver.Applier.Announced.{Stored}
use myduckserver.Applier.Settled.{noted_core, settled_core, note_gtid-core}

-- Whether engine.Query and the loop over its rows end without an error.
abbrev pub went : Executed → Bool
went nothing_to_commit = true
went execution_failed = false
went rows_read = true
went reading_failed = false

abbrev pub is_committed : Committed → Bool
is_committed not_committed = false
is_committed _ = true

-- What the server does to the two positions on the way of a commit. Outside a transaction what is read is
-- what is stored; a transaction that is done already has nothing more to store.
pub record CommitsPositions {D T P V : Type 0} (v : Server D T P V) (o : D → Stored P)
    : Type 0 where
  pub upsert :
      (q : P) (d : D) → (v.upsert_position q d).1 ≡ true → (o (v.upsert_position q d).0).written ≡ q
  pub commit_query :
      (d : D)
      → went (v.query "COMMIT" d).1 ≡ true
      → (o (v.query "COMMIT" d).0).written ≡ (o d).written
  pub no_txn : (d : D) → v.try_get_txn d ≡ none → (o d).stored ≡ (o d).written
  pub commit :
      (t : T) (d : D)
      → is_committed (v.commit t d).1 ≡ true
      → (o (v.commit t d).0).stored ≡ (o d).written
  pub close_txn : (d : D) → (o (v.close_txn d)).stored ≡ (o d).stored
  pub assign_gtid_executed :
      (q : P) (d : D) → (o (v.assign_gtid_executed q d)).stored ≡ (o d).stored

module _ {D T P V B R : Type 0} (v : Server D T P V) (p : Positions P) (e : Engine D B R)
    (no_index : Bool) (o : D → Stored P) (laws : CommitsPositions v o) where
  abbrev At : Core P → Applying D B P → Type 0
  At c r = core r.applier ≡ c

  abbrev Written : Core P → Applying D B P → Type 0
  Written c r = At c r × ((o r.database).written ≡ c.pending)

  abbrev Kept : Core P → Applying D B P → Type 0
  Kept c r = At c r × ((o r.database).stored ≡ c.pending)

  saved-Written :
      (c : Core P) (q : D × Bool) (r : Applying D B P)
      → At c r
      → (q.1 ≡ true → (o q.0).written ≡ c.pending)
      → (saved v p e no_index q r).1 ≡ done tt
      → Written c (saved v p e no_index q r).0
  saved-Written c (d, true) r h k z = (h, k refl)
  saved-Written c (d, false) r h k z = cc

  tested-Written :
      (c : Core P) (b : Bool) (q : D × Bool) (r : Applying D B P)
      → At c r
      → (q.1 ≡ true → (o q.0).written ≡ c.pending)
      → let out = if b then (r, failed empty_position) else saved v p e no_index q r in
        out.1 ≡ done tt → Written c out.0
  tested-Written c true q r h k z = cc
  tested-Written c false q r h k z = saved-Written c q r h k z

  save_position-Leads : (c : Core P) → Leads (At c) (Written c) (save_position v p e no_index)
  unfolding save_position
  save_position-Leads c = record {
    leads = λ r a h z.
        tested-Written c (p.is_zero r.applier.pending_position)
          (v.upsert_position r.applier.pending_position r.database) r h
          (λ t. laws.upsert _ r.database t ∙ ap (λ k. k.pending) h) z;
  }

  executed-Written :
      (c : Core P) (x : Executed) (r : Applying D B P)
      → (went x ≡ true → Written c r)
      → (executed v x r).1 ≡ done tt
      → Written c (executed v x r).0
  unfolding pure fail
  executed-Written c nothing_to_commit r h z = h refl
  executed-Written c execution_failed r h z = cc
  executed-Written c rows_read r h z = h refl
  executed-Written c reading_failed r h z = cc

  execute-Written : (c : Core P) → Leads (Written c) (Written c) (execute v {B = B} "COMMIT")
  unfolding execute
  execute-Written c = record {
    leads = λ r a h z. executed-Written c _ _ (λ t. (h.0, laws.commit_query r.database t ∙ h.1)) z;
  }

  session_committed-Written :
      (c : Core P) (b : Bool) (r : Applying D B P)
      → Written c r
      → let out = if b then execute v "COMMIT" r else (r, done tt) in
        out.1 ≡ done tt → Written c out.0
  session_committed-Written c true r h z = (execute-Written c).leads r tt h z
  session_committed-Written c false r h z = h

  commit_session-Leads :
      (kind : CommitKind) (c : Core P)
      → Leads (Written c) (Written c) (commit_session v p e no_index kind)
  unfolding commit_session
  commit_session-Leads kind c = record { leads = λ r a h z. session_committed-Written c _ r h z }

  closed-Kept :
      (c : Core P) (x : Committed) (r : Applying D B P)
      → (is_committed x ≡ true → Kept c r)
      → (closed v x r).1 ≡ done tt
      → Kept c (closed v x r).0
  unfolding fail modify
  closed-Kept c committed_ok r h z = ((h refl).0, laws.close_txn r.database ∙ (h refl).1)
  closed-Kept c tx_done r h z = ((h refl).0, laws.close_txn r.database ∙ (h refl).1)
  closed-Kept c not_committed r h z = cc

  commit_in-Kept :
      (c : Core P) (t : Option T) (r : Applying D B P)
      → v.try_get_txn r.database ≡ t
      → Written c r
      → (commit_in v t r).1 ≡ done tt
      → Kept c (commit_in v t r).0
  commit_in-Kept c none r q h z = (h.0, laws.no_txn r.database q ∙ h.1)
  commit_in-Kept c (some tx) r q h z =
      closed-Kept c _ _ (λ t. (h.0, laws.commit tx r.database t ∙ h.1)) z

  commit_txn_in_progress-Leads :
      (c : Core P) → Leads (Written c) (Kept c) (commit_txn_in_progress v {B = B})
  unfolding commit_txn_in_progress
  commit_txn_in_progress-Leads c = record { leads = λ r a h z. commit_in-Kept c _ r refl h z }

  settle-Leads :
      (now : ℕ) (c : Core P) → Leads (Kept c) (Kept (settled_core c)) (settle v p e no_index now)
  unfolding settle position_reached
  settle-Leads now c =
      >>-Leads {Q = Kept (settled_core c)} (modify-Leads _ (λ r h. (rw (← h.0) refl, h.1)))
        (modify-Leads _ (λ r h. (h.0, laws.assign_gtid_executed _ r.database ∙ h.1)))

  commit_ongoing_txn-Kept :
      (now : ℕ) (kind : CommitKind) (reason : FlushReason) (c : Core P)
      → Leads
          (At c)
          (Kept (settled_core (noted_core p kind c)))
          (commit_ongoing_txn v p e no_index now kind reason)
  unfolding commit_ongoing_txn
  commit_ongoing_txn-Kept now kind reason c =
      let d = noted_core p kind c in
      >>-Leads
        (Keeps-Leads
          (flush_delta_buffer-Holds (core_serving v e (λ k. k ≡ c)) p no_index now reason))
        (>>-Leads {Q = At d}
          (modify-Leads _ (λ r h. note_gtid-core v p e no_index kind c r.applier h))
          (>>-Leads (save_position-Leads d) (
            >>-Leads (commit_session-Leads kind d)
              (>>-Leads (commit_txn_in_progress-Leads d) (settle-Leads now d)))))

  -- A commit that returns without an error has stored the position that it shows: the pending one, with the
  -- GTID that is processed unless the commit is the implicit one before a statement. No flag stays set.
  pub commit_ongoing_txn-stored :
      (now : ℕ) (kind : CommitKind) (reason : FlushReason) (r : Applying D B P)
      → let out = commit_ongoing_txn v p e no_index now kind reason r in
        out.1 ≡ done tt
        → (core out.0.applier ≡ settled_core (noted_core p kind (core r.applier)))
          × ((o out.0.database).stored ≡ out.0.applier.current_position)
  commit_ongoing_txn-stored now kind reason r z =
      let (c, k) = (commit_ongoing_txn-Kept now kind reason (core r.applier)).leads r tt refl z in
      (c, k ∙ sym (ap (λ s. s.reached) c))
