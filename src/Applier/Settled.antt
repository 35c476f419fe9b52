-- ===== src/Applier/Settled.antt =====
-- What a commit that succeeds leaves: the position that is stored is the one that is shown.
use myduckserver.Base.{ℕ, Bool, true, false, if◌then◌else◌, ◌≡◌, refl, ◌∙◌, ap, ◌⊎◌, inl, inr, done}
use myduckserver.Base.Actions.{modify}
use myduckserver.Base.Leads.{Leads, >>-Leads, modify-Leads, Keeps-Leads}
use myduckserver.Delta.{FlushReason}
use myduckserver.Delta.Flush.{Engine}
use myduckserver.Applier.{Positions, Applier, Applying, set_applier}
use myduckserver.Applier.Server.{Server}
use myduckserver.Applier.Commit.{
  CommitKind, normal_commit, implicit_commit_before_stmt, implicit_commit_after_stmt, is_before,
  note_gtid, settle, position_reached, commit_ongoing_txn, extend_or_commit_batch_txn,
  append_pending,
}
use myduckserver.Applier.Kept.{Core, core, core_serving}
use myduckserver.Applier.Kept.Commit.{
  flush_delta_buffer-Holds, save_position-Holds, commit_session-Holds, commit_txn_in_progress-Holds,
}
use myduckserver.Applier.Kept.Query.{extendable_ongoing}

-- A commit in the core: the GTID that is noted, and the flags and the position behind it.
abbrev pub noted_core : {P : Type 0} → Positions P → CommitKind → Core P → Core P
noted_core p kind c =
    if is_before kind then c else record c { pending = p.append_gtid c.pending c.current }

abbrev pub settled_core : {P : Type 0} → Core P → Core P
settled_core c = record c { reached = c.pending; ongoing = false; txn = false; stream = false }

module _ {D T P V B R : Type 0} (v : Server D T P V) (p : Positions P) (e : Engine D B R)
    (no_index : Bool) where
  abbrev At : Core P → Applying D B P → Type 0
  At c r = core r.applier ≡ c

  pub note_gtid-core :
      (kind : CommitKind) (c : Core P) (a : Applier B P)
      → core a ≡ c
      → core (note_gtid v p e no_index kind a) ≡ noted_core p kind c
  unfolding note_gtid
  note_gtid-core normal_commit c a h = rw (← h) refl
  note_gtid-core implicit_commit_before_stmt c a h = h
  note_gtid-core implicit_commit_after_stmt c a h = rw (← h) refl

  settle-Leads :
      (now : ℕ) (c : Core P) → Leads (At c) (At (settled_core c)) (settle v p e no_index now)
  unfolding settle position_reached
  settle-Leads now c =
      >>-Leads {Q = At (settled_core c)} (modify-Leads _ (λ r h. rw (← h) refl))
        (modify-Leads _ (λ r h. h))

  -- The core behind a commit that succeeds.
  pub commit_ongoing_txn-Leads :
      (now : ℕ) (kind : CommitKind) (reason : FlushReason) (c : Core P)
      → Leads
          (At c)
          (At (settled_core (noted_core p kind c)))
          (commit_ongoing_txn v p e no_index now kind reason)
  unfolding commit_ongoing_txn
  commit_ongoing_txn-Leads now kind reason c =
      let d = noted_core p kind c in
      >>-Leads
        (Keeps-Leads
          (flush_delta_buffer-Holds (core_serving v e (λ k. k ≡ c)) p no_index now reason))
        (>>-Leads {Q = At d} (modify-Leads _ (λ r h. note_gtid-core kind c r.applier h)) (
          >>-Leads (Keeps-Leads (save_position-Holds (core_serving v e (λ k. k ≡ d)) p no_index)) (
            >>-Leads
              (Keeps-Leads (commit_session-Holds (core_serving v e (λ k. k ≡ d)) p no_index kind))
              (>>-Leads (Keeps-Leads (commit_txn_in_progress-Holds (core_serving v e (λ k. k ≡ d))))
                (settle-Leads now d)))))

  commit_or_extend-core :
      (now : ℕ) (b : Bool) (reason : FlushReason) (c : Core P)
      → (r : Applying D B P) → core r.applier ≡ c
      → (b ≡ true → c.ongoing ≡ true)
      → let out =
          if b
          then modify
              (set_applier
                (λ a. record (append_pending p a.current_gtid a) { dirty_stream = false }))
              r
          else commit_ongoing_txn v p e no_index now normal_commit reason r in
        out.1 ≡ done tt
        → let k = core out.0.applier in
          (k.pending ≡ p.append_gtid c.pending c.current)
          × (k.stream ≡ false)
          × ((k.ongoing ≡ true) ⊎ (k.reached ≡ k.pending))
  unfolding modify
  commit_or_extend-core now true reason c r h t q =
      rw (← h) (refl, refl, inl (ap (λ k. k.ongoing) h ∙ t refl))
  commit_or_extend-core now false reason c r h t q =
      rw ((commit_ongoing_txn-Leads now normal_commit reason c).leads r tt h q)
        (refl, refl, inr refl)

  -- What ends a transaction of the primary, if it returns without an error: its GTID is at the end of the
  -- pending position, the stream is clean, and unless the batch goes on the position is reached.
  pub extend_or_commit_batch_txn-core :
      (now : ℕ) (r : Applying D B P)
      → let out = extend_or_commit_batch_txn v p e no_index now r in
        out.1 ≡ done tt
        → let a = core r.applier in
          let k = core out.0.applier in
          (k.pending ≡ p.append_gtid a.pending a.current)
          × (k.stream ≡ false)
          × ((k.ongoing ≡ true) ⊎ (k.reached ≡ k.pending))
  unfolding extend_or_commit_batch_txn
  extend_or_commit_batch_txn-core now r q =
      commit_or_extend-core now _ _ (core r.applier) r refl (extendable_ongoing now r.applier) q
