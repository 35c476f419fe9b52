-- ===== src/ReplicaController/Resets.antt =====
-- What RESET REPLICA ALL leaves of the replica: its filters and its configuration.
use Prim.Native.String.{String}
use myduckserver.Base.{
  ℕ, ◌+◌, ◌<◌, Bool, true, false, if◌then◌else◌, Option, none, some, List, [], ◌∷◌, Outcome, done,
  failed, panicked, ◌≡◌, ◌≢◌, refl, sym, ◌∙◌, ap, arith,
}
use myduckserver.Base.Maps.{find_id, put_id, find_id-put_id_other}
use myduckserver.Filtering.{FilterConfiguration, new_filter_configuration}
use myduckserver.ReplicaController.{
  load_replication_configuration, delete_replication_configuration, Metadata, ControlError,
  not_configured, invalid_server_id, Controller, Control, no_errors, applier_configuration,
  start_replica, forgotten, reset_replica,
}
use myduckserver.ReplicaController.Options.{
  ReplicationOption, set_filter_option, filters_kept, apply_filter_option, and_then,
  set_replication_filter_options,
}

-- What is deleted from the "mysql" database is gone.
abbrev pub Deletes : {D : Type 0} → Metadata D → Type 0
Deletes {D} m =
    (d : D)
    → (m.remove_replica_source_info d).1 ≡ true
    → m.get_replica_source_info (m.remove_replica_source_info d).0 ≡ none

-- The controller's filters are others than the applier's, which are `x`.
abbrev Apart : {D : Type 0} → Option FilterConfiguration → Controller D → Type 0
Apart x c = (c.applier_filters ≢ c.filters) × (applier_configuration c ≡ x)

module _ {D : Type 0} (upper lower : String → String) (x : Option FilterConfiguration) where
  filters_kept-Apart :
      (c : Controller D) (q : Outcome ControlError FilterConfiguration)
      → Apart x c
      → Apart x (filters_kept upper lower c q).0
  filters_kept-Apart c (done fc) (h, k) =
      (h, find_id-put_id_other c.filters c.applier_filters fc c.heap h ∙ k)
  filters_kept-Apart c (failed err) h = h
  filters_kept-Apart c panicked h = h

  option-Apart :
      (o : ReplicationOption) (fc : Option FilterConfiguration) (c : Controller D)
      → Apart x c
      → Apart x (apply_filter_option upper lower o fc c).0
  option-Apart o none c h = h
  option-Apart o (some fc) c h = filters_kept-Apart c (set_filter_option upper lower o fc) h

  and_then-Apart :
      (k : Control D) (q : Controller D × Outcome ControlError (Unit {0}))
      → ((c : Controller D) → Apart x c → Apart x (k c).0)
      → Apart x q.0
      → Apart x (and_then upper lower k q).0
  and_then-Apart k (c, done _) h a = h c a
  and_then-Apart k (c, failed err) h a = a
  and_then-Apart k (c, panicked) h a = a

  options-Apart :
      (os : List ReplicationOption) (c : Controller D)
      → Apart x c
      → Apart x (set_replication_filter_options upper lower os c).0
  unfolding set_replication_filter_options
  options-Apart [] c h = h
  options-Apart (o ∷ os) c h =
      and_then-Apart (set_replication_filter_options upper lower os) _ (options-Apart os)
        (option-Apart o (find_id c.filters c.heap) c h)

module _ {D : Type 0} (m : Metadata D) where
  forgotten-done :
      (c c' : Controller D) (q : D × Bool)
      → forgotten m q c ≡ (c', done tt)
      → (q.1 ≡ true)
        × (c' ≡ record c {
          filters = c.fresh;
          heap = put_id c.fresh new_filter_configuration c.heap;
          fresh = c.fresh + 1;
          database = q.0;
        })
  forgotten-done c c' (d, true) h = (refl, sym (ap (λ z. z.0) h))
  forgotten-done c c' (d, false) h = cc

  pub if-done :
      {y : Controller D × Outcome ControlError (Unit {0})} (b : Bool) (c c' : Controller D)
      (err : ControlError)
      → (if b then (c, failed err) else y) ≡ (c', done tt)
      → (b ≡ false) × (y ≡ (c', done tt))
  if-done true c c' err h = cc
  if-done false c c' err h = (refl, h)

  -- A reset of everything that succeeds: the applier was not running.
  reset-done :
      (c c' : Controller D)
      → reset_replica m true c ≡ (c', done tt)
      → (c.applier_running ≡ false)
        × ((delete_replication_configuration m c.database).1 ≡ true)
        × (c' ≡ record c {
          status = no_errors c.status;
          filters = c.fresh;
          heap = put_id c.fresh new_filter_configuration c.heap;
          fresh = c.fresh + 1;
          database = (delete_replication_configuration m c.database).0;
        })
  unfolding reset_replica
  reset-done c c' h =
      let (stopped, k) = if-done c.applier_running c c' _ h in
      let (deleted, changed) =
        forgotten-done _ c' (delete_replication_configuration m c.database) k in
      (stopped, deleted, changed)

module _ {D : Type 0} (m : Metadata D) where
  forgotten-Apart :
      (c c' : Controller D)
      → c.applier_filters < c.fresh
      → reset_replica m true c ≡ (c', done tt)
      → Apart (applier_configuration c) c'
  forgotten-Apart c c' old h =
      let other : c.applier_filters ≢ c.fresh = grind arith in
      let (stopped, deleted, changed) = reset-done m c c' h in
      (
        λ e. other (sym (ap (λ z. z.applier_filters) changed) ∙ e ∙ ap (λ z. z.filters) changed),
        ap applier_configuration changed
            ∙ find_id-put_id_other c.fresh c.applier_filters new_filter_configuration c.heap other,
      )

  start_replica_unconfigured :
      (now : ℕ) (c : Controller D)
      → c.applier_running ≡ false
      → load_replication_configuration m c.database ≡ none
      → start_replica m now c ≡ (
        c,
        failed (if m.load_replica_server_id c.database then not_configured else invalid_server_id),
      )
  unfolding start_replica
  start_replica_unconfigured now c stopped gone = ground arith

-- Where the reference to the applier's filters is not a free one, CHANGE REPLICATION FILTER after a RESET REPLICA
-- ALL that succeeds, with any options, leaves the filters that the applier uses as they were before the reset.
pub reset_replica-set_replication_filter_options :
    {D : Type 0} (m : Metadata D) (upper lower : String → String) (os : List ReplicationOption)
    (c c' : Controller D)
    → c.applier_filters < c.fresh
    → reset_replica m true c ≡ (c', done tt)
    → applier_configuration (set_replication_filter_options upper lower os c').0
      ≡ applier_configuration c
reset_replica-set_replication_filter_options m upper lower os c c' old h =
    let (stopped, deleted, changed) = reset-done m c c' h in
    (options-Apart upper lower (applier_configuration c) os c' (forgotten-Apart m c c' old h)).1

-- Where what is deleted is gone, START REPLICA after a RESET REPLICA ALL that succeeds fails and changes nothing:
-- the server is no replica, or has no number.
pub reset_replica-start_replica :
    {D : Type 0} (m : Metadata D) (now : ℕ) (c c' : Controller D)
    → Deletes m
    → reset_replica m true c ≡ (c', done tt)
    → start_replica m now c' ≡ (
      c',
      failed (if m.load_replica_server_id c'.database then not_configured else invalid_server_id),
    )
reset_replica-start_replica m now c c' keeps h =
    let (stopped, deleted, changed) = reset-done m c c' h in
    start_replica_unconfigured m now c' (ap (λ z. z.applier_running) changed ∙ stopped)
      (ap (λ z. load_replication_configuration m z.database) changed ∙ keeps c.database deleted)
