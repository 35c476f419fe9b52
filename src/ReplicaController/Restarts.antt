-- ===== src/ReplicaController/Restarts.antt =====
-- The record of START and STOP REPLICA, and the start with the server.
use mathlib.Core.Path.{subst}
use text.Mathlib.Text.{◌==◌}
use myduckserver.Base.{
  ℕ, Bool, true, false, not, if◌then◌else◌, Option, none, some, Outcome, done, ◌≡◌, refl, sym, ◌∙◌,
  ap, arith,
}
use myduckserver.ReplicaController.{
  SourceInfo, DirStat, is_dir, not_dir, no_entry, stat_failed, create_dir, create_replica_dir,
  Metadata, load_replication_configuration, load_replication_running_state, create_empty_file,
  remove_file, write_state, persist_replica_running_state, ControlError, Controller, started,
  start_configured, start_loaded, start_replica, stop_replica, start_if, auto_start,
}
use myduckserver.ReplicaController.Resets.{if-done}

-- The file that is made is there and the one that is removed is not; neither a file nor an account changes the
-- configuration of the source and the number of the server.
pub record KeepsRecords {D : Type 0} (m : Metadata D) : Type 0 where
  pub created :
      (d : D)
      → (m.create_running_file d).1 ≡ true
      → m.stat_running_file (m.create_running_file d).0 ≡ some true
  pub removed :
      (d : D)
      → (m.remove_running_file d).1 ≡ true
      → m.stat_running_file (m.remove_running_file d).0 ≡ some false
  pub dir_source :
      (d : D) → m.get_replica_source_info (m.make_replica_dir d).0 ≡ m.get_replica_source_info d
  pub file_source :
      (d : D) → m.get_replica_source_info (m.create_running_file d).0 ≡ m.get_replica_source_info d
  pub user_source :
      (d : D)
      → m.get_replica_source_info (m.configure_replication_user d).0 ≡ m.get_replica_source_info d
  pub dir_id :
      (d : D) → m.load_replica_server_id (m.make_replica_dir d).0 ≡ m.load_replica_server_id d
  pub file_id :
      (d : D) → m.load_replica_server_id (m.create_running_file d).0 ≡ m.load_replica_server_id d
  pub user_id :
      (d : D)
      → m.load_replica_server_id (m.configure_replication_user d).0 ≡ m.load_replica_server_id d

-- A configuration with which a replica can start.
record IsComplete {D : Type 0} (m : Metadata D) (d : D) : Type 0 where
  id : m.load_replica_server_id d ≡ true
  info : SourceInfo
  known : m.get_replica_source_info d ≡ some info
  host : (info.host == "") ≡ false
  user : (info.user == "") ≡ false

module _ {D : Type 0} (m : Metadata D) (keeps : KeepsRecords m) where
  create_empty_file-stat :
      (d : D) (q : Option Bool)
      → m.stat_running_file d ≡ q
      → (create_empty_file m q d).1 ≡ true
      → m.stat_running_file (create_empty_file m q d).0 ≡ some true
  create_empty_file-stat d none s h = cc
  create_empty_file-stat d (some true) s h = s
  create_empty_file-stat d (some false) s h = keeps.created d h

  remove_file-stat :
      (d : D) (q : Option Bool)
      → m.stat_running_file d ≡ q
      → (remove_file m q d).1 ≡ true
      → m.stat_running_file (remove_file m q d).0 ≡ some false
  remove_file-stat d none s h = cc
  remove_file-stat d (some true) s h = keeps.removed d h
  remove_file-stat d (some false) s h = s

  write_state-stat :
      (b : Bool) (q : D × Bool)
      → (write_state m b q).1 ≡ true
      → m.stat_running_file (write_state m b q).0 ≡ some b
  write_state-stat b (d, false) h = cc
  write_state-stat true (d, true) h = create_empty_file-stat d (m.stat_running_file d) refl h
  write_state-stat false (d, true) h = remove_file-stat d (m.stat_running_file d) refl h

  -- What is written of the state of the replica is what is read.
  persist_replica_running_state-load_replication_running_state :
      (b : Bool) (d : D)
      → (persist_replica_running_state m b d).1 ≡ true
      → load_replication_running_state m (persist_replica_running_state m b d).0 ≡ some b
  unfolding persist_replica_running_state
  persist_replica_running_state-load_replication_running_state b d h =
      write_state-stat b (create_replica_dir m d) h

  -- What the file system does not change.
  write_running_same :
      {A : Type 0} (f : D → A)
      → ((d : D) → f (m.create_running_file d).0 ≡ f d)
      → (q : D × Bool) → f (write_state m true q).0 ≡ f q.0
  write_running_same f k (d, false) = refl
  write_running_same f k (d, true) = created_same (m.stat_running_file d)
    where
      created_same : (q : Option Bool) → f (create_empty_file m q d).0 ≡ f d
      created_same none = refl
      created_same (some true) = refl
      created_same (some false) = k d

  create_dir_same :
      {A : Type 0} (f : D → A)
      → ((d : D) → f (m.make_replica_dir d).0 ≡ f d)
      → (d : D) (q : DirStat) → f (create_dir m q d).0 ≡ f d
  create_dir_same f k d is_dir = refl
  create_dir_same f k d no_entry = k d
  create_dir_same f k d not_dir = refl
  create_dir_same f k d stat_failed = refl

  recorded-IsComplete :
      (d : D)
      → IsComplete m d
      → IsComplete m (persist_replica_running_state m true (m.configure_replication_user d).0).0
  unfolding persist_replica_running_state
  recorded-IsComplete d h =
      let u = (m.configure_replication_user d).0 in
      record {
        id =
            write_running_same m.load_replica_server_id keeps.file_id (create_replica_dir m u)
            ∙ create_dir_same m.load_replica_server_id keeps.dir_id u (m.stat_replica_dir u)
            ∙ keeps.user_id d
            ∙ h.id;
        info = h.info;
        known =
            write_running_same m.get_replica_source_info keeps.file_source (create_replica_dir m u)
            ∙ create_dir_same m.get_replica_source_info keeps.dir_source u (m.stat_replica_dir u)
            ∙ keeps.user_source d
            ∙ h.known;
        host = h.host;
        user = h.user;
      }

module _ {D : Type 0} (m : Metadata D) where
  stop_replica_database :
      (c : Controller D)
      → c.applier_running ≡ true
      → (stop_replica m c).0.database ≡ (persist_replica_running_state m false c.database).0
  unfolding stop_replica
  stop_replica_database c running = ground arith

  started-done :
      (q : D × Bool) (c c' : Controller D)
      → started m q c ≡ (c', done tt)
      → c'.database ≡ (persist_replica_running_state m true q.0).0
  started-done (d, true) c c' h = sym (ap (λ z. z.0.database) h)
  started-done (d, false) c c' h = cc

  -- What a start that succeeds had and left.
  abbrev Started : Controller D → D → Type 0
  Started c d =
      IsComplete m c.database
      × (d ≡ (persist_replica_running_state m true (m.configure_replication_user c.database).0).0)

  start_configured-done :
      (now : ℕ) (i : SourceInfo) (c c' : Controller D)
      → m.load_replica_server_id c.database ≡ true
      → m.get_replica_source_info c.database ≡ some i
      → start_configured m now i c ≡ (c', done tt)
      → Started c c'.database
  unfolding start_configured
  start_configured-done now i c c' id known h =
      let (host, named) = if-done m (i.host == "") _ c' _ h in
      let (user, owned) = if-done m (i.user == "") _ c' _ named in
      let (_, context) = if-done m (not c.has_context) _ c' _ owned in
      (
        record { id = id; info = i; known = known; host = host; user = user },
        started-done (m.configure_replication_user c.database) c c' context,
      )

  start_loaded-done :
      (now : ℕ) (i : Option SourceInfo) (c c' : Controller D)
      → m.load_replica_server_id c.database ≡ true
      → m.get_replica_source_info c.database ≡ i
      → start_loaded m now i c ≡ (c', done tt)
      → Started c c'.database
  start_loaded-done now none c c' id known h = cc
  start_loaded-done now (some i) c c' id known h = start_configured-done now i c c' id known h

  if-stopped :
      (b : Bool) (x y z : Controller D × Outcome ControlError (Unit {0}))
      → b ≡ false
      → (if b then x else y) ≡ z
      → y ≡ z
  if-stopped b x y z h k = ground arith

  start_replica-done :
      (now : ℕ) (c c' : Controller D)
      → c.applier_running ≡ false
      → start_replica m now c ≡ (c', done tt)
      → Started c c'.database
  unfolding start_replica
  start_replica-done now c c' stopped h =
      let k = if-stopped c.applier_running _ _ _ stopped h in
      let (id, loaded) = if-done m (not (m.load_replica_server_id c.database)) _ c' _ k in
      start_loaded-done now (load_replication_configuration m c.database) c c' (ground arith) refl
        loaded

  -- With a complete configuration, a context and an account, a start succeeds.
  start_replica-IsComplete :
      (now : ℕ) (c : Controller D)
      → IsComplete m c.database
      → c.applier_running ≡ false
      → c.has_context ≡ true
      → (m.configure_replication_user c.database).1 ≡ true
      → start_replica m now c ≡ (
        record c {
          applier_running = true;
          database =
              (persist_replica_running_state m true (m.configure_replication_user c.database).0).0;
        },
        done tt,
      )
  unfolding start_replica start_configured
  start_replica-IsComplete now c h stopped context user =
      rw (stopped, h.id, h.known, h.host, h.user, context)
        (started_done _ (m.configure_replication_user c.database) user)
    where
      started_done :
          (z : Controller D) (q : D × Bool)
          → q.1 ≡ true
          → started m q z ≡ (
            record z {
              applier_running = true;
              database = (persist_replica_running_state m true q.0).0;
            },
            done tt,
          )
      started_done z (d, true) e = refl
      started_done z (d, false) e = cc

-- Where the files are kept, after a STOP REPLICA of a replica that ran, with its record written, a server that starts
-- on what it left does not start its replica, and changes nothing.
pub stop_replica-auto_start :
    {D : Type 0} (m : Metadata D) (now : ℕ) (c r : Controller D)
    → KeepsRecords m
    → c.applier_running ≡ true
    → (persist_replica_running_state m false c.database).1 ≡ true
    → r.database ≡ (stop_replica m c).0.database
    → auto_start m now r ≡ (r, done tt)
unfolding auto_start
stop_replica-auto_start m now c r keeps running written same =
    let e : load_replication_running_state m r.database ≡ some false =
      ap (load_replication_running_state m) (same ∙ stop_replica_database m c running)
      ∙ persist_replica_running_state-load_replication_running_state m keeps false c.database
          written in
    ap (λ z. start_if m now z r) e

-- Where the files are kept, and a START REPLICA of a replica that was stopped succeeded with its record written, a
-- server that starts on what it left, with a context and the account of the replica, runs its replica.
pub start_replica-auto_start :
    {D : Type 0} (m : Metadata D) (now later : ℕ) (c c' r : Controller D)
    → KeepsRecords m
    → c.applier_running ≡ false
    → start_replica m now c ≡ (c', done tt)
    → (persist_replica_running_state m true (m.configure_replication_user c.database).0).1 ≡ true
    → r.database ≡ c'.database
    → r.applier_running ≡ false
    → r.has_context ≡ true
    → (m.configure_replication_user r.database).1 ≡ true
    → ((auto_start m later r).0.applier_running ≡ true) × ((auto_start m later r).1 ≡ done tt)
unfolding auto_start
start_replica-auto_start m now later c c' r keeps stopped begun written same fresh context user =
    let (complete, left) = start_replica-done m now c c' stopped begun in
    let s = same ∙ left in
    let e : load_replication_running_state m r.database ≡ some true =
      ap (load_replication_running_state m) s
      ∙ persist_replica_running_state-load_replication_running_state m keeps true
          (m.configure_replication_user c.database).0 written in
    let k = recorded-IsComplete m keeps c.database complete in
    let started =
      start_replica-IsComplete m later r (subst (IsComplete m) (sym s) k) fresh context user in
    let all = ap (λ z. start_if m later z r) e ∙ started in
    (ap (λ z. z.0.applier_running) all, ap (λ z. z.1) all)
