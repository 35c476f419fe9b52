-- ===== src/Applier/Kept.antt =====
-- What the applier's operations keep: a property of the fields that steer the transactions, with what is
-- observed of the database. An operation keeps it if each single change does.
pub mod Commit
pub mod Query
pub mod Rows
pub mod Events
pub mod Loop
use Prim.Native.String.{String}
use myduckserver.Base.{
  ℕ, Bool, true, false, if◌then◌else◌, Option, none, some, List, Outcome, ◌≡◌, refl,
}
use myduckserver.Base.Actions.{Nothing, Keeps, modify, modify-Keeps}
use myduckserver.Delta.{RowEventType}
use myduckserver.Delta.Flush.{Engine}
use myduckserver.Applier.{Gtid, Positions, Applier, Applying, ApplyError, set_status, ReplicaStatus}
use myduckserver.Applier.Server.{Server}
use myduckserver.Applier.Commit.{record_error}
use myduckserver.Applier.Connecting.{start_position}

-- The fields that steer the transactions.
pub record Core (P : Type 0) : Type 0 where
  pub current : Option Gtid
  pub previous : Option Gtid
  pub reached : P
  pub pending : P
  pub ongoing : Bool
  pub txn : Bool
  pub stream : Bool

abbrev pub core : {B P : Type 0} → Applier B P → Core P
core a = record {
  current = a.current_gtid;
  previous = a.previous_gtid;
  reached = a.current_position;
  pending = a.pending_position;
  ongoing = a.ongoing_batch_txn;
  txn = a.dirty_txn;
  stream = a.dirty_stream;
}

-- The property `J` of a core and of what `o` observes of the database is kept by each change of the database.
pub record Serving {D T P V B R O : Type 0} (v : Server D T P V) (e : Engine D B R) (o : D → O)
    (J : Core P → O → Type 0) : Type 0 where
  pub get_catalog_conn : (c : Core P) (d : D) → J c (o d) → J c (o (v.get_catalog_conn d).0)
  pub get_catalog_txn : (c : Core P) (d : D) → J c (o d) → J c (o (v.get_catalog_txn d).0)
  pub get_txn : (c : Core P) (d : D) → J c (o d) → J c (o (v.get_txn d).0)
  pub close_txn : (c : Core P) (d : D) → J c (o d) → J c (o (v.close_txn d))
  pub commit : (c : Core P) (t : T) (d : D) → J c (o d) → J c (o (v.commit t d).0)
  pub rollback : (c : Core P) (t : T) (d : D) → J c (o d) → J c (o (v.rollback t d))
  pub upsert_position : (c : Core P) (d : D) → J c (o d) → J c (o (v.upsert_position c.pending d).0)
  pub prepare_query :
      (c : Core P) (sql : String) (d : D) → J c (o d) → J c (o (v.prepare_query sql d).0)
  pub query : (c : Core P) (sql : String) (d : D) → J c (o d) → J c (o (v.query sql d).0)
  pub set_current_database :
      (c : Core P) (db : String) (d : D) → J c (o d) → J c (o (v.set_current_database db d))
  pub set_session_variable :
      (c : Core P) (name : String) (n : ℕ) (d : D)
      → J c (o d)
      → J c (o (v.set_session_variable name n d))
  pub assign_gtid_executed :
      (c : Core P) (d : D) → J c (o d) → J c (o (v.assign_gtid_executed c.reached d))
  pub put_source_uuid :
      (c : Core P) (u : String) (d : D) → J c (o d) → J c (o (v.put_source_uuid u d).0)
  pub write_rows :
      (c : Core P) (db name : String) (k : RowEventType) (is ds : List (List V)) (b : Bool) (d : D)
      → J c (o d)
      → J c (o (v.write_rows db name k is ds b d).0)
  pub exec : (sql : String) (d : D) → o (e.exec sql d).0 ≡ o d
  pub register : (n : String) (r : R) (d : D) → o (e.register n r d).0 ≡ o d
  pub release : (n : String) (d : D) → o (e.release n d) ≡ o d

-- It is kept also by each change of the core, named for what makes it.
pub record Changes {D T P V B R O : Type 0} (v : Server D T P V) (p : Positions P)
    (e : Engine D B R) (o : D → O) (J : Core P → O → Type 0) (G : Gtid → Type 0) : Type 0 where
  pub serving : Serving v e o J
  -- note_gtid, and an extended batch at a commit event
  pub noted :
      (c : Core P) (d : O) → J c d → J (record c { pending = p.append_gtid c.pending c.current }) d
  pub cleaned : (c : Core P) (d : O) → J c d → J (record c { stream = false }) d
  pub settled :
      (c : Core P) (d : O)
      → J c d
      → J (record c { reached = c.pending; ongoing = false; txn = false; stream = false }) d
  -- a statement that was executed, and a BEGIN in a batch
  pub begun :
      (c : Core P) (b : Bool) (d : O)
      → J c d
      → J (record c { txn = true; stream = true; ongoing = b }) d
  pub extended :
      (c : Core P) (d : O)
      → c.ongoing ≡ true
      → J c d
      → J (record c { pending = p.append_gtid c.pending c.previous; stream = true }) d
  -- the rows of an event, and those that end a batch
  pub changed : (c : Core P) (d : O) → J c d → J (record c { txn = true; stream = true }) d
  pub unbatched : (c : Core P) (d : O) → J c d → J (record c { ongoing = false }) d
  pub announced :
      (c : Core P) (g : Gtid) (d : O)
      → G g
      → J c d
      → J (record c { previous = c.current; current = some g }) d
  -- a connection, at the position that it starts with
  pub restarted :
      (c : Core P) (flavor : String) (gtid_mode : Bool) (q : P) (d : D)
      → start_position v p flavor gtid_mode d ≡ some q
      → J c (o d)
      → J
          (record c {
            current = none;
            previous = none;
            reached = q;
            pending = q;
            ongoing = false;
            txn = false;
            stream = false;
          })
          (o d)

-- The property of the whole.
abbrev pub Holds : {D B P O : Type 0} → (D → O) → (Core P → O → Type 0) → Applying D B P → Type 0
Holds o J r = J (core r.applier) (o r.database)

-- No change of the database touches the core.
pub core_serving :
    {D T P V B R : Type 0} (v : Server D T P V) (e : Engine D B R) (J : Core P → Type 0)
    → Serving v e (λ d. tt {0}) (λ c _. J c)
core_serving v e J = record {
  get_catalog_conn = λ k d h. h;
  get_catalog_txn = λ k d h. h;
  get_txn = λ k d h. h;
  close_txn = λ k d h. h;
  commit = λ k t d h. h;
  rollback = λ k t d h. h;
  upsert_position = λ k d h. h;
  prepare_query = λ k s d h. h;
  query = λ k s d h. h;
  set_current_database = λ k s d h. h;
  set_session_variable = λ k s n d h. h;
  assign_gtid_executed = λ k d h. h;
  put_source_uuid = λ k u d h. h;
  write_rows = λ k s n r is ds b d h. h;
  exec = λ s d. refl;
  register = λ n r d. refl;
  release = λ n d. refl;
}

module _ {D B P O : Type 0} (o : D → O) (J : Core P → O → Type 0) where
  pub record_error-Holds :
      {T V : Type 0} (v : Server D T P V) (now : ℕ) (err : ApplyError)
      → Keeps (Holds o J) (record_error v {B = B} now err)
  unfolding record_error
  record_error-Holds v now err = modify-Keeps _ (λ r h. h)
