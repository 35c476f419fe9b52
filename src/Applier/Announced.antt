-- ===== src/Applier/Announced.antt =====
-- What the applier and the database hold of the primary's GTIDs: those that GTID events brought, and what
-- began with them.
use Prim.Native.String.{String}
use myduckserver.Base.{
  ℕ, Bool, Option, none, some, List, true, false, if◌then◌else◌, refl, ◌≡◌, ◌⊎◌, inl, inr,
}
use myduckserver.Delta.{RowEventType}
use myduckserver.Delta.Flush.{Engine}
use myduckserver.Applier.{Gtid, Positions, BinlogFormat}
use myduckserver.Applier.Server.{Server}
use myduckserver.Applier.Rows.{Rower}
use myduckserver.Applier.Events.{BinlogReader}
use myduckserver.Applier.Loop.{Handler, Reaches}
use myduckserver.Applier.Connecting.{
  loaded, load_position, parsed_purged, or_purged, or_position, load_gtid_position,
  load_log_file_position, start_position,
}
use myduckserver.Applier.Kept.{Core, core, Changes}
use myduckserver.Applier.Kept.Loop.{Reaches-IsHeld}

-- What is observed of the database: the position that is stored, and the one that the session's transaction
-- reads, which it may have written.
pub record Stored (P : Type 0) : Type 0 where
  pub stored : P
  pub written : P

-- A change keeps each of the two positions, or takes the other one: it commits, rolls back, or does neither.
abbrev pub Mixes : {P : Type 0} → Stored P → Stored P → Type 0
Mixes s s' =
    ((s'.stored ≡ s.stored) ⊎ (s'.stored ≡ s.written))
    × ((s'.written ≡ s.written) ⊎ (s'.written ≡ s.stored))

-- What the server does to the positions: only the store of a position writes another one.
pub record ServesPositions {D T P V B R : Type 0} (v : Server D T P V) (e : Engine D B R)
    (o : D → Stored P) : Type 0 where
  pub get_catalog_conn : (d : D) → Mixes (o d) (o (v.get_catalog_conn d).0)
  pub get_catalog_txn : (d : D) → Mixes (o d) (o (v.get_catalog_txn d).0)
  pub get_txn : (d : D) → Mixes (o d) (o (v.get_txn d).0)
  pub close_txn : (d : D) → Mixes (o d) (o (v.close_txn d))
  pub commit : (t : T) (d : D) → Mixes (o d) (o (v.commit t d).0)
  pub rollback : (t : T) (d : D) → Mixes (o d) (o (v.rollback t d))
  pub upsert_stored :
      (q : P) (d : D)
      → let d' = (v.upsert_position q d).0 in ((o d').stored ≡ (o d).stored) ⊎ ((o d').stored ≡ q)
  pub upsert_written :
      (q : P) (d : D)
      → let d' = (v.upsert_position q d).0 in
        ((o d').written ≡ (o d).written) ⊎ ((o d').written ≡ q)
  pub prepare_query : (sql : String) (d : D) → Mixes (o d) (o (v.prepare_query sql d).0)
  pub query : (sql : String) (d : D) → Mixes (o d) (o (v.query sql d).0)
  pub set_current_database : (n : String) (d : D) → Mixes (o d) (o (v.set_current_database n d))
  pub set_session_variable :
      (n : String) (k : ℕ) (d : D) → Mixes (o d) (o (v.set_session_variable n k d))
  pub assign_gtid_executed : (q : P) (d : D) → Mixes (o d) (o (v.assign_gtid_executed q d))
  pub put_source_uuid : (u : String) (d : D) → Mixes (o d) (o (v.put_source_uuid u d).0)
  pub write_rows :
      (db name : String) (k : RowEventType) (is ds : List (List V)) (b : Bool) (d : D)
      → Mixes (o d) (o (v.write_rows db name k is ds b d).0)
  pub exec : (sql : String) (d : D) → o (e.exec sql d).0 ≡ o d
  pub register : (n : String) (r : R) (d : D) → o (e.register n r d).0 ≡ o d
  pub release : (n : String) (d : D) → o (e.release n d) ≡ o d

-- Positions that hold GTIDs of `G` only.
pub record IsClosed {P : Type 0} (p : Positions P) (G : Gtid → Type 0) (Q : P → Type 0)
    : Type 0 where
  pub append : (q : P) (g : Gtid) → Q q → G g → Q (p.append_gtid q (some g))
  pub append_nothing : (q : P) → Q q → Q (p.append_gtid q none)

abbrev Known : (Gtid → Type 0) → Option Gtid → Type 0
Known G none = Unit
Known G (some g) = G g

-- Everything that is held is within `G` and `Q`.
abbrev pub IsWithin : {P : Type 0} → (Gtid → Type 0) → (P → Type 0) → Core P → Stored P → Type 0
IsWithin G Q c s =
    Known G c.current × Known G c.previous × Q c.reached × Q c.pending × Q s.stored × Q s.written

take_either : {P : Type 0} (Q : P → Type 0) (a b c : P) → Q a → Q b → (c ≡ a) ⊎ (c ≡ b) → Q c
take_either Q a b c h k (inl q) = rw q h
take_either Q a b c h k (inr q) = rw q k

-- Where a connection may start, beside the stored position, which is read as it is stored.
pub record StartsWithin {D T P V : Type 0} (v : Server D T P V) (p : Positions P) (Q : P → Type 0)
    (o : D → Stored P) : Type 0 where
  pub stored :
      (flavor text : String) (d : D) (q : P)
      → v.stored_position d ≡ some (some text)
      → v.parse_position flavor (v.trim_prefix "MySQL56/" text) ≡ some q
      → q ≡ (o d).stored
  pub nothing : Q p.zero_position
  pub purged :
      (flavor text : String) (d : D) (q : P)
      → v.gtid_purged d ≡ some text
      → v.parse_position flavor (v.trim_prefix "+" text) ≡ some q
      → Q q
  pub first : Q v.first_position
  pub source : (d : D) → Q (v.source_position d)

module _ {D T P V : Type 0} (v : Server D T P V) (p : Positions P) (Q : P → Type 0)
    (o : D → Stored P) (starts : StartsWithin v p Q o) (flavor : String) where
  loaded-Q :
      (d : D) (row : Option (Option String))
      → v.stored_position d ≡ row
      → Q (o d).stored
      → (q : P) → loaded v p flavor row ≡ some q
      → Q q
  loaded-Q d none s h q e = cc
  loaded-Q d (some none) s h q e = let k : q ≡ p.zero_position = cc in rw k starts.nothing
  loaded-Q d (some (some text)) s h q e = rw (starts.stored flavor text d q s e) h

  parsed_purged-Q :
      (d : D) (text : Option String) (q : P)
      → v.gtid_purged d ≡ text
      → Q q
      → (r : P) → parsed_purged v p flavor text q ≡ some r
      → Q r
  parsed_purged-Q d none q s h r e = let k : r ≡ q = cc in rw k h
  parsed_purged-Q d (some text) q s h r e = starts.purged flavor text d r s e

  or_purged-Q :
      (d : D) (l : Option P)
      → ((q : P) → l ≡ some q → Q q)
      → (r : P) → or_purged v p flavor d l ≡ some r
      → Q r
  or_purged-Q d none h r e = cc
  or_purged-Q d (some q) h r e =
      by_zero (p.is_zero q) (parsed_purged-Q d (v.gtid_purged d) q refl (h q refl) r) e
    where
      by_zero :
          (b : Bool) {l : Option P} → (l ≡ some r → Q r) → (if b then l else some q) ≡ some r → Q r
      by_zero true k e = k e
      by_zero false k e = h r e

  or_position-Q :
      (first : P) (l : Option P)
      → Q first
      → ((q : P) → l ≡ some q → Q q)
      → (r : P) → or_position v p flavor first l ≡ some r
      → Q r
  or_position-Q first none f h r e = cc
  or_position-Q first (some q) f h r e =
      let k : r ≡ (if p.is_zero q then first else q) = cc in
      rw k (choice_of (p.is_zero q) f (h q refl))
    where
      choice_of : (b : Bool) → Q first → Q q → Q (if b then first else q)
      choice_of true k l = k
      choice_of false k l = l

  start_position-Q :
      (gtid_mode : Bool) (d : D)
      → Q (o d).stored
      → (q : P) → start_position v p flavor gtid_mode d ≡ some q
      → Q q
  unfolding load_gtid_position load_log_file_position load_position
  start_position-Q true d h =
      or_position-Q v.first_position _ starts.first
        (or_purged-Q d _ (loaded-Q d (v.stored_position d) refl h))
  start_position-Q false d h =
      or_position-Q (v.source_position d) _ (starts.source d)
        (loaded-Q d (v.stored_position d) refl h)

module _ {P : Type 0} (p : Positions P) (G : Gtid → Type 0) (Q : P → Type 0)
    (closed : IsClosed p G Q) where
  mixed : (c : Core P) (s s' : Stored P) → Mixes s s' → IsWithin G Q c s → IsWithin G Q c s'
  mixed c s s' (a, b) (h1, h2, h3, h4, h5, h6) = (
    h1,
    h2,
    h3,
    h4,
    take_either Q s.stored s.written s'.stored h5 h6 a,
    take_either Q s.written s.stored s'.written h6 h5 b,
  )

  append_known : (q : P) (g : Option Gtid) → Q q → Known G g → Q (p.append_gtid q g)
  append_known q none h k = closed.append_nothing q h
  append_known q (some g) h k = closed.append q g h k

  module _ {D T V B R : Type 0} (v : Server D T P V) (e : Engine D B R) (o : D → Stored P)
      (laws : ServesPositions v e o) (starts : StartsWithin v p Q o) where
    position_changes : Changes v p e o (IsWithin G Q) G
    position_changes = record {
      serving = record {
        get_catalog_conn = λ c d. mixed c _ _ (laws.get_catalog_conn d);
        get_catalog_txn = λ c d. mixed c _ _ (laws.get_catalog_txn d);
        get_txn = λ c d. mixed c _ _ (laws.get_txn d);
        close_txn = λ c d. mixed c _ _ (laws.close_txn d);
        commit = λ c t d. mixed c _ _ (laws.commit t d);
        rollback = λ c t d. mixed c _ _ (laws.rollback t d);
        upsert_position = λ c d (h1, h2, h3, h4, h5, h6). (
          h1,
          h2,
          h3,
          h4,
          take_either Q _ c.pending _ h5 h4 (laws.upsert_stored c.pending d),
          take_either Q _ c.pending _ h6 h4 (laws.upsert_written c.pending d),
        );
        prepare_query = λ c s d. mixed c _ _ (laws.prepare_query s d);
        query = λ c s d. mixed c _ _ (laws.query s d);
        set_current_database = λ c s d. mixed c _ _ (laws.set_current_database s d);
        set_session_variable = λ c s n d. mixed c _ _ (laws.set_session_variable s n d);
        assign_gtid_executed = λ c d. mixed c _ _ (laws.assign_gtid_executed c.reached d);
        put_source_uuid = λ c u d. mixed c _ _ (laws.put_source_uuid u d);
        write_rows = λ c s n k is ds b d. mixed c _ _ (laws.write_rows s n k is ds b d);
        exec = laws.exec;
        register = laws.register;
        release = laws.release;
      };
      noted = λ c d (h1, h2, h3, h4, h5, h6).
          (h1, h2, h3, append_known c.pending c.current h4 h1, h5, h6);
      cleaned = λ c d h. h;
      settled = λ c d (h1, h2, h3, h4, h5, h6). (h1, h2, h4, h4, h5, h6);
      begun = λ c b d h. h;
      extended = λ c d t (h1, h2, h3, h4, h5, h6).
          (h1, h2, h3, append_known c.pending c.previous h4 h2, h5, h6);
      changed = λ c d h. h;
      unbatched = λ c d h. h;
      announced = λ c g d k (h1, h2, h3, h4, h5, h6). (k, h1, h3, h4, h5, h6);
      restarted = λ c f m q d s (h1, h2, h3, h4, h5, h6).
          let k = start_position-Q v p Q o starts f m d h5 q s in (tt, tt, k, k, h5, h6);
    }

    -- Where G holds of what the GTID events bring, Q of what appending it makes and of where a connection may start,
    -- the server writes a position only where it is asked to, and the beginning is within G and Q: so is every state
    -- that the loop reaches, lost and new connections included, with its GTIDs and its positions.
    pub Reaches-IsWithin :
        {X E : Type 0} (w : Rower B X V) (x : BinlogReader E) (no_index : Bool)
        (h k : Handler D B P)
        → ((f : BinlogFormat) (ev : E) (g : Gtid) (b : Bool) → x.gtid f ev ≡ some (g, b) → G g)
        → Reaches v p e w x no_index h k
        → IsWithin G Q (core h.applying.applier) (o h.applying.database)
        → IsWithin G Q (core k.applying.applier) (o k.applying.database)
    Reaches-IsWithin w x no_index h k received s q =
        Reaches-IsHeld position_changes w x no_index received h s q
