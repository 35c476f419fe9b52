-- ===== src/Applier/Variables.antt =====
-- parseQueryEventVars of binlogreplication/binlog_replica_applier.go: the flags and the SQL mode of a Query
-- event. The bytes of an event go up to the capacity of its buffer, which is what bounds a slice of it.
pub mod Blocks
use myduckserver.Base.{
  ℕ, zero, suc, ◌+◌, ◌-◌, ◌*◌, leb, if◌then◌else◌, Option, none, some, List, [], ◌∷◌, drop, length,
  Outcome, done, failed, panicked,
}
use myduckserver.Charset.{Bytes}
use myduckserver.Applier.{ApplyError}

-- The codes of mysql.Q*Code that the switch has, and the others.
pub data QueryVar : Type 0 where
  flags2_var sql_mode_var auto_increment_var catalog_var catalog_nz_var charset_var other_var :
      QueryVar

-- binary.LittleEndian of the first `n` bytes, where they are there.
unfoldable pub le_value : ℕ → Bytes → Option ℕ
le_value zero bs = some 0
le_value (suc n) [] = none
le_value (suc n) (b ∷ bs) = elim (le_value n bs) [ none ↦ none | some v ↦ some (b + 256 * v) ]

-- vars[pos], where `left` bytes of vars are left.
abbrev first_byte : ℕ → Bytes → Option ℕ
first_byte zero bs = none
first_byte (suc left) [] = none
first_byte (suc left) (b ∷ bs) = some b

abbrev pub Vars : Type 0
Vars = Outcome ApplyError (ℕ × ℕ)

module _ (kind : ℕ → QueryVar) where
  -- varsLoop with `left` bytes of vars left, of which `rest` is the buffer: the flags and the mode. Each turn
  -- takes a byte, so that `left` is enough fuel.
  unfoldable pub vars_loop : ℕ → ℕ → Bytes → ℕ → ℕ → Vars
  vars_loop zero left rest flags mode = done (flags, mode)
  vars_loop (suc n) zero rest flags mode = done (flags, mode)
  vars_loop (suc n) (suc left) [] flags mode = panicked
  vars_loop (suc n) (suc left) (code ∷ rest) flags mode = elim (kind code) [
    | flags2_var ↦ elim (le_value 4 rest) [
      | none ↦ panicked
      | some f ↦ vars_loop n (left - 4) (drop 4 rest) f mode
    ]
    | sql_mode_var ↦ elim (le_value 8 rest) [
      | none ↦ panicked
      | some m ↦ vars_loop n left rest flags m
    ]
    | auto_increment_var ↦ vars_loop n (left - 4) (drop 4 rest) flags mode
    | catalog_var ↦ elim (first_byte left rest) [
      | none ↦ panicked
      | some k ↦ vars_loop n (left - (k + 2)) (drop (k + 2) rest) flags mode
    ]
    | catalog_nz_var ↦ elim (first_byte left rest) [
      | none ↦ panicked
      | some k ↦ vars_loop n (left - (k + 1)) (drop (k + 1) rest) flags mode
    ]
    | charset_var ↦ vars_loop n (left - 6) (drop 6 rest) flags mode
    | other_var ↦ done (flags, mode)
  ]

  abbrev vars_of : Bytes → Option ℕ → Vars
  vars_of body none = panicked
  vars_of body (some n) = if leb n (length body) then vars_loop n n body 0 0 else panicked

  -- The body of an event, behind its header: the length of vars stands at 11, and vars at 13.
  unfoldable pub event_vars : Bytes → Vars
  event_vars body = vars_of (drop 13 body) (le_value 2 (drop 11 body))

  -- parseQueryEventVars
  unfoldable pub parse_query_event_vars : ℕ → Bytes → Vars
  parse_query_event_vars header bytes =
      if leb header (length bytes) then event_vars (drop header bytes) else panicked
