-- ===== src/Applier/Flags.antt =====
-- The flags of the transactions: a batch, and a stream that does not end with a commit, are in a transaction.
use myduckserver.Base.{Bool, true, ◌≡◌, refl}
use myduckserver.Delta.Flush.{Engine}
use myduckserver.Applier.{Positions}
use myduckserver.Applier.Server.{Server}
use myduckserver.Applier.Rows.{Rower}
use myduckserver.Applier.Events.{BinlogReader}
use myduckserver.Applier.Loop.{Handler, Reaches}
use myduckserver.Applier.Kept.{Core, core, core_serving, Changes}
use myduckserver.Applier.Kept.Loop.{Reaches-IsHeld}

abbrev pub IsFlagged : {P : Type 0} → Core P → Type 0
IsFlagged c = (c.ongoing ≡ true → c.txn ≡ true) × (c.stream ≡ true → c.txn ≡ true)

module _ {D T P V B R : Type 0} (v : Server D T P V) (p : Positions P) (e : Engine D B R) where
  flag_changes : Changes v p e (λ d. tt {0}) (λ c _. IsFlagged c) (λ g. Unit {0})
  flag_changes = record {
    serving = core_serving v e IsFlagged;
    noted = λ c d h. h;
    cleaned = λ c d h. (h.0, λ q. cc);
    settled = λ c d h. (λ q. cc, λ q. cc);
    begun = λ c b d h. (λ q. refl, λ q. refl);
    extended = λ c d t h. (h.0, λ q. h.0 t);
    changed = λ c d h. (λ q. refl, λ q. refl);
    unbatched = λ c d h. (λ q. cc, h.1);
    announced = λ c g d k h. h;
    restarted = λ c f m q d s h. (λ q. cc, λ q. cc);
  }

-- If it is so at the beginning, then in every state that the loop reaches, lost and new connections included, an
-- ongoing batch and a stream that is not clean are inside a dirty transaction.
pub Reaches-IsFlagged :
    {D T P X V B R E : Type 0} (v : Server D T P V) (p : Positions P) (e : Engine D B R)
    (w : Rower B X V) (x : BinlogReader E) (no_index : Bool) (h k : Handler D B P)
    → Reaches v p e w x no_index h k
    → IsFlagged (core h.applying.applier)
    → IsFlagged (core k.applying.applier)
Reaches-IsFlagged v p e w x no_index h k s q =
    Reaches-IsHeld (flag_changes v p e) w x no_index (λ f ev g b r. tt) h s q
