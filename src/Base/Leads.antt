-- ===== src/Base/Leads.antt =====
-- What holds behind an action that returns without an error, where something holds before it.
use mathlib.Core.Path.{◌≡◌, refl}
use myduckserver.Base.Results.{Outcome, done, failed, panicked}
use myduckserver.Base.Actions.{Action, Keeps, continue, ◌>>◌, >>_lem, modify, modify_lem}

pub record Leads {ℓ κ ι ν ο} {S : Type ℓ} {E : Type κ} {A : Type ι} (P : S → Type ν)
    (Q : S → Type ο) (m : Action S E A) : Type (ℓ ⊔ κ ⊔ ι ⊔ ν ⊔ ο) where
  pub leads : (s : S) (a : A) → P s → (m s).1 ≡ done a → Q (m s).0

continue-leads {ℓ κ ι ι' ο} :
    {S : Type ℓ} {E : Type κ} {A : Type ι} {B : Type ι'} (Q : S → Type ο) (n : Action S E B)
    (o : S × Outcome E A) (b : B)
    → ((a : A) → o.1 ≡ done a → (n o.0).1 ≡ done b → Q (n o.0).0)
    → (continue (λ _. n) o).1 ≡ done b
    → Q (continue (λ _. n) o).0
continue-leads Q n (s, done a) b h q = h a refl q
continue-leads Q n (s, failed e) b h q = cc
continue-leads Q n (s, panicked) b h q = cc

module _ {ℓ κ ν ο} {S : Type ℓ} {E : Type κ} {P : S → Type ν} {Q : S → Type ο} where
  pub >>-Leads {ι ι' ξ} :
      {A : Type ι} {B : Type ι'} {R : S → Type ξ} {m : Action S E A} {n : Action S E B}
      → Leads P Q m
      → Leads Q R n
      → Leads P R (m >> n)
  >>-Leads {R = R} {m = m} {n = n} h k = record {
    leads = λ s b p e. rw (>>_lem m n s) (
        continue-leads R n (m s) b (λ a u. k.leads (m s).0 b (h.leads s a p u))
          (rw (← >>_lem m n s) e));
  }

  pub modify-Leads : (f : S → S) → ((s : S) → P s → Q (f s)) → Leads P Q (modify {E = E} f)
  modify-Leads f k = record { leads = λ s a p e. rw (modify_lem {E = E} f s) (k s p) }

-- An action that keeps a property leads from it to itself.
pub Keeps-Leads {ℓ κ ι ν} :
    {S : Type ℓ} {E : Type κ} {A : Type ι} {P : S → Type ν} {m : Action S E A}
    → Keeps P m
    → Leads P P m
Keeps-Leads h = record { leads = λ s a p e. h.keeps s p }
