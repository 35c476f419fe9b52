-- ===== src/Base/Actions.antt =====
-- Code that changes a state and may fail: a function from a state to the state behind it and an outcome.
-- The changes that stand when an error is returned stay, as they do in Go.
use mathlib.Core.Path.{◌≡◌, refl}
use mathlib.Core.Bool.{Bool, true, false}
use mathlib.Core.Option.{Option, none, some}
use myduckserver.Base.Tests.{if◌then◌else◌}
use myduckserver.Base.Results.{Outcome, done, failed, panicked}

abbrev pub Action {ℓ κ ι} : Type ℓ → Type κ → Type ι → Type (ℓ ⊔ κ ⊔ ι)
Action S E A = S → S × Outcome E A

-- What an action without a result returns.
abbrev pub Nothing : Type 0
Nothing = Unit {0}

abbrev pub continue {ℓ κ ι ν} :
    {S : Type ℓ} {E : Type κ} {A : Type ι} {B : Type ν}
    → (A → Action S E B)
    → S × Outcome E A
    → S × Outcome E B
continue f (s, done a) = f a s
continue f (s, failed e) = (s, failed e)
continue f (s, panicked) = (s, panicked)

infixl 5 ◌>>=◌ ◌>>◌
unfoldable pub ◌>>=◌ {ℓ κ ι ν} :
    {S : Type ℓ} {E : Type κ} {A : Type ι} {B : Type ν}
    → Action S E A
    → (A → Action S E B)
    → Action S E B
(m >>= f) s = continue f (m s)

unfoldable pub ◌>>◌ {ℓ κ ι ν} :
    {S : Type ℓ} {E : Type κ} {A : Type ι} {B : Type ν} → Action S E A → Action S E B → Action S E B
(m >> k) s = continue (λ _. k) (m s)

module _ {ℓ κ} {S : Type ℓ} {E : Type κ} where
  unfoldable pub pure {ι} : {A : Type ι} → A → Action S E A
  pure a s = (s, done a)

  unfoldable pub fail {ι} : {A : Type ι} → E → Action S E A
  fail e s = (s, failed e)

  unfoldable pub panic {ι} : {A : Type ι} → Action S E A
  panic s = (s, panicked)

  unfoldable pub read {ι} : {A : Type ι} → (S → A) → Action S E A
  read f s = (s, done (f s))

  unfoldable pub modify : (S → S) → Action S E Nothing
  modify f s = (f s, done tt)

  abbrev told : E → S × Bool → S × Outcome E Nothing
  told e (s, true) = (s, done tt)
  told e (s, false) = (s, failed e)

  -- A change that succeeds or fails with the given error.
  unfoldable pub attempt : E → (S → S × Bool) → Action S E Nothing
  attempt e f s = told e (f s)

  -- A deferred change: it runs whatever the outcome is.
  unfoldable pub deferred {ι} : {A : Type ι} → (S → S) → Action S E A → Action S E A
  deferred f m s = (f (m s).0, (m s).1)

  -- The outcome is dropped, and the changes stay.
  unfoldable pub ignoring {ι} : {A : Type ι} → Action S E A → Action S E Nothing
  ignoring m s = ((m s).0, done tt)

-- The action keeps `P`, whatever its outcome is.
pub record Keeps {ℓ κ ι ν} {S : Type ℓ} {E : Type κ} {A : Type ι} (P : S → Type ν)
    (m : Action S E A) : Type (ℓ ⊔ ν) where
  pub keeps : (s : S) → P s → P (m s).0

-- What each operation does to a state.
module _ {ℓ κ} {S : Type ℓ} {E : Type κ} where
  >>=_lem {ι ι'} :
      {A : Type ι} {B : Type ι'} (m : Action S E A) (f : A → Action S E B) (s : S)
      → (m >>= f) s ≡ continue f (m s)
  unfolding ◌>>=◌
  >>=_lem m f s = refl

  pub >>_lem {ι ι'} :
      {A : Type ι} {B : Type ι'} (m : Action S E A) (n : Action S E B) (s : S)
      → (m >> n) s ≡ continue (λ _. n) (m s)
  unfolding ◌>>◌
  >>_lem m n s = refl

  pure_lem {ι} : {A : Type ι} (a : A) (s : S) → pure {E = E} a s ≡ (s, done a)
  unfolding pure
  pure_lem a s = refl

  fail_lem {ι} : {A : Type ι} (e : E) (s : S) → fail {A = A} e s ≡ (s, failed e)
  unfolding fail
  fail_lem e s = refl

  read_lem {ι} : {A : Type ι} (f : S → A) (s : S) → read {E = E} f s ≡ (s, done (f s))
  unfolding read
  read_lem f s = refl

  pub modify_lem : (f : S → S) (s : S) → modify {E = E} f s ≡ (f s, done tt)
  unfolding modify
  modify_lem f s = refl

  attempt_lem : (e : E) (f : S → S × Bool) (s : S) → attempt e f s ≡ told e (f s)
  unfolding attempt
  attempt_lem e f s = refl

  deferred_lem {ι} :
      {A : Type ι} (f : S → S) (m : Action S E A) (s : S) → deferred f m s ≡ (f (m s).0, (m s).1)
  unfolding deferred
  deferred_lem f m s = refl

  ignoring_lem {ι} : {A : Type ι} (m : Action S E A) (s : S) → ignoring m s ≡ ((m s).0, done tt)
  unfolding ignoring
  ignoring_lem m s = refl

told-keeps {ℓ κ ν} :
    {S : Type ℓ} {E : Type κ} (P : S → Type ν) (e : E) (o : S × Bool) → P o.0 → P (told e o).0
told-keeps P e (s, true) p = p
told-keeps P e (s, false) p = p

chosen-keeps {ℓ κ ι ν} :
    {S : Type ℓ} {E : Type κ} {A : Type ι} (P : S → Type ν) (b : Bool) (x y : S × Outcome E A)
    → P x.0
    → P y.0
    → P (if b then x else y).0
chosen-keeps P true x y h k = h
chosen-keeps P false x y h k = k

guarded-keeps {ℓ κ ι ν} :
    {S : Type ℓ} {E : Type κ} {A : Type ι} (P : S → Type ν) (b : Bool) (x y : S × Outcome E A)
    → (b ≡ true → P x.0)
    → P y.0
    → P (if b then x else y).0
guarded-keeps P true x y h k = h refl
guarded-keeps P false x y h k = k

matched-keeps {ℓ κ ι ι' ν} :
    {S : Type ℓ} {E : Type κ} {A : Type ι} {C : Type ι'} (P : S → Type ν) (m : Action S E A)
    (f : C → Action S E A) (s : S) (o : Option C)
    → P s
    → Keeps P m
    → ((c : C) → Keeps P (f c))
    → P (elim o as (λ _. S × Outcome E A) [ none ↦ m s | some c ↦ f c s ]).0
matched-keeps P m f s none p h k = h.keeps s p
matched-keeps P m f s (some c) p h k = (k c).keeps s p

module _ {ℓ κ ν} {S : Type ℓ} {E : Type κ} {P : S → Type ν} where
  continue-keeps {ι ι'} :
      {A : Type ι} {B : Type ι'} (f : A → Action S E B) (o : S × Outcome E A)
      → ((a : A) → Keeps P (f a))
      → P o.0
      → P (continue f o).0
  continue-keeps f (s, done a) k h = (k a).keeps s h
  continue-keeps f (s, failed e) k h = h
  continue-keeps f (s, panicked) k h = h

  pub >>=-Keeps {ι ι'} :
      {A : Type ι} {B : Type ι'} {m : Action S E A} {f : A → Action S E B}
      → Keeps P m
      → ((a : A) → Keeps P (f a))
      → Keeps P (m >>= f)
  >>=-Keeps {m = m} {f = f} h k = record {
    keeps = λ s p. rw (>>=_lem m f s) (continue-keeps f (m s) k (h.keeps s p));
  }

  pub >>-Keeps {ι ι'} :
      {A : Type ι} {B : Type ι'} {m : Action S E A} {n : Action S E B}
      → Keeps P m
      → Keeps P n
      → Keeps P (m >> n)
  >>-Keeps {m = m} {n = n} h k = record {
    keeps = λ s p. rw (>>_lem m n s) (continue-keeps (λ _. n) (m s) (λ _. k) (h.keeps s p));
  }

  pub pure-Keeps {ι} : {A : Type ι} (a : A) → Keeps P (pure {S = S} {E = E} a)
  pure-Keeps a = record { keeps = λ s p. rw (pure_lem {E = E} a s) p }

  pub fail-Keeps {ι} : {A : Type ι} (e : E) → Keeps P (fail {S = S} {A = A} e)
  fail-Keeps {A = A} e = record { keeps = λ s p. rw (fail_lem {A = A} e s) p }

  pub panic-Keeps {ι} : {A : Type ι} → Keeps P (panic {S = S} {E = E} {A = A})
  unfolding panic
  panic-Keeps = record { keeps = λ s p. p }

  pub read-Keeps {ι} : {A : Type ι} (f : S → A) → Keeps P (read {E = E} f)
  read-Keeps f = record { keeps = λ s p. rw (read_lem {E = E} f s) p }

  pub modify-Keeps : (f : S → S) → ((s : S) → P s → P (f s)) → Keeps P (modify {E = E} f)
  modify-Keeps f k = record { keeps = λ s p. rw (modify_lem {E = E} f s) (k s p) }

  pub attempt-Keeps :
      (e : E) (f : S → S × Bool) → ((s : S) → P s → P (f s).0) → Keeps P (attempt e f)
  attempt-Keeps e f k = record {
    keeps = λ s p. rw (attempt_lem e f s) (told-keeps P e (f s) (k s p));
  }

  pub deferred-Keeps {ι} :
      {A : Type ι} {m : Action S E A} (f : S → S)
      → ((s : S) → P s → P (f s))
      → Keeps P m
      → Keeps P (deferred f m)
  deferred-Keeps {m = m} f k h = record {
    keeps = λ s p. rw (deferred_lem f m s) (k (m s).0 (h.keeps s p));
  }

  pub ignoring-Keeps {ι} : {A : Type ι} {m : Action S E A} → Keeps P m → Keeps P (ignoring m)
  ignoring-Keeps {m = m} h = record { keeps = λ s p. rw (ignoring_lem m s) (h.keeps s p) }

  -- Keeps of a choice
  pub if-Keeps {ι} :
      {A : Type ι} (b : Bool) {m n : Action S E A}
      → Keeps P m
      → Keeps P n
      → Keeps P (if b then m else n)
  if-Keeps true h k = h
  if-Keeps false h k = k

  pub option-Keeps {ι ι'} :
      {A : Type ι} {C : Type ι'} (o : Option C) {m : Action S E A} {f : C → Action S E A}
      → Keeps P m
      → ((c : C) → Keeps P (f c))
      → Keeps P (elim o [ none ↦ m | some c ↦ f c ])
  option-Keeps none h k = h
  option-Keeps (some c) h k = k c

  -- Keeps of a choice that reads the state
  pub choice-Keeps {ι} :
      {A : Type ι} (b : S → Bool) {m n : Action S E A}
      → Keeps P m
      → Keeps P n
      → Keeps P (λ s. if b s then m s else n s)
  choice-Keeps b h k = record {
    keeps = λ s p. chosen-keeps P (b s) _ _ (h.keeps s p) (k.keeps s p);
  }

  -- The first branch may use the test.
  pub guard-Keeps {ι} :
      {A : Type ι} (b : S → Bool) (m : Action S E A) {n : Action S E A}
      → ((s : S) → b s ≡ true → P s → P (m s).0)
      → Keeps P n
      → Keeps P (λ s. if b s then m s else n s)
  guard-Keeps b m {n = n} h k = record {
    keeps = λ s p. guarded-keeps P (b s) (m s) (n s) (λ t. h s t p) (k.keeps s p);
  }

  pub match-Keeps {ι ι'} :
      {A : Type ι} {C : Type ι'} (o : S → Option C) {m : Action S E A} {f : C → Action S E A}
      → Keeps P m
      → ((c : C) → Keeps P (f c))
      → Keeps {E = E} {A = A} P (λ s. elim (o s) [ none ↦ m s | some c ↦ f c s ])
  match-Keeps o {m = m} {f = f} h k = record { keeps = λ s p. matched-keeps P m f s (o s) p h k }

  pub here-Keeps {ι} : {A : Type ι} (o : S → Outcome E A) → Keeps P (λ s. (s, o s))
  here-Keeps o = record { keeps = λ s p. p }
