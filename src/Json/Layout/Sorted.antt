-- ===== src/Json/Layout/Sorted.antt =====
-- The sorted fields of an object have the sizes of the fields that it has, and their properties.
use myduckserver.Base.{
  ℕ, suc, ◌+◌, if_both, List, [], ◌∷◌, length, All, ◌≡◌, refl, sym, ◌∙◌, ap, arith, length-append,
}
use myduckserver.Json.Objects.{key_leb, insert_key, sort_keys}
use myduckserver.Json.Layout.{value_of, values_of, keys_of, IsEncoded}
use myduckserver.Json.Layout.Keys.{IsShort}
use myduckserver.Json.Layout.Fields.{EncodedField, keys, values}

abbrev pub keys_length : List EncodedField → ℕ
keys_length fs = length (keys_of (keys fs))

abbrev pub values_length : List EncodedField → ℕ
values_length fs = length (values_of (values fs))

-- The number of fields, and the bytes of their keys and values.
abbrev Measures : ℕ → ℕ → ℕ → List EncodedField → Type 0
Measures n k v fs = (length fs ≡ n) × (keys_length fs ≡ k) × (values_length fs ≡ v)

cons-Measures :
    (f : EncodedField) (fs : List EncodedField) (n k v : ℕ)
    → Measures n k v fs
    → Measures (suc n) (length f.0 + k) (length (value_of f.1) + v) (f ∷ fs)
cons-Measures f fs n k v (a, b, c) = (
  ap suc a,
  length-append f.0 (keys_of (keys fs)) ∙ ap (λ m. length f.0 + m) b,
  length-append (value_of f.1) (values_of (values fs)) ∙ ap (λ m. length (value_of f.1) + m) c,
)

insert_key-Measures :
    (f : EncodedField) (fs : List EncodedField)
    → Measures
        (suc (length fs))
        (length f.0 + keys_length fs)
        (length (value_of f.1) + values_length fs)
        (insert_key f fs)
unfolding insert_key
insert_key-Measures f [] = cons-Measures f [] 0 0 0 (refl, refl, refl)
insert_key-Measures f (g ∷ fs) =
    let n = length fs in
    let k = keys_length fs in
    let v = values_length fs in
    let h = cons-Measures g fs n k v (refl, refl, refl) in
    let (a, b, c) = cons-Measures f (g ∷ fs) _ _ _ h in
    let (a', b', c') = cons-Measures g (insert_key f fs) _ _ _ (insert_key-Measures f fs) in
    if_both
      (Measures (suc (length (g ∷ fs))) (length f.0 + keys_length (g ∷ fs))
        (length (value_of f.1) + values_length (g ∷ fs)))
      (key_leb f.0 g.0) {x = f ∷ g ∷ fs} {y = g ∷ insert_key f fs}
      (refl, length-append _ _, length-append _ _)
      (a', omega (arith, b', h.1), omega (arith, c', h.2))

pub sort_keys-Measures :
    (fs : List EncodedField)
    → Measures (length fs) (keys_length fs) (values_length fs) (sort_keys fs)
unfolding sort_keys
sort_keys-Measures [] = (refl, refl, refl)
sort_keys-Measures (f ∷ fs) =
    let (a, b, c) = insert_key-Measures f (sort_keys fs) in
    let (a', b', c') = sort_keys-Measures fs in
    (
      a ∙ ap suc a',
      b ∙ ap (λ m. length f.0 + m) b' ∙ sym (length-append _ _),
      c ∙ ap (λ m. length (value_of f.1) + m) c' ∙ sym (length-append _ _),
    )

-- What all keys and all values have.
abbrev Both : List EncodedField → Type 0
Both fs = All IsShort (keys fs) × All IsEncoded (values fs)

insert_key-Both :
    (f : EncodedField) (fs : List EncodedField)
    → IsShort f.0
    → IsEncoded f.1
    → Both fs
    → Both (insert_key f fs)
unfolding insert_key
insert_key-Both f [] a b h = ((a, tt), (b, tt))
insert_key-Both f (g ∷ fs) a b ((c, cs), (d, ds)) =
    let (es, gs) = insert_key-Both f fs a b (cs, ds) in
    if_both Both (key_leb f.0 g.0) {x = f ∷ g ∷ fs} {y = g ∷ insert_key f fs}
      ((a, (c, cs)), (b, (d, ds))) ((c, es), (d, gs))

pub sort_keys-Both : (fs : List EncodedField) → Both fs → Both (sort_keys fs)
unfolding sort_keys
sort_keys-Both [] h = h
sort_keys-Both (f ∷ fs) ((a, cs), (b, bs)) =
    insert_key-Both f (sort_keys fs) a b (sort_keys-Both fs (cs, bs))
