-- ===== src/Json/Layout/Fields.antt =====
-- The fields of an object whose values are encoded, and their order.
use myduckserver.Base.{
  ℕ, suc, Bool, true, false, if◌then◌else◌, List, [], ◌∷◌, map, length, done, ◌≡◌, refl, ap, ◌∙◌,
}
use myduckserver.Charset.{Bytes}
use myduckserver.Json.{Encoded}
use myduckserver.Json.Objects.{key_leb, insert_key, sort_keys}

-- A field whose value is encoded, and a list of them.
abbrev pub EncodedField : Type 0
EncodedField = Bytes × (ℕ × Bytes)

abbrev pub encoded_fields : List EncodedField → List (Bytes × Encoded)
encoded_fields [] = []
encoded_fields ((k, v) ∷ fs) = (k, done v) ∷ encoded_fields fs

abbrev pub keys : List EncodedField → List Bytes
keys [] = []
keys ((k, _) ∷ fs) = k ∷ keys fs

abbrev pub values : List EncodedField → List (ℕ × Bytes)
values [] = []
values ((_, v) ∷ fs) = v ∷ values fs

insert_key-encoded_fields :
    (k : Bytes) (v : ℕ × Bytes) (fs : List EncodedField)
    → insert_key (k, done v) (encoded_fields fs) ≡ encoded_fields (insert_key (k, v) fs)
unfolding insert_key
insert_key-encoded_fields k v [] = refl
insert_key-encoded_fields k v ((l, w) ∷ fs) =
    by_order (key_leb k l) (insert_key-encoded_fields k v fs)
  where
    by_order :
        (b : Bool)
        → insert_key (k, done v) (encoded_fields fs) ≡ encoded_fields (insert_key (k, v) fs)
        → (if b
            then (k, done v) ∷ (l, done w) ∷ encoded_fields fs
            else (l, done w) ∷ insert_key (k, done v) (encoded_fields fs))
          ≡ encoded_fields (if b then (k, v) ∷ (l, w) ∷ fs else (l, w) ∷ insert_key (k, v) fs)
    by_order true e = refl
    by_order false e = ap (λ r. (l, done w) ∷ r) e

pub sort_keys-encoded_fields :
    (fs : List EncodedField) → sort_keys (encoded_fields fs) ≡ encoded_fields (sort_keys fs)
unfolding sort_keys
sort_keys-encoded_fields [] = refl
sort_keys-encoded_fields ((k, v) ∷ fs) =
    ap (insert_key (k, done v)) (sort_keys-encoded_fields fs)
    ∙ insert_key-encoded_fields k v (sort_keys fs)

pub length-encoded_fields : (fs : List EncodedField) → length (encoded_fields fs) ≡ length fs
length-encoded_fields [] = refl
length-encoded_fields (f ∷ fs) = ap suc (length-encoded_fields fs)

pub length-keys : (fs : List EncodedField) → length (keys fs) ≡ length fs
length-keys [] = refl
length-keys (f ∷ fs) = ap suc (length-keys fs)

pub length-values : (fs : List EncodedField) → length (values fs) ≡ length fs
length-values [] = refl
length-values (f ∷ fs) = ap suc (length-values fs)

pub map-keys : (fs : List EncodedField) → map (λ f. f.0) (encoded_fields fs) ≡ keys fs
map-keys [] = refl
map-keys (f ∷ fs) = ap (λ r. f.0 ∷ r) (map-keys fs)

pub map-values :
    (fs : List EncodedField) → map (λ f. f.1) (encoded_fields fs) ≡ map done (values fs)
map-values [] = refl
map-values (f ∷ fs) = ap (λ r. done f.1 ∷ r) (map-values fs)
