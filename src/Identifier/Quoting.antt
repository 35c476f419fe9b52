-- ===== src/Identifier/Quoting.antt =====
-- A quoted identifier is read back by the rule of the SQL standard.
use Prim.Native.Char.{Char, char, code}
use Prim.Native.String.{String, ◌++◌, [], ◌∷◌}
use text.Mathlib.TextEquality.{Char-path}
use text.Mathlib.TextLemmas.{append_assoc, append_cancel_left, nil-append, cons-append}
use mathlib.Core.List.{[] as nil, ◌∷◌ as cons}
use myduckserver.Base.{
  Bool, true, false, Bool-cases, ◌==◌, ==_iff, if◌then◌else◌, Option, none, some, ◌≡◌, refl, sym,
  ap, ◌∙◌, inl, inr, arith,
}
use myduckserver.Identifier.{quote, doubled, quote_identifier_ansi, join, connect_identifiers_ansi}

abbrev prepend : Char → Option (String × String) → Option (String × String)
prepend c none = none
prepend c (some (s, rest)) = some (c ∷ s, rest)

-- What a quoted identifier holds, read from behind its opening mark: a doubled mark stands for one, and
-- a single mark ends it. The text behind it is the second component.
unfoldable pub scan_identifier : String → Option (String × String)
scan_identifier [] = none
scan_identifier (c ∷ []) = if code c == 34 then some ([], []) else none
scan_identifier (c ∷ (d ∷ s)) =
    let rest = scan_identifier s in
    let next = scan_identifier (d ∷ s) in
    if code c == 34
    then (if code d == 34 then prepend quote rest else some ([], d ∷ s))
    else prepend c next

-- The text does not begin with a quotation mark.
abbrev pub no_quote : String → Bool
no_quote [] = true
no_quote (c ∷ s) = if code c == 34 then false else true

scan_identifier_other :
    (c : Char) (s : String)
    → (code c == 34) ≡ false
    → scan_identifier (c ∷ s) ≡ prepend c (scan_identifier s)
unfolding scan_identifier
scan_identifier_other c [] h = rw h
scan_identifier_other c (d ∷ s) h = rw h

scan_identifier_end :
    (rest : String) → no_quote rest ≡ true → scan_identifier (quote ∷ rest) ≡ some ([], rest)
unfolding scan_identifier
scan_identifier_end [] h = refl
scan_identifier_end (d ∷ s) h = ground arith

scan_identifier-doubled :
    (s rest : String)
    → no_quote rest ≡ true
    → scan_identifier (doubled s ++ (quote ∷ rest)) ≡ some (s, rest)
unfolding scan_identifier doubled
scan_identifier-doubled [] rest h = rw (nil-append (quote ∷ rest)) (scan_identifier_end rest h)
scan_identifier-doubled (c ∷ s) rest h = elim (Bool-cases (code c == 34)) [
  | inl e ↦
      let p : c ≡ quote = Char-path c quote ((==_iff (code c) 34).0 e) in
      rw (
        e,
        cons-append quote (quote ∷ doubled s) (quote ∷ rest),
        cons-append quote (doubled s) (quote ∷ rest),
        scan_identifier-doubled s rest h,
        p,
      )
  | inr e ↦ rw (
    e,
    cons-append c (doubled s) (quote ∷ rest),
    scan_identifier_other c (doubled s ++ (quote ∷ rest)) e,
    scan_identifier-doubled s rest h,
  )
]

abbrev behind_first : String → String
behind_first [] = []
behind_first (c ∷ s) = s

quote_identifier_ansi-append :
    (s rest : String) → quote_identifier_ansi s ++ rest ≡ quote ∷ (doubled s ++ (quote ∷ rest))
unfolding quote_identifier_ansi
quote_identifier_ansi-append s rest =
    cons-append quote (doubled s ++ (quote ∷ [])) rest
    ∙ ap (λ t. quote ∷ t)
        (append_assoc (doubled s) (quote ∷ []) rest
          ∙ ap (λ t. doubled s ++ t)
              (cons-append quote [] rest ∙ ap (λ t. quote ∷ t) (nil-append rest)))

scan_identifier-quote_identifier_ansi :
    (s rest : String)
    → no_quote rest ≡ true
    → scan_identifier (behind_first (quote_identifier_ansi s ++ rest)) ≡ some (s, rest)
scan_identifier-quote_identifier_ansi s rest h =
    ap (λ t. scan_identifier (behind_first t)) (quote_identifier_ansi-append s rest)
    ∙ scan_identifier-doubled s rest h

scan_identifier-connected :
    (d t : String)
    → scan_identifier (behind_first (connect_identifiers_ansi (cons d (cons t nil))))
      ≡ some (d, "." ++ quote_identifier_ansi t)
unfolding connect_identifiers_ansi join
scan_identifier-connected d t =
    scan_identifier-quote_identifier_ansi d ("." ++ quote_identifier_ansi t)
      (ap no_quote (cons-append (char 46 tt) [] (quote_identifier_ansi t)))

some-pair :
    {s t rest rest' : String}
    → ◌≡◌ {A = Option (String × String)} (some (s, rest)) (some (t, rest'))
    → (s ≡ t) × (rest ≡ rest')
some-pair h = ground arith

quote_identifier_ansi_injective :
    (s t : String) → quote_identifier_ansi s ≡ quote_identifier_ansi t → s ≡ t
quote_identifier_ansi_injective s t h =
    (some-pair (
      sym (scan_identifier-quote_identifier_ansi s [] refl)
      ∙ ap (λ q. scan_identifier (behind_first (q ++ []))) h
      ∙ scan_identifier-quote_identifier_ansi t [] refl)).0

-- The SQL name of a table determines the database and the table, whatever characters the two names hold.
pub connect_identifiers_ansi_injective :
    (d t d' t' : String)
    → connect_identifiers_ansi (cons d (cons t nil))
      ≡ connect_identifiers_ansi (cons d' (cons t' nil))
    → (d ≡ d') × (t ≡ t')
connect_identifiers_ansi_injective d t d' t' h =
    let p = some-pair (
      sym (scan_identifier-connected d t)
      ∙ ap (λ q. scan_identifier (behind_first q)) h
      ∙ scan_identifier-connected d' t') in
    (p.0, quote_identifier_ansi_injective t t' (append_cancel_left "." _ _ p.1))
