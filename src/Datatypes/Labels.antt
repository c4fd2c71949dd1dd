-- ===== src/Datatypes/Labels.antt =====
-- engine/datatypes.py: the labels that an enumeration's type text spells out are read back.
use pysqlsuggestions.Prelude.{
  ℕ, suc, Bool, true, false, not, ◌&&◌, List, [], ◌∷◌, ◌++◌, some, Str, codes, length, all, any,
  map, ◌==◌, ==_iff, text_eq, starts_with, non_empty, ◌≡◌, refl, sym, ap, ap₂, ◌∙◌, inl, inr,
  Bool-cases, and-eq-true, arith,
}
use mathlib.Core.List.{append_assoc}
use pysqlsuggestions.Lex.Token.{Chars}
use pysqlsuggestions.Quote.Defs.{replace_from, quoted}
use pysqlsuggestions.Datatypes.Defs.{in_label, label_body, unescape, find_labels, family, literals}

-- A text without an apostrophe.
abbrev pub quoteless : Str → Bool
quoteless text = all (λ c. not (c == b'\'')) text

-- A label between apostrophes, with those inside doubled, and what is written behind it.
abbrev pub written : List (Str × Str) → Str
written [] = []
written (row ∷ rows) = quoted (codes "'") (row.0) ++ (row.1 ++ written rows)

-- Behind each label something other than an apostrophe is written, as `= 1` is.
abbrev pub separated : List (Str × Str) → Bool
separated rows = all (λ row. non_empty (row.1) && quoteless (row.1)) rows

abbrev doubled : Str → Str
doubled label = replace_from (codes "'") (codes "''") 0 label

label_body-cons :
    (c : ℕ) (cs : Str)
    → (c == b'\'') ≡ false
    → non_empty cs ≡ true
    → label_body (c ∷ cs) ≡ in_label (c ∷ []) (label_body cs)
unfolding label_body
label_body-cons c [] h k = absurd (ground (arith, k))
label_body-cons c (d ∷ ds) h k = rw h refl

label_body-close :
    (rest : Str) → starts_with rest (codes "'") ≡ false → label_body (b'\'' ∷ rest) ≡ some []
unfolding label_body starts_with
label_body-close [] h = refl
label_body-close (d ∷ ds) h = elim (Bool-cases (d == b'\'')) [
  | inl e ↦ absurd (ground (arith, h, e))
  | inr e ↦ rw e refl
]

non_empty-before : (xs ys : Str) (c : ℕ) → non_empty (xs ++ (c ∷ ys)) ≡ true
non_empty-before [] ys c = refl
non_empty-before (x ∷ xs) ys c = refl

label_body-doubled :
    (label rest : Str)
    → starts_with rest (codes "'") ≡ false
    → label_body (doubled label ++ (b'\'' ∷ rest)) ≡ some (doubled label)
unfolding replace_from starts_with label_body
label_body-doubled [] rest h = label_body-close rest h
label_body-doubled (c ∷ cs) rest h = elim (Bool-cases (c == b'\'')) [
  | inl e ↦ rw (e, label_body-doubled cs rest h) refl
  | inr e ↦ rw e (
      label_body-cons c (doubled cs ++ (b'\'' ∷ rest)) e (non_empty-before (doubled cs) rest b'\'')
      ∙ ap (in_label (c ∷ [])) (label_body-doubled cs rest h))
]

unescape-doubled : (label : Str) → unescape (doubled label) ≡ label
unfolding replace_from starts_with
unescape-doubled [] = refl
unescape-doubled (c ∷ cs) = elim (Bool-cases (c == b'\'')) [
  | inl e ↦ rw e (ap₂ (◌∷◌) (sym ((==_iff c b'\'').0 e)) (unescape-doubled cs))
  | inr e ↦ rw (e, e) (ap (◌∷◌ c) (unescape-doubled cs))
]

find_labels-skip :
    (xs ys : Str) (c : ℕ) → find_labels (suc (length xs)) (xs ++ (c ∷ ys)) ≡ find_labels 0 ys
unfolding find_labels
find_labels-skip [] ys c = refl
find_labels-skip (x ∷ xs) ys c = find_labels-skip xs ys c

find_labels-quoteless :
    (xs ys : Str) → quoteless xs ≡ true → find_labels 0 (xs ++ ys) ≡ find_labels 0 ys
unfolding find_labels
find_labels-quoteless [] ys h = refl
find_labels-quoteless (x ∷ xs) ys h = elim (Bool-cases (x == b'\'')) [
  | inl e ↦ absurd (ground (arith, h, e))
  | inr e ↦ rw e (find_labels-quoteless xs ys (ground (arith, h)))
]

separator_lem :
    (after rest : Str)
    → (non_empty after && quoteless after) ≡ true
    → starts_with (after ++ rest) (codes "'") ≡ false
unfolding starts_with
separator_lem [] rest h = absurd (ground (arith, h))
separator_lem (c ∷ cs) rest h = ground (arith, h)

find_labels-label :
    (label rest : Str)
    → starts_with rest (codes "'") ≡ false
    → find_labels 0 (quoted (codes "'") label ++ rest) ≡ label ∷ find_labels 0 rest
unfolding find_labels quoted
find_labels-label label rest h =
    let shape : (doubled label ++ (b'\'' ∷ [])) ++ rest ≡ doubled label ++ (b'\'' ∷ rest) =
      append_assoc (doubled label) (b'\'' ∷ []) rest in
    rw (shape, label_body-doubled label rest h)
      (ap₂ (◌∷◌) (unescape-doubled label) (find_labels-skip (doubled label) rest b'\''))

find_labels-written :
    (rows : List (Str × Str))
    → separated rows ≡ true
    → find_labels 0 (written rows) ≡ map (λ row. row.0) rows
unfolding find_labels
find_labels-written [] h = refl
find_labels-written (row ∷ rows) h =
    let parts = and-eq-true (non_empty (row.1) && quoteless (row.1)) (separated rows) h in
    let clean = and-eq-true (non_empty (row.1)) (quoteless (row.1)) (parts.0) in
    find_labels-label (row.0) (row.1 ++ written rows)
      (separator_lem (row.1) (written rows) (parts.0))
    ∙ ap (◌∷◌ (row.0)) (
        find_labels-quoteless (row.1) (written rows) (clean.1) ∙ find_labels-written rows (parts.1))

-- The type text of an enumeration that writes its labels between apostrophes, those inside doubled and
-- something else behind each label, has exactly these labels as literals, in order. The text in front
-- of the labels has no apostrophe, the whole is not of the boolean family, and in lower case it starts
-- like an enumeration.
pub literals-written :
    (u : Chars) (front : Str) (rows : List (Str × Str))
    → quoteless front ≡ true
    → separated rows ≡ true
    → non_empty (front ++ written rows) ≡ true
    → text_eq (family u (some (front ++ written rows))) (codes "boolean") ≡ false
    → any
        (starts_with (u.lower (front ++ written rows)))
        (codes "enum8(" ∷ codes "enum16(" ∷ codes "enum(" ∷ [])
      ≡ true
    → literals u (some (front ++ written rows)) ≡ map (λ row. row.0) rows
unfolding literals
literals-written u front rows clean apart some_text no_boolean enum_text =
    rw (some_text, no_boolean, enum_text)
      (find_labels-quoteless front (written rows) clean ∙ find_labels-written rows apart)
