-- ===== src/Lex/Found.antt =====
-- Scanners of Lex/Scan.antt that may find nothing: what they find is not empty and lies in the source.
use pysqlsuggestions.Prelude.{
  ℕ, suc, ◌+◌, ◌-◌, ◌≤◌, Bool, true, false, List, [], ◌∷◌, Option, none, some, Str, codes, length,
  drop, take, length-drop, leb, if◌then◌else◌, non_empty, starts_with, find_from, ◌≡◌, refl, arith,
  Bool-cases, Option-cases, all, and-eq-true, all-sort, all-keep, keep, ◌∙◌, sort, inl, inr,
  or_else, has_char,
}
use pysqlsuggestions.Lex.Token.{Chars, Syntax, Placeholder, Body, bare, anything}
use pysqlsuggestions.Lex.Scan.{
  scan_dollar_quote, scan_body, scan_one_placeholder, try_placeholders, scan_placeholder,
  placeholder_openers, longer_opener, first_starting, with_cast, single_operator, match_operator,
  operator_chars, longer_first,
}
use pysqlsuggestions.Lex.Bounds.{
  Within, find_from-Within, scan_body-Within, run_to-Within, starts_with_fits,
}

-- Where a scanner may answer with nothing: what it finds ends behind `lo`.
abbrev pub Found : ℕ → ℕ → Option (ℕ × Bool) → Type 0
Found lo hi none = Unit {0}
Found lo hi (some r) = Within lo hi r.0

Found-if :
    (b : Bool) {lo hi : ℕ} (r : ℕ × Bool)
    → Within lo hi r.0
    → Found lo hi (if b then some r else none)
Found-if true r h = h
Found-if false r h = tt

pub scan_dollar_quote-Found :
    (u : Chars) (c : ℕ) (cs : Str) (pos : ℕ)
    → Found (suc pos) (pos + length (c ∷ cs)) (scan_dollar_quote u (c ∷ cs) pos)
unfolding scan_dollar_quote
scan_dollar_quote-Found u c cs pos = elim (Option-cases (find_from (codes "$") cs (pos + 1))) [
  | inl e ↦ rw (e, scan_dollar_quote) tt
  | inr (j, e) ↦
      let size = j + 1 - pos in
      let tag = take size (c ∷ cs) in
      let fits = find_from-Within (codes "$") cs (pos + 1) j e in
      let left = length-drop {0} size (c ∷ cs) in
      let r = run_to-Within tag (drop size (c ∷ cs)) (j + 1) in
      rw (e, scan_dollar_quote) (Found-if _ _ (omega arith))
]

scan_one_placeholder-Found :
    (u : Chars) (p : Placeholder) (cs : Str) (i : ℕ)
    → Found i (i + length cs) (scan_one_placeholder u p cs i)
unfolding scan_one_placeholder
scan_one_placeholder-Found u p cs i = elim (Bool-cases (non_empty p.closes)) [
  | inl e ↦ rw e (run_to-Within p.closes cs i)
  | inr e ↦ rw e (by_body p.body)
]
  where
    by_body :
        (b : Body)
        → Found i (i + length cs) (elim b [
          | bare ↦ some (i, true)
          | anything ↦ none
          | other ↦
              let end = scan_body u cs i other in if leb end i then none else some (end, false)
        ])
    by_body bare = omega arith
    by_body anything = tt
    by_body b = ground (arith, scan_body-Within u cs i b)

Found-or_else :
    (lo hi : ℕ) (a b : Option (ℕ × Bool))
    → Found lo hi a
    → Found lo hi b
    → Found lo hi (or_else a b)
Found-or_else lo hi none b h k = k
Found-or_else lo hi (some r) b h k = h

Found-widen :
    (lo hi : ℕ) {lo' hi' : ℕ} (a : Option (ℕ × Bool))
    → lo' ≤ lo
    → hi ≤ hi'
    → Found lo hi a
    → Found lo' hi' a
Found-widen lo hi none p q h = tt
Found-widen lo hi (some r) p q h = omega arith

non_empty-length : (t : Str) → non_empty t ≡ true → 1 ≤ length t
non_empty-length [] h = ground arith
non_empty-length (c ∷ cs) h = omega arith

-- A placeholder consumes its opener, so what is found has grown if no opener is empty.
pub try_placeholders-Found :
    (u : Chars) (rest : Str) (pos : ℕ) (ps : List Placeholder)
    → all (λ p. non_empty p.opens) ps ≡ true
    → Found (suc pos) (pos + length rest) (try_placeholders u rest pos ps)
unfolding try_placeholders
try_placeholders-Found u rest pos [] h = tt
try_placeholders-Found u rest pos (p ∷ ps) h =
    let parts = and-eq-true (non_empty p.opens) (all (λ q. non_empty q.opens) ps) h in
    let others = try_placeholders-Found u rest pos ps parts.1 in
    let size = length p.opens in
    let grown = non_empty-length p.opens parts.0 in
    let left = length-drop {0} size rest in
    elim (Bool-cases (starts_with rest p.opens)) [
      | inr e ↦ rw e others
      | inl e ↦
          let fits = starts_with_fits rest p.opens e in
          rw e (
            Found-or_else _ _ _ _
              (Found-widen (pos + size) (pos + size + length (drop size rest)) _ (omega arith)
                (omega arith) (scan_one_placeholder-Found u p (drop size rest) (pos + size)))
              others)
    ]

pub scan_placeholder-Found :
    (u : Chars) (rest : Str) (pos : ℕ) (s : Syntax)
    → Found (suc pos) (pos + length rest) (scan_placeholder u rest pos s)
unfolding scan_placeholder placeholder_openers
scan_placeholder-Found u rest pos s = try_placeholders-Found u rest pos _ (
    all-sort (λ p. non_empty p.opens) longer_opener (keep (λ p. non_empty p.opens) s.placeholders)
    ∙ all-keep (λ p. non_empty p.opens) s.placeholders)

first_starting-fits :
    (rest : Str) (ops : List Str)
    → all non_empty ops ≡ true
    → (op : Str) → first_starting rest ops ≡ some op
    → (non_empty op ≡ true) × (starts_with rest op ≡ true)
unfolding first_starting
first_starting-fits rest [] h op e = cc
first_starting-fits rest (o ∷ ops) h op e =
    let parts = and-eq-true (non_empty o) (all non_empty ops) h in
    elim (Bool-cases (starts_with rest o)) [
      | inl hit ↦ ground arith
      | inr miss ↦ first_starting-fits rest ops parts.1 op (rw miss at e)
    ]

with_cast-non_empty : (o : Option Str) → all non_empty (with_cast o) ≡ true
with_cast-non_empty none = refl
with_cast-non_empty (some []) = refl
with_cast-non_empty (some (c ∷ cs)) = refl

single_operator-fits :
    (c : ℕ) (cs op : Str)
    → single_operator (c ∷ cs) ≡ some op
    → (non_empty op ≡ true) × (starts_with (c ∷ cs) op ≡ true)
unfolding single_operator starts_with
single_operator-fits c cs op e = elim (Bool-cases (has_char operator_chars c)) [
  | inl h ↦
      let same : some (c ∷ []) ≡ some op = rw h at e in
      let e' : op ≡ c ∷ [] = cc in rw e' (refl, ground arith)
  | inr h ↦ let no' : none ≡ some op = rw h at e in cc
]

-- An operator is not empty, and it stands at the start of `rest`.
pub match_operator-fits :
    (c : ℕ) (cs : Str) (s : Syntax) (op : Str)
    → match_operator (c ∷ cs) s ≡ some op
    → (non_empty op ≡ true) × (starts_with (c ∷ cs) op ≡ true)
unfolding match_operator
match_operator-fits c cs s op e =
    let ops = sort longer_first (with_cast s.cast_operator) in
    let full =
      all-sort non_empty longer_first (with_cast s.cast_operator)
      ∙ with_cast-non_empty s.cast_operator in
    elim (Option-cases (first_starting (c ∷ cs) ops)) [
      | inl miss ↦ single_operator-fits c cs op (rw (miss, match_operator) at e)
      | inr (o, hit) ↦
          let same : some o ≡ some op = rw (hit, match_operator) at e in
          first_starting-fits (c ∷ cs) ops full op (hit ∙ same)
    ]
