-- ===== src/Rank/Accepts.antt =====
-- engine/rank.py: `matches` against a description of what a prefix finds.
use pysqlsuggestions.Prelude.{
  ℕ, suc, true, false, ◌==◌, List, [], ◌∷◌, ◌++◌, Str, any, non_empty, starts_with, find_from, ◌≡◌,
  ◌↔◌, refl, sym, ap, ap₂, ◌∙◌, inl, inr, Bool-cases, and-eq-true, ==_iff, arith,
}
use mathlib.Core.List.{Memᴰ}
use mathlib.Core.List.Memᴰ as Memᴰ
use pysqlsuggestions.Lex.Token.{Chars}
use pysqlsuggestions.Types.{Kind, keyword, is_kind}
use pysqlsuggestions.Rank.Match.{Floats, words, initials}
use pysqlsuggestions.Rank.Present.{is_matched, matches}
use pysqlsuggestions.Rank.Narrowing.{starts_with_append, in_words, matches-found}

-- A text begins with another, and holds another.
abbrev pub Begins : Str → Str → Type 0
Begins text part = (rest : Str) × (text ≡ part ++ rest)

abbrev pub Holds : Str → Str → Type 0
Holds text part = (before : Str) × (rest : Str) × (text ≡ before ++ (part ++ rest))

-- What a prefix finds: with nothing typed everything, otherwise a name that begins with it, as it is
-- typed or in lower case; and a name that is no keyword also by one of its words, by the initials of
-- its words, or anywhere inside.
pub data Finds (u : Chars) (text prefix : Str) (kind : Kind) : Type 0 where
  nothing_typed : prefix ≡ [] → Finds u text prefix kind
  as_typed : Begins text prefix → Finds u text prefix kind
  in_lower_case : Begins (u.lower text) (u.lower prefix) → Finds u text prefix kind
  by_word :
      is_kind kind keyword ≡ false
      → (word : Str) → Memᴰ word (words u text)
      → Begins word (u.lower prefix)
      → Finds u text prefix kind
  by_initials :
      is_kind kind keyword ≡ false
      → Begins (initials (words u text)) (u.lower prefix)
      → Finds u text prefix kind
  within :
      is_kind kind keyword ≡ false
      → Holds (u.lower text) (u.lower prefix)
      → Finds u text prefix kind

starts_with-Begins : (text part : Str) → starts_with text part ≡ true → Begins text part
unfolding starts_with
starts_with-Begins text [] h = (text, refl)
starts_with-Begins [] (y ∷ ys) h = absurd (ground (arith, h))
starts_with-Begins (x ∷ xs) (y ∷ ys) h =
    let both = and-eq-true (x == y) (starts_with xs ys) h in
    let (rest, e) = starts_with-Begins xs ys (both.1) in (rest, ap₂ ◌∷◌ ((==_iff x y).0 (both.0)) e)

Begins-starts_with : (text part : Str) → Begins text part → starts_with text part ≡ true
Begins-starts_with text part (rest, e) =
    ap (λ t. starts_with t part) e ∙ starts_with_append part rest

find_from-Holds :
    (text part : Str) (i : ℕ) → is_matched (find_from part text i) ≡ true → Holds text part
unfolding find_from
find_from-Holds [] part i h = elim (Bool-cases (starts_with [] part)) [
  | inl e ↦ let (rest, f) = starts_with-Begins [] part e in ([], rest, f)
  | inr e ↦ let clash : false ≡ true = rw e at h in absurd (ground (arith, clash))
]
find_from-Holds (c ∷ cs) part i h = elim (Bool-cases (starts_with (c ∷ cs) part)) [
  | inl e ↦ let (rest, f) = starts_with-Begins (c ∷ cs) part e in ([], rest, f)
  | inr e ↦
      let (before, rest, f) = find_from-Holds cs part (suc i) (rw e at h) in
      (c ∷ before, rest, ap (◌∷◌ c) f)
]

find_from_here :
    (text part : Str) (i : ℕ)
    → starts_with text part ≡ true
    → is_matched (find_from part text i) ≡ true
unfolding find_from
find_from_here [] part i h = rw h refl
find_from_here (c ∷ cs) part i h = rw h refl

find_from_inside :
    (before part rest : Str) (i : ℕ)
    → is_matched (find_from part (before ++ (part ++ rest)) i) ≡ true
unfolding find_from
find_from_inside [] part rest i =
    find_from_here (part ++ rest) part i (starts_with_append part rest)
find_from_inside (c ∷ before) part rest i =
    elim (Bool-cases (starts_with (c ∷ before ++ (part ++ rest)) part)) [
      | inl e ↦ rw e refl
      | inr e ↦ rw e (find_from_inside before part rest (suc i))
    ]

any-Mem :
    (part : Str) (ws : List Str)
    → any (λ w. starts_with w part) ws ≡ true
    → (word : Str) × Memᴰ word ws × Begins word part
any-Mem part [] h = absurd (ground (arith, h))
any-Mem part (w ∷ ws) h = elim (Bool-cases (starts_with w part)) [
  | inl e ↦ (w, Memᴰ.head refl, starts_with-Begins w part e)
  | inr e ↦ let (word, m, b) = any-Mem part ws (ground (arith, h, e)) in (word, Memᴰ.tail m, b)
]

Mem-any :
    (part : Str) (ws : List Str) (word : Str)
    → Memᴰ word ws
    → starts_with word part ≡ true
    → any (λ w. starts_with w part) ws ≡ true
Mem-any part [] word m h = absurd (Memᴰ.not-nil m)
Mem-any part (w ∷ ws) word (Memᴰ.head e) h =
    let here = ap (λ t. starts_with t part) (sym e) ∙ h in ground (arith, here)
Mem-any part (w ∷ ws) word (Memᴰ.tail m) h = ground (arith, Mem-any part ws word m h)

empty : (text : Str) → non_empty text ≡ false → text ≡ []
empty [] h = refl
empty (c ∷ cs) h = absurd (ground (arith, h))

module _ (u : Chars) (f : Floats) (text prefix : Str) (kind : Kind) where
  in_words-Finds :
      in_words u f text (u.lower prefix) (u.lower text) kind ≡ true → Finds u text prefix kind
  in_words-Finds h = elim (Bool-cases (is_kind kind keyword)) [
    | inl e ↦ absurd (ground (arith, e, h))
    | inr e ↦ elim (Bool-cases (any (λ w. starts_with w (u.lower prefix)) (words u text))) [
      | inl k ↦ let (word, m, b) = any-Mem (u.lower prefix) (words u text) k in by_word e word m b
      | inr k ↦ elim (Bool-cases (starts_with (initials (words u text)) (u.lower prefix))) [
        | inl i ↦ by_initials e (starts_with-Begins (initials (words u text)) (u.lower prefix) i)
        | inr i ↦
            within e
              (find_from-Holds (u.lower text) (u.lower prefix) 0 (ground (arith, e, k, i, h)))
      ]
    ]
  ]

  matched-Finds : matches u f text prefix kind ≡ true → Finds u text prefix kind
  matched-Finds h =
      let found = sym (matches-found u f text prefix kind) ∙ h in
      elim (Bool-cases (non_empty prefix)) [
        | inr e ↦ nothing_typed (empty prefix e)
        | inl e ↦ elim (Bool-cases (starts_with text prefix)) [
          | inl k ↦ as_typed (starts_with-Begins text prefix k)
          | inr k ↦ elim (Bool-cases (starts_with (u.lower text) (u.lower prefix))) [
            | inl i ↦ in_lower_case (starts_with-Begins (u.lower text) (u.lower prefix) i)
            | inr i ↦ in_words-Finds (ground (arith, e, k, i, found))
          ]
        ]
      ]

  Finds-matched : Finds u text prefix kind → matches u f text prefix kind ≡ true
  Finds-matched (nothing_typed e) =
      let none_typed = ap non_empty e in
      ground (arith, matches-found u f text prefix kind, none_typed)
  Finds-matched (as_typed b) =
      ground (arith, matches-found u f text prefix kind, Begins-starts_with text prefix b)
  Finds-matched (in_lower_case b) = ground (
    arith,
    matches-found u f text prefix kind,
    Begins-starts_with (u.lower text) (u.lower prefix) b,
  )
  Finds-matched (by_word other word m b) =
      let k =
        Mem-any (u.lower prefix) (words u text) word m
          (Begins-starts_with word (u.lower prefix) b) in
      ground (arith, matches-found u f text prefix kind, other, k)
  Finds-matched (by_initials other b) =
      let k = Begins-starts_with (initials (words u text)) (u.lower prefix) b in
      ground (arith, matches-found u f text prefix kind, other, k)
  Finds-matched (within other (before, rest, e)) =
      let k =
        ap (λ t. is_matched (find_from (u.lower prefix) t 0)) e
        ∙ find_from_inside before (u.lower prefix) rest 0 in
      ground (arith, matches-found u f text prefix kind, other, k)

  -- `matches` accepts a name exactly if the prefix finds it: with nothing typed, by its beginning as it is
  -- typed or in lower case, and, for a name that is no keyword, also by the beginning of one of its words,
  -- by the initials of its words, or by any place inside.
  pub matches_iff : (matches u f text prefix kind ≡ true) ↔ Finds u text prefix kind
  matches_iff = (matched-Finds, Finds-matched)
