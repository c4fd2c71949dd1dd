-- ===== src/Rank/Narrowing.antt =====
-- engine/rank.py: `matches` against a prefix that is typed on.
use pysqlsuggestions.Prelude.{
  ℕ, suc, Bool, true, false, not, ◌&&◌, ◌||◌, List, [], ◌∷◌, ◌++◌, Str, any, non_empty, starts_with,
  find_from, ◌≡◌, refl, inl, inr, Bool-cases, Option-cases, arith,
}
use pysqlsuggestions.Lex.Token.{Chars}
use pysqlsuggestions.Types.{Kind, keyword, is_kind}
use pysqlsuggestions.Rank.Match.{
  Floats, words, initials, substring_strength, word_strength, match_strength,
}
use pysqlsuggestions.Rank.Present.{is_matched, matches}

pub starts_with_append : (p q : Str) → starts_with (p ++ q) p ≡ true
unfolding starts_with
starts_with_append [] q = refl
starts_with_append (x ∷ p) q = ground (arith, starts_with_append p q)

starts_with_trans :
    (xs ys zs : Str)
    → starts_with ys zs ≡ true
    → starts_with xs ys ≡ true
    → starts_with xs zs ≡ true
unfolding starts_with
starts_with_trans xs ys [] h k = refl
starts_with_trans xs [] (z ∷ zs) h k = absurd (ground (arith, h))
starts_with_trans [] (y ∷ ys) (z ∷ zs) h k = absurd (ground (arith, k))
starts_with_trans (x ∷ xs) (y ∷ ys) (z ∷ zs) h k = ground (arith, starts_with_trans xs ys zs)

-- A part of what is sought.
module _ (more less : Str) (part : starts_with more less ≡ true) where
  any-starts_with :
      (ws : List Str)
      → any (λ w. starts_with w more) ws ≡ true
      → any (λ w. starts_with w less) ws ≡ true
  any-starts_with [] h = absurd (ground (arith, h))
  any-starts_with (w ∷ ws) h =
      ground (arith, starts_with_trans w more less part, any-starts_with ws)

  find_from-part :
      (text : Str) (i : ℕ)
      → is_matched (find_from more text i) ≡ true
      → is_matched (find_from less text i) ≡ true
  unfolding find_from
  find_from-part [] i h = elim (Bool-cases (starts_with [] more)) [
    | inl e ↦ rw (starts_with_trans [] more less part e) refl
    | inr e ↦ let clash : false ≡ true = rw e at h in absurd (ground (arith, clash))
  ]
  find_from-part (c ∷ cs) i h = elim (Bool-cases (starts_with (c ∷ cs) less)) [
    | inl e ↦ rw e refl
    | inr e ↦ elim (Bool-cases (starts_with (c ∷ cs) more)) [
      | inl k ↦
          let both = starts_with_trans (c ∷ cs) more less part k in absurd (ground (arith, e, both))
      | inr k ↦ rw e (find_from-part cs (suc i) (rw k at h))
    ]
  ]

module _ (u : Chars) (f : Floats) where
  substring-found :
      (lowered folded : Str)
      → is_matched (substring_strength u f lowered folded) ≡ is_matched (find_from folded lowered 0)
  unfolding substring_strength
  substring-found lowered folded = elim (Option-cases (find_from folded lowered 0)) [
    | inl e ↦ rw (substring_strength, e) refl
    | inr (at, e) ↦ rw (substring_strength, e) refl
  ]

  -- Which names are found behind the tiers of the whole name.
  abbrev pub in_words : Str → Str → Str → Kind → Bool
  in_words text folded lowered kind =
      not (is_kind kind keyword)
      && (any (λ w. starts_with w folded) (words u text)
          || starts_with (initials (words u text)) folded
          || is_matched (find_from folded lowered 0))

  word_strength-found :
      (text folded lowered : Str) (kind : Kind)
      → is_matched (word_strength u f text folded lowered kind) ≡ in_words text folded lowered kind
  unfolding word_strength
  word_strength-found text folded lowered kind =
      let found = substring-found lowered folded in
      elim (Bool-cases (is_kind kind keyword)) [
        | inl e ↦ rw e refl
        | inr e ↦ elim (Bool-cases (any (λ w. starts_with w folded) (words u text))) [
          | inl k ↦ rw (e, k) refl
          | inr k ↦ elim (Bool-cases (starts_with (initials (words u text)) folded)) [
            | inl i ↦ rw (e, k, i) refl
            | inr i ↦ rw (e, k, i) found
          ]
        ]
      ]

  pub matches-found :
      (text prefix : Str) (kind : Kind)
      → matches u f text prefix kind ≡ (
          not (non_empty prefix)
          || starts_with text prefix
          || starts_with (u.lower text) (u.lower prefix)
          || in_words text (u.lower prefix) (u.lower text) kind)
  unfolding matches match_strength
  matches-found text prefix kind =
      let found = word_strength-found text (u.lower prefix) (u.lower text) kind in
      elim (Bool-cases (not (non_empty prefix))) [
        | inl e ↦ rw e refl
        | inr e ↦ elim (Bool-cases (starts_with text prefix)) [
          | inl k ↦ rw (e, k) refl
          | inr k ↦ elim (Bool-cases (starts_with (u.lower text) (u.lower prefix))) [
            | inl i ↦ rw (e, k, i) refl
            | inr i ↦ rw (e, k, i) found
          ]
        ]
      ]

  -- Typing on only narrows: a name that `matches` accepts for a prefix it accepts for every beginning of
  -- that prefix too, by whichever tier, where lower case leaves the beginning a beginning (Python's does,
  -- but for a Greek sigma that ends a word).
  pub matches-narrows :
      (text p q : Str) (kind : Kind)
      → starts_with (u.lower (p ++ q)) (u.lower p) ≡ true
      → matches u f text (p ++ q) kind ≡ true
      → matches u f text p kind ≡ true
  matches-narrows text [] q kind lowers h = rw (matches-found text [] kind) refl
  matches-narrows text (c ∷ p) q kind lowers h =
      let more = u.lower (c ∷ p ++ q) in
      let less = u.lower (c ∷ p) in
      let longer = matches-found text (c ∷ p ++ q) kind in
      let shorter = matches-found text (c ∷ p) kind in
      ground (
        arith,
        longer,
        shorter,
        starts_with_trans text (c ∷ p ++ q) (c ∷ p) (starts_with_append (c ∷ p) q),
        starts_with_trans (u.lower text) more less lowers,
        any-starts_with more less lowers (words u text),
        starts_with_trans (initials (words u text)) more less lowers,
        find_from-part more less lowers (u.lower text) 0,
      )
