-- ===== src/Lex/Starts.antt =====
-- engine/lex.py: a marker, an opener or a quote that starts with another kind of character than the
-- source at hand does not match there.
use pysqlsuggestions.Prelude.{
  ℕ, Bool, true, false, not, List, [], ◌∷◌, none, Str, any, all, keep, sort, ◌==◌, ==_iff,
  non_empty, starts_with, has_text, text_eq, ◌≡◌, refl, ◌∙◌, all-sort, arith, Bool-cases, inl, inr,
  and-eq-true,
}
use pysqlsuggestions.Lex.Token.{Chars, Syntax, Placeholder}
use pysqlsuggestions.Lex.Scan.{
  try_placeholders, scan_placeholder, placeholder_openers, longer_opener,
}

-- The text is not empty, and its first character is none that `p` takes.
abbrev pub starts_unlike : (ℕ → Bool) → Str → Bool
starts_unlike p [] = false
starts_unlike p (c ∷ cs) = not (p c)

all-keep_of_all {ℓ} :
    {A : Type ℓ} (p q : A → Bool) (xs : List A) → all p xs ≡ true → all p (keep q xs) ≡ true
all-keep_of_all p q [] h = refl
all-keep_of_all p q (x ∷ xs) h = ground (arith, all-keep_of_all p q xs)

module _ (p : ℕ → Bool) (c : ℕ) (cs : Str) (taken : p c ≡ true) where
  pub not_the : (d : ℕ) → p d ≡ false → (c == d) ≡ false
  not_the d h = elim (Bool-cases (c == d)) [
    | inr e ↦ e
    | inl e ↦ let same = (==_iff c d).0 e in absurd (ground arith)
  ]

  pub starts_with_unlike : (m : Str) → starts_unlike p m ≡ true → starts_with (c ∷ cs) m ≡ false
  unfolding starts_with
  starts_with_unlike [] h = cc
  starts_with_unlike (m ∷ ms) h = elim (Bool-cases (c == m)) [
    | inr e ↦ rw e
    | inl e ↦ let same = (==_iff c m).0 e in ground arith
  ]

  pub no_marker :
      (ms : List Str)
      → all (starts_unlike p) ms ≡ true
      → any (λ m. starts_with (c ∷ cs) m) ms ≡ false
  no_marker [] h = refl
  no_marker (m ∷ ms) h =
      let parts = and-eq-true (starts_unlike p m) (all (starts_unlike p) ms) h in
      rw (starts_with_unlike m parts.0) (no_marker ms parts.1)

  pub no_quote : (qs : List Str) → all (starts_unlike p) qs ≡ true → has_text qs (c ∷ []) ≡ false
  unfolding text_eq
  no_quote [] h = refl
  no_quote ([] ∷ qs) h = cc
  no_quote ((q ∷ r) ∷ qs) h =
      let parts = and-eq-true (starts_unlike p (q ∷ r)) (all (starts_unlike p) qs) h in
      elim (Bool-cases (q == c)) [
        | inr e ↦ rw e (no_quote qs parts.1)
        | inl e ↦ let same = (==_iff q c).0 e in let no' = parts.0 in absurd (ground arith)
      ]

  no_opener :
      (u : Chars) (pos : ℕ) (ps : List Placeholder)
      → all (λ x. starts_unlike p x.opens) ps ≡ true
      → try_placeholders u (c ∷ cs) pos ps ≡ none
  unfolding try_placeholders
  no_opener u pos [] h = refl
  no_opener u pos (x ∷ ps) h =
      let parts = and-eq-true (starts_unlike p x.opens) (all (λ y. starts_unlike p y.opens) ps) h in
      rw (starts_with_unlike x.opens parts.0) (no_opener u pos ps parts.1)

  pub no_placeholder :
      (u : Chars) (pos : ℕ) (s : Syntax)
      → all (λ x. starts_unlike p x.opens) s.placeholders ≡ true
      → scan_placeholder u (c ∷ cs) pos s ≡ none
  unfolding scan_placeholder placeholder_openers
  no_placeholder u pos s h =
      let unlike = λ (x : Placeholder). starts_unlike p x.opens in
      let kept = keep (λ x. non_empty x.opens) s.placeholders in
      no_opener u pos (sort longer_opener kept) (
        all-sort unlike longer_opener kept
        ∙ all-keep_of_all unlike (λ x. non_empty x.opens) s.placeholders h)
