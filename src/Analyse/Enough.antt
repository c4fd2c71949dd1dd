-- ===== src/Analyse/Enough.antt =====
-- engine/analyse.py: that the loop over CTEs is given enough rounds.
use pysqlsuggestions.Prelude.{
  ℕ, zero, suc, ◌≤◌, ◌<◌, Bool, List, [], ◌∷◌, Option, none, some, codes, length, if◌then◌else◌,
  text_eq, ◌&&◌, ◌≡◌, refl, sym, ap, subst, ◌∙◌, inl, inr, Bool-cases, Option-cases, arith,
}
use pysqlsuggestions.Lex.Token.{Chars, Token}
use pysqlsuggestions.Dialect.{Dialect}
use pysqlsuggestions.Analyse.Tokens.{is_ident, spells}
use pysqlsuggestions.Analyse.Readers.{skip_forward, read_declared_columns, behind_group, text_here}
use pysqlsuggestions.Analyse.Ends.{
  skip_forward-le, read_declared_columns-le, behind_group-le, List-cases,
}
use pysqlsuggestions.Analyse.Ctes.{
  Reads, Gathered, skip_modifiers, behind_word_as, behind_comma, gather, gather_ctes,
}

module _ (u : Chars) (d : Dialect) where
  -- A list that may be shorter, if there is one.
  abbrev Shorter : List Token → Option (List Token) → Type 0
  Shorter rest none = Unit {0}
  Shorter rest (some left) = length left ≤ length rest

  Shorter-wider :
      (fewer rest : List Token) (o : Option (List Token))
      → length fewer ≤ length rest
      → Shorter fewer o
      → Shorter rest o
  Shorter-wider fewer rest none le h = tt
  Shorter-wider fewer rest (some left) le h = omega arith

  skip_modifiers-le : (ts : List Token) → length (skip_modifiers u d ts) ≤ length ts
  unfolding skip_modifiers
  skip_modifiers-le [] = omega arith
  skip_modifiers-le (t ∷ ts) = ground (arith, skip_modifiers-le ts)

  behind_word_as-Shorter : (ts : List Token) → Shorter ts (behind_word_as u d ts)
  unfolding behind_word_as
  behind_word_as-Shorter [] = tt
  behind_word_as-Shorter (t ∷ ts) =
      elim (Bool-cases (spells u (codes "AS") t && text_here (codes "(") (skip_modifiers u d ts))) [
        | inl e ↦ rw e (omega (arith, skip_modifiers-le ts))
        | inr e ↦ rw e tt
      ]

  behind_comma-Shorter : (ts : List Token) → Shorter ts (behind_comma u d ts)
  unfolding behind_comma
  behind_comma-Shorter [] = tt
  behind_comma-Shorter (t ∷ ts) = elim (Bool-cases (text_eq t.text (codes ","))) [
    | inl e ↦ rw e (omega arith)
    | inr e ↦ rw e tt
  ]

  module _ (outputs : Reads) (hi : ℕ) (recursive : Bool) where
    abbrev paren_of : Token → List Token → Option (List Token)
    paren_of t ts =
        if is_ident t.type
        then behind_word_as u d (skip_forward ((read_declared_columns ts).1))
        else none

    paren_of-Shorter : (t : Token) (ts : List Token) → Shorter ts (paren_of t ts)
    paren_of-Shorter t ts = elim (Bool-cases (is_ident t.type)) [
      | inr i ↦ rw i tt
      | inl i ↦
          let probe = skip_forward ((read_declared_columns ts).1) in
          rw i (
            Shorter-wider probe ts (behind_word_as u d probe)
              (omega (
                arith,
                skip_forward-le ((read_declared_columns ts).1),
                read_declared_columns-le ts,
              ))
              (behind_word_as-Shorter probe))
    ]

    -- One round, by what it finds.
    module _ (fuel : ℕ) (rest : List Token) (g : Gathered) where
      gather_nil :
          skip_forward rest ≡ [] → gather_ctes u d outputs hi recursive (suc fuel) rest g ≡ g
      unfolding gather_ctes
      gather_nil e = rw (e, gather_ctes) refl

      module _ (t : Token) (ts : List Token) (e : skip_forward rest ≡ t ∷ ts) where
        gather_broken :
            paren_of t ts ≡ none → gather_ctes u d outputs hi recursive (suc fuel) rest g ≡ g
        unfolding gather_ctes
        gather_broken p = rw (e, p, gather_ctes) refl

        gather_last :
            (paren : List Token)
            → paren_of t ts ≡ some paren
            → behind_comma u d (skip_forward (behind_group paren)) ≡ none
            → gather_ctes u d outputs hi recursive (suc fuel) rest g
              ≡ gather u d outputs hi recursive t.value ((read_declared_columns ts).0) paren g
        unfolding gather_ctes
        gather_last paren p c = rw (e, p, c, gather_ctes) refl

        gather_more :
            (paren left : List Token)
            → paren_of t ts ≡ some paren
            → behind_comma u d (skip_forward (behind_group paren)) ≡ some left
            → gather_ctes u d outputs hi recursive (suc fuel) rest g
              ≡ gather_ctes u d outputs hi recursive fuel left
                  (gather u d outputs hi recursive t.value ((read_declared_columns ts).0) paren g)
        unfolding gather_ctes
        gather_more paren left p c = rw (e, p, c, gather_ctes) refl

    -- The loop over CTEs is given enough rounds: with one for each token and one more, a further round changes
    -- nothing.
    pub gather_ctes-enough :
        (fuel : ℕ) (rest : List Token) (g : Gathered)
        → length rest < fuel
        → gather_ctes u d outputs hi recursive (suc fuel) rest g
          ≡ gather_ctes u d outputs hi recursive fuel rest g
    gather_ctes-enough zero rest g h = absurd (omega arith)
    gather_ctes-enough (suc fuel) rest g h = elim (List-cases (skip_forward rest)) [
      | inl e ↦ gather_nil (suc fuel) rest g e ∙ sym (gather_nil fuel rest g e)
      | inr (t, ts, e) ↦ elim (Option-cases (paren_of t ts)) [
        | inl p ↦
            gather_broken (suc fuel) rest g t ts e p ∙ sym (gather_broken fuel rest g t ts e p)
        | inr (paren, p) ↦
            elim (Option-cases (behind_comma u d (skip_forward (behind_group paren)))) [
              | inl c ↦
                  gather_last (suc fuel) rest g t ts e paren p c
                  ∙ sym (gather_last fuel rest g t ts e paren p c)
              | inr (left, c) ↦
                  let opened = subst (Shorter ts) p (paren_of-Shorter t ts) in
                  let behind = skip_forward (behind_group paren) in
                  let commas = subst (Shorter behind) c (behind_comma-Shorter behind) in
                  let less : length left < fuel =
                    (let first = skip_forward-le rest in
                      let group = behind_group-le paren in
                      let next = skip_forward-le (behind_group paren) in
                      omega (arith, ap length e)) in
                  gather_more (suc fuel) rest g t ts e paren left p c
                  ∙ (gather_ctes-enough fuel left _ less
                      ∙ sym (gather_more fuel rest g t ts e paren left p c))
            ]
      ]
    ]
