-- ===== src/Analyse/Scopes.antt =====
-- engine/analyse.py: the relations that are visible at the caret, level by level.
use pysqlsuggestions.Prelude.{
  ℕ, zero, suc, ◌-◌, Bool, true, false, not, ◌&&◌, ◌||◌, List, [], ◌∷◌, ◌++◌, Option, none, some,
  codes, map, any, leb, ◌==◌, if◌then◌else◌, text_eq,
}
use pysqlsuggestions.Lex.Token.{Chars, Token}
use pysqlsuggestions.Types.{
  Relation, relation, relation_path, Projection, catalogued, Source, Scope, root, inner,
}
use pysqlsuggestions.Clauses.Defs.{get}
use pysqlsuggestions.Dialect.{Dialect}
use pysqlsuggestions.Analyse.Tokens.{Place, is_ident, skip_back, spells}
use pysqlsuggestions.Analyse.Caret.{between}
use pysqlsuggestions.Analyse.Clauses.{clause_starting_at}
use pysqlsuggestions.Analyse.Predicates.{place_at}
use pysqlsuggestions.Analyse.Branches.{branch_at}
use pysqlsuggestions.Analyse.Relations.{is_some}
use pysqlsuggestions.Analyse.Bodies.{Span, Derived, subquery_bodies, derived_tables}
use pysqlsuggestions.Analyse.Ctes.{
  Ctes, merge, bind, relations_of, derived_relation, select_outputs, read_ctes,
}

-- `_MAX_NESTING`.
abbrev pub max_nesting : ℕ
max_nesting = 64

-- `relation.source`.
unfoldable pub source_of : Relation → Source
source_of (relation alias path source projected) = source

unfoldable pub names_lateral : Chars → Place → Bool
names_lateral u [] = false
names_lateral u (t ∷ back) = is_ident t.type && spells u (codes "LATERAL") t

-- `_is_lateral`: the place is at `body_lo - 2`.
unfoldable pub is_lateral : Chars → List Token → ℕ → Bool
is_lateral u tokens body_lo = names_lateral u (skip_back (place_at (body_lo - 1) tokens))

abbrev pub same_span : Span → Span → Bool
same_span a b = (a.0 == b.0) && (a.1 == b.1)

-- `cte_scopes.get(span)`, of entries with the latest first.
unfoldable pub lookup_span : Span → List (Span × Ctes) → Option Ctes
lookup_span span [] = none
lookup_span span ((s, ctes) ∷ entries) =
    if same_span s span then some ctes else lookup_span span entries

unfoldable pub reverse_onto {ℓ} : {A : Type ℓ} → List A → List A → List A
reverse_onto [] ys = ys
reverse_onto (x ∷ xs) ys = reverse_onto xs (x ∷ ys)

-- `Scope(…)`.
unfoldable pub scope : List Relation → Ctes → Option Scope → Option Projection → Scope
scope relations ctes none p = root relations ctes p
scope relations ctes (some parent) p = inner relations ctes parent p

-- `tokens[inner_lo].start`, `tokens[inner_hi - 1].end`, of the tokens of a body, which has one.
unfoldable pub first_start : List Token → ℕ
first_start [] = 0
first_start (t ∷ ts) = t.start

unfoldable pub last_end_of : ℕ → List Token → ℕ
last_end_of end [] = end
last_end_of end (t ∷ ts) = last_end_of t.end ts

unfoldable pub holds_caret : List Token → ℕ → Span → Bool
holds_caret tokens caret (lo, hi) =
    let body = between lo hi tokens in
    leb (first_start body) caret && leb caret (last_end_of 0 body)

unfoldable pub first_holding : List Token → ℕ → List Span → Option Span
first_holding tokens caret [] = none
first_holding tokens caret (span ∷ spans) =
    let later = first_holding tokens caret spans in
    if holds_caret tokens caret span then some span else later

module _ (u : Chars) (d : Dialect) where
  -- An ON CONFLICT that ends before the caret.
  unfoldable pub past_conflict : ℕ → List Token → Bool
  past_conflict caret [] = false
  past_conflict caret (t ∷ ts) =
      let later = past_conflict caret ts in
      if not (is_ident t.type) || leb caret t.end
      then later
      else elim (clause_starting_at u d.clauses (t ∷ ts)) [
        | none ↦ later
        | some (name, count) ↦ if text_eq name (codes "ON CONFLICT") then true else later
      ]

  unfoldable pub conflict_alias : List Token → ℕ → List Relation → List Relation
  conflict_alias range caret [] = []
  conflict_alias range caret (target ∷ rs) =
      if is_some (get d.clauses (codes "ON CONFLICT")) && past_conflict caret range
      then relation (some (codes "excluded")) (relation_path target) (source_of target) catalogued
        ∷ []
      else []

  -- What a body is and sees: its own CTEs' level when it is a CTE's.
  unfoldable pub is_opaque : List Token → List Derived → List (Span × Ctes) → Span → Bool
  is_opaque tokens derived cte_scopes span =
      is_some (lookup_span span cte_scopes)
      || any (λ (t : Derived). not (is_lateral u tokens (t.body.0)) && same_span t.body span)
          derived

  unfoldable pub seen_in : Ctes → Option Ctes → Ctes
  seen_in ctes none = ctes
  seen_in ctes (some body_ctes) = body_ctes

  -- The relations of one level.
  unfoldable pub level_relations : List Token → ℕ → ℕ → ℕ → Ctes → List Relation
  level_relations tokens lo hi caret ctes =
      let range = between lo hi tokens in
      let relations =
        map (bind ctes) (relations_of u d range (some caret))
        ++ map (derived_relation u d (select_outputs u d max_nesting tokens) ctes)
            (derived_tables u d tokens lo hi) in
      relations ++ conflict_alias range caret relations

  unfoldable pub here_of : List Token → Span → ℕ → Ctes → Option Scope → Scope
  here_of tokens (lo, hi) caret ctes parent =
      scope (level_relations tokens lo hi caret ctes) ctes parent
        (some (select_outputs u d max_nesting tokens ctes lo hi))

  -- `_scope_level`; the number is `remaining`.
  unfoldable pub scope_level :
      ℕ → List Token → Span → ℕ → Ctes → Option Scope → List (Span × Ctes) → Scope
  scope_level zero tokens span caret ctes parent cte_scopes =
      here_of tokens (branch_at u tokens (span.0) (span.1) caret) caret ctes parent
  scope_level (suc remaining) tokens span caret ctes parent cte_scopes =
      let branch = branch_at u tokens (span.0) (span.1) caret in
      let here = here_of tokens branch caret ctes parent in
      elim (first_holding tokens caret (subquery_bodies u tokens (branch.0) (branch.1))) [
        | none ↦ here
        | some body ↦
            let opaque =
              is_opaque tokens (derived_tables u d tokens (branch.0) (branch.1)) cte_scopes body in
            let declared = read_ctes u d remaining tokens (body.0) (body.1) in
            scope_level remaining tokens body caret
              (merge (seen_in ctes (lookup_span body cte_scopes)) (declared.0))
              (if opaque then none else some here) (reverse_onto (declared.1) cte_scopes)
      ]

  unfoldable pub scope_of : List Token → ℕ → ℕ → ℕ → Scope
  scope_of tokens lo hi caret =
      let declared = read_ctes u d max_nesting tokens lo hi in
      scope_level max_nesting tokens (lo, hi) caret (declared.0) none (reverse_onto (declared.1) [])
