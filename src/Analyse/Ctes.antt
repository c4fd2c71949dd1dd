-- ===== src/Analyse/Ctes.antt =====
-- engine/analyse.py: the WITH clause and the projection of a body, which read one another.
use pysqlsuggestions.Prelude.{
  ℕ, zero, suc, ◌+◌, ◌-◌, Bool, true, false, ◌&&◌, ◌||◌, List, [], ◌∷◌, ◌++◌, Option, none, some,
  Str, codes, length, drop, map, ◌==◌, if◌then◌else◌, text_eq, has_text,
}
use pysqlsuggestions.Lex.Token.{Chars, Token}
use pysqlsuggestions.Types.{
  Relation, relation, relation_path, relation_alias, Projection, projection, Projected, described,
  Relations, no_more, more, from_cte, from_subquery,
}
use pysqlsuggestions.Caches.OrderedDict.{lookup, assign}
use pysqlsuggestions.Dialect.{Dialect}
use pysqlsuggestions.Analyse.Tokens.{is_ident, in_skip, spells}
use pysqlsuggestions.Analyse.Caret.{between}
use pysqlsuggestions.Analyse.Branches.{base_depth, depth_there}
use pysqlsuggestions.Analyse.Readers.{
  skip_forward, text_here, read_declared_columns, group_tokens, behind_group,
}
use pysqlsuggestions.Analyse.Relations.{relations_in}
use pysqlsuggestions.Analyse.Outputs.{
  after_clause, until_clause, split_items, Output, named, stands_for, output_of,
}
use pysqlsuggestions.Analyse.Bodies.{Span, Derived, derived_tables}

-- A table of CTEs, by name, in the order in which they are declared.
abbrev pub Ctes : Type 0
Ctes = List (Str × Relation)

-- `{**ctes, **declared}`.
unfoldable pub merge : Ctes → Ctes → Ctes
merge ctes [] = ctes
merge ctes ((name, r) ∷ declared) = merge (assign name r ctes) declared

-- `relation.projection`.
unfoldable pub projection_of : Relation → Projected
projection_of (relation alias path source projected) = projected

unfoldable pub bind_path : Ctes → Relation → List Str → Relation
bind_path ctes r (name ∷ []) = elim (lookup name ctes) [
  | none ↦ r
  | some declared ↦ relation (relation_alias r) (name ∷ []) from_cte (projection_of declared)
]
bind_path ctes r _ = r

unfoldable pub bind : Ctes → Relation → Relation
bind ctes r = bind_path ctes r (relation_path r)

-- The projection of a body, given the CTEs that it sees and its span.
abbrev pub Reads : Type 0
Reads = Ctes → ℕ → ℕ → Projection

-- What the loop of `_read_ctes` has gathered: the table, and for each body the names that it sees.
abbrev pub Gathered : Type 0
Gathered = Ctes × List (Span × List Str)

module _ (u : Chars) (d : Dialect) where
  -- The fuel of `_relations_in` is enough.
  unfoldable pub relations_of : List Token → Option ℕ → List Relation
  relations_of range caret = elim (relations_in u d range caret) [ none ↦ [] | some rs ↦ rs ]

  unfoldable pub add_columns : Output → List Str → List Str
  add_columns (named column) columns = column ∷ columns
  add_columns _ columns = columns

  unfoldable pub add_relations : List Relation → Relations → Relations
  add_relations [] stars = stars
  add_relations (r ∷ rs) stars = more r (add_relations rs stars)

  unfoldable pub add_stars : Output → Relations → Relations
  add_stars (stands_for rs) stars = add_relations rs stars
  add_stars _ stars = stars

  -- `columns` and `stars`.
  unfoldable pub columns_of : List Output → List Str
  columns_of [] = []
  columns_of (o ∷ os) = add_columns o (columns_of os)

  unfoldable pub stars_of : List Output → Relations
  stars_of [] = no_more
  stars_of (o ∷ os) = add_stars o (stars_of os)

  unfoldable pub projection_of_items : List Relation → Option (List Token) → Projection
  projection_of_items relations none = projection [] no_more
  projection_of_items relations (some start) =
      let outputs =
        map (output_of u d relations)
          (split_items (until_clause u d (codes "FROM") (depth_there start) start)) in
      projection (columns_of outputs) (stars_of outputs)

  unfoldable pub skip_modifiers : List Token → List Token
  skip_modifiers [] = []
  skip_modifiers (t ∷ ts) =
      let further = skip_modifiers ts in
      if in_skip t.type
        || (is_ident t.type && has_text (codes "MATERIALIZED" ∷ codes "NOT" ∷ []) (u.upper t.value))
      then further
      else t ∷ ts

  -- The paren of a CTE's body: `none` where the declaration breaks off.
  unfoldable pub behind_word_as : List Token → Option (List Token)
  behind_word_as [] = none
  behind_word_as (t ∷ ts) =
      let body = skip_modifiers ts in
      if spells u (codes "AS") t && text_here (codes "(") body then some body else none

  unfoldable pub names_of : Ctes → List Str
  names_of ctes = map (λ e. e.0) ctes

  -- `name` with its body, at `(`; the body's span, `hi` being the index behind the range.
  unfoldable pub gather : Reads → ℕ → Bool → Str → List Str → List Token → Gathered → Gathered
  gather outputs hi recursive name declared paren (ctes, visible) =
      let lo = suc (hi - length paren) in
      let body_hi = lo + length (group_tokens paren) in
      let columns =
        if has_columns declared then projection declared no_more else outputs ctes lo body_hi in
      (
        assign name (relation none (name ∷ []) from_cte (described columns)) ctes,
        visible ++ ((lo, body_hi), names_of ctes ++ (if recursive then name ∷ [] else [])) ∷ [],
      )
    where
      has_columns : List Str → Bool
      has_columns [] = false
      has_columns (c ∷ cs) = true

  -- Behind a comma, if there is one.
  unfoldable pub behind_comma : List Token → Option (List Token)
  behind_comma [] = none
  behind_comma (t ∷ ts) = if text_eq t.text (codes ",") then some ts else none

  -- The loop of `_read_ctes`; each round reads a name, so a round for each token is enough.
  unfoldable pub gather_ctes : Reads → ℕ → Bool → ℕ → List Token → Gathered → Gathered
  gather_ctes outputs hi recursive zero rest gathered = gathered
  gather_ctes outputs hi recursive (suc fuel) rest gathered = elim (skip_forward rest) [
    | [] ↦ gathered
    | t ∷ ts ↦
        let declared = read_declared_columns ts in
        elim (if is_ident t.type then behind_word_as (skip_forward (declared.1)) else none) [
          | none ↦ gathered
          | some paren ↦
              let next = gather outputs hi recursive t.value (declared.0) paren gathered in
              elim (behind_comma (skip_forward (behind_group paren))) [
                | none ↦ next
                | some left ↦ gather_ctes outputs hi recursive fuel left next
              ]
        ]
  ]

  -- The CTEs of the names that there are.
  unfoldable pub seen : Ctes → List Str → Ctes
  seen ctes [] = []
  seen ctes (name ∷ names) = elim (lookup name ctes) [
    | none ↦ seen ctes names
    | some r ↦ assign name r (seen ctes names)
  ]

  unfoldable pub is_recursive : List Token → Bool
  is_recursive [] = false
  is_recursive (t ∷ ts) = is_ident t.type && spells u (codes "RECURSIVE") t

  -- `_read_ctes`, with what reads a body.
  unfoldable pub ctes_with : Reads → List Token → ℕ → ℕ → Ctes × List (Span × Ctes)
  ctes_with outputs tokens lo hi =
      let range = between lo hi tokens in
      elim (after_clause u d (codes "WITH") (base_depth range) range) [
        | none ↦ ([], [])
        | some start ↦
            let first = skip_forward start in
            let recursive = is_recursive first in
            let gathered =
              gather_ctes outputs hi recursive (suc (length first))
                (if recursive then drop 1 first else first) ([], []) in
            (gathered.0, map (λ (v : Span × List Str). (v.0, seen (gathered.0) (v.1))) (gathered.1))
      ]

  -- A derived table as a relation.
  unfoldable pub derived_relation : Reads → Ctes → Derived → Relation
  derived_relation outputs ctes t =
      relation t.alias [] from_subquery (described (columns_or_body t.columns))
    where
      columns_or_body : List Str → Projection
      columns_or_body [] = outputs ctes (t.body.0) (t.body.1)
      columns_or_body (c ∷ cs) = projection (c ∷ cs) no_more

  -- `select_outputs` and `_read_ctes`; the number is `remaining`.
  unfoldable pub select_outputs : ℕ → List Token → Reads
  select_outputs zero tokens ctes lo hi = projection [] no_more
  select_outputs (suc remaining) tokens ctes lo hi =
      let inner_outputs : Reads = select_outputs remaining tokens in
      let range = between lo hi tokens in
      let declared = if remaining == 0 then [] else (ctes_with inner_outputs tokens lo hi).0 in
      let visible = merge ctes declared in
      let relations =
        map (bind visible) (relations_of range none)
        ++ map (derived_relation inner_outputs visible) (derived_tables u d tokens lo hi) in
      projection_of_items relations (after_clause u d (codes "SELECT") (base_depth range) range)

  unfoldable pub read_ctes : ℕ → List Token → ℕ → ℕ → Ctes × List (Span × Ctes)
  read_ctes remaining tokens lo hi =
      if remaining == 0 then ([], []) else ctes_with (select_outputs remaining tokens) tokens lo hi
