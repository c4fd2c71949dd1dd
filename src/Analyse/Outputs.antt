-- ===== src/Analyse/Outputs.antt =====
-- engine/analyse.py: the output columns of a select body, and its WITH clause.
use pysqlsuggestions.Prelude.{
  ℕ, suc, ◌-◌, Bool, true, false, not, ◌&&◌, ◌||◌, List, [], ◌∷◌, ◌++◌, Option, none, some, Str,
  codes, length, drop, keep, leb, ◌==◌, if◌then◌else◌, text_eq, has_text,
}
use pysqlsuggestions.Lex.Token.{Chars, Token}
use pysqlsuggestions.Types.{Relation, label}
use pysqlsuggestions.Dialect.{Dialect}
use pysqlsuggestions.Analyse.Tokens.{
  is_ident, is_string, is_number, is_punct, is_operator, in_skip, is_mark,
}
use pysqlsuggestions.Analyse.Clauses.{clause_starting_at, reserved_upper}
use pysqlsuggestions.Analyse.Branches.{least_depth}

-- `_split_items`: the items between the commas at one depth, without those that are empty.
unfoldable pub items_from : ℕ → List Token → List Token → List (List Token)
items_from base item [] = item ∷ []
items_from base item (t ∷ ts) =
    let comma = is_mark (codes ",") t && (t.depth == base) in
    let rest = items_from base (if comma then [] else item ++ t ∷ []) ts in
    if comma then item ∷ rest else rest

unfoldable pub has_tokens : List Token → Bool
has_tokens [] = false
has_tokens (t ∷ ts) = true

unfoldable pub split_items : List Token → List (List Token)
split_items range = elim (least_depth range) [
  | none ↦ []
  | some base ↦ keep has_tokens (items_from base [] range)
]

-- The tokens of an item from the last one back: `significant[-1]` is the first.
unfoldable pub from_last : List Token → List Token → List Token
from_last back [] = back
from_last back (t ∷ ts) = from_last (t ∷ back) ts

-- What an item names: a column, the relations of a star, or nothing.
pub data Output : Type 0 where
  named : Str → Output
  stands_for : List Relation → Output
  nameless : Output

module _ (u : Chars) (d : Dialect) where
  -- `_after_clause`, restricted to a depth: the tokens behind the clause.
  unfoldable pub after_clause : Str → ℕ → List Token → Option (List Token)
  after_clause name depth [] = none
  after_clause name depth (t ∷ ts) =
      let later = after_clause name depth ts in
      if not (is_ident t.type) || not (t.depth == depth)
      then later
      else elim (clause_starting_at u d.clauses (t ∷ ts)) [
        | none ↦ later
        | some (found, count) ↦ if text_eq found name then some (drop count (t ∷ ts)) else later
      ]

  -- `_next_clause_at_depth`, for one name: the tokens before the clause.
  unfoldable pub until_clause : Str → ℕ → List Token → List Token
  until_clause name depth [] = []
  until_clause name depth (t ∷ ts) =
      let later = t ∷ until_clause name depth ts in
      if not (is_ident t.type) || not (t.depth == depth)
      then later
      else elim (clause_starting_at u d.clauses (t ∷ ts)) [
        | none ↦ later
        | some (found, count) ↦ if text_eq found name then [] else later
      ]

  -- The level behind one token of `DISTINCT ON (…)`; the paren that opens is counted first.
  unfoldable pub level_behind : ℕ → Token → ℕ
  level_behind level t =
      if text_eq t.text (codes "(")
      then suc level
      else if text_eq t.text (codes ")")
      then level - 1
      else level

  -- Behind the group: at a mark where no level is left.
  unfoldable pub behind_on : ℕ → List Token → Option (List Token)
  behind_on level [] = none
  behind_on level (t ∷ ts) =
      let next = if is_punct t.type then level_behind level t else level in
      let further = behind_on next ts in if is_punct t.type && (next == 0) then some ts else further

  -- From the first `(` on.
  unfoldable pub from_paren : List Token → List Token
  from_paren [] = []
  from_paren (t ∷ ts) =
      let further = from_paren ts in if text_eq t.text (codes "(") then t ∷ ts else further

  unfoldable pub without_on : List Token → List Token
  without_on [] = []
  without_on (t ∷ ts) =
      if is_ident t.type && text_eq (u.upper t.value) (codes "ON")
      then (elim (behind_on 0 (from_paren (t ∷ ts))) [ none ↦ t ∷ ts | some left ↦ left ])
      else t ∷ ts

  unfoldable pub without_quantifier : List Token → List Token
  without_quantifier [] = []
  without_quantifier (t ∷ ts) =
      if is_ident t.type
        && has_text (codes "DISTINCT" ∷ codes "ALL" ∷ []) (u.upper t.value)
        && not t.quoted
      then without_on ts
      else t ∷ ts

  abbrev pub is_reserved : Token → Bool
  is_reserved t = has_text (reserved_upper u d) (u.upper t.value)

  -- `_is_an_implicit_alias`, of the last token and those before it.
  unfoldable pub ends_before_alias : Token → Bool
  ends_before_alias before =
      if is_punct before.type
      then text_eq before.text (codes ")")
      else if is_ident before.type
      then before.quoted || not (is_reserved before)
      else is_number before.type || is_string before.type

  unfoldable pub is_an_implicit_alias : List Token → Bool
  is_an_implicit_alias (last ∷ before ∷ back) =
      is_ident last.type && not (is_reserved last && not last.quoted) && ends_before_alias before
  is_an_implicit_alias _ = false

  unfoldable pub is_a_call : List Token → Bool
  is_a_call (head ∷ paren ∷ ts) =
      is_ident head.type && not (not head.quoted && is_reserved head) && is_mark (codes "(") paren
  is_a_call _ = false

  -- `significant[-2].value.upper() == 'AS'`.
  unfoldable pub behind_as : List Token → Bool
  behind_as (last ∷ before ∷ back) = text_eq (u.upper before.value) (codes "AS")
  behind_as _ = false

  -- `significant[-2].text == '.'`, behind an identifier.
  unfoldable pub behind_a_dot : List Token → Bool
  behind_a_dot (last ∷ before ∷ back) = is_ident last.type && text_eq before.text (codes ".")
  behind_a_dot _ = false

  -- The relations that a star stands for.
  unfoldable pub star_sources : List Relation → List Token → List Relation
  star_sources relations (last ∷ dot ∷ name ∷ back) =
      if text_eq dot.text (codes ".")
      then keep (λ r. text_eq (label r) name.value) relations
      else relations
  star_sources relations _ = relations

  unfoldable pub output_of_name : List Token → Output
  output_of_name (t ∷ []) =
      if is_ident t.type
      then (if not t.quoted && is_reserved t then nameless else named t.value)
      else nameless
  output_of_name _ = nameless

  -- The item's tokens in order, and from the last one back.
  unfoldable pub output_of_tokens : List Relation → List Token → List Token → Output
  output_of_tokens relations [] back = nameless
  output_of_tokens relations (head ∷ ts) [] = nameless
  output_of_tokens relations (head ∷ ts) (last ∷ back) =
      if is_operator last.type && text_eq last.text (codes "*")
      then stands_for (star_sources relations (last ∷ back))
      else if behind_as (last ∷ back)
      then named last.value
      else if leb (length back) 0 && is_ident head.type
      then output_of_name (head ∷ ts)
      else if is_an_implicit_alias (last ∷ back)
      then named last.value
      else if is_a_call (head ∷ ts)
      then named head.value
      else if behind_a_dot (last ∷ back)
      then named last.value
      else nameless

  unfoldable pub output_of : List Relation → List Token → Output
  output_of relations item =
      let significant = without_quantifier (keep (λ (t : Token). not (in_skip t.type)) item) in
      output_of_tokens relations significant (from_last [] significant)
