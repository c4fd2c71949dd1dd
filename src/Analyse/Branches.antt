-- ===== src/Analyse/Branches.antt =====
-- engine/analyse.py: the branch of a set operation, what is written in it, and where it ends.
use pysqlsuggestions.Prelude.{
  ℕ, zero, suc, ◌+◌, ◌-◌, Bool, false, not, ◌&&◌, ◌||◌, List, [], ◌∷◌, Option, none, some, Str,
  codes, length, drop, keep, leb, ltb, ◌==◌, if◌then◌else◌, text_eq, has_text, or_else,
}
use pysqlsuggestions.Lex.Token.{Chars, Token}
use pysqlsuggestions.Dialect.{Dialect}
use pysqlsuggestions.Analyse.Tokens.{
  Place, is_ident, is_operator, in_skip, is_mark, index_before, skip_back,
}
use pysqlsuggestions.Analyse.Caret.{between, depth_at, statement_at}
use pysqlsuggestions.Analyse.Words.{is_word, star_is_an_item}
use pysqlsuggestions.Analyse.Clauses.{
  clause_starting_at, reads_as_a_clause, end_of_run, group_start, max,
}
use pysqlsuggestions.Analyse.Predicates.{place_at}

-- `min(…)` of the depths, if there is one.
unfoldable pub least_depth : List Token → Option ℕ
least_depth [] = none
least_depth (t ∷ ts) =
    let rest = least_depth ts in
    if in_skip t.type
    then rest
    else elim rest [ none ↦ some t.depth | some d ↦ some (if ltb d t.depth then d else t.depth) ]

-- `_base_depth`, of the tokens in the range.
unfoldable pub base_depth : List Token → ℕ
base_depth range = elim (least_depth range) [ none ↦ 0 | some d ↦ d ]

abbrev pub set_operators : List Str
set_operators = codes "UNION" ∷ codes "INTERSECT" ∷ codes "EXCEPT" ∷ []

abbrev pub cuts_branch : Chars → ℕ → Token → Bool
cuts_branch u base t =
    is_ident t.type && (t.depth == base) && has_text set_operators (u.upper t.value)

-- The last loop of `_branch_at`, at `index`; the tokens end at `hi`.
unfoldable pub branch_from : Chars → ℕ → ℕ → ℕ → ℕ → List Token → ℕ × ℕ
branch_from u base caret start index [] = (start, index)
branch_from u base caret start index (t ∷ ts) =
    let cut = cuts_branch u base t in
    let later = branch_from u base caret (if cut then suc index else start) (suc index) ts in
    if cut && leb caret t.start then (start, index) else later

unfoldable pub branch_at : Chars → List Token → ℕ → ℕ → ℕ → ℕ × ℕ
branch_at u tokens lo hi caret =
    let range = between lo hi tokens in branch_from u (base_depth range) caret lo lo range

abbrev pub set_operation_tail : List Str
set_operation_tail = codes "ORDER BY" ∷ codes "LIMIT" ∷ codes "OFFSET" ∷ codes "FETCH" ∷ []

-- What stands behind the last set operator, if there is one.
unfoldable pub behind_operators : Chars → ℕ → List Token → Option (List Token)
behind_operators u base [] = none
behind_operators u base (t ∷ ts) =
    or_else (behind_operators u base ts) (if cuts_branch u base t then some ts else none)

module _ (u : Chars) (d : Dialect) where
  -- The last loop of `in_set_operation_tail`.
  unfoldable pub tail_from : ℕ → ℕ → List Token → Bool
  tail_from base caret [] = false
  tail_from base caret (t ∷ ts) =
      let later = tail_from base caret ts in
      if in_skip t.type || not (t.depth == base)
      then later
      else elim (clause_starting_at u d.clauses (t ∷ ts)) [
        | none ↦ later
        | some (name, read) ↦
            if has_text set_operation_tail name then leb (end_of_run read (t ∷ ts)) caret else later
      ]

  unfoldable pub in_set_operation_tail : List Token → ℕ → ℕ → ℕ → Bool
  in_set_operation_tail tokens lo hi caret =
      let range = between lo hi tokens in
      let base = base_depth range in
      elim (behind_operators u base range) [ none ↦ false | some rest ↦ tail_from base caret rest ]

  -- The clause at a token of `clauses_written`, where it counts as one.
  unfoldable pub clause_counted : ℕ → Option Str → List Token → Option (Str × ℕ)
  clause_counted depth after [] = none
  clause_counted depth after (t ∷ ts) =
      if in_skip t.type || not (t.depth == depth)
      then none
      else elim (clause_starting_at u d.clauses (t ∷ ts)) [
        | none ↦ none
        | some (name, read) ↦ if reads_as_a_clause u d name after then some (name, read) else none
      ]

  -- The loop of `clauses_written`; `read` tokens belong to a clause that was found before.
  unfoldable pub written_from : ℕ → Option Str → ℕ → List Token → List Str
  written_from depth after read [] = []
  written_from depth after (suc read) (t ∷ ts) = written_from depth after read ts
  written_from depth after zero (t ∷ ts) = elim (clause_counted depth after (t ∷ ts)) [
    | none ↦ written_from depth after 0 ts
    | some (name, read) ↦ name ∷ written_from depth (some name) (read - 1) ts
  ]

  unfoldable pub clauses_written : List Token → ℕ → ℕ → ℕ → List Str
  clauses_written tokens lo hi caret =
      let branch = branch_at u tokens lo hi caret in
      written_from (depth_at tokens caret) none 0 (between (branch.0) (branch.1) tokens)

  unfoldable pub first_but : Str → List Str → Option Str
  first_but word [] = none
  first_but word (w ∷ ws) = let rest = first_but word ws in if text_eq w word then rest else some w

  unfoldable pub first_of : List Str → Option Str
  first_of [] = none
  first_of (w ∷ ws) = some w

  unfoldable pub statement_form : List Token → ℕ → ℕ → ℕ → Option Str
  statement_form tokens lo hi caret =
      let starts = keep (has_text (clauses_written tokens lo hi caret)) d.statement_start in
      or_else (first_but (codes "WITH") starts) (first_of starts)

  -- `_opens_a_query`, of the tokens behind the paren.
  unfoldable pub opens_a_query : List Token → Bool
  opens_a_query inner = elim (clause_starting_at u d.clauses inner) [
    | none ↦ false
    | some (name, read) ↦ has_text d.statement_start name
  ]

  -- The loop of `words_in_item`, back from a place; `ahead` are the tokens behind it.
  unfoldable pub item_words_back : ℕ → ℕ → List Token → Place → List Str
  item_words_back caret depth ahead [] = []
  item_words_back caret depth ahead (t ∷ back) =
      let further = item_words_back caret depth (t ∷ ahead) back in
      if not (t.depth == depth) || leb caret t.start
      then further
      else if is_mark (codes ",") t
      then []
      else if is_word t
      then u.upper t.value
        ∷ (elim (clause_starting_at u d.clauses (t ∷ ahead)) [ none ↦ further | some found ↦ [] ])
      else if is_operator t.type && text_eq t.text (codes "*") && star_is_an_item u d back
      then codes "*" ∷ further
      else further

  unfoldable pub words_in_item : List Token → ℕ → List Str
  words_in_item tokens caret =
      let place = index_before tokens caret in
      item_words_back caret (depth_at tokens caret) (drop (length place) tokens) place

-- `_matching_paren`, of the tokens behind the paren: how many stand before the one that closes it.
unfoldable pub matching_paren : ℕ → List Token → ℕ
matching_paren depth [] = 0
matching_paren depth (t ∷ ts) =
    let later = matching_paren depth ts in
    if is_mark (codes ")") t && (t.depth == depth) then 0 else suc later

-- The depth of the token at an index.
unfoldable pub depth_there : List Token → ℕ
depth_there [] = 0
depth_there (t ∷ ts) = t.depth

-- `min(a, b)`.
abbrev pub min : ℕ → ℕ → ℕ
min a b = if ltb b a then b else a

module _ (u : Chars) (d : Dialect) where
  -- The group that opens a query, from a depth outward, or else the range that there is.
  unfoldable pub query_around : List Token → ℕ → ℕ → ℕ → ℕ → ℕ × ℕ
  query_around tokens lo hi caret zero = (lo, hi)
  query_around tokens lo hi caret (suc outer) =
      let further = query_around tokens lo hi caret outer in
      let group = group_start tokens caret (suc outer) in
      if ltb lo group && opens_a_query u d (between group hi tokens)
      then (
        group,
        min hi (
            group
            + matching_paren (depth_there (drop (group - 1) tokens)) (between group hi tokens)),
      )
      else further

  -- The end of the token at a place that is not skipped.
  unfoldable pub end_of_place : Place → Option ℕ
  end_of_place [] = none
  end_of_place (t ∷ back) = some t.end

  -- `_skip_back_over_space`, before the token `t`.
  unfoldable pub end_before : Token → Place → ℕ
  end_before t back = elim (end_of_place (skip_back back)) [ none ↦ t.start | some end ↦ end ]

  -- The last loop of `select_list_end`; `back` is the place before the tokens.
  unfoldable pub clause_behind : ℕ → ℕ → Place → List Token → Option ℕ
  clause_behind caret depth back [] = none
  clause_behind caret depth back (t ∷ ts) =
      let later = clause_behind caret depth (t ∷ back) ts in
      if in_skip t.type || not (t.depth == depth) || leb t.end caret
      then later
      else elim (clause_starting_at u d.clauses (t ∷ ts)) [
        | none ↦ later
        | some (name, read) ↦
            if text_eq name (codes "SELECT") then later else some (max (end_before t back) caret)
      ]

  -- `max(tokens[last].end, caret) if last >= lo else caret`.
  unfoldable pub last_end : ℕ → ℕ → Place → ℕ
  last_end lo caret [] = caret
  last_end lo caret (t ∷ back) = if ltb (length back) lo then caret else max t.end caret

  unfoldable pub list_end_in : List Token → ℕ → ℕ × ℕ → ℕ
  list_end_in tokens caret (lo, hi) =
      let range = between lo hi tokens in
      elim (clause_behind caret (base_depth range) (place_at lo tokens) range) [
        | some offset ↦ offset
        | none ↦ last_end lo caret (skip_back (place_at hi tokens))
      ]

  unfoldable pub select_list_end : List Token → ℕ → ℕ
  select_list_end tokens caret =
      let statement = statement_at tokens caret in
      let branch = branch_at u tokens (statement.0) (statement.1) caret in
      list_end_in tokens caret
        (query_around tokens (branch.0) (branch.1) caret (depth_at tokens caret))
