-- ===== src/Analyse/Lists.antt =====
-- engine/analyse.py: lists of names that the author invents.
use pysqlsuggestions.Prelude.{
  ℕ, zero, suc, ◌+◌, ◌-◌, Bool, false, not, ◌&&◌, ◌||◌, List, [], ◌∷◌, Option, none, some, Str,
  codes, length, take, any, leb, ltb, ◌==◌, if◌then◌else◌, text_eq, non_empty, or_else,
}
use pysqlsuggestions.Lex.Token.{Chars, Token}
use pysqlsuggestions.Clauses.Model.{Clause, ClauseModel}
use pysqlsuggestions.Clauses.Defs.{get}
use pysqlsuggestions.Analyse.Tokens.{Place, is_ident, in_skip, is_mark, index_before, skip_back}
use pysqlsuggestions.Analyse.Caret.{between, depth_at}
use pysqlsuggestions.Analyse.Words.{is_word, before_typed, split_words}
use pysqlsuggestions.Analyse.Calls.{search_back, opens_level}
use pysqlsuggestions.Analyse.Clauses.{clause_starting_at, first_or_empty}

-- `clauses.get(clause) if clause else None`.
unfoldable pub governing : ClauseModel → Option Str → Option Clause
governing m none = none
governing m (some clause) = if non_empty clause then get m clause else none

-- `governing.aliases_with` is there, of a clause that is.
unfoldable pub aliasing : Option Clause → Option Clause
aliasing none = none
aliasing (some clause) = if non_empty clause.aliases_with then some clause else none

-- `governing.defines_columns` is there, of a clause that is.
unfoldable pub defining : Option Clause → Option Clause
defining none = none
defining (some clause) = if non_empty clause.defines_columns then some clause else none

-- Where in a column definition a caret is.
pub data ColumnPart : Type 0 where
  a_name a_type a_constraint : ColumnPart

module _ (u : Chars) where
  unfoldable pub plain_word : Place → Option Str
  plain_word [] = none
  plain_word (t ∷ back) = if is_word t then some (u.upper t.value) else none

  -- `_plain_word(tokens, index) == word`.
  unfoldable pub is_plain_word : Str → Place → Bool
  is_plain_word word place = elim (plain_word place) [ none ↦ false | some w ↦ text_eq w word ]

  -- The tests behind the governing clause: `inner` are the tokens of the paren up to the caret, `at` is
  -- the place of the introducer.
  unfoldable pub names_introduced : Clause → List Token → Str → Place → Bool
  names_introduced clause inner introducer [] = false
  names_introduced clause inner introducer (t ∷ back) =
      let alias = u.upper clause.aliases_with in
      let head = first_or_empty (split_words u (u.upper clause.name)) in
      if any (λ t. is_plain_word head (t ∷ [])) inner
      then false
      else if non_empty clause.opens_a_group
      then not (text_eq introducer alias)
      else text_eq introducer alias || is_plain_word alias (skip_back back)

  unfoldable pub name_list_at : Option Clause → List Token → Place → Bool
  name_list_at clause inner at = elim (plain_word at) [
    | none ↦ false
    | some introducer ↦ elim (aliasing clause) [
      | none ↦ false
      | some c ↦ names_introduced c inner introducer at
    ]
  ]

  -- At the paren around the caret.
  unfoldable pub name_list_in : Option Clause → List Token → Place → Bool
  name_list_in clause inner [] = false
  name_list_in clause inner (paren ∷ back) = name_list_at clause inner (skip_back back)

  unfoldable pub opens_a_name_list : List Token → ℕ → Option Str → ClauseModel → Bool
  opens_a_name_list tokens caret clause m =
      let group =
        search_back (opens_level (depth_at tokens caret)) [] (index_before tokens caret) in
      if depth_at tokens caret == 0
      then false
      else name_list_in (governing m clause) (group.0) (group.1)

  -- What stands behind the last clause of that name that ends before the caret: the first loop of
  -- `_definition_paren`.
  unfoldable pub behind_last : ClauseModel → Str → ℕ → List Token → Option (List Token)
  behind_last m name caret [] = none
  behind_last m name caret (t ∷ ts) =
      let here =
        if is_word t && ltb t.end caret
        then elim (clause_starting_at u m (t ∷ ts)) [
          | none ↦ none
          | some (found, count) ↦
              if text_eq found name then some (rest_behind count (t ∷ ts)) else none
        ]
        else none in
      or_else (behind_last m name caret ts) here
    where
      rest_behind : ℕ → List Token → List Token
      rest_behind zero ts = ts
      rest_behind (suc n) [] = []
      rest_behind (suc n) (t ∷ ts) = rest_behind n ts

  -- Its second loop: from the paren on.
  unfoldable pub paren_before : ℕ → List Token → List Token
  paren_before caret [] = []
  paren_before caret (t ∷ ts) =
      let further = paren_before caret ts in
      if leb caret t.start then [] else if is_mark (codes "(") t then t ∷ ts else further

  unfoldable pub definition_paren : ClauseModel → Str → ℕ → List Token → List Token
  definition_paren m name caret range = elim (behind_last m name caret range) [
    | none ↦ []
    | some rest ↦ paren_before caret rest
  ]

  -- The words of the last item at a depth.
  unfoldable pub count_words : ℕ → ℕ → List Token → ℕ
  count_words depth words [] = words
  count_words depth words (t ∷ ts) =
      let next =
        if in_skip t.type || not (t.depth == depth)
        then words
        else if is_mark (codes ",") t
        then 0
        else if is_ident t.type
        then suc words
        else words in
      count_words depth next ts

  unfoldable pub part_of : ℕ → ColumnPart
  part_of zero = a_name
  part_of (suc zero) = a_type
  part_of (suc (suc words)) = a_constraint

  -- Behind the paren, which stands at `opening`; `last` counts the tokens up to the caret.
  unfoldable pub part_behind : ℕ → ℕ → ℕ → List Token → Option ColumnPart
  part_behind caret_depth opening last [] = none
  part_behind caret_depth opening last (paren ∷ ts) =
      if caret_depth == paren.depth + 1
      then some (part_of (count_words (paren.depth + 1) 0 (take (last - suc opening) ts)))
      else none

  unfoldable pub defines_a_column :
      List Token → ℕ → ℕ → ℕ → Option Str → ClauseModel → Option ColumnPart
  defines_a_column tokens lo hi caret clause m = elim (defining (governing m clause)) [
    | none ↦ none
    | some c ↦
        let range = between lo hi tokens in
        let paren = definition_paren m c.name caret range in
        part_behind (depth_at tokens caret) (lo + (length range - length paren))
          (length (before_typed (index_before tokens caret) caret)) paren
  ]
