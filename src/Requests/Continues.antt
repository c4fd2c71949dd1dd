-- ===== src/Requests/Continues.antt =====
-- engine/request.py: the expression position, the words that finish a construct, the keywords' case.
use pysqlsuggestions.Prelude.{
  ℕ, ◌-◌, Bool, true, false, not, ◌&&◌, List, [], ◌∷◌, Option, none, some, Str, codes, take, all,
  leb, ltb, non_empty, has_text, if◌then◌else◌, text_eq,
}
use pysqlsuggestions.Lex.Token.{Chars, Token}
use pysqlsuggestions.Types.{
  Expecting, operand, an_operator, connective, a_type, an_alias, LetterCase, lowercase, uppercase,
}
use pysqlsuggestions.Clauses.Model.{Clause}
use pysqlsuggestions.Dialect.{Dialect}
use pysqlsuggestions.Analyse.Tokens.{Place}
use pysqlsuggestions.Analyse.Caret.{depth_at}
use pysqlsuggestions.Analyse.Words.{
  is_word, after_operand, continues_a_keyword, at_the_clause_start,
}
use pysqlsuggestions.Analyse.Calls.{after_as, after_cast, inside_a_cast_awaiting_as}
use pysqlsuggestions.Analyse.Predicates.{predicate_complete, case_position}
use pysqlsuggestions.Analyse.Lists.{governing}

-- `where == word`.
unfoldable pub is_at : Str → Option Str → Bool
is_at word none = false
is_at word (some w) = text_eq w word

-- `found is None or not found.operators`, turned round.
unfoldable pub has_operators : Option Clause → Bool
has_operators none = false
has_operators (some c) = non_empty c.operators

module _ (u : Chars) (tokens : List Token) (lo hi caret : ℕ) (d : Dialect) where
  unfoldable pub expecting_of : Option Str → Expecting
  expecting_of clause =
      let finished =
        if predicate_complete u tokens lo hi caret d then connective else an_operator in
      if after_cast u tokens caret d
      then a_type
      else if after_as u tokens caret
      then an_alias
      else if not (after_operand u tokens caret d)
      then operand
      else if is_at (codes "when") (case_position u tokens caret)
      then finished
      else if has_operators (governing d.clauses clause)
      then finished
      else connective

  -- `_CASE_CONTINUATIONS`.
  unfoldable pub case_continuations : Str → List Str
  case_continuations branch =
      if text_eq branch (codes "start")
      then codes "WHEN" ∷ []
      else if text_eq branch (codes "when")
      then codes "THEN" ∷ []
      else if text_eq branch (codes "then")
      then codes "WHEN" ∷ codes "ELSE" ∷ codes "END" ∷ []
      else if text_eq branch (codes "else")
      then codes "END" ∷ []
      else []

  -- Inside a CASE, or outside one.
  unfoldable pub continues_case : Option Str → List Str × Bool
  continues_case none = ([], false)
  continues_case (some branch) =
      if text_eq branch (codes "start")
      then (case_continuations branch, after_operand u tokens caret d)
      else if not (after_operand u tokens caret d)
      then ([], false)
      else if text_eq branch (codes "when") && not (predicate_complete u tokens lo hi caret d)
      then ([], false)
      else (case_continuations branch, true)

  -- Behind the clause that governs the caret.
  unfoldable pub continues_clause : Option Clause → Str → List Str × Bool
  continues_clause none prefix = continues_case (case_position u tokens caret)
  continues_clause (some opening) prefix =
      if non_empty prefix
        && non_empty opening.before_the_item
        && at_the_clause_start u tokens caret opening.name
      then (opening.before_the_item, false)
      else if non_empty opening.opens_a_group && ltb 0 (depth_at tokens caret)
      then (opening.opens_a_group, true)
      else continues_case (case_position u tokens caret)

  unfoldable pub continues_of : Option Str → Str → List Str × Bool
  continues_of clause prefix =
      let found = continues_a_keyword u tokens caret d in
      if non_empty found
      then (found, true)
      else if inside_a_cast_awaiting_as u tokens caret && after_operand u tokens caret d
      then (codes "AS" ∷ [], true)
      else continues_clause (governing d.clauses clause) prefix

  -- `typed.isalpha()`.
  unfoldable pub all_alpha : Str → Bool
  all_alpha text = non_empty text && all u.is_alpha text

  unfoldable pub case_of : Str → LetterCase
  case_of typed = if u.all_lower typed then lowercase else uppercase

  -- The loop of `_keyword_case`, from the last token back.
  unfoldable pub keyword_case_back : Option LetterCase → Place → Option LetterCase
  keyword_case_back partial [] = partial
  keyword_case_back partial (t ∷ back) =
      let typed = take (caret - t.start) t.text in
      let counts = is_word t && ltb t.start caret && all_alpha typed in
      let further =
        keyword_case_back (if counts && leb caret t.end then some (case_of typed) else partial)
          back in
      if counts && not (leb caret t.end) && has_text d.keywords (u.upper t.value)
      then some (case_of typed)
      else further
