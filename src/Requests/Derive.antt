-- ===== src/Requests/Derive.antt =====
-- engine/request.py: `derive_request`. `none` is the lack of an answer of the lexer, or a caret that the
-- clamp leaves negative; neither occurs.
use pysqlsuggestions.Prelude.{
  ℤ, pos, negsuc, min_ℤ, max_ℤ, ℕ, Bool, false, not, ◌&&◌, List, [], ◌∷◌, ◌++◌, Option, none, some,
  Str, length, all, keep, ltb, non_empty, has_text, if◌then◌else◌,
}
use pysqlsuggestions.Lex.Token.{Chars, Token}
use pysqlsuggestions.Lex.Step.{lex}
use pysqlsuggestions.Types.{
  Kind, Relation, Scope, Request, Expecting, a_type, plain_request, is_kind, keyword, type,
}
use pysqlsuggestions.Clauses.Model.{Clause}
use pysqlsuggestions.Dialect.{Dialect}
use pysqlsuggestions.Analyse.Tokens.{Place}
use pysqlsuggestions.Analyse.Caret.{
  depth_at, in_literal, in_placeholder, statement_at, statement_has_begun, qualifier_and_prefix,
}
use pysqlsuggestions.Analyse.Words.{split_words}
use pysqlsuggestions.Analyse.Calls.{star_at, star_span, star_qualifier, star_relations}
use pysqlsuggestions.Analyse.Clauses.{clause_at}
use pysqlsuggestions.Analyse.Predicates.{behind}
use pysqlsuggestions.Analyse.Comparand.{comparand_at}
use pysqlsuggestions.Analyse.Branches.{
  in_set_operation_tail, clauses_written, statement_form, words_in_item,
}
use pysqlsuggestions.Analyse.Relations.{is_some}
use pysqlsuggestions.Analyse.Lists.{
  ColumnPart, a_name, a_constraint, governing, opens_a_name_list, defines_a_column,
}
use pysqlsuggestions.Analyse.Lists as Lists
use pysqlsuggestions.Analyse.Scopes.{scope_of}
use pysqlsuggestions.Requests.Literals.{inside_a_literal}
use pysqlsuggestions.Requests.Kinds.{expansion_first, values_first, continued_kinds, kinds_for}
use pysqlsuggestions.Requests.Continues.{expecting_of, continues_of, keyword_case_back}

-- `scope_of(…) if tokens else None`.
unfoldable pub scope_if : Chars → Dialect → List Token → ℕ × ℕ → ℕ → Option Scope
scope_if u d [] statement caret = none
scope_if u d (t ∷ ts) statement caret =
    some (scope_of u d (t ∷ ts) (statement.0) (statement.1) caret)

-- What a star stands for, and its span and qualifier: nothing, where it stands for no relation.
pub record Star : Type 0 where
  pub place : Option (ℕ × ℕ)
  pub relations : List Relation
  pub label : Option Str

unfoldable pub no_star : Star
no_star = record { place = none; relations = []; label = none }

unfoldable pub star_of_place : Option Scope → Option Place → Star
star_of_place scope none = no_star
star_of_place scope (some []) = no_star
star_of_place scope (some (star ∷ back)) =
    let relations = star_relations (star ∷ back) scope in
    if non_empty relations
    then record {
      place = some (star_span star back);
      relations = relations;
      label = star_qualifier (star ∷ back);
    }
    else no_star

-- `_defining_a_column`, the words of constraints that are left.
unfoldable pub unspent : Chars → Option Clause → List Str → List Str
unspent u none held = []
unspent u (some c) held =
    keep (λ word. not (all (has_text held) (split_words u word))) c.defines_columns

unfoldable pub continuing : List Str → Request → Request
continuing [] r = r
continuing (w ∷ ws) r = record {
  kinds = keyword ∷ [];
  prefix = r.prefix;
  replace_span = r.replace_span;
  clause = r.clause;
  scope = r.scope;
  expecting = r.expecting;
  continues = w ∷ ws;
  keyword_case = r.keyword_case;
  qualifier = r.qualifier;
  comparand = r.comparand;
  comparand_type = r.comparand_type;
  item_words = r.item_words;
  statement = r.statement;
  written = r.written;
  set_operation_tail = r.set_operation_tail;
  star = r.star;
  star_of = r.star_of;
  star_qualifier = r.star_qualifier;
  writes_a_literal = r.writes_a_literal;
}

unfoldable pub expecting_a_type : Request → Request
expecting_a_type r = record {
  kinds = type ∷ [];
  prefix = r.prefix;
  replace_span = r.replace_span;
  clause = r.clause;
  scope = r.scope;
  expecting = a_type;
  continues = r.continues;
  keyword_case = r.keyword_case;
  qualifier = r.qualifier;
  comparand = r.comparand;
  comparand_type = r.comparand_type;
  item_words = r.item_words;
  statement = r.statement;
  written = r.written;
  set_operation_tail = r.set_operation_tail;
  star = r.star;
  star_of = r.star_of;
  star_qualifier = r.star_qualifier;
  writes_a_literal = r.writes_a_literal;
}

unfoldable pub defining_a_column : Chars → ColumnPart → Option Clause → List Str → Request → Request
defining_a_column u a_name c held r = r
defining_a_column u Lists.a_type c held r = expecting_a_type r
defining_a_column u a_constraint c held r = continuing (unspent u c held) r

module _ (u : Chars) (d : Dialect) (tokens : List Token) (statement : ℕ × ℕ) (caret : ℕ) where
  -- The kinds, before the tail of a set operation and an unknown form narrow them.
  unfoldable pub kinds_at :
      Option Str
      → Option Scope
      → List Str
      → List Str
      → Expecting
      → List Str × Bool
      → Star
      → List Kind
  kinds_at clause scope comparand qualifier expecting (continues, only) star =
      continued_kinds continues only (
        expansion_first (is_some star.place)
        ++ (values_first comparand expecting qualifier
            ++ kinds_for clause qualifier scope d expecting (ltb 0 (depth_at tokens caret))))

  unfoldable pub narrowed : Option Str → List Str → Bool → List Kind → List Kind
  narrowed clause continues tail kinds =
      if not (is_some clause)
        && not (non_empty continues)
        && statement_has_begun tokens (statement.0) (statement.1) caret
      then []
      else if tail
      then keep (λ k. is_kind k keyword) kinds
      else kinds

  -- The last return.
  unfoldable pub full_request :
      Option Str → Option Scope → List Str × Option Str → List Str × Str × (ℕ × ℕ) → Request
  full_request clause scope (comparand, comparand_type) (qualifier, prefix, span) =
      let lo = statement.0 in
      let hi = statement.1 in
      let continues = continues_of u tokens lo hi caret d clause prefix in
      let expecting = expecting_of u tokens lo hi caret d clause in
      let star = star_of_place scope (star_at u tokens caret d) in
      let tail = in_set_operation_tail u d tokens lo hi caret in
      record {
        kinds =
            narrowed clause (continues.0) tail
              (kinds_at clause scope comparand qualifier expecting continues star);
        prefix = prefix;
        replace_span = span;
        clause = clause;
        scope = scope;
        expecting = expecting;
        continues = continues.0;
        keyword_case = keyword_case_back u tokens lo hi caret d none (behind [] tokens);
        qualifier = qualifier;
        comparand = comparand;
        comparand_type = comparand_type;
        item_words = words_in_item u d tokens caret;
        statement = statement_form u d tokens lo hi caret;
        written = clauses_written u d tokens lo hi caret;
        set_operation_tail = tail;
        star = star.place;
        star_of = star.relations;
        star_qualifier = star.label;
        writes_a_literal = false;
      }

  -- From `qualifier, prefix, span = …` on.
  unfoldable pub outside_request : Option Str → Option Scope → List Str × Option Str → Request
  outside_request clause scope comparand =
      let found = qualifier_and_prefix u tokens caret in
      let plain = plain_request [] (found.1) (found.2) clause scope in
      if opens_a_name_list u tokens caret clause d.clauses
      then plain
      else elim (defines_a_column u tokens (statement.0) (statement.1) caret clause d.clauses) [
        | some part ↦
            defining_a_column u part (governing d.clauses clause) (words_in_item u d tokens caret)
              plain
        | none ↦ full_request clause scope comparand found
      ]

  unfoldable pub request_at : Request
  request_at =
      let clause = clause_at u d tokens (statement.0) (statement.1) caret in
      let scope = scope_if u d tokens statement caret in
      let comparand = comparand_at u d tokens caret in
      if in_placeholder tokens caret
      then plain_request [] [] (caret, caret) clause scope
      else if in_literal tokens caret
      then inside_a_literal u tokens caret clause scope (comparand.0) d
      else outside_request clause scope comparand

-- `max(0, min(caret, len(sql)))`.
unfoldable pub clamped : ℤ → ℕ → ℤ
clamped caret size = max_ℤ (pos 0) (min_ℤ caret (pos size))

-- From `lo, hi = statement_at(…)` on. No offset of the model is negative: `none` at such a caret.
unfoldable pub request_from : Chars → Dialect → List Token → ℤ → Option Request
request_from u d tokens (pos caret) = some (request_at u d tokens (statement_at tokens caret) caret)
request_from u d tokens (negsuc n) = none

unfoldable pub derive_request : Chars → Str → ℤ → Dialect → Option Request
derive_request u sql caret d = elim (lex u d.syntax sql) [
  | none ↦ none
  | some tokens ↦ request_from u d tokens (clamped caret (length sql))
]
