-- ===== src/Requests/Literals.antt =====
-- engine/request.py: a caret inside a literal.
use pysqlsuggestions.Prelude.{
  ℕ, ◌+◌, ◌-◌, true, List, [], ◌∷◌, ◌++◌, Option, none, some, Str, codes, take, drop, starts_with,
  find_from, if◌then◌else◌, text_eq,
}
use pysqlsuggestions.Lex.Token.{Chars, Token}
use pysqlsuggestions.Types.{Kind, value, Scope, Request, plain_request}
use pysqlsuggestions.Quote.Defs.{replace_from}
use pysqlsuggestions.Dialect.{Dialect, LiteralArgument}
use pysqlsuggestions.Analyse.Caret.{string_under}
use pysqlsuggestions.Analyse.Calls.{literal_argument_call}

-- Where a body starts behind what was found, or else behind the first character.
unfoldable pub body_start : Option ℕ → ℕ
body_start none = 1
body_start (some found) = found + 1

unfoldable pub quote_or_first : Option ℕ → Str → Str
quote_or_first none text = take 1 text
quote_or_first (some found) text = codes "'"

unfoldable pub literal_opening : Str → ℕ × Str
literal_opening text =
    let close = find_from (codes "$") (drop 1 text) 1 in
    let quote = find_from (codes "'") text 0 in
    if starts_with text (codes "$")
    then (body_start close, [])
    else (body_start quote, quote_or_first quote text)

-- `for declared in dialect.literal_arguments`.
unfoldable pub suggested_by : Chars → Str → List LiteralArgument → List Kind
suggested_by u called [] = []
suggested_by u called (a ∷ more) =
    if text_eq (u.upper a.function) called then a.suggests else suggested_by u called more

unfoldable pub literal_argument_kinds : Chars → List Token → ℕ → Dialect → List Kind
literal_argument_kinds u tokens caret d = elim (literal_argument_call u tokens caret) [
  | none ↦ []
  | some called ↦ suggested_by u called d.literal_arguments
]

-- `typed.replace(quote * 2, quote) if quote else typed`.
unfoldable pub undoubled : Str → Str → Str
undoubled [] typed = typed
undoubled (q ∷ qs) typed = replace_from ((q ∷ qs) ++ (q ∷ qs)) (q ∷ qs) 0 typed

unfoldable pub literal_prefix : Token → ℕ → Str
literal_prefix t caret =
    let opening = literal_opening t.text in
    undoubled (opening.1) (drop (opening.0) (take (caret - t.start) t.text))

unfoldable pub literal_span : Token → ℕ → ℕ × ℕ
literal_span t caret = (t.start, if t.terminated then t.end else caret)

-- With a value to write, or a name in an argument.
unfoldable pub writing : Request → List Str → Request
writing r comparand = record {
  kinds = r.kinds;
  prefix = r.prefix;
  replace_span = r.replace_span;
  clause = r.clause;
  scope = r.scope;
  expecting = r.expecting;
  continues = r.continues;
  keyword_case = r.keyword_case;
  qualifier = r.qualifier;
  comparand = comparand;
  comparand_type = r.comparand_type;
  item_words = r.item_words;
  statement = r.statement;
  written = r.written;
  set_operation_tail = r.set_operation_tail;
  star = r.star;
  star_of = r.star_of;
  star_qualifier = r.star_qualifier;
  writes_a_literal = true;
}

-- Inside the string `written`, with the kinds that a call declares.
unfoldable pub inside_string :
    Token → List Kind → ℕ → Option Str → Option Scope → List Str → Request
inside_string t (k ∷ ks) caret clause scope comparand =
    writing (plain_request (k ∷ ks) (literal_prefix t caret) (literal_span t caret) clause scope) []
inside_string t [] caret clause scope [] = plain_request [] [] (caret, caret) clause scope
inside_string t [] caret clause scope (c ∷ cs) =
    writing
      (plain_request (value ∷ []) (literal_prefix t caret) (literal_span t caret) clause scope)
      (c ∷ cs)

unfoldable pub inside_a_literal :
    Chars → List Token → ℕ → Option Str → Option Scope → List Str → Dialect → Request
inside_a_literal u tokens caret clause scope comparand d = elim (string_under tokens caret) [
  | none ↦ plain_request [] [] (caret, caret) clause scope
  | some t ↦ inside_string t (literal_argument_kinds u tokens caret d) caret clause scope comparand
]
