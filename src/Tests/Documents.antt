-- ===== src/Tests/Documents.antt =====
-- Documents of the language server, and carets, at concrete inputs.
use pysqlsuggestions.Prelude.{
  ℕ, ◌<◌, true, false, ◌&&◌, List, [], ◌∷◌, none, some, Str, codes, length, if◌then◌else◌, ◌≡◌, ◌⊎◌,
  refl, arith,
}
use pysqlsuggestions.Lex.Token.{Token}
use pysqlsuggestions.Lex.Step.{lex}
use pysqlsuggestions.Analyse.Tokens.{index_before}
use pysqlsuggestions.Analyse.Caret.{
  in_literal, in_placeholder, string_under, token_of, qualifier_and_prefix,
}
use pysqlsuggestions.Analyse.Caret as Analyse
use pysqlsuggestions.Analyse.Covers.{holds_at, literal_here, param_here, string_here}
use pysqlsuggestions.Analyse.Inside.{in_literal-one_token}
use pysqlsuggestions.Analyse.Span.{EndsWell, span, qualifier_and_prefix-span}
use pysqlsuggestions.Lsp.Documents.{
  line_starts, starts_from, bisect_right, start_at, column, to_position,
}
use pysqlsuggestions.Lsp.Documents as Documents
use pysqlsuggestions.Lsp.Units.{sum_of, utf_16, utf_16-Counts}
use pysqlsuggestions.Lsp.Starts.{occurs, opens_line, ascending, line_starts-exact}
use pysqlsuggestions.Lsp.Positions.{to_position-increases}
use pysqlsuggestions.Lsp.Statements.{Cut, statement_at-statement_at}
use pysqlsuggestions.Tests.Ascii.{ascii, ascii-IsUnicode, postgres_syntax}

-- A line feed, a carriage return with a line feed, and a lone one.
abbrev lined : Str
lined = b'a' ∷ b'\n' ∷ b'b' ∷ b'\r' ∷ b'\n' ∷ 128512 ∷ b'c' ∷ b'\r' ∷ b'd' ∷ []

lined_starts : (line_starts lined utf_16).starts ≡ 0 ∷ 2 ∷ 5 ∷ 8 ∷ []
unfolding line_starts starts_from
lined_starts = refl

lined_position :
    (to_position (line_starts lined utf_16) 6 ≡ some (2, 2))
    × (to_position (line_starts lined utf_16) 9 ≡ some (3, 1))
unfolding to_position line_starts starts_from bisect_right start_at column sum_of
lined_position = (refl, refl)

line_starts-exact_example :
    (occurs 5 (line_starts lined utf_16).starts ≡ opens_line lined 5)
    × (ascending 0 (line_starts lined utf_16).starts ≡ true)
line_starts-exact_example = line_starts-exact lined utf_16 5

to_position-increases_example :
    (p : ℕ × ℕ) × (q : ℕ × ℕ) × (to_position (line_starts lined utf_16) 5 ≡ some p)
    × (to_position (line_starts lined utf_16) 8 ≡ some q)
    × ((p.0 < q.0) ⊎ ((p.0 ≡ q.0) × (p.1 < q.1)))
to_position-increases_example =
    to_position-increases utf_16 utf_16-Counts lined 5 8 (omega arith) (omega arith)

-- The first semicolon stands in a string.
abbrev two : Str
two = codes "SELECT ';x' ; SELECT u.na"

statement_at-statement_at_example :
    (ts : List Token) × (lex ascii postgres_syntax two ≡ some ts)
    × ((answer : Str × ℕ) × (Documents.statement_at ascii two 20 postgres_syntax ≡ some answer)
        × Cut 20 ts (Analyse.statement_at ts 20) answer)
statement_at-statement_at_example =
    statement_at-statement_at ascii ascii-IsUnicode postgres_syntax two 20 (omega arith)

in_literal-one_token_example :
    (ts : List Token) × (lex ascii postgres_syntax two ≡ some ts)
    × (in_literal ts 9 ≡ holds_at (literal_here 9) (index_before ts 9))
    × (in_placeholder ts 9 ≡ holds_at (param_here 9) (index_before ts 9))
    × (string_under ts 9 ≡ (
        if holds_at (string_here 9) (index_before ts 9)
        then token_of (index_before ts 9)
        else none))
    × ((in_literal ts 9 && in_placeholder ts 9) ≡ false)
in_literal-one_token_example = in_literal-one_token ascii ascii-IsUnicode postgres_syntax two 9

qualifier_and_prefix-span_example :
    (ts : List Token) × (lex ascii postgres_syntax two ≡ some ts)
    × (let found = span (qualifier_and_prefix ascii ts 24) in
        EndsWell (length two) 24 ts found.0 found.1)
qualifier_and_prefix-span_example =
    qualifier_and_prefix-span ascii ascii-IsUnicode postgres_syntax two 24 (omega arith)
