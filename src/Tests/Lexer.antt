-- ===== src/Tests/Lexer.antt =====
-- The lexer and the quoting of names, at concrete inputs.
use pysqlsuggestions.Prelude.{
  true, List, [], ◌∷◌, Option, none, some, Str, codes, map, text_eq, starts_with, find_from, ◌≡◌,
  ◌↔◌, refl,
}
use pysqlsuggestions.Lex.Token.{
  Token, TokenType, ident, number, string, operator, punct, whitespace, reads_as_one_identifier,
  is_ident_start, is_ident_char, fold_case,
}
use pysqlsuggestions.Lex.Scan.{
  scan_while, scan_quoted_ident, exponent_digits, exponent_sign, exponent, scan_number,
  first_starting, single_operator, match_operator, scan_string, scan_line_comment,
  scan_block_comment, run_to, scan_dollar_quote, opens_escape_string, scan_name, scan_body,
  placeholder_openers, scan_one_placeholder, try_placeholders, scan_placeholder,
}
use pysqlsuggestions.Lex.Step.{
  scan_punct, scan_operator, quoted_token, word_token, scan_bare, scan_dollar, scan_literal,
  scan_param, scan_token, lex_from, lex,
}
use pysqlsuggestions.Lex.Tiles.{Tiles, lex-Tiles}
use pysqlsuggestions.Lex.Names.{name_token, reads_as_one_identifier-lex}
use pysqlsuggestions.Quote.Defs.{quote_if_needed}
use pysqlsuggestions.Quote.ReadBack.{quote_if_needed-lex}
use pysqlsuggestions.Tests.Ascii.{
  ascii, ascii-IsUnicode, ascii-HasAsciiNames, postgres, postgres_syntax, postgres-KeepsNames,
  postgres-QuotesBy,
}

program : Unit {0}
unfolding reads_as_one_identifier is_ident_start is_ident_char fold_case scan_while
    scan_quoted_ident exponent_digits exponent_sign exponent scan_number first_starting
    single_operator match_operator scan_string scan_line_comment scan_block_comment run_to
    scan_dollar_quote opens_escape_string scan_name scan_body placeholder_openers
    scan_one_placeholder try_placeholders scan_placeholder scan_punct scan_operator quoted_token
    word_token scan_bare scan_dollar scan_literal scan_param scan_token lex_from lex text_eq
    starts_with find_from
program = tt

abbrev types : Option (List Token) → List TokenType
types none = []
types (some ts) = map (λ (t : Token). t.type) ts

abbrev statement : Str
statement = codes "select \"a\"\"b\", 1.5e3 from t where x <= 'it''s' -- done"

lex-types :
    types (lex ascii postgres_syntax statement)
    ≡ ident ∷ whitespace ∷ ident ∷ punct ∷ whitespace ∷ number ∷ whitespace ∷ ident ∷ whitespace
      ∷ ident ∷ whitespace ∷ ident ∷ whitespace ∷ ident ∷ whitespace ∷ operator ∷ whitespace
      ∷ string ∷ whitespace ∷ TokenType.comment ∷ []
unfolding program
lex-types = refl

lex-Tiles_example :
    (ts : List Token) × (lex ascii postgres_syntax statement ≡ some ts) × Tiles statement 0 ts
lex-Tiles_example = lex-Tiles ascii ascii-IsUnicode postgres_syntax statement

reads_as_one_identifier-lex_example :
    (reads_as_one_identifier ascii (codes "order_items") ≡ true) ↔ (
      lex ascii postgres_syntax (codes "order_items")
      ≡ some (
          name_token ascii ascii-IsUnicode ascii-HasAsciiNames postgres_syntax postgres-KeepsNames
            (codes "order_items")
          ∷ []))
reads_as_one_identifier-lex_example =
    reads_as_one_identifier-lex ascii ascii-IsUnicode ascii-HasAsciiNames postgres_syntax
      postgres-KeepsNames (codes "order_items")

quote_if_needed-lex_example :
    (t : Token) × (lex ascii postgres_syntax (quote_if_needed ascii (codes "a \"b") postgres)
      ≡ some (t ∷ []))
    × (t.type ≡ ident)
    × (t.value ≡ codes "a \"b")
quote_if_needed-lex_example =
    quote_if_needed-lex ascii ascii-IsUnicode ascii-HasAsciiNames postgres postgres-KeepsNames b'"'
      postgres-QuotesBy (codes "a \"b")
