-- ===== src/Tests/Ascii.antt =====
-- A concrete `Chars`, over ASCII, two dialects, and the facts that the theorems ask of them.
use pysqlsuggestions.Prelude.{
  ℕ, any, all, not, ◌+◌, ◌-◌, Bool, true, false, ◌&&◌, ◌||◌, [], ◌∷◌, some, codes, map, leb, ◌==◌,
  if◌then◌else◌, text_eq, List, Str, ◌≡◌, refl, arith,
}
use pysqlsuggestions.Lex.Token.{
  Chars, IsUnicode, Syntax, digits, name, UnquotedCase, is_ident_start, is_ident_char,
}
use pysqlsuggestions.Lex.Names.{HasAsciiNames, KeepsNames}
use pysqlsuggestions.Quote.ReadBack.{QuotesBy}
use pysqlsuggestions.Clauses.Model.{Clause, ClauseModel}
use pysqlsuggestions.Dialect.{Dialect}

abbrev between : ℕ → ℕ → ℕ → Bool
between lo hi c = leb lo c && leb c hi

abbrev pub upper_char : ℕ → ℕ
upper_char c = if between b'a' b'z' c then c - 32 else c

abbrev pub lower_char : ℕ → ℕ
lower_char c = if between b'A' b'Z' c then c + 32 else c

abbrev pub ascii : Chars
ascii = record {
  is_alpha = λ c. between b'a' b'z' c || between b'A' b'Z' c;
  is_alnum = λ c. between b'a' b'z' c || between b'A' b'Z' c || between b'0' b'9' c;
  is_space = λ c. between 9 13 c || c == b' ';
  is_digit = λ c. between b'0' b'9' c;
  is_combining = λ c. false;
  is_lower = λ c. between b'a' b'z' c;
  is_upper = λ c. between b'A' b'Z' c;
  is_decimal = λ c. between b'0' b'9' c;
  decimal_value = λ c. c - b'0';
  all_lower =
      λ text. any (λ c. between b'a' b'z' c) text && all (λ c. not (between b'A' b'Z' c)) text;
  upper = map upper_char;
  lower = map lower_char;
}

ascii_alpha : (c : ℕ) → ascii.is_alpha c ≡ true → ascii.is_alnum c ≡ true
ascii_alpha c h = ground arith

pub ascii-IsUnicode : IsUnicode ascii
ascii-IsUnicode = record { alpha_alnum = ascii_alpha; newline_space = refl }

ascii_visible : (c : ℕ) → is_ident_start ascii c ≡ true → ascii.is_space c ≡ false
unfolding is_ident_start
ascii_visible c h = ground arith

pub ascii-HasAsciiNames : HasAsciiNames ascii
unfolding is_ident_start is_ident_char
ascii-HasAsciiNames = record {
  apostrophe = refl;
  quote = refl;
  slash = refl;
  dollar = refl;
  start_visible = ascii_visible;
}

-- dialects/postgres.py: the syntax.
abbrev pub postgres_syntax : Syntax
postgres_syntax = record {
  first_quote = codes "\"";
  more_quotes = [];
  line_comments = codes "--" ∷ [];
  nested_block_comments = true;
  string_escape_backslash = false;
  unquoted_case = UnquotedCase.lower;
  dollar_quoting = true;
  cast_operator = some (codes "::");
  escape_string_prefix = codes "E";
  unquoted_extra = codes "$";
  unquoted_non_ascii = true;
  placeholders =
      record { opens = codes "$"; body = digits; closes = [] }
      ∷ record { opens = codes ":"; body = name; closes = [] }
      ∷ [];
}

-- A clause with a name, what it follows, and nothing else.
abbrev pub plain : Str → List Str → Clause
plain title behind = record {
  name = title;
  follows = behind;
  statements = [];
  repeats = false;
  suggests = [];
  followed_by = [];
  before_the_item = [];
  opens_an_item = false;
  opens_a_group = [];
  defines_columns = [];
  relation_kinds = [];
  aliases_with = [];
  operators = [];
  after_operand = [];
}

-- dialects/ansi.py: some of the clauses.
abbrev pub ansi_clauses : ClauseModel
ansi_clauses = record {
  clauses =
      plain (codes "SELECT") []
      ∷ plain (codes "FROM") (codes "SELECT" ∷ codes "DELETE" ∷ [])
      ∷ plain (codes "WHERE") (codes "FROM" ∷ [])
      ∷ plain (codes "GROUP BY") (codes "FROM" ∷ codes "WHERE" ∷ [])
      ∷ plain (codes "ORDER BY") (codes "FROM" ∷ codes "WHERE" ∷ codes "GROUP BY" ∷ [])
      ∷ plain (codes "DELETE FROM") []
      ∷ plain (codes "CALL") []
      ∷ [];
}

abbrev pub postgres : Dialect
postgres = record {
  syntax = postgres_syntax;
  clauses = ansi_clauses;
  keywords =
      codes "SELECT" ∷ codes "FROM" ∷ codes "WHERE" ∷ codes "ORDER" ∷ codes "BY" ∷ codes "AND" ∷ [];
  reserved = codes "select" ∷ codes "order" ∷ [];
  statement_start = codes "SELECT" ∷ codes "DELETE FROM" ∷ codes "CALL" ∷ [];
  literal_arguments = [];
  namespace = codes "schema" ∷ codes "table" ∷ [];
}

pub postgres-KeepsNames : KeepsNames ascii postgres_syntax
unfolding is_ident_start
postgres-KeepsNames = record { comments = refl; quotes = refl; openers = refl }

pub postgres-QuotesBy : QuotesBy ascii postgres_syntax b'"'
unfolding text_eq
postgres-QuotesBy = record {
  first = refl;
  visible = refl;
  no_comment = refl;
  no_opener = refl;
  no_slash = refl;
  no_apostrophe = refl;
  no_dollar = refl;
  no_escape = refl;
}
