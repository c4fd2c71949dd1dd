-- ===== src/Lex/Token.antt =====
-- engine/lex.py and dialects/base.py: the tokens, the syntax that a dialect declares, and what the
-- scanner asks of Unicode (`str.isalpha` and the others, `unicodedata.combining`), which is a
-- parameter of everything that scans.
use pysqlsuggestions.Prelude.{
  ℕ, Bool, true, false, ◌&&◌, ◌||◌, List, Option, leb, ltb, Str, has_char, codes, ◌≡◌, [], ◌∷◌, all,
}

-- Character classes, one code point at a time: the tests of `str`, `\d` of a regular
-- expression with the value that `int` gives such a digit, and the methods `upper` and `lower`.
pub record Chars : Type 0 where
  pub is_alpha : ℕ → Bool
  pub is_alnum : ℕ → Bool
  pub is_space : ℕ → Bool
  pub is_digit : ℕ → Bool
  pub is_combining : ℕ → Bool
  pub is_lower : ℕ → Bool
  pub is_upper : ℕ → Bool
  pub is_decimal : ℕ → Bool
  pub decimal_value : ℕ → ℕ
  -- `str.islower`, of a whole text.
  pub all_lower : Str → Bool
  pub upper : Str → Str
  pub lower : Str → Str

-- What Python documents of these methods: "a character is alphanumeric if `isalpha`, …", and a
-- newline is whitespace.
pub record IsUnicode (u : Chars) : Type 0 where
  pub alpha_alnum : (c : ℕ) → u.is_alpha c ≡ true → u.is_alnum c ≡ true
  pub newline_space : u.is_space b'\n' ≡ true

-- `enum TokenType`.
pub data TokenType : Type 0 where
  ident number string param comment operator punct whitespace unknown : TokenType

pub record Token : Type 0 where
  pub type : TokenType
  pub start : ℕ
  pub end : ℕ
  pub text : Str
  pub value : Str
  pub quoted : Bool
  pub terminated : Bool
  pub depth : ℕ

-- `Token.covers`.
unfoldable pub covers : Token → ℕ → Bool
covers t caret = ltb t.start caret && leb caret t.end

-- `Placeholder.body`; `bare` is the literal 'none'.
pub data Body : Type 0 where
  name digits bare anything : Body

pub record Placeholder : Type 0 where
  pub opens : Str
  pub body : Body
  pub closes : Str

pub data UnquotedCase : Type 0 where
  lower upper preserve : UnquotedCase

pub record Syntax : Type 0 where
  pub first_quote : Str
  pub more_quotes : List Str
  pub line_comments : List Str
  pub nested_block_comments : Bool
  pub string_escape_backslash : Bool
  pub unquoted_case : UnquotedCase
  pub dollar_quoting : Bool
  pub cast_operator : Option Str
  pub escape_string_prefix : Str
  pub unquoted_extra : Str
  pub unquoted_non_ascii : Bool
  pub placeholders : List Placeholder

-- `Syntax.identifier_quotes`. The tuple is taken to have a first element: the code reads it with no
-- test, and raises IndexError on an empty one.
abbrev pub identifier_quotes : Syntax → List Str
identifier_quotes s = s.first_quote ∷ s.more_quotes

module _ (u : Chars) where
  unfoldable pub is_ident_start : ℕ → Bool
  is_ident_start ch = u.is_alpha ch || has_char (codes "_") ch

  unfoldable pub is_ident_char : ℕ → Bool
  is_ident_char ch = u.is_alnum ch || has_char (codes "_$") ch || u.is_combining ch

  unfoldable pub fold_case : Str → UnquotedCase → Str
  fold_case value lower = u.lower value
  fold_case value upper = u.upper value
  fold_case value preserve = value

  unfoldable pub reads_as_one_identifier : Str → Bool
  reads_as_one_identifier [] = false
  reads_as_one_identifier (c ∷ cs) = is_ident_start c && all is_ident_char cs
