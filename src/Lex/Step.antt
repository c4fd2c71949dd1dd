-- ===== src/Lex/Step.antt =====
-- engine/lex.py: `lex`. The body of its `while` loop is one function that returns the token which it
-- appends and the nesting depth behind it; `rest` is `src[pos:]`.
use pysqlsuggestions.Prelude.{
  ℕ, zero, suc, ◌+◌, ◌-◌, Bool, true, false, not, ◌&&◌, ◌||◌, List, [], ◌∷◌, Option, none, some,
  Str, codes, length, drop, take, any, ◌==◌, if◌then◌else◌, has_char, has_text, starts_with,
}
use pysqlsuggestions.Lex.Token.{
  identifier_quotes, Chars, Syntax, Token, TokenType, ident, number, string, param, comment,
  operator, punct, whitespace, unknown, is_ident_start, is_ident_char, fold_case,
}
use pysqlsuggestions.Lex.Scan.{
  scan_while, Quoted, scan_quoted_ident, scan_number, match_operator, scan_string,
  scan_line_comment, scan_block_comment, scan_dollar_quote, opens_escape_string, scan_placeholder,
}

-- The token appended and the new `depth`.
pub record Step : Type 0 where
  pub token : Token
  pub depth : ℕ

-- A token whose value is its raw text, and that leaves `depth` as it is.
abbrev pub raw : TokenType → Str → ℕ → ℕ → ℕ × Bool → Step
raw type rest pos depth found = record {
  token = record {
    type = type;
    start = pos;
    end = found.0;
    text = take (found.0 - pos) rest;
    value = take (found.0 - pos) rest;
    quoted = false;
    terminated = found.1;
    depth = depth;
  };
  depth = depth;
}

abbrev pub punctuation : Str
punctuation = codes ".,();[]"

unfoldable pub scan_punct : Str → ℕ → ℕ → ℕ → Step
scan_punct rest ch pos depth =
    if ch == b'('
    then record (raw punct rest pos depth (pos + 1, true)) { depth = depth + 1 }
    else (if ch == b')'
        then raw punct rest pos (depth - 1) (pos + 1, true)
        else raw punct rest pos depth (pos + 1, true))

unfoldable pub scan_operator : Str → ℕ → ℕ → Option Str → Step
scan_operator rest pos depth none = raw unknown rest pos depth (pos + 1, true)
scan_operator rest pos depth (some op) =
    let found = raw operator rest pos depth (pos + length op, true) in
    record found { token = record (found.token) { text = op; value = op } }

unfoldable pub quoted_token : Str → ℕ → ℕ → Quoted → Step
quoted_token rest pos depth q =
    let found = raw ident rest pos depth (q.end, q.closed) in
    record found { token = record (found.token) { value = q.value; quoted = true } }

unfoldable pub word_token : Chars → Syntax → Str → ℕ → ℕ → ℕ → Step
word_token u s rest pos depth end =
    let found = raw ident rest pos depth (end, true) in
    record found {
      token = record (found.token) { value = fold_case u found.token.text s.unquoted_case };
    }

-- `src[pos]`, and what follows it.
module _ (u : Chars) (s : Syntax) (c : ℕ) (cs : Str) (pos depth : ℕ) where
  -- From `if ch in syntax.identifier_quotes` on.
  unfoldable pub scan_bare : Step
  scan_bare =
      if has_text (identifier_quotes s) (c ∷ [])
      then quoted_token (c ∷ cs) pos depth (scan_quoted_ident c cs (pos + 1))
      else (if is_ident_start u c
          then word_token u s (c ∷ cs) pos depth (scan_while (is_ident_char u) (c ∷ cs) pos)
          else (if u.is_digit c
              then raw number (c ∷ cs) pos depth (scan_number u (c ∷ cs) pos, true)
              else (if has_char punctuation c
                  then scan_punct (c ∷ cs) c pos depth
                  else scan_operator (c ∷ cs) pos depth (match_operator (c ∷ cs) s))))

  -- From `if ch == '$' and syntax.dollar_quoting` on.
  unfoldable pub scan_dollar : Step
  scan_dollar =
      if c == b'$' && s.dollar_quoting
      then (elim (scan_dollar_quote u (c ∷ cs) pos) [
        | none ↦ scan_bare
        | some found ↦ raw string (c ∷ cs) pos depth found
      ])
      else scan_bare

  -- A string literal; an escape string has its prefix before the quote.
  unfoldable pub scan_literal : Step
  scan_literal =
      let escaped = not (c == b'\'') in
      let before = if escaped then 1 else 0 in
      raw string (c ∷ cs) pos depth
        (scan_string (escaped || s.string_escape_backslash) (drop before cs) (pos + before + 1))

  -- From the placeholders on.
  unfoldable pub scan_param : Step
  scan_param = elim (scan_placeholder u (c ∷ cs) pos s) [
    | none ↦ scan_dollar
    | some found ↦ raw param (c ∷ cs) pos depth found
  ]

  -- One round of the loop of `lex`.
  unfoldable pub scan_token : Step
  scan_token =
      if u.is_space c
      then raw whitespace (c ∷ cs) pos depth (scan_while u.is_space (c ∷ cs) pos, true)
      else (if any (λ m. starts_with (c ∷ cs) m) s.line_comments
          then raw comment (c ∷ cs) pos depth (scan_line_comment (c ∷ cs) pos)
          else (if starts_with (c ∷ cs) (codes "/*")
              then raw comment (c ∷ cs) pos depth
                  (scan_block_comment s.nested_block_comments 1 (drop 1 cs) (pos + 2))
              else (if c == b'\'' || opens_escape_string u (c ∷ cs) s
                  then scan_literal
                  else scan_param)))

-- The loop, with `none` where the fuel does not suffice.
unfoldable pub lex_from : Chars → Syntax → ℕ → Str → ℕ → ℕ → Option (List Token)
lex_from u s fuel [] pos depth = some []
lex_from u s zero (c ∷ cs) pos depth = none
lex_from u s (suc fuel) (c ∷ cs) pos depth =
    let found = scan_token u s c cs pos depth in
    let end = found.token.end in
    elim (lex_from u s fuel (drop (end - pos) (c ∷ cs)) end found.depth) [
      | none ↦ none
      | some tokens ↦ some (found.token ∷ tokens)
    ]

-- One round for each character is enough.
unfoldable pub lex : Chars → Syntax → Str → Option (List Token)
lex u s src = lex_from u s (length src) src 0 0
