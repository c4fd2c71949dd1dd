-- ===== src/Lex/Scan.antt =====
-- engine/lex.py: the scanners for one token. A scanner is given `src[i:]` beside the offset `i`, so
-- that each `while` loop is a recursion on what is left of the source; an offset that it returns is
-- an offset into the whole source.
use pysqlsuggestions.Prelude.{
  ℕ, suc, ◌+◌, ◌-◌, Bool, true, false, ◌&&◌, ◌||◌, List, [], ◌∷◌, Option, none, some, Str, codes,
  length, drop, take, all, keep, sort, leb, ◌==◌, if◌then◌else◌, has_char, non_empty, starts_with,
  find_from, text_eq, or_else,
}
use pysqlsuggestions.Lex.Token.{
  Chars, Syntax, Placeholder, Body, digits, bare, anything, is_ident_start, is_ident_char,
}

-- `while i < len(src) and p(src[i]): i += 1`.
unfoldable pub scan_while : (ℕ → Bool) → Str → ℕ → ℕ
scan_while p [] i = i
scan_while p (c ∷ cs) i = if p c then scan_while p cs (suc i) else i

-- What `_scan_quoted_ident` and its loop return: the end, the unquoted value, `terminated`.
pub record Quoted : Type 0 where
  pub end : ℕ
  pub value : Str
  pub closed : Bool

-- `out.append(c)`, before what the rest of the loop appends.
abbrev pub appending : ℕ → Quoted → Quoted
appending c q = record q { value = c ∷ q.value }

-- The loop of `_scan_quoted_ident`, from behind the opening quote.
unfoldable pub scan_quoted_ident : ℕ → Str → ℕ → Quoted
scan_quoted_ident quote [] i = record { end = i; value = []; closed = false }
scan_quoted_ident quote (c ∷ []) i =
    if c == quote
    then record { end = i + 1; value = []; closed = true }
    else record { end = i + 1; value = c ∷ []; closed = false }
scan_quoted_ident quote (c ∷ d ∷ cs) i =
    let doubled = appending quote (scan_quoted_ident quote cs (i + 2)) in
    let plain = appending c (scan_quoted_ident quote (d ∷ cs) (i + 1)) in
    if c == quote
    then (if d == quote then doubled else record { end = i + 1; value = []; closed = true })
    else plain

-- The end of an exponent's digits from `j`, or `i` where there is none.
unfoldable pub exponent_digits : (ℕ → Bool) → ℕ → Str → ℕ → ℕ
exponent_digits is_digit i [] j = i
exponent_digits is_digit i (c ∷ cs) j = if is_digit c then scan_while is_digit (c ∷ cs) j else i

-- The optional sign of an exponent.
unfoldable pub exponent_sign : (ℕ → Bool) → ℕ → Str → ℕ → ℕ
exponent_sign is_digit i [] j = i
exponent_sign is_digit i (c ∷ cs) j =
    if has_char (codes "+-") c
    then exponent_digits is_digit i cs (j + 1)
    else exponent_digits is_digit i (c ∷ cs) j

unfoldable pub exponent : (ℕ → Bool) → Str → ℕ → ℕ
exponent is_digit [] i = i
exponent is_digit (c ∷ cs) i =
    if has_char (codes "eE") c then exponent_sign is_digit i cs (i + 1) else i

unfoldable pub scan_number : Chars → Str → ℕ → ℕ
scan_number u rest pos =
    let i = scan_while (λ c. u.is_digit c || c == b'.') rest pos in
    exponent u.is_digit (drop (i - pos) rest) i

abbrev pub operator_chars : Str
operator_chars = codes "+-*/%=<>|&^~!@#?:"

abbrev pub multi_char_operators : List Str
multi_char_operators =
    codes "<="
    ∷ codes ">="
    ∷ codes "<>"
    ∷ codes "!="
    ∷ codes "||"
    ∷ codes "->>"
    ∷ codes "->"
    ∷ codes "#>>"
    ∷ codes "#>"
    ∷ []

abbrev pub longer_first : Str → Str → Bool
longer_first a b = leb (length b) (length a)

-- `candidates`: the cast operator, if it is declared and not empty, and then the others.
abbrev pub with_cast : Option Str → List Str
with_cast none = multi_char_operators
with_cast (some []) = multi_char_operators
with_cast (some (c ∷ cs)) = (c ∷ cs) ∷ multi_char_operators

unfoldable pub first_starting : Str → List Str → Option Str
first_starting rest [] = none
first_starting rest (op ∷ ops) = if starts_with rest op then some op else first_starting rest ops

unfoldable pub single_operator : Str → Option Str
single_operator [] = none
single_operator (c ∷ cs) = if has_char operator_chars c then some (c ∷ []) else none

unfoldable pub match_operator : Str → Syntax → Option Str
match_operator rest s = elim (first_starting rest (sort longer_first (with_cast s.cast_operator))) [
  | some op ↦ some op
  | none ↦ single_operator rest
]

-- The loop of `_scan_string`, from behind the opening quote; `backslash` is
-- `escapes or syntax.string_escape_backslash`.
unfoldable pub scan_string : Bool → Str → ℕ → ℕ × Bool
scan_string backslash [] i = (i, false)
scan_string backslash (c ∷ []) i =
    if c == b'\\' && backslash
    then (i + 1, false)
    else (if c == b'\'' then (i + 1, true) else (i + 1, false))
scan_string backslash (c ∷ d ∷ cs) i =
    let skip = scan_string backslash cs (i + 2) in
    let next = scan_string backslash (d ∷ cs) (i + 1) in
    if c == b'\\' && backslash
    then skip
    else (if c == b'\'' then (if d == b'\'' then skip else (i + 1, true)) else next)

unfoldable pub scan_line_comment : Str → ℕ → ℕ × Bool
scan_line_comment rest pos = elim (find_from (codes "\n") rest pos) [
  | none ↦ (pos + length rest, false)
  | some end ↦ (end, true)
]

-- The loop of `_scan_block_comment`, from behind the opening `/*`.
unfoldable pub scan_block_comment : Bool → ℕ → Str → ℕ → ℕ × Bool
scan_block_comment nested level [] i = (i, false)
scan_block_comment nested level (c ∷ []) i = (i + 1, false)
scan_block_comment nested level (c ∷ d ∷ cs) i =
    let deeper = scan_block_comment nested (level + 1) cs (i + 2) in
    let outer = scan_block_comment nested (level - 1) cs (i + 2) in
    let next = scan_block_comment nested level (d ∷ cs) (i + 1) in
    if nested && (c == b'/' && d == b'*')
    then deeper
    else (if c == b'*' && d == b'/'
        then (if level - 1 == 0 then (i + 2, true) else outer)
        else next)

-- The end of a token that runs to the first `closer` at or behind `i`, where `rest` is `src[i:]`.
unfoldable pub run_to : Str → Str → ℕ → ℕ × Bool
run_to closer rest i = elim (find_from closer rest i) [
  | none ↦ (i + length rest, false)
  | some end ↦ (end + length closer, true)
]

-- `_scan_dollar_quote`; `rest` is `src[pos:]`, and its first character is the `$`.
unfoldable pub scan_dollar_quote : Chars → Str → ℕ → Option (ℕ × Bool)
scan_dollar_quote u rest pos = elim (find_from (codes "$") (drop 1 rest) (pos + 1)) [
  | none ↦ none
  | some close ↦
      let size = close + 1 - pos in
      let tag = take size rest in
      if all (is_ident_char u) (take (size - 2) (drop 1 tag))
      then some (run_to tag (drop size rest) (close + 1))
      else none
]

unfoldable pub opens_escape_string : Chars → Str → Syntax → Bool
opens_escape_string u [] s = false
opens_escape_string u (c ∷ cs) s =
    non_empty s.escape_string_prefix
    && text_eq (u.upper (c ∷ [])) s.escape_string_prefix
    && starts_with cs (codes "'")

-- A `name` run, or `pos` where there is none.
unfoldable pub scan_name : Chars → Str → ℕ → ℕ
scan_name u [] pos = pos
scan_name u (c ∷ cs) pos =
    if is_ident_start u c then scan_while (is_ident_char u) cs (pos + 1) else pos

abbrev pub is_digits : Body → Bool
is_digits digits = true
is_digits _ = false

unfoldable pub scan_body : Chars → Str → ℕ → Body → ℕ
scan_body u rest pos body =
    if is_digits body then scan_while u.is_digit rest pos else scan_name u rest pos

unfoldable pub placeholder_openers : Syntax → List Placeholder
placeholder_openers s = keep (λ p. non_empty p.opens) s.placeholders

abbrev pub longer_opener : Placeholder → Placeholder → Bool
longer_opener p q = leb (length q.opens) (length p.opens)

-- One round of the loop of `_scan_placeholder` behind its `startswith`; `none` is `continue`.
-- `after` is `src[start:]`.
unfoldable pub scan_one_placeholder : Chars → Placeholder → Str → ℕ → Option (ℕ × Bool)
scan_one_placeholder u p after start =
    if non_empty p.closes then some (run_to p.closes after start) else (elim p.body [
      | bare ↦ some (start, true)
      | anything ↦ none
      | other ↦
          let end = scan_body u after start other in
          if leb end start then none else some (end, false)
    ])

unfoldable pub try_placeholders : Chars → Str → ℕ → List Placeholder → Option (ℕ × Bool)
try_placeholders u rest pos [] = none
try_placeholders u rest pos (p ∷ ps) =
    let others = try_placeholders u rest pos ps in
    let size = length p.opens in
    if starts_with rest p.opens
    then or_else (scan_one_placeholder u p (drop size rest) (pos + size)) others
    else others

unfoldable pub scan_placeholder : Chars → Str → ℕ → Syntax → Option (ℕ × Bool)
scan_placeholder u rest pos s =
    try_placeholders u rest pos (sort longer_opener (placeholder_openers s))
