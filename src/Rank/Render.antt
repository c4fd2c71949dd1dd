-- ===== src/Rank/Render.antt =====
-- engine/rank.py: the text that a candidate inserts, and where the caret stops in it.
use pysqlsuggestions.Prelude.{
  ℕ, zero, suc, ◌+◌, ◌*◌, Bool, true, false, not, ◌&&◌, ◌||◌, List, [], ◌∷◌, ◌++◌, Option, none,
  some, Str, map, take, sort, leb, ◌==◌, if◌then◌else◌, non_empty,
}
use pysqlsuggestions.Lex.Token.{Chars}
use pysqlsuggestions.Lex.Scan.{scan_while}
use pysqlsuggestions.Dialect.{Dialect}
use pysqlsuggestions.Quote.Defs.{quote_if_needed}
use pysqlsuggestions.Types.{keyword, operator, Request, Candidate, LetterCase, lowercase, is_kind}

-- The text and its stops, in visiting order.
pub record Rendered : Type 0 where
  pub text : Str
  pub stops : List ℕ

-- `int(digits)`.
unfoldable pub decimal : Chars → ℕ → Str → ℕ
decimal u n [] = n
decimal u n (c ∷ cs) = decimal u (n * 10 + u.decimal_value c) cs

-- What the loop over `_PLACEHOLDER.finditer` collects: the text written, and each mark with its offset.
pub record Expanded : Type 0 where
  pub written : Str
  pub marks : List (ℕ × ℕ)

-- The first number counts the characters of a placeholder still to be passed over, the second is
-- `written`.
unfoldable pub expand_from : Chars → ℕ → ℕ → Str → Expanded
expand_from u skip offset [] = record { written = []; marks = [] }
expand_from u (suc skip) offset (c ∷ cs) = expand_from u skip offset cs
expand_from u zero offset (c ∷ cs) =
    let digits = scan_while u.is_decimal cs 0 in
    let marked = expand_from u digits offset cs in
    let copied = expand_from u 0 (offset + 1) cs in
    if c == b'$' && not (digits == 0)
    then record marked { marks = (decimal u 0 (take digits cs), offset) ∷ marked.marks }
    else record copied { written = c ∷ copied.written }

-- The key `(mark == 0, mark)`: `$0` comes last.
abbrev pub visited_before : ℕ × ℕ → ℕ × ℕ → Bool
visited_before (m, o) (n, p) = if n == 0 then true else (if m == 0 then false else leb m n)

unfoldable pub expand_snippet : Chars → Str → Rendered
expand_snippet u snippet =
    let found = expand_from u 0 0 snippet in
    record { text = found.written; stops = map (λ m. m.1) (sort visited_before found.marks) }

abbrev pub is_lowercase : Option LetterCase → Bool
is_lowercase (some lowercase) = true
is_lowercase _ = false

-- `_typing_lowercase`.
unfoldable pub typing_lowercase : Request → Bool
typing_lowercase r = is_lowercase r.keyword_case

-- `'.'.join(parts)`.
unfoldable pub join_dots : List Str → Str
join_dots [] = []
join_dots (x ∷ []) = x
join_dots (x ∷ y ∷ xs) = x ++ (b'.' ∷ join_dots (y ∷ xs))

module _ (u : Chars) where
  abbrev pub plain : Str → Rendered
  plain text = record { text = text; stops = [] }

  -- `_render` for a candidate with no snippet.
  unfoldable pub render_name : Candidate → Request → Dialect → Rendered
  render_name c r d =
      if c.literal || is_kind c.kind operator
      then plain c.text
      else (if is_kind c.kind keyword
          then plain (if typing_lowercase r then u.lower c.text else u.upper c.text)
          else (if non_empty c.qualifier
              then plain (
                  join_dots (map (λ part. quote_if_needed u part d) c.qualifier)
                  ++ (b'.' ∷ quote_if_needed u c.text d))
              else plain (quote_if_needed u c.text d)))

  unfoldable pub render : Candidate → Request → Dialect → Rendered
  render c r d = elim c.snippet [
    | some body ↦ expand_snippet u (if typing_lowercase r then u.lower body else body)
    | none ↦ render_name c r d
  ]
