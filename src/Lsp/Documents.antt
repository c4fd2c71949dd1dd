-- ===== src/Lsp/Documents.antt =====
-- lsp/pysqlsuggestions_lsp/documents.py: lines, positions and statements of a document.
use pysqlsuggestions.Prelude.{
  ℕ, zero, suc, ◌-◌, Bool, false, not, List, [], ◌∷◌, Option, none, some, Str, codes, take, drop,
  leb, ◌==◌, if◌then◌else◌,
}
use pysqlsuggestions.Lex.Token.{Chars, Syntax, Token}
use pysqlsuggestions.Analyse.Tokens.{is_mark}
use pysqlsuggestions.Lex.Step.{lex}

-- `text[start:end]`.
abbrev pub slice : ℕ → ℕ → Str → Str
slice start end text = take (end - start) (drop start text)

abbrev pub separates : Token → Bool
separates = is_mark (codes ";")

-- The loop of `statement_at`, from some token on.
unfoldable pub statement_from : Str → ℕ → ℕ → List Token → Str × ℕ
statement_from text offset start [] = (drop start text, start)
statement_from text offset start (t ∷ ts) =
    let same = statement_from text offset start ts in
    let next = statement_from text offset t.end ts in
    if not (separates t)
    then same
    else if leb offset t.start
    then (slice start t.start text, start)
    else next

unfoldable pub statement_at : Chars → Str → ℕ → Syntax → Option (Str × ℕ)
statement_at u text offset syntax = elim (lex u syntax text) [
  | none ↦ none
  | some tokens ↦ some (statement_from text offset 0 tokens)
]

-- `Lines`, the client's way of counting among its fields.
pub record Lines : Type 0 where
  pub text : Str
  pub starts : List ℕ
  pub units : Str → ℕ

-- The loop of `line_starts`. The start behind a carriage return is written when the next character is
-- known: `returned` says that one was read just before.
unfoldable pub starts_from : Bool → Str → ℕ → List ℕ
starts_from returned [] index = if returned then index ∷ [] else []
starts_from returned (c ∷ cs) index =
    let next = starts_from (c == b'\r') cs (suc index) in
    if c == b'\n' then suc index ∷ next else if returned then index ∷ next else next

unfoldable pub line_starts : Str → (Str → ℕ) → Lines
line_starts text units = record {
  text = text;
  starts = 0 ∷ starts_from false text 0;
  units = units;
}

-- `bisect_right`, on a list in ascending order.
unfoldable pub bisect_right : List ℕ → ℕ → ℕ
bisect_right [] x = 0
bisect_right (s ∷ ss) x = let rest = bisect_right ss x in if leb s x then suc rest else 0

-- `starts[i]`.
unfoldable pub start_at : List ℕ → ℕ → Option ℕ
start_at [] i = none
start_at (s ∷ ss) zero = some s
start_at (s ∷ ss) (suc i) = start_at ss i

-- The column, behind the start that was found.
unfoldable pub column : Lines → ℕ → ℕ → Option ℕ → Option (ℕ × ℕ)
column lines offset line none = none
column lines offset line (some start) = some (line, lines.units (slice start offset lines.text))

unfoldable pub to_position : Lines → ℕ → Option (ℕ × ℕ)
to_position lines offset =
    let line = bisect_right lines.starts offset - 1 in
    column lines offset line (start_at lines.starts line)
