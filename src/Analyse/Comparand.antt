-- ===== src/Analyse/Comparand.antt =====
-- engine/analyse.py: `comparand_at`, what stands left of the comparison that the caret completes.
use pysqlsuggestions.Prelude.{
  ℕ, Bool, true, false, not, ◌&&◌, ◌||◌, List, [], ◌∷◌, Option, none, some, Str, codes, leb,
  if◌then◌else◌,
}
use pysqlsuggestions.Lex.Token.{Chars, Token}
use pysqlsuggestions.Dialect.{Dialect}
use pysqlsuggestions.Analyse.Tokens.{
  Place, is_ident, is_string, in_skip, is_mark, index_before, skip_back,
}
use pysqlsuggestions.Analyse.Caret.{segments_back, reversed}
use pysqlsuggestions.Analyse.Calls.{casts}
use pysqlsuggestions.Analyse.Predicates.{compares, functional_cast_type}

-- The place before what is being typed, a string among it.
unfoldable pub before_typing : Place → ℕ → Place
before_typing [] caret = []
before_typing (t ∷ back) caret =
    if (is_ident t.type || is_string t.type) && leb caret t.end then back else t ∷ back

-- Back over dots, each with the name in front of it. A dot wants a name before it.
unfoldable pub strip_path : Bool → Place → Place
strip_path wants [] = []
strip_path wants (t ∷ back) =
    let further =
      strip_path (if in_skip t.type then wants else not (wants && is_ident t.type)) back in
    if in_skip t.type || (wants && is_ident t.type) || is_mark (codes ".") t
    then further
    else t ∷ back

-- `tokens[index].type is IDENT`, and the cast operator stands before it.
unfoldable pub cast_before : Dialect → Place → Bool
cast_before d [] = false
cast_before d (t ∷ back) = casts d.syntax.cast_operator t

module _ (u : Chars) (d : Dialect) where
  -- The left side, at its last token.
  unfoldable pub left_side : Place → List Str × Option Str
  left_side [] = ([], none)
  left_side (t ∷ back) =
      if is_ident t.type && cast_before d (skip_back back)
      then ([], some t.value)
      else elim (functional_cast_type u (t ∷ back)) [
        | some type ↦ ([], some type)
        | none ↦ (reversed (segments_back true (t ∷ back)), none)
      ]

  unfoldable pub left_of : Place → List Str × Option Str
  left_of [] = ([], none)
  left_of (t ∷ back) = if compares t then left_side (skip_back back) else ([], none)

  unfoldable pub comparand_at : List Token → ℕ → List Str × Option Str
  comparand_at tokens caret =
      left_of (strip_path false (before_typing (index_before tokens caret) caret))
