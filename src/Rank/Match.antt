-- ===== src/Rank/Match.antt =====
-- engine/rank.py: how well a candidate matches what was typed, and its score. Floats are a parameter:
-- a type with the operations that the code uses.
use pysqlsuggestions.Prelude.{
  ℕ, ◌+◌, ◌-◌, Bool, true, false, not, ◌&&◌, List, [], ◌∷◌, ◌++◌, Option, none, some, Str, codes,
  any, length, if◌then◌else◌, has_char, non_empty, starts_with, find_from, or_else, ◌≡◌,
}
use pysqlsuggestions.Lex.Token.{Chars}
use pysqlsuggestions.Types.{Kind, column, table, cte, keyword, join, is_kind}

-- `tenths n` is the literal n / 10, `count n` the float of the integer n.
pub record Floats : Type 1 where
  pub Float : Type 0
  pub tenths : ℕ → Float
  pub count : ℕ → Float
  pub add : Float → Float → Float
  pub sub : Float → Float → Float
  pub mul : Float → Float → Float
  pub neg : Float → Float
  pub le : Float → Float → Bool
  pub round3 : Float → Float

-- What IEEE 754 says of `<=` between numbers; no score is a NaN.
pub record IsOrdered (f : Floats) : Type 0 where
  pub total : (x y : f.Float) → f.le x y ≡ false → f.le y x ≡ true
  pub trans : (x y z : f.Float) → f.le x y ≡ true → f.le y z ≡ true → f.le x z ≡ true

-- `previous.islower()`, where nothing precedes the first character.
abbrev pub was_lower : Chars → Option ℕ → Bool
was_lower u none = false
was_lower u (some c) = u.is_lower c

-- `if current: words.append(''.join(current).lower())`, before the words that follow.
unfoldable pub flush : Chars → Str → List Str → List Str
flush u [] words = words
flush u (c ∷ cs) words = u.lower (c ∷ cs) ∷ words

-- The loop of `_words`, with its `current` and `previous`.
unfoldable pub words_from : Chars → Str → Option ℕ → Str → List Str
words_from u current previous [] = flush u current []
words_from u current previous (c ∷ cs) =
    let separated = flush u current (words_from u [] (some c) cs) in
    let humped = flush u current (words_from u (c ∷ []) (some c) cs) in
    let continued = words_from u (current ++ c ∷ []) (some c) cs in
    if has_char (codes "_$") c
    then separated
    else (if non_empty current && (was_lower u previous && u.is_upper c) then humped else continued)

unfoldable pub words : Chars → Str → List Str
words u text = words_from u [] none text

-- `''.join(word[0] for word in words)`; no word is empty.
unfoldable pub initials : List Str → Str
initials [] = []
initials ([] ∷ ws) = initials ws
initials ((c ∷ cs) ∷ ws) = c ∷ initials ws

module _ (u : Chars) (f : Floats) where
  open f use {Float, tenths, count, add, sub, mul}

  -- The fifth tier of `_match_strength`.
  unfoldable pub substring_strength : Str → Str → Option Float
  substring_strength lowered folded = elim (find_from folded lowered 0) [
    | none ↦ none
    | some found ↦ some (sub (tenths 250) (mul (count found) (tenths 5)))
  ]

  -- From `if kind is Kind.KEYWORD` on.
  unfoldable pub word_strength : Str → Str → Str → Kind → Option Float
  word_strength text folded lowered kind =
      if is_kind kind keyword
      then none
      else (if any (λ w. starts_with w folded) (words u text)
          then some (tenths 550)
          else (if starts_with (initials (words u text)) folded
              then some (tenths 400)
              else substring_strength lowered folded))

  unfoldable pub match_strength : Str → Str → Kind → Option Float
  match_strength text prefix kind =
      if not (non_empty prefix)
      then some (tenths 1000)
      else (if starts_with text prefix
          then some (tenths 1000)
          else (if starts_with (u.lower text) (u.lower prefix)
              then some (tenths 700)
              else word_strength text (u.lower prefix) (u.lower text) kind))

  -- `kind_rank.get(kind)` for `{kind: index for index, kind in enumerate(kinds)}`: the last index.
  unfoldable pub rank_from : ℕ → List Kind → Kind → Option ℕ
  rank_from i [] kind = none
  rank_from i (k ∷ ks) kind =
      or_else (rank_from (i + 1) ks kind) (if is_kind k kind then some i else none)

  -- The index that `_kind_bonus` ends with.
  unfoldable pub bonus_index : Kind → List Kind → Option ℕ
  bonus_index kind kinds = or_else (rank_from 0 kinds kind) (
      if is_kind kind cte
      then rank_from 0 kinds table
      else (if is_kind kind join
          then or_else (rank_from 0 kinds table) (rank_from 0 kinds column)
          else none))

  unfoldable pub kind_bonus : Kind → List Kind → Float
  kind_bonus kind kinds = elim (bonus_index kind kinds) [
    | none ↦ tenths 0
    | some index ↦ mul (count (length kinds - index)) (tenths 50)
  ]
