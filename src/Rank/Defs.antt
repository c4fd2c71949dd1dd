-- ===== src/Rank/Defs.antt =====
-- engine/rank.py: `rank`, with its shortlist, its order and the removal of duplicates.
use pysqlsuggestions.Prelude.{
  ℕ, zero, suc, ◌+◌, ◌*◌, Bool, true, false, ◌&&◌, ◌||◌, List, [], ◌∷◌, Option, none, some, Str,
  codes, map, any, length, take, keep, sort, leb, ◌==◌, if◌then◌else◌, text_eq,
}
use Prim.Native.Nat.{min, max}
use pysqlsuggestions.Lex.Token.{Chars}
use pysqlsuggestions.Dialect.{Dialect}
use pysqlsuggestions.Types.{
  Kind, join, is_kind, Availability, restricted, available, unknown, Request, Candidate, alias_or,
}
use pysqlsuggestions.Rank.Match.{Floats, match_strength, kind_bonus}
use pysqlsuggestions.Rank.Render.{render}

pub record Suggestion (F : Type 0) : Type 0 where
  pub text : Str
  pub kind : Kind
  pub replace_span : ℕ × ℕ
  pub score : F
  pub detail : Option Str
  pub takes_arguments : Bool
  pub stops : List ℕ
  pub shown : Option Str
  pub needs : List Str
  pub note : Option Str
  pub availability : Availability
  pub reason : Option Str

-- A tuple `_Scored`.
pub record Scored (F : Type 0) : Type 0 where
  pub restricted : ℕ
  pub negated : F
  pub size : ℕ
  pub score : F
  pub candidate : Candidate

-- A row of `scored` in `_finish`: the sort key, and the suggestion.
pub record Row (F : Type 0) : Type 0 where
  pub restricted : ℕ
  pub negated : F
  pub size : ℕ
  pub lowered : Str
  pub suggestion : Suggestion F

-- `limit`, an integer or None.
pub data Limit : Type 0 where
  unlimited : Limit
  at_most : ℕ → Limit
  negative : ℕ → Limit

abbrev pub max_position_penalty : ℕ
max_position_penalty = 50

abbrev pub is_restricted : Availability → Bool
is_restricted restricted = true
is_restricted available = false
is_restricted unknown = false

-- Two tuples by their first elements and, where these are equal, by the rest.
abbrev pub then_by {ℓ} : {A : Type ℓ} → (A → A → Bool) → A → A → Bool → Bool
then_by le x y rest = le x y && (if le y x then rest else true)

-- `<=` on strings.
unfoldable pub text_le : Str → Str → Bool
text_le [] ys = true
text_le (x ∷ xs) [] = false
text_le (x ∷ xs) (y ∷ ys) = let rest = text_le xs ys in then_by leb x y rest

module _ (u : Chars) (f : Floats) where
  open f use {Float, tenths, count, add, sub, mul, neg, le, round3}

  -- The score from the strength, in the order of the code's additions.
  unfoldable pub score_of : Candidate → Request → Float → Float
  score_of c r strength =
      let related = add strength (kind_bonus u f c.kind r.kinds) in
      let placed = sub related (mul (count (min c.position max_position_penalty)) (tenths 1)) in
      let owned = if text_eq c.origin (codes "local") then add placed (tenths 300) else placed in
      if is_kind c.kind join then add owned (tenths 120) else owned

  -- `match_text or label or text`.
  abbrev pub hunted : Candidate → Str
  hunted c = alias_or c.match_text (alias_or c.shown c.text)

  unfoldable pub scored_row : Candidate → Request → Float → Scored Float
  scored_row c r strength =
      let score = score_of c r strength in
      record {
        restricted = if is_restricted c.availability then 1 else 0;
        negated = neg score;
        size = length c.text;
        score = score;
        candidate = c;
      }

  -- The loop that fills `prepared`.
  unfoldable pub prepare : List Candidate → Request → List (Scored Float)
  prepare [] r = []
  prepare (c ∷ cs) r = elim (match_strength u f (hunted c) r.prefix c.kind) [
    | none ↦ prepare cs r
    | some strength ↦ scored_row c r strength ∷ prepare cs r
  ]

  -- `_order(x) <= _order(y)`.
  unfoldable pub order_le : Scored Float → Scored Float → Bool
  order_le x y =
      then_by leb x.restricted y.restricted (then_by le x.negated y.negated (leb x.size y.size))

  -- `x` stands before a later `y` in a stable sort by the whole key.
  unfoldable pub row_le : Row Float → Row Float → Bool
  row_le x y =
      then_by leb x.restricted y.restricted
        (then_by le x.negated y.negated (then_by leb x.size y.size (text_le x.lowered y.lowered)))

  -- The last of the rows.
  unfoldable pub last_of : List (Scored Float) → Option (Scored Float)
  last_of [] = none
  last_of (x ∷ []) = some x
  last_of (x ∷ y ∷ xs) = last_of (y ∷ xs)

  -- `_shortlist`; `nsmallest` is a sort that is cut.
  unfoldable pub shortlist : List (Scored Float) → ℕ → List (Scored Float)
  shortlist prepared take_n =
      if take_n == 0
      then []
      else (if leb (length prepared) take_n
          then prepared
          else (elim (last_of (take take_n (sort order_le prepared))) [
            | none ↦ []
            | some boundary ↦ keep (λ row. order_le row boundary) prepared
          ]))

  abbrev pub span_or : Option (ℕ × ℕ) → ℕ × ℕ → ℕ × ℕ
  span_or none other = other
  span_or (some s) other = s

  unfoldable pub finish_row : Request → Dialect → Scored Float → Row Float
  finish_row r d x =
      let c = x.candidate in
      let shown = render u c r d in
      record {
        restricted = x.restricted;
        negated = x.negated;
        size = x.size;
        lowered = u.lower shown.text;
        suggestion = record {
          text = shown.text;
          kind = c.kind;
          replace_span = span_or c.span r.replace_span;
          score = round3 x.score;
          detail = c.detail;
          takes_arguments = c.takes_arguments;
          stops = shown.stops;
          shown = c.shown;
          needs = c.needs;
          note = c.note;
          availability = c.availability;
          reason = c.reason;
        };
      }

  -- `key in seen`.
  unfoldable pub same_key : Suggestion Float → Suggestion Float → Bool
  same_key x y = is_kind x.kind y.kind && text_eq x.text y.text

  -- The loop over the sorted rows; the suggestions kept so far are those of `seen`.
  unfoldable pub dedupe : List (Suggestion Float) → List (Row Float) → List (Suggestion Float)
  dedupe seen [] = []
  dedupe seen (x ∷ rows) =
      let s = x.suggestion in
      let skipped = dedupe seen rows in
      let kept = s ∷ dedupe (s ∷ seen) rows in
      if any (λ y. same_key y s) seen then skipped else kept

  -- `_finish` before it cuts, and with its cut.
  unfoldable pub finish_all : Request → Dialect → List (Scored Float) → List (Suggestion Float)
  finish_all r d prepared = dedupe [] (sort row_le (map (finish_row r d) prepared))

  unfoldable pub finish :
      List (Scored Float) → Request → Dialect → Option ℕ → List (Suggestion Float)
  finish prepared r d none = finish_all r d prepared
  finish prepared r d (some limit) = take limit (finish_all r d prepared)

  -- The `while True` of `rank`, on fuel.
  unfoldable pub grow :
      ℕ → List (Scored Float) → Request → Dialect → ℕ → ℕ → Option (List (Suggestion Float))
  grow zero prepared r d wanted take_n = none
  grow (suc fuel) prepared r d wanted take_n =
      let short = shortlist prepared take_n in
      let found = finish short r d (some wanted) in
      let again = grow fuel prepared r d wanted (min (max (take_n * 4) 1) (length prepared)) in
      if leb wanted (length found) || leb (length prepared) (length short)
      then some found
      else again

  -- `rank` with a limit that is not None, clamped at 0.
  unfoldable pub rank_within :
      List (Scored Float) → Request → Dialect → ℕ → Option (List (Suggestion Float))
  rank_within prepared r d wanted = grow (length prepared + 2) prepared r d wanted wanted

  unfoldable pub rank :
      List Candidate → Request → Dialect → Limit → Option (List (Suggestion Float))
  rank candidates r d unlimited = some (finish (prepare candidates r) r d none)
  rank candidates r d (at_most n) = rank_within (prepare candidates r) r d n
  rank candidates r d (negative n) = rank_within (prepare candidates r) r d 0
