-- ===== src/Tests/Ranking.antt =====
-- `rank` at concrete inputs.
use pysqlsuggestions.Prelude.{
  ◌↔◌, refl, starts_with, ℕ, ◌+◌, ◌-◌, ◌*◌, true, false, List, [], ◌∷◌, none, some, codes, leb, ◌≡◌,
  arith,
}
use pysqlsuggestions.Types.{
  keyword, is_kind, Kind, column, table, Availability, available, restricted, operand, Request,
  Candidate,
}
use pysqlsuggestions.Rank.Match.{Floats, IsOrdered}
use pysqlsuggestions.Rank.Match.{match_strength, word_strength, words, words_from, flush}
use pysqlsuggestions.Rank.Present.{matches}
use pysqlsuggestions.Rank.Accepts.{Finds, matches_iff}
use pysqlsuggestions.Rank.Defs.{at_most, prepare, finish_all, rank}
use pysqlsuggestions.Rank.Distinct.{no_twins, rank-no_twins}
use pysqlsuggestions.Rank.Sunk.{sinks, rank-sinks}
use pysqlsuggestions.Rank.Defs.{Suggestion}
use pysqlsuggestions.Rank.Limit.{cut, rank-cut}
use pysqlsuggestions.Tests.Ascii.{ascii, postgres}

-- Scores in tenths, counted from a base of 10 000.
abbrev scores : Floats
scores = record {
  Float = ℕ;
  tenths = λ n. n;
  count = λ n. n;
  add = λ x y. x + y;
  sub = λ x y. x - y;
  mul = λ x y. x * y;
  neg = λ x. 10000 - x;
  le = leb;
  round3 = λ x. x;
}

scores_total : (x y : ℕ) → leb x y ≡ false → leb y x ≡ true
scores_total x y h = ground arith

scores_trans : (x y z : ℕ) → leb x y ≡ true → leb y z ≡ true → leb x z ≡ true
scores_trans x y z h k = ground arith

scores-IsOrdered : IsOrdered scores
scores-IsOrdered = record { total = scores_total; trans = scores_trans }

abbrev request : Request
request = record {
  kinds = column ∷ table ∷ [];
  prefix = codes "na";
  replace_span = (7, 9);
  clause = some (codes "SELECT");
  scope = none;
  expecting = operand;
  continues = [];
  keyword_case = none;
  qualifier = [];
  comparand = [];
  comparand_type = none;
  item_words = [];
  statement = none;
  written = [];
  set_operation_tail = false;
  star = none;
  star_of = [];
  star_qualifier = none;
  writes_a_literal = false;
}

abbrev named : Kind → Availability → List ℕ → ℕ → Candidate
named k a text position = record {
  text = text;
  kind = k;
  detail = none;
  position = position;
  origin = codes "catalog";
  literal = false;
  column_type = none;
  takes_arguments = false;
  snippet = none;
  shown = none;
  match_text = none;
  qualifier = [];
  needs = [];
  note = none;
  span = none;
  availability = a;
  reason = none;
}

abbrev candidates : List Candidate
candidates =
    named column available (codes "id") 0
    ∷ named column restricted (codes "name") 1
    ∷ named column available (codes "name") 2
    ∷ named table available (codes "nations") 0
    ∷ []

rank-cut_example :
    rank ascii scores candidates request postgres (at_most 1)
    ≡ some (
        cut ascii scores scores-IsOrdered request postgres
          (at_most 1)
          (finish_all ascii scores request postgres (prepare ascii scores candidates request)))
rank-cut_example = rank-cut ascii scores scores-IsOrdered request postgres candidates (at_most 1)

-- By a word, but not where the name is a keyword.
items_found :
    (matches ascii scores (codes "order_items") (codes "item") column ≡ true)
    × (matches ascii scores (codes "order by") (codes "by") keyword ≡ false)
unfolding matches match_strength word_strength words words_from flush starts_with is_kind
items_found = (refl, refl)

matches_iff_example :
    (matches ascii scores (codes "order_items") (codes "item") column ≡ true)
    ↔ Finds ascii (codes "order_items") (codes "item") column
matches_iff_example = matches_iff ascii scores (codes "order_items") (codes "item") column

rank-no_twins_example :
    (found : List (Suggestion ℕ)) × (rank ascii scores candidates request postgres (at_most 3)
      ≡ some found)
    × (no_twins ascii scores found ≡ true)
rank-no_twins_example =
    rank-no_twins ascii scores scores-IsOrdered candidates request postgres (at_most 3)

rank-sinks_example :
    (found : List (Suggestion ℕ)) × (rank ascii scores candidates request postgres (at_most 3)
      ≡ some found)
    × (sinks ascii scores found ≡ true)
rank-sinks_example =
    rank-sinks ascii scores scores-IsOrdered candidates request postgres (at_most 3)
