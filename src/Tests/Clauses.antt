-- ===== src/Tests/Clauses.antt =====
-- `ClauseModel` at concrete inputs.
use pysqlsuggestions.Prelude.{
  true, false, List, [], ◌∷◌, none, some, codes, all, if◌then◌else◌, text_eq, has_text, or_else,
  ◌≡◌, ◌↔◌, ◌⊎◌, refl,
}
use mathlib.Core.List.{Memᴰ}
use pysqlsuggestions.Clauses.Model.{Clause, ClauseModel}
use pysqlsuggestions.Clauses.Defs.{
  clause_names, by_name, replace_from, extend, find_clause, get, without, wrong_form, admits,
  derived, offered, continuations, name_le, names, level_at, level_of,
}
use pysqlsuggestions.Caches.OrderedDict.{lookup, remove, assign}
use pysqlsuggestions.Local.Defs.{split_on}
use pysqlsuggestions.Rank.Defs.{text_le}
use pysqlsuggestions.Clauses.Extend.{find_last, get-extend}
use pysqlsuggestions.Clauses.Without.{get-without}
use pysqlsuggestions.Clauses.Offers.{Belongs, MayStand, continuations_iff}
use pysqlsuggestions.Tests.Ascii.{plain}

program : Unit {0}
unfolding text_eq lookup remove assign by_name replace_from extend find_clause get without
    wrong_form admits derived offered continuations name_le names level_at level_of split_on text_le
program = tt

abbrev small : ClauseModel
small = record {
  clauses =
      plain (codes "select") []
      ∷ plain (codes "from") (codes "select" ∷ [])
      ∷ plain (codes "order by") (codes "from" ∷ [])
      ∷ [];
}

-- A dialect's own ORDER BY, and a clause of its own.
abbrev own : List Clause
own =
    plain (codes "limit") (codes "from" ∷ codes "order by" ∷ [])
    ∷ plain (codes "order by") (codes "from" ∷ codes "select" ∷ [])
    ∷ []

-- The replaced clause keeps its place, the new one is last; the names are sorted longest first.
extended :
    (clause_names (extend small own).clauses
      ≡ codes "select" ∷ codes "from" ∷ codes "order by" ∷ codes "limit" ∷ [])
    × (names (extend small own)
        ≡ codes "order by" ∷ codes "select" ∷ codes "limit" ∷ codes "from" ∷ [])
    × (get (extend small own) (codes "order by")
        ≡ some (plain (codes "order by") (codes "from" ∷ codes "select" ∷ [])))
unfolding program
extended = (refl, refl, refl)

offers :
    (continuations (extend small own) (codes "from") none []
      ≡ codes "order by" ∷ codes "limit" ∷ [])
    × (continuations (extend small own) (codes "from") none (codes "limit" ∷ [])
        ≡ codes "order by" ∷ [])
    × (continuations small (codes "where") none [] ≡ [])
unfolding program
offers = (refl, refl, refl)

levels :
    (level_of (codes "schema" ∷ codes "table" ∷ []) 0 ≡ none)
    × (level_of (codes "schema" ∷ codes "table" ∷ []) 2 ≡ some (codes "table"))
    × (level_of (codes "schema" ∷ codes "table" ∷ []) 3 ≡ none)
unfolding program
levels = (refl, refl, refl)

get-extend_example :
    get (extend small own) (codes "limit")
    ≡ or_else (find_last own (codes "limit")) (get small (codes "limit"))
get-extend_example = get-extend small own (codes "limit")

get-without_example :
    ((without small (codes "from" ∷ []) ≡ none)
      × (all (has_text (clause_names small.clauses)) (codes "from" ∷ []) ≡ false))
    ⊎ ((left : ClauseModel) × (without small (codes "from" ∷ []) ≡ some left)
        × (all (has_text (clause_names small.clauses)) (codes "from" ∷ []) ≡ true)
        × (get left (codes "select") ≡ (
            if has_text (codes "from" ∷ []) (codes "select")
            then none
            else get small (codes "select"))))
get-without_example = get-without small (codes "from" ∷ []) (codes "select")

continuations_iff_example : Memᴰ (codes "order by") (continuations small (codes "from") none []) ↔ (
    (c : Clause) × (get small (codes "from") ≡ some c)
    × Belongs small (codes "from") c (codes "order by")
    × MayStand small none [] (codes "order by"))
continuations_iff_example = continuations_iff small (codes "from") none [] (codes "order by")
