-- ===== src/Clauses/Defs.antt =====
-- dialects/base.py: the methods of `ClauseModel` and `Namespace`.
use pysqlsuggestions.Prelude.{
  ℕ, zero, suc, ◌-◌, Bool, true, false, not, ◌&&◌, ◌||◌, List, [], ◌∷◌, ◌++◌, Option, none, some,
  Str, length, map, keep, all, sort, leb, ltb, ◌==◌, if◌then◌else◌, text_eq, non_empty, has_text,
}
use pysqlsuggestions.Clauses.Model.{Clause, ClauseModel}
use pysqlsuggestions.Caches.OrderedDict.{lookup, remove, assign}
use pysqlsuggestions.Local.Defs.{split_on}
use pysqlsuggestions.Rank.Defs.{text_le}

-- `{clause.name: clause for clause in clauses}`, behind the entries that are there.
unfoldable pub by_name : List (Str × Clause) → List Clause → List (Str × Clause)
by_name entries [] = entries
by_name entries (c ∷ cs) = by_name (assign c.name c entries) cs

abbrev pub values : List (Str × Clause) → List Clause
values = map (λ e. e.1)

-- The clauses of `kept` and what is left of `added`.
unfoldable pub replace_from : List (Str × Clause) → List Clause → List Clause × List (Str × Clause)
replace_from added [] = ([], added)
replace_from added (c ∷ cs) =
    let later = replace_from (remove c.name added) cs in
    let same = replace_from added cs in
    elim (lookup c.name added) [ none ↦ (c ∷ same.0, same.1) | some new ↦ (new ∷ later.0, later.1) ]

unfoldable pub extend : ClauseModel → List Clause → ClauseModel
extend m added =
    let kept = replace_from (by_name [] added) m.clauses in
    record { clauses = kept.0 ++ values (kept.1) }

-- `ClauseModel.get`.
unfoldable pub find_clause : List Clause → Str → Option Clause
find_clause [] name = none
find_clause (c ∷ cs) name = if text_eq c.name name then some c else find_clause cs name

unfoldable pub get : ClauseModel → Str → Option Clause
get m name = find_clause m.clauses name

abbrev pub clause_names : List Clause → List Str
clause_names = map (λ (c : Clause). c.name)

-- `without`; `none` is the KeyError for a name that is no clause.
unfoldable pub without : ClauseModel → List Str → Option ClauseModel
without m dropped =
    if all (has_text (clause_names m.clauses)) dropped
    then some (record { clauses = keep (λ c. not (has_text dropped c.name)) m.clauses })
    else none

-- `statement is not None and statement not in …`, behind a set that is not empty.
unfoldable pub wrong_form : List Str → Option Str → Bool
wrong_form statements none = false
wrong_form statements (some statement) = non_empty statements && not (has_text statements statement)

unfoldable pub admits : ClauseModel → Option Str → List Str → Str → Bool
admits m statement used word = elim (get m word) [
  | none ↦ true
  | some found ↦
      if wrong_form found.statements statement
      then false
      else found.repeats || not (has_text used word)
]

-- `derived`, among some of the clauses.
unfoldable pub derived : Str → List Str → List Clause → List Str
derived name followed_by clauses =
    clause_names (keep (λ c. has_text c.follows name && not (has_text followed_by c.name)) clauses)

unfoldable pub offered : ClauseModel → Str → Clause → List Str
offered m name clause = clause.followed_by ++ derived name clause.followed_by m.clauses

unfoldable pub continuations : ClauseModel → Str → Option Str → List Str → List Str
continuations m name statement used = elim (get m name) [
  | none ↦ []
  | some clause ↦ keep (admits m statement used) (offered m name clause)
]

-- `len(n.split())`, of a name in which single spaces stand.
abbrev pub word_count : Str → ℕ
word_count name = length (keep non_empty (split_on b' ' name))

-- `(-len(a.split()), -len(a), a) <= (-len(b.split()), -len(b), b)`.
unfoldable pub name_le : Str → Str → Bool
name_le a b =
    if word_count a == word_count b
    then (if length a == length b then text_le a b else ltb (length b) (length a))
    else ltb (word_count b) (word_count a)

unfoldable pub names : ClauseModel → List Str
names m = sort name_le (clause_names m.clauses)

-- `levels[i]`.
unfoldable pub level_at : List Str → ℕ → Option Str
level_at [] i = none
level_at (l ∷ ls) zero = some l
level_at (l ∷ ls) (suc i) = level_at ls i

-- `Namespace.level_of`; a Namespace is its levels.
unfoldable pub level_of : List Str → ℕ → Option Str
level_of levels segments =
    if ltb 0 segments && leb segments (length levels) then level_at levels (segments - 1) else none
