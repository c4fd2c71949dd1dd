-- ===== src/Clauses/Without.antt =====
-- dialects/base.py: what `without` leaves, and when it raises.
use pysqlsuggestions.Prelude.{
  true, false, not, List, [], ◌∷◌, none, some, Str, keep, all, if◌then◌else◌, text_eq, text_eq_iff,
  has_text, ◌≡◌, ◌⊎◌, refl, ap, inl, inr, Bool-cases, arith,
}
use pysqlsuggestions.Clauses.Model.{Clause, ClauseModel}
use pysqlsuggestions.Clauses.Defs.{clause_names, find_clause, get, without}

find_clause-keep :
    (q : Str) (dropped : List Str) (cs : List Clause)
    → find_clause (keep (λ c. not (has_text dropped c.name)) cs) q
      ≡ (if has_text dropped q then none else find_clause cs q)
unfolding find_clause
find_clause-keep q dropped [] = ground arith
find_clause-keep q dropped (c ∷ cs) = elim (Bool-cases (text_eq c.name q)) [
  | inl e ↦
      let same = ap (has_text dropped) ((text_eq_iff c.name q).0 e) in
      rw same (ground (arith, e, find_clause-keep q dropped cs))
  | inr e ↦ elim (Bool-cases (has_text dropped c.name)) [
    | inl t ↦ rw (t, e) (find_clause-keep q dropped cs)
    | inr f ↦ rw (f, e) (find_clause-keep q dropped cs)
  ]
]

-- What `without` leaves of a model: the names dropped are no clauses any more, every other name has the
-- clause that it had, and all the names dropped were clauses before. With one that was none it raises.
pub get-without :
    (m : ClauseModel) (dropped : List Str) (q : Str)
    → ((without m dropped ≡ none) × (all (has_text (clause_names m.clauses)) dropped ≡ false))
      ⊎ ((left : ClauseModel) × (without m dropped ≡ some left)
          × (all (has_text (clause_names m.clauses)) dropped ≡ true)
          × (get left q ≡ (if has_text dropped q then none else get m q)))
unfolding get without
get-without m dropped q = elim (Bool-cases (all (has_text (clause_names m.clauses)) dropped)) [
  | inl e ↦ inr (
    record { clauses = keep (λ c. not (has_text dropped c.name)) m.clauses },
    rw (e, without) refl,
    e,
    find_clause-keep q dropped m.clauses,
  )
  | inr e ↦ inl (rw (e, without) refl, e)
]
