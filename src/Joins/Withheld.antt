-- ===== src/Joins/Withheld.antt =====
-- engine/joins.py: what a missing privilege changes in the clauses for `JOIN`.
use pysqlsuggestions.Prelude.{List, [], ◌∷◌, ◌++◌, Option, none, some, Str, map, ◌≡◌, refl, ap, sym}
use mathlib.Core.List.{map-append}
use pysqlsuggestions.Lex.Token.{Chars}
use pysqlsuggestions.Dialect.{Dialect}
use pysqlsuggestions.Types.{
  available, ForeignKey, Scope, Relation, relation_path, Candidate, plain_candidate,
}
use pysqlsuggestions.Joins.Defs.{Link, split_path, catalog_relations}
use pysqlsuggestions.Joins.Links.{listed, links-listed}
use pysqlsuggestions.Joins.FreeAlias.{free_alias-some}
use pysqlsuggestions.Joins.Clauses.{
  for_each, both, clause_candidate, clause_with, is_withheld, joins_of, taken_labels,
  relation_joins,
}

-- The candidate as one that the role may run.
unfoldable pub granted : Candidate → Candidate
granted c = record c { availability = available; reason = none }

-- Both give an answer, and the answers differ in the availability and its reason alone.
Twin : Option (List Candidate) → Option (List Candidate) → Type 0
Twin o p = (found : List Candidate) × (o ≡ some found) × (p ≡ some (map granted found))

both-Twin :
    (o p o' p' : Option (List Candidate)) → Twin o p → Twin o' p' → Twin (both o o') (both p p')
unfolding Twin
both-Twin o p o' p' h k =
    (h.0 ++ k.0, rw (h.1, k.1) refl, rw (h.2, k.2) (ap some (sym (map-append granted (h.0) (k.0)))))

for_each-Twin :
    {A : Type 0} (f g : A → Option (List Candidate)) (xs : List A)
    → ((x : A) → Twin (f x) (g x))
    → Twin (for_each f xs) (for_each g xs)
unfolding Twin
for_each-Twin f g [] h = ([], refl, refl)
for_each-Twin f g (x ∷ xs) h =
    both-Twin (f x) (g x) (for_each f xs) (for_each g xs) (h x) (for_each-Twin f g xs h)

clause_candidate-Twin :
    (u : Chars) (d : Dialect) (r : Relation) (source : Str × Str) (withheld : List (Str × Str))
    (taken : List Str) (l : Link)
    → Twin
        (clause_candidate u d r source withheld taken l)
        (clause_candidate u d r source [] taken l)
unfolding Twin clause_candidate clause_with is_withheld granted plain_candidate
clause_candidate-Twin u d r source withheld taken l =
    let chosen = free_alias-some u d l.target taken in
    (clause_with u d r source withheld l (chosen.0) ∷ [], rw (chosen.1) refl, rw (chosen.1) refl)

-- `relation_joins` answers for every scope and all constraints. Without the set of relations that
-- the role may not read it gives the same candidates in the same order, each of them available and
-- without a reason: a missing privilege never drops or rewrites a join.
pub relation_joins-granted :
    (u : Chars) (scope : Option Scope) (edges : List ForeignKey) (d : Dialect)
    (withheld : List (Str × Str))
    → (found : List Candidate) × (relation_joins u scope edges d withheld ≡ some found)
      × (relation_joins u scope edges d [] ≡ some (map granted found))
unfolding relation_joins joins_of Twin
relation_joins-granted u none edges d withheld = ([], refl, refl)
relation_joins-granted u (some s) edges d withheld =
    for_each-Twin (joins_of u d edges withheld (taken_labels u s))
      (joins_of u d edges [] (taken_labels u s)) (catalog_relations s)
      (λ r.
        let source = split_path (relation_path r) in
        rw (links-listed source edges) (
          for_each-Twin (clause_candidate u d r source withheld (taken_labels u s))
            (clause_candidate u d r source [] (taken_labels u s)) (listed source edges)
            (clause_candidate-Twin u d r source withheld (taken_labels u s))))
