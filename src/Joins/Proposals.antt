-- ===== src/Joins/Proposals.antt =====
-- engine/joins.py: the proposals are answered, with no exception, and each rests on one constraint.
use pysqlsuggestions.Prelude.{
  ℕ, ◌==◌, true, List, [], ◌∷◌, Option, none, some, Str, keep, length, leb, non_empty, not, ◌||◌,
  if◌then◌else◌, ◌≡◌, refl, inl, inr, Bool-cases, Option-cases, arith,
}
use mathlib.Core.List.{Memᴰ}
use pysqlsuggestions.Lex.Token.{Chars}
use pysqlsuggestions.Dialect.{Dialect}
use pysqlsuggestions.Types.{
  ForeignKey, Scope, scope_relations, Relation, relation_path, in_catalog, Candidate, last,
}
use pysqlsuggestions.Joins.Defs.{Link, map_option, split_path, catalog_relations}
use pysqlsuggestions.Joins.Text.{referring, fk_column}
use pysqlsuggestions.Joins.Pairs.{Pairs}
use pysqlsuggestions.Joins.Described.{IsLink, from_source, from_target}
use pysqlsuggestions.Joins.Links.{listed, links-listed, listed_iff}
use pysqlsuggestions.Joins.Clauses.{
  column_of, but_last, leads_to, condition_candidate, conditions_between, conditions_in,
  join_conditions, column_candidate, condition_columns,
}
use pysqlsuggestions.Prelude.Occurs.{keep-Mem}
use pysqlsuggestions.Joins.Each.{Answers, for_each-Answers}

-- A link of a relation has a first pair.
IsLink-non_empty :
    (source : Str × Str) (e : ForeignKey) (l : Link) → IsLink source e l → non_empty l.pairs ≡ true
unfolding Pairs
IsLink-non_empty source e l (from_source name reach pairs whole) = pairs.2
IsLink-non_empty source e l (from_target away name reach pairs whole) = pairs.2

listed-non_empty :
    (source : Str × Str) (edges : List ForeignKey) (l : Link)
    → Memᴰ l (listed source edges)
    → non_empty l.pairs ≡ true
listed-non_empty source edges l m =
    let found = (listed_iff source edges l).0 m in IsLink-non_empty source (found.0) l (found.2)

map_option-Answers :
    {A B : Type 0} (f : A → B) (o : Option A) → Answers o → Answers (map_option f o)
unfolding Answers
map_option-Answers f o h = (f (h.0), rw (h.1) refl)

referring-Answers : (n : ℕ) (ps : List (Str × Str)) → non_empty ps ≡ true → Answers (referring n ps)
unfolding Answers referring
referring-Answers n [] h = absurd (ground (arith, h))
referring-Answers n (p ∷ ps) h = (if n == 0 then p.0 else p.1, refl)

condition_candidate-Answers :
    (u : Chars) (d : Dialect) (earlier latest : Relation) (l : Link)
    → non_empty l.pairs ≡ true
    → Answers (condition_candidate u d earlier latest l)
unfolding condition_candidate fk_column
condition_candidate-Answers u d earlier latest l h =
    map_option-Answers _ (referring l.direction l.pairs) (referring-Answers l.direction l.pairs h)

column_of-Answers :
    (u : Chars) (d : Dialect) (l : Link) (ps : List (Str × Str))
    → non_empty ps ≡ true
    → Answers (column_of u d l ps)
unfolding Answers column_of
column_of-Answers u d l [] h = absurd (ground (arith, h))
column_of-Answers u d l (p ∷ ps) h = (_, refl)

column_candidate-Answers :
    (u : Chars) (d : Dialect) (l : Link)
    → non_empty l.pairs ≡ true
    → Answers (column_candidate u d l)
unfolding column_candidate
column_candidate-Answers u d l h = column_of-Answers u d l l.pairs h

conditions_between-Answers :
    (u : Chars) (d : Dialect) (edges : List ForeignKey) (latest earlier : Relation)
    → Answers (conditions_between u d edges latest earlier)
unfolding conditions_between
conditions_between-Answers u d edges latest earlier =
    let source = split_path (relation_path earlier) in
    let leads = leads_to (split_path (relation_path latest)) in
    rw (links-listed source edges) (
      for_each-Answers (condition_candidate u d earlier latest) (keep leads (listed source edges))
        (λ l m.
          condition_candidate-Answers u d earlier latest l
            (listed-non_empty source edges l (keep-Mem leads (listed source edges) l m).0)))

-- `condition_columns` answers for every relation and all constraints: none of them makes `zip`
-- raise, with sides of whatever lengths, and the first pair that is read is there.
pub condition_columns-some :
    (u : Chars) (r : Relation) (edges : List ForeignKey) (d : Dialect)
    → (found : List Candidate) × (condition_columns u r edges d ≡ some found)
unfolding condition_columns Answers
condition_columns-some u r edges d =
    let source = split_path (relation_path r) in
    let answer =
      for_each-Answers (column_candidate u d) (listed source edges)
        (λ l m. column_candidate-Answers u d l (listed-non_empty source edges l m)) in
    elim (Bool-cases (not (in_catalog r) || not (non_empty (relation_path r)))) [
      | inl e ↦ ([], rw (e, condition_columns) refl)
      | inr e ↦ (answer.0, rw (e, condition_columns, links-listed source edges) (answer.1))
    ]

conditions_in-Answers :
    (u : Chars) (edges : List ForeignKey) (d : Dialect) (s : Scope) (latest : Relation)
    → Answers (conditions_in u edges d s latest)
unfolding Answers conditions_in
conditions_in-Answers u edges d s latest =
    let listed =
      for_each-Answers (conditions_between u d edges latest) (but_last (catalog_relations s))
        (λ r m. conditions_between-Answers u d edges latest r) in
    elim (Bool-cases (not (in_catalog latest))) [
      | inl e ↦ ([], rw (e, conditions_in) refl)
      | inr e ↦ (listed.0, rw (e, conditions_in) (listed.1))
    ]

last-absent : (x : Relation) (xs : List Relation) → last (x ∷ xs) ≡ none → ⊥
last-absent x [] h = absurd (ground (arith, h))
last-absent x (y ∷ ys) h = last-absent y ys h

last-short : (xs : List Relation) → last xs ≡ none → leb (length xs) 1 ≡ true
last-short [] h = refl
last-short (x ∷ xs) h = absurd (last-absent x xs h)

-- `join_conditions` answers for every scope and all constraints: no constraint makes `zip` raise, with
-- sides of whatever lengths, `relations[-1]` is there, and so is the first pair.
pub join_conditions-some :
    (u : Chars) (scope : Option Scope) (edges : List ForeignKey) (d : Dialect)
    → (found : List Candidate) × (join_conditions u scope edges d ≡ some found)
unfolding join_conditions Answers
join_conditions-some u none edges d = ([], refl)
join_conditions-some u (some s) edges d = elim (Bool-cases (leb (length (scope_relations s)) 1)) [
  | inl e ↦ ([], rw e refl)
  | inr e ↦ elim (Option-cases (last (scope_relations s))) [
    | inl absent ↦
        let short = last-short (scope_relations s) absent in absurd (ground (arith, e, short))
    | inr (latest, f) ↦
        let listed = conditions_in-Answers u edges d s latest in (listed.0, rw (e, f) (listed.1))
  ]
]
