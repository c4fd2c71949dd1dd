-- ===== src/Joins/Clauses.antt =====
-- engine/joins.py: the three lists of proposals; `none` is an exception or the lack of fuel.
use pysqlsuggestions.Prelude.{
  Bool, not, ◌&&◌, ◌||◌, List, [], ◌∷◌, ◌++◌, Option, none, some, Str, codes, length, keep, any,
  map, leb, if◌then◌else◌, text_eq, non_empty,
}
use pysqlsuggestions.Lex.Token.{Chars}
use pysqlsuggestions.Dialect.{Dialect}
use pysqlsuggestions.Quote.Defs.{quote_if_needed}
use pysqlsuggestions.Types.{
  join, available, restricted, ForeignKey, Scope, scope_relations, visible, Relation, relation_path,
  in_catalog, label, declared_name, Candidate, plain_candidate, last,
}
use pysqlsuggestions.Joins.Defs.{
  Link, map_option, no_privilege, split_path, same_schema, links, catalog_relations,
}
use pysqlsuggestions.Joins.Text.{note, fk_column, free_alias, condition, reference}

unfoldable pub is_withheld : List (Str × Str) → Link → Bool
is_withheld pairs l = any (λ p. text_eq (p.0) l.target_schema && text_eq (p.1) l.target) pairs

unfoldable pub clause_text : Chars → Dialect → Relation → Str × Str → Link → Str → Str
clause_text u d r source l alias =
    reference u d (source.0) l.source_schema l.target_schema l.target
    ++ (codes " " ++ (alias ++ (codes " ON " ++ condition u d (label r) alias l.pairs)))

-- `_clause_candidate`, behind the choice of the alias.
unfoldable pub clause_with :
    Chars → Dialect → Relation → Str × Str → List (Str × Str) → Link → Str → Candidate
clause_with u d r source withheld l alias =
    record (plain_candidate (clause_text u d r source l alias) join) {
      detail = some (codes "joins " ++ declared_name r);
      position = l.direction;
      snippet = some (clause_text u d r source l alias);
      match_text = some l.target;
      note = some (note l);
      availability = if is_withheld withheld l then restricted else available;
      reason = if is_withheld withheld l then some no_privilege else none;
    }

abbrev pub both : {A : Type 0} → Option (List A) → Option (List A) → Option (List A)
both none ys = none
both (some xs) none = none
both (some xs) (some ys) = some (xs ++ ys)

-- The lists that a body gives for each element, joined, where none of them fails.
abbrev pub for_each : {A B : Type 0} → (A → Option (List B)) → List A → Option (List B)
for_each f [] = some []
for_each f (x ∷ xs) = both (f x) (for_each f xs)

-- For each element of a list that may have failed.
abbrev pub for_each_of : {A B : Type 0} → (A → Option (List B)) → Option (List A) → Option (List B)
for_each_of f none = none
for_each_of f (some xs) = for_each f xs

abbrev pub one : {A : Type 0} → A → List A
one a = a ∷ []

unfoldable pub clause_candidate :
    Chars
    → Dialect
    → Relation
    → Str × Str
    → List (Str × Str)
    → List Str
    → Link
    → Option (List Candidate)
clause_candidate u d r source withheld taken l =
    map_option (λ alias. one (clause_with u d r source withheld l alias))
      (free_alias u d l.target taken)

unfoldable pub taken_labels : Chars → Scope → List Str
taken_labels u s = map u.lower (keep non_empty (map label (visible s)))

unfoldable pub joins_of :
    Chars
    → Dialect
    → List ForeignKey
    → List (Str × Str)
    → List Str
    → Relation
    → Option (List Candidate)
joins_of u d edges withheld taken r =
    let source = split_path (relation_path r) in
    for_each_of (clause_candidate u d r source withheld taken) (links source edges)

unfoldable pub relation_joins :
    Chars → Option Scope → List ForeignKey → Dialect → List (Str × Str) → Option (List Candidate)
relation_joins u none edges d withheld = some []
relation_joins u (some s) edges d withheld =
    for_each (joins_of u d edges withheld (taken_labels u s)) (catalog_relations s)

-- `link[2] != target[1] or not …`, the other way round.
abbrev pub leads_to : Str × Str → Link → Bool
leads_to target l = text_eq l.target (target.1) && same_schema (target.0) l.target_schema

unfoldable pub condition_candidate :
    Chars → Dialect → Relation → Relation → Link → Option (List Candidate)
condition_candidate u d earlier latest l =
    let text = condition u d (label earlier) (label latest) l.pairs in
    map_option
      (λ matched. one (record (plain_candidate text join) {
        detail = some (codes "joins " ++ declared_name earlier);
        position = l.direction;
        snippet = some text;
        match_text = some matched;
        note = some (note l);
      }))
      (fk_column l)

unfoldable pub conditions_between :
    Chars → Dialect → List ForeignKey → Relation → Relation → Option (List Candidate)
conditions_between u d edges latest earlier = for_each_of (condition_candidate u d earlier latest) (
    map_option (keep (leads_to (split_path (relation_path latest))))
      (links (split_path (relation_path earlier)) edges))

-- `items[:-1]`.
abbrev pub but_last : {A : Type 0} → List A → List A
but_last [] = []
but_last (x ∷ []) = []
but_last (x ∷ y ∷ ys) = x ∷ but_last (y ∷ ys)

unfoldable pub conditions_in :
    Chars → List ForeignKey → Dialect → Scope → Relation → Option (List Candidate)
conditions_in u edges d s latest =
    if not (in_catalog latest)
    then some []
    else for_each (conditions_between u d edges latest) (but_last (catalog_relations s))

unfoldable pub join_conditions :
    Chars → Option Scope → List ForeignKey → Dialect → Option (List Candidate)
join_conditions u none edges d = some []
join_conditions u (some s) edges d =
    if leb (length (scope_relations s)) 1 then some [] else elim (last (scope_relations s)) [
      | none ↦ none
      | some latest ↦ conditions_in u edges d s latest
    ]

-- The column on the near side of the first pair.
unfoldable pub column_of : Chars → Dialect → Link → List (Str × Str) → Option (List Candidate)
column_of u d l [] = none
column_of u d l (p ∷ ps) = some (
    one (record (plain_candidate (p.0) join) {
      detail = some (codes "joins " ++ l.target);
      position = l.direction;
      snippet = some (quote_if_needed u (p.0) d);
      match_text = some (p.0);
      note = some (note l);
    }))

unfoldable pub column_candidate : Chars → Dialect → Link → Option (List Candidate)
column_candidate u d l = column_of u d l l.pairs

unfoldable pub condition_columns :
    Chars → Relation → List ForeignKey → Dialect → Option (List Candidate)
condition_columns u r edges d =
    if not (in_catalog r) || not (non_empty (relation_path r))
    then some []
    else for_each_of (column_candidate u d) (links (split_path (relation_path r)) edges)
