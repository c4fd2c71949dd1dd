-- ===== src/Joins/Defs.antt =====
-- engine/joins.py: the links of a relation; `none` is an exception.
use pysqlsuggestions.Prelude.{
  Option, none, some, ℕ, Bool, not, ◌&&◌, ◌||◌, List, [], ◌∷◌, ◌++◌, Str, codes, length, keep, map,
  ◌==◌, if◌then◌else◌, text_eq, non_empty,
}
use pysqlsuggestions.Types.{ForeignKey, Scope, scope_relations, Relation, relation_path, in_catalog}

-- A tuple `_Link`.
pub record Link : Type 0 where
  pub source_schema : Str
  pub target_schema : Str
  pub target : Str
  pub pairs : List (Str × Str)
  pub direction : ℕ

abbrev pub forward : ℕ
forward = 0

abbrev pub reverse : ℕ
reverse = 1

abbrev pub no_privilege : Str
no_privilege = codes "no SELECT privilege"

unfoldable pub split_path : List Str → Str × Str
split_path [] = ([], [])
split_path (x ∷ []) = ([], x)
split_path (x ∷ y ∷ []) = (x, y)
split_path (x ∷ y ∷ z ∷ zs) = split_path (y ∷ z ∷ zs)

unfoldable pub same_schema : Str → Str → Bool
same_schema named declared = not (non_empty named) || text_eq named declared

abbrev pub map_option : {A B : Type 0} → (A → B) → Option A → Option B
map_option f none = none
map_option f (some a) = some (f a)

-- `zip(…, strict=True)`; `none` is the ValueError of lists of different lengths.
unfoldable pub zip : {A B : Type 0} → List A → List B → Option (List (A × B))
zip [] [] = some []
zip (x ∷ xs) (y ∷ ys) = map_option (λ pairs. (x, y) ∷ pairs) (zip xs ys)
zip _ _ = none

abbrev pub flip : Str × Str → Str × Str
flip p = (p.1, p.0)

-- `not edge.columns or len(edge.columns) != len(edge.ref_columns)`.
unfoldable pub malformed : ForeignKey → Bool
malformed e = not (non_empty e.columns) || not (length e.columns == length e.ref_columns)

unfoldable pub forward_link : ForeignKey → List (Str × Str) → Link
forward_link e pairs = record {
  source_schema = e.schema;
  target_schema = e.ref_schema;
  target = e.ref_table;
  pairs = pairs;
  direction = forward;
}

unfoldable pub reverse_link : ForeignKey → List (Str × Str) → Link
reverse_link e pairs = record {
  source_schema = e.ref_schema;
  target_schema = e.schema;
  target = e.table;
  pairs = map flip pairs;
  direction = reverse;
}

abbrev pub at_source : Str × Str → ForeignKey → Bool
at_source source e = text_eq e.table source.1 && same_schema source.0 e.schema

abbrev pub at_target : Str × Str → ForeignKey → Bool
at_target source e = text_eq e.ref_table source.1 && same_schema source.0 e.ref_schema

-- The last tests of a round of the loop of `_links`, on the two lists.
unfoldable pub place_link :
    Str × Str → ForeignKey → List Link × List Link → List (Str × Str) → List Link × List Link
place_link source e found pairs =
    if at_source source e
    then (forward_link e pairs ∷ found.0, found.1)
    else (if at_target source e then (found.0, reverse_link e pairs ∷ found.1) else found)

-- One round; `none` is an exception.
unfoldable pub add_link :
    Str × Str → ForeignKey → List Link × List Link → Option (List Link × List Link)
add_link source e found =
    if malformed e
    then some found
    else map_option (place_link source e found) (zip e.columns e.ref_columns)

abbrev pub and_then : {A B : Type 0} → Option A → (A → Option B) → Option B
and_then none f = none
and_then (some a) f = f a

unfoldable pub collect_links : Str × Str → List ForeignKey → Option (List Link × List Link)
collect_links source [] = some ([], [])
collect_links source (e ∷ edges) = and_then (collect_links source edges) (add_link source e)

unfoldable pub links : Str × Str → List ForeignKey → Option (List Link)
links source edges = map_option (λ found. found.0 ++ found.1) (collect_links source edges)

unfoldable pub catalog_relations : Scope → List Relation
catalog_relations s = keep (λ r. in_catalog r && non_empty (relation_path r)) (scope_relations s)
