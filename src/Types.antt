-- ===== src/Types.antt =====
-- types.py: the value types that the engine's stages pass on.
use pysqlsuggestions.Prelude.{
  ℕ, Bool, true, false, List, [], ◌∷◌, ◌++◌, Option, none, some, Str, ◌==◌, codes,
}

-- `enum Kind`.
pub data Kind : Type 0 where
  column table cte sequence schema function procedure alias keyword operator : Kind
  type snippet value join expansion : Kind

-- The place of the member in the enumeration, by which members are told apart.
abbrev pub kind_index : Kind → ℕ
kind_index column = 0
kind_index table = 1
kind_index cte = 2
kind_index sequence = 3
kind_index schema = 4
kind_index function = 5
kind_index procedure = 6
kind_index alias = 7
kind_index keyword = 8
kind_index operator = 9
kind_index type = 10
kind_index snippet = 11
kind_index value = 12
kind_index join = 13
kind_index expansion = 14

-- `kind is …`.
unfoldable pub is_kind : Kind → Kind → Bool
is_kind k l = kind_index k == kind_index l

-- `enum Availability`.
pub data Availability : Type 0 where
  available restricted unknown : Availability

pub record ForeignKey : Type 0 where
  pub schema : Str
  pub table : Str
  pub columns : List Str
  pub ref_schema : Str
  pub ref_table : Str
  pub ref_columns : List Str

-- `Relation.source`.
pub data Source : Type 0 where
  from_table from_cte from_subquery : Source

-- `Projection` and `Relation`, with the list and the option that they nest in.
mutual
  pub data Projection : Type 0 where
    projection : List Str → Relations → Projection

  pub data Relation : Type 0 where
    relation : Option Str → List Str → Source → Projected → Relation

  pub data Relations : Type 0 where
    no_more : Relations
    more : Relation → Relations → Relations

  pub data Projected : Type 0 where
    catalogued : Projected
    described : Projection → Projected

unfoldable pub relation_alias : Relation → Option Str
relation_alias (relation a p s d) = a

unfoldable pub relation_path : Relation → List Str
relation_path (relation a p s d) = p

-- `relation.projection is None`.
unfoldable pub in_catalog : Relation → Bool
in_catalog (relation a p s catalogued) = true
in_catalog (relation a p s (described q)) = false

unfoldable pub projection_columns : Projection → List Str
projection_columns (projection columns stars) = columns

-- `path[-1] if path else default`.
unfoldable pub last_or : Str → List Str → Str
last_or default [] = default
last_or default (x ∷ xs) = last_or x xs

-- `alias or …`: an absent alias and an empty one give way.
abbrev pub alias_or : Option Str → Str → Str
alias_or none other = other
alias_or (some []) other = other
alias_or (some (c ∷ cs)) other = c ∷ cs

-- `Relation.label`.
unfoldable pub label : Relation → Str
label r = alias_or (relation_alias r) (last_or [] (relation_path r))

-- `Relation.declared_name`.
unfoldable pub declared_name : Relation → Str
declared_name r = last_or (alias_or (relation_alias r) []) (relation_path r)

-- `Scope`; a root has no parent.
pub data Scope : Type 0 where
  root : List Relation → List (Str × Relation) → Option Projection → Scope
  inner : List Relation → List (Str × Relation) → Scope → Option Projection → Scope

unfoldable pub scope_relations : Scope → List Relation
scope_relations (root rs cs p) = rs
scope_relations (inner rs cs s p) = rs

unfoldable pub scope_projection : Scope → Option Projection
scope_projection (root rs cs p) = p
scope_projection (inner rs cs s p) = p

-- `Scope.visible`.
unfoldable pub visible : Scope → List Relation
visible (root rs cs p) = rs ++ []
visible (inner rs cs s p) = rs ++ visible s

pub data Expecting : Type 0 where
  operand an_operator connective a_type an_alias : Expecting

pub data LetterCase : Type 0 where
  lowercase uppercase : LetterCase

pub record Request : Type 0 where
  pub kinds : List Kind
  pub prefix : Str
  pub replace_span : ℕ × ℕ
  pub clause : Option Str
  pub scope : Option Scope
  pub expecting : Expecting
  pub continues : List Str
  pub keyword_case : Option LetterCase
  pub qualifier : List Str
  pub comparand : List Str
  pub comparand_type : Option Str
  pub item_words : List Str
  pub statement : Option Str
  pub written : List Str
  pub set_operation_tail : Bool
  pub star : Option (ℕ × ℕ)
  pub star_of : List Relation
  pub star_qualifier : Option Str
  pub writes_a_literal : Bool

-- `Request(kinds=…, prefix=…, replace_span=…, clause=…, scope=…)`, with the defaults of the other fields.
unfoldable pub plain_request : List Kind → Str → ℕ × ℕ → Option Str → Option Scope → Request
plain_request kinds prefix span clause scope = record {
  kinds = kinds;
  prefix = prefix;
  replace_span = span;
  clause = clause;
  scope = scope;
  expecting = operand;
  continues = [];
  keyword_case = none;
  qualifier = [];
  comparand = [];
  comparand_type = none;
  item_words = [];
  statement = none;
  written = [];
  set_operation_tail = false;
  star = none;
  star_of = [];
  star_qualifier = none;
  writes_a_literal = false;
}

pub record Candidate : Type 0 where
  pub text : Str
  pub kind : Kind
  pub detail : Option Str
  pub position : ℕ
  pub origin : Str
  pub literal : Bool
  pub column_type : Option Str
  pub takes_arguments : Bool
  pub snippet : Option Str
  pub shown : Option Str
  pub match_text : Option Str
  pub qualifier : List Str
  pub needs : List Str
  pub note : Option Str
  pub span : Option (ℕ × ℕ)
  pub availability : Availability
  pub reason : Option Str

-- `Candidate(text=…, kind=…)`, with the defaults of the other fields.
unfoldable pub plain_candidate : Str → Kind → Candidate
plain_candidate text kind = record {
  text = text;
  kind = kind;
  detail = none;
  position = 0;
  origin = codes "catalog";
  literal = false;
  column_type = none;
  takes_arguments = false;
  snippet = none;
  shown = none;
  match_text = none;
  qualifier = [];
  needs = [];
  note = none;
  span = none;
  availability = available;
  reason = none;
}

-- `items[-1]`, or nothing where there is none.
abbrev pub last {ℓ} : {A : Type ℓ} → List A → Option A
last [] = none
last (x ∷ []) = some x
last (x ∷ y ∷ ys) = last (y ∷ ys)
