-- ===== src/Requests/Kinds.antt =====
-- engine/request.py: the kinds that a position admits.
use pysqlsuggestions.Prelude.{
  ◌+◌, Bool, true, false, not, ◌&&◌, ◌||◌, List, [], ◌∷◌, ◌++◌, Option, none, some, Str, codes,
  length, any, keep, ltb, non_empty, if◌then◌else◌, text_eq, has_text,
}
use pysqlsuggestions.Types.{
  Kind, Scope, root, inner, label, visible, scope_relations, Expecting, operand, an_operator,
  connective, a_type, an_alias, is_kind, column, table, schema, procedure, sequence, alias, keyword,
  operator, type, snippet, value, expansion,
}
use pysqlsuggestions.Clauses.Model.{Clause}
use pysqlsuggestions.Clauses.Defs.{get, continuations, level_of}
use pysqlsuggestions.Dialect.{Dialect}
use pysqlsuggestions.Analyse.Lists.{governing}

-- `_NOT_A_RELATION`.
abbrev pub not_a_relation : Kind → Bool
not_a_relation k = is_kind k procedure || is_kind k sequence

unfoldable pub namespace_kind : Str → Option Kind
namespace_kind level =
    if has_text (codes "schema" ∷ codes "database" ∷ codes "catalog" ∷ []) level
    then some schema
    else if text_eq level (codes "table")
    then some table
    else none

unfoldable pub is_operand : Expecting → Bool
is_operand operand = true
is_operand _ = false

unfoldable pub is_connective : Expecting → Bool
is_connective connective = true
is_connective _ = false

unfoldable pub expects_operator : Expecting → Bool
expects_operator an_operator = true
expects_operator _ = false

unfoldable pub expects_type : Expecting → Bool
expects_type a_type = true
expects_type _ = false

unfoldable pub expects_alias : Expecting → Bool
expects_alias an_alias = true
expects_alias _ = false

-- `_expansion_first`, with whether there is a star.
unfoldable pub expansion_first : Bool → List Kind
expansion_first star = if star then expansion ∷ [] else []

unfoldable pub values_first : List Str → Expecting → List Str → List Kind
values_first comparand expecting qualifier =
    if non_empty comparand && is_operand expecting && not (non_empty qualifier)
    then value ∷ []
    else []

unfoldable pub continued_kinds : List Str → Bool → List Kind → List Kind
continued_kinds [] only otherwise = otherwise
continued_kinds (w ∷ ws) only otherwise = if only then keyword ∷ [] else keyword ∷ otherwise

-- `scope and scope.relations`.
unfoldable pub has_relations : Option Scope → Bool
has_relations none = false
has_relations (some scope) = non_empty (scope_relations scope)

-- The kinds of a clause that is there.
unfoldable pub found_kinds : Dialect → Clause → Option Scope → Expecting → Bool → List Kind
found_kinds d found scope expecting inside_a_group =
    let kinds = found.suggests in
    if inside_a_group && any not_a_relation kinds
    then []
    else if not (non_empty (continuations d.clauses found.name none []))
    then kinds
    else if any (λ k. is_kind k table) kinds
    then if is_connective expecting
      then keyword ∷ []
      else if has_relations scope
      then kinds ++ keyword ∷ []
      else kinds
    else if is_operand expecting
    then kinds
    else if expects_operator expecting
    then operator ∷ keyword ∷ []
    else keyword ∷ []

-- Of a clause that is written.
unfoldable pub kinds_of_clause : Dialect → Str → Option Scope → Expecting → Bool → List Kind
kinds_of_clause d clause scope expecting inside_a_group =
    if text_eq clause (codes "INSERT INTO") && inside_a_group
    then column ∷ []
    else elim (get d.clauses clause) [
      | none ↦ keyword ∷ []
      | some found ↦ found_kinds d found scope expecting inside_a_group
    ]

unfoldable pub clause_kinds : Option Str → Option Scope → Dialect → Expecting → Bool → List Kind
clause_kinds clause scope d expecting inside_a_group =
    if expects_alias expecting
    then alias ∷ []
    else if expects_type expecting
    then type ∷ []
    else elim clause [
      | none ↦ snippet ∷ keyword ∷ []
      | some c ↦ kinds_of_clause d c scope expecting inside_a_group
    ]

-- `segment in scope.ctes`.
unfoldable pub declares : Scope → Str → Bool
declares (root rs ctes p) segment = any (λ e. text_eq (e.0) segment) ctes
declares (inner rs ctes parent p) segment = any (λ e. text_eq (e.0) segment) ctes

unfoldable pub names_a_relation : Str → Scope → Bool
names_a_relation segment scope =
    any (λ r. text_eq (label r) segment) (visible scope) || declares scope segment

unfoldable pub names_in : Str → Option Scope → Bool
names_in segment none = false
names_in segment (some scope) = names_a_relation segment scope

unfoldable pub suggested : Option Clause → List Kind
suggested none = []
suggested (some c) = c.suggests

-- Past the namespace's levels, or at one of them.
unfoldable pub level_kinds : Option Str → List Kind
level_kinds none = column ∷ []
level_kinds (some level) = elim (namespace_kind level) [
  | none ↦ []
  | some k ↦ if is_kind k table then column ∷ k ∷ [] else k ∷ []
]

-- The qualifier, which has a first segment.
unfoldable pub qualified_kinds : Str → List Str → Option Scope → Dialect → Option Str → List Kind
qualified_kinds first more scope d clause =
    let named = keep not_a_relation (suggested (governing d.clauses clause)) in
    if names_in first scope
    then column ∷ []
    else if non_empty named && ltb (length (first ∷ more)) (length d.namespace)
    then named
    else level_kinds (level_of d.namespace (length (first ∷ more) + 1))

unfoldable pub kinds_for :
    Option Str → List Str → Option Scope → Dialect → Expecting → Bool → List Kind
kinds_for clause [] scope d expecting inside_a_group =
    clause_kinds clause scope d expecting inside_a_group
kinds_for clause (first ∷ more) scope d expecting inside_a_group =
    if expects_type expecting
    then clause_kinds clause scope d expecting inside_a_group
    else qualified_kinds first more scope d clause
