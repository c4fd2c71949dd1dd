-- ===== src/Analyse/Bodies.antt =====
-- engine/analyse.py: the bodies in parentheses that are queries, and the derived tables among them.
use pysqlsuggestions.Prelude.{
  ℕ, suc, ◌+◌, ◌-◌, Bool, false, not, ◌&&◌, ◌||◌, List, [], ◌∷◌, ◌++◌, Option, none, some, Str,
  codes, length, map, keep, leb, ltb, ◌==◌, if◌then◌else◌, text_eq, has_text,
}
use pysqlsuggestions.Lex.Token.{Chars, Token}
use pysqlsuggestions.Dialect.{Dialect}
use pysqlsuggestions.Analyse.Tokens.{Place, is_ident, in_skip, is_mark, skip_back}
use pysqlsuggestions.Analyse.Caret.{between}
use pysqlsuggestions.Analyse.Words.{is_word}
use pysqlsuggestions.Analyse.Clauses.{clause_starting_at}
use pysqlsuggestions.Analyse.Predicates.{place_at}
use pysqlsuggestions.Analyse.Branches.{base_depth, matching_paren}
use pysqlsuggestions.Analyse.Readers.{skip_forward, read_alias, read_declared_columns}
use pysqlsuggestions.Analyse.Relations.{relation_clauses}

-- The first words of a body that is a query.
abbrev pub query_words : List Str
query_words = codes "SELECT" ∷ codes "WITH" ∷ codes "VALUES" ∷ codes "TABLE" ∷ []

unfoldable pub begins_query : Chars → List Token → Bool
begins_query u [] = false
begins_query u (t ∷ ts) = is_ident t.type && has_text query_words (u.upper t.value)

-- A body: the index of its first token that is not skipped, and of the paren that closes it.
abbrev pub Span : Type 0
Span = ℕ × ℕ

-- `_scan_subquery_bodies`, at `index`.
unfoldable pub bodies_from : Chars → ℕ → ℕ → List Token → List Span
bodies_from u base index [] = []
bodies_from u base index (t ∷ ts) =
    let later = bodies_from u base (suc index) ts in
    let body = skip_forward ts in
    if is_mark (codes "(") t && (t.depth == base) && begins_query u body
    then (suc index + (length ts - length body), suc index + matching_paren t.depth ts) ∷ later
    else later

unfoldable pub subquery_bodies : Chars → List Token → ℕ → ℕ → List Span
subquery_bodies u tokens lo hi =
    let range = between lo hi tokens in bodies_from u (base_depth range) lo range

-- The loop of `_inside_a_relation_list`, from the comma back; `ahead` ends at the comma.
unfoldable pub list_back : Chars → Dialect → ℕ → ℕ → List Token → Place → Bool
list_back u d lo depth ahead [] = false
list_back u d lo depth ahead (t ∷ back) =
    let further = list_back u d lo depth (t ∷ ahead) back in
    if ltb (length back) lo
    then false
    else if in_skip t.type || not (t.depth == depth)
    then further
    else elim (clause_starting_at u d.clauses (t ∷ ahead)) [
      | none ↦ further
      | some (name, count) ↦ has_text relation_clauses name
    ]

-- What introduces a body, at the place before its paren.
unfoldable pub introduces_body : Chars → Dialect → ℕ → Place → Bool
introduces_body u d lo [] = false
introduces_body u d lo (t ∷ back) =
    leb lo (length back)
    && ((is_word t
          && has_text (relation_clauses ++ codes "JOIN" ∷ codes "LATERAL" ∷ []) (u.upper t.value))
        || (is_mark (codes ",") t && list_back u d lo t.depth [] back))

-- The place of the paren, from the body back.
unfoldable pub opener_place : ℕ → Place → Place
opener_place lo [] = []
opener_place lo (t ∷ back) =
    let further = opener_place lo back in
    if ltb lo (length back) && not (text_eq t.text (codes "(")) then further else t ∷ back

unfoldable pub before_place : Place → Place
before_place [] = []
before_place (t ∷ back) = skip_back back

-- A derived table: the span of its body, its alias, the columns that are declared.
pub record Derived : Type 0 where
  pub body : Span
  pub alias : Option Str
  pub columns : List Str

module _ (u : Chars) (d : Dialect) where
  unfoldable pub derived_of : List Token → ℕ → Span → Derived
  derived_of tokens hi span =
      let aliased = read_alias u d (between (suc (span.1)) hi tokens) in
      record { body = span; alias = aliased.0; columns = (read_declared_columns (aliased.1)).0 }

  unfoldable pub derived_tables : List Token → ℕ → ℕ → List Derived
  derived_tables tokens lo hi = map (derived_of tokens hi) (
      keep
        (λ (span : Span).
          introduces_body u d lo (before_place (opener_place lo (place_at (span.0) tokens))))
        (subquery_bodies u tokens lo hi))
