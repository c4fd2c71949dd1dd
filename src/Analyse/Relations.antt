-- ===== src/Analyse/Relations.antt =====
-- engine/analyse.py: the relations that a range of tokens introduces. The loops take fuel, one round for
-- each token and one more; none is that it ran out.
use pysqlsuggestions.Prelude.{
  ℕ, zero, suc, ◌-◌, Bool, true, false, not, ◌&&◌, ◌||◌, List, [], ◌∷◌, ◌++◌, Option, none, some,
  Str, codes, length, drop, map, keep, leb, ltb, ◌==◌, if◌then◌else◌, text_eq, has_text, or_else,
}
use pysqlsuggestions.Lex.Token.{Chars, Token}
use pysqlsuggestions.Types.{Relation}
use pysqlsuggestions.Dialect.{Dialect}
use pysqlsuggestions.Analyse.Tokens.{in_skip, is_mark}
use pysqlsuggestions.Analyse.Clauses.{clause_starting_at}
use pysqlsuggestions.Analyse.Branches.{opens_a_query, depth_there}
use pysqlsuggestions.Analyse.Readers.{
  skip_forward, text_here, read_source, round_at, stop, pass, refer,
}

abbrev pub relation_clauses : List Str
relation_clauses =
    codes "FROM"
    ∷ codes "JOIN"
    ∷ codes "UPDATE"
    ∷ codes "DELETE FROM"
    ∷ codes "INSERT INTO"
    ∷ codes "TABLE"
    ∷ []

-- More relations in front of those that a call answers.
abbrev pub in_front_of :
    List Relation → Option (List Relation × List Token) → Option (List Relation × List Token)
in_front_of rs none = none
in_front_of rs (some (more, rest)) = some (rs ++ more, rest)

-- `option is not None`.
unfoldable pub is_some {ℓ} : {A : Type ℓ} → Option A → Bool
is_some none = false
is_some (some a) = true

-- `_introduces_relations`, with the tokens behind the clause.
unfoldable pub introduces_relations : Str → List Token → Bool
introduces_relations name behind_it =
    if text_eq name (codes "USING")
    then not (text_here (codes "(") (skip_forward behind_it))
    else has_text relation_clauses name

-- The three offsets of `_around_an_insert_target`.
pub record Opens : Type 0 where
  pub target : Option ℕ
  pub source : Option ℕ
  pub returning : Option ℕ

-- `written_to` and `relations`.
abbrev pub Found : Type 0
Found = List Relation × List Relation

module _ (u : Chars) (d : Dialect) where
  -- `_read_relation_list`: the relations it appends, and the tokens behind the list.
  unfoldable pub read_relation_list :
      Option ℕ → Str → ℕ → List Token → Option (List Relation × List Token)
  read_relation_list caret clause zero rest = none
  read_relation_list caret clause (suc fuel) rest = elim (skip_forward rest) [
    | [] ↦ some ([], [])
    | t ∷ ts ↦ elim (round_at u d clause t ts) [
      | stop ↦ some ([], t ∷ ts)
      | pass ↦ read_relation_list caret clause fuel ts
      | refer ↦
          let found = read_source u d caret clause t ts in
          in_front_of (found.0) (read_relation_list caret clause fuel (found.1))
    ]
  ]

  -- The parens of the range that are not closed, the innermost first, each as the tokens behind it.
  unfoldable pub open_groups : List (List Token) → List Token → List (List Token)
  open_groups stack [] = stack
  open_groups stack (t ∷ ts) =
      open_groups
        (if is_mark (codes "(") t
          then ts ∷ stack
          else if is_mark (codes ")") t
          then drop 1 stack
          else stack)
        ts

  -- The starts of `_unclosed_call_depth`, each as the number of tokens behind the paren.
  unfoldable pub unclosed_calls : List Token → List ℕ
  unclosed_calls range =
      map (λ inner. length inner)
        (keep (λ inner. not (opens_a_query u d inner)) (open_groups [] range))

  -- `shelter(index)`, at a token with `left` tokens from it on: how many of the parens stand before it.
  unfoldable pub shelter : List ℕ → ℕ → ℕ
  shelter starts left = length (keep (λ inner. leb left inner) starts)

  -- The clause at the first token, where relations follow it.
  unfoldable pub source_clause : List ℕ → ℕ → List Token → Option (Str × ℕ)
  source_clause starts level [] = none
  source_clause starts level (t ∷ ts) =
      if in_skip t.type || ltb level (t.depth - shelter starts (suc (length ts)))
      then none
      else elim (clause_starting_at u d.clauses (t ∷ ts)) [
        | none ↦ none
        | some (name, count) ↦
            if introduces_relations name (drop count (t ∷ ts)) then some (name, count) else none
      ]

  abbrev pub add_found : Str → List Relation → Option Found → Option Found
  add_found clause rs none = none
  add_found clause rs (some (written_to, relations)) =
      if text_eq clause (codes "INSERT INTO")
      then some (rs ++ written_to, relations)
      else some (written_to, rs ++ relations)

  -- The loop of `_scan_relations_in`. The outer fuel counts its rounds, the inner those of a list.
  unfoldable pub scan_relations : Option ℕ → List ℕ → ℕ → ℕ → List Token → Option Found
  scan_relations caret starts level zero rest = none
  scan_relations caret starts level (suc fuel) [] = some ([], [])
  scan_relations caret starts level (suc fuel) (t ∷ ts) =
      elim (source_clause starts level (t ∷ ts)) [
        | none ↦ scan_relations caret starts level fuel ts
        | some (name, count) ↦
            elim (read_relation_list caret name (suc (length ts)) (drop count (t ∷ ts))) [
              | none ↦ none
              | some (rs, rest) ↦ add_found name rs (scan_relations caret starts level fuel rest)
            ]
      ]

  unfoldable pub start_of : List Token → Option ℕ
  start_of [] = none
  start_of (t ∷ ts) = some t.start

  -- A clause, read behind the offsets so far.
  unfoldable pub open_clause : Opens → ℕ → Str → Opens
  open_clause o start name =
      if text_eq name (codes "INSERT INTO")
      then record {
        target = or_else o.target (some start);
        source = o.source;
        returning = o.returning;
      }
      else if text_eq name (codes "SELECT")
      then record {
        target = o.target;
        source = or_else o.source (some start);
        returning = o.returning;
      }
      else if text_eq name (codes "RETURNING")
      then record {
        target = o.target;
        source = o.source;
        returning = or_else o.returning (some start);
      }
      else o

  -- One round of its loop.
  unfoldable pub open_at : Opens → ℕ → Token → List Token → Opens
  open_at o base t ts =
      if in_skip t.type || not (t.depth == base)
      then o
      else if is_some o.target && text_eq t.text (codes "(") && opens_a_query u d ts
      then record {
        target = o.target;
        source = or_else o.source (start_of (skip_forward ts));
        returning = o.returning;
      }
      else elim (clause_starting_at u d.clauses (t ∷ ts)) [
        | none ↦ o
        | some (name, count) ↦ open_clause o t.start name
      ]

  unfoldable pub opens_from : Opens → ℕ → List Token → Opens
  opens_from o base [] = o
  opens_from o base (t ∷ ts) = opens_from (open_at o base t ts) base ts

  -- `offset is not None and caret >= offset`.
  unfoldable pub reached : Option ℕ → Option ℕ → Bool
  reached (some offset) (some caret) = leb offset caret
  reached _ _ = false

  unfoldable pub around_an_insert_target : List Token → Option ℕ → Found → List Relation
  around_an_insert_target range caret (written_to, relations) =
      let nothing : Opens = record { target = none; source = none; returning = none } in
      let o = opens_from nothing (depth_there range) range in
      if reached o.returning caret
      then written_to
      else if reached o.source caret
      then relations
      else if is_some o.source
      then written_to
      else written_to ++ relations

  unfoldable pub all_found : List Token → Option ℕ → Found → List Relation
  all_found range caret ([], relations) = relations
  all_found range caret (w ∷ ws, relations) =
      around_an_insert_target range caret (w ∷ ws, relations)

  -- `_relations_in`, of the tokens in the range; the caret -1 is none.
  unfoldable pub relations_in : List Token → Option ℕ → Option (List Relation)
  relations_in range caret =
      elim (scan_relations caret (unclosed_calls range) (depth_there range) (suc (length range))
        range) [ none ↦ none | some found ↦ some (all_found range caret found) ]
