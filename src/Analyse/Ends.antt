-- ===== src/Analyse/Ends.antt =====
-- engine/analyse.py: that the loops over relation references end.
use pysqlsuggestions.Prelude.{
  ℕ, zero, suc, ◌≤◌, ◌<◌, Bool, true, false, List, [], ◌∷◌, ◌++◌, Option, some, Str, codes, length,
  length-drop, ◌≡◌, ◌⊎◌, refl, ap, inl, inr, Bool-cases, Option-cases, arith,
}
use pysqlsuggestions.Lex.Token.{Chars, Token}
use pysqlsuggestions.Types.{Relation}
use pysqlsuggestions.Dialect.{Dialect}
use pysqlsuggestions.Analyse.Tokens.{in_skip, is_ident, is_mark}
use pysqlsuggestions.Analyse.Clauses.{clause_starting_at}
use pysqlsuggestions.Analyse.Branches.{matching_paren}
use pysqlsuggestions.Analyse.Readers.{
  skip_forward, path_from, read_dotted_path, behind_group, read_declared_columns, bare_alias,
  as_alias, alias_at, read_alias, read_function_source, behind_dot, read_reference, opens_call,
  read_source, path_end, values_of, round_at, Round, stop, pass, refer,
}
use pysqlsuggestions.Analyse.Relations.{read_relation_list, in_front_of}

pub skip_forward-le : (ts : List Token) → length (skip_forward ts) ≤ length ts
unfolding skip_forward
skip_forward-le [] = omega arith
skip_forward-le (t ∷ ts) = ground (arith, skip_forward-le ts)

path_from-le :
    (wants : Bool) (kept ts : List Token)
    → length ts ≤ length kept
    → length ((path_from wants kept ts).1) ≤ length kept
unfolding path_from
path_from-le wants kept [] h = omega arith
path_from-le true kept (t ∷ ts) h = elim (Bool-cases (in_skip t.type)) [
  | inl s ↦ rw s (path_from-le true kept ts (omega arith))
  | inr s ↦ rw s (elim (Bool-cases (is_ident t.type)) [
    | inl i ↦ rw i (let inner = path_from-le false ts ts (omega arith) in omega (arith, inner))
    | inr i ↦ rw i (omega arith)
  ])
]
path_from-le false kept (t ∷ ts) h = elim (Bool-cases (in_skip t.type)) [
  | inl s ↦ rw s (path_from-le false kept ts (omega arith))
  | inr s ↦ rw s (elim (Bool-cases (is_mark (codes ".") t)) [
    | inl i ↦ rw i (path_from-le true kept ts (omega arith))
    | inr i ↦ rw i (omega arith)
  ])
]

pub behind_group-le : (ts : List Token) → length (behind_group ts) ≤ length ts
unfolding behind_group
behind_group-le [] = omega arith
behind_group-le (t ∷ ts) = omega (arith, length-drop {0} (suc (matching_paren t.depth ts)) ts)

pub read_declared_columns-le : (ts : List Token) → length ((read_declared_columns ts).1) ≤ length ts
unfolding read_declared_columns
read_declared_columns-le ts = ground (arith, behind_group-le (skip_forward ts), skip_forward-le ts)

behind_dot-le :
    (u : Chars) (d : Dialect) (end : ℕ) (rest ts : List Token)
    → length ts ≤ length rest
    → length ((behind_dot u d end rest ts).1) ≤ length rest
unfolding behind_dot
behind_dot-le u d end rest [] h = omega arith
behind_dot-le u d end rest (t ∷ ts) h = ground (arith, h)

pub List-cases :
    (ts : List Token) → (ts ≡ []) ⊎ ((t : Token) × (more : List Token) × (ts ≡ t ∷ more))
List-cases [] = inl refl
List-cases (t ∷ ts) = inr (t, ts, refl)

module _ (u : Chars) (d : Dialect) where
  bare_alias-le :
      (rest ts : List Token)
      → length ts ≤ length rest
      → length ((bare_alias u d rest ts).1) ≤ length rest
  unfolding bare_alias
  bare_alias-le rest [] h = omega arith
  bare_alias-le rest (t ∷ ts) h = elim (Option-cases (clause_starting_at u d.clauses (t ∷ ts))) [
    | inl e ↦ rw (e, bare_alias) (ground (arith, h))
    | inr ((name, count), e) ↦ rw (e, bare_alias) (ground (arith, h))
  ]

  as_alias-le :
      (rest ts : List Token)
      → length ts ≤ length rest
      → length ((as_alias u d rest ts).1) ≤ length rest
  unfolding as_alias
  as_alias-le rest [] h = omega arith
  as_alias-le rest (t ∷ ts) h = ground (arith, h)

  alias_at-le :
      (rest ts : List Token)
      → length ts ≤ length rest
      → length ((alias_at u d rest ts).1) ≤ length rest
  unfolding alias_at
  alias_at-le rest [] h = omega arith
  alias_at-le rest (t ∷ ts) h = ground (
    arith,
    as_alias-le rest (skip_forward ts),
    bare_alias-le rest (t ∷ ts),
    skip_forward-le ts,
    h,
  )

  read_alias-le : (ts : List Token) → length ((read_alias u d ts).1) ≤ length ts
  unfolding read_alias
  read_alias-le ts = alias_at-le ts (skip_forward ts) (skip_forward-le ts)

  read_function_source-le : (ts : List Token) → length ((read_function_source u d ts).1) ≤ length ts
  unfolding read_function_source
  read_function_source-le ts = omega (
    arith,
    read_declared_columns-le ((read_alias u d (behind_group ts)).1),
    read_alias-le (behind_group ts),
    behind_group-le ts,
  )

  read_reference-le :
      (caret : Option ℕ) (start end : ℕ) (path : List Str) (ts : List Token)
      → length ((read_reference u d caret start end path ts).1) ≤ length ts
  unfolding read_reference
  read_reference-le caret start end path ts = ground (
    arith,
    behind_dot-le u d end ts (skip_forward ts) (skip_forward-le ts),
    read_alias-le ((behind_dot u d end ts (skip_forward ts)).1),
  )

  read_source-le :
      (caret : Option ℕ) (clause : Str) (t : Token) (ts : List Token)
      → length ((read_source u d caret clause t ts).1) ≤ length ts
  unfolding read_source read_dotted_path
  read_source-le caret clause t ts =
      let path = path_from-le false ts ts (omega arith) in
      let left = (path_from false ts ts).1 in
      let call = skip_forward-le left in
      elim (Bool-cases (opens_call u d clause (skip_forward left))) [
        | inl c ↦ rw c (omega (arith, read_function_source-le (skip_forward left), call, path))
        | inr c ↦ rw c (
            let reference =
              read_reference-le caret t.start (path_end t.end (t ∷ (path_from false ts ts).0))
                (values_of (t ∷ (path_from false ts ts).0)) left in
            omega (arith, reference, path))
      ]

  -- A list that was read leaves no more tokens than it was given.
  abbrev pub Lists : List Token → Option (List Relation × List Token) → Type 0
  Lists rest o =
      (found : List Relation × List Token) × (o ≡ some found) × (length (found.1) ≤ length rest)

  Round-cases : (r : Round) → (r ≡ stop) ⊎ ((r ≡ pass) ⊎ (r ≡ refer))
  Round-cases stop = inl refl
  Round-cases pass = inr (inl refl)
  Round-cases refer = inr (inr refl)

  in_front_of-Lists :
      (rs : List Relation) (rest : List Token) (o : Option (List Relation × List Token))
      → Lists rest o
      → Lists rest (in_front_of rs o)
  in_front_of-Lists rs rest o ((more, left), e, le) = ((rs ++ more, left), rw e refl, le)

  module _ (caret : Option ℕ) (clause : Str) (fuel : ℕ) (rest : List Token) where
    list_nil :
        skip_forward rest ≡ [] → read_relation_list u d caret clause (suc fuel) rest ≡ some ([], [])
    unfolding read_relation_list
    list_nil e = rw (e, read_relation_list) refl

    module _ (t : Token) (ts : List Token) (e : skip_forward rest ≡ t ∷ ts) where
      list_stop :
          round_at u d clause t ts ≡ stop
          → read_relation_list u d caret clause (suc fuel) rest ≡ some ([], t ∷ ts)
      unfolding read_relation_list
      list_stop r = rw (e, r, read_relation_list) refl

      list_pass :
          round_at u d clause t ts ≡ pass
          → read_relation_list u d caret clause (suc fuel) rest
            ≡ read_relation_list u d caret clause fuel ts
      unfolding read_relation_list
      list_pass r = rw (e, r, read_relation_list) refl

      list_refer :
          round_at u d clause t ts ≡ refer
          → let found = read_source u d caret clause t ts in
            read_relation_list u d caret clause (suc fuel) rest
            ≡ in_front_of (found.0) (read_relation_list u d caret clause fuel (found.1))
      unfolding read_relation_list
      list_refer r = rw (e, r, read_relation_list) refl

  Lists-wider :
      (fewer rest : List Token) (o : Option (List Relation × List Token))
      → length fewer ≤ length rest
      → Lists fewer o
      → Lists rest o
  Lists-wider fewer rest o le (found, e, h) = (found, e, omega arith)

  pub read_relation_list-Lists :
      (caret : Option ℕ) (clause : Str) (fuel : ℕ) (rest : List Token)
      → length rest < fuel
      → Lists rest (read_relation_list u d caret clause fuel rest)
  read_relation_list-Lists caret clause zero rest h = absurd (omega arith)
  read_relation_list-Lists caret clause (suc fuel) rest h = elim (List-cases (skip_forward rest)) [
    | inl e ↦ (([], []), list_nil caret clause fuel rest e, omega arith)
    | inr (t, ts, e) ↦
        let size : suc (length ts) ≤ length rest =
          (let le = skip_forward-le rest in omega (arith, le, ap length e)) in
        elim (Round-cases (round_at u d clause t ts)) [
          | inl r ↦ (([], t ∷ ts), list_stop caret clause fuel rest t ts e r, size)
          | inr (inl r) ↦ rw (list_pass caret clause fuel rest t ts e r) (
              Lists-wider ts rest _ (omega arith)
                (read_relation_list-Lists caret clause fuel ts (omega arith)))
          | inr (inr r) ↦
              let found = read_source u d caret clause t ts in
              let less = read_source-le caret clause t ts in
              rw (list_refer caret clause fuel rest t ts e r) (
                in_front_of-Lists (found.0) rest _ (
                  Lists-wider (found.1) rest _ (omega (arith, less))
                    (read_relation_list-Lists caret clause fuel (found.1) (omega (arith, less)))))
        ]
  ]
