-- ===== src/Analyse/Scans.antt =====
-- engine/analyse.py: that `_relations_in` ends.
use pysqlsuggestions.Prelude.{
  ℕ, zero, suc, ◌-◌, ◌≤◌, ◌<◌, ◌||◌, List, [], ◌∷◌, ◌++◌, Option, none, some, Str, codes, length,
  length-drop, drop, ltb, text_eq, if◌then◌else◌, ◌≡◌, refl, subst, inl, inr, Bool-cases,
  Option-cases, arith,
}
use pysqlsuggestions.Lex.Token.{Chars, Token}
use pysqlsuggestions.Types.{Relation}
use pysqlsuggestions.Dialect.{Dialect}
use pysqlsuggestions.Analyse.Tokens.{in_skip}
use pysqlsuggestions.Analyse.Clauses.{clause_starting_at}
use pysqlsuggestions.Analyse.Branches.{depth_there}
use pysqlsuggestions.Analyse.Relations.{
  read_relation_list, source_clause, scan_relations, relations_in, add_found, unclosed_calls,
  all_found, introduces_relations, shelter, Found,
}
use pysqlsuggestions.Analyse.Spelt.{ReadsClause, clause_starting_at-ReadsClause}
use pysqlsuggestions.Analyse.Ends.{read_relation_list-Lists}

module _ (u : Chars) (d : Dialect) where
  -- A clause reads a token at least.
  abbrev Positive : Option (Str × ℕ) → Type 0
  Positive none = Unit {0}
  Positive (some (name, count)) = 1 ≤ count

  ReadsClause-Positive :
      (rest : List Token) (o : Option (Str × ℕ)) → ReadsClause u d.clauses rest o → Positive o
  unfolding ReadsClause
  ReadsClause-Positive rest none h = tt
  ReadsClause-Positive rest (some (name, count)) h = h.2

  introduced-Positive :
      (o : Option (Str × ℕ)) (rest : List Token)
      → Positive o
      → Positive (elim o [
        | none ↦ none
        | some (name, count) ↦
            if introduces_relations name (drop count rest) then some (name, count) else none
      ])
  introduced-Positive none rest h = tt
  introduced-Positive (some (name, count)) rest h =
      elim (Bool-cases (introduces_relations name (drop count rest))) [
        | inl i ↦ rw i h
        | inr i ↦ rw i tt
      ]

  source_clause-Positive :
      (starts : List ℕ) (level : ℕ) (rest : List Token)
      → Positive (source_clause u d starts level rest)
  unfolding source_clause
  source_clause-Positive starts level [] = tt
  source_clause-Positive starts level (t ∷ ts) =
      elim (Bool-cases
        (in_skip t.type || ltb level (t.depth - shelter u d starts (suc (length ts))))) [
          | inl s ↦ rw s tt
          | inr s ↦ rw s (
              introduced-Positive (clause_starting_at u d.clauses (t ∷ ts)) (t ∷ ts) (
                ReadsClause-Positive (t ∷ ts) _
                  (clause_starting_at-ReadsClause u d.clauses (t ∷ ts))))
        ]

  -- A scan that has an answer.
  abbrev Answers : Option Found → Type 0
  Answers o = (found : Found) × (o ≡ some found)

  add_found-Answers :
      (name : Str) (rs : List Relation) (o : Option Found)
      → Answers o
      → Answers (add_found u d name rs o)
  add_found-Answers name rs o ((w, r), e) =
      rw e (elim (Bool-cases (text_eq name (codes "INSERT INTO"))) [
        | inl i ↦ rw i ((rs ++ w, r), refl)
        | inr i ↦ rw i ((w, rs ++ r), refl)
      ])

  module _ (caret : Option ℕ) (starts : List ℕ) (level fuel : ℕ) (t : Token) (ts : List Token) where
    scan_pass :
        source_clause u d starts level (t ∷ ts) ≡ none
        → scan_relations u d caret starts level (suc fuel) (t ∷ ts)
          ≡ scan_relations u d caret starts level fuel ts
    unfolding scan_relations
    scan_pass e = rw (e, scan_relations) refl

    scan_list :
        (name : Str) (count : ℕ) (rs : List Relation) (rest : List Token)
        → source_clause u d starts level (t ∷ ts) ≡ some (name, count)
        → read_relation_list u d caret name (suc (length ts)) (drop count (t ∷ ts))
          ≡ some (rs, rest)
        → scan_relations u d caret starts level (suc fuel) (t ∷ ts)
          ≡ add_found u d name rs (scan_relations u d caret starts level fuel rest)
    unfolding scan_relations
    scan_list name count rs rest e f = rw (e, f, scan_relations) refl

  scan_relations-Answers :
      (caret : Option ℕ) (starts : List ℕ) (level fuel : ℕ) (rest : List Token)
      → length rest < fuel
      → Answers (scan_relations u d caret starts level fuel rest)
  scan_relations-Answers caret starts level zero rest h = absurd (omega arith)
  scan_relations-Answers caret starts level (suc fuel) [] h =
      unfold scan_relations in (([], []), refl)
  scan_relations-Answers caret starts level (suc fuel) (t ∷ ts) h =
      elim (Option-cases (source_clause u d starts level (t ∷ ts))) [
        | inl e ↦
            rw (scan_pass caret starts level fuel t ts e)
              (scan_relations-Answers caret starts level fuel ts (omega arith))
        | inr ((name, count), e) ↦
            let one : 1 ≤ count = subst Positive e (source_clause-Positive starts level (t ∷ ts)) in
            let short = length-drop {0} count (t ∷ ts) in
            let (found, f, le) =
              read_relation_list-Lists u d caret name (suc (length ts)) (drop count (t ∷ ts))
                (omega arith) in
            rw (scan_list caret starts level fuel t ts name count (found.0) (found.1) e f) (
              add_found-Answers name (found.0) _
                (scan_relations-Answers caret starts level fuel (found.1) (omega arith)))
      ]

  -- The scan for relations ends on every range of tokens, with one round for each token and one more: each
  -- round reads a token at least, and so does each round of the lists that it reads.
  pub relations_in-some :
      (range : List Token) (caret : Option ℕ)
      → (rs : List Relation) × (relations_in u d range caret ≡ some rs)
  unfolding relations_in
  relations_in-some range caret =
      let (found, e) =
        scan_relations-Answers caret (unclosed_calls u d range) (depth_there range)
          (suc (length range)) range (omega arith) in
      (all_found u d range caret found, rw (e, relations_in) refl)
