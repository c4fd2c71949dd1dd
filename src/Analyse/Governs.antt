-- ===== src/Analyse/Governs.antt =====
-- engine/analyse.py: that a clause which governs the caret is written before it.
use pysqlsuggestions.Prelude.{
  ℕ, zero, suc, ◌-◌, ◌≤◌, ◌<◌, not, ◌&&◌, ◌||◌, List, [], ◌∷◌, Option, none, some, Str, length,
  take, drop, leb, ltb, ◌==◌, non_empty, or_else, ◌≡◌, refl, sym, subst, inl, inr, Bool-cases,
  or-eq-false, arith,
}
use mathlib.Core.List.{Memᴰ}
use pysqlsuggestions.Lex.Token.{Chars, Token}
use pysqlsuggestions.Clauses.Defs.{clause_names}
use pysqlsuggestions.Dialect.{Dialect}
use pysqlsuggestions.Analyse.Caret.{between, depth_at}
use pysqlsuggestions.Analyse.Words.{is_word, split_words}
use pysqlsuggestions.Analyse.Clauses.{
  clause_starting_at, reads_as_a_clause, end_of_run, Best, beats, best_name, better, scan_clauses,
  scan_for_clause, holds_a_word, group_start, max, clause_here, clause_from, clause_at,
}
use pysqlsuggestions.Analyse.Spelt.{ReadsClause, Spells, clause_starting_at-ReadsClause}

drop-next : (k : ℕ) (xs : List Token) → drop (suc k) xs ≡ drop 1 (drop k xs)
drop-next zero [] = refl
drop-next zero (x ∷ xs) = refl
drop-next (suc k) [] = refl
drop-next (suc k) (x ∷ xs) = drop-next k xs

take-next :
    (n : ℕ) (xs : List Token) (t : Token) (ts : List Token)
    → take n xs ≡ t ∷ ts
    → take (n - 1) (drop 1 xs) ≡ ts
take-next zero xs t ts e = absurd (ground arith)
take-next (suc n) [] t ts e = absurd (ground arith)
take-next (suc n) (x ∷ xs) t ts e =
    let size : suc n - 1 ≡ n = omega arith in rw size (ground (arith, e))

between-next :
    (k hi : ℕ) (tokens : List Token) (t : Token) (ts : List Token)
    → t ∷ ts ≡ between k hi tokens
    → ts ≡ between (suc k) hi tokens
between-next k hi tokens t ts e =
    let size : hi - suc k ≡ hi - k - 1 = omega arith in
    rw (size, drop-next k tokens) (sym (take-next (hi - k) (drop k tokens) t ts (sym e)))

module _ (u : Chars) (d : Dialect) (tokens : List Token) (lo hi caret : ℕ) where
  -- The clause is read at some index of the range, and its last word ends before the caret.
  pub record Governs (name : Str) : Type 0 where
    pub index : ℕ
    pub count : ℕ
    in_range : lo ≤ index
    read_there : clause_starting_at u d.clauses (between index hi tokens) ≡ some (name, count)
    before_caret : end_of_run count (between index hi tokens) < caret

  abbrev pub GoverningName : Option Str → Type 0
  GoverningName none = Unit {0}
  GoverningName (some name) = Governs name

  abbrev GoverningBest : Option Best → Type 0
  GoverningBest none = Unit {0}
  GoverningBest (some (e, w, name)) = Governs name

  better-GoverningBest :
      (k : ℕ) (rest : List Token) (best : Option Best) (o : Option (Str × ℕ))
      → lo ≤ k
      → rest ≡ between k hi tokens
      → clause_starting_at u d.clauses rest ≡ o
      → GoverningBest best
      → GoverningBest (better u d rest caret best o)
  unfolding better
  better-GoverningBest k rest best none le e f g = g
  better-GoverningBest k rest best (some (name, count)) le e f g =
      let late = leb caret (end_of_run count rest) in
      let skips = not (reads_as_a_clause u d name (best_name best)) in
      elim (Bool-cases (late || skips)) [
        | inl s ↦ rw s g
        | inr s ↦
            rw s
              (elim (Bool-cases
                (beats (end_of_run count rest, length (split_words u name), name) best)) [
                  | inr b ↦ rw b g
                  | inl b ↦ rw b (record {
                    index = k;
                    count = count;
                    in_range = le;
                    read_there =
                        subst (λ r. clause_starting_at u d.clauses r ≡ some (name, count)) e f;
                    before_caret =
                        subst (λ r. end_of_run count r < caret) e
                          (let early = (or-eq-false late skips s).0 in ground (arith, early));
                  })
                ])
      ]

  scan_clauses-GoverningBest :
      (k : ℕ) (rest : List Token) (depth : ℕ) (best : Option Best)
      → lo ≤ k
      → rest ≡ between k hi tokens
      → GoverningBest best
      → GoverningBest (scan_clauses u d rest caret depth best)
  unfolding scan_clauses
  scan_clauses-GoverningBest k [] depth best le e g = g
  scan_clauses-GoverningBest k (t ∷ ts) depth best le e g =
      scan_clauses-GoverningBest (suc k) ts depth _ (omega arith) (between-next k hi tokens t ts e)
        (elim (Bool-cases (is_word t && (t.depth == depth) && ltb t.end caret)) [
          | inl c ↦ rw c (better-GoverningBest k (t ∷ ts) best _ le e refl g)
          | inr c ↦ rw c g
        ])

  best_name-GoverningName :
      (best : Option Best) → GoverningBest best → GoverningName (best_name best)
  unfolding best_name
  best_name-GoverningName none g = g
  best_name-GoverningName (some (e, w, name)) g = g

  clause_here-GoverningName : (depth : ℕ) → GoverningName (clause_here u d tokens lo hi caret depth)
  unfolding clause_here scan_for_clause
  clause_here-GoverningName depth =
      let from = max lo (group_start tokens caret depth) in
      elim (Bool-cases (holds_a_word u d (between lo hi tokens) caret depth)) [
        | inr h ↦ rw h tt
        | inl h ↦ rw h (
            best_name-GoverningName _ (
              scan_clauses-GoverningBest from (between from hi tokens) depth none (ground arith)
                refl tt))
      ]

  or_else-GoverningName :
      (a b : Option Str) → GoverningName a → GoverningName b → GoverningName (or_else a b)
  or_else-GoverningName none b g h = h
  or_else-GoverningName (some name) b g h = g

  clause_from-GoverningName : (depth : ℕ) → GoverningName (clause_from u d tokens lo hi caret depth)
  unfolding clause_from
  clause_from-GoverningName zero = clause_here-GoverningName 0
  clause_from-GoverningName (suc outer) =
      or_else-GoverningName _ _ (clause_here-GoverningName (suc outer))
        (clause_from-GoverningName outer)

  clause_at-GoverningName : GoverningName (clause_at u d tokens lo hi caret)
  unfolding clause_at
  clause_at-GoverningName = elim (Bool-cases (non_empty d.clauses.clauses)) [
    | inl h ↦ rw h (clause_from-GoverningName (depth_at tokens caret))
    | inr h ↦ rw h tt
  ]

  -- A clause that `clause_at` answers is one of the dialect's clauses, and it is written in the range,
  -- before the caret: from some index on, the tokens spell its words, unquoted, with only blanks and
  -- comments between them, and the last of them ends before the caret.
  pub clause_at-Governs :
      (name : Str)
      → clause_at u d tokens lo hi caret ≡ some name
      → Memᴰ name (clause_names d.clauses.clauses)
        × ((g : Governs name) × Spells u
              (take g.count (between g.index hi tokens))
              (split_words u name))
  clause_at-Governs name e =
      let g : Governs name = subst GoverningName e clause_at-GoverningName in
      let reads =
        subst (ReadsClause u d.clauses (between g.index hi tokens)) g.read_there
          (clause_starting_at-ReadsClause u d.clauses (between g.index hi tokens)) in
      unfold ReadsClause in (reads.0, (g, reads.1))
