-- ===== src/Rank/Sunk.antt =====
-- engine/rank.py: what the role may not run comes last.
use pysqlsuggestions.Prelude.{
  ℕ, zero, suc, Bool, true, false, not, ◌&&◌, ◌||◌, List, [], ◌∷◌, some, take, all, map, leb, ◌==◌,
  ==_refl, if◌then◌else◌, insert_sorted, sort, all-insert_sorted, all-sort, any, ◌≡◌, refl, ◌∙◌,
  inl, inr, Bool-cases, Option-cases, and-eq-true, arith,
}
use pysqlsuggestions.Lex.Token.{Chars}
use pysqlsuggestions.Dialect.{Dialect}
use pysqlsuggestions.Types.{Request, Candidate}
use pysqlsuggestions.Rank.Match.{Floats, IsOrdered, match_strength}
use pysqlsuggestions.Rank.Defs.{
  Suggestion, Row, Limit, unlimited, at_most, negative, is_restricted, then_by, row_le, same_key,
  dedupe, hunted, finish_row, finish_all, scored_row, prepare, rank,
}
use pysqlsuggestions.Rank.Limit.{cut, rank-cut}

then_by-first : (a b : ℕ) (rest : Bool) → then_by leb a b rest ≡ true → leb a b ≡ true
then_by-first a b rest h = (and-eq-true (leb a b) (if leb b a then rest else true) h).0

then_by-other : (a b : ℕ) (rest : Bool) → then_by leb a b rest ≡ false → leb b a ≡ true
then_by-other a b rest h = ground arith

flags_le :
    (a b : ℕ) (p q : Bool)
    → (a == (if p then 1 else 0)) ≡ true
    → (b == (if q then 1 else 0)) ≡ true
    → leb a b ≡ true
    → p ≡ true
    → q ≡ true
flags_le a b p true h k l e = refl
flags_le a b true false h k l e = absurd (ground arith)
flags_le a b false false h k l e = absurd (ground arith)

module _ (u : Chars) (f : Floats) where
  open f use {Float}

  abbrev pub withheld : Suggestion Float → Bool
  withheld s = is_restricted s.availability

  -- Behind a restricted suggestion all are restricted.
  abbrev pub sinks : List (Suggestion Float) → Bool
  sinks [] = true
  sinks (s ∷ rest) = (not (withheld s) || all withheld rest) && sinks rest

  abbrev row_withheld : Row Float → Bool
  row_withheld x = withheld x.suggestion

  abbrev rows_sink : List (Row Float) → Bool
  rows_sink [] = true
  rows_sink (x ∷ rest) = (not (row_withheld x) || all row_withheld rest) && rows_sink rest

  -- The first part of the key says whether the suggestion is restricted.
  abbrev flagged : Row Float → Bool
  flagged x = x.restricted == (if row_withheld x then 1 else 0)

  row_le-withheld :
      (x y : Row Float)
      → flagged x ≡ true
      → flagged y ≡ true
      → row_le u f x y ≡ true
      → row_withheld x ≡ true
      → row_withheld y ≡ true
  unfolding row_le
  row_le-withheld x y h k below e =
      flags_le x.restricted y.restricted (row_withheld x) (row_withheld y) h k
        (then_by-first x.restricted y.restricted _ below) e

  row_le-not_withheld :
      (x y : Row Float)
      → flagged x ≡ true
      → flagged y ≡ true
      → row_le u f x y ≡ false
      → row_withheld y ≡ true
      → row_withheld x ≡ true
  unfolding row_le
  row_le-not_withheld x y h k above e =
      flags_le y.restricted x.restricted (row_withheld y) (row_withheld x) k h
        (then_by-other x.restricted y.restricted _ above) e

  rows_sink-insert :
      (x : Row Float) (rows : List (Row Float))
      → flagged x ≡ true
      → all flagged rows ≡ true
      → rows_sink rows ≡ true
      → rows_sink (insert_sorted (row_le u f) x rows) ≡ true
  rows_sink-insert x [] h k s = ground arith
  rows_sink-insert x (y ∷ rows) h k s =
      let parts = and-eq-true (flagged y) (all flagged rows) k in
      elim (Bool-cases (row_le u f x y)) [
        | inl e ↦ rw e (ground (arith, s, row_le-withheld x y h (parts.0) e))
        | inr e ↦ rw e (
            ground (
              arith,
              s,
              all-insert_sorted row_withheld (row_le u f) x rows,
              row_le-not_withheld x y h (parts.0) e,
              rows_sink-insert x rows h (parts.1),
            ))
      ]

  rows_sink-sort :
      (rows : List (Row Float))
      → all flagged rows ≡ true
      → rows_sink (sort (row_le u f) rows) ≡ true
  rows_sink-sort [] h = refl
  rows_sink-sort (x ∷ rows) h =
      let parts = and-eq-true (flagged x) (all flagged rows) h in
      rows_sink-insert x (sort (row_le u f) rows) (parts.0)
        (all-sort flagged (row_le u f) rows ∙ parts.1) (rows_sink-sort rows (parts.1))

  all-dedupe :
      (seen : List (Suggestion Float)) (rows : List (Row Float))
      → all row_withheld rows ≡ true
      → all withheld (dedupe u f seen rows) ≡ true
  unfolding dedupe
  all-dedupe seen [] h = refl
  all-dedupe seen (x ∷ rows) h =
      let parts = and-eq-true (row_withheld x) (all row_withheld rows) h in
      elim (Bool-cases (any (λ y. same_key u f y x.suggestion) seen)) [
        | inl e ↦ rw e (all-dedupe seen rows (parts.1))
        | inr e ↦ rw (e, parts.0) (all-dedupe (x.suggestion ∷ seen) rows (parts.1))
      ]

  sinks-dedupe :
      (seen : List (Suggestion Float)) (rows : List (Row Float))
      → rows_sink rows ≡ true
      → sinks (dedupe u f seen rows) ≡ true
  unfolding dedupe
  sinks-dedupe seen [] h = refl
  sinks-dedupe seen (x ∷ rows) h =
      let parts = and-eq-true (not (row_withheld x) || all row_withheld rows) (rows_sink rows) h in
      elim (Bool-cases (any (λ y. same_key u f y x.suggestion) seen)) [
        | inl e ↦ rw e (sinks-dedupe seen rows (parts.1))
        | inr e ↦
            rw (e, sinks-dedupe (x.suggestion ∷ seen) rows (parts.1))
              (ground (arith, parts.0, all-dedupe (x.suggestion ∷ seen) rows))
      ]

  flagged-prepare :
      (cs : List Candidate) (r : Request) (d : Dialect)
      → all flagged (map (finish_row u f r d) (prepare u f cs r)) ≡ true
  unfolding prepare finish_row scored_row
  flagged-prepare [] r d = refl
  flagged-prepare (c ∷ cs) r d =
      elim (Option-cases (match_strength u f (hunted u f c) r.prefix c.kind)) [
        | inl e ↦ rw (e, prepare) (flagged-prepare cs r d)
        | inr (strength, e) ↦
            rw (e, prepare)
              (rw (==_refl (if is_restricted c.availability then 1 else 0))
                (flagged-prepare cs r d))
      ]

  all-take :
      (n : ℕ) (xs : List (Suggestion Float))
      → all withheld xs ≡ true
      → all withheld (take n xs) ≡ true
  all-take zero xs h = refl
  all-take (suc n) [] h = refl
  all-take (suc n) (x ∷ xs) h = ground (arith, all-take n xs)

  sinks-take : (n : ℕ) (xs : List (Suggestion Float)) → sinks xs ≡ true → sinks (take n xs) ≡ true
  sinks-take zero xs h = refl
  sinks-take (suc n) [] h = refl
  sinks-take (suc n) (x ∷ xs) h = ground (arith, h, all-take n xs, sinks-take n xs)

  sinks-cut :
      (ord : IsOrdered f) (r : Request) (d : Dialect) (limit : Limit) (xs : List (Suggestion Float))
      → sinks xs ≡ true
      → sinks (cut u f ord r d limit xs) ≡ true
  sinks-cut ord r d unlimited xs h = h
  sinks-cut ord r d (at_most n) xs h = sinks-take n xs h
  sinks-cut ord r d (negative n) xs h = refl

  -- Whatever the candidates and the limit, where floats are ordered by `<=`: `rank` answers, and behind
  -- a suggestion that the role may not run it makes none that the role may run.
  pub rank-sinks :
      (ord : IsOrdered f) (candidates : List Candidate) (r : Request) (d : Dialect) (limit : Limit)
      → (found : List (Suggestion Float)) × (rank u f candidates r d limit ≡ some found)
        × (sinks found ≡ true)
  unfolding finish_all
  rank-sinks ord candidates r d limit =
      let whole = finish_all u f r d (prepare u f candidates r) in
      (
        cut u f ord r d limit whole,
        rank-cut u f ord r d candidates limit,
        sinks-cut ord r d limit whole (
            sinks-dedupe [] _ (
              rows_sink-sort (map (finish_row u f r d) (prepare u f candidates r))
                (flagged-prepare candidates r d))),
      )
