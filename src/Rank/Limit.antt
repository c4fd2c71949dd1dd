-- ===== src/Rank/Limit.antt =====
-- engine/rank.py: `rank` with a limit returns, and answers with the first part of what it answers
-- with no limit.
use pysqlsuggestions.Prelude.{
  ℕ, zero, suc, ◌+◌, ◌*◌, ◌≤◌, ◌<◌, true, false, ◌||◌, List, [], some, length, take, leb, leb→le,
  ◌≡◌, refl, sym, ap, ◌∙◌, arith, Bool-cases, inl, inr, take-append, length-take-le, or-eq-false,
}
use Prim.Native.Nat.{min, max}
use pysqlsuggestions.Lex.Token.{Chars}
use pysqlsuggestions.Dialect.{Dialect}
use pysqlsuggestions.Types.{Request, Candidate}
use pysqlsuggestions.Rank.Match.{Floats, IsOrdered}
use pysqlsuggestions.Rank.Defs.{
  Suggestion, Scored, Limit, unlimited, at_most, negative, prepare, shortlist, finish_all, finish,
  grow, rank_within, rank,
}
use pysqlsuggestions.Rank.Shortlist.{IsShortlist, shortlist-IsShortlist, shortlist_full}

module _ (u : Chars) (f : Floats) (ord : IsOrdered f) (r : Request) (d : Dialect) where
  open f use {Float}

  -- The answer of one round that ends the loop.
  ended :
      (prepared short : List (Scored Float)) (wanted : ℕ)
      → IsShortlist u f ord r d prepared short
      → (leb wanted (length (finish u f short r d (some wanted)))
          || leb (length prepared) (length short))
        ≡ true
      → finish u f short r d (some wanted) ≡ take wanted (finish_all u f r d prepared)
  unfolding finish
  ended prepared short wanted s e = elim (Bool-cases (leb (length prepared) (length short))) [
    | inl whole ↦
        ap (λ l. take wanted (finish_all u f r d l))
          (s.full (leb→le (length prepared) (length short) whole))
    | inr cut ↦
        let part = finish_all u f r d short in
        let enough : leb wanted (length (take wanted part)) ≡ true = ground arith in
        let long = length-take-le wanted part (leb→le wanted (length (take wanted part)) enough) in
        let (rest, whole) = s.begins in
        sym (ap (take wanted) whole ∙ take-append wanted part rest long)
  ]

  grows :
      (short prepared : List (Scored Float)) (n : ℕ)
      → leb (length prepared) (length short) ≡ false
      → (length prepared ≤ n → length prepared ≤ length short)
      → n < length prepared
  grows short prepared n more full = elim (Bool-cases (leb (length prepared) n)) [
    | inl e ↦ let k = full (leb→le (length prepared) n e) in absurd (ground arith)
    | inr e ↦ ground arith
  ]

  grow_lem :
      (fuel : ℕ) (prepared : List (Scored Float)) (wanted n : ℕ)
      → length prepared < min n (length prepared) + fuel
      → grow u f fuel prepared r d wanted n ≡ some (take wanted (finish_all u f r d prepared))
  unfolding grow
  grow_lem zero prepared wanted n h = absurd (omega arith)
  grow_lem (suc fuel) prepared wanted n h =
      let short = shortlist u f prepared n in
      let stop =
        leb wanted (length (finish u f short r d (some wanted)))
        || leb (length prepared) (length short) in
      elim (Bool-cases stop) [
        | inl e ↦
            rw e (
              ap some
                (ended prepared short wanted (shortlist-IsShortlist u f ord r d prepared n) e))
        | inr e ↦
            let more = (or-eq-false _ (leb (length prepared) (length short)) e).1 in
            let below = grows short prepared n more (shortlist_full u f ord r d prepared n) in
            rw e
              (grow_lem fuel prepared wanted (min (max (n * 4) 1) (length prepared)) (omega arith))
      ]

  rank_within_lem :
      (prepared : List (Scored Float)) (wanted : ℕ)
      → rank_within u f prepared r d wanted ≡ some (take wanted (finish_all u f r d prepared))
  unfolding rank_within
  rank_within_lem prepared wanted =
      grow_lem (length prepared + 2) prepared wanted wanted (omega arith)

  -- The number of suggestions that a limit allows.
  abbrev pub cut : Limit → List (Suggestion Float) → List (Suggestion Float)
  cut unlimited all' = all'
  cut (at_most n) all' = take n all'
  cut (negative n) all' = []

  -- Whatever the candidates and the limit, where floats are ordered by `<=`: `rank` returns, and
  -- answers with the ranking of all candidates, rendered and with its duplicates dropped, cut to the
  -- limit; a negative limit cuts to nothing. So choosing a shortlist before rendering loses nothing.
  pub rank-cut :
      (candidates : List Candidate) (limit : Limit)
      → rank u f candidates r d limit
        ≡ some (cut limit (finish_all u f r d (prepare u f candidates r)))
  unfolding rank finish
  rank-cut candidates unlimited = refl
  rank-cut candidates (at_most n) = rank_within_lem (prepare u f candidates r) n
  rank-cut candidates (negative n) = rank_within_lem (prepare u f candidates r) 0
