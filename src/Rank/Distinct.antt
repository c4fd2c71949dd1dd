-- ===== src/Rank/Distinct.antt =====
-- engine/rank.py: no suggestion is made twice.
use pysqlsuggestions.Prelude.{
  ℕ, zero, suc, Bool, true, false, not, ◌&&◌, ◌||◌, List, [], ◌∷◌, some, take, any, ◌==◌, ==_iff,
  ==_refl, text_eq, text_eq_iff, text_eq_refl, ◌≡◌, refl, ap, ap₂, inl, inr, Bool-cases,
  and-eq-true, arith,
}
use pysqlsuggestions.Lex.Token.{Chars}
use pysqlsuggestions.Dialect.{Dialect}
use pysqlsuggestions.Types.{kind_index, is_kind, Request, Candidate}
use pysqlsuggestions.Rank.Match.{Floats, IsOrdered}
use pysqlsuggestions.Rank.Defs.{
  Suggestion, Row, Limit, unlimited, at_most, negative, same_key, dedupe, finish_all, prepare, rank,
}
use pysqlsuggestions.Rank.Limit.{cut, rank-cut}

module _ (u : Chars) (f : Floats) where
  open f use {Float}

  -- No two suggestions of a list have one kind and one text.
  abbrev pub no_twins : List (Suggestion Float) → Bool
  no_twins [] = true
  no_twins (s ∷ rest) = not (any (λ y. same_key u f s y) rest) && no_twins rest

  same_key_trans :
      (y s t : Suggestion Float) → same_key u f s t ≡ true → same_key u f y s ≡ same_key u f y t
  unfolding same_key is_kind
  same_key_trans y s t h =
      let parts = and-eq-true (kind_index s.kind == kind_index t.kind) (text_eq s.text t.text) h in
      ap₂ (◌&&◌)
        (ap (λ k. kind_index y.kind == k)
          ((==_iff (kind_index s.kind) (kind_index t.kind)).0 (parts.0)))
        (ap (text_eq y.text) ((text_eq_iff s.text t.text).0 (parts.1)))

  any-same_key :
      (seen : List (Suggestion Float)) (s t : Suggestion Float)
      → same_key u f s t ≡ true
      → any (λ y. same_key u f y s) seen ≡ any (λ y. same_key u f y t) seen
  any-same_key [] s t h = refl
  any-same_key (y ∷ seen) s t h = ap₂ (◌||◌) (same_key_trans y s t h) (any-same_key seen s t h)

  same_key_refl : (s : Suggestion Float) → same_key u f s s ≡ true
  unfolding same_key is_kind
  same_key_refl s = rw (==_refl (kind_index s.kind), text_eq_refl s.text) refl

  or-true : (b : Bool) → (b || true) ≡ true
  or-true b = ground arith

  dedupe-seen :
      (seen : List (Suggestion Float)) (rows : List (Row Float)) (s : Suggestion Float)
      → any (λ y. same_key u f y s) seen ≡ true
      → any (λ y. same_key u f s y) (dedupe u f seen rows) ≡ false
  unfolding dedupe
  dedupe-seen seen [] s h = refl
  dedupe-seen seen (x ∷ rows) s h =
      let t = x.suggestion in
      elim (Bool-cases (any (λ y. same_key u f y t) seen)) [
        | inl e ↦ rw e (dedupe-seen seen rows s h)
        | inr e ↦
            let other : same_key u f s t ≡ false = elim (Bool-cases (same_key u f s t)) [
              | inl same ↦ absurd (ground (arith, h, e, any-same_key seen s t same))
              | inr ne ↦ ne
            ] in
            rw (e, other) (dedupe-seen (t ∷ seen) rows s (rw h (or-true (same_key u f t s))))
      ]

  dedupe-no_twins :
      (seen : List (Suggestion Float)) (rows : List (Row Float))
      → no_twins (dedupe u f seen rows) ≡ true
  unfolding dedupe
  dedupe-no_twins seen [] = refl
  dedupe-no_twins seen (x ∷ rows) =
      let t = x.suggestion in
      elim (Bool-cases (any (λ y. same_key u f y t) seen)) [
        | inl e ↦ rw e (dedupe-no_twins seen rows)
        | inr e ↦
            rw (e, dedupe-seen (t ∷ seen) rows t (rw (same_key_refl t) refl))
              (dedupe-no_twins (t ∷ seen) rows)
      ]

  any-take :
      (p : Suggestion Float → Bool) (n : ℕ) (xs : List (Suggestion Float))
      → any p xs ≡ false
      → any p (take n xs) ≡ false
  any-take p zero xs h = refl
  any-take p (suc n) [] h = refl
  any-take p (suc n) (x ∷ xs) h = ground (arith, any-take p n xs)

  take-no_twins :
      (n : ℕ) (xs : List (Suggestion Float)) → no_twins xs ≡ true → no_twins (take n xs) ≡ true
  take-no_twins zero xs h = refl
  take-no_twins (suc n) [] h = refl
  take-no_twins (suc n) (x ∷ xs) h =
      let p = λ (y : Suggestion Float). same_key u f x y in
      ground (arith, h, any-take p n xs, take-no_twins n xs)

  cut-no_twins :
      (ord : IsOrdered f) (r : Request) (d : Dialect) (limit : Limit) (xs : List (Suggestion Float))
      → no_twins xs ≡ true
      → no_twins (cut u f ord r d limit xs) ≡ true
  cut-no_twins ord r d unlimited xs h = h
  cut-no_twins ord r d (at_most n) xs h = take-no_twins n xs h
  cut-no_twins ord r d (negative n) xs h = refl

  -- Whatever the candidates and the limit, where floats are ordered by `<=`: no two of the suggestions
  -- that `rank` answers with have one kind and one text.
  pub rank-no_twins :
      (ord : IsOrdered f) (candidates : List Candidate) (r : Request) (d : Dialect) (limit : Limit)
      → (found : List (Suggestion Float)) × (rank u f candidates r d limit ≡ some found)
        × (no_twins found ≡ true)
  unfolding finish_all
  rank-no_twins ord candidates r d limit =
      let whole = finish_all u f r d (prepare u f candidates r) in
      (
        cut u f ord r d limit whole,
        rank-cut u f ord r d candidates limit,
        cut-no_twins ord r d limit whole (dedupe-no_twins [] _),
      )
