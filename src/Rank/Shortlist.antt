-- ===== src/Rank/Shortlist.antt =====
-- engine/rank.py: a shortlist ranks to a first part of the whole ranking.
use pysqlsuggestions.Prelude.{
  ℕ, ◌≤◌, Bool, true, not, List, [], ◌∷◌, ◌++◌, map, any, length, take, keep, sort, leb, ◌==◌,
  ==_iff, ◌≡◌, refl, sym, ap, ◌∙◌, arith, Bool-cases, Option-cases, inl, inr, sort-keep,
}
use mathlib.Core.List.{append-nil}
use pysqlsuggestions.Lex.Token.{Chars}
use pysqlsuggestions.Dialect.{Dialect}
use pysqlsuggestions.Types.{Request}
use pysqlsuggestions.Rank.Match.{Floats, IsOrdered}
use pysqlsuggestions.Rank.Defs.{
  Suggestion, Scored, Row, then_by, order_le, row_le, last_of, shortlist, finish_row, same_key,
  dedupe, finish_all,
}
use pysqlsuggestions.Rank.Prefix.{leb_trans, then_by_trans, row_le_total}

then_by_mono :
    {A : Type 0} (le : A → A → Bool) (x y : A) (b c : Bool)
    → (b ≡ true → c ≡ true)
    → then_by le x y b ≡ true
    → then_by le x y c ≡ true
then_by_mono le x y b c h e = ground arith

map-keep :
    {A B : Type 0} (g : A → B) (p : B → Bool) (xs : List A)
    → map g (keep (λ x. p (g x)) xs) ≡ keep p (map g xs)
map-keep g p [] = refl
map-keep g p (x ∷ xs) = elim (Bool-cases (p (g x))) [
  | inl e ↦ rw e (ap (◌∷◌ (g x)) (map-keep g p xs))
  | inr e ↦ rw e (map-keep g p xs)
]

length-keep-le : {A : Type 0} (p : A → Bool) (xs : List A) → length (keep p xs) ≤ length xs
length-keep-le p [] = omega arith
length-keep-le p (x ∷ xs) = ground (arith, length-keep-le p xs)

pub keep_all :
    {A : Type 0} (p : A → Bool) (xs : List A) → length xs ≤ length (keep p xs) → keep p xs ≡ xs
keep_all p [] h = refl
keep_all p (x ∷ xs) h = elim (Bool-cases (p x)) [
  | inl e ↦ rw e (ap (◌∷◌ x) (keep_all p xs (let k = rw e at h in omega arith)))
  | inr e ↦ let k = rw e at h in absurd (omega (arith, length-keep-le p xs))
]

module _ (u : Chars) (f : Floats) (ord : IsOrdered f) (r : Request) (d : Dialect) where
  open f use {Float, le}

  -- The row is not behind the boundary, by the three keys that need no rendering.
  abbrev passes : Scored Float → Row Float → Bool
  passes b x =
      then_by leb x.restricted b.restricted (then_by le x.negated b.negated (leb x.size b.size))

  row_front :
      (x y : Row Float)
      → row_le u f x y ≡ true
      → then_by leb x.restricted y.restricted (then_by le x.negated y.negated (leb x.size y.size))
        ≡ true
  unfolding row_le
  row_front x y =
      then_by_mono leb x.restricted y.restricted _ _
        (then_by_mono le x.negated y.negated _ _ (λ h. ground arith))

  passes_down :
      (b : Scored Float) (x y : Row Float)
      → passes b y ≡ true
      → row_le u f x y ≡ true
      → passes b x ≡ true
  passes_down b x y h e =
      then_by_trans leb leb_trans x.restricted y.restricted b.restricted _ _ _
        (then_by_trans le ord.trans x.negated y.negated b.negated _ _ _
          (leb_trans x.size y.size b.size))
        (row_front x y e) h

  dedupe-append :
      (seen : List (Suggestion Float)) (xs ys : List (Row Float))
      → (rest : List (Suggestion Float)) × (dedupe u f seen (xs ++ ys) ≡ dedupe u f seen xs ++ rest)
  unfolding dedupe
  dedupe-append seen [] ys = (dedupe u f seen ys, refl)
  dedupe-append seen (x ∷ xs) ys =
      let s = x.suggestion in
      elim (Bool-cases (any (λ y. same_key u f y s) seen)) [
        | inl e ↦ let (rest, h) = dedupe-append seen xs ys in (rest, rw e h)
        | inr e ↦ let (rest, h) = dedupe-append (s ∷ seen) xs ys in (rest, rw e (ap (◌∷◌ s) h))
      ]

  -- What `prefix` says of two rankings: the second begins with the first.
  abbrev pub Begins : List (Suggestion Float) → List (Suggestion Float) → Type 0
  Begins part whole = (rest : List (Suggestion Float)) × (whole ≡ part ++ rest)

  finish_all-keep :
      (b : Scored Float) (prepared : List (Scored Float))
      → Begins
          (finish_all u f r d (keep (λ row. order_le u f row b) prepared))
          (finish_all u f r d prepared)
  unfolding finish_all order_le finish_row
  finish_all-keep b prepared =
      let rows = map (finish_row u f r d) prepared in
      let low = sort (row_le u f) (keep (passes b) rows) in
      let high = sort (row_le u f) (keep (λ x. not (passes b x)) rows) in
      let split = sort-keep (row_le u f) (passes b) (row_le_total u f ord) (passes_down b) rows in
      let (rest, h) = dedupe-append [] low high in
      (
        rest,
        ap (dedupe u f []) (sym split)
            ∙ h
            ∙ ap (λ l. dedupe u f [] (sort (row_le u f) l) ++ rest)
                (sym (map-keep (finish_row u f r d) (passes b) prepared)),
      )

  -- A shortlist is the whole or ranks to a first part of it; it is the whole if it is as long, and
  -- whenever as many rows are asked for as there are.
  pub record IsShortlist (prepared short : List (Scored Float)) : Type 0 where
    pub begins : Begins (finish_all u f r d short) (finish_all u f r d prepared)
    pub full : length prepared ≤ length short → short ≡ prepared

  empty-IsShortlist : (prepared : List (Scored Float)) → IsShortlist prepared []
  unfolding finish_all dedupe
  empty-IsShortlist prepared = record {
    begins = (finish_all u f r d prepared, refl);
    full = λ h. sym (empty_of prepared h);
  }
    where
      empty_of : (xs : List (Scored Float)) → length xs ≤ 0 → xs ≡ []
      empty_of [] h = refl
      empty_of (x ∷ xs) h = absurd (omega arith)

  whole-IsShortlist : (prepared : List (Scored Float)) → IsShortlist prepared prepared
  whole-IsShortlist prepared = record {
    begins = ([], sym (append-nil (finish_all u f r d prepared)));
    full = λ h. refl;
  }

  kept-IsShortlist :
      (prepared : List (Scored Float)) (b : Scored Float)
      → IsShortlist prepared (keep (λ row. order_le u f row b) prepared)
  kept-IsShortlist prepared b = record {
    begins = finish_all-keep b prepared;
    full = keep_all (λ row. order_le u f row b) prepared;
  }

  pub shortlist-IsShortlist :
      (prepared : List (Scored Float)) (n : ℕ) → IsShortlist prepared (shortlist u f prepared n)
  unfolding shortlist
  shortlist-IsShortlist prepared n = elim (Bool-cases (n == 0)) [
    | inl e ↦ rw (e, shortlist) (empty-IsShortlist prepared)
    | inr e ↦ elim (Bool-cases (leb (length prepared) n)) [
      | inl whole ↦ rw (e, shortlist) (rw whole (whole-IsShortlist prepared))
      | inr cut ↦ elim (Option-cases (last_of u f (take n (sort (order_le u f) prepared)))) [
        | inl none' ↦ rw (e, shortlist) (rw cut (rw none' (empty-IsShortlist prepared)))
        | inr (b, last) ↦ rw (e, shortlist) (rw cut (rw last (kept-IsShortlist prepared b)))
      ]
    ]
  ]

  pub shortlist_full :
      (prepared : List (Scored Float)) (n : ℕ)
      → length prepared ≤ n
      → length prepared ≤ length (shortlist u f prepared n)
  unfolding shortlist
  shortlist_full prepared n h = elim (Bool-cases (n == 0)) [
    | inl e ↦ rw (e, shortlist) (let z = (==_iff n 0).0 e in omega arith)
    | inr e ↦
        let all' : leb (length prepared) n ≡ true = ground arith in
        rw (e, shortlist) (rw all' (omega arith))
  ]
