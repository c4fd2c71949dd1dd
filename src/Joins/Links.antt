-- ===== src/Joins/Links.antt =====
-- engine/joins.py: `_links` against a description of the links that a constraint stands for.
use pysqlsuggestions.Prelude.{
  some, ◌++◌, Bool-cases, Bool, true, false, List, [], ◌∷◌, Str, map, ◌≡◌, refl, sym, ap, subst,
  ◌∙◌, ◌↔◌, ◌⊎◌, inl, inr, if◌then◌else◌,
}
use mathlib.Core.List.{Memᴰ}
use mathlib.Core.List.Memᴰ as Memᴰ
use pysqlsuggestions.Types.{ForeignKey}
use pysqlsuggestions.Joins.Pairs.{
  paired, zip-paired, Pairs-uneven, Pairs-paired, flip-Pairs, map-flip-flip,
}
use pysqlsuggestions.Joins.Defs.{
  Link, flip, malformed, forward_link, reverse_link, at_source, at_target, place_link, add_link,
  collect_links, links,
}
use pysqlsuggestions.Joins.Described.{
  IsLink, from_source, from_target, matches_iff, forward_link-IsLink, reverse_link-IsLink,
}

-- Membership in one of the two lists.
In : Link → List Link × List Link → Type 0
In l found = Memᴰ l (found.0) ⊎ Memᴰ l (found.1)

-- The body of the loop on the answers of its three tests.
abbrev pick : Bool → Bool → Bool → Link → Link → List Link × List Link → List Link × List Link
pick bad at to f r found =
    if bad
    then found
    else (if at then (f ∷ found.0, found.1) else (if to then (found.0, r ∷ found.1) else found))

abbrev to_forward : ForeignKey → Link
to_forward e = forward_link e (paired e.columns e.ref_columns)

abbrev to_reverse : ForeignKey → Link
to_reverse e = reverse_link e (paired e.columns e.ref_columns)

-- A round, and all rounds, where no side is longer than the other.
abbrev added : Str × Str → ForeignKey → List Link × List Link → List Link × List Link
added source e found =
    pick (malformed e) (at_source source e) (at_target source e) (to_forward e) (to_reverse e) found

abbrev gathered : Str × Str → List ForeignKey → List Link × List Link
gathered source [] = ([], [])
gathered source (e ∷ edges) = added source e (gathered source edges)

abbrev pub listed : Str × Str → List ForeignKey → List Link
listed source edges = (gathered source edges).0 ++ (gathered source edges).1

add_link-added :
    (source : Str × Str) (e : ForeignKey) (found : List Link × List Link)
    → add_link source e found ≡ some (added source e found)
unfolding add_link place_link malformed
add_link-added source e found = elim (Bool-cases (malformed e)) [
  | inl bad ↦ rw bad refl
  | inr even ↦ rw (even, zip-paired e.columns e.ref_columns even) refl
]

collect_links-gathered :
    (source : Str × Str) (edges : List ForeignKey)
    → collect_links source edges ≡ some (gathered source edges)
unfolding collect_links
collect_links-gathered source [] = refl
collect_links-gathered source (e ∷ edges) =
    rw (collect_links, collect_links-gathered source edges)
      (add_link-added source e (gathered source edges))

-- No constraint makes `_links` raise.
pub links-listed :
    (source : Str × Str) (edges : List ForeignKey) → links source edges ≡ some (listed source edges)
unfolding links
links-listed source edges = rw (collect_links-gathered source edges) refl

In-cons_left :
    (f l : Link) (found : List Link × List Link)
    → In l (f ∷ found.0, found.1)
    → (l ≡ f) ⊎ In l found
unfolding In
In-cons_left f l found (inl m) = elim (Memᴰ.cases_cons m) [ inl e ↦ inl e | inr m' ↦ inr (inl m') ]
In-cons_left f l found (inr m) = inr (inr m)

In-cons_right :
    (f l : Link) (found : List Link × List Link)
    → In l (found.0, f ∷ found.1)
    → (l ≡ f) ⊎ In l found
unfolding In
In-cons_right f l found (inl m) = inr (inl m)
In-cons_right f l found (inr m) = elim (Memᴰ.cases_cons m) [ inl e ↦ inl e | inr m' ↦ inr (inr m') ]

In-pick :
    (bad at to : Bool) (f r l : Link) (found : List Link × List Link)
    → In l (pick bad at to f r found)
    → ((bad ≡ false) × (at ≡ true) × (l ≡ f))
      ⊎ ((bad ≡ false) × (at ≡ false) × (to ≡ true) × (l ≡ r))
      ⊎ In l found
In-pick true at to f r l found m = inr (inr m)
In-pick false true to f r l found m = elim (In-cons_left f l found m) [
  | inl e ↦ inl (refl, refl, e)
  | inr m' ↦ inr (inr m')
]
In-pick false false true f r l found m = elim (In-cons_right r l found m) [
  | inl e ↦ inr (inl (refl, refl, refl, e))
  | inr m' ↦ inr (inr m')
]
In-pick false false false f r l found m = inr (inr m)

pick-In :
    (bad at to : Bool) (f r l : Link) (found : List Link × List Link)
    → In l found
    → In l (pick bad at to f r found)
unfolding In
pick-In true at to f r l found m = m
pick-In false true to f r l found (inl m) = inl (Memᴰ.tail m)
pick-In false true to f r l found (inr m) = inr m
pick-In false false true f r l found (inl m) = inl m
pick-In false false true f r l found (inr m) = inr (Memᴰ.tail m)
pick-In false false false f r l found m = m

In-added :
    (source : Str × Str) (e : ForeignKey) (found : List Link × List Link) (l : Link)
    → In l (added source e found)
    → IsLink source e l ⊎ In l found
In-added source e found l m =
    elim (In-pick (malformed e) (at_source source e) (at_target source e) (to_forward e)
      (to_reverse e) l found m) [
        | inl here ↦ inl (
            subst (IsLink source e) (sym (here.2)) (forward_link-IsLink source e (here.0) (here.1)))
        | inr (inl there) ↦ inl (
            subst (IsLink source e) (sym (there.3))
              (reverse_link-IsLink source e (there.0) (there.1) (there.2)))
        | inr (inr m') ↦ inr m'
      ]

added-In :
    (source : Str × Str) (e : ForeignKey) (found : List Link × List Link) (l : Link)
    → In l found
    → In l (added source e found)
added-In source e found l m =
    pick-In (malformed e) (at_source source e) (at_target source e) (to_forward e) (to_reverse e) l
      found m

pick-forward :
    (bad at to : Bool) (f r l : Link) (found : List Link × List Link)
    → bad ≡ false
    → at ≡ true
    → l ≡ f
    → In l (pick bad at to f r found)
unfolding In
pick-forward bad at to f r l found even here e = rw (even, here) (inl (Memᴰ.head e))

pick-reverse :
    (bad at to : Bool) (f r l : Link) (found : List Link × List Link)
    → bad ≡ false
    → at ≡ false
    → to ≡ true
    → l ≡ r
    → In l (pick bad at to f r found)
unfolding In
pick-reverse bad at to f r l found even away here e = rw (even, away, here) (inr (Memᴰ.head e))

-- `b` fails where it would show what does not hold.
not_shown : {P : Type 0} (b : Bool) → (b ≡ true → P) → ¬ P → b ≡ false
not_shown true f n = absurd (n (f refl))
not_shown false f n = refl

IsLink-In :
    (source : Str × Str) (e : ForeignKey) (found : List Link × List Link) (l : Link)
    → IsLink source e l
    → In l (added source e found)
unfolding malformed forward_link reverse_link
IsLink-In source e found l (from_source name reach pairs whole) =
    pick-forward (malformed e) (at_source source e) (at_target source e) (to_forward e)
      (to_reverse e) l found (Pairs-uneven l.pairs e.columns e.ref_columns pairs)
      ((matches_iff e.table (source.0) (source.1) e.schema).1 (name, reach))
      (whole
        ∙ ap (λ ps. record (to_forward e) { pairs = ps })
            (Pairs-paired l.pairs e.columns e.ref_columns pairs))
IsLink-In source e found l (from_target away name reach pairs whole) =
    let turned = flip-Pairs l.pairs e.ref_columns e.columns pairs in
    let zipped = Pairs-paired (map flip l.pairs) e.columns e.ref_columns turned in
    pick-reverse (malformed e) (at_source source e) (at_target source e) (to_forward e)
      (to_reverse e) l found (Pairs-uneven (map flip l.pairs) e.columns e.ref_columns turned)
      (not_shown (at_source source e) (matches_iff e.table (source.0) (source.1) e.schema).0 away)
      ((matches_iff e.ref_table (source.0) (source.1) e.ref_schema).1 (name, reach))
      (whole
        ∙ ap (λ ps. record (to_reverse e) { pairs = ps })
            (sym (map-flip-flip l.pairs) ∙ ap (map flip) zipped))

collected-IsLink :
    (source : Str × Str) (edges : List ForeignKey) (l : Link)
    → In l (gathered source edges)
    → (e : ForeignKey) × Memᴰ e edges × IsLink source e l
unfolding In
collected-IsLink source [] l (inl m) = absurd (Memᴰ.not-nil m)
collected-IsLink source [] l (inr m) = absurd (Memᴰ.not-nil m)
collected-IsLink source (e ∷ edges) l m = elim (In-added source e (gathered source edges) l m) [
  | inl d ↦ (e, Memᴰ.head refl, d)
  | inr m' ↦ let r = collected-IsLink source edges l m' in (r.0, Memᴰ.tail (r.1), r.2)
]

IsLink-collected :
    (source : Str × Str) (edges : List ForeignKey) (l : Link) (e : ForeignKey)
    → Memᴰ e edges
    → IsLink source e l
    → In l (gathered source edges)
IsLink-collected source [] l e m d = absurd (Memᴰ.not-nil m)
IsLink-collected source (x ∷ edges) l e (Memᴰ.head same) d =
    IsLink-In source x (gathered source edges) l (subst (λ y. IsLink source y l) same d)
IsLink-collected source (x ∷ edges) l e (Memᴰ.tail m) d =
    added-In source x (gathered source edges) l (IsLink-collected source edges l e m d)

pub listed_iff :
    (source : Str × Str) (edges : List ForeignKey) (l : Link)
    → Memᴰ l (listed source edges) ↔ ((e : ForeignKey) × Memᴰ e edges × IsLink source e l)
unfolding In
listed_iff source edges l = (
  λ m. collected-IsLink source edges l (Memᴰ.append_cases (gathered source edges).0 m),
  λ found. elim (IsLink-collected source edges l (found.0) (found.1) (found.2)) [
    | inl m ↦ Memᴰ.append_left (gathered source edges).1 m
    | inr m ↦ Memᴰ.append_right (gathered source edges).0 m
  ],
)

-- `_links` answers for all constraints, the malformed ones too. A link is proposed exactly where one of
-- the constraints stands for it: its condition then has every column of that constraint, paired in
-- order. A constraint without columns, or with sides of different lengths, gives no link, and of a
-- composite key there is never a half.
pub links_iff :
    (source : Str × Str) (edges : List ForeignKey) (l : Link)
    → (found : List Link) × (links source edges ≡ some found)
      × (Memᴰ l found ↔ ((e : ForeignKey) × Memᴰ e edges × IsLink source e l))
links_iff source edges l =
    (listed source edges, links-listed source edges, listed_iff source edges l)
