-- ===== src/Joins/Each.antt =====
-- engine/joins.py: a loop over a list whose body may fail, and what its answer holds.
use pysqlsuggestions.Prelude.{
  List, [], ◌∷◌, ◌++◌, Option, none, some, ◌≡◌, refl, sym, subst, inl, inr, arith,
}
use mathlib.Core.Option.{some-injective}
use mathlib.Core.List.{Memᴰ}
use mathlib.Core.List.Memᴰ as Memᴰ
use pysqlsuggestions.Joins.Clauses.{for_each, both, but_last}

-- The code gives an answer.
unfoldable pub Answers : {A : Type 0} → Option A → Type 0
Answers {A} o = (a : A) × (o ≡ some a)

both-Answers :
    {A : Type 0} (xs ys : Option (List A)) → Answers xs → Answers ys → Answers (both xs ys)
unfolding Answers
both-Answers xs ys h k = (h.0 ++ k.0, rw (h.1, k.1) refl)

pub for_each-Answers :
    {A B : Type 0} (f : A → Option (List B)) (xs : List A)
    → ((x : A) → Memᴰ x xs → Answers (f x))
    → Answers (for_each f xs)
unfolding Answers
for_each-Answers f [] h = ([], refl)
for_each-Answers f (x ∷ xs) h =
    both-Answers (f x) (for_each f xs) (h x (Memᴰ.head refl))
      (for_each-Answers f xs (λ y m. h y (Memᴰ.tail m)))

-- What a joined list has comes from one of the parts.
both-Mem :
    {A : Type 0} (xs ys : Option (List A)) (zs : List A) (a : A)
    → both xs ys ≡ some zs
    → Memᴰ a zs
    → ((ps : List A) × (qs : List A) × (xs ≡ some ps) × (ys ≡ some qs) × Memᴰ a (ps ++ qs))
both-Mem none ys zs a h m = absurd (ground (arith, h))
both-Mem (some ps) none zs a h m = absurd (ground (arith, h))
both-Mem (some ps) (some qs) zs a h m =
    (ps, qs, refl, refl, subst (λ l. Memᴰ a l) (sym (some-injective (ps ++ qs) zs h)) m)

pub for_each-Mem :
    {A B : Type 0} (f : A → Option (List B)) (xs : List A) (ys : List B) (b : B)
    → for_each f xs ≡ some ys
    → Memᴰ b ys
    → (x : A) × Memᴰ x xs × ((zs : List B) × (f x ≡ some zs) × Memᴰ b zs)
for_each-Mem f [] ys b h m =
    absurd (Memᴰ.not-nil (subst (λ l. Memᴰ b l) (sym (some-injective [] ys h)) m))
for_each-Mem f (x ∷ xs) ys b h m =
    let parts = both-Mem (f x) (for_each f xs) ys b h m in
    elim (Memᴰ.append_cases (parts.0) (parts.4)) [
      | inl here ↦ (x, Memᴰ.head refl, (parts.0, parts.2, here))
      | inr there ↦
          let found = for_each-Mem f xs (parts.1) b (parts.3) there in
          (found.0, Memᴰ.tail (found.1), found.2)
    ]

pub but_last-Mem : {A : Type 0} (xs : List A) (a : A) → Memᴰ a (but_last xs) → Memᴰ a xs
but_last-Mem [] a m = m
but_last-Mem (x ∷ []) a m = absurd (Memᴰ.not-nil m)
but_last-Mem (x ∷ y ∷ ys) a m = elim (Memᴰ.cases_cons m) [
  | inl e ↦ Memᴰ.head e
  | inr m' ↦ Memᴰ.tail (but_last-Mem (y ∷ ys) a m')
]
