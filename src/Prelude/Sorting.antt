-- ===== src/Prelude/Sorting.antt =====
-- A stable sort of the elements that pass a downward closed test is a first part of the whole sort.
use mathlib.Core.Path.{◌≡◌, refl, ap, sym, ◌∙◌}
use mathlib.Core.Bool.{Bool, true, false, not}
use mathlib.Core.Logic.{inl, inr}
use mathlib.Core.List.{List, [], ◌∷◌, ◌++◌}
use native.Mathlib.Omega.{arith}
use Prim.Native.Nat.{ℕ, zero, suc, ◌≤◌}
use pysqlsuggestions.Prelude.Tests.{Bool-cases, and-eq-true}
use pysqlsuggestions.Prelude.Lists.{
  all, keep, insert_sorted, sort, all-sort, all-keep, length, take,
}

module _ {ℓ} {A : Type ℓ} (before : A → A → Bool) (q : A → Bool) where
  abbrev fails : A → Bool
  fails x = not (q x)

  module _ (total : (x y : A) → before x y ≡ false → before y x ≡ true)
      (down : (x y : A) → q y ≡ true → before x y ≡ true → q x ≡ true) where
    insert-low :
        (x : A) (xs ys : List A)
        → q x ≡ true
        → all fails ys ≡ true
        → insert_sorted before x (xs ++ ys) ≡ insert_sorted before x xs ++ ys
    insert-low x [] [] h k = refl
    insert-low x [] (y ∷ ys) h k = elim (Bool-cases (before x y)) [
      | inl e ↦ rw e
      | inr e ↦
          let fail = (and-eq-true (fails y) (all fails ys) k).0 in
          let pass = down y x h (total x y e) in absurd (ground arith)
    ]
    insert-low x (a ∷ xs) ys h k = elim (Bool-cases (before x a)) [
      | inl e ↦ rw e
      | inr e ↦ rw e (ap (◌∷◌ a) (insert-low x xs ys h k))
    ]

    insert-high :
        (x : A) (xs ys : List A)
        → q x ≡ false
        → all q xs ≡ true
        → insert_sorted before x (xs ++ ys) ≡ xs ++ insert_sorted before x ys
    insert-high x [] ys h k = refl
    insert-high x (a ∷ xs) ys h k =
        let parts = and-eq-true (q a) (all q xs) k in
        elim (Bool-cases (before x a)) [
          | inl e ↦ let pass = down x a parts.0 e in absurd (ground arith)
          | inr e ↦ rw e (ap (◌∷◌ a) (insert-high x xs ys h parts.1))
        ]

    pub sort-keep :
        (xs : List A) → sort before (keep q xs) ++ sort before (keep fails xs) ≡ sort before xs
    sort-keep [] = refl
    sort-keep (x ∷ xs) =
        let low = sort before (keep q xs) in
        let high = sort before (keep fails xs) in
        let ih = ap (insert_sorted before x) (sort-keep xs) in
        elim (Bool-cases (q x)) [
          | inl e ↦ rw e (
              sym (
                insert-low x low high e (all-sort fails before (keep fails xs) ∙ all-keep fails xs))
              ∙ ih)
          | inr e ↦
              rw e (
                sym (insert-high x low high e (all-sort q before (keep q xs) ∙ all-keep q xs)) ∙ ih)
        ]

module _ {ℓ} {A : Type ℓ} where
  pub take-append : (n : ℕ) (xs ys : List A) → n ≤ length xs → take n (xs ++ ys) ≡ take n xs
  take-append zero xs ys h = refl
  take-append (suc n) [] ys h = absurd (omega arith)
  take-append (suc n) (x ∷ xs) ys h = ap (◌∷◌ x) (take-append n xs ys (omega arith))

  pub length-take-le : (n : ℕ) (xs : List A) → n ≤ length (take n xs) → n ≤ length xs
  length-take-le zero xs h = omega arith
  length-take-le (suc n) [] h = h
  length-take-le (suc n) (x ∷ xs) h = let r = length-take-le n xs (omega arith) in omega arith
