-- ===== src/Prelude/Members.antt =====
-- Membership in a list of strings, and the principle that a list of different strings, all of which
-- a second list has, is no longer than that list.
use Prim.Native.Nat.{◌≤◌, ◌<◌}
use mathlib.Core.Path.{◌≡◌, refl, ap, ◌∙◌}
use mathlib.Core.Logic.{inl, inr}
use mathlib.Core.Bool.{Bool, true, false, not, ◌&&◌}
use mathlib.Core.List.{List, [], ◌∷◌}
use native.Mathlib.Omega.{arith}
use pysqlsuggestions.Prelude.Tests.{Bool-cases, and-eq-true, or-eq-false}
use pysqlsuggestions.Prelude.Lists.{length, keep, all}
use pysqlsuggestions.Prelude.Text.{Str, text_eq, text_eq_iff, text_eq_refl, has_text}

abbrev pub distinct : List Str → Bool
distinct [] = true
distinct (x ∷ xs) = not (has_text xs x) && distinct xs

-- The list without a string.
abbrev without : Str → List Str → List Str
without x ys = keep (λ y. not (text_eq y x)) ys

length-without_le : (x : Str) (ys : List Str) → length (without x ys) ≤ length ys
length-without_le x [] = omega arith
length-without_le x (y ∷ ys) = ground (arith, length-without_le x ys)

length-without_lt :
    (x : Str) (ys : List Str) → has_text ys x ≡ true → length (without x ys) < length ys
length-without_lt x [] h = absurd (ground arith)
length-without_lt x (y ∷ ys) h = elim (Bool-cases (text_eq y x)) [
  | inl e ↦ rw e (ground (arith, length-without_le x ys))
  | inr e ↦ let rest = length-without_lt x ys (ground arith) in rw e (omega arith)
]

has_text-without :
    (x z : Str) (ys : List Str)
    → text_eq x z ≡ false
    → has_text ys z ≡ true
    → has_text (without x ys) z ≡ true
has_text-without x z [] ne h = h
has_text-without x z (y ∷ ys) ne h = elim (Bool-cases (text_eq y x)) [
  | inl e ↦
      let same = (text_eq_iff y x).0 e in
      let other = ap (λ t. text_eq t z) same ∙ ne in
      rw e (has_text-without x z ys ne (ground arith))
  | inr e ↦ rw e (ground (arith, has_text-without x z ys ne))
]

abbrev all_in : List Str → List Str → Bool
all_in xs ys = all (has_text ys) xs

pub not-eq-true : (b : Bool) → not b ≡ true → b ≡ false
not-eq-true b h = ground arith

text_eq-false_comm : (a b : Str) → text_eq a b ≡ false → text_eq b a ≡ false
text_eq-false_comm a b h = elim (Bool-cases (text_eq b a)) [
  | inl e ↦ absurd (ground (arith, text_eq_refl a, ap (text_eq a) ((text_eq_iff b a).0 e)))
  | inr e ↦ e
]

all_in-without :
    (x : Str) (xs ys : List Str)
    → has_text xs x ≡ false
    → all_in xs ys ≡ true
    → all_in xs (without x ys) ≡ true
all_in-without x [] ys new h = refl
all_in-without x (z ∷ zs) ys new h =
    let ne = or-eq-false (text_eq z x) (has_text zs x) new in
    let parts = and-eq-true (has_text ys z) (all_in zs ys) h in
    let first = has_text-without x z ys (text_eq-false_comm z x ne.0) parts.0 in
    rw first (all_in-without x zs ys ne.1 parts.1)

pub length-le-of_distinct :
    (xs ys : List Str) → distinct xs ≡ true → all_in xs ys ≡ true → length xs ≤ length ys
length-le-of_distinct [] ys d h = omega arith
length-le-of_distinct (x ∷ xs) ys d h =
    let new = not-eq-true (has_text xs x) (and-eq-true (not (has_text xs x)) (distinct xs) d).0 in
    let parts = and-eq-true (has_text ys x) (all_in xs ys) h in
    let rest =
      length-le-of_distinct xs (without x ys) (and-eq-true (not (has_text xs x)) (distinct xs) d).1
        (all_in-without x xs ys new parts.1) in
    omega (arith, length-without_lt x ys parts.0)
