-- ===== src/Prelude/Decimal.antt =====
-- `str` of a number that is not negative, with its inverse.
use Prim.Native.Nat.{ℕ, zero, suc, ◌+◌, ◌*◌, ◌-◌, ◌/◌, ◌%◌, ◌<◌}
use mathlib.Core.Path.{◌≡◌, refl, ap, sym, ◌∙◌}
use mathlib.Core.Logic.{inl, inr}
use mathlib.Core.Bool.{false}
use mathlib.Core.List.{[], ◌∷◌, ◌++◌}
use native.Mathlib.Omega.{arith}
use pysqlsuggestions.Prelude.Tests.{ltb, if◌then◌else◌, Bool-cases}
use pysqlsuggestions.Prelude.Text.{Str}

-- The first number bounds the digits.
unfoldable pub decimal_digits : ℕ → ℕ → Str
decimal_digits zero n = []
decimal_digits (suc k) n =
    let rest = decimal_digits k (n / 10) in
    if ltb n 10 then (b'0' + n) ∷ [] else rest ++ ((b'0' + n % 10) ∷ [])

unfoldable pub decimal : ℕ → Str
decimal n = decimal_digits (suc n) n

decimal_value : ℕ → Str → ℕ
decimal_value acc [] = acc
decimal_value acc (c ∷ cs) = decimal_value (acc * 10 + (c - b'0')) cs

decimal_value-append :
    (acc : ℕ) (xs ys : Str) → decimal_value acc (xs ++ ys) ≡ decimal_value (decimal_value acc xs) ys
unfolding decimal_value
decimal_value-append acc [] ys = refl
decimal_value-append acc (x ∷ xs) ys = decimal_value-append (acc * 10 + (x - b'0')) xs ys

ltb-eq-false : (n k : ℕ) → ltb n k ≡ false → k < suc n
ltb-eq-false n k e = ground arith

decimal_value-decimal_digits : (k n : ℕ) → n < k → decimal_value 0 (decimal_digits k n) ≡ n
unfolding decimal_value decimal_digits
decimal_value-decimal_digits zero n h = absurd (omega arith)
decimal_value-decimal_digits (suc k) n h = elim (Bool-cases (ltb n 10)) [
  | inl e ↦ rw e (omega arith)
  | inr e ↦
      let big = ltb-eq-false n 10 e in
      let ih = decimal_value-decimal_digits k (n / 10) (omega arith) in
      rw (e, decimal_value-append 0 (decimal_digits k (n / 10)) ((b'0' + n % 10) ∷ []), ih)
        (omega arith)
]

pub decimal_inj : (m n : ℕ) → decimal m ≡ decimal n → m ≡ n
unfolding decimal
decimal_inj m n h =
    sym (decimal_value-decimal_digits (suc m) m (omega arith))
    ∙ (ap (decimal_value 0) h ∙ decimal_value-decimal_digits (suc n) n (omega arith))
