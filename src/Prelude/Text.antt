-- ===== src/Prelude/Text.antt =====
-- A Python `str` as its list of code points, with the string methods that the code uses.
use Prim.Native.Char.{code}
use Prim.Native.Nat.{ℕ, suc}
use Prim.Native.String.{String}
use mathlib.Core.Path.{◌≡◌, refl}
use mathlib.Core.Logic.{◌↔◌}
use mathlib.Core.Bool.{Bool, true, false, ◌&&◌}
use mathlib.Core.List.{List, [], ◌∷◌}
use mathlib.Core.Option.{Option, none, some}
use native.Mathlib.Omega.{arith}
use pysqlsuggestions.Prelude.Tests.{◌==◌, if◌then◌else◌}
use pysqlsuggestions.Prelude.Lists.{any}

abbrev pub Str : Type 0
Str = List ℕ

-- The code points of a literal.
abbrev pub codes : String → Str
codes String.[] = []
codes (String.◌∷◌ c s) = code c ∷ codes s

-- `a == b` on strings.
unfoldable pub text_eq : Str → Str → Bool
text_eq [] [] = true
text_eq (x ∷ xs) (y ∷ ys) = x == y && text_eq xs ys
text_eq _ _ = false

pub text_eq_iff : (a b : Str) → (text_eq a b ≡ true) ↔ (a ≡ b)
unfolding text_eq
text_eq_iff (x ∷ a) (y ∷ b) = ground (arith, text_eq_iff a b)
text_eq_iff _ _ = ground arith

pub text_eq_refl : (a : Str) → text_eq a a ≡ true
text_eq_refl a = (text_eq_iff a a).1 refl

-- `bool(text)`.
abbrev pub non_empty {ℓ} : {A : Type ℓ} → List A → Bool
non_empty [] = false
non_empty (x ∷ xs) = true

-- `text.startswith(prefix)`.
unfoldable pub starts_with : Str → Str → Bool
starts_with text [] = true
starts_with [] (y ∷ ys) = false
starts_with (x ∷ xs) (y ∷ ys) = x == y && starts_with xs ys

-- `src.find(sub, i)`, on the part of the source that starts at offset `i`.
unfoldable pub find_from : Str → Str → ℕ → Option ℕ
unfolding starts_with
find_from sub [] i = if starts_with [] sub then some i else none
find_from sub (c ∷ cs) i = if starts_with (c ∷ cs) sub then some i else find_from sub cs (suc i)

-- `char in text` and `text in tuple`.
abbrev pub has_char : Str → ℕ → Bool
has_char text c = any (λ x. x == c) text

abbrev pub has_text : List Str → Str → Bool
has_text texts t = any (λ x. text_eq x t) texts
