-- ===== src/Prelude/Occurs.antt =====
-- Occurrence in a list, as evidence that can be taken apart.
use mathlib.Core.Path.{◌≡◌, refl, sym, ap, ◌∙◌}
use mathlib.Core.Logic.{inl, inr}
use mathlib.Core.Bool.{Bool, true, false}
use mathlib.Core.List.{List, [], ◌∷◌, Memᴰ}
use mathlib.Core.List.Memᴰ as Memᴰ
use native.Mathlib.Omega.{arith}
use pysqlsuggestions.Prelude.Tests.{Bool-cases, if◌then◌else◌}
use pysqlsuggestions.Prelude.Lists.{keep}
use pysqlsuggestions.Prelude.Text.{Str, text_eq, text_eq_iff, has_text}

keep-Mem_step :
    {A : Type 0} (p : A → Bool) (x : A) (xs rest : List A) (a : A) (b : Bool)
    → p x ≡ b
    → Memᴰ a (if b then x ∷ rest else rest)
    → (Memᴰ a rest → Memᴰ a xs × (p a ≡ true))
    → Memᴰ a (x ∷ xs) × (p a ≡ true)
keep-Mem_step p x xs rest a true e m below = elim (Memᴰ.cases_cons m) [
  | inl same ↦ (Memᴰ.head same, ap p same ∙ e)
  | inr m' ↦ let found = below m' in (Memᴰ.tail (found.0), found.1)
]
keep-Mem_step p x xs rest a false e m below = let found = below m in (Memᴰ.tail (found.0), found.1)

pub keep-Mem :
    {A : Type 0} (p : A → Bool) (xs : List A) (a : A)
    → Memᴰ a (keep p xs)
    → Memᴰ a xs × (p a ≡ true)
keep-Mem p [] a m = absurd (Memᴰ.not-nil m)
keep-Mem p (x ∷ xs) a m = keep-Mem_step p x xs (keep p xs) a (p x) refl m (keep-Mem p xs a)

pub Mem-keep :
    {A : Type 0} (p : A → Bool) (xs : List A) (a : A) → Memᴰ a xs → p a ≡ true → Memᴰ a (keep p xs)
Mem-keep p [] a m h = m
Mem-keep p (x ∷ xs) a (Memᴰ.head e) h = rw (ap p (sym e) ∙ h) (Memᴰ.head e)
Mem-keep p (x ∷ xs) a (Memᴰ.tail m) h = elim (Bool-cases (p x)) [
  | inl e ↦ rw e (Memᴰ.tail (Mem-keep p xs a m h))
  | inr e ↦ rw e (Mem-keep p xs a m h)
]

pub Mem-has_text : (xs : List Str) (t : Str) → has_text xs t ≡ true → Memᴰ t xs
Mem-has_text [] t h = absurd (ground (arith, h))
Mem-has_text (x ∷ xs) t h = elim (Bool-cases (text_eq x t)) [
  | inl e ↦ Memᴰ.head (sym ((text_eq_iff x t).0 e))
  | inr e ↦ Memᴰ.tail (Mem-has_text xs t (ground (arith, h)))
]
