-- ===== src/Lsp/Units.antt =====
-- lsp/pysqlsuggestions_lsp/documents.py: `UNIT_COUNTERS`.
use pysqlsuggestions.Prelude.{
  ℕ, ◌+◌, ◌<◌, [], ◌∷◌, ◌++◌, Str, length, length-append, ltb, if◌then◌else◌, ◌≡◌, arith,
}

-- The units of one code point, surrogates among them (`surrogatepass`).
abbrev pub width_16 : ℕ → ℕ
width_16 c = if ltb c 65536 then 1 else 2

abbrev pub width_8 : ℕ → ℕ
width_8 c = if ltb c 128 then 1 else if ltb c 2048 then 2 else if ltb c 65536 then 3 else 4

unfoldable pub sum_of : (ℕ → ℕ) → Str → ℕ
sum_of width [] = 0
sum_of width (c ∷ cs) = width c + sum_of width cs

abbrev pub utf_16 : Str → ℕ
utf_16 = sum_of width_16

abbrev pub utf_8 : Str → ℕ
utf_8 = sum_of width_8

abbrev pub utf_32 : Str → ℕ
utf_32 = length

-- A way of counting that no character escapes.
pub record Counts (units : Str → ℕ) : Type 0 where
  pub append : (a b : Str) → units (a ++ b) ≡ units a + units b
  pub positive : (c : ℕ) (cs : Str) → 0 < units (c ∷ cs)

sum_of-append :
    (width : ℕ → ℕ) (a b : Str) → sum_of width (a ++ b) ≡ sum_of width a + sum_of width b
unfolding sum_of
sum_of-append width [] b = omega arith
sum_of-append width (c ∷ cs) b = omega (arith, sum_of-append width cs b)

pub utf_16-Counts : Counts utf_16
unfolding sum_of
utf_16-Counts = record { append = sum_of-append width_16; positive = λ c cs. ground arith }

pub utf_8-Counts : Counts utf_8
unfolding sum_of
utf_8-Counts = record { append = sum_of-append width_8; positive = λ c cs. ground arith }

pub utf_32-Counts : Counts utf_32
utf_32-Counts = record { append = length-append; positive = λ c cs. omega arith }
