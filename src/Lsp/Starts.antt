-- ===== src/Lsp/Starts.antt =====
-- lsp/pysqlsuggestions_lsp/documents.py: where `line_starts` puts the lines.
use pysqlsuggestions.Prelude.{
  ℕ, zero, suc, ◌+◌, ◌≤◌, ◌<◌, Bool, true, false, not, ◌&&◌, ◌||◌, List, [], ◌∷◌, Str, any, leb,
  ◌==◌, if◌then◌else◌, ◌≡◌, refl, ◌∙◌, arith,
}
use pysqlsuggestions.Lsp.Documents.{starts_from, line_starts}

-- The character at `i` is `c`.
abbrev pub stands : ℕ → Str → ℕ → Bool
stands c [] i = false
stands c (x ∷ xs) zero = x == c
stands c (x ∷ xs) (suc i) = stands c xs i

-- A line opens behind a newline, and behind a carriage return that no newline follows.
abbrev pub opens_behind : Str → ℕ → Bool
opens_behind text i =
    stands b'\n' text i || (stands b'\r' text i && not (stands b'\n' text (suc i)))

abbrev pub opens_line : Str → ℕ → Bool
opens_line text zero = true
opens_line text (suc i) = opens_behind text i

abbrev pub occurs : ℕ → List ℕ → Bool
occurs i = any (λ s. s == i)

abbrev pub ascending : ℕ → List ℕ → Bool
ascending low [] = true
ascending low (s ∷ ss) = leb low s && ascending (suc s) ss

-- The least that a start can be from here on.
abbrev least : Bool → ℕ → ℕ
least returned index = if returned then index else suc index

ascending_less : (a b : ℕ) (ss : List ℕ) → a ≤ b → ascending b ss ≡ true → ascending a ss ≡ true
ascending_less a b [] le h = refl
ascending_less a b (s ∷ ss) le h = ground arith

ascending_step :
    (newline return returned : Bool) (next : List ℕ) (index : ℕ)
    → (newline && return) ≡ false
    → ascending (least return (suc index)) next ≡ true
    → ascending
        (least returned index)
        (if newline then suc index ∷ next else if returned then index ∷ next else next)
      ≡ true
ascending_step true true returned next index one h = absurd (ground arith)
ascending_step true false returned next index one h = ground arith
ascending_step false return true next index one h =
    let later = ascending_less (suc index) (least return (suc index)) next (ground arith) h in
    ground (arith, later)
ascending_step false return false next index one h =
    ascending_less (suc index) (least return (suc index)) next (ground arith) h

pub ascending-starts_from :
    (returned : Bool) (text : Str) (index : ℕ)
    → ascending (least returned index) (starts_from returned text index) ≡ true
unfolding starts_from
ascending-starts_from true [] index = ground arith
ascending-starts_from false [] index = refl
ascending-starts_from returned (c ∷ cs) index =
    ascending_step (c == b'\n') (c == b'\r') returned (starts_from (c == b'\r') cs (suc index))
      index (ground arith) (ascending-starts_from (c == b'\r') cs (suc index))

occurs-less : (i low : ℕ) (ss : List ℕ) → i < low → ascending low ss ≡ true → occurs i ss ≡ false
occurs-less i low [] lt h = refl
occurs-less i low (s ∷ ss) lt h = ground (arith, occurs-less i (suc s) ss)

-- Whether a line opens `k` characters further on.
abbrev expected : Bool → Str → ℕ → Bool
expected returned text zero = returned && not (stands b'\n' text 0)
expected returned text (suc k) = opens_behind text k

occurs_step :
    (newline returned : Bool) (next : List ℕ) (index i : ℕ)
    → occurs i (if newline then suc index ∷ next else if returned then index ∷ next else next) ≡ (
        (newline && (suc index == i)) || (not newline && returned && (index == i)) || occurs i next)
occurs_step true returned next index i = ground arith
occurs_step false true next index i = refl
occurs_step false false next index i = refl

expected-suc :
    (c : ℕ) (cs : Str) (k : ℕ)
    → (((c == b'\n') && (0 == k)) || expected (c == b'\r') cs k) ≡ opens_behind (c ∷ cs) k
expected-suc c cs zero = ground arith
expected-suc c cs (suc k) = ground arith

occurs-starts_from :
    (returned : Bool) (text : Str) (index k : ℕ)
    → occurs (index + k) (starts_from returned text index) ≡ expected returned text k
unfolding starts_from
occurs-starts_from returned [] index zero = ground arith
occurs-starts_from returned [] index (suc k) = ground arith
occurs-starts_from returned (c ∷ cs) index zero =
    let next = starts_from (c == b'\r') cs (suc index) in
    let later = ascending-starts_from (c == b'\r') cs (suc index) in
    let low =
      occurs-less index (suc index) next (omega arith)
        (ascending_less (suc index) (least (c == b'\r') (suc index)) next (ground arith) later) in
    let here : index + 0 ≡ index = omega arith in
    rw here (occurs_step (c == b'\n') returned next index index ∙ rw low (ground arith))
occurs-starts_from returned (c ∷ cs) index (suc k) =
    let next = starts_from (c == b'\r') cs (suc index) in
    let later = occurs-starts_from (c == b'\r') cs (suc index) k in
    let ahead : index + suc k ≡ suc index + k = omega arith in
    let first : (index == suc index + k) ≡ false = ground arith in
    let second : (suc index == suc index + k) ≡ (0 == k) = ground arith in
    rw ahead (
      occurs_step (c == b'\n') returned next index (suc index + k)
      ∙ (rw (later, first, second) (ground (arith, expected-suc c cs k))))

-- A line of a document starts at an offset exactly if the offset is 0, or stands behind a newline, or
-- stands behind a carriage return that no newline follows; the starts come in ascending order, each
-- once.
pub line_starts-exact :
    (text : Str) (units : Str → ℕ) (i : ℕ)
    → (occurs i (line_starts text units).starts ≡ opens_line text i)
      × (ascending 0 (line_starts text units).starts ≡ true)
unfolding line_starts
line_starts-exact text units i = (first i, ascending-starts_from false text 0)
  where
    first : (i : ℕ) → occurs i (0 ∷ starts_from false text 0) ≡ opens_line text i
    first zero = ground arith
    first (suc i) = ground (arith, occurs-starts_from false text 0 (suc i))
