-- ===== src/Lex/Bounds.antt =====
-- Where the scanners of Lex/Scan.antt stop: never before their start, never behind the source.
use pysqlsuggestions.Prelude.{
  ℕ, suc, ◌+◌, ◌-◌, ◌≤◌, Bool, true, false, ◌||◌, [], ◌∷◌, some, Str, codes, length, drop,
  length-drop, ◌==◌, starts_with, find_from, ◌≡◌, arith, Bool-cases, Option-cases, ◌∙◌, inl, inr,
  has_char,
}
use pysqlsuggestions.Lex.Token.{Chars, Body, digits, is_ident_char}
use pysqlsuggestions.Lex.Scan.{
  scan_while, scan_quoted_ident, exponent_digits, exponent_sign, exponent, scan_number, scan_string,
  scan_line_comment, scan_block_comment, run_to, scan_name, scan_body,
}

-- `lo ≤ end ≤ hi`.
abbrev pub Within : ℕ → ℕ → ℕ → Type 0
Within lo hi end = (lo ≤ end) × (end ≤ hi)

pub scan_while-Within :
    (p : ℕ → Bool) (cs : Str) (i : ℕ) → Within i (i + length cs) (scan_while p cs i)
unfolding scan_while
scan_while-Within p [] i = omega arith
scan_while-Within p (c ∷ cs) i = ground (arith, scan_while-Within p cs (suc i))

pub scan_quoted_ident-Within :
    (q : ℕ) (cs : Str) (i : ℕ) → Within i (i + length cs) (scan_quoted_ident q cs i).end
unfolding scan_quoted_ident
scan_quoted_ident-Within q [] i = omega arith
scan_quoted_ident-Within q (c ∷ []) i = ground arith
scan_quoted_ident-Within q (c ∷ d ∷ cs) i =
    ground
      (arith, scan_quoted_ident-Within q cs (i + 2), scan_quoted_ident-Within q (d ∷ cs) (i + 1))

pub scan_string-Within :
    (b : Bool) (cs : Str) (i : ℕ) → Within i (i + length cs) (scan_string b cs i).0
unfolding scan_string
scan_string-Within b [] i = omega arith
scan_string-Within b (c ∷ []) i = ground arith
scan_string-Within b (c ∷ d ∷ cs) i =
    ground (arith, scan_string-Within b cs (i + 2), scan_string-Within b (d ∷ cs) (i + 1))

pub scan_block_comment-Within :
    (n : Bool) (level : ℕ) (cs : Str) (i : ℕ)
    → Within i (i + length cs) (scan_block_comment n level cs i).0
unfolding scan_block_comment
scan_block_comment-Within n level [] i = omega arith
scan_block_comment-Within n level (c ∷ []) i = ground arith
scan_block_comment-Within n level (c ∷ d ∷ cs) i = ground (
  arith,
  scan_block_comment-Within n (level + 1) cs (i + 2),
  scan_block_comment-Within n (level - 1) cs (i + 2),
  scan_block_comment-Within n level (d ∷ cs) (i + 1),
)

exponent_digits-Within :
    (p : ℕ → Bool) (i : ℕ) (cs : Str) (j : ℕ)
    → i ≤ j
    → Within i (j + length cs) (exponent_digits p i cs j)
unfolding exponent_digits
exponent_digits-Within p i [] j h = omega arith
exponent_digits-Within p i (c ∷ cs) j h = ground (arith, scan_while-Within p (c ∷ cs) j)

exponent_sign-Within :
    (p : ℕ → Bool) (i : ℕ) (cs : Str) (j : ℕ)
    → i ≤ j
    → Within i (j + length cs) (exponent_sign p i cs j)
unfolding exponent_sign
exponent_sign-Within p i [] j h = omega arith
exponent_sign-Within p i (c ∷ cs) j h = elim (Bool-cases (has_char (codes "+-") c)) [
  | inl e ↦ rw e (let k = exponent_digits-Within p i cs (j + 1) (omega arith) in omega arith)
  | inr e ↦ rw e (exponent_digits-Within p i (c ∷ cs) j h)
]

exponent-Within : (p : ℕ → Bool) (cs : Str) (i : ℕ) → Within i (i + length cs) (exponent p cs i)
unfolding exponent
exponent-Within p [] i = omega arith
exponent-Within p (c ∷ cs) i = elim (Bool-cases (has_char (codes "eE") c)) [
  | inl e ↦ rw e (let k = exponent_sign-Within p i cs (i + 1) (omega arith) in omega arith)
  | inr e ↦ rw e (omega arith)
]

pub scan_number-Within :
    (u : Chars) (c : ℕ) (cs : Str) (i : ℕ)
    → u.is_digit c ≡ true
    → Within (suc i) (suc i + length cs) (scan_number u (c ∷ cs) i)
unfolding scan_number scan_while
scan_number-Within u c cs i h = rw h (
    let p = λ (x : ℕ). u.is_digit x || x == b'.' in
    let j = scan_while p cs (suc i) in
    omega (
      arith,
      scan_while-Within p cs (suc i),
      length-drop {0} (j - i) (c ∷ cs),
      exponent-Within u.is_digit (drop (j - i) (c ∷ cs)) j,
    ))

-- `find` answers with an offset from its start on, at which the whole of `sub` still fits.
pub starts_with_fits : (text sub : Str) → starts_with text sub ≡ true → length sub ≤ length text
unfolding starts_with
starts_with_fits text [] h = omega arith
starts_with_fits [] (y ∷ ys) h = ground arith
starts_with_fits (x ∷ xs) (y ∷ ys) h = ground (arith, starts_with_fits xs ys)

pub find_from-Within :
    (sub cs : Str) (i j : ℕ)
    → find_from sub cs i ≡ some j
    → (i ≤ j) × (j + length sub ≤ i + length cs)
unfolding find_from
find_from-Within sub [] i j h = ground (arith, starts_with_fits [] sub)
find_from-Within sub (c ∷ cs) i j h =
    ground (arith, starts_with_fits (c ∷ cs) sub, find_from-Within sub cs (suc i) j)

pub scan_line_comment-Within :
    (cs : Str) (i : ℕ) → Within i (i + length cs) (scan_line_comment cs i).0
unfolding scan_line_comment
scan_line_comment-Within cs i = elim (Option-cases (find_from (codes "\n") cs i)) [
  | inl e ↦ rw (e, scan_line_comment) (omega arith)
  | inr (j, e) ↦ rw (e, scan_line_comment) (omega (arith, find_from-Within (codes "\n") cs i j e))
]

find_newline_skip :
    (c : ℕ) (cs : Str) (i : ℕ)
    → (c == b'\n') ≡ false
    → find_from (codes "\n") (c ∷ cs) i ≡ find_from (codes "\n") cs (suc i)
unfolding find_from starts_with
find_newline_skip c cs i h = ground arith

-- A comment that does not start with its newline is not empty.
pub scan_line_comment_grows :
    (c : ℕ) (cs : Str) (i : ℕ)
    → (c == b'\n') ≡ false
    → Within (suc i) (i + length (c ∷ cs)) (scan_line_comment (c ∷ cs) i).0
unfolding scan_line_comment
scan_line_comment_grows c cs i h =
    let skip = find_newline_skip c cs i h in
    elim (Option-cases (find_from (codes "\n") cs (suc i))) [
      | inl e ↦ rw (skip ∙ e, scan_line_comment) (omega arith)
      | inr (j, e) ↦
          rw (skip ∙ e, scan_line_comment)
            (omega (arith, find_from-Within (codes "\n") cs (suc i) j e))
    ]

pub run_to-Within : (closer cs : Str) (i : ℕ) → Within i (i + length cs) (run_to closer cs i).0
unfolding run_to
run_to-Within closer cs i = elim (Option-cases (find_from closer cs i)) [
  | inl e ↦ rw (e, run_to) (omega arith)
  | inr (j, e) ↦ rw (e, run_to) (omega (arith, find_from-Within closer cs i j e))
]

scan_name-Within : (u : Chars) (cs : Str) (i : ℕ) → Within i (i + length cs) (scan_name u cs i)
unfolding scan_name
scan_name-Within u [] i = omega arith
scan_name-Within u (c ∷ cs) i = ground (arith, scan_while-Within (is_ident_char u) cs (i + 1))

pub scan_body-Within :
    (u : Chars) (cs : Str) (i : ℕ) (b : Body) → Within i (i + length cs) (scan_body u cs i b)
unfolding scan_body
scan_body-Within u cs i digits = scan_while-Within u.is_digit cs i
scan_body-Within u cs i _ = scan_name-Within u cs i
