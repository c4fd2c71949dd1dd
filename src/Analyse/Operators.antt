-- ===== src/Analyse/Operators.antt =====
-- engine/analyse.py: the branch of a set operation that `_branch_at` gives.
use pysqlsuggestions.Prelude.{
  ℕ, suc, ◌+◌, ◌≤◌, Bool, true, false, ◌||◌, List, [], ◌∷◌, ◌++◌, length, length-append, any, leb,
  ◌≡◌, ◌⊎◌, refl, sym, ap, ap₂, ◌∙◌, inl, inr, Bool-cases, arith,
}
use mathlib.Core.List.{append_assoc}
use pysqlsuggestions.Lex.Token.{Chars, Token}
use pysqlsuggestions.Analyse.Caret.{between}
use pysqlsuggestions.Analyse.Branches.{base_depth, cuts_branch, branch_from, branch_at}

-- What follows a branch: nothing, or a set operator at or behind the caret.
abbrev pub Follows : Chars → ℕ → ℕ → List Token → Type 0
Follows u base caret [] = Unit {0}
Follows u base caret (t ∷ ts) = (cuts_branch u base t ≡ true) × (caret ≤ t.start)

-- A set operator in front of the caret, at the end of what stands before a branch.
abbrev pub Leads : Chars → ℕ → ℕ → List Token → Type 0
Leads u base caret before =
    (before ≡ [])
    ⊎ ((earlier : List Token) × (t : Token) × (before ≡ earlier ++ t ∷ [])
        × (cuts_branch u base t ≡ true)
        × (leb caret t.start ≡ false))

-- A range cut in three, at the set operators nearest to the caret.
pub record Branch (u : Chars) (base caret lo : ℕ) (range : List Token) (answer : ℕ × ℕ)
    : Type 0 where
  before : List Token
  branch : List Token
  after : List Token
  whole : range ≡ before ++ (branch ++ after)
  answer_is : answer ≡ (lo + length before, lo + (length before + length branch))
  undivided : any (cuts_branch u base) branch ≡ false
  leads : Leads u base caret before
  follows : Follows u base caret after

module _ (u : Chars) (base caret lo : ℕ) where
  branch_stop :
      (start index : ℕ) (t : Token) (ts : List Token)
      → cuts_branch u base t ≡ true
      → leb caret t.start ≡ true
      → branch_from u base caret start index (t ∷ ts) ≡ (start, index)
  unfolding branch_from
  branch_stop start index t ts c le = rw (c, le) refl

  branch_next :
      (start index : ℕ) (t : Token) (ts : List Token)
      → cuts_branch u base t ≡ true
      → leb caret t.start ≡ false
      → branch_from u base caret start index (t ∷ ts)
        ≡ branch_from u base caret (suc index) (suc index) ts
  unfolding branch_from
  branch_next start index t ts c gt = rw (c, gt) refl

  branch_same :
      (start index : ℕ) (t : Token) (ts : List Token)
      → cuts_branch u base t ≡ false
      → branch_from u base caret start index (t ∷ ts)
        ≡ branch_from u base caret start (suc index) ts
  unfolding branch_from
  branch_same start index t ts c = rw c refl

  any-snoc :
      (p : Token → Bool) (ts : List Token) (t : Token) → any p (ts ++ t ∷ []) ≡ (any p ts || p t)
  any-snoc p [] t = ground arith
  any-snoc p (x ∷ ts) t = ground (arith, any-snoc p ts t)

  Branch-cast :
      {range range' : List Token} {answer answer' : ℕ × ℕ}
      → range ≡ range'
      → answer' ≡ answer
      → Branch u base caret lo range answer
      → Branch u base caret lo range' answer'
  Branch-cast e f b = rw (sym e, f) b

  -- At a token: `pre` is behind the operators so far, `acc` the branch so far.
  branch_from-Branch :
      (pre acc ts : List Token)
      → any (cuts_branch u base) acc ≡ false
      → Leads u base caret pre
      → Branch u base caret lo
          (pre ++ (acc ++ ts))
          (branch_from u base caret (lo + length pre) (lo + (length pre + length acc)) ts)
  branch_from-Branch pre acc [] quiet leads =
      unfold branch_from in
      record {
        before = pre;
        branch = acc;
        after = [];
        whole = refl;
        answer_is = refl;
        undivided = quiet;
        leads = leads;
        follows = tt;
      }
  branch_from-Branch pre acc (t ∷ ts) quiet leads = elim (Bool-cases (cuts_branch u base t)) [
    | inr c ↦
        let one = length-append acc (t ∷ []) in
        let further : suc (lo + (length pre + length acc))
            ≡ lo + (length pre + length (acc ++ t ∷ [])) =
          omega (arith, one) in
        Branch-cast (ap (◌++◌ pre) (append_assoc acc (t ∷ []) ts))
          (branch_same (lo + length pre) (lo + (length pre + length acc)) t ts c
            ∙ ap (λ i. branch_from u base caret (lo + length pre) i ts) further)
          (branch_from-Branch pre (acc ++ t ∷ []) ts
            (any-snoc (cuts_branch u base) acc t ∙ rw (quiet, c) refl) leads)
    | inl c ↦ elim (Bool-cases (leb caret t.start)) [
      | inl le ↦ record {
        before = pre;
        branch = acc;
        after = t ∷ ts;
        whole = refl;
        answer_is = branch_stop (lo + length pre) (lo + (length pre + length acc)) t ts c le;
        undivided = quiet;
        leads = leads;
        follows = (c, ground (arith, le));
      }
      | inr gt ↦
          let joined = sym (append_assoc pre acc (t ∷ [])) in
          let size : length (pre ++ (acc ++ t ∷ [])) ≡ suc (length pre + length acc) =
            omega (arith, length-append pre (acc ++ t ∷ []), length-append acc (t ∷ [])) in
          let start : suc (lo + (length pre + length acc)) ≡ lo + length (pre ++ (acc ++ t ∷ [])) =
            omega (arith, size) in
          let index : suc (lo + (length pre + length acc))
              ≡ lo + (length (pre ++ (acc ++ t ∷ [])) + 0) =
            omega (arith, size) in
          Branch-cast
            (append_assoc pre (acc ++ t ∷ []) ts ∙ ap (◌++◌ pre) (append_assoc acc (t ∷ []) ts))
            (branch_next (lo + length pre) (lo + (length pre + length acc)) t ts c gt
              ∙ ap₂ (λ a b. branch_from u base caret a b ts) start index)
            (branch_from-Branch (pre ++ (acc ++ t ∷ [])) [] ts refl
              (inr (pre ++ acc, t, joined, c, gt)))
    ]
  ]

-- `_branch_at` gives a part of the range that holds no set operator of the range's own depth. Before it
-- there is nothing, or such an operator in front of the caret; behind it nothing, or such an operator
-- at or behind the caret.
pub branch_at-Branch :
    (u : Chars) (tokens : List Token) (lo hi caret : ℕ)
    → Branch u
        (base_depth (between lo hi tokens))
        caret
        lo
        (between lo hi tokens)
        (branch_at u tokens lo hi caret)
unfolding branch_at
branch_at-Branch u tokens lo hi caret =
    let range = between lo hi tokens in
    let zero_on : lo + 0 ≡ lo = omega arith in
    Branch-cast u (base_depth range) caret lo refl
      (ap₂ (λ a b. branch_from u (base_depth range) caret a b range) (sym zero_on) (sym zero_on))
      (branch_from-Branch u (base_depth range) caret lo [] [] range refl (inl refl))
