-- ===== src/Local/Aliases.antt =====
-- engine/local.py: the alias forms of a name are all different, and each is a start of something.
use pysqlsuggestions.Prelude.{
  ℕ, zero, suc, ltb, ◌==◌, length, take, has_char, text_eq_refl, Bool, true, false, not, ◌&&◌, ◌||◌,
  List, [], ◌∷◌, ◌++◌, Str, has_text, text_eq, text_eq_iff, distinct, all, keep, non_empty, ◌≡◌,
  refl, ap, inl, inr, Bool-cases, and-eq-true, arith,
}
use pysqlsuggestions.Lex.Token.{Chars}
use pysqlsuggestions.Local.Defs.{
  split_on, in_front, when, word_initials, first_of_each, forms_of_words, alias_forms,
}

or-true : (b : Bool) → (b || true) ≡ true
or-true b = ground arith

-- What was seen is not given again.
seen-first_of_each :
    (seen fs : List Str) (f : Str)
    → has_text seen f ≡ true
    → has_text (first_of_each seen fs) f ≡ false
unfolding first_of_each
seen-first_of_each seen [] f h = refl
seen-first_of_each seen (g ∷ gs) f h = elim (Bool-cases (has_text seen g)) [
  | inl e ↦ rw e (seen-first_of_each seen gs f h)
  | inr e ↦
      let other : text_eq g f ≡ false = elim (Bool-cases (text_eq g f)) [
        | inl same ↦ absurd (ground (arith, h, e, ap (has_text seen) ((text_eq_iff g f).0 same)))
        | inr ne ↦ ne
      ] in
      rw (e, other) (seen-first_of_each (g ∷ seen) gs f (rw h (or-true (text_eq g f))))
]

distinct-first_of_each : (seen fs : List Str) → distinct (first_of_each seen fs) ≡ true
unfolding first_of_each
distinct-first_of_each seen [] = refl
distinct-first_of_each seen (g ∷ gs) = elim (Bool-cases (has_text seen g)) [
  | inl e ↦ rw e (distinct-first_of_each seen gs)
  | inr e ↦
      rw (e, seen-first_of_each (g ∷ seen) gs g (rw (text_eq_refl g) refl))
        (distinct-first_of_each (g ∷ seen) gs)
]

-- A text that has characters, none of them an underscore.
abbrev pub is_word : Str → Bool
is_word f = non_empty f && not (has_char f b'_')

abbrev whole : Str → Bool
whole f = not (has_char f b'_')

whole-in_front :
    (c : ℕ) (ws : List Str)
    → (c == b'_') ≡ false
    → all whole ws ≡ true
    → all whole (in_front c ws) ≡ true
whole-in_front c [] e h = rw e refl
whole-in_front c (w ∷ ws) e h = rw e h

whole-split_on : (s : Str) → all whole (split_on b'_' s) ≡ true
unfolding split_on
whole-split_on [] = refl
whole-split_on (c ∷ cs) = elim (Bool-cases (c == b'_')) [
  | inl e ↦ rw e (whole-split_on cs)
  | inr e ↦ rw e (whole-in_front c (split_on b'_' cs) e (whole-split_on cs))
]

words : (ws : List Str) → all whole ws ≡ true → all is_word (keep non_empty ws) ≡ true
words [] h = refl
words ([] ∷ ws) h = words ws h
words ((c ∷ cs) ∷ ws) h =
    let parts = and-eq-true (whole (c ∷ cs)) (all whole ws) h in rw (parts.0) (words ws (parts.1))

whole-take : (n : ℕ) (w : Str) → whole w ≡ true → whole (take n w) ≡ true
whole-take zero w h = refl
whole-take (suc n) [] h = refl
whole-take (suc n) (c ∷ cs) h = ground (arith, whole-take n cs)

whole-append : (a b : Str) → whole a ≡ true → whole b ≡ true → whole (a ++ b) ≡ true
whole-append [] b h k = k
whole-append (c ∷ cs) b h k = ground (arith, whole-append cs b)

whole-word_initials : (ws : List Str) → all is_word ws ≡ true → whole (word_initials ws) ≡ true
unfolding word_initials
whole-word_initials [] h = refl
whole-word_initials (w ∷ ws) h =
    let parts = and-eq-true (is_word w) (all is_word ws) h in
    let here = and-eq-true (non_empty w) (whole w) (parts.0) in
    whole-append (take 1 w) (word_initials ws) (whole-take 1 w (here.1))
      (whole-word_initials ws (parts.1))

non_empty-of_length : (n : ℕ) (f : Str) → ltb n (length f) ≡ true → non_empty f ≡ true
non_empty-of_length n [] h = ground (arith, h)
non_empty-of_length n (c ∷ cs) h = refl

is_word-take : (n : ℕ) (w : Str) → is_word w ≡ true → is_word (take (suc n) w) ≡ true
is_word-take n [] h = h
is_word-take n (c ∷ cs) h = ground (arith, whole-take n cs)

all-when : (b : Bool) (f : Str) → (b ≡ true → is_word f ≡ true) → all is_word (when b f) ≡ true
all-when true f h = rw (h refl) refl
all-when false f h = refl

all-append :
    (xs ys : List Str)
    → all is_word xs ≡ true
    → all is_word ys ≡ true
    → all is_word (xs ++ ys) ≡ true
all-append [] ys h k = k
all-append (x ∷ xs) ys h k =
    let parts = and-eq-true (is_word x) (all is_word xs) h in
    rw (parts.0) (all-append xs ys (parts.1) k)

all-first_of_each :
    (seen fs : List Str) → all is_word fs ≡ true → all is_word (first_of_each seen fs) ≡ true
unfolding first_of_each
all-first_of_each seen [] h = refl
all-first_of_each seen (f ∷ fs) h =
    let parts = and-eq-true (is_word f) (all is_word fs) h in
    elim (Bool-cases (has_text seen f)) [
      | inl e ↦ rw e (all-first_of_each seen fs (parts.1))
      | inr e ↦ rw (e, parts.0) (all-first_of_each (f ∷ seen) fs (parts.1))
    ]

forms_of_words-IsWord :
    (ws : List Str) → all is_word ws ≡ true → all is_word (forms_of_words ws) ≡ true
unfolding forms_of_words
forms_of_words-IsWord [] h = refl
forms_of_words-IsWord (w ∷ ws) h =
    let parts = and-eq-true (is_word w) (all is_word ws) h in
    let letters = word_initials (w ∷ ws) in
    let first : is_word (take 1 w) ≡ true = is_word-take 0 w (parts.0) in
    let long = all-when (ltb 3 (length w)) (take 3 w) (λ e. is_word-take 2 w (parts.0)) in
    all-first_of_each []
      (when (ltb 1 (length letters)) letters ++ (take 1 w ∷ when (ltb 3 (length w)) (take 3 w)))
      (all-append (when (ltb 1 (length letters)) letters)
        (take 1 w ∷ when (ltb 3 (length w)) (take 3 w))
        (all-when (ltb 1 (length letters)) letters
          (λ e. rw (non_empty-of_length 1 letters e) (whole-word_initials (w ∷ ws) h)))
        (rw first long))

distinct-forms_of_words : (ws : List Str) → distinct (forms_of_words ws) ≡ true
unfolding forms_of_words
distinct-forms_of_words [] = refl
distinct-forms_of_words (w ∷ ws) = distinct-first_of_each [] _

-- The alias forms of a name are all different, none of them is empty, and none has an underscore.
pub alias_forms-distinct :
    (u : Chars) (name : Str)
    → (distinct (alias_forms u name) ≡ true) × (all is_word (alias_forms u name) ≡ true)
unfolding alias_forms
alias_forms-distinct u name =
    let parts = keep non_empty (split_on b'_' (u.lower name)) in
    (
      distinct-forms_of_words parts,
      forms_of_words-IsWord parts
          (words (split_on b'_' (u.lower name)) (whole-split_on (u.lower name))),
    )
