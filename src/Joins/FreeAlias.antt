-- ===== src/Joins/FreeAlias.antt =====
-- engine/joins.py: `_free_alias` always finds an alias, and one that is free.
use pysqlsuggestions.Prelude.{
  ℕ, zero, suc, ◌≤◌, ◌<◌, Bool, true, false, not, List, [], ◌∷◌, ◌++◌, Option, none, some, Str,
  length, keep, drop, text_eq, text_eq_iff, has_text, distinct, length-le-of_distinct, all, decimal,
  decimal_inj, drop-length-append, ◌≡◌, refl, sym, ap, subst, if◌then◌else◌, ◌||◌, ◌∙◌, ◌⊎◌, inl,
  inr, Bool-cases, Option-cases, not-eq-true, arith,
}
use mathlib.Core.Option.{some-injective}
use pysqlsuggestions.Lex.Token.{Chars}
use pysqlsuggestions.Dialect.{Dialect}
use pysqlsuggestions.Local.Defs.{alias_forms}
use pysqlsuggestions.Joins.Text.{first_free, numbered, stem_of, free_forms, free_alias}

-- The numbered forms that the loop may reach.
abbrev tries : ℕ → Str → ℕ → List Str
tries zero stem suffix = []
tries (suc k) stem suffix = (stem ++ decimal suffix) ∷ tries k stem (suc suffix)

length-tries : (k : ℕ) (stem : Str) (suffix : ℕ) → length (tries k stem suffix) ≡ k
length-tries zero stem suffix = refl
length-tries (suc k) stem suffix = ap suc (length-tries k stem (suc suffix))

numbered_inj :
    (stem : Str) (m n : ℕ) → m < n → text_eq (stem ++ decimal n) (stem ++ decimal m) ≡ false
numbered_inj stem m n h = elim (Bool-cases (text_eq (stem ++ decimal n) (stem ++ decimal m))) [
  | inl e ↦
      let whole =
        ap (drop (length stem)) ((text_eq_iff (stem ++ decimal n) (stem ++ decimal m)).0 e) in
      let digits =
        sym (drop-length-append stem (decimal n)) ∙ (whole ∙ drop-length-append stem (decimal m)) in
      absurd (omega (arith, decimal_inj n m digits))
  | inr e ↦ e
]

tries_new :
    (k : ℕ) (stem : Str) (m n : ℕ) → m < n → has_text (tries k stem n) (stem ++ decimal m) ≡ false
tries_new zero stem m n h = refl
tries_new (suc k) stem m n h =
    rw (numbered_inj stem m n h) (tries_new k stem m (suc n) (omega arith))

distinct-tries : (k : ℕ) (stem : Str) (n : ℕ) → distinct (tries k stem n) ≡ true
distinct-tries zero stem n = refl
distinct-tries (suc k) stem n =
    rw (tries_new k stem n (suc n) (omega arith)) (distinct-tries k stem (suc n))

numbered-none :
    (k : ℕ) (stem : Str) (taken : List Str) (n : ℕ)
    → numbered k stem taken n ≡ none
    → all (has_text taken) (tries k stem n) ≡ true
unfolding numbered
numbered-none zero stem taken n h = refl
numbered-none (suc k) stem taken n h = elim (Bool-cases (has_text taken (stem ++ decimal n))) [
  | inl e ↦ rw e (numbered-none k stem taken (suc n) (ground (arith, h)))
  | inr e ↦ absurd (ground (arith, h))
]

or-true : (b : Bool) → (b || true) ≡ true
or-true b = ground arith

kept_first :
    (b : Bool) (x : Option Str) (a alias : Str)
    → b ≡ true
    → (if b then some a else x) ≡ some alias
    → a ≡ alias
kept_first true x a alias e h = some-injective a alias h
kept_first false x a alias e h = absurd (ground arith)

kept_second :
    (b : Bool) (x : Option Str) (a alias : Str)
    → b ≡ false
    → (if b then x else some a) ≡ some alias
    → a ≡ alias
kept_second true x a alias e h = absurd (ground arith)
kept_second false x a alias e h = some-injective a alias h

numbered-some :
    (k : ℕ) (stem : Str) (taken : List Str) (n : ℕ) (alias : Str)
    → numbered k stem taken n ≡ some alias
    → (m : ℕ) × (n ≤ m) × (alias ≡ stem ++ decimal m) × (has_text taken alias ≡ false)
unfolding numbered
numbered-some zero stem taken n alias h = absurd (ground (arith, h))
numbered-some (suc k) stem taken n alias h =
    elim (Bool-cases (has_text taken (stem ++ decimal n))) [
      | inl e ↦
          let later = numbered-some k stem taken (suc n) alias (ground (arith, h)) in
          (later.0, omega (arith, later.1), later.2, later.3)
      | inr e ↦
          let same =
            kept_second (has_text taken (stem ++ decimal n)) (numbered k stem taken (suc n))
              (stem ++ decimal n) alias e h in
          (n, omega arith, sym same, subst (λ a. has_text taken a ≡ false) same e)
    ]

first_free-some :
    (u : Chars) (taken forms : List Str) (alias : Str)
    → first_free u taken forms ≡ some alias
    → (has_text forms alias ≡ true) × (has_text taken (u.lower alias) ≡ false)
unfolding first_free
first_free-some u taken [] alias h = absurd (ground (arith, h))
first_free-some u taken (form ∷ forms) alias h = elim (Bool-cases (has_text taken (u.lower form))) [
  | inl e ↦
      let later = first_free-some u taken forms alias (ground (arith, h)) in
      (rw (later.0) (or-true (text_eq form alias)), later.1)
  | inr e ↦
      let same =
        kept_first (not (has_text taken (u.lower form))) (first_free u taken forms) form alias
          (ap not e) h in
      (
        rw ((text_eq_iff form alias).1 same) refl,
        subst (λ a. has_text taken (u.lower a) ≡ false) same e,
      )
]

has_text-keep :
    (p : Str → Bool) (xs : List Str) (a : Str)
    → has_text (keep p xs) a ≡ true
    → (has_text xs a ≡ true) × (p a ≡ true)
has_text-keep p [] a h = absurd (ground (arith, h))
has_text-keep p (x ∷ xs) a h = elim (Bool-cases (text_eq x a)) [
  | inl e ↦ elim (Bool-cases (p x)) [
    | inl passes ↦ (rw e refl, subst (λ y. p y ≡ true) ((text_eq_iff x a).0 e) passes)
    | inr fails ↦ let rest = has_text-keep p xs a (ground (arith, h)) in (rw e refl, rest.1)
  ]
  | inr e ↦ let rest = has_text-keep p xs a (ground (arith, h)) in (rw e (rest.0), rest.1)
]

-- `_free_alias` answers with an alias, after no more rounds of its loop than there are names in scope
-- and one: an alias form of the table that is no reserved word and that no name in scope answers to in
-- lower case, or else the stem with a number from 2 on, which is no name in scope.
pub free_alias-some :
    (u : Chars) (d : Dialect) (name : Str) (taken : List Str)
    → (alias : Str) × (free_alias u d name taken ≡ some alias)
      × (((has_text (alias_forms u name) alias ≡ true)
            × (has_text d.reserved (u.lower alias) ≡ false)
            × (has_text taken (u.lower alias) ≡ false))
          ⊎ ((n : ℕ) × (2 ≤ n)
              × (alias ≡ stem_of u name (free_forms u d name) ++ decimal n)
              × (has_text taken alias ≡ false)))
unfolding free_alias free_forms
free_alias-some u d name taken = elim (Option-cases (first_free u taken (free_forms u d name))) [
  | inr (form, e) ↦
      let free = first_free-some u taken (free_forms u d name) form e in
      let unreserved : Str → Bool = λ f. not (has_text d.reserved (u.lower f)) in
      let kept = has_text-keep unreserved (alias_forms u name) form (free.0) in
      (
        form,
        rw (e, free_alias) refl,
        inl (kept.0, not-eq-true (has_text d.reserved (u.lower form)) (kept.1), free.1),
      )
  | inl e ↦
      let stem = stem_of u name (free_forms u d name) in
      elim (Option-cases (numbered (suc (length taken)) stem taken 2)) [
        | inl full ↦
            let short =
              length-le-of_distinct (tries (suc (length taken)) stem 2) taken
                (distinct-tries (suc (length taken)) stem 2)
                (numbered-none (suc (length taken)) stem taken 2 full) in
            absurd (omega (arith, short, length-tries (suc (length taken)) stem 2))
        | inr (alias, f) ↦
            let found = numbered-some (suc (length taken)) stem taken 2 alias f in
            (alias, rw (e, f, free_alias) refl, inr found)
      ]
]
