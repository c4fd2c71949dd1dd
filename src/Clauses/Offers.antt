-- ===== src/Clauses/Offers.antt =====
-- dialects/base.py: which words `continuations` offers.
use pysqlsuggestions.Prelude.{
  Bool, true, false, not, ◌||◌, List, [], ◌∷◌, Option, none, some, Str, keep, if◌then◌else◌,
  has_text, ◌≡◌, ◌↔◌, ◌⊎◌, refl, sym, ap, subst, ◌∙◌, inl, inr, Bool-cases, Option-cases,
  and-eq-true, arith,
}
use mathlib.Core.List.{Memᴰ}
use mathlib.Core.List.Memᴰ as Memᴰ
use pysqlsuggestions.Prelude.Occurs.{keep-Mem, Mem-keep, Mem-has_text}
use pysqlsuggestions.Clauses.Model.{Clause, ClauseModel}
use pysqlsuggestions.Clauses.Defs.{get, wrong_form, admits, derived, offered, continuations}

-- The statement form lets the word stand: none is known, or the clause names no forms, or this one.
pub FitsForm : List Str → Option Str → Type 0
FitsForm forms none = Unit {0}
FitsForm forms (some form) = (forms ≡ []) ⊎ (has_text forms form ≡ true)

-- A word may stand where it is no clause, or a clause of the statement's form that may come again or
-- has not been written.
pub MayStand : ClauseModel → Option Str → List Str → Str → Type 0
MayStand m form used word =
    (get m word ≡ none)
    ⊎ ((c : Clause) × (get m word ≡ some c)
        × FitsForm c.statements form
        × ((c.repeats ≡ true) ⊎ (has_text used word ≡ false)))

-- A word belongs behind a clause if the clause names it, or if it is a clause that declares to follow.
pub Belongs : ClauseModel → Str → Clause → Str → Type 0
Belongs m name clause word =
    Memᴰ word clause.followed_by
    ⊎ ((other : Clause) × Memᴰ other m.clauses
        × (word ≡ other.name)
        × (has_text other.follows name ≡ true))

wrong_form_fits :
    (forms : List Str) (form : Option Str) → wrong_form forms form ≡ false → FitsForm forms form
unfolding wrong_form FitsForm
wrong_form_fits forms none h = tt
wrong_form_fits [] (some f) h = inl refl
wrong_form_fits (g ∷ gs) (some f) h = inr (ground (arith, h))

fits_wrong_form :
    (forms : List Str) (form : Option Str) → FitsForm forms form → wrong_form forms form ≡ false
unfolding wrong_form FitsForm
fits_wrong_form forms none h = refl
fits_wrong_form forms (some f) (inl e) = rw e refl
fits_wrong_form [] (some f) (inr h) = refl
fits_wrong_form (g ∷ gs) (some f) (inr h) = rw h refl

admits_clause :
    (m : ClauseModel) (form : Option Str) (used : List Str) (word : Str) (c : Clause)
    → get m word ≡ some c
    → admits m form used word
      ≡ (if wrong_form c.statements form then false else c.repeats || not (has_text used word))
unfolding admits
admits_clause m form used word c e = rw (e, admits) refl

once_more : (a b : Bool) → (a || not b) ≡ true → (a ≡ true) ⊎ (b ≡ false)
once_more true b h = inl refl
once_more false b h = inr (ground (arith, h))

admits-MayStand :
    (m : ClauseModel) (form : Option Str) (used : List Str) (word : Str)
    → admits m form used word ≡ true
    → MayStand m form used word
unfolding MayStand
admits-MayStand m form used word h = elim (Option-cases (get m word)) [
  | inl e ↦ inl e
  | inr (c, e) ↦
      let h' = sym (admits_clause m form used word c e) ∙ h in
      elim (Bool-cases (wrong_form c.statements form)) [
        | inl w ↦ absurd (ground (arith, h', w))
        | inr w ↦
            let more : (c.repeats || not (has_text used word)) ≡ true = ground (arith, h', w) in
            inr (
              c,
              e,
              wrong_form_fits c.statements form w,
              once_more c.repeats (has_text used word) more,
            )
      ]
]

MayStand-admits :
    (m : ClauseModel) (form : Option Str) (used : List Str) (word : Str)
    → MayStand m form used word
    → admits m form used word ≡ true
unfolding MayStand
MayStand-admits m form used word (inl e) = unfold admits in rw (e, admits) refl
MayStand-admits m form used word (inr (c, e, fits, inl r)) =
    admits_clause m form used word c e ∙ rw (fits_wrong_form c.statements form fits, r) refl
MayStand-admits m form used word (inr (c, e, fits, inr new)) =
    admits_clause m form used word c e
    ∙ rw (fits_wrong_form c.statements form fits, new) (ground arith)

offered-Belongs :
    (m : ClauseModel) (name : Str) (c : Clause) (word : Str)
    → Memᴰ word (offered m name c)
    → Belongs m name c word
unfolding offered derived Belongs
offered-Belongs m name c word h = elim (Memᴰ.append_cases c.followed_by h) [
  | inl here ↦ inl here
  | inr there ↦
      let named = Memᴰ.of_map (λ (o : Clause). o.name) _ there in
      let kept = keep-Mem _ m.clauses (named.0) (named.1) in
      inr (named.0, kept.0, sym (named.2), (and-eq-true _ _ (kept.1)).0)
]

Belongs-offered :
    (m : ClauseModel) (name : Str) (c : Clause) (word : Str)
    → Belongs m name c word
    → Memᴰ word (offered m name c)
unfolding offered derived Belongs
Belongs-offered m name c word (inl here) = Memᴰ.append_left _ here
Belongs-offered m name c word (inr (other, m', e, follows)) =
    elim (Bool-cases (has_text c.followed_by word)) [
      | inl old ↦ Memᴰ.append_left _ (Mem-has_text c.followed_by word old)
      | inr new ↦
          let fresh = ap (has_text c.followed_by) (sym e) ∙ new in
          Memᴰ.append_right c.followed_by (
            Memᴰ.cast e (
              Memᴰ.map (λ (o : Clause). o.name)
                (Mem-keep _ m.clauses other m' (rw (follows, fresh) refl))))
    ]

continuations-none :
    (m : ClauseModel) (name : Str) (form : Option Str) (used : List Str)
    → get m name ≡ none
    → continuations m name form used ≡ []
unfolding continuations
continuations-none m name form used e = rw (e, continuations) refl

continuations_clause :
    (m : ClauseModel) (name : Str) (form : Option Str) (used : List Str) (c : Clause)
    → get m name ≡ some c
    → continuations m name form used ≡ keep (admits m form used) (offered m name c)
unfolding continuations
continuations_clause m name form used c e = rw (e, continuations) refl

-- `continuations` offers exactly the words that belong behind the clause and may stand there: those
-- that the clause names, and the clauses that declare to follow it, without the clauses of other
-- statement forms and without those that were written and come once. Behind what is no clause it
-- offers none.
pub continuations_iff :
    (m : ClauseModel) (name : Str) (form : Option Str) (used : List Str) (word : Str)
    → Memᴰ word (continuations m name form used)
      ↔ ((c : Clause) × (get m name ≡ some c) × Belongs m name c word × MayStand m form used word)
continuations_iff m name form used word = (
  λ h. elim (Option-cases (get m name)) [
    | inl e ↦ absurd (Memᴰ.not-nil (subst (Memᴰ word) (continuations-none m name form used e) h))
    | inr (c, e) ↦
        let kept =
          keep-Mem (admits m form used) (offered m name c) word
            (subst (Memᴰ word) (continuations_clause m name form used c e) h) in
        (c, e, offered-Belongs m name c word (kept.0), admits-MayStand m form used word (kept.1))
  ],
  λ found. subst (Memᴰ word) (sym (continuations_clause m name form used (found.0) (found.1))) (
      Mem-keep (admits m form used) (offered m name (found.0)) word
        (Belongs-offered m name (found.0) word (found.2))
        (MayStand-admits m form used word (found.3))),
)
