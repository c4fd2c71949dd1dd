-- ===== src/Clauses/Extend.antt =====
-- dialects/base.py: looking a clause up in an extended model.
use pysqlsuggestions.Prelude.{
  Bool, true, List, [], ◌∷◌, ◌++◌, Option, none, some, Str, all, if◌then◌else◌, text_eq,
  text_eq_iff, text_eq_refl, or_else, or_else-none, ◌≡◌, refl, sym, ap, ◌∙◌, inl, inr, Bool-cases,
  Option-cases, and-eq-true, arith,
}
use pysqlsuggestions.Caches.OrderedDict.{lookup, remove, assign, lookup-remove_ne}
use pysqlsuggestions.Clauses.Model.{Clause, ClauseModel}
use pysqlsuggestions.Clauses.Defs.{by_name, values, replace_from, extend, find_clause, get}

-- The last clause of that name.
abbrev pub find_last : List Clause → Str → Option Clause
find_last [] name = none
find_last (c ∷ cs) name = or_else (find_last cs name) (if text_eq c.name name then some c else none)

-- Each clause stands under its own name.
abbrev named : List (Str × Clause) → Bool
named entries = all (λ e. text_eq ((e.1).name) (e.0)) entries

or_else_assoc : (a b c : Option Clause) → or_else (or_else a b) c ≡ or_else a (or_else b c)
or_else_assoc none b c = refl
or_else_assoc (some x) b c = refl

lookup-assign :
    (q k : Str) (c : Clause) (entries : List (Str × Clause))
    → lookup q (assign k c entries)
      ≡ or_else (if text_eq k q then some c else none) (lookup q entries)
unfolding lookup assign
lookup-assign q k c [] = ground arith
lookup-assign q k c ((j, d) ∷ entries) = elim (Bool-cases (text_eq j k)) [
  | inl e ↦ let same = ap (λ t. text_eq t q) ((text_eq_iff j k).0 e) in rw e (ground (arith, same))
  | inr e ↦ rw e (
      ground
        (arith, lookup-assign q k c entries, text_eq_iff j k, text_eq_iff j q, text_eq_iff k q))
]

named-assign :
    (c : Clause) (entries : List (Str × Clause))
    → named entries ≡ true
    → named (assign c.name c entries) ≡ true
unfolding assign
named-assign c [] h = rw (text_eq_refl c.name) refl
named-assign c ((j, d) ∷ entries) h = elim (Bool-cases (text_eq j c.name)) [
  | inl e ↦
      rw (e, (text_eq_iff j c.name).0 e, text_eq_refl c.name)
        (and-eq-true (text_eq d.name j) (named entries) h).1
  | inr e ↦ rw e (ground (arith, h, named-assign c entries))
]

named-remove :
    (k : Str) (entries : List (Str × Clause))
    → named entries ≡ true
    → named (remove k entries) ≡ true
unfolding remove
named-remove k [] h = refl
named-remove k ((j, d) ∷ entries) h = ground (arith, named-remove k entries)

named-by_name :
    (entries : List (Str × Clause)) (added : List Clause)
    → named entries ≡ true
    → named (by_name entries added) ≡ true
unfolding by_name
named-by_name entries [] h = h
named-by_name entries (c ∷ cs) h =
    named-by_name (assign c.name c entries) cs (named-assign c entries h)

lookup-by_name :
    (q : Str) (entries : List (Str × Clause)) (added : List Clause)
    → lookup q (by_name entries added) ≡ or_else (find_last added q) (lookup q entries)
unfolding by_name
lookup-by_name q entries [] = refl
lookup-by_name q entries (c ∷ cs) =
    lookup-by_name q (assign c.name c entries) cs
    ∙ (ap (or_else (find_last cs q)) (lookup-assign q c.name c entries)
        ∙ sym (
            or_else_assoc (find_last cs q) (if text_eq c.name q then some c else none)
              (lookup q entries)))

lookup-named :
    (q : Str) (entries : List (Str × Clause)) (c : Clause)
    → named entries ≡ true
    → lookup q entries ≡ some c
    → c.name ≡ q
unfolding lookup
lookup-named q [] c n h = absurd (ground arith)
lookup-named q ((j, d) ∷ entries) c n h =
    ground (arith, text_eq_iff d.name j, text_eq_iff j q, lookup-named q entries c)

find_clause-values :
    (q : Str) (entries : List (Str × Clause))
    → named entries ≡ true
    → find_clause (values entries) q ≡ lookup q entries
unfolding find_clause lookup
find_clause-values q [] n = refl
find_clause-values q ((j, d) ∷ entries) n =
    let parts = and-eq-true (text_eq d.name j) (named entries) n in
    rw ((text_eq_iff d.name j).0 (parts.0), find_clause-values q entries (parts.1)) refl

replace_from-kept :
    (added : List (Str × Clause)) (c : Clause) (cs : List Clause)
    → lookup c.name added ≡ none
    → replace_from added (c ∷ cs) ≡ (c ∷ (replace_from added cs).0, (replace_from added cs).1)
unfolding replace_from
replace_from-kept added c cs e = rw (e, replace_from) refl

replace_from-new :
    (added : List (Str × Clause)) (c : Clause) (cs : List Clause) (new : Clause)
    → lookup c.name added ≡ some new
    → let later = replace_from (remove c.name added) cs in
      replace_from added (c ∷ cs) ≡ (new ∷ later.0, later.1)
unfolding replace_from
replace_from-new added c cs new e = rw (e, replace_from) refl

replace_from-nil : (added : List (Str × Clause)) → replace_from added [] ≡ ([], added)
unfolding replace_from
replace_from-nil added = refl

find_clause-replace_from :
    (q : Str) (added : List (Str × Clause)) (cs : List Clause)
    → named added ≡ true
    → find_clause ((replace_from added cs).0 ++ values (replace_from added cs).1) q
      ≡ or_else (lookup q added) (find_clause cs q)
unfolding find_clause
find_clause-replace_from q added [] n =
    rw (replace_from-nil added) (find_clause-values q added n ∙ sym (or_else-none (lookup q added)))
find_clause-replace_from q added (c ∷ cs) n = elim (Option-cases (lookup c.name added)) [
  | inl e ↦ elim (Bool-cases (text_eq c.name q)) [
    | inl t ↦
        let gone = ap (λ k. lookup k added) (sym ((text_eq_iff c.name q).0 t)) ∙ e in
        rw (replace_from-kept added c cs e, t, gone) refl
    | inr f ↦ rw (replace_from-kept added c cs e, f) (find_clause-replace_from q added cs n)
  ]
  | inr (new, e) ↦
      let same = lookup-named c.name added new n e in
      elim (Bool-cases (text_eq c.name q)) [
        | inl t ↦
            let here = ap (λ k. lookup k added) (sym ((text_eq_iff c.name q).0 t)) ∙ e in
            let hit = ap (λ k. text_eq k q) same ∙ t in
            rw (replace_from-new added c cs new e, hit, t, here) refl
        | inr f ↦
            let miss = ap (λ k. text_eq k q) same ∙ f in
            rw (replace_from-new added c cs new e, miss, f)
              (find_clause-replace_from q (remove c.name added) cs (named-remove c.name added n)
                ∙ ap (λ o. or_else o (find_clause cs q)) (lookup-remove_ne q c.name added f))
      ]
]

-- Looking a name up in an extended model gives the last of the added clauses that has the name, or
-- else what the model itself has: an added clause replaces, and the others stay.
pub get-extend :
    (m : ClauseModel) (added : List Clause) (q : Str)
    → get (extend m added) q ≡ or_else (find_last added q) (get m q)
unfolding get extend lookup
get-extend m added q =
    find_clause-replace_from q (by_name [] added) m.clauses (named-by_name [] added refl)
    ∙ ap (λ o. or_else o (find_clause m.clauses q))
        (lookup-by_name q [] added ∙ or_else-none (find_last added q))
