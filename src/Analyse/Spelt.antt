-- ===== src/Analyse/Spelt.antt =====
-- engine/analyse.py: what `_clause_starting_at` has read when it answers.
use pysqlsuggestions.Prelude.{
  ℕ, zero, suc, ◌≤◌, Bool, true, false, List, [], ◌∷◌, Option, none, some, Str, length, take, map,
  sort, insert_sorted, if◌then◌else◌, text_eq, ◌≡◌, refl, ap₂, subst, inl, inr, Bool-cases,
  Option-cases, and-eq-true, text_eq_iff, arith,
}
use mathlib.Core.List.{Memᴰ}
use mathlib.Core.List.Memᴰ as Memᴰ
use pysqlsuggestions.Prelude.Occurs.{keep-Mem}
use pysqlsuggestions.Lex.Token.{Chars, Token}
use pysqlsuggestions.Clauses.Model.{ClauseModel}
use pysqlsuggestions.Clauses.Defs.{clause_names, names, name_le}
use pysqlsuggestions.Analyse.Tokens.{in_skip}
use pysqlsuggestions.Analyse.Words.{is_word, split_words, texts_eq}
use pysqlsuggestions.Analyse.Clauses.{
  one_more, with_token, ident_run, first_is, by_first_word, run_spells, first_spelt,
  clause_starting_at,
}

texts_eq_to : (a b : List Str) → texts_eq a b ≡ true → a ≡ b
unfolding texts_eq
texts_eq_to [] [] h = refl
texts_eq_to [] (y ∷ ys) h = absurd (ground arith)
texts_eq_to (x ∷ xs) [] h = absurd (ground arith)
texts_eq_to (x ∷ xs) (y ∷ ys) h =
    let parts = and-eq-true (text_eq x y) (texts_eq xs ys) h in
    ap₂ (λ a b. a ∷ b) ((text_eq_iff x y).0 (parts.0)) (texts_eq_to xs ys (parts.1))

-- Tokens that spell words: unquoted identifiers, with tokens between them that are skipped.
pub data Spells (u : Chars) : List Token → List Str → Type 0 where
  ended : Spells u [] []
  skipped :
      (t : Token) (ts : List Token) (ws : List Str)
      → in_skip t.type ≡ true
      → Spells u ts ws
      → Spells u (t ∷ ts) ws
  word :
      (t : Token) (ts : List Token) (ws : List Str)
      → is_word t ≡ true
      → Spells u ts ws
      → Spells u (t ∷ ts) (u.upper t.value ∷ ws)

abbrev uppers : Chars → List Token → List Str
uppers u = map (λ (t : Token). u.upper t.value)

-- A run, if there is one, spells its words, and reads a token at least for each.
abbrev RunsOn : Chars → ℕ → List Token → Option (List Token × ℕ) → Type 0
RunsOn u n rest none = Unit {0}
RunsOn u n rest (some (run, count)) = Spells u (take count rest) (uppers u run) × (n ≤ count)

one_more-RunsOn :
    (u : Chars) (n : ℕ) (t : Token) (ts : List Token) (o : Option (List Token × ℕ))
    → in_skip t.type ≡ true
    → RunsOn u n ts o
    → RunsOn u n (t ∷ ts) (one_more o)
one_more-RunsOn u n t ts none s h = tt
one_more-RunsOn u n t ts (some (run, count)) s h =
    (skipped t (take count ts) (uppers u run) s (h.0), omega (arith, h.1))

with_token-RunsOn :
    (u : Chars) (n : ℕ) (t : Token) (ts : List Token) (o : Option (List Token × ℕ))
    → is_word t ≡ true
    → RunsOn u n ts o
    → RunsOn u (suc n) (t ∷ ts) (with_token t o)
with_token-RunsOn u n t ts none w h = tt
with_token-RunsOn u n t ts (some (run, count)) w h =
    (word t (take count ts) (uppers u run) w (h.0), omega (arith, h.1))

ident_run_skip :
    (n : ℕ) (t : Token) (ts : List Token)
    → in_skip t.type ≡ true
    → ident_run (suc n) (t ∷ ts) ≡ one_more (ident_run (suc n) ts)
unfolding ident_run
ident_run_skip n t ts s = rw (s, ident_run) refl

ident_run_word :
    (n : ℕ) (t : Token) (ts : List Token)
    → in_skip t.type ≡ false
    → ident_run (suc n) (t ∷ ts)
      ≡ (elim (is_word t) [ true ↦ with_token t (ident_run n ts) | false ↦ none ])
unfolding ident_run
ident_run_word n t ts s = rw (s, ident_run) refl

ident_run-RunsOn : (u : Chars) (n : ℕ) (rest : List Token) → RunsOn u n rest (ident_run n rest)
ident_run-RunsOn u zero rest = unfold ident_run in (ended, omega arith)
ident_run-RunsOn u (suc n) [] = unfold ident_run in tt
ident_run-RunsOn u (suc n) (t ∷ ts) = elim (Bool-cases (in_skip t.type)) [
  | inl s ↦
      rw (ident_run_skip n t ts s)
        (one_more-RunsOn u (suc n) t ts _ s (ident_run-RunsOn u (suc n) ts))
  | inr s ↦ rw (ident_run_word n t ts s) (elim (Bool-cases (is_word t)) [
    | inl w ↦ rw w (with_token-RunsOn u n t ts _ w (ident_run-RunsOn u n ts))
    | inr w ↦ rw w tt
  ])
]

-- An answer of `_scan_clause_start` at some tokens: one of the names, whose words the tokens spell.
abbrev pub ClauseRead : Chars → List Str → List Token → Option (Str × ℕ) → Type 0
ClauseRead u among rest none = Unit {0}
ClauseRead u among rest (some (name, count)) =
    Memᴰ name among
    × Spells u (take count rest) (split_words u name)
    × (length (split_words u name) ≤ count)

run_spells-Spells :
    (u : Chars) (parts : List Str) (rest : List Token) (o : Option (List Token × ℕ)) (count : ℕ)
    → RunsOn u (length parts) rest o
    → run_spells u parts o ≡ some count
    → Spells u (take count rest) parts × (length parts ≤ count)
unfolding run_spells
run_spells-Spells u parts rest none count h e = absurd (ground arith)
run_spells-Spells u parts rest (some (run, k)) count h e =
    elim (Bool-cases (texts_eq (uppers u run) parts)) [
      | inr f ↦ absurd (ground (arith, f, e))
      | inl t ↦
          let same : k ≡ count = ground (arith, t, e) in
          (
            subst (λ c. Spells u (take c rest) parts) same
                (subst (λ ws. Spells u (take k rest) ws) (texts_eq_to (uppers u run) parts t)
                  (h.0)),
            omega (arith, same, h.1),
          )
    ]

first_spelt_skips :
    (u : Chars) (rest : List Token) (name : Str) (later : List Str)
    → run_spells u (split_words u name) (ident_run (length (split_words u name)) rest) ≡ none
    → first_spelt u rest (name ∷ later) ≡ first_spelt u rest later
unfolding first_spelt
first_spelt_skips u rest name later e = rw (e, first_spelt) refl

first_spelt_found :
    (u : Chars) (rest : List Token) (name : Str) (later : List Str) (count : ℕ)
    → run_spells u (split_words u name) (ident_run (length (split_words u name)) rest) ≡ some count
    → first_spelt u rest (name ∷ later) ≡ some (name, count)
unfolding first_spelt
first_spelt_found u rest name later count e = rw (e, first_spelt) refl

ClauseRead-more :
    (u : Chars) (name : Str) (among : List Str) (rest : List Token) (o : Option (Str × ℕ))
    → ClauseRead u among rest o
    → ClauseRead u (name ∷ among) rest o
ClauseRead-more u name among rest none h = tt
ClauseRead-more u name among rest (some (found, count)) h = (Memᴰ.tail (h.0), h.1, h.2)

first_spelt-ClauseRead :
    (u : Chars) (rest : List Token) (among : List Str)
    → ClauseRead u among rest (first_spelt u rest among)
first_spelt-ClauseRead u rest [] = unfold first_spelt in tt
first_spelt-ClauseRead u rest (name ∷ among) =
    let parts = split_words u name in
    elim (Option-cases (run_spells u parts (ident_run (length parts) rest))) [
      | inl e ↦
          rw (first_spelt_skips u rest name among e)
            (ClauseRead-more u name among rest _ (first_spelt-ClauseRead u rest among))
      | inr (count, e) ↦
          let found =
            run_spells-Spells u parts rest _ count (ident_run-RunsOn u (length parts) rest) e in
          rw (first_spelt_found u rest name among count e) (Memᴰ.head refl, found.0, found.1)
    ]

insert_sorted-Mem :
    {A : Type 0} (before : A → A → Bool) (x a : A) (ys : List A)
    → Memᴰ a (insert_sorted before x ys)
    → Memᴰ a (x ∷ ys)
insert_sorted-Mem before x a [] h = h
insert_sorted-Mem before x a (y ∷ ys) h =
    insert_sorted-Mem_at (before x y) h (insert_sorted-Mem before x a ys)
  where
    insert_sorted-Mem_at :
        (b : Bool)
        → Memᴰ a (if b then x ∷ y ∷ ys else y ∷ insert_sorted before x ys)
        → (Memᴰ a (insert_sorted before x ys) → Memᴰ a (x ∷ ys))
        → Memᴰ a (x ∷ y ∷ ys)
    insert_sorted-Mem_at true h below = h
    insert_sorted-Mem_at false h below = elim (Memᴰ.cases_cons h) [
      | inl same ↦ Memᴰ.tail (Memᴰ.head same)
      | inr later ↦ elim (Memᴰ.cases_cons (below later)) [
        | inl same ↦ Memᴰ.head same
        | inr old ↦ Memᴰ.tail (Memᴰ.tail old)
      ]
    ]

sort-Mem :
    {A : Type 0} (before : A → A → Bool) (a : A) (xs : List A) → Memᴰ a (sort before xs) → Memᴰ a xs
sort-Mem before a [] h = h
sort-Mem before a (x ∷ xs) h =
    elim (Memᴰ.cases_cons (insert_sorted-Mem before x a (sort before xs) h)) [
      | inl same ↦ Memᴰ.head same
      | inr later ↦ Memᴰ.tail (sort-Mem before a xs later)
    ]

first_is-positive : (q : Str) (ws : List Str) → first_is q ws ≡ true → 1 ≤ length ws
unfolding first_is
first_is-positive q [] h = absurd (ground arith)
first_is-positive q (w ∷ ws) h = omega arith

-- What `_clause_starting_at` answers at some tokens, if it answers: a clause of the model, whose words
-- the first of the tokens spell, and how many tokens these are, one at least.
unfoldable pub ReadsClause : Chars → ClauseModel → List Token → Option (Str × ℕ) → Type 0
ReadsClause u m rest none = Unit {0}
ReadsClause u m rest (some (name, count)) =
    Memᴰ name (clause_names m.clauses)
    × Spells u (take count rest) (split_words u name)
    × (1 ≤ count)

among-ReadsClause :
    (u : Chars) (m : ClauseModel) (w : Str) (rest : List Token) (o : Option (Str × ℕ))
    → ClauseRead u (by_first_word u m w) rest o
    → ReadsClause u m rest o
unfolding ReadsClause by_first_word names
among-ReadsClause u m w rest none h = tt
among-ReadsClause u m w rest (some (name, count)) h =
    let kept = keep-Mem (λ name. first_is w (split_words u name)) (names m) name (h.0) in
    (
      sort-Mem name_le name (clause_names m.clauses) (kept.0),
      h.1,
      omega (arith, first_is-positive w (split_words u name) (kept.1), h.2),
    )

-- An answer of `_clause_starting_at` is a clause of the model; the tokens that it says it read are one at
-- least, and they spell the words of the clause, unquoted, with only blanks and comments between.
pub clause_starting_at-ReadsClause :
    (u : Chars) (m : ClauseModel) (rest : List Token)
    → ReadsClause u m rest (clause_starting_at u m rest)
unfolding clause_starting_at
clause_starting_at-ReadsClause u m [] = unfold ReadsClause in tt
clause_starting_at-ReadsClause u m (t ∷ ts) = elim (Bool-cases (is_word t)) [
  | inr f ↦ rw f (unfold ReadsClause in tt)
  | inl w ↦ rw w (
      among-ReadsClause u m (u.upper t.value) (t ∷ ts) _
        (first_spelt-ClauseRead u (t ∷ ts) (by_first_word u m (u.upper t.value))))
]
