-- ===== src/Analyse/ListEnd.antt =====
-- engine/analyse.py: where `select_list_end` puts a FROM clause.
use pysqlsuggestions.Prelude.{
  ℕ, zero, suc, ◌+◌, ◌-◌, ◌≤◌, Bool, true, not, ◌&&◌, ◌||◌, List, [], ◌∷◌, Option, none, some, Str,
  codes, length, length-drop, take, drop, all, leb, ◌==◌, text_eq, ◌≡◌, refl, subst, inl, inr,
  Bool-cases, Option-cases, and-eq-true, arith,
}
use pysqlsuggestions.Lex.Token.{Chars, IsUnicode, Token}
use pysqlsuggestions.Lex.Step.{lex}
use pysqlsuggestions.Lex.Tiles.{Tiles, lex-Tiles}
use pysqlsuggestions.Dialect.{Dialect}
use pysqlsuggestions.Analyse.Tokens.{Place, in_skip, skip_back}
use pysqlsuggestions.Analyse.Caret.{between, depth_at, statement_at}
use pysqlsuggestions.Analyse.Clauses.{clause_starting_at, max}
use pysqlsuggestions.Analyse.Predicates.{behind, place_at}
use pysqlsuggestions.Analyse.Branches.{
  base_depth, branch_at, query_around, end_of_place, end_before, clause_behind, last_end,
  list_end_in, select_list_end,
}

-- Tokens that lie in the first `size` characters.
abbrev inside_of : ℕ → Token → Bool
inside_of size t = leb t.start size && leb t.end size

module _ (u : Chars) (d : Dialect) (caret size : ℕ) (fits : caret ≤ size) where
  all-take :
      (n : ℕ) (ts : List Token)
      → all (inside_of size) ts ≡ true
      → all (inside_of size) (take n ts) ≡ true
  all-take zero ts h = refl
  all-take (suc n) [] h = refl
  all-take (suc n) (t ∷ ts) h =
      let parts = and-eq-true (inside_of size t) (all (inside_of size) ts) h in
      rw (parts.0) (all-take n ts (parts.1))

  all-drop :
      (n : ℕ) (ts : List Token)
      → all (inside_of size) ts ≡ true
      → all (inside_of size) (drop n ts) ≡ true
  all-drop zero ts h = h
  all-drop (suc n) [] h = refl
  all-drop (suc n) (t ∷ ts) h =
      all-drop n ts (and-eq-true (inside_of size t) (all (inside_of size) ts) h).1

  all-behind :
      (back : Place) (ts : List Token)
      → all (inside_of size) back ≡ true
      → all (inside_of size) ts ≡ true
      → all (inside_of size) (behind back ts) ≡ true
  unfolding behind
  all-behind back [] h k = h
  all-behind back (t ∷ ts) h k =
      let parts = and-eq-true (inside_of size t) (all (inside_of size) ts) k in
      all-behind (t ∷ back) ts (rw (parts.0) h) (parts.1)

  all-skip_back :
      (back : Place)
      → all (inside_of size) back ≡ true
      → all (inside_of size) (skip_back back) ≡ true
  unfolding skip_back
  all-skip_back [] h = refl
  all-skip_back (t ∷ back) h = ground (arith, all-skip_back back, h)

  abbrev InText : ℕ → Type 0
  InText offset = (caret ≤ offset) × (offset ≤ size)

  InText-max : (n : ℕ) → n ≤ size → InText (max n caret)
  InText-max n h = (ground arith, ground arith)

  end_before-le :
      (t : Token) (back : Place)
      → inside_of size t ≡ true
      → all (inside_of size) back ≡ true
      → end_before u d t back ≤ size
  unfolding end_before end_of_place
  end_before-le t back h k = end_at (skip_back back) (all-skip_back back k)
    where
      end_at :
          (place : Place)
          → all (inside_of size) place ≡ true
          → (elim (end_of_place u d place) [ none ↦ t.start | some end ↦ end ]) ≤ size
      end_at [] k = ground (arith, h)
      end_at (p ∷ place) k = ground (arith, k)

  abbrev FoundInText : Option ℕ → Type 0
  FoundInText none = Unit {0}
  FoundInText (some offset) = InText offset

  clause_behind-FoundInText :
      (depth : ℕ) (back : Place) (ts : List Token)
      → all (inside_of size) back ≡ true
      → all (inside_of size) ts ≡ true
      → FoundInText (clause_behind u d caret depth back ts)
  unfolding clause_behind
  clause_behind-FoundInText depth back [] h k = tt
  clause_behind-FoundInText depth back (t ∷ ts) h k =
      let parts = and-eq-true (inside_of size t) (all (inside_of size) ts) k in
      let later = clause_behind-FoundInText depth (t ∷ back) ts (rw (parts.0) h) (parts.1) in
      elim (Bool-cases (in_skip t.type || not (t.depth == depth) || leb t.end caret)) [
        | inl s ↦ rw s later
        | inr s ↦ rw s (elim (Option-cases (clause_starting_at u d.clauses (t ∷ ts))) [
          | inl e ↦ rw e later
          | inr ((name, count), e) ↦ rw e (elim (Bool-cases (text_eq name (codes "SELECT"))) [
            | inl q ↦ rw q later
            | inr q ↦ rw q (InText-max (end_before u d t back) (end_before-le t back (parts.0) h))
          ])
        ])
      ]

  last_end-InText :
      (lo : ℕ) (place : Place)
      → all (inside_of size) place ≡ true
      → InText (last_end u d lo caret place)
  unfolding last_end
  last_end-InText lo [] h = (omega arith, fits)
  last_end-InText lo (t ∷ back) h = (ground (arith, h, fits), ground (arith, h, fits))

  list_end_in-InText :
      (tokens : List Token) (range : ℕ × ℕ)
      → all (inside_of size) tokens ≡ true
      → InText (list_end_in u d tokens caret range)
  unfolding list_end_in
  list_end_in-InText tokens (lo, hi) h =
      let range = between lo hi tokens in
      let place = place_at lo tokens in
      let found =
        clause_behind-FoundInText (base_depth range) place range
          (all-behind [] (take lo tokens) refl (all-take lo tokens h))
          (all-take (hi - lo) (drop lo tokens) (all-drop lo tokens h)) in
      elim (Option-cases (clause_behind u d caret (base_depth range) place range)) [
        | inl e ↦
            rw (e, list_end_in)
              (last_end-InText lo (skip_back (place_at hi tokens)) (
                all-skip_back (place_at hi tokens)
                  (all-behind [] (take hi tokens) refl (all-take hi tokens h))))
        | inr (offset, e) ↦ rw (e, list_end_in) (subst FoundInText e found)
      ]

inside-Tiles :
    (size : ℕ) (rest : Str) (pos : ℕ) (ts : List Token)
    → Tiles rest pos ts
    → pos + length rest ≤ size
    → all (inside_of size) ts ≡ true
inside-Tiles size rest pos [] h le = refl
inside-Tiles size rest pos (t ∷ ts) (f, h) le =
    let short = length-drop {0} (t.end - pos) rest in
    let here : inside_of size t ≡ true = ground (arith, f.starts, f.grows, f.within, le) in
    rw here (
      inside-Tiles size (drop (t.end - pos) rest) t.end ts h
        (omega (arith, short, f.grows, f.within)))

-- Where a missing FROM clause is put is never in front of the caret, and never behind the text's end.
pub select_list_end-in_text :
    (u : Chars) (laws : IsUnicode u) (d : Dialect) (src : Str) (caret : ℕ)
    → caret ≤ length src
    → (ts : List Token) × (lex u d.syntax src ≡ some ts)
      × (caret ≤ select_list_end u d ts caret)
      × (select_list_end u d ts caret ≤ length src)
unfolding select_list_end
select_list_end-in_text u laws d src caret le =
    let (ts, e, tiles) = lex-Tiles u laws d.syntax src in
    let branch = branch_at u ts (statement_at ts caret).0 (statement_at ts caret).1 caret in
    let range = query_around u d ts (branch.0) (branch.1) caret (depth_at ts caret) in
    let found =
      list_end_in-InText u d caret (length src) le ts range
        (inside-Tiles (length src) src 0 ts tiles (omega arith)) in
    (ts, e, found.0, found.1)
