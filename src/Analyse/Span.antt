-- ===== src/Analyse/Span.antt =====
-- engine/analyse.py: the stretch of text that `qualifier_and_prefix` wants replaced.
use pysqlsuggestions.Prelude.{
  ℕ, zero, suc, ◌≤◌, true, ◌&&◌, List, [], ◌∷◌, some, Str, length, leb, if◌then◌else◌, ◌≡◌, ◌⊎◌,
  refl, inl, inr, Bool-cases, and-eq-true, arith,
}
use mathlib.Core.List.{Memᴰ}
use pysqlsuggestions.Lex.Token.{Chars, IsUnicode, Syntax, Token, covers}
use pysqlsuggestions.Lex.Step.{lex}
use pysqlsuggestions.Lex.Tiles.{Tiles, lex-Tiles}
use pysqlsuggestions.Analyse.Tokens.{Place, is_ident, index_before}
use pysqlsuggestions.Analyse.Caret.{is_typed, qualifier_of, qualifier_and_prefix}
use pysqlsuggestions.Analyse.Covers.{place-covers, index_before_from-past}

-- A stretch that ends at the caret or, for a quoted name that is closed, at the end of the name.
pub record EndsWell (size caret : ℕ) (ts : List Token) (start stop : ℕ) : Type 0 where
  pub from_left : start ≤ caret
  pub to_right : caret ≤ stop
  pub in_text : stop ≤ size
  pub of_word :
      ((start ≡ caret) × (stop ≡ caret))
      ⊎ ((t : Token) × Memᴰ t ts
          × (is_ident t.type ≡ true)
          × (start ≡ t.start)
          × (stop ≡ (if t.quoted && t.terminated then t.end else caret)))

abbrev pub span : List Str × Str × (ℕ × ℕ) → ℕ × ℕ
span answer = answer.2

span-place :
    (u : Chars) (t : Token) (back : Place) (ts : List Token) (caret size : ℕ)
    → covers t caret ≡ true
    → t.end ≤ size
    → Memᴰ t ts
    → let found = span (qualifier_of u (t ∷ back) caret) in EndsWell size caret ts found.0 found.1
unfolding qualifier_of covers
span-place u t back ts caret size c le m = elim (Bool-cases (is_typed t caret)) [
  | inl typed ↦ rw typed (record {
    from_left = ground arith;
    to_right = ground arith;
    in_text = ground arith;
    of_word = inr (t, m, (and-eq-true (is_ident t.type) (leb caret t.end) typed).0, refl, refl);
  })
  | inr other ↦ rw other (record {
    from_left = ground arith;
    to_right = ground arith;
    in_text = ground arith;
    of_word = inl (refl, refl);
  })
]

pub span-EndsWell :
    (u : Chars) (src : Str) (ts : List Token) (caret : ℕ)
    → Tiles src 0 ts
    → caret ≤ length src
    → let found = span (qualifier_and_prefix u ts caret) in
      EndsWell (length src) caret ts found.0 found.1
unfolding qualifier_and_prefix index_before
span-EndsWell u src ts zero tiles le =
    rw (index_before_from-past [] src 0 ts 0 tiles (omega arith)) (
      unfold qualifier_of in
      record {
        from_left = omega arith;
        to_right = omega arith;
        in_text = omega arith;
        of_word = inl (refl, refl);
      })
span-EndsWell u src ts (suc caret) tiles le =
    let found = place-covers [] src 0 ts (suc caret) tiles (omega arith) (omega arith) in
    let fits : (found.0).end ≤ length src = omega (arith, found.4) in
    rw (found.2)
      (span-place u (found.0) (found.1) ts (suc caret) (length src) (found.3) fits (found.5))

-- What `qualifier_and_prefix` wants replaced holds the caret and lies in the text. It is either empty, at
-- the caret, or it begins where an identifier token begins and ends at the caret; at the end of the
-- token, if that is a quoted name that is closed.
pub qualifier_and_prefix-span :
    (u : Chars) (laws : IsUnicode u) (s : Syntax) (src : Str) (caret : ℕ)
    → caret ≤ length src
    → (ts : List Token) × (lex u s src ≡ some ts)
      × (let found = span (qualifier_and_prefix u ts caret) in
          EndsWell (length src) caret ts found.0 found.1)
qualifier_and_prefix-span u laws s src caret le =
    let (ts, e, tiles) = lex-Tiles u laws s src in (ts, e, span-EndsWell u src ts caret tiles le)
