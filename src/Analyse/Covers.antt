-- ===== src/Analyse/Covers.antt =====
-- engine/analyse.py: the place before the caret, in the tokens of a text, and the questions that the
-- token there answers.
use pysqlsuggestions.Prelude.{
  ℕ, ◌+◌, ◌-◌, ◌≤◌, ◌<◌, Bool, true, false, ◌&&◌, ◌||◌, List, [], ◌∷◌, Str, length, length-drop,
  drop, any, ltb, if◌then◌else◌, ◌≡◌, refl, sym, ap, ◌∙◌, inl, inr, Bool-cases, arith,
}
use mathlib.Core.List.{Memᴰ}
use pysqlsuggestions.Lex.Token.{Token, covers}
use pysqlsuggestions.Lex.Tiles.{Tiles}
use pysqlsuggestions.Analyse.Tokens.{Place, is_string, is_comment, is_param, index_before_from}
use pysqlsuggestions.Analyse.Caret.{inside, string_place_from}

inside-covers :
    (t : Token) (caret : ℕ) → t.start < t.end → inside t caret ≡ true → covers t caret ≡ true
unfolding inside covers
inside-covers t caret grows h = ground arith

-- Whether a test holds of the token at a place.
abbrev pub holds_at : (Token → Bool) → Place → Bool
holds_at p [] = false
holds_at p (t ∷ back) = p t

pub index_before_from-past :
    (back : Place) (rest : Str) (pos : ℕ) (ts : List Token) (caret : ℕ)
    → Tiles rest pos ts
    → caret ≤ pos
    → index_before_from back ts caret ≡ back
unfolding index_before_from
index_before_from-past back rest pos [] caret h le = refl
index_before_from-past back rest pos (t ∷ ts) caret (f, h) le = ground (arith, f.starts)

pub index_before_from-next :
    (back : Place) (t : Token) (ts : List Token) (caret : ℕ)
    → t.start < caret
    → index_before_from back (t ∷ ts) caret ≡ index_before_from (t ∷ back) ts caret
unfolding index_before_from
index_before_from-next back t ts caret lt = ground arith

module _ (p : Token → Bool) (caret : ℕ)
    (only : (t : Token) → t.start < t.end → p t ≡ true → covers t caret ≡ true) where
  outside : (t : Token) → t.start < t.end → covers t caret ≡ false → p t ≡ false
  outside t grows h = ground (arith, only t grows)

  pub any-past :
      (rest : Str) (pos : ℕ) (ts : List Token) → Tiles rest pos ts → caret ≤ pos → any p ts ≡ false
  any-past rest pos [] h le = refl
  any-past rest pos (t ∷ ts) (f, h) le =
      let first =
        outside t (omega (arith, f.starts, f.grows))
          (unfold covers in ground (arith, f.starts, f.grows)) in
      rw first (any-past (drop (t.end - pos) rest) t.end ts h (omega (arith, f.grows)))

  pub any-place :
      (back : Place) (rest : Str) (pos : ℕ) (ts : List Token)
      → Tiles rest pos ts
      → (pos < caret → holds_at p back ≡ false)
      → pos < caret
      → any p ts ≡ holds_at p (index_before_from back ts caret)
  any-place back rest pos [] h quiet lt = unfold index_before_from in sym (quiet lt)
  any-place back rest pos (t ∷ ts) (f, h) quiet lt =
      let next = index_before_from-next back t ts caret (omega (arith, f.starts)) in
      elim (Bool-cases (ltb t.end caret)) [
        | inl over ↦
            let first =
              outside t (omega (arith, f.starts, f.grows)) (unfold covers in ground arith) in
            rw (first, next)
              (any-place (t ∷ back) (drop (t.end - pos) rest) t.end ts h (λ e. first)
                (ground arith))
        | inr here ↦
            let le : caret ≤ t.end = ground arith in
            rw
              (
                any-past (drop (t.end - pos) rest) t.end ts h le,
                next,
                index_before_from-past (t ∷ back) (drop (t.end - pos) rest) t.end ts caret h le,
              )
              (ground arith)
      ]

-- A place of the tokens of a text that holds the caret: its token starts before the caret and does not
-- end before it.
pub place-covers :
    (back : Place) (rest : Str) (pos : ℕ) (ts : List Token) (caret : ℕ)
    → Tiles rest pos ts
    → pos < caret
    → caret ≤ pos + length rest
    → (t : Token) × (before : Place) × (index_before_from back ts caret ≡ t ∷ before)
      × (covers t caret ≡ true)
      × (t.end ≤ pos + length rest)
      × Memᴰ t ts
place-covers back rest pos [] caret h lt le = let none_left = ap length h in absurd (omega arith)
place-covers back rest pos (t ∷ ts) caret (f, h) lt le =
    let next = index_before_from-next back t ts caret (omega (arith, f.starts)) in
    elim (Bool-cases (ltb t.end caret)) [
      | inl over ↦
          let further : t.end < caret = ground arith in
          let short = length-drop {0} (t.end - pos) rest in
          let found =
            place-covers (t ∷ back) (drop (t.end - pos) rest) t.end ts caret h further
              (omega (arith, short, f.grows, f.within)) in
          (
            found.0,
            found.1,
            next ∙ found.2,
            found.3,
            omega (arith, found.4, short, f.grows, f.within),
            Memᴰ.tail (found.5),
          )
      | inr here ↦ (
        t,
        back,
        next
            ∙ index_before_from-past (t ∷ back) (drop (t.end - pos) rest) t.end ts caret h
                (ground arith),
        unfold covers in ground (arith, f.starts),
        f.within,
        Memᴰ.head refl,
      )
    ]

abbrev pub literal_here : ℕ → Token → Bool
literal_here caret t = (is_string t.type || is_comment t.type) && inside t caret

abbrev pub string_here : ℕ → Token → Bool
string_here caret t = is_string t.type && inside t caret

abbrev pub param_here : ℕ → Token → Bool
param_here caret t = is_param t.type && inside t caret

pub string_place_from-any :
    (back : Place) (ts : List Token) (caret : ℕ)
    → any (string_here caret) ts ≡ false
    → string_place_from back ts caret ≡ []
unfolding string_place_from
string_place_from-any back [] caret h = refl
string_place_from-any back (t ∷ ts) caret h =
    ground (arith, string_place_from-any (t ∷ back) ts caret)

pub string_covers :
    (caret : ℕ) (t : Token) → t.start < t.end → string_here caret t ≡ true → covers t caret ≡ true
string_covers caret t grows h = ground (arith, inside-covers t caret grows)

pub literal_covers :
    (caret : ℕ) (t : Token) → t.start < t.end → literal_here caret t ≡ true → covers t caret ≡ true
literal_covers caret t grows h = ground (arith, inside-covers t caret grows)

pub param_covers :
    (caret : ℕ) (t : Token) → t.start < t.end → param_here caret t ≡ true → covers t caret ≡ true
param_covers caret t grows h = ground (arith, inside-covers t caret grows)

pub string_place_from-place :
    (back : Place) (rest : Str) (pos : ℕ) (ts : List Token) (caret : ℕ)
    → Tiles rest pos ts
    → (pos < caret → holds_at (string_here caret) back ≡ false)
    → pos < caret
    → string_place_from back ts caret ≡ (
        if holds_at (string_here caret) (index_before_from back ts caret)
        then index_before_from back ts caret
        else [])
unfolding string_place_from
string_place_from-place back rest pos [] caret h quiet lt =
    unfold index_before_from in rw (quiet lt) refl
string_place_from-place back rest pos (t ∷ ts) caret (f, h) quiet lt =
    let next = index_before_from-next back t ts caret (omega (arith, f.starts)) in
    elim (Bool-cases (ltb t.end caret)) [
      | inl over ↦
          let first =
            outside (string_here caret) caret (string_covers caret) t
              (omega (arith, f.starts, f.grows)) (unfold covers in ground arith) in
          rw (first, next)
            (string_place_from-place (t ∷ back) (drop (t.end - pos) rest) t.end ts caret h
              (λ e. first) (ground arith))
      | inr here ↦
          let le : caret ≤ t.end = ground arith in
          let past = any-past (string_here caret) caret (string_covers caret) _ _ ts h le in
          rw
            (
              string_place_from-any (t ∷ back) ts caret past,
              next,
              index_before_from-past (t ∷ back) _ _ ts caret h le,
            )
            refl
    ]
