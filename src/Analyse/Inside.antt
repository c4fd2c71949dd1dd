-- ===== src/Analyse/Inside.antt =====
-- engine/analyse.py: that the one token left of the caret decides what the caret is in.
use pysqlsuggestions.Prelude.{
  ℕ, zero, suc, ◌<◌, Bool, true, false, ◌&&◌, ◌||◌, List, [], ◌∷◌, none, some, Str, any,
  if◌then◌else◌, ◌≡◌, refl, arith,
}
use pysqlsuggestions.Lex.Token.{Chars, IsUnicode, Syntax, Token, TokenType, param, covers}
use pysqlsuggestions.Lex.Step.{lex}
use pysqlsuggestions.Lex.Tiles.{Tiles, lex-Tiles}
use pysqlsuggestions.Analyse.Tokens.{Place, is_string, is_comment, is_param, index_before}
use pysqlsuggestions.Analyse.Caret.{
  inside, in_literal, in_placeholder, string_index_under, token_of, string_under,
}
use pysqlsuggestions.Analyse.Covers.{
  holds_at, any-past, any-place, literal_here, string_here, param_here, literal_covers,
  string_covers, param_covers, string_place_from-any, string_place_from-place,
  index_before_from-past,
}

any-at :
    (p : Token → Bool) (src : Str) (ts : List Token) (caret : ℕ)
    → ((t : Token) → t.start < t.end → p t ≡ true → covers t caret ≡ true)
    → Tiles src 0 ts
    → any p ts ≡ holds_at p (index_before ts caret)
unfolding index_before
any-at p src ts zero only tiles =
    rw (index_before_from-past [] src 0 ts 0 tiles (omega arith))
      (any-past p 0 only src 0 ts tiles (omega arith))
any-at p src ts (suc caret) only tiles =
    any-place p (suc caret) only [] src 0 ts tiles (λ e. refl) (omega arith)

token_of_if :
    (b : Bool) (p : Place) → token_of (if b then p else []) ≡ (if b then token_of p else none)
unfolding token_of
token_of_if true p = refl
token_of_if false p = refl

string_under-at :
    (src : Str) (ts : List Token) (caret : ℕ)
    → Tiles src 0 ts
    → string_under ts caret ≡ (
        if holds_at (string_here caret) (index_before ts caret)
        then token_of (index_before ts caret)
        else none)
unfolding string_under string_index_under index_before
string_under-at src ts zero tiles =
    rw
      (
        string_place_from-any [] ts 0
            (any-past (string_here 0) 0 (string_covers 0) src 0 ts tiles (omega arith)),
        index_before_from-past [] src 0 ts 0 tiles (omega arith),
      )
      (unfold token_of in refl)
string_under-at src ts (suc caret) tiles =
    rw (string_place_from-place [] src 0 ts (suc caret) tiles (λ e. refl) (omega arith)) (
      token_of_if (holds_at (string_here (suc caret)) (index_before ts (suc caret)))
        (index_before ts (suc caret)))

not_both_of :
    (type : TokenType) (b : Bool)
    → (((is_string type || is_comment type) && b) && (is_param type && b)) ≡ false
unfolding is_string is_comment is_param
not_both_of param b = refl
not_both_of _ b = ground arith

not_both :
    (caret : ℕ) (place : Place)
    → (holds_at (literal_here caret) place && holds_at (param_here caret) place) ≡ false
not_both caret [] = refl
not_both caret (t ∷ back) = not_both_of t.type (inside t caret)

-- In the tokens of a text, the last token that starts before the caret decides alone whether the caret is
-- in a literal or a comment, whether it is in a bound parameter, and which string it is in; it is never
-- in a literal and a parameter at once.
pub in_literal-one_token :
    (u : Chars) (laws : IsUnicode u) (s : Syntax) (src : Str) (caret : ℕ)
    → (ts : List Token) × (lex u s src ≡ some ts)
      × (in_literal ts caret ≡ holds_at (literal_here caret) (index_before ts caret))
      × (in_placeholder ts caret ≡ holds_at (param_here caret) (index_before ts caret))
      × (string_under ts caret ≡ (
          if holds_at (string_here caret) (index_before ts caret)
          then token_of (index_before ts caret)
          else none))
      × ((in_literal ts caret && in_placeholder ts caret) ≡ false)
unfolding in_literal in_placeholder
in_literal-one_token u laws s src caret =
    let (ts, e, tiles) = lex-Tiles u laws s src in
    let literal = any-at (literal_here caret) src ts caret (literal_covers caret) tiles in
    let bound = any-at (param_here caret) src ts caret (param_covers caret) tiles in
    (
      ts,
      e,
      literal,
      bound,
      string_under-at src ts caret tiles,
      rw (literal, bound) (not_both caret (index_before ts caret)),
    )
