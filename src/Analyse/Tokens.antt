-- ===== src/Analyse/Tokens.antt =====
-- engine/analyse.py: the tests on one token, and walks over the tokens. A place among the tokens is the
-- list of the tokens up to it, the nearest first, so that -1 is the empty list and the place before is
-- the tail; its index is its length less one.
use pysqlsuggestions.Prelude.{
  ℕ, Bool, true, false, ◌&&◌, List, [], ◌∷◌, Str, ltb, if◌then◌else◌, text_eq,
}
use pysqlsuggestions.Lex.Token.{
  Chars, Token, TokenType, ident, number, string, param, comment, operator, punct, whitespace,
}

unfoldable pub is_ident : TokenType → Bool
is_ident ident = true
is_ident _ = false

unfoldable pub is_string : TokenType → Bool
is_string string = true
is_string _ = false

unfoldable pub is_comment : TokenType → Bool
is_comment comment = true
is_comment _ = false

unfoldable pub is_param : TokenType → Bool
is_param param = true
is_param _ = false

unfoldable pub is_punct : TokenType → Bool
is_punct punct = true
is_punct _ = false

unfoldable pub is_operator : TokenType → Bool
is_operator operator = true
is_operator _ = false

unfoldable pub is_number : TokenType → Bool
is_number number = true
is_number _ = false

-- `_SKIP`.
unfoldable pub in_skip : TokenType → Bool
in_skip whitespace = true
in_skip comment = true
in_skip _ = false

-- `token.type is TokenType.PUNCT and token.text == text`.
abbrev pub is_mark : Str → Token → Bool
is_mark text t = is_punct t.type && text_eq t.text text

abbrev pub Place : Type 0
Place = List Token

-- The places to the left of the first token at or behind the caret: `back` is what was passed.
unfoldable pub index_before_from : Place → List Token → ℕ → Place
index_before_from back [] caret = back
index_before_from back (t ∷ ts) caret =
    let later = index_before_from (t ∷ back) ts caret in if ltb t.start caret then later else back

unfoldable pub index_before : List Token → ℕ → Place
index_before tokens caret = index_before_from [] tokens caret

unfoldable pub skip_back : Place → Place
skip_back [] = []
skip_back (t ∷ back) = let further = skip_back back in if in_skip t.type then further else t ∷ back

-- `token.value.upper() == word`.
abbrev pub spells : Chars → Str → Token → Bool
spells u word t = text_eq (u.upper t.value) word
