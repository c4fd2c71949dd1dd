-- ===== src/Analyse/Caret.antt =====
-- engine/analyse.py, from `_index_before` to `qualifier_and_prefix`: what the caret is in.
use pysqlsuggestions.Prelude.{
  ℕ, suc, ◌+◌, ◌-◌, Bool, false, not, ◌&&◌, ◌||◌, List, [], ◌∷◌, ◌++◌, Option, none, some, Str,
  codes, length, take, drop, any, leb, ltb, ◌==◌, if◌then◌else◌, starts_with,
}
use pysqlsuggestions.Lex.Token.{Chars, Token, covers}
use pysqlsuggestions.Quote.Defs.{replace_from}
use pysqlsuggestions.Analyse.Tokens.{
  Place, is_ident, is_string, is_comment, is_param, in_skip, is_mark, index_before,
}

-- `depth_at`, at the place before the caret.
unfoldable pub depth_of : Place → ℕ → ℕ
depth_of [] caret = 0
depth_of (t ∷ back) caret =
    if is_mark (codes "(") t && leb t.end caret then t.depth + 1 else t.depth

unfoldable pub depth_at : List Token → ℕ → ℕ
depth_at tokens caret = depth_of (index_before tokens caret) caret

unfoldable pub inside : Token → ℕ → Bool
inside t caret =
    if is_comment t.type && not (starts_with t.text (codes "/*"))
    then covers t caret
    else (ltb t.start caret && ltb caret t.end) || ((caret == t.end) && not t.terminated)

unfoldable pub in_literal : List Token → ℕ → Bool
in_literal tokens caret =
    any (λ t. (is_string t.type || is_comment t.type) && inside t caret) tokens

unfoldable pub in_placeholder : List Token → ℕ → Bool
in_placeholder tokens caret = any (λ t. is_param t.type && inside t caret) tokens

-- `_string_index_under`, behind the tokens that were passed.
unfoldable pub string_place_from : Place → List Token → ℕ → Place
string_place_from back [] caret = []
string_place_from back (t ∷ ts) caret =
    let later = string_place_from (t ∷ back) ts caret in
    if is_string t.type && inside t caret then t ∷ back else later

unfoldable pub string_index_under : List Token → ℕ → Place
string_index_under tokens caret = string_place_from [] tokens caret

-- `tokens[index] if index >= 0 else None`.
unfoldable pub token_of : Place → Option Token
token_of [] = none
token_of (t ∷ back) = some t

unfoldable pub string_under : List Token → ℕ → Option Token
string_under tokens caret = token_of (string_index_under tokens caret)

-- The loop of `statement_at`, at `index`.
unfoldable pub statement_range : ℕ → ℕ → List Token → ℕ → ℕ × ℕ
statement_range lo index [] caret = (lo, index)
statement_range lo index (t ∷ ts) caret =
    let same = statement_range lo (suc index) ts caret in
    let next = statement_range (suc index) (suc index) ts caret in
    if is_mark (codes ";") t then (if leb caret t.start then (lo, index) else next) else same

unfoldable pub statement_at : List Token → ℕ → ℕ × ℕ
statement_at tokens caret = statement_range 0 0 tokens caret

-- `tokens[lo:hi]`.
abbrev pub between {ℓ} : {A : Type ℓ} → ℕ → ℕ → List A → List A
between lo hi tokens = take (hi - lo) (drop lo tokens)

unfoldable pub statement_has_begun : List Token → ℕ → ℕ → ℕ → Bool
statement_has_begun tokens lo hi caret =
    any (λ (t : Token). not (in_skip t.type) && ltb t.end caret) (between lo hi tokens)

-- `typed[1:] if typed.startswith(quote) else typed`.
unfoldable pub behind_quote : Str → Str → Str
behind_quote quote typed = if starts_with typed quote then drop 1 typed else typed

-- `_value_of`; the text of a quoted token has a first character.
unfoldable pub value_of : Chars → Str → Token → Str
value_of u typed t =
    let quote = take 1 t.text in
    if t.quoted
    then if leb (length t.text) (length typed)
      then t.value
      else replace_from (quote ++ quote) quote 0 (behind_quote quote typed)
    else if length t.value == length t.text
    then take (length typed) t.value
    else u.lower typed

-- `tokens[index].type is IDENT and tokens[index].end >= caret`: a word is being typed.
abbrev pub is_typed : Token → ℕ → Bool
is_typed t caret = is_ident t.type && leb caret t.end

-- The loop of `qualifier_and_prefix`, the nearest segment first. A dot wants a name before it.
unfoldable pub segments_back : Bool → Place → List Str
segments_back wants [] = []
segments_back wants (t ∷ back) =
    let further = segments_back (if in_skip t.type then wants else not wants) back in
    if in_skip t.type
    then further
    else if wants
    then (if is_ident t.type then t.value ∷ further else [])
    else if is_mark (codes ".") t
    then further
    else []

unfoldable pub reversed : List Str → List Str
reversed [] = []
reversed (s ∷ ss) = reversed ss ++ s ∷ []

-- `qualifier_and_prefix`, at the place before the caret.
unfoldable pub qualifier_of : Chars → Place → ℕ → List Str × Str × (ℕ × ℕ)
qualifier_of u [] caret = ([], [], (caret, caret))
qualifier_of u (t ∷ back) caret =
    if is_typed t caret
    then (
      reversed (segments_back false back),
      value_of u (take (caret - t.start) t.text) t,
      (t.start, if t.quoted && t.terminated then t.end else caret),
    )
    else (reversed (segments_back false (t ∷ back)), [], (caret, caret))

unfoldable pub qualifier_and_prefix : Chars → List Token → ℕ → List Str × Str × (ℕ × ℕ)
qualifier_and_prefix u tokens caret = qualifier_of u (index_before tokens caret) caret
