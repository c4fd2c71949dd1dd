-- ===== src/Analyse/Calls.antt =====
-- engine/analyse.py: stars, aliases, casts and the calls around the caret.
use pysqlsuggestions.Prelude.{
  ℕ, ◌+◌, Bool, false, not, ◌&&◌, ◌||◌, List, [], ◌∷◌, Option, none, some, Str, codes, keep, any,
  ◌==◌, if◌then◌else◌, text_eq, non_empty,
}
use pysqlsuggestions.Lex.Token.{Chars, Token}
use pysqlsuggestions.Types.{Relation, Scope, label, visible, scope_relations}
use pysqlsuggestions.Dialect.{Dialect}
use pysqlsuggestions.Analyse.Tokens.{Place, is_ident, is_operator, is_mark, skip_back, spells}
use pysqlsuggestions.Analyse.Caret.{string_index_under}
use pysqlsuggestions.Analyse.Words.{before_caret, star_is_an_item}

-- The first place at which a test holds, going back, with the tokens that were passed, the furthest
-- first.
unfoldable pub search_back : (Token → Bool) → List Token → Place → List Token × Place
search_back p passed [] = (passed, [])
search_back p passed (t ∷ back) =
    let further = search_back p (t ∷ passed) back in if p t then (passed, t ∷ back) else further

-- A paren that opens a group whose inside is one level below.
abbrev pub opens_level : ℕ → Token → Bool
opens_level level t = is_mark (codes "(") t && (t.depth + 1 == level)

-- `_call_opening`, with the tokens between the paren and the place.
unfoldable pub call_opening : Place → List Token × Place
call_opening [] = ([], [])
call_opening (t ∷ back) = search_back (opens_level t.depth) [] back

unfoldable pub name_before : Chars → Place → Option Str
name_before u [] = none
name_before u (t ∷ back) = if is_ident t.type then some (u.upper t.value) else none

-- The function whose paren stands at a place.
unfoldable pub call_name : Chars → Place → Option Str
call_name u [] = none
call_name u (paren ∷ back) = name_before u (skip_back back)

unfoldable pub enclosing_call : Chars → Place → Option Str
enclosing_call u place = call_name u ((call_opening place).1)

-- `star_at`, behind the tokens that were passed. The answer is the place of the star.
unfoldable pub star_from : Chars → Dialect → Place → List Token → ℕ → Option Place
star_from u d back [] caret = none
star_from u d back (t ∷ ts) caret =
    let later = star_from u d (t ∷ back) ts caret in
    if not (is_operator t.type && text_eq t.text (codes "*")) || not (caret == t.end)
    then later
    else if not (star_is_an_item u d back)
    then none
    else elim (enclosing_call u (t ∷ back)) [ none ↦ some (t ∷ back) | some call ↦ none ]

unfoldable pub star_at : Chars → List Token → ℕ → Dialect → Option Place
star_at u tokens caret d = star_from u d [] tokens caret

unfoldable pub ident_at : Place → Option Token
ident_at [] = none
ident_at (t ∷ back) = if is_ident t.type then some t else none

unfoldable pub dotted_name : Place → Option Token
dotted_name [] = none
dotted_name (t ∷ back) = if is_mark (codes ".") t then ident_at (skip_back back) else none

-- `_star_qualifier`, at the star's place.
unfoldable pub qualifier_of_star : Place → Option Token
qualifier_of_star [] = none
qualifier_of_star (star ∷ back) = dotted_name (skip_back back)

unfoldable pub star_span : Token → Place → ℕ × ℕ
star_span star back = elim (qualifier_of_star (star ∷ back)) [
  | none ↦ (star.start, star.end)
  | some name ↦ (name.start, star.end)
]

unfoldable pub star_qualifier : Place → Option Str
star_qualifier place = elim (qualifier_of_star place) [ none ↦ none | some name ↦ some name.value ]

unfoldable pub star_relations : Place → Option Scope → List Relation
star_relations place none = []
star_relations place (some scope) = elim (qualifier_of_star place) [
  | none ↦ scope_relations scope
  | some name ↦ keep (λ r. text_eq (label r) name.value) (visible scope)
]

unfoldable pub names_as : Chars → Place → Bool
names_as u [] = false
names_as u (t ∷ back) = is_ident t.type && spells u (codes "AS") t

unfoldable pub after_as : Chars → List Token → ℕ → Bool
after_as u tokens caret = names_as u (before_caret tokens caret)

-- `enclosing_call(tokens, index) == 'CAST'`.
unfoldable pub is_cast : Option Str → Bool
is_cast none = false
is_cast (some call) = text_eq call (codes "CAST")

-- `marker and token.type is OPERATOR and token.text == marker`.
unfoldable pub casts : Option Str → Token → Bool
casts none t = false
casts (some marker) t = non_empty marker && is_operator t.type && text_eq t.text marker

unfoldable pub casts_at : Chars → Dialect → Place → Bool
casts_at u d [] = false
casts_at u d (t ∷ back) =
    casts d.syntax.cast_operator t
    || (names_as u (t ∷ back) && is_cast (enclosing_call u (t ∷ back)))

unfoldable pub after_cast : Chars → List Token → ℕ → Dialect → Bool
after_cast u tokens caret d = casts_at u d (before_caret tokens caret)

unfoldable pub awaits_as : Chars → Place → Bool
awaits_as u [] = false
awaits_as u (t ∷ back) = is_cast (enclosing_call u (t ∷ back)) && not (names_as u (t ∷ back))

unfoldable pub inside_a_cast_awaiting_as : Chars → List Token → ℕ → Bool
inside_a_cast_awaiting_as u tokens caret = awaits_as u (before_caret tokens caret)

unfoldable pub first_argument_of : Chars → Place → Option Str
first_argument_of u [] = none
first_argument_of u (t ∷ back) =
    let opening = call_opening (t ∷ back) in
    let name = call_name u (opening.1) in
    if any (λ (a : Token). is_mark (codes ",") a && (a.depth == t.depth)) (opening.0)
    then none
    else name

unfoldable pub literal_argument_call : Chars → List Token → ℕ → Option Str
literal_argument_call u tokens caret = first_argument_of u (string_index_under tokens caret)
