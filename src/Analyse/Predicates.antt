-- ===== src/Analyse/Predicates.antt =====
-- engine/analyse.py: how far a predicate, a CASE or a comparison is written.
use pysqlsuggestions.Prelude.{
  ℕ, zero, suc, ◌+◌, ◌-◌, Bool, true, false, not, ◌&&◌, ◌||◌, List, [], ◌∷◌, ◌++◌, Option, none,
  some, Str, codes, take, leb, ltb, ◌==◌, if◌then◌else◌, text_eq, has_text, non_empty,
}
use pysqlsuggestions.Lex.Token.{Chars, Token}
use pysqlsuggestions.Clauses.Defs.{get}
use pysqlsuggestions.Dialect.{Dialect}
use pysqlsuggestions.Analyse.Tokens.{
  Place, is_ident, is_operator, in_skip, is_mark, index_before, skip_back, spells,
}
use pysqlsuggestions.Analyse.Caret.{between, depth_at}
use pysqlsuggestions.Analyse.Words.{is_word}
use pysqlsuggestions.Analyse.Calls.{search_back}

abbrev pub comparisons : List Str
comparisons =
    codes "=" ∷ codes "<" ∷ codes ">" ∷ codes "<=" ∷ codes ">=" ∷ codes "<>" ∷ codes "!=" ∷ []

abbrev pub predicate_keywords : List Str
predicate_keywords =
    codes "IS"
    ∷ codes "IN"
    ∷ codes "LIKE"
    ∷ codes "ILIKE"
    ∷ codes "BETWEEN"
    ∷ codes "SIMILAR"
    ∷ codes "EXISTS"
    ∷ []

abbrev pub connectives : List Str
connectives = codes "AND" ∷ codes "OR" ∷ []

-- A comparison operator.
abbrev pub compares : Token → Bool
compares t = is_operator t.type && has_text comparisons t.text

-- `dialect.clauses.get(word) is not None`.
unfoldable pub is_clause : Dialect → Str → Bool
is_clause d word = elim (get d.clauses word) [ none ↦ false | some c ↦ true ]

-- The loop of `_group_is_a_predicate`, going back from the paren that closes.
unfoldable pub predicate_back : Chars → Dialect → ℕ → Place → Bool
predicate_back u d depth [] = false
predicate_back u d depth (t ∷ back) =
    let further = predicate_back u d depth back in
    let word = u.upper t.value in
    if is_mark (codes "(") t && (t.depth == depth)
    then false
    else if compares t
    then true
    else if is_word t && has_text predicate_keywords word
    then true
    else if is_word t && is_clause d word
    then false
    else further

-- At the place before the paren.
unfoldable pub group_is_a_predicate : Chars → Dialect → Token → Place → Bool
group_is_a_predicate u d close back = predicate_back u d close.depth back

-- A word, behind what was armed before it.
unfoldable pub word_arms : Chars → Dialect → Bool → Str → Bool
word_arms u d armed word =
    if has_text connectives word || is_clause d word
    then false
    else if has_text predicate_keywords word
    then true
    else armed

unfoldable pub arms : Chars → Dialect → Bool → Token → Place → Bool
arms u d armed t back =
    if compares t
    then true
    else if is_mark (codes ")") t
    then armed || group_is_a_predicate u d t back
    else if is_word t
    then word_arms u d armed (u.upper t.value)
    else armed

-- The loop of `predicate_complete`; `back` is the place before the tokens.
unfoldable pub armed_from : Chars → Dialect → ℕ → ℕ → Bool → Place → List Token → Bool
armed_from u d caret depth armed back [] = armed
armed_from u d caret depth armed back (t ∷ ts) =
    let next =
      if in_skip t.type || leb caret t.start || not (t.depth == depth)
      then armed
      else arms u d armed t back in
    armed_from u d caret depth next (t ∷ back) ts

unfoldable pub behind : Place → List Token → Place
behind back [] = back
behind back (t ∷ ts) = behind (t ∷ back) ts

-- The place at `tokens[n - 1]`.
abbrev pub place_at : ℕ → List Token → Place
place_at n tokens = behind [] (take n tokens)

unfoldable pub predicate_complete : Chars → List Token → ℕ → ℕ → ℕ → Dialect → Bool
predicate_complete u tokens lo hi caret d =
    armed_from u d caret (depth_at tokens caret) false (place_at lo tokens) (between lo hi tokens)

abbrev pub case_branches : List Str
case_branches = codes "WHEN" ∷ codes "THEN" ∷ codes "ELSE" ∷ []

-- `branch or 'start'`.
unfoldable pub branch_or_start : Option Str → Str
branch_or_start none = codes "start"
branch_or_start (some []) = codes "start"
branch_or_start (some (c ∷ cs)) = c ∷ cs

module _ (u : Chars) where
  -- The branch, once a word has been read outside every CASE that has ended.
  unfoldable pub branch_with : ℕ → Option Str → Str → Option Str
  branch_with zero none word = if has_text case_branches word then some (u.lower word) else none
  branch_with zero (some branch) word = some branch
  branch_with (suc pending) branch word = branch

  -- The loop of `case_position`.
  unfoldable pub case_back : ℕ → ℕ → ℕ → Option Str → Place → Option Str
  case_back caret depth pending branch [] = none
  case_back caret depth pending branch (t ∷ back) =
      let word = u.upper t.value in
      let ends = text_eq word (codes "END") in
      let opens = text_eq word (codes "CASE") in
      let counts = is_word t && (t.depth == depth) && ltb t.start caret in
      let pending' =
        if not counts
        then pending
        else if ends
        then suc pending
        else if opens
        then pending - 1
        else pending in
      let branch' =
        if not counts || ends || opens then branch else branch_with pending branch word in
      let further = case_back caret depth pending' branch' back in
      if counts && not ends && opens && (pending == 0)
      then some (branch_or_start branch)
      else further

  unfoldable pub case_position : List Token → ℕ → Option Str
  case_position tokens caret =
      case_back caret (depth_at tokens caret) 0 none (index_before tokens caret)

  -- `_matching_open`, at the place before the paren that closes, with the tokens between.
  unfoldable pub matching_open : ℕ → Place → List Token × Place
  matching_open depth back = search_back (λ t. is_mark (codes "(") t && (t.depth == depth)) [] back

  abbrev pub texts_of : List Token → Str
  texts_of [] = []
  texts_of (t ∷ ts) = t.text ++ texts_of ts

  unfoldable pub strip_left : Str → Str
  strip_left [] = []
  strip_left (c ∷ cs) = let rest = strip_left cs in if u.is_space c then rest else c ∷ cs

  unfoldable pub strip_right : Str → Str
  strip_right [] = []
  strip_right (c ∷ cs) =
      let rest = strip_right cs in if non_empty rest || not (u.is_space c) then c ∷ rest else []

  -- `text or None`, of `text.strip()`.
  unfoldable pub some_text : Str → Option Str
  some_text text =
      let stripped = strip_right (strip_left text) in
      if non_empty stripped then some stripped else none

  -- Back from the closing paren to the AS of its own level; `passed` is what stands behind.
  unfoldable pub type_behind_as : ℕ → List Token → List Token → Option Str
  type_behind_as inside passed [] = none
  type_behind_as inside passed (t ∷ back) =
      let further = type_behind_as inside (t ∷ passed) back in
      if (t.depth == inside) && is_ident t.type && spells u (codes "AS") t
      then some_text (texts_of passed)
      else further

  unfoldable pub is_cast_name : Place → Bool
  is_cast_name [] = false
  is_cast_name (t ∷ back) = is_ident t.type && spells u (codes "CAST") t

  -- The call that the paren opens is a cast; `opened == 0` is an empty place before the paren.
  unfoldable pub opens_cast : Place → Bool
  opens_cast [] = false
  opens_cast (paren ∷ back) = is_cast_name (skip_back back)

  unfoldable pub functional_cast_type : Place → Option Str
  functional_cast_type [] = none
  functional_cast_type (close ∷ back) =
      let opening = matching_open close.depth back in
      if is_mark (codes ")") close && opens_cast (opening.1)
      then type_behind_as (close.depth + 1) [] (behind [] (opening.0))
      else none
