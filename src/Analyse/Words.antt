-- ===== src/Analyse/Words.antt =====
-- engine/analyse.py: the words left of the caret, what they begin, and whether an operand ends there.
use pysqlsuggestions.Prelude.{
  ℕ, zero, suc, ◌-◌, Bool, true, false, not, ◌&&◌, ◌||◌, List, [], ◌∷◌, ◌++◌, Option, none, some,
  Str, codes, length, take, drop, map, keep, any, sort, leb, ltb, ◌==◌, if◌then◌else◌, text_eq,
  has_text, non_empty, or_else,
}
use pysqlsuggestions.Lex.Token.{Chars, Token}
use pysqlsuggestions.Clauses.Model.{Clause}
use pysqlsuggestions.Dialect.{Dialect}
use pysqlsuggestions.Local.Defs.{in_front}
use pysqlsuggestions.Rank.Defs.{text_le}
use pysqlsuggestions.Analyse.Tokens.{
  Place, is_ident, is_string, is_param, is_punct, is_operator, is_number, in_skip, index_before,
  skip_back,
}
use pysqlsuggestions.Analyse.Caret.{is_typed, reversed}

-- An identifier that is not quoted.
abbrev pub is_word : Token → Bool
is_word t = is_ident t.type && not t.quoted

-- The place before the caret, or before the word that is being typed there.
unfoldable pub before_typed : Place → ℕ → Place
before_typed [] caret = []
before_typed (t ∷ back) caret = if is_typed t caret then back else t ∷ back

abbrev pub before_caret : List Token → ℕ → Place
before_caret tokens caret = skip_back (before_typed (index_before tokens caret) caret)

-- `text.split()`.
unfoldable pub split_where : (ℕ → Bool) → Str → List Str
split_where p [] = [] ∷ []
split_where p (c ∷ cs) = let rest = split_where p cs in if p c then [] ∷ rest else in_front c rest

abbrev pub split_words : Chars → Str → List Str
split_words u text = keep non_empty (split_where u.is_space text)

-- The loop of `_words_before`, the nearest word first.
unfoldable pub words_back : Chars → Place → List Str
words_back u [] = []
words_back u (t ∷ back) =
    let further = words_back u back in
    if in_skip t.type then further else if is_word t then u.upper t.value ∷ further else []

unfoldable pub words_before : Chars → List Token → ℕ → List Str
words_before u tokens caret =
    reversed (words_back u (before_typed (index_before tokens caret) caret))

unfoldable pub texts_eq : List Str → List Str → Bool
texts_eq [] [] = true
texts_eq (x ∷ xs) (y ∷ ys) = text_eq x y && texts_eq xs ys
texts_eq _ _ = false

-- `words[-n:]`, for at least `n` words; with 0 it is all of them.
unfoldable pub last_words : ℕ → List Str → List Str
last_words n words = if n == 0 then words else drop (length words - n) words

unfoldable pub at_the_clause_start : Chars → List Token → ℕ → Str → Bool
at_the_clause_start u tokens caret clause =
    let words = words_before u tokens caret in
    let name = split_words u (u.upper clause) in
    leb (length name) (length words) && texts_eq (last_words (length name) words) name

-- `phrases`, of `_half_written_clauses`; the set as a list.
unfoldable pub clause_phrases : List Clause → List Str
clause_phrases [] = []
clause_phrases (c ∷ cs) = (c.name ∷ c.followed_by) ++ clause_phrases cs

unfoldable pub phrases : Chars → Dialect → List (List Str)
phrases u d =
    map (λ p. split_words u (u.upper p)) (clause_phrases d.clauses.clauses ++ d.statement_start)

abbrev pub has_phrase : List (List Str) → List Str → Bool
has_phrase all_of head = any (λ p. texts_eq p head) all_of

-- `' '.join(words)`.
unfoldable pub join_spaces : List Str → Str
join_spaces [] = []
join_spaces (w ∷ []) = w
join_spaces (w ∷ v ∷ ws) = w ++ (b' ' ∷ join_spaces (v ∷ ws))

-- The heads of one phrase that are no phrases, each with what finishes it; `head` is in front of the
-- words.
unfoldable pub cuts_of : List (List Str) → List Str → List Str → List (List Str × Str)
cuts_of all_of head [] = []
cuts_of all_of head (w ∷ []) = []
cuts_of all_of head (w ∷ v ∷ ws) =
    let longer = cuts_of all_of (head ++ w ∷ []) (v ∷ ws) in
    if has_phrase all_of (head ++ w ∷ [])
    then longer
    else (head ++ w ∷ [], join_spaces (v ∷ ws)) ∷ longer

unfoldable pub cuts_of_all : List (List Str) → List (List Str) → List (List Str × Str)
cuts_of_all all_of [] = []
cuts_of_all all_of (p ∷ ps) = cuts_of all_of [] p ++ cuts_of_all all_of ps

-- The table of `_half_written_clauses`, with one entry for each word of each head.
unfoldable pub half_written_clauses : Chars → Dialect → List (List Str × Str)
half_written_clauses u d = cuts_of_all (phrases u d) (phrases u d)

unfoldable pub distinct : List Str → List Str
distinct [] = []
distinct (w ∷ ws) = let rest = distinct ws in if has_text rest w then rest else w ∷ rest

unfoldable pub none_if_empty : List Str → Option (List Str)
none_if_empty [] = none
none_if_empty (w ∷ ws) = some (w ∷ ws)

-- `clauses.get(head)`.
unfoldable pub finishing : List (List Str × Str) → List Str → Option (List Str)
finishing table head =
    none_if_empty (sort text_le (distinct (map (λ e. e.1) (keep (λ e. texts_eq (e.0) head) table))))

-- `_CONTINUES`.
unfoldable pub continues : List Str → Option (List Str)
continues head =
    if texts_eq head (codes "IS" ∷ [])
    then some (
        codes "NULL" ∷ codes "NOT NULL" ∷ codes "TRUE" ∷ codes "FALSE" ∷ codes "DISTINCT FROM" ∷ [])
    else if texts_eq head (codes "IS" ∷ codes "NOT" ∷ [])
    then some (codes "NULL" ∷ codes "TRUE" ∷ codes "FALSE" ∷ codes "DISTINCT FROM" ∷ [])
    else if texts_eq head (codes "NULLS" ∷ [])
    then some (codes "FIRST" ∷ codes "LAST" ∷ [])
    else none

-- `_LONGEST_CONTINUATION`.
abbrev pub longest_continuation : ℕ
longest_continuation = 2

unfoldable pub longest_head : ℕ → List (List Str × Str) → ℕ
longest_head n [] = n
longest_head n (e ∷ es) = longest_head (if ltb n (length (e.0)) then length (e.0) else n) es

-- The last loop of `continues_a_keyword`, over the first `n` of the words written.
unfoldable pub longest_match : List (List Str × Str) → List Str → ℕ → List Str
longest_match table written zero = []
longest_match table written (suc n) =
    let shorter = longest_match table written n in
    let head = reversed (take (suc n) written) in
    elim (or_else (continues head) (finishing table head)) [ none ↦ shorter | some found ↦ found ]

unfoldable pub continues_a_keyword : Chars → List Token → ℕ → Dialect → List Str
continues_a_keyword u tokens caret d =
    let table = half_written_clauses u d in
    let longest = longest_head longest_continuation table in
    let written = take longest (words_back u (before_typed (index_before tokens caret) caret)) in
    longest_match table written (length written)

abbrev pub literal_keywords : List Str
literal_keywords =
    codes "NULL"
    ∷ codes "TRUE"
    ∷ codes "FALSE"
    ∷ codes "CURRENT_DATE"
    ∷ codes "CURRENT_TIME"
    ∷ codes "CURRENT_TIMESTAMP"
    ∷ codes "CURRENT_USER"
    ∷ codes "SESSION_USER"
    ∷ codes "LOCALTIME"
    ∷ codes "LOCALTIMESTAMP"
    ∷ codes "DEFAULT"
    ∷ []

abbrev pub closes_item : List Str
closes_item = codes "ASC" ∷ codes "DESC" ∷ codes "FIRST" ∷ codes "LAST" ∷ codes "END" ∷ []

-- `_star_is_an_item`, at the nearest place before the star that is not skipped.
unfoldable pub opens_star : Chars → Dialect → Place → Bool
opens_star u d [] = true
opens_star u d (t ∷ back) =
    if is_punct t.type
    then has_text (codes "," ∷ codes "." ∷ codes "(" ∷ []) t.text
    else is_word t && has_text d.keywords (u.upper t.value)

-- The place is the one before the star.
unfoldable pub star_is_an_item : Chars → Dialect → Place → Bool
star_is_an_item u d back = opens_star u d (skip_back back)

-- An identifier ends an operand.
unfoldable pub word_ends : Chars → Dialect → Token → Bool
word_ends u d t =
    let word = u.upper t.value in
    has_text closes_item word
    || t.quoted
    || has_text literal_keywords word
    || not (has_text d.keywords word)

unfoldable pub ends_operand : Chars → Dialect → Place → Bool
ends_operand u d [] = false
ends_operand u d (t ∷ back) =
    if is_number t.type || is_string t.type || is_param t.type
    then true
    else if is_punct t.type
    then text_eq t.text (codes ")")
    else if is_operator t.type && text_eq t.text (codes "*")
    then star_is_an_item u d back
    else if is_ident t.type
    then word_ends u d t
    else false

unfoldable pub after_operand : Chars → List Token → ℕ → Dialect → Bool
after_operand u tokens caret d = ends_operand u d (before_caret tokens caret)
