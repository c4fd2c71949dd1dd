-- ===== src/Analyse/Clauses.antt =====
-- engine/analyse.py: which clause begins at a token, and which governs the caret. What the source asks
-- of `tokens` from `index` up to `hi` is asked of the list of these tokens, and an answer counts the
-- tokens read instead of naming the index behind them.
use pysqlsuggestions.Prelude.{
  ℕ, zero, suc, ◌-◌, Bool, true, false, not, ◌&&◌, ◌||◌, List, [], ◌∷◌, Option, none, some, Str,
  length, map, keep, any, leb, ltb, ◌==◌, if◌then◌else◌, text_eq, has_text, non_empty, or_else,
}
use pysqlsuggestions.Lex.Token.{Chars, Token}
use pysqlsuggestions.Clauses.Model.{ClauseModel}
use pysqlsuggestions.Clauses.Defs.{names, continuations}
use pysqlsuggestions.Dialect.{Dialect}
use pysqlsuggestions.Analyse.Tokens.{in_skip, index_before}
use pysqlsuggestions.Analyse.Caret.{between, depth_at}
use pysqlsuggestions.Analyse.Words.{is_word, split_words, texts_eq}
use pysqlsuggestions.Analyse.Calls.{search_back, opens_level}

-- One more token that was read.
abbrev pub one_more {ℓ} : {A : Type ℓ} → Option (A × ℕ) → Option (A × ℕ)
one_more none = none
one_more (some (a, read)) = some (a, suc read)

abbrev pub with_token : Token → Option (List Token × ℕ) → Option (List Token × ℕ)
with_token t none = none
with_token t (some (run, read)) = some (t ∷ run, suc read)

-- `_ident_run`: the words, and how many tokens they take.
unfoldable pub ident_run : ℕ → List Token → Option (List Token × ℕ)
ident_run zero rest = some ([], 0)
ident_run (suc count) [] = none
ident_run (suc count) (t ∷ ts) = elim (in_skip t.type) [
  | true ↦ one_more (ident_run (suc count) ts)
  | false ↦ elim (is_word t) [ true ↦ with_token t (ident_run count ts) | false ↦ none ]
]

unfoldable pub first_is : Str → List Str → Bool
first_is word [] = false
first_is word (w ∷ ws) = text_eq w word

-- `_by_first_word(clauses).get(word, ())`.
unfoldable pub by_first_word : Chars → ClauseModel → Str → List Str
by_first_word u m word = keep (λ name. first_is word (split_words u name)) (names m)

-- One name tried, `[t.value.upper() for t in run[0]] == parts`.
unfoldable pub run_spells : Chars → List Str → Option (List Token × ℕ) → Option ℕ
run_spells u parts none = none
run_spells u parts (some (run, read)) =
    if texts_eq (map (λ (t : Token). u.upper t.value) run) parts then some read else none

unfoldable pub first_spelt : Chars → List Token → List Str → Option (Str × ℕ)
first_spelt u rest [] = none
first_spelt u rest (name ∷ more) =
    let parts = split_words u name in
    let later = first_spelt u rest more in
    elim (run_spells u parts (ident_run (length parts) rest)) [
      | none ↦ later
      | some read ↦ some (name, read)
    ]

-- `_scan_clause_start`, which `_clause_starting_at` remembers.
unfoldable pub clause_starting_at : Chars → ClauseModel → List Token → Option (Str × ℕ)
clause_starting_at u m [] = none
clause_starting_at u m (t ∷ ts) =
    if is_word t then first_spelt u (t ∷ ts) (by_first_word u m (u.upper t.value)) else none

-- `Dialect.reserved_upper`.
abbrev pub reserved_upper : Chars → Dialect → List Str
reserved_upper u d = map u.upper d.reserved

unfoldable pub first_or_empty : List Str → Str
first_or_empty [] = []
first_or_empty (w ∷ ws) = w

-- `_can_be_a_name`; a clause has a first word.
unfoldable pub can_be_a_name : Chars → Dialect → Str → Bool
can_be_a_name u d clause =
    has_text d.statement_start clause
    && not (has_text (reserved_upper u d) (first_or_empty (split_words u clause)))

unfoldable pub reads_as_a_clause : Chars → Dialect → Str → Option Str → Bool
reads_as_a_clause u d matched none = true
reads_as_a_clause u d matched (some after) =
    not (can_be_a_name u d matched) || has_text (continuations d.clauses after none []) matched

-- The end of the last token of a run.
unfoldable pub end_of_run : ℕ → List Token → ℕ
end_of_run read [] = 0
end_of_run read (t ∷ ts) =
    let later = end_of_run (read - 1) ts in if leb read 1 then t.end else later

abbrev pub Best : Type 0
Best = ℕ × ℕ × Str

-- `candidate[:2] > best[:2]`, or there is none yet.
unfoldable pub beats : Best → Option Best → Bool
beats c none = true
beats (e, w, name) (some (e', w', name')) = ltb e' e || ((e == e') && ltb w' w)

unfoldable pub best_name : Option Best → Option Str
best_name none = none
best_name (some (e, w, name)) = some name

-- `_group_start`: the length of a place is the index behind it.
unfoldable pub group_start : List Token → ℕ → ℕ → ℕ
group_start tokens caret zero = 0
group_start tokens caret (suc depth) =
    length ((search_back (opens_level (suc depth)) [] (index_before tokens caret)).1)

abbrev pub max : ℕ → ℕ → ℕ
max a b = if ltb a b then b else a

module _ (u : Chars) (d : Dialect) where
  -- A match that ends before the caret and reads as a clause, against the best so far.
  unfoldable pub better : List Token → ℕ → Option Best → Option (Str × ℕ) → Option Best
  better rest caret best none = best
  better rest caret best (some (name, read)) =
      let found : Best = (end_of_run read rest, length (split_words u name), name) in
      if leb caret (end_of_run read rest) || not (reads_as_a_clause u d name (best_name best))
      then best
      else if beats found best
      then some found
      else best

  -- The loop of `_scan_for_clause`.
  unfoldable pub scan_clauses : List Token → ℕ → ℕ → Option Best → Option Best
  scan_clauses [] caret depth best = best
  scan_clauses (t ∷ ts) caret depth best =
      let next =
        if is_word t && (t.depth == depth) && ltb t.end caret
        then better (t ∷ ts) caret best (clause_starting_at u d.clauses (t ∷ ts))
        else best in
      scan_clauses ts caret depth next

  unfoldable pub scan_for_clause : List Token → ℕ → ℕ → Option Str
  scan_for_clause rest caret depth = best_name (scan_clauses rest caret depth none)

  -- `depth in _depths_holding_a_word(tokens, lo, hi, caret)`.
  unfoldable pub holds_a_word : List Token → ℕ → ℕ → Bool
  holds_a_word statement caret depth =
      any (λ (t : Token). (t.depth == depth) && is_word t && ltb t.end caret) statement

  -- One round of the loop of `clause_at`.
  unfoldable pub clause_here : List Token → ℕ → ℕ → ℕ → ℕ → Option Str
  clause_here tokens lo hi caret depth =
      if holds_a_word (between lo hi tokens) caret depth
      then scan_for_clause (between (max lo (group_start tokens caret depth)) hi tokens) caret depth
      else none

  unfoldable pub clause_from : List Token → ℕ → ℕ → ℕ → ℕ → Option Str
  clause_from tokens lo hi caret zero = clause_here tokens lo hi caret 0
  clause_from tokens lo hi caret (suc outer) =
      or_else (clause_here tokens lo hi caret (suc outer)) (clause_from tokens lo hi caret outer)

  unfoldable pub clause_at : List Token → ℕ → ℕ → ℕ → Option Str
  clause_at tokens lo hi caret =
      if non_empty d.clauses.clauses
      then clause_from tokens lo hi caret (depth_at tokens caret)
      else none
