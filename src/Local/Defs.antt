-- ===== src/Local/Defs.antt =====
-- engine/local.py: the alias forms of a name, the select list, and `local_candidates`.
use pysqlsuggestions.Prelude.{
  ℕ, suc, Bool, true, false, not, ◌&&◌, ◌||◌, List, [], ◌∷◌, ◌++◌, Option, none, some, Str, codes,
  length, take, keep, ltb, ◌==◌, if◌then◌else◌, non_empty, has_text,
}
use pysqlsuggestions.Lex.Token.{Chars}
use pysqlsuggestions.Types.{
  Kind, column, alias, keyword, Expecting, operand, connective, an_alias, Request, Scope,
  scope_relations, scope_projection, projection_columns, relation_alias, relation_path, Candidate,
  plain_candidate, last, last_or,
}

-- A character in front of the first part of a split text.
abbrev pub in_front : ℕ → List Str → List Str
in_front c [] = (c ∷ []) ∷ []
in_front c (w ∷ ws) = (c ∷ w) ∷ ws

-- `text.split(sep)`.
unfoldable pub split_on : ℕ → Str → List Str
split_on sep [] = [] ∷ []
split_on sep (c ∷ cs) =
    let rest = split_on sep cs in if c == sep then [] ∷ rest else in_front c rest

-- `''.join(word[0] for word in words)`, of words that are not empty.
unfoldable pub word_initials : List Str → Str
word_initials [] = []
word_initials (w ∷ ws) = take 1 w ++ word_initials ws

-- `list(seen)`, where `seen` is a dictionary that holds its keys in the order of their first entry.
unfoldable pub first_of_each : List Str → List Str → List Str
first_of_each seen [] = []
first_of_each seen (f ∷ fs) =
    let again = first_of_each seen fs in
    let rest = first_of_each (f ∷ seen) fs in if has_text seen f then again else f ∷ rest

-- A list of one element under a condition.
abbrev pub when : Bool → Str → List Str
when b f = if b then f ∷ [] else []

-- `alias_forms`, on the words of the name in lower case.
unfoldable pub forms_of_words : List Str → List Str
forms_of_words [] = []
forms_of_words (w ∷ ws) = first_of_each [] (
    when (ltb 1 (length (word_initials (w ∷ ws)))) (word_initials (w ∷ ws))
    ++ (take 1 w ∷ when (ltb 3 (length w)) (take 3 w)))

unfoldable pub alias_forms : Chars → Str → List Str
alias_forms u name = forms_of_words (keep non_empty (split_on b'_' (u.lower name)))

-- A comprehension over `enumerate`, counted from a number on.
abbrev pub enumerate {ℓ} : {A : Type ℓ} → (ℕ → A → Candidate) → ℕ → List A → List Candidate
enumerate make n [] = []
enumerate make n (x ∷ xs) = make n x ∷ enumerate make (suc n) xs

unfoldable pub local : Str → Kind → Str → ℕ → Candidate
local text kind detail position = record (plain_candidate text kind) {
  detail = some detail;
  position = position;
  origin = codes "local";
}

abbrev pub select_list_clauses : List Str
select_list_clauses = codes "GROUP BY" ∷ codes "ORDER BY" ∷ codes "HAVING" ∷ codes "LIMIT BY" ∷ []

abbrev pub alias_clauses : List Str
alias_clauses = codes "FROM" ∷ codes "JOIN" ∷ codes "UPDATE" ∷ codes "DELETE FROM" ∷ []

-- `request.clause in …`; the clause None is in neither set.
abbrev pub in_clauses : Option Str → List Str → Bool
in_clauses none clauses = false
in_clauses (some clause) clauses = has_text clauses clause

abbrev pub is_operand : Expecting → Bool
is_operand operand = true
is_operand _ = false

abbrev pub is_connective : Expecting → Bool
is_connective connective = true
is_connective _ = false

abbrev pub is_alias : Expecting → Bool
is_alias an_alias = true
is_alias _ = false

unfoldable pub select_items : List Str → List Candidate
select_items columns =
    enumerate (λ index name. local name column (codes "select list") index) 0 columns

unfoldable pub select_list : Request → Scope → List Candidate
select_list r scope = elim (scope_projection scope) [
  | none ↦ []
  | some listed ↦
      if not (non_empty (projection_columns listed)) || not (is_operand r.expecting)
      then []
      else select_items (projection_columns listed)
]

-- The aliases for the relation that was written last, without an alias and with a path.
unfoldable pub alias_items : Chars → Str → List Candidate
alias_items u name =
    enumerate (λ index form. local form alias (codes "alias for " ++ name) index) 0
      (alias_forms u name)

unfoldable pub aliases_for : Chars → Option Str → List Str → List Candidate
aliases_for u (some a) path = []
aliases_for u none [] = []
aliases_for u none (x ∷ xs) = alias_items u (last_or x xs)

unfoldable pub alias_suggestions : Chars → Request → Scope → List Candidate
alias_suggestions u r scope =
    if non_empty r.prefix then [] else elim (last (scope_relations scope)) [
      | none ↦ []
      | some latest ↦ aliases_for u (relation_alias latest) (relation_path latest)
    ]

unfoldable pub continuations : List Str → List Candidate
continuations words =
    enumerate (λ index word. local word keyword (codes "continues the expression") index) 0 words

-- `local_candidates`, behind its two first returns.
unfoldable pub candidates_in : Chars → Request → Scope → List Candidate
candidates_in u r scope =
    if non_empty r.continues
    then continuations r.continues
    else (if is_alias r.expecting
        then (if in_clauses r.clause alias_clauses then alias_suggestions u r scope else [])
        else (if in_clauses r.clause select_list_clauses
            then select_list r scope
            else (if in_clauses r.clause alias_clauses && is_connective r.expecting
                then alias_suggestions u r scope
                else [])))

unfoldable pub local_candidates : Chars → Request → List Candidate
local_candidates u r =
    if not (non_empty r.kinds)
    then []
    else elim r.scope [ none ↦ [] | some scope ↦ candidates_in u r scope ]
