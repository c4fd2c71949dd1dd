-- ===== src/Requests/Span.antt =====
-- engine/request.py: that what a request replaces holds the caret and lies in the text.
use pysqlsuggestions.Prelude.{
  ℤ, pos, negsuc, leb, ap, ◌∙◌, ℕ, ◌≤◌, ◌+◌, ◌-◌, true, List, [], ◌∷◌, Option, none, some, Str,
  length, drop, ◌≡◌, ◌⊎◌, refl, inl, inr, Bool-cases, Option-cases, arith, length-drop,
}
use pysqlsuggestions.Lex.Token.{Chars, IsUnicode, Token, covers}
use pysqlsuggestions.Lex.Tiles.{Tiles, lex-Tiles}
use pysqlsuggestions.Types.{Kind, Scope, Request, plain_request}
use pysqlsuggestions.Clauses.Model.{Clause}
use pysqlsuggestions.Dialect.{Dialect}
use pysqlsuggestions.Analyse.Tokens.{Place}
use pysqlsuggestions.Analyse.Caret.{
  in_literal, in_placeholder, statement_at, string_place_from, string_index_under, token_of,
  string_under, qualifier_and_prefix,
}
use pysqlsuggestions.Analyse.Covers.{string_here, string_covers}
use pysqlsuggestions.Analyse.Span.{span-EndsWell}
use pysqlsuggestions.Analyse.Branches.{min, words_in_item}
use pysqlsuggestions.Analyse.Clauses.{clause_at}
use pysqlsuggestions.Analyse.Comparand.{comparand_at}
use pysqlsuggestions.Analyse.Lists.{
  ColumnPart, a_name, a_constraint, governing, opens_a_name_list, defines_a_column,
}
use pysqlsuggestions.Analyse.Lists as Lists
use pysqlsuggestions.Requests.Literals.{
  literal_span, writing, inside_string, inside_a_literal, literal_argument_kinds,
}
use pysqlsuggestions.Requests.Derive.{
  scope_if, unspent, continuing, expecting_a_type, defining_a_column, full_request, outside_request,
  request_at, derive_request, clamped, request_from,
}

-- A stretch of a text of a size that holds the caret.
pub record Around (size caret : ℕ) (stretch : ℕ × ℕ) : Type 0 where
  from_left : stretch.0 ≤ caret
  to_right : caret ≤ stretch.1
  in_text : stretch.1 ≤ size

at_caret : (size caret : ℕ) → caret ≤ size → Around size caret (caret, caret)
at_caret size caret le = record { from_left = omega arith; to_right = omega arith; in_text = le }

-- The string that a walk over the tokens finds.
string_place-covers :
    (back : Place) (rest : Str) (at : ℕ) (ts : List Token) (caret : ℕ)
    → Tiles rest at ts
    → (token_of (string_place_from back ts caret) ≡ none)
      ⊎ ((t : Token) × (token_of (string_place_from back ts caret) ≡ some t)
          × (covers t caret ≡ true)
          × (t.end ≤ at + length rest))
unfolding string_place_from token_of
string_place-covers back rest at [] caret h = inl refl
string_place-covers back rest at (t ∷ ts) caret (f, h) = elim (Bool-cases (string_here caret t)) [
  | inl here ↦
      inr (t, rw here refl, string_covers caret t (omega (arith, f.starts, f.grows)) here, f.within)
  | inr other ↦
      let short = length-drop {0} (t.end - at) rest in
      elim (string_place-covers (t ∷ back) (drop (t.end - at) rest) t.end ts caret h) [
        | inl e ↦ inl (rw other e)
        | inr (s, e, c, le) ↦ inr (s, rw other e, c, omega (arith, le, short, f.grows, f.within))
      ]
]

literal_span-Around :
    (t : Token) (size caret : ℕ)
    → covers t caret ≡ true
    → t.end ≤ size
    → caret ≤ size
    → Around size caret (literal_span t caret)
unfolding covers literal_span
literal_span-Around t size caret c le fits = record {
  from_left = ground arith;
  to_right = ground arith;
  in_text = ground arith;
}

inside_string-Around :
    (t : Token) (kinds : List Kind) (size caret : ℕ) (clause : Option Str) (scope : Option Scope)
    (comparand : List Str)
    → Around size caret (literal_span t caret)
    → caret ≤ size
    → Around size caret (inside_string t kinds caret clause scope comparand).replace_span
unfolding inside_string writing plain_request
inside_string-Around t (k ∷ ks) size caret clause scope comparand h le = h
inside_string-Around t [] size caret clause scope [] h le = at_caret size caret le
inside_string-Around t [] size caret clause scope (c ∷ cs) h le = h

inside_a_literal-Around :
    (u : Chars) (src : Str) (ts : List Token) (caret : ℕ) (clause : Option Str)
    (scope : Option Scope) (comparand : List Str) (d : Dialect)
    → Tiles src 0 ts
    → caret ≤ length src
    → Around (length src) caret (inside_a_literal u ts caret clause scope comparand d).replace_span
unfolding inside_a_literal string_under string_index_under
inside_a_literal-Around u src ts caret clause scope comparand d tiles le =
    elim (string_place-covers [] src 0 ts caret tiles) [
      | inl e ↦ rw (inside_a_literal, e) (unfold plain_request in at_caret (length src) caret le)
      | inr (t, e, c, within) ↦
          rw (inside_a_literal, e)
            (inside_string-Around t (literal_argument_kinds u ts caret d) (length src) caret clause
              scope comparand
              (literal_span-Around t (length src) caret c (omega (arith, within)) le) le)
    ]

continuing-span :
    (held : List Str) (r : Request) → (continuing held r).replace_span ≡ r.replace_span
unfolding continuing
continuing-span [] r = refl
continuing-span (w ∷ ws) r = refl

defining_a_column-span :
    (u : Chars) (part : ColumnPart) (c : Option Clause) (held : List Str) (r : Request)
    → (defining_a_column u part c held r).replace_span ≡ r.replace_span
unfolding defining_a_column expecting_a_type
defining_a_column-span u a_name c held r = refl
defining_a_column-span u Lists.a_type c held r = refl
defining_a_column-span u a_constraint c held r = continuing-span (unspent u c held) r

module _ (u : Chars) (d : Dialect) (ts : List Token) (statement : ℕ × ℕ) (caret : ℕ) where
  full_request-span :
      (clause : Option Str) (scope : Option Scope) (comparand : List Str × Option Str)
      (found : List Str × Str × (ℕ × ℕ))
      → (full_request u d ts statement caret clause scope comparand found).replace_span ≡ found.2
  unfolding full_request
  full_request-span clause scope comparand found = refl

  outside_request-span :
      (clause : Option Str) (scope : Option Scope) (comparand : List Str × Option Str)
      → (outside_request u d ts statement caret clause scope comparand).replace_span
        ≡ (qualifier_and_prefix u ts caret).2
  unfolding outside_request plain_request
  outside_request-span clause scope comparand =
      elim (Bool-cases (opens_a_name_list u ts caret clause d.clauses)) [
        | inl listed ↦ rw listed refl
        | inr other ↦
            elim (Option-cases
              (defines_a_column u ts (statement.0) (statement.1) caret clause d.clauses)) [
                | inl e ↦
                    rw (other, e)
                      (full_request-span clause scope comparand (qualifier_and_prefix u ts caret))
                | inr (part, e) ↦
                    rw (other, e)
                      (defining_a_column-span u part (governing d.clauses clause)
                        (words_in_item u d ts caret)
                        (plain_request [] ((qualifier_and_prefix u ts caret).1)
                          ((qualifier_and_prefix u ts caret).2) clause scope))
              ]
      ]

  request_at-Around :
      (src : Str)
      → Tiles src 0 ts
      → caret ≤ length src
      → Around (length src) caret (request_at u d ts statement caret).replace_span
  unfolding request_at
  request_at-Around src tiles le =
      let clause = clause_at u d ts (statement.0) (statement.1) caret in
      let scope = scope_if u d ts statement caret in
      let comparand = comparand_at u d ts caret in
      elim (Bool-cases (in_placeholder ts caret)) [
        | inl held ↦ rw held (unfold plain_request in at_caret (length src) caret le)
        | inr free ↦ elim (Bool-cases (in_literal ts caret)) [
          | inl held ↦
              rw (free, held)
                (inside_a_literal-Around u src ts caret clause scope (comparand.0) d tiles le)
          | inr outside ↦
              let well = span-EndsWell u src ts caret tiles le in
              rw (free, outside, outside_request-span clause scope comparand)
                (record {
                  from_left = well.from_left;
                  to_right = well.to_right;
                  in_text = well.in_text;
                })
        ]
      ]

-- The offset of the text that is nearest to the editor's caret.
abbrev pub nearest : ℤ → ℕ → ℕ
nearest (pos n) size = min n size
nearest (negsuc n) size = 0

nearest-le : (caret : ℤ) (size : ℕ) → nearest caret size ≤ size
nearest-le (pos n) size = ground arith
nearest-le (negsuc n) size = omega arith

clamped-nearest : (caret : ℤ) (size : ℕ) → clamped caret size ≡ pos (nearest caret size)
unfolding clamped
clamped-nearest (pos n) size = elim (Bool-cases (leb n size)) [
  | inl e ↦ rw e (ground arith)
  | inr e ↦ rw e (ground arith)
]
clamped-nearest (negsuc n) size = refl

clamped-settled :
    (caret : ℤ) (size : ℕ) → clamped (pos (nearest caret size)) size ≡ pos (nearest caret size)
clamped-settled caret size =
    clamped-nearest (pos (nearest caret size)) size ∙ ap pos (ground (arith, nearest-le caret size))

-- `derive_request` answers for every text, caret and dialect, as it answers for the offset of the text
-- that is nearest to the caret: 0 for a negative caret, and the end of the text for one behind it. What
-- the answer replaces lies in the text and holds that offset.
pub derive_request-Around :
    (u : Chars) (laws : IsUnicode u) (d : Dialect) (sql : Str) (caret : ℤ)
    → (r : Request) × (derive_request u sql caret d ≡ some r)
      × (derive_request u sql (pos (nearest caret (length sql))) d ≡ some r)
      × Around (length sql) (nearest caret (length sql)) r.replace_span
unfolding derive_request request_from
derive_request-Around u laws d sql caret =
    let (ts, e, tiles) = lex-Tiles u laws d.syntax sql in
    let held = nearest caret (length sql) in
    (
      request_at u d ts (statement_at ts held) held,
      rw (derive_request, e, clamped-nearest caret (length sql)) refl,
      rw (derive_request, e, clamped-settled caret (length sql)) refl,
      request_at-Around u d ts (statement_at ts held) held sql tiles
          (nearest-le caret (length sql)),
    )
