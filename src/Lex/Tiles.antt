-- ===== src/Lex/Tiles.antt =====
-- engine/lex.py: `lex` is total, and its tokens tile the source.
use pysqlsuggestions.Prelude.{
  ℕ, zero, suc, ◌+◌, ◌-◌, ◌≤◌, ◌<◌, Bool, true, false, ◌&&◌, ◌||◌, List, [], ◌∷◌, ◌++◌, Option,
  none, some, Str, codes, length, drop, take, take-append-drop, length-drop, ◌==◌, non_empty,
  starts_with, has_char, has_text, any, ◌≡◌, refl, sym, arith, subst, Bool-cases, Option-cases,
  and-eq-true, text_eq, ==_iff, inl, inr,
}
use pysqlsuggestions.Lex.Token.{
  identifier_quotes, Chars, Syntax, Token, TokenType, string, param, comment, whitespace, IsUnicode,
  is_ident_start, is_ident_char,
}
use pysqlsuggestions.Lex.Scan.{
  scan_while, match_operator, scan_placeholder, scan_dollar_quote, opens_escape_string,
}
use pysqlsuggestions.Lex.Bounds.{
  Within, scan_while-Within, scan_quoted_ident-Within, scan_string-Within,
  scan_block_comment-Within, scan_number-Within, scan_line_comment_grows, starts_with_fits,
}
use pysqlsuggestions.Lex.Found.{
  Found, scan_dollar_quote-Found, scan_placeholder-Found, match_operator-fits,
}
use pysqlsuggestions.Lex.Step.{
  Step, raw, scan_punct, scan_operator, quoted_token, word_token, scan_bare, scan_dollar,
  scan_literal, scan_param, scan_token, lex_from, lex, punctuation,
}

-- A token that starts at `pos`, is not empty, and holds the characters of `rest` up to its end.
pub record Fits (rest : Str) (pos : ℕ) (t : Token) : Type 0 where
  pub starts : t.start ≡ pos
  pub grows : pos < t.end
  pub within : t.end ≤ pos + length rest
  pub text_is : t.text ≡ take (t.end - pos) rest

starts_with-take : (rest op : Str) → starts_with rest op ≡ true → op ≡ take (length op) rest
unfolding starts_with
starts_with-take rest [] h = refl
starts_with-take [] (y ∷ ys) h = ground arith
starts_with-take (x ∷ xs) (y ∷ ys) h = ground (arith, starts_with-take xs ys)

module _ (u : Chars) (s : Syntax) (c : ℕ) (cs : Str) (pos depth : ℕ) where
  scan_punct-Fits : (ch : ℕ) → Fits (c ∷ cs) pos (scan_punct (c ∷ cs) ch pos depth).token
  unfolding scan_punct
  scan_punct-Fits ch = ground arith

  scan_operator-Fits :
      (o : Option Str)
      → match_operator (c ∷ cs) s ≡ o
      → Fits (c ∷ cs) pos (scan_operator (c ∷ cs) pos depth o).token
  unfolding scan_operator
  scan_operator-Fits none e = ground arith
  scan_operator-Fits (some []) e = ground (arith, match_operator-fits c cs s [] e)
  scan_operator-Fits (some (o ∷ os)) e =
      let f = match_operator-fits c cs s (o ∷ os) e in
      let size : pos + length (o ∷ os) - pos ≡ length (o ∷ os) = omega arith in
      record {
        starts = refl;
        grows = omega arith;
        within = omega (arith, starts_with_fits (c ∷ cs) (o ∷ os) f.1);
        text_is = rw size (starts_with-take (c ∷ cs) (o ∷ os) f.1);
      }

  raw-Fits :
      (type : TokenType) (found : ℕ × Bool)
      → Within (suc pos) (pos + length (c ∷ cs)) found.0
      → Fits (c ∷ cs) pos (raw type (c ∷ cs) pos depth found).token
  raw-Fits type found w = record {
    starts = refl;
    grows = omega arith;
    within = omega arith;
    text_is = refl;
  }

  Found-Fits :
      (type : TokenType) (o : Option (ℕ × Bool)) {found : ℕ × Bool}
      → Found (suc pos) (pos + length (c ∷ cs)) o
      → o ≡ some found
      → Fits (c ∷ cs) pos (raw type (c ∷ cs) pos depth found).token
  Found-Fits type none h e = cc
  Found-Fits type (some r) {found} h e =
      raw-Fits type found (subst (λ o. Found (suc pos) (pos + length (c ∷ cs)) o) e h)

  -- A run that takes its first character ends behind it.
  run-Within :
      (p : ℕ → Bool)
      → p c ≡ true
      → Within (suc pos) (pos + length (c ∷ cs)) (scan_while p (c ∷ cs) pos)
  unfolding scan_while
  run-Within p h = rw h (omega (arith, scan_while-Within p cs (suc pos)))

  abbrev FitsStep : Step → Type 0
  FitsStep r = Fits (c ∷ cs) pos r.token

  module _ (laws : IsUnicode u) where
    is_ident_char-start : is_ident_start u c ≡ true → is_ident_char u c ≡ true
    unfolding is_ident_start is_ident_char
    is_ident_char-start h = ground (arith, laws.alpha_alnum c)

    scan_bare-Fits : FitsStep (scan_bare u s c cs pos depth)
    unfolding scan_bare quoted_token word_token
    scan_bare-Fits = elim (Bool-cases (has_text (identifier_quotes s) (c ∷ []))) [
      | inl e ↦
          let w = scan_quoted_ident-Within c cs (pos + 1) in
          rw e (record { starts = refl; grows = omega arith; within = omega arith; text_is = refl })
      | inr e ↦ rw e (elim (Bool-cases (is_ident_start u c)) [
        | inl h ↦
            let w = run-Within (is_ident_char u) (is_ident_char-start h) in
            rw h (record { starts = refl; grows = w.0; within = w.1; text_is = refl })
        | inr e' ↦ rw e' (elim (Bool-cases (u.is_digit c)) [
          | inl h ↦
              let w = scan_number-Within u c cs pos h in
              rw h (record { starts = refl; grows = w.0; within = omega arith; text_is = refl })
          | inr e'' ↦ rw e'' (elim (Bool-cases (has_char punctuation c)) [
            | inl h ↦ rw h (scan_punct-Fits c)
            | inr h ↦ rw h (scan_operator-Fits (match_operator (c ∷ cs) s) refl)
          ])
        ])
      ])
    ]

    scan_dollar-Fits : FitsStep (scan_dollar u s c cs pos depth)
    unfolding scan_dollar
    scan_dollar-Fits = elim (Bool-cases (c == b'$' && s.dollar_quoting)) [
      | inr e ↦ rw e scan_bare-Fits
      | inl e ↦ rw e (elim (Option-cases (scan_dollar_quote u (c ∷ cs) pos)) [
        | inl e' ↦ rw e' scan_bare-Fits
        | inr (r, e') ↦ rw e' (Found-Fits string _ (scan_dollar_quote-Found u c cs pos) e')
      ])
    ]

    scan_param-Fits : FitsStep (scan_param u s c cs pos depth)
    unfolding scan_param
    scan_param-Fits = elim (Option-cases (scan_placeholder u (c ∷ cs) pos s)) [
      | inl e ↦ rw (e, scan_param) scan_dollar-Fits
      | inr (r, e) ↦
          rw (e, scan_param) (Found-Fits param _ (scan_placeholder-Found u (c ∷ cs) pos s) e)
    ]

    -- The prefix of an escape string is followed by a quote.
    opens_escape_string-longer : opens_escape_string u (c ∷ cs) s ≡ true → 1 ≤ length cs
    unfolding opens_escape_string
    opens_escape_string-longer h =
        let same = text_eq (u.upper (c ∷ [])) s.escape_string_prefix in
        let quote = starts_with cs (codes "'") in
        starts_with_fits cs (codes "'")
          (and-eq-true (non_empty s.escape_string_prefix && same) quote h).1

    scan_literal-Fits :
        (c == b'\'' || opens_escape_string u (c ∷ cs) s) ≡ true
        → FitsStep (scan_literal u s c cs pos depth)
    unfolding scan_literal
    scan_literal-Fits h = elim (Bool-cases (c == b'\'')) [
      | inl e ↦ rw e (
          raw-Fits string _
            (let w = scan_string-Within s.string_escape_backslash cs (pos + 0 + 1) in omega arith))
      | inr e ↦ rw e (
          raw-Fits string _ (
            let w = scan_string-Within true (drop 1 cs) (pos + 1 + 1) in
            let longer = opens_escape_string-longer (rw e at h) in
            omega (arith, length-drop {0} 1 cs)))
    ]

    not_newline : u.is_space c ≡ false → (c == b'\n') ≡ false
    not_newline v = elim (Bool-cases (c == b'\n')) [
      | inr e ↦ e
      | inl e ↦ let same = (==_iff c b'\n').0 e in let sp = laws.newline_space in ground arith
    ]

    pub scan_token-Fits : FitsStep (scan_token u s c cs pos depth)
    unfolding scan_token
    scan_token-Fits = elim (Bool-cases (u.is_space c)) [
      | inl h ↦ rw h (raw-Fits whitespace _ (run-Within u.is_space h))
      | inr visible ↦
          rw visible (elim (Bool-cases (any (λ m. starts_with (c ∷ cs) m) s.line_comments)) [
            | inl h ↦
                rw h (raw-Fits comment _ (scan_line_comment_grows c cs pos (not_newline visible)))
            | inr e ↦ rw e (elim (Bool-cases (starts_with (c ∷ cs) (codes "/*"))) [
              | inl h ↦ rw h (
                  raw-Fits comment _ (
                    let w =
                      scan_block_comment-Within s.nested_block_comments 1 (drop 1 cs) (pos + 2) in
                    omega (arith, length-drop {0} 1 cs, starts_with_fits (c ∷ cs) (codes "/*") h)))
              | inr e' ↦ rw e' (elim (Bool-cases (c == b'\'' || opens_escape_string u (c ∷ cs) s)) [
                | inl h ↦ rw h (scan_literal-Fits h)
                | inr h ↦ rw h scan_param-Fits
              ])
            ])
          ])
    ]

-- The tokens stand one behind the other from `pos` on, none is empty, and their texts are `rest`.
abbrev pub Tiles : Str → ℕ → List Token → Type 0
Tiles rest pos [] = rest ≡ []
Tiles rest pos (t ∷ ts) = Fits rest pos t × Tiles (drop (t.end - pos) rest) t.end ts

abbrev pub texts : List Token → Str
texts [] = []
texts (t ∷ ts) = t.text ++ texts ts

pub texts_of-Tiles : (rest : Str) (pos : ℕ) (ts : List Token) → Tiles rest pos ts → texts ts ≡ rest
texts_of-Tiles rest pos [] h = sym h
texts_of-Tiles rest pos (t ∷ ts) (f, h) =
    rw (f.text_is, texts_of-Tiles (drop (t.end - pos) rest) t.end ts h)
      (take-append-drop (t.end - pos) rest)

module _ (u : Chars) (laws : IsUnicode u) (s : Syntax) where
  lex_from-Tiles :
      (fuel : ℕ) (rest : Str) (pos depth : ℕ)
      → length rest ≤ fuel
      → (ts : List Token) × (lex_from u s fuel rest pos depth ≡ some ts) × Tiles rest pos ts
  unfolding lex_from
  lex_from-Tiles fuel [] pos depth h = ([], refl, refl)
  lex_from-Tiles zero (c ∷ cs) pos depth h = absurd (omega arith)
  lex_from-Tiles (suc fuel) (c ∷ cs) pos depth h =
      let found = scan_token u s c cs pos depth in
      let end = found.token.end in
      let fits = scan_token-Fits u s c cs pos depth laws in
      let left = length-drop {0} (end - pos) (c ∷ cs) in
      let (ts, e, tiles) =
        lex_from-Tiles fuel (drop (end - pos) (c ∷ cs)) end found.depth (omega arith) in
      (found.token ∷ ts, rw (e, lex_from), (fits, tiles))

  -- `lex` returns for every source, one round of its loop for each character at most, and its tokens
  -- tile the source: the first starts at 0, each is not empty and holds the characters between its
  -- start and its end, each starts where the one before ends, and nothing is left over. The
  -- dialect's syntax is arbitrary.
  pub lex-Tiles : (src : Str) → (ts : List Token) × (lex u s src ≡ some ts) × Tiles src 0 ts
  unfolding lex
  lex-Tiles src = lex_from-Tiles (length src) src 0 0 (omega arith)
