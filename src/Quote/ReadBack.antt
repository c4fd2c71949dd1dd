-- ===== src/Quote/ReadBack.antt =====
-- engine/rank.py against engine/lex.py: what `quote_if_needed` writes, `lex` reads back.
use pysqlsuggestions.Prelude.{
  ℕ, suc, ◌+◌, ◌-◌, true, false, [], ◌∷◌, ◌++◌, some, Str, codes, length, drop, drop_all, all, ◌==◌,
  ==_iff, ==_refl, if◌then◌else◌, has_text, starts_with, text_eq, text_eq_iff, non_empty, ◌≡◌, refl,
  ap, ◌∙◌, arith, Bool-cases, inl, inr,
}
use pysqlsuggestions.Lex.Token.{
  Chars, IsUnicode, Syntax, UnquotedCase, lower, upper, preserve, Token, ident, fold_case,
  reads_as_one_identifier, identifier_quotes,
}
use pysqlsuggestions.Lex.Scan.{Quoted, appending, scan_quoted_ident, opens_escape_string}
use pysqlsuggestions.Lex.Step.{
  quoted_token, scan_token, scan_param, scan_dollar, scan_bare, lex_from, lex,
}
use pysqlsuggestions.Lex.Starts.{
  starts_unlike, not_the, starts_with_unlike, no_marker, no_placeholder,
}
use pysqlsuggestions.Lex.Names.{
  HasAsciiNames, KeepsNames, name_token, reads_as_one_identifier-lex, lex_from-step,
}
use pysqlsuggestions.Dialect.{Dialect}
use pysqlsuggestions.Quote.Defs.{
  case_needs_quoting, needs_quoting, replace_from, quoted, quote_if_needed,
}

-- `name.replace(quote, quote * 2)` for a quote of one character.
abbrev pub doubled : ℕ → Str → Str
doubled q name = replace_from (q ∷ []) (q ∷ q ∷ []) 0 name

pub replace-cons :
    (q c : ℕ) (cs : Str)
    → doubled q (c ∷ cs) ≡ (if c == q then q ∷ q ∷ doubled q cs else c ∷ doubled q cs)
unfolding replace_from starts_with
replace-cons q c cs = ground arith

append_non_empty : (xs : Str) (x : ℕ) → non_empty (xs ++ x ∷ []) ≡ true
append_non_empty [] x = refl
append_non_empty (y ∷ ys) x = refl

scan-plain :
    (q c : ℕ) (rest : Str) (i : ℕ)
    → (c == q) ≡ false
    → non_empty rest ≡ true
    → scan_quoted_ident q (c ∷ rest) i ≡ appending c (scan_quoted_ident q rest (i + 1))
unfolding scan_quoted_ident
scan-plain q c [] i e h = cc
scan-plain q c (x ∷ xs) i e h = rw e

scan-pair :
    (q : ℕ) (rest : Str) (i : ℕ)
    → scan_quoted_ident q (q ∷ q ∷ rest) i ≡ appending q (scan_quoted_ident q rest (i + 2))
unfolding scan_quoted_ident
scan-pair q rest i = rw (==_refl q)

abbrev closed_at : ℕ → Str → Quoted
closed_at n name = record { end = n; value = name; closed = true }

-- From behind the opening quote, the scanner takes a doubled name and its closing quote.
scan-doubled :
    (q : ℕ) (name : Str) (i : ℕ)
    → scan_quoted_ident q (doubled q name ++ q ∷ []) i
      ≡ closed_at (i + length (doubled q name ++ q ∷ [])) name
unfolding scan_quoted_ident
scan-doubled q [] i = unfold replace_from in rw (==_refl q)
scan-doubled q (c ∷ cs) i = elim (Bool-cases (c == q)) [
  | inl e ↦
      let same = (==_iff c q).0 e in
      let ih = scan-doubled q cs (i + 2) in
      let rest = doubled q cs ++ q ∷ [] in
      let size : i + 2 + length rest ≡ i + suc (suc (length rest)) = omega arith in
      rw (replace-cons, e) (scan-pair q rest i ∙ ap (appending q) ih ∙ rw (size, same))
  | inr e ↦
      let ih = scan-doubled q cs (i + 1) in
      let rest = doubled q cs ++ q ∷ [] in
      let size : i + 1 + length rest ≡ i + suc (length rest) = omega arith in
      rw (replace-cons, e)
        (scan-plain q c rest i e (append_non_empty (doubled q cs) q)
          ∙ ap (appending c) ih
          ∙ rw size)
]

-- The dialect quotes by the character `q`, and at a `q` the scanner can only read a quoted name: it
-- is no whitespace and no start of a comment, a literal or a placeholder.
pub record QuotesBy (u : Chars) (s : Syntax) (q : ℕ) : Type 0 where
  pub first : s.first_quote ≡ q ∷ []
  pub visible : u.is_space q ≡ false
  pub no_comment : all (starts_unlike (λ c. c == q)) s.line_comments ≡ true
  pub no_opener : all (λ p. starts_unlike (λ c. c == q) p.opens) s.placeholders ≡ true
  pub no_slash : (b'/' == q) ≡ false
  pub no_apostrophe : (b'\'' == q) ≡ false
  pub no_dollar : (b'$' == q) ≡ false
  pub no_escape : text_eq (u.upper (q ∷ [])) s.escape_string_prefix ≡ false

module _ (u : Chars) (s : Syntax) (q : ℕ) (by : QuotesBy u s q) where
  no_escape_here : (cs : Str) → opens_escape_string u (q ∷ cs) s ≡ false
  unfolding opens_escape_string
  no_escape_here cs = let e = by.no_escape in ground arith

  takes_quote : has_text (identifier_quotes s) (q ∷ []) ≡ true
  takes_quote = let e : text_eq s.first_quote (q ∷ []) ≡ true = (text_eq_iff _ _).1 by.first in rw e

  scan_token-quote :
      (cs : Str) (pos depth : ℕ)
      → scan_token u s q cs pos depth
        ≡ quoted_token (q ∷ cs) pos depth (scan_quoted_ident q cs (pos + 1))
  unfolding scan_token scan_param scan_dollar scan_bare
  scan_token-quote cs pos depth =
      let p = λ (c : ℕ). c == q in
      let me = ==_refl q in
      let marker = no_marker p q cs me s.line_comments by.no_comment in
      let block = starts_with_unlike p q cs me (codes "/*") (rw by.no_slash) in
      let apostrophe = not_the p q cs me b'\'' by.no_apostrophe in
      let dollar = not_the p q cs me b'$' by.no_dollar in
      let param = no_placeholder p q cs me u pos s by.no_opener in
      rw (by.visible, marker, block, apostrophe, no_escape_here cs)
        (rw (param, scan_param) (rw (dollar, takes_quote)))

  -- What is written between quotes is one quoted IDENT with the name for its value.
  pub quoted-lex :
      (name : Str)
      → (t : Token) × (lex u s (quoted s.first_quote name) ≡ some (t ∷ []))
        × (t.type ≡ ident)
        × (t.quoted ≡ true)
        × (t.terminated ≡ true)
        × (t.value ≡ name)
  unfolding lex quoted quoted_token
  quoted-lex name =
      let body = doubled q name ++ q ∷ [] in
      let scanned = scan-doubled q name 1 in
      let size : 1 + length body - 0 ≡ suc (length body) = omega arith in
      let first = scan_token-quote body 0 0 ∙ ap (quoted_token (q ∷ body) 0 0) scanned in
      let left : drop (1 + length body - 0) (q ∷ body) ≡ [] = drop_all _ (q ∷ body) (omega arith) in
      let step =
        lex_from-step u s (length body) q body 0 0
          (quoted_token (q ∷ body) 0 0 (closed_at (1 + length body) name)) [] first
          (unfold lex_from in rw left) in
      let same : quoted s.first_quote name ≡ quoted (q ∷ []) name =
        ap (λ x. quoted x name) by.first in
      (_, ap (lex u s) same ∙ step, refl, refl, refl, refl)

folds_to_itself :
    (u : Chars) (k : UnquotedCase) (s : Syntax) (name : Str)
    → case_needs_quoting u k s name ≡ false
    → fold_case u name k ≡ name
unfolding fold_case case_needs_quoting
folds_to_itself u preserve s name e = refl
folds_to_itself u upper s name e = ground (arith, text_eq_iff name (u.upper name))
folds_to_itself u lower s name e = ground (arith, text_eq_iff name (u.lower name))

-- A name that is left bare is one identifier, and folds to itself.
bare_name :
    (u : Chars) (name : Str) (d : Dialect)
    → needs_quoting u name d ≡ false
    → (reads_as_one_identifier u name ≡ true) × (fold_case u name d.syntax.unquoted_case ≡ name)
unfolding needs_quoting
bare_name u name d h =
    let case = case_needs_quoting u d.syntax.unquoted_case d.syntax name in
    let parts : (reads_as_one_identifier u name ≡ true) × (case ≡ false) = ground arith in
    (parts.0, folds_to_itself u d.syntax.unquoted_case d.syntax name parts.1)

-- Whatever the name: what `quote_if_needed` writes for it, bare or quoted, `lex` reads as one IDENT
-- token, the only one, whose value is the name. This is for a dialect that quotes by one character
-- which starts nothing else, and none of whose markers and openers starts like a name.
pub quote_if_needed-lex :
    (u : Chars) (laws : IsUnicode u) (ascii : HasAsciiNames u) (d : Dialect)
    → KeepsNames u d.syntax
    → (q : ℕ) → QuotesBy u d.syntax q
    → (name : Str)
    → (t : Token) × (lex u d.syntax (quote_if_needed u name d) ≡ some (t ∷ []))
      × (t.type ≡ ident)
      × (t.value ≡ name)
unfolding quote_if_needed
quote_if_needed-lex u laws ascii d keeps q by name = elim (Bool-cases (needs_quoting u name d)) [
  | inl e ↦
      let (t, read, type, _, _, value) = quoted-lex u d.syntax q by name in
      (t, rw e read, type, value)
  | inr e ↦
      let (one, same) = bare_name u name d e in
      (
        name_token u laws ascii d.syntax keeps name,
        rw e ((reads_as_one_identifier-lex u laws ascii d.syntax keeps name).0 one),
        refl,
        same,
      )
]
