-- ===== src/Lex/Names.antt =====
-- engine/lex.py: `reads_as_one_identifier` against the scanner that it speaks of.
use pysqlsuggestions.Prelude.{
  ℕ, zero, suc, ◌+◌, ◌-◌, ◌≤◌, Bool, true, false, List, [], ◌∷◌, some, Str, codes, length, drop,
  take_all, drop_all, drop-eq-nil, all, ◌==◌, ==_iff, starts_with, ◌≡◌, ◌↔◌, refl, ap, ◌∙◌, arith,
  subst, Bool-cases, inl, inr, and-eq-true,
}
use pysqlsuggestions.Lex.Token.{
  identifier_quotes, Chars, IsUnicode, Syntax, Token, ident, is_ident_start, is_ident_char,
  reads_as_one_identifier, fold_case,
}
use pysqlsuggestions.Lex.Scan.{scan_while, opens_escape_string}
use pysqlsuggestions.Lex.Starts.{
  starts_unlike, not_the, starts_with_unlike, no_marker, no_quote, no_placeholder,
}
use pysqlsuggestions.Lex.Step.{
  Step, scan_punct, scan_operator, quoted_token, word_token, scan_bare, scan_dollar, scan_literal,
  scan_param, scan_token, lex_from, lex,
}

-- What Unicode says of the ASCII characters that the scanner tests for by name, and that nothing
-- which starts a name is whitespace.
pub record HasAsciiNames (u : Chars) : Type 0 where
  pub apostrophe : is_ident_char u b'\'' ≡ false
  pub quote : is_ident_start u b'\'' ≡ false
  pub slash : is_ident_start u b'/' ≡ false
  pub dollar : is_ident_start u b'$' ≡ false
  pub start_visible : (c : ℕ) → is_ident_start u c ≡ true → u.is_space c ≡ false

-- No comment marker, quote or placeholder of the dialect starts like a name.
pub record KeepsNames (u : Chars) (s : Syntax) : Type 0 where
  pub comments : all (starts_unlike (is_ident_start u)) s.line_comments ≡ true
  pub quotes : all (starts_unlike (is_ident_start u)) (identifier_quotes s) ≡ true
  pub openers : all (λ p. starts_unlike (is_ident_start u) p.opens) s.placeholders ≡ true

scan_while-all :
    (p : ℕ → Bool) (cs : Str) (i : ℕ) → all p cs ≡ true → scan_while p cs i ≡ i + length cs
unfolding scan_while
scan_while-all p [] i h = omega arith
scan_while-all p (c ∷ cs) i h = ground (arith, scan_while-all p cs (suc i))

all_of_scan_while :
    (p : ℕ → Bool) (cs : Str) (i : ℕ) → i + length cs ≤ scan_while p cs i → all p cs ≡ true
unfolding scan_while
all_of_scan_while p [] i h = refl
all_of_scan_while p (c ∷ cs) i h = ground (arith, all_of_scan_while p cs (suc i))

-- One round of the loop.
pub lex_from-step :
    (u : Chars) (s : Syntax) (f c : ℕ) (cs : Str) (pos depth : ℕ) (r : Step) (ts : List Token)
    → scan_token u s c cs pos depth ≡ r
    → lex_from u s f (drop (r.token.end - pos) (c ∷ cs)) r.token.end r.depth ≡ some ts
    → lex_from u s (suc f) (c ∷ cs) pos depth ≡ some (r.token ∷ ts)
unfolding lex_from
lex_from-step u s f c cs pos depth r ts e =
    subst
      (λ r.
        lex_from u s f (drop (r.token.end - pos) (c ∷ cs)) r.token.end r.depth ≡ some ts
        → lex_from u s (suc f) (c ∷ cs) pos depth ≡ some (r.token ∷ ts))
      e (λ h. rw (h, lex_from))

lex_from-nil :
    (u : Chars) (s : Syntax) (f : ℕ) (rest : Str) (pos depth : ℕ)
    → lex_from u s f rest pos depth ≡ some []
    → rest ≡ []
unfolding lex_from
lex_from-nil u s f [] pos depth e = refl
lex_from-nil u s zero (c ∷ cs) pos depth e = cc
lex_from-nil u s (suc f) (c ∷ cs) pos depth e = ground arith

lex_from-cons :
    (u : Chars) (s : Syntax) (f c : ℕ) (cs : Str) (pos depth : ℕ) (t : Token) (ts : List Token)
    → lex_from u s (suc f) (c ∷ cs) pos depth ≡ some (t ∷ ts)
    → ((scan_token u s c cs pos depth).token ≡ t)
      × (lex_from u s f
            (drop ((scan_token u s c cs pos depth).token.end - pos) (c ∷ cs))
            (scan_token u s c cs pos depth).token.end
            (scan_token u s c cs pos depth).depth
          ≡ some ts)
unfolding lex_from
lex_from-cons u s f c cs pos depth t ts e = ground arith

module _ (u : Chars) (laws : IsUnicode u) (ascii : HasAsciiNames u) (s : Syntax)
    (keeps : KeepsNames u s) where
  module _ (c : ℕ) (cs : Str) (start : is_ident_start u c ≡ true) (pos depth : ℕ) where
    not_escape : starts_with cs (codes "'") ≡ false → opens_escape_string u (c ∷ cs) s ≡ false
    unfolding opens_escape_string
    not_escape h = rw h (ground arith)

    -- At a character that starts a name the scanner takes the whole run of identifier characters.
    scan_token-name :
        starts_with cs (codes "'") ≡ false
        → scan_token u s c cs pos depth
          ≡ word_token u s (c ∷ cs) pos depth (scan_while (is_ident_char u) (c ∷ cs) pos)
    unfolding scan_token scan_param scan_dollar scan_bare
    scan_token-name h =
        let visible = ascii.start_visible c start in
        let marker = no_marker (is_ident_start u) c cs start s.line_comments keeps.comments in
        let block =
          starts_with_unlike (is_ident_start u) c cs start (codes "/*") (rw ascii.slash) in
        let apostrophe = not_the (is_ident_start u) c cs start b'\'' ascii.quote in
        let dollar = not_the (is_ident_start u) c cs start b'$' ascii.dollar in
        let plain = no_quote (is_ident_start u) c cs start (identifier_quotes s) keeps.quotes in
        let param = no_placeholder (is_ident_start u) c cs start u pos s keeps.openers in
        rw (visible, marker, block, apostrophe, not_escape h)
          (rw (param, scan_param) (rw (dollar, plain, start)))

  starts_char : (c : ℕ) → is_ident_start u c ≡ true → is_ident_char u c ≡ true
  unfolding is_ident_start is_ident_char
  starts_char c h = ground (arith, laws.alpha_alnum c)

  no_apostrophe : (cs : Str) → all (is_ident_char u) cs ≡ true → starts_with cs (codes "'") ≡ false
  unfolding starts_with
  no_apostrophe [] h = refl
  no_apostrophe (d ∷ ds) h = elim (Bool-cases (d == b'\'')) [
    | inr e ↦ rw e
    | inl e ↦
        let same = (==_iff d b'\'').0 e in let none' = ascii.apostrophe in absurd (ground arith)
  ]

  -- The token of a name that is the whole source.
  abbrev pub name_token : Str → Token
  name_token text = record {
    type = ident;
    start = 0;
    end = length text;
    text = text;
    value = fold_case u text s.unquoted_case;
    quoted = false;
    terminated = true;
    depth = 0;
  }

  lex-name :
      (text : Str)
      → reads_as_one_identifier u text ≡ true
      → lex u s text ≡ some (name_token text ∷ [])
  unfolding lex lex_from reads_as_one_identifier word_token
  lex-name [] h = cc
  lex-name (c ∷ cs) h =
      let parts = and-eq-true (is_ident_start u c) (all (is_ident_char u) cs) h in
      let first = scan_token-name c cs parts.0 0 0 (no_apostrophe cs parts.1) in
      let run : scan_while (is_ident_char u) (c ∷ cs) 0 ≡ length (c ∷ cs) =
        scan_while-all (is_ident_char u) (c ∷ cs) 0 (rw (starts_char c parts.0) parts.1)
        ∙ omega arith in
      let size : length (c ∷ cs) - 0 ≡ length (c ∷ cs) = omega arith in
      let left : drop (scan_while (is_ident_char u) (c ∷ cs) 0 - 0) (c ∷ cs) ≡ [] =
        drop_all _ (c ∷ cs) (omega (arith, run)) in
      let step =
        lex_from-step u s (length cs) c cs 0 0
          (word_token u s (c ∷ cs) 0 0 (scan_while (is_ident_char u) (c ∷ cs) 0)) [] first
          (rw left) in
      step ∙ rw (run, size, take_all (length cs) cs (omega arith))

  -- An unquoted IDENT comes from a run that starts like a name.
  scan_token-unquoted :
      (c : ℕ) (cs : Str) (pos depth : ℕ)
      → (scan_token u s c cs pos depth).token.type ≡ ident
      → (scan_token u s c cs pos depth).token.quoted ≡ false
      → (is_ident_start u c ≡ true)
        × ((scan_token u s c cs pos depth).token.end ≡ scan_while (is_ident_char u) (c ∷ cs) pos)
  unfolding scan_token scan_param scan_dollar scan_bare scan_literal scan_punct scan_operator
      word_token quoted_token
  scan_token-unquoted c cs pos depth t q = ground arith

  name_of-lex :
      (text : Str) (t : Token)
      → lex u s text ≡ some (t ∷ [])
      → t.type ≡ ident
      → t.quoted ≡ false
      → reads_as_one_identifier u text ≡ true
  unfolding lex reads_as_one_identifier
  name_of-lex [] t e i q = let e' : some [] ≡ some (t ∷ []) = unfold lex_from in e in cc
  name_of-lex (c ∷ cs) t e i q =
      let (same, rest) = lex_from-cons u s (length cs) c cs 0 0 t [] e in
      let found = scan_token u s c cs 0 0 in
      let (start, run) =
        scan_token-unquoted c cs 0 0 (ap (λ (x : Token). x.type) same ∙ i)
          (ap (λ (x : Token). x.quoted) same ∙ q) in
      let whole =
        drop-eq-nil (found.token.end - 0) (c ∷ cs) (lex_from-nil u s (length cs) _ _ _ rest) in
      let chars = all_of_scan_while (is_ident_char u) (c ∷ cs) 0 (omega (arith, run)) in
      rw (start, (and-eq-true (is_ident_char u c) (all (is_ident_char u) cs) chars).1)

  -- In a dialect none of whose markers, quotes and placeholders starts like a name: a text passes
  -- `reads_as_one_identifier` exactly when `lex` reads it back as one unquoted IDENT that is the
  -- whole text, with the folded text for its value.
  pub reads_as_one_identifier-lex :
      (text : Str)
      → (reads_as_one_identifier u text ≡ true) ↔ (lex u s text ≡ some (name_token text ∷ []))
  reads_as_one_identifier-lex text =
      (lex-name text, λ e. name_of-lex text (name_token text) e refl refl)
