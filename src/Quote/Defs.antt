-- ===== src/Quote/Defs.antt =====
-- engine/rank.py: `quote_if_needed`, `_needs_quoting` and `_plain_identifier`.
use pysqlsuggestions.Prelude.{
  ℕ, zero, suc, ◌-◌, Bool, true, false, not, ◌&&◌, ◌||◌, [], ◌∷◌, ◌++◌, Str, length, all, leb, ◌==◌,
  if◌then◌else◌, has_char, has_text, starts_with, text_eq, non_empty,
}
use pysqlsuggestions.Lex.Token.{
  Chars, Syntax, UnquotedCase, lower, upper, preserve, reads_as_one_identifier,
}
use pysqlsuggestions.Dialect.{Dialect}

abbrev pub in_range : ℕ → ℕ → ℕ → Bool
in_range lo hi c = leb lo c && leb c hi

-- `\u0080-\uffff`, where the dialect takes it.
abbrev pub non_ascii : Syntax → ℕ → Bool
non_ascii s c = s.unquoted_non_ascii && in_range 0x80 0xffff c

-- The first character class of `_plain_identifier`; the flag is `first_case == 'lower'`.
unfoldable pub plain_head : Syntax → Bool → ℕ → Bool
plain_head s low c =
    in_range b'a' b'z' c || (not low && in_range b'A' b'Z' c) || c == b'_' || non_ascii s c

unfoldable pub plain_tail : Syntax → ℕ → Bool
plain_tail s c =
    in_range b'A' b'Z' c
    || in_range b'a' b'z' c
    || in_range b'0' b'9' c
    || c == b'_'
    || has_char s.unquoted_extra c
    || non_ascii s c

-- `_plain_identifier(syntax, first_case).match(name) is not None`.
unfoldable pub plain_identifier : Syntax → Bool → Str → Bool
plain_identifier s low [] = false
plain_identifier s low (c ∷ cs) = plain_head s low c && all (plain_tail s) cs

module _ (u : Chars) where
  -- The last part of `_needs_quoting`, on `syntax.unquoted_case`.
  unfoldable pub case_needs_quoting : UnquotedCase → Syntax → Str → Bool
  case_needs_quoting preserve s name = not (plain_identifier s false name)
  case_needs_quoting upper s name =
      not (text_eq name (u.upper name)) || not (plain_identifier s false name)
  case_needs_quoting lower s name =
      not (text_eq name (u.lower name)) || not (plain_identifier s true name)

  unfoldable pub needs_quoting : Str → Dialect → Bool
  needs_quoting name d =
      if not (non_empty name)
      then true
      else (if has_text d.reserved (u.lower name)
          then true
          else (if not (reads_as_one_identifier u name)
              then true
              else case_needs_quoting d.syntax.unquoted_case d.syntax name))

-- `text.replace(old, new)` for an `old` that is not empty. The number counts the characters still to
-- be passed over behind a match.
unfoldable pub replace_from : Str → Str → ℕ → Str → Str
replace_from old new k [] = []
replace_from old new (suc k) (c ∷ cs) = replace_from old new k cs
replace_from old new zero (c ∷ cs) =
    let replaced = new ++ replace_from old new (length old - 1) cs in
    let kept = c ∷ replace_from old new 0 cs in if starts_with (c ∷ cs) old then replaced else kept

unfoldable pub quoted : Str → Str → Str
quoted quote name = quote ++ (replace_from quote (quote ++ quote) 0 name ++ quote)

unfoldable pub quote_if_needed : Chars → Str → Dialect → Str
quote_if_needed u name d =
    if not (needs_quoting u name d) then name else quoted d.syntax.first_quote name
