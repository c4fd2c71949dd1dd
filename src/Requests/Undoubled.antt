-- ===== src/Requests/Undoubled.antt =====
-- engine/request.py: that what is typed of a quoted value is read back.
use pysqlsuggestions.Prelude.{
  ℕ, suc, ◌+◌, ◌-◌, false, [], ◌∷◌, ◌++◌, Str, length, starts_with, find_from, ◌≡◌, ◌∙◌, refl, inl,
  inr, Bool-cases, ◌==◌, ==_refl, ==_iff, arith, take-length-append,
}
use pysqlsuggestions.Lex.Token.{Token}
use pysqlsuggestions.Quote.Defs.{replace_from}
use pysqlsuggestions.Quote.ReadBack.{doubled, replace-cons}
use pysqlsuggestions.Requests.Literals.{
  body_start, quote_or_first, literal_opening, undoubled, literal_prefix,
}

abbrev halved : ℕ → Str → Str
halved q text = replace_from (q ∷ q ∷ []) (q ∷ []) 0 text

halved-pair : (q : ℕ) (rest : Str) → halved q (q ∷ q ∷ rest) ≡ q ∷ halved q rest
unfolding replace_from starts_with
halved-pair q rest = rw (==_refl q) refl

halved-other : (q c : ℕ) (rest : Str) → (c == q) ≡ false → halved q (c ∷ rest) ≡ c ∷ halved q rest
unfolding replace_from starts_with
halved-other q c rest e = rw e refl

halved-doubled : (q : ℕ) (text : Str) → halved q (doubled q text) ≡ text
halved-doubled q [] = unfold replace_from in refl
halved-doubled q (c ∷ cs) = elim (Bool-cases (c == q)) [
  | inl e ↦
      let same = (==_iff c q).0 e in
      rw (replace-cons, e) (halved-pair q (doubled q cs) ∙ rw (halved-doubled q cs, same) refl)
  | inr e ↦ rw (replace-cons, e) (halved-other q c (doubled q cs) e ∙ rw (halved-doubled q cs) refl)
]

abbrev pub apostrophe : ℕ
apostrophe = 39

opening-quote : (rest : Str) → literal_opening (apostrophe ∷ rest) ≡ (1, apostrophe ∷ [])
unfolding literal_opening body_start quote_or_first starts_with find_from
opening-quote rest = refl

-- In a literal that opens with a quote, at a caret behind a value whose quotes are doubled, the prefix
-- is the value as it was before they were doubled, whatever stands behind the caret.
pub literal_prefix-doubled :
    (t : Token) (value rest : Str)
    → t.text ≡ apostrophe ∷ (doubled apostrophe value ++ rest)
    → literal_prefix t (t.start + suc (length (doubled apostrophe value))) ≡ value
unfolding literal_prefix undoubled
literal_prefix-doubled t value rest e =
    let written = doubled apostrophe value in
    let behind : t.start + suc (length written) - t.start ≡ suc (length written) = omega arith in
    rw (e, opening-quote (written ++ rest), behind, take-length-append written rest)
      (halved-doubled apostrophe value)
