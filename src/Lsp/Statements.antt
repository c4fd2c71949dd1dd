-- ===== src/Lsp/Statements.antt =====
-- lsp/pysqlsuggestions_lsp/documents.py and engine/analyse.py: that the two functions `statement_at` cut
-- a text alike.
use pysqlsuggestions.Prelude.{
  ℕ, suc, ◌+◌, ◌-◌, ◌≤◌, ◌<◌, Bool, true, false, ◌||◌, List, [], ◌∷◌, ◌++◌, some, Str, codes,
  length, length-append, length-take, length-drop, take, drop, drop-length-append,
  take-length-append, any, leb, leb→le, text_eq_iff, and-eq-true, take-append-drop, ◌≡◌, refl, sym,
  ap, ap₂, subst, ◌∙◌, inl, inr, Bool-cases, arith,
}
use mathlib.Core.List.{append_assoc, append-nil}
use pysqlsuggestions.Lex.Token.{Chars, IsUnicode, Syntax, Token}
use pysqlsuggestions.Lex.Step.{lex}
use pysqlsuggestions.Lex.Tiles.{Fits, Tiles, lex-Tiles, texts}
use pysqlsuggestions.Analyse.Tokens.{is_punct}
use pysqlsuggestions.Analyse.Caret.{statement_range}
use pysqlsuggestions.Analyse.Caret as Analyse
use pysqlsuggestions.Lsp.Documents.{slice, separates, statement_from}
use pysqlsuggestions.Lsp.Documents as Documents

-- A cut of the tokens in three, which the range and the answer both describe.
pub record Cut (offset : ℕ) (ts : List Token) (range : ℕ × ℕ) (answer : Str × ℕ) : Type 0 where
  before : List Token
  statement : List Token
  after : List Token
  whole : ts ≡ before ++ (statement ++ after)
  range_is : range ≡ (length before, length before + length statement)
  answer_is : answer ≡ (texts statement, length (texts before))
  from_left : answer.1 ≤ offset
  to_right : offset ≤ answer.1 + length (answer.0)
  undivided : any separates statement ≡ false

texts-append : (a b : List Token) → texts (a ++ b) ≡ texts a ++ texts b
texts-append [] b = refl
texts-append (t ∷ a) b = rw (texts-append a b) (sym (append_assoc t.text (texts a) (texts b)))

any-append : (p : Token → Bool) (a b : List Token) → any p (a ++ b) ≡ (any p a || any p b)
any-append p [] b = refl
any-append p (t ∷ a) b = ground (arith, any-append p a b)

slice-append :
    (a b c : Str) (start stop : ℕ)
    → start ≡ length a
    → stop ≡ length a + length b
    → slice start stop (a ++ (b ++ c)) ≡ b
slice-append a b c start stop e f =
    let size : stop - start ≡ length b = omega arith in
    rw (e, drop-length-append a (b ++ c))
      (ap (λ n. take n (b ++ c)) (omega arith) ∙ take-length-append b c)

range_keep :
    (lo index : ℕ) (t : Token) (ts : List Token) (offset : ℕ)
    → separates t ≡ false
    → statement_range lo index (t ∷ ts) offset ≡ statement_range lo (suc index) ts offset
unfolding statement_range
range_keep lo index t ts offset h = rw h refl

range_stop :
    (lo index : ℕ) (t : Token) (ts : List Token) (offset : ℕ)
    → separates t ≡ true
    → leb offset t.start ≡ true
    → statement_range lo index (t ∷ ts) offset ≡ (lo, index)
unfolding statement_range
range_stop lo index t ts offset h le = rw (h, le) refl

range_next :
    (lo index : ℕ) (t : Token) (ts : List Token) (offset : ℕ)
    → separates t ≡ true
    → leb offset t.start ≡ false
    → statement_range lo index (t ∷ ts) offset ≡ statement_range (suc index) (suc index) ts offset
unfolding statement_range
range_next lo index t ts offset h gt = rw (h, gt) refl

from_keep :
    (text : Str) (offset start : ℕ) (t : Token) (ts : List Token)
    → separates t ≡ false
    → statement_from text offset start (t ∷ ts) ≡ statement_from text offset start ts
unfolding statement_from
from_keep text offset start t ts h = rw h refl

from_stop :
    (text : Str) (offset start : ℕ) (t : Token) (ts : List Token)
    → separates t ≡ true
    → leb offset t.start ≡ true
    → statement_from text offset start (t ∷ ts) ≡ (slice start t.start text, start)
unfolding statement_from
from_stop text offset start t ts h le = rw (h, le) refl

from_next :
    (text : Str) (offset start : ℕ) (t : Token) (ts : List Token)
    → separates t ≡ true
    → leb offset t.start ≡ false
    → statement_from text offset start (t ∷ ts) ≡ statement_from text offset t.end ts
unfolding statement_from
from_next text offset start t ts h gt = rw (h, gt) refl

-- What a token that tiles a text says of it.
split-Fits :
    (rest : Str) (pos : ℕ) (t : Token) → Fits rest pos t → rest ≡ t.text ++ drop (t.end - pos) rest
split-Fits rest pos t f = rw f.text_is (sym (take-append-drop (t.end - pos) rest))

length-Fits : (rest : Str) (pos : ℕ) (t : Token) → Fits rest pos t → length t.text ≡ t.end - pos
length-Fits rest pos t f =
    rw f.text_is (length-take (t.end - pos) rest (omega (arith, f.within, f.grows)))

separates-short : (t : Token) → separates t ≡ true → length t.text ≡ 1
separates-short t h =
    rw ((text_eq_iff t.text (codes ";")).0 (and-eq-true (is_punct t.type) _ h).1) refl

texts-snoc : (acc : List Token) (t : Token) → texts (acc ++ t ∷ []) ≡ texts acc ++ t.text
texts-snoc acc t = texts-append acc (t ∷ []) ∙ ap (◌++◌ (texts acc)) (append-nil t.text)

absorb :
    (acc : List Token) (t : Token) (rest left : Str)
    → rest ≡ t.text ++ left
    → texts acc ++ rest ≡ texts (acc ++ t ∷ []) ++ left
absorb acc t rest left e =
    ap (◌++◌ (texts acc)) e
    ∙ (sym (append_assoc (texts acc) t.text left) ∙ ap (λ a. a ++ left) (sym (texts-snoc acc t)))

length-snoc :
    (acc : List Token) (t : Token)
    → length (texts (acc ++ t ∷ [])) ≡ length (texts acc) + length t.text
length-snoc acc t = rw (texts-snoc acc t) (length-append (texts acc) t.text)

Cut-cast :
    (offset : ℕ) {ts ts' : List Token} {range range' : ℕ × ℕ} {answer answer' : Str × ℕ}
    → ts ≡ ts'
    → range' ≡ range
    → answer' ≡ answer
    → Cut offset ts range answer
    → Cut offset ts' range' answer'
Cut-cast offset e f g c = rw (sym e, f, g) c

-- The states of the two loops at a token: `pre` is behind them, `acc` is the statement so far, and `rest`
-- the text to come.
module _ (text : Str) (offset : ℕ) where
  record Reached (pre acc : List Token) (rest : Str) (pos : ℕ) (ts : List Token) : Type 0 where
    whole : text ≡ texts pre ++ (texts acc ++ rest)
    here : pos ≡ length (texts pre) + length (texts acc)
    tiles : Tiles rest pos ts
    undivided : any separates acc ≡ false
    from_left : length (texts pre) ≤ offset
    to_right : offset ≤ pos + length rest

  abbrev Cuts : List Token → List Token → List Token → Type 0
  Cuts pre acc ts =
      Cut offset (pre ++ (acc ++ ts))
        (statement_range (length pre) (length pre + length acc) ts offset)
        (statement_from text offset (length (texts pre)) ts)

  cut-end : (pre acc : List Token) (pos : ℕ) → Reached pre acc [] pos [] → Cuts pre acc []
  unfolding statement_range statement_from
  cut-end pre acc pos r =
      let answer : drop (length (texts pre)) text ≡ texts acc =
        rw r.whole (drop-length-append (texts pre) (texts acc ++ []) ∙ append-nil (texts acc)) in
      record {
        before = pre;
        statement = acc;
        after = [];
        whole = refl;
        range_is = refl;
        answer_is = ap (λ a. (a, length (texts pre))) answer;
        from_left = r.from_left;
        to_right = rw answer (omega (arith, r.to_right, r.here));
        undivided = r.undivided;
      }

  cut-here :
      (pre acc : List Token) (rest : Str) (pos : ℕ) (t : Token) (ts : List Token)
      → Reached pre acc rest pos (t ∷ ts)
      → separates t ≡ true
      → leb offset t.start ≡ true
      → Cuts pre acc (t ∷ ts)
  cut-here pre acc rest pos t ts r sep le =
      let starts = (r.tiles.0).starts in
      let answer : slice (length (texts pre)) t.start text ≡ texts acc = rw r.whole (
        slice-append (texts pre) (texts acc) rest (length (texts pre)) t.start refl
          (starts ∙ r.here)) in
      let found =
        from_stop text offset (length (texts pre)) t ts sep le
        ∙ ap (λ a. (a, length (texts pre))) answer in
      record {
        before = pre;
        statement = acc;
        after = t ∷ ts;
        whole = refl;
        range_is = range_stop (length pre) (length pre + length acc) t ts offset sep le;
        answer_is = found;
        from_left = rw found r.from_left;
        to_right = rw found (omega (arith, leb→le offset t.start le, starts, r.here));
        undivided = r.undivided;
      }

  next-Reached :
      (pre acc : List Token) (rest : Str) (pos : ℕ) (t : Token) (ts : List Token)
      → Reached pre acc rest pos (t ∷ ts)
      → separates t ≡ true
      → leb offset t.start ≡ false
      → Reached (pre ++ (acc ++ t ∷ [])) [] (drop (t.end - pos) rest) t.end ts
  next-Reached pre acc rest pos t ts r sep gt =
      let f = r.tiles.0 in
      let size = length-Fits rest pos t f in
      let joined = absorb acc t rest (drop (t.end - pos) rest) (split-Fits rest pos t f) in
      let all_of = texts-append pre (acc ++ t ∷ []) in
      let lt : t.start < offset = ground (arith, gt) in
      let far : t.end ≡ length (texts (pre ++ (acc ++ t ∷ []))) =
        let e = ap length all_of in
        omega (
          arith,
          e,
          length-append (texts pre) (texts (acc ++ t ∷ [])),
          length-snoc acc t,
          size,
          r.here,
          f.grows,
        ) in
      record {
        whole =
            r.whole
            ∙ (ap (◌++◌ (texts pre)) joined
                ∙ (sym (append_assoc (texts pre) (texts (acc ++ t ∷ [])) (drop (t.end - pos) rest))
                    ∙ ap (λ a. a ++ drop (t.end - pos) rest) (sym all_of)));
        here = omega (arith, far);
        tiles = r.tiles.1;
        undivided = refl;
        from_left = omega (arith, far, f.starts, f.grows, size, separates-short t sep, lt);
        to_right = omega (arith, r.to_right, length-drop {0} (t.end - pos) rest, f.within, f.grows);
      }

  same-Reached :
      (pre acc : List Token) (rest : Str) (pos : ℕ) (t : Token) (ts : List Token)
      → Reached pre acc rest pos (t ∷ ts)
      → separates t ≡ false
      → Reached pre (acc ++ t ∷ []) (drop (t.end - pos) rest) t.end ts
  same-Reached pre acc rest pos t ts r sep =
      let f = r.tiles.0 in
      let size = length-Fits rest pos t f in
      let joined = absorb acc t rest (drop (t.end - pos) rest) (split-Fits rest pos t f) in
      record {
        whole = r.whole ∙ ap (◌++◌ (texts pre)) joined;
        here = omega (arith, length-snoc acc t, size, r.here, f.grows);
        tiles = r.tiles.1;
        undivided = any-append separates acc (t ∷ []) ∙ ground (arith, r.undivided, sep);
        from_left = r.from_left;
        to_right = omega (arith, r.to_right, length-drop {0} (t.end - pos) rest, f.within, f.grows);
      }

  cuts :
      (pre acc : List Token) (rest : Str) (pos : ℕ) (ts : List Token)
      → Reached pre acc rest pos ts
      → Cuts pre acc ts
  cuts pre acc rest pos [] r = cut-end pre acc pos (subst (λ x. Reached pre acc x pos []) r.tiles r)
  cuts pre acc rest pos (t ∷ ts) r = elim (Bool-cases (separates t)) [
    | inr f ↦
        Cut-cast offset (ap (◌++◌ pre) (append_assoc acc (t ∷ []) ts))
          (range_keep (length pre) (length pre + length acc) t ts offset f
            ∙ ap (λ i. statement_range (length pre) i ts offset)
                (omega (arith, length-append acc (t ∷ []))))
          (from_keep text offset (length (texts pre)) t ts f)
          (cuts pre (acc ++ t ∷ []) _ _ ts (same-Reached pre acc rest pos t ts r f))
    | inl s ↦ elim (Bool-cases (leb offset t.start)) [
      | inl le ↦ cut-here pre acc rest pos t ts r s le
      | inr gt ↦
          let r' = next-Reached pre acc rest pos t ts r s gt in
          let size : length (pre ++ (acc ++ t ∷ [])) ≡ suc (length pre + length acc) =
            omega (arith, length-append pre (acc ++ t ∷ []), length-append acc (t ∷ [])) in
          let size' : length (pre ++ (acc ++ t ∷ [])) + 0 ≡ suc (length pre + length acc) =
            omega (arith, size) in
          Cut-cast offset
            (append_assoc pre (acc ++ t ∷ []) ts ∙ ap (◌++◌ pre) (append_assoc acc (t ∷ []) ts))
            (range_next (length pre) (length pre + length acc) t ts offset s gt
              ∙ ap₂ (λ a b. statement_range a b ts offset) (sym size) (sym size'))
            (from_next text offset (length (texts pre)) t ts s gt
              ∙ ap (λ k. statement_from text offset k ts) (omega (arith, r'.here)))
            (cuts (pre ++ (acc ++ t ∷ [])) [] _ _ ts r')
    ]
  ]

-- For an offset in the text, the statement that the language server cuts out of the text is the text of
-- the tokens that the analysis takes for the statement, with the texts of the tokens before it in front;
-- the offset lies in it, at its end at the latest, and none of its tokens is a semicolon.
pub statement_at-statement_at :
    (u : Chars) (laws : IsUnicode u) (s : Syntax) (text : Str) (offset : ℕ)
    → offset ≤ length text
    → (ts : List Token) × (lex u s text ≡ some ts)
      × ((answer : Str × ℕ) × (Documents.statement_at u text offset s ≡ some answer)
          × Cut offset ts (Analyse.statement_at ts offset) answer)
unfolding Documents.statement_at Analyse.statement_at
statement_at-statement_at u laws s text offset le =
    let (ts, e, tiles) = lex-Tiles u laws s text in
    let start : Reached text offset [] [] text 0 ts = record {
      whole = refl;
      here = refl;
      tiles = tiles;
      undivided = refl;
      from_left = omega arith;
      to_right = omega arith;
    } in
    (
      ts,
      e,
      (
        statement_from text offset 0 ts,
        rw (e, Documents.statement_at) refl,
        cuts text offset [] [] text 0 ts start,
      ),
    )
