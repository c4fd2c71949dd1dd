-- ===== src/Lsp/Positions.antt =====
-- lsp/pysqlsuggestions_lsp/documents.py: what `to_position` answers.
use pysqlsuggestions.Prelude.{
  ℕ, zero, suc, ◌-◌, ◌≤◌, ◌<◌, true, false, List, [], ◌∷◌, some, Str, length, take, drop,
  length-drop, leb, leb→le, ltb, ◌≡◌, ◌⊎◌, refl, sym, ap, subst, ◌∙◌, inl, inr, Bool-cases, arith,
}
use pysqlsuggestions.Lsp.Documents.{
  Lines, slice, line_starts, starts_from, bisect_right, start_at, column, to_position,
}
use pysqlsuggestions.Lsp.Units.{Counts}

-- Behind the least element there is a start at or before the offset.
bisect_right_in :
    (s x : ℕ) (ss : List ℕ) → leb s x ≡ true → bisect_right (s ∷ ss) x ≡ suc (bisect_right ss x)
unfolding bisect_right
bisect_right_in s x ss h = rw h refl

bisect_right_out : (s x : ℕ) (ss : List ℕ) → leb s x ≡ false → bisect_right (s ∷ ss) x ≡ 0
unfolding bisect_right
bisect_right_out s x ss h = rw h refl

start_at_next :
    (x s : ℕ) (ss : List ℕ) (n : ℕ)
    → s ≤ x
    → bisect_right ss x ≡ n
    → ((m : ℕ)
        → bisect_right ss x ≡ suc m
        → (start : ℕ) × (start_at ss m ≡ some start) × (start ≤ x))
    → (start : ℕ) × (start_at (s ∷ ss) n ≡ some start) × (start ≤ x)
unfolding start_at
start_at_next x s ss zero le e rec = (s, refl, le)
start_at_next x s ss (suc m) le e rec = rec m e

start_at-bisect_right :
    (x : ℕ) (ss : List ℕ) (n : ℕ)
    → bisect_right ss x ≡ suc n
    → (start : ℕ) × (start_at ss n ≡ some start) × (start ≤ x)
unfolding start_at
start_at-bisect_right x [] n e = unfold bisect_right in absurd (ground arith)
start_at-bisect_right x (s ∷ ss) n e = elim (Bool-cases (leb s x)) [
  | inl t ↦
      start_at_next x s ss n (leb→le s x t) (ground (arith, bisect_right_in s x ss t))
        (start_at-bisect_right x ss)
  | inr f ↦ absurd (ground (arith, bisect_right_out s x ss f))
]

bisect_right_mono : (ss : List ℕ) (x y : ℕ) → x ≤ y → bisect_right ss x ≤ bisect_right ss y
unfolding bisect_right
bisect_right_mono [] x y h = omega arith
bisect_right_mono (s ∷ ss) x y h = ground (arith, bisect_right_mono ss x y h)

position_of :
    (lines : Lines) (offset line start : ℕ)
    → bisect_right lines.starts offset ≡ suc line
    → start_at lines.starts line ≡ some start
    → to_position lines offset ≡ some (line, lines.units (slice start offset lines.text))
unfolding to_position column
position_of lines offset line start count found =
    let line_is : bisect_right lines.starts offset - 1 ≡ line = omega (arith, count) in
    rw (to_position, line_is, found) refl

module _ (units : Str → ℕ) (laws : Counts units) where
  units_nil : units [] ≡ 0
  units_nil = let twice = laws.append [] [] in omega arith

  units-take_grow :
      (xs : Str) (m n : ℕ) → m < n → n ≤ length xs → units (take m xs) < units (take n xs)
  units-take_grow xs zero zero mn nl = absurd (omega arith)
  units-take_grow [] zero (suc n) mn nl = absurd (omega arith)
  units-take_grow (x ∷ xs) zero (suc n) mn nl =
      omega (arith, units_nil, laws.positive x (take n xs))
  units-take_grow xs (suc m) zero mn nl = absurd (omega arith)
  units-take_grow [] (suc m) (suc n) mn nl = absurd (omega arith)
  units-take_grow (x ∷ xs) (suc m) (suc n) mn nl = omega (
    arith,
    laws.append (x ∷ []) (take m xs),
    laws.append (x ∷ []) (take n xs),
    units-take_grow xs m n (omega arith) (omega arith),
  )

  units_grow :
      (text : Str) (start a b : ℕ)
      → start ≤ a
      → a < b
      → b ≤ length text
      → units (slice start a text) < units (slice start b text)
  units_grow text start a b sa ab bt =
      units-take_grow (drop start text) (a - start) (b - start) (omega arith)
        (omega (arith, length-drop {0} start text))

  -- Where `to_position` finds an offset: its line, the start of that line, and the column.
  record Placed (text : Str) (offset : ℕ) : Type 0 where
    line : ℕ
    start : ℕ
    count : bisect_right (line_starts text units).starts offset ≡ suc line
    starts_there : start_at (line_starts text units).starts line ≡ some start
    before : start ≤ offset
    answer :
        to_position (line_starts text units) offset ≡ some (line, units (slice start offset text))

  placed : (text : Str) (offset : ℕ) → Placed text offset
  unfolding line_starts
  placed text offset =
      let ss = starts_from false text 0 in
      let count = bisect_right_in 0 offset ss (ground arith) in
      let found = start_at-bisect_right offset (0 ∷ ss) (bisect_right ss offset) count in
      record {
        line = bisect_right ss offset;
        start = found.0;
        count = count;
        starts_there = found.1;
        before = found.2;
        answer =
            position_of (line_starts text units) offset (bisect_right ss offset) (found.0) count
              (found.1);
      }

  -- The start of a line is one.
  start_same :
      (text : Str) (a b : ℕ) (p : Placed text a) (q : Placed text b)
      → p.line ≡ q.line
      → p.start ≡ q.start
  start_same text a b p q e =
      let there =
        sym p.starts_there ∙ (ap (start_at (line_starts text units).starts) e ∙ q.starts_there) in
      ground (arith, there)

  -- Further on in a document is further on in its lines: of two offsets that differ, the one behind has
  -- a later line, or the same line and a greater column, so that no two offsets share a position. This
  -- holds for every way of counting that adds up and counts each character.
  pub to_position-increases :
      (text : Str) (a b : ℕ)
      → a < b
      → b ≤ length text
      → let lines = line_starts text units in
        (p : ℕ × ℕ) × (q : ℕ × ℕ) × (to_position lines a ≡ some p)
        × (to_position lines b ≡ some q)
        × ((p.0 < q.0) ⊎ ((p.0 ≡ q.0) × (p.1 < q.1)))
  to_position-increases text a b ab bt =
      let at_a = placed text a in
      let at_b = placed text b in
      let mono = bisect_right_mono (line_starts text units).starts a b (omega arith) in
      (
        (at_a.line, units (slice at_a.start a text)),
        (at_b.line, units (slice at_b.start b text)),
        at_a.answer,
        at_b.answer,
        elim (Bool-cases (ltb at_a.line at_b.line)) [
          | inl less ↦ inl (ground arith)
          | inr later ↦
              let same : at_a.line ≡ at_b.line = ground (arith, at_a.count, at_b.count, mono) in
              let one = start_same text a b at_a at_b same in
              inr (
                same,
                rw one (units_grow text at_b.start a b (subst (λ k. k ≤ a) one at_a.before) ab bt),
              )
        ],
      )
