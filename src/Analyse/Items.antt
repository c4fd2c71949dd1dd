-- ===== src/Analyse/Items.antt =====
-- engine/analyse.py: what `_split_items` makes of a range.
use pysqlsuggestions.Prelude.{
  ℕ, Bool, true, false, ◌&&◌, ◌||◌, List, [], ◌∷◌, ◌++◌, Option, none, some, codes, any, keep, ◌==◌,
  if◌then◌else◌, ltb, ◌≤◌, ◌≡◌, ◌⊎◌, refl, ap, subst, ◌∙◌, inl, inr, Bool-cases, Option-cases,
  arith,
}
use mathlib.Core.List.{append_assoc, append-nil, Memᴰ}
use mathlib.Core.List.Memᴰ as Memᴰ
use pysqlsuggestions.Lex.Token.{Token}
use pysqlsuggestions.Analyse.Tokens.{in_skip, is_mark}
use pysqlsuggestions.Analyse.Branches.{least_depth}
use pysqlsuggestions.Analyse.Outputs.{items_from, has_tokens, split_items}

-- A comma at the depth that separates.
abbrev pub is_comma : ℕ → Token → Bool
is_comma base t = is_mark (codes ",") t && (t.depth == base)

-- Tokens, and the items between their commas.
pub data Commas (base : ℕ) : List Token → List (List Token) → Type 0 where
  one : (item : List Token) → any (is_comma base) item ≡ false → Commas base item (item ∷ [])
  cut :
      (item : List Token) (comma : Token) (rest : List Token) (items : List (List Token))
      → any (is_comma base) item ≡ false
      → is_comma base comma ≡ true
      → Commas base rest items
      → Commas base (item ++ comma ∷ rest) (item ∷ items)

any-snoc :
    (p : Token → Bool) (ts : List Token) (t : Token) → any p (ts ++ t ∷ []) ≡ (any p ts || p t)
any-snoc p [] t = ground arith
any-snoc p (x ∷ ts) t = ground (arith, any-snoc p ts t)

items_from_comma :
    (base : ℕ) (item : List Token) (t : Token) (ts : List Token)
    → is_comma base t ≡ true
    → items_from base item (t ∷ ts) ≡ item ∷ items_from base [] ts
unfolding items_from
items_from_comma base item t ts c = rw c refl

items_from_other :
    (base : ℕ) (item : List Token) (t : Token) (ts : List Token)
    → is_comma base t ≡ false
    → items_from base item (t ∷ ts) ≡ items_from base (item ++ t ∷ []) ts
unfolding items_from
items_from_other base item t ts c = rw c refl

items_from-Commas :
    (base : ℕ) (item ts : List Token)
    → any (is_comma base) item ≡ false
    → Commas base (item ++ ts) (items_from base item ts)
items_from-Commas base item [] h = unfold items_from in rw (append-nil item) (one item h)
items_from-Commas base item (t ∷ ts) h = elim (Bool-cases (is_comma base t)) [
  | inl c ↦
      rw (items_from_comma base item t ts c)
        (cut item t ts (items_from base [] ts) h c (items_from-Commas base [] ts refl))
  | inr c ↦
      let quiet : any (is_comma base) (item ++ t ∷ []) ≡ false =
        any-snoc (is_comma base) item t ∙ rw (h, c) refl in
      rw (items_from_other base item t ts c) (
        subst (λ a. Commas base a (items_from base (item ++ t ∷ []) ts))
          (append_assoc item (t ∷ []) ts) (items_from-Commas base (item ++ t ∷ []) ts quiet))
]

-- A significant token of the range.
abbrev pub Shown : Token → List Token → Type 0
Shown t range = Memᴰ t range × (in_skip t.type ≡ false)

-- The depth of a significant token, and none lies less deep.
pub record Shallowest (base : ℕ) (range : List Token) : Type 0 where
  pub least : (t : Token) → Shown t range → base ≤ t.depth
  pub reached : (t : Token) × Shown t range × (t.depth ≡ base)

abbrev Deepest : List Token → Option ℕ → Type 0
Deepest range none = (t : Token) → Memᴰ t range → in_skip t.type ≡ true
Deepest range (some base) = Shallowest base range

least_depth_skip :
    (t : Token) (ts : List Token) → in_skip t.type ≡ true → least_depth (t ∷ ts) ≡ least_depth ts
unfolding least_depth
least_depth_skip t ts s = rw s refl

-- The depth of one more significant token.
abbrev lesser : ℕ → Option ℕ → Option ℕ
lesser depth none = some depth
lesser depth (some d) = some (if ltb d depth then d else depth)

least_depth_token :
    (t : Token) (ts : List Token)
    → in_skip t.type ≡ false
    → least_depth (t ∷ ts) ≡ lesser t.depth (least_depth ts)
unfolding least_depth
least_depth_token t ts s = elim (Option-cases (least_depth ts)) [
  | inl e ↦ rw (least_depth, s, e) refl
  | inr (d, e) ↦ rw (least_depth, s, e) refl
]

Deepest-skip :
    (t : Token) (ts : List Token) (o : Option ℕ)
    → in_skip t.type ≡ true
    → Deepest ts o
    → Deepest (t ∷ ts) o
Deepest-skip t ts none s h = λ x m. elim (Memᴰ.cases_cons m) [
  | inl same ↦ ap (λ (k : Token). in_skip k.type) same ∙ s
  | inr later ↦ h x later
]
Deepest-skip t ts (some base) s h = record {
  least = λ x shown. elim (Memᴰ.cases_cons (shown.0)) [
    | inl same ↦
        let hidden = ap (λ (k : Token). in_skip k.type) same ∙ s in
        absurd (ground (arith, hidden, shown.1))
    | inr later ↦ h.least x (later, shown.1)
  ];
  reached = let (x, shown, e) = h.reached in (x, (Memᴰ.tail (shown.0), shown.1), e);
}

-- Another significant token, and the least depth behind it.
Shallowest-here :
    (t : Token) (ts : List Token)
    → in_skip t.type ≡ false
    → ((x : Token) → Shown x ts → t.depth ≤ x.depth)
    → Shallowest t.depth (t ∷ ts)
Shallowest-here t ts s h = record {
  least = λ x shown. elim (Memᴰ.cases_cons (shown.0)) [
    | inl same ↦ let e = ap (λ (k : Token). k.depth) same in omega (arith, e)
    | inr later ↦ h x (later, shown.1)
  ];
  reached = (t, (Memᴰ.head refl, s), refl);
}

Shallowest-behind :
    (t : Token) (ts : List Token) (d : ℕ) → d ≤ t.depth → Shallowest d ts → Shallowest d (t ∷ ts)
Shallowest-behind t ts d le h = record {
  least = λ x shown. elim (Memᴰ.cases_cons (shown.0)) [
    | inl same ↦ let e = ap (λ (k : Token). k.depth) same in omega (arith, e)
    | inr later ↦ h.least x (later, shown.1)
  ];
  reached = let (x, shown, e) = h.reached in (x, (Memᴰ.tail (shown.0), shown.1), e);
}

Deepest-token :
    (t : Token) (ts : List Token) (o : Option ℕ)
    → in_skip t.type ≡ false
    → Deepest ts o
    → Deepest (t ∷ ts) (lesser t.depth o)
Deepest-token t ts none s h =
    Shallowest-here t ts s (λ x shown. absurd (ground (arith, h x (shown.0), shown.1)))
Deepest-token t ts (some d) s h = elim (Bool-cases (ltb d t.depth)) [
  | inl e ↦ rw e (Shallowest-behind t ts d (ground arith) h)
  | inr e ↦
      rw e (Shallowest-here t ts s (λ x shown. let le = h.least x shown in ground (arith, le)))
]

least_depth-Deepest : (range : List Token) → Deepest range (least_depth range)
least_depth-Deepest [] = unfold least_depth in λ t m. absurd (Memᴰ.not-nil m)
least_depth-Deepest (t ∷ ts) = elim (Bool-cases (in_skip t.type)) [
  | inl s ↦
      rw (least_depth_skip t ts s) (Deepest-skip t ts (least_depth ts) s (least_depth-Deepest ts))
  | inr s ↦
      rw (least_depth_token t ts s) (Deepest-token t ts (least_depth ts) s (least_depth-Deepest ts))
]

-- `_split_items` cuts a range at its commas of the least depth at which a significant token stands: put
-- together again with these commas, the items are the range, and no item holds such a comma. Items
-- without tokens are left out, and a range with no significant token has none.
pub split_items-Commas :
    (range : List Token)
    → ((least_depth range ≡ none) × (split_items range ≡ []))
      ⊎ ((base : ℕ) × (items : List (List Token)) × Shallowest base range
          × Commas base range items
          × (split_items range ≡ keep has_tokens items))
split_items-Commas range = elim (Option-cases (least_depth range)) [
  | inl e ↦ inl (e, unfold split_items in rw (e, split_items) refl)
  | inr (base, e) ↦ inr (
    base,
    items_from base [] range,
    subst (Deepest range) e (least_depth-Deepest range),
    items_from-Commas base [] range refl,
    unfold split_items in rw (e, split_items) refl,
  )
]
