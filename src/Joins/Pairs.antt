-- ===== src/Joins/Pairs.antt =====
-- engine/joins.py: the column pairs of a constraint, as `_links` zips and flips them.
use pysqlsuggestions.Prelude.{
  some, suc, ◌||◌, Bool, true, false, not, List, [], ◌∷◌, Str, length, map, non_empty, ◌≡◌, refl,
  sym, ap, ap₂, subst, ◌∙◌, ◌==◌, arith,
}
use pysqlsuggestions.Joins.Defs.{zip, flip}

-- The pairs have the one list on the left, all of it and in order, and the other on the right.
unfoldable pub Pairs : List (Str × Str) → List Str → List Str → Type 0
Pairs ps xs ys = (map (λ p. p.0) ps ≡ xs) × (map (λ p. p.1) ps ≡ ys) × (non_empty ps ≡ true)

-- The pairs of two lists, as far as both go.
unfoldable pub paired : List Str → List Str → List (Str × Str)
paired (x ∷ xs) (y ∷ ys) = (x, y) ∷ paired xs ys
paired _ _ = []

-- On sides of one length, nothing is raised.
zip_even : (xs ys : List Str) → length xs ≡ length ys → zip xs ys ≡ some (paired xs ys)
unfolding zip paired
zip_even [] [] h = refl
zip_even [] (y ∷ ys) h = absurd (omega (arith, h))
zip_even (x ∷ xs) [] h = absurd (omega (arith, h))
zip_even (x ∷ xs) (y ∷ ys) h = rw (zip, zip_even xs ys (omega (arith, h))) refl

map-paired-left : (xs ys : List Str) → length xs ≡ length ys → map (λ p. p.0) (paired xs ys) ≡ xs
unfolding paired
map-paired-left [] ys h = refl
map-paired-left (x ∷ xs) [] h = absurd (omega (arith, h))
map-paired-left (x ∷ xs) (y ∷ ys) h = ap (◌∷◌ x) (map-paired-left xs ys (omega (arith, h)))

map-paired-right : (xs ys : List Str) → length xs ≡ length ys → map (λ p. p.1) (paired xs ys) ≡ ys
unfolding paired
map-paired-right [] [] h = refl
map-paired-right [] (y ∷ ys) h = absurd (omega (arith, h))
map-paired-right (x ∷ xs) [] h = absurd (omega (arith, h))
map-paired-right (x ∷ xs) (y ∷ ys) h = ap (◌∷◌ y) (map-paired-right xs ys (omega (arith, h)))

paired-map : (ps : List (Str × Str)) → paired (map (λ p. p.0) ps) (map (λ p. p.1) ps) ≡ ps
unfolding paired
paired-map [] = refl
paired-map (p ∷ ps) = ap (◌∷◌ p) (paired-map ps)

map-flip-left : (ps : List (Str × Str)) → map (λ p. p.0) (map flip ps) ≡ map (λ p. p.1) ps
map-flip-left [] = refl
map-flip-left (p ∷ ps) = ap (◌∷◌ (p.1)) (map-flip-left ps)

map-flip-right : (ps : List (Str × Str)) → map (λ p. p.1) (map flip ps) ≡ map (λ p. p.0) ps
map-flip-right [] = refl
map-flip-right (p ∷ ps) = ap (◌∷◌ (p.0)) (map-flip-right ps)

pub map-flip-flip : (ps : List (Str × Str)) → map flip (map flip ps) ≡ ps
map-flip-flip [] = refl
map-flip-flip (p ∷ ps) = ap (◌∷◌ p) (map-flip-flip ps)

length-map : (f : Str × Str → Str) (ps : List (Str × Str)) → length (map f ps) ≡ length ps
length-map f [] = refl
length-map f (p ∷ ps) = ap suc (length-map f ps)

-- The test of `_links` on the two sides of a constraint.
abbrev pub uneven : List Str → List Str → Bool
uneven xs ys = not (non_empty xs) || not (length xs == length ys)

pub zip-paired : (xs ys : List Str) → uneven xs ys ≡ false → zip xs ys ≡ some (paired xs ys)
zip-paired xs ys h = zip_even xs ys (ground arith)

pub paired-Pairs : (xs ys : List Str) → uneven xs ys ≡ false → Pairs (paired xs ys) xs ys
unfolding Pairs paired
paired-Pairs [] ys h = absurd (ground arith)
paired-Pairs (x ∷ xs) [] h = absurd (ground arith)
paired-Pairs (x ∷ xs) (y ∷ ys) h =
    let same : length xs ≡ length ys = ground arith in
    (ap (◌∷◌ x) (map-paired-left xs ys same), ap (◌∷◌ y) (map-paired-right xs ys same), refl)

maps-uneven :
    (ps : List (Str × Str))
    → non_empty ps ≡ true
    → uneven (map (λ p. p.0) ps) (map (λ p. p.1) ps) ≡ false
maps-uneven [] h = absurd (ground arith)
maps-uneven (p ∷ ps) h = ground (arith, length-map (λ p. p.0) ps, length-map (λ p. p.1) ps)

pub Pairs-uneven :
    (ps : List (Str × Str)) (xs ys : List Str) → Pairs ps xs ys → uneven xs ys ≡ false
unfolding Pairs
Pairs-uneven ps xs ys h =
    subst (λ zs. uneven zs ys ≡ false) (h.0)
      (subst (λ zs. uneven (map (λ p. p.0) ps) zs ≡ false) (h.1) (maps-uneven ps (h.2)))

pub Pairs-paired : (ps : List (Str × Str)) (xs ys : List Str) → Pairs ps xs ys → ps ≡ paired xs ys
unfolding Pairs
Pairs-paired ps xs ys h = sym (paired-map ps) ∙ ap₂ paired (h.0) (h.1)

pub flip-Pairs :
    (ps : List (Str × Str)) (xs ys : List Str) → Pairs ps xs ys → Pairs (map flip ps) ys xs
unfolding Pairs
flip-Pairs [] xs ys h = absurd (ground (arith, h.2))
flip-Pairs (p ∷ ps) xs ys h = (map-flip-left (p ∷ ps) ∙ h.1, map-flip-right (p ∷ ps) ∙ h.0, refl)
