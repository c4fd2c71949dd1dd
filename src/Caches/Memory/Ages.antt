-- ===== src/Caches/Memory/Ages.antt =====
-- caches/memory.py: items in the order of an age of their keys, and the calls of `OrderedDict`.
use pysqlsuggestions.Prelude.{
  ℕ, suc, Bool, true, false, List, [], ◌∷◌, ◌++◌, none, some, Str, all, ltb, if◌then◌else◌, text_eq,
  text_eq_refl, ◌≡◌, refl, inl, inr, Bool-cases, arith,
}
use pysqlsuggestions.Caches.OrderedDict.{text_eq_comm, lookup, remove, pop_first}

-- The ages after a call that names no key, and after one that uses `key`.
abbrev pub passed : (Str → ℕ) → Str → ℕ
passed age k = suc (age k)

abbrev pub used : Str → (Str → ℕ) → Str → ℕ
used key age k = if text_eq key k then 0 else suc (age k)

-- Lists of items against a measure of age of their keys.
module _ {E : Type 0} where
  abbrev pub younger : (Str → ℕ) → ℕ → Str × E → Bool
  younger age n item = ltb (age (item.0)) n

  -- Each item is older than all behind it.
  abbrev pub OldestFirst : (Str → ℕ) → List (Str × E) → Type 0
  OldestFirst age [] = Unit
  OldestFirst age ((k, e) ∷ items) =
      (all (younger age (age k)) items ≡ true) × OldestFirst age items

  pub all-remove :
      (p : Str × E → Bool) (key : Str) (items : List (Str × E))
      → all p items ≡ true
      → all p (remove key items) ≡ true
  unfolding remove
  all-remove p key [] h = refl
  all-remove p key ((k, e) ∷ items) h = ground (arith, all-remove p key items)

  pub remove-OldestFirst :
      (age : Str → ℕ) (key : Str) (items : List (Str × E))
      → OldestFirst age items
      → OldestFirst age (remove key items)
  unfolding remove
  remove-OldestFirst age key [] h = tt
  remove-OldestFirst age key ((k, e) ∷ items) (a, h) = elim (Bool-cases (text_eq k key)) [
    | inl x ↦ rw x h
    | inr x ↦
        rw x (all-remove (younger age (age k)) key items a, remove-OldestFirst age key items h)
  ]

  pub pop_first-OldestFirst :
      (age : Str → ℕ) (items : List (Str × E))
      → OldestFirst age items
      → OldestFirst age (pop_first items)
  unfolding pop_first
  pop_first-OldestFirst age [] h = tt
  pop_first-OldestFirst age ((k, e) ∷ items) h = h.1

  all-passed :
      (age : Str → ℕ) (n : ℕ) (items : List (Str × E))
      → all (younger age n) items ≡ true
      → all (younger (passed age) (suc n)) items ≡ true
  all-passed age n [] h = refl
  all-passed age n ((k, e) ∷ items) h = ground (arith, all-passed age n items)

  pub passed-OldestFirst :
      (age : Str → ℕ) (items : List (Str × E))
      → OldestFirst age items
      → OldestFirst (passed age) items
  passed-OldestFirst age [] h = tt
  passed-OldestFirst age ((k, e) ∷ items) (a, h) =
      (all-passed age (age k) items a, passed-OldestFirst age items h)

  other-key :
      (key k : Str) (e : E) (items : List (Str × E))
      → lookup key ((k, e) ∷ items) ≡ none
      → (text_eq key k ≡ false) × (lookup key items ≡ none)
  unfolding lookup
  other-key key k e items h = elim (Bool-cases (text_eq k key)) [
    | inl x ↦ let clash : some e ≡ none = rw x at h in absurd (ground (arith, clash))
    | inr x ↦ (text_eq_comm k key x, rw x at h)
  ]

  all-used :
      (age : Str → ℕ) (key : Str) (n : ℕ) (items : List (Str × E))
      → lookup key items ≡ none
      → all (younger age n) items ≡ true
      → all (younger (used key age) (suc n)) items ≡ true
  all-used age key n [] absent h = refl
  all-used age key n ((k, e) ∷ items) absent h =
      let (other, rest) = other-key key k e items absent in
      rw other (ground (arith, all-used age key n items rest))

  pub used-OldestFirst :
      (age : Str → ℕ) (key : Str) (items : List (Str × E))
      → lookup key items ≡ none
      → OldestFirst age items
      → OldestFirst (used key age) items
  used-OldestFirst age key [] absent h = tt
  used-OldestFirst age key ((k, e) ∷ items) absent (a, h) =
      let (other, rest) = other-key key k e items absent in
      rw other (all-used age key (age k) items rest a, used-OldestFirst age key items rest h)

  all-last :
      (p : Str × E → Bool) (items : List (Str × E)) (x : Str × E)
      → all p items ≡ true
      → p x ≡ true
      → all p (items ++ x ∷ []) ≡ true
  all-last p [] x h hx = ground (arith, hx)
  all-last p (y ∷ items) x h hx = ground (arith, all-last p items x, hx)

  -- A key that is used goes to the end.
  pub moved-OldestFirst :
      (age : Str → ℕ) (key : Str) (e : E) (items : List (Str × E))
      → lookup key items ≡ none
      → OldestFirst age items
      → OldestFirst (used key age) (items ++ (key, e) ∷ [])
  moved-OldestFirst age key e [] absent h = (refl, tt)
  moved-OldestFirst age key e ((k, w) ∷ items) absent (a, h) =
      let (other, rest) = other-key key k w items absent in
      rw other (
        all-last (younger (used key age) (suc (age k))) items (key, e)
            (all-used age key (age k) items rest a) (rw (text_eq_refl key) (ground arith)),
        moved-OldestFirst age key e items rest h,
      )
