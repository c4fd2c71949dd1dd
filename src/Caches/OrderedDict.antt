-- ===== src/Caches/OrderedDict.antt =====
-- `collections.OrderedDict` with `str` keys, as caches/memory.py uses it: the items, oldest first.
use pysqlsuggestions.Prelude.{
  ◌+◌, false, List, [], ◌∷◌, ◌++◌, Option, none, some, Str, length, if◌then◌else◌, text_eq,
  text_eq_iff, text_eq_refl, ◌≡◌, refl, ◌∙◌, arith, Bool-cases, or_else, count_of, inl, inr,
}

pub text_eq_comm : (a b : Str) → text_eq a b ≡ false → text_eq b a ≡ false
text_eq_comm a b h = ground (arith, text_eq_iff a b, text_eq_iff b a)

module _ {ℓ} {V : Type ℓ} where
  -- `d.get(key)`.
  unfoldable pub lookup : Str → List (Str × V) → Option V
  lookup key [] = none
  lookup key ((k, v) ∷ items) = if text_eq k key then some v else lookup key items

  -- `d.pop(key, None)`, without the value.
  unfoldable pub remove : Str → List (Str × V) → List (Str × V)
  remove key [] = []
  remove key ((k, v) ∷ items) =
      let rest = remove key items in if text_eq k key then items else (k, v) ∷ rest

  -- `d[key] = value`: an old key keeps its place, a new one goes to the end.
  unfoldable pub assign : Str → V → List (Str × V) → List (Str × V)
  assign key value [] = (key, value) ∷ []
  assign key value ((k, v) ∷ items) =
      let rest = assign key value items in
      if text_eq k key then (k, value) ∷ items else (k, v) ∷ rest

  append_found : Str → Option V → List (Str × V) → List (Str × V)
  append_found key none items = items
  append_found key (some v) items = items ++ (key, v) ∷ []

  -- `d.move_to_end(key)` for a key that is there.
  unfoldable pub move_to_end : Str → List (Str × V) → List (Str × V)
  unfolding append_found
  move_to_end key items = append_found key (lookup key items) (remove key items)

  -- `d.popitem(last=False)`, without the item.
  unfoldable pub pop_first : List (Str × V) → List (Str × V)
  pop_first [] = []
  pop_first (item ∷ items) = items

  -- No key stands twice.
  abbrev pub Distinct : List (Str × V) → Type ℓ
  Distinct [] = Unit
  Distinct ((k, v) ∷ items) = (lookup k items ≡ none) × Distinct items

  pub lookup-remove_ne :
      (q key : Str) (items : List (Str × V))
      → text_eq key q ≡ false
      → lookup q (remove key items) ≡ lookup q items
  unfolding lookup remove
  lookup-remove_ne q key [] h = refl
  lookup-remove_ne q key ((k, v) ∷ items) h =
      ground (
        arith,
        text_eq_iff k key,
        text_eq_iff k q,
        text_eq_iff key q,
        lookup-remove_ne q key items h,
      )

  pub lookup-remove_self :
      (key : Str) (items : List (Str × V)) → Distinct items → lookup key (remove key items) ≡ none
  unfolding lookup remove
  lookup-remove_self key [] d = refl
  lookup-remove_self key ((k, v) ∷ items) (a, d) = elim (Bool-cases (text_eq k key)) [
    | inl e ↦ let same = (text_eq_iff k key).0 e in rw e (rw same at a)
    | inr e ↦ rw e (rw e (lookup-remove_self key items d))
  ]

  pub remove-Distinct :
      (key : Str) (items : List (Str × V)) → Distinct items → Distinct (remove key items)
  unfolding remove lookup
  remove-Distinct key [] d = d
  remove-Distinct key ((k, v) ∷ items) (a, d) = elim (Bool-cases (text_eq k key)) [
    | inl e ↦ rw e d
    | inr e ↦
        rw e (lookup-remove_ne k key items (text_eq_comm k key e) ∙ a, remove-Distinct key items d)
  ]

  pub lookup-append :
      (q key : Str) (v : V) (items : List (Str × V))
      → lookup q (items ++ (key, v) ∷ [])
        ≡ or_else (lookup q items) (if text_eq key q then some v else none)
  unfolding lookup
  lookup-append q key v [] = refl
  lookup-append q key v ((k, w) ∷ items) = ground (arith, lookup-append q key v items)

  pub append-Distinct :
      (key : Str) (v : V) (items : List (Str × V))
      → Distinct items
      → lookup key items ≡ none
      → Distinct (items ++ (key, v) ∷ [])
  unfolding lookup
  append-Distinct key v [] d h = (refl, tt)
  append-Distinct key v ((k, w) ∷ items) (a, d) h = elim (Bool-cases (text_eq k key)) [
    | inl e ↦ let h' : some w ≡ none = rw e at h in cc
    | inr e ↦ (
      lookup-append k key v items ∙ rw (a, text_eq_comm k key e),
      append-Distinct key v items d (rw e at h),
    )
  ]

  lookup-assign_self :
      (key : Str) (v : V) (items : List (Str × V)) → lookup key (assign key v items) ≡ some v
  unfolding lookup assign
  lookup-assign_self key v [] = rw (text_eq_refl key)
  lookup-assign_self key v ((k, w) ∷ items) = elim (Bool-cases (text_eq k key)) [
    | inl e ↦ rw e (rw e)
    | inr e ↦ rw e (rw e (lookup-assign_self key v items))
  ]

  remove-assign :
      (key : Str) (v : V) (items : List (Str × V))
      → remove key (assign key v items) ≡ remove key items
  unfolding remove assign
  remove-assign key v [] = rw (text_eq_refl key)
  remove-assign key v ((k, w) ∷ items) = elim (Bool-cases (text_eq k key)) [
    | inl e ↦ rw e (rw e)
    | inr e ↦ rw e (rw (e, remove-assign key v items))
  ]

  -- Assigning and then moving to the end is removing and then appending.
  pub move_to_end-assign :
      (key : Str) (v : V) (items : List (Str × V))
      → move_to_end key (assign key v items) ≡ remove key items ++ (key, v) ∷ []
  unfolding move_to_end
  move_to_end-assign key v items = rw (lookup-assign_self, remove-assign)

  pub move_to_end-found :
      (key : Str) (v : V) (items : List (Str × V))
      → lookup key items ≡ some v
      → move_to_end key items ≡ remove key items ++ (key, v) ∷ []
  unfolding move_to_end
  move_to_end-found key v items h = rw h

  pub length-remove :
      (key : Str) (items : List (Str × V))
      → length (remove key items) + count_of (lookup key items) ≡ length items
  unfolding lookup remove
  length-remove key [] = omega arith
  length-remove key ((k, v) ∷ items) = ground (arith, length-remove key items)
