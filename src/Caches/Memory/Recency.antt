-- ===== src/Caches/Memory/Recency.antt =====
-- caches/memory.py: that the entries stand in the order of their use, so that a `set` evicts by use.
use pysqlsuggestions.Prelude.{
  ℤ, ℕ, suc, ◌<◌, Bool, true, false, ◌&&◌, ◌||◌, List, [], ◌∷◌, Option, none, some, Str, all, ltb,
  if◌then◌else◌, text_eq, text_eq_iff, ◌≡◌, refl, ap, subst, sym, ◌∙◌, inl, inr, Bool-cases,
  Option-cases, arith,
}
use pysqlsuggestions.Caches.OrderedDict.{
  lookup, remove, lookup-remove_ne, lookup-remove_self, move_to_end-found,
}
use pysqlsuggestions.Caches.Memory.Defs.{
  Clock, Entry, init, expired, get, get_found, over, set, delete, clear,
}
use pysqlsuggestions.Caches.Memory.Invariant.{
  Cache, IsValid, stored, new_entry, set-cases, Call, getting, setting, deleting, clearing, step,
  run, init-fresh, init-IsValid, step_of-IsValid, run_of-IsValid,
}
use pysqlsuggestions.Caches.Memory.Reads.{is_first, lookup-set_ne}
use pysqlsuggestions.Caches.Memory.Ages.{
  OldestFirst, used, younger, remove-OldestFirst, pop_first-OldestFirst, passed-OldestFirst,
  used-OldestFirst, moved-OldestFirst,
}

-- Which item is first, by age: the one of `q`, if all others are younger.
module _ (clock : Clock) (V : Type 0) (age : Str → ℕ) (q : Str) where
  abbrev pub oldest : List (Str × Entry clock V) → Bool
  oldest items = all (λ item. text_eq (item.0) q || ltb (age (item.0)) (age q)) items

  younger-oldest :
      (items : List (Str × Entry clock V))
      → all (younger age (age q)) items ≡ true
      → oldest items ≡ true
  younger-oldest [] h = refl
  younger-oldest ((k, e) ∷ items) h = ground (arith, younger-oldest items)

  found-younger :
      (n : ℕ) (items : List (Str × Entry clock V)) (e : Entry clock V)
      → lookup q items ≡ some e
      → all (younger age n) items ≡ true
      → age q < n
  unfolding lookup
  found-younger n [] e h a = absurd (ground (arith, h))
  found-younger n ((k, w) ∷ items) e h a = elim (Bool-cases (text_eq k q)) [
    | inl x ↦ let same = ap age ((text_eq_iff k q).0 x) in ground (arith, same, a)
    | inr x ↦ found-younger n items e (rw x at h) (ground arith)
  ]

  first-oldest :
      (items : List (Str × Entry clock V)) (e : Entry clock V)
      → OldestFirst age items
      → lookup q items ≡ some e
      → is_first clock V q items ≡ oldest items
  unfolding lookup
  first-oldest [] e h found = absurd (ground (arith, found))
  first-oldest ((k, w) ∷ items) e (a, h) found = elim (Bool-cases (text_eq k q)) [
    | inl x ↦
        let same = (text_eq_iff k q).0 x in
        rw x
          (sym (younger-oldest items (subst (λ t. all (younger age (age t)) items ≡ true) same a)))
    | inr x ↦ let lt = found-younger (age k) items e (rw x at found) a in rw x (ground arith)
  ]

module _ (clock : Clock) (V : Type 0) where
  open clock use {Time, Seconds, after, reached}

  -- How many calls ago a `get` or a `set` last named the key, in calls of which the last is first; all of
  -- them, if none did.
  abbrev pub since : List (Call clock V) → Str → ℕ
  since [] k = 0
  since (getting key now ∷ earlier) k = if text_eq key k then 0 else suc (since earlier k)
  since (setting key v ttl now ∷ earlier) k = if text_eq key k then 0 else suc (since earlier k)
  since (deleting key ∷ earlier) k = suc (since earlier k)
  since (clearing ∷ earlier) k = suc (since earlier k)

  get_found-OldestFirst :
      (c : Cache clock V) (age : Str → ℕ) (key : Str) (now : Time) (o : Option (Entry clock V))
      → lookup key c.entries ≡ o
      → IsValid clock V c
      → OldestFirst age c.entries
      → OldestFirst (used key age) (get_found clock V c key now o).0.entries
  unfolding get_found
  get_found-OldestFirst c age key now none e h o = used-OldestFirst age key c.entries e o
  get_found-OldestFirst c age key now (some (t, v)) e h o =
      let absent = lookup-remove_self key c.entries h.distinct in
      let rest = remove-OldestFirst age key c.entries o in
      elim (Bool-cases (expired clock V t now)) [
        | inl x ↦ rw x (used-OldestFirst age key (remove key c.entries) absent rest)
        | inr x ↦
            rw (x, move_to_end-found key (t, v) c.entries e)
              (moved-OldestFirst age key (t, v) (remove key c.entries) absent rest)
      ]

  set-OldestFirst :
      (c : Cache clock V) (age : Str → ℕ) (key : Str) (v : V) (ttl : Option Seconds) (now : Time)
      → IsValid clock V c
      → OldestFirst age c.entries
      → OldestFirst (used key age) (set clock V c key v ttl now).entries
  set-OldestFirst c age key v ttl now h o =
      let e = new_entry clock V c v ttl now in
      let ys = stored clock V c key e in
      let moved =
        moved-OldestFirst age key e (remove key c.entries)
          (lookup-remove_self key c.entries h.distinct) (remove-OldestFirst age key c.entries o) in
      rw (set-cases clock V c key v ttl now) (elim (Bool-cases (over clock V c.maxsize ys)) [
        | inl full ↦ rw full (pop_first-OldestFirst (used key age) ys moved)
        | inr room ↦ rw room moved
      ])

  step-OldestFirst :
      (earlier : List (Call clock V)) (c : Cache clock V) (call : Call clock V)
      → IsValid clock V c
      → OldestFirst (since earlier) c.entries
      → OldestFirst (since (call ∷ earlier)) (step clock V c call).entries
  unfolding step get delete clear
  step-OldestFirst earlier c (getting key now) h o =
      get_found-OldestFirst c (since earlier) key now (lookup key c.entries) refl h o
  step-OldestFirst earlier c (setting key v ttl now) h o =
      set-OldestFirst c (since earlier) key v ttl now h o
  step-OldestFirst earlier c (deleting key) h o =
      passed-OldestFirst (since earlier) (remove key c.entries)
        (remove-OldestFirst (since earlier) key c.entries o)
  step-OldestFirst earlier c clearing h o = tt

  -- The calls, the last one first, in front of earlier ones.
  abbrev pub onto : List (Call clock V) → List (Call clock V) → List (Call clock V)
  onto earlier [] = earlier
  onto earlier (call ∷ calls) = onto (call ∷ earlier) calls

  run-OldestFirst :
      (calls earlier : List (Call clock V)) (c : Cache clock V)
      → IsValid clock V c
      → OldestFirst (since earlier) c.entries
      → OldestFirst (since (onto earlier calls)) (run clock V c calls).entries
  unfolding run
  run-OldestFirst [] earlier c h o = o
  run-OldestFirst (call ∷ calls) earlier c h o =
      run-OldestFirst calls (call ∷ earlier) (step clock V c call)
        (step_of-IsValid clock V c call h) (step-OldestFirst earlier c call h o)

  -- After all calls on a new cache, a `set` of one key leaves every other key's entry as it was, but for
  -- one: with no room for the key, it evicts the least recently used, which is the key that a `get` or a
  -- `set` has not named for longest, among all keys held but the one that is set.
  pub set-evicts_by_use :
      (default_ttl : Option Seconds) (m : Option ℤ) (calls : List (Call clock V))
      (c : Cache clock V) (key q : Str) (v : V) (ttl : Option Seconds) (now : Time)
      → init clock V default_ttl m ≡ some c
      → text_eq key q ≡ false
      → let held = run clock V c calls in
        let full =
          over clock V held.maxsize (stored clock V held key (new_entry clock V held v ttl now)) in
        let last_used = oldest clock V (since (onto [] calls)) q (remove key held.entries) in
        lookup q (set clock V held key v ttl now).entries
        ≡ (if full && last_used then none else lookup q held.entries)
  set-evicts_by_use default_ttl m calls c key q v ttl now made ne =
      let held = run clock V c calls in
      let age = since (onto [] calls) in
      let valid = run_of-IsValid clock V calls c (init-IsValid clock V default_ttl m made) in
      let start =
        subst (λ (x : Cache clock V). OldestFirst (since []) x.entries)
          (init-fresh clock V default_ttl m made).1 tt in
      let ordered =
        remove-OldestFirst age key held.entries
          (run-OldestFirst calls [] c (init-IsValid clock V default_ttl m made) start) in
      let others = remove key held.entries in
      lookup-set_ne clock V held key q v ttl now valid ne
      ∙ elim (Option-cases (lookup q held.entries)) [
        | inl e ↦ rw e (ground arith)
        | inr (w, e) ↦
            rw
              (first-oldest clock V age q others w ordered
                (lookup-remove_ne q key held.entries ne ∙ e))
              refl
      ]
