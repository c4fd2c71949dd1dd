-- ===== src/Caches/Memory/Reads.antt =====
-- caches/memory.py: what a `get` answers, and what each call leaves for later ones.
use pysqlsuggestions.Prelude.{
  ℤ, pos, negsuc, ◌≤◌, Bool, true, false, List, [], ◌∷◌, ◌++◌, Option, none, some, Str, length,
  if◌then◌else◌, text_eq, text_eq_refl, ◌≡◌, refl, ap, ◌∙◌, length-append, ◌&&◌, text_eq_iff, arith,
  Bool-cases, or_else-none, inl, inr,
}
use pysqlsuggestions.Caches.OrderedDict.{
  lookup, remove, pop_first, Distinct, lookup-remove_ne, lookup-remove_self, lookup-append,
  move_to_end-found,
}
use pysqlsuggestions.Caches.Memory.Defs.{
  Clock, MemoryCache, Entry, expired, get, get_found, expiry, over, set,
}
use pysqlsuggestions.Caches.Memory.Invariant.{
  Cache, IsValid, stored, stored-Distinct, new_entry, set-cases, Bounded, set-IsValid,
}

module _ (clock : Clock) (V : Type 0) where
  open clock use {Time, Seconds, after, reached}

  -- What a reader may be given for an entry at the time `now`.
  abbrev pub live : Option (Entry clock V) → Time → Option V
  live none now = none
  live (some (t, v)) now = if expired clock V t now then none else some v

  lookup-stored_self :
      (c : Cache clock V) (key : Str) (e : Entry clock V)
      → IsValid clock V c
      → lookup key (stored clock V c key e) ≡ some e
  lookup-stored_self c key e h =
      lookup-append key key e (remove key c.entries)
      ∙ rw (lookup-remove_self key c.entries h.distinct, text_eq_refl key)

  lookup-stored_ne :
      (c : Cache clock V) (q key : Str) (e : Entry clock V)
      → text_eq key q ≡ false
      → lookup q (stored clock V c key e) ≡ lookup q c.entries
  lookup-stored_ne c q key e ne =
      lookup-append q key e (remove key c.entries)
      ∙ rw (lookup-remove_ne q key c.entries ne, ne) (or_else-none (lookup q c.entries))

  -- A `get` of `key`, where `o` is what the dictionary has for it, and what a later look at `q` sees.
  abbrev pub Answers : Cache clock V → Str → Str → Time → MemoryCache clock V × Option V → Type 0
  Answers c key q now (c', answer) =
      (answer ≡ live (lookup key c.entries) now)
      × (text_eq key q ≡ false → lookup q c'.entries ≡ lookup q c.entries)
      × (live (lookup key c'.entries) now ≡ live (lookup key c.entries) now)

  get_found-Answers :
      (c : Cache clock V) (key q : Str) (now : Time) (o : Option (Entry clock V))
      → IsValid clock V c
      → lookup key c.entries ≡ o
      → Answers c key q now (get_found clock V c key now o)
  unfolding get_found
  get_found-Answers c key q now none h e = (rw e, λ ne. refl, refl)
  get_found-Answers c key q now (some (t, v)) h e =
      let gone = lookup-remove_self key c.entries h.distinct in
      let moved = move_to_end-found key (t, v) c.entries e in
      elim (Bool-cases (expired clock V t now)) [
        | inl x ↦ rw x (rw e (rw x), λ ne. lookup-remove_ne q key c.entries ne, rw (gone, e) (rw x))
        | inr x ↦ rw x (
          rw e (rw x),
          λ ne. ap (lookup q) moved ∙ lookup-stored_ne c q key (t, v) ne,
          ap (λ l. live (lookup key l) now) moved ∙ rw (lookup-stored_self c key (t, v) h, e),
        )
      ]

  -- On a valid cache, `get` answers with the value of the key's entry if it has not expired, and with
  -- nothing otherwise, and a second look at the key at that time sees the same.
  pub get-live :
      (c : Cache clock V) (key : Str) (now : Time)
      → IsValid clock V c
      → ((get clock V c key now).1 ≡ live (lookup key c.entries) now)
        × (live (lookup key (get clock V c key now).0.entries) now
            ≡ live (lookup key c.entries) now)
  unfolding get
  get-live c key now h =
      let (answer, _, again) = get_found-Answers c key key now (lookup key c.entries) h refl in
      (answer, again)

  -- On a valid cache, `get` leaves the entry of every other key as it was.
  pub lookup-get_ne :
      (c : Cache clock V) (key q : Str) (now : Time)
      → IsValid clock V c
      → text_eq key q ≡ false
      → lookup q (get clock V c key now).0.entries ≡ lookup q c.entries
  unfolding get
  lookup-get_ne c key q now h ne =
      (get_found-Answers c key q now (lookup key c.entries) h refl).1 ne

  lookup-pop_first_last :
      (key : Str) (e : Entry clock V) (xs : List (Str × Entry clock V))
      → lookup key xs ≡ none
      → 1 ≤ length xs
      → lookup key (pop_first (xs ++ (key, e) ∷ [])) ≡ some e
  unfolding pop_first lookup
  lookup-pop_first_last key e [] n h = absurd (omega arith)
  lookup-pop_first_last key e ((k, w) ∷ xs) n h = elim (Bool-cases (text_eq k key)) [
    | inl y ↦ let n' : some w ≡ none = rw y at n in cc
    | inr y ↦ lookup-append key key e xs ∙ rw (text_eq_refl key) (rw (rw y at n))
  ]

  over-longer :
      (m : Option ℤ) (xs ys : List (Str × Entry clock V))
      → Bounded clock V m xs
      → over clock V m ys ≡ true
      → 2 ≤ length ys
  unfolding over
  over-longer none xs ys b e = cc
  over-longer (some (pos m)) xs ys b e = ground arith
  over-longer (some (negsuc n)) xs ys b e = absurd b

  lookup-set_self :
      (c : Cache clock V) (key : Str) (v : V) (ttl : Option Seconds) (now : Time)
      → IsValid clock V c
      → lookup key (set clock V c key v ttl now).entries ≡ some (new_entry clock V c v ttl now)
  lookup-set_self c key v ttl now h =
      let e = new_entry clock V c v ttl now in
      let ys = stored clock V c key e in
      let size = length-append (remove key c.entries) ((key, e) ∷ []) in
      rw (set-cases clock V c key v ttl now) (elim (Bool-cases (over clock V c.maxsize ys)) [
        | inr room ↦ rw room (lookup-stored_self c key e h)
        | inl full ↦
            let two = over-longer c.maxsize c.entries ys h.bounded full in
            rw full (
              lookup-pop_first_last key e (remove key c.entries)
                (lookup-remove_self key c.entries h.distinct) (omega arith))
      ])

  -- On a valid cache: a value just stored is what a `get` of its key answers, at any time at which
  -- its own `ttl`, or else the cache's default, has not run out. So a `set` never evicts what it stores.
  pub get-set :
      (c : Cache clock V) (key : Str) (v : V) (ttl : Option Seconds) (now later : Time)
      → IsValid clock V c
      → expired clock V (expiry clock V ttl c.default_ttl now) later ≡ false
      → (get clock V (set clock V c key v ttl now) key later).1 ≡ some v
  get-set c key v ttl now later h fresh =
      let valid = set-IsValid clock V c key v ttl now h in
      (get-live (set clock V c key v ttl now) key later valid).0
      ∙ rw (lookup-set_self c key v ttl now h, fresh)

  -- The item is the first.
  abbrev pub is_first : Str → List (Str × Entry clock V) → Bool
  is_first q [] = false
  is_first q ((k, e) ∷ items) = text_eq k q

  -- A `set` of `key` evicts `q`: the cache is full without `key`, and `q` is the first key but `key`.
  abbrev pub evicts : Cache clock V → Str → Entry clock V → Str → Bool
  evicts c key e q =
      over clock V c.maxsize (stored clock V c key e) && is_first q (remove key c.entries)

  lookup-pop_first :
      (q : Str) (items : List (Str × Entry clock V))
      → Distinct items
      → lookup q (pop_first items) ≡ (if is_first q items then none else lookup q items)
  unfolding pop_first lookup
  lookup-pop_first q [] d = refl
  lookup-pop_first q ((k, e) ∷ items) d = elim (Bool-cases (text_eq k q)) [
    | inr x ↦ rw x
    | inl x ↦ rw x (rw ((text_eq_iff k q).0 x) at d.0)
  ]

  is_first-append :
      (q : Str) (x : Str × Entry clock V) (items : List (Str × Entry clock V))
      → 1 ≤ length items
      → is_first q (items ++ x ∷ []) ≡ is_first q items
  is_first-append q x [] h = absurd (omega arith)
  is_first-append q x ((k, e) ∷ items) h = refl

  -- On a valid cache, a `set` of one key leaves every other key's entry as it was, but for the first
  -- of them in the dictionary, when there is no room.
  pub lookup-set_ne :
      (c : Cache clock V) (key q : Str) (v : V) (ttl : Option Seconds) (now : Time)
      → IsValid clock V c
      → text_eq key q ≡ false
      → lookup q (set clock V c key v ttl now).entries
        ≡ (if evicts c key (new_entry clock V c v ttl now) q then none else lookup q c.entries)
  lookup-set_ne c key q v ttl now h ne =
      let e = new_entry clock V c v ttl now in
      let ys = stored clock V c key e in
      let size = length-append (remove key c.entries) ((key, e) ∷ []) in
      rw (set-cases clock V c key v ttl now) (elim (Bool-cases (over clock V c.maxsize ys)) [
        | inr room ↦ rw room (lookup-stored_ne c q key e ne)
        | inl full ↦
            let two = over-longer c.maxsize c.entries ys h.bounded full in
            rw full (
              lookup-pop_first q ys (stored-Distinct clock V c key e h.distinct)
              ∙ rw (
                is_first-append q (key, e) (remove key c.entries) (omega arith),
                lookup-stored_ne c q key e ne,
              ))
      ])
