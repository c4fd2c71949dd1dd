-- ===== src/Caches/Memory/Invariant.antt =====
-- caches/memory.py: what every sequence of calls keeps, whichever threads they come from.
use pysqlsuggestions.Prelude.{
  ℤ, pos, negsuc, ◌+◌, ◌≤◌, ◌<◌, true, false, List, [], ◌∷◌, ◌++◌, Option, none, some, Str, length,
  length-append, if◌then◌else◌, ◌≡◌, refl, sym, subst, arith, Bool-cases, ap, count_of, inl, inr,
}
use mathlib.Core.Option.{some-injective}
use pysqlsuggestions.Caches.OrderedDict.{
  lookup, remove, pop_first, Distinct, remove-Distinct, lookup-remove_self, append-Distinct,
  move_to_end-assign, move_to_end-found, length-remove,
}
use pysqlsuggestions.Caches.Memory.Defs.{
  Clock, MemoryCache, Entry, fresh, init, too_small, expired, get, get_found, expiry, over, set,
  delete, clear,
}

module _ (clock : Clock) (V : Type 0) where
  open clock use {Time, Seconds, after, reached}

  abbrev pub Cache : Type 0
  Cache = MemoryCache clock V

  -- At least one entry may be held, and no more than that many are.
  abbrev pub Bounded : Option ℤ → List (Str × Entry clock V) → Type 0
  Bounded none entries = Unit
  Bounded (some (pos m)) entries = (1 ≤ m) × (length entries ≤ m)
  Bounded (some (negsuc n)) entries = ⊥

  pub record IsValid (c : Cache) : Type 0 where
    pub distinct : Distinct c.entries
    pub bounded : Bounded c.maxsize c.entries

  Bounded-shorter :
      (m : Option ℤ) (xs ys : List (Str × Entry clock V))
      → length ys ≤ length xs
      → Bounded m xs
      → Bounded m ys
  Bounded-shorter none xs ys h b = tt
  Bounded-shorter (some (pos m)) xs ys h b = omega arith
  Bounded-shorter (some (negsuc n)) xs ys h b = b

  -- The entries of a `set`, before it evicts.
  abbrev pub stored : Cache → Str → Entry clock V → List (Str × Entry clock V)
  stored c key e = remove key c.entries ++ (key, e) ∷ []

  pub stored-Distinct :
      (c : Cache) (key : Str) (e : Entry clock V) → Distinct c.entries → Distinct (stored c key e)
  stored-Distinct c key e d =
      append-Distinct key e (remove key c.entries) (remove-Distinct key c.entries d)
        (lookup-remove_self key c.entries d)

  length-stored-le :
      (c : Cache) (key : Str) (e : Entry clock V) → length (stored c key e) ≤ length c.entries + 1
  length-stored-le c key e =
      omega
        (arith, length-append (remove key c.entries) ((key, e) ∷ []), length-remove key c.entries)

  pop_first-Distinct :
      (items : List (Str × Entry clock V)) → Distinct items → Distinct (pop_first items)
  unfolding pop_first
  pop_first-Distinct [] d = tt
  pop_first-Distinct ((k, v) ∷ items) d = d.1

  length-pop_first :
      (items : List (Str × Entry clock V))
      → 1 ≤ length items
      → length (pop_first items) + 1 ≡ length items
  unfolding pop_first
  length-pop_first [] h = absurd (omega arith)
  length-pop_first (x ∷ items) h = omega arith

  abbrev pub new_entry : Cache → V → Option Seconds → Time → Entry clock V
  new_entry c v ttl now = (expiry clock V ttl c.default_ttl now, v)

  -- What `set` leaves: with room the stored entries, and otherwise those without the oldest.
  pub set-cases :
      (c : Cache) (key : Str) (v : V) (ttl : Option Seconds) (now : Time)
      → set clock V c key v ttl now ≡ (
          if over clock V c.maxsize (stored c key (new_entry c v ttl now))
          then record c {
            entries = pop_first (stored c key (new_entry c v ttl now));
            evictions = c.evictions + 1;
          }
          else record c { entries = stored c key (new_entry c v ttl now) })
  unfolding set
  set-cases c key v ttl now = rw move_to_end-assign

  Bounded-kept :
      (m : Option ℤ) (xs ys : List (Str × Entry clock V))
      → Bounded m xs
      → length ys ≤ length xs + 1
      → over clock V m ys ≡ false
      → Bounded m ys
  unfolding over
  Bounded-kept none xs ys b h e = tt
  Bounded-kept (some (pos m)) xs ys b h e = ground arith
  Bounded-kept (some (negsuc n)) xs ys b h e = b

  Bounded-evicted :
      (m : Option ℤ) (xs ys : List (Str × Entry clock V))
      → Bounded m xs
      → length ys ≤ length xs + 1
      → over clock V m ys ≡ true
      → Bounded m (pop_first ys)
  unfolding over
  Bounded-evicted none xs ys b h e = tt
  Bounded-evicted (some (negsuc n)) xs ys b h e = b
  Bounded-evicted (some (pos m)) xs ys b h e =
      let more : m < length ys = ground arith in omega (arith, length-pop_first ys (omega arith))

  pub set-IsValid :
      (c : Cache) (key : Str) (v : V) (ttl : Option Seconds) (now : Time)
      → IsValid c
      → IsValid (set clock V c key v ttl now)
  set-IsValid c key v ttl now h =
      let e = new_entry c v ttl now in
      let ys = stored c key e in
      let size = length-stored-le c key e in
      let d = stored-Distinct c key e h.distinct in
      subst IsValid (sym (set-cases c key v ttl now))
        (elim (Bool-cases (over clock V c.maxsize ys)) [
          | inl full ↦ rw full (record {
            distinct = pop_first-Distinct ys d;
            bounded = Bounded-evicted c.maxsize c.entries ys h.bounded size full;
          })
          | inr room ↦ rw room (record {
            distinct = d;
            bounded = Bounded-kept c.maxsize c.entries ys h.bounded size room;
          })
        ])

  get_found-IsValid :
      (c : Cache) (key : Str) (now : Time) (o : Option (Entry clock V))
      → lookup key c.entries ≡ o
      → IsValid c
      → IsValid (get_found clock V c key now o).0
  unfolding get_found
  get_found-IsValid c key now none e h = record { distinct = h.distinct; bounded = h.bounded }
  get_found-IsValid c key now (some (t, v)) e h =
      let size = length-remove key c.entries in
      let one = ap count_of e in
      let longer = length-append (remove key c.entries) ((key, (t, v)) ∷ []) in
      elim (Bool-cases (expired clock V t now)) [
        | inl x ↦ rw x (record {
          distinct = remove-Distinct key c.entries h.distinct;
          bounded = Bounded-shorter c.maxsize c.entries _ (omega (arith, size)) h.bounded;
        })
        | inr x ↦
            rw (x, move_to_end-found key (t, v) c.entries e)
              (record {
                distinct = stored-Distinct c key (t, v) h.distinct;
                bounded =
                    Bounded-shorter c.maxsize c.entries _ (omega (arith, size, longer)) h.bounded;
              })
      ]

  get-IsValid : (c : Cache) (key : Str) (now : Time) → IsValid c → IsValid (get clock V c key now).0
  unfolding get
  get-IsValid c key now h = get_found-IsValid c key now (lookup key c.entries) refl h

  delete-IsValid : (c : Cache) (key : Str) → IsValid c → IsValid (delete clock V c key)
  unfolding delete
  delete-IsValid c key h = record {
    distinct = remove-Distinct key c.entries h.distinct;
    bounded =
        Bounded-shorter c.maxsize c.entries (remove key c.entries)
          (omega (arith, length-remove key c.entries)) h.bounded;
  }

  clear-IsValid : (c : Cache) → IsValid c → IsValid (clear clock V c)
  unfolding clear
  clear-IsValid c h = record {
    distinct = tt;
    bounded = Bounded-shorter c.maxsize c.entries [] (omega arith) h.bounded;
  }

  pub init-fresh :
      (ttl : Option Seconds) (m : Option ℤ) {c : Cache}
      → init clock V ttl m ≡ some c
      → (too_small clock V m ≡ false) × (fresh clock V ttl m ≡ c)
  unfolding init
  init-fresh ttl m {c} e = elim (Bool-cases (too_small clock V m)) [
    | inl small ↦ let e' : none ≡ some c = rw small at e in cc
    | inr room ↦ (room, some-injective _ _ (rw room at e))
  ]

  fresh-Bounded : (m : Option ℤ) → too_small clock V m ≡ false → Bounded m []
  unfolding too_small
  fresh-Bounded none e = tt
  fresh-Bounded (some (pos m)) e = ground arith
  fresh-Bounded (some (negsuc n)) e = absurd (ground (arith, e))

  pub init-IsValid :
      (ttl : Option Seconds) (m : Option ℤ) {c : Cache} → init clock V ttl m ≡ some c → IsValid c
  init-IsValid ttl m e =
      let (room, same) = init-fresh ttl m e in
      subst IsValid same (record { distinct = tt; bounded = fresh-Bounded m room })

  -- A method call, with the clock reading that it takes first.
  pub data Call : Type 0 where
    getting : Str → Time → Call
    setting : Str → V → Option Seconds → Time → Call
    deleting : Str → Call
    clearing : Call

  unfoldable pub step : Cache → Call → Cache
  step c (getting key now) = (get clock V c key now).0
  step c (setting key v ttl now) = set clock V c key v ttl now
  step c (deleting key) = delete clock V c key
  step c clearing = clear clock V c

  -- The calls in the order in which they hold the lock.
  unfoldable pub run : Cache → List Call → Cache
  run c [] = c
  run c (call ∷ calls) = run (step c call) calls

  pub step_of-IsValid : (c : Cache) (call : Call) → IsValid c → IsValid (step c call)
  unfolding step
  step_of-IsValid c (getting key now) h = get-IsValid c key now h
  step_of-IsValid c (setting key v ttl now) h = set-IsValid c key v ttl now h
  step_of-IsValid c (deleting key) h = delete-IsValid c key h
  step_of-IsValid c clearing h = clear-IsValid c h

  pub run_of-IsValid : (calls : List Call) (c : Cache) → IsValid c → IsValid (run c calls)
  unfolding run
  run_of-IsValid [] c h = h
  run_of-IsValid (call ∷ calls) c h = run_of-IsValid calls (step c call) (step_of-IsValid c call h)

  -- From a new cache, every sequence of calls, in whatever order threads take the lock, leaves no key
  -- twice and never more than `maxsize` entries, which is at least one.
  pub run-IsValid :
      (ttl : Option Seconds) (m : Option ℤ) (calls : List Call) (c : Cache)
      → init clock V ttl m ≡ some c
      → IsValid (run c calls)
  run-IsValid ttl m calls c e = run_of-IsValid calls c (init-IsValid ttl m e)
