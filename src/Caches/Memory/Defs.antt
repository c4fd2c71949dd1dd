-- ===== src/Caches/Memory/Defs.antt =====
-- caches/memory.py: `MemoryCache`. The clock is read by the caller of each method, before the lock, so
-- a method takes the reading as an argument; one method call is one step, since it holds the lock
-- throughout. Times and seconds are floats in the source, and parameters here.
use pysqlsuggestions.Prelude.{
  ℤ, pos, leb_ℤ, not, ℕ, ◌+◌, Bool, false, List, [], Option, none, some, Str, length, if◌then◌else◌,
}
use pysqlsuggestions.Caches.OrderedDict.{lookup, remove, assign, move_to_end, pop_first}

-- `now + seconds`, and `now >= expires`.
pub record Clock : Type 1 where
  pub Time : Type 0
  pub Seconds : Type 0
  pub after : Time → Seconds → Time
  pub reached : Time → Time → Bool

pub record CacheStats : Type 0 where
  pub hits : ℕ
  pub misses : ℕ
  pub expiries : ℕ
  pub evictions : ℕ
  pub entries : ℕ
  pub maxsize : Option ℤ

module _ (clock : Clock) (V : Type 0) where
  open clock use {Time, Seconds, after, reached}

  abbrev pub Entry : Type 0
  Entry = Option Time × V

  pub record MemoryCache : Type 0 where
    pub entries : List (Str × Entry)
    pub default_ttl : Option Seconds
    pub maxsize : Option ℤ
    pub hits : ℕ
    pub misses : ℕ
    pub expiries : ℕ
    pub evictions : ℕ

  -- `maxsize is not None and maxsize < 1`.
  unfoldable pub too_small : Option ℤ → Bool
  too_small none = false
  too_small (some m) = not (leb_ℤ (pos 1) m)

  abbrev pub fresh : Option Seconds → Option ℤ → MemoryCache
  fresh default_ttl maxsize = record {
    entries = [];
    default_ttl = default_ttl;
    maxsize = maxsize;
    hits = 0;
    misses = 0;
    expiries = 0;
    evictions = 0;
  }

  -- `__init__`; `none` is the ValueError.
  unfoldable pub init : Option Seconds → Option ℤ → Option MemoryCache
  init default_ttl maxsize = if too_small maxsize then none else some (fresh default_ttl maxsize)

  -- `expires is not None and now >= expires`.
  unfoldable pub expired : Option Time → Time → Bool
  expired none now = false
  expired (some expires) now = reached now expires

  unfoldable pub get_found : MemoryCache → Str → Time → Option Entry → MemoryCache × Option V
  get_found c key now none = (record c { misses = c.misses + 1 }, none)
  get_found c key now (some (expires, value)) =
      if expired expires now
      then (
        record c {
          entries = remove key c.entries;
          expiries = c.expiries + 1;
          misses = c.misses + 1;
        },
        none,
      )
      else (record c { entries = move_to_end key c.entries; hits = c.hits + 1 }, some value)

  unfoldable pub get : MemoryCache → Str → Time → MemoryCache × Option V
  get c key now = get_found c key now (lookup key c.entries)

  -- `default if ttl is None else ttl`, and the expiry from it.
  unfoldable pub expiry : Option Seconds → Option Seconds → Time → Option Time
  expiry none none now = none
  expiry none (some seconds) now = some (after now seconds)
  expiry (some seconds) default_ttl now = some (after now seconds)

  -- `self._maxsize is not None and len(self._entries) > self._maxsize`.
  unfoldable pub over : Option ℤ → List (Str × Entry) → Bool
  over none entries = false
  over (some m) entries = not (leb_ℤ (pos (length entries)) m)

  unfoldable pub set : MemoryCache → Str → V → Option Seconds → Time → MemoryCache
  set c key value ttl now =
      let stored = assign key (expiry ttl c.default_ttl now, value) c.entries in
      let moved = move_to_end key stored in
      if over c.maxsize moved
      then record c { entries = pop_first moved; evictions = c.evictions + 1 }
      else record c { entries = moved }

  unfoldable pub delete : MemoryCache → Str → MemoryCache
  delete c key = record c { entries = remove key c.entries }

  unfoldable pub clear : MemoryCache → MemoryCache
  clear c = record c { entries = [] }

  unfoldable pub stats : MemoryCache → CacheStats
  stats c = record {
    hits = c.hits;
    misses = c.misses;
    expiries = c.expiries;
    evictions = c.evictions;
    entries = length c.entries;
    maxsize = c.maxsize;
  }
