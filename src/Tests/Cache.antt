-- ===== src/Tests/Cache.antt =====
-- `MemoryCache` and `cache_key` at concrete inputs.
use pysqlsuggestions.Prelude.{
  pos, negsuc, ◌&&◌, ℕ, zero, suc, ◌+◌, ◌≤◌, List, [], ◌∷◌, Option, none, some, Str, codes, leb,
  if◌then◌else◌, text_eq, ◌≡◌, refl, sym, ap, ◌∙◌, arith,
}
use pysqlsuggestions.Caches.OrderedDict.{lookup, remove, assign, move_to_end, pop_first}
use pysqlsuggestions.Caches.Memory.Defs.{
  Clock, fresh, too_small, init, expired, expiry, get, get_found, over, set, delete, clear, stats,
}
use pysqlsuggestions.Caches.Memory.Invariant.{
  Cache, IsValid, stored, Call, getting, setting, new_entry, step, run, run-IsValid,
}
use pysqlsuggestions.Caches.Memory.Reads.{live, get-live, lookup-get_ne, get-set}
use pysqlsuggestions.Caches.Memory.Recency.{oldest, since, onto, set-evicts_by_use}
use pysqlsuggestions.Caches.Memory.Counts.{gets, stats-run}
use pysqlsuggestions.Caches.Keys.Defs.{columns}
use pysqlsuggestions.Caches.Keys.ReadBack.{AllBytes}
use pysqlsuggestions.Caches.Keys.Injective.{IsEncoding, cache_key-injective}

program : Unit {0}
unfolding lookup remove assign move_to_end pop_first too_small init expired expiry get get_found
    over set delete clear step run text_eq
program = tt

-- Whole seconds.
abbrev seconds : Clock
seconds = record {
  Time = ℕ;
  Seconds = ℕ;
  after = λ now s. now + s;
  reached = λ now expires. leb expires now;
}

abbrev empty : Cache seconds ℕ
empty = fresh seconds ℕ (some 300) (some (pos 2))

abbrev calls : List (Call seconds ℕ)
calls =
    setting (codes "a") 1 none 0
    ∷ setting (codes "b") 2 (some 5) 0
    ∷ getting (codes "a") 3
    ∷ setting (codes "c") 3 none 4
    ∷ getting (codes "b") 4
    ∷ []

-- No room at all, or less, is refused.
refused :
    (init seconds ℕ none (some (pos 0)) ≡ none) × (init seconds ℕ none (some (negsuc 4)) ≡ none)
unfolding program
refused = (refl, refl)

made : init seconds ℕ (some 300) (some (pos 2)) ≡ some empty
unfolding program
made = refl

-- `b` was the least recently used, and made room for `c`.
full : Cache seconds ℕ
full = run seconds ℕ empty calls

full-lookup :
    (lookup (codes "b") full.entries ≡ none)
    × (lookup (codes "a") full.entries ≡ some (some 300, 1))
    × (lookup (codes "c") full.entries ≡ some (some 304, 3))
unfolding program full
full-lookup = (refl, refl, refl)

run-IsValid_example : IsValid seconds ℕ (run seconds ℕ empty calls)
run-IsValid_example = run-IsValid seconds ℕ (some 300) (some (pos 2)) calls empty made

abbrev after_calls : Cache seconds ℕ
after_calls = run seconds ℕ empty calls

valid : IsValid seconds ℕ after_calls
valid = run-IsValid seconds ℕ (some 300) (some (pos 2)) calls empty made

get-live_example :
    ((get seconds ℕ after_calls (codes "a") 310).1
      ≡ live seconds ℕ (lookup (codes "a") after_calls.entries) 310)
    × (live seconds ℕ (lookup (codes "a") (get seconds ℕ after_calls (codes "a") 310).0.entries) 310
        ≡ live seconds ℕ (lookup (codes "a") after_calls.entries) 310)
get-live_example = get-live seconds ℕ after_calls (codes "a") 310 valid

lookup-get_ne_example :
    lookup (codes "c") (get seconds ℕ after_calls (codes "a") 310).0.entries
    ≡ lookup (codes "c") after_calls.entries
unfolding program
lookup-get_ne_example = lookup-get_ne seconds ℕ after_calls (codes "a") (codes "c") 310 valid refl

get-set_example :
    (get seconds ℕ (set seconds ℕ after_calls (codes "d") 4 (some 5) 10) (codes "d") 14).1 ≡ some 4
unfolding program
get-set_example = get-set seconds ℕ after_calls (codes "d") 4 (some 5) 10 14 valid refl

-- The `get` of `b` found nothing and used nothing that is held, so `a` goes: `c` was set behind its last use.
set-evicts_by_use_example :
    lookup (codes "a") (set seconds ℕ after_calls (codes "d") 4 none 10).entries ≡ (
      if over seconds ℕ after_calls.maxsize
          (stored seconds ℕ after_calls (codes "d") (new_entry seconds ℕ after_calls 4 none 10))
        && oldest seconds ℕ
            (since seconds ℕ (onto seconds ℕ [] calls))
            (codes "a")
            (remove (codes "d") after_calls.entries)
      then none
      else lookup (codes "a") after_calls.entries)
unfolding program
set-evicts_by_use_example =
    set-evicts_by_use seconds ℕ (some 300) (some (pos 2)) calls empty (codes "d") (codes "a") 4 none
      10 made refl

stats-run_example :
    ((stats seconds ℕ after_calls).hits + (stats seconds ℕ after_calls).misses
      ≡ gets seconds ℕ calls)
    × ((stats seconds ℕ after_calls).expiries ≤ (stats seconds ℕ after_calls).misses)
stats-run_example = stats-run seconds ℕ (some 300) (some (pos 2)) calls empty made

-- A stand-in for UTF-8: each code point in unary.
ones : ℕ → List ℕ → List ℕ
ones zero rest = 0 ∷ rest
ones (suc n) rest = 1 ∷ ones n rest

unary : Str → List ℕ
unary [] = []
unary (c ∷ cs) = ones c (unary cs)

ones-AllBytes : (n : ℕ) (rest : List ℕ) → AllBytes rest → AllBytes (ones n rest)
unfolding ones
ones-AllBytes zero rest h = (omega arith, h)
ones-AllBytes (suc n) rest h = (omega arith, ones-AllBytes n rest h)

unary-AllBytes : (s : Str) → AllBytes (unary s)
unfolding unary
unary-AllBytes [] = tt
unary-AllBytes (c ∷ cs) = ones-AllBytes c (unary cs) (unary-AllBytes cs)

abbrev count_up : List ℕ → Str
count_up [] = []
count_up (n ∷ ns) = suc n ∷ ns

read_unary : List ℕ → Str
read_unary [] = []
read_unary (zero ∷ bs) = 0 ∷ read_unary bs
read_unary (suc b ∷ bs) = count_up (read_unary bs)

read-ones : (n : ℕ) (rest : List ℕ) → read_unary (ones n rest) ≡ n ∷ read_unary rest
unfolding ones read_unary
read-ones zero rest = refl
read-ones (suc n) rest = ap count_up (read-ones n rest)

read-unary : (s : Str) → read_unary (unary s) ≡ s
unfolding unary
read-unary [] = unfold read_unary in refl
read-unary (c ∷ cs) = read-ones c (unary cs) ∙ ap (◌∷◌ c) (read-unary cs)

unary-IsEncoding : IsEncoding unary (codes "0a1b2c3d")
unary-IsEncoding = record {
  bytes = unary-AllBytes;
  injective = λ s t e. sym (read-unary s) ∙ ap read_unary e ∙ read-unary t;
  digest = refl;
}

abbrev path : List (Option Str)
path = some (codes "public") ∷ some (codes "a:b") ∷ none ∷ []

cache_key-injective_example :
    (some (codes "analyst") ≡ some (codes "analyst"))
    × (codes "postgres" ≡ codes "postgres")
    × (columns ≡ columns)
    × (path ≡ path)
cache_key-injective_example =
    cache_key-injective unary (codes "0a1b2c3d") unary-IsEncoding (some (codes "analyst"))
      (some (codes "analyst")) (codes "postgres") (codes "postgres") columns columns path path refl
