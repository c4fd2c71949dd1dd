-- ===== src/Caches/Memory/Counts.antt =====
-- caches/memory.py: the counters that `stats` reports.
use pysqlsuggestions.Prelude.{
  ℤ, ℕ, suc, ◌+◌, ◌≤◌, List, [], ◌∷◌, Option, some, ◌≡◌, sym, ap, subst, ◌∙◌, arith,
}
use pysqlsuggestions.Caches.Memory.Defs.{
  Clock, fresh, init, get, get_found, set, delete, clear, stats,
}
use pysqlsuggestions.Caches.Memory.Invariant.{
  Cache, Call, getting, setting, deleting, clearing, step, run, init-fresh,
}

module _ (clock : Clock) (V : Type 0) where
  open clock use {Time, Seconds}

  -- How many of the calls are `get`s.
  abbrev pub gets : List (Call clock V) → ℕ
  gets [] = 0
  gets (getting key now ∷ calls) = suc (gets calls)
  gets (_ ∷ calls) = gets calls

  record Counts (c c' : Cache clock V) (n : ℕ) : Type 0 where
    pub reads : c'.hits + c'.misses ≡ c.hits + c.misses + n
    pub late : c'.expiries + c.misses ≤ c.expiries + c'.misses
    pub grow : c.expiries ≤ c'.expiries

  step-Counts :
      (c : Cache clock V) (call : Call clock V) → Counts c (step clock V c call) (gets (call ∷ []))
  unfolding step get get_found set delete clear
  step-Counts c (getting key now) = ground arith
  step-Counts c (setting key v ttl now) = ground arith
  step-Counts c (deleting key) = ground arith
  step-Counts c clearing = ground arith

  gets-cons :
      (call : Call clock V) (calls : List (Call clock V))
      → gets (call ∷ calls) ≡ gets (call ∷ []) + gets calls
  gets-cons (getting key now) calls = omega arith
  gets-cons _ calls = omega arith

  run-Counts :
      (calls : List (Call clock V)) (c : Cache clock V)
      → Counts c (run clock V c calls) (gets calls)
  unfolding run
  run-Counts [] c = ground arith
  run-Counts (call ∷ calls) c =
      let a = step-Counts c call in
      let b = run-Counts calls (step clock V c call) in
      let sum = gets-cons call calls in
      record { reads = omega arith; late = omega arith; grow = omega arith }

  -- From a new cache, after any sequence of calls: `stats` reports as many hits and misses as there
  -- were `get`s, and no more expiries than misses.
  pub stats-run :
      (ttl : Option Seconds) (m : Option ℤ) (calls : List (Call clock V)) (c : Cache clock V)
      → init clock V ttl m ≡ some c
      → ((stats clock V (run clock V c calls)).hits + (stats clock V (run clock V c calls)).misses
          ≡ gets calls)
        × ((stats clock V (run clock V c calls)).expiries
            ≤ (stats clock V (run clock V c calls)).misses)
  unfolding stats
  stats-run ttl m calls c e =
      let r = run-Counts calls (fresh clock V ttl m) in
      let same = (init-fresh clock V ttl m e).1 in
      let final = λ (c : Cache clock V). run clock V c calls in
      (
        ap (λ (c : Cache clock V). (final c).hits + (final c).misses) (sym same) ∙ omega arith,
        subst (λ (c : Cache clock V). (final c).expiries ≤ (final c).misses) same (omega arith),
      )
