-- ===== src/Caches/Memory.antt =====
-- caches/memory.py.
pub mod Defs
pub mod Invariant
pub mod Reads
pub mod Ages
pub mod Recency
pub mod Counts
