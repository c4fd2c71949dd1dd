-- ===== src/Clauses.antt =====
-- dialects/base.py: the clause vocabulary of a dialect. Defs has the code; Extend, Without and Offers
-- hold proofs.
pub mod Model
pub mod Defs
pub mod Extend
pub mod Without
pub mod Offers
