-- ===== src/Joins.antt =====
-- engine/joins.py: join proposals from declared foreign keys. Defs, Text and Clauses have the code, the
-- other files hold proofs.
pub mod Defs
pub mod Text
pub mod Clauses
pub mod Pairs
pub mod Described
pub mod Links
pub mod FreeAlias
pub mod Each
pub mod Proposals
pub mod Grounds
pub mod Withheld
