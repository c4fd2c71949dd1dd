-- ===== src/Rank.antt =====
-- engine/rank.py: scoring, ordering and cutting the candidates.
pub mod Match
pub mod Render
pub mod Defs
pub mod Prefix
pub mod Shortlist
pub mod Limit
pub mod Distinct
pub mod Sunk
pub mod Present
pub mod Narrowing
pub mod Accepts
