-- ===== src/Quote.antt =====
-- engine/rank.py: how an identifier is written.
pub mod Defs
pub mod ReadBack
