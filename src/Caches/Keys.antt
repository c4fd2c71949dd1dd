-- ===== src/Caches/Keys.antt =====
-- caches/keys.py.
pub mod Defs
pub mod ReadBack
pub mod Injective
