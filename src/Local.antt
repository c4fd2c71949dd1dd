-- ===== src/Local.antt =====
-- engine/local.py: the candidates that the statement itself holds.
pub mod Defs
pub mod Aliases
