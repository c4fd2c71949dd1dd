-- ===== src/Datatypes.antt =====
-- engine/datatypes.py: families of types, and the literals of a type. Defs has the code, Labels a proof.
pub mod Defs
pub mod Labels
