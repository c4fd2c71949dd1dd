-- ===== src/Lex.antt =====
-- engine/lex.py: the tokenizer.
pub mod Token
pub mod Scan
pub mod Step
pub mod Bounds
pub mod Found
pub mod Tiles
pub mod Starts
pub mod Names
