-- ===== src/Requests.antt =====
-- engine/request.py: what should be suggested at a caret. Literals, Kinds, Continues and Derive have the
-- code, Span and Undoubled proofs.
pub mod Literals
pub mod Kinds
pub mod Continues
pub mod Derive
pub mod Span
pub mod Undoubled
