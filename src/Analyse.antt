-- ===== src/Analyse.antt =====
-- engine/analyse.py: what a stream of tokens says of a caret. The modules down to Scopes have the code,
-- about in the source's order; those behind it hold proofs.
pub mod Tokens
pub mod Caret
pub mod Words
pub mod Calls
pub mod Clauses
pub mod Predicates
pub mod Comparand
pub mod Branches
pub mod Readers
pub mod Relations
pub mod Outputs
pub mod Lists
pub mod Bodies
pub mod Ctes
pub mod Scopes
pub mod Spelt
pub mod Ends
pub mod Scans
pub mod Enough
pub mod Governs
pub mod ListEnd
pub mod Items
pub mod Operators
pub mod Covers
pub mod Inside
pub mod Span
