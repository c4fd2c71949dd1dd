-- ===== src/Tests.antt =====
-- Runs at concrete inputs, and the theorems at them.
mod Ascii
mod Lexer
mod Ranking
mod Cache
mod Joins
mod Datatypes
mod Clauses
mod Documents
mod Analysis
mod Requests
