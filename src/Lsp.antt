-- ===== src/Lsp.antt =====
-- lsp/pysqlsuggestions_lsp: the parts of the language server that compute.
pub mod Documents
pub mod Units
pub mod Starts
pub mod Positions
pub mod Statements
