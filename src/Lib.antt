-- ===== src/Lib.antt =====
-- Verification of pysqlsuggestions, a library that completes SQL in an editor.
--
-- A completion goes through five stages. `engine/lex.py` cuts the text into tokens;
-- `engine/analyse.py` and `engine/request.py` say what the caret wants; `resolve.py` fetches
-- candidates, through a cache (`caches/`); `engine/rank.py` scores, orders and writes them. Paths
-- are below `src/pysqlsuggestions` of the repository.
--
-- Files:
-- - Prelude and its children: tests on numbers, integers as far as they are compared, lists,
--   strings as lists of code points, a stable sort.
-- - Lex: engine/lex.py. Token has the tokens and the syntax of dialects/base.py, Scan one function
--   for each `_scan_...`, Step the body and the loop of `lex`; a scanner is given the source from
--   an offset on, and that offset. Bounds, Found, Tiles, Starts and Names hold proofs.
-- - Dialect and Types: the records of dialects/base.py and types.py.
-- - Clauses: `ClauseModel` of dialects/base.py. Defs has the code, the other files hold proofs.
-- - Quote: the quoting half of engine/rank.py (`quote_if_needed`, `_needs_quoting`,
--   `_plain_identifier`), and its proof against the lexer.
-- - Rank: the rest of engine/rank.py. Match has `_match_strength` and `_kind_bonus`, Render
--   `_render` and `expand_snippet`, Defs `rank`, `_shortlist` and `_finish`; Present has `matches`
--   and `kinds_present`; Prefix, Shortlist, Limit, Distinct, Sunk, Narrowing and Accepts hold
--   proofs.
-- - Local: engine/local.py. Defs has the code, Aliases a proof about alias forms.
-- - Joins: engine/joins.py. Defs has `_links` and what it calls, Text the texts and `_free_alias`,
--   Clauses the three functions that `resolve.py` calls; the other files hold proofs. A function
--   that may raise gives an option.
-- - Analyse: engine/analyse.py. Tokens, Caret, Words, Calls, Clauses, Predicates, Comparand,
--   Branches, Readers, Relations, Outputs, Lists, Bodies, Ctes and Scopes have the code, about in
--   the source's order; Spelt, Ends, Scans, Governs, ListEnd, Items, Operators, Covers, Inside and
--   Span hold proofs. An index is the list of the tokens up to it, or that of the tokens from it
--   on.
-- - Requests: engine/request.py. Literals has a caret inside a literal, Kinds the kinds that a
--   position admits, Continues the expression position and the words that finish a construct,
--   Derive `derive_request` on an integer as the caret; Span and Undoubled hold proofs. The
--   offsets behind the clamp are natural numbers, so `none` stands for a caret that it would leave
--   negative.
-- - Lsp: lsp/pysqlsuggestions_lsp/documents.py. Documents and Units have the code, the other files
--   hold proofs; Statements compares the two functions `statement_at`.
-- - Datatypes: engine/datatypes.py. Defs has the code, Labels a proof about the labels of an
--   enumeration.
-- - Caches: OrderedDict is the `collections.OrderedDict` of caches/memory.py; Memory has
--   `MemoryCache` (Defs) and proofs about it; Keys has `cache_key` of caches/keys.py and its
--   proof.
-- - Tests: runs at concrete inputs, and each theorem at one.
--
-- Parameters: what Unicode says of a character and `str.lower`, `str.upper` and `str.islower`
-- (Lex.Token.Chars), with the few documented facts that a theorem needs; the floats of the scores
-- (Rank.Match.Floats), of which only the order is assumed; the clock of the cache
-- (Caches.Memory.Defs.Clock); UTF-8 and the fingerprint in a key. A text with a lone surrogate,
-- which UTF-8 refuses with an exception, is left out.
--
-- Fuel: `lex_from` takes one round for each character, and each round consumes one at least;
-- `grow` takes two rounds more than there are candidates, since the shortlist grows in every
-- round. The loop of `_free_alias` takes one round more than there are names; the loops over
-- relation references and over CTEs take one round more than there are tokens, as each reads one.
-- All are proved to return, or, for the CTEs, to need no more. `select_outputs` and `_scope_level`
-- count down the source's own bound.
--
-- Choices: a lock makes each method of the cache one step, so threads are a sequence of calls.
-- `identifier_quotes` is taken not to be empty, as the conformance suite demands. Memos
-- (`lru_cache`, `Tokens.memo`) are left out, since they return what they stored.
--
-- Not modelled: the resolver, the codec, and the adapters, which do input and output.
pub mod Prelude
pub mod Lex
pub mod Dialect
pub mod Quote
pub mod Caches
pub mod Types
pub mod Rank
pub mod Local
pub mod Joins
pub mod Datatypes
pub mod Clauses
pub mod Analyse
pub mod Requests
pub mod Lsp
mod Tests
