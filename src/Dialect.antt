-- ===== src/Dialect.antt =====
-- dialects/base.py: `Dialect`, with the fields that scanning, quoting and the analysis read.
use pysqlsuggestions.Prelude.{List, Str}
use pysqlsuggestions.Lex.Token.{Syntax}
use pysqlsuggestions.Types.{Kind}
use pysqlsuggestions.Clauses.Model.{ClauseModel}

-- `LiteralArgument`.
pub record LiteralArgument : Type 0 where
  pub function : Str
  pub suggests : List Kind

pub record Dialect : Type 0 where
  pub syntax : Syntax
  pub clauses : ClauseModel
  -- In upper case.
  pub keywords : List Str
  -- The words are in lower case.
  pub reserved : List Str
  pub statement_start : List Str
  pub literal_arguments : List LiteralArgument
  -- The levels of its `Namespace`.
  pub namespace : List Str
