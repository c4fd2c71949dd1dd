-- ===== src/Clauses/Model.antt =====
-- dialects/base.py: `Clause` and `ClauseModel`. The hash that `ClauseModel` keeps is left out.
use pysqlsuggestions.Prelude.{Bool, List, Str}
use pysqlsuggestions.Types.{Kind}

pub record Clause : Type 0 where
  pub name : Str
  pub follows : List Str
  pub statements : List Str
  pub repeats : Bool
  pub suggests : List Kind
  pub followed_by : List Str
  pub before_the_item : List Str
  pub opens_an_item : Bool
  pub opens_a_group : List Str
  pub defines_columns : List Str
  pub relation_kinds : List Str
  pub aliases_with : Str
  pub operators : List Str
  pub after_operand : List Str

pub record ClauseModel : Type 0 where
  pub clauses : List Clause
