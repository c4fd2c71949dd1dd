-- ===== src/Tests/Analysis.antt =====
-- The analysis of statements, at concrete inputs.
use pysqlsuggestions.Prelude.{
  ℕ, false, ◌≤◌, List, [], ◌∷◌, Option, none, some, Str, codes, map, length, take, keep, text_eq,
  starts_with, find_from, ◌≡◌, ◌⊎◌, refl, arith,
}
use mathlib.Core.List.{Memᴰ}
use pysqlsuggestions.Clauses.Model.{Clause, ClauseModel}
use pysqlsuggestions.Dialect.{Dialect}
use pysqlsuggestions.Lex.Token.{
  Token, covers, is_ident_start, is_ident_char, fold_case, reads_as_one_identifier,
}
use pysqlsuggestions.Lex.Scan.{
  scan_while, scan_quoted_ident, exponent_digits, exponent_sign, exponent, scan_number,
  first_starting, single_operator, match_operator, scan_string, scan_line_comment,
  scan_block_comment, run_to, scan_dollar_quote, opens_escape_string, scan_name, scan_body,
  placeholder_openers, scan_one_placeholder, try_placeholders, scan_placeholder,
}
use pysqlsuggestions.Lex.Step.{
  scan_punct, scan_operator, quoted_token, word_token, scan_bare, scan_dollar, scan_literal,
  scan_param, scan_token, lex_from, lex,
}
use pysqlsuggestions.Clauses.Defs.{
  find_clause, get, wrong_form, admits, derived, offered, continuations, name_le, names,
}
use pysqlsuggestions.Local.Defs.{split_on}
use pysqlsuggestions.Rank.Defs.{text_le}
use pysqlsuggestions.Analyse.Tokens.{
  is_ident, is_string, is_comment, is_param, is_punct, is_operator, is_number, in_skip,
  index_before_from, index_before, skip_back,
}
use pysqlsuggestions.Analyse.Caret.{
  between, depth_of, depth_at, inside, in_literal, in_placeholder, string_place_from,
  string_index_under, token_of, string_under, statement_range, statement_at, statement_has_begun,
  behind_quote, value_of, segments_back, reversed, qualifier_of, qualifier_and_prefix,
}
use pysqlsuggestions.Analyse.Words.{
  before_typed, split_where, words_back, words_before, texts_eq, last_words, at_the_clause_start,
  clause_phrases, phrases, join_spaces, cuts_of, cuts_of_all, half_written_clauses, distinct,
  none_if_empty, finishing, continues, longest_head, longest_match, continues_a_keyword, opens_star,
  star_is_an_item, word_ends, ends_operand, after_operand,
}
use pysqlsuggestions.Analyse.Calls.{
  search_back, call_opening, name_before, call_name, enclosing_call, star_from, star_at, ident_at,
  dotted_name, qualifier_of_star, star_span, star_qualifier, star_relations, names_as, after_as,
  is_cast, casts, casts_at, after_cast, awaits_as, inside_a_cast_awaiting_as, first_argument_of,
  literal_argument_call,
}
use pysqlsuggestions.Analyse.Clauses.{
  ident_run, first_is, by_first_word, run_spells, first_spelt, clause_starting_at, first_or_empty,
  can_be_a_name, reads_as_a_clause, end_of_run, beats, best_name, group_start, better, scan_clauses,
  scan_for_clause, holds_a_word, clause_here, clause_from, clause_at,
}
use pysqlsuggestions.Analyse.Predicates.{
  is_clause, predicate_back, group_is_a_predicate, word_arms, arms, armed_from, behind,
  predicate_complete, branch_or_start, branch_with, case_back, case_position, matching_open,
  strip_left, strip_right, some_text, type_behind_as, is_cast_name, opens_cast,
  functional_cast_type,
}
use pysqlsuggestions.Analyse.Comparand.{
  before_typing, strip_path, cast_before, left_side, left_of, comparand_at,
}
use pysqlsuggestions.Analyse.Branches.{
  least_depth, base_depth, branch_from, branch_at, behind_operators, tail_from,
  in_set_operation_tail, clause_counted, written_from, clauses_written, first_but, first_of,
  statement_form, opens_a_query, item_words_back, words_in_item, matching_paren, depth_there,
  query_around, end_of_place, end_before, clause_behind, last_end, list_end_in, select_list_end,
}
use pysqlsuggestions.Analyse.Readers.{
  skip_forward, path_from, read_dotted_path, path_end, declared_names, text_here, behind_group,
  group_tokens, read_declared_columns, join_qualifiers, values_of, bare_alias, as_alias, alias_at,
  read_alias, declared_relation, read_function_source, behind_dot, types_reference, read_reference,
  opens_call, read_source, ends_list, round_at,
}
use pysqlsuggestions.Analyse.Relations.{
  is_some, introduces_relations, read_relation_list, open_groups, unclosed_calls, shelter,
  source_clause, scan_relations, start_of, open_clause, open_at, opens_from, reached,
  around_an_insert_target, all_found, relations_in,
}
use pysqlsuggestions.Analyse.Outputs.{
  items_from, has_tokens, split_items, from_last, after_clause, until_clause, level_behind,
  behind_on, from_paren, without_on, without_quantifier, ends_before_alias, is_an_implicit_alias,
  is_a_call, behind_as, behind_a_dot, star_sources, output_of_name, output_of_tokens, output_of,
}
use pysqlsuggestions.Analyse.Bodies.{
  begins_query, bodies_from, subquery_bodies, list_back, introduces_body, opener_place,
  before_place, derived_of, derived_tables,
}
use pysqlsuggestions.Analyse.Ctes.{
  merge, projection_of, bind_path, bind, relations_of, add_columns, add_relations, add_stars,
  columns_of, stars_of, projection_of_items, skip_modifiers, behind_word_as, names_of, gather,
  behind_comma, gather_ctes, seen, is_recursive, ctes_with, derived_relation, select_outputs,
  read_ctes,
}
use pysqlsuggestions.Analyse.Scopes.{
  source_of, names_lateral, is_lateral, lookup_span, reverse_onto, scope, first_start, last_end_of,
  holds_caret, first_holding, past_conflict, conflict_alias, is_opaque, seen_in, level_relations,
  here_of, scope_level, scope_of,
}
use pysqlsuggestions.Types.{
  Relation, relation_alias, relation_path, last_or, label, scope_relations, visible,
}
use pysqlsuggestions.Caches.OrderedDict.{lookup, assign}
use pysqlsuggestions.Analyse.Words.{split_words}
use pysqlsuggestions.Analyse.Spelt.{Spells, ReadsClause, clause_starting_at-ReadsClause}
use pysqlsuggestions.Types.{Projection, projection, no_more}
use pysqlsuggestions.Analyse.Ctes.{Ctes}
use pysqlsuggestions.Analyse.Enough.{gather_ctes-enough}
use pysqlsuggestions.Analyse.Governs.{Governs, clause_at-Governs}
use pysqlsuggestions.Analyse.Scans.{relations_in-some}
use pysqlsuggestions.Analyse.ListEnd.{select_list_end-in_text}
use pysqlsuggestions.Analyse.Items.{Shallowest, Commas, split_items-Commas}
use pysqlsuggestions.Analyse.Operators.{Branch, branch_at-Branch}
use pysqlsuggestions.Tests.Ascii.{ascii, ascii-IsUnicode, plain, postgres_syntax}

program : Unit {0}
unfolding text_eq starts_with find_from covers is_ident_start is_ident_char fold_case
    reads_as_one_identifier scan_while scan_quoted_ident exponent_digits exponent_sign exponent
    scan_number first_starting single_operator match_operator scan_string scan_line_comment
    scan_block_comment run_to scan_dollar_quote opens_escape_string scan_name scan_body
    placeholder_openers scan_one_placeholder try_placeholders scan_placeholder scan_punct
    scan_operator quoted_token word_token scan_bare scan_dollar scan_literal scan_param scan_token
    lex_from lex find_clause get wrong_form admits derived offered continuations name_le names
    split_on text_le is_ident is_string is_comment is_param is_punct is_operator is_number in_skip
    index_before_from index_before skip_back depth_of depth_at inside in_literal in_placeholder
    string_place_from string_index_under token_of string_under statement_range statement_at
    statement_has_begun behind_quote value_of segments_back reversed qualifier_of
    qualifier_and_prefix before_typed split_where words_back words_before texts_eq last_words
    at_the_clause_start clause_phrases phrases join_spaces cuts_of cuts_of_all half_written_clauses
    distinct none_if_empty finishing continues longest_head longest_match continues_a_keyword
    opens_star star_is_an_item word_ends ends_operand after_operand search_back call_opening
    name_before call_name enclosing_call star_from star_at ident_at dotted_name qualifier_of_star
    star_span star_qualifier star_relations names_as after_as is_cast casts casts_at after_cast
    awaits_as inside_a_cast_awaiting_as first_argument_of literal_argument_call ident_run first_is
    by_first_word run_spells first_spelt clause_starting_at first_or_empty can_be_a_name
    reads_as_a_clause end_of_run beats best_name group_start better scan_clauses scan_for_clause
    holds_a_word clause_here clause_from clause_at is_clause predicate_back group_is_a_predicate
    word_arms arms armed_from behind predicate_complete branch_or_start branch_with case_back
    case_position matching_open strip_left strip_right some_text type_behind_as is_cast_name
    opens_cast functional_cast_type before_typing strip_path cast_before left_side left_of
    comparand_at least_depth base_depth branch_from branch_at behind_operators tail_from
    in_set_operation_tail clause_counted written_from clauses_written first_but first_of
    statement_form opens_a_query item_words_back words_in_item matching_paren depth_there
    query_around end_of_place end_before clause_behind last_end list_end_in select_list_end
    skip_forward path_from read_dotted_path path_end declared_names text_here behind_group
    group_tokens read_declared_columns join_qualifiers values_of bare_alias as_alias alias_at
    read_alias declared_relation read_function_source behind_dot types_reference read_reference
    opens_call read_source ends_list round_at is_some introduces_relations read_relation_list
    open_groups unclosed_calls shelter source_clause scan_relations start_of open_clause open_at
    opens_from reached around_an_insert_target all_found relations_in items_from has_tokens
    split_items from_last after_clause until_clause level_behind behind_on from_paren without_on
    without_quantifier ends_before_alias is_an_implicit_alias is_a_call behind_as behind_a_dot
    star_sources output_of_name output_of_tokens output_of begins_query bodies_from subquery_bodies
    list_back introduces_body opener_place before_place derived_of derived_tables merge
    projection_of bind_path bind relations_of add_columns add_relations add_stars columns_of
    stars_of projection_of_items skip_modifiers behind_word_as names_of gather behind_comma
    gather_ctes seen is_recursive ctes_with derived_relation select_outputs read_ctes source_of
    names_lateral is_lateral lookup_span reverse_onto scope first_start last_end_of holds_caret
    first_holding past_conflict conflict_alias is_opaque seen_in level_relations here_of scope_level
    scope_of relation_alias relation_path last_or label scope_relations visible lookup assign
program = tt

abbrev words_reserved : List Str
words_reserved =
    codes "select"
    ∷ codes "from"
    ∷ codes "where"
    ∷ codes "order"
    ∷ codes "group"
    ∷ codes "with"
    ∷ codes "as"
    ∷ codes "join"
    ∷ codes "on"
    ∷ codes "and"
    ∷ codes "union"
    ∷ []

abbrev upper_reserved : List Str
upper_reserved = map (ascii.upper) words_reserved

abbrev sql_clauses : ClauseModel
sql_clauses = record {
  clauses =
      plain (codes "SELECT") (codes "WITH" ∷ [])
      ∷ plain (codes "FROM") (codes "SELECT" ∷ [])
      ∷ plain (codes "JOIN") (codes "FROM" ∷ [])
      ∷ plain (codes "ON") (codes "JOIN" ∷ [])
      ∷ plain (codes "WHERE") (codes "FROM" ∷ [])
      ∷ plain (codes "GROUP BY") (codes "FROM" ∷ codes "WHERE" ∷ [])
      ∷ plain (codes "ORDER BY") (codes "FROM" ∷ codes "WHERE" ∷ codes "GROUP BY" ∷ [])
      ∷ plain (codes "WITH") []
      ∷ plain (codes "CALL") []
      ∷ [];
}

abbrev pub sql : Dialect
sql = record {
  syntax = postgres_syntax;
  clauses = sql_clauses;
  keywords = upper_reserved;
  reserved = words_reserved;
  statement_start = codes "SELECT" ∷ codes "WITH" ∷ codes "CALL" ∷ [];
  literal_arguments = [];
  namespace = codes "schema" ∷ codes "table" ∷ [];
}

abbrev tokens_of : Option (List Token) → List Token
tokens_of none = []
tokens_of (some ts) = ts

abbrev lexed : Str → List Token
lexed text = tokens_of (lex ascii postgres_syntax text)

abbrev labels_at : Str → ℕ → List Str
labels_at text caret =
    let ts = lexed text in
    let range = statement_at ts caret in
    map label (visible (scope_of ascii sql ts (range.0) (range.1) caret))

-- The relation behind the caret, and the one that is joined.
joined :
    labels_at (codes "SELECT u. FROM users u JOIN orders o ON 1") 9 ≡ codes "u" ∷ codes "o" ∷ []
unfolding program
joined = refl

-- The body of a CTE sees its own FROM; a correlated subquery sees the outer one too.
in_bodies :
    (labels_at (codes "WITH a AS (SELECT x FROM t) SELECT  FROM a, b") 17 ≡ codes "t" ∷ [])
    × (labels_at (codes "SELECT * FROM a WHERE x = (SELECT  FROM b)") 34
        ≡ codes "b" ∷ codes "a" ∷ [])
unfolding program
in_bodies = (refl, refl)

-- A blank behind the paren, and the body of the CTE sees the relations of the statement.
in_spaced_body :
    labels_at (codes "WITH a AS ( SELECT x FROM t) SELECT  FROM a, b") 19
    ≡ codes "t" ∷ codes "a" ∷ codes "b" ∷ []
unfolding program
in_spaced_body = refl

-- LATERAL is read before a paren, and is not read if a blank follows it.
lateral :
    (labels_at (codes "SELECT * FROM a, LATERAL (SELECT  FROM b) x") 33
      ≡ codes "b" ∷ codes "a" ∷ codes "x" ∷ [])
    × (labels_at (codes "SELECT * FROM a, LATERAL ( SELECT  FROM b) x") 34 ≡ codes "b" ∷ [])
unfolding program
lateral = (refl, refl)

-- A quoted alias that spells a reserved word is read as a second relation.
quoted_alias :
    labels_at (codes "SELECT  FROM users \"order\"") 7 ≡ codes "users" ∷ codes "order" ∷ []
unfolding program
quoted_alias = refl

-- `call` names the relation, as no CALL may stand there.
abbrev aliased : Str
aliased = codes "SELECT a FROM t call WHERE (b "

governing_where : clause_at ascii sql (lexed aliased) 0 17 30 ≡ some (codes "WHERE")
unfolding program
governing_where = refl

written :
    (statement_form ascii sql (lexed (codes "WITH a AS (SELECT 1) SELECT b ")) 0 30 30
      ≡ some (codes "SELECT"))
    × (continues_a_keyword ascii (lexed (codes "SELECT a FROM t GROUP ")) 22 sql ≡ codes "BY" ∷ [])
    × (comparand_at ascii sql (lexed (codes "SELECT 1 WHERE CAST(a AS int) > b.c")) 35
        ≡ ([], some (codes "int")))
unfolding program
written = (refl, refl, refl)

clause_at-Governs_example :
    Memᴰ (codes "WHERE") (map (λ (c : Clause). c.name) sql.clauses.clauses)
    × ((g : Governs ascii sql (lexed aliased) 0 17 30 (codes "WHERE")) × Spells ascii
          (take g.count (between g.index 17 (lexed aliased)))
          (split_words ascii (codes "WHERE")))
clause_at-Governs_example =
    clause_at-Governs ascii sql (lexed aliased) 0 17 30 (codes "WHERE") governing_where

clause_starting_at-ReadsClause_example :
    ReadsClause ascii sql_clauses
      (lexed (codes "GROUP /* */ BY x"))
      (clause_starting_at ascii sql_clauses (lexed (codes "GROUP /* */ BY x")))
clause_starting_at-ReadsClause_example =
    clause_starting_at-ReadsClause ascii sql_clauses (lexed (codes "GROUP /* */ BY x"))

relations_in-some_example :
    (rs : List Relation) × (relations_in ascii sql
        (lexed (codes "SELECT a FROM t, s.u x JOIN"))
        (some 3)
      ≡ some rs)
relations_in-some_example =
    relations_in-some ascii sql (lexed (codes "SELECT a FROM t, s.u x JOIN")) (some 3)

abbrev half : Str
half = codes "SELECT na ORDER BY 1"

select_list_end-in_text_example :
    (ts : List Token) × (lex ascii postgres_syntax half ≡ some ts)
    × (9 ≤ select_list_end ascii sql ts 9)
    × (select_list_end ascii sql ts 9 ≤ length half)
select_list_end-in_text_example =
    select_list_end-in_text ascii ascii-IsUnicode sql half 9 (omega arith)

abbrev listed : List Token
listed = lexed (codes "a, f(b, c), ")

split_items-Commas_example :
    ((least_depth listed ≡ none) × (split_items listed ≡ []))
    ⊎ ((base : ℕ) × (items : List (List Token)) × Shallowest base listed
        × Commas base listed items
        × (split_items listed ≡ keep has_tokens items))
split_items-Commas_example = split_items-Commas listed

abbrev both : List Token
both = lexed (codes "SELECT a UNION SELECT b")

branch_at-Branch_example :
    Branch ascii
      (base_depth (between 0 9 both))
      20
      0
      (between 0 9 both)
      (branch_at ascii both 0 9 20)
branch_at-Branch_example = branch_at-Branch ascii both 0 9 20

abbrev no_outputs : Ctes → ℕ → ℕ → Projection
no_outputs ctes lo hi = projection [] no_more

abbrev cte : List Token
cte = lexed (codes "a AS (SELECT 1), b AS (SELECT 2) SELECT")

gather_ctes-enough_example :
    gather_ctes ascii sql no_outputs 25 false 30 cte ([], [])
    ≡ gather_ctes ascii sql no_outputs 25 false 29 cte ([], [])
unfolding program
gather_ctes-enough_example =
    gather_ctes-enough ascii sql no_outputs 25 false 29 cte ([], []) (omega arith)
