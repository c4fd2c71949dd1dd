-- ===== src/Tests/Joins.antt =====
-- Join proposals and alias forms at concrete inputs.
use pysqlsuggestions.Prelude.{
  none, ℕ, true, List, [], ◌∷◌, Option, none, some, Str, codes, map, all, distinct, ◌≡◌, refl, ◌↔◌,
  ◌⊎◌, ◌++◌, has_text, decimal, text_eq, ◌≤◌, starts_with, false,
}
use mathlib.Core.List.{Memᴰ}
use pysqlsuggestions.Types.{
  join, ForeignKey, Relation, relation, from_table, catalogued, Scope, root, Candidate,
  plain_candidate, last, last_or, scope_relations, relation_path, relation_alias, in_catalog, label,
  declared_name, visible,
}
use pysqlsuggestions.Quote.Defs.{
  quote_if_needed, needs_quoting, case_needs_quoting, plain_identifier, plain_head, plain_tail,
  quoted, replace_from,
}
use pysqlsuggestions.Lex.Token.{is_ident_start, is_ident_char, reads_as_one_identifier}
use pysqlsuggestions.Local.Defs.{
  split_on, word_initials, first_of_each, forms_of_words, alias_forms,
}
use pysqlsuggestions.Local.Aliases.{is_word, alias_forms-distinct}
use pysqlsuggestions.Joins.Defs.{
  Link, split_path, same_schema, zip, malformed, forward_link, reverse_link, add_link, place_link,
  collect_links, links, catalog_relations,
}
use pysqlsuggestions.Joins.Text.{
  join_with, referring, fk_column, note, first_free, numbered, stem_of, free_forms, free_alias,
  condition, reference,
}
use pysqlsuggestions.Joins.Clauses.{
  but_last, clause_with, clause_candidate, taken_labels, joins_of, relation_joins, leads_to,
  condition_candidate, conditions_between, conditions_in, join_conditions, condition_columns,
  clause_text,
}
use pysqlsuggestions.Joins.Described.{IsLink}
use pysqlsuggestions.Joins.Links.{links_iff}
use pysqlsuggestions.Joins.FreeAlias.{free_alias-some}
use pysqlsuggestions.Joins.Proposals.{condition_columns-some, join_conditions-some}
use pysqlsuggestions.Joins.Grounds.{Clause, relation_joins-IsLink, join_conditions-IsLink}
use pysqlsuggestions.Joins.Withheld.{granted, relation_joins-granted}
use pysqlsuggestions.Tests.Ascii.{ascii, postgres}

-- A key of two columns, and a constraint that says one column on one side and none on the other.
abbrev composite : ForeignKey
composite = record {
  schema = codes "public";
  table = codes "order_items";
  columns = codes "order_id" ∷ codes "shop" ∷ [];
  ref_schema = codes "public";
  ref_table = codes "orders";
  ref_columns = codes "id" ∷ codes "shop_id" ∷ [];
}

abbrev broken : ForeignKey
broken = record composite { ref_columns = [] }

abbrev edges : List ForeignKey
edges = broken ∷ composite ∷ []

abbrev items : Relation
items = relation (some (codes "oi")) (codes "order_items" ∷ []) from_table catalogued

abbrev orders : Relation
orders = relation none (codes "orders" ∷ []) from_table catalogued

abbrev one_table : Scope
one_table = root (items ∷ []) [] none

abbrev two_tables : Scope
two_tables = root (items ∷ orders ∷ []) [] none

abbrev items_source : Str × Str
items_source = ([], codes "order_items")

abbrev composite_pairs : List (Str × Str)
composite_pairs = (codes "order_id", codes "id") ∷ (codes "shop", codes "shop_id") ∷ []

abbrev composite_link : Link
composite_link = forward_link composite composite_pairs

links_test : links items_source edges ≡ some (composite_link ∷ [])
unfolding links collect_links add_link place_link zip malformed same_schema text_eq
links_test = refl

-- Behind no test of the lengths, the two sides of the other constraint would raise.
zip_test : zip broken.columns broken.ref_columns ≡ none
unfolding zip
zip_test = refl

free_alias_test :
    free_alias ascii postgres (codes "orders") (codes "o" ∷ codes "ord" ∷ codes "o2" ∷ [])
    ≡ some (codes "o3")
unfolding free_alias free_forms first_free numbered stem_of alias_forms forms_of_words first_of_each
    word_initials split_on text_eq decimal pysqlsuggestions.Prelude.Decimal.decimal_digits
free_alias_test = refl

links_iff_example :
    (found : List Link) × (links items_source edges ≡ some found)
    × (Memᴰ composite_link found
        ↔ ((e : ForeignKey) × Memᴰ e edges × IsLink items_source e composite_link))
links_iff_example = links_iff items_source edges composite_link

abbrev taken : List Str
taken = codes "o" ∷ codes "ord" ∷ codes "o2" ∷ []

free_alias-some_example :
    (alias : Str) × (free_alias ascii postgres (codes "orders") taken ≡ some alias)
    × (((has_text (alias_forms ascii (codes "orders")) alias ≡ true)
          × (has_text postgres.reserved (ascii.lower alias) ≡ false)
          × (has_text taken (ascii.lower alias) ≡ false))
        ⊎ ((n : ℕ) × (2 ≤ n)
            × (alias
                ≡ stem_of ascii (codes "orders") (free_forms ascii postgres (codes "orders"))
                  ++ decimal n)
            × (has_text taken alias ≡ false)))
free_alias-some_example = free_alias-some ascii postgres (codes "orders") taken

condition_columns-some_example :
    (found : List Candidate) × (condition_columns ascii items edges postgres ≡ some found)
condition_columns-some_example = condition_columns-some ascii items edges postgres

join_conditions-some_example :
    (found : List Candidate) × (join_conditions ascii (some two_tables) edges postgres ≡ some found)
join_conditions-some_example = join_conditions-some ascii (some two_tables) edges postgres

abbrev withheld : List (Str × Str)
withheld = (codes "public", codes "orders") ∷ []

relation_joins-granted_example :
    (found : List Candidate) × (relation_joins ascii (some one_table) edges postgres withheld
      ≡ some found)
    × (relation_joins ascii (some one_table) edges postgres [] ≡ some (map granted found))
relation_joins-granted_example =
    relation_joins-granted ascii (some one_table) edges postgres withheld

abbrev clause : Candidate
clause = clause_with ascii postgres items items_source withheld composite_link (codes "o")

clause_found : relation_joins ascii (some one_table) edges postgres withheld ≡ some (clause ∷ [])
unfolding relation_joins joins_of clause_candidate taken_labels links collect_links add_link
    place_link zip malformed same_schema text_eq free_alias free_forms first_free numbered stem_of
    alias_forms forms_of_words first_of_each word_initials split_on visible label relation_alias
    relation_path catalog_relations split_path in_catalog forward_link reverse_link scope_relations
clause_found = refl

relation_joins-IsLink_example :
    (r : Relation) × Memᴰ r (catalog_relations one_table)
    × ((e : ForeignKey) × Memᴰ e edges
        × ((l : Link) × IsLink (split_path (relation_path r)) e l
            × ((alias : Str) × (free_alias ascii postgres l.target (taken_labels ascii one_table)
                  ≡ some alias)
                × Clause ascii postgres r withheld l alias clause)))
relation_joins-IsLink_example =
    relation_joins-IsLink ascii one_table edges postgres withheld (clause ∷ []) clause clause_found
      (Memᴰ.head refl)

abbrev on_text : Str
on_text = codes "oi.order_id = orders.id AND oi.shop = orders.shop_id"

abbrev on_clause : Candidate
on_clause = record (plain_candidate on_text join) {
  detail = some (codes "joins order_items");
  snippet = some on_text;
  match_text = some (codes "order_id");
  note = some (codes "fk: orders.(id, shop_id)");
}

on_clause_found : join_conditions ascii (some two_tables) edges postgres ≡ some (on_clause ∷ [])
unfolding join_conditions conditions_in conditions_between condition_candidate links collect_links
    add_link place_link malformed same_schema text_eq label declared_name relation_alias
    relation_path catalog_relations split_path in_catalog forward_link reverse_link scope_relations
    zip fk_column referring note join_with condition quote_if_needed needs_quoting
    case_needs_quoting plain_identifier plain_head plain_tail reads_as_one_identifier is_ident_start
    is_ident_char last_or plain_candidate
on_clause_found = refl

join_conditions-IsLink_example :
    (latest : Relation) × (last (scope_relations two_tables) ≡ some latest)
    × ((earlier : Relation) × Memᴰ earlier (but_last (catalog_relations two_tables))
        × ((e : ForeignKey) × Memᴰ e edges
            × ((l : Link) × IsLink (split_path (relation_path earlier)) e l
                × (leads_to (split_path (relation_path latest)) l ≡ true)
                × (on_clause.text
                    ≡ condition ascii postgres (label earlier) (label latest) l.pairs))))
join_conditions-IsLink_example =
    join_conditions-IsLink ascii two_tables edges postgres (on_clause ∷ []) on_clause
      on_clause_found (Memᴰ.head refl)

alias_forms-distinct_example :
    (distinct (alias_forms ascii (codes "order_items")) ≡ true)
    × (all is_word (alias_forms ascii (codes "order_items")) ≡ true)
alias_forms-distinct_example = alias_forms-distinct ascii (codes "order_items")

-- A table whose first letter is a digit: the clause writes its alias bare, and the condition quotes it.
abbrev digit_link : Link
digit_link = record {
  source_schema = codes "public";
  target_schema = codes "public";
  target = codes "2fa";
  pairs = (codes "fa_id", codes "id") ∷ [];
  direction = 0;
}

digit_alias_test : free_alias ascii postgres (codes "2fa") [] ≡ some (codes "2")
unfolding free_alias free_forms first_free alias_forms forms_of_words first_of_each word_initials
    split_on text_eq
digit_alias_test = refl

digit_clause_test :
    clause_text ascii postgres items items_source digit_link (codes "2")
    ≡ codes "\"2fa\" 2 ON oi.fa_id = \"2\".id"
unfolding clause_text reference condition join_with label relation_alias relation_path text_eq
    quote_if_needed needs_quoting case_needs_quoting plain_identifier plain_head plain_tail
    reads_as_one_identifier is_ident_start is_ident_char last_or quoted replace_from starts_with
digit_clause_test = refl
