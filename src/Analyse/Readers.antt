-- ===== src/Analyse/Readers.antt =====
-- engine/analyse.py: the readers of relation references. Each is given the tokens from `index` up to
-- `hi`, and its answer holds the tokens behind what it read instead of their index.
use pysqlsuggestions.Prelude.{
  ℕ, suc, ◌+◌, Bool, true, false, not, ◌&&◌, List, [], ◌∷◌, Option, none, some, Str, codes, take,
  drop, leb, ltb, ◌==◌, if◌then◌else◌, text_eq, has_text,
}
use pysqlsuggestions.Lex.Token.{Chars, Token}
use pysqlsuggestions.Types.{
  Relation, relation, projection, no_more, described, catalogued, from_table, from_subquery,
}
use pysqlsuggestions.Dialect.{Dialect}
use pysqlsuggestions.Analyse.Tokens.{is_ident, in_skip, is_mark, spells}
use pysqlsuggestions.Analyse.Clauses.{
  clause_starting_at, reads_as_a_clause, can_be_a_name, reserved_upper,
}
use pysqlsuggestions.Analyse.Branches.{matching_paren, depth_there}

unfoldable pub skip_forward : List Token → List Token
skip_forward [] = []
skip_forward (t ∷ ts) = let further = skip_forward ts in if in_skip t.type then further else t ∷ ts

-- The loop of `_read_dotted_path`, behind a name; `kept` is where the path ends if no name follows.
unfoldable pub path_from : Bool → List Token → List Token → List Token × List Token
path_from wants kept [] = ([], kept)
path_from wants kept (t ∷ ts) =
    let more =
      path_from (if in_skip t.type then wants else not wants)
        (if wants && not (in_skip t.type) then ts else kept) ts in
    if in_skip t.type
    then more
    else if wants
    then (if is_ident t.type then (t ∷ more.0, more.1) else ([], kept))
    else if is_mark (codes ".") t
    then more
    else ([], kept)

-- At an identifier `t`, and what follows it.
unfoldable pub read_dotted_path : Token → List Token → List Token × List Token
read_dotted_path t ts = let more = path_from false ts ts in (t ∷ more.0, more.1)

-- The end of the last token of a path, which has one.
unfoldable pub path_end : ℕ → List Token → ℕ
path_end end [] = end
path_end end (t ∷ ts) = path_end t.end ts

-- The names of a column list, the first identifier behind each comma.
unfoldable pub declared_names : ℕ → Bool → List Token → List Str
declared_names depth wanted [] = []
declared_names depth wanted (t ∷ ts) =
    let comma = is_mark (codes ",") t && (t.depth == depth) in
    let named = not comma && wanted && is_ident t.type in
    let rest = declared_names depth (if comma then true else if named then false else wanted) ts in
    if named then t.value ∷ rest else rest

-- `tokens[index].text == text`, where there is a token.
unfoldable pub text_here : Str → List Token → Bool
text_here text [] = false
text_here text (t ∷ ts) = text_eq t.text text

-- Behind the paren that closes the group which opens at the first token.
unfoldable pub behind_group : List Token → List Token
behind_group [] = []
behind_group (t ∷ ts) = drop (suc (matching_paren t.depth ts)) ts

unfoldable pub group_tokens : List Token → List Token
group_tokens [] = []
group_tokens (t ∷ ts) = take (matching_paren t.depth ts) ts

unfoldable pub read_declared_columns : List Token → List Str × List Token
read_declared_columns rest =
    let probe = skip_forward rest in
    if text_here (codes "(") probe
    then (declared_names (depth_there probe + 1) true (group_tokens probe), behind_group probe)
    else ([], rest)

unfoldable pub join_qualifiers : List Str
join_qualifiers =
    codes "LEFT"
    ∷ codes "RIGHT"
    ∷ codes "FULL"
    ∷ codes "INNER"
    ∷ codes "OUTER"
    ∷ codes "CROSS"
    ∷ codes "NATURAL"
    ∷ codes "LATERAL"
    ∷ codes "ANTI"
    ∷ codes "SEMI"
    ∷ codes "ASOF"
    ∷ codes "GLOBAL"
    ∷ codes "ANY"
    ∷ codes "ALL"
    ∷ []

abbrev pub function_sources : List Str
function_sources = codes "FROM" ∷ codes "JOIN" ∷ codes "USING" ∷ codes "LATERAL" ∷ []

-- `FROM t`, the parts of a path.
unfoldable pub values_of : List Token → List Str
values_of [] = []
values_of (t ∷ ts) = t.value ∷ values_of ts

-- The tests of one round of `_read_relation_list`, at a token that is not skipped.
pub data Round : Type 0 where
  -- It ends here.
  stop : Round
  -- It passes over the token.
  pass : Round
  -- It reads a reference.
  refer : Round

module _ (u : Chars) (d : Dialect) where
  -- A name right behind a relation.
  unfoldable pub bare_alias : List Token → List Token → Option Str × List Token
  bare_alias rest [] = (none, rest)
  bare_alias rest (t ∷ ts) =
      if has_text (reserved_upper u d) (u.upper t.value)
      then (none, rest)
      else elim (clause_starting_at u d.clauses (t ∷ ts)) [
        | none ↦ (some t.value, ts)
        | some (name, read) ↦ if can_be_a_name u d name then (some t.value, ts) else (none, rest)
      ]

  -- A name behind AS.
  unfoldable pub as_alias : List Token → List Token → Option Str × List Token
  as_alias rest [] = (none, rest)
  as_alias rest (t ∷ ts) = if is_ident t.type then (some t.value, ts) else (none, rest)

  unfoldable pub alias_at : List Token → List Token → Option Str × List Token
  alias_at rest [] = (none, rest)
  alias_at rest (t ∷ ts) =
      if not (is_ident t.type)
      then (none, rest)
      else if spells u (codes "AS") t
      then as_alias rest (skip_forward ts)
      else bare_alias rest (t ∷ ts)

  unfoldable pub read_alias : List Token → Option Str × List Token
  read_alias rest = alias_at rest (skip_forward rest)

  -- A relation that a column definition list declares.
  unfoldable pub declared_relation : Option Str → List Str → List Relation
  declared_relation none columns = []
  declared_relation (some alias) [] = []
  declared_relation (some alias) (c ∷ cs) =
      relation (some alias) [] from_subquery (described (projection (c ∷ cs) no_more)) ∷ []

  -- At the paren of a call: what it appends, and what is behind it.
  unfoldable pub read_function_source : List Token → List Relation × List Token
  read_function_source call =
      let named = read_alias (behind_group call) in
      let declared = read_declared_columns (named.1) in
      (declared_relation (named.0) (declared.0), declared.1)

  -- A dangling dot: the end of the reference and what is behind it.
  unfoldable pub behind_dot : ℕ → List Token → List Token → ℕ × List Token
  behind_dot end rest [] = (end, rest)
  behind_dot end rest (t ∷ ts) = if is_mark (codes ".") t then (t.end, ts) else (end, rest)

  -- `path[0].start < caret <= reference_end`; the caret -1 is none.
  unfoldable pub types_reference : Option ℕ → ℕ → ℕ → Bool
  types_reference none start end = false
  types_reference (some caret) start end = ltb start caret && leb caret end

  -- A reference that is no call. `start` is where it starts and `end` where its path ends.
  unfoldable pub read_reference :
      Option ℕ → ℕ → ℕ → List Str → List Token → List Relation × List Token
  read_reference caret start end path rest =
      let dotted = behind_dot end rest (skip_forward rest) in
      let named = read_alias (dotted.1) in
      if types_reference caret start (dotted.0)
      then ([], dotted.1)
      else (relation (named.0) path from_table catalogued ∷ [], named.1)

  unfoldable pub opens_call : Str → List Token → Bool
  opens_call clause [] = false
  opens_call clause (t ∷ ts) = has_text function_sources clause && is_mark (codes "(") t

  -- At an identifier that begins a reference.
  unfoldable pub read_source : Option ℕ → Str → Token → List Token → List Relation × List Token
  read_source caret clause t ts =
      let path = read_dotted_path t ts in
      let call = skip_forward (path.1) in
      if opens_call clause call
      then read_function_source call
      else read_reference caret t.start (path_end t.end (path.0)) (values_of (path.0)) (path.1)

  unfoldable pub ends_list : Str → Option (Str × ℕ) → Bool
  ends_list clause none = false
  ends_list clause (some (name, count)) = reads_as_a_clause u d name (some clause)

  unfoldable pub round_at : Str → Token → List Token → Round
  round_at clause t ts =
      if ends_list clause (clause_starting_at u d.clauses (t ∷ ts))
      then stop
      else if is_mark (codes ",") t
      then pass
      else if is_ident t.type && has_text join_qualifiers (u.upper t.value)
      then pass
      else if not (is_ident t.type)
      then stop
      else if not t.quoted && has_text (reserved_upper u d) (u.upper t.value)
      then stop
      else refer
