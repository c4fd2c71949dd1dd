-- ===== src/Datatypes/Defs.antt =====
-- engine/datatypes.py: `family`, `literals` and `comparable`.
use pysqlsuggestions.Prelude.{
  ℕ, zero, suc, Bool, false, not, ◌||◌, List, [], ◌∷◌, ◌++◌, Option, none, some, Str, codes, length,
  keep, any, ◌==◌, if◌then◌else◌, text_eq, starts_with, non_empty, has_text, or_else,
}
use pysqlsuggestions.Lex.Token.{Chars}
use pysqlsuggestions.Types.{last}
use pysqlsuggestions.Quote.Defs.{in_range, replace_from}
use pysqlsuggestions.Local.Defs.{split_on}

abbrev pub unknown_family : Str
unknown_family = codes "unknown"

-- `text.split()`, of a text whose only whitespace is the space.
abbrev pub split_words : Str → List Str
split_words text = keep non_empty (split_on b' ' text)

unfoldable pub containers : List Str
containers = split_words (codes "array map tuple nested struct row set")

unfoldable pub modifiers : List Str
modifiers = split_words (codes "nullable lowcardinality simpleaggregatefunction unsigned signed")

unfoldable pub families : List (Str × List Str)
families =
    (
      codes "numeric",
      split_words (
            codes
              "int int2 int4 int8 int16 int32 int64 int128 int256 integer smallint bigint tinyint mediumint")
          ++ split_words
              (codes "uint8 uint16 uint32 uint64 uint128 uint256 dec decimal numeric fixed")
          ++ split_words
              (codes "float float4 float8 float32 float64 real double precision money number")
          ++ split_words (codes "serial smallserial bigserial serial2 serial4 serial8"),
    )
    ∷ (
      codes "temporal",
      split_words (codes "date timestamp timestamptz datetime datetime64 date32 smalldatetime"),
    )
    ∷ (codes "clock", split_words (codes "time timetz"))
    ∷ (codes "interval", codes "interval" ∷ [])
    ∷ (codes "boolean", split_words (codes "bool boolean"))
    ∷ (
      codes "string",
      split_words (
            codes
              "char varchar character nchar nvarchar text string citext clob name enum enum8 enum16")
          ++ split_words (codes "fixedstring longtext mediumtext tinytext"),
    )
    ∷ (codes "json", split_words (codes "json jsonb"))
    ∷ (codes "binary", split_words (codes "bytea binary varbinary blob bytes"))
    ∷ (codes "uuid", codes "uuid" ∷ [])
    ∷ (codes "network", split_words (codes "inet cidr macaddr macaddr8 ipv4 ipv6"))
    ∷ []

-- `_OF_WORD.get(word)`; no word stands in two families.
unfoldable pub of_word : List (Str × List Str) → Str → Option Str
of_word [] word = none
of_word (row ∷ rows) word = if has_text (row.1) word then some (row.0) else of_word rows word

abbrev pub in_word : ℕ → Bool
in_word c = in_range b'a' b'z' c || in_range b'0' b'9' c

-- `_WORDS.findall(text)`, behind the characters of a word that has begun.
unfoldable pub find_words : Str → Str → List Str
find_words [] [] = []
find_words (w ∷ ws) [] = (w ∷ ws) ∷ []
find_words [] (c ∷ cs) =
    let begun = find_words (c ∷ []) cs in
    let rest = find_words [] cs in if in_range b'a' b'z' c then begun else rest
find_words (w ∷ ws) (c ∷ cs) =
    let longer = find_words (w ∷ (ws ++ (c ∷ []))) cs in
    let rest = find_words [] cs in if in_word c then longer else (w ∷ ws) ∷ rest

abbrev pub or_next : Option Str → Str → Str
or_next none next = next
or_next (some found) next = found

-- The loop of `family`.
unfoldable pub family_of_words : List Str → Str
family_of_words [] = unknown_family
family_of_words (word ∷ words) =
    let next = family_of_words words in
    if has_text containers word
    then unknown_family
    else (if has_text modifiers word then next else or_next (of_word families word) next)

-- `text.rstrip().endswith(']')`: the last character that is no whitespace.
unfoldable pub ends_in_bracket : Chars → Str → Bool
ends_in_bracket u text = elim (last (keep (λ c. not (u.is_space c)) text)) [
  | none ↦ false
  | some c ↦ c == b']'
]

unfoldable pub family_of_text : Chars → Str → Str
family_of_text u text =
    if not (non_empty text)
    then unknown_family
    else (if ends_in_bracket u text
        then unknown_family
        else family_of_words (find_words [] (u.lower text)))

unfoldable pub family : Chars → Option Str → Str
family u none = unknown_family
family u (some text) = family_of_text u text

abbrev pub in_label : Str → Option Str → Option Str
in_label cs none = none
in_label cs (some label) = some (cs ++ label)

-- `((?:[^']|'')*)'` from here on: what the group holds. A pair of quotes is taken where a match is
-- found behind it, and else the first of the two closes.
unfoldable pub label_body : Str → Option Str
label_body [] = none
label_body (c ∷ []) = if c == b'\'' then some [] else none
label_body (c ∷ d ∷ cs) =
    let past_pair = label_body cs in
    let past_one = label_body (d ∷ cs) in
    if c == b'\''
    then (if d == b'\'' then or_else (in_label (c ∷ d ∷ []) past_pair) (some []) else some [])
    else in_label (c ∷ []) past_one

-- `match.group(1).replace("''", "'")`.
abbrev pub unescape : Str → Str
unescape = replace_from (codes "''") (codes "'") 0

abbrev pub or_skip : Option Str → (Str → List Str) → List Str → List Str
or_skip none found other = other
or_skip (some label) found other = found label

-- `_ENUM_LABELS.finditer(text)`; the number counts the characters of a match still to be passed over.
unfoldable pub find_labels : ℕ → Str → List Str
find_labels k [] = []
find_labels (suc k) (c ∷ cs) = find_labels k cs
find_labels zero (c ∷ cs) =
    let other = find_labels 0 cs in
    let behind = λ (k : ℕ). find_labels k cs in
    if c == b'\''
    then or_skip (label_body cs) (λ label. unescape label ∷ behind (suc (length label))) other
    else other

unfoldable pub literals : Chars → Option Str → List Str
literals u none = []
literals u (some text) =
    if not (non_empty text)
    then []
    else (if text_eq (family u (some text)) (codes "boolean")
        then codes "true" ∷ codes "false" ∷ []
        else (if any (starts_with (u.lower text))
              (codes "enum8(" ∷ codes "enum16(" ∷ codes "enum(" ∷ [])
            then find_labels 0 text
            else []))

unfoldable pub comparable : Str → Str → Bool
comparable left right = has_text (left ∷ right ∷ []) unknown_family || text_eq left right
