-- ===== src/Caches/Keys/Defs.antt =====
-- caches/keys.py: `cache_key`. `str.encode('utf-8')` and the fingerprint are parameters.
use pysqlsuggestions.Prelude.{
  ℕ, ◌+◌, ◌-◌, ◌/◌, ◌%◌, List, [], ◌∷◌, ◌++◌, Option, none, some, Str, codes, map, ltb,
  if◌then◌else◌, has_char,
}

-- `_SAFE`.
abbrev pub safe : Str
safe = codes "abcdefghijklmnopqrstuvwxyzABCDEFGHIJKLMNOPQRSTUVWXYZ0123456789_."

-- One digit of the format `02X`.
abbrev pub hex_digit : ℕ → ℕ
hex_digit n = if ltb n 10 then n + b'0' else n - 10 + b'A'

-- What the loop of `_quote` appends for one byte.
unfoldable pub quote_byte : ℕ → Str
quote_byte byte =
    if has_char safe byte
    then byte ∷ []
    else b'%' ∷ hex_digit (byte / 16) ∷ hex_digit (byte % 16) ∷ []

unfoldable pub quote_bytes : List ℕ → Str
quote_bytes [] = []
quote_bytes (byte ∷ bytes) = quote_byte byte ++ quote_bytes bytes

-- `ReadKind`.
pub data ReadKind : Type 0 where
  schemas tables queryable columns functions values fk : ReadKind

abbrev pub kind_text : ReadKind → Str
kind_text schemas = codes "schemas"
kind_text tables = codes "tables"
kind_text queryable = codes "queryable"
kind_text columns = codes "columns"
kind_text functions = codes "functions"
kind_text values = codes "values"
kind_text fk = codes "fk"

-- `':'.join(parts)`.
unfoldable pub join_colons : List Str → Str
join_colons [] = []
join_colons (x ∷ []) = x
join_colons (x ∷ y ∷ xs) = x ++ (b':' ∷ join_colons (y ∷ xs))

module _ (utf8 : Str → List ℕ) (fingerprint : Str) where
  -- `_quote`.
  unfoldable pub quote : Str → Str
  quote text = b'+' ∷ quote_bytes (utf8 text)

  unfoldable pub component : Option Str → Str
  component none = codes "-"
  component (some part) = quote part

  unfoldable pub cache_key : Option Str → Str → ReadKind → List (Option Str) → Str
  cache_key identity dialect kind parts = join_colons (
      codes "3"
      ∷ fingerprint
      ∷ component identity
      ∷ quote dialect
      ∷ kind_text kind
      ∷ map component parts)
