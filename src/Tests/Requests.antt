-- ===== src/Tests/Requests.antt =====
-- The requests, at concrete inputs.
use pysqlsuggestions.Prelude.{
  pos, negsuc, suc, ◌+◌, false, [], some, Str, codes, length, starts_with, find_from, ◌≡◌, refl,
}
use pysqlsuggestions.Lex.Token.{Token, string}
use pysqlsuggestions.Types.{Request}
use pysqlsuggestions.Quote.Defs.{replace_from}
use pysqlsuggestions.Quote.ReadBack.{doubled}
use pysqlsuggestions.Requests.Literals.{literal_opening, literal_prefix, body_start, quote_or_first}
use pysqlsuggestions.Requests.Derive.{derive_request}
use pysqlsuggestions.Requests.Span.{Around, derive_request-Around}
use pysqlsuggestions.Requests.Undoubled.{apostrophe, literal_prefix-doubled}
use pysqlsuggestions.Tests.Ascii.{ascii, ascii-IsUnicode}
use pysqlsuggestions.Tests.Analysis.{sql}

escape : literal_opening (codes "E'an") ≡ (2, codes "'")
unfolding literal_opening body_start quote_or_first starts_with find_from
escape = refl

dollars : literal_opening (codes "$$clic") ≡ (2, [])
unfolding literal_opening body_start quote_or_first starts_with find_from
dollars = refl

abbrev quoted_value : Str
quoted_value = codes "SELECT a FROM t WHERE b = 'it''s' AND"

derive_request-Around_example :
    (r : Request) × (derive_request ascii quoted_value (negsuc 999) sql ≡ some r)
    × (derive_request ascii quoted_value (pos 0) sql ≡ some r)
    × Around (length quoted_value) 0 r.replace_span
derive_request-Around_example =
    derive_request-Around ascii ascii-IsUnicode sql quoted_value (negsuc 999)

-- The token of 'it''s that begins at 26.
abbrev half_written : Token
half_written = record {
  type = string;
  start = 26;
  end = 32;
  text = codes "'it''s";
  value = codes "'it''s";
  quoted = false;
  terminated = false;
  depth = 0;
}

literal_prefix-doubled_example :
    literal_prefix half_written (26 + suc (length (doubled apostrophe (codes "it's"))))
    ≡ codes "it's"
unfolding replace_from starts_with
literal_prefix-doubled_example = literal_prefix-doubled half_written (codes "it's") [] refl
