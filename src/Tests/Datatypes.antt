-- ===== src/Tests/Datatypes.antt =====
-- Families and literals at concrete inputs.
use pysqlsuggestions.Prelude.{
  List, [], ◌∷◌, ◌++◌, some, Str, codes, ◌≡◌, refl, starts_with, text_eq, map,
}
use pysqlsuggestions.Quote.Defs.{replace_from, quoted}
use pysqlsuggestions.Local.Defs.{split_on}
use pysqlsuggestions.Datatypes.Defs.{
  containers, modifiers, families, of_word, find_words, family_of_words, ends_in_bracket,
  family_of_text, family, label_body, find_labels, literals,
}
use pysqlsuggestions.Datatypes.Labels.{written, literals-written}
use pysqlsuggestions.Tests.Ascii.{ascii}

family_test :
    map (family ascii) (
      some (codes "timestamp with time zone")
      ∷ some (codes "LowCardinality(String)")
      ∷ some (codes "Map(String, UInt8)")
      ∷ some (codes "bigint[] ")
      ∷ some (codes "endpoint_kind")
      ∷ [])
    ≡ codes "temporal" ∷ codes "string" ∷ codes "unknown" ∷ codes "unknown" ∷ codes "unknown" ∷ []
unfolding containers modifiers families of_word find_words family_of_words ends_in_bracket
    family_of_text family split_on text_eq
family_test = refl

-- The fall back to the first of two apostrophes, where nothing closes behind them.
label_test : find_labels 0 (codes "enum('a''b)") ≡ codes "a" ∷ []
unfolding find_labels label_body replace_from starts_with
label_test = refl

abbrev rows : List (Str × Str)
rows = (codes "ok", codes " = 1, ") ∷ (codes "it's", codes " = 2)") ∷ []

literals-written_example :
    literals ascii (some (codes "Enum8(" ++ written rows)) ≡ codes "ok" ∷ codes "it's" ∷ []
unfolding containers modifiers families of_word find_words family_of_words ends_in_bracket
    family_of_text family split_on text_eq quoted replace_from starts_with
literals-written_example = literals-written ascii (codes "Enum8(") rows refl refl refl refl refl
