-- ===== src/Rank/Present.antt =====
-- engine/rank.py: `matches` and `kinds_present`.
use pysqlsuggestions.Prelude.{
  Bool, true, false, List, [], ◌∷◌, ◌++◌, Option, none, some, Str, any, if◌then◌else◌,
}
use pysqlsuggestions.Lex.Token.{Chars}
use pysqlsuggestions.Types.{Kind, is_kind}
use pysqlsuggestions.Rank.Match.{Floats, match_strength}
use pysqlsuggestions.Rank.Defs.{Suggestion}

abbrev pub is_matched {ℓ} : {A : Type ℓ} → Option A → Bool
is_matched none = false
is_matched (some a) = true

unfoldable pub matches : Chars → Floats → Str → Str → Kind → Bool
matches u f text prefix kind = is_matched (match_strength u f text prefix kind)

-- The loop of `kinds_present`; a dictionary keeps the order in which its keys came.
unfoldable pub kinds_from : {F : Type 0} → List Kind → List (Suggestion F) → List Kind
kinds_from seen [] = seen
kinds_from seen (s ∷ ss) =
    kinds_from (if any (λ k. is_kind k s.kind) seen then seen else seen ++ s.kind ∷ []) ss

unfoldable pub kinds_present : {F : Type 0} → List (Suggestion F) → List Kind
kinds_present suggestions = kinds_from [] suggestions
