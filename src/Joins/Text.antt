-- ===== src/Joins/Text.antt =====
-- engine/joins.py: the texts of a join, and the choice of an alias. A function that may raise, or that
-- loops, gives an option, whose `none` is the exception or the lack of fuel.
use pysqlsuggestions.Prelude.{
  ℕ, zero, suc, not, ◌&&◌, ◌||◌, List, [], ◌∷◌, ◌++◌, Option, none, some, Str, codes, length, take,
  keep, map, ◌==◌, if◌then◌else◌, text_eq, non_empty, has_text, decimal,
}
use pysqlsuggestions.Lex.Token.{Chars}
use pysqlsuggestions.Dialect.{Dialect}
use pysqlsuggestions.Quote.Defs.{quote_if_needed}
use pysqlsuggestions.Local.Defs.{alias_forms}
use pysqlsuggestions.Joins.Defs.{Link, forward}

-- `sep.join(texts)`.
unfoldable pub join_with : Str → List Str → Str
join_with sep [] = []
join_with sep (t ∷ []) = t
join_with sep (t ∷ t' ∷ ts) = t ++ (sep ++ join_with sep (t' ∷ ts))

-- The first pair's side that refers, for a direction.
unfoldable pub referring : ℕ → List (Str × Str) → Option Str
referring direction [] = none
referring direction (p ∷ ps) = some (if direction == forward then p.0 else p.1)

unfoldable pub fk_column : Link → Option Str
fk_column l = referring l.direction l.pairs

abbrev rendered_columns : List Str → Str
rendered_columns (c ∷ []) = c
rendered_columns columns = codes "(" ++ (join_with (codes ", ") columns ++ codes ")")

unfoldable pub note : Link → Str
note l = codes "fk: " ++ (l.target ++ (codes "." ++ rendered_columns (map (λ p. p.1) l.pairs)))

-- The first form of a list that no name in scope answers to.
unfoldable pub first_free : Chars → List Str → List Str → Option Str
first_free u taken [] = none
first_free u taken (form ∷ forms) =
    if not (has_text taken (u.lower form)) then some form else first_free u taken forms

-- The loop on `suffix`.
unfoldable pub numbered : ℕ → Str → List Str → ℕ → Option Str
numbered zero stem taken suffix = none
numbered (suc fuel) stem taken suffix =
    let rest = numbered fuel stem taken (suc suffix) in
    if has_text taken (stem ++ decimal suffix) then rest else some (stem ++ decimal suffix)

abbrev pub or_t : Str → Str
or_t [] = codes "t"
or_t (c ∷ cs) = c ∷ cs

unfoldable pub stem_of : Chars → Str → List Str → Str
stem_of u name [] = or_t (keep u.is_alnum (u.lower (take 3 name)))
stem_of u name (form ∷ forms) = form

unfoldable pub free_forms : Chars → Dialect → Str → List Str
free_forms u d name = keep (λ form. not (has_text d.reserved (u.lower form))) (alias_forms u name)

unfoldable pub free_alias : Chars → Dialect → Str → List Str → Option Str
free_alias u d name taken =
    let forms = free_forms u d name in
    elim (first_free u taken forms) [
      | some form ↦ some form
      | none ↦ numbered (suc (length taken)) (stem_of u name forms) taken 2
    ]

unfoldable pub condition : Chars → Dialect → Str → Str → List (Str × Str) → Str
condition u d left right pairs = join_with (codes " AND ") (
    map
      (λ p.
        quote_if_needed u left d
        ++ (codes "."
            ++ (quote_if_needed u (p.0) d
                ++ (codes " = "
                    ++ (quote_if_needed u right d ++ (codes "." ++ quote_if_needed u (p.1) d))))))
      pairs)

unfoldable pub reference : Chars → Dialect → Str → Str → Str → Str → Str
reference u d named source_schema target_schema table =
    if non_empty target_schema && (not (text_eq target_schema source_schema) || non_empty named)
    then quote_if_needed u target_schema d ++ (codes "." ++ quote_if_needed u table d)
    else quote_if_needed u table d
