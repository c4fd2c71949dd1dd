-- ===== src/Joins/Described.antt =====
-- engine/joins.py: a description of the links that a constraint stands for.
use pysqlsuggestions.Prelude.{
  true, false, ◌&&◌, [], ◌∷◌, Str, text_eq, text_eq_iff, ◌≡◌, refl, ◌↔◌, ◌⊎◌, inl, and-eq-true,
  arith,
}
use pysqlsuggestions.Types.{ForeignKey}
use pysqlsuggestions.Joins.Pairs.{Pairs, paired, paired-Pairs, flip-Pairs}
use pysqlsuggestions.Joins.Defs.{
  Link, same_schema, malformed, forward_link, reverse_link, at_source, at_target,
}

-- A schema that the text names, or none, reaches the schema of a constraint.
pub Reaches : Str → Str → Type 0
Reaches named declared = (named ≡ []) ⊎ (named ≡ declared)

-- The link is one that the constraint stands for, seen from `source`: it has every column of the
-- constraint, the side of `source` on the left. Seen from both ends, the side that refers counts.
pub data IsLink (source : Str × Str) (e : ForeignKey) (l : Link) : Type 0 where
  from_source :
      e.table ≡ source.1
      → Reaches (source.0) e.schema
      → Pairs l.pairs e.columns e.ref_columns
      → l ≡ (record {
        source_schema = e.schema;
        target_schema = e.ref_schema;
        target = e.ref_table;
        pairs = l.pairs;
        direction = 0;
      })
      → IsLink source e l
  from_target :
      ¬ ((e.table ≡ source.1) × Reaches (source.0) e.schema)
      → e.ref_table ≡ source.1
      → Reaches (source.0) e.ref_schema
      → Pairs l.pairs e.ref_columns e.columns
      → l ≡ (record {
        source_schema = e.ref_schema;
        target_schema = e.schema;
        target = e.table;
        pairs = l.pairs;
        direction = 1;
      })
      → IsLink source e l

same_schema_iff :
    (named declared : Str) → (same_schema named declared ≡ true) ↔ Reaches named declared
unfolding same_schema Reaches
same_schema_iff [] declared = (λ h. inl refl, λ h. refl)
same_schema_iff (c ∷ cs) declared = ground (arith, text_eq_iff (c ∷ cs) declared)

pub matches_iff :
    (table named name declared : Str)
    → ((text_eq table name && same_schema named declared) ≡ true)
      ↔ ((table ≡ name) × Reaches named declared)
matches_iff table named name declared = (
  λ h. (
    (text_eq_iff table name).0 (and-eq-true (text_eq table name) (same_schema named declared) h).0,
    (same_schema_iff named declared).0
        (and-eq-true (text_eq table name) (same_schema named declared) h).1,
  ),
  λ h. rw ((text_eq_iff table name).1 (h.0), (same_schema_iff named declared).1 (h.1)) refl,
)

-- The two links of a constraint that is not malformed are links of it, and the only ones.
pub forward_link-IsLink :
    (source : Str × Str) (e : ForeignKey)
    → malformed e ≡ false
    → at_source source e ≡ true
    → IsLink source e (forward_link e (paired e.columns e.ref_columns))
unfolding malformed forward_link
forward_link-IsLink source e even here =
    let at = (matches_iff e.table (source.0) (source.1) e.schema).0 here in
    from_source (at.0) (at.1) (paired-Pairs e.columns e.ref_columns even) refl

pub reverse_link-IsLink :
    (source : Str × Str) (e : ForeignKey)
    → malformed e ≡ false
    → at_source source e ≡ false
    → at_target source e ≡ true
    → IsLink source e (reverse_link e (paired e.columns e.ref_columns))
unfolding malformed reverse_link
reverse_link-IsLink source e even away here =
    let at = (matches_iff e.ref_table (source.0) (source.1) e.ref_schema).0 here in
    let pairs = paired-Pairs e.columns e.ref_columns even in
    from_target
      (λ both. ground (arith, away, (matches_iff e.table (source.0) (source.1) e.schema).1 both))
      (at.0) (at.1) (flip-Pairs (paired e.columns e.ref_columns) e.columns e.ref_columns pairs) refl
