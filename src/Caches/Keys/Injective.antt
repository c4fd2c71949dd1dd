-- ===== src/Caches/Keys/Injective.antt =====
-- caches/keys.py: no two reads share a key.
use pysqlsuggestions.Prelude.{
  ℕ, true, false, List, [], ◌∷◌, ◌++◌, Option, none, some, Str, codes, map, ◌==◌, if◌then◌else◌,
  all, text_eq, ◌≡◌, refl, sym, ap, ap₂, ◌∙◌, arith, and-eq-true,
}
use pysqlsuggestions.Caches.Keys.Defs.{
  quote_bytes, ReadKind, schemas, tables, queryable, columns, functions, values, fk, kind_text,
  join_colons, quote, component, cache_key,
}
use pysqlsuggestions.Caches.Keys.ReadBack.{
  unquote, key_char, unquote-quote_bytes, quote_bytes_fit, AllBytes,
}

-- Splits at each colon.
cons_first : ℕ → List Str → List Str
cons_first c [] = (c ∷ []) ∷ []
cons_first c (x ∷ xs) = (c ∷ x) ∷ xs

split_colons : Str → List Str
split_colons [] = [] ∷ []
split_colons (c ∷ cs) =
    let rest = split_colons cs in if c == b':' then [] ∷ rest else cons_first c rest

not_colon : (c : ℕ) → key_char c ≡ true → (c == b':') ≡ false
not_colon c h = ground arith

split-append :
    (x rest : Str)
    → all key_char x ≡ true
    → split_colons (x ++ (b':' ∷ rest)) ≡ x ∷ split_colons rest
unfolding split_colons
split-append [] rest h = refl
split-append (c ∷ cs) rest h =
    let parts = and-eq-true (key_char c) (all key_char cs) h in
    rw (not_colon c parts.0, split-append cs rest parts.1) (unfold cons_first in refl)

split-last : (x : Str) → all key_char x ≡ true → split_colons x ≡ x ∷ []
unfolding split_colons cons_first
split-last [] h = refl
split-last (c ∷ cs) h = ground (arith, split-last cs)

split-join :
    (x : Str) (xs : List Str)
    → all (all key_char) (x ∷ xs) ≡ true
    → split_colons (join_colons (x ∷ xs)) ≡ x ∷ xs
unfolding join_colons
split-join x [] h = split-last x (and-eq-true (all key_char x) true h).0
split-join x (y ∷ xs) h =
    let parts = and-eq-true (all key_char x) (all (all key_char) (y ∷ xs)) h in
    split-append x (join_colons (y ∷ xs)) parts.0 ∙ ap (◌∷◌ x) (split-join y xs parts.1)

join-injective :
    (x y : Str) (xs ys : List Str)
    → all (all key_char) (x ∷ xs) ≡ true
    → all (all key_char) (y ∷ ys) ≡ true
    → join_colons (x ∷ xs) ≡ join_colons (y ∷ ys)
    → x ∷ xs ≡ y ∷ ys
join-injective x y xs ys h k e = sym (split-join x xs h) ∙ ap split_colons e ∙ split-join y ys k

kind_of : Str → Option ReadKind
unfolding text_eq
kind_of t =
    if text_eq t (kind_text schemas)
    then some schemas
    else (if text_eq t (kind_text tables)
        then some tables
        else (if text_eq t (kind_text queryable)
            then some queryable
            else (if text_eq t (kind_text columns)
                then some columns
                else (if text_eq t (kind_text functions)
                    then some functions
                    else (if text_eq t (kind_text values) then some values else some fk)))))

kind_of-kind_text : (k : ReadKind) → kind_of (kind_text k) ≡ some k
unfolding kind_of
kind_of-kind_text schemas = refl
kind_of-kind_text _ = refl

kind_text_fits : (k : ReadKind) → all key_char (kind_text k) ≡ true
kind_text_fits schemas = refl
kind_text_fits _ = refl

-- What the key relies on: UTF-8 encodes texts as bytes, no two alike, and a hexadecimal digest has
-- only ASCII characters and no colon.
pub record IsEncoding (utf8 : Str → List ℕ) (fingerprint : Str) : Type 0 where
  pub bytes : (text : Str) → AllBytes (utf8 text)
  pub injective : (s t : Str) → utf8 s ≡ utf8 t → s ≡ t
  pub digest : all key_char fingerprint ≡ true

module _ (utf8 : Str → List ℕ) (fingerprint : Str) (enc : IsEncoding utf8 fingerprint) where
  quote_fits : (text : Str) → all key_char (quote utf8 fingerprint text) ≡ true
  unfolding quote
  quote_fits text = quote_bytes_fit (utf8 text) (enc.bytes text)

  component_fits : (part : Option Str) → all key_char (component utf8 fingerprint part) ≡ true
  unfolding component
  component_fits none = refl
  component_fits (some part) = quote_fits part

  components_fit :
      (parts : List (Option Str))
      → all (all key_char) (map (component utf8 fingerprint) parts) ≡ true
  components_fit [] = refl
  components_fit (p ∷ parts) = rw (component_fits p) (components_fit parts)

  quote-injective : (s t : Str) → quote utf8 fingerprint s ≡ quote utf8 fingerprint t → s ≡ t
  unfolding quote
  quote-injective s t e =
      let body : quote_bytes (utf8 s) ≡ quote_bytes (utf8 t) = cc in
      enc.injective s t (
        sym (unquote-quote_bytes (utf8 s) (enc.bytes s))
        ∙ ap unquote body
        ∙ unquote-quote_bytes (utf8 t) (enc.bytes t))

  component-injective :
      (p q : Option Str) → component utf8 fingerprint p ≡ component utf8 fingerprint q → p ≡ q
  unfolding component quote
  component-injective none none e = refl
  component-injective none (some t) e = absurd (ground arith)
  component-injective (some s) none e = absurd (ground arith)
  component-injective (some s) (some t) e = ap some (quote-injective s t e)

  components-injective :
      (ps qs : List (Option Str))
      → map (component utf8 fingerprint) ps ≡ map (component utf8 fingerprint) qs
      → ps ≡ qs
  components-injective [] [] e = refl
  components-injective [] (q ∷ qs) e = cc
  components-injective (p ∷ ps) [] e = cc
  components-injective (p ∷ ps) (q ∷ qs) e =
      let first : component utf8 fingerprint p ≡ component utf8 fingerprint q = cc in
      let rest : map (component utf8 fingerprint) ps ≡ map (component utf8 fingerprint) qs = cc in
      ap₂ (◌∷◌) (component-injective p q first) (components-injective ps qs rest)

  -- The fields of a key.
  abbrev fields : Option Str → Str → ReadKind → List (Option Str) → List Str
  fields i d k ps =
      fingerprint
      ∷ component utf8 fingerprint i
      ∷ quote utf8 fingerprint d
      ∷ kind_text k
      ∷ map (component utf8 fingerprint) ps

  fields_fit :
      (i : Option Str) (d : Str) (k : ReadKind) (ps : List (Option Str))
      → all (all key_char) (codes "3" ∷ fields i d k ps) ≡ true
  fields_fit i d k ps =
      rw (enc.digest, component_fits i, quote_fits d, kind_text_fits k) (components_fit ps)

  -- Where UTF-8 is injective and the fingerprint has no colon: two reads that have one key agree in
  -- identity, dialect, kind and namespace path, `None` being told apart from every string.
  pub cache_key-injective :
      (identity identity' : Option Str) (dialect dialect' : Str) (kind kind' : ReadKind)
      (parts parts' : List (Option Str))
      → cache_key utf8 fingerprint identity dialect kind parts
        ≡ cache_key utf8 fingerprint identity' dialect' kind' parts'
      → (identity ≡ identity') × (dialect ≡ dialect') × (kind ≡ kind') × (parts ≡ parts')
  unfolding cache_key
  cache_key-injective i i' d d' k k' ps ps' e =
      let same =
        join-injective (codes "3") (codes "3") (fields i d k ps) (fields i' d' k' ps')
          (fields_fit i d k ps) (fields_fit i' d' k' ps') e in
      let identities : component utf8 fingerprint i ≡ component utf8 fingerprint i' = cc in
      let dialects : quote utf8 fingerprint d ≡ quote utf8 fingerprint d' = cc in
      let kinds : kind_text k ≡ kind_text k' = cc in
      let paths : map (component utf8 fingerprint) ps ≡ map (component utf8 fingerprint) ps' = cc in
      let found : some k ≡ some k' =
        sym (kind_of-kind_text k) ∙ ap kind_of kinds ∙ kind_of-kind_text k' in
      (
        component-injective i i' identities,
        quote-injective d d' dialects,
        cc,
        components-injective ps ps' paths,
      )
