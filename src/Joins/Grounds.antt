-- ===== src/Joins/Grounds.antt =====
-- engine/joins.py: what each proposal rests on, and what a missing privilege changes of it.
use pysqlsuggestions.Prelude.{
  ◌&&◌, ◌++◌, codes, text_eq, text_eq_iff, and-eq-true, ◌↔◌, ap₂, Bool, true, false, List, [], ◌∷◌,
  Option, none, some, Str, keep, length, leb, not, if◌then◌else◌, ◌≡◌, refl, sym, ap, subst, ◌∙◌,
  inl, inr, Bool-cases, Option-cases, arith,
}
use mathlib.Core.Option.{some-injective}
use mathlib.Core.List.{Memᴰ}
use mathlib.Core.List.Memᴰ as Memᴰ
use pysqlsuggestions.Lex.Token.{Chars}
use pysqlsuggestions.Dialect.{Dialect}
use pysqlsuggestions.Types.{
  available, restricted, ForeignKey, Scope, scope_relations, Relation, relation_path, in_catalog,
  label, Candidate, plain_candidate, last,
}
use pysqlsuggestions.Joins.Defs.{Link, map_option, split_path, catalog_relations}
use pysqlsuggestions.Joins.Text.{reference, condition, fk_column, free_alias}
use pysqlsuggestions.Joins.Described.{IsLink}
use pysqlsuggestions.Joins.Links.{listed, links-listed, listed_iff}
use pysqlsuggestions.Joins.Clauses.{
  for_each, for_each_of, is_withheld, clause_text, but_last, leads_to, condition_candidate,
  conditions_between, conditions_in, join_conditions, clause_candidate, clause_with, joins_of,
  taken_labels, relation_joins,
}
use pysqlsuggestions.Prelude.Occurs.{keep-Mem}
use pysqlsuggestions.Joins.Each.{for_each-Mem}

map_option-Mem :
    {A B : Type 0} (f : A → B) (o : Option A) (ys : List B) (b : B)
    → map_option (λ a. f a ∷ []) o ≡ some ys
    → Memᴰ b ys
    → (a : A) × (o ≡ some a) × (b ≡ f a)
map_option-Mem f none ys b h m = absurd (ground (arith, h))
map_option-Mem f (some a) ys b h m =
    (a, refl, Memᴰ.eq_of_singleton (subst (λ l. Memᴰ b l) (sym (some-injective (f a ∷ []) ys h)) m))

available-restricted : available ≡ restricted → ⊥
available-restricted h = cc

is_withheld_iff :
    (pairs : List (Str × Str)) (l : Link)
    → (is_withheld pairs l ≡ true) ↔ Memᴰ (l.target_schema, l.target) pairs
unfolding is_withheld
is_withheld_iff [] l = (λ h. absurd (ground (arith, h)), λ m. absurd (Memᴰ.not-nil m))
is_withheld_iff (p ∷ ps) l =
    let schema = text_eq_iff (p.0) l.target_schema in
    let name = text_eq_iff (p.1) l.target in
    let rest = is_withheld_iff ps l in
    (
      λ h. elim (Bool-cases (text_eq (p.0) l.target_schema && text_eq (p.1) l.target)) [
        | inl e ↦
            let both = and-eq-true (text_eq (p.0) l.target_schema) (text_eq (p.1) l.target) e in
            Memᴰ.head (ap₂ (λ a b. (a, b)) (sym (schema.0 (both.0))) (sym (name.0 (both.1))))
        | inr e ↦ Memᴰ.tail (rest.0 (rw e at h))
      ],
      λ m. elim (Memᴰ.cases_cons m) [
        | inl e ↦
            rw
              (
                schema.1 (sym (ap (λ (q : Str × Str). q.0) e)),
                name.1 (sym (ap (λ (q : Str × Str). q.1) e)),
              )
              refl
        | inr m' ↦ ground (arith, rest.1 m')
      ],
    )

-- A clause for `JOIN`: the name of the target, the alias and the whole condition, which names the target
-- by the alias. It is found by the target's name, and marked where the role may not read the target.
pub record Clause (u : Chars) (d : Dialect) (r : Relation) (withheld : List (Str × Str)) (l : Link)
    (alias : Str) (c : Candidate) : Type 0 where
  written :
      c.text
      ≡ reference u d (split_path (relation_path r)).0 l.source_schema l.target_schema l.target
        ++ (codes " " ++ (alias ++ (codes " ON " ++ condition u d (label r) alias l.pairs)))
  inserted : c.snippet ≡ some c.text
  found_by : c.match_text ≡ some l.target
  placed : c.position ≡ l.direction
  unreadable : (c.availability ≡ restricted) ↔ Memᴰ (l.target_schema, l.target) withheld
  explained : (c.reason ≡ none) ↔ (c.availability ≡ available)

clause_with-Clause :
    (u : Chars) (d : Dialect) (r : Relation) (withheld : List (Str × Str)) (l : Link) (alias : Str)
    → Clause u d r withheld l alias
        (clause_with u d r (split_path (relation_path r)) withheld l alias)
unfolding clause_with clause_text plain_candidate
clause_with-Clause u d r withheld l alias = record {
  written = refl;
  inserted = refl;
  found_by = refl;
  placed = refl;
  unreadable = elim (Bool-cases (is_withheld withheld l)) [
    | inl e ↦ rw e (λ h. (is_withheld_iff withheld l).0 e, λ m. refl)
    | inr e ↦ rw e (
      λ h. absurd (available-restricted h),
      λ m. absurd (ground (arith, e, (is_withheld_iff withheld l).1 m)),
    )
  ];
  explained = elim (Bool-cases (is_withheld withheld l)) [
    | inl e ↦ rw e (λ h. absurd (ground (arith, h)), λ h. absurd (available-restricted (sym h)))
    | inr e ↦ rw e (λ h. refl, λ h. refl)
  ];
}

-- Each clause for `JOIN` is written for a relation of the statement that the catalog holds and a link
-- that a declared constraint stands for, with an alias that `_free_alias` gives among the names in
-- scope. Its text is the name of the link's target, the alias and the condition of all the link's pairs
-- between the relation and the alias; it is matched by the target's name; and it is restricted, with
-- a reason, exactly if the target is among the relations that the role may not read.
pub relation_joins-IsLink :
    (u : Chars) (s : Scope) (edges : List ForeignKey) (d : Dialect) (withheld : List (Str × Str))
    (found : List Candidate) (c : Candidate)
    → relation_joins u (some s) edges d withheld ≡ some found
    → Memᴰ c found
    → (r : Relation) × Memᴰ r (catalog_relations s)
      × ((e : ForeignKey) × Memᴰ e edges
          × ((l : Link) × IsLink (split_path (relation_path r)) e l
              × ((alias : Str) × (free_alias u d l.target (taken_labels u s) ≡ some alias)
                  × Clause u d r withheld l alias c)))
unfolding relation_joins joins_of clause_candidate
relation_joins-IsLink u s edges d withheld found c h m =
    let outer =
      for_each-Mem (joins_of u d edges withheld (taken_labels u s)) (catalog_relations s) found c h
        m in
    let r = outer.0 in
    let source = split_path (relation_path r) in
    let body = outer.2 in
    let each = clause_candidate u d r source withheld (taken_labels u s) in
    let inner =
      for_each-Mem each (listed source edges) (body.0) c
        (sym (ap (for_each_of each) (links-listed source edges)) ∙ body.1) (body.2) in
    let l = inner.0 in
    let one_of = inner.2 in
    let made =
      map_option-Mem (clause_with u d r source withheld l)
        (free_alias u d l.target (taken_labels u s)) (one_of.0) c (one_of.1) (one_of.2) in
    let ground_of = (listed_iff source edges l).0 (inner.1) in
    let alias = made.0 in
    let clause =
      subst (Clause u d r withheld l alias) (sym (made.2))
        (clause_with-Clause u d r withheld l alias) in
    (r, outer.1, (ground_of.0, ground_of.1, (l, ground_of.2, (alias, made.1, clause))))

nothing :
    {A : Type 0} (o : Option (List A)) (found : List A) (a : A)
    → o ≡ some []
    → o ≡ some found
    → Memᴰ a found
    → ⊥
nothing o found a e h m =
    Memᴰ.not-nil (subst (λ l. Memᴰ a l) (sym (some-injective [] found (sym e ∙ h))) m)

opened :
    {A : Type 0} (b : Bool) (o : Option (List A)) (found : List A)
    → b ≡ false
    → (if b then some [] else o) ≡ some found
    → o ≡ some found
opened true o found e h = absurd (ground (arith, e))
opened false o found e h = h

-- What a condition for `ON` says of the two relations that it joins.
conditions_in-IsLink :
    (u : Chars) (edges : List ForeignKey) (d : Dialect) (s : Scope) (latest : Relation)
    (found : List Candidate) (c : Candidate)
    → conditions_in u edges d s latest ≡ some found
    → Memᴰ c found
    → (earlier : Relation) × Memᴰ earlier (but_last (catalog_relations s))
      × ((e : ForeignKey) × Memᴰ e edges
          × ((l : Link) × IsLink (split_path (relation_path earlier)) e l
              × (leads_to (split_path (relation_path latest)) l ≡ true)
              × (c.text ≡ condition u d (label earlier) (label latest) l.pairs)))
unfolding conditions_between condition_candidate conditions_in plain_candidate
conditions_in-IsLink u edges d s latest found c h m = elim (Bool-cases (not (in_catalog latest))) [
  | inl no_catalog ↦
      absurd (nothing (conditions_in u edges d s latest) found c (rw no_catalog refl) h m)
  | inr e ↦
      let looped : for_each (conditions_between u d edges latest) (but_last (catalog_relations s))
          ≡ some found =
        opened (not (in_catalog latest))
          (for_each (conditions_between u d edges latest) (but_last (catalog_relations s))) found e
          h in
      let outer =
        for_each-Mem (conditions_between u d edges latest) (but_last (catalog_relations s)) found c
          looped m in
      let earlier = outer.0 in
      let source = split_path (relation_path earlier) in
      let leads = leads_to (split_path (relation_path latest)) in
      let body = outer.2 in
      let each = condition_candidate u d earlier latest in
      let inner =
        for_each-Mem each (keep leads (listed source edges)) (body.0) c
          (sym (ap (λ o. for_each_of each (map_option (keep leads) o)) (links-listed source edges))
            ∙ body.1)
          (body.2) in
      let l = inner.0 in
      let kept = keep-Mem leads (listed source edges) l (inner.1) in
      let ground_of = (listed_iff source edges l).0 (kept.0) in
      let one_of = inner.2 in
      let made = map_option-Mem _ (fk_column l) (one_of.0) c (one_of.1) (one_of.2) in
      (
        earlier,
        outer.1,
        (
          ground_of.0,
          ground_of.1,
          (l, ground_of.2, kept.1, ap (λ (x : Candidate). x.text) (made.2)),
        ),
      )
]

-- Each condition for `ON` joins the relation written last to one of the relations that the catalog
-- holds, the last of these left out: it is the whole condition of a link that a declared constraint
-- stands for, and the link leads to the relation written last.
pub join_conditions-IsLink :
    (u : Chars) (s : Scope) (edges : List ForeignKey) (d : Dialect) (found : List Candidate)
    (c : Candidate)
    → join_conditions u (some s) edges d ≡ some found
    → Memᴰ c found
    → (latest : Relation) × (last (scope_relations s) ≡ some latest)
      × ((earlier : Relation) × Memᴰ earlier (but_last (catalog_relations s))
          × ((e : ForeignKey) × Memᴰ e edges
              × ((l : Link) × IsLink (split_path (relation_path earlier)) e l
                  × (leads_to (split_path (relation_path latest)) l ≡ true)
                  × (c.text ≡ condition u d (label earlier) (label latest) l.pairs))))
unfolding join_conditions
join_conditions-IsLink u s edges d found c h m =
    elim (Bool-cases (leb (length (scope_relations s)) 1)) [
      | inl e ↦ absurd (nothing (join_conditions u (some s) edges d) found c (rw e refl) h m)
      | inr e ↦ elim (Option-cases (last (scope_relations s))) [
        | inl f ↦
            let none_there : join_conditions u (some s) edges d ≡ none = rw (e, f) refl in
            let clash : none ≡ some found = sym none_there ∙ h in absurd (ground (arith, clash))
        | inr (latest, f) ↦
            let same : join_conditions u (some s) edges d ≡ conditions_in u edges d s latest =
              rw (e, f) refl in
            (latest, f, conditions_in-IsLink u edges d s latest found c (sym same ∙ h) m)
      ]
    ]
