-- ===== src/SqlTables/Ctes.antt =====
-- What the walk of src/sql-tables.js makes of the CTEs of a query node: their bodies and scopes.
use ichibi_lake.Base.{
  String, ◌≡◌, refl, sym, ◌∙◌, some, inl, inr, ◌==◌, arith, Bool-cases, Option-cases,
}
use ichibi_lake.Base.Exec.{ok, err}
use ichibi_lake.SqlTables.Ast.{
  Json, null, bool, number, text, array, object, Items, nil, cons, Fields, end, field, get,
}
use ichibi_lake.SqlTables.Walk.{Refs, Out, Scope, join_refs, with_name}
use ichibi_lake.SqlTables.Extract.{
  CteOut, after, entry_key, walk, walk_ctes, walk_cte_map, walk_map, walk_cte_list, walk_entries,
  walk_value,
}
use ichibi_lake.SqlTables.Reads.{in_map, in_cte_map, ctes, scope_after, IsBody}
use ichibi_lake.SqlTables.Complete.{Within, Within-trans, Within-left, Within-right, Feeds}

module _ (lower : String → String) where
  -- The CTEs: what the walk does is a walk over their list.
  walk_cte_list-eq :
      (v : Json) (scope : Scope) (refs : Refs) (inner : Scope)
      → walk_cte_list lower v scope ≡ ok (refs, inner)
      → walk_entries lower (in_map (some v)) scope ≡ ok (refs, inner)
  unfolding walk_cte_list walk_entries
  walk_cte_list-eq null scope refs inner h = h
  walk_cte_list-eq (array xs) scope refs inner h = h
  walk_cte_list-eq (bool b) scope refs inner h = absurd (ground (arith, h))
  walk_cte_list-eq (number n) scope refs inner h = absurd (ground (arith, h))
  walk_cte_list-eq (text t) scope refs inner h = absurd (ground (arith, h))
  walk_cte_list-eq (object fs) scope refs inner h = absurd (ground (arith, h))

  walk_map-eq :
      (fields : Fields) (scope : Scope) (refs : Refs) (inner : Scope)
      → walk_map lower fields scope ≡ ok (refs, inner)
      → walk_entries lower (in_map (get "map" fields)) scope ≡ ok (refs, inner)
  unfolding walk_map walk_entries get
  walk_map-eq end scope refs inner h = h
  walk_map-eq (field k v rest) scope refs inner h = elim (Bool-cases (k == "map")) [
    | inl here ↦ rw here (walk_cte_list-eq v scope refs inner (ground (arith, h, here)))
    | inr later ↦ rw later (walk_map-eq rest scope refs inner (ground (arith, h, later)))
  ]

  walk_cte_map-eq :
      (v : Json) (scope : Scope) (refs : Refs) (inner : Scope)
      → walk_cte_map lower v scope ≡ ok (refs, inner)
      → walk_entries lower (in_cte_map (some v)) scope ≡ ok (refs, inner)
  unfolding walk_cte_map walk_entries
  walk_cte_map-eq null scope refs inner h = h
  walk_cte_map-eq (array xs) scope refs inner h = absurd (ground (arith, h))
  walk_cte_map-eq (bool b) scope refs inner h = h
  walk_cte_map-eq (number n) scope refs inner h = h
  walk_cte_map-eq (text t) scope refs inner h = h
  walk_cte_map-eq (object fs) scope refs inner h = walk_map-eq fs scope refs inner h

  pub walk_ctes-eq :
      (node : Fields) (scope : Scope) (refs : Refs) (inner : Scope)
      → walk_ctes lower node scope ≡ ok (refs, inner)
      → walk_entries lower (ctes node) scope ≡ ok (refs, inner)
  unfolding walk_ctes walk_entries get
  walk_ctes-eq end scope refs inner h = h
  walk_ctes-eq (field k v rest) scope refs inner h = elim (Bool-cases (k == "cte_map")) [
    | inl here ↦ rw here (walk_cte_map-eq v scope refs inner (ground (arith, h, here)))
    | inr later ↦ rw later (walk_ctes-eq rest scope refs inner (ground (arith, h, later)))
  ]

  walk_value-eq :
      (v : Json) (entry : Fields) (scope : Scope)
      → get "value" entry ≡ some v
      → walk_value lower entry scope ≡ walk lower v scope
  unfolding walk_value get
  walk_value-eq v end scope h = absurd (ground (arith, h))
  walk_value-eq v (field k w rest) scope h = elim (Bool-cases (k == "value")) [
    | inl here ↦ let same : w ≡ v = ground (arith, h, here) in rw (here, walk_value, same) refl
    | inr later ↦ rw (later, walk_value) (walk_value-eq v rest scope (ground (arith, h, later)))
  ]

  after_ok :
      (a : Out) (b : CteOut) (refs : Refs) (inner : Scope)
      → after a b ≡ ok (refs, inner)
      → Feeds a refs × (r : Refs) × (b ≡ ok (r, inner)) × Within r refs
  after_ok (err e) b refs inner h = absurd (ground (arith, h))
  after_ok (ok x) (err e) refs inner h = absurd (ground (arith, h))
  after_ok (ok x) (ok (y, scope)) refs inner h =
      let e : join_refs x y ≡ refs = ground (arith, h) in
      let f : scope ≡ inner = ground (arith, h) in
      ((x, refl, Within-left x y e), y, rw f refl, Within-right x y e)

  scope_after-key :
      (entry : Fields) (rest : Items) (scope : Scope) (name : String)
      → entry_key entry ≡ some name
      → scope_after lower (cons (object entry) rest) scope
        ≡ scope_after lower rest (with_name lower scope name)
  scope_after-key entry rest scope name h = rw (h, scope_after) refl

  pub walk_entries-Feeds :
      (xs : Items) (scope : Scope) (refs : Refs) (inner : Scope)
      → walk_entries lower xs scope ≡ ok (refs, inner)
      → (inner ≡ scope_after lower xs scope)
        × ((v : Json) (at : Scope) → IsBody lower v at xs scope → Feeds (walk lower v at) refs)
  unfolding walk_entries
  walk_entries-Feeds nil scope refs inner h = (ground (arith, h), (λ v at b. elim b [ ]))
  walk_entries-Feeds (cons null rest) scope refs inner h = absurd (ground (arith, h))
  walk_entries-Feeds (cons (bool b) rest) scope refs inner h = absurd (ground (arith, h))
  walk_entries-Feeds (cons (number n) rest) scope refs inner h = absurd (ground (arith, h))
  walk_entries-Feeds (cons (text t) rest) scope refs inner h = absurd (ground (arith, h))
  walk_entries-Feeds (cons (array a) rest) scope refs inner h = absurd (ground (arith, h))
  walk_entries-Feeds (cons (object entry) rest) scope refs inner h =
      elim (Option-cases (entry_key entry)) [
        | inl no_key ↦ absurd (ground (arith, h, no_key))
        | inr (name, keyed) ↦
            let (first, r, e, sub) =
              after_ok (walk_value lower entry scope)
                (walk_entries lower rest (with_name lower scope name)) refs inner
                (ground (arith, h, keyed)) in
            let (where_to, bodies) =
              walk_entries-Feeds rest (with_name lower scope name) r inner e in
            rw keyed (
              where_to ∙ sym (scope_after-key entry rest scope name keyed),
              (λ v at b. elim b [
                | inl (found, same) ↦ rw same (rw (← walk_value-eq v entry scope found) first)
                | inr later ↦
                    let (q, d, below) = bodies v at later in (q, d, Within-trans below sub)
              ]),
            )
      ]
