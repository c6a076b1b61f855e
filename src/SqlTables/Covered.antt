-- ===== src/SqlTables/Covered.antt =====
-- Every table that a statement reads is in what extractTableReferences of src/sql-tables.js
-- returns, and in what analyzeUserSql lists.
use ichibi_lake.Base.{
  String, ◌≡◌, refl, sym, ap, ◌∙◌, true, false, some, List, [], ◌∷◌, inl, inr, arith,
}
use ichibi_lake.Base.Exec.{ok, err}
use ichibi_lake.SqlTables.Ast.{
  Json, null, bool, number, text, array, object, nil, cons, Fields, get,
}
use ichibi_lake.SqlTables.Walk.{
  Refs, Out, Scope, both, is_cte, table_path, table_ref, container, query_node, table_reference,
  shape,
}
use ichibi_lake.SqlTables.Extract.{
  CteOut, inside, own_name, walk, walk_fields, walk_node, walk_ctes,
}
use ichibi_lake.SqlTables.Reads.{
  ctes, scope_after, term_scope, Reads, table, item, part, body, clause,
}
use ichibi_lake.Base.{All}
use ichibi_lake.SqlTables.Ast.{is_truthy, property}
use ichibi_lake.SqlTables.Extract.{extract_table_references}
use ichibi_lake.SqlTables.Analyze.{analyze_user_sql}
use ichibi_lake.SqlTables.Allowed.{InLake, IsListed, analyze_user_sql_collected}
use ichibi_lake.SqlTables.Complete.{
  IsIn, both_left, both_right, walk_items-Feeds, walk_fields-Feeds, walk_node-Feeds,
}
use ichibi_lake.SqlTables.Ctes.{walk_ctes-eq, walk_entries-Feeds}

module _ (lower : String → String) where
  pub walk-container :
      (fields : Fields) (scope : Scope)
      → shape lower fields ≡ container
      → walk lower (object fields) scope ≡ walk_fields lower fields scope
  unfolding walk
  walk-container fields scope h = rw (h, walk) refl

  pub walk-table_reference :
      (fields : Fields) (t : String) (scope : Scope)
      → shape lower fields ≡ table_reference t
      → walk lower (object fields) scope
        ≡ both (table_ref lower t fields scope) (walk_fields lower fields scope)
  unfolding walk
  walk-table_reference fields t scope h = rw (h, walk) refl

  pub walk-query_node :
      (fields : Fields) (t : String) (scope : Scope)
      → shape lower fields ≡ query_node t
      → walk lower (object fields) scope
        ≡ inside (walk_ctes lower fields scope) (walk_node lower fields t (own_name lower fields))
  unfolding walk
  walk-query_node fields t scope h = rw (h, walk) refl

  table_ref-eq :
      (ref : Fields) (scope : Scope) (p : String) (ps : List String)
      → table_path ref ≡ p ∷ ps
      → is_cte lower scope (p ∷ ps) ≡ false
      → table_ref lower "BASE_TABLE" ref scope
        ≡ ok (record { tables = (p ∷ ps) ∷ []; functions = [] })
  unfolding table_ref
  table_ref-eq ref scope p ps h c = rw (h, c, table_ref) refl

  pub inside_ok :
      (c : CteOut) (f : Scope → Out) (refs : Refs)
      → inside c f ≡ ok refs
      → (r : Refs) × (inner : Scope) × (c ≡ ok (r, inner)) × (both (ok r) (f inner) ≡ ok refs)
  inside_ok (err e) f refs h = absurd (ground (arith, h))
  inside_ok (ok (r, inner)) f refs h = (r, inner, refl, h)

  covered :
      (j : Json) (scope : Scope) (path : List String) (refs : Refs)
      → Reads lower j scope path
      → walk lower j scope ≡ ok refs
      → IsIn path refs.tables
  unfolding walk
  covered _ _ _ refs (table ref scope p ps sh tp c) h =
      let (r, e, sub) =
        both_left _ _ refs (sym (walk-table_reference ref "BASE_TABLE" scope sh) ∙ h) in
      let alone : r ≡ record { tables = (p ∷ ps) ∷ []; functions = [] } =
        ground (arith, sym e ∙ table_ref-eq ref scope p ps tp c) in
      sub.tables (p ∷ ps) (rw alone (inl refl))
  covered _ _ _ refs (item xs v scope path i inner) h =
      let (r, e, sub) = walk_items-Feeds lower v xs scope refs i h in
      sub.tables path (covered v scope path r inner e)
  covered _ _ _ refs (part fields k v scope path (inl sh) i inner) h =
      let (r, e, sub) =
        walk_fields-Feeds lower k v fields scope refs i
          (sym (walk-container fields scope sh) ∙ h) in
      sub.tables path (covered v scope path r inner e)
  covered _ _ _ refs (part fields k v scope path (inr (t, sh)) i inner) h =
      let (q, d, under) = both_right _ _ refs (sym (walk-table_reference fields t scope sh) ∙ h) in
      let (r, e, sub) = walk_fields-Feeds lower k v fields scope q i d in
      under.tables path (sub.tables path (covered v scope path r inner e))
  covered _ _ _ refs (body node t v at scope path sh b inner) h =
      let (q, to, ctes_walked, whole) =
        inside_ok _ _ refs (sym (walk-query_node node t scope sh) ∙ h) in
      let (_, bodies) =
        walk_entries-Feeds lower (ctes node) scope q to
          (walk_ctes-eq lower node scope q to ctes_walked) in
      let (r, e, sub) = bodies v at b in
      let (z, same, under) = both_left (ok q) _ refs whole in
      let eq : q ≡ z = ground (arith, same) in
      under.tables path (rw (← eq) (sub.tables path (covered v at path r inner e)))
  covered _ _ _ refs (clause node t k v scope path sh i other inner) h =
      let (q, to, ctes_walked, whole) =
        inside_ok _ _ refs (sym (walk-query_node node t scope sh) ∙ h) in
      let (where_to, _) =
        walk_entries-Feeds lower (ctes node) scope q to
          (walk_ctes-eq lower node scope q to ctes_walked) in
      let (n, d, under) = both_right (ok q) _ refs whole in
      let moved = ap (λ x. walk_node lower node t (own_name lower node) x) (sym where_to) ∙ d in
      let at = scope_after lower (ctes node) scope in
      let (r, e, sub) = walk_node-Feeds lower t k (own_name lower node) v node at n i other moved in
      under.tables path
        (sub.tables path (covered v (term_scope lower t k (own_name lower node) at) path r inner e))

-- The one statement that json_serialize_sql gave.
abbrev pub IsStatement : Json → Json → Type 0
IsStatement (object parsed) node =
    (is_truthy (get "error" parsed) ≡ false)
    × (s : Json) × (get "statements" parsed ≡ some (array (cons s nil)))
    × (property "node" (some s) ≡ some node)
    × (is_truthy (some node) ≡ true)
IsStatement _ node = ⊥

pub extract-walk :
    (lower : String → String) (parsed node : Json)
    → IsStatement parsed node
    → extract_table_references lower parsed ≡ walk lower node []
unfolding extract_table_references
extract-walk lower (object parsed) node (no_error, s, one, at, given) =
    ground (arith, no_error, one, at, given)
extract-walk lower null node h = elim h [ ]
extract-walk lower (bool b) node h = elim h [ ]
extract-walk lower (number n) node h = elim h [ ]
extract-walk lower (text t) node h = elim h [ ]
extract-walk lower (array xs) node h = elim h [ ]

All-IsIn :
    (P : List String → Type 0) (paths : List (List String)) (path : List String)
    → All P paths
    → IsIn path paths
    → P path
All-IsIn P [] path a i = elim i [ ]
All-IsIn P (p ∷ ps) path (a, as_) (inl e) = rw e a
All-IsIn P (p ∷ ps) path (a, as_) (inr i) = All-IsIn P ps path as_ i

-- Of a statement that analyzeUserSql accepts, every table that it reads, in whatever clause,
-- subquery or CTE, is a user table of ducklake.main and is listed, up to case, in what analyzeUserSql
-- returns; a name that a CTE in scope has is the CTE's.
pub no_table_missed :
    (lower : String → String) (parsed node : Json) (names path : List String)
    → IsStatement parsed node
    → analyze_user_sql lower parsed ≡ ok names
    → Reads lower node [] path
    → InLake lower path × IsListed lower names path
no_table_missed lower parsed node names path one accepted reads =
    let (refs, e, _, inside_lake) = analyze_user_sql_collected lower parsed names accepted in
    let walked = sym (extract-walk lower parsed node one) ∙ e in
    All-IsIn (λ x. InLake lower x × IsListed lower names x) refs.tables path inside_lake
      (covered lower node [] path refs reads walked)
