-- ===== src/SqlTables/Calls.antt =====
-- The table functions that a statement calls, independently of the walk of src/sql-tables.js, and
-- what analyzeUserSql lets pass of them.
use ichibi_lake.Base.{
  String, ◌≡◌, refl, sym, ap, ◌∙◌, false, none, some, List, [], ◌⊎◌, inl, inr, ◌==◌, arith, All,
}
use ichibi_lake.Base.Exec.{ok}
use ichibi_lake.SqlTables.Ast.{Json, text, array, object, Items, Fields, get, ends_with}
use ichibi_lake.SqlTables.Walk.{
  Refs, Scope, table_ref, container, query_node, table_reference, shape_of_type, shape,
}
use ichibi_lake.SqlTables.Extract.{own_name, walk, walk_node, extract_table_references}
use ichibi_lake.SqlTables.Analyze.{analyze_user_sql}
use ichibi_lake.SqlTables.Reads.{IsItem, IsEntry, ctes, scope_after, IsBody, term_scope}
use ichibi_lake.SqlTables.Complete.{
  both_left, both_right, walk_items-Feeds, walk_fields-Feeds, walk_node-Feeds,
}
use ichibi_lake.SqlTables.Ctes.{walk_ctes-eq, walk_entries-Feeds}
use ichibi_lake.SqlTables.Allowed.{InLake, IsListed, analyze_user_sql_collected}
use ichibi_lake.SqlTables.Covered.{
  walk-container, walk-table_reference, walk-query_node, inside_ok, IsStatement, extract-walk,
}

module _ (lower : String → String) where
  -- A call of a table function stands somewhere in the value: where Reads finds tables, with the
  -- same rules for items, parts, bodies and clauses.
  pub data Calls : Json → Scope → Type 0 where
    call :
        (ref : Fields) (scope : Scope)
        → get "class" ref ≡ none
        → get "type" ref ≡ some (text "TABLE_FUNCTION")
        → Calls (object ref) scope
    call_in_item :
        (xs : Items) (v : Json) (scope : Scope)
        → IsItem v xs
        → Calls v scope
        → Calls (array xs) scope
    call_in_part :
        (fields : Fields) (k : String) (v : Json) (scope : Scope)
        → (shape lower fields ≡ container)
          ⊎ ((t : String) × (shape lower fields ≡ table_reference t))
        → IsEntry k v fields
        → Calls v scope
        → Calls (object fields) scope
    call_in_body :
        (node : Fields) (t : String) (v : Json) (inner scope : Scope)
        → shape lower node ≡ query_node t
        → IsBody lower v inner (ctes node) scope
        → Calls v inner
        → Calls (object node) scope
    call_in_clause :
        (node : Fields) (t k : String) (v : Json) (scope : Scope)
        → shape lower node ≡ query_node t
        → IsEntry k v node
        → (k == "cte_map") ≡ false
        → Calls v (term_scope lower t k (own_name lower node) (scope_after lower (ctes node) scope))
        → Calls (object node) scope

  shape-call :
      (ref : Fields)
      → get "class" ref ≡ none
      → get "type" ref ≡ some (text "TABLE_FUNCTION")
      → shape lower ref ≡ table_reference "TABLE_FUNCTION"
  unfolding shape shape_of_type ends_with
  shape-call ref c t = rw (c, t, shape) refl

  collected_call :
      (ref : Fields) (scope : Scope) (r : Refs)
      → table_ref lower "TABLE_FUNCTION" ref scope ≡ ok r
      → ¬ (r.functions ≡ [])
  unfolding table_ref
  collected_call ref scope r h quiet = ground (arith, h, quiet)

  -- A call is collected by the walk, where it is not refused.
  call_collected :
      (j : Json) (scope : Scope) (refs : Refs)
      → Calls j scope
      → walk lower j scope ≡ ok refs
      → ¬ (refs.functions ≡ [])
  unfolding walk
  call_collected _ _ refs (call ref scope c t) h quiet =
      let (r, e, sub) =
        both_left _ _ refs
          (sym (walk-table_reference lower ref "TABLE_FUNCTION" scope (shape-call ref c t)) ∙ h) in
      collected_call ref scope r e (sub.functions quiet)
  call_collected _ _ refs (call_in_item xs v scope i inner) h quiet =
      let (r, e, sub) = walk_items-Feeds lower v xs scope refs i h in
      call_collected v scope r inner e (sub.functions quiet)
  call_collected _ _ refs (call_in_part fields k v scope (inl sh) i inner) h quiet =
      let (r, e, sub) =
        walk_fields-Feeds lower k v fields scope refs i
          (sym (walk-container lower fields scope sh) ∙ h) in
      call_collected v scope r inner e (sub.functions quiet)
  call_collected _ _ refs (call_in_part fields k v scope (inr (t, sh)) i inner) h quiet =
      let (q, d, under) =
        both_right _ _ refs (sym (walk-table_reference lower fields t scope sh) ∙ h) in
      let (r, e, sub) = walk_fields-Feeds lower k v fields scope q i d in
      call_collected v scope r inner e (sub.functions (under.functions quiet))
  call_collected _ _ refs (call_in_body node t v at scope sh b inner) h quiet =
      let (q, to, ctes_walked, whole) =
        inside_ok lower _ _ refs (sym (walk-query_node lower node t scope sh) ∙ h) in
      let (_, bodies) =
        walk_entries-Feeds lower (ctes node) scope q to
          (walk_ctes-eq lower node scope q to ctes_walked) in
      let (r, e, sub) = bodies v at b in
      let (z, same, under) = both_left (ok q) _ refs whole in
      let eq : q ≡ z = ground (arith, same) in
      call_collected v at r inner e
        (sub.functions (ap (λ x. x.functions) eq ∙ under.functions quiet))
  call_collected _ _ refs (call_in_clause node t k v scope sh i other inner) h quiet =
      let (q, to, ctes_walked, whole) =
        inside_ok lower _ _ refs (sym (walk-query_node lower node t scope sh) ∙ h) in
      let (where_to, _) =
        walk_entries-Feeds lower (ctes node) scope q to
          (walk_ctes-eq lower node scope q to ctes_walked) in
      let (n, d, under) = both_right (ok q) _ refs whole in
      let moved = ap (λ x. walk_node lower node t (own_name lower node) x) (sym where_to) ∙ d in
      let at = scope_after lower (ctes node) scope in
      let (r, e, sub) = walk_node-Feeds lower t k (own_name lower node) v node at n i other moved in
      call_collected v (term_scope lower t k (own_name lower node) at) r inner e
        (sub.functions (under.functions quiet))

-- A statement that analyzeUserSql accepts calls no table function anywhere: in no clause, item or
-- body of a CTE of the statement that json_serialize_sql gave. It was walked without a refusal, and
-- every table that the walk collected is one of ducklake.main that is no system table, and is
-- listed, up to case, in what analyzeUserSql returns.
pub analyze_user_sql_accepts :
    (lower : String → String) (parsed node : Json) (names : List String)
    → IsStatement parsed node
    → analyze_user_sql lower parsed ≡ ok names
    → (¬ Calls lower node [])
      × ((refs : Refs) × (extract_table_references lower parsed ≡ ok refs)
          × (refs.functions ≡ [])
          × All (λ path. InLake lower path × IsListed lower names path) refs.tables)
analyze_user_sql_accepts lower parsed node names statement h =
    let (refs, e, quiet, inside) = analyze_user_sql_collected lower parsed names h in
    (
      (λ calls.
          call_collected lower node [] refs calls
            (sym (extract-walk lower parsed node statement) ∙ e) quiet),
      (refs, e, quiet, inside),
    )
