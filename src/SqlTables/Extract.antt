-- ===== src/SqlTables/Extract.antt =====
-- src/sql-tables.js: the walk of extractTableReferences. A CTE name is in scope in the bodies of
-- the CTEs after it and in the query, and in the right side of its own recursive query.
use ichibi_lake.Base.{
  String, Bool, true, false, ◌&&◌, Option, none, some, [], ◌∷◌, ◌==◌, if◌then◌else◌,
}
use ichibi_lake.Base.Exec.{Result, ok, err}
use ichibi_lake.SqlTables.Ast.{
  Json, null, text, array, object, Items, nil, cons, Fields, end, field, get, property, is_truthy,
  string_of_option,
}
use ichibi_lake.Base.Text.{matches}
use ichibi_lake.SqlTables.Walk.{
  SqlError, unparseable, only_select, not_one_statement, parse_error, unsupported, Refs, Out, Scope,
  no_refs, join_refs, both, with_name, table_ref, refused, container, query_node, table_reference,
  shape,
}

-- What the CTEs of a query node read, and the scope that they make.
abbrev pub CteOut : Type 0
CteOut = Result SqlError (Refs × Scope)

abbrev pub after : Out → CteOut → CteOut
after (err e) _ = err e
after (ok a) (err e) = err e
after (ok a) (ok (b, scope)) = ok (join_refs a b, scope)

abbrev pub inside : CteOut → (Scope → Out) → Out
inside (err e) f = err e
inside (ok (refs, scope)) f = both (ok refs) (f scope)

-- The key of a CTE, where it has one and a query.
unfoldable pub entry_key : Fields → Option String
unfolding get property is_truthy
entry_key entry = elim (get "key" entry) [
  | some (text name) ↦
      if is_truthy (property "query_node" (get "value" entry)) then some name else none
  | _ ↦ none
]

module _ (lower : String → String) where
  -- String(node.cte_name).toLowerCase()
  abbrev pub own_name : Fields → String
  own_name node = lower (string_of_option (get "cte_name" node))

  -- Whether a field of a query node is the recursive term of a recursive CTE.
  abbrev pub is_recursive_term : String → String → Bool
  is_recursive_term t key = t == "RECURSIVE_CTE_NODE" && key == "right"

  unfoldable mutual
    pub walk : Json → Scope → Out
    walk (array xs) scope = walk_items xs scope
    walk (object fields) scope = elim (shape lower fields) [
      | refused e ↦ err e
      | container ↦ walk_fields fields scope
      | query_node t ↦ inside (walk_ctes fields scope) (walk_node fields t (own_name fields))
      | table_reference t ↦ both (table_ref lower t fields scope) (walk_fields fields scope)
    ]
    walk _ scope = ok no_refs

    pub walk_items : Items → Scope → Out
    walk_items nil scope = ok no_refs
    walk_items (cons v vs) scope = both (walk v scope) (walk_items vs scope)

    -- Object.values
    pub walk_fields : Fields → Scope → Out
    walk_fields end scope = ok no_refs
    walk_fields (field k v rest) scope = both (walk v scope) (walk_fields rest scope)

    -- Object.entries of a query node
    pub walk_node : Fields → String → String → Scope → Out
    walk_node end t name scope = ok no_refs
    walk_node (field k v rest) t name scope = elim (k == "cte_map") [
      | true ↦ walk_node rest t name scope
      | false ↦
          both (walk v (elim (is_recursive_term t k) [ true ↦ name ∷ scope | false ↦ scope ]))
            (walk_node rest t name scope)
    ]

    -- node.cte_map?.map ?? []
    pub walk_ctes : Fields → Scope → CteOut
    walk_ctes end scope = ok (no_refs, scope)
    walk_ctes (field k v rest) scope = elim (k == "cte_map") [
      | true ↦ walk_cte_map v scope
      | false ↦ walk_ctes rest scope
    ]

    pub walk_cte_map : Json → Scope → CteOut
    walk_cte_map (object fields) scope = walk_map fields scope
    walk_cte_map (array _) scope = err (unsupported "CTE list")
    walk_cte_map _ scope = ok (no_refs, scope)

    pub walk_map : Fields → Scope → CteOut
    walk_map end scope = ok (no_refs, scope)
    walk_map (field k v rest) scope = elim (k == "map") [
      | true ↦ walk_cte_list v scope
      | false ↦ walk_map rest scope
    ]

    pub walk_cte_list : Json → Scope → CteOut
    walk_cte_list null scope = ok (no_refs, scope)
    walk_cte_list (array entries) scope = walk_entries entries scope
    walk_cte_list _ scope = err (unsupported "CTE list")

    pub walk_entries : Items → Scope → CteOut
    walk_entries nil scope = ok (no_refs, scope)
    walk_entries (cons (object entry) rest) scope = elim (entry_key entry) [
      | none ↦ err (unsupported "CTE definition")
      | some name ↦ after (walk_value entry scope) (walk_entries rest (with_name lower scope name))
    ]
    walk_entries (cons _ rest) scope = err (unsupported "CTE definition")

    -- entry.value
    pub walk_value : Fields → Scope → Out
    walk_value end scope = ok no_refs
    walk_value (field k v rest) scope = elim (k == "value") [
      | true ↦ walk v scope
      | false ↦ walk_value rest scope
    ]

  -- parsed.error_message || parsed.error_type || 'parse error'
  abbrev error_text : Fields → String
  error_text parsed =
      if is_truthy (get "error_message" parsed)
      then string_of_option (get "error_message" parsed)
      else if is_truthy (get "error_type" parsed)
      then string_of_option (get "error_type" parsed)
      else "parse error"

  abbrev pub parse_failure : String → SqlError
  parse_failure message =
      if matches "only select statements" message then only_select else parse_error message

  abbrev pub walk_statement : Option Json → Out
  walk_statement node = elim (is_truthy node) [
    | true ↦ elim node [ some v ↦ walk v [] | none ↦ ok no_refs ]
    | false ↦ err (unsupported "statement without a query")
  ]

  abbrev pub one_statement : Option Json → Out
  one_statement (some (array (cons statement nil))) =
      walk_statement (property "node" (some statement))
  one_statement _ = err not_one_statement

  unfoldable pub extract_table_references : Json → Out
  unfolding get is_truthy string_of_option matches property
  extract_table_references (object parsed) =
      if is_truthy (get "error" parsed)
      then err (parse_failure (error_text parsed))
      else one_statement (get "statements" parsed)
  extract_table_references (array _) = err not_one_statement
  extract_table_references _ = err unparseable
