-- ===== src/SqlTables/Examples.antt =====
-- Runs of src/sql-tables.js on statements as DuckDB serializes them, less the fields that name no
-- table, and instances of the theorems about it. Names are lower case here.
use ichibi_lake.Base.{inl, inr, String, ◌≡◌, refl, true, false, List, [], ◌∷◌, All}
use ichibi_lake.Base.Dict.{lookup, insert}
use ichibi_lake.Base.Exec.{ok, err}
use ichibi_lake.SqlTables.Ast.{
  Json, null, bool, text, array, object, Items, nil, cons, end, field, get, property, is_truthy,
  string_of, string_of_option, ends_with, starts_with,
}
use ichibi_lake.Base.Text.{matches}
use ichibi_lake.SqlTables.Walk.{
  show_listing, only_select, unsupported, outside_lake, not_found, Refs, table_path, table_ref,
  shape,
}
use ichibi_lake.SqlTables.Extract.{entry_key, walk, extract_table_references}
use ichibi_lake.SqlTables.Analyze.{
  check_table, remember, collect_names, dotted, apply_policy, analyze_user_sql,
}
use ichibi_lake.SqlTables.Reads.{Reads}
use ichibi_lake.SqlTables.Calls.{Calls, analyze_user_sql_accepts}
use ichibi_lake.SqlTables.Covered.{IsStatement, no_table_missed}
use ichibi_lake.SqlTables.Allowed.{InLake, IsListed, analyze_user_sql_total}

abbrev same_case : String → String
same_case s = s

-- FROM path
abbrev path_of : List String → Items
path_of [] = nil
path_of (p ∷ ps) = cons (text p) (path_of ps)

abbrev from : List String → Json
from path = object (
    field "type" (text "BASE_TABLE")
      (field "qualified_name" (object (field "path" (array (path_of path)) end)) end))

-- SELECT * FROM table, with CTEs
abbrev select : Items → Json → Json
select ctes table = object (
    field "type" (text "SELECT_NODE") (
      field "cte_map" (object (field "map" (array ctes) end)) (
        field "select_list" (array (cons (object (field "class" (text "STAR") end)) nil))
          (field "from_table" table end))))

abbrev cte : String → Json → Json
cte name body =
    object (field "key" (text name) (field "value" (object (field "query_node" body end)) end))

abbrev statement : Json → Json
statement node = object (
    field "error" (bool false)
      (field "statements" (array (cons (object (field "node" node end)) nil)) end))

-- Everything that a run of the component computes with.
runs : Unit {0}
unfolding get property is_truthy string_of string_of_option ends_with matches starts_with table_path
    table_ref shape entry_key walk extract_table_references check_table remember collect_names
    dotted apply_policy analyze_user_sql lookup insert
runs = tt

abbrev plain : Json
plain = statement (select nil (from ("ducklake" ∷ "main" ∷ "sales" ∷ [])))

-- WITH secret AS (SELECT * FROM secret) SELECT * FROM secret reads the table `secret`, and
-- WITH s AS (SELECT * FROM t) SELECT * FROM s reads only `t`.
policy_tests :
    (analyze_user_sql same_case plain ≡ ok ("sales" ∷ []))
    × (analyze_user_sql same_case (
          statement (
            select
              (cons (cte "secret" (select nil (from ("secret" ∷ [])))) nil)
              (from ("secret" ∷ []))))
        ≡ ok ("secret" ∷ []))
    × (analyze_user_sql same_case
          (statement (select (cons (cte "s" (select nil (from ("t" ∷ [])))) nil) (from ("s" ∷ []))))
        ≡ ok ("t" ∷ []))
    × (analyze_user_sql same_case (statement (select nil (from ("memory" ∷ "main" ∷ "t" ∷ []))))
        ≡ err (outside_lake "memory.main.t"))
    × (analyze_user_sql same_case (statement (select nil (from ("main" ∷ "_rbac_users" ∷ []))))
        ≡ err (not_found "_rbac_users"))
    × (analyze_user_sql same_case (statement (object (field "type" (text "NEW_NODE") end)))
        ≡ err (unsupported "query node NEW_NODE"))
    × (analyze_user_sql same_case (
          statement (select nil (object (field "type" (text "SHOW_REF") (field "query" null end)))))
        ≡ err show_listing)
    × (analyze_user_sql same_case (
          object (
            field "error"
              (bool true)
              (field "error_message" (text "Only SELECT statements can be serialized") end)))
        ≡ err only_select)
unfolding runs
policy_tests = (refl, refl, refl, refl, refl, refl, refl, refl)

plain_accepted : analyze_user_sql same_case plain ≡ ok ("sales" ∷ [])
unfolding runs
plain_accepted = refl

abbrev plain_refs : Refs
plain_refs = record { tables = ("ducklake" ∷ "main" ∷ "sales" ∷ []) ∷ []; functions = [] }

plain_walked : extract_table_references same_case plain ≡ ok plain_refs
unfolding runs
plain_walked = refl

plain-InLake : All (InLake same_case) plain_refs.tables
unfolding runs
plain-InLake = (((refl, refl), refl), tt)

analyze_user_sql_total_example :
    (names : List String) × (analyze_user_sql same_case plain ≡ ok names)
analyze_user_sql_total_example =
    analyze_user_sql_total same_case plain plain_refs plain_walked refl plain-InLake

-- WITH s AS (SELECT * FROM t) SELECT * FROM s reads `t`, in the body of its CTE.

abbrev inner_query : Json
inner_query = select nil (from ("t" ∷ []))

abbrev with_node : Json
with_node = select (cons (cte "s" inner_query) nil) (from ("s" ∷ []))

with_accepted : analyze_user_sql same_case (statement with_node) ≡ ok ("t" ∷ [])
unfolding runs
with_accepted = refl

with_node-IsStatement : IsStatement (statement with_node) with_node
unfolding runs
with_node-IsStatement = (refl, object (field "node" with_node end), refl, refl, refl)

with_node-Reads : Reads same_case with_node [] ("t" ∷ [])
unfolding runs
with_node-Reads =
    Reads.body _ "SELECT_NODE" (object (field "query_node" inner_query end)) [] [] ("t" ∷ []) refl
      (inl (refl, refl))
      (Reads.part _ "query_node" inner_query [] ("t" ∷ []) (inl refl) (inl (refl, refl)) (
        Reads.clause _ "SELECT_NODE" "from_table" (from ("t" ∷ [])) [] ("t" ∷ []) refl
          (inr (inr (inr (inl (refl, refl))))) refl (Reads.table _ [] "t" [] refl refl refl)))

no_table_missed_example : InLake same_case ("t" ∷ []) × IsListed same_case ("t" ∷ []) ("t" ∷ [])
no_table_missed_example =
    no_table_missed same_case (statement with_node) with_node ("t" ∷ []) ("t" ∷ [])
      with_node-IsStatement with_accepted with_node-Reads

analyze_user_sql_accepts_example :
    (¬ Calls same_case with_node [])
    × ((refs : Refs) × (extract_table_references same_case (statement with_node) ≡ ok refs)
        × (refs.functions ≡ [])
        × All (λ path. InLake same_case path × IsListed same_case ("t" ∷ []) path) refs.tables)
analyze_user_sql_accepts_example =
    analyze_user_sql_accepts same_case (statement with_node) with_node ("t" ∷ [])
      with_node-IsStatement with_accepted
