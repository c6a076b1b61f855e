-- ===== src/SqlTables/Analyze.antt =====
-- src/sql-tables.js: analyzeUserSql, the policy on what a statement of a non-superuser reads.
use ichibi_lake.Base.{
  String, Bool, true, false, ◌&&◌, ◌||◌, not, none, some, List, [], ◌∷◌, map, ◌==◌, if◌then◌else◌,
}
use ichibi_lake.Base.Dict.{Dict, lookup, insert}
use ichibi_lake.Base.Exec.{Result, ok, err}
use ichibi_lake.SqlTables.Ast.{Json, starts_with, ◌⊕◌}
use ichibi_lake.SqlTables.Walk.{SqlError, table_function, outside_lake, not_found, Refs, Out}
use ichibi_lake.SqlTables.Extract.{extract_table_references}

-- MAIN_CATALOG and MAIN_SCHEMA
abbrev pub main_catalog : String
main_catalog = "ducklake"

abbrev pub main_schema : String
main_schema = "main"

-- path[path.length - 1] and path.slice(0, -1), of a path with a first name
abbrev pub last_name : String → List String → String
last_name p [] = p
last_name p (q ∷ qs) = last_name q qs

abbrev pub qualifiers : String → List String → List String
qualifiers p [] = []
qualifiers p (q ∷ qs) = p ∷ qualifiers q qs

-- path.join('.')
unfoldable pub dotted : String → List String → String
dotted p [] = p
dotted p (q ∷ qs) = p ⊕ "." ⊕ dotted q qs

-- `ok`, on the qualifiers in lower case
unfoldable pub in_lake : List String → Bool
in_lake [] = true
in_lake (q ∷ []) = q == main_schema || q == main_catalog
in_lake (c ∷ s ∷ []) = c == main_catalog && s == main_schema
in_lake (_ ∷ _ ∷ _ ∷ _) = false

-- [...names.values()]
abbrev pub values : Dict String → List String
values [] = []
values (entry ∷ rest) = entry.1 ∷ values rest

abbrev pub all_values : Result SqlError (Dict String) → Result SqlError (List String)
all_values (err e) = err e
all_values (ok names) = ok (values names)

module _ (lower : String → String) where
  -- One table of the list. No path that the walk collects is empty.
  unfoldable pub check_table : List String → Result SqlError String
  unfolding in_lake starts_with
  check_table [] = err (outside_lake "")
  check_table (p ∷ ps) =
      if not (in_lake (map lower (qualifiers p ps)))
      then err (outside_lake (dotted p ps))
      else if starts_with b'_' (last_name p ps)
      then err (not_found (last_name p ps))
      else ok (last_name p ps)

  -- if (!names.has(lower(name))) names.set(lower(name), name)
  unfoldable pub remember : String → Dict String → Dict String
  unfolding lookup insert
  remember name names = elim (lookup (lower name) names) [
    | some _ ↦ names
    | none ↦ insert (lower name) name names
  ]

  unfoldable pub collect_names : Dict String → List (List String) → Result SqlError (Dict String)
  collect_names names [] = ok names
  collect_names names (path ∷ paths) = elim (check_table path) [
    | err e ↦ err e
    | ok name ↦ collect_names (remember name names) paths
  ]

  unfoldable pub apply_policy : Refs → Result SqlError (List String)
  unfolding collect_names
  apply_policy refs = elim refs.functions [
    | f ∷ _ ↦ err (table_function f)
    | [] ↦ all_values (collect_names [] refs.tables)
  ]

  abbrev pub with_refs : Out → Result SqlError (List String)
  with_refs (err e) = err e
  with_refs (ok refs) = apply_policy refs

  unfoldable pub analyze_user_sql : Json → Result SqlError (List String)
  analyze_user_sql parsed = with_refs (extract_table_references lower parsed)
