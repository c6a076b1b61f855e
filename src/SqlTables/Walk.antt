-- ===== src/SqlTables/Walk.antt =====
-- src/sql-tables.js: the parts of extractTableReferences that look at one object. What the functions push to `tables` and
-- `tableFunctions` is returned here, in the order of the pushes; a throw ends the walk. The
-- parameter is String.prototype.toLowerCase.
use ichibi_lake.Base.{
  ℕ, String, Bool, false, not, ◌||◌, Option, none, some, List, [], ◌∷◌, ◌++◌, ◌==◌, includes,
  if◌then◌else◌,
}
use ichibi_lake.Base.Exec.{Result, ok, err}
use ichibi_lake.SqlTables.Ast.{
  Json, null, text, array, Items, nil, cons, Fields, get, property, is_truthy, string_of, ◌⊕◌,
  ends_with,
}

pub data SqlError : Type 0 where
  unparseable only_select not_one_statement show_listing : SqlError
  parse_error unsupported : String → SqlError
  table_function outside_lake : String → SqlError
  not_found : String → SqlError

-- The statusCode of the error.
unfoldable pub status_code : SqlError → ℕ
status_code unparseable = 400
status_code only_select = 403
status_code not_one_statement = 400
status_code show_listing = 403
status_code (parse_error _) = 400
status_code (unsupported _) = 400
status_code (table_function _) = 403
status_code (outside_lake _) = 403
status_code (not_found _) = 404

pub record Refs : Type 0 where
  pub tables : List (List String)
  pub functions : List String

abbrev pub Out : Type 0
Out = Result SqlError Refs

abbrev pub Scope : Type 0
Scope = List String

abbrev pub no_refs : Refs
no_refs = record { tables = []; functions = [] }

abbrev pub join_refs : Refs → Refs → Refs
join_refs a b = record { tables = a.tables ++ b.tables; functions = a.functions ++ b.functions }

-- One walk, then another.
abbrev pub both : Out → Out → Out
both (err e) _ = err e
both (ok a) (err e) = err e
both (ok a) (ok b) = ok (join_refs a b)

abbrev pub is_query_node : String → Bool
is_query_node t = includes t ("SELECT_NODE" ∷ "SET_OPERATION_NODE" ∷ "RECURSIVE_CTE_NODE" ∷ [])

abbrev pub is_table_ref : String → Bool
is_table_ref t = includes t (
    "BASE_TABLE" ∷ "JOIN" ∷ "SUBQUERY" ∷ "EMPTY" ∷ "EXPRESSION_LIST" ∷ "PIVOT" ∷ "SHOW_REF"
    ∷ "TABLE_FUNCTION" ∷ [])

abbrev pub is_modifier : String → Bool
is_modifier t = includes t (
    "ORDER_MODIFIER" ∷ "LIMIT_MODIFIER" ∷ "LIMIT_PERCENT_MODIFIER" ∷ "DISTINCT_MODIFIER"
    ∷ "ORDER_DEFAULT" ∷ "ASCENDING" ∷ "DESCENDING" ∷ [])

abbrev pub is_expression : Json → Bool
is_expression (text t) = includes t (
    "BETWEEN" ∷ "CASE" ∷ "CAST" ∷ "COLLATE" ∷ "COLUMN_REF" ∷ "COMPARISON" ∷ "CONJUNCTION"
    ∷ "CONSTANT" ∷ "FUNCTION" ∷ "LAMBDA" ∷ "LAMBDA_REF" ∷ "OPERATOR" ∷ "PARAMETER"
    ∷ "POSITIONAL_REFERENCE" ∷ "STAR" ∷ "SUBQUERY" ∷ "TYPE" ∷ "WINDOW" ∷ [])
is_expression _ = false

-- path.every(p => typeof p === 'string'), with the texts
unfoldable pub all_texts : Items → Option (List String)
all_texts nil = some []
all_texts (cons (text t) rest) = elim (all_texts rest) [ some ts ↦ some (t ∷ ts) | none ↦ none ]
all_texts (cons _ rest) = none

abbrev given_name : Option Json → List String
given_name (some (text t)) = if t == "" then [] else t ∷ []
given_name _ = []

unfoldable pub named_path : Fields → List String
unfolding get
named_path ref =
    given_name (get "catalog_name" ref)
    ++ given_name (get "schema_name" ref)
    ++ given_name (get "table_name" ref)

abbrev path_or : List String → Option Json → List String
path_or names (some (array (cons v vs))) = elim (all_texts (cons v vs)) [
  | some path ↦ path
  | none ↦ names
]
path_or names _ = names

unfoldable pub table_path : Fields → List String
unfolding get property all_texts named_path
table_path ref = path_or (named_path ref) (property "path" (get "qualified_name" ref))

-- x ?? d, as a text
abbrev text_or : String → Option Json → String
text_or d none = d
text_or d (some null) = d
text_or d (some v) = string_of v

-- ref.table_name && ref.table_name !== ''
unfoldable pub lists_catalog : Fields → Bool
unfolding get is_truthy
lists_catalog ref = not (is_truthy (get "query" ref)) || is_truthy (get "table_name" ref)

module _ (lower : String → String) where
  abbrev pub with_name : Scope → String → Scope
  with_name scope name = lower name ∷ scope

  -- Whether a table reference is one name, of a CTE in scope.
  abbrev pub is_cte : Scope → List String → Bool
  is_cte scope (name ∷ []) = includes (lower name) scope
  is_cte scope _ = false

  abbrev base_table : List String → Scope → Out
  base_table [] scope = err (unsupported "table reference without a name")
  base_table (p ∷ ps) scope =
      if is_cte scope (p ∷ ps)
      then ok no_refs
      else ok (record { tables = (p ∷ ps) ∷ []; functions = [] })

  -- The switch of walkTableRef, before it walks the children.
  unfoldable pub table_ref : String → Fields → Scope → Out
  unfolding table_path get property string_of lists_catalog
  table_ref t ref scope =
      if t == "BASE_TABLE"
      then base_table (table_path ref) scope
      else if t == "TABLE_FUNCTION"
      then ok (record {
        tables = [];
        functions = lower (text_or "?" (property "function_name" (get "function" ref))) ∷ [];
      })
      else if t == "SHOW_REF"
      then (if lists_catalog ref then err show_listing else ok no_refs)
      else ok no_refs

  -- What `walk` makes of an object: refuse it, walk its values, or one of the two special walks.
  pub data Shape : Type 0 where
    refused : SqlError → Shape
    container : Shape
    query_node table_reference : String → Shape

  unfoldable pub shape_of_type : Option Json → Shape
  unfolding ends_with
  shape_of_type (some (text t)) =
      if is_query_node t
      then Shape.query_node t
      else if ends_with "_NODE" t
      then Shape.refused (unsupported ("query node " ⊕ t))
      else if is_table_ref t
      then Shape.table_reference t
      else if is_modifier t
      then Shape.container
      else Shape.refused (unsupported t)
  shape_of_type _ = Shape.container

  unfoldable pub shape : Fields → Shape
  unfolding get string_of shape_of_type
  shape fields = elim (get "class" fields) [
    | some c ↦
        if is_expression c
        then Shape.container
        else Shape.refused (unsupported ("expression " ⊕ string_of c))
    | none ↦ shape_of_type (get "type" fields)
  ]
