-- ===== src/SqlTables/Reads.antt =====
-- What a statement reads, independently of the walk of src/sql-tables.js: every table reference
-- that is not the name of a CTE in scope, wherever it stands.
use ichibi_lake.Base.{String, ◌≡◌, true, false, Option, none, some, List, ◌∷◌, ◌⊎◌, ◌==◌}
use ichibi_lake.SqlTables.Ast.{Json, array, object, Items, nil, cons, Fields, end, field, get}
use ichibi_lake.SqlTables.Walk.{
  Scope, with_name, is_cte, table_path, container, query_node, table_reference, shape,
}
use ichibi_lake.SqlTables.Extract.{entry_key, own_name, is_recursive_term}

-- The value is an item of the array, the value of the object under the key.
abbrev pub IsItem : Json → Items → Type 0
IsItem v nil = ⊥
IsItem v (cons w rest) = (v ≡ w) ⊎ IsItem v rest

abbrev pub IsEntry : String → Json → Fields → Type 0
IsEntry k v end = ⊥
IsEntry k v (field j w rest) = ((k ≡ j) × (v ≡ w)) ⊎ IsEntry k v rest

-- The CTEs that a query node lists.
abbrev pub in_map : Option Json → Items
in_map (some (array entries)) = entries
in_map _ = nil

abbrev pub in_cte_map : Option Json → Items
in_cte_map (some (object fields)) = in_map (get "map" fields)
in_cte_map _ = nil

abbrev pub ctes : Fields → Items
ctes node = in_cte_map (get "cte_map" node)

module _ (lower : String → String) where
  -- The scope after the CTEs of a list.
  abbrev pub scope_after : Items → Scope → Scope
  scope_after nil scope = scope
  scope_after (cons (object entry) rest) scope = elim (entry_key entry) [
    | some name ↦ scope_after rest (with_name lower scope name)
    | none ↦ scope_after rest scope
  ]
  scope_after (cons _ rest) scope = scope_after rest scope

  -- The value is the body of a CTE of the list, which is read in the scope `inner`.
  abbrev pub IsBody : Json → Scope → Items → Scope → Type 0
  IsBody v inner nil scope = ⊥
  IsBody v inner (cons (object entry) rest) scope =
      ((get "value" entry ≡ some v) × (inner ≡ scope)) ⊎ elim (entry_key entry) [
        | some name ↦ IsBody v inner rest (with_name lower scope name)
        | none ↦ ⊥
      ]
  IsBody v inner (cons _ rest) scope = ⊥

  abbrev pub term_scope : String → String → String → Scope → Scope
  term_scope t k name scope = elim (is_recursive_term lower t k) [
    | true ↦ name ∷ scope
    | false ↦ scope
  ]

  pub data Reads : Json → Scope → List String → Type 0 where
    table :
        (ref : Fields) (scope : Scope) (p : String) (ps : List String)
        → shape lower ref ≡ table_reference "BASE_TABLE"
        → table_path ref ≡ p ∷ ps
        → is_cte lower scope (p ∷ ps) ≡ false
        → Reads (object ref) scope (p ∷ ps)
    item :
        (xs : Items) (v : Json) (scope : Scope) (path : List String)
        → IsItem v xs
        → Reads v scope path
        → Reads (array xs) scope path
    part :
        (fields : Fields) (k : String) (v : Json) (scope : Scope) (path : List String)
        → (shape lower fields ≡ container)
          ⊎ ((t : String) × (shape lower fields ≡ table_reference t))
        → IsEntry k v fields
        → Reads v scope path
        → Reads (object fields) scope path
    body :
        (node : Fields) (t : String) (v : Json) (inner scope : Scope) (path : List String)
        → shape lower node ≡ query_node t
        → IsBody v inner (ctes node) scope
        → Reads v inner path
        → Reads (object node) scope path
    clause :
        (node : Fields) (t k : String) (v : Json) (scope : Scope) (path : List String)
        → shape lower node ≡ query_node t
        → IsEntry k v node
        → (k == "cte_map") ≡ false
        → Reads v (term_scope t k (own_name lower node) (scope_after (ctes node) scope)) path
        → Reads (object node) scope path
