-- ===== src/Graphs/Build.antt =====
-- src/graphs.js: isSafeIdentifier and buildCreatePropertyGraphSql.
use ichibi_lake.Base.{
  String, Bool, true, false, not, Option, none, some, List, [], ◌∷◌, ◌==◌, if◌then◌else◌,
}
use ichibi_lake.Base.Text.{is_identifier, join_with, ◌⊕◌}
use ichibi_lake.Base.Exec.{Result, ok, err, and_then}

-- A value of the definition: undefined, null or another value that counts as false and is no text;
-- a text; anything else.
pub data Part : Type 0 where
  missing : Part
  textual : String → Part
  other : Part

pub data GraphError : Type 0 where
  invalid_graph_name no_vertex_tables edge_tables_not_array bad_vertex bad_edge : GraphError
  invalid : String → Part → GraphError

-- A vertex table, by its name or as an object; an entry that is neither.
pub data Vertex : Type 0 where
  named : String → Vertex
  described : Part → Part → Part → Vertex
  malformed : Vertex

pub record EdgeParts : Type 0 where
  pub name : Part
  pub source : Part
  pub destination : Part
  pub source_key : Part
  pub destination_key : Part
  pub source_ref : Part
  pub destination_ref : Part
  pub label : Part

pub data Edge : Type 0 where
  edge : EdgeParts → Edge
  malformed_edge : Edge

-- `none` is anything but an array.
pub record Definition : Type 0 where
  pub name : Part
  pub vertex_tables : Option (List Vertex)
  pub edge_tables : Option (List Edge)

abbrev pub Built : Type 0
Built = Result GraphError String

-- if (!isSafeIdentifier(part)) throw
unfoldable pub checked : GraphError → Part → Built
unfolding is_identifier
checked e (textual t) = if is_identifier t then ok t else err e
checked e _ = err e

abbrev pub is_truthy : Part → Bool
is_truthy missing = false
is_truthy (textual t) = not (t == "")
is_truthy other = true

-- if (part) { check it; out += ... }
unfoldable pub optional : String → Part → (String → String) → Built
unfolding checked
optional what part wrap = elim (is_truthy part) [
  | true ↦ and_then (checked (invalid what part) part) (λ t. ok (wrap t))
  | false ↦ ok ""
]

-- KEY needs LABEL: a key without a label is dropped.
unfoldable pub vertex_suffix : Part → Part → Built
unfolding checked optional
vertex_suffix label key = elim (is_truthy label) [
  | true ↦ and_then (checked (invalid "vertex label" label) label) (λ l.
      and_then (optional "vertex key" key (λ k. " KEY (" ⊕ k ⊕ ")")) (λ k. ok (k ⊕ " LABEL " ⊕ l)))
  | false ↦ ok ""
]

unfoldable pub format_vertex : Vertex → Built
unfolding checked vertex_suffix
format_vertex (named v) = checked (invalid "vertex table name" (textual v)) (textual v)
format_vertex (described name label key) =
    and_then (checked bad_vertex name)
      (λ n. and_then (vertex_suffix label key) (λ suffix. ok (n ⊕ suffix)))
format_vertex malformed = err bad_vertex

-- SOURCE or DESTINATION: [KEY (col) REFERENCES] vertex [(ref)]
unfoldable pub endpoint : String → String → Part → Part → String → Built
unfolding checked optional
endpoint key_name ref_name key ref vertex = elim (is_truthy key) [
  | true ↦ and_then (checked (invalid key_name key) key) (λ k.
      and_then (optional ref_name ref (λ r. " (" ⊕ r ⊕ ")"))
        (λ r. ok (" KEY (" ⊕ k ⊕ ") REFERENCES " ⊕ vertex ⊕ r)))
  | false ↦ ok (" " ⊕ vertex)
]

unfoldable pub format_edge : Edge → Built
unfolding checked optional endpoint
format_edge malformed_edge = err bad_edge
format_edge (edge e) = and_then (checked (invalid "edge table name" e.name) e.name) λ name.
    and_then (checked (invalid "edge source" e.source) e.source) λ source.
      and_then (checked (invalid "edge destination" e.destination) e.destination) λ destination.
        and_then (optional "label" e.label (λ l. " LABEL " ⊕ l)) λ label.
          and_then (endpoint "sourceKey" "sourceRef" e.source_key e.source_ref source) λ from.
            and_then
              (endpoint "destinationKey" "destinationRef" e.destination_key e.destination_ref
                destination)
              λ to. ok (name ⊕ label ⊕ " SOURCE" ⊕ from ⊕ " DESTINATION" ⊕ to)

-- entries.map(format), where the first throw ends it
unfoldable pub format_all : {A : Type 0} → (A → Built) → List A → Result GraphError (List String)
format_all format [] = ok []
format_all format (x ∷ xs) =
    and_then (format x) (λ t. and_then (format_all format xs) (λ ts. ok (t ∷ ts)))

abbrev pub vertex_clause : List String → String
vertex_clause ts = "VERTEX TABLES (" ⊕ join_with ", " ts ⊕ ")"

abbrev pub edge_clause : List String → String
edge_clause [] = ""
edge_clause (t ∷ ts) = " EDGE TABLES (" ⊕ join_with ", " (t ∷ ts) ⊕ ")"

abbrev pub with_edges : String → List Vertex → Option (List Edge) → Built
with_edges name vertices none = err edge_tables_not_array
with_edges name vertices (some edges) = and_then (format_all format_vertex vertices) λ vs.
    and_then (format_all format_edge edges)
      λ es. ok ("CREATE PROPERTY GRAPH " ⊕ name ⊕ " " ⊕ vertex_clause vs ⊕ edge_clause es)

abbrev pub with_vertices : Definition → String → Option (List Vertex) → Built
with_vertices def name none = err no_vertex_tables
with_vertices def name (some []) = err no_vertex_tables
with_vertices def name (some (v ∷ vs)) = with_edges name (v ∷ vs) def.edge_tables

unfoldable pub build_create_property_graph_sql : Definition → Built
unfolding checked format_vertex format_edge format_all join_with
build_create_property_graph_sql def =
    and_then (checked invalid_graph_name def.name)
      (λ name. with_vertices def name def.vertex_tables)
