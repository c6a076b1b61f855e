-- ===== src/Graphs/Examples.antt =====
-- Runs of src/graphs.js at concrete inputs, and an instance of the theorem about it.
use ichibi_lake.Base.{String, ◌≡◌, refl, some, [], ◌∷◌}
use ichibi_lake.Base.Text.{is_identifier, join_with}
use ichibi_lake.Base.Exec.{ok, err}
use ichibi_lake.Graphs.Build.{
  missing, textual, invalid, no_vertex_tables, named, described, edge, Definition, checked,
  optional, vertex_suffix, format_vertex, endpoint, format_edge, format_all,
  build_create_property_graph_sql,
}
use ichibi_lake.Graphs.Plain.{Plain, build_create_property_graph_sql-Plain}

abbrev social : Definition
social = record {
  name = textual "g";
  vertex_tables =
      some (named "city" ∷ described (textual "person") (textual "Person") (textual "id") ∷ []);
  edge_tables = some (
      edge (record {
        name = textual "knows";
        source = textual "person";
        destination = textual "person";
        source_key = textual "a";
        destination_key = missing;
        source_ref = textual "id";
        destination_ref = missing;
        label = missing;
      })
      ∷ []);
}

abbrev social_sql : String
social_sql =
    "CREATE PROPERTY GRAPH g VERTEX TABLES (city, person KEY (id) LABEL Person) EDGE TABLES (knows SOURCE KEY (a) REFERENCES person (id) DESTINATION person)"

builds : build_create_property_graph_sql social ≡ ok social_sql
unfolding build_create_property_graph_sql checked optional vertex_suffix format_vertex endpoint
    format_edge format_all is_identifier join_with
builds = refl

refuses :
    (build_create_property_graph_sql
        (record social { vertex_tables = some (named "t; DROP TABLE u" ∷ []) })
      ≡ err (invalid "vertex table name" (textual "t; DROP TABLE u")))
    × (build_create_property_graph_sql (record social { vertex_tables = some [] })
        ≡ err no_vertex_tables)
unfolding build_create_property_graph_sql checked optional vertex_suffix format_vertex endpoint
    format_edge format_all is_identifier join_with
refuses = (refl, refl)

build_create_property_graph_sql-Plain_example : Plain social_sql
build_create_property_graph_sql-Plain_example =
    build_create_property_graph_sql-Plain social social_sql builds
