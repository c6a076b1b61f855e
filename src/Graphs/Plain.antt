-- ===== src/Graphs/Plain.antt =====
-- The statement that src/graphs.js builds is made of letters, digits, underscores, spaces,
-- parentheses and commas, whatever the definition holds.
use Prim.Native.Char.{code}
use text.Mathlib.TextLemmas.{nil-append, cons-append}
use ichibi_lake.Base.{
  ℕ, String, ◌≡◌, refl, Bool, true, false, ◌&&◌, ◌||◌, Option, none, some, List, [], ◌∷◌, nat_eq,
  All, arith, Bool-cases, inl, inr,
}
use ichibi_lake.Base.Text.{is_letter, is_digit, all_word, is_identifier, join_with, ◌⊕◌}
use ichibi_lake.Base.Exec.{ok, and_then, and_then-ok}
use ichibi_lake.Graphs.Build.{
  Part, missing, textual, other, GraphError, invalid, Vertex, named, described, malformed,
  EdgeParts, Edge, edge, malformed_edge, Definition, Built, checked, is_truthy, optional,
  vertex_suffix, format_vertex, endpoint, format_edge, format_all, edge_clause, vertex_clause,
  with_edges, with_vertices, build_create_property_graph_sql,
}

abbrev plain_char : ℕ → Bool
plain_char c =
    (is_letter c || is_digit c)
    || (nat_eq c b' ' || nat_eq c b'(' || nat_eq c b')' || nat_eq c b',')

unfoldable pub is_plain : String → Bool
is_plain String.[] = true
is_plain (String.◌∷◌ c s) = plain_char (code c) && is_plain s

abbrev pub Plain : String → Type 0
Plain s = is_plain s ≡ true

append-Plain : (s t : String) → Plain s → Plain t → Plain (s ⊕ t)
unfolding is_plain
append-Plain String.[] t p q = rw (nil-append t) q
append-Plain (String.◌∷◌ c s) t p q =
    let ih = append-Plain s t in rw (cons-append c s t) (ground (arith, p, q, ih))

joined3 : (s t u : String) → Plain s → Plain t → Plain u → Plain (s ⊕ t ⊕ u)
joined3 s t u p q r = append-Plain (s ⊕ t) u (append-Plain s t p q) r

word-Plain : (s : String) → all_word s ≡ true → Plain s
unfolding is_plain
word-Plain String.[] h = refl
word-Plain (String.◌∷◌ c s) h = ground (arith, h, word-Plain s)

identifier-Plain : (s : String) → is_identifier s ≡ true → Plain s
unfolding is_plain is_identifier
identifier-Plain String.[] h = refl
identifier-Plain (String.◌∷◌ c s) h = ground (arith, h, word-Plain s)

abbrev Yields : Built → Type 0
Yields r = (t : String) → r ≡ ok t → Plain t

checked-Plain : (e : GraphError) (p : Part) → Yields (checked e p)
unfolding checked
checked-Plain e missing t h = absurd (ground (arith, h))
checked-Plain e other t h = absurd (ground (arith, h))
checked-Plain e (textual s) t h = elim (Bool-cases (is_identifier s)) [
  | inl safe ↦ let same : s ≡ t = ground (arith, h, safe) in rw (← same) (identifier-Plain s safe)
  | inr bad ↦ absurd (ground (arith, h, bad))
]

then-Plain :
    (r : Built) (f : String → Built)
    → Yields r
    → ((t : String) → Plain t → Yields (f t))
    → Yields (and_then r f)
then-Plain r f p q t h = let (a, e, g) = and_then-ok r f h in q a (p a e) t g

ok-Plain : (s : String) → Plain s → Yields (ok s)
ok-Plain s p t h = let same : s ≡ t = ground (arith, h) in rw (← same) p

optional-Plain :
    (what : String) (p : Part) (wrap : String → String)
    → ((t : String) → Plain t → Plain (wrap t))
    → Yields (optional what p wrap)
unfolding optional is_plain
optional-Plain what p wrap h =
    elim (is_truthy p)
      as (λ b. Yields (elim b [
        | true ↦ and_then (checked (invalid what p) p) (λ t. ok (wrap t))
        | false ↦ ok ""
      ])) [
        | true ↦ then-Plain _ _ (checked-Plain _ p) (λ t q. ok-Plain (wrap t) (h t q))
        | false ↦ ok-Plain "" refl
      ]

vertex_suffix-Plain : (label key : Part) → Yields (vertex_suffix label key)
unfolding vertex_suffix is_plain
vertex_suffix-Plain label key =
    elim (is_truthy label)
      as (λ b. Yields (elim b [
        | true ↦ and_then (checked (invalid "vertex label" label) label) (λ l.
            and_then (optional "vertex key" key (λ k. " KEY (" ⊕ k ⊕ ")"))
              (λ k. ok (k ⊕ " LABEL " ⊕ l)))
        | false ↦ ok ""
      ])) [
        | true ↦ then-Plain _ _ (checked-Plain _ label) (λ l p.
            then-Plain _ _ (optional-Plain _ key _ (λ k q. joined3 " KEY (" k ")" refl q refl))
              (λ k q. ok-Plain _ (joined3 k " LABEL " l q refl p)))
        | false ↦ ok-Plain "" refl
      ]

format_vertex-Plain : (v : Vertex) → Yields (format_vertex v)
unfolding format_vertex
format_vertex-Plain (named v) t h = checked-Plain _ (textual v) t h
format_vertex-Plain (described name label key) t h =
    then-Plain _ _ (checked-Plain _ name)
      (λ n p.
        then-Plain _ _ (vertex_suffix-Plain label key)
          (λ s q. ok-Plain (n ⊕ s) (append-Plain n s p q)))
      t h
format_vertex-Plain malformed t h = absurd (ground (arith, h))

endpoint-Plain :
    (key_name ref_name : String) (key ref : Part) (vertex : String)
    → Plain vertex
    → Yields (endpoint key_name ref_name key ref vertex)
unfolding endpoint is_plain
endpoint-Plain key_name ref_name key ref vertex v =
    elim (is_truthy key)
      as (λ b. Yields (elim b [
        | true ↦ and_then (checked (invalid key_name key) key) (λ k.
            and_then (optional ref_name ref (λ r. " (" ⊕ r ⊕ ")"))
              (λ r. ok (" KEY (" ⊕ k ⊕ ") REFERENCES " ⊕ vertex ⊕ r)))
        | false ↦ ok (" " ⊕ vertex)
      ])) [
        | true ↦ then-Plain _ _ (checked-Plain _ key) (λ k p.
            then-Plain _ _ (optional-Plain _ ref _ (λ r q. joined3 " (" r ")" refl q refl)) (λ r q.
              ok-Plain _ (
                append-Plain _ r
                  (append-Plain _ vertex (joined3 " KEY (" k ") REFERENCES " refl p refl) v) q)))
        | false ↦ ok-Plain _ (append-Plain " " vertex refl v)
      ]

edge-Plain : (e : EdgeParts) → Yields (format_edge (edge e))
unfolding format_edge is_plain
edge-Plain e = then-Plain _ _ (checked-Plain _ e.name) λ name p.
    then-Plain _ _ (checked-Plain _ e.source) λ source q.
      then-Plain _ _ (checked-Plain _ e.destination) λ destination r.
        then-Plain _ _ (optional-Plain _ e.label _ (λ l x. append-Plain " LABEL " l refl x))
          λ label s.
            then-Plain _ _ (endpoint-Plain _ _ e.source_key e.source_ref source q) λ from x.
              then-Plain _ _ (endpoint-Plain _ _ e.destination_key e.destination_ref destination r)
                λ to y. ok-Plain _ (
                  append-Plain (name ⊕ label ⊕ " SOURCE" ⊕ from ⊕ " DESTINATION") to
                    (joined3 (name ⊕ label ⊕ " SOURCE") from " DESTINATION"
                      (joined3 name label " SOURCE" p s refl) x refl)
                    y)

format_edge-Plain : (e : Edge) → Yields (format_edge e)
unfolding format_edge
format_edge-Plain malformed_edge t h = absurd (ground (arith, h))
format_edge-Plain (edge e) t h = edge-Plain e t h

format_all-Plain :
    {A : Type 0} (format : A → Built) (xs : List A) (ts : List String)
    → ((x : A) → Yields (format x))
    → format_all format xs ≡ ok ts
    → All Plain ts
unfolding format_all
format_all-Plain format [] ts f h = let e : [] ≡ ts = ground (arith, h) in rw (← e) tt
format_all-Plain format (x ∷ xs) ts f h =
    let (t, e, g) = and_then-ok (format x) _ h in
    let (us, d, k) = and_then-ok (format_all format xs) _ g in
    let same : t ∷ us ≡ ts = ground (arith, k) in
    rw (← same) (f x t e, format_all-Plain format xs us f d)

join_with-Plain : (ts : List String) → All Plain ts → Plain (join_with ", " ts)
unfolding join_with is_plain
join_with-Plain [] h = refl
join_with-Plain (t ∷ []) (p, h) = p
join_with-Plain (t ∷ u ∷ us) (p, h) =
    append-Plain (t ⊕ ", ") (join_with ", " (u ∷ us)) (append-Plain t ", " p refl)
      (join_with-Plain (u ∷ us) h)

edge_clause-Plain : (ts : List String) → All Plain ts → Plain (edge_clause ts)
unfolding is_plain
edge_clause-Plain [] h = refl
edge_clause-Plain (t ∷ ts) h =
    joined3 " EDGE TABLES (" (join_with ", " (t ∷ ts)) ")" refl (join_with-Plain (t ∷ ts) h) refl

with_edges-Plain :
    (name : String) (vertices : List Vertex) (edges : Option (List Edge))
    → Plain name
    → Yields (with_edges name vertices edges)
unfolding is_plain
with_edges-Plain name vertices none p t h = absurd (ground (arith, h))
with_edges-Plain name vertices (some edges) p t h =
    let (vs, d, g) = and_then-ok (format_all format_vertex vertices) _ h in
    let (es, e, k) = and_then-ok (format_all format_edge edges) _ g in
    let vs-Plain = format_all-Plain format_vertex vertices vs format_vertex-Plain d in
    let es-Plain = format_all-Plain format_edge edges es format_edge-Plain e in
    ok-Plain _
      (append-Plain ("CREATE PROPERTY GRAPH " ⊕ name ⊕ " " ⊕ vertex_clause vs) (edge_clause es)
        (append-Plain ("CREATE PROPERTY GRAPH " ⊕ name ⊕ " ") (vertex_clause vs)
          (joined3 "CREATE PROPERTY GRAPH " name " " refl p refl)
          (joined3 "VERTEX TABLES (" (join_with ", " vs) ")" refl (join_with-Plain vs vs-Plain)
            refl))
        (edge_clause-Plain es es-Plain))
      t k

with_vertices-Plain :
    (def : Definition) (name : String) (vertices : Option (List Vertex))
    → Plain name
    → Yields (with_vertices def name vertices)
with_vertices-Plain def name none p t h = absurd (ground (arith, h))
with_vertices-Plain def name (some []) p t h = absurd (ground (arith, h))
with_vertices-Plain def name (some (v ∷ vs)) p t h =
    with_edges-Plain name (v ∷ vs) def.edge_tables p t h

-- Whatever the definition holds, a statement that is built from it is made of letters, digits,
-- underscores, spaces, parentheses and commas: no quote, semicolon, operator or comment can be
-- brought in through a name.
pub build_create_property_graph_sql-Plain :
    (def : Definition) (sql : String) → build_create_property_graph_sql def ≡ ok sql → Plain sql
unfolding build_create_property_graph_sql
build_create_property_graph_sql-Plain def =
    then-Plain _ _ (checked-Plain _ def.name)
      (λ name p. with_vertices-Plain def name def.vertex_tables p)
