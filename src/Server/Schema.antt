-- ===== src/Server/Schema.antt =====
-- The schema of the shard server: `add_vertex_field` and `add_edge_field`.
use graphlabapi_graphlab.Prelude.{
  ◌≡◌, refl, ◌∙◌, Bool, true, false, none, some, List, [], ◌∷◌, ◌++◌, if◌then◌else◌, arith,
  Option-cases, inl, inr,
}
use graphlabapi_graphlab.Prelude.Run.{ok}
use graphlabapi_graphlab.Row.{Row, Field}
use graphlabapi_graphlab.Shard.Invariant
use graphlabapi_graphlab.Shard.Invariant.{AllRows, with_vertex, with_edge}
use graphlabapi_graphlab.Server.Invariant.{IsValid, AllEdges}
use graphlabapi_graphlab.Eid.{
  Datatype, vid_type, int_type, double_type, string_type, blob_type, double_vec_type, unknown_type,
}
use graphlabapi_graphlab.Prelude.{map, length-map}
use graphlabapi_graphlab.Value.{Value, word, init}
use graphlabapi_graphlab.Value.Laws
use graphlabapi_graphlab.Value.Transfer.{NullIsBlank, copy_lem}
use graphlabapi_graphlab.Row.{AllValid, add_field}
use graphlabapi_graphlab.Server.{
  Server, find_field, add_field_all, add_vertex_field, add_edge_field, edup,
}

-- The types that `init` accepts.
abbrev pub has_values : Datatype → Bool
has_values double_vec_type = false
has_values unknown_type = false
has_values _ = true

-- The null value of a type.
abbrev pub null_of : Datatype → Value
null_of t = record {
  payload = word 0;
  len = (elim t [ string_type ↦ 0 | blob_type ↦ 0 | _ ↦ 8 ]);
  type = t;
  null_value = true;
}

init_lem :
    (t : Datatype) → has_values t ≡ true → (init t ≡ ok (null_of t)) × Laws.IsValid (null_of t)
unfolding init
init_lem vid_type h = (refl, omega arith)
init_lem int_type h = (refl, omega arith)
init_lem double_type h = (refl, omega arith)
init_lem string_type h = (refl, omega arith)
init_lem blob_type h = (refl, omega arith)
init_lem t h = cc

-- A row with one more null value.
abbrev pub widen : Datatype → Row → Row
widen t row = record row { cells = row.cells ++ null_of t ∷ [] }

add_field_all_lem :
    (rows : List Row) (field : Field)
    → has_values field.type ≡ true
    → add_field_all rows field ≡ ok (map (widen field.type) rows)
unfolding add_field_all add_field
add_field_all_lem [] field h = refl
add_field_all_lem (r ∷ rows) field h =
    let (made, valid) = init_lem field.type h in
    rw (made, copy_lem (null_of field.type) valid, add_field_all_lem rows field h)

AllValid-snoc :
    (cells : List Value) (v : Value)
    → AllValid cells
    → Laws.IsValid v × NullIsBlank v
    → AllValid (cells ++ v ∷ [])
AllValid-snoc [] v h k = (k, tt)
AllValid-snoc (x ∷ cells) v h k = (h.0, AllValid-snoc cells v h.1 k)

AllRows-widen :
    (rows : List Row) (t : Datatype)
    → has_values t ≡ true
    → AllRows rows
    → AllRows (map (widen t) rows)
AllRows-widen [] t k h = tt
AllRows-widen (r ∷ rows) t k h = (
  AllValid-snoc r.cells (null_of t) h.0 ((init_lem t k).1, λ _. refl),
  AllRows-widen rows t k h.1,
)

AllEdges-widen : (rows : List Row) (t : Datatype) → AllEdges rows → AllEdges (map (widen t) rows)
AllEdges-widen [] t h = tt
AllEdges-widen (r ∷ rows) t h = (h.0, AllEdges-widen rows t h.1)

abbrev pub with_vertex_field : Server → Field → Server
with_vertex_field s field = record s {
  shard = record (s.shard) { vertex_data = map (widen field.type) s.shard.vertex_data };
  vertex_fields = s.vertex_fields ++ field ∷ [];
}

abbrev pub with_edge_field : Server → Field → Server
with_edge_field s field = record s {
  shard = record (s.shard) { edge_data = map (widen field.type) s.shard.edge_data };
  edge_fields = s.edge_fields ++ field ∷ [];
}

abbrev pub known_field : List Field → Field → Bool
known_field fields field = elim (find_field fields field.name 0) [ none ↦ false | some i ↦ true ]

-- Adding a vertex field of a type that has values returns EDUP and changes nothing if a field has
-- that name; otherwise it appends the field to the schema and a null value to every vertex row. It
-- keeps the invariant.
pub add_vertex_field_lem :
    (s : Server) (field : Field)
    → IsValid s
    → has_values field.type ≡ true
    → (t : Server) × (add_vertex_field s field
        ≡ ok (if known_field s.vertex_fields field then edup else 0, t))
      × (t ≡ (if known_field s.vertex_fields field then s else with_vertex_field s field))
      × IsValid t
unfolding add_vertex_field
add_vertex_field_lem s field h k = elim (Option-cases (find_field s.vertex_fields field.name 0)) [
  | inl new_name ↦ (
    with_vertex_field s field,
    ground (arith, new_name, add_field_all_lem s.shard.vertex_data field k),
    ground arith,
    record {
      shard_valid = record {
        data_length = length-map (widen field.type) s.shard.vertex_data ∙ v.data_length;
        mirrors_length = v.mirrors_length;
        edge_data_length = v.edge_data_length;
        vertex_rows = AllRows-widen s.shard.vertex_data field.type k v.vertex_rows;
        edge_rows = v.edge_rows;
        few_edges = v.few_edges;
        vertices_indexed = v.vertices_indexed;
        in_indexed = v.in_indexed;
        out_indexed = v.out_indexed;
      };
      distinct = h.distinct;
      edges_marked = h.edges_marked;
    },
  )
  | inr (i, old) ↦ (s, ground arith, ground arith, h)
]
  where
    v : Invariant.IsValid s.shard
    v = h.shard_valid

-- The same of an edge field and the edge rows.
pub add_edge_field_lem :
    (s : Server) (field : Field)
    → IsValid s
    → has_values field.type ≡ true
    → (t : Server) × (add_edge_field s field
        ≡ ok (if known_field s.edge_fields field then edup else 0, t))
      × (t ≡ (if known_field s.edge_fields field then s else with_edge_field s field))
      × IsValid t
unfolding add_edge_field
add_edge_field_lem s field h k = elim (Option-cases (find_field s.edge_fields field.name 0)) [
  | inl new_name ↦ (
    with_edge_field s field,
    ground (arith, new_name, add_field_all_lem s.shard.edge_data field k),
    ground arith,
    record {
      shard_valid = record {
        data_length = v.data_length;
        mirrors_length = v.mirrors_length;
        edge_data_length = length-map (widen field.type) s.shard.edge_data ∙ v.edge_data_length;
        vertex_rows = v.vertex_rows;
        edge_rows = AllRows-widen s.shard.edge_data field.type k v.edge_rows;
        few_edges = v.few_edges;
        vertices_indexed = v.vertices_indexed;
        in_indexed = v.in_indexed;
        out_indexed = v.out_indexed;
      };
      distinct = h.distinct;
      edges_marked = AllEdges-widen s.shard.edge_data field.type h.edges_marked;
    },
  )
  | inr (i, old) ↦ (s, ground arith, ground arith, h)
]
  where
    v : Invariant.IsValid s.shard
    v = h.shard_valid
