-- ===== src/Server/Invariant.antt =====
-- The invariant of the shard server, under the changes that its methods make.
use graphlabapi_graphlab.Prelude.{
  ℕ, zero, suc, ◌≡◌, sym, ◌∙◌, true, false, none, some, List, [], ◌∷◌, ◌++◌, length, length-set,
  length-snoc, get_elem?, set, arith, dec_lt, get_elem?-append_left, get_elem?-append_last,
  get_elem?_out_of_bounds,
}
use graphlabapi_graphlab.Row.{Row, RowIsValid, is_edge}
use graphlabapi_graphlab.Shard
use graphlabapi_graphlab.Shard.{Shard}
use graphlabapi_graphlab.Shard.Spec.{index_of, index_of-append}
use graphlabapi_graphlab.Shard.Invariant
use graphlabapi_graphlab.Shard.Invariant.{AllRows, with_vertex, with_edge}
use graphlabapi_graphlab.Server.{Server, with_vertex_data, with_edge_data}

-- No vertex id stands twice: the index gives each position back.
abbrev pub IsDistinct : List ℕ → Type 0
IsDistinct xs = (i v : ℕ) → get_elem? xs i ≡ some v → index_of v xs 0 ≡ some i

-- Every row of an edge is marked as one.
abbrev pub AllEdges : List Row → Type 0
AllEdges [] = Unit
AllEdges (r ∷ rows) = (is_edge r ≡ true) × AllEdges rows

pub record IsValid (s : Server) : Type 0 where
  pub shard_valid : Invariant.IsValid s.shard
  pub distinct : IsDistinct s.shard.vertex
  pub edges_marked : AllEdges s.shard.edge_data

AllRows-set :
    (rows : List Row) (i : ℕ) (r : Row) → AllRows rows → RowIsValid r → AllRows (set rows i r)
AllRows-set [] i r h k = tt
AllRows-set (x ∷ rows) zero r h k = (k, h.1)
AllRows-set (x ∷ rows) (suc i) r h k = (h.0, AllRows-set rows i r h.1 k)

pub AllEdges-set :
    (rows : List Row) (i : ℕ) (r : Row) → AllEdges rows → is_edge r ≡ true → AllEdges (set rows i r)
AllEdges-set [] i r h k = tt
AllEdges-set (x ∷ rows) zero r h k = (k, h.1)
AllEdges-set (x ∷ rows) (suc i) r h k = (h.0, AllEdges-set rows i r h.1 k)

pub AllEdges-snoc :
    (rows : List Row) (r : Row) → AllEdges rows → is_edge r ≡ true → AllEdges (rows ++ r ∷ [])
AllEdges-snoc [] r h k = (k, tt)
AllEdges-snoc (x ∷ rows) r h k = (h.0, AllEdges-snoc rows r h.1 k)

IsDistinct-snoc :
    (xs : List ℕ) (vid : ℕ) → IsDistinct xs → index_of vid xs 0 ≡ none → IsDistinct (xs ++ vid ∷ [])
IsDistinct-snoc xs vid h absent i v e = elim (dec_lt i (length xs)) [
  | yes below ↦
      let old = h i v (sym (get_elem?-append_left xs (vid ∷ []) i below) ∙ e) in
      ground (arith, index_of-append v xs vid 0, old)
  | no above ↦ elim (dec_lt (length xs) i) [
    | yes past ↦ absurd (
        ground
          (arith, get_elem?_out_of_bounds (xs ++ vid ∷ []) i (omega (arith, length-snoc xs vid))))
    | no at_end ↦
        let here = get_elem?-append_last xs vid i (omega arith) in
        ground (arith, index_of-append v xs vid 0, here)
  ]
]

pub with_vertex_data-IsValid :
    (s : Server) (i : ℕ) (row : Row)
    → IsValid s
    → RowIsValid row
    → IsValid (with_vertex_data s i row)
with_vertex_data-IsValid s i row h k = record {
  shard_valid = record {
    data_length = length-set s.shard.vertex_data i row ∙ v.data_length;
    mirrors_length = v.mirrors_length;
    edge_data_length = v.edge_data_length;
    vertex_rows = AllRows-set s.shard.vertex_data i row v.vertex_rows k;
    edge_rows = v.edge_rows;
    few_edges = v.few_edges;
    vertices_indexed = v.vertices_indexed;
    in_indexed = v.in_indexed;
    out_indexed = v.out_indexed;
  };
  distinct = h.distinct;
  edges_marked = h.edges_marked;
}
  where
    v : Invariant.IsValid s.shard
    v = h.shard_valid

pub with_edge_data-IsValid :
    (s : Server) (i : ℕ) (row : Row)
    → IsValid s
    → RowIsValid row
    → is_edge row ≡ true
    → IsValid (with_edge_data s i row)
with_edge_data-IsValid s i row h k marked = record {
  shard_valid = record {
    data_length = v.data_length;
    mirrors_length = v.mirrors_length;
    edge_data_length = length-set s.shard.edge_data i row ∙ v.edge_data_length;
    vertex_rows = v.vertex_rows;
    edge_rows = AllRows-set s.shard.edge_data i row v.edge_rows k;
    few_edges = v.few_edges;
    vertices_indexed = v.vertices_indexed;
    in_indexed = v.in_indexed;
    out_indexed = v.out_indexed;
  };
  distinct = h.distinct;
  edges_marked = AllEdges-set s.shard.edge_data i row h.edges_marked marked;
}
  where
    v : Invariant.IsValid s.shard
    v = h.shard_valid

pub with_vertex-IsValid :
    (s : Server) (vid : ℕ) (row : Row)
    → IsValid s
    → RowIsValid row
    → Shard.has_vertex s.shard vid ≡ false
    → IsValid (record s { shard = with_vertex s.shard vid row })
with_vertex-IsValid s vid row h k absent = record {
  shard_valid = Invariant.with_vertex-IsValid s.shard vid row h.shard_valid k;
  distinct =
      IsDistinct-snoc s.shard.vertex vid h.distinct
        (ground (arith, h.shard_valid.vertices_indexed vid));
  edges_marked = h.edges_marked;
}
