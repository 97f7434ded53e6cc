-- ===== src/Shard.antt =====
-- src/graphlab/database/graph_edge_index.hpp, graph_vertex_index.hpp, graph_shard_impl.hpp and .cpp,
-- graph_shard.hpp: a shard, which keeps vertices and edges in arrays with an index on each.
-- boost::unordered_map is a function into options, and boost::unordered_set a list with no element
-- twice.
pub mod Index
pub mod Spec
pub mod Invariant
pub mod Mirror
use graphlabapi_graphlab.Prelude.{
  ℕ, zero, suc, ◌+◌, ◌-◌, ◌%◌, ◌^◌, ◌≡◌, refl, Bool, true, false, not, Option, none, some, List, [],
  ◌∷◌, ◌++◌, length, get_elem?, set, ltb, ◌==◌, if◌then◌else◌, arith,
}
use graphlabapi_graphlab.Prelude.Run.{Run, ok, fault, bad_cast, ◌>>=◌, ◌>>◌, or_fault, assert}
use graphlabapi_graphlab.Row.{Row, copy_row}
use Index.{EdgeIndex, VertexIndex, empty_edge_index, empty_vertex_index}
use Index

-- `vid` wraps nowhere. A pair of `edge` is the source and the target.
pub record Shard : Type 0 where
  pub shard_id : ℕ
  pub vertex : List ℕ
  pub vertex_data : List Row
  pub edgeid : List ℕ
  pub edge : List (ℕ × ℕ)
  pub edge_data : List Row
  pub edge_index : EdgeIndex
  pub vertex_index : VertexIndex
  pub vertex_mirrors : List (List ℕ)

unfoldable pub new : ℕ → Shard
new id = record {
  shard_id = id;
  vertex = [];
  vertex_data = [];
  edgeid = [];
  edge = [];
  edge_data = [];
  edge_index = empty_edge_index;
  vertex_index = empty_vertex_index;
  vertex_mirrors = [];
}

-- All but the shard's id.
unfoldable pub clear : Shard → Shard
unfolding new
clear s = new s.shard_id

abbrev pub num_vertices : Shard → ℕ
num_vertices s = length s.vertex

abbrev pub num_edges : Shard → ℕ
num_edges s = length s.edge

abbrev pub has_vertex : Shard → ℕ → Bool
has_vertex s vid = Index.has_vertex s.vertex_index vid

unfoldable pub add_vertex : Shard → ℕ → Row → Run (ℕ × Shard)
unfolding Index.add_vertex
add_vertex s vid row = do
  data_copy ← copy_row row
  let pos = length (s.vertex ++ vid ∷ []) - 1
  ok (
    pos,
    record s {
      vertex = s.vertex ++ vid ∷ [];
      vertex_mirrors = s.vertex_mirrors ++ [] ∷ [];
      vertex_data = s.vertex_data ++ data_copy ∷ [];
      vertex_index = Index.add_vertex s.vertex_index vid pos;
    },
  )

abbrev pub contains : List ℕ → ℕ → Bool
contains [] a = false
contains (x ∷ xs) a = if x == a then true else contains xs a

-- `insert` of an unordered set.
unfoldable pub insert : List ℕ → ℕ → List ℕ
insert xs a = if contains xs a then xs else xs ++ a ∷ []

unfoldable pub add_vertex_mirror : Shard → ℕ → ℕ → Run Shard
unfolding insert Index.get_index
add_vertex_mirror s v mirror_id =
    let inserted : Run Shard = do
      pos ← Index.get_index s.vertex_index v
      mirrors ← or_fault (get_elem? s.vertex_mirrors pos)
      ok (record s { vertex_mirrors = set s.vertex_mirrors pos (insert mirrors mirror_id) })
    in if mirror_id == s.shard_id then ok s else inserted

-- `edge_index.add_edge` takes the position as a 32-bit local edge id.
unfoldable pub add_edge : Shard → ℕ → ℕ → Row → Run (ℕ × Shard)
unfolding Index.add_edge
add_edge s source target row = do
  data_copy ← copy_row row
  let pos = length (s.edge ++ (source, target) ∷ []) - 1
  ok (
    pos,
    record s {
      edge = s.edge ++ (source, target) ∷ [];
      edge_data = s.edge_data ++ data_copy ∷ [];
      edge_index = Index.add_edge s.edge_index source target (pos % 2 ^ 32);
    },
  )

-- `graph_shard::vertex_data`: the position must be in range.
unfoldable pub vertex_data : Shard → ℕ → Run Row
vertex_data s i = do assert (ltb i (num_vertices s)); or_fault (get_elem? s.vertex_data i)

-- `vertex_data_by_id`, with `none` for NULL. The pointer is the position in `vertex_data`.
unfoldable pub vertex_data_by_id : Shard → ℕ → Run (Option ℕ)
unfolding Index.get_index
vertex_data_by_id s vid =
    let found : Run (Option ℕ) = do
      pos ← Index.get_index s.vertex_index vid
      assert (ltb pos (num_vertices s))
      ok (some pos)
    in if has_vertex s vid then found else ok none

-- `mirrors_by_id`
unfoldable pub mirrors_by_id : Shard → ℕ → Run (List ℕ)
unfolding Index.get_index
mirrors_by_id s vid = do
  pos ← Index.get_index s.vertex_index vid
  or_fault (get_elem? s.vertex_mirrors pos)

abbrev pub vertex_adj_ids : Shard → ℕ → Bool → List ℕ
vertex_adj_ids s vid is_in_edges = Index.get_vertex_adj s.edge_index vid is_in_edges

-- The far ends of the edges with the given ids: the sources of in-edges, the targets of out-edges.
unfoldable pub neighbors : Shard → Bool → List ℕ → Run (List ℕ)
neighbors s is_in_edges [] = ok []
neighbors s is_in_edges (id ∷ ids) = do
  e ← or_fault (get_elem? s.edge id)
  rest ← neighbors s is_in_edges ids
  ok ((if is_in_edges then e.0 else e.1) ∷ rest)

-- A bool passed where an id is expected, and an id where a bool is.
abbrev pub bool_to_id : Bool → ℕ
bool_to_id true = 1
bool_to_id false = 0

abbrev pub id_to_bool : ℕ → Bool
id_to_bool id = not (id == 0)

-- `graph_shard::vertex_adj`, which passes `is_in_edges` as the vertex id and `vid` as the direction.
unfoldable pub vertex_adj : Shard → ℕ → Bool → Run (List ℕ)
unfolding neighbors
vertex_adj s vid is_in_edges =
    neighbors s is_in_edges
      (Index.get_vertex_adj s.edge_index (bool_to_id is_in_edges) (id_to_bool vid))
