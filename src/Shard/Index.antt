-- ===== src/Shard/Index.antt =====
-- src/graphlab/database/graph_edge_index.hpp and graph_vertex_index.hpp.
use graphlabapi_graphlab.Prelude.{
  ℕ, Bool, true, false, Option, none, some, List, [], ◌∷◌, ◌++◌, length, ◌==◌, if◌then◌else◌,
}
use graphlabapi_graphlab.Prelude.Run.{Run, ◌>>◌, or_fault, assert}

abbrev pub Map : Type 0 → Type 0
Map V = ℕ → Option V

unfoldable pub assign_at : {V : Type 0} → ℕ → V → Map V → Map V
assign_at k v m j = if k == j then some v else m j

abbrev pub list_at : Option (List ℕ) → List ℕ
list_at none = []
list_at (some l) = l

-- `m[k].push_back(pos)`
unfoldable pub push_at : ℕ → ℕ → Map (List ℕ) → Map (List ℕ)
unfolding assign_at
push_at k pos m = assign_at k (list_at (m k) ++ pos ∷ []) m

pub record EdgeIndex : Type 0 where
  pub in_edges : Map (List ℕ)
  pub out_edges : Map (List ℕ)

abbrev pub empty_edge_index : EdgeIndex
empty_edge_index = record { in_edges = λ _. none; out_edges = λ _. none }

-- What `get_vertex_adj` writes to an empty `out`.
abbrev pub get_vertex_adj : EdgeIndex → ℕ → Bool → List ℕ
get_vertex_adj x vid get_in = list_at (if get_in then x.in_edges vid else x.out_edges vid)

abbrev pub num_in_edges : EdgeIndex → ℕ → ℕ
num_in_edges x vid = length (list_at (x.in_edges vid))

abbrev pub num_out_edges : EdgeIndex → ℕ → ℕ
num_out_edges x vid = length (list_at (x.out_edges vid))

unfoldable pub add_edge : EdgeIndex → ℕ → ℕ → ℕ → EdgeIndex
unfolding push_at
add_edge x source target pos = record {
  in_edges = push_at target pos x.in_edges;
  out_edges = push_at source pos x.out_edges;
}

pub record VertexIndex : Type 0 where
  pub index_map : Map ℕ

abbrev pub empty_vertex_index : VertexIndex
empty_vertex_index = record { index_map = λ _. none }

abbrev is_some : Option ℕ → Bool
is_some none = false
is_some (some a) = true

abbrev pub has_vertex : VertexIndex → ℕ → Bool
has_vertex x vid = is_some (x.index_map vid)

unfoldable pub get_index : VertexIndex → ℕ → Run ℕ
get_index x vid = do assert (has_vertex x vid); or_fault (x.index_map vid)

-- The returned flag, whether the vertex was new, is not used by the shard.
unfoldable pub add_vertex : VertexIndex → ℕ → ℕ → VertexIndex
unfolding assign_at
add_vertex x vid pos =
    if has_vertex x vid then x else record { index_map = assign_at vid pos x.index_map }
