-- ===== src/Shard/Invariant.antt =====
-- The invariant of a shard: what its indexes say of its arrays.
use graphlabapi_graphlab.Prelude.{
  ℕ, ◌-◌, ◌%◌, ◌^◌, ◌<◌, ◌≤◌, ◌≡◌, refl, true, List, [], ◌∷◌, ◌++◌, length, length-snoc, ◌==◌,
  arith, ==_iff, subst, zero, suc, get_elem?, some,
}
use graphlabapi_graphlab.Prelude.Run.{ok}
use graphlabapi_graphlab.Row.{Row, RowIsValid, copy_row_lem}
use graphlabapi_graphlab.Shard.Index
use graphlabapi_graphlab.Shard.Spec.{
  index_of, positions, source_of, target_of, positions-append, index_of-append,
}
use graphlabapi_graphlab.Shard.Index.{Map, list_at, push_at, assign_at}
use graphlabapi_graphlab.Shard.{Shard, new, add_vertex, add_edge, num_edges, num_vertices}

abbrev pub AllRows : List Row → Type 0
AllRows [] = Unit
AllRows (r ∷ rows) = RowIsValid r × AllRows rows

pub AllRows-get :
    (rows : List Row) (i : ℕ) (r : Row) → AllRows rows → get_elem? rows i ≡ some r → RowIsValid r
AllRows-get [] i r h e = cc
AllRows-get (x ∷ rows) zero r h e = let same : x ≡ r = cc in subst RowIsValid same h.0
AllRows-get (x ∷ rows) (suc i) r h e = AllRows-get rows i r h.1 e

pub record IsValid (s : Shard) : Type 0 where
  pub data_length : length s.vertex_data ≡ length s.vertex
  pub mirrors_length : length s.vertex_mirrors ≡ length s.vertex
  pub edge_data_length : length s.edge_data ≡ length s.edge
  pub vertex_rows : AllRows s.vertex_data
  pub edge_rows : AllRows s.edge_data
  pub few_edges : length s.edge ≤ 2 ^ 32
  pub vertices_indexed : (vid : ℕ) → s.vertex_index.index_map vid ≡ index_of vid s.vertex 0
  pub in_indexed :
      (vid : ℕ) → list_at (s.edge_index.in_edges vid) ≡ positions target_of vid s.edge 0
  pub out_indexed :
      (vid : ℕ) → list_at (s.edge_index.out_edges vid) ≡ positions source_of vid s.edge 0

pub new-IsValid : (id : ℕ) → IsValid (new id)
unfolding new index_of positions
new-IsValid id = record {
  data_length = refl;
  mirrors_length = refl;
  edge_data_length = refl;
  vertex_rows = tt;
  edge_rows = tt;
  few_edges = omega arith;
  vertices_indexed = λ vid. refl;
  in_indexed = λ vid. refl;
  out_indexed = λ vid. refl;
}

AllRows-append :
    (rows : List Row) (r : Row) → AllRows rows → RowIsValid r → AllRows (rows ++ r ∷ [])
AllRows-append [] r h k = (k, tt)
AllRows-append (x ∷ rows) r h k = (h.0, AllRows-append rows r h.1 k)

positions-push :
    (m : Map (List ℕ)) (end : ℕ × ℕ → ℕ) (edges : List (ℕ × ℕ)) (e : ℕ × ℕ) (n vid : ℕ)
    → n ≡ length edges
    → ((v : ℕ) → list_at (m v) ≡ positions end v edges 0)
    → list_at (push_at (end e) n m vid) ≡ positions end vid (edges ++ e ∷ []) 0
unfolding push_at
positions-push m end edges e n vid size h =
    ground (arith, positions-append end vid edges e 0, h vid, h (end e), same_key)
  where
    same_key : (end e == vid) ≡ true → end e ≡ vid
    same_key q = (==_iff (end e) vid).0 q

index_of-add :
    (s : Shard) (xs : List ℕ) (x pos vid : ℕ)
    → pos ≡ length xs
    → ((v : ℕ) → s.vertex_index.index_map v ≡ index_of v xs 0)
    → (Index.add_vertex s.vertex_index x pos).index_map vid ≡ index_of vid (xs ++ x ∷ []) 0
unfolding Index.add_vertex
index_of-add s xs x pos vid size h = ground (arith, index_of-append vid xs x 0, h vid, h x)

-- The shard with one more vertex at the end, and with one more edge.
abbrev pub with_vertex : Shard → ℕ → Row → Shard
with_vertex s vid row = record s {
  vertex = s.vertex ++ vid ∷ [];
  vertex_mirrors = s.vertex_mirrors ++ [] ∷ [];
  vertex_data = s.vertex_data ++ row ∷ [];
  vertex_index = Index.add_vertex s.vertex_index vid (length s.vertex);
}

abbrev pub with_edge : Shard → ℕ → ℕ → Row → Shard
with_edge s source target row = record s {
  edge = s.edge ++ (source, target) ∷ [];
  edge_data = s.edge_data ++ row ∷ [];
  edge_index = Index.add_edge s.edge_index source target (length s.edge);
}

pub add_vertex_lem :
    (s : Shard) (vid : ℕ) (row : Row)
    → RowIsValid row
    → add_vertex s vid row ≡ ok (num_vertices s, with_vertex s vid row)
unfolding add_vertex
add_vertex_lem s vid row k =
    let last : length (s.vertex ++ vid ∷ []) - 1 ≡ length s.vertex =
      omega (arith, length-snoc s.vertex vid) in
    rw (copy_row_lem row k, last)

pub with_vertex-IsValid :
    (s : Shard) (vid : ℕ) (row : Row) → IsValid s → RowIsValid row → IsValid (with_vertex s vid row)
with_vertex-IsValid s vid row h k = record {
  data_length =
      omega (arith, h.data_length, length-snoc s.vertex_data row, length-snoc s.vertex vid);
  mirrors_length =
      omega (arith, h.mirrors_length, length-snoc s.vertex_mirrors [], length-snoc s.vertex vid);
  edge_data_length = h.edge_data_length;
  vertex_rows = AllRows-append s.vertex_data row h.vertex_rows k;
  edge_rows = h.edge_rows;
  few_edges = h.few_edges;
  vertices_indexed = λ v. index_of-add s s.vertex vid (length s.vertex) v refl h.vertices_indexed;
  in_indexed = h.in_indexed;
  out_indexed = h.out_indexed;
}

-- The position of an edge fits its local id as long as the shard has less than 2^32 edges.
pub add_edge_lem :
    (s : Shard) (source target : ℕ) (row : Row)
    → RowIsValid row
    → num_edges s < 2 ^ 32
    → add_edge s source target row ≡ ok (num_edges s, with_edge s source target row)
unfolding add_edge
add_edge_lem s source target row k small =
    let last : length (s.edge ++ (source, target) ∷ []) - 1 ≡ length s.edge =
      omega (arith, length-snoc s.edge (source, target)) in
    let fits : length s.edge % 2 ^ 32 ≡ length s.edge = omega arith in
    rw (copy_row_lem row k, last, fits)

pub with_edge-IsValid :
    (s : Shard) (source target : ℕ) (row : Row)
    → IsValid s
    → RowIsValid row
    → num_edges s < 2 ^ 32
    → IsValid (with_edge s source target row)
unfolding Index.add_edge
with_edge-IsValid s source target row h k small =
    let e : ℕ × ℕ = (source, target) in
    record {
      data_length = h.data_length;
      mirrors_length = h.mirrors_length;
      edge_data_length =
          omega (arith, h.edge_data_length, length-snoc s.edge_data row, length-snoc s.edge e);
      vertex_rows = h.vertex_rows;
      edge_rows = AllRows-append s.edge_data row h.edge_rows k;
      few_edges = omega (arith, length-snoc s.edge e);
      vertices_indexed = h.vertices_indexed;
      in_indexed = λ v.
          positions-push s.edge_index.in_edges target_of s.edge e (length s.edge) v refl
            h.in_indexed;
      out_indexed = λ v.
          positions-push s.edge_index.out_edges source_of s.edge e (length s.edge) v refl
            h.out_indexed;
    }
