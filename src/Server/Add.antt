-- ===== src/Server/Add.antt =====
-- `add_vertex` and `add_edge` of the shard server.
use graphlabapi_graphlab.Prelude.{
  ℕ, ◌<◌, ◌≡◌, ◌∙◌, true, false, some, get_elem?, get_elem?_in_bounds, if◌then◌else◌, arith,
  Bool-cases, Option-cases, inl, inr, ◌^◌,
}
use graphlabapi_graphlab.Prelude.Run.{ok}
use graphlabapi_graphlab.Row.{
  Row, RowIsValid, assign_row_lem, all_null-AllBlank, row_is_null, is_edge,
}
use graphlabapi_graphlab.Shard
use graphlabapi_graphlab.Shard.{Shard}
use graphlabapi_graphlab.Shard.Invariant
use graphlabapi_graphlab.Shard.Invariant.{AllRows, AllRows-get, with_vertex, with_edge}
use graphlabapi_graphlab.Shard.Mirror
use graphlabapi_graphlab.Server.{Server, add_vertex, add_edge, with_vertex_data, edup, einvtype}
use graphlabapi_graphlab.Server.Invariant.{
  IsValid, AllEdges-snoc, with_vertex-IsValid, with_vertex_data-IsValid,
}

-- The four ways in which `add_vertex` ends.
pub data Added (s : Server) (vid : ℕ) (row : Row) : ℕ → Server → Type 0 where
  inserted :
      Shard.has_vertex s.shard vid ≡ false
      → row.is_vertex ≡ true
      → Added s vid row 0 (record s { shard = with_vertex s.shard vid row })
  wrong_kind :
      Shard.has_vertex s.shard vid ≡ false → row.is_vertex ≡ false → Added s vid row einvtype s
  overwritten :
      (i : ℕ) (old : Row)
      → s.shard.vertex_index.index_map vid ≡ some i
      → get_elem? s.shard.vertex_data i ≡ some old
      → row_is_null old ≡ true
      → Added s vid row 0 (with_vertex_data s i row)
  duplicate :
      (i : ℕ) (old : Row)
      → s.shard.vertex_index.index_map vid ≡ some i
      → get_elem? s.shard.vertex_data i ≡ some old
      → row_is_null old ≡ false
      → Added s vid row edup s

pub add_absent :
    (s : Server) (vid : ℕ) (row : Row)
    → RowIsValid row
    → Shard.has_vertex s.shard vid ≡ false
    → add_vertex s vid row ≡ (
        if row.is_vertex
        then ok (0, record s { shard = with_vertex s.shard vid row })
        else ok (einvtype, s))
unfolding add_vertex
add_absent s vid row k absent = ground (arith, Invariant.add_vertex_lem s.shard vid row k)

add_present :
    (s : Server) (vid i : ℕ) (row old : Row)
    → IsValid s
    → RowIsValid row
    → s.shard.vertex_index.index_map vid ≡ some i
    → get_elem? s.shard.vertex_data i ≡ some old
    → RowIsValid old
    → add_vertex s vid row
      ≡ (if row_is_null old then ok (0, with_vertex_data s i row) else ok (edup, s))
unfolding add_vertex
add_present s vid i row old h k found at_i old_valid = elim (Bool-cases (row_is_null old)) [
  | inl null ↦ ground (
    arith,
    Mirror.vertex_data_by_id_lem s.shard h.shard_valid vid i found,
    assign_row_lem old row (all_null-AllBlank old.cells old_valid null) k,
  )
  | inr full ↦ ground (arith, Mirror.vertex_data_by_id_lem s.shard h.shard_valid vid i found)
]

pub add_vertex_lem :
    (s : Server) (vid : ℕ) (row : Row)
    → IsValid s
    → RowIsValid row
    → (err : ℕ) × (t : Server) × (add_vertex s vid row ≡ ok (err, t))
      × Added s vid row err t
      × IsValid t
add_vertex_lem s vid row h k = elim (Option-cases (s.shard.vertex_index.index_map vid)) [
  | inl missing ↦
      let absent : Shard.has_vertex s.shard vid ≡ false = ground arith in
      elim (Bool-cases row.is_vertex) [
        | inl vertex ↦ (
          0,
          record s { shard = with_vertex s.shard vid row },
          add_absent s vid row k absent ∙ ground arith,
          inserted absent vertex,
          with_vertex-IsValid s vid row h k absent,
        )
        | inr edge ↦
            (einvtype, s, add_absent s vid row k absent ∙ ground arith, wrong_kind absent edge, h)
      ]
  | inr (i, found) ↦
      let position = (Mirror.indexed_position s.shard h.shard_valid vid i found).0 in
      let (old, at_i) =
        get_elem?_in_bounds s.shard.vertex_data i (omega (arith, h.shard_valid.data_length)) in
      let old_valid = AllRows-get s.shard.vertex_data i old h.shard_valid.vertex_rows at_i in
      elim (Bool-cases (row_is_null old)) [
        | inl null ↦ (
          0,
          with_vertex_data s i row,
          add_present s vid i row old h k found at_i old_valid ∙ ground arith,
          overwritten i old found at_i null,
          with_vertex_data-IsValid s i row h k,
        )
        | inr full ↦ (
          edup,
          s,
          add_present s vid i row old h k found at_i old_valid ∙ ground arith,
          duplicate i old found at_i full,
          h,
        )
      ]
]

pub with_edge-IsValid :
    (s : Server) (source target : ℕ) (row : Row)
    → IsValid s
    → RowIsValid row
    → is_edge row ≡ true
    → Shard.num_edges s.shard < 2 ^ 32
    → IsValid (record s { shard = with_edge s.shard source target row })
with_edge-IsValid s source target row h k marked small = record {
  shard_valid = Invariant.with_edge-IsValid s.shard source target row h.shard_valid k small;
  distinct = h.distinct;
  edges_marked = AllEdges-snoc s.shard.edge_data row h.edges_marked marked;
}

-- `add_edge` appends an edge row and refuses a vertex row, which changes nothing. It keeps the
-- invariant while the shard has room for another 32-bit local edge id.
pub add_edge_lem :
    (s : Server) (source target : ℕ) (row : Row)
    → IsValid s
    → RowIsValid row
    → Shard.num_edges s.shard < 2 ^ 32
    → (err : ℕ) × (t : Server) × (add_edge s source target row ≡ ok (err, t))
      × IsValid t
      × (err ≡ (if is_edge row then 0 else einvtype))
      × (t ≡ (if is_edge row then record s { shard = with_edge s.shard source target row } else s))
unfolding add_edge
add_edge_lem s source target row h k small = elim (Bool-cases (is_edge row)) [
  | inl edge ↦ (
    0,
    record s { shard = with_edge s.shard source target row },
    ground (arith, Invariant.add_edge_lem s.shard source target row k small),
    with_edge-IsValid s source target row h k edge small,
    rw edge,
    rw edge,
  )
  | inr vertex ↦ (einvtype, s, rw vertex, h, rw vertex, rw vertex)
]
