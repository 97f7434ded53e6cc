-- ===== src/Server.antt =====
-- src/graphlab/database/server/graph_shard_server.hpp and .cpp, graph_database.hpp, errno.hpp: the
-- server of one shard. A method returns its error code and the server as it leaves it; `out`
-- parameters are passed in and returned. Logging is left out.
pub mod Batch
pub mod Together
pub mod History
pub mod Invariant
pub mod Add
pub mod Read
pub mod Adjacent
pub mod Write
pub mod WriteEdge
pub mod Mirrors
pub mod Schema
use Prim.Native.String.{String}
use text.Mathlib.Text.{◌==◌ as str_eq}
use graphlabapi_graphlab.Prelude.{
  ℕ, zero, suc, ◌+◌, ◌≡◌, Bool, true, false, not, ◌||◌, Option, none, some, List, [], ◌∷◌, ◌++◌,
  length, get_elem?, set, leb, ◌==◌, if◌then◌else◌,
}
use graphlabapi_graphlab.Prelude.Run.{Run, ok, fault, bad_cast, ◌>>=◌, ◌>>◌, or_fault, assert}
use graphlabapi_graphlab.Eid.{make_eid, split_eid}
use graphlabapi_graphlab.Value.{Value, same_type, assign}
use graphlabapi_graphlab.Row.{
  Field, Row, empty_row, assign_row, add_field, num_fields, row_is_null, all_null, is_edge,
}
use graphlabapi_graphlab.Shard
use graphlabapi_graphlab.Shard.{Shard}

abbrev pub einvid : ℕ
einvid = 1001

abbrev pub einvtype : ℕ
einvtype = 1002

abbrev pub edup : ℕ
edup = 1003

pub record Server : Type 0 where
  pub shard : Shard
  pub vertex_fields : List Field
  pub edge_fields : List Field

unfoldable pub new : ℕ → List Field → List Field → Server
unfolding Shard.new
new shardid vertex_fields edge_fields = record {
  shard = Shard.new shardid;
  vertex_fields = vertex_fields;
  edge_fields = edge_fields;
}

unfoldable pub clear : Server → Server
unfolding Shard.clear
clear s = record { shard = Shard.clear s.shard; vertex_fields = []; edge_fields = [] }

-- `out = *row`
abbrev read_row : Row → Option Row → Run (ℕ × Row)
read_row out row = do r ← or_fault row; assigned ← assign_row out r; ok (0, assigned)

unfoldable pub get_vertex : Server → ℕ → Row → Run (ℕ × Row)
unfolding Shard.vertex_data_by_id
get_vertex s vid out =
    let found : Run (ℕ × Row) = do
      pos ← Shard.vertex_data_by_id s.shard vid
      i ← or_fault pos
      read_row out (get_elem? s.shard.vertex_data i)
    in if Shard.has_vertex s.shard vid then found else ok (einvid, out)

unfoldable pub get_edge : Server → ℕ → Row → Run (ℕ × Row)
unfolding split_eid
get_edge s eid out =
    let (shard_id, leid) = split_eid eid in
    if not (shard_id == s.shard.shard_id) || leb (Shard.num_edges s.shard) leid
    then ok (einvid, out)
    else read_row out (get_elem? s.shard.edge_data leid)

pub record Adjacency : Type 0 where
  pub neighbor_ids : List ℕ
  pub eids : List ℕ

-- The global ids of the edges. `padding i` is what the stack holds in the i-th call of `make_eid`.
unfoldable pub global_eids : (ℕ → ℕ) → ℕ → List ℕ → ℕ → List ℕ
global_eids padding shard_id [] i = []
global_eids padding shard_id (id ∷ ids) i =
    make_eid (padding i) shard_id id ∷ global_eids padding shard_id ids (i + 1)

unfoldable pub get_vertex_adj : (ℕ → ℕ) → Server → ℕ → Bool → Adjacency → Run (ℕ × Adjacency)
unfolding Shard.neighbors global_eids
get_vertex_adj padding s vid is_in_edges out = do
  let internal_ids = Shard.vertex_adj_ids s.shard vid is_in_edges
  ids ← Shard.neighbors s.shard is_in_edges internal_ids
  ok (
    0,
    record {
      neighbor_ids = out.neighbor_ids ++ ids;
      eids = out.eids ++ global_eids padding s.shard.shard_id internal_ids 0;
    },
  )

-- The two loops of `set_data_helper`.
unfoldable pub types_agree : List Value → List Value → Bool
types_agree (v ∷ old) (w ∷ new_cells) =
    let rest = types_agree old new_cells in if same_type v.type w.type then rest else false
types_agree [] new_cells = true
types_agree (v ∷ old) [] = true

unfoldable pub assign_cells : List Value → List Value → Run (List Value)
assign_cells (v ∷ old) (w ∷ new_cells) = do
  x ← assign v w
  rest ← assign_cells old new_cells
  ok (x ∷ rest)
assign_cells [] new_cells = ok []
assign_cells (v ∷ old) [] = ok (v ∷ old)

-- `set_data_helper` on a row that is there; a null pointer is the callers' case.
unfoldable pub set_data_helper : Row → Row → Run (ℕ × Row)
unfolding types_agree assign_cells
set_data_helper old_data data_row =
    let assigned : Run (ℕ × Row) = do
      cells ← assign_cells old_data.cells data_row.cells
      ok (0, record old_data { cells = cells })
    in if not (num_fields old_data == num_fields data_row)
      then ok (einvid, old_data)
      else if types_agree old_data.cells data_row.cells
      then assigned
      else ok (einvtype, old_data)

abbrev pub with_vertex_data : Server → ℕ → Row → Server
with_vertex_data s i row = record s {
  shard = record (s.shard) { vertex_data = set s.shard.vertex_data i row };
}

abbrev pub with_edge_data : Server → ℕ → Row → Server
with_edge_data s i row = record s {
  shard = record (s.shard) { edge_data = set s.shard.edge_data i row };
}

unfoldable pub set_vertex : Server → ℕ → Row → Run (ℕ × Server)
unfolding Shard.vertex_data_by_id set_data_helper
set_vertex s vid data_row = do
  pos ← Shard.vertex_data_by_id s.shard vid
  elim pos [
    | none ↦ ok (einvid, s)
    | some i ↦ do
      old ← or_fault (get_elem? s.shard.vertex_data i)
      (err, row) ← set_data_helper old data_row
      ok (err, with_vertex_data s i row)
  ]

-- The local id is not compared with the number of edges: the row behind the last one is no row.
unfoldable pub set_edge : Server → ℕ → Row → Run (ℕ × Server)
unfolding split_eid set_data_helper
set_edge s eid data_row =
    let (shard_id, leid) = split_eid eid in
    let written : Run (ℕ × Server) = do
      old ← or_fault (get_elem? s.shard.edge_data leid)
      (err, row) ← set_data_helper old data_row
      ok (err, with_edge_data s leid row)
    in if not (shard_id == s.shard.shard_id) then ok (einvid, s) else written

-- `find_vertex_field` and `find_edge_field`, with `none` for -1.
unfoldable pub find_field : List Field → String → ℕ → Option ℕ
find_field [] name i = none
find_field (f ∷ fields) name i =
    if str_eq f.name name then some i else find_field fields name (i + 1)

-- `transform_vertices` and `transform_edges` with `add_field_helper`.
unfoldable pub add_field_all : List Row → Field → Run (List Row)
add_field_all [] field = ok []
add_field_all (r ∷ rows) field = do
  x ← add_field r field
  rest ← add_field_all rows field
  ok (x ∷ rest)

unfoldable pub add_vertex_field : Server → Field → Run (ℕ × Server)
unfolding find_field add_field_all
add_vertex_field s field = elim (find_field s.vertex_fields field.name 0) [
  | some i ↦ ok (edup, s)
  | none ↦ do
    rows ← add_field_all s.shard.vertex_data field
    ok (
      0,
      record s {
        shard = record (s.shard) { vertex_data = rows };
        vertex_fields = s.vertex_fields ++ field ∷ [];
      },
    )
]

unfoldable pub add_edge_field : Server → Field → Run (ℕ × Server)
unfolding find_field add_field_all
add_edge_field s field = elim (find_field s.edge_fields field.name 0) [
  | some i ↦ ok (edup, s)
  | none ↦ do
    rows ← add_field_all s.shard.edge_data field
    ok (
      0,
      record s {
        shard = record (s.shard) { edge_data = rows };
        edge_fields = s.edge_fields ++ field ∷ [];
      },
    )
]

unfoldable pub add_vertex : Server → ℕ → Row → Run (ℕ × Server)
unfolding Shard.vertex_data_by_id Shard.add_vertex all_null
add_vertex s vid data_row =
    let present : Run (ℕ × Server) = do
      pos ← Shard.vertex_data_by_id s.shard vid
      i ← or_fault pos
      row ← or_fault (get_elem? s.shard.vertex_data i)
      let overwritten : Run (ℕ × Server) = do
        assigned ← assign_row row data_row
        ok (0, with_vertex_data s i assigned)
      if row_is_null row then overwritten else ok (edup, s)
    in let inserted : Run (ℕ × Server) = do
      (pos, shard) ← Shard.add_vertex s.shard vid data_row
      ok (0, record s { shard = shard })
      in let absent = if data_row.is_vertex then inserted else ok (einvtype, s) in
        if Shard.has_vertex s.shard vid then present else absent

unfoldable pub add_edge : Server → ℕ → ℕ → Row → Run (ℕ × Server)
unfolding Shard.add_edge
add_edge s source target data_row =
    let inserted : Run (ℕ × Server) = do
      (pos, shard) ← Shard.add_edge s.shard source target data_row
      ok (0, record s { shard = shard })
    in if is_edge data_row then inserted else ok (einvtype, s)

-- The loop of `add_vertex_mirror`.
unfoldable pub add_mirrors : Shard → ℕ → List ℕ → Run Shard
unfolding Shard.add_vertex_mirror
add_mirrors shard vid [] = ok shard
add_mirrors shard vid (m ∷ mirrors) = do
  next ← Shard.add_vertex_mirror shard vid m
  add_mirrors next vid mirrors

unfoldable pub add_vertex_mirror : Server → ℕ → List ℕ → Run (ℕ × Server)
unfolding Shard.add_vertex add_mirrors
add_vertex_mirror s vid mirrors =
    let created : Run Shard = do (pos, shard) ← Shard.add_vertex s.shard vid empty_row; ok shard
    in do
      shard ← if Shard.has_vertex s.shard vid then ok s.shard else created
      mirrored ← add_mirrors shard vid mirrors
      ok (0, record s { shard = mirrored })
