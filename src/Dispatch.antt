-- ===== src/Dispatch.antt =====
-- src/graphlab/database/server/graphdb_server.cpp: a message is read, handed to the shard server, and
-- answered. A handler returns its result, the server as it leaves it, and the reply that it writes.
-- Logging is left out, and `padding` is what the stack holds in the calls of `make_eid`.
pub mod Safety
pub mod Messages
pub mod Requests
use graphlabapi_graphlab.Prelude.{ℕ, Bool, false, List, [], ◌∷◌, ◌==◌, if◌then◌else◌}
use graphlabapi_graphlab.Prelude.Run.{Run, ok, ◌>>=◌}
use graphlabapi_graphlab.Row.{empty_row}
use graphlabapi_graphlab.Shard
use graphlabapi_graphlab.Server
use graphlabapi_graphlab.Server.{Server}
use graphlabapi_graphlab.Server.Batch
use graphlabapi_graphlab.Message.{
  Cmd, Obj, Item, QueryMessage, read_id, read_flag, read_row, read_field, read_shard_ids, read_ids,
  read_id_rows, read_edge_inserts, read_mirror_inserts,
}

abbrev pub einvhead : ℕ
einvhead = 1004

abbrev pub Answer : Type 0 → Type 0
Answer A = Run (A × Server × List Item)

-- `oarc << errorcode; return errorcode;`
abbrev pub with_code : ℕ × Server → Answer ℕ
with_code (err, t) = ok (err, t, Item.code err ∷ [])

unfoldable pub process_add : Server → QueryMessage → Answer ℕ
unfolding read_id read_row read_shard_ids read_field Server.add_vertex Server.add_edge
    Server.add_vertex_mirror Server.add_vertex_field Server.add_edge_field
process_add s qm = elim qm.obj [
  | Obj.vertex ↦ do
    (vid, rest) ← read_id qm.args
    (data_row, _) ← read_row rest
    Server.add_vertex s vid data_row >>= with_code
  | Obj.edge ↦ do
    (source, rest) ← read_id qm.args
    (dest, rest2) ← read_id rest
    (data_row, _) ← read_row rest2
    Server.add_edge s source dest data_row >>= with_code
  | Obj.vmirror ↦ do
    (vid, rest) ← read_id qm.args
    (mirrors, _) ← read_shard_ids rest
    Server.add_vertex_mirror s vid mirrors >>= with_code
  | Obj.vfield ↦ do (field, _) ← read_field qm.args; Server.add_vertex_field s field >>= with_code
  | Obj.efield ↦ do (field, _) ← read_field qm.args; Server.add_edge_field s field >>= with_code
  | _ ↦ with_code (einvhead, s)
]

-- The code, and behind it the data if the code is 0.
abbrev pub code_and : ℕ → Item → List Item
code_and err item = Item.code err ∷ (if err == 0 then item ∷ [] else [])

unfoldable pub process_get : (ℕ → ℕ) → Server → QueryMessage → Answer ℕ
unfolding read_id read_flag Server.get_vertex Server.get_edge Server.get_vertex_adj
process_get padding s qm = elim qm.obj [
  | Obj.vertex ↦ do
    (vid, _) ← read_id qm.args
    (err, data_row) ← Server.get_vertex s vid empty_row
    ok (err, s, code_and err (Item.row data_row))
  | Obj.edge ↦ do
    (eid, _) ← read_id qm.args
    (err, data_row) ← Server.get_edge s eid empty_row
    ok (err, s, code_and err (Item.row data_row))
  | Obj.vertex_adj ↦ do
    (vid, rest) ← read_id qm.args
    (in_edges, _) ← read_flag rest
    (err, adj) ←
        Server.get_vertex_adj padding s vid in_edges (record { neighbor_ids = []; eids = [] })
    ok (err, s, code_and err (Item.adjacency adj))
  | Obj.vfield ↦ ok (0, s, Item.code 0 ∷ Item.fields s.vertex_fields ∷ [])
  | Obj.efield ↦ ok (0, s, Item.code 0 ∷ Item.fields s.edge_fields ∷ [])
  | Obj.nverts ↦ ok (0, s, Item.code 0 ∷ Item.id (Shard.num_vertices s.shard) ∷ [])
  | Obj.nedges ↦ ok (0, s, Item.code 0 ∷ Item.id (Shard.num_edges s.shard) ∷ [])
  | _ ↦ with_code (einvhead, s)
]

unfoldable pub process_set : Server → QueryMessage → Answer ℕ
unfolding read_id read_row Server.set_vertex Server.set_edge
process_set s qm = elim qm.obj [
  | Obj.vertex ↦ do
    (vid, rest) ← read_id qm.args
    (data_row, _) ← read_row rest
    Server.set_vertex s vid data_row >>= with_code
  | Obj.edge ↦ do
    (eid, rest) ← read_id qm.args
    (data_row, _) ← read_row rest
    Server.set_edge s eid data_row >>= with_code
  | _ ↦ with_code (einvhead, s)
]

-- `oarc << success; if (!success) oarc << errorcodes; return success;`
abbrev pub with_codes : Bool × List ℕ × Server → Answer Bool
with_codes (success, errorcodes, t) =
    ok (success, t, Item.flag success ∷ (if success then [] else Item.codes errorcodes ∷ []))

abbrev bad_header : Server → Answer Bool
bad_header s = ok (false, s, Item.flag false ∷ Item.code einvhead ∷ [])

unfoldable pub process_batch_add : Server → QueryMessage → Answer Bool
unfolding read_id_rows read_edge_inserts read_mirror_inserts Batch.add_vertices Batch.add_edges
    Batch.add_vertex_mirrors
process_batch_add s qm = elim qm.obj [
  | Obj.vertex ↦ do (ins, _) ← read_id_rows qm.args; Batch.add_vertices s ins [] >>= with_codes
  | Obj.edge ↦ do (ins, _) ← read_edge_inserts qm.args; Batch.add_edges s ins [] >>= with_codes
  | Obj.vmirror ↦ do
    (ins, _) ← read_mirror_inserts qm.args
    Batch.add_vertex_mirrors s ins [] >>= with_codes
  | _ ↦ bad_header s
]

-- `oarc << success << out;` and the codes behind.
abbrev pub with_rows : Server → Bool × List graphlabapi_graphlab.Row.Row × List ℕ → Answer Bool
with_rows s (success, out, errorcodes) = ok (
  success,
  s,
  Item.flag success ∷ Item.rows out ∷ (if success then [] else Item.codes errorcodes ∷ []),
)

unfoldable pub process_batch_get : Server → QueryMessage → Answer Bool
unfolding read_ids Batch.get_vertices Batch.get_edges
process_batch_get s qm = elim qm.obj [
  | Obj.vertex ↦ do (ins, _) ← read_ids qm.args; Batch.get_vertices s ins [] >>= with_rows s
  | Obj.edge ↦ do (ins, _) ← read_ids qm.args; Batch.get_edges s ins [] >>= with_rows s
  | _ ↦ bad_header s
]

unfoldable pub process_batch_set : Server → QueryMessage → Answer Bool
unfolding read_id_rows Batch.set_vertices Batch.set_edges
process_batch_set s qm = elim qm.obj [
  | Obj.vertex ↦ do (ins, _) ← read_id_rows qm.args; Batch.set_vertices s ins [] >>= with_codes
  | Obj.edge ↦ do (ins, _) ← read_id_rows qm.args; Batch.set_edges s ins [] >>= with_codes
  | _ ↦ bad_header s
]

-- A reset writes no reply.
unfoldable pub process_admin : Server → QueryMessage → Answer ℕ
unfolding Server.clear
process_admin s qm = elim qm.obj [
  | Obj.reset ↦ ok (0, Server.clear s, [])
  | _ ↦ ok (einvhead, s, Item.flag false ∷ Item.code einvhead ∷ [])
]

abbrev pub is_zero : ℕ × Server × List Item → Answer Bool
is_zero (err, t, reply) = ok (err == 0, t, reply)

unfoldable pub process : (ℕ → ℕ) → Server → QueryMessage → Answer Bool
unfolding process_add process_get process_set process_batch_add process_batch_get process_batch_set
    process_admin
process padding s qm = elim qm.cmd [
  | Cmd.get ↦ process_get padding s qm >>= is_zero
  | Cmd.set ↦ process_set s qm >>= is_zero
  | Cmd.add ↦ process_add s qm >>= is_zero
  | Cmd.badd ↦ process_batch_add s qm
  | Cmd.bget ↦ process_batch_get s qm
  | Cmd.bset ↦ process_batch_set s qm
  | Cmd.admin ↦ process_admin s qm >>= is_zero
]
