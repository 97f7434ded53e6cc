-- ===== src/Dispatch/Requests.antt =====
-- The requests to a shard server but for those that write edge data, as `set_edge` can fail, and the
-- batches of edges and of mirrors.
use graphlabapi_graphlab.Prelude.{ℕ, ◌≡◌, Bool, List, [], ◌∷◌, if◌then◌else◌}
use graphlabapi_graphlab.Prelude.Run.{ok}
use graphlabapi_graphlab.Row.{Row, Field}
use graphlabapi_graphlab.Shard
use graphlabapi_graphlab.Server
use graphlabapi_graphlab.Server.{Server, global_eids}
use graphlabapi_graphlab.Server.Batch
use graphlabapi_graphlab.Message.{Cmd, Obj, Item, QueryMessage}
use graphlabapi_graphlab.Dispatch.{process}

pub data Request : Type 0 where
  ask_vertex ask_edge : ℕ → Request
  ask_vertex_adj : ℕ → Bool → Request
  ask_vertices ask_edges : List ℕ → Request
  ask_vfields ask_efields ask_nverts ask_nedges : Request
  new_vertex : ℕ → Row → Request
  new_edge : ℕ → ℕ → Row → Request
  new_mirrors : ℕ → List ℕ → Request
  new_vfield new_efield : Field → Request
  new_vertices : List (ℕ × Row) → Request
  write_vertex : ℕ → Row → Request
  write_vertices : List (ℕ × Row) → Request
  wipe : Request

abbrev message : Cmd → Obj → List Item → QueryMessage
message cmd obj args = record { cmd = cmd; obj = obj; args = args }

-- The message that the client writes.
abbrev pub message_of : Request → QueryMessage
message_of (ask_vertex vid) = message Cmd.get Obj.vertex (Item.id vid ∷ [])
message_of (ask_edge eid) = message Cmd.get Obj.edge (Item.id eid ∷ [])
message_of (ask_vertex_adj vid in_edges) =
    message Cmd.get Obj.vertex_adj (Item.id vid ∷ Item.flag in_edges ∷ [])
message_of (ask_vertices vids) = message Cmd.bget Obj.vertex (Item.ids vids ∷ [])
message_of (ask_edges eids) = message Cmd.bget Obj.edge (Item.ids eids ∷ [])
message_of ask_vfields = message Cmd.get Obj.vfield []
message_of ask_efields = message Cmd.get Obj.efield []
message_of ask_nverts = message Cmd.get Obj.nverts []
message_of ask_nedges = message Cmd.get Obj.nedges []
message_of (new_vertex vid row) = message Cmd.add Obj.vertex (Item.id vid ∷ Item.row row ∷ [])
message_of (new_edge source dest row) =
    message Cmd.add Obj.edge (Item.id source ∷ Item.id dest ∷ Item.row row ∷ [])
message_of (new_mirrors vid mirrors) =
    message Cmd.add Obj.vmirror (Item.id vid ∷ Item.shard_ids mirrors ∷ [])
message_of (new_vfield field) = message Cmd.add Obj.vfield (Item.field field ∷ [])
message_of (new_efield field) = message Cmd.add Obj.efield (Item.field field ∷ [])
message_of (new_vertices pairs) = message Cmd.badd Obj.vertex (Item.id_rows pairs ∷ [])
message_of (write_vertex vid row) = message Cmd.set Obj.vertex (Item.id vid ∷ Item.row row ∷ [])
message_of (write_vertices pairs) = message Cmd.bset Obj.vertex (Item.id_rows pairs ∷ [])
message_of wipe = message Cmd.admin Obj.reset []

abbrev codes_reply : Bool → List ℕ → List Item
codes_reply all codes = Item.flag all ∷ (if all then [] else Item.codes codes ∷ [])

abbrev rows_reply : Bool → List Row → List ℕ → List Item
rows_reply all rows codes =
    Item.flag all ∷ Item.rows rows ∷ (if all then [] else Item.codes codes ∷ [])

abbrev Answered : (ℕ → ℕ) → Server → QueryMessage → Type 0
Answered padding s qm =
    (success : Bool) × (t : Server) × (reply : List Item) × (process padding s qm
      ≡ ok (success, t, reply))
