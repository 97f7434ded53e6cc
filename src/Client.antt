-- ===== src/Client.antt =====
-- src/graphlab/database/client/graphdb_client.cpp and graphdb_query_object.hpp, .cpp: requests to the
-- servers of the shards, one value at a time. The network, libfault, is the interface Transport.
pub mod Network
pub mod Reach
pub mod Span
use graphlabapi_graphlab.Prelude.{
  ℕ, zero, suc, ◌+◌, ◌%◌, ◌^◌, Bool, true, false, ◌&&◌, Option, none, some, List, [], ◌∷◌, ◌++◌,
  get_elem?, replicate, ◌==◌, if◌then◌else◌,
}
use graphlabapi_graphlab.Prelude.Run.{Run, ok, ◌>>=◌, ◌>>◌, or_fault, assert}
use graphlabapi_graphlab.Eid.{split_eid}
use graphlabapi_graphlab.Row.{Row, Field}
use graphlabapi_graphlab.Server.{Adjacency, einvid}
use graphlabapi_graphlab.Message.{
  Cmd, Obj, Item, QueryMessage, Reader, read_code, read_row, read_adjacency, read_fields, read_id,
}
use graphlabapi_graphlab.Placement.{Manager, vertex_master, edge_master, get_neighbors}
use Network.{Transport}

abbrev pub esrvunreach : ℕ
esrvunreach = 1000

-- What comes back of a request: the reply, or `none` if the status is not 0.
abbrev pub Future : Type 0
Future = Option (List Item)

-- `parse_reply` of a reply without content.
unfoldable pub parse_reply : Future → Run ℕ
unfolding read_code
parse_reply none = ok esrvunreach
parse_reply (some reply) = do (err, rest) ← read_code reply; ok err

-- `parse_reply` of a reply with content, read into `out`.
unfoldable pub parse_reply_into : {T : Type 0} → Reader T → Future → T → Run (ℕ × T)
unfolding read_code
parse_reply_into reader none out = ok (esrvunreach, out)
parse_reply_into reader (some reply) out = do
  (err, rest) ← read_code reply
  if err == 0 then (reader rest >>= λ read. ok (0, read.0)) else ok (err, out)

-- `parse_and_aggregate`, where `default` is a new T and `add` its +=.
unfoldable pub parse_and_aggregate :
    {T : Type 0}
    → Reader T
    → T
    → (T → T → T)
    → List Future
    → T
    → List ℕ
    → Bool
    → Run (Bool × T × List ℕ)
unfolding parse_reply_into
parse_and_aggregate reader default add [] acc errorcodes success = ok (success, acc, errorcodes)
parse_and_aggregate reader default add (none ∷ futures) acc errorcodes success =
    parse_and_aggregate reader default add futures acc (errorcodes ++ esrvunreach ∷ []) false
parse_and_aggregate reader default add (some reply ∷ futures) acc errorcodes success = do
  (err, next) ← parse_reply_into reader (some reply) default
  parse_and_aggregate reader default add futures (if err == 0 then add acc next else acc)
      (if err == 0 then errorcodes else errorcodes ++ err ∷ []) (success && err == 0)

-- The first code of `get_vertex_adj` that is neither 0 nor EINVID, or else 0.
unfoldable pub unexpected : List ℕ → ℕ
unexpected [] = 0
unexpected (err ∷ errorcodes) =
    let rest = unexpected errorcodes in
    if err == 0 then rest else if err == einvid then rest else err

-- The first code other than 0, of the replies to `update_all`.
unfoldable pub first_error : List Future → Run ℕ
unfolding parse_reply
first_error [] = ok 0
first_error (future ∷ futures) =
    let rest = first_error futures in
    parse_reply future >>= λ error. if error == 0 then rest else ok error

-- += of vertex_adj_descriptor.
abbrev pub add_adjacency : Adjacency → Adjacency → Adjacency
add_adjacency a b = record {
  neighbor_ids = a.neighbor_ids ++ b.neighbor_ids;
  eids = a.eids ++ b.eids;
}

-- Shards 0 to `n - 1`, which is the `shard_list`.
abbrev pub shards_below : ℕ → List ℕ
shards_below zero = []
shards_below (suc n) = shards_below n ++ n ∷ []

module _ {W : Type 0} (padding : ℕ → ℕ) (net : Transport W padding) where
  unfoldable pub query_multi : W → List ℕ → QueryMessage → Run (W × List Future)
  query_multi w [] qm = ok (w, [])
  query_multi w (shard ∷ shards) qm = do
    (v, result) ← net.query w shard qm
    (u, futures) ← query_multi v shards qm
    ok (u, result ∷ futures)

  unfoldable pub update_multi : W → List ℕ → QueryMessage → Run (W × List Future)
  update_multi w [] qm = ok (w, [])
  update_multi w (shard ∷ shards) qm = do
    (v, result) ← net.update w shard qm
    (u, futures) ← update_multi v shards qm
    ok (u, result ∷ futures)

  module _ (sqrt : ℕ → ℕ) (vidhash : ℕ → ℕ) (edge_hash : ℕ × ℕ → ℕ) (m : Manager) where
    abbrev master : ℕ → Run ℕ
    master vid = vertex_master sqrt vidhash edge_hash m vid

    unfoldable pub add_vertex : W → ℕ → Row → Run (ℕ × W)
    unfolding parse_reply
    add_vertex w vid data_row = do
      shard ← master vid
      (v, future) ←
          net.query w shard (record {
            cmd = Cmd.add;
            obj = Obj.vertex;
            args = Item.id vid ∷ Item.row data_row ∷ [];
          })
      err ← parse_reply future
      ok (err, v)

    unfoldable pub add_vertex_mirror : W → ℕ → List ℕ → Run (ℕ × W)
    unfolding parse_reply
    add_vertex_mirror w vid mirrors = do
      shard ← master vid
      (v, future) ← net.update w shard (record {
        cmd = Cmd.add;
        obj = Obj.vmirror;
        args = Item.id vid ∷ Item.shard_ids mirrors ∷ [];
      })
      err ← parse_reply future
      ok (err, v)

    -- The mirrors are as many zeros as the id of the shard says, and the second call is given the
    -- shard's id for the vertex.
    unfoldable pub add_edge : W → ℕ → ℕ → Row → Run (ℕ × W)
    unfolding parse_reply add_vertex_mirror
    add_edge w source dest data_row = do
      target ← edge_master sqrt vidhash edge_hash m source dest
      (w1, future) ← net.update w target (record {
        cmd = Cmd.add;
        obj = Obj.edge;
        args = Item.id source ∷ Item.id dest ∷ Item.row data_row ∷ [];
      })
      (_, w2) ← add_vertex_mirror w1 source (replicate target 0)
      (_, w3) ← add_vertex_mirror w2 target (replicate target 0)
      err ← parse_reply future
      ok (err, w3)

    unfoldable pub get_edge : W → ℕ → Row → Run (ℕ × Row × W)
    unfolding parse_reply_into read_row split_eid
    get_edge w eid out = do
      (v, future) ←
          net.query w (split_eid eid).0
            (record { cmd = Cmd.get; obj = Obj.edge; args = Item.id eid ∷ [] })
      (err, row) ← parse_reply_into read_row future out
      ok (err, row, v)

    unfoldable pub get_vertex : W → ℕ → Row → Run (ℕ × Row × W)
    unfolding parse_reply_into read_row
    get_vertex w vid out = do
      shard ← master vid
      (v, future) ←
          net.query w shard (record { cmd = Cmd.get; obj = Obj.vertex; args = Item.id vid ∷ [] })
      (err, row) ← parse_reply_into read_row future out
      ok (err, row, v)

    unfoldable pub get_vertex_adj : W → ℕ → Bool → Adjacency → Run (ℕ × Adjacency × W)
    unfolding get_neighbors query_multi parse_and_aggregate read_adjacency unexpected
    get_vertex_adj w vid in_edges out = do
      shard ← master vid
      spans ← get_neighbors m shard
      (v, futures) ← query_multi w spans (record {
        cmd = Cmd.get;
        obj = Obj.vertex_adj;
        args = Item.id vid ∷ Item.flag in_edges ∷ [];
      })
      (_, adj, errorcodes) ←
          parse_and_aggregate read_adjacency (record { neighbor_ids = []; eids = [] }) add_adjacency
            futures out [] true
      ok (unexpected errorcodes, adj, v)

    unfoldable pub set_edge : W → ℕ → Row → Run (ℕ × W)
    unfolding parse_reply split_eid
    set_edge w eid data_row = do
      (v, future) ←
          net.update w (split_eid eid).0
            (record { cmd = Cmd.set; obj = Obj.edge; args = Item.id eid ∷ Item.row data_row ∷ [] })
      err ← parse_reply future
      ok (err, v)

    unfoldable pub set_vertex : W → ℕ → Row → Run (ℕ × W)
    unfolding parse_reply
    set_vertex w vid data_row = do
      shard ← master vid
      (v, future) ←
          net.update w shard (record {
            cmd = Cmd.set;
            obj = Obj.vertex;
            args = Item.id vid ∷ Item.row data_row ∷ [];
          })
      err ← parse_reply future
      ok (err, v)

    -- The count of `obj` over all shards, which must all answer.
    unfoldable pub count : W → Obj → Run (ℕ × W)
    unfolding query_multi parse_and_aggregate read_id
    count w obj = do
      (v, futures) ←
          query_multi w (shards_below m.nshards) (record { cmd = Cmd.get; obj = obj; args = [] })
      (success, acc, errorcodes) ←
          parse_and_aggregate read_id 0 (λ x y. (x + y) % 2 ^ 64) futures 0 [] true
      assert success
      ok (acc, v)

    unfoldable pub num_vertices : W → Run (ℕ × W)
    unfolding count
    num_vertices w = count w Obj.nverts

    unfoldable pub num_edges : W → Run (ℕ × W)
    unfolding count
    num_edges w = count w Obj.nedges

    unfoldable pub add_edge_field : W → Field → Run (ℕ × W)
    unfolding update_multi first_error
    add_edge_field w field = do
      (v, futures) ←
          update_multi w (shards_below m.nshards)
            (record { cmd = Cmd.add; obj = Obj.efield; args = Item.field field ∷ [] })
      err ← first_error futures
      ok (err, v)

    unfoldable pub add_vertex_field : W → Field → Run (ℕ × W)
    unfolding update_multi first_error
    add_vertex_field w field = do
      (v, futures) ←
          update_multi w (shards_below m.nshards)
            (record { cmd = Cmd.add; obj = Obj.vfield; args = Item.field field ∷ [] })
      err ← first_error futures
      ok (err, v)

    -- `query_any` asks the shard `any` that the random number generator gives.
    unfoldable pub get_edge_fields : ℕ → W → Run (List Field × W)
    unfolding parse_reply_into read_fields
    get_edge_fields any w = do
      (v, future) ← net.query w any (record { cmd = Cmd.get; obj = Obj.efield; args = [] })
      (err, ret) ← parse_reply_into read_fields future []
      assert (err == 0)
      ok (ret, v)

    unfoldable pub get_vertex_fields : ℕ → W → Run (List Field × W)
    unfolding parse_reply_into read_fields
    get_vertex_fields any w = do
      (v, future) ← net.query w any (record { cmd = Cmd.get; obj = Obj.vfield; args = [] })
      (err, ret) ← parse_reply_into read_fields future []
      assert (err == 0)
      ok (ret, v)
