-- ===== src/Client/Span.antt =====
-- Requests that the client sends to several shards, whose replies it adds up.
use graphlabapi_graphlab.Prelude.{
  ℕ, ◌+◌, ◌%◌, ◌^◌, ◌≡◌, refl, ◌∙◌, Bool, true, false, ◌&&◌, some, List, [], ◌∷◌, map,
}
use graphlabapi_graphlab.Prelude.Run.{ok}
use graphlabapi_graphlab.Shard
use graphlabapi_graphlab.Server.{Server, Adjacency}
use graphlabapi_graphlab.Server.Invariant.{IsValid}
use graphlabapi_graphlab.Server.Adjacent.{get_vertex_adj_lem, adjacency_of}
use graphlabapi_graphlab.Message.{Cmd, Obj, Item, QueryMessage, Reader, read_adjacency, read_id}
use graphlabapi_graphlab.Dispatch.{process}
use graphlabapi_graphlab.Placement.{Manager, vertex_master, get_neighbors}
use graphlabapi_graphlab.Client
use graphlabapi_graphlab.Client.Network.{Transport}
use graphlabapi_graphlab.Client.Reach.{unchanged}

-- What the client adds up, from the left.
abbrev pub gather : {T : Type 0} → (T → T → T) → T → List T → T
gather add acc [] = acc
gather add acc (x ∷ xs) = gather add (add acc x) xs

and_true : (b : Bool) → (b && true) ≡ b
and_true true = refl
and_true false = refl

parse_and_aggregate_lem :
    {T : Type 0} (reader : Reader T) (default : T) (add : T → T → T) (reply : ℕ → List Item)
    (value : ℕ → T)
    → ((k : ℕ) → Client.parse_reply_into reader (some (reply k)) default ≡ ok (0, value k))
    → (shards : List ℕ) (acc : T) (success : Bool)
    → Client.parse_and_aggregate reader default add
        (map (λ k. some (reply k)) shards)
        acc
        []
        success
      ≡ ok (success, gather add acc (map value shards), [])
unfolding Client.parse_and_aggregate
parse_and_aggregate_lem reader default add reply value h [] acc success = refl
parse_and_aggregate_lem reader default add reply value h (k ∷ shards) acc success = rw (
  h k,
  and_true success,
  parse_and_aggregate_lem reader default add reply value h shards (add acc (value k)) success,
)

module _ {W : Type 0} (padding : ℕ → ℕ) (net : Transport W padding) where
  -- The servers of the shards are up.
  abbrev pub AllUp : W → (ℕ → Server) → List ℕ → Type 0
  AllUp w at [] = Unit
  AllUp w at (k ∷ shards) = (net.server_at w k ≡ some (at k)) × AllUp w at shards

  AllUp-same :
      (w v : W) (at : ℕ → Server) (shards : List ℕ)
      → ((k : ℕ) → net.server_at v k ≡ net.server_at w k)
      → AllUp w at shards
      → AllUp v at shards
  AllUp-same w v at [] same h = tt
  AllUp-same w v at (k ∷ shards) same h = (same k ∙ h.0, AllUp-same w v at shards same h.1)

  module _ (qm : QueryMessage) (at : ℕ → Server) (reply : ℕ → List Item) (success : ℕ → Bool)
      (handled : (k : ℕ) → process padding (at k) qm ≡ ok (success k, at k, reply k)) where
    query_multi_lem :
        (w : W) (shards : List ℕ)
        → AllUp w at shards
        → (v : W) × (Client.query_multi padding net w shards qm
            ≡ ok (v, map (λ k. some (reply k)) shards))
    unfolding Client.query_multi
    query_multi_lem w [] h = (w, refl)
    query_multi_lem w (k ∷ shards) h =
        let (v, replied, after) =
          net.query_lem w k (at k) (at k) qm (success k) (reply k) h.0 (handled k) in
        let same = unchanged padding net w v k (at k) h.0 after in
        let (u, rest) = query_multi_lem v shards (AllUp-same w v at shards same h.1) in
        (u, rw (replied, rest))

abbrev adj_message : ℕ → Bool → QueryMessage
adj_message vid in_edges = record {
  cmd = Cmd.get;
  obj = Obj.vertex_adj;
  args = Item.id vid ∷ Item.flag in_edges ∷ [];
}

process_get_vertex_adj :
    (padding : ℕ → ℕ) (vid : ℕ) (in_edges : Bool) (s : Server)
    → IsValid s
    → process padding s (adj_message vid in_edges)
      ≡ ok (true, s, Item.code 0 ∷ Item.adjacency (adjacency_of padding vid in_edges s) ∷ [])
unfolding process
process_get_vertex_adj padding vid in_edges s h =
    rw (get_vertex_adj_lem padding s vid in_edges (record { neighbor_ids = []; eids = [] }) h)

module _ {W : Type 0} (padding : ℕ → ℕ) (net : Transport W padding) (sqrt : ℕ → ℕ) (vidhash : ℕ → ℕ)
    (edge_hash : ℕ × ℕ → ℕ) (m : Manager) where
  -- If the servers of all neighbors of a vertex's master are up and valid, the client's
  -- `get_vertex_adj` returns 0 and appends to `out` the edges of the vertex on each of them in turn.
  pub get_vertex_adj_gathers :
      (w : W) (vid i : ℕ) (in_edges : Bool) (spans : List ℕ) (at : ℕ → Server) (out : Adjacency)
      → vertex_master sqrt vidhash edge_hash m vid ≡ ok i
      → get_neighbors m i ≡ ok spans
      → AllUp padding net w at spans
      → ((k : ℕ) → IsValid (at k))
      → (v : W) × (Client.get_vertex_adj padding net sqrt vidhash edge_hash m w vid in_edges out
          ≡ ok (
            0,
            gather Client.add_adjacency out
                (map (λ k. adjacency_of padding vid in_edges (at k)) spans),
            v,
          ))
  unfolding Client.get_vertex_adj Client.parse_reply_into
  get_vertex_adj_gathers w vid i in_edges spans at out at_i near up valid =
      let value = λ (k : ℕ). adjacency_of padding vid in_edges (at k) in
      let reply = λ (k : ℕ). Item.code 0 ∷ Item.adjacency (value k) ∷ [] in
      let (v, sent) =
        query_multi_lem padding net (adj_message vid in_edges) at reply (λ _. true)
          (λ k. process_get_vertex_adj padding vid in_edges (at k) (valid k)) w spans up in
      let added =
        parse_and_aggregate_lem read_adjacency (record { neighbor_ids = []; eids = [] })
          Client.add_adjacency reply value (λ k. refl) spans out true in
      (v, rw (at_i, near, sent, added))

  -- If the servers of all shards are up, the client's `num_vertices` returns the sum of their
  -- numbers of vertices modulo 2^64.
  pub num_vertices_sum :
      (w : W) (at : ℕ → Server)
      → AllUp padding net w at (Client.shards_below m.nshards)
      → (v : W) × (Client.num_vertices padding net sqrt vidhash edge_hash m w
          ≡ ok (
            gather
                (λ x y. (x + y) % 2 ^ 64)
                0
                (map (λ k. Shard.num_vertices (at k).shard) (Client.shards_below m.nshards)),
            v,
          ))
  unfolding Client.num_vertices Client.count process Client.parse_reply_into
  num_vertices_sum w at up =
      let shards = Client.shards_below m.nshards in
      let value = λ (k : ℕ). Shard.num_vertices (at k).shard in
      let reply = λ (k : ℕ). Item.code 0 ∷ Item.id (value k) ∷ [] in
      let (v, sent) =
        query_multi_lem padding net (record { cmd = Cmd.get; obj = Obj.nverts; args = [] }) at reply
          (λ _. true) (λ k. refl) w shards up in
      let added =
        parse_and_aggregate_lem read_id 0 (λ x y. (x + y) % 2 ^ 64) reply value (λ k. refl) shards 0
          true in
      (v, rw (sent, added))
