-- ===== src/Examples/Cluster.antt =====
-- One server behind a network that loses nothing, and what a client reads from it.
use graphlabapi_graphlab.Prelude.{
  ℕ, ◌≡◌, refl, ap, ◌∙◌, Bool, true, Option, none, some, List, [], ◌∷◌, ◌==◌, if◌then◌else◌, map,
}
use graphlabapi_graphlab.Prelude.Run.{Run, ok, ◌>>=◌}
use graphlabapi_graphlab.Server.{Server}
use graphlabapi_graphlab.Server.Adjacent.{adjacency_of}
use graphlabapi_graphlab.Server.Write.{row_of}
use graphlabapi_graphlab.Message.{Item, QueryMessage}
use graphlabapi_graphlab.Dispatch.{process}
use graphlabapi_graphlab.Placement.{Manager, vertex_master, get_neighbors}
use graphlabapi_graphlab.Client
use graphlabapi_graphlab.Client.Network.{Transport}
use graphlabapi_graphlab.Client.Reach.{
  get_vertex_answers, get_vertex-after_add, read_result, SameServers,
}
use graphlabapi_graphlab.Client.Span.{get_vertex_adj_gathers, gather}
use graphlabapi_graphlab.Examples.Placements.{sqrt, vidhash, edge_hash}
use graphlabapi_graphlab.Examples.Servers.{
  server, server-IsValid, with_alice, with_alice-IsValid, bob, bob-IsValid, bob_absent, link,
}

abbrev World : Type 0
World = ℕ → Option Server

abbrev padding : ℕ → ℕ
padding i = i

abbrev replace : World → ℕ → Server → World
replace w shard t k = if shard == k then some t else w k

abbrev deliver_to : World → ℕ → QueryMessage → Option Server → Run (World × Option (List Item))
deliver_to w shard qm none = ok (w, none)
deliver_to w shard qm (some s) = do
  (success, t, reply) ← process padding s qm
  ok (replace w shard t, some reply)

abbrev deliver : World → ℕ → QueryMessage → Run (World × Option (List Item))
deliver w shard qm = deliver_to w shard qm (w shard)

deliver_lem :
    (w : World) (shard : ℕ) (s t : Server) (qm : QueryMessage) (success : Bool) (reply : List Item)
    → w shard ≡ some s
    → process padding s qm ≡ ok (success, t, reply)
    → (v : World) × (deliver w shard qm ≡ ok (v, some reply))
      × ((k : ℕ) → v k ≡ (if shard == k then some t else w k))
deliver_lem w shard s t qm success reply up done =
    (replace w shard t, ap (deliver_to w shard qm) up ∙ rw done, λ k. refl)

abbrev network : Transport World padding
network = record {
  server_at = λ w k. w k;
  query = deliver;
  update = deliver;
  query_lem = deliver_lem;
  update_lem = deliver_lem;
}

-- The manager of one shard.
abbrev manager : Manager
manager = record {
  nshards = 1;
  constraint_graph = (0 ∷ []) ∷ [];
  joint_map = λ key. if key.1 == 0 then some (0 ∷ []) else none;
}

abbrev world : World
world k = if k == 0 then some server else none

abbrev small_world : World
small_world k = if k == 0 then some with_alice else none

get_vertex_answers_example :
    (v : World) × (Client.get_vertex padding network sqrt vidhash edge_hash manager world 9 link
      ≡ read_result link (row_of server 9) v)
    × SameServers padding network world v
unfolding vertex_master
get_vertex_answers_example =
    get_vertex_answers padding network sqrt vidhash edge_hash manager world 9 0 server link refl
      refl server-IsValid

get_vertex-after_add_example :
    (v u : World) × (Client.add_vertex padding network sqrt vidhash edge_hash manager small_world 9
        bob
      ≡ ok (0, v))
    × (Client.get_vertex padding network sqrt vidhash edge_hash manager v 9 link
        ≡ read_result link (some bob) u)
unfolding vertex_master
get_vertex-after_add_example =
    get_vertex-after_add padding network sqrt vidhash edge_hash manager small_world 9 9 0 0
      with_alice with_alice bob link refl refl with_alice-IsValid refl refl with_alice-IsValid
      bob-IsValid refl bob_absent

get_vertex_adj_gathers_example :
    (v : World) × (Client.get_vertex_adj padding network sqrt vidhash edge_hash manager world 7 true
        (record { neighbor_ids = []; eids = [] })
      ≡ ok (
        0,
        gather Client.add_adjacency
            (record { neighbor_ids = []; eids = [] })
            (map {A = ℕ} (λ k. adjacency_of padding 7 true server) (0 ∷ [])),
        v,
      ))
unfolding vertex_master get_neighbors
get_vertex_adj_gathers_example =
    get_vertex_adj_gathers padding network sqrt vidhash edge_hash manager world 7 0 true (0 ∷ [])
      (λ k. server) (record { neighbor_ids = []; eids = [] }) refl refl (refl, tt)
      (λ k. server-IsValid)
