-- ===== src/Examples/Requests.antt =====
-- What the reads and the batches do on the example server.
use graphlabapi_graphlab.Prelude.{ℕ, ◌≡◌, refl, true, some, [], ◌∷◌, get_elem?, arith}
use graphlabapi_graphlab.Prelude.Run.{ok, fault}
use graphlabapi_graphlab.Examples.Values.{five, hello}
use graphlabapi_graphlab.Eid.{split_eid, is_scalar_graph_datatype}
use graphlabapi_graphlab.Row.{Row, empty_row}
use graphlabapi_graphlab.Shard
use graphlabapi_graphlab.Shard.Spec.{positions}
use graphlabapi_graphlab.Server
use graphlabapi_graphlab.Server.{Server, Adjacency, einvid, global_eids}
use graphlabapi_graphlab.Server.Add.{add_absent}
use graphlabapi_graphlab.Server.Read.{
  get_vertex_lem, get_vertex-add_vertex, get_vertex_over_scalar, find_row,
}
use graphlabapi_graphlab.Server.Adjacent.{get_vertex_adj_lem, get_vertex_adj_resolves, far_ends}
use graphlabapi_graphlab.Server.Batch
use graphlabapi_graphlab.Examples.Servers.{
  server, with_alice, with_bob, server-IsValid, with_alice-IsValid, alice, bob, bob-IsValid,
  bob_absent,
}

get_vertex_example : Server.get_vertex server 9 empty_row ≡ ok (0, bob)
unfolding Server.new Shard.new find_row
get_vertex_example = get_vertex_lem server 9 empty_row server-IsValid tt

get_vertex-add_vertex_example : Server.get_vertex with_bob 9 empty_row ≡ ok (0, bob)
get_vertex-add_vertex_example =
    get_vertex-add_vertex with_alice with_bob 9 9 bob empty_row with_alice-IsValid bob-IsValid tt
      bob_absent refl (add_absent with_alice 9 bob bob-IsValid bob_absent)

get_vertex_adj_example :
    Server.get_vertex_adj (λ i. i) server 7 true (record { neighbor_ids = []; eids = [] })
    ≡ ok (0, record { neighbor_ids = 9 ∷ []; eids = 4294967299 ∷ [] })
unfolding Server.new Shard.new positions far_ends global_eids graphlabapi_graphlab.Eid.make_eid
get_vertex_adj_example =
    get_vertex_adj_lem (λ i. i) server 7 true (record { neighbor_ids = []; eids = [] })
      server-IsValid

get_vertex_adj_resolves_example :
    (a : Adjacency) × (eid : ℕ) × (r : Row) × (Server.get_vertex_adj
        (λ i. i)
        server
        7
        true
        (record { neighbor_ids = []; eids = [] })
      ≡ ok (0, a))
    × (get_elem? a.eids 0 ≡ some eid)
    × (get_elem? server.shard.edge_data 1 ≡ some r)
    × (Server.get_edge server eid empty_row ≡ ok (0, r))
unfolding Server.new Shard.new positions
get_vertex_adj_resolves_example =
    get_vertex_adj_resolves (λ i. i) server 7 true 0 1 empty_row server-IsValid tt (omega arith)
      refl

get_vertex_over_scalar_example :
    Server.get_vertex server 7 (record { cells = five ∷ five ∷ []; is_vertex = true }) ≡ fault
unfolding Server.new Shard.new find_row is_scalar_graph_datatype
get_vertex_over_scalar_example =
    get_vertex_over_scalar server 7 0 5 alice
      (record { cells = five ∷ five ∷ []; is_vertex = true }) five hello server-IsValid refl
      (omega arith) refl refl refl refl (omega arith)
