-- ===== src/Examples/Servers.antt =====
-- A shard server with two vertices and two edges, and what its writes do.
use graphlabapi_graphlab.Prelude.{◌+◌, ◌^◌, ◌≡◌, refl, true, false, [], ◌∷◌, arith}
use graphlabapi_graphlab.Prelude.Run.{ok, fault}
use graphlabapi_graphlab.Eid.{split_eid, string_type, double_type}
use graphlabapi_graphlab.Row.{Row, Field, RowIsValid, empty_row}
use graphlabapi_graphlab.Shard
use graphlabapi_graphlab.Shard.{Shard}
use graphlabapi_graphlab.Shard.Invariant.{with_vertex, with_edge}
use graphlabapi_graphlab.Server
use graphlabapi_graphlab.Server.{Server, new, edup, einvtype, einvid}
use graphlabapi_graphlab.Server.Invariant.{IsValid, with_vertex-IsValid}
use graphlabapi_graphlab.Server.Add.{add_absent, with_edge-IsValid}
use graphlabapi_graphlab.Server.Read.{answer}
use graphlabapi_graphlab.Server.Write.{set_vertex_lem, set_error, set_stored, row_of}
use graphlabapi_graphlab.Server.WriteEdge.{set_edge_unchecked}
use graphlabapi_graphlab.Server.History.{new-IsValid, Reachable, Reachable-IsValid}
use graphlabapi_graphlab.Examples.Values.{
  five, twelve, hello, nothing, five-IsValid, twelve-IsValid, hello-IsValid, nothing-IsValid,
}

abbrev name_field : Field
name_field = record { name = "name"; is_indexed = true; type = string_type; max_data_length = 64 }

abbrev rank_field : Field
rank_field = record { name = "rank"; is_indexed = false; type = double_type; max_data_length = 8 }

abbrev pub alice : Row
alice = record { cells = hello ∷ five ∷ []; is_vertex = true }

abbrev pub bob : Row
bob = record { cells = nothing ∷ twelve ∷ []; is_vertex = true }

abbrev pub link : Row
link = record { cells = five ∷ []; is_vertex = false }

abbrev pub heavy_link : Row
heavy_link = record { cells = twelve ∷ []; is_vertex = false }

pub alice-IsValid : RowIsValid alice
alice-IsValid = ((hello-IsValid, λ e. cc), ((five-IsValid, λ e. cc), tt))

pub bob-IsValid : RowIsValid bob
bob-IsValid = ((nothing-IsValid, λ e. refl), ((twelve-IsValid, λ e. cc), tt))

pub link-IsValid : RowIsValid link
link-IsValid = ((five-IsValid, λ e. cc), tt)

pub heavy_link-IsValid : RowIsValid heavy_link
heavy_link-IsValid = ((twelve-IsValid, λ e. cc), tt)

abbrev pub empty_server : Server
empty_server = new 3 (name_field ∷ []) []

abbrev pub with_alice : Server
with_alice = record empty_server { shard = with_vertex empty_server.shard 7 alice }

abbrev pub with_bob : Server
with_bob = record with_alice { shard = with_vertex with_alice.shard 9 bob }

abbrev pub with_link : Server
with_link = record with_bob { shard = with_edge with_bob.shard 7 9 link }

abbrev pub server : Server
server = record with_link { shard = with_edge with_link.shard 9 7 heavy_link }

pub with_alice-IsValid : IsValid with_alice
unfolding Server.new Shard.new
with_alice-IsValid =
    with_vertex-IsValid empty_server 7 alice (new-IsValid 3 (name_field ∷ []) []) alice-IsValid refl

pub bob_absent : Shard.has_vertex with_alice.shard 9 ≡ false
unfolding Server.new Shard.new Shard.Index.add_vertex Shard.Index.assign_at
bob_absent = refl

with_bob-IsValid : IsValid with_bob
with_bob-IsValid = with_vertex-IsValid with_alice 9 bob with_alice-IsValid bob-IsValid bob_absent

with_link-IsValid : IsValid with_link
unfolding Server.new Shard.new
with_link-IsValid =
    with_edge-IsValid with_bob 7 9 link with_bob-IsValid link-IsValid refl (omega arith)

pub server-IsValid : IsValid server
unfolding Server.new Shard.new
server-IsValid =
    with_edge-IsValid with_link 9 7 heavy_link with_link-IsValid heavy_link-IsValid refl
      (omega arith)

alice_added : Server.add_vertex empty_server 7 alice ≡ ok (0, with_alice)
unfolding Server.new Shard.new
alice_added = add_absent empty_server 7 alice alice-IsValid refl

pub with_alice-Reachable : Reachable with_alice
with_alice-Reachable =
    Reachable.vertex_added empty_server with_alice 7 0 alice
      (Reachable.started 3 (name_field ∷ []) []) alice-IsValid alice_added

bob_added : Server.add_vertex with_alice 9 bob ≡ ok (0, with_bob)
bob_added = add_absent with_alice 9 bob bob-IsValid bob_absent

Reachable-IsValid_example : IsValid with_bob
Reachable-IsValid_example =
    Reachable-IsValid with_bob (
      Reachable.vertex_added with_alice with_bob 9 0 bob with_alice-Reachable bob-IsValid bob_added)

set_vertex_example :
    (t : Server) × (Server.set_vertex server 9 alice ≡ ok (set_error (row_of server 9) alice, t))
    × IsValid t
    × (Server.get_vertex t 9 empty_row ≡ answer empty_row (set_stored (row_of server 9) alice))
set_vertex_example = set_vertex_lem server 9 9 alice empty_row server-IsValid alice-IsValid tt

set_edge_unchecked_example :
    (Server.set_edge server (3 + 2 ^ 33) link ≡ fault)
    × (Server.get_edge server (3 + 2 ^ 33) bob ≡ ok (einvid, bob))
unfolding Server.new Shard.new split_eid
set_edge_unchecked_example =
    set_edge_unchecked server (3 + 2 ^ 33) link bob server-IsValid refl (omega arith)
