-- ===== src/Examples/Placements.antt =====
-- Nine shards in three rows.
use graphlabapi_graphlab.Prelude.{
  ℕ, zero, suc, ◌+◌, ◌*◌, ◌<◌, ◌≡◌, refl, true, List, leb, if◌then◌else◌, arith,
}
use graphlabapi_graphlab.Prelude.Run.{ok}
use graphlabapi_graphlab.Shard.{contains}
use graphlabapi_graphlab.Placement.{Manager, new, vertex_master, edge_master, get_neighbors}
use graphlabapi_graphlab.Placement.Master.{IsGrid, new_lem, edge_master_lem}

-- The root rounded down, by counting up from `k`.
abbrev root_from : (fuel k n : ℕ) → ℕ
root_from zero k n = k
root_from (suc fuel) k n =
    let up = root_from fuel (k + 1) n in if leb ((k + 1) * (k + 1)) n then up else k

abbrev pub sqrt : ℕ → ℕ
sqrt n = root_from n 0 n

abbrev pub vidhash : ℕ → ℕ
vidhash vid = vid

abbrev pub edge_hash : ℕ × ℕ → ℕ
edge_hash e = e.0 * 31 + e.1

nine_shards : (m : Manager) × (new sqrt vidhash edge_hash 9 ≡ ok m) × IsGrid 3 m
nine_shards = new_lem sqrt vidhash edge_hash 3 (omega arith) (omega arith) refl

edge_master_example :
    (m : Manager) × (i j shard : ℕ) × (ls1 ls2 : List ℕ) × (new sqrt vidhash edge_hash 9 ≡ ok m)
    × (vertex_master sqrt vidhash edge_hash m 13 ≡ ok i)
    × (vertex_master sqrt vidhash edge_hash m 20 ≡ ok j)
    × (edge_master sqrt vidhash edge_hash m 13 20 ≡ ok shard)
    × (get_neighbors m i ≡ ok ls1)
    × (get_neighbors m j ≡ ok ls2)
    × (contains ls1 shard ≡ true)
    × (contains ls2 shard ≡ true)
    × (shard < 9)
edge_master_example =
    edge_master_lem sqrt vidhash edge_hash 3 13 20 (omega arith) (omega arith) refl
