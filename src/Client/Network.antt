-- ===== src/Client/Network.antt =====
-- The network between the client and the servers of the shards, as far as the client relies on it.
use graphlabapi_graphlab.Prelude.{ℕ, ◌≡◌, Bool, Option, some, List, ◌==◌, if◌then◌else◌}
use graphlabapi_graphlab.Prelude.Run.{Run, ok}
use graphlabapi_graphlab.Server.{Server}
use graphlabapi_graphlab.Message.{Item, QueryMessage}
use graphlabapi_graphlab.Dispatch.{process}

-- The state of the network is of type W. A message to a shard whose server is up is processed there
-- once, its reply comes back, and no other server changes.
pub record Transport (W : Type 0) (padding : ℕ → ℕ) : Type 0 where
  pub server_at : W → ℕ → Option Server
  pub query : W → ℕ → QueryMessage → Run (W × Option (List Item))
  pub update : W → ℕ → QueryMessage → Run (W × Option (List Item))
  pub query_lem :
      (w : W) (shard : ℕ) (s t : Server) (qm : QueryMessage) (success : Bool) (reply : List Item)
      → server_at w shard ≡ some s
      → process padding s qm ≡ ok (success, t, reply)
      → (v : W) × (query w shard qm ≡ ok (v, some reply))
        × ((k : ℕ) → server_at v k ≡ (if shard == k then some t else server_at w k))
  pub update_lem :
      (w : W) (shard : ℕ) (s t : Server) (qm : QueryMessage) (success : Bool) (reply : List Item)
      → server_at w shard ≡ some s
      → process padding s qm ≡ ok (success, t, reply)
      → (v : W) × (update w shard qm ≡ ok (v, some reply))
        × ((k : ℕ) → server_at v k ≡ (if shard == k then some t else server_at w k))
