-- ===== src/Examples/Messages.antt =====
-- Messages to the example servers.
use graphlabapi_graphlab.Prelude.{ℕ}
use graphlabapi_graphlab.Shard
use graphlabapi_graphlab.Server
use graphlabapi_graphlab.Server.{Server}

abbrev padding : ℕ → ℕ
padding i = i
