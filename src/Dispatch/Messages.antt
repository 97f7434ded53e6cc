-- ===== src/Dispatch/Messages.antt =====
-- Messages as calls of the methods of the shard server.
use graphlabapi_graphlab.Prelude.{ℕ, ◌≡◌, refl, Bool, true, false, List, [], ◌∷◌}
use graphlabapi_graphlab.Prelude.Run.{Run, ok}
use graphlabapi_graphlab.Row.{Row, archived_row_lem, copy_row_lem}
use graphlabapi_graphlab.Shard
use graphlabapi_graphlab.Server
use graphlabapi_graphlab.Server.{Server}
use graphlabapi_graphlab.Server.Batch
use graphlabapi_graphlab.Server.Together.{All, GoodRow}
use graphlabapi_graphlab.Message.{Cmd, archived_pairs}

-- The rows of a batch come out of the archive as they went in, if they are valid.
pub archived_pairs_lem :
    (pairs : List (ℕ × Row)) → All GoodRow pairs → archived_pairs pairs ≡ ok pairs
unfolding archived_pairs
archived_pairs_lem [] h = refl
archived_pairs_lem ((x, row) ∷ pairs) h =
    rw (archived_row_lem row h.0, copy_row_lem row h.0, archived_pairs_lem pairs h.1) refl

-- The commands that ask for data.
abbrev pub asks : Cmd → Bool
asks Cmd.get = true
asks Cmd.bget = true
asks _ = false
