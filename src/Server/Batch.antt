-- ===== src/Server/Batch.antt =====
-- src/graphlab/database/server/graph_shard_server.cpp: the batch methods. Each runs the single
-- method on every element, collects the error codes, and succeeds if all of them are 0.
use graphlabapi_graphlab.Prelude.{ℕ, Bool, true, ◌&&◌, List, [], ◌∷◌, ◌++◌, ◌==◌}
use graphlabapi_graphlab.Prelude.Run.{Run, ok, ◌>>=◌}
use graphlabapi_graphlab.Row.{Row, empty_row}
use graphlabapi_graphlab.Server
use graphlabapi_graphlab.Server.{Server}

-- The loop of a batch that writes.
unfoldable pub write_loop :
    {A : Type 0}
    → (Server → A → Run (ℕ × Server))
    → Server
    → List A
    → List ℕ
    → Bool
    → Run (Bool × List ℕ × Server)
write_loop method s [] errorcodes success = ok (success, errorcodes, s)
write_loop method s (x ∷ xs) errorcodes success = do
  (err, t) ← method s x
  write_loop method t xs (errorcodes ++ err ∷ []) (success && err == 0)

-- The loop of a batch that reads into an `out` vector of fresh rows.
unfoldable pub read_loop :
    (Server → ℕ → Row → Run (ℕ × Row))
    → Server
    → List ℕ
    → List Row
    → List ℕ
    → Bool
    → Run (Bool × List Row × List ℕ)
read_loop method s [] out errorcodes success = ok (success, out, errorcodes)
read_loop method s (x ∷ xs) out errorcodes success = do
  (err, row) ← method s x empty_row
  read_loop method s xs (out ++ row ∷ []) (errorcodes ++ err ∷ []) (success && err == 0)

unfoldable pub get_vertices : Server → List ℕ → List ℕ → Run (Bool × List Row × List ℕ)
unfolding read_loop
get_vertices s vids errorcodes = read_loop Server.get_vertex s vids [] errorcodes true

unfoldable pub get_edges : Server → List ℕ → List ℕ → Run (Bool × List Row × List ℕ)
unfolding read_loop
get_edges s eids errorcodes = read_loop Server.get_edge s eids [] errorcodes true

unfoldable pub set_vertices : Server → List (ℕ × Row) → List ℕ → Run (Bool × List ℕ × Server)
unfolding write_loop
set_vertices s pairs errorcodes =
    write_loop (λ t p. Server.set_vertex t p.0 p.1) s pairs errorcodes true

unfoldable pub set_edges : Server → List (ℕ × Row) → List ℕ → Run (Bool × List ℕ × Server)
unfolding write_loop
set_edges s pairs errorcodes = write_loop (λ t p. Server.set_edge t p.0 p.1) s pairs errorcodes true

-- `vertex_insert_descriptor`
unfoldable pub add_vertices : Server → List (ℕ × Row) → List ℕ → Run (Bool × List ℕ × Server)
unfolding write_loop
add_vertices s vertices errorcodes =
    write_loop (λ t p. Server.add_vertex t p.0 p.1) s vertices errorcodes true

pub record EdgeInsert : Type 0 where
  pub src : ℕ
  pub dest : ℕ
  pub row : Row

unfoldable pub add_edges : Server → List EdgeInsert → List ℕ → Run (Bool × List ℕ × Server)
unfolding write_loop
add_edges s edges errorcodes =
    write_loop (λ t e. Server.add_edge t e.src e.dest e.row) s edges errorcodes true

-- `mirror_insert_descriptor`
unfoldable pub add_vertex_mirrors :
    Server → List (ℕ × List ℕ) → List ℕ → Run (Bool × List ℕ × Server)
unfolding write_loop
add_vertex_mirrors s vid_mirror_pairs errorcodes =
    write_loop (λ t p. Server.add_vertex_mirror t p.0 p.1) s vid_mirror_pairs errorcodes true
