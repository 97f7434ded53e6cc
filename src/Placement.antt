-- ===== src/Placement.antt =====
-- src/graphlab/database/graph_shard_manager.hpp and .cpp: which shard keeps a vertex or an edge.
-- The hashes of boost and the square root are parameters. Shard ids have 16 bits.
pub mod Grid
pub mod Joint
pub mod Master
use Prim.Native.Nat.{compare, Ordering}
use graphlabapi_graphlab.Prelude.{
  ℕ, zero, suc, ◌+◌, ◌*◌, ◌/◌, ◌%◌, ◌^◌, Bool, true, false, ◌&&◌, Option, none, some, List, [], ◌∷◌,
  ◌++◌, length, get_elem?, ltb, ◌==◌, if◌then◌else◌, min, max,
}
use graphlabapi_graphlab.Prelude.Run.{Run, ok, fault, ◌>>=◌, ◌>>◌, or_fault, assert}

abbrev pub JointMap : Type 0
JointMap = ℕ × ℕ → Option (List ℕ)

pub record Manager : Type 0 where
  pub nshards : ℕ
  pub constraint_graph : List (List ℕ)
  pub joint_map : JointMap

abbrev pub shard_id : ℕ → ℕ
shard_id j = j % 2 ^ 16

-- The loop over the row of `i`, from `j` for `n` more shards.
unfoldable pub row_loop : (i j n : ℕ) → List ℕ
row_loop i j zero = []
row_loop i j (suc n) = let rest = row_loop i (j + 1) n in if i == j then rest else shard_id j ∷ rest

-- The loop over the column of `i`. It does not end if `ncols` is 0, and otherwise within `nshards`
-- steps and one.
unfoldable pub col_loop : (fuel i ncols nshards j : ℕ) → Run (List ℕ)
col_loop zero i ncols nshards j = fault
col_loop (suc fuel) i ncols nshards j =
    let rest = col_loop fuel i ncols nshards (j + ncols) in
    if ltb j nshards then (rest >>= λ ids. ok (if i == j then ids else shard_id j ∷ ids)) else ok []

-- std::sort
unfoldable pub insert_sorted : ℕ → List ℕ → List ℕ
insert_sorted x [] = x ∷ []
insert_sorted x (y ∷ ys) = let rest = insert_sorted x ys in if ltb y x then y ∷ rest else x ∷ y ∷ ys

unfoldable pub sort : List ℕ → List ℕ
unfolding insert_sorted
sort [] = []
sort (x ∷ xs) = insert_sorted x (sort xs)

-- The neighbors of shard `i`. A division by 0 is undefined.
unfoldable pub adjlist : (ncols nshards i : ℕ) → Run (List ℕ)
unfolding row_loop col_loop sort
adjlist ncols nshards i = do
  assert (ltb 0 ncols)
  col ← col_loop (nshards + 1) i ncols nshards (i % ncols)
  ok (sort (shard_id i ∷ row_loop i (i / ncols * ncols) ncols ++ col))

unfoldable pub graph_loop : (ncols nshards i n : ℕ) → Run (List (List ℕ))
unfolding adjlist
graph_loop ncols nshards i zero = ok []
graph_loop ncols nshards i (suc n) = do
  adj ← adjlist ncols nshards i
  rest ← graph_loop ncols nshards (i + 1) n
  ok (adj ∷ rest)

-- The intersection of two sorted lists, where the indexes of the loop are the heads of the lists.
unfoldable pub intersect : List ℕ → List ℕ → List ℕ
intersect [] ls2 = []
intersect (x ∷ ls1) [] = []
intersect (x ∷ ls1) (y ∷ ls2) = elim (compare x y) [
  | Ordering.eq ↦ x ∷ intersect ls1 ls2
  | Ordering.lt ↦ intersect ls1 (y ∷ ls2)
  | Ordering.gt ↦ intersect (x ∷ ls1) ls2
]

unfoldable pub put : ℕ → ℕ → List ℕ → JointMap → JointMap
put shardi shardj ids m key = if key.0 == shardi && key.1 == shardj then some ids else m key

-- The inner loop from `shardi`, and the outer one from `shardj`, for `n` more shards.
unfoldable pub joint_row : List (List ℕ) → (shardj shardi n : ℕ) → JointMap → Run JointMap
unfolding intersect put
joint_row graph shardj shardi zero m = ok m
joint_row graph shardj shardi (suc n) m = do
  ls1 ← or_fault (get_elem? graph shardi)
  ls2 ← or_fault (get_elem? graph shardj)
  joint_row graph shardj (shardi + 1) n (put shardi shardj (intersect ls1 ls2) m)

unfoldable pub joint_loop : List (List ℕ) → (shardj n : ℕ) → JointMap → Run JointMap
unfolding joint_row
joint_loop graph shardj zero m = ok m
joint_loop graph shardj (suc n) m = do
  next ← joint_row graph shardj 0 (shardj + 1) m
  joint_loop graph (shardj + 1) n next

-- From 2^16 shards on, the 16-bit counters of the second loop never reach `nshards`.
unfoldable pub make_grid_constraint : (ncols nshards : ℕ) → Run Manager
unfolding graph_loop joint_loop
make_grid_constraint ncols nshards = do
  graph ← graph_loop ncols nshards 0 nshards
  assert (ltb nshards (2 ^ 16))
  joint ← joint_loop graph 0 nshards (λ _. none)
  ok (record { nshards = nshards; constraint_graph = graph; joint_map = joint })

-- `get_joint_neighbors`, with `none` for `false`.
unfoldable pub get_joint_neighbors : Manager → (shardi shardj : ℕ) → Run (Option (List ℕ))
get_joint_neighbors m shardi shardj = do
  assert (ltb shardi m.nshards)
  assert (ltb shardj m.nshards)
  ok (m.joint_map (min shardi shardj, max shardi shardj))

abbrev pub or_empty : Option (List ℕ) → List ℕ
or_empty none = []
or_empty (some ids) = ids

-- The loops of `check`, over `n` more shards each.
unfoldable pub check_row : Manager → (i j n : ℕ) → Run (Unit {0})
unfolding get_joint_neighbors
check_row m i j zero = ok tt
check_row m i j (suc n) = do
  ls ← get_joint_neighbors m i j
  assert (ltb 0 (length (or_empty ls)))
  check_row m i (j + 1) n

unfoldable pub check_loop : Manager → (i n : ℕ) → Run (Unit {0})
unfolding check_row
check_loop m i zero = ok tt
check_loop m i (suc n) = do check_row m i (i + 1) n; check_loop m (i + 1) n

unfoldable pub check : Manager → Run (Unit {0})
unfolding check_loop
check m = check_loop m 0 m.nshards

unfoldable pub get_neighbors : Manager → ℕ → Run (List ℕ)
get_neighbors m shard = do
  assert (ltb shard m.nshards)
  or_fault (get_elem? m.constraint_graph shard)

module _ (sqrt : ℕ → ℕ) (vidhash : ℕ → ℕ) (edge_hash : ℕ × ℕ → ℕ) where
  -- The constructor.
  unfoldable pub new : ℕ → Run Manager
  unfolding make_grid_constraint check
  new nshards = do m ← make_grid_constraint (sqrt nshards) nshards; check m; ok m

  -- The master of a vertex. A remainder by 0 is undefined.
  unfoldable pub vertex_master : Manager → ℕ → Run ℕ
  vertex_master m vid = do assert (ltb 0 m.nshards); ok (shard_id (vidhash vid % m.nshards))

  -- The master of an edge.
  unfoldable pub edge_master : Manager → ℕ → ℕ → Run ℕ
  unfolding vertex_master get_joint_neighbors
  edge_master m source target = do
    i ← vertex_master m source
    j ← vertex_master m target
    found ← get_joint_neighbors m i j
    let candidates = or_empty found
    assert (ltb 0 (length candidates))
    or_fault (get_elem? candidates (edge_hash (source, target) % length candidates))
