-- ===== src/Placement/Master.antt =====
-- The constructor of the shard manager, and the masters of vertices and edges.
use native.Mathlib.Nat.{mod-lt, mod-eq_of_lt, zero-add, mul-le-mul}
use graphlabapi_graphlab.Prelude.{
  ℕ, zero, suc, ◌+◌, ◌*◌, ◌/◌, ◌%◌, ◌^◌, ◌<◌, ◌≤◌, ◌≡◌, refl, sym, subst, ap, ◌∙◌, Bool, true,
  false, ◌&&◌, none, some, List, [], ◌∷◌, length, get_elem?, get_elem?_in_bounds, get_or,
  get_elem?-eq-get_or, lt→ltb, arith, dec_lt, min, max,
}
use graphlabapi_graphlab.Prelude.Run.{ok}
use graphlabapi_graphlab.Shard.{contains}
use graphlabapi_graphlab.Placement.{
  Manager, make_grid_constraint, get_joint_neighbors, check_row, check_loop, check, get_neighbors,
  new, vertex_master, edge_master,
}
use graphlabapi_graphlab.Placement.Joint.{contains-intersect, joint_of, joint_loop_lem}
use graphlabapi_graphlab.Placement.Grid.{IsNeighborhood, graph_loop_lem, row_below}

-- The manager of `c * c` shards: each shard has its neighborhood, and the table has the
-- intersections of all pairs.
pub record IsGrid (c : ℕ) (m : Manager) : Type 0 where
  pub count : m.nshards ≡ c * c
  pub size : length m.constraint_graph ≡ c * c
  pub neighborhoods : (k : ℕ) → k < c * c → IsNeighborhood c k (get_or m.constraint_graph k [])
  pub joint :
      (a b : ℕ) → a ≤ b → b < c * c → m.joint_map (a, b) ≡ some (joint_of m.constraint_graph a b)

contains-length : (xs : List ℕ) (k : ℕ) → contains xs k ≡ true → 0 < length xs
contains-length [] k h = absurd cc
contains-length (x ∷ xs) k h = omega arith

contains-get_elem? : (xs : List ℕ) (i k : ℕ) → get_elem? xs i ≡ some k → contains xs k ≡ true
contains-get_elem? [] i k h = cc
contains-get_elem? (x ∷ xs) zero k h = ground arith
contains-get_elem? (x ∷ xs) (suc i) k h = ground (arith, contains-get_elem? xs i k h)

and_comm : (a b : Bool) → (a && b) ≡ (b && a)
and_comm true true = refl
and_comm true false = refl
and_comm false true = refl
and_comm false false = refl

min-max_and : (f : ℕ → Bool) (i j : ℕ) → (f (min i j) && f (max i j)) ≡ (f i && f j)
min-max_and f i j = elim (dec_lt j i) [
  | yes above ↦
      let lower : min i j ≡ j = omega arith in
      let upper : max i j ≡ i = omega arith in rw (lower, upper) (and_comm (f j) (f i))
  | no below ↦
      let lower : min i j ≡ i = omega arith in
      let upper : max i j ≡ j = omega arith in rw (lower, upper)
]

module _ (c : ℕ) (m : Manager) (h : IsGrid c m) (pos : 0 < c) where
  -- The shard where the row of one shard meets the column of another is a neighbor of both.
  meeting :
      (a b : ℕ)
      → a < c * c
      → b < c * c
      → contains (joint_of m.constraint_graph a b) (a / c * c + b % c) ≡ true
  meeting a b ha hb =
      let na = h.neighborhoods a ha in
      let nb = h.neighborhoods b hb in
      let in_row = na.row (b % c) (mod-lt b pos) in
      let in_column = nb.column (a / c) (row_below c a ha) in
      contains-intersect (a / c * c + b % c) (get_or m.constraint_graph a [])
        (get_or m.constraint_graph b []) na.sorted nb.sorted
      ∙ rw (in_row, in_column)

  -- Any two shards have a common neighbor, and the table has exactly the common ones.
  pub get_joint_neighbors_lem :
      (i j : ℕ)
      → i < c * c
      → j < c * c
      → (ids : List ℕ) × (get_joint_neighbors m i j ≡ ok (some ids))
        × (0 < length ids)
        × ((k : ℕ)
            → contains ids k ≡ (
                contains (get_or m.constraint_graph i []) k
                && contains (get_or m.constraint_graph j []) k))
  unfolding get_joint_neighbors
  get_joint_neighbors_lem i j hi hj =
      let a = min i j in
      let b = max i j in
      let ha : a < c * c = omega arith in
      let hb : b < c * c = omega arith in
      let found = h.joint a b (omega arith) hb in
      let common = λ (k : ℕ).
        contains-intersect k (get_or m.constraint_graph a []) (get_or m.constraint_graph b [])
          (h.neighborhoods a ha).sorted (h.neighborhoods b hb).sorted in
      (
        joint_of m.constraint_graph a b,
        ground (arith, found, h.count),
        contains-length (joint_of m.constraint_graph a b) (a / c * c + b % c) (meeting a b ha hb),
        λ k. common k ∙ min-max_and (λ a. contains (get_or m.constraint_graph a []) k) i j,
      )

  check_row_lem : (i j n : ℕ) → i < c * c → j + n ≤ c * c → check_row m i j n ≡ ok tt
  unfolding check_row
  check_row_lem i j zero hi hj = refl
  check_row_lem i j (suc n) hi hj =
      let (ids, found, some_id, _) = get_joint_neighbors_lem i j hi (omega arith) in
      rw (found, lt→ltb 0 (length ids) some_id) (check_row_lem i (j + 1) n hi (omega arith))

  check_loop_lem : (i n : ℕ) → i + n ≡ c * c → check_loop m i n ≡ ok tt
  unfolding check_loop
  check_loop_lem i zero size = refl
  check_loop_lem i (suc n) size = rw (
    check_row_lem i (i + 1) n (omega arith) (omega arith),
    check_loop_lem (i + 1) n (omega arith),
  )

make_grid_constraint_lem :
    (c : ℕ)
    → 0 < c
    → c * c < 2 ^ 16
    → (m : Manager) × (make_grid_constraint c (c * c) ≡ ok m) × IsGrid c m
unfolding make_grid_constraint
make_grid_constraint_lem c pos few =
    let n = c * c in
    let (graph, made, size, near) = graph_loop_lem c 0 n pos few (omega arith) in
    let (joint, done, entries) = joint_loop_lem graph 0 n (λ _. none) (omega arith) in
    (
      record { nshards = n; constraint_graph = graph; joint_map = joint },
      rw (made, lt→ltb n (2 ^ 16) few, done),
      record {
        count = refl;
        size = size;
        neighborhoods = λ k below.
            subst (λ x. IsNeighborhood c x (get_or graph k [])) (zero-add k) (near k below);
        joint = λ a b le below. ground (arith, entries a b);
      },
    )

and_true : (a b : Bool) → (a && b) ≡ true → (a ≡ true) × (b ≡ true)
and_true true b h = (refl, h)
and_true false b h = cc

get_neighbors_lem :
    (c : ℕ) (m : Manager)
    → IsGrid c m
    → (i : ℕ) → i < c * c
    → get_neighbors m i ≡ ok (get_or m.constraint_graph i [])
unfolding get_neighbors
get_neighbors_lem c m grid i h =
    let at_i = get_elem?-eq-get_or m.constraint_graph i [] (omega (arith, grid.size)) in
    ground (arith, at_i, grid.count)

module _ (sqrt : ℕ → ℕ) (vidhash : ℕ → ℕ) (edge_hash : ℕ × ℕ → ℕ) where
  -- The constructor for a square number of shards below 2^16, given that `sqrt` is right on it, ends
  -- without a failed assertion: its own check passes, and every shard has its row and column.
  pub new_lem :
      (c : ℕ)
      → 0 < c
      → c * c < 2 ^ 16
      → sqrt (c * c) ≡ c
      → (m : Manager) × (new sqrt vidhash edge_hash (c * c) ≡ ok m) × IsGrid c m
  unfolding new check
  new_lem c pos few root =
      let (m, made, grid) = make_grid_constraint_lem c pos few in
      (
        m,
        rw (root, made, grid.count, check_loop_lem c m grid pos 0 (c * c) (zero-add (c * c))),
        grid,
      )

  vertex_master_lem :
      (c : ℕ) (m : Manager) (vid : ℕ)
      → IsGrid c m
      → 0 < c * c
      → c * c < 2 ^ 16
      → (i : ℕ) × (vertex_master sqrt vidhash edge_hash m vid ≡ ok i) × (i < c * c)
  unfolding vertex_master
  vertex_master_lem c m vid grid pos few =
      let i = vidhash vid % (c * c) in
      let small : i < c * c = mod-lt (vidhash vid) pos in
      (i, rw (grid.count, lt→ltb 0 (c * c) pos) (ap ok (mod-eq_of_lt (omega arith))), small)

  -- For a square number of shards below 2^16, given that `sqrt` is right on it, the manager is
  -- constructed and every edge has a master, which is a shard and stands in the neighbors of the
  -- masters of both its ends.
  pub edge_master_lem :
      (c source target : ℕ)
      → 0 < c
      → c * c < 2 ^ 16
      → sqrt (c * c) ≡ c
      → (m : Manager) × (i j shard : ℕ) × (ls1 ls2 : List ℕ) × (new sqrt vidhash edge_hash (c * c)
          ≡ ok m)
        × (vertex_master sqrt vidhash edge_hash m source ≡ ok i)
        × (vertex_master sqrt vidhash edge_hash m target ≡ ok j)
        × (edge_master sqrt vidhash edge_hash m source target ≡ ok shard)
        × (get_neighbors m i ≡ ok ls1)
        × (get_neighbors m j ≡ ok ls2)
        × (contains ls1 shard ≡ true)
        × (contains ls2 shard ≡ true)
        × (shard < c * c)
  unfolding edge_master get_neighbors
  edge_master_lem c source target pos few root =
      let n = c * c in
      let (m, made, grid) = new_lem c pos few root in
      let some_shard : 0 < n = omega (arith, mul-le-mul pos pos) in
      let (i, at_i, hi) = vertex_master_lem c m source grid some_shard few in
      let (j, at_j, hj) = vertex_master_lem c m target grid some_shard few in
      let (ids, found, some_id, common) = get_joint_neighbors_lem c m grid pos i j hi hj in
      let pick = edge_hash (source, target) % length ids in
      let (shard, picked) =
        get_elem?_in_bounds ids pick (mod-lt (edge_hash (source, target)) some_id) in
      let ls1 = get_or m.constraint_graph i [] in
      let ls2 = get_or m.constraint_graph j [] in
      let both : (contains ls1 shard && contains ls2 shard) ≡ true =
        sym (common shard) ∙ contains-get_elem? ids pick shard picked in
      let (in_ls1, in_ls2) = and_true (contains ls1 shard) (contains ls2 shard) both in
      (
        m,
        i,
        j,
        shard,
        ls1,
        ls2,
        made,
        at_i,
        at_j,
        rw (at_i, at_j, found, lt→ltb 0 (length ids) some_id, picked),
        get_neighbors_lem c m grid i hi,
        get_neighbors_lem c m grid j hj,
        in_ls1,
        in_ls2,
        (grid.neighborhoods i hi).bounded shard in_ls1,
      )
