-- ===== src/Placement/Grid.antt =====
-- The constraint graph of a square number of shards: the row and the column of each shard.
use mathlib.Core.Path.{subst}
use native.Mathlib.Nat.{
  mul-le-mul_right, mod-lt, div-add-mod', suc-mul, add_comm, lt_of_mul-lt-mul_right,
}
use graphlabapi_graphlab.Prelude.{
  ℕ, zero, suc, ◌+◌, ◌*◌, ◌/◌, ◌%◌, ◌^◌, ◌<◌, ◌≤◌, ◌≡◌, ◌≢◌, refl, sym, ◌∙◌, true, List, [], ◌∷◌,
  ◌++◌, length, get_or, lt→ltb, ◌==◌, if◌then◌else◌, arith, dec_lt,
}
use graphlabapi_graphlab.Prelude.Run.{ok}
use graphlabapi_graphlab.Shard.{contains}
use graphlabapi_graphlab.Placement.{row_loop, col_loop, sort, adjlist, graph_loop, shard_id}
use graphlabapi_graphlab.Placement.Joint.{IsSorted, sort-IsSorted, contains-sort, contains-append}

abbrev pub Below : ℕ → List ℕ → Type 0
Below b xs = (k : ℕ) → contains xs k ≡ true → k < b

contains-row_loop :
    (i j n r : ℕ) → r < n → j + n ≤ 2 ^ 16 → i ≢ j + r → contains (row_loop i j n) (j + r) ≡ true
unfolding row_loop
contains-row_loop i j zero r h b ne = absurd (omega arith)
contains-row_loop i j (suc n) zero h b ne = ground arith
contains-row_loop i j (suc n) (suc r) h b ne =
    ground (arith, contains-row_loop i (j + 1) n r (omega arith) (omega arith) (ground arith))

row_loop-Below : (i j n b : ℕ) → j + n ≤ b → b ≤ 2 ^ 16 → Below b (row_loop i j n)
unfolding row_loop
row_loop-Below i j zero b h e k found = absurd cc
row_loop-Below i j (suc n) b h e k found =
    ground (arith, row_loop-Below i (j + 1) n b (omega arith) e k)

-- What the column loop collects from `j`.
abbrev Column : (i ncols nshards j : ℕ) → List ℕ → Type 0
Column i ncols nshards j ids =
    Below nshards ids
    × ((q : ℕ) → j + q * ncols < nshards → i ≢ j + q * ncols → contains ids (j + q * ncols) ≡ true)

Column-cons :
    (i ncols nshards j : ℕ) (ids : List ℕ)
    → nshards < 2 ^ 16
    → j < nshards
    → Column i ncols nshards (j + ncols) ids
    → Column i ncols nshards j (if i == j then ids else shard_id j ∷ ids)
Column-cons i ncols nshards j ids few below (bounded, found) =
    (λ k at_k. ground (arith, bounded k), entries)
  where
    entries :
        (q : ℕ)
        → j + q * ncols < nshards
        → i ≢ j + q * ncols
        → contains (if i == j then ids else shard_id j ∷ ids) (j + q * ncols) ≡ true
    entries zero h ne = ground arith
    entries (suc q) h ne =
        let next : j + suc q * ncols ≡ j + ncols + q * ncols = omega (arith, suc-mul q ncols) in
        let at_next = found q (omega arith) (λ e. ne (e ∙ sym next)) in
        rw next (ground (arith, at_next))

col_loop_lem :
    (fuel i ncols nshards j : ℕ)
    → 0 < ncols
    → nshards < 2 ^ 16
    → 0 < fuel
    → nshards < fuel + j
    → (ids : List ℕ) × (col_loop fuel i ncols nshards j ≡ ok ids) × Column i ncols nshards j ids
unfolding col_loop
col_loop_lem zero i ncols nshards j pos few some_fuel h = absurd (omega arith)
col_loop_lem (suc fuel) i ncols nshards j pos few some_fuel h = elim (dec_lt j nshards) [
  | yes below ↦
      let (ids, done, column) =
        col_loop_lem fuel i ncols nshards (j + ncols) pos few (omega arith) (omega arith) in
      (
        (if i == j then ids else shard_id j ∷ ids),
        rw (lt→ltb j nshards below, done),
        Column-cons i ncols nshards j ids few below column,
      )
  | no past ↦ ([], ground arith, ((λ k found. absurd cc), λ q inside ne. absurd (omega arith)))
]

-- The neighbors of shard `i` among `c * c` shards: sorted, all of them shards, and with the whole row
-- and column of `i` among them.
pub record IsNeighborhood (c i : ℕ) (adj : List ℕ) : Type 0 where
  pub sorted : IsSorted adj
  pub bounded : Below (c * c) adj
  pub row : (r : ℕ) → r < c → contains adj (i / c * c + r) ≡ true
  pub column : (q : ℕ) → q < c → contains adj (q * c + i % c) ≡ true

pub in_grid : (c q r : ℕ) → q < c → r < c → q * c + r < c * c
in_grid c q r h k = omega (arith, mul-le-mul_right c h, suc-mul q c)

pub row_below : (c i : ℕ) → i < c * c → i / c < c
row_below c i h = lt_of_mul-lt-mul_right c (omega (arith, div-add-mod' i c))

adjlist_lem :
    (c i : ℕ)
    → 0 < c
    → c * c < 2 ^ 16
    → i < c * c
    → (adj : List ℕ) × (adjlist c (c * c) i ≡ ok adj) × IsNeighborhood c i adj
unfolding adjlist
adjlist_lem c i pos few h =
    let n = c * c in
    let (col, done, (bounded, found)) =
      col_loop_lem (n + 1) i c n (i % c) pos few (omega arith) (omega arith) in
    let start = i / c * c in
    let rows = row_loop i start c in
    let row_end : start + c ≤ n =
      omega (arith, mul-le-mul_right c (row_below c i h), suc-mul (i / c) c) in
    let small : shard_id i ≡ i = omega arith in
    let members = λ (k : ℕ).
      contains-sort k (shard_id i ∷ rows ++ col) ∙ contains-append k (shard_id i ∷ rows) col in
    let row_members = row_loop-Below i start c n row_end (omega arith) in
    (
      sort (shard_id i ∷ rows ++ col),
      rw (lt→ltb 0 c pos, done),
      record {
        sorted = sort-IsSorted (shard_id i ∷ rows ++ col);
        bounded = λ k at_k. ground (arith, members k, bounded k, row_members k);
        row = λ r r_small.
            ground
              (arith, members (start + r), contains-row_loop i start c r r_small (omega arith));
        column = λ q q_small.
            let swap = add_comm (q * c) (i % c) in
            let inside = in_grid c q (i % c) q_small (mod-lt i pos) in
            ground (arith, members (q * c + i % c), found q (omega arith), swap);
      },
    )

prepend :
    (c i n : ℕ) (adj : List ℕ) (graph : List (List ℕ))
    → IsNeighborhood c i adj
    → ((k : ℕ) → k < n → IsNeighborhood c (i + 1 + k) (get_or graph k []))
    → (k : ℕ) → k < suc n
    → IsNeighborhood c (i + k) (get_or (adj ∷ graph) k [])
prepend c i n adj graph here later zero below =
    subst (λ x. IsNeighborhood c x adj) (omega arith) here
prepend c i n adj graph here later (suc k) below =
    let shifted : i + 1 + k ≡ i + suc k = omega arith in
    subst (λ x. IsNeighborhood c x (get_or graph k [])) shifted (later k (omega arith))

pub graph_loop_lem :
    (c i n : ℕ)
    → 0 < c
    → c * c < 2 ^ 16
    → i + n ≤ c * c
    → (graph : List (List ℕ)) × (graph_loop c (c * c) i n ≡ ok graph)
      × (length graph ≡ n)
      × ((k : ℕ) → k < n → IsNeighborhood c (i + k) (get_or graph k []))
unfolding graph_loop
graph_loop_lem c i zero pos few h = ([], refl, refl, λ k below. absurd (omega arith))
graph_loop_lem c i (suc n) pos few h =
    let (adj, made, here) = adjlist_lem c i pos few (omega arith) in
    let (graph, done, size, later) = graph_loop_lem c (i + 1) n pos few (omega arith) in
    (adj ∷ graph, rw (made, done), omega arith, prepend c i n adj graph here later)
