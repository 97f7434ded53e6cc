-- ===== src/Server/Adjacent.antt =====
-- The adjacency query of the shard server, against the list of edges.
use graphlabapi_graphlab.Prelude.{
  ℕ, zero, suc, ◌+◌, ◌<◌, ◌≡◌, refl, sym, ◌∙◌, Bool, true, false, some, List, [], ◌∷◌, ◌++◌, length,
  length-snoc, get_elem?, get_elem?_in_bounds, ◌==◌, if◌then◌else◌, arith, Bool-cases, ==_refl, inl,
  inr, ◌⊎◌, ◌^◌,
}
use mathlib.Core.List.{append_assoc}
use graphlabapi_graphlab.Prelude.Run.{ok}
use graphlabapi_graphlab.Eid.{make_eid, split_eid-make_eid}
use graphlabapi_graphlab.Row.{Row, IsBlank}
use graphlabapi_graphlab.Shard
use graphlabapi_graphlab.Shard.{Shard}
use graphlabapi_graphlab.Shard.Spec.{positions, near_end}
use graphlabapi_graphlab.Shard.Invariant
use graphlabapi_graphlab.Shard.Invariant.{AllRows, with_vertex, with_edge}
use graphlabapi_graphlab.Server.Invariant.{IsValid}
use graphlabapi_graphlab.Server.{Server, get_vertex_adj, Adjacency, global_eids, get_edge}
use graphlabapi_graphlab.Server.Read.{get_edge_lem}

-- The far ends of the edges that have `vid` at the near end, in the order of the edges.
unfoldable pub far_ends : Bool → ℕ → List (ℕ × ℕ) → List ℕ
far_ends is_in_edges vid [] = []
far_ends is_in_edges vid (e ∷ edges) =
    let rest = far_ends is_in_edges vid edges in
    if near_end is_in_edges e == vid then (if is_in_edges then e.0 else e.1) ∷ rest else rest

-- The edges of `vid` on one server: their far ends, and their global ids.
abbrev pub adjacency_of : (ℕ → ℕ) → ℕ → Bool → Server → Adjacency
adjacency_of padding vid in_edges s = record {
  neighbor_ids = far_ends in_edges vid s.shard.edge;
  eids = global_eids padding s.shard.shard_id (positions (near_end in_edges) vid s.shard.edge 0) 0;
}

append_cons :
    (before : List (ℕ × ℕ)) (e : ℕ × ℕ) (edges : List (ℕ × ℕ))
    → before ++ e ∷ edges ≡ (before ++ e ∷ []) ++ edges
append_cons before e edges = sym (append_assoc before (e ∷ []) edges)

get_elem?_middle :
    (before : List (ℕ × ℕ)) (e : ℕ × ℕ) (edges : List (ℕ × ℕ))
    → get_elem? (before ++ e ∷ edges) (length before) ≡ some e
get_elem?_middle [] e edges = refl
get_elem?_middle (x ∷ before) e edges = get_elem?_middle before e edges

neighbors_lem :
    (s : Shard) (is_in_edges : Bool) (vid : ℕ) (before edges : List (ℕ × ℕ)) (i : ℕ)
    → i ≡ length before
    → s.edge ≡ before ++ edges
    → Shard.neighbors s is_in_edges (positions (near_end is_in_edges) vid edges i)
      ≡ ok (far_ends is_in_edges vid edges)
unfolding Shard.neighbors positions far_ends
neighbors_lem s is_in_edges vid before [] i size split = refl
neighbors_lem s is_in_edges vid before (e ∷ edges) i size split =
    let rest =
      neighbors_lem s is_in_edges vid (before ++ e ∷ []) edges (i + 1)
        (omega (arith, length-snoc before e)) (split ∙ append_cons before e edges) in
    let here : get_elem? s.edge i ≡ some e = rw (split, size) (get_elem?_middle before e edges) in
    elim (Bool-cases (near_end is_in_edges e == vid)) [
      | inl hit ↦ rw hit (ground (arith, here, rest))
      | inr miss ↦ rw miss rest
    ]

-- The adjacency that the index of a valid shard holds.
pub vertex_adj_ids_lem :
    (s : Shard) (vid : ℕ) (is_in_edges : Bool)
    → Invariant.IsValid s
    → Shard.vertex_adj_ids s vid is_in_edges ≡ positions (near_end is_in_edges) vid s.edge 0
vertex_adj_ids_lem s vid true h = h.in_indexed vid
vertex_adj_ids_lem s vid false h = h.out_indexed vid

-- The adjacency query of a valid server finds exactly the edges with the vertex at the asked end, in
-- the order of their insertion: it appends their far ends, and global ids made of this shard's id
-- and of their positions.
pub get_vertex_adj_lem :
    (padding : ℕ → ℕ) (s : Server) (vid : ℕ) (is_in_edges : Bool) (out : Adjacency)
    → IsValid s
    → get_vertex_adj padding s vid is_in_edges out
      ≡ ok (
        0,
        record {
          neighbor_ids = out.neighbor_ids ++ far_ends is_in_edges vid s.shard.edge;
          eids =
              out.eids
              ++ global_eids padding s.shard.shard_id
                  (positions (near_end is_in_edges) vid s.shard.edge 0)
                  0;
        },
      )
unfolding get_vertex_adj
get_vertex_adj_lem padding s vid is_in_edges out h = rw (
  vertex_adj_ids_lem s.shard vid is_in_edges h.shard_valid,
  neighbors_lem s.shard is_in_edges vid [] s.shard.edge 0 refl refl,
)

get_elem?-cons :
    (x : ℕ) (xs : List ℕ) (k p : ℕ)
    → get_elem? (x ∷ xs) k ≡ some p
    → (x ≡ p) ⊎ ((j : ℕ) × (get_elem? xs j ≡ some p))
get_elem?-cons x xs zero p h = inl (cc)
get_elem?-cons x xs (suc j) p h = inr (j, h)

positions_below :
    (end : ℕ × ℕ → ℕ) (vid : ℕ) (edges : List (ℕ × ℕ)) (i k p : ℕ)
    → get_elem? (positions end vid edges i) k ≡ some p
    → p < i + length edges
unfolding positions
positions_below end vid [] i k p h = cc
positions_below end vid (e ∷ edges) i k p h = elim (Bool-cases (end e == vid)) [
  | inl hit ↦ elim (get_elem?-cons i (positions end vid edges (i + 1)) k p (rw hit at h)) [
    | inl first ↦ omega arith
    | inr (j, later) ↦ omega (arith, positions_below end vid edges (i + 1) j p later)
  ]
  | inr miss ↦ omega (arith, positions_below end vid edges (i + 1) k p (rw miss at h))
]

make_eid_resolves :
    (s : Server) (padding p : ℕ) (out : Row)
    → IsValid s
    → IsBlank out
    → s.shard.shard_id < 2 ^ 16
    → p < Shard.num_edges s.shard
    → (r : Row) × (get_elem? s.shard.edge_data p ≡ some r)
      × (get_edge s (make_eid padding s.shard.shard_id p) out ≡ ok (0, r))
make_eid_resolves s padding p out h blank small below =
    let (r, at_p) =
      get_elem?_in_bounds s.shard.edge_data p (omega (arith, h.shard_valid.edge_data_length)) in
    let few = h.shard_valid.few_edges in
    let parts = (split_eid-make_eid padding s.shard.shard_id p small (omega arith)).1 in
    (
      r,
      at_p,
      get_edge_lem s (make_eid padding s.shard.shard_id p) out h blank
          ∙ rw parts (rw (==_refl s.shard.shard_id, at_p)),
    )

get_elem?-global_eids :
    (padding : ℕ → ℕ) (shard_id : ℕ) (ids : List ℕ) (i k p : ℕ)
    → get_elem? ids k ≡ some p
    → (pad : ℕ) × (get_elem? (global_eids padding shard_id ids i) k
        ≡ some (make_eid pad shard_id p))
unfolding global_eids
get_elem?-global_eids padding shard_id [] i k p e = cc
get_elem?-global_eids padding shard_id (x ∷ ids) i zero p e =
    let same : x ≡ p = cc in (padding i, rw same)
get_elem?-global_eids padding shard_id (x ∷ ids) i (suc k) p e =
    get_elem?-global_eids padding shard_id ids (i + 1) k p e

-- The ids that the adjacency query of a valid server returns can be passed to `get_edge`: the k-th
-- one reads the data of the k-th of the edges at the vertex, whatever the padding of the ids, if the
-- shard's id fits 16 bits and the data is read into a row that holds no scalar other than 0.
pub get_vertex_adj_resolves :
    (padding : ℕ → ℕ) (s : Server) (vid : ℕ) (is_in_edges : Bool) (k p : ℕ) (out : Row)
    → IsValid s
    → IsBlank out
    → s.shard.shard_id < 2 ^ 16
    → get_elem? (positions (near_end is_in_edges) vid s.shard.edge 0) k ≡ some p
    → (a : Adjacency) × (eid : ℕ) × (r : Row) × (get_vertex_adj padding s vid is_in_edges
          (record { neighbor_ids = []; eids = [] })
        ≡ ok (0, a))
      × (get_elem? a.eids k ≡ some eid)
      × (get_elem? s.shard.edge_data p ≡ some r)
      × (get_edge s eid out ≡ ok (0, r))
get_vertex_adj_resolves padding s vid is_in_edges k p out h blank small e =
    let ids = positions (near_end is_in_edges) vid s.shard.edge 0 in
    let below = positions_below (near_end is_in_edges) vid s.shard.edge 0 k p e in
    let (pad, at_k) = get_elem?-global_eids padding s.shard.shard_id ids 0 k p e in
    let (r, at_p, found) = make_eid_resolves s pad p out h blank small (omega arith) in
    (
      record {
        neighbor_ids = far_ends is_in_edges vid s.shard.edge;
        eids = global_eids padding s.shard.shard_id ids 0;
      },
      make_eid pad s.shard.shard_id p,
      r,
      get_vertex_adj_lem padding s vid is_in_edges (record { neighbor_ids = []; eids = [] }) h,
      at_k,
      at_p,
      found,
    )
