-- ===== src/Server/WriteEdge.antt =====
-- `set_edge` of the shard server, and the bound that it does not check.
use graphlabapi_graphlab.Prelude.{
  ℕ, zero, suc, ◌<◌, ◌≤◌, ◌≡◌, ◌≢◌, ◌∙◌, true, some, List, [], ◌∷◌, length, get_elem?, set, ◌==◌,
  if◌then◌else◌, arith, Bool-cases, ==_refl, inl, inr, ◌&&◌, dec_lt, get_elem?_out_of_bounds,
}
use graphlabapi_graphlab.Prelude.Run.{ok, fault}
use graphlabapi_graphlab.Eid.{split_eid}
use graphlabapi_graphlab.Row.{Row, RowIsValid, IsBlank, is_edge}
use graphlabapi_graphlab.Shard
use graphlabapi_graphlab.Shard.{Shard}
use graphlabapi_graphlab.Server.Invariant.{IsValid, AllEdges, with_edge_data-IsValid}
use graphlabapi_graphlab.Server.{Server, set_edge, with_edge_data, einvid, get_edge}
use graphlabapi_graphlab.Server.Read.{get_edge_lem}
use graphlabapi_graphlab.Shard.Invariant.{AllRows-get}
use graphlabapi_graphlab.Server.Write.{
  set_code, set_result, set_data_helper_lem, set_result-RowIsValid,
}

get_elem?-set :
    (rows : List Row) (i j : ℕ) (row : Row)
    → i < length rows
    → get_elem? (set rows i row) j ≡ (if i == j then some row else get_elem? rows j)
get_elem?-set [] i j row h = elim h [ ]
get_elem?-set (x ∷ rows) zero zero row h = ground arith
get_elem?-set (x ∷ rows) zero (suc j) row h = ground arith
get_elem?-set (x ∷ rows) (suc i) zero row h = ground arith
get_elem?-set (x ∷ rows) (suc i) (suc j) row h =
    ground (arith, get_elem?-set rows i j row (omega arith))

AllEdges-get :
    (rows : List Row) (i : ℕ) (r : Row)
    → AllEdges rows
    → get_elem? rows i ≡ some r
    → is_edge r ≡ true
AllEdges-get [] i r h e = cc
AllEdges-get (x ∷ rows) zero r h e = let same : x ≡ r = cc in rw (← same) h.0
AllEdges-get (x ∷ rows) (suc i) r h e = AllEdges-get rows i r h.1 e

set_result-edge : (old row : Row) → is_edge (set_result old row) ≡ is_edge old
set_result-edge old row = elim (Bool-cases (set_code old row == 0)) [
  | inl all ↦ rw all
  | inr kept ↦ rw kept
]

get_edge-with_edge_data :
    (s : Server) (leid other : ℕ) (row out : Row)
    → IsValid s
    → IsValid (with_edge_data s leid row)
    → IsBlank out
    → leid < length s.shard.edge_data
    → get_edge (with_edge_data s leid row) other out ≡ (
        if (split_eid other).0 == s.shard.shard_id && leid == (split_eid other).1
        then ok (0, row)
        else get_edge s other out)
get_edge-with_edge_data s leid other row out h k blank below =
    rw
      (get_edge_lem (with_edge_data s leid row) other out k blank, get_edge_lem s other out h blank)
      (ground (arith, get_elem?-set s.shard.edge_data leid (split_eid other).1 row below))

-- On a valid server `set_edge` of an edge that this shard has returns EINVID for a row of another
-- size, EINVTYPE for one of other types, and 0 if the row is stored. It keeps the invariant, and a
-- later `get_edge` into a row that holds no scalar other than 0 reads the row that it left there, and
-- every other edge as before.
pub set_edge_lem :
    (s : Server) (eid other : ℕ) (old row out : Row)
    → IsValid s
    → RowIsValid row
    → IsBlank out
    → (split_eid eid).0 ≡ s.shard.shard_id
    → get_elem? s.shard.edge_data (split_eid eid).1 ≡ some old
    → (t : Server) × (set_edge s eid row ≡ ok (set_code old row, t))
      × IsValid t
      × (get_edge t other out ≡ (
          if (split_eid other).0 == s.shard.shard_id && (split_eid eid).1 == (split_eid other).1
          then ok (0, set_result old row)
          else get_edge s other out))
unfolding set_edge
set_edge_lem s eid other old row out h k blank own at_leid =
    let leid = (split_eid eid).1 in
    let old_valid = AllRows-get s.shard.edge_data leid old h.shard_valid.edge_rows at_leid in
    let result = set_result old row in
    let result_valid = set_result-RowIsValid old row old_valid k in
    let marked =
      set_result-edge old row ∙ AllEdges-get s.shard.edge_data leid old h.edges_marked at_leid in
    let below : leid < length s.shard.edge_data = elim (dec_lt leid (length s.shard.edge_data)) [
      | yes below ↦ below
      | no above ↦
          let missing = get_elem?_out_of_bounds s.shard.edge_data leid (omega arith) in
          absurd (ground arith)
    ] in
    let t_valid = with_edge_data-IsValid s leid result h result_valid marked in
    (
      with_edge_data s leid result,
      rw (own, ==_refl s.shard.shard_id, at_leid, set_data_helper_lem old row old_valid k),
      t_valid,
      get_edge-with_edge_data s leid other result out h t_valid blank below,
    )

pub set_edge_foreign :
    (s : Server) (eid : ℕ) (row : Row)
    → (split_eid eid).0 ≢ s.shard.shard_id
    → set_edge s eid row ≡ ok (einvid, s)
unfolding set_edge
set_edge_foreign s eid row ne = ground arith

-- An edge id of this shard whose local part is past the last edge: `get_edge` returns EINVID, but
-- `set_edge` writes through a pointer behind the array, which is undefined behaviour.
pub set_edge_unchecked :
    (s : Server) (eid : ℕ) (row out : Row)
    → IsValid s
    → (split_eid eid).0 ≡ s.shard.shard_id
    → Shard.num_edges s.shard ≤ (split_eid eid).1
    → (set_edge s eid row ≡ fault) × (get_edge s eid out ≡ ok (einvid, out))
unfolding set_edge get_edge
set_edge_unchecked s eid row out h own past =
    let missing =
      get_elem?_out_of_bounds s.shard.edge_data (split_eid eid).1
        (omega (arith, h.shard_valid.edge_data_length)) in
    (rw (own, ==_refl s.shard.shard_id, missing), ground (arith, own, past))
