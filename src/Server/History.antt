-- ===== src/Server/History.antt =====
-- A shard server over its life: the states that its methods reach from a new one.
use graphlabapi_graphlab.Prelude.{
  ℕ, ◌<◌, ◌≡◌, ◌^◌, true, none, List, get_elem?, arith, subst, Option-cases, inl, inr, ◌==◌,
  Bool-cases, ==_iff,
}
use graphlabapi_graphlab.Prelude.Run.{ok, fault}
use graphlabapi_graphlab.Eid.{split_eid}
use graphlabapi_graphlab.Row.{Row, Field, RowIsValid, empty_row}
use graphlabapi_graphlab.Shard
use graphlabapi_graphlab.Shard.Invariant
use graphlabapi_graphlab.Server.{
  Server, new, clear, add_vertex, add_edge, add_vertex_mirror, set_vertex, set_edge,
  add_vertex_field, add_edge_field,
}
use graphlabapi_graphlab.Server.Invariant.{IsValid}
use graphlabapi_graphlab.Server.Add.{add_vertex_lem, add_edge_lem}
use graphlabapi_graphlab.Server.Write.{set_vertex_lem}
use graphlabapi_graphlab.Server.WriteEdge.{set_edge_lem, set_edge_foreign}
use graphlabapi_graphlab.Server.Mirrors.{add_vertex_mirror_lem}
use graphlabapi_graphlab.Server.Schema.{add_vertex_field_lem, add_edge_field_lem, has_values}

-- The servers that calls of the methods lead to, whatever codes these return. A row comes from the
-- value methods, so it is valid; a shard takes at most 2^32 edges.
pub data Reachable : Server → Type 0 where
  started :
      (id : ℕ) (vertex_fields edge_fields : List Field)
      → Reachable (new id vertex_fields edge_fields)
  cleared : (s : Server) → Reachable s → Reachable (clear s)
  vertex_added :
      (s t : Server) (vid err : ℕ) (row : Row)
      → Reachable s
      → RowIsValid row
      → add_vertex s vid row ≡ ok (err, t)
      → Reachable t
  edge_added :
      (s t : Server) (source target err : ℕ) (row : Row)
      → Reachable s
      → RowIsValid row
      → Shard.num_edges s.shard < 2 ^ 32
      → add_edge s source target row ≡ ok (err, t)
      → Reachable t
  mirrors_added :
      (s t : Server) (vid err : ℕ) (mirrors : List ℕ)
      → Reachable s
      → add_vertex_mirror s vid mirrors ≡ ok (err, t)
      → Reachable t
  vertex_set :
      (s t : Server) (vid err : ℕ) (row : Row)
      → Reachable s
      → RowIsValid row
      → set_vertex s vid row ≡ ok (err, t)
      → Reachable t
  edge_set :
      (s t : Server) (eid err : ℕ) (row : Row)
      → Reachable s
      → RowIsValid row
      → set_edge s eid row ≡ ok (err, t)
      → Reachable t
  vertex_field_added :
      (s t : Server) (err : ℕ) (field : Field)
      → Reachable s
      → has_values field.type ≡ true
      → add_vertex_field s field ≡ ok (err, t)
      → Reachable t
  edge_field_added :
      (s t : Server) (err : ℕ) (field : Field)
      → Reachable s
      → has_values field.type ≡ true
      → add_edge_field s field ≡ ok (err, t)
      → Reachable t

pub new-IsValid :
    (id : ℕ) (vertex_fields edge_fields : List Field) → IsValid (new id vertex_fields edge_fields)
unfolding new Shard.new
new-IsValid id vertex_fields edge_fields = record {
  shard_valid = Invariant.new-IsValid id;
  distinct = λ i v e. cc;
  edges_marked = tt;
}

clear-IsValid : (s : Server) → IsValid (clear s)
unfolding clear Shard.clear Shard.new
clear-IsValid s = record {
  shard_valid = Invariant.new-IsValid s.shard.shard_id;
  distinct = λ i v e. cc;
  edges_marked = tt;
}

-- `set_edge` of an edge that is not there does not return.
set_edge_missing :
    (s : Server) (eid : ℕ) (row : Row)
    → (split_eid eid).0 ≡ s.shard.shard_id
    → get_elem? s.shard.edge_data (split_eid eid).1 ≡ none
    → set_edge s eid row ≡ fault
unfolding set_edge
set_edge_missing s eid row own missing = ground arith

set_edge-IsValid :
    (s t : Server) (eid err : ℕ) (row : Row)
    → IsValid s
    → RowIsValid row
    → set_edge s eid row ≡ ok (err, t)
    → IsValid t
set_edge-IsValid s t eid err row h k e = elim (Bool-cases ((split_eid eid).0 == s.shard.shard_id)) [
  | inr foreign ↦
      let kept = set_edge_foreign s eid row (ground arith) in
      let same : s ≡ t = cc in subst IsValid same h
  | inl own ↦ elim (Option-cases (get_elem? s.shard.edge_data (split_eid eid).1)) [
    | inl missing ↦
        let stuck = set_edge_missing s eid row ((==_iff _ _).0 own) missing in absurd (cc)
    | inr (old, at_leid) ↦
        let (u, made, valid, _) =
          set_edge_lem s eid eid old row empty_row h k tt ((==_iff _ _).0 own) at_leid in
        let same : u ≡ t = cc in subst IsValid same valid
  ]
]

-- Every server that is reached by calls with valid rows, with fields of types that have values and
-- within 2^32 edges is valid: its indexes describe its arrays, no vertex id stands twice, the edge
-- rows are marked as such, all values are well-formed, and its null values hold nothing.
pub Reachable-IsValid : (s : Server) → Reachable s → IsValid s
Reachable-IsValid s (started id vertex_fields edge_fields) =
    new-IsValid id vertex_fields edge_fields
Reachable-IsValid t (cleared s r) = clear-IsValid s
Reachable-IsValid t (vertex_added s _ vid err row r k e) =
    let (_, u, made, _, valid) = add_vertex_lem s vid row (Reachable-IsValid s r) k in
    let same : u ≡ t = cc in subst IsValid same valid
Reachable-IsValid t (edge_added s _ source target err row r k small e) =
    let (_, u, made, valid, _, _) =
      add_edge_lem s source target row (Reachable-IsValid s r) k small in
    let same : u ≡ t = cc in subst IsValid same valid
Reachable-IsValid t (mirrors_added s _ vid err mirrors r e) =
    let (u, made, valid, _, _) = add_vertex_mirror_lem s vid mirrors (Reachable-IsValid s r) in
    let same : u ≡ t = cc in subst IsValid same valid
Reachable-IsValid t (vertex_set s _ vid err row r k e) =
    let (u, made, valid, _) = set_vertex_lem s vid vid row empty_row (Reachable-IsValid s r) k tt in
    let same : u ≡ t = cc in subst IsValid same valid
Reachable-IsValid t (edge_set s _ eid err row r k e) =
    set_edge-IsValid s t eid err row (Reachable-IsValid s r) k e
Reachable-IsValid t (vertex_field_added s _ err field r k e) =
    let (u, made, _, valid) = add_vertex_field_lem s field (Reachable-IsValid s r) k in
    let same : u ≡ t = cc in subst IsValid same valid
Reachable-IsValid t (edge_field_added s _ err field r k e) =
    let (u, made, _, valid) = add_edge_field_lem s field (Reachable-IsValid s r) k in
    let same : u ≡ t = cc in subst IsValid same valid
