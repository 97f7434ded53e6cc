-- ===== src/Server/Mirrors.antt =====
-- `add_vertex_mirror` of the shard server.
use graphlabapi_graphlab.Prelude.{
  ℕ, ◌≡◌, refl, sym, true, List, [], ◌∷◌, if◌then◌else◌, arith, Bool-cases, inl, inr,
}
use mathlib.Core.Path.{subst}
use graphlabapi_graphlab.Prelude.Run.{ok}
use graphlabapi_graphlab.Row.{Row, empty_row}
use graphlabapi_graphlab.Shard
use graphlabapi_graphlab.Shard.{Shard}
use graphlabapi_graphlab.Shard.Invariant
use graphlabapi_graphlab.Shard.Invariant.{AllRows, with_vertex, with_edge}
use graphlabapi_graphlab.Shard.Mirror
use graphlabapi_graphlab.Shard.Mirror.{Mirrored, Mirrored-self, Mirrored-trans}
use graphlabapi_graphlab.Server.Invariant.{IsValid, with_vertex-IsValid}
use graphlabapi_graphlab.Server.{Server, add_vertex_mirror, add_mirrors}

add_mirrors_lem :
    (shard : Shard) (vid : ℕ) (mirrors : List ℕ)
    → Invariant.IsValid shard
    → Shard.has_vertex shard vid ≡ true
    → (t : Shard) × (add_mirrors shard vid mirrors ≡ ok t) × Mirrored shard t
unfolding add_mirrors
add_mirrors_lem shard vid [] h has = (shard, refl, Mirrored-self shard h)
add_mirrors_lem shard vid (m ∷ mirrors) h has =
    let (next, done, kept) = Mirror.add_vertex_mirror_lem shard vid m h has in
    let (t, rest, kept') =
      add_mirrors_lem next vid mirrors kept.valid
        (subst (λ x. Shard.Index.has_vertex x vid ≡ true) (sym kept.same_vertex_index) has) in
    (t, rw done rest, Mirrored-trans kept kept')

Mirrored-IsValid :
    (s : Server) (t : Shard) → IsValid s → Mirrored s.shard t → IsValid (record s { shard = t })
Mirrored-IsValid s t h m = record {
  shard_valid = m.valid;
  distinct = rw m.same_vertex h.distinct;
  edges_marked = rw m.same_edge_data h.edges_marked;
}

has_vertex-with_vertex :
    (s : Shard) (vid : ℕ) (row : Row) → Shard.has_vertex (with_vertex s vid row) vid ≡ true
unfolding Shard.Index.add_vertex
has_vertex-with_vertex s vid row = ground arith

-- The server in which the mirrors are recorded: an unknown vertex is first added with an empty row.
abbrev pub with_known : Server → ℕ → Server
with_known s vid =
    if Shard.has_vertex s.shard vid
    then s
    else record s { shard = with_vertex s.shard vid empty_row }

with_known-IsValid :
    (s : Server) (vid : ℕ)
    → IsValid s
    → IsValid (with_known s vid) × (Shard.has_vertex (with_known s vid).shard vid ≡ true)
with_known-IsValid s vid h = elim (Bool-cases (Shard.has_vertex s.shard vid)) [
  | inl has ↦ rw has (h, has)
  | inr absent ↦ rw absent (
    with_vertex-IsValid s vid empty_row h tt absent,
    has_vertex-with_vertex s.shard vid empty_row,
  )
]

add_vertex_mirror_step :
    (s : Server) (vid : ℕ) (mirrors : List ℕ) (t : Shard)
    → add_mirrors (with_known s vid).shard vid mirrors ≡ ok t
    → add_vertex_mirror s vid mirrors ≡ ok (0, record (with_known s vid) { shard = t })
unfolding add_vertex_mirror
add_vertex_mirror_step s vid mirrors t done = elim (Bool-cases (Shard.has_vertex s.shard vid)) [
  | inl has ↦ ground arith
  | inr absent ↦ ground (arith, Invariant.add_vertex_lem s.shard vid empty_row tt)
]

-- `add_vertex_mirror` always returns 0 and keeps the invariant. Afterwards the vertex is there; but
-- for the vertex that is added with an empty row if it was not, only mirrors change.
pub add_vertex_mirror_lem :
    (s : Server) (vid : ℕ) (mirrors : List ℕ)
    → IsValid s
    → (t : Server) × (add_vertex_mirror s vid mirrors ≡ ok (0, t))
      × IsValid t
      × (Shard.has_vertex t.shard vid ≡ true)
      × Mirrored (with_known s vid).shard t.shard
add_vertex_mirror_lem s vid mirrors h =
    let (valid, has) = with_known-IsValid s vid h in
    let (shard, done, kept) =
      add_mirrors_lem (with_known s vid).shard vid mirrors valid.shard_valid has in
    (
      record (with_known s vid) { shard = shard },
      add_vertex_mirror_step s vid mirrors shard done,
      Mirrored-IsValid (with_known s vid) shard valid kept,
      subst (λ x. Shard.Index.has_vertex x vid ≡ true) (sym kept.same_vertex_index) has,
      kept,
    )
