-- ===== src/Shard/Mirror.antt =====
-- src/graphlab/database/graph_shard_impl.cpp: lookup by vertex id, and the mirrors of a vertex.
use graphlabapi_graphlab.Prelude.{
  ℕ, ◌<◌, ◌≡◌, ◌≢◌, refl, sym, ◌∙◌, true, some, List, [], ◌∷◌, ◌++◌, length, length-set, get_elem?,
  get_elem?_in_bounds, get_elem?-set_self, set, lt→ltb, ◌==◌, ==_refl, arith, Bool-cases, ==_iff,
  inl, inr, Option-cases,
}
use graphlabapi_graphlab.Prelude.Run.{ok}
use graphlabapi_graphlab.Shard.Spec.{index_of_sound}
use graphlabapi_graphlab.Shard.Invariant.{IsValid}
use graphlabapi_graphlab.Shard.{
  Shard, add_vertex_mirror, mirrors_by_id, has_vertex, num_vertices, vertex_data_by_id, contains,
  insert,
}

contains-snoc : (xs : List ℕ) (a : ℕ) → contains (xs ++ a ∷ []) a ≡ true
contains-snoc [] a = rw (==_refl a)
contains-snoc (x ∷ xs) a = ground (arith, contains-snoc xs a)

contains-snoc_ne : (xs : List ℕ) (a b : ℕ) → contains xs b ≡ true → contains (xs ++ a ∷ []) b ≡ true
contains-snoc_ne [] a b h = cc
contains-snoc_ne (x ∷ xs) a b h = ground (arith, contains-snoc_ne xs a b)

-- A set holds what was inserted and what it held.
pub contains-insert :
    (xs : List ℕ) (a b : ℕ)
    → (contains (insert xs a) a ≡ true) × (contains xs b ≡ true → contains (insert xs a) b ≡ true)
unfolding insert
contains-insert xs a b = elim (Bool-cases (contains xs a)) [
  | inl old ↦ rw old (old, λ h. h)
  | inr new ↦ rw new (contains-snoc xs a, contains-snoc_ne xs a b)
]

-- The valid shard `t` differs from `s` in the mirrors of its vertices at most.
pub record Mirrored (s t : Shard) : Type 0 where
  pub valid : IsValid t
  pub same_id : t.shard_id ≡ s.shard_id
  pub same_vertex : t.vertex ≡ s.vertex
  pub same_vertex_data : t.vertex_data ≡ s.vertex_data
  pub same_edge : t.edge ≡ s.edge
  pub same_edge_data : t.edge_data ≡ s.edge_data
  pub same_vertex_index : t.vertex_index ≡ s.vertex_index
  pub same_edge_index : t.edge_index ≡ s.edge_index

module _ (s : Shard) (h : IsValid s) (vid pos : ℕ)
    (found : s.vertex_index.index_map vid ≡ some pos) where
  -- A vertex that the index knows is at the position that the index gives.
  pub indexed_position : (pos < num_vertices s) × (get_elem? s.vertex pos ≡ some vid)
  indexed_position =
      let (k, e, below, at_k) =
        index_of_sound vid s.vertex 0 pos (sym (h.vertices_indexed vid) ∙ found) in
      ground arith

  pub vertex_data_by_id_lem : vertex_data_by_id s vid ≡ ok (some pos)
  unfolding vertex_data_by_id
  vertex_data_by_id_lem = ground (arith, lt→ltb pos (num_vertices s) indexed_position.0)

  mirrors_at : (old : List ℕ) × (get_elem? s.vertex_mirrors pos ≡ some old)
  mirrors_at =
      get_elem?_in_bounds s.vertex_mirrors pos (omega (arith, indexed_position.0, h.mirrors_length))

  abbrev pub with_mirrors : List ℕ → Shard
  with_mirrors mirrors = record s { vertex_mirrors = set s.vertex_mirrors pos mirrors }

  pub with_mirrors-IsValid : (mirrors : List ℕ) → IsValid (with_mirrors mirrors)
  with_mirrors-IsValid mirrors = record {
    data_length = h.data_length;
    mirrors_length = length-set s.vertex_mirrors pos mirrors ∙ h.mirrors_length;
    edge_data_length = h.edge_data_length;
    vertex_rows = h.vertex_rows;
    edge_rows = h.edge_rows;
    few_edges = h.few_edges;
    vertices_indexed = h.vertices_indexed;
    in_indexed = h.in_indexed;
    out_indexed = h.out_indexed;
  }

  pub with_mirrors-Mirrored : (mirrors : List ℕ) → Mirrored s (with_mirrors mirrors)
  with_mirrors-Mirrored mirrors = record {
    valid = with_mirrors-IsValid mirrors;
    same_id = refl;
    same_vertex = refl;
    same_vertex_data = refl;
    same_edge = refl;
    same_edge_data = refl;
    same_vertex_index = refl;
    same_edge_index = refl;
  }

  -- A mirror other than the shard itself is inserted into the set of the vertex.
  pub add_vertex_mirror_other :
      (mirror_id : ℕ)
      → mirror_id ≢ s.shard_id
      → (old : List ℕ) × (mirrors_by_id s vid ≡ ok old)
        × (add_vertex_mirror s vid mirror_id ≡ ok (with_mirrors (insert old mirror_id)))
        × (mirrors_by_id (with_mirrors (insert old mirror_id)) vid ≡ ok (insert old mirror_id))
  unfolding mirrors_by_id add_vertex_mirror
  add_vertex_mirror_other mirror_id ne =
      let (old, at_pos) = mirrors_at in
      let below : pos < length s.vertex_mirrors =
        omega (arith, indexed_position.0, h.mirrors_length) in
      (
        old,
        ground arith,
        ground arith,
        ground (arith, get_elem?-set_self s.vertex_mirrors pos (insert old mirror_id) below),
      )

pub Mirrored-self : (s : Shard) → IsValid s → Mirrored s s
Mirrored-self s h = record {
  valid = h;
  same_id = refl;
  same_vertex = refl;
  same_vertex_data = refl;
  same_edge = refl;
  same_edge_data = refl;
  same_vertex_index = refl;
  same_edge_index = refl;
}

pub Mirrored-trans : {s t u : Shard} → Mirrored s t → Mirrored t u → Mirrored s u
Mirrored-trans h k = record {
  valid = k.valid;
  same_id = k.same_id ∙ h.same_id;
  same_vertex = k.same_vertex ∙ h.same_vertex;
  same_vertex_data = k.same_vertex_data ∙ h.same_vertex_data;
  same_edge = k.same_edge ∙ h.same_edge;
  same_edge_data = k.same_edge_data ∙ h.same_edge_data;
  same_vertex_index = k.same_vertex_index ∙ h.same_vertex_index;
  same_edge_index = k.same_edge_index ∙ h.same_edge_index;
}

own_mirror :
    (s : Shard) (vid mirror_id : ℕ)
    → mirror_id ≡ s.shard_id
    → add_vertex_mirror s vid mirror_id ≡ ok s
unfolding add_vertex_mirror
own_mirror s vid mirror_id e = ground arith

has_vertex-index :
    (s : Shard) (vid : ℕ)
    → has_vertex s vid ≡ true
    → (pos : ℕ) × (s.vertex_index.index_map vid ≡ some pos)
has_vertex-index s vid h = elim (Option-cases (s.vertex_index.index_map vid)) [
  | inl missing ↦ absurd (ground arith)
  | inr found ↦ found
]

-- Recording any mirror of a vertex that the shard has does not fail, and changes mirrors alone.
pub add_vertex_mirror_lem :
    (s : Shard) (vid mirror_id : ℕ)
    → IsValid s
    → has_vertex s vid ≡ true
    → (t : Shard) × (add_vertex_mirror s vid mirror_id ≡ ok t) × Mirrored s t
add_vertex_mirror_lem s vid mirror_id h has = elim (Bool-cases (mirror_id == s.shard_id)) [
  | inl own ↦ (s, own_mirror s vid mirror_id ((==_iff _ _).0 own), Mirrored-self s h)
  | inr other ↦
      let (pos, found) = has_vertex-index s vid has in
      let (old, _, done, _) = add_vertex_mirror_other s h vid pos found mirror_id (ground arith) in
      (
        with_mirrors s h vid pos found (insert old mirror_id),
        done,
        with_mirrors-Mirrored s h vid pos found (insert old mirror_id),
      )
]
