-- ===== src/Server/Read.antt =====
-- The reads of the shard server, against the arrays of its shard.
use graphlabapi_graphlab.Prelude.{
  ℕ, zero, suc, ◌+◌, ◌≡◌, ◌≢◌, ◌≤◌, refl, true, false, Option, none, some, List, [], ◌∷◌, ◌++◌,
  length, get_elem?, get_elem?_in_bounds, ◌==◌, if◌then◌else◌, arith, Bool-cases, ==_iff, inl, inr,
  ◌⊎◌, dec_lt, get_elem?_out_of_bounds,
}
use mathlib.Core.Path.{subst}
use graphlabapi_graphlab.Prelude.Run.{Run, ok, fault}
use graphlabapi_graphlab.Eid.{split_eid, is_scalar_graph_datatype}
use graphlabapi_graphlab.Row.{Row, RowIsValid, IsBlank, assign_row_lem}
use graphlabapi_graphlab.Row.Overwrite.{assign_row_fault}
use graphlabapi_graphlab.Value.{Value, word}
use graphlabapi_graphlab.Shard
use graphlabapi_graphlab.Shard.{Shard}
use graphlabapi_graphlab.Shard.Spec.{index_of}
use graphlabapi_graphlab.Shard.Invariant.{AllRows, AllRows-get, with_vertex}
use graphlabapi_graphlab.Shard.Mirror
use graphlabapi_graphlab.Shard.Mirror.{Mirrored, Mirrored-self, Mirrored-trans}
use graphlabapi_graphlab.Server.Invariant.{IsValid, with_vertex-IsValid}
use graphlabapi_graphlab.Server.{Server, get_vertex, get_edge, einvid, add_vertex}
use graphlabapi_graphlab.Server.Add.{add_absent}

-- The row of a vertex, found by a scan of the two arrays.
unfoldable pub find_row : ℕ → List ℕ → List Row → Option Row
find_row vid [] rows = none
find_row vid (x ∷ xs) [] = none
find_row vid (x ∷ xs) (r ∷ rows) = if x == vid then some r else find_row vid xs rows

find_row-index_of :
    (vid : ℕ) (xs : List ℕ) (rows : List Row) (i : ℕ)
    → length rows ≡ length xs
    → ((index_of vid xs i ≡ none) × (find_row vid xs rows ≡ none))
      ⊎ ((k : ℕ) × (r : Row) × (index_of vid xs i ≡ some (i + k))
          × (find_row vid xs rows ≡ some r)
          × (get_elem? rows k ≡ some r))
unfolding find_row index_of
find_row-index_of vid [] rows i e = inl (refl, refl)
find_row-index_of vid (x ∷ xs) [] i e = absurd (omega arith)
find_row-index_of vid (x ∷ xs) (r ∷ rows) i e = elim (Bool-cases (x == vid)) [
  | inl same ↦ inr (zero, r, ground arith, ground arith, refl)
  | inr other ↦ elim (find_row-index_of vid xs rows (i + 1) (omega arith)) [
    | inl (a, b) ↦ inl (ground arith, ground arith)
    | inr (k, s, a, b, c) ↦ inr (suc k, s, ground arith, ground arith, c)
  ]
]

pub find_row-append :
    (v vid : ℕ) (xs : List ℕ) (rows : List Row) (row : Row)
    → length rows ≡ length xs
    → find_row v xs rows ≡ none ⊎ (vid ≢ v)
    → find_row v (xs ++ vid ∷ []) (rows ++ row ∷ [])
      ≡ (if vid == v then some row else find_row v xs rows)
unfolding find_row
find_row-append v vid [] [] row e h = refl
find_row-append v vid [] (r ∷ rows) row e h = absurd (omega arith)
find_row-append v vid (x ∷ xs) [] row e h = absurd (omega arith)
find_row-append v vid (x ∷ xs) (r ∷ rows) row e h =
    ground (arith, find_row-append v vid xs rows row (omega arith))

-- The answer of `get_vertex`: the row if there is one, and otherwise EINVID with `out` untouched.
abbrev pub answer : Row → Option Row → Run (ℕ × Row)
answer out none = ok (einvid, out)
answer out (some r) = ok (0, r)

-- On a valid server `get_vertex` into a row that holds no scalar other than 0 answers by the scan of
-- the arrays.
pub get_vertex_lem :
    (s : Server) (vid : ℕ) (out : Row)
    → IsValid s
    → IsBlank out
    → get_vertex s vid out ≡ answer out (find_row vid s.shard.vertex s.shard.vertex_data)
unfolding get_vertex
get_vertex_lem s vid out h blank =
    elim (find_row-index_of vid s.shard.vertex s.shard.vertex_data 0 h.shard_valid.data_length) [
      | inl (a, b) ↦ ground (arith, h.shard_valid.vertices_indexed vid)
      | inr (k, r, a, b, c) ↦
          let found : s.shard.vertex_index.index_map vid ≡ some k =
            ground (arith, h.shard_valid.vertices_indexed vid) in
          ground (
            arith,
            found,
            Mirror.vertex_data_by_id_lem s.shard h.shard_valid vid k found,
            assign_row_lem out r blank
                (AllRows-get s.shard.vertex_data k r h.shard_valid.vertex_rows c),
          )
    ]

-- On a valid server, `get_vertex` of a vertex whose row has text at a position where `out` holds a
-- scalar other than 0 is undefined behaviour, if `out` is not shorter than the row: the assignment
-- hands the scalar to realloc.
pub get_vertex_over_scalar :
    (s : Server) (vid k w : ℕ) (row out : Row) (this other : Value)
    → IsValid s
    → find_row vid s.shard.vertex s.shard.vertex_data ≡ some row
    → length row.cells ≤ length out.cells
    → get_elem? out.cells k ≡ some this
    → get_elem? row.cells k ≡ some other
    → is_scalar_graph_datatype other.type ≡ false
    → this.payload ≡ word w
    → w ≢ 0
    → get_vertex s vid out ≡ fault
unfolding get_vertex
get_vertex_over_scalar s vid k w row out this other h there room a b text held ne =
    elim (find_row-index_of vid s.shard.vertex s.shard.vertex_data 0 h.shard_valid.data_length) [
      | inl (_, missing) ↦ absurd (ground (arith, there, missing))
      | inr (i, r, at, there', c) ↦
          let found : s.shard.vertex_index.index_map vid ≡ some i =
            ground (arith, h.shard_valid.vertices_indexed vid) in
          let same : r ≡ row = cc in
          let valid = AllRows-get s.shard.vertex_data i r h.shard_valid.vertex_rows c in
          let broken =
            assign_row_fault out row k w this other (subst RowIsValid same valid) a b text held
              ne in
          ground (
            arith,
            found,
            same,
            Mirror.vertex_data_by_id_lem s.shard h.shard_valid vid i found,
            broken,
          )
    ]

pub find_row_absent :
    (s : Server) (vid : ℕ)
    → IsValid s
    → Shard.has_vertex s.shard vid ≡ false
    → find_row vid s.shard.vertex s.shard.vertex_data ≡ none
find_row_absent s vid h absent =
    elim (find_row-index_of vid s.shard.vertex s.shard.vertex_data 0 h.shard_valid.data_length) [
      | inl (a, b) ↦ b
      | inr (k, r, a, b, c) ↦ absurd (ground (arith, h.shard_valid.vertices_indexed vid))
    ]

-- A valid vertex row that is added under a new id is read back into a row that holds no scalar other
-- than 0; every other read is as before.
pub get_vertex-add_vertex :
    (s t : Server) (vid v : ℕ) (row out : Row)
    → IsValid s
    → RowIsValid row
    → IsBlank out
    → Shard.has_vertex s.shard vid ≡ false
    → row.is_vertex ≡ true
    → add_vertex s vid row ≡ ok (0, t)
    → get_vertex t v out ≡ (if vid == v then ok (0, row) else get_vertex s v out)
get_vertex-add_vertex s t vid v row out h k blank absent kind added =
    let u : Server = record s { shard = with_vertex s.shard vid row } in
    let valid : IsValid u = with_vertex-IsValid s vid row h k absent in
    let same : t ≡ u = ground (arith, add_absent s vid row k absent) in
    let fresh : (find_row v s.shard.vertex s.shard.vertex_data ≡ none) ⊎ (vid ≢ v) =
      elim (Bool-cases (vid == v)) [
        | inl hit ↦ inl (rw (← (==_iff vid v).0 hit) (find_row_absent s vid h absent))
        | inr miss ↦ inr (ground arith)
      ] in
    ground (
      arith,
      same,
      get_vertex_lem u v out valid blank,
      get_vertex_lem s v out h blank,
      find_row-append v vid s.shard.vertex s.shard.vertex_data row h.shard_valid.data_length fresh,
    )

-- `get_edge` answers by the array of edge data, within its bounds and for this shard's ids only.
pub get_edge_lem :
    (s : Server) (eid : ℕ) (out : Row)
    → IsValid s
    → IsBlank out
    → get_edge s eid out ≡ (
        if (split_eid eid).0 == s.shard.shard_id
        then answer out (get_elem? s.shard.edge_data (split_eid eid).1)
        else ok (einvid, out))
unfolding get_edge
get_edge_lem s eid out h blank =
    let leid = (split_eid eid).1 in
    elim (dec_lt leid (Shard.num_edges s.shard)) [
      | yes below ↦
          let (r, at_leid) =
            get_elem?_in_bounds s.shard.edge_data leid
              (omega (arith, h.shard_valid.edge_data_length)) in
          ground (
            arith,
            at_leid,
            assign_row_lem out r blank
                (AllRows-get s.shard.edge_data leid r h.shard_valid.edge_rows at_leid),
          )
      | no above ↦ ground (
        arith,
        get_elem?_out_of_bounds s.shard.edge_data leid
            (omega (arith, h.shard_valid.edge_data_length)),
      )
    ]

-- What the scan finds on a valid server is a valid row.
pub find_row-RowIsValid :
    (vid : ℕ) (xs : List ℕ) (rows : List Row) (r : Row)
    → AllRows rows
    → find_row vid xs rows ≡ some r
    → RowIsValid r
unfolding find_row
find_row-RowIsValid vid [] rows r h e = cc
find_row-RowIsValid vid (x ∷ xs) [] r h e = cc
find_row-RowIsValid vid (x ∷ xs) (y ∷ rows) r h e = elim (Bool-cases (x == vid)) [
  | inl hit ↦
      let found : some y ≡ some r = rw hit at e in
      let same : y ≡ r = cc in subst RowIsValid same h.0
  | inr miss ↦ find_row-RowIsValid vid xs rows r h.1 (rw miss at e)
]

-- The scan and the index agree.
pub missing_row :
    (s : Server) (vid : ℕ)
    → IsValid s
    → s.shard.vertex_index.index_map vid ≡ none
    → find_row vid s.shard.vertex s.shard.vertex_data ≡ none
missing_row s vid h missing = find_row_absent s vid h (ground arith)

pub found_row :
    (s : Server) (vid i : ℕ)
    → IsValid s
    → s.shard.vertex_index.index_map vid ≡ some i
    → (r : Row) × (get_elem? s.shard.vertex_data i ≡ some r)
      × (find_row vid s.shard.vertex s.shard.vertex_data ≡ some r)
found_row s vid i h found =
    elim (find_row-index_of vid s.shard.vertex s.shard.vertex_data 0 h.shard_valid.data_length) [
      | inl (a, b) ↦ absurd (ground (arith, h.shard_valid.vertices_indexed vid))
      | inr (k, r, a, b, c) ↦
          let same : k ≡ i = ground (arith, h.shard_valid.vertices_indexed vid) in
          (r, rw (← same) c, b)
    ]
