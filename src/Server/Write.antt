-- ===== src/Server/Write.antt =====
-- `set_data_helper` and `set_vertex` of the shard server.
use graphlabapi_graphlab.Prelude.{
  ℕ, zero, suc, ◌+◌, ◌≡◌, refl, sym, ap, ◌∙◌, true, false, Option, none, some, List, [], ◌∷◌,
  length, get_elem?, set, ◌==◌, if◌then◌else◌, arith, Bool-cases, Option-cases, ==_iff, inl, inr,
}
use graphlabapi_graphlab.Prelude.Run.{ok}
use graphlabapi_graphlab.Row.{Row, RowIsValid, IsBlank, num_fields}
use graphlabapi_graphlab.Shard.Invariant.{AllRows-get}
use graphlabapi_graphlab.Shard
use graphlabapi_graphlab.Shard.{Shard}
use graphlabapi_graphlab.Shard.Spec.{index_of, index_of_sound}
use graphlabapi_graphlab.Shard.Mirror
use graphlabapi_graphlab.Shard.Mirror.{Mirrored, Mirrored-self, Mirrored-trans}
use graphlabapi_graphlab.Server.Invariant.{IsValid, with_vertex_data-IsValid}
use graphlabapi_graphlab.Value.{Value, same_type}
use graphlabapi_graphlab.Value.Transfer.{assign_lem}
use graphlabapi_graphlab.Value.SetVal.{same_type-eq}
use graphlabapi_graphlab.Row.{AllValid}
use graphlabapi_graphlab.Server.{
  Server, set_data_helper, types_agree, assign_cells, set_vertex, with_vertex_data, einvid,
  einvtype, get_vertex,
}
use graphlabapi_graphlab.Server.Read.{find_row, get_vertex_lem, answer, missing_row, found_row}

assign_cells_lem :
    (old data_cells : List Value)
    → AllValid old
    → AllValid data_cells
    → length old ≡ length data_cells
    → types_agree old data_cells ≡ true
    → assign_cells old data_cells ≡ ok data_cells
unfolding assign_cells types_agree
assign_cells_lem [] [] h k e t = refl
assign_cells_lem [] (w ∷ cells) h k e t = absurd (omega arith)
assign_cells_lem (v ∷ old) [] h k e t = absurd (omega arith)
assign_cells_lem (v ∷ old) (w ∷ cells) h k e t = elim (Bool-cases (same_type v.type w.type)) [
  | inl same ↦
      let head = assign_lem v w h.0.0 k.0.0 (same_type-eq v.type w.type same) in
      let rest = assign_cells_lem old cells h.1 k.1 (omega arith) (rw same at t) in rw (head, rest)
  | inr other ↦ let no_way : false ≡ true = rw other at t in cc
]

-- The error code of `set_data_helper`: the number of fields is checked first, then the types.
abbrev pub set_code : Row → Row → ℕ
set_code old row =
    if num_fields old == num_fields row
    then if types_agree old.cells row.cells then 0 else einvtype
    else einvid

-- The row that it leaves: all of the new values, or none of them.
abbrev pub set_result : Row → Row → Row
set_result old row = if set_code old row == 0 then record old { cells = row.cells } else old

pub set_data_helper_lem :
    (old row : Row)
    → RowIsValid old
    → RowIsValid row
    → set_data_helper old row ≡ ok (set_code old row, set_result old row)
unfolding set_data_helper
set_data_helper_lem old row h k = elim (Bool-cases (num_fields old == num_fields row)) [
  | inl same ↦ ground (arith, assign_cells_lem old.cells row.cells h k ((==_iff _ _).0 same))
  | inr other ↦ rw other
]

pub set_result-RowIsValid :
    (old row : Row) → RowIsValid old → RowIsValid row → RowIsValid (set_result old row)
set_result-RowIsValid old row h k = elim (Bool-cases (set_code old row == 0)) [
  | inl all ↦ rw all k
  | inr kept ↦ rw kept h
]

find_row-set :
    (v vid : ℕ) (xs : List ℕ) (rows : List Row) (row : Row) (j i : ℕ)
    → index_of vid xs j ≡ some (j + i)
    → length rows ≡ length xs
    → find_row v xs (set rows i row) ≡ (if vid == v then some row else find_row v xs rows)
unfolding find_row index_of
find_row-set v vid [] rows row j i e size = cc
find_row-set v vid (x ∷ xs) [] row j i e size = absurd (omega arith)
find_row-set v vid (x ∷ xs) (r ∷ rows) row j zero e size = elim (Bool-cases (x == vid)) [
  | inl same ↦ ground arith
  | inr other ↦
      let (k, p, _, _) = index_of_sound vid xs (j + 1) (j + 0) (rw other at e) in
      absurd (omega arith)
]
find_row-set v vid (x ∷ xs) (r ∷ rows) row j (suc i) e size = elim (Bool-cases (x == vid)) [
  | inl same ↦ absurd (ground arith)
  | inr other ↦
      let shift : j + suc i ≡ j + 1 + i = omega arith in
      let later = rw other at e ∙ ap some shift in
      ground (arith, find_row-set v vid xs rows row (j + 1) i later (omega arith))
]

module _ (s : Server) (h : IsValid s) (vid i : ℕ) (row : Row) (k : RowIsValid row) where
  set_vertex_at :
      (old : Row)
      → s.shard.vertex_index.index_map vid ≡ some i
      → get_elem? s.shard.vertex_data i ≡ some old
      → set_vertex s vid row ≡ ok (set_code old row, with_vertex_data s i (set_result old row))
  unfolding set_vertex
  set_vertex_at old found at_i =
      let valid = AllRows-get s.shard.vertex_data i old h.shard_valid.vertex_rows at_i in
      rw (
        Mirror.vertex_data_by_id_lem s.shard h.shard_valid vid i found,
        at_i,
        set_data_helper_lem old row valid k,
      )

set_vertex_missing :
    (s : Server) (vid : ℕ) (row : Row)
    → s.shard.vertex_index.index_map vid ≡ none
    → set_vertex s vid row ≡ ok (einvid, s)
unfolding set_vertex Shard.vertex_data_by_id
set_vertex_missing s vid row e = ground arith

-- What `set_vertex` returns and leaves, for the row that the vertex has or for no vertex.
abbrev pub set_error : Option Row → Row → ℕ
set_error none row = einvid
set_error (some old) row = set_code old row

abbrev pub set_stored : Option Row → Row → Option Row
set_stored none row = none
set_stored (some old) row = some (set_result old row)

abbrev pub row_of : Server → ℕ → Option Row
row_of s vid = find_row vid s.shard.vertex s.shard.vertex_data

get_vertex-with_vertex_data :
    (s : Server) (vid i v : ℕ) (row out : Row)
    → IsValid s
    → RowIsValid row
    → IsBlank out
    → s.shard.vertex_index.index_map vid ≡ some i
    → get_vertex (with_vertex_data s i row) v out
      ≡ (if vid == v then ok (0, row) else get_vertex s v out)
get_vertex-with_vertex_data s vid i v row out h k blank found =
    let indexed = sym (h.shard_valid.vertices_indexed vid) ∙ found in
    ground (
      arith,
      get_vertex_lem (with_vertex_data s i row) v out (with_vertex_data-IsValid s i row h k) blank,
      get_vertex_lem s v out h blank,
      find_row-set v vid s.shard.vertex s.shard.vertex_data row 0 i
          (indexed ∙ ap some (omega arith)) h.shard_valid.data_length,
    )

-- On a valid server `set_vertex` returns EINVID for a vertex that is not there or a row of another
-- size, EINVTYPE for a row of other types, and 0 otherwise. It keeps the invariant. Afterwards
-- `get_vertex` into a row that holds no scalar other than 0 reads the new values exactly if the code
-- is 0, and every other vertex as before.
pub set_vertex_lem :
    (s : Server) (vid v : ℕ) (row out : Row)
    → IsValid s
    → RowIsValid row
    → IsBlank out
    → (t : Server) × (set_vertex s vid row ≡ ok (set_error (row_of s vid) row, t))
      × IsValid t
      × (get_vertex t v out
          ≡ (if vid == v then answer out (set_stored (row_of s vid) row) else get_vertex s v out))
set_vertex_lem s vid v row out h k blank =
    elim (Option-cases (s.shard.vertex_index.index_map vid)) [
      | inl missing ↦
          let none_there = missing_row s vid h missing in
          (s, rw none_there (set_vertex_missing s vid row missing), h, unchanged none_there)
      | inr (i, found) ↦
          let (old, at_i, there) = found_row s vid i h found in
          let valid = AllRows-get s.shard.vertex_data i old h.shard_valid.vertex_rows at_i in
          let result = set_result-RowIsValid old row valid k in
          (
            with_vertex_data s i (set_result old row),
            rw there (set_vertex_at s h vid i row k old found at_i),
            with_vertex_data-IsValid s i (set_result old row) h result,
            rw there (
                get_vertex-with_vertex_data s vid i v (set_result old row) out h result blank
                  found),
          )
    ]
  where
    unchanged :
        row_of s vid ≡ none
        → get_vertex s v out
          ≡ (if vid == v then answer out (set_stored (row_of s vid) row) else get_vertex s v out)
    unchanged none_there = elim (Bool-cases (vid == v)) [
      | inl hit ↦
          let none_v : row_of s v ≡ none = rw (← (==_iff vid v).0 hit) none_there in
          rw (hit, none_there) (get_vertex_lem s v out h blank ∙ rw none_v)
      | inr miss ↦ rw miss
    ]
