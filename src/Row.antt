-- ===== src/Row.antt =====
-- src/graphlab/database/graph_field.hpp, graph_row.hpp and graph_row.cpp: the schema of a field, and
-- the row of values of a vertex or an edge.
pub mod Overwrite
use Prim.Native.String.{String}
use graphlabapi_graphlab.Prelude.{
  ℕ, ◌≡◌, refl, Bool, true, false, not, Option, List, [], ◌∷◌, ◌++◌, length, get_elem?,
  if◌then◌else◌, arith, Bool-cases, inl, inr, subst, sym,
}
use graphlabapi_graphlab.Prelude.Run.{Run, ok, ◌>>=◌}
use graphlabapi_graphlab.Eid.{Datatype}
use graphlabapi_graphlab.Value.{Payload, word, Value, is_null, init, copy, assign, archived}
use graphlabapi_graphlab.Value.Laws.{IsValid}
use graphlabapi_graphlab.Value.Transfer.{Blank, NullIsBlank, copy_lem, assign-Blank, archived_lem}

pub record Field : Type 0 where
  pub name : String
  pub is_indexed : Bool
  pub type : Datatype
  pub max_data_length : ℕ

pub record Row : Type 0 where
  pub cells : List Value
  pub is_vertex : Bool

-- The default constructor.
abbrev pub empty_row : Row
empty_row = record { cells = []; is_vertex = true }

-- The loop of the constructor from a schema.
unfoldable pub init_cells : List Field → Run (List Value)
init_cells [] = ok []
init_cells (f ∷ fields) = do v ← init f.type; rest ← init_cells fields; ok (v ∷ rest)

unfoldable pub new_row : List Field → Bool → Run Row
unfolding init_cells
new_row fields is_vertex = do
  cells ← init_cells fields
  ok (record { cells = cells; is_vertex = is_vertex })

-- The copy of a vector of values, and of a row.
unfoldable pub copy_cells : List Value → Run (List Value)
copy_cells [] = ok []
copy_cells (v ∷ cells) = do w ← copy v; rest ← copy_cells cells; ok (w ∷ rest)

unfoldable pub copy_row : Row → Run Row
unfolding copy_cells
copy_row row = do cells ← copy_cells row.cells; ok (record row { cells = cells })

-- operator= of a vector of values with room for the new cells: cells that exist are assigned, others
-- are copied or destroyed. Without room all of them are copied, and come out the same wherever this
-- does not fail.
unfoldable pub assign_vector : List Value → List Value → Run (List Value)
unfolding copy_cells
assign_vector [] cells = copy_cells cells
assign_vector (v ∷ old) [] = ok []
assign_vector (v ∷ old) (w ∷ cells) = do
  x ← assign v w
  rest ← assign_vector old cells
  ok (x ∷ rest)

-- operator= of a row
unfoldable pub assign_row : Row → Row → Run Row
unfolding assign_vector
assign_row this other = do
  cells ← assign_vector this.cells other.cells
  ok (record other { cells = cells })

-- A row that is saved to an archive and loaded from it: each value is loaded into a fresh one, which
-- is copied to the end of the emptied vector.
unfoldable pub archived_cells : List Value → Run (List Value)
archived_cells [] = ok []
archived_cells (v ∷ cells) = do
  w ← archived v
  x ← copy w
  rest ← archived_cells cells
  ok (x ∷ rest)

unfoldable pub archived_row : Row → Run Row
unfolding archived_cells
archived_row row = do cells ← archived_cells row.cells; ok (record row { cells = cells })

-- The same of a vector of rows.
unfoldable pub archived_rows : List Row → Run (List Row)
unfolding archived_row copy_row
archived_rows [] = ok []
archived_rows (r ∷ rows) = do
  loaded ← archived_row r
  x ← copy_row loaded
  rest ← archived_rows rows
  ok (x ∷ rest)

unfoldable pub add_field : Row → Field → Run Row
add_field row field = do
  v ← init field.type
  w ← copy v
  ok (record row { cells = row.cells ++ w ∷ [] })

abbrev pub num_fields : Row → ℕ
num_fields row = length row.cells

abbrev pub is_edge : Row → Bool
is_edge row = not row.is_vertex

-- `is_null`, where the loop leaves at the first value that is not null.
unfoldable pub all_null : List Value → Bool
all_null [] = true
all_null (v ∷ cells) = if is_null v then all_null cells else false

abbrev pub row_is_null : Row → Bool
row_is_null row = all_null row.cells

abbrev pub get_field : Row → ℕ → Option Value
get_field row fieldpos = get_elem? row.cells fieldpos

-- The cells of a valid row are valid, and a null cell holds nothing.
abbrev pub AllValid : List Value → Type 0
AllValid [] = Unit
AllValid (v ∷ cells) = (IsValid v × NullIsBlank v) × AllValid cells

abbrev pub RowIsValid : Row → Type 0
RowIsValid row = AllValid row.cells

pub copy_cells_lem : (cells : List Value) → AllValid cells → copy_cells cells ≡ ok cells
unfolding copy_cells
copy_cells_lem [] h = refl
copy_cells_lem (v ∷ cells) h = ground (arith, copy_lem v h.0.0, copy_cells_lem cells h.1)

-- A valid row is copied whole.
pub copy_row_lem : (row : Row) → RowIsValid row → copy_row row ≡ ok row
unfolding copy_row
copy_row_lem row h = ground (arith, copy_cells_lem row.cells h)

-- No cell holds a scalar other than 0, so that every valid row can be assigned.
abbrev pub AllBlank : List Value → Type 0
AllBlank [] = Unit
AllBlank (v ∷ cells) = Blank v.payload × AllBlank cells

abbrev pub IsBlank : Row → Type 0
IsBlank row = AllBlank row.cells

blank : (p : Payload) → p ≡ word 0 → Blank p
blank p e = subst Blank (sym e) refl

pub all_null-AllBlank :
    (cells : List Value) → AllValid cells → all_null cells ≡ true → AllBlank cells
unfolding all_null
all_null-AllBlank [] h null = tt
all_null-AllBlank (v ∷ cells) h null = elim (Bool-cases v.null_value) [
  | inl e ↦ (blank v.payload (h.0.1 e), all_null-AllBlank cells h.1 (ground (arith, null, e)))
  | inr e ↦ ground (arith, null, e)
]

assign_vector_lem :
    (old cells : List Value) → AllBlank old → AllValid cells → assign_vector old cells ≡ ok cells
unfolding assign_vector
assign_vector_lem [] cells b h = copy_cells_lem cells h
assign_vector_lem (v ∷ old) [] b h = refl
assign_vector_lem (v ∷ old) (w ∷ cells) b h =
    rw (assign-Blank v w b.0 h.0.0, assign_vector_lem old cells b.1 h.1) refl

-- A valid row is assigned whole to a blank one.
pub assign_row_lem : (this row : Row) → IsBlank this → RowIsValid row → assign_row this row ≡ ok row
unfolding assign_row
assign_row_lem this row b h = rw (assign_vector_lem this.cells row.cells b h) refl

archived_cells_lem : (cells : List Value) → AllValid cells → archived_cells cells ≡ ok cells
unfolding archived_cells
archived_cells_lem [] h = refl
archived_cells_lem (v ∷ cells) h =
    rw (archived_lem v h.0.0 h.0.1, copy_lem v h.0.0, archived_cells_lem cells h.1) refl

-- A valid row comes out of the archive as it went in.
pub archived_row_lem : (row : Row) → RowIsValid row → archived_row row ≡ ok row
unfolding archived_row
archived_row_lem row h = rw (archived_cells_lem row.cells h) refl
