-- ===== src/Row/Overwrite.antt =====
-- src/graphlab/database/graph_row.hpp: the implicit operator= of a row over cells that hold scalars.
use graphlabapi_graphlab.Prelude.{
  ℕ, zero, suc, ◌≡◌, ◌≢◌, refl, true, sym, subst, ◌⊎◌, inl, inr, ◌==◌, ==_iff, false, some, List,
  [], ◌∷◌, get_elem?, arith, Bool-cases,
}
use graphlabapi_graphlab.Prelude.Run.{ok, fault}
use graphlabapi_graphlab.Eid.{is_scalar_graph_datatype}
use graphlabapi_graphlab.Value.{Payload, word, buffer, Value, assign}
use graphlabapi_graphlab.Value.Laws.{IsValid}
use graphlabapi_graphlab.Value.Transfer.{Blank, assign-Blank, assign_scalar_to_text}
use graphlabapi_graphlab.Row.{Row, AllValid, RowIsValid, assign_vector, assign_row}

-- A valid value is assigned whole, or the assignment is undefined.
assign_ends :
    (this other : Value)
    → IsValid other
    → (assign this other ≡ ok other) ⊎ (assign this other ≡ fault)
unfolding assign
assign_ends this other h = elim (Bool-cases (is_scalar_graph_datatype other.type)) [
  | inl scalar ↦ inl (as_scalar scalar)
  | inr text ↦ over this.payload refl text
]
  where
    as_scalar : is_scalar_graph_datatype other.type ≡ true → assign this other ≡ ok other
    as_scalar scalar = rw scalar refl

    over :
        (p : Payload)
        → this.payload ≡ p
        → is_scalar_graph_datatype other.type ≡ false
        → (assign this other ≡ ok other) ⊎ (assign this other ≡ fault)
    over (word w) e text = elim (Bool-cases (w == 0)) [
      | inl none ↦ inl (assign-Blank this other (subst Blank (sym e) ((==_iff w 0).0 none)) h)
      | inr held ↦ inr (assign_scalar_to_text this other w h text e (ground arith))
    ]
    over (buffer b) e text = inl (assign-Blank this other (subst Blank (sym e) tt) h)

assign_vector_fault :
    (old cells : List Value) (k w : ℕ) (this other : Value)
    → AllValid cells
    → get_elem? old k ≡ some this
    → get_elem? cells k ≡ some other
    → is_scalar_graph_datatype other.type ≡ false
    → this.payload ≡ word w
    → w ≢ 0
    → assign_vector old cells ≡ fault
unfolding assign_vector
assign_vector_fault [] cells k w this other h a b text held ne = cc
assign_vector_fault (v ∷ old) [] k w this other h a b text held ne = cc
assign_vector_fault (v ∷ old) (x ∷ cells) zero w this other h a b text held ne =
    let same : v ≡ this = cc in
    let same_other : x ≡ other = cc in
    let valid = subst IsValid same_other h.0.0 in
    rw (same, same_other, assign_scalar_to_text this other w valid text held ne) refl
assign_vector_fault (v ∷ old) (x ∷ cells) (suc k) w this other h a b text held ne =
    let rest = assign_vector_fault old cells k w this other h.1 a b text held ne in
    elim (assign_ends v x h.0.0) [ inl done ↦ rw (done, rest) refl | inr broken ↦ rw broken refl ]

-- A valid row with text where the assigned row holds a scalar other than 0.
pub assign_row_fault :
    (old row : Row) (k w : ℕ) (this other : Value)
    → RowIsValid row
    → get_elem? old.cells k ≡ some this
    → get_elem? row.cells k ≡ some other
    → is_scalar_graph_datatype other.type ≡ false
    → this.payload ≡ word w
    → w ≢ 0
    → assign_row old row ≡ fault
unfolding assign_row
assign_row_fault old row k w this other h a b text held ne =
    rw (assign_vector_fault old.cells row.cells k w this other h a b text held ne) refl
