-- ===== src/Value/Transfer.antt =====
-- src/graphlab/database/graph_value.cpp: the copy constructor and operator=.
use graphlabapi_graphlab.Prelude.{
  ℕ, ◌≡◌, refl, ◌≢◌, Bool, true, false, List, arith, subst, Bool-cases, inl, inr,
}
use graphlabapi_graphlab.Prelude.Run.{ok, fault}
use graphlabapi_graphlab.Eid.{
  Datatype, vid_type, int_type, double_type, string_type, blob_type, double_vec_type, unknown_type,
  is_scalar_graph_datatype,
}
use graphlabapi_graphlab.Value.{
  Payload, word, buffer, Value, copy, assign, archived, load_word, load_bytes, store_bytes, alloc,
}
use graphlabapi_graphlab.Value.Laws.{Fits, IsValid, content, load_content, alloc-content}

abbrev pub make : Payload → ℕ → Datatype → Bool → Value
make p n t null = record { payload = p; len = n; type = t; null_value = null }

pub load_valid :
    (t : Datatype) (p : Payload) (n : ℕ)
    → is_scalar_graph_datatype t ≡ false
    → Fits t p n
    → (load_bytes p n ≡ ok (content p).1) × (alloc (content p).1 ≡ p)
unfolding is_scalar_graph_datatype
load_valid string_type p n s h = (load_content p n h, alloc-content p n h)
load_valid blob_type p n s h = (load_content p n h, alloc-content p n h)
load_valid double_vec_type p n s h = absurd h
load_valid unknown_type p n s h = absurd h
load_valid vid_type p n s h = cc
load_valid int_type p n s h = cc
load_valid double_type p n s h = cc

-- The copy constructor has no undefined behaviour on a valid value, and copies all of it.
pub copy_lem : (v : Value) → IsValid v → copy v ≡ ok v
unfolding copy
copy_lem v h = elim (Bool-cases (is_scalar_graph_datatype v.type)) [
  | inl scalar ↦ rw scalar
  | inr text ↦ ground (arith, load_valid v.type v.payload v.len text h)
]

store_bytes_valid :
    (t : Datatype) (p : Payload) (n : ℕ) (b : List ℕ)
    → is_scalar_graph_datatype t ≡ false
    → Fits t p n
    → store_bytes p b ≡ ok (alloc b)
unfolding is_scalar_graph_datatype store_bytes
store_bytes_valid string_type (word w) n b s h = ground arith
store_bytes_valid blob_type (word w) n b s h = ground arith
store_bytes_valid vid_type p n b s h = cc
store_bytes_valid int_type p n b s h = cc
store_bytes_valid double_type p n b s h = cc
store_bytes_valid double_vec_type p n b s h = absurd h
store_bytes_valid unknown_type p n b s h = absurd h
store_bytes_valid t (buffer c) n b s h = refl

-- Assignment between valid values of one type has no undefined behaviour, and makes the left side
-- equal to the right one.
pub assign_lem :
    (this other : Value)
    → IsValid this
    → IsValid other
    → this.type ≡ other.type
    → assign this other ≡ ok other
unfolding assign
assign_lem this other k h e = elim (Bool-cases (is_scalar_graph_datatype other.type)) [
  | inl scalar ↦ rw scalar
  | inr text ↦ ground (
    arith,
    load_valid other.type other.payload other.len text h,
    store_bytes_valid other.type this.payload this.len (content other.payload).1 text
        (subst (λ t. Fits t this.payload this.len) e k),
  )
]

-- Neither a scalar other than 0 stands in the way of an assignment, nor anything else.
abbrev pub Blank : Payload → Type 0
Blank (word w) = w ≡ 0
Blank (buffer b) = Unit

store_bytes-Blank : (p : Payload) (b : List ℕ) → Blank p → store_bytes p b ≡ ok (alloc b)
unfolding store_bytes
store_bytes-Blank (word w) b h = ground (arith, h)
store_bytes-Blank (buffer c) b h = refl

-- Where no scalar other than 0 is held, any valid value is assigned whole.
pub assign-Blank :
    (this other : Value) → Blank this.payload → IsValid other → assign this other ≡ ok other
unfolding assign
assign-Blank this other k h = elim (Bool-cases (is_scalar_graph_datatype other.type)) [
  | inl scalar ↦ rw scalar
  | inr text ↦ ground (
    arith,
    load_valid other.type other.payload other.len text h,
    store_bytes-Blank this.payload (content other.payload).1 k,
  )
]

-- A null value holds nothing, as `init` makes it.
abbrev pub NullIsBlank : Value → Type 0
NullIsBlank v = v.null_value ≡ true → v.payload ≡ word 0

archived_scalar :
    (t : Datatype) (p : Payload) (n : ℕ)
    → is_scalar_graph_datatype t ≡ true
    → Fits t p n
    → (w : ℕ) × (p ≡ word w) × (n ≡ 8)
unfolding is_scalar_graph_datatype
archived_scalar vid_type (word w) n s h = (w, refl, h.1)
archived_scalar int_type (word w) n s h = (w, refl, h.1)
archived_scalar double_type (word w) n s h = (w, refl, h.1)
archived_scalar vid_type (buffer b) n s h = absurd h
archived_scalar int_type (buffer b) n s h = absurd h
archived_scalar double_type (buffer b) n s h = absurd h
archived_scalar string_type p n s h = cc
archived_scalar blob_type p n s h = cc
archived_scalar double_vec_type p n s h = absurd h
archived_scalar unknown_type p n s h = absurd h

-- A valid value whose null holds nothing comes out of the archive as it went in.
pub archived_lem : (v : Value) → IsValid v → NullIsBlank v → archived v ≡ ok v
unfolding archived load_word
archived_lem v h k = elim (Bool-cases v.null_value) [
  | inl null ↦ ground (arith, null, k null)
  | inr full ↦ elim (Bool-cases (is_scalar_graph_datatype v.type)) [
    | inl scalar ↦
        let (w, p, n) = archived_scalar v.type v.payload v.len scalar h in
        ground (arith, full, scalar, p, n)
    | inr text ↦ ground (arith, full, load_valid v.type v.payload v.len text h)
  ]
]

-- Assigning a valid non-scalar value to one that holds a scalar other than 0 hands that scalar to
-- realloc, which is undefined behaviour.
pub assign_scalar_to_text :
    (this other : Value) (w : ℕ)
    → IsValid other
    → is_scalar_graph_datatype other.type ≡ false
    → this.payload ≡ word w
    → w ≢ 0
    → assign this other ≡ fault
unfolding assign store_bytes
assign_scalar_to_text this other w h s e ne =
    ground (arith, load_valid other.type other.payload other.len s h)
