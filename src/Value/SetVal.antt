-- ===== src/Value/SetVal.antt =====
-- src/graphlab/database/graph_value.cpp: `set_val` of one value from another, and `diff`.
use mathlib.Core.Path.{subst₂}
use graphlabapi_graphlab.Prelude.{
  ℕ, ◌+◌, ◌-◌, ◌%◌, ◌^◌, ◌≡◌, refl, ◌≢◌, Bool, true, false, arith, sym, subst, ap, Bool-cases, inl,
  inr,
}
use graphlabapi_graphlab.Prelude.Run.{ok}
use graphlabapi_graphlab.Eid.{
  Datatype, vid_type, int_type, double_type, string_type, blob_type, double_vec_type, unknown_type,
}
use graphlabapi_graphlab.Value.{Payload, word, buffer, Value, same_type}
use graphlabapi_graphlab.Value.Laws.{
  Fits, FitsWord, IsValid, content, load_content, overwrite_lem, alloc-content, length-content,
}
use graphlabapi_graphlab.Value.Transfer.{make}
use graphlabapi_graphlab.Value.Typed.{Scalars, set_val, diff}

pub same_type-eq : (t u : Datatype) → same_type t u ≡ true → t ≡ u
same_type-eq vid_type vid_type h = refl
same_type-eq int_type int_type h = refl
same_type-eq double_type double_type h = refl
same_type-eq string_type string_type h = refl
same_type-eq blob_type blob_type h = refl
same_type-eq double_vec_type double_vec_type h = refl
same_type-eq unknown_type unknown_type h = refl
same_type-eq t u h = cc

len_scalar : (p : Payload) (n : ℕ) → FitsWord p n → n ≡ 8
len_scalar (word w) n h = h.1
len_scalar (buffer b) n h = absurd h

module _ (scalars : Scalars) where
  -- The value with the data of `other` under its own type, not null.
  abbrev pub filled : Value → Value → Value
  filled v other = record v { payload = other.payload; len = other.len; null_value = false }

  set_parts :
      (p q : Payload) (n m : ℕ) (t : Datatype) (null other_null : Bool)
      → Fits t p n
      → Fits t q m
      → set_val scalars (make p n t null) (make q m t other_null) false
        ≡ ok (make q m t false, true)
  unfolding set_val
  set_parts p (word x) n m vid_type null other_null h k = ground (arith, len_scalar p n h)
  set_parts p (word x) n m int_type null other_null h k = ground (arith, len_scalar p n h)
  set_parts p (word x) n m double_type null other_null h k = ground (arith, len_scalar p n h)
  set_parts p (buffer b) n m vid_type null other_null h k = absurd k
  set_parts p (buffer b) n m int_type null other_null h k = absurd k
  set_parts p (buffer b) n m double_type null other_null h k = absurd k
  set_parts p q n m string_type null other_null h k = ground (
    arith,
    load_content q m k,
    overwrite_lem p n (content q).1 h,
    alloc-content q m k,
    length-content q m k,
  )
  set_parts p q n m blob_type null other_null h k = ground (
    arith,
    load_content q m k,
    overwrite_lem p n (content q).1 h,
    alloc-content q m k,
    length-content q m k,
  )
  set_parts p q n m double_vec_type null other_null h k = absurd h
  set_parts p q n m unknown_type null other_null h k = absurd h

  -- Setting a value from a valid one of the same type succeeds without undefined behaviour: it keeps
  -- the type, takes the data and the length of the other, and is not null, whether or not the other
  -- one is.
  pub set_val_lem :
      (v other : Value)
      → IsValid v
      → IsValid other
      → v.type ≡ other.type
      → set_val scalars v other false ≡ ok (filled v other, true)
  set_val_lem v other h k e =
      subst
        (λ t.
          set_val scalars v (make other.payload other.len t other.null_value) false
          ≡ ok (filled v other, true))
        e
        (set_parts v.payload other.payload v.len other.len v.type v.null_value other.null_value h
          (subst (λ t. Fits t other.payload other.len) (sym e) k))

  -- Setting a value from one of another type changes nothing and returns false.
  pub set_val_mismatch :
      (v other : Value) (delta : Bool)
      → v.type ≢ other.type
      → set_val scalars v other delta ≡ ok (v, false)
  unfolding set_val
  set_val_mismatch v other delta ne = elim (Bool-cases (same_type v.type other.type)) [
    | inl same ↦ absurd (ne (same_type-eq v.type other.type same))
    | inr different ↦ rw different
  ]

  abbrev Undoes : Value → Value → Value → Type 0
  Undoes this other out =
      (d : Value) × (w : Value) × (diff scalars this other out ≡ ok d)
      × (set_val scalars other d true ≡ ok (w, true))
      × IsValid w
      × (w.type ≡ int_type)
      × (w.payload ≡ this.payload)

  diff_parts :
      (p q : Payload) (n m : ℕ) (null other_null : Bool) (out : Value)
      → Fits int_type p n
      → Fits int_type q m
      → Undoes (make p n int_type null) (make q m int_type other_null) out
  unfolding diff set_val
  diff_parts (word x) (word y) n m null other_null out h k =
      let r = (x + 2 ^ 64 - y) % 2 ^ 64 in
      let back : (y + r) % 2 ^ 64 ≡ x = omega arith in
      (
        make (word r) n int_type null,
        make (word ((y + r) % 2 ^ 64)) m int_type false,
        refl,
        refl,
        (omega arith, k.1),
        refl,
        ap word back,
      )
  diff_parts (buffer b) q n m null other_null out h k = absurd h
  diff_parts (word x) (buffer b) n m null other_null out h k = absurd k

  -- `diff` undoes itself on integers: adding the difference of two valid integers to the second, as
  -- `set_val` with `delta` does, gives the first, modulo 2^64 and whatever `out_delta` held before.
  pub diff_delta :
      (this other out : Value)
      → IsValid this
      → IsValid other
      → this.type ≡ int_type
      → other.type ≡ int_type
      → (d : Value) × (w : Value) × (diff scalars this other out ≡ ok d)
        × (set_val scalars other d true ≡ ok (w, true))
        × IsValid w
        × (w.type ≡ int_type)
        × (w.payload ≡ this.payload)
  diff_delta this other out h k e f =
      subst₂
        (λ t u.
          Undoes (make this.payload this.len t this.null_value)
            (make other.payload other.len u other.null_value) out)
        (sym e) (sym f)
        (diff_parts this.payload other.payload this.len other.len this.null_value other.null_value
          out (subst (λ t. Fits t this.payload this.len) e h)
          (subst (λ t. Fits t other.payload other.len) f k))
