-- ===== src/Value/Typed.antt =====
-- src/graphlab/database/graph_value.cpp: `set_val`, which goes by the type of the value, `set_double`
-- and `diff`.
use graphlabapi_graphlab.Prelude.{
  ℕ, ◌+◌, ◌-◌, ◌%◌, ◌^◌, Bool, true, false, ◌&&◌, Option, none, some, List, if◌then◌else◌,
}
use graphlabapi_graphlab.Prelude.Run.{Run, ok, bad_cast, ◌>>=◌}
use graphlabapi_graphlab.Eid.{
  vid_type, int_type, double_type, string_type, blob_type, is_scalar_graph_datatype,
}
use graphlabapi_graphlab.Value.{
  Payload, word, Value, same_type, load_word, load_bytes, assign, set_integer, set_vid, set_string,
  set_blob,
}

-- Sums and differences of doubles, on their bit patterns, and boost::lexical_cast from text, with
-- `none` for bad_lexical_cast.
pub record Scalars : Type 0 where
  pub add_double : ℕ → ℕ → ℕ
  pub sub_double : ℕ → ℕ → ℕ
  pub parse_int : List ℕ → Option ℕ
  pub parse_double : List ℕ → Option ℕ
  pub parse_vid : List ℕ → Option ℕ

module _ (scalars : Scalars) where
  open scalars use {add_double, sub_double, parse_int, parse_double, parse_vid}

  unfoldable pub set_double : Value → ℕ → Bool → Run (Value × Bool)
  unfolding load_word
  set_double v val is_delta =
      let stored = λ (w : ℕ). record v { payload = word w; null_value = false } in
      let added : Run (Value × Bool) = do
        old ← load_word v.payload
        ok (stored (add_double old val), true)
      in let plain : Run (Value × Bool) = ok (stored val, true) in
        if same_type v.type double_type then (if is_delta then added else plain) else ok (v, false)

  -- `set_val(const char* val, size_t length, bool delta)`, where `val` points to the union or to the
  -- bytes of another value.
  unfoldable pub set_raw : Value → Payload → ℕ → Bool → Run (Value × Bool)
  unfolding load_word load_bytes set_integer set_double set_vid set_string set_blob
  set_raw v val n delta = elim v.type [
    | int_type ↦ load_word val >>= λ w. set_integer v w delta
    | double_type ↦ load_word val >>= λ w. set_double v w delta
    | vid_type ↦ load_word val >>= λ w. set_vid v w
    | string_type ↦ load_bytes val n >>= λ b. set_string v b
    | blob_type ↦ load_bytes val n >>= λ b. set_blob v b
    | _ ↦ ok (v, false)
  ]

  -- `set_val(const graph_value& other, bool delta)`
  unfoldable pub set_val : Value → Value → Bool → Run (Value × Bool)
  unfolding set_raw
  set_val v other delta =
      if same_type v.type other.type then set_raw v other.payload other.len delta else ok (v, false)

  -- `lexical_cast` outside a `try`.
  abbrev cast_or_throw : Option ℕ → Run ℕ
  cast_or_throw none = bad_cast
  cast_or_throw (some w) = ok w

  -- `set_val(const std::string& val_str, bool delta)`. After a bad cast the double's case logs and
  -- falls through to the next one.
  unfoldable pub set_val_string : Value → List ℕ → Bool → Run (Value × Bool)
  unfolding set_integer set_double set_vid set_string set_blob
  set_val_string v text delta =
      let as_vid : Run (Value × Bool) = (cast_or_throw (parse_vid text) >>= λ w. set_vid v w) in
      elim v.type [
        | int_type ↦ elim (parse_int text) [ some w ↦ set_integer v w delta | none ↦ ok (v, false) ]
        | double_type ↦ elim (parse_double text) [ some w ↦ set_double v w delta | none ↦ as_vid ]
        | vid_type ↦ as_vid
        | string_type ↦ set_string v text
        | blob_type ↦ set_blob v text
        | _ ↦ ok (v, false)
      ]

  -- The change of a scalar member by `diff`.
  unfoldable pub subtract : Value → Value → Run Value
  unfolding load_word
  subtract this other = elim this.type [
    | int_type ↦ do
      a ← load_word this.payload
      b ← load_word other.payload
      ok (record this { payload = word ((a + 2 ^ 64 - b) % 2 ^ 64) })
    | double_type ↦ do
      a ← load_word this.payload
      b ← load_word other.payload
      ok (record this { payload = word (sub_double a b) })
    | _ ↦ ok this
  ]

  -- `diff`: the new contents of `out_delta`, which held `out`.
  unfoldable pub diff : Value → Value → Value → Run Value
  unfolding assign is_scalar_graph_datatype subtract
  diff this other out = do
    copied ← assign out this
    if is_scalar_graph_datatype this.type && same_type this.type other.type
        then subtract copied other
        else ok copied
