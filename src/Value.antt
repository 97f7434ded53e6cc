-- ===== src/Value.antt =====
-- src/graphlab/database/graph_value.hpp and graph_value.cpp: one field of a vertex or an edge.
-- The union is a machine word or a pointer to a buffer of bytes. Integers and doubles are 64-bit
-- patterns; the sum of two doubles and the parsers of lexical_cast are parameters.
pub mod Typed
pub mod Laws
pub mod Transfer
pub mod SetVal
use graphlabapi_graphlab.Prelude.{
  ℕ, ◌+◌, ◌-◌, ◌%◌, ◌^◌, Bool, true, false, not, ◌&&◌, ◌||◌, Option, none, some, List, [], ◌∷◌,
  ◌++◌, length, take, drop, ltb, leb, ◌==◌, if◌then◌else◌,
}
use graphlabapi_graphlab.Prelude.Run.{Run, ok, fault, bad_cast, ◌>>=◌}
use graphlabapi_graphlab.Eid.{
  Datatype, vid_type, int_type, double_type, string_type, blob_type, double_vec_type, unknown_type,
  is_scalar_graph_datatype,
}

-- `value_union_type`: the scalar members share one word, and the NULL of `bytes` is the word 0.
pub data Payload : Type 0 where
  word : ℕ → Payload
  buffer : List ℕ → Payload

pub record Value : Type 0 where
  pub payload : Payload
  pub len : ℕ
  pub type : Datatype
  pub null_value : Bool

abbrev pub same_type : Datatype → Datatype → Bool
same_type vid_type vid_type = true
same_type int_type int_type = true
same_type double_type double_type = true
same_type string_type string_type = true
same_type blob_type blob_type = true
same_type double_vec_type double_vec_type = true
same_type unknown_type unknown_type = true
same_type _ _ = false

abbrev pub is_null : Value → Bool
is_null v = v.null_value

-- The length of a type in `init`; any other type fails its assertion.
unfoldable pub init_length : Datatype → Run ℕ
init_length string_type = ok 0
init_length blob_type = ok 0
init_length double_type = ok 8
init_length int_type = ok 8
init_length vid_type = ok 8
init_length double_vec_type = fault
init_length unknown_type = fault

unfoldable pub init : Datatype → Run Value
unfolding init_length
init t = do
  n ← init_length t
  ok (record { payload = word 0; len = n; type = t; null_value = true })

-- Reading a scalar member: the value of a pointer as a number is not modelled.
unfoldable pub load_word : Payload → Run ℕ
load_word (word w) = ok w
load_word (buffer bytes) = fault

-- memcpy of `n` bytes out of `_data.bytes`.
unfoldable pub load_bytes : Payload → ℕ → Run (List ℕ)
load_bytes (word w) n = if n == 0 then ok [] else fault
load_bytes (buffer bytes) n = if leb n (length bytes) then ok (take n bytes) else fault

-- A block that holds `bytes`. A block of no bytes is not told from NULL, as no method tells them
-- apart.
abbrev pub alloc : List ℕ → Payload
alloc [] = word 0
alloc (x ∷ bytes) = buffer (x ∷ bytes)

-- realloc of `_data.bytes`, with the whole block overwritten by `bytes` after it. A word other than
-- NULL is no pointer that may be passed to realloc.
unfoldable pub store_bytes : Payload → List ℕ → Run Payload
store_bytes (word w) bytes = if w == 0 then ok (alloc bytes) else fault
store_bytes (buffer old) bytes = ok (alloc bytes)

-- The copy constructor.
unfoldable pub copy : Value → Run Value
unfolding is_scalar_graph_datatype load_bytes
copy other =
    let heap : Run Value = do
      bytes ← load_bytes other.payload other.len
      ok (record other { payload = alloc bytes })
    in if is_scalar_graph_datatype other.type then ok other else heap

-- operator=
unfoldable pub assign : Value → Value → Run Value
unfolding is_scalar_graph_datatype load_bytes store_bytes
assign this other =
    let heap : Run Value = do
      bytes ← load_bytes other.payload other.len
      p ← store_bytes this.payload bytes
      ok (record other { payload = p })
    in if is_scalar_graph_datatype other.type then ok other else heap

-- `save` to an archive, and `load` from it into a value of the default constructor: the payload of
-- a null value is not written.
unfoldable pub archived : Value → Run Value
unfolding is_scalar_graph_datatype load_bytes load_word
archived v =
    let scalar : Run Value = do
      w ← load_word v.payload
      if v.len == 8 then ok (record v { payload = word w }) else fault
    in let text : Run Value = do
      bytes ← load_bytes v.payload v.len
      ok (record v { payload = alloc bytes })
      in if v.null_value
        then ok (record v { payload = word 0 })
        else (if is_scalar_graph_datatype v.type then scalar else text)

-- The getters: `none` is the returned `false`, and `some` what goes through `out_ret`.
abbrev readable : Datatype → Value → Bool
readable t v = same_type v.type t && not v.null_value

abbrev get_scalar : Datatype → Value → Run (Option ℕ)
get_scalar t v =
    let read : Run (Option ℕ) = (do w ← load_word v.payload; ok (some w)) in
    if readable t v then read else ok none

unfoldable pub get_vid : Value → Run (Option ℕ)
unfolding load_word
get_vid v = get_scalar vid_type v

unfoldable pub get_integer : Value → Run (Option ℕ)
unfolding load_word
get_integer v = get_scalar int_type v

unfoldable pub get_double : Value → Run (Option ℕ)
unfolding load_word
get_double v = get_scalar double_type v

abbrev get_bytes : Datatype → Value → ℕ → Run (Option (List ℕ))
get_bytes t v n =
    let read : Run (Option (List ℕ)) = (do b ← load_bytes v.payload n; ok (some b)) in
    if readable t v then read else ok none

unfoldable pub get_string : Value → Run (Option (List ℕ))
unfolding load_bytes
get_string v = get_bytes string_type v v.len

unfoldable pub get_blob : Value → Run (Option (List ℕ))
unfolding load_bytes
get_blob v = get_bytes blob_type v v.len

-- The overload with a length: what is copied to `out_blob`.
unfoldable pub get_blob_prefix : ℕ → Value → Run (Option (List ℕ))
unfolding load_bytes
get_blob_prefix n v = get_bytes blob_type v (if ltb v.len n then v.len else n)

-- The setters return the value as they leave it, and their result. A signed sum that overflows
-- wraps, as the machine's addition does.
unfoldable pub set_integer : Value → ℕ → Bool → Run (Value × Bool)
unfolding load_word
set_integer v val is_delta =
    let stored = λ (w : ℕ). record v { payload = word w; null_value = false } in
    let added : Run (Value × Bool) = do
      old ← load_word v.payload
      ok (stored ((old + val) % 2 ^ 64), true)
    in let plain : Run (Value × Bool) = ok (stored val, true) in
      if same_type v.type int_type then (if is_delta then added else plain) else ok (v, false)

unfoldable pub set_vid : Value → ℕ → Run (Value × Bool)
set_vid v val =
    if same_type v.type vid_type
    then ok (record v { payload = word val; null_value = false }, true)
    else ok (v, false)

-- memcpy of `val` over the first bytes of the buffer.
unfoldable pub copy_over : Payload → List ℕ → Run Payload
copy_over (word w) val = if length val == 0 then ok (word w) else fault
copy_over (buffer old) val =
    if leb (length val) (length old) then ok (buffer (val ++ drop (length val) old)) else fault

-- The buffer after `set_string` and `set_blob`: reallocated when the length changes, and otherwise
-- overwritten in place.
unfoldable pub overwrite : Payload → ℕ → List ℕ → Run Payload
unfolding copy_over store_bytes
overwrite p len val = if length val == len then copy_over p val else store_bytes p val

abbrev set_bytes : Datatype → Value → List ℕ → Run (Value × Bool)
set_bytes t v val =
    let stored : Run (Value × Bool) = do
      p ← overwrite v.payload v.len val
      ok (record v { payload = p; len = length val; null_value = false }, true)
    in if same_type v.type t then stored else ok (v, false)

unfoldable pub set_string : Value → List ℕ → Run (Value × Bool)
unfolding overwrite
set_string v val = set_bytes string_type v val

unfoldable pub set_blob : Value → List ℕ → Run (Value × Bool)
unfolding overwrite
set_blob v val = set_bytes blob_type v val

-- `free_data`: a block is freed, and a scalar is no pointer that may be freed.
unfoldable pub free_data : Value → Run Value
free_data v =
    let freed : Run Value = elim v.payload [
      | word w ↦ if w == 0 then ok v else fault
      | buffer bytes ↦ ok (record v { payload = word 0; len = 0 })
    ] in
    if same_type v.type string_type || same_type v.type blob_type then freed else ok v

-- A raw pointer: NULL, the address of the union, or the block.
pub data RawPointer : Type 0 where
  null to_union to_block : RawPointer

-- `get_raw_pointer` and `get_mutable_raw_pointer`
unfoldable pub get_raw_pointer : Value → RawPointer
unfolding is_scalar_graph_datatype
get_raw_pointer v =
    let of_bytes : RawPointer = elim v.payload [ word w ↦ null | buffer bytes ↦ to_block ] in
    if is_null v then null else if is_scalar_graph_datatype v.type then to_union else of_bytes
