-- ===== src/Eid.antt =====
-- src/graphlab/database/basic_types.hpp: the edge ids, which pack a shard id and a local edge id
-- into the bit fields of a union, and the data types of fields.
use graphlabapi_graphlab.Prelude.{ℕ, ◌+◌, ◌*◌, ◌/◌, ◌%◌, ◌^◌, ◌<◌, ◌≡◌, Bool, true, false, arith}

-- The 16-bit field lies in bytes 0 and 1 of the union, the 32-bit field in bytes 4 to 7. Bytes 2 and
-- 3 belong to neither: `make_eid` leaves there what the stack held, which is the argument `padding`.
unfoldable pub make_eid : (padding shard_id local_eid : ℕ) → ℕ
make_eid padding shard_id local_eid =
    shard_id % 2 ^ 16 + padding % 2 ^ 16 * 2 ^ 16 + local_eid % 2 ^ 32 * 2 ^ 32

unfoldable pub split_eid : ℕ → ℕ × ℕ
split_eid eid = (eid % 2 ^ 16, eid / 2 ^ 32 % 2 ^ 32)

pub data Datatype : Type 0 where
  vid_type int_type double_type string_type blob_type double_vec_type unknown_type : Datatype

unfoldable pub is_scalar_graph_datatype : Datatype → Bool
is_scalar_graph_datatype Datatype.vid_type = true
is_scalar_graph_datatype Datatype.int_type = true
is_scalar_graph_datatype Datatype.double_type = true
is_scalar_graph_datatype _ = false

-- An edge id fits 64 bits, and splits into the shard id and the local id that it was made of,
-- whatever the padding, if those are in the range of their types.
pub split_eid-make_eid :
    (padding shard_id local_eid : ℕ)
    → shard_id < 2 ^ 16
    → local_eid < 2 ^ 32
    → (make_eid padding shard_id local_eid < 2 ^ 64)
      × (split_eid (make_eid padding shard_id local_eid) ≡ (shard_id, local_eid))
unfolding make_eid split_eid
split_eid-make_eid padding shard_id local_eid h k = (omega arith, ground arith)
