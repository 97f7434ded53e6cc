-- ===== src/DenseBitset/Algebra.antt =====
-- The operators of `dense_bitset` on two bitsets, and `invert`.
pub mod Trim
pub mod Whole
pub mod Pointwise
use Prim.Native.Nat.{bit_and, bit_or}
use graphlabapi_graphlab.Prelude.{ℕ, ◌-◌, ◌==◌}
use graphlabapi_graphlab.Prelude.Run.{Run, ok, ◌>>◌, assert}
use graphlabapi_graphlab.DenseBitset.{Bitset, new, for_each, each, complement, fix_trailing_bits}

-- dense_bitset ret(size()); for (i = 0; i < arrlen; ++i) ret.array[i] = op(array[i], other.array[i])
abbrev pub combined : (ℕ → ℕ → ℕ) → (ℕ → ℕ) → Bitset → Bitset → Bitset
combined op fresh other s =
    let ret = new fresh s.len in
    record ret { array = for_each (λ i w. op (s.array i) (other.array i)) s.arrlen ret.array }

unfoldable pub and_with : (ℕ → ℕ) → Bitset → Bitset → Run Bitset
and_with fresh other s = assert (s.len == other.len) >> ok (combined bit_and fresh other s)

unfoldable pub or_with : (ℕ → ℕ) → Bitset → Bitset → Run Bitset
or_with fresh other s = assert (s.len == other.len) >> ok (combined bit_or fresh other s)

unfoldable pub minus : (ℕ → ℕ) → Bitset → Bitset → Run Bitset
minus fresh other s =
    assert (s.len == other.len) >> ok (combined (λ a b. a - bit_and a b) fresh other s)

-- The same in place.
unfoldable pub and_assign : Bitset → Bitset → Run Bitset
and_assign other s = assert (s.len == other.len) >> ok (each (λ i w. bit_and w (other.array i)) s)

unfoldable pub or_assign : Bitset → Bitset → Run Bitset
or_assign other s = assert (s.len == other.len) >> ok (each (λ i w. bit_or w (other.array i)) s)

unfoldable pub minus_assign : Bitset → Bitset → Run Bitset
minus_assign other s =
    assert (s.len == other.len) >> ok (each (λ i w. w - bit_and w (other.array i)) s)

unfoldable pub invert : Bitset → Bitset
invert s = fix_trailing_bits (each (λ i w. complement w) s)
