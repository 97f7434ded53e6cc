-- ===== src/DenseBitset/Search.antt =====
-- The searches of `dense_bitset`, its iterator, and the count of its bits.
pub mod Words
pub mod Least
pub mod Next
pub mod Walk
pub mod Count
pub mod Answers
use Prim.Native.Nat.{bit_and}
use graphlabapi_graphlab.Prelude.{
  ℕ, zero, suc, ◌+◌, ◌-◌, ◌*◌, ltb, ◌==◌, if◌then◌else◌, not, Option, none, some,
}
use graphlabapi_graphlab.Prelude.Run.{Run, ok, ◌>>=◌}
use graphlabapi_graphlab.DenseBitset.{
  Bitset, arrpos, bitpos, containing_word, first_bit_in_block, next_bit_in_block, complement, ones,
  size_max,
}

-- for (i = start; i < arrlen; ++i), with `n` words to go: the first word that is not 0
unfoldable pub scan : (ℕ → ℕ) → ℕ → ℕ → Option ℕ
scan a i zero = none
scan a i (suc n) =
    let rest = scan a (suc i) n in
    if not (a i == 0) then some (i * 64 + first_bit_in_block (a i)) else rest

unfoldable pub first_bit : Bitset → Option ℕ
first_bit s = scan s.array 0 s.arrlen

unfoldable pub first_zero_bit : Bitset → Option ℕ
first_zero_bit s = scan (λ i. complement (s.array i)) 0 s.arrlen

unfoldable pub next_bit : ℕ → Bitset → Run (Option ℕ)
next_bit b s = containing_word b s >>= λ block.
    let pos = next_bit_in_block (bitpos b) block in
    ok (
      if not (pos == 0)
      then some (arrpos b * 64 + pos)
      else scan s.array (arrpos b + 1) (s.arrlen - (arrpos b + 1)))

-- The iterator is its position; size_t(-1) is the end.
abbrev pub or_end : Option ℕ → ℕ
or_end none = size_max
or_end (some b) = b

unfoldable pub begin : Bitset → ℕ
begin s = or_end (first_bit s)

abbrev pub end : ℕ
end = size_max

unfoldable pub advance : ℕ → Bitset → Run ℕ
advance pos s = next_bit pos s >>= λ r. ok (or_end r)

unfoldable pub ones_of : (ℕ → ℕ) → ℕ → ℕ
ones_of a zero = 0
ones_of a (suc n) = ones_of a n + ones 64 (a n)

unfoldable pub popcount : Bitset → ℕ
popcount s = ones_of s.array s.arrlen
