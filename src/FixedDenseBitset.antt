-- ===== src/FixedDenseBitset.antt =====
-- The class `fixed_dense_bitset<len>` of util/dense_bitset.hpp, whose array is a member of the
-- object. The array is a function of the index; the length is the template's parameter.
pub mod Equivalence
pub mod Refine
use Prim.Native.Nat.{bit_and, bit_or}
use graphlabapi_graphlab.Prelude.{
  ℕ, zero, suc, ◌+◌, ◌-◌, ◌*◌, ◌%◌, ltb, ◌==◌, if◌then◌else◌, Bool, true, false, not, Option, none,
  some,
}
use graphlabapi_graphlab.Prelude.Run.{Run, ok, fault, ◌>>=◌}
use graphlabapi_graphlab.Prelude.Updates.{update}
use graphlabapi_graphlab.DenseBitset.{
  arrpos, bitpos, mask_of, meets, words, size_max, one_shl, complement, for_each, all_zero,
  first_bit_in_block, next_bit_in_block,
}
use graphlabapi_graphlab.DenseBitset.Search.{scan, or_end, ones_of}

abbrev pub Words : Type 0
Words = ℕ → ℕ

-- `len`
module _ (n : ℕ) where
  unfoldable pub arrlen : ℕ
  arrlen = words n

  unfoldable pub fix_trailing_bits : Words → Words
  fix_trailing_bits a =
      let lastbits = n % 64 in
      let i = arrlen - 1 in
      if lastbits == 0 then a else update a i (bit_and (a i) (one_shl lastbits - 1))

  -- memset
  unfoldable pub clear : Words → Words
  clear a i = if ltb i arrlen then 0 else a i

  -- the constructor clears whatever the memory holds
  unfoldable pub new : Words → Words
  new memory = clear memory

  -- memcpy of the other's words
  unfoldable pub assign : Words → Words → Words
  assign db a i = if ltb i arrlen then db i else a i

  unfoldable pub copy : Words → Words → Words
  copy db memory = assign db memory

  -- memcpy of `memlen` bytes, a multiple of the size of a word; past the array it is undefined
  unfoldable pub initialize_from_mem : Words → ℕ → Words → Run Words
  initialize_from_mem mem memwords a =
      if ltb arrlen memwords then fault else ok (λ i. if ltb i memwords then mem i else a i)

  unfoldable pub fill : Words → Words
  fill a = fix_trailing_bits (for_each (λ i w. size_max) arrlen a)

  unfoldable pub is_empty : Words → Bool
  is_empty a = all_zero a 0 arrlen

  unfoldable pub containing_word : ℕ → Words → Run ℕ
  containing_word b a = if ltb (arrpos b) arrlen then ok (a (arrpos b)) else fault

  unfoldable pub get : ℕ → Words → Run Bool
  get b a = containing_word b a >>= λ w. ok (meets w (mask_of b))

  abbrev fetch_and : (ℕ → ℕ) → ℕ → Words → Run (ℕ × Words)
  fetch_and g b a = containing_word b a >>= λ w. ok (w, update a (arrpos b) (g w))

  unfoldable pub set_bit : ℕ → Words → Run (Bool × Words)
  set_bit b a = fetch_and (λ w. bit_or w (mask_of b)) b a >>= λ (w, t). ok (meets w (mask_of b), t)

  unfoldable pub clear_bit : ℕ → Words → Run (Bool × Words)
  clear_bit b a = fetch_and (λ w. bit_and w (complement (mask_of b))) b a >>= λ (w, t).
      ok (meets w (mask_of b), t)

  unfoldable pub set_bit_unsync : ℕ → Words → Run (Bool × Words)
  set_bit_unsync b a = get b a >>= λ ret.
      containing_word b a >>= λ w. ok (ret, update a (arrpos b) (bit_or w (mask_of b)))

  unfoldable pub clear_bit_unsync : ℕ → Words → Run (Bool × Words)
  clear_bit_unsync b a = get b a >>= λ ret. containing_word b a >>= λ w.
      ok (ret, update a (arrpos b) (bit_and w (complement (mask_of b))))

  unfoldable pub set_to : ℕ → Bool → Words → Run (Bool × Words)
  set_to b value a = if value then set_bit b a else clear_bit b a

  unfoldable pub set_unsync : ℕ → Bool → Words → Run (Bool × Words)
  set_unsync b value a = if value then set_bit_unsync b a else clear_bit_unsync b a

  unfoldable pub first_bit : Words → Option ℕ
  first_bit a = scan a 0 arrlen

  unfoldable pub first_zero_bit : Words → Option ℕ
  first_zero_bit a = scan (λ i. complement (a i)) 0 arrlen

  unfoldable pub next_bit : ℕ → Words → Run (Option ℕ)
  next_bit b a = containing_word b a >>= λ block.
      let pos = next_bit_in_block (bitpos b) block in
      ok (
        if not (pos == 0)
        then some (arrpos b * 64 + pos)
        else scan a (arrpos b + 1) (arrlen - (arrpos b + 1)))

  unfoldable pub begin : Words → ℕ
  begin a = or_end (first_bit a)

  unfoldable pub advance : ℕ → Words → Run ℕ
  advance pos a = next_bit pos a >>= λ r. ok (or_end r)

  unfoldable pub popcount : Words → ℕ
  popcount a = ones_of a arrlen
