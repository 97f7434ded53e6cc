-- ===== src/Examples/Bitsets.antt =====
-- Two bitsets of 70 bits, in two words.
use graphlabapi_graphlab.Prelude.{
  ℕ, zero, suc, ◌*◌, ◌/◌, ◌%◌, ◌<◌, ◌≡◌, refl, arith, ltb, if◌then◌else◌, true, false, not, ◌&&◌,
  ◌||◌, none, some, [], ◌∷◌,
}
use graphlabapi_graphlab.Prelude.Run.{ok}
use graphlabapi_graphlab.Prelude.Updates.{update}
use graphlabapi_graphlab.Prelude.Bits.{bit-pow}
use graphlabapi_graphlab.DenseBitset.{
  Bitset, words, get, set_to, set_unsync, xor_bit, clear, fill, copy, resize, is_empty,
}
use graphlabapi_graphlab.DenseBitset.Members.{Holds, digit}
use graphlabapi_graphlab.DenseBitset.Access.{Answers, access_lem}
use graphlabapi_graphlab.DenseBitset.Search.{next_bit, begin, first_bit, first_zero_bit, popcount}
use graphlabapi_graphlab.DenseBitset.Search.Least.{seek}
use graphlabapi_graphlab.DenseBitset.Search.Next.{digits, next_bit-seek}
use graphlabapi_graphlab.DenseBitset.Search.Walk.{walk, elements, walk-elements}
use graphlabapi_graphlab.DenseBitset.Search.Count.{count}
use graphlabapi_graphlab.DenseBitset.Search.Answers.{searches_lem}
use graphlabapi_graphlab.DenseBitset.Algebra.{
  and_with, or_with, minus, and_assign, or_assign, minus_assign, invert,
}
use graphlabapi_graphlab.DenseBitset.Algebra.Whole.{whole_lem}
use graphlabapi_graphlab.DenseBitset.Algebra.Pointwise.{Returns, operators_lem}
use graphlabapi_graphlab.DenseBitset.Transfer.{Transferred, transfer_approximate_unsafe}
use graphlabapi_graphlab.DenseBitset.Transfer.Total.{
  IsTransferred, transfer-IsTransferred, transfer_never,
}
use graphlabapi_graphlab.FixedDenseBitset
use graphlabapi_graphlab.FixedDenseBitset.Equivalence.{as_dense}
use graphlabapi_graphlab.FixedDenseBitset.Refine.{Writes, members_lem}

-- The second word has position 65 alone.
abbrev two_words : ℕ → ℕ → ℕ
two_words first zero = first
two_words first (suc i) = 2

abbrev bits_of : ℕ → Bitset
bits_of first = record { array = two_words first; len = 70; arrlen = 2 }

two_words-fits : (first : ℕ) → first < 64 → (i : ℕ) → two_words first i < 18446744073709551616
two_words-fits first h zero = omega (arith, h)
two_words-fits first h (suc i) = omega arith

second_word : (first i : ℕ) → 0 < i → two_words first i ≡ 2
second_word first zero h = absurd (omega (arith, h))
second_word first (suc i) h = refl

bits_of-Holds : (first : ℕ) → first < 64 → Holds 70 (digit (bits_of first)) (bits_of first)
unfolding words
bits_of-Holds first h = record {
  valid = record {
    sized = refl;
    fits = λ i _. two_words-fits first h i;
    trimmed = λ j past low.
        rw (second_word first (j / 64) (omega (arith, past)), bit-pow 1 (j % 64))
          (ground (arith, past, low));
  };
  long = refl;
  members = λ j _. refl;
}

abbrev fives : ℕ → ℕ
fives i = 5

abbrev five_bits : Bitset
five_bits = bits_of 5

five_bits-Holds : Holds 70 (digit five_bits) five_bits
five_bits-Holds = bits_of-Holds 5 (omega arith)

access_lem_example :
    (get 65 five_bits ≡ ok true)
    × Answers 70 true (update (digit five_bits) 65 false) (set_to 65 false five_bits)
    × Answers 70 true (update (digit five_bits) 65 false) (set_unsync 65 false five_bits)
    × Answers 70 true (update (digit five_bits) 65 false) (xor_bit 65 five_bits)
access_lem_example = access_lem five_bits-Holds 65 (omega arith) false

next_bit-seek_example : next_bit 2 five_bits ≡ ok (some 65)
unfolding seek
next_bit-seek_example = next_bit-seek five_bits-Holds 2 (omega arith)

walk-elements_example : walk 71 (begin five_bits) five_bits ≡ ok (0 ∷ 2 ∷ 65 ∷ [])
unfolding elements
walk-elements_example = walk-elements five_bits-Holds (omega arith)

searches_lem_example :
    (first_bit five_bits ≡ some 0)
    × (is_empty five_bits ≡ false)
    × (popcount five_bits ≡ 3)
    × (first_zero_bit five_bits ≡ some 1)
unfolding seek count words
searches_lem_example = searches_lem five_bits-Holds

whole_lem_example :
    Holds 70 (λ _. false) (clear five_bits)
    × Holds 70 (λ _. true) (fill five_bits)
    × Holds 70 (λ j. not (digit five_bits j)) (invert five_bits)
    × Holds 70 (digit five_bits) (copy fives five_bits)
    × Holds 3
        (λ j. if ltb j (64 * words 70) then ltb j 70 && digit five_bits j else digits fives j)
        (resize fives 3 five_bits)
whole_lem_example = whole_lem five_bits-Holds fives (λ i. omega arith) 3

operators_lem_example :
    Returns 70
      (λ j. digit five_bits j && digit (bits_of 6) j)
      (and_with fives (bits_of 6) five_bits)
    × Returns 70
        (λ j. digit five_bits j || digit (bits_of 6) j)
        (or_with fives (bits_of 6) five_bits)
    × Returns 70
        (λ j. digit five_bits j && not (digit (bits_of 6) j))
        (minus fives (bits_of 6) five_bits)
    × Returns 70 (λ j. digit five_bits j && digit (bits_of 6) j) (and_assign (bits_of 6) five_bits)
    × Returns 70 (λ j. digit five_bits j || digit (bits_of 6) j) (or_assign (bits_of 6) five_bits)
    × Returns 70
        (λ j. digit five_bits j && not (digit (bits_of 6) j))
        (minus_assign (bits_of 6) five_bits)
operators_lem_example = operators_lem five_bits-Holds (bits_of-Holds 6 (omega arith)) fives

transfer-IsTransferred_example :
    (r : Transferred) × (transfer_approximate_unsafe 3 (bits_of 6) 64 2 five_bits ≡ ok (some r))
    × IsTransferred 70 (digit five_bits) (digit (bits_of 6)) 2 r
transfer-IsTransferred_example =
    transfer-IsTransferred five_bits-Holds (bits_of-Holds 6 (omega arith)) 64 2 (omega arith)
      (omega arith)

few_bits : count (digit (bits_of 6)) 70 < 4
unfolding count
few_bits = omega arith

transfer_never_example : transfer_approximate_unsafe 1000 (bits_of 6) 0 4 five_bits ≡ ok none
transfer_never_example =
    transfer_never five_bits-Holds (bits_of-Holds 6 (omega arith)) 0 4 (omega arith) (omega arith)
      few_bits 1000

members_lem_example :
    (FixedDenseBitset.get 70 65 (two_words 5) ≡ ok true)
    × Writes 70 true
        (update (digit five_bits) 65 false)
        (FixedDenseBitset.set_to 70 65 false (two_words 5))
    × Writes 70 true
        (update (digit five_bits) 65 false)
        (FixedDenseBitset.set_unsync 70 65 false (two_words 5))
    × (FixedDenseBitset.next_bit 70 65 (two_words 5) ≡ ok none)
unfolding as_dense words seek
members_lem_example =
    members_lem 70 65 false (digit five_bits) (two_words 5) five_bits-Holds (omega arith)
