-- ===== src/FixedDenseBitset/Equivalence.antt =====
-- A fixed bitset, and the bitset with the same words and that length.
use graphlabapi_graphlab.Prelude.{
  ℕ, ◌%◌, ◌/◌, ◌≡◌, refl, sym, ltb, ◌==◌, Bool, true, false, Bool-cases, inl, inr, ap,
}
use graphlabapi_graphlab.Prelude.Run.{Run, ok, ◌>>=◌}
use cubical.Cubical.Foundations.Prelude.{fun_ext}
use graphlabapi_graphlab.DenseBitset
use graphlabapi_graphlab.DenseBitset.{Bitset, words}
use graphlabapi_graphlab.DenseBitset.Members.{for_each-eq}
use graphlabapi_graphlab.DenseBitset.Search
use graphlabapi_graphlab.FixedDenseBitset.{
  Words, arrlen, fix_trailing_bits, clear, fill, is_empty, containing_word, get, set_bit, clear_bit,
  set_bit_unsync, clear_bit_unsync, set_to, set_unsync, first_bit, first_zero_bit, next_bit, begin,
  advance, popcount,
}

unfoldable pub as_dense : ℕ → Words → Bitset
as_dense n a = record { array = a; len = n; arrlen = words n }

-- The answer of a call, with the bitset that it leaves.
abbrev pub dense_answer : ℕ → Run (Bool × Words) → Run (Bool × Bitset)
dense_answer n m = m >>= λ (old, a). ok (old, as_dense n a)

module _ (n : ℕ) (a : Words) where
  containing_word-eq :
      (b : ℕ) → containing_word n b a ≡ DenseBitset.containing_word b (as_dense n a)
  unfolding containing_word as_dense DenseBitset.containing_word arrlen
  containing_word-eq b = refl

  set_to-eq :
      (b : ℕ) (v : Bool) → dense_answer n (set_to n b v a) ≡ DenseBitset.set_to b v (as_dense n a)
  unfolding set_to set_bit clear_bit containing_word as_dense arrlen DenseBitset.set_to
      DenseBitset.set_bit DenseBitset.clear_bit DenseBitset.containing_word
  set_to-eq b true = elim (Bool-cases (ltb (b / 64) (words n))) [
    | inl e ↦ rw e refl
    | inr e ↦ rw e refl
  ]
  set_to-eq b false = elim (Bool-cases (ltb (b / 64) (words n))) [
    | inl e ↦ rw e refl
    | inr e ↦ rw e refl
  ]

  set_unsync-eq :
      (b : ℕ) (v : Bool)
      → dense_answer n (set_unsync n b v a) ≡ DenseBitset.set_unsync b v (as_dense n a)
  unfolding set_unsync set_bit_unsync clear_bit_unsync get containing_word as_dense arrlen
      DenseBitset.set_unsync DenseBitset.set_bit_unsync DenseBitset.clear_bit_unsync DenseBitset.get
      DenseBitset.containing_word
  set_unsync-eq b true = elim (Bool-cases (ltb (b / 64) (words n))) [
    | inl e ↦ rw e refl
    | inr e ↦ rw e refl
  ]
  set_unsync-eq b false = elim (Bool-cases (ltb (b / 64) (words n))) [
    | inl e ↦ rw e refl
    | inr e ↦ rw e refl
  ]

  fill-eq : as_dense n (fill n a) ≡ DenseBitset.fill (as_dense n a)
  unfolding fill fix_trailing_bits as_dense arrlen DenseBitset.fill DenseBitset.fix_trailing_bits
  fill-eq = elim (Bool-cases (n % 64 == 0)) [ inl e ↦ rw e refl | inr e ↦ rw e refl ]

  clear-eq : as_dense n (clear n a) ≡ DenseBitset.clear (as_dense n a)
  unfolding clear as_dense arrlen DenseBitset.clear
  clear-eq =
      ap (λ (f : Words). record { array = f; len = n; arrlen = words n })
        (fun_ext (λ i. sym (for_each-eq (λ _ _. 0) (words n) a i)))

  -- The calls on one position answer the same and leave the same words.
  pub accesses_lem :
      (b : ℕ) (v : Bool)
      → (get n b a ≡ DenseBitset.get b (as_dense n a))
        × (dense_answer n (set_to n b v a) ≡ DenseBitset.set_to b v (as_dense n a))
        × (dense_answer n (set_unsync n b v a) ≡ DenseBitset.set_unsync b v (as_dense n a))
        × (next_bit n b a ≡ DenseBitset.Search.next_bit b (as_dense n a))
        × (advance n b a ≡ DenseBitset.Search.advance b (as_dense n a))
  unfolding get advance next_bit as_dense DenseBitset.get DenseBitset.Search.advance
      DenseBitset.Search.next_bit arrlen containing_word DenseBitset.containing_word
  accesses_lem b v = (refl, set_to-eq b v, set_unsync-eq b v, refl, refl)

  -- The calls on the whole bitset answer the same and leave the same words.
  pub whole_lem :
      (is_empty n a ≡ DenseBitset.is_empty (as_dense n a))
      × (first_bit n a ≡ DenseBitset.Search.first_bit (as_dense n a))
      × (first_zero_bit n a ≡ DenseBitset.Search.first_zero_bit (as_dense n a))
      × (begin n a ≡ DenseBitset.Search.begin (as_dense n a))
      × (popcount n a ≡ DenseBitset.Search.popcount (as_dense n a))
      × (as_dense n (fill n a) ≡ DenseBitset.fill (as_dense n a))
      × (as_dense n (clear n a) ≡ DenseBitset.clear (as_dense n a))
  unfolding is_empty first_bit first_zero_bit begin popcount as_dense arrlen DenseBitset.is_empty
      DenseBitset.Search.first_bit DenseBitset.Search.first_zero_bit DenseBitset.Search.begin
      DenseBitset.Search.popcount
  whole_lem = (refl, refl, refl, refl, refl, fill-eq, clear-eq)
