-- ===== src/DenseBitset/Search/Next.antt =====
-- The searches of `dense_bitset`, and the set searched position by position.
use graphlabapi_graphlab.Prelude.{
  ℕ, zero, suc, ◌+◌, ◌-◌, ◌*◌, ◌/◌, ◌%◌, ◌≤◌, ◌<◌, ◌≡◌, sym, subst, ap, ◌∙◌, arith, ltb, ◌==◌, Bool,
  false, not, ◌&&◌, Option, some, inl, inr, if_split,
}
use graphlabapi_graphlab.Prelude.Run.{ok}
use graphlabapi_graphlab.Prelude.Bits.{bit, bit-zero}
use graphlabapi_graphlab.DenseBitset.{
  Bitset, complement, first_bit_in_block, next_bit_in_block, bitpos, words,
}
use graphlabapi_graphlab.DenseBitset.Members.{
  Holds, digit, digit-member, complement-fits, covers, inside, word_fits, word_at,
  bit-complement_word,
}
use graphlabapi_graphlab.DenseBitset.Search.{scan, first_bit, first_zero_bit, next_bit}
use graphlabapi_graphlab.DenseBitset.Search.Words.{
  first_bit_in_block-IsLowest, next_bit_in_block-cases, IsAbove,
}
use graphlabapi_graphlab.DenseBitset.Search.Least.{
  seek, IsLeast, IsLeast-lower, IsLeast-upper, IsLeast-seek,
}

-- Digits of the array, from word `i` on, for any array of words.
abbrev pub digits : (ℕ → ℕ) → ℕ → Bool
digits a j = bit (j % 64) (a (j / 64))

word_zeros :
    (a : ℕ → ℕ) (i : ℕ) (c : ℕ)
    → c ≤ 64
    → ((k : ℕ) → k < c → bit k (a i) ≡ false)
    → (j : ℕ) → 64 * i ≤ j
    → j < 64 * i + c
    → digits a j ≡ false
word_zeros a i c h zeros j low high =
    let word : j / 64 ≡ i = omega (arith, low, high, h) in
    rw word (zeros (j % 64) (omega (arith, low, high, h, word)))

scan-IsLeast :
    (a : ℕ → ℕ) (i n : ℕ)
    → ((k : ℕ) → k < i + n → a k < 18446744073709551616)
    → IsLeast (digits a) (64 * i) (64 * (i + n)) (scan a i n)
unfolding scan
scan-IsLeast a i zero fits = λ j k h. absurd (omega (arith, k, h))
scan-IsLeast a i (suc n) fits =
    if_split (λ r. IsLeast (digits a) (64 * i) (64 * (i + suc n)) r) (not (a i == 0))
      (λ e.
        let low =
          first_bit_in_block-IsLowest (a i) (fits i (omega arith)) (λ z. ground (arith, e, z)) in
        let c = first_bit_in_block (a i) in
        let word : (i * 64 + c) / 64 ≡ i = omega (arith, low.below_n) in
        let pos : (i * 64 + c) % 64 ≡ c = omega (arith, low.below_n) in
        (
          omega arith,
          omega (arith, low.below_n),
          rw (word, pos) low.one,
          λ j k h. word_zeros a i c (omega (arith, low.below_n)) low.zeros j k (omega (arith, h)),
        ))
      (λ e.
        let none_here : a i ≡ 0 = ground (arith, e) in
        IsLeast-lower (digits a) (64 * i) (64 * suc i) (64 * (i + suc n)) (scan a (suc i) n)
          (omega arith) (word_zeros_all a i none_here)
          (subst (λ t. IsLeast (digits a) (64 * suc i) (64 * t) (scan a (suc i) n)) (omega arith)
            (scan-IsLeast a (suc i) n (λ k h. fits k (omega (arith, h))))))
  where
    word_zeros_all :
        (a : ℕ → ℕ) (i : ℕ) → a i ≡ 0 → (j : ℕ) → 64 * i ≤ j → j < 64 * suc i → digits a j ≡ false
    word_zeros_all a i z j k h =
        word_zeros a i 64 (omega arith) (λ b _. rw z (bit-zero b)) j k (omega (arith, h))

scan_all :
    (a : ℕ → ℕ) (n : ℕ)
    → ((k : ℕ) → k < n → a k < 18446744073709551616)
    → IsLeast (digits a) 0 (64 * n) (scan a 0 n)
scan_all a n fits =
    subst (λ t. IsLeast (digits a) 0 (64 * t) (scan a 0 n)) (omega arith)
      (scan-IsLeast a 0 n (λ k h. fits k (omega (arith, h))))

-- The word of a position behind `b` in the word of `b`.
digit_here :
    (a : ℕ → ℕ) (b : ℕ) (c : ℕ)
    → c ≤ 64
    → ((k : ℕ) → b % 64 < k → k < c → bit k (a (b / 64)) ≡ false)
    → (j : ℕ) → suc b ≤ j
    → j < b / 64 * 64 + c
    → digits a j ≡ false
digit_here a b c h zeros j above low =
    let word : j / 64 ≡ b / 64 = omega (arith, above, low, h) in
    rw word (zeros (j % 64) (omega (arith, above, word)) (omega (arith, low, word)))

module _ {n : ℕ} {f : ℕ → Bool} {s : Bitset} (h : Holds n f s) where
  -- From a position on, a search of the array's digits is one of the set's positions.
  found-eq :
      (lo : ℕ) (r : Option ℕ)
      → lo ≤ n
      → IsLeast (digit s) lo (64 * s.arrlen) r
      → r ≡ seek f lo (n - lo)
  found-eq lo r le l = IsLeast-seek f lo (n - lo) r (
      subst (λ t. IsLeast f lo t r) (omega (arith, le))
        (IsLeast-upper (digit s) f lo n (64 * s.arrlen) r (covers h) h.members
          (λ j past low. h.valid.trimmed j (subst (λ t. t ≤ j) (sym h.long) past) low) l))

  -- The first bit that is set is the least member of the set, if it has any.
  pub first_bit-seek : first_bit s ≡ seek f 0 n
  unfolding first_bit
  first_bit-seek =
      found-eq 0 (scan s.array 0 s.arrlen) (omega arith) (scan_all s.array s.arrlen h.valid.fits)
      ∙ ap (seek f 0) (omega arith)

  module _ (b : ℕ) (low : b < n) where
    next_in_word :
        IsAbove (b % 64) (s.array (b / 64)) (next_bit_in_block (bitpos b) (s.array (b / 64)))
        → IsLeast
            (digit s)
            (suc b)
            (64 * s.arrlen)
            (some (b / 64 * 64 + next_bit_in_block (bitpos b) (s.array (b / 64))))
    next_in_word a =
        let c = next_bit_in_block (bitpos b) (s.array (b / 64)) in
        let lt : c < 64 = a.below_64 in
        let word : (b / 64 * 64 + c) / 64 ≡ b / 64 = omega (arith, lt) in
        let pos : (b / 64 * 64 + c) % 64 ≡ c = omega (arith, lt) in
        let within = inside h b low in
        (
          omega (arith, a.above),
          omega (arith, lt, within),
          rw (word, pos) a.one,
          digit_here s.array b c (omega (arith, lt)) a.zeros,
        )

    next_in_rest :
        ((j : ℕ) → b % 64 < j → j < 64 → bit j (s.array (b / 64)) ≡ false)
        → IsLeast
            (digit s)
            (suc b)
            (64 * s.arrlen)
            (scan s.array (b / 64 + 1) (s.arrlen - (b / 64 + 1)))
    next_in_rest zeros =
        let within = inside h b low in
        let rest = scan s.array (b / 64 + 1) (s.arrlen - (b / 64 + 1)) in
        let whole : b / 64 + 1 + (s.arrlen - (b / 64 + 1)) ≡ s.arrlen = omega (arith, within) in
        IsLeast-lower (digit s) (suc b) (64 * (b / 64 + 1)) (64 * s.arrlen) rest (omega arith)
          (λ j above lt. digit_here s.array b 64 (omega arith) zeros j above (omega (arith, lt)))
          (subst (λ t. IsLeast (digit s) (64 * (b / 64 + 1)) (64 * t) rest) whole
            (scan-IsLeast s.array (b / 64 + 1) (s.arrlen - (b / 64 + 1))
              (λ k lt. h.valid.fits k (omega (arith, lt, whole)))))

    -- Behind a position below the length, the next bit is the least member behind it.
    pub next_bit-seek : next_bit b s ≡ ok (seek f (suc b) (n - suc b))
    unfolding next_bit
    next_bit-seek =
        let c = next_bit_in_block (bitpos b) (s.array (b / 64)) in
        elim (next_bit_in_block-cases b (s.array (b / 64)) (word_fits h b low)) [
          | inl a ↦
              let hit : (c == 0) ≡ false = ground (arith, a.above) in
              rw (word_at h b low, hit) (ap ok (found-eq (suc b) _ low (next_in_word a)))
          | inr (nothing, zeros) ↦
              rw (word_at h b low, nothing) (ap ok (found-eq (suc b) _ low (next_in_rest zeros)))
        ]

-- The first bit that is clear is sought in the whole array: it may lie past the length.
pub first_zero_bit-seek :
    {n : ℕ} {f : ℕ → Bool} {s : Bitset}
    → Holds n f s
    → first_zero_bit s ≡ seek (λ j. not (ltb j n && f j)) 0 (64 * words n)
unfolding first_zero_bit
first_zero_bit-seek {n} {f} {s} h =
    let all : s.arrlen ≡ words n = h.valid.sized ∙ ap words h.long in
    let a : ℕ → ℕ = λ i. complement (s.array i) in
    let bits : (j : ℕ) → j < 64 * s.arrlen → digits a j ≡ not (ltb j n && f j) = λ j lt.
      bit-complement_word (s.array (j / 64)) (j % 64) (omega arith)
        (h.valid.fits (j / 64) (omega (arith, lt)))
      ∙ ap not (digit-member h j lt) in
    rw (sym all) (
      IsLeast-seek _ 0 (64 * s.arrlen) (scan a 0 s.arrlen) (
        subst (λ t. IsLeast (λ j. not (ltb j n && f j)) 0 t (scan a 0 s.arrlen)) (omega arith)
          (IsLeast-upper (digits a) _ 0 (64 * s.arrlen) (64 * s.arrlen) (scan a 0 s.arrlen)
            (omega arith) bits (λ j past lt. absurd (omega (arith, past, lt)))
            (scan_all a s.arrlen (λ k lt. complement-fits (s.array k))))))
