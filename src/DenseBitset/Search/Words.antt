-- ===== src/DenseBitset/Search/Words.antt =====
-- The searches in one word.
use Prim.Native.Nat.{bit_and, bit_or}
use native.Mathlib.Nat.{pow-suc, pow-le-pow_right}
use graphlabapi_graphlab.Prelude.{
  ℕ, zero, suc, ◌-◌, ◌/◌, ◌%◌, ◌^◌, ◌≤◌, ◌<◌, ◌≡◌, ◌≢◌, refl, sym, ap, arith, ltb, ◌==◌, Bool, true,
  false, ◌&&◌, ◌⊎◌, ◌∙◌, and_first, and_second, inl, inr, if_split, ==_iff, ltb→lt, lt→ltb,
}
use graphlabapi_graphlab.Prelude.Bits.{
  is_odd, bit, bit-pow, bit-ones, bit-zero, bit-complement, bit-bit_and, bit-bit_or, bit_or-lt,
  bit_and-63, bit_and-le,
}
use graphlabapi_graphlab.DenseBitset.{
  ctz, below_selected, first_bit_in_block, next_bit_in_block, bitpos,
}
use graphlabapi_graphlab.DenseBitset.Members.{one_shl_small}

-- A word that is not 0 has its lowest one where `ctz` says.
pub record IsLowest (n w c : ℕ) : Type 0 where
  pub below_n : c < n
  pub one : bit c w ≡ true
  pub zeros : (j : ℕ) → j < c → bit j w ≡ false

pub ctz-IsLowest : (n w : ℕ) → w < 2 ^ n → w ≢ 0 → IsLowest n w (ctz n w)
unfolding ctz
ctz-IsLowest zero w h d = absurd (d (omega (arith, h)))
ctz-IsLowest (suc n) w h d =
    if_split (λ c. IsLowest (suc n) w c) (is_odd w)
      (λ e. record { below_n = omega arith; one = e; zeros = λ j k. absurd (omega (arith, k)) })
      (λ e.
        let half =
          ctz-IsLowest n (w / 2) (omega (arith, h, pow-suc 2 n)) (λ z. ground (arith, e, z, d)) in
        record {
          below_n = omega (arith, half.below_n);
          one = half.one;
          zeros = lower n w half.zeros e;
        })
  where
    lower :
        (n w : ℕ)
        → ((j : ℕ) → j < ctz n (w / 2) → bit j (w / 2) ≡ false)
        → is_odd w ≡ false
        → (j : ℕ) → j < suc (ctz n (w / 2))
        → bit j w ≡ false
    lower n w z e zero k = e
    lower n w z e (suc j) k = z j (omega (arith, k))

pub first_bit_in_block-IsLowest :
    (w : ℕ) → w < 18446744073709551616 → w ≢ 0 → IsLowest 64 w (first_bit_in_block w)
unfolding first_bit_in_block
first_bit_in_block-IsLowest w h d =
    if_split (λ c. IsLowest 64 w c) (w == 0) (λ e. absurd (d ((==_iff w 0).0 e)))
      (λ _. ctz-IsLowest 64 w h d)

-- The mask of the positions above `b`.
bit-below_selected : (b k : ℕ) → k < 64 → bit k (below_selected (b % 64)) ≡ ltb (b % 64) k
unfolding below_selected
bit-below_selected b k h =
    let p = b % 64 in
    let bound : 2 ^ p ≤ 2 ^ 63 =
      pow-le-pow_right {n = 2} (omega arith) {i = p} {j = 63} (omega arith) in
    let fits = bit_or-lt 64 (2 ^ p - 1) (2 ^ p) (omega (arith, bound)) (omega (arith, bound)) in
    rw
      (
        one_shl_small b,
        bit-complement 64 k (bit_or (2 ^ p - 1) (2 ^ p)) h fits,
        bit-bit_or k (2 ^ p - 1) (2 ^ p),
        bit-ones p k,
        bit-pow p k,
      )
      (ground arith)

pub record IsAbove (b w c : ℕ) : Type 0 where
  pub above : b < c
  pub below_64 : c < 64
  pub one : bit c w ≡ true
  pub zeros : (j : ℕ) → b < j → j < c → bit j w ≡ false

and_left : (a b : Bool) → a && b ≡ false → b ≡ true → a ≡ false
and_left true true h e = h
and_left true false h e = sym e
and_left false b h e = refl

-- The search above a position answers the next one of the word, or 0 if there is none.
pub next_bit_in_block-cases :
    (b w : ℕ)
    → w < 18446744073709551616
    → IsAbove (b % 64) w (next_bit_in_block (bitpos b) w)
      ⊎ (next_bit_in_block (bitpos b) w ≡ 0) × ((j : ℕ) → b % 64 < j → j < 64 → bit j w ≡ false)
unfolding next_bit_in_block
next_bit_in_block-cases b w h =
    let x = bit_and w (below_selected (bitpos b)) in
    let digits : (k : ℕ) → k < 64 → bit k x ≡ bit k w && ltb (b % 64) k = λ k lt.
      rw (bit_and-63 b, bit-bit_and k w (below_selected (b % 64)), bit-below_selected b k lt)
        refl in
    if_split
      (λ c. IsAbove (b % 64) w c ⊎ (c ≡ 0) × ((j : ℕ) → b % 64 < j → j < 64 → bit j w ≡ false))
      (x == 0)
      (λ e. inr (
        refl,
        λ j above lt.
            and_left (bit j w) (ltb (b % 64) j)
              (sym (digits j lt) ∙ ap (bit j) ((==_iff x 0).0 e) ∙ bit-zero j) (lt→ltb _ _ above),
      ))
      (λ e.
        let low =
          ctz-IsLowest 64 x (omega (arith, bit_and-le w (below_selected (bitpos b)), h))
            (λ z. ground (arith, e, z)) in
        let both = sym (digits (ctz 64 x) low.below_n) ∙ low.one in
        inl record {
          above = ltb→lt _ _ (and_second _ _ both);
          below_64 = low.below_n;
          one = and_first _ _ both;
          zeros = λ j above lt.
              let inner = low.below_n in
              and_left (bit j w) (ltb (b % 64) j)
                (sym (digits j (omega (arith, lt, inner))) ∙ low.zeros j lt) (lt→ltb _ _ above);
        })
