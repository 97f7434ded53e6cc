-- ===== src/DenseBitset/Members.antt =====
-- The set of positions that a bitset stands for, and what a consistent bitset is.
use native.Mathlib.Nat.{pow-le-pow_right, mod-eq_of_lt}
use graphlabapi_graphlab.Prelude.{
  ℕ, zero, suc, ◌*◌, ◌/◌, ◌%◌, ◌^◌, ◌≤◌, ◌<◌, ◌≡◌, refl, sym, subst, ap, arith, ltb, ◌==◌,
  if◌then◌else◌, Bool, true, false, not, ◌&&◌, eq_cases, lt_or_le, inl, inr, if_split, lt→ltb,
  ==_iff,
}
use graphlabapi_graphlab.Prelude.Run.{ok}
use graphlabapi_graphlab.Prelude.Updates.{update, update_self, update_other, update_cases}
use graphlabapi_graphlab.Prelude.Bits.{bit, bit-complement, bit_and-63, bit_and-pow}
use graphlabapi_graphlab.DenseBitset.{
  Bitset, one_shl, complement, words, meets, mask_of, write, containing_word, for_each,
}

-- The digit of the array at a position, and the bit of the set: none lies past the length.
abbrev pub digit : Bitset → ℕ → Bool
digit s j = bit (j % 64) (s.array (j / 64))

abbrev pub member : Bitset → ℕ → Bool
member s j = ltb j s.len && digit s j

-- The array has the words that the length needs, each fits 64 bits, and past the length are zeros.
pub record IsValid (s : Bitset) : Type 0 where
  pub sized : s.arrlen ≡ words s.len
  pub fits : (i : ℕ) → i < s.arrlen → s.array i < 18446744073709551616
  pub trimmed : (j : ℕ) → s.len ≤ j → j < 64 * s.arrlen → digit s j ≡ false

-- The bitset is consistent, has `n` bits, and they are the digits of `f`.
pub record Holds (n : ℕ) (f : ℕ → Bool) (s : Bitset) : Type 0 where
  pub valid : IsValid s
  pub long : s.len ≡ n
  pub members : (j : ℕ) → j < n → digit s j ≡ f j

-- Positions and words.
pub words_enough : (n b : ℕ) → b < n → b / 64 < words n
unfolding words
words_enough n b h = ground (arith, h)

pub words_cover : (n : ℕ) → n ≤ 64 * words n
unfolding words
words_cover n = ground arith

pub words_tight : (n i : ℕ) → i < words n → 64 * i < n
unfolding words
words_tight n i h = ground (arith, h)

pub one_shl_small : (b : ℕ) → one_shl (b % 64) ≡ 2 ^ (b % 64)
unfolding one_shl
one_shl_small b =
    let bound : 2 ^ (b % 64) ≤ 2 ^ 63 =
      pow-le-pow_right {n = 2} (omega arith) {i = b % 64} {j = 63} (omega arith) in
    mod-eq_of_lt (omega (arith, bound))

pub meets-bit : (w b : ℕ) → meets w (mask_of b) ≡ bit (b % 64) w
meets-bit w b = rw (bit_and-63 b, one_shl_small b) (bit_and-pow (b % 64) w)

pub containing_word-ok :
    (s : Bitset) (b : ℕ) → b / 64 < s.arrlen → containing_word b s ≡ ok (s.array (b / 64))
unfolding containing_word
containing_word-ok s b h = rw (lt→ltb (b / 64) s.arrlen h) refl

-- One word is replaced.
pub digit-write :
    (s : Bitset) (i w j : ℕ)
    → digit (write i w s) j ≡ (if i == j / 64 then bit (j % 64) w else digit s j)
digit-write s i w j =
    if_split (λ (r : ℕ). bit (j % 64) r ≡ (if i == j / 64 then bit (j % 64) w else digit s j))
      (i == j / 64) (λ e. rw e refl) (λ e. rw e refl)

pub bit-complement_word :
    (w i : ℕ) → i < 64 → w < 18446744073709551616 → bit i (complement w) ≡ not (bit i w)
unfolding complement
bit-complement_word w i h k = bit-complement 64 i w h k

pub complement-fits : (w : ℕ) → complement w < 18446744073709551616
unfolding complement
complement-fits w = omega arith

module _ {n : ℕ} {f : ℕ → Bool} {s : Bitset} (h : Holds n f s) where
  pub covers : n ≤ 64 * s.arrlen
  covers = rw (h.valid.sized, h.long) (words_cover n)

  pub past_end : (j : ℕ) → n ≤ j → j < 64 * s.arrlen → digit s j ≡ false
  past_end j past low = h.valid.trimmed j (subst (λ t. t ≤ j) (sym h.long) past) low

-- The digits of the array are the set, and zeros behind it.
pub digit-member :
    {n : ℕ} {f : ℕ → Bool} {s : Bitset} (h : Holds n f s) (j : ℕ)
    → j < 64 * s.arrlen
    → digit s j ≡ (ltb j n && f j)
digit-member {n} {f} {s} h j lt = elim (lt_or_le j n) [
  | inl e ↦ rw (lt→ltb j n e) (h.members j e)
  | inr e ↦ let past : ltb j n ≡ false = ground arith in rw past (past_end h j e lt)
]

pub for_each-eq :
    (g : ℕ → ℕ → ℕ) (n : ℕ) (a : ℕ → ℕ) (i : ℕ)
    → for_each g n a i ≡ (if ltb i n then g i (a i) else a i)
unfolding for_each
for_each-eq g zero a i = let none : ltb i 0 ≡ false = ground arith in rw none refl
for_each-eq g (suc n) a i = elim (eq_cases n i) [
  | inl e ↦
      let last : update (for_each g n a) n (g n (for_each g n a n)) n
          ≡ (if ltb n (suc n) then g n (a n) else a n) =
        let none : ltb n n ≡ false = ground arith in
        let now : ltb n (suc n) ≡ true = ground arith in
        rw (update_self (for_each g n a) n (g n (for_each g n a n)), for_each-eq g n a n, none, now)
          refl in
      subst (λ k. for_each g (suc n) a k ≡ (if ltb k (suc n) then g k (a k) else a k)) e last
  | inr d ↦
      let same : ltb i (suc n) ≡ ltb i n = ground (arith, d) in
      rw (update_other (for_each g n a) (g n (for_each g n a n)) d, same) (for_each-eq g n a i)
]

-- A word is replaced by one that differs at the position of `b` only.
module _ {n : ℕ} {f : ℕ → Bool} {s : Bitset} (h : Holds n f s) (b : ℕ) (low : b < n) where
  pub inside : b / 64 < s.arrlen
  inside = rw (h.valid.sized, h.long) (words_enough n b low)

  pub word_fits : s.array (b / 64) < 18446744073709551616
  word_fits = h.valid.fits (b / 64) inside

  pub word_at : containing_word b s ≡ ok (s.array (b / 64))
  word_at = containing_word-ok s b inside

  module _ (v : Bool) (w : ℕ) (small : w < 18446744073709551616)
      (bits : (k : ℕ)
        → k < 64
        → bit k w ≡ (if k == b % 64 then v else bit k (s.array (b / 64)))) where
    digit-replaced : (j : ℕ) → digit (write (b / 64) w s) j ≡ (if b == j then v else digit s j)
    digit-replaced j = elim (eq_cases (b / 64) (j / 64)) [
      | inl e ↦
          let hit : (b / 64 == j / 64) ≡ true = (==_iff (b / 64) (j / 64)).1 e in
          let same : (j % 64 == b % 64) ≡ (b == j) = ground (arith, e) in
          let old : bit (j % 64) (s.array (b / 64)) ≡ digit s j =
            ap (λ i. bit (j % 64) (s.array i)) e in
          rw (digit-write s (b / 64) w j, hit, bits (j % 64) (omega arith), same, old) refl
      | inr d ↦
          let miss : (b / 64 == j / 64) ≡ false = ground (arith, d) in
          let differ : (b == j) ≡ false = ground (arith, d) in
          rw (digit-write s (b / 64) w j, miss, differ) refl
    ]

    pub write-Holds : Holds n (update f b v) (write (b / 64) w s)
    write-Holds = record {
      valid = record {
        sized = h.valid.sized;
        fits =
            update_cases (λ i x. i < s.arrlen → x < 18446744073709551616) s.array (b / 64) w
              (λ _. small) (λ i _ k. h.valid.fits i k);
        trimmed = λ j past within.
            let differ : (b == j) ≡ false = ground (arith, h.long) in
            rw (digit-replaced j, differ) (h.valid.trimmed j past within);
      };
      long = h.long;
      members = λ j k. rw (digit-replaced j, h.members j k) refl;
    }
