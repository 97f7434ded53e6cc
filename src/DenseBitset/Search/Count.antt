-- ===== src/DenseBitset/Search/Count.antt =====
-- `popcount` of `dense_bitset`, and the size of the set.
use graphlabapi_graphlab.Prelude.{
  ℕ, zero, suc, ◌+◌, ◌-◌, ◌*◌, ◌/◌, ◌%◌, ◌≤◌, ◌<◌, ◌≡◌, refl, sym, ap, ◌∙◌, arith, if◌then◌else◌,
  Bool, false,
}
use graphlabapi_graphlab.Prelude.Bits.{bit}
use graphlabapi_graphlab.DenseBitset.{Bitset, ones}
use graphlabapi_graphlab.DenseBitset.Members.{Holds, covers, past_end}
use graphlabapi_graphlab.DenseBitset.Search.{ones_of, popcount}
use graphlabapi_graphlab.DenseBitset.Search.Next.{digits}

-- How many of the first `n` positions are in the set.
unfoldable pub count : (ℕ → Bool) → ℕ → ℕ
count f zero = 0
count f (suc n) = count f n + (if f n then 1 else 0)

at : (f : ℕ → Bool) (n m : ℕ) → n ≡ m → count f n ≡ count f m
at f n m e = ap (count f) e

count_congr : (f g : ℕ → Bool) (n : ℕ) → ((j : ℕ) → j < n → f j ≡ g j) → count f n ≡ count g n
unfolding count
count_congr f g zero h = refl
count_congr f g (suc n) h =
    rw (h n (omega arith), count_congr f g n (λ j k. h j (omega arith))) refl

count-plus : (f : ℕ → Bool) (n m : ℕ) → count f (n + m) ≡ count f n + count (λ j. f (n + j)) m
unfolding count
count-plus f n zero = omega (arith, at f (n + 0) (n) (omega arith))
count-plus f n (suc m) =
    omega (arith, count-plus f n m, at f (n + suc m) (suc (n + m)) (omega arith))

count_none :
    (f : ℕ → Bool) (n m : ℕ)
    → ((j : ℕ) → n ≤ j → j < n + m → f j ≡ false)
    → count f (n + m) ≡ count f n
unfolding count
count_none f n zero h = at f (n + 0) n (omega arith)
count_none f n (suc m) h = ground (
  arith,
  at f (n + suc m) (suc (n + m)) (omega arith),
  count_none f n m (λ j k l. h j k (omega (arith, l))),
  h (n + m) (omega arith) (omega arith),
)

count_first :
    (f : ℕ → Bool) (n : ℕ) → count f (suc n) ≡ (if f 0 then 1 else 0) + count (λ j. f (suc j)) n
unfolding count
count_first f zero = omega arith
count_first f (suc n) = omega (arith, count_first f n)

ones-count : (n w : ℕ) → ones n w ≡ count (λ j. bit j w) n
unfolding ones count
ones-count zero w = refl
ones-count (suc n) w = ground (arith, count_first (λ j. bit j w) n, ones-count n (w / 2))

digit_in : (a : ℕ → ℕ) (n j : ℕ) → j < 64 → digits a (64 * n + j) ≡ bit j (a n)
digit_in a n j lt =
    let word : (64 * n + j) / 64 ≡ n = omega (arith, lt) in
    let pos : (64 * n + j) % 64 ≡ j = omega (arith, lt) in rw (word, pos) refl

ones_of-count : (a : ℕ → ℕ) (n : ℕ) → ones_of a n ≡ count (digits a) (64 * n)
unfolding ones_of count
ones_of-count a zero = refl
ones_of-count a (suc n) =
    let word =
      count_congr (λ j. digits a (64 * n + j)) (λ j. bit j (a n)) 64 (λ j lt. digit_in a n j lt) in
    omega (
      arith,
      ones_of-count a n,
      ones-count 64 (a n),
      word,
      count-plus (digits a) (64 * n) 64,
      at (digits a) (64 * suc n) (64 * n + 64) (omega arith),
    )

-- popcount answers the size of the set.
pub popcount-count : {n : ℕ} {f : ℕ → Bool} {s : Bitset} → Holds n f s → popcount s ≡ count f n
unfolding popcount
popcount-count {n} {f} {s} h =
    let size : n + (64 * s.arrlen - n) ≡ 64 * s.arrlen = omega (arith, covers h) in
    ones_of-count s.array s.arrlen
    ∙ at (digits s.array) (64 * s.arrlen) (n + (64 * s.arrlen - n)) (sym size)
    ∙ count_none (digits s.array) n (64 * s.arrlen - n)
        (λ j past lt. past_end h j past (omega (arith, lt, size)))
    ∙ count_congr (digits s.array) f n h.members
