-- ===== src/DenseBitset/Search/Answers.antt =====
-- The searches of `dense_bitset` that go over the whole bitset, together.
use graphlabapi_graphlab.Prelude.{
  ℕ, zero, suc, ◌*◌, ◌≡◌, refl, ap, ◌∙◌, ltb, ◌==◌, Bool, true, false, not, ◌&&◌, Option, none,
  some, Bool-cases, inl, inr,
}
use graphlabapi_graphlab.DenseBitset.{Bitset, words, all_zero, is_empty}
use graphlabapi_graphlab.DenseBitset.Members.{Holds}
use graphlabapi_graphlab.DenseBitset.Search.{scan, first_bit, first_zero_bit, popcount}
use graphlabapi_graphlab.DenseBitset.Search.Least.{seek}
use graphlabapi_graphlab.DenseBitset.Search.Next.{first_bit-seek, first_zero_bit-seek}
use graphlabapi_graphlab.DenseBitset.Search.Count.{count, popcount-count}

abbrev pub is_none : Option ℕ → Bool
is_none none = true
is_none (some b) = false

all_zero-scan : (a : ℕ → ℕ) (i n : ℕ) → all_zero a i n ≡ is_none (scan a i n)
unfolding all_zero scan
all_zero-scan a i zero = refl
all_zero-scan a i (suc n) = elim (Bool-cases (not (a i == 0))) [
  | inl e ↦ rw e refl
  | inr e ↦ rw e (all_zero-scan a (suc i) n)
]

-- On a consistent bitset, first_bit answers the least member of the set, empty whether there is
-- none, popcount the size of the set, and first_zero_bit the least position outside of the set that
-- the words have, be it below the length or not.
pub searches_lem :
    {n : ℕ} {f : ℕ → Bool} {s : Bitset}
    → Holds n f s
    → (first_bit s ≡ seek f 0 n)
      × (is_empty s ≡ is_none (seek f 0 n))
      × (popcount s ≡ count f n)
      × (first_zero_bit s ≡ seek (λ j. not (ltb j n && f j)) 0 (64 * words n))
unfolding is_empty first_bit
searches_lem {n} {f} {s} h = (
  first_bit-seek h,
  all_zero-scan s.array 0 s.arrlen ∙ ap is_none (first_bit-seek h),
  popcount-count h,
  first_zero_bit-seek h,
)
