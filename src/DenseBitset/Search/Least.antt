-- ===== src/DenseBitset/Search/Least.antt =====
-- The search for the least member of a set, which the searches of `dense_bitset` are compared with.
use graphlabapi_graphlab.Prelude.{
  ℕ, zero, suc, ◌+◌, ◌≤◌, ◌<◌, ◌≡◌, ◌≢◌, refl, sym, ap, ◌∙◌, arith, if◌then◌else◌, Bool, true,
  false, Option, none, some, Bool-cases, lt_or_le, inl, inr,
}

-- The first of the `n` positions from `k` on that is in the set.
unfoldable pub seek : (ℕ → Bool) → ℕ → ℕ → Option ℕ
seek f k zero = none
seek f k (suc n) = let rest = seek f (suc k) n in if f k then some k else rest

-- `r` is the least position of the set from `lo` up to `hi`.
abbrev pub IsLeast : (ℕ → Bool) → ℕ → ℕ → Option ℕ → Type 0
IsLeast f lo hi none = (j : ℕ) → lo ≤ j → j < hi → f j ≡ false
IsLeast f lo hi (some b) =
    (lo ≤ b) × (b < hi) × (f b ≡ true) × ((j : ℕ) → lo ≤ j → j < b → f j ≡ false)

pub IsLeast-lower :
    (f : ℕ → Bool) (lo mid hi : ℕ) (r : Option ℕ)
    → lo ≤ mid
    → ((j : ℕ) → lo ≤ j → j < mid → f j ≡ false)
    → IsLeast f mid hi r
    → IsLeast f lo hi r
IsLeast-lower f lo mid hi none le before l =
    λ j k h. elim (lt_or_le j mid) [ inl e ↦ before j k e | inr e ↦ l j e h ]
IsLeast-lower f lo mid hi (some b) le before (x, y, z, w) = (
  omega (arith, le, x),
  y,
  z,
  λ j k h. elim (lt_or_le j mid) [ inl e ↦ before j k e | inr e ↦ w j e h ],
)

pub IsLeast-upper :
    (f g : ℕ → Bool) (lo n hi : ℕ) (r : Option ℕ)
    → n ≤ hi
    → ((j : ℕ) → j < n → f j ≡ g j)
    → ((j : ℕ) → n ≤ j → j < hi → f j ≡ false)
    → IsLeast f lo hi r
    → IsLeast g lo n r
IsLeast-upper f g lo n hi none le same past l =
    λ j k h. sym (same j h) ∙ l j k (omega (arith, le, h))
IsLeast-upper f g lo n hi (some b) le same past (x, y, z, w) = elim (lt_or_le b n) [
  | inl e ↦ (x, e, sym (same b e) ∙ z, λ j k h. sym (same j (omega (arith, h, e))) ∙ w j k h)
  | inr e ↦ ground (arith, z, past b e y)
]

next_pos : (lo b : ℕ) → lo ≤ b → lo ≢ b → suc lo ≤ b
next_pos lo b h d = omega (arith, h, d)

-- There is one least position only.
pub IsLeast-seek :
    (f : ℕ → Bool) (lo n : ℕ) (r : Option ℕ) → IsLeast f lo (lo + n) r → r ≡ seek f lo n
unfolding seek
IsLeast-seek f lo zero none l = refl
IsLeast-seek f lo zero (some b) (x, y, z, w) = absurd (omega (arith, x, y))
IsLeast-seek f lo (suc n) none l =
    rw (l lo (omega arith) (omega arith))
      (IsLeast-seek f (suc lo) n none (λ j k h. l j (omega (arith, k)) (omega (arith, h))))
IsLeast-seek f lo (suc n) (some b) (x, y, z, w) = elim (Bool-cases (f lo)) [
  | inl e ↦ elim (lt_or_le lo b) [
    | inl before ↦ ground (arith, e, w lo (omega arith) before)
    | inr after ↦ let same : b ≡ lo = omega (arith, x, after) in rw (e, same) refl
  ]
  | inr e ↦ rw e (
      IsLeast-seek f (suc lo) n (some b) (
        next_pos lo b x (λ same. ground (arith, e, z, ap f same)),
        omega (arith, y),
        z,
        λ j k h. w j (omega (arith, k)) h,
      ))
]
