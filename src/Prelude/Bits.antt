-- ===== src/Prelude/Bits.antt =====
-- The binary digits of a number, and the machine's operations on words digit by digit.
use Prim.Native.Nat.{
  ℕ, zero, suc, ◌+◌, ◌-◌, ◌*◌, ◌/◌, ◌%◌, ◌^◌, ◌≤◌, ◌<◌, min, max, bit_and, bit_or, bit_xor, digits,
  differ, bitwise, bit_and-bitwise, bit_or-bitwise, bit_xor-bitwise,
}
use mathlib.Core.Path.{◌≡◌, refl, sym, subst, ◌∙◌}
use mathlib.Core.Bool.{Bool, true, false, not, ◌&&◌, ◌||◌}
use mathlib.Core.Logic.{inl, inr}
use native.Mathlib.Nat.{pow-suc, one-le-pow}
use native.Mathlib.Omega.{arith}
use graphlabapi_graphlab.Prelude.Tests.{◌==◌, ltb, ltb→lt, Bool-cases}

abbrev pub is_odd : ℕ → Bool
is_odd w = w % 2 == 1

-- Digit `i` of `w`, the lowest is digit 0.
abbrev pub bit : ℕ → ℕ → Bool
bit zero w = is_odd w
bit (suc i) w = bit i (w / 2)

abbrev pub xor : Bool → Bool → Bool
xor true b = not b
xor false b = b

-- More fuel than the first number changes nothing, so that the operations have one equation each.
module _ (z : ℕ → ℕ) (f : ℕ → ℕ → ℕ) where
  digits-suc : (n a b : ℕ) → a ≤ n → digits z f (suc n) a b ≡ digits z f n a b
  digits-suc zero (suc a) b none = absurd (omega (arith, none))
  digits-suc zero zero b none = refl
  digits-suc (suc n) zero b low = refl
  digits-suc (suc n) (suc a) b low =
      let half : suc a / 2 ≤ n = omega (arith, low) in rw (digits-suc n (suc a / 2) (b / 2) half)

  digits-plus : (k n fuel a b : ℕ) → a ≤ n → fuel ≡ k + n → digits z f fuel a b ≡ digits z f n a b
  digits-plus zero n fuel a b low e =
      let same : n ≡ fuel = omega (arith, e) in
      subst (λ t. digits z f t a b ≡ digits z f n a b) same refl
  digits-plus (suc k) n fuel a b low e =
      let more : suc (k + n) ≡ fuel = omega (arith, e) in
      subst (λ t. digits z f t a b ≡ digits z f n a b) more
        (digits-suc (k + n) a b (omega (arith, low)) ∙ digits-plus k n (k + n) a b low refl)

  -- The digits above the lowest are those of the halves.
  bitwise_halves :
      (a b : ℕ) → 0 < a → bitwise z f a b ≡ f (a % 2) (b % 2) + bitwise z f (a / 2) (b / 2) * 2
  bitwise_halves zero b positive = absurd (omega (arith, positive))
  bitwise_halves (suc a) b positive =
      let upper = suc a / 2 in
      omega (arith, digits-plus (a - upper) upper a upper (b / 2) (omega arith) (omega arith))

pub bit_and_step : (a b : ℕ) → bit_and a b ≡ min (a % 2) (b % 2) + bit_and (a / 2) (b / 2) * 2
bit_and_step zero b = simp bit_and-bitwise (omega arith)
bit_and_step (suc a) b = simp bit_and-bitwise (bitwise_halves (λ _. 0) min (suc a) b (omega arith))

pub bit_or_step : (a b : ℕ) → bit_or a b ≡ max (a % 2) (b % 2) + bit_or (a / 2) (b / 2) * 2
bit_or_step zero b = simp bit_or-bitwise (omega arith)
bit_or_step (suc a) b = simp bit_or-bitwise (bitwise_halves (λ y. y) max (suc a) b (omega arith))

differ-eq : (a b : ℕ) → differ a b ≡ (a - b) + (b - a)
differ-eq zero b = omega arith
differ-eq (suc a) zero = omega arith
differ-eq (suc a) (suc b) = omega (arith, differ-eq a b)

pub bit_xor_step :
    (a b : ℕ) → bit_xor a b ≡ ((a % 2 - b % 2) + (b % 2 - a % 2)) + bit_xor (a / 2) (b / 2) * 2
bit_xor_step zero b = simp bit_xor-bitwise (omega arith)
bit_xor_step (suc a) b =
    rw (sym (differ-eq (suc a % 2) (b % 2)))
      (simp bit_xor-bitwise (bitwise_halves (λ y. y) differ (suc a) b (omega arith)))

-- Digit by digit.
pub bit-bit_and : (i a b : ℕ) → bit i (bit_and a b) ≡ bit i a && bit i b
bit-bit_and zero a b = ground (arith, bit_and_step a b)
bit-bit_and (suc i) a b =
    let half : bit_and a b / 2 ≡ bit_and (a / 2) (b / 2) = omega (arith, bit_and_step a b) in
    rw half (bit-bit_and i (a / 2) (b / 2))

pub bit-bit_or : (i a b : ℕ) → bit i (bit_or a b) ≡ bit i a || bit i b
bit-bit_or zero a b = ground (arith, bit_or_step a b)
bit-bit_or (suc i) a b =
    let half : bit_or a b / 2 ≡ bit_or (a / 2) (b / 2) = omega (arith, bit_or_step a b) in
    rw half (bit-bit_or i (a / 2) (b / 2))

pub bit-bit_xor : (i a b : ℕ) → bit i (bit_xor a b) ≡ xor (bit i a) (bit i b)
bit-bit_xor zero a b = ground (arith, bit_xor_step a b)
bit-bit_xor (suc i) a b =
    let half : bit_xor a b / 2 ≡ bit_xor (a / 2) (b / 2) = omega (arith, bit_xor_step a b) in
    rw half (bit-bit_xor i (a / 2) (b / 2))

pub bit-zero : (i : ℕ) → bit i 0 ≡ false
bit-zero zero = refl
bit-zero (suc i) = bit-zero i

pub bit-pow : (i j : ℕ) → bit j (2 ^ i) ≡ (j == i)
bit-pow zero zero = refl
bit-pow zero (suc j) = rw (bit-zero j) (ground arith)
bit-pow (suc i) zero = ground (arith, pow-suc 2 i)
bit-pow (suc i) (suc j) =
    let half : 2 ^ suc i / 2 ≡ 2 ^ i = omega (arith, pow-suc 2 i) in
    rw (half, bit-pow i j) (ground arith)

-- The digits below `i`.
pub bit-ones : (i j : ℕ) → bit j (2 ^ i - 1) ≡ ltb j i
bit-ones zero j = rw (bit-zero j) (ground arith)
bit-ones (suc i) zero = ground (arith, pow-suc 2 i, one-le-pow i 2)
bit-ones (suc i) (suc j) =
    let half : (2 ^ suc i - 1) / 2 ≡ 2 ^ i - 1 = omega (arith, pow-suc 2 i, one-le-pow i 2) in
    rw (half, bit-ones i j) (ground arith)

pub bit-complement : (k i x : ℕ) → i < k → x < 2 ^ k → bit i (2 ^ k - 1 - x) ≡ not (bit i x)
bit-complement zero i x h small = absurd (omega arith)
bit-complement (suc k) zero x h small = ground (arith, pow-suc 2 k, one-le-pow k 2)
bit-complement (suc k) (suc i) x h small =
    let half : (2 ^ suc k - 1 - x) / 2 ≡ 2 ^ k - 1 - x / 2 =
      omega (arith, pow-suc 2 k, one-le-pow k 2, small) in
    rw half (bit-complement k i (x / 2) (omega arith) (omega (arith, pow-suc 2 k, small)))

bit_and-le_below : (n a b : ℕ) → a ≤ n → bit_and a b ≤ a
bit_and-le_below n zero b h = simp bit_and-bitwise (omega arith)
bit_and-le_below zero (suc a) b h = absurd (omega arith)
bit_and-le_below (suc n) (suc a) b h =
    omega (arith, bit_and_step (suc a) b, bit_and-le_below n (suc a / 2) (b / 2) (omega arith))

pub bit_and-le : (a b : ℕ) → bit_and a b ≤ a
bit_and-le a b = bit_and-le_below a a b (omega arith)

pub bit_or-lt : (i a b : ℕ) → a < 2 ^ i → b < 2 ^ i → bit_or a b < 2 ^ i
bit_or-lt zero zero zero h k = omega arith
bit_or-lt zero zero (suc b) h k = absurd (omega arith)
bit_or-lt zero (suc a) b h k = absurd (omega arith)
bit_or-lt (suc i) a b h k = omega (
  arith,
  bit_or_step a b,
  pow-suc 2 i,
  bit_or-lt i (a / 2) (b / 2) (omega (arith, h, pow-suc 2 i)) (omega (arith, k, pow-suc 2 i)),
)

pub bit_xor-lt : (i a b : ℕ) → a < 2 ^ i → b < 2 ^ i → bit_xor a b < 2 ^ i
bit_xor-lt zero zero zero h k = omega arith
bit_xor-lt zero zero (suc b) h k = absurd (omega arith)
bit_xor-lt zero (suc a) b h k = absurd (omega arith)
bit_xor-lt (suc i) a b h k = omega (
  arith,
  bit_xor_step a b,
  pow-suc 2 i,
  bit_xor-lt i (a / 2) (b / 2) (omega (arith, h, pow-suc 2 i)) (omega (arith, k, pow-suc 2 i)),
)

pub bit-diff : (i a b : ℕ) → bit i (a - bit_and a b) ≡ bit i a && not (bit i b)
bit-diff zero a b = ground (arith, bit_and_step a b, bit_and-le a b, bit_and-le (a / 2) (b / 2))
bit-diff (suc i) a b =
    let half : (a - bit_and a b) / 2 ≡ a / 2 - bit_and (a / 2) (b / 2) =
      omega (arith, bit_and_step a b, bit_and-le (a / 2) (b / 2)) in
    rw half (bit-diff i (a / 2) (b / 2))

bit_and-zero_below : (fuel a : ℕ) → a < fuel → bit_and a 0 ≡ 0
bit_and-zero_below zero a h = absurd (omega (arith, h))
bit_and-zero_below (suc fuel) a h = elim (Bool-cases (ltb 0 a)) [
  | inl e ↦
      let positive = ltb→lt 0 a e in
      omega (arith, bit_and_step a 0, bit_and-zero_below fuel (a / 2) (omega (arith, positive, h)))
  | inr e ↦ let none : a ≡ 0 = ground (arith, e) in rw none (simp bit_and-bitwise refl)
]

bit_and-zero : (a : ℕ) → bit_and a 0 ≡ 0
bit_and-zero a = bit_and-zero_below (suc a) a (omega arith)

pub bit_and-63 : (a : ℕ) → bit_and a 63 ≡ a % 64
bit_and-63 a = omega (
  arith,
  bit_and_step a 63,
  bit_and_step (a / 2) 31,
  bit_and_step (a / 2 / 2) 15,
  bit_and_step (a / 2 / 2 / 2) 7,
  bit_and_step (a / 2 / 2 / 2 / 2) 3,
  bit_and_step (a / 2 / 2 / 2 / 2 / 2) 1,
  bit_and-zero (a / 2 / 2 / 2 / 2 / 2 / 2),
)

-- A word & (1 << i), taken for a bool.
pub bit_and-pow : (i w : ℕ) → not (bit_and w (2 ^ i) == 0) ≡ bit i w
bit_and-pow zero w = ground (arith, bit_and_step w 1, bit_and-zero (w / 2))
bit_and-pow (suc i) w =
    let low : ℕ = min (w % 2) (2 ^ suc i % 2) in
    let half : 2 ^ suc i / 2 ≡ 2 ^ i = omega (arith, pow-suc 2 i) in
    let step : bit_and w (2 ^ suc i) ≡ low + bit_and (w / 2) (2 ^ i) * 2 =
      subst (λ t. bit_and w (2 ^ suc i) ≡ low + bit_and (w / 2) t * 2) half
        (bit_and_step w (2 ^ suc i)) in
    let twice : bit_and w (2 ^ suc i) ≡ bit_and (w / 2) (2 ^ i) * 2 =
      omega (arith, step, pow-suc 2 i) in
    rw (sym (bit_and-pow i (w / 2))) (ground (arith, twice))
