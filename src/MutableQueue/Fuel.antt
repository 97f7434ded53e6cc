-- ===== src/MutableQueue/Fuel.antt =====
-- The loops end: the fuel that the methods give them is enough.
use graphlabapi_graphlab.Prelude.{
  ℕ, zero, suc, ◌+◌, ◌≤◌, ◌<◌, ◌≡◌, Bool, true, false, ◌&&◌, inl, inr, refl, sym, arith, ◌==◌,
  ==_iff, ==_refl, Bool-cases, ltb,
}
use graphlabapi_graphlab.MutableQueue.{Queue, parent, priority_at, swap, largest, heapify, climb}
use graphlabapi_graphlab.MutableQueue.Heapify.{largest-IsLargest}

-- Behind the end of the heap there is nothing to compare with.
largest_behind : (q : Queue) (i : ℕ) → 1 ≤ i → q.size < i → largest q i ≡ i
largest_behind q i one behind =
    let found = largest-IsLargest q i one in ground (arith, found.choice, found.in_range)

heapify_behind : (fuel : ℕ) (q : Queue) (i : ℕ) → 1 ≤ i → q.size < i → heapify fuel q i ≡ q
unfolding heapify
heapify_behind zero q i one behind = refl
heapify_behind (suc fuel) q i one behind =
    let stays : (largest q i == i) ≡ true =
      (==_iff (largest q i) i).1 (largest_behind q i one behind) in
    rw stays refl

heapify-enough :
    (fuel more : ℕ) (q : Queue) (i : ℕ)
    → 1 ≤ i
    → q.size < i + fuel
    → q.size < i + more
    → heapify fuel q i ≡ heapify more q i
unfolding heapify swap
heapify-enough zero more q i one enough enough2 =
    sym (heapify_behind more q i one (omega (arith, enough)))
heapify-enough (suc fuel) zero q i one enough enough2 =
    heapify_behind (suc fuel) q i one (omega (arith, enough2))
heapify-enough (suc fuel) (suc more) q i one enough enough2 =
    let m = largest q i in
    elim (Bool-cases (m == i)) [
      | inl e ↦ rw e refl
      | inr e ↦
          let found = largest-IsLargest q i one in
          let down : i < m = ground (arith, found.choice, e, ==_refl i) in
          rw e (
            heapify-enough fuel more (swap q i m) m (omega (arith, down))
              (omega (arith, down, enough)) (omega (arith, down, enough2)))
    ]

climb-enough :
    (before : ℕ → ℕ → Bool) (fuel more : ℕ) (q : Queue) (priority i : ℕ)
    → i ≤ fuel
    → i ≤ more
    → climb before fuel q priority i ≡ climb before more q priority i
unfolding climb
climb-enough before zero zero q priority i enough enough2 = refl
climb-enough before zero (suc more) q priority i enough enough2 =
    let top : ltb 1 i ≡ false = ground arith in rw top refl
climb-enough before (suc fuel) zero q priority i enough enough2 =
    let top : ltb 1 i ≡ false = ground arith in rw top refl
climb-enough before (suc fuel) (suc more) q priority i enough enough2 =
    elim (Bool-cases (ltb 1 i && before (priority_at q (parent i)) priority)) [
      | inl e ↦
          let two : 2 ≤ i = ground (arith, e) in
          rw e (
            climb-enough before fuel more (swap q i (parent i)) priority (parent i)
              (omega (arith, two)) (omega (arith, two)))
      | inr e ↦ rw e refl
    ]

-- Both loops end within the fuel that the methods give them: with fuel for the indices from `i` to the size,
-- `heapify` at `i` has the result of any larger fuel, and so has the loop that rises from `i` with fuel `i`.
pub loops-enough :
    (q : Queue) (i fuel more : ℕ) (before : ℕ → ℕ → Bool) (priority : ℕ)
    → 1 ≤ i
    → q.size < i + fuel
    → (heapify (fuel + more) q i ≡ heapify fuel q i)
      × (climb before (i + more) q priority i ≡ climb before i q priority i)
loops-enough q i fuel more before priority one enough = (
  heapify-enough (fuel + more) fuel q i one (omega (arith, enough)) enough,
  climb-enough before (i + more) i q priority i (omega arith) (omega arith),
)
