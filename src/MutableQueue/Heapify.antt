-- ===== src/MutableQueue/Heapify.antt =====
-- The loop of `push` and `heapify` mend the order at the one index where it fails.
use graphlabapi_graphlab.Prelude.{
  eq_cases, ℕ, zero, suc, ◌+◌, ◌*◌, ◌/◌, ◌≤◌, ◌<◌, ◌≡◌, ◌≢◌, Bool, true, false, ◌&&◌, inl, inr,
  refl, sym, ap, ◌∙◌, arith, ◌==◌, ==_iff, ==_refl, ltb, if_split, ◌⊎◌,
}
use graphlabapi_graphlab.Prelude.Updates.{update, update_self, update_other}
use graphlabapi_graphlab.MutableQueue.{
  Queue, left, right, parent, priority_at, swap, largest, heapify, climb,
}
use graphlabapi_graphlab.MutableQueue.Sift.{
  IsHeap, IsHole, IsBelow, IsAbove, IsSwapped, IsHole-filled, rise, sink,
}

pub swap-IsSwapped :
    (q : Queue) (i j : ℕ) → i ≢ j → IsSwapped (priority_at q) (priority_at (swap q i j)) i j
unfolding swap
swap-IsSwapped q i j differ = record {
  first =
      ap (λ x. x.1)
        (update_other (update q.heap i (q.heap j)) (q.heap i) (λ e. differ (sym e))
          ∙ update_self q.heap i (q.heap j));
  second = ap (λ x. x.1) (update_self (update q.heap i (q.heap j)) j (q.heap i));
  others = λ k i_k j_k.
      ap (λ x. x.1)
        (update_other (update q.heap i (q.heap j)) (q.heap i) (λ e. j_k (sym e))
          ∙ update_other q.heap (q.heap j) (λ e. i_k (sym e)));
}

-- What the two comparisons of `heapify` find.
pub record IsLargest (q : Queue) (i m : ℕ) : Type 0 where
  pub choice : (m ≡ i) ⊎ ((m ≡ left i) ⊎ (m ≡ right i))
  pub in_range : m ≢ i → m ≤ q.size
  pub over : priority_at q i ≤ priority_at q m
  pub most : (j : ℕ) → j ≤ q.size → j / 2 ≡ i → priority_at q j ≤ priority_at q m

pub largest-IsLargest : (q : Queue) (i : ℕ) → 1 ≤ i → IsLargest q i (largest q i)
unfolding largest
largest-IsLargest q i one = record {
  choice = ground arith;
  in_range = ground arith;
  over = ground arith;
  most = λ j bound child. elim (eq_cases j (2 * i)) [
    | inl e ↦ ground (arith, ap (λ k. (q.heap k).1) e)
    | inr odd ↦ let at : j ≡ 2 * i + 1 = omega arith in ground (arith, ap (λ k. (q.heap k).1) at)
  ];
}

swap-size : (q : Queue) (i j : ℕ) → (swap q i j).size ≡ q.size
unfolding swap
swap-size q i j = refl

-- With fuel for every index from `i` on, `heapify` leaves a heap.
pub heapify-IsHeap :
    (fuel : ℕ) (q : Queue) (i : ℕ)
    → 1 ≤ i
    → q.size < i + fuel
    → IsHole q.size (priority_at q) i
    → IsBelow (priority_at q) i
    → ((heapify fuel q i).size ≡ q.size) × IsHeap q.size (priority_at (heapify fuel q i))
unfolding heapify swap
heapify-IsHeap zero q i one enough hole below = (
  refl,
  IsHole-filled q.size (priority_at q) i hole below (λ j two bound child. absurd (omega arith)),
)
heapify-IsHeap (suc fuel) q i one enough hole below =
    let m = largest q i in
    let found = largest-IsLargest q i one in
    if_split (λ r. (r.size ≡ q.size) × IsHeap q.size (priority_at r)) (m == i)
      (λ e.
        let at_i : m ≡ i = (==_iff m i).0 e in
        (
          refl,
          IsHole-filled q.size (priority_at q) i hole below (λ j two bound child.
              omega (arith, ap (priority_at q) at_i, found.most j bound child)),
        ))
      (λ e.
        let differ : i ≢ m = λ same. ground (arith, e, same, ==_refl i) in
        let swapped = swap-IsSwapped q i m differ in
        let in_range = found.in_range (λ same. differ (sym same)) in
        let child : (m / 2 ≡ i) × (i < m) = ground (arith, found.choice) in
        let mended =
          sink q.size (priority_at q) (priority_at (swap q i m)) i m one in_range child.0
            (omega (arith, child.1)) swapped found.over found.most hole below in
        heapify-IsHeap fuel (swap q i m) m (omega (arith, child.1)) (omega (arith, child.1))
          mended.0 mended.1)

-- What the loop leaves: the order fails at most between the index it reached and the children of that.
pub climb-IsHole :
    (before : ℕ → ℕ → Bool) (fuel : ℕ) (q : Queue) (priority i : ℕ)
    → ((a b : ℕ) → before a b ≡ true → a ≤ b)
    → ((a b : ℕ) → before a b ≡ false → b ≤ a)
    → i ≤ fuel
    → i ≤ q.size
    → 1 ≤ i
    → priority_at q i ≡ priority
    → IsHole q.size (priority_at q) i
    → (let r = climb before fuel q priority i in
        (r.0.size ≡ q.size)
        × (1 ≤ r.1)
        × (r.1 ≤ i)
        × IsHole q.size (priority_at r.0) r.1
        × IsBelow (priority_at r.0) r.1
        × (IsAbove q.size (priority_at q) i → IsAbove q.size (priority_at r.0) r.1))
unfolding climb swap
climb-IsHole before zero q priority i le gt enough bound one here hole = absurd (omega arith)
climb-IsHole before (suc fuel) q priority i le gt enough bound one here hole =
    if_split
      (λ (r : Queue × ℕ).
        (r.0.size ≡ q.size)
        × (1 ≤ r.1)
        × (r.1 ≤ i)
        × IsHole q.size (priority_at r.0) r.1
        × IsBelow (priority_at r.0) r.1
        × (IsAbove q.size (priority_at q) i → IsAbove q.size (priority_at r.0) r.1))
      (ltb 1 i && before (priority_at q (parent i)) priority)
      (λ guard.
        let two : 2 ≤ i = ground (arith, guard) in
        let up : priority_at q (i / 2) ≤ priority_at q i =
          omega (arith, here, le (priority_at q (i / 2)) priority (ground (arith, guard))) in
        let swapped = swap-IsSwapped q i (i / 2) (omega arith) in
        let risen =
          rise q.size (priority_at q) (priority_at (swap q i (i / 2))) i two bound swapped up
            hole in
        let rest =
          climb-IsHole before fuel (swap q i (i / 2)) priority (i / 2) le gt (omega arith)
            (omega arith) (omega arith) (swapped.second ∙ here) risen.0 in
        (rest.0, rest.1, omega (arith, rest.2), rest.3, rest.4, λ _. rest.5 risen.1))
      (λ stop. (
        refl,
        one,
        omega arith,
        hole,
        λ two. omega (arith, here, gt (priority_at q (i / 2)) priority (ground (arith, stop))),
        λ above. above,
      ))
