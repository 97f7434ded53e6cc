-- ===== src/MutableQueue/Pop.antt =====
-- The item at the first index leaves the queue.
use graphlabapi_graphlab.Prelude.{
  eq_cases, ℕ, ◌+◌, ◌-◌, ◌/◌, ◌≤◌, ◌≡◌, ◌≢◌, false, inl, inr, refl, sym, ap, subst, ◌∙◌, arith,
  ◌==◌, ==_iff, if◌then◌else◌, Option-cases, none, some,
}
use graphlabapi_graphlab.Prelude.Run.{ok}
use graphlabapi_graphlab.Prelude.Updates.{update, update_self, update_other, update_cases}
use graphlabapi_graphlab.MutableQueue.{Queue, priority_at, swap, heapify, pop, pop_back, erase}
use graphlabapi_graphlab.MutableQueue.Sift.{IsHeap, IsHole}
use graphlabapi_graphlab.MutableQueue.Heapify.{heapify-IsHeap, swap-IsSwapped}
use graphlabapi_graphlab.MutableQueue.Index.{
  IsIndexed, view, view-some, view-none, view-same, swap-IsSame, heapify-IsSame, heapify-other,
  same_index, some_eq,
}
use graphlabapi_graphlab.MutableQueue.Order.{IsQueue, first_most, some-none}

swap-IsHole :
    (q : Queue)
    → IsHeap q.size (priority_at q)
    → 1 ≤ q.size
    → IsHole (q.size - 1) (priority_at (swap q 1 q.size)) 1
swap-IsHole q heap one = elim (eq_cases q.size 1) [
  | inl e ↦ record {
    apart = λ j two in_j _ _. absurd (omega arith);
    bridged = λ j two in_j _. absurd (omega arith);
  }
  | inr differ ↦
      let swapped = swap-IsSwapped q 1 q.size (λ e. differ (sym e)) in
      record {
        apart = λ j two in_j far apart. omega (
          arith,
          swapped.others j far (omega arith),
          swapped.others (j / 2) apart (omega arith),
          heap j two (omega arith),
        );
        bridged = λ j two in_j _. absurd (omega arith);
      }
]

swap_last : (q : Queue) → (swap q 1 q.size).heap q.size ≡ q.heap 1
unfolding swap
swap_last q = update_self (update q.heap 1 (q.heap q.size)) q.size (q.heap 1)

-- The last item is dropped from the index map.
erase-IsIndexed :
    (n item : ℕ) (q : Queue)
    → IsIndexed n q
    → 1 ≤ n
    → (q.heap n).0 ≡ item
    → IsIndexed (n - 1) (erase q item)
      × ((x : ℕ) → view (erase q item) x ≡ (if item == x then none else view q x))
erase-IsIndexed n item q indexed one last = (
  record {
    points = λ i one_i bound.
        update_other q.index_map none (λ e. absurd (
          omega
            (arith, same_index n q n i indexed one (omega arith) one_i (omega arith) (last ∙ e))))
        ∙ indexed.points i one_i (omega arith);
    in_heap = λ x i.
        update_cases (λ x o. o ≡ some i → (1 ≤ i) × (i ≤ n - 1) × ((q.heap i).0 ≡ x)) q.index_map
          item none (λ at. absurd (some-none (sym at)))
          (λ x differ at.
            let lies = indexed.in_heap x i at in
            let inner : i ≢ n = λ e. differ (sym last ∙ ap (λ k. (q.heap k).0) (sym e) ∙ lies.2) in
            (lies.0, omega (arith, lies.1, inner), lies.2))
          x;
  },
  λ x. elim (eq_cases item x) [
    | inl e ↦ rw ((==_iff item x).1 e) (
        view-none (erase q item) x
          (ap (update q.index_map item none) (sym e) ∙ update_self q.index_map item none))
    | inr differ ↦
        let miss : (item == x) ≡ false = ground (arith, differ) in
        rw miss (view-same q (erase q item) x (update_other q.index_map none differ) (λ k _. refl))
  ],
)

-- Taking from a queue that is not empty gives an item whose priority no other item exceeds, and leaves the
-- other items as they were; the heap stays ordered and the index map right.
pub pop-IsQueue :
    (q : Queue)
    → IsQueue q
    → 1 ≤ q.size
    → (u : Queue) × (item : ℕ) × (priority : ℕ) × (pop q ≡ ok (u, item, priority))
      × IsQueue u
      × (u.size + 1 ≡ q.size)
      × (view q item ≡ some priority)
      × ((x other : ℕ) → view q x ≡ some other → other ≤ priority)
      × ((x : ℕ) → view u x ≡ (if item == x then none else view q x))
unfolding pop
pop-IsQueue q queue one =
    let n = q.size in
    let first = q.heap 1 in
    let filled : (n == 0) ≡ false = ground (arith, one) in
    let s = swap q 1 n in
    let swapped = swap-IsSame n q 1 n queue.indexed (omega arith) one one (omega arith) in
    let t = pop_back s in
    let size_t : t.size ≡ n - 1 = ap (λ k. k - 1) swapped.1 in
    let indexed_t : IsIndexed n t = record {
      points = swapped.0.points;
      in_heap = swapped.0.in_heap;
    } in
    let h = heapify n t 1 in
    let hole : IsHole t.size (priority_at t) 1 =
      subst (λ k. IsHole k (priority_at s) 1) (sym size_t) (swap-IsHole q queue.ordered one) in
    let heap =
      heapify-IsHeap n t 1 (omega arith) (omega (arith, size_t)) hole
        (λ two. absurd (omega arith)) in
    let same = heapify-IsSame n n t 1 indexed_t (omega (arith, size_t)) (omega arith) one in
    let last : (h.heap n).0 ≡ first.0 =
      ap (λ c. c.0) (heapify-other n t 1 n (omega arith) (omega (arith, size_t)) ∙ swap_last q) in
    let erased = erase-IsIndexed n first.0 h same.0 one last in
    let size_h : h.size ≡ n - 1 = heap.0 ∙ size_t in
    (
      erase h first.0,
      first.0,
      first.1,
      rw filled refl,
      record {
        ordered = subst (λ k. IsHeap k (priority_at h)) (sym heap.0) heap.1;
        indexed = subst (λ k. IsIndexed k (erase h first.0)) (sym size_h) erased.0;
      },
      omega (arith, size_h),
      view-some q first.0 1 (queue.indexed.points 1 (omega arith) one),
      highest,
      λ x. erased.1 x ∙ ap (λ o. if first.0 == x then none else o) (same.2 x ∙ swapped.2 x),
    )
  where
    highest : (x other : ℕ) → view q x ≡ some other → other ≤ (q.heap 1).1
    highest x other at = elim (Option-cases (q.index_map x)) [
      | inl gone ↦ absurd (some-none (sym at ∙ view-none q x gone))
      | inr some_k ↦
          let k = some_k.0 in
          let lies = queue.indexed.in_heap x k some_k.1 in
          let same : (q.heap k).1 ≡ other = some_eq (sym (view-some q x k some_k.1) ∙ at) in
          omega (
            arith,
            same,
            first_most q.size (priority_at q) queue.ordered k k (omega arith) lies.0 lies.1,
          )
    ]
