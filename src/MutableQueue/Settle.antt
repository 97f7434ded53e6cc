-- ===== src/MutableQueue/Settle.antt =====
-- A new priority for an item that the queue holds.
use graphlabapi_graphlab.Prelude.{
  eq_cases, ℕ, ◌/◌, ◌≤◌, ◌≡◌, ◌≢◌, Bool, true, false, inl, inr, refl, sym, ap, subst, ◌∙◌, arith,
  ◌==◌, ==_iff, if◌then◌else◌, ltb, Option-cases, none, some,
}
use graphlabapi_graphlab.Prelude.Run.{fault, ok}
use graphlabapi_graphlab.Prelude.Updates.{update_self, update_other, update_cases}
use graphlabapi_graphlab.MutableQueue.{
  Queue, priority_at, heapify, climb, push, settle, update_item, push_or_update, set_priority,
}
use graphlabapi_graphlab.MutableQueue.Sift.{IsHeap, IsHole, IsBelow}
use graphlabapi_graphlab.MutableQueue.Heapify.{heapify-IsHeap, climb-IsHole}
use graphlabapi_graphlab.MutableQueue.Index.{
  IsIndexed, view, view-some, view-same, climb-IsSame, heapify-IsSame,
}
use graphlabapi_graphlab.MutableQueue.Order.{IsQueue, push-IsQueue, ltb_le, ltb-before}

pub set_priority-IsIndexed :
    (q : Queue) (item i priority : ℕ)
    → IsIndexed q.size q
    → q.index_map item ≡ some i
    → IsIndexed q.size (set_priority q i priority)
      × ((x : ℕ)
          → view (set_priority q i priority) x ≡ (if item == x then some priority else view q x))
unfolding set_priority
set_priority-IsIndexed q item i priority indexed at =
    let u = set_priority q i priority in
    let item_kept : (k : ℕ) → (u.heap k).0 ≡ (q.heap k).0 =
      update_cases (λ k c. c.0 ≡ (q.heap k).0) q.heap i ((q.heap i).0, priority) refl
        (λ _ _. refl) in
    let here = indexed.in_heap item i at in
    (
      record {
        points = λ k one bound. ap q.index_map (item_kept k) ∙ indexed.points k one bound;
        in_heap = λ x k at_k.
            let lies = indexed.in_heap x k at_k in (lies.0, lies.1, item_kept k ∙ lies.2);
      },
      λ x. elim (eq_cases item x) [
        | inl e ↦ rw ((==_iff item x).1 e) (
            view-some u x i (ap q.index_map (sym e) ∙ at)
            ∙ ap (λ c. some c.1) (update_self q.heap i ((q.heap i).0, priority)))
        | inr differ ↦
            let miss : (item == x) ≡ false = ground (arith, differ) in
            rw miss (
              view-same q u x refl (λ k at_k.
                update_other q.heap ((q.heap i).0, priority)
                  (λ e.
                    differ (sym here.2 ∙ ap (λ k. (q.heap k).0) e ∙ (indexed.in_heap x k at_k).2))))
      ],
    )

pub set_priority_self :
    (q : Queue) (i priority : ℕ) → priority_at (set_priority q i priority) i ≡ priority
unfolding set_priority
set_priority_self q i priority = ap (λ c. c.1) (update_self q.heap i ((q.heap i).0, priority))

pub set_priority_apart :
    (q : Queue) (i priority k : ℕ)
    → k ≢ i
    → priority_at (set_priority q i priority) k ≡ priority_at q k
unfolding set_priority
set_priority_apart q i priority k differ =
    ap (λ c. c.1) (update_other q.heap ((q.heap i).0, priority) (λ e. differ (sym e)))

pub set_priority-IsHole :
    (q : Queue) (i priority : ℕ)
    → IsHeap q.size (priority_at q)
    → 1 ≤ i
    → i ≤ q.size
    → IsHole q.size (priority_at (set_priority q i priority)) i
unfolding set_priority
set_priority-IsHole q i priority heap one bound =
    let kept = set_priority_apart q i priority in
    record {
      apart = λ j two in_j differ apart.
          omega (arith, kept j differ, kept (j / 2) apart, heap j two in_j);
      bridged = λ j two in_j child. omega (
        arith,
        kept j (omega arith),
        kept (i / 2) (omega arith),
        heap j (omega arith) in_j,
        heap i two bound,
        ap (priority_at q) child,
      );
    }

-- `heapify` at the only index where the order may fail downwards.
pub mend-IsQueue :
    (n : ℕ) (u : Queue) (j : ℕ)
    → u.size ≡ n
    → IsIndexed n u
    → 1 ≤ j
    → j ≤ n
    → IsHole n (priority_at u) j
    → IsBelow (priority_at u) j
    → IsQueue (heapify n u j)
      × ((heapify n u j).size ≡ n)
      × ((x : ℕ) → view (heapify n u j) x ≡ view u x)
mend-IsQueue n u j size indexed one bound hole below =
    let mended =
      heapify-IsHeap n u j one (omega (arith, size, one))
        (subst (λ k. IsHole k (priority_at u) j) (sym size) hole) below in
    let kept = heapify-IsSame n n u j indexed (omega (arith, size)) one bound in
    let v = heapify n u j in
    let size_v : v.size ≡ n = kept.1 ∙ size in
    (
      record {
        ordered = subst (λ k. IsHeap k (priority_at v)) (sym kept.1) mended.1;
        indexed = subst (λ k. IsIndexed k v) (sym size_v) kept.0;
      },
      size_v,
      kept.2,
    )

-- The loop compares with the new priority: the order is mended, upwards or downwards.
pub settle-IsQueue :
    (before : ℕ → ℕ → Bool) (q : Queue) (item i priority : ℕ)
    → ((a b : ℕ) → before a b ≡ true → a ≤ b)
    → ((a b : ℕ) → before a b ≡ false → b ≤ a)
    → IsQueue q
    → q.index_map item ≡ some i
    → (let u = settle before q i priority priority in
        IsQueue u
        × (u.size ≡ q.size)
        × ((x : ℕ) → view u x ≡ (if item == x then some priority else view q x)))
unfolding settle set_priority
settle-IsQueue before q item i priority le gt queue at =
    let here = queue.indexed.in_heap item i at in
    let t = set_priority q i priority in
    let set = set_priority-IsIndexed q item i priority queue.indexed at in
    let at_i = set_priority_self q i priority in
    let hole = set_priority-IsHole q i priority queue.ordered here.0 here.1 in
    let climbed = climb-IsHole before i t priority i le gt (omega arith) here.1 here.0 at_i hole in
    let same = climb-IsSame q.size before i t priority i set.0 here.0 here.1 in
    let r = climb before i t priority i in
    let mended =
      mend-IsQueue q.size r.0 r.1 same.1 same.0 climbed.1 (omega (arith, climbed.2, here.1))
        climbed.3 climbed.4 in
    (mended.0, mended.1, λ x. mended.2 x ∙ same.2 x ∙ set.1 x)

-- Giving a queue's item another priority changes that item alone, whether `update` or `push_or_update` does
-- it; the second adds an item that the queue does not hold. The heap stays ordered and the index map right.
pub update-IsQueue :
    (q : Queue) (item priority : ℕ)
    → IsQueue q
    → (let u = push_or_update q item priority in
        IsQueue u
        × ((x : ℕ) → view u x ≡ (if item == x then some priority else view q x))
        × (update_item q item priority ≡ elim (q.index_map item) [ none ↦ fault | some i ↦ ok u ]))
unfolding push_or_update update_item
update-IsQueue q item priority queue = elim (Option-cases (q.index_map item)) [
  | inl at ↦
      let pushed = push-IsQueue q item priority queue at in
      let added : push_or_update q item priority ≡ push q item priority =
        rw (at, push_or_update) refl in
      (subst IsQueue (sym added) pushed.0, λ x. ap (λ u. view u x) added ∙ pushed.2 x, rw at refl)
  | inr some_i ↦
      let i = some_i.0 in
      let at = some_i.1 in
      let settled = settle-IsQueue ltb q item i priority ltb_le ltb-before queue at in
      let set : push_or_update q item priority ≡ settle ltb q i priority priority =
        rw (at, push_or_update) refl in
      (
        subst IsQueue (sym set) settled.0,
        λ x. ap (λ u. view u x) set ∙ settled.2 x,
        rw at (ap ok (sym set)),
      )
]
