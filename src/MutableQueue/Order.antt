-- ===== src/MutableQueue/Order.antt =====
-- The queue is a map from items to priorities, and the order of the heap is kept.
use graphlabapi_graphlab.Prelude.{
  eq_cases, ℕ, zero, suc, ◌+◌, ◌/◌, ◌≤◌, ◌≡◌, ◌≢◌, true, false, inl, inr, sym, ap, subst, ◌∙◌, refl,
  arith, ◌==◌, ==_iff, if◌then◌else◌, leb, ltb, none, some, leb→le,
}
use graphlabapi_graphlab.Prelude.Updates.{update, update_self, update_other, update_cases}
use graphlabapi_graphlab.MutableQueue.{clear, Queue, priority_at, climb, push, push_back}
use graphlabapi_graphlab.MutableQueue.Sift.{IsHeap, IsHole, IsHole-filled}
use graphlabapi_graphlab.MutableQueue.Heapify.{climb-IsHole}
use graphlabapi_graphlab.MutableQueue.Index.{IsIndexed, view, view-some, view-same, climb-IsSame}

pub record IsQueue (q : Queue) : Type 0 where
  pub ordered : IsHeap q.size (priority_at q)
  pub indexed : IsIndexed q.size q

-- No index has a higher priority than the first.
pub first_most :
    (n : ℕ) (f : ℕ → ℕ) → IsHeap n f → (j fuel : ℕ) → j ≤ fuel → 1 ≤ j → j ≤ n → f j ≤ f 1
first_most n f heap j zero enough one bound = absurd (omega arith)
first_most n f heap j (suc fuel) enough one bound = elim (eq_cases j 1) [
  | inl e ↦ omega (arith, ap f e)
  | inr differ ↦ omega (
    arith,
    heap j (omega arith) bound,
    first_most n f heap (j / 2) fuel (omega arith) (omega arith) (omega arith),
  )
]

pub leb-before : (a b : ℕ) → leb a b ≡ false → b ≤ a
leb-before a b h = ground (arith, h)

pub ltb-before : (a b : ℕ) → ltb a b ≡ false → b ≤ a
ltb-before a b h = ground (arith, h)

pub ltb_le : (a b : ℕ) → ltb a b ≡ true → a ≤ b
ltb_le a b h = ground (arith, h)

pub some-none : {a : ℕ} → some a ≢ none
some-none h = absurd (ground (arith, h))

push_back-IsIndexed :
    (q : Queue) (item priority : ℕ)
    → IsIndexed q.size q
    → q.index_map item ≡ none
    → IsIndexed (q.size + 1) (push_back q item priority)
      × ((x : ℕ)
          → view (push_back q item priority) x ≡ (if item == x then some priority else view q x))
unfolding push_back
push_back-IsIndexed q item priority indexed absent =
    let last = q.size + 1 in
    let noted = update q.index_map item (some last) in
    let heap = update q.heap last (item, priority) in
    let old_item : (i : ℕ) → last ≢ i → heap i ≡ q.heap i =
      λ i differ. update_other q.heap (item, priority) differ in
    (
      record {
        points = λ i one bound.
            update_cases (λ i c. 1 ≤ i → i ≤ last → noted c.0 ≡ some i) q.heap last (item, priority)
              (λ _ _. update_self q.index_map item _)
              (λ i differ one bound.
                let old = indexed.points i one (omega arith) in
                update_other q.index_map (some last)
                  (λ e. some-none (sym old ∙ ap q.index_map (sym e) ∙ absent))
                ∙ old)
              i one bound;
        in_heap = λ x i.
            update_cases (λ x o. o ≡ some i → (1 ≤ i) × (i ≤ last) × ((heap i).0 ≡ x)) q.index_map
              item (some last)
              (λ at.
                let same : last ≡ i = cc in
                (
                  omega arith,
                  omega arith,
                  ap (λ k. (heap k).0) (sym same)
                      ∙ ap (λ c. c.0) (update_self q.heap last (item, priority)),
                ))
              (λ x _ at.
                let lies = indexed.in_heap x i at in
                (
                  lies.0,
                  omega (arith, lies.1),
                  ap (λ c. c.0) (old_item i (omega (arith, lies.1))) ∙ lies.2,
                ))
              x;
      },
      λ x. elim (eq_cases item x) [
        | inl e ↦
            let hit : (item == x) ≡ true = (==_iff item x).1 e in
            rw hit (
              view-some (push_back q item priority) x last
                (ap noted (sym e) ∙ update_self q.index_map item (some last))
              ∙ ap (λ c. some c.1) (update_self q.heap last (item, priority)))
        | inr differ ↦
            let miss : (item == x) ≡ false = ground (arith, differ) in
            rw miss (
              view-same q (push_back q item priority) x
                (update_other q.index_map (some last) differ)
                (λ k at. old_item k (omega (arith, (indexed.in_heap x k at).1))))
      ],
    )

-- Adding an item that the queue does not hold gives a queue with the item at its priority and every other
-- item as before; the heap stays ordered and the index map right.
pub push-IsQueue :
    (q : Queue) (item priority : ℕ)
    → IsQueue q
    → q.index_map item ≡ none
    → IsQueue (push q item priority)
      × ((push q item priority).size ≡ q.size + 1)
      × ((x : ℕ) → view (push q item priority) x ≡ (if item == x then some priority else view q x))
unfolding push push_back
push-IsQueue q item priority queue absent =
    let last = q.size + 1 in
    let u = push_back q item priority in
    let added = push_back-IsIndexed q item priority queue.indexed absent in
    let at_last : priority_at u last ≡ priority =
      ap (λ c. c.1) (update_self q.heap last (item, priority)) in
    let old : (j : ℕ) → j ≤ q.size → priority_at u j ≡ priority_at q j =
      λ j bound. ap (λ c. c.1) (update_other q.heap (item, priority) (omega arith)) in
    let hole : IsHole last (priority_at u) last = record {
      apart = λ j two bound differ _. omega (
        arith,
        old j (omega arith),
        old (j / 2) (omega arith),
        queue.ordered j two (omega arith),
      );
      bridged = λ j two bound child. absurd (omega arith);
    } in
    let climbed =
      climb-IsHole leb last u priority last leb→le leb-before (omega arith) (omega arith)
        (omega arith) at_last hole in
    let same = climb-IsSame last leb last u priority last added.0 (omega arith) (omega arith) in
    let r = climb leb last u priority last in
    (
      record {
        ordered =
            subst (λ n. IsHeap n (priority_at r.0)) (sym same.1)
              (IsHole-filled last (priority_at r.0) r.1 climbed.3 climbed.4
                (climbed.5 (λ j two bound child. absurd (omega arith))));
        indexed = subst (λ n. IsIndexed n r.0) (sym same.1) same.0;
      },
      same.1,
      λ x. same.2 x ∙ added.1 x,
    )

pub clear-IsQueue : (q : Queue) → IsQueue (clear q) × ((x : ℕ) → view (clear q) x ≡ none)
unfolding clear
clear-IsQueue q = (
  record {
    ordered = λ j two low. absurd (omega (arith, two, low));
    indexed = record {
      points = λ i one low. absurd (omega (arith, one, low));
      in_heap = λ x i e. cc;
    };
  },
  λ x. refl,
)
