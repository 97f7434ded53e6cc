-- ===== src/MutableQueue/Raise.antt =====
-- The larger of two priorities for an item.
use graphlabapi_graphlab.Prelude.{
  and_second, ℕ, zero, suc, ◌/◌, ◌≤◌, ◌<◌, ◌≡◌, true, false, not, ◌&&◌, inl, inr, refl, sym, ap,
  subst, ◌∙◌, arith, ◌==◌, Bool-cases, if◌then◌else◌, leb, ltb, Option-cases, none, some, leb→le,
  max,
}
use graphlabapi_graphlab.MutableQueue.{
  Queue, parent, priority_at, less, climb, push, settle, insert_max, contains, set_priority,
}
use graphlabapi_graphlab.MutableQueue.Index.{view, view-some, view-none}
use graphlabapi_graphlab.MutableQueue.Order.{IsQueue, push-IsQueue, leb-before}
use graphlabapi_graphlab.MutableQueue.Settle.{
  set_priority-IsIndexed, set_priority_self, set_priority_apart, set_priority-IsHole, mend-IsQueue,
  settle-IsQueue,
}

-- A lower priority than the item has leaves the queue as it was.
lower :
    (q : Queue) (item i bound : ℕ)
    → IsQueue q
    → q.index_map item ≡ some i
    → bound < priority_at q i
    → climb leb i (set_priority q i (priority_at q i)) bound i
      ≡ (set_priority q i (priority_at q i), i)
unfolding climb set_priority
lower q item zero bound queue at less = refl
lower q item (suc i) bound queue at less =
    elim (Bool-cases (
      ltb 1 (suc i)
      && leb (priority_at (set_priority q (suc i) (priority_at q (suc i))) (parent (suc i)))
          bound)) [
            | inl e ↦
                let two : 2 ≤ suc i = ground (arith, e) in
                let kept =
                  set_priority_apart q (suc i) (priority_at q (suc i)) (parent (suc i))
                    (omega (arith, two)) in
                let in_q = (queue.indexed.in_heap item (suc i) at).1 in
                let up =
                  leb→le
                    (priority_at (set_priority q (suc i) (priority_at q (suc i))) (parent (suc i)))
                    bound (and_second _ _ e) in
                absurd (omega (arith, kept, up, queue.ordered (suc i) two in_q))
            | inr e ↦ rw e refl
          ]

-- What `insert_max` does to an item that the queue holds.
raise-IsQueue :
    (q : Queue) (item i priority : ℕ)
    → IsQueue q
    → q.index_map item ≡ some i
    → (let u = settle leb q i priority (max priority (priority_at q i)) in
        IsQueue u
        × ((x : ℕ)
            → view u x ≡ (if item == x then some (max priority (priority_at q i)) else view q x)))
unfolding settle set_priority
raise-IsQueue q item i priority queue at =
    let old = priority_at q i in
    elim (Bool-cases (leb old priority)) [
      | inl e ↦
          let highest : max priority old ≡ priority = omega (arith, leb→le old priority e) in
          let settled = settle-IsQueue leb q item i priority leb→le leb-before queue at in
          rw highest (settled.0, settled.2)
      | inr e ↦
          let less : priority < old = ground (arith, e) in
          let highest : max priority old ≡ old = omega (arith, less) in
          let here = queue.indexed.in_heap item i at in
          let t = set_priority q i old in
          let set = set_priority-IsIndexed q item i old queue.indexed at in
          let hole = set_priority-IsHole q i old queue.ordered here.0 here.1 in
          let mended = mend-IsQueue q.size t i refl set.0 here.0 here.1 hole (λ two. omega (
            arith,
            set_priority_self q i old,
            set_priority_apart q i old (i / 2) (omega arith),
            queue.ordered i two here.1,
          )) in
          rw (highest, lower q item i priority queue at less) (mended.0, λ x. mended.2 x ∙ set.1 x)
    ]

-- `insert_max` gives an item of the queue the larger of the two priorities, adds any other item, and says
-- whether it added the item; it changes no other item, and the heap stays ordered and the index map right.
pub insert_max-IsQueue :
    (q : Queue) (item priority : ℕ)
    → IsQueue q
    → IsQueue (insert_max q item priority).0
      × ((x : ℕ)
          → view (insert_max q item priority).0 x ≡ (
              if item == x
              then some (elim (view q item) [ none ↦ priority | some old ↦ max priority old ])
              else view q x))
      × ((insert_max q item priority).1 ≡ not (contains q item))
unfolding insert_max
insert_max-IsQueue q item priority queue = elim (Option-cases (q.index_map item)) [
  | inl at ↦
      let pushed = push-IsQueue q item priority queue at in
      let added : insert_max q item priority ≡ (push q item priority, true) =
        rw (at, insert_max) refl in
      (
        subst (λ r. IsQueue r.0) (sym added) pushed.0,
        λ x.
            ap (λ r. view r.0 x) added
            ∙ pushed.2 x
            ∙ ap
                (λ o.
                  if item == x
                  then some (elim o [ none ↦ priority | some old ↦ max priority old ])
                  else view q x)
                (sym (view-none q item at)),
        rw (insert_max, contains, at) refl,
      )
  | inr some_i ↦
      let i = some_i.0 in
      let at = some_i.1 in
      let raised = raise-IsQueue q item i priority queue at in
      let set : insert_max q item priority
          ≡ (settle leb q i priority (max priority (priority_at q i)), false) =
        rw (at, insert_max) refl in
      (
        subst (λ r. IsQueue r.0) (sym set) raised.0,
        λ x.
            ap (λ r. view r.0 x) set
            ∙ raised.1 x
            ∙ ap
                (λ o.
                  if item == x
                  then some (elim o [ none ↦ priority | some old ↦ max priority old ])
                  else view q x)
                (sym (view-some q item i at)),
        rw (insert_max, contains, at) refl,
      )
]
