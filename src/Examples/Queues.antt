-- ===== src/Examples/Queues.antt =====
-- Priority queues of a few items.
use graphlabapi_graphlab.Prelude.{
  ℕ, ◌+◌, ◌≤◌, ◌≡◌, refl, arith, none, some, ◌==◌, if◌then◌else◌, leb,
}
use graphlabapi_graphlab.Prelude.Run.{ok}
use graphlabapi_graphlab.MutableQueue.{
  Queue, new, push, pop, climb, heapify, insert_cumulative, remove,
}
use graphlabapi_graphlab.MutableQueue.Fuel.{loops-enough}
use graphlabapi_graphlab.MutableQueue.Index.{view}
use graphlabapi_graphlab.MutableQueue.Order.{IsQueue, push-IsQueue}
use graphlabapi_graphlab.MutableQueue.Pop.{pop-IsQueue}

new-IsQueue : IsQueue new
unfolding new
new-IsQueue = record {
  ordered = λ j two bound. absurd (omega arith);
  indexed = record {
    points = λ i one bound. absurd (omega arith);
    in_heap = λ x i at. absurd (ground (arith, at));
  };
}

abbrev one_item : Queue
one_item = push new 1 5

abbrev two_items : Queue
two_items = push one_item 2 3

one_item-IsQueue : IsQueue one_item
unfolding new
one_item-IsQueue = (push-IsQueue new 1 5 new-IsQueue refl).0

push-IsQueue_example :
    IsQueue two_items
    × (two_items.size ≡ one_item.size + 1)
    × ((x : ℕ) → view two_items x ≡ (if 2 == x then some 3 else view one_item x))
unfolding new push
push-IsQueue_example = push-IsQueue one_item 2 3 one_item-IsQueue refl

two_items-IsQueue : IsQueue two_items
two_items-IsQueue = push-IsQueue_example.0

pop-IsQueue_example :
    (u : Queue) × (item : ℕ) × (priority : ℕ) × (pop two_items ≡ ok (u, item, priority))
    × IsQueue u
    × (u.size + 1 ≡ two_items.size)
    × (view two_items item ≡ some priority)
    × ((x other : ℕ) → view two_items x ≡ some other → other ≤ priority)
    × ((x : ℕ) → view u x ≡ (if item == x then none else view two_items x))
unfolding new push
pop-IsQueue_example = pop-IsQueue two_items two_items-IsQueue (omega arith)

loops-enough_example :
    (heapify (2 + 3) two_items 1 ≡ heapify 2 two_items 1)
    × (climb leb (1 + 3) two_items 3 1 ≡ climb leb 1 two_items 3 1)
unfolding new push
loops-enough_example = loops-enough two_items 1 2 3 leb 3 (omega arith) (omega arith)

-- The priority of 2 rises from 3 to 7, over that of 1, and yet 1 stays at the top.
insert_cumulative_misses_top :
    ((insert_cumulative two_items 2 4).0.heap 1 ≡ (1, 5))
    × ((insert_cumulative two_items 2 4).0.heap 2 ≡ (2, 7))
unfolding new push insert_cumulative
insert_cumulative_misses_top = (refl, refl)

-- The last item takes the place of the one removed, below a parent of a lower priority.
abbrev seven_items : Queue
seven_items = push (push (push (push (push (push (push new 1 10) 2 2) 3 9) 4 1) 5 0) 6 8) 7 7

remove_breaks_order :
    ((remove seven_items 4).0.heap 4 ≡ (7, 7)) × ((remove seven_items 4).0.heap 2 ≡ (2, 2))
unfolding new push remove
remove_breaks_order = (refl, refl)
