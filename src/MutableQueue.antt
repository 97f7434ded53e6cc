-- ===== src/MutableQueue.antt =====
-- src/graphlab/util/mutable_queue.hpp: a priority queue as a heap that starts at index 1, with the index
-- of each item. Items and priorities are natural numbers; the vector and the hash map are functions.
pub mod Sift
pub mod Heapify
pub mod Fuel
pub mod Order
pub mod Settle
pub mod Raise
pub mod Pop
pub mod Index
use graphlabapi_graphlab.Prelude.{
  ℕ, zero, suc, ◌+◌, ◌-◌, ◌*◌, ◌/◌, max, Bool, true, false, not, ◌&&◌, Option, none, some, List, [],
  ◌∷◌, leb, ltb, ◌==◌, if◌then◌else◌,
}
use graphlabapi_graphlab.Prelude.Run.{Run, ok, ◌>>=◌, ◌>>◌, assert, or_fault}
use graphlabapi_graphlab.Prelude.Updates.{update}

-- `heap[0]` is not used; `size` is one less than the vector's.
pub record Queue : Type 0 where
  pub size : ℕ
  pub heap : ℕ → ℕ × ℕ
  pub index_map : ℕ → Option ℕ

abbrev pub left : ℕ → ℕ
left i = 2 * i

abbrev pub right : ℕ → ℕ
right i = 2 * i + 1

abbrev pub parent : ℕ → ℕ
parent i = i / 2

abbrev pub priority_at : Queue → ℕ → ℕ
priority_at q i = (q.heap i).1

abbrev pub less : Queue → ℕ → ℕ → Bool
less q i j = ltb (priority_at q i) (priority_at q j)

unfoldable pub swap : Queue → ℕ → ℕ → Queue
swap q i j = record q {
  heap = update (update q.heap i (q.heap j)) j (q.heap i);
  index_map = update (update q.index_map (q.heap j).0 (some i)) (q.heap i).0 (some j);
}

-- The index that `heapify` calls `largest`.
unfoldable pub largest : Queue → ℕ → ℕ
largest q i =
    let first = if leb (left i) q.size && less q i (left i) then left i else i in
    if leb (right i) q.size && less q first (right i) then right i else first

unfoldable pub heapify : (fuel : ℕ) → Queue → ℕ → Queue
unfolding swap largest
heapify zero q i = q
heapify (suc fuel) q i =
    let m = largest q i in let rest = heapify fuel (swap q i m) m in if m == i then q else rest

-- The loop of `push` and its kin, with `<=` or `<` for `before`.
unfoldable pub climb : (ℕ → ℕ → Bool) → (fuel : ℕ) → Queue → (priority i : ℕ) → Queue × ℕ
unfolding swap
climb before zero q priority i = (q, i)
climb before (suc fuel) q priority i =
    let rest = climb before fuel (swap q i (parent i)) priority (parent i) in
    if ltb 1 i && before (priority_at q (parent i)) priority then rest else (q, i)

unfoldable pub new : Queue
new = record { size = 0; heap = λ _. (0, 0); index_map = λ _. none }

unfoldable pub copy : Queue → Queue
copy other = record { size = other.size; heap = other.heap; index_map = other.index_map }

unfoldable pub assign : Queue → Queue → Queue
assign other q = record { size = other.size; heap = other.heap; index_map = other.index_map }

-- the vector with its one unused entry
unfoldable pub clear : Queue → Queue
clear q = record { size = 0; heap = update q.heap 0 (0, 0); index_map = λ _. none }

-- the `n` entries from `i` on, and the whole vector
abbrev pub entries : (ℕ → ℕ × ℕ) → ℕ → ℕ → List (ℕ × ℕ)
entries heap i zero = []
entries heap i (suc n) = heap i ∷ entries heap (suc i) n

unfoldable pub values : Queue → List (ℕ × ℕ)
values q = entries q.heap 0 (suc q.size)

abbrev pub is_empty : Queue → Bool
is_empty q = q.size == 0

abbrev pub contains : Queue → ℕ → Bool
contains q item = elim (q.index_map item) [ none ↦ false | some i ↦ true ]

unfoldable pub push_back : Queue → ℕ → ℕ → Queue
push_back q item priority = record {
  size = q.size + 1;
  heap = update q.heap (q.size + 1) (item, priority);
  index_map = update q.index_map item (some (q.size + 1));
}

unfoldable pub push : Queue → ℕ → ℕ → Queue
unfolding push_back climb
push q item priority = (climb leb (q.size + 1) (push_back q item priority) priority (q.size + 1)).0

abbrev pub top : Queue → Run (ℕ × ℕ)
top q = do assert (not (is_empty q)); ok (q.heap 1)

abbrev pub pop_back : Queue → Queue
pop_back q = record q { size = q.size - 1 }

abbrev pub erase : Queue → ℕ → Queue
erase q item = record q { index_map = update q.index_map item none }

unfoldable pub pop : Queue → Run (Queue × ℕ × ℕ)
unfolding swap heapify
pop q = do
  assert (not (is_empty q))
  let first = q.heap 1
  ok (erase (heapify q.size (pop_back (swap q 1 q.size)) 1) first.0, first.0, first.1)

unfoldable pub get : Queue → ℕ → Run ℕ
get q item = do i ← or_fault (q.index_map item); ok (priority_at q i)

unfoldable pub set_priority : Queue → ℕ → ℕ → Queue
set_priority q i priority = record q { heap = update q.heap i ((q.heap i).0, priority) }

-- The lines that `update` and its kin share: the priority at the index, the loop, and `heapify`.
unfoldable pub settle : (ℕ → ℕ → Bool) → Queue → (i bound priority : ℕ) → Queue
unfolding set_priority climb heapify
settle before q i bound priority =
    let (u, j) = climb before i (set_priority q i priority) bound i in heapify q.size u j

unfoldable pub update_item : Queue → ℕ → ℕ → Run Queue
unfolding settle
update_item q item priority = do
  i ← or_fault (q.index_map item)
  ok (settle ltb q i priority priority)

unfoldable pub push_or_update : Queue → ℕ → ℕ → Queue
unfolding settle push
push_or_update q item priority = elim (q.index_map item) [
  | some i ↦ settle ltb q i priority priority
  | none ↦ push q item priority
]

unfoldable pub insert_max : Queue → ℕ → ℕ → Queue × Bool
unfolding settle push
insert_max q item priority = elim (q.index_map item) [
  | some i ↦ (settle leb q i priority (max priority (priority_at q i)), false)
  | none ↦ (push q item priority, true)
]

-- The loop compares with the argument, not with the sum.
unfoldable pub insert_cumulative : Queue → ℕ → ℕ → Queue × Bool
unfolding settle push
insert_cumulative q item priority = elim (q.index_map item) [
  | some i ↦ (settle leb q i priority (priority + priority_at q i), false)
  | none ↦ (push q item priority, true)
]

unfoldable pub remove : Queue → ℕ → Queue × Bool
unfolding swap heapify
remove q item = elim (q.index_map item) [
  | some i ↦ (erase (heapify q.size (pop_back (swap q i q.size)) i) item, true)
  | none ↦ (q, false)
]
