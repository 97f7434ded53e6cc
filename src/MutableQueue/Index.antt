-- ===== src/MutableQueue/Index.antt =====
-- The index map points at each item, and a swap keeps it so. `n` is the size, or the one before a pop.
use graphlabapi_graphlab.Prelude.{
  eq_cases, ℕ, zero, suc, ◌≤◌, ◌<◌, ◌≡◌, ◌≢◌, Bool, ◌&&◌, inl, inr, refl, sym, ap, subst, ◌∙◌,
  arith, ◌==◌, ==_refl, ltb, if_split, Option-cases, Option, none, some,
}
use graphlabapi_graphlab.Prelude.Updates.{update, update_self, update_other}
use graphlabapi_graphlab.MutableQueue.{Queue, parent, priority_at, swap, largest, heapify, climb}
use graphlabapi_graphlab.MutableQueue.Heapify.{largest-IsLargest}

pub record IsIndexed (n : ℕ) (q : Queue) : Type 0 where
  pub points : (i : ℕ) → 1 ≤ i → i ≤ n → q.index_map (q.heap i).0 ≡ some i
  pub in_heap : (x i : ℕ) → q.index_map x ≡ some i → (1 ≤ i) × (i ≤ n) × ((q.heap i).0 ≡ x)

-- What the queue stands for: the priority of each item that it holds.
abbrev pub view : Queue → ℕ → Option ℕ
view q x = elim (q.index_map x) [ none ↦ none | some i ↦ some (q.heap i).1 ]

pub some_eq : {a b : ℕ} → some a ≡ some b → a ≡ b
some_eq h = cc

-- Where an index lies, the item there has that index alone.
pub same_index :
    (n : ℕ) (q : Queue) (i j : ℕ)
    → IsIndexed n q
    → 1 ≤ i
    → i ≤ n
    → 1 ≤ j
    → j ≤ n
    → (q.heap i).0 ≡ (q.heap j).0
    → i ≡ j
same_index n q i j indexed one_i in_i one_j in_j same =
    some_eq (sym (indexed.points i one_i in_i) ∙ ap q.index_map same ∙ indexed.points j one_j in_j)

-- What a swap does to the item at an index, and to the index of an item.
record SwapsItems (q : Queue) (i j : ℕ) : Type 0 where
  heap_i : (swap q i j).heap i ≡ q.heap j
  heap_j : (swap q i j).heap j ≡ q.heap i
  heap_other : (k : ℕ) → k ≢ i → k ≢ j → (swap q i j).heap k ≡ q.heap k
  index_i : (swap q i j).index_map (q.heap j).0 ≡ some i
  index_j : (swap q i j).index_map (q.heap i).0 ≡ some j
  index_other :
      (x : ℕ) → x ≢ (q.heap i).0 → x ≢ (q.heap j).0 → (swap q i j).index_map x ≡ q.index_map x

swap-SwapsItems :
    (n : ℕ) (q : Queue) (i j : ℕ) → IsIndexed n q → 1 ≤ i → i ≤ n → 1 ≤ j → j ≤ n → SwapsItems q i j
unfolding swap
swap-SwapsItems n q i j indexed one_i in_i one_j in_j =
    let moved = update q.heap i (q.heap j) in
    let noted = update q.index_map (q.heap j).0 (some i) in
    let heap_j = update_self moved j (q.heap i) in
    let index_j = update_self noted (q.heap i).0 (some j) in
    record {
      heap_i = elim (eq_cases j i) [
        | inl e ↦ ap (update moved j (q.heap i)) (sym e) ∙ heap_j ∙ ap q.heap (sym e)
        | inr differ ↦ update_other moved (q.heap i) differ ∙ update_self q.heap i (q.heap j)
      ];
      heap_j = heap_j;
      heap_other = λ k k_i k_j.
          update_other moved (q.heap i) (λ e. k_j (sym e))
          ∙ update_other q.heap (q.heap j) (λ e. k_i (sym e));
      index_i = elim (eq_cases j i) [
        | inl e ↦
            ap (update noted (q.heap i).0 (some j)) (ap (λ k. (q.heap k).0) e) ∙ index_j ∙ ap some e
        | inr differ ↦
            update_other noted (some j)
              (λ same. differ (sym (same_index n q i j indexed one_i in_i one_j in_j same)))
            ∙ update_self q.index_map (q.heap j).0 (some i)
      ];
      index_j = index_j;
      index_other = λ x x_i x_j.
          update_other noted (some j) (λ e. x_i (sym e))
          ∙ update_other q.index_map (some i) (λ e. x_j (sym e));
    }

pub view-some : (q : Queue) (x i : ℕ) → q.index_map x ≡ some i → view q x ≡ some (q.heap i).1
view-some q x i at = rw (at, view) refl

pub view-none : (q : Queue) (x : ℕ) → q.index_map x ≡ none → view q x ≡ none
view-none q x at = rw (at, view) refl

-- What an item's entry decides.
pub view-same :
    (q u : Queue) (x : ℕ)
    → u.index_map x ≡ q.index_map x
    → ((k : ℕ) → q.index_map x ≡ some k → u.heap k ≡ q.heap k)
    → view u x ≡ view q x
view-same q u x same lies = elim (Option-cases (q.index_map x)) [
  | inl at ↦ view-none u x (same ∙ at) ∙ sym (view-none q x at)
  | inr some_k ↦
      view-some u x some_k.0 (same ∙ some_k.1)
      ∙ ap (λ c. some c.1) (lies some_k.0 some_k.1)
      ∙ sym (view-some q x some_k.0 some_k.1)
]

module _ (n : ℕ) (q : Queue) (i j : ℕ) (indexed : IsIndexed n q) (s : SwapsItems q i j)
    (one_i : 1 ≤ i) (in_i : i ≤ n) (one_j : 1 ≤ j) (in_j : j ≤ n) where
  swap-points : (k : ℕ) → 1 ≤ k → k ≤ n → (swap q i j).index_map ((swap q i j).heap k).0 ≡ some k
  swap-points k one bound =
      let u = swap q i j in
      elim (eq_cases k j) [
        | inl e ↦ ap (λ c. u.index_map c.0) (ap u.heap e ∙ s.heap_j) ∙ s.index_j ∙ ap some (sym e)
        | inr k_j ↦ elim (eq_cases k i) [
          | inl e ↦ ap (λ c. u.index_map c.0) (ap u.heap e ∙ s.heap_i) ∙ s.index_i ∙ ap some (sym e)
          | inr k_i ↦
              ap (λ c. u.index_map c.0) (s.heap_other k k_i k_j)
              ∙ s.index_other (q.heap k).0
                  (λ e. k_i (same_index n q k i indexed one bound one_i in_i e))
                  (λ e. k_j (same_index n q k j indexed one bound one_j in_j e))
              ∙ indexed.points k one bound
        ]
      ]

  -- Another item keeps its index, and what lies there.
  swap-apart :
      (x k : ℕ)
      → x ≢ (q.heap i).0
      → x ≢ (q.heap j).0
      → q.index_map x ≡ some k
      → (swap q i j).heap k ≡ q.heap k
  swap-apart x k x_i x_j at =
      let lies = (indexed.in_heap x k at).2 in
      s.heap_other k (λ e. x_i (sym lies ∙ ap (λ c. (q.heap c).0) e))
        (λ e. x_j (sym lies ∙ ap (λ c. (q.heap c).0) e))

  swap-in_heap :
      (x k : ℕ)
      → (swap q i j).index_map x ≡ some k
      → (1 ≤ k) × (k ≤ n) × (((swap q i j).heap k).0 ≡ x)
  swap-in_heap x k at =
      let u = swap q i j in
      elim (eq_cases x (q.heap i).0) [
        | inl e ↦
            let same : j ≡ k = some_eq (sym s.index_j ∙ ap u.index_map (sym e) ∙ at) in
            subst (λ k. (1 ≤ k) × (k ≤ n) × ((u.heap k).0 ≡ x)) same
              (one_j, in_j, ap (λ c. c.0) s.heap_j ∙ sym e)
        | inr x_i ↦ elim (eq_cases x (q.heap j).0) [
          | inl e ↦
              let same : i ≡ k = some_eq (sym s.index_i ∙ ap u.index_map (sym e) ∙ at) in
              subst (λ k. (1 ≤ k) × (k ≤ n) × ((u.heap k).0 ≡ x)) same
                (one_i, in_i, ap (λ c. c.0) s.heap_i ∙ sym e)
          | inr x_j ↦
              let old : q.index_map x ≡ some k = sym (s.index_other x x_i x_j) ∙ at in
              let lies = indexed.in_heap x k old in
              (lies.0, lies.1, ap (λ c. c.0) (swap-apart x k x_i x_j old) ∙ lies.2)
        ]
      ]

  swap-view : (x : ℕ) → view (swap q i j) x ≡ view q x
  swap-view x =
      let u = swap q i j in
      elim (eq_cases x (q.heap i).0) [
        | inl e ↦
            view-some u x j (ap u.index_map e ∙ s.index_j)
            ∙ ap (λ c. some c.1) s.heap_j
            ∙ sym (view-some q x i (ap q.index_map e ∙ indexed.points i one_i in_i))
        | inr x_i ↦ elim (eq_cases x (q.heap j).0) [
          | inl e ↦
              view-some u x i (ap u.index_map e ∙ s.index_i)
              ∙ ap (λ c. some c.1) s.heap_i
              ∙ sym (view-some q x j (ap q.index_map e ∙ indexed.points j one_j in_j))
          | inr x_j ↦ view-same q u x (s.index_other x x_i x_j) (λ k. swap-apart x k x_i x_j)
        ]
      ]

-- A swap moves no priority to another item.
abbrev pub IsSame : ℕ → Queue → Queue → Type 0
IsSame n q u = IsIndexed n u × (u.size ≡ q.size) × ((x : ℕ) → view u x ≡ view q x)

pub swap-IsSame :
    (n : ℕ) (q : Queue) (i j : ℕ)
    → IsIndexed n q
    → 1 ≤ i
    → i ≤ n
    → 1 ≤ j
    → j ≤ n
    → IsSame n q (swap q i j)
unfolding swap
swap-IsSame n q i j indexed one_i in_i one_j in_j =
    let s = swap-SwapsItems n q i j indexed one_i in_i one_j in_j in
    (
      record {
        points = swap-points n q i j indexed s one_i in_i one_j in_j;
        in_heap = swap-in_heap n q i j indexed s one_i in_i one_j in_j;
      },
      refl,
      swap-view n q i j indexed s one_i in_i one_j in_j,
    )

IsSame-trans : (n : ℕ) (q u v : Queue) → IsSame n q u → IsSame n u v → IsSame n q v
IsSame-trans n q u v first second = (second.0, second.1 ∙ first.1, λ x. second.2 x ∙ first.2 x)

pub climb-IsSame :
    (n : ℕ) (before : ℕ → ℕ → Bool) (fuel : ℕ) (q : Queue) (priority i : ℕ)
    → IsIndexed n q
    → 1 ≤ i
    → i ≤ n
    → IsSame n q (climb before fuel q priority i).0
unfolding climb
climb-IsSame n before zero q priority i indexed one bound = (indexed, refl, λ x. refl)
climb-IsSame n before (suc fuel) q priority i indexed one bound =
    if_split (λ (r : Queue × ℕ). IsSame n q r.0)
      (ltb 1 i && before (priority_at q (parent i)) priority)
      (λ guard.
        let two : 2 ≤ i = ground (arith, guard) in
        let swapped = swap-IsSame n q i (parent i) indexed one bound (omega arith) (omega arith) in
        IsSame-trans n q (swap q i (parent i)) _ swapped (
          climb-IsSame n before fuel (swap q i (parent i)) priority (parent i) swapped.0
            (omega arith) (omega arith)))
      (λ _. (indexed, refl, λ x. refl))

pub heapify-IsSame :
    (n fuel : ℕ) (q : Queue) (i : ℕ)
    → IsIndexed n q
    → q.size ≤ n
    → 1 ≤ i
    → i ≤ n
    → IsSame n q (heapify fuel q i)
unfolding heapify
heapify-IsSame n zero q i indexed fits one bound = (indexed, refl, λ x. refl)
heapify-IsSame n (suc fuel) q i indexed fits one bound =
    let m = largest q i in
    let found = largest-IsLargest q i one in
    if_split (IsSame n q) (m == i) (λ _. (indexed, refl, λ x. refl))
      (λ e.
        let in_range = found.in_range (λ same. ground (arith, e, same, ==_refl i)) in
        let one_m : 1 ≤ m = ground (arith, found.choice) in
        let swapped = swap-IsSame n q i m indexed one bound one_m (omega (arith, in_range)) in
        IsSame-trans n q (swap q i m) _ swapped (
          heapify-IsSame n fuel (swap q i m) m swapped.0 (omega (arith, swapped.1)) one_m
            (omega (arith, in_range))))

-- What lies behind the end of the heap stays.
pub heapify-other :
    (fuel : ℕ) (q : Queue) (i k : ℕ) → 1 ≤ i → q.size < k → (heapify fuel q i).heap k ≡ q.heap k
unfolding heapify swap
heapify-other zero q i k one behind = refl
heapify-other (suc fuel) q i k one behind =
    let m = largest q i in
    let found = largest-IsLargest q i one in
    if_split (λ (r : Queue). r.heap k ≡ q.heap k) (m == i) (λ _. refl)
      (λ e.
        let in_range = found.in_range (λ same. ground (arith, e, same, ==_refl i)) in
        let down : i < m = ground (arith, found.choice, e, ==_refl i) in
        heapify-other fuel (swap q i m) m k (omega (arith, down)) behind
        ∙ update_other (update q.heap i (q.heap m)) (q.heap i) (omega (arith, in_range))
        ∙ update_other q.heap (q.heap m) (omega (arith, in_range, down)))
