-- ===== src/MutableQueue/Sift.antt =====
-- The order of the heap around the index that a loop has reached. A heap is here the priority of each index.
use graphlabapi_graphlab.Prelude.{ℕ, ◌/◌, ◌≤◌, ◌≡◌, ◌≢◌, inl, inr, ap, arith, eq_cases}

-- Every index but the first has a priority that is at most its parent's.
abbrev pub IsHeap : ℕ → (ℕ → ℕ) → Type 0
IsHeap n f = (j : ℕ) → 2 ≤ j → j ≤ n → f j ≤ f (j / 2)

-- The order may fail at `i` and at its children; these stay below its parent.
pub record IsHole (n : ℕ) (f : ℕ → ℕ) (i : ℕ) : Type 0 where
  pub apart : (j : ℕ) → 2 ≤ j → j ≤ n → j ≢ i → j / 2 ≢ i → f j ≤ f (j / 2)
  pub bridged : (j : ℕ) → 2 ≤ i → j ≤ n → j / 2 ≡ i → f j ≤ f (i / 2)

-- The order holds at `i`, and at its children.
abbrev pub IsBelow : (ℕ → ℕ) → ℕ → Type 0
IsBelow f i = 2 ≤ i → f i ≤ f (i / 2)

abbrev pub IsAbove : ℕ → (ℕ → ℕ) → ℕ → Type 0
IsAbove n f i = (j : ℕ) → 2 ≤ j → j ≤ n → j / 2 ≡ i → f j ≤ f i

-- The two priorities that a swap exchanges.
pub record IsSwapped (f g : ℕ → ℕ) (i k : ℕ) : Type 0 where
  pub first : g i ≡ f k
  pub second : g k ≡ f i
  pub others : (j : ℕ) → j ≢ i → j ≢ k → g j ≡ f j

pub IsHole-filled :
    (n : ℕ) (f : ℕ → ℕ) (i : ℕ) → IsHole n f i → IsBelow f i → IsAbove n f i → IsHeap n f
IsHole-filled n f i hole below above j two bound = elim (eq_cases j i) [
  | inl e ↦ omega (arith, ap f e, ap (λ k. f (k / 2)) e, below (omega arith))
  | inr differ ↦ elim (eq_cases (j / 2) i) [
    | inl e ↦ omega (arith, ap f e, above j two bound e)
    | inr apart ↦ hole.apart j two bound differ apart
  ]
]

-- The child that rises is above its new children, and the order may fail at it only against its parent.
pub rise :
    (n : ℕ) (f g : ℕ → ℕ) (i : ℕ)
    → 2 ≤ i
    → i ≤ n
    → IsSwapped f g i (i / 2)
    → f (i / 2) ≤ f i
    → IsHole n f i
    → IsHole n g (i / 2) × IsAbove n g (i / 2)
rise n f g i two bound swapped le hole = (
  record {
    apart = λ j two_j bound_j differ apart.
        let at_j = swapped.others j (λ e. apart (ap (λ k. k / 2) e)) differ in
        elim (eq_cases (j / 2) i) [
          | inl e ↦ omega (arith, at_j, ap g e, swapped.first, hole.bridged j two bound_j e)
          | inr far ↦ omega (
            arith,
            at_j,
            swapped.others (j / 2) far apart,
            hole.apart j two_j bound_j (λ e. apart (ap (λ k. k / 2) e)) far,
          )
        ];
    bridged = λ j two_p bound_j child.
        let up = swapped.others (i / 2 / 2) (omega arith) (omega arith) in
        let parent = hole.apart (i / 2) two_p (omega arith) (omega arith) (omega arith) in
        elim (eq_cases j i) [
          | inl e ↦ omega (arith, ap g e, swapped.first, up, parent)
          | inr differ ↦ omega (
            arith,
            swapped.others j differ (omega arith),
            ap f child,
            up,
            parent,
            hole.apart j (omega arith) bound_j differ (omega arith),
          )
        ];
  },
  λ j two_j bound_j child. elim (eq_cases j i) [
    | inl e ↦ omega (arith, ap g e, swapped.first, swapped.second, le)
    | inr differ ↦ omega (
      arith,
      swapped.others j differ (omega arith),
      ap f child,
      swapped.second,
      hole.apart j two_j bound_j differ (omega arith),
      le,
    )
  ],
)

-- The larger child that rises is below its parent and above its sibling.
pub sink :
    (n : ℕ) (f g : ℕ → ℕ) (i m : ℕ)
    → 1 ≤ i
    → m ≤ n
    → m / 2 ≡ i
    → 2 ≤ m
    → IsSwapped f g i m
    → f i ≤ f m
    → ((j : ℕ) → j ≤ n → j / 2 ≡ i → f j ≤ f m)
    → IsHole n f i
    → IsBelow f i
    → IsHole n g m × IsBelow g m
sink n f g i m one bound child two swapped le most hole below = (
  record {
    apart = λ j two_j bound_j differ apart. elim (eq_cases j i) [
      | inl e ↦ omega (
        arith,
        ap g e,
        ap (λ k. g (k / 2)) e,
        swapped.first,
        swapped.others (i / 2) (omega arith) (omega arith),
        hole.bridged m (omega arith) bound child,
      )
      | inr far ↦
          let at_j = swapped.others j far differ in
          elim (eq_cases (j / 2) i) [
            | inl e ↦ omega (arith, at_j, ap g e, swapped.first, most j bound_j e)
            | inr farther ↦ omega (
              arith,
              at_j,
              swapped.others (j / 2) farther apart,
              hole.apart j two_j bound_j far farther,
            )
          ]
    ];
    bridged = λ j _ bound_j under. omega (
      arith,
      swapped.others j (omega arith) (omega arith),
      hole.apart j (omega arith) bound_j (omega arith) (omega arith),
      ap f under,
      ap g child,
      swapped.first,
    );
  },
  λ _. omega (arith, swapped.second, ap g child, swapped.first, le),
)
