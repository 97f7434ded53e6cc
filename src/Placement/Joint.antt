-- ===== src/Placement/Joint.antt =====
-- Sorted lists and their intersection, and the table of intersections.
use graphlabapi_graphlab.Prelude.{
  ℕ, zero, suc, ◌+◌, ◌<◌, ◌≤◌, ◌≡◌, refl, true, ◌&&◌, ◌||◌, some, List, [], ◌∷◌, ◌++◌, length,
  get_or, get_elem?-eq-get_or, ltb, leb, ◌==◌, if◌then◌else◌, arith, Bool-cases, inl, inr,
}
use graphlabapi_graphlab.Prelude.Run.{ok}
use graphlabapi_graphlab.Shard.{contains}
use graphlabapi_graphlab.Placement.{
  insert_sorted, sort, intersect, put, JointMap, joint_row, joint_loop,
}

abbrev pub AtLeast : ℕ → List ℕ → Type 0
AtLeast a [] = Unit
AtLeast a (x ∷ xs) = (a ≤ x) × AtLeast a xs

abbrev pub IsSorted : List ℕ → Type 0
IsSorted [] = Unit
IsSorted (x ∷ xs) = AtLeast x xs × IsSorted xs

AtLeast-contains : (a k : ℕ) (xs : List ℕ) → AtLeast a xs → contains xs k ≡ true → a ≤ k
AtLeast-contains a k [] h e = absurd cc
AtLeast-contains a k (x ∷ xs) h e = elim (Bool-cases (x == k)) [
  | inl hit ↦ ground (arith, h.0)
  | inr miss ↦ AtLeast-contains a k xs h.1 (rw miss at e)
]

AtLeast-le : (a b : ℕ) (xs : List ℕ) → a ≤ b → AtLeast b xs → AtLeast a xs
AtLeast-le a b [] le h = tt
AtLeast-le a b (x ∷ xs) le h = (omega arith, AtLeast-le a b xs le h.1)

AtLeast-insert_sorted :
    (a x : ℕ) (xs : List ℕ) → a ≤ x → AtLeast a xs → AtLeast a (insert_sorted x xs)
unfolding insert_sorted
AtLeast-insert_sorted a x [] le h = (le, tt)
AtLeast-insert_sorted a x (y ∷ ys) le h = elim (Bool-cases (ltb y x)) [
  | inl below ↦ rw below (h.0, AtLeast-insert_sorted a x ys le h.1)
  | inr above ↦ rw above (le, h)
]

insert_sorted-IsSorted : (x : ℕ) (xs : List ℕ) → IsSorted xs → IsSorted (insert_sorted x xs)
unfolding insert_sorted
insert_sorted-IsSorted x [] h = (tt, tt)
insert_sorted-IsSorted x (y ∷ ys) h = elim (Bool-cases (ltb y x)) [
  | inl below ↦
      rw below (AtLeast-insert_sorted y x ys (ground arith) h.0, insert_sorted-IsSorted x ys h.1)
  | inr above ↦ rw above ((ground arith, AtLeast-le x y ys (ground arith) h.0), h)
]

pub sort-IsSorted : (xs : List ℕ) → IsSorted (sort xs)
unfolding sort
sort-IsSorted [] = tt
sort-IsSorted (x ∷ xs) = insert_sorted-IsSorted x (sort xs) (sort-IsSorted xs)

contains-insert_sorted :
    (x k : ℕ) (xs : List ℕ) → contains (insert_sorted x xs) k ≡ (x == k || contains xs k)
unfolding insert_sorted
contains-insert_sorted x k [] = ground arith
contains-insert_sorted x k (y ∷ ys) = ground (arith, contains-insert_sorted x k ys)

pub contains-sort : (k : ℕ) (xs : List ℕ) → contains (sort xs) k ≡ contains xs k
unfolding sort
contains-sort k [] = refl
contains-sort k (x ∷ xs) = ground (arith, contains-sort k xs, contains-insert_sorted x k (sort xs))

pub contains-append :
    (k : ℕ) (xs ys : List ℕ) → contains (xs ++ ys) k ≡ (contains xs k || contains ys k)
contains-append k [] ys = refl
contains-append k (x ∷ xs) ys = ground (arith, contains-append k xs ys)

-- The loop of two indexes over sorted lists finds exactly the elements of both.
pub contains-intersect :
    (k : ℕ) (xs ys : List ℕ)
    → IsSorted xs
    → IsSorted ys
    → contains (intersect xs ys) k ≡ (contains xs k && contains ys k)
unfolding intersect
contains-intersect k [] ys h g = refl
contains-intersect k (x ∷ xs) [] h g = ground arith
contains-intersect k (x ∷ xs) (y ∷ ys) h g =
    let after_x = AtLeast-contains x k xs h.0 in
    let after_y = AtLeast-contains y k ys g.0 in
    ground (
      arith,
      contains-intersect k xs ys h.1 g.1,
      contains-intersect k xs (y ∷ ys) h.1 g,
      contains-intersect k (x ∷ xs) ys h g.1,
      after_x,
      after_y,
    )

-- The table after the loop over the first shards of a pair, and after the one over the second.
module _ (graph : List (List ℕ)) where
  abbrev pub joint_of : ℕ → ℕ → List ℕ
  joint_of a b = intersect (get_or graph a []) (get_or graph b [])

  joint_row_lem :
      (shardj shardi n : ℕ) (m : JointMap)
      → shardj < length graph
      → shardi + n ≤ length graph
      → (t : JointMap) × (joint_row graph shardj shardi n m ≡ ok t)
        × ((a b : ℕ)
            → t (a, b) ≡ (
                if b == shardj && (leb shardi a && ltb a (shardi + n))
                then some (joint_of a b)
                else m (a, b)))
  unfolding joint_row put
  joint_row_lem shardj shardi zero m hj h = (m, refl, λ a b. ground arith)
  joint_row_lem shardj shardi (suc n) m hj h =
      let at_i = get_elem?-eq-get_or graph shardi [] (omega arith) in
      let at_j = get_elem?-eq-get_or graph shardj [] hj in
      let (t, done, entries) =
        joint_row_lem shardj (shardi + 1) n (put shardi shardj (joint_of shardi shardj) m) hj
          (omega arith) in
      (t, rw (at_i, at_j) done, λ a b. ground (arith, entries a b))

  pub joint_loop_lem :
      (shardj n : ℕ) (m : JointMap)
      → shardj + n ≤ length graph
      → (t : JointMap) × (joint_loop graph shardj n m ≡ ok t)
        × ((a b : ℕ)
            → t (a, b) ≡ (
                if leb a b && (leb shardj b && ltb b (shardj + n))
                then some (joint_of a b)
                else m (a, b)))
  unfolding joint_loop
  joint_loop_lem shardj zero m h = (m, refl, λ a b. ground arith)
  joint_loop_lem shardj (suc n) m h =
      let (next, row, here) = joint_row_lem shardj 0 (shardj + 1) m (omega arith) (omega arith) in
      let (t, done, entries) = joint_loop_lem (shardj + 1) n next (omega arith) in
      (t, rw row done, λ a b. ground (arith, entries a b, here a b))
