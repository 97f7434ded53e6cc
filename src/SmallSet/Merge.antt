-- ===== src/SmallSet/Merge.antt =====
-- The operations on two sorted ranges, and those of sets.
use graphlabapi_graphlab.Prelude.{
  ℕ, suc, ◌≤◌, ◌<◌, ◌≡◌, refl, arith, ltb, ◌==◌, Bool, true, false, not, ◌&&◌, ◌||◌, [], ◌∷◌,
  if_split, ltb→lt,
}
use graphlabapi_graphlab.Prelude.Booleans.{
  or_assoc, or_swap, or_twice, or_false, and_not-false, and_false, or_and, head_apart, head_gone,
  skip_apart, skip_gone, same_gone,
}
use graphlabapi_graphlab.SmallSet.{
  Values, union_from, set_union, difference_from, set_difference, intersection_from,
  set_intersection,
}

-- Increasing numbers from `lo` on.
abbrev pub IsSortedFrom : ℕ → Values → Type 0
IsSortedFrom lo [] = Unit
IsSortedFrom lo (x ∷ xs) = (lo ≤ x) × IsSortedFrom (suc x) xs

abbrev pub member : ℕ → Values → Bool
member e [] = false
member e (x ∷ xs) = (e == x) || member e xs

pub member_below : (lo e : ℕ) (xs : Values) → IsSortedFrom lo xs → e < lo → member e xs ≡ false
member_below lo e [] s h = refl
member_below lo e (x ∷ xs) (le, s) h =
    ground (arith, le, h, member_below (suc x) e xs s (omega (arith, le, h)))

pub IsSortedFrom-weaken :
    (lo hi : ℕ) (xs : Values) → lo ≤ hi → IsSortedFrom hi xs → IsSortedFrom lo xs
IsSortedFrom-weaken lo hi [] h s = tt
IsSortedFrom-weaken lo hi (x ∷ xs) h (le, s) = (omega (arith, h, le), s)

-- A range is sorted and has the members that `on` says.
abbrev pub Answers : ℕ → (ℕ → Bool) → Values → Type 0
Answers lo f r = IsSortedFrom lo r × ((e : ℕ) → member e r ≡ f e)

-- A position is not in a sorted range that begins behind it.
apart :
    (e x lo : ℕ) (xs : Values) → x < lo → IsSortedFrom lo xs → (e == x) ≡ true → member e xs ≡ false
apart e x lo xs h s hit = member_below lo e xs s (ground (arith, h, hit))

-- `x` stands in front of `xs`, and `rest` is known for the ranges behind `x`.
module _ (x : ℕ) (xs : Values) (sx : IsSortedFrom (suc x) xs) (rest : Values → Values) where
  abbrev Behind : (Bool → Bool → Bool) → Type 0
  Behind on =
      (zs : Values)
      → IsSortedFrom (suc x) zs
      → Answers (suc x) (λ e. on (member e xs) (member e zs)) (rest zs)

  same_hit : (e y : ℕ) → ltb x y ≡ false → ltb y x ≡ false → (e == y) ≡ (e == x)
  same_hit e y c d = ground (arith, c, d)

  union_from-Answers :
      Behind (λ a b. a || b)
      → (lo : ℕ) → lo ≤ x
      → (ys : Values) → IsSortedFrom lo ys
      → Answers lo (λ e. member e (x ∷ xs) || member e ys) (union_from x xs rest ys)
  unfolding union_from
  union_from-Answers ih lo le [] sy = ((le, sx), λ e. or_false (member e (x ∷ xs)))
  union_from-Answers ih lo le (y ∷ ys) (ley, sy) =
      let P : Values → Type 0 = Answers lo (λ e. member e (x ∷ xs) || member e (y ∷ ys)) in
      if_split P (ltb x y)
        (λ c.
          let (sorted, members) = ih (y ∷ ys) (ltb→lt x y c, sy) in
          ((le, sorted), λ e. rw (members e) (or_assoc (e == x) (member e xs) (member e (y ∷ ys)))))
        (λ c.
          if_split P (ltb y x)
            (λ d.
              let (sorted, members) = union_from-Answers ih (suc y) (ltb→lt y x d) ys sy in
              (
                (ley, sorted),
                λ e. rw (members e) (or_swap (e == y) (member e (x ∷ xs)) (member e ys)),
              ))
            (λ d.
              let (sorted, members) =
                ih ys (IsSortedFrom-weaken (suc x) (suc y) ys (ground (arith, d)) sy) in
              (
                (le, sorted),
                λ e.
                    rw (members e, same_hit e y c d)
                      (or_twice (e == x) (member e xs) (member e ys)),
              )))

  difference_from-Answers :
      Behind (λ a b. a && not b)
      → (lo : ℕ) → lo ≤ x
      → (ys : Values) → IsSortedFrom lo ys
      → Answers lo (λ e. member e (x ∷ xs) && not (member e ys)) (difference_from x xs rest ys)
  unfolding difference_from
  difference_from-Answers ih lo le [] sy = ((le, sx), λ e. and_not-false (member e (x ∷ xs)))
  difference_from-Answers ih lo le (y ∷ ys) (ley, sy) =
      let P : Values → Type 0 = Answers lo (λ e. member e (x ∷ xs) && not (member e (y ∷ ys))) in
      if_split P (ltb x y)
        (λ c.
          let behind : IsSortedFrom (suc x) (y ∷ ys) = (ltb→lt x y c, sy) in
          let (sorted, members) = ih (y ∷ ys) behind in
          (
            (le, sorted),
            λ e. rw (members e) (
                head_apart (e == x) (member e xs) (member e (y ∷ ys))
                  (apart e x (suc x) (y ∷ ys) (omega arith) behind)),
          ))
        (λ c.
          if_split P (ltb y x)
            (λ d.
              let (sorted, members) = difference_from-Answers ih (suc y) (ltb→lt y x d) ys sy in
              (
                IsSortedFrom-weaken lo (suc y) _ (omega (arith, ley)) sorted,
                λ e. rw (members e) (
                    skip_apart (member e (x ∷ xs)) (e == y) (member e ys)
                      (apart e y (suc y) (x ∷ xs) (omega arith) (ltb→lt y x d, sx))),
              ))
            (λ d.
              let (sorted, members) =
                ih ys (IsSortedFrom-weaken (suc x) (suc y) ys (ground (arith, d)) sy) in
              (
                IsSortedFrom-weaken lo (suc x) _ (omega (arith, le)) sorted,
                λ e.
                    rw (members e, same_hit e y c d)
                      (same_gone (e == x) (member e xs) (member e ys)
                        (apart e x (suc x) xs (omega arith) sx)),
              )))

  intersection_from-Answers :
      Behind (λ a b. a && b)
      → (lo : ℕ) → lo ≤ x
      → (ys : Values) → IsSortedFrom lo ys
      → Answers lo (λ e. member e (x ∷ xs) && member e ys) (intersection_from x rest ys)
  unfolding intersection_from
  intersection_from-Answers ih lo le [] sy = (tt, λ e. and_false (member e (x ∷ xs)))
  intersection_from-Answers ih lo le (y ∷ ys) (ley, sy) =
      let P : Values → Type 0 = Answers lo (λ e. member e (x ∷ xs) && member e (y ∷ ys)) in
      if_split P (ltb x y)
        (λ c.
          let behind : IsSortedFrom (suc x) (y ∷ ys) = (ltb→lt x y c, sy) in
          let (sorted, members) = ih (y ∷ ys) behind in
          (
            IsSortedFrom-weaken lo (suc x) _ (omega (arith, le)) sorted,
            λ e. rw (members e) (
                head_gone (e == x) (member e xs) (member e (y ∷ ys))
                  (apart e x (suc x) (y ∷ ys) (omega arith) behind)),
          ))
        (λ c.
          if_split P (ltb y x)
            (λ d.
              let (sorted, members) = intersection_from-Answers ih (suc y) (ltb→lt y x d) ys sy in
              (
                IsSortedFrom-weaken lo (suc y) _ (omega (arith, ley)) sorted,
                λ e. rw (members e) (
                    skip_gone (member e (x ∷ xs)) (e == y) (member e ys)
                      (apart e y (suc y) (x ∷ xs) (omega arith) (ltb→lt y x d, sx))),
              ))
            (λ d.
              let (sorted, members) =
                ih ys (IsSortedFrom-weaken (suc x) (suc y) ys (ground (arith, d)) sy) in
              (
                (le, sorted),
                λ e. rw (members e, same_hit e y c d) (or_and (e == x) (member e xs) (member e ys)),
              )))

pub set_union-Answers :
    (lo : ℕ) (xs ys : Values)
    → IsSortedFrom lo xs
    → IsSortedFrom lo ys
    → Answers lo (λ e. member e xs || member e ys) (set_union xs ys)
unfolding set_union
set_union-Answers lo [] ys sx sy = (sy, λ e. refl)
set_union-Answers lo (x ∷ xs) ys (le, sx) sy =
    union_from-Answers x xs sx (set_union xs) (λ zs sz. set_union-Answers (suc x) xs zs sx sz) lo le
      ys sy

pub set_difference-Answers :
    (lo : ℕ) (xs ys : Values)
    → IsSortedFrom lo xs
    → IsSortedFrom lo ys
    → Answers lo (λ e. member e xs && not (member e ys)) (set_difference xs ys)
unfolding set_difference
set_difference-Answers lo [] ys sx sy = (tt, λ e. refl)
set_difference-Answers lo (x ∷ xs) ys (le, sx) sy =
    difference_from-Answers x xs sx (set_difference xs)
      (λ zs sz. set_difference-Answers (suc x) xs zs sx sz) lo le ys sy

pub set_intersection-Answers :
    (lo : ℕ) (xs ys : Values)
    → IsSortedFrom lo xs
    → IsSortedFrom lo ys
    → Answers lo (λ e. member e xs && member e ys) (set_intersection xs ys)
unfolding set_intersection
set_intersection-Answers lo [] ys sx sy = (tt, λ e. refl)
set_intersection-Answers lo (x ∷ xs) ys (le, sx) sy =
    intersection_from-Answers x xs sx (set_intersection xs)
      (λ zs sz. set_intersection-Answers (suc x) xs zs sx sz) lo le ys sy
