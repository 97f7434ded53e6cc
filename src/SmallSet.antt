-- ===== src/SmallSet.antt =====
-- The class `small_set<MAX_DIM, T>` of util/small_set.hpp, for numbers with std::less: a sorted
-- array of at most MAX_DIM elements. The elements in use are a list; std::lower_bound,
-- std::set_union and their kin are what the standard says of sorted ranges.
pub mod Merge
pub mod Element
pub mod Sets
use graphlabapi_graphlab.Prelude.{
  ℕ, zero, suc, max, ltb, leb, ◌==◌, if◌then◌else◌, Bool, true, false, not, ◌&&◌, List, [], ◌∷◌,
  length, get_or,
}
use graphlabapi_graphlab.Prelude.Run.{Run, ok, fault, ◌>>=◌, ◌>>◌, assert}

abbrev pub Values : Type 0
Values = List ℕ

-- The algorithms of the standard library.
unfoldable pub lower_bound : ℕ → Values → ℕ
lower_bound elem [] = 0
lower_bound elem (x ∷ xs) = let rest = lower_bound elem xs in if ltb x elem then suc rest else 0

unfoldable pub binary_search : ℕ → Values → Bool
binary_search elem [] = false
binary_search elem (x ∷ xs) =
    let rest = binary_search elem xs in if ltb x elem then rest else not (ltb elem x)

unfoldable pub includes : Values → Values → Bool
includes xs [] = true
includes [] (y ∷ ys) = false
includes (x ∷ xs) (y ∷ ys) =
    let behind = includes xs (if ltb x y then y ∷ ys else ys) in if ltb y x then false else behind

-- One element `x` in front of `xs`, with what becomes of `xs` and a second range.
unfoldable pub union_from : ℕ → Values → (Values → Values) → Values → Values
union_from x xs rest [] = x ∷ xs
union_from x xs rest (y ∷ ys) =
    let skip = union_from x xs rest ys in
    if ltb x y then x ∷ rest (y ∷ ys) else (if ltb y x then y ∷ skip else x ∷ rest ys)

unfoldable pub set_union : Values → Values → Values
set_union [] ys = ys
set_union (x ∷ xs) ys = union_from x xs (set_union xs) ys

unfoldable pub difference_from : ℕ → Values → (Values → Values) → Values → Values
difference_from x xs rest [] = x ∷ xs
difference_from x xs rest (y ∷ ys) =
    let skip = difference_from x xs rest ys in
    if ltb x y then x ∷ rest (y ∷ ys) else (if ltb y x then skip else rest ys)

unfoldable pub set_difference : Values → Values → Values
set_difference [] ys = []
set_difference (x ∷ xs) ys = difference_from x xs (set_difference xs) ys

unfoldable pub intersection_from : ℕ → (Values → Values) → Values → Values
intersection_from x rest [] = []
intersection_from x rest (y ∷ ys) =
    let skip = intersection_from x rest ys in
    if ltb x y then rest (y ∷ ys) else (if ltb y x then skip else x ∷ rest ys)

unfoldable pub set_intersection : Values → Values → Values
set_intersection [] ys = []
set_intersection (x ∷ xs) ys = intersection_from x (set_intersection xs) ys

unfoldable pub equal : Values → Values → Bool
equal [] ys = true
equal (x ∷ xs) [] = false
equal (x ∷ xs) (y ∷ ys) = (not (ltb x y) && not (ltb y x)) && equal xs ys

-- The methods.
abbrev pub is_empty : Values → Bool
is_empty s = length s == 0

unfoldable pub contains : ℕ → Values → Bool
contains elem s = binary_search elem s

unfoldable pub contains_set : Values → Values → Bool
contains_set other s = includes s other

unfoldable pub is_subset : Values → Values → Bool
is_subset s other = contains_set s other

unfoldable pub is_proper_subset : Values → Values → Bool
is_proper_subset s other = contains_set s other && ltb (length s) (length other)

unfoldable pub is_equal : Values → Values → Bool
is_equal s other = if not (length s == length other) then false else equal s other

unfoldable pub element_at : ℕ → Values → Run ℕ
element_at index s = if ltb index (length s) then ok (get_or s index 0) else fault

-- for (; ptr < end(); ++ptr) std::swap( *ptr, tmp), where the last place is new
unfoldable pub swap_through : ℕ → Values → Values
swap_through tmp [] = tmp ∷ []
swap_through tmp (x ∷ xs) = tmp ∷ swap_through x xs

-- the same from `ptr` on
unfoldable pub swap_from : ℕ → ℕ → Values → Values
swap_from zero tmp xs = swap_through tmp xs
swap_from (suc ptr) tmp [] = []
swap_from (suc ptr) tmp (x ∷ xs) = x ∷ swap_from ptr tmp xs

module _ (max_dim : ℕ) where
  -- operator+= of an element, and insert
  unfoldable pub insert : ℕ → Values → Run Values
  insert elem s =
      let ptr = lower_bound elem s in
      if not (ptr == length s) && not (ltb elem (get_or s ptr 0))
      then ok s
      else (if leb (suc (length s)) max_dim then ok (swap_from ptr elem s) else fault)

  -- A write past the places of the result fails the assertion of safe_iterator.
  abbrev within : Values → Run Values
  within r = assert (leb (length r) max_dim) >> ok r

  unfoldable pub minus : Values → Values → Run Values
  minus other s = within (set_difference s other)

  unfoldable pub times : Values → Values → Run Values
  times other s = within (set_intersection s other)

  -- The other set has a type of this dimension or of a smaller one, so that the result has this
  -- type. For a larger one operator+ does not compile: absolute_end of the result's type is private.
  unfoldable pub plus : Values → Values → Run Values
  plus other s = within (set_union s other)

  -- *this = *this + other
  unfoldable pub plus_assign : Values → Values → Run Values
  plus_assign other s = do result ← plus other s; ok result
