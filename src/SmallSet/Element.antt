-- ===== src/SmallSet/Element.antt =====
-- Looking for an element, and adding one.
use graphlabapi_graphlab.Prelude.{
  ℕ, suc, ◌≤◌, ◌<◌, ◌≡◌, refl, ap, arith, ltb, leb, ◌==◌, Bool, true, false, not, ◌&&◌, ◌||◌, [],
  ◌∷◌, length, get_or, ltb→lt, Bool-cases, inl, inr,
}
use graphlabapi_graphlab.Prelude.Run.{ok, fault}
use graphlabapi_graphlab.SmallSet.{
  Values, lower_bound, binary_search, contains, swap_through, swap_from, insert,
}
use graphlabapi_graphlab.SmallSet.Merge.{IsSortedFrom, member, member_below}
use graphlabapi_graphlab.Prelude.Booleans.{or_swap}

binary_search-member :
    (lo e : ℕ) (xs : Values) → IsSortedFrom lo xs → binary_search e xs ≡ member e xs
unfolding binary_search
binary_search-member lo e [] s = refl
binary_search-member lo e (x ∷ xs) (le, s) =
    ground (arith, binary_search-member (suc x) e xs s, member_below (suc x) e xs s)

-- A sorted set contains the elements that it has.
pub contains-member : (lo e : ℕ) (s : Values) → IsSortedFrom lo s → contains e s ≡ member e s
unfolding contains
contains-member lo e s h = binary_search-member lo e s h

-- Whether the place that lower_bound finds has the element.
abbrev found : ℕ → Values → Bool
found e s = not (lower_bound e s == length s) && not (ltb e (get_or s (lower_bound e s) 0))

found-member : (lo e : ℕ) (xs : Values) → IsSortedFrom lo xs → found e xs ≡ member e xs
unfolding lower_bound
found-member lo e [] s = refl
found-member lo e (x ∷ xs) (le, s) = elim (Bool-cases (ltb x e)) [
  | inl c ↦
      let p = lower_bound e xs in
      let same : (suc p == suc (length xs)) ≡ (p == length xs) = ground arith in
      let miss : (e == x) ≡ false = ground (arith, c) in
      rw (c, same, miss) (found-member (suc x) e xs s)
  | inr c ↦ rw c (ground (arith, member_below (suc x) e xs s))
]

-- The element and those behind it, one place on.
swap_through-cons : (e : ℕ) (xs : Values) → swap_through e xs ≡ e ∷ xs
unfolding swap_through
swap_through-cons e [] = refl
swap_through-cons e (x ∷ xs) = ap (◌∷◌ e) (swap_through-cons x xs)

pub record IsAdded (lo e : ℕ) (xs r : Values) : Type 0 where
  pub sorted : IsSortedFrom lo r
  pub members : (j : ℕ) → member j r ≡ (j == e) || member j xs
  pub longer : length r ≡ suc (length xs)

swap_from-IsAdded :
    (lo e : ℕ) (xs : Values)
    → lo ≤ e
    → IsSortedFrom lo xs
    → member e xs ≡ false
    → IsAdded lo e xs (swap_from (lower_bound e xs) e xs)
unfolding lower_bound swap_from swap_through
swap_from-IsAdded lo e [] le s new = record {
  sorted = (le, tt);
  members = λ j. refl;
  longer = refl;
}
swap_from-IsAdded lo e (x ∷ xs) le (lex, s) new = elim (Bool-cases (ltb x e)) [
  | inl c ↦
      let rest = swap_from-IsAdded (suc x) e xs (ltb→lt x e c) s (ground (arith, new)) in
      rw c record {
        sorted = (lex, rest.sorted);
        members = λ j. rw (rest.members j) (or_swap (j == x) (j == e) (member j xs));
        longer = ap suc rest.longer;
      }
  | inr c ↦
      let before : e < x = ground (arith, c, new) in
      rw (c, swap_through-cons x xs)
        record { sorted = (le, (before, s)); members = λ j. refl; longer = refl }
]

-- insert returns a sorted set as it is if it has the element, and else adds the element, or fails
-- if the set is full.
pub insert_lem :
    (max_dim e : ℕ) (s : Values)
    → IsSortedFrom 0 s
    → (member e s ≡ true → insert max_dim e s ≡ ok s)
      × (member e s ≡ false
          → length s < max_dim
          → (r : Values) × (insert max_dim e s ≡ ok r) × IsAdded 0 e s r)
      × (member e s ≡ false → max_dim ≤ length s → insert max_dim e s ≡ fault)
unfolding insert
insert_lem max_dim e s h = (
  λ m. rw (found-member 0 e s h, m) refl,
  λ m room.
      let fits : leb (suc (length s)) max_dim ≡ true = ground (arith, room) in
      (
        swap_from (lower_bound e s) e s,
        rw (found-member 0 e s h, m, fits) refl,
        swap_from-IsAdded 0 e s (omega arith) h m,
      ),
  λ m full.
      let over : leb (suc (length s)) max_dim ≡ false = ground (arith, full) in
      rw (found-member 0 e s h, m, over) refl,
)
