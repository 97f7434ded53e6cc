-- ===== src/Examples/Sets.antt =====
-- Two small sets of two elements.
use graphlabapi_graphlab.Prelude.{
  ℕ, ◌≤◌, ◌<◌, ◌≡◌, arith, ◌↔◌, true, false, not, ◌&&◌, ◌||◌, [], ◌∷◌,
}
use graphlabapi_graphlab.Prelude.Run.{ok, fault}
use graphlabapi_graphlab.SmallSet.{
  Values, insert, plus, plus_assign, minus, times, is_subset, is_equal,
}
use graphlabapi_graphlab.SmallSet.Merge.{IsSortedFrom, member}
use graphlabapi_graphlab.SmallSet.Element.{IsAdded, insert_lem}
use graphlabapi_graphlab.SmallSet.Sets.{ReturnsWithin, operators_of_sets, comparisons_lem}

abbrev two_five : Values
two_five = 2 ∷ 5 ∷ []

abbrev three_five : Values
three_five = 3 ∷ 5 ∷ []

two_five-sorted : IsSortedFrom 0 two_five
two_five-sorted = (omega arith, (omega arith, tt))

three_five-sorted : IsSortedFrom 0 three_five
three_five-sorted = (omega arith, (omega arith, tt))

insert_lem_example :
    (false ≡ true → insert 3 4 two_five ≡ ok two_five)
    × (false ≡ false → 2 < 3 → (r : Values) × (insert 3 4 two_five ≡ ok r) × IsAdded 0 4 two_five r)
    × (false ≡ false → 3 ≤ 2 → insert 3 4 two_five ≡ fault)
insert_lem_example = insert_lem 3 4 two_five two_five-sorted

operators_of_sets_example :
    ReturnsWithin 4 (λ e. member e two_five || member e three_five) (plus 4 three_five two_five)
    × ReturnsWithin 4
        (λ e. member e two_five || member e three_five)
        (plus_assign 4 three_five two_five)
    × ReturnsWithin 4
        (λ e. member e two_five && not (member e three_five))
        (minus 4 three_five two_five)
    × ReturnsWithin 4 (λ e. member e two_five && member e three_five) (times 4 three_five two_five)
operators_of_sets_example =
    operators_of_sets 4 two_five three_five two_five-sorted three_five-sorted

comparisons_lem_example :
    ((is_subset two_five three_five ≡ true)
      ↔ ((e : ℕ) → member e two_five ≡ true → member e three_five ≡ true))
    × ((is_equal two_five three_five ≡ true) ↔ (two_five ≡ three_five))
comparisons_lem_example = comparisons_lem two_five three_five two_five-sorted three_five-sorted
