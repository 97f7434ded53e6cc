-- ===== src/SmallSet/Sets.antt =====
-- The operators of `small_set` on two sets, and its comparisons.
use graphlabapi_graphlab.Prelude.{
  ℕ, suc, ◌≤◌, ◌<◌, ◌≡◌, refl, sym, ◌∙◌, subst, ◌↔◌, lt_or_le, and_first, and_second, arith, ltb,
  leb, ◌==◌, Bool, true, false, not, ◌&&◌, ◌||◌, [], ◌∷◌, length, if_split, ltb→lt, Bool-cases, inl,
  inr, ==_refl,
}
use graphlabapi_graphlab.Prelude.Run.{Run, ok, fault, ◌>>◌, assert}
use graphlabapi_graphlab.SmallSet.{
  Values, set_union, set_difference, set_intersection, includes, equal, contains_set, is_subset,
  is_equal, plus, minus, times, plus_assign,
}
use graphlabapi_graphlab.SmallSet.Merge.{
  IsSortedFrom, member, member_below, Answers, set_union-Answers, set_difference-Answers,
  set_intersection-Answers,
}

-- A call returns a sorted set with the members of `f` if it has at most `room`, and else fails.
abbrev pub ReturnsWithin : ℕ → (ℕ → Bool) → Run Values → Type 0
ReturnsWithin room f m =
    (r : Values) × Answers 0 f r × (length r ≤ room → m ≡ ok r) × (room < length r → m ≡ fault)

within-Returns :
    (room : ℕ) (f : ℕ → Bool) (r : Values)
    → Answers 0 f r
    → ReturnsWithin room f (assert (leb (length r) room) >> ok r)
within-Returns room f r a = (
  r,
  a,
  λ fits. let yes : leb (length r) room ≡ true = ground (arith, fits) in rw yes refl,
  λ over. let no : leb (length r) room ≡ false = ground (arith, over) in rw no refl,
)

-- On sorted sets, the operators return the sorted union, difference and intersection of the sets,
-- or fail if it has more elements than the set has room for; for the union the other set has at most
-- the room of this one.
pub operators_of_sets :
    (max_dim : ℕ) (s other : Values)
    → IsSortedFrom 0 s
    → IsSortedFrom 0 other
    → ReturnsWithin max_dim (λ e. member e s || member e other) (plus max_dim other s)
      × ReturnsWithin max_dim (λ e. member e s || member e other) (plus_assign max_dim other s)
      × ReturnsWithin max_dim (λ e. member e s && not (member e other)) (minus max_dim other s)
      × ReturnsWithin max_dim (λ e. member e s && member e other) (times max_dim other s)
unfolding plus minus times plus_assign
operators_of_sets max_dim s other hs ho =
    let union = set_union-Answers 0 s other hs ho in
    let (r, answer, fits, over) = within-Returns max_dim _ (set_union s other) union in
    (
      (r, answer, fits, over),
      (r, answer, λ f. rw (fits f) refl, λ o. rw (over o) refl),
      within-Returns max_dim _ (set_difference s other) (set_difference-Answers 0 s other hs ho),
      within-Returns max_dim _ (set_intersection s other)
          (set_intersection-Answers 0 s other hs ho),
    )

-- Inclusion.
or_right : (a b : Bool) → b ≡ true → a || b ≡ true
or_right true b h = refl
or_right false b h = h

abbrev IsWithin : Values → Values → Type 0
IsWithin xs ys = (e : ℕ) → member e ys ≡ true → member e xs ≡ true

-- A member of a range is not in front of it.
member_after : (lo e : ℕ) (xs : Values) → IsSortedFrom lo xs → member e xs ≡ true → lo ≤ e
member_after lo e xs s m = elim (lt_or_le e lo) [
  | inl h ↦ ground (arith, m, member_below lo e xs s h)
  | inr h ↦ h
]

drop_head :
    (x : ℕ) (xs : Values) (e : ℕ) → member e (x ∷ xs) ≡ true → suc x ≤ e → member e xs ≡ true
drop_head x xs e m h =
    let miss : (e == x) ≡ false = ground (arith, h) in subst (λ b. b || member e xs ≡ true) miss m

includes_sound :
    (lo : ℕ) (xs ys : Values)
    → IsSortedFrom lo xs
    → IsSortedFrom lo ys
    → includes xs ys ≡ true
    → IsWithin xs ys
unfolding includes
includes_sound lo xs [] sx sy = λ _ e m. ground (arith, m)
includes_sound lo [] (y ∷ ys) sx sy = λ h e m. ground (arith, h)
includes_sound lo (x ∷ xs) (y ∷ ys) (lex, sx) (ley, sy) =
    if_split (λ r. r ≡ true → IsWithin (x ∷ xs) (y ∷ ys)) (ltb y x) (λ c h. ground (arith, h))
      (λ c. elim (Bool-cases (ltb x y)) [
        | inl d ↦ rw d (λ h e m.
            or_right (e == x) (member e xs)
              (includes_sound (suc x) xs (y ∷ ys) sx (ltb→lt x y d, sy) h e m))
        | inr d ↦
            let same : y ≡ x = ground (arith, c, d) in
            rw d (λ h e m. elim (Bool-cases (e == y)) [
              | inl hit ↦ let here : (e == x) ≡ true = ground (arith, hit, same) in rw here refl
              | inr miss ↦
                  let later : member e ys ≡ true = ground (arith, m, miss) in
                  or_right (e == x) (member e xs) (
                    includes_sound (suc x) xs ys sx (subst (λ t. IsSortedFrom (suc t) ys) same sy) h
                      e later)
            ])
      ])

includes_complete :
    (lo : ℕ) (xs ys : Values)
    → IsSortedFrom lo xs
    → IsSortedFrom lo ys
    → IsWithin xs ys
    → includes xs ys ≡ true
unfolding includes
includes_complete lo xs [] sx sy w = refl
includes_complete lo [] (y ∷ ys) sx sy w = w y (rw (==_refl y) refl)
includes_complete lo (x ∷ xs) (y ∷ ys) (lex, sx) (ley, sy) w =
    if_split (λ r. r ≡ true) (ltb y x)
      (λ c.
        let here : member y (x ∷ xs) ≡ true = w y (rw (==_refl y) refl) in
        sym (member_below (suc y) y (x ∷ xs) (ltb→lt y x c, sx) (omega arith)) ∙ here)
      (λ c. elim (Bool-cases (ltb x y)) [
        | inl d ↦ rw d (
            includes_complete (suc x) xs (y ∷ ys) sx (ltb→lt x y d, sy)
              (λ e m.
                drop_head x xs e (w e m) (member_after (suc x) e (y ∷ ys) (ltb→lt x y d, sy) m)))
        | inr d ↦
            let same : y ≡ x = ground (arith, c, d) in
            let sy_x : IsSortedFrom (suc x) ys = subst (λ t. IsSortedFrom (suc t) ys) same sy in
            rw d (
              includes_complete (suc x) xs ys sx sy_x (λ e m.
                drop_head x xs e (w e (or_right (e == y) (member e ys) m))
                  (member_after (suc x) e ys sy_x m)))
      ])

equal-eq : (xs ys : Values) → length xs ≡ length ys → equal xs ys ≡ true → xs ≡ ys
unfolding equal
equal-eq [] [] l h = refl
equal-eq [] (y ∷ ys) l h = absurd (omega (arith, l))
equal-eq (x ∷ xs) [] l h = absurd (omega (arith, l))
equal-eq (x ∷ xs) (y ∷ ys) l h =
    let apart : Bool = not (ltb x y) && not (ltb y x) in
    let both : apart ≡ true = and_first apart (equal xs ys) h in
    let head : x ≡ y = ground (arith, both) in
    let tail = equal-eq xs ys (omega (arith, l)) (and_second apart (equal xs ys) h) in
    rw (head, tail) refl

equal_refl : (xs : Values) → equal xs xs ≡ true
unfolding equal
equal_refl [] = refl
equal_refl (x ∷ xs) = let same : ltb x x ≡ false = ground arith in rw (same, equal_refl xs) refl

is_equal_sound : (s other : Values) → is_equal s other ≡ true → s ≡ other
unfolding is_equal
is_equal_sound s other =
    if_split (λ r. r ≡ true → s ≡ other) (not (length s == length other)) (λ e h. ground (arith, h))
      (λ e h. equal-eq s other (ground (arith, e)) h)

is_equal_refl : (s : Values) → is_equal s s ≡ true
unfolding is_equal
is_equal_refl s = rw (==_refl (length s), equal_refl s) refl

-- On sorted sets, <= says whether each element of the first is in the second, and == whether the
-- two are the same.
pub comparisons_lem :
    (s other : Values)
    → IsSortedFrom 0 s
    → IsSortedFrom 0 other
    → ((is_subset s other ≡ true) ↔ ((e : ℕ) → member e s ≡ true → member e other ≡ true))
      × ((is_equal s other ≡ true) ↔ (s ≡ other))
unfolding is_subset contains_set
comparisons_lem s other hs ho = (
  (includes_sound 0 other s ho hs, includes_complete 0 other s ho hs),
  (is_equal_sound s other, λ same. subst (λ t. is_equal s t ≡ true) same (is_equal_refl s)),
)
