-- ===== src/FixedDenseBitset/Refine.antt =====
-- A fixed bitset, against the set of its members.
use graphlabapi_graphlab.Prelude.{ℕ, suc, ◌-◌, ◌<◌, ◌≡◌, refl, Bool, sym, subst, ◌∙◌}
use graphlabapi_graphlab.Prelude.Run.{Run, ok, fault, bad_cast}
use graphlabapi_graphlab.Prelude.Updates.{update}
use graphlabapi_graphlab.DenseBitset.Members.{Holds}
use graphlabapi_graphlab.DenseBitset.Access.{Answers, access_lem}
use graphlabapi_graphlab.DenseBitset.Search.Least.{seek}
use graphlabapi_graphlab.DenseBitset.Search.Next.{next_bit-seek}
use graphlabapi_graphlab.FixedDenseBitset.{Words, get, set_to, set_unsync, next_bit}
use graphlabapi_graphlab.FixedDenseBitset.Equivalence.{as_dense, dense_answer, accesses_lem}

-- A write answers `old`, and the words that it leaves hold the set `g`.
abbrev pub Writes : ℕ → Bool → (ℕ → Bool) → Run (Bool × Words) → Type 0
Writes n old g m = (t : Words) × (m ≡ ok (old, t)) × Holds n g (as_dense n t)

Answers-Writes :
    (n : ℕ) (old : Bool) (g : ℕ → Bool) (m : Run (Bool × Words))
    → Answers n old g (dense_answer n m)
    → Writes n old g m
Answers-Writes n old g (ok (was, t)) answer =
    let e = answer.returned in
    let same : as_dense n t ≡ answer.state = cc in
    let same_bit : was ≡ old = cc in (t, rw same_bit refl, subst (Holds n g) (sym same) answer.held)
Answers-Writes n old g fault answer = let e = answer.returned in cc
Answers-Writes n old g bad_cast answer = let e = answer.returned in cc

-- In a fixed bitset that is consistent for a set, a position below the length reads as the set says,
-- both ways to write it answer what it held and leave a consistent bitset for the set with that
-- change, and next_bit answers the least member of the set behind it.
pub members_lem :
    (n b : ℕ) (v : Bool) (f : ℕ → Bool) (a : Words)
    → Holds n f (as_dense n a)
    → b < n
    → (get n b a ≡ ok (f b))
      × Writes n (f b) (update f b v) (set_to n b v a)
      × Writes n (f b) (update f b v) (set_unsync n b v a)
      × (next_bit n b a ≡ ok (seek f (suc b) (n - suc b)))
members_lem n b v f a h low =
    let (got, set, unsync, next, _) = accesses_lem n a b v in
    let (dense_got, dense_set, dense_unsync, _) = access_lem h b low v in
    (
      got ∙ dense_got,
      Answers-Writes n (f b) (update f b v) (set_to n b v a)
          (subst (Answers n (f b) (update f b v)) (sym set) dense_set),
      Answers-Writes n (f b) (update f b v) (set_unsync n b v a)
          (subst (Answers n (f b) (update f b v)) (sym unsync) dense_unsync),
      next ∙ next_bit-seek h b low,
    )
