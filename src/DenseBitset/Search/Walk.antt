-- ===== src/DenseBitset/Search/Walk.antt =====
-- The loop `for (it = begin(); it != end(); ++it)` over a bitset.
use graphlabapi_graphlab.Prelude.{
  ℕ, zero, suc, ◌+◌, ◌-◌, ◌≤◌, ◌<◌, ◌≡◌, refl, ap, ◌∙◌, arith, ◌==◌, if◌then◌else◌, Bool, false,
  List, [], ◌∷◌, Bool-cases, inl, inr,
}
use graphlabapi_graphlab.Prelude.Run.{Run, ok, fault, ◌>>=◌}
use graphlabapi_graphlab.DenseBitset.{Bitset, size_max}
use graphlabapi_graphlab.DenseBitset.Members.{Holds}
use graphlabapi_graphlab.DenseBitset.Search.{begin, end, advance, or_end}
use graphlabapi_graphlab.DenseBitset.Search.Least.{seek}
use graphlabapi_graphlab.DenseBitset.Search.Next.{first_bit-seek, next_bit-seek}

-- The positions that the loop sees from `pos` on. It stops at `end`, or when the fuel is out.
unfoldable pub walk : ℕ → ℕ → Bitset → Run (List ℕ)
walk zero pos s = fault
walk (suc fuel) pos s =
    if pos == end
    then ok []
    else advance pos s >>= λ after. walk fuel after s >>= λ rest. ok (pos ∷ rest)

-- The positions of the set among the `n` from `k` on, in order.
unfoldable pub elements : (ℕ → Bool) → ℕ → ℕ → List ℕ
elements f k zero = []
elements f k (suc n) = let rest = elements f (suc k) n in if f k then k ∷ rest else rest

module _ {n : ℕ} {f : ℕ → Bool} {s : Bitset} (h : Holds n f s) (short : n ≤ size_max) where
  walk_from :
      (m k fuel : ℕ)
      → k + m ≡ n
      → m < fuel
      → walk fuel (or_end (seek f k m)) s ≡ ok (elements f k m)
  unfolding walk seek elements advance
  walk_from m k zero whole lt = absurd (omega (arith, lt))
  walk_from zero k (suc fuel) whole lt = refl
  walk_from (suc m) k (suc fuel) whole lt = elim (Bool-cases (f k)) [
    | inl e ↦
        let more : (k == size_max) ≡ false = ground (arith, whole, short) in
        let rest : n - suc k ≡ m = omega (arith, whole) in
        let next =
          next_bit-seek h k (omega (arith, whole)) ∙ ap (λ t. ok (seek f (suc k) t)) rest in
        rw (e, more, next, walk_from m (suc k) fuel (omega (arith, whole)) (omega (arith, lt))) refl
    | inr e ↦ rw e (walk_from m (suc k) (suc fuel) (omega (arith, whole)) (omega (arith, lt)))
  ]

  -- The loop ends, and sees each position of the set once, in increasing order.
  pub walk-elements : walk (suc n) (begin s) s ≡ ok (elements f 0 n)
  unfolding begin
  walk-elements = rw (first_bit-seek h) (walk_from n 0 (suc n) (omega arith) (omega arith))
