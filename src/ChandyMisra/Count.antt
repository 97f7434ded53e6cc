-- ===== src/ChandyMisra/Count.antt =====
-- The number of forks a philosopher holds, over the edges below a bound.
use graphlabapi_graphlab.Prelude.{
  ℕ, zero, suc, ◌+◌, ◌≤◌, ◌<◌, ◌≡◌, ◌≢◌, Bool, true, false, inl, inr, refl, sym, subst, ◌∙◌, arith,
  ◌==◌, if◌then◌else◌, ==_iff, ==_refl, Bool-cases,
}
use graphlabapi_graphlab.ChandyMisra.{Fork}
use graphlabapi_graphlab.Prelude.Updates.{update, update_self}

-- An edge has its target under `true` and its source under `false`, as the owner bit has.
abbrev pub Ends : Type 0
Ends = Bool → ℕ → ℕ

abbrev pub is_end : Ends → Bool → ℕ → ℕ → ℕ
is_end ends s i v = if ends s i == v then 1 else 0

abbrev pub held : Ends → (ℕ → Fork) → ℕ → ℕ → ℕ
held ends forks v zero = 0
held ends forks v (suc k) = is_end ends (forks k).owner k v + held ends forks v k

abbrev pub degree : Ends → ℕ → ℕ → ℕ
degree ends v zero = 0
degree ends v (suc k) = is_end ends true k v + is_end ends false k v + degree ends v k

module _ (ends : Ends) where
  is_end-is : (s : Bool) (i v : ℕ) → ends s i ≡ v → is_end ends s i v ≡ 1
  is_end-is s i v h = ground (arith)

  is_end_le : (s : Bool) (i v : ℕ) → is_end ends s i v ≤ 1
  is_end_le s i v = ground (arith)

  is_end_le_both :
      (s : Bool) (i v : ℕ) → is_end ends s i v ≤ is_end ends true i v + is_end ends false i v
  is_end_le_both true i v = omega arith
  is_end_le_both false i v = omega arith

  pub held_le : (forks : ℕ → Fork) (v k : ℕ) → held ends forks v k ≤ k
  held_le forks v zero = omega arith
  held_le forks v (suc k) = omega (arith, held_le forks v k, is_end_le (forks k).owner k v)

  held_le_degree : (forks : ℕ → Fork) (v k : ℕ) → held ends forks v k ≤ degree ends v k
  held_le_degree forks v zero = omega arith
  held_le_degree forks v (suc k) =
      omega (arith, held_le_degree forks v k, is_end_le_both (forks k).owner k v)

  held-update_other :
      (forks : ℕ → Fork) (i : ℕ) (f : Fork) (v k : ℕ)
      → k ≤ i
      → held ends (update forks i f) v k ≡ held ends forks v k
  held-update_other forks i f v zero h = refl
  held-update_other forks i f v (suc k) h = ground (arith, held-update_other forks i f v k)

  -- A fork that changes hands moves one unit of the counts.
  pub held-update :
      (forks : ℕ → Fork) (i : ℕ) (f : Fork) (v k : ℕ)
      → i < k
      → held ends (update forks i f) v k + is_end ends (forks i).owner i v
        ≡ held ends forks v k + is_end ends f.owner i v
  held-update forks i f v zero h = absurd (omega arith)
  held-update forks i f v (suc k) h = elim (Bool-cases (i == k)) [
    | inl e ↦
        let same : i ≡ k = (==_iff i k).0 e in
        let above = held-update_other forks i f v k (omega arith) in
        subst
          (λ j.
            is_end ends (update forks i f j).owner j v
              + held ends (update forks i f) v k
              + is_end ends (forks i).owner i v
            ≡ is_end ends (forks j).owner j v + held ends forks v k + is_end ends f.owner i v)
          same (rw (update_self forks i f) (omega (arith, above)))
    | inr e ↦
        let below = held-update forks i f v k (ground (arith, ==_refl k)) in
        rw e (omega (arith, below))
  ]

  -- The two ends differ, so that only one of them is the philosopher.
  only_end :
      (o s : Bool) (i v : ℕ)
      → ends true i ≢ ends false i
      → ends s i ≡ v
      → is_end ends o i v ≡ 1
      → o ≡ s
  only_end o s i v differ end one = elim (Bool-cases (ends o i == v)) [
    | inl e ↦ same_side o s ((==_iff (ends o i) v).0 e ∙ sym end)
    | inr e ↦ absurd (ground (arith, one))
  ]
    where
      same_side : (o s : Bool) → ends o i ≡ ends s i → o ≡ s
      same_side true true e = refl
      same_side true false e = absurd (differ e)
      same_side false true e = absurd (differ (sym e))
      same_side false false e = refl

  owner_one :
      (o s : Bool) (i v : ℕ)
      → ends s i ≡ v
      → is_end ends o i v ≡ is_end ends true i v + is_end ends false i v
      → is_end ends o i v ≡ 1
  owner_one o s i v end all =
      omega (arith, all, is_end_le o i v, is_end-is s i v end, is_end_le_both s i v)

  -- A philosopher that holds as many forks as it has edges holds the fork of each.
  pub held_all :
      (forks : ℕ → Fork) (v k : ℕ) (no_loop : (j : ℕ) → ends true j ≢ ends false j)
      → held ends forks v k ≡ degree ends v k
      → (i : ℕ) (s : Bool) → i < k
      → ends s i ≡ v
      → (forks i).owner ≡ s
  held_all forks v zero no_loop all i s h end = absurd (omega arith)
  held_all forks v (suc k) no_loop all i s h end = elim (Bool-cases (i == k)) [
    | inl e ↦
        let same : i ≡ k = (==_iff i k).0 e in
        let at_k : ends s k ≡ v = subst (λ j. ends s j ≡ v) same end in
        subst (λ j. (forks j).owner ≡ s) (sym same)
          (only_end (forks k).owner s k v (no_loop k) at_k (
            owner_one (forks k).owner s k v at_k
              (omega (arith, all, held_le_degree forks v k, is_end_le_both (forks k).owner k v))))
    | inr e ↦
        held_all forks v k no_loop
          (omega (arith, all, held_le_degree forks v k, is_end_le_both (forks k).owner k v)) i s
          (ground (arith, ==_refl k)) end
  ]
