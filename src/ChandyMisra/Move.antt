-- ===== src/ChandyMisra/Move.antt =====
-- A fork moves from one end of its edge to the other, and the two counts follow.
use graphlabapi_graphlab.Prelude.Updates.{update_cases, update}
use graphlabapi_graphlab.Prelude.{
  ℕ, ◌+◌, ◌-◌, ◌%◌, ◌^◌, ◌<◌, ◌≡◌, ◌≢◌, Bool, true, false, not, inl, inr, refl, sym, ap, ◌∙◌, arith,
  ◌==◌, if◌then◌else◌, ==_iff, Bool-cases,
}
use graphlabapi_graphlab.ChandyMisra.{Fork, Table, hungry, eating, put_fork, state_of, gain, lose}
use graphlabapi_graphlab.ChandyMisra.Count.{Ends, held, held_le, held-update}
use graphlabapi_graphlab.ChandyMisra.Invariant.{IsSound, requested, refork}

pub gain-acquired :
    (t : Table) (a v : ℕ)
    → ((gain t a).philosopherset v).forks_acquired
      ≡ (let c = (t.philosopherset v).forks_acquired in if a == v then (c + 1) % 2 ^ 32 else c)
unfolding gain
gain-acquired t a v = elim (Bool-cases (a == v)) [
  | inl e ↦ let same : a ≡ v = (==_iff a v).0 e in rw (e, same)
  | inr e ↦ rw e
]

pub lose-acquired :
    (t : Table) (a v : ℕ)
    → ((lose t a).philosopherset v).forks_acquired ≡ (
        let c = (t.philosopherset v).forks_acquired in
        if a == v then (c + (2 ^ 32 - 1)) % 2 ^ 32 else c)
unfolding lose
lose-acquired t a v = elim (Bool-cases (a == v)) [
  | inl e ↦ let same : a ≡ v = (==_iff a v).0 e in rw (e, same)
  | inr e ↦ rw e
]

-- The counts are all that `gain` and `lose` change of a philosopher.
pub gain-same :
    (t : Table) (a v : ℕ)
    → (state_of (gain t a) v ≡ state_of t v)
      × (((gain t a).philosopherset v).num_edges ≡ (t.philosopherset v).num_edges)
unfolding gain
gain-same t a =
    update_cases (λ w p. (p.state ≡ state_of t w) × (p.num_edges ≡ (t.philosopherset w).num_edges))
      t.philosopherset a _ (refl, refl) (λ w _. (refl, refl))

pub lose-same :
    (t : Table) (a v : ℕ)
    → (state_of (lose t a) v ≡ state_of t v)
      × (((lose t a).philosopherset v).num_edges ≡ (t.philosopherset v).num_edges)
unfolding lose
lose-same t a =
    update_cases (λ w p. (p.state ≡ state_of t w) × (p.num_edges ≡ (t.philosopherset w).num_edges))
      t.philosopherset a _ (refl, refl) (λ w _. (refl, refl))

pub gain-lose-state : (t : Table) (a b v : ℕ) → state_of (gain (lose t a) b) v ≡ state_of t v
gain-lose-state t a b v = (gain-same (lose t a) b v).0 ∙ (lose-same t a v).0

pub lose-gain-state : (t : Table) (a b v : ℕ) → state_of (lose (gain t a) b) v ≡ state_of t v
lose-gain-state t a b v = (lose-same (gain t a) b v).0 ∙ (gain-same t a v).0

module _ (n : ℕ) (ends : Ends) where
  -- What a fork's move does to the counts, in the order of the updates in the code.
  new_count :
      (t : Table) (i : ℕ) (f : Fork) (a b c v : ℕ)
      → IsSound n ends t
      → n < 2 ^ 32
      → i < n
      → ends (t.forkset i).owner i ≡ a
      → ends f.owner i ≡ b
      → a ≢ b
      → c ≡ (t.philosopherset v).forks_acquired
      → ((if b == v
            then ((if a == v then (c + (2 ^ 32 - 1)) % 2 ^ 32 else c) + 1) % 2 ^ 32
            else (if a == v then (c + (2 ^ 32 - 1)) % 2 ^ 32 else c))
          ≡ held ends (update t.forkset i f) v n)
  new_count t i f a b c v sound small bound old new differ count =
      let moved = held-update ends t.forkset i f v n bound in
      let le = held_le ends (update t.forkset i f) v n in
      let before = sound.acquired v in
      ground (arith, moved, le, before, old, new, count, ==_iff a v, ==_iff b v)

  new_count_swapped :
      (t : Table) (i : ℕ) (f : Fork) (a b c v : ℕ)
      → IsSound n ends t
      → n < 2 ^ 32
      → i < n
      → ends (t.forkset i).owner i ≡ a
      → ends f.owner i ≡ b
      → a ≢ b
      → c ≡ (t.philosopherset v).forks_acquired
      → ((if a == v
            then ((if b == v then (c + 1) % 2 ^ 32 else c) + (2 ^ 32 - 1)) % 2 ^ 32
            else (if b == v then (c + 1) % 2 ^ 32 else c))
          ≡ held ends (update t.forkset i f) v n)
  new_count_swapped t i f a b c v sound small bound old new differ count =
      let moved = held-update ends t.forkset i f v n bound in
      let le = held_le ends (update t.forkset i f) v n in
      let before = sound.acquired v in
      ground (arith, moved, le, before, old, new, count, ==_iff a v, ==_iff b v)

  -- The new owner's side of the fork that moves, and the old owner's.
  one_side :
      (t : Table) (i a : ℕ) (o : Bool) (f : Fork)
      → ends o i ≡ a
      → state_of t a ≢ eating
      → f.owner ≡ not o
      → (s : Bool) → state_of t (ends s i) ≡ eating
      → f.owner ≡ s
  one_side t i a true f end idle owned true e = absurd (idle (ap (state_of t) (sym end) ∙ e))
  one_side t i a true f end idle owned false e = owned
  one_side t i a false f end idle owned true e = owned
  one_side t i a false f end idle owned false e = absurd (idle (ap (state_of t) (sym end) ∙ e))

  asking_side :
      (t : Table) (i a : ℕ) (o : Bool) (f : Fork)
      → ends o i ≡ a
      → f.owner ≡ not o
      → requested (not o) f ≡ false
      → (requested o f ≡ true → state_of t a ≡ hungry)
      → (s : Bool) → requested s f ≡ true
      → (f.owner ≡ not s) × (state_of t (ends s i) ≡ hungry)
  asking_side t i a true f end owned none some true h = (owned, ap (state_of t) end ∙ some h)
  asking_side t i a true f end owned none some false h = absurd (ground (arith, none, h))
  asking_side t i a false f end owned none some true h = absurd (ground (arith, none, h))
  asking_side t i a false f end owned none some false h = (owned, ap (state_of t) end ∙ some h)

  pub to_target-IsSound :
      (t : Table) (i : ℕ) (f : Fork) (a b : ℕ)
      → IsSound n ends t
      → n < 2 ^ 32
      → i < n
      → ends false i ≡ a
      → ends true i ≡ b
      → a ≢ b
      → (t.forkset i).owner ≡ false
      → state_of t a ≢ eating
      → f.owner ≡ true
      → f.request1 ≡ false
      → (f.request0 ≡ true → state_of t a ≡ hungry)
      → IsSound n ends (gain (lose (put_fork t i f) a) b)
  unfolding gain lose
  to_target-IsSound t i f a b sound small bound source target differ owner idle owned none some =
      let u = lose (put_fork t i f) a in
      refork n ends t i f (gain u b) sound bound refl (gain-lose-state (put_fork t i f) a b)
        (λ v. (gain-same u b v).1 ∙ (lose-same (put_fork t i f) a v).1)
        (λ v.
          gain-acquired u b v
          ∙ ap (λ c. if b == v then (c + 1) % 2 ^ 32 else c) (lose-acquired (put_fork t i f) a v)
          ∙ new_count t i f a b _ v sound small bound (ap (λ o. ends o i) owner ∙ source)
              (ap (λ o. ends o i) owned ∙ target) differ refl)
        (one_side t i a false f source idle owned)
        (asking_side t i a false f source owned none some)

  pub to_source-IsSound :
      (t : Table) (i : ℕ) (f : Fork) (a b : ℕ)
      → IsSound n ends t
      → n < 2 ^ 32
      → i < n
      → ends false i ≡ a
      → ends true i ≡ b
      → a ≢ b
      → (t.forkset i).owner ≡ true
      → state_of t b ≢ eating
      → f.owner ≡ false
      → f.request0 ≡ false
      → (f.request1 ≡ true → state_of t b ≡ hungry)
      → IsSound n ends (lose (gain (put_fork t i f) a) b)
  unfolding gain lose
  to_source-IsSound t i f a b sound small bound source target differ owner idle owned none some =
      let u = gain (put_fork t i f) a in
      refork n ends t i f (lose u b) sound bound refl (lose-gain-state (put_fork t i f) a b)
        (λ v. (lose-same u b v).1 ∙ (gain-same (put_fork t i f) a v).1)
        (λ v.
          lose-acquired u b v
          ∙ ap (λ c. if b == v then (c + (2 ^ 32 - 1)) % 2 ^ 32 else c)
              (gain-acquired (put_fork t i f) a v)
          ∙ new_count_swapped t i f b a _ v sound small bound (ap (λ o. ends o i) owner ∙ target)
              (ap (λ o. ends o i) owned ∙ source) (λ e. differ (sym e)) refl)
        (one_side t i b true f target idle owned) (asking_side t i b true f target owned none some)
