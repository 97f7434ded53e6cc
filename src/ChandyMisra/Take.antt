-- ===== src/ChandyMisra/Take.antt =====
-- The sections of `make_philosopher_hungry` keep the forks and the philosophers sound.
use graphlabapi_graphlab.Prelude.{
  ℕ, ◌+◌, ◌^◌, ◌<◌, ◌≡◌, ◌≢◌, Bool, true, false, not, ◌&&◌, refl, sym, ap, subst, ◌∙◌, arith,
  if_split,
}
use graphlabapi_graphlab.ChandyMisra.{
  Fork, Table, Edge, Status, thinking, hungry, eating, is_hungry, is_eating, is_thinking, put_fork,
  state_of, gain, lose, request_for_fork, advance_fork_state_on_lock, take_in, take_out, fork_owner,
}
use graphlabapi_graphlab.ChandyMisra.Count.{Ends, is_end, held, held-update}
use graphlabapi_graphlab.ChandyMisra.Invariant.{IsSound, requested, refork}
use graphlabapi_graphlab.ChandyMisra.Move.{
  to_target-IsSound, to_source-IsSound, lose-gain-state, gain-lose-state,
}

-- What the graph says of an edge.
pub record IsEdge (n : ℕ) (ends : Ends) (e : Edge) : Type 0 where
  pub below : e.edge_id < n
  pub from_source : ends false e.edge_id ≡ e.source
  pub to_target : ends true e.edge_id ≡ e.target
  pub no_loop : e.source ≢ e.target

pub is_eating_iff : (s : Status) → is_eating s ≡ false → s ≢ eating
is_eating_iff thinking e h = absurd (ground (arith, h))
is_eating_iff hungry e h = absurd (ground (arith, h))
is_eating_iff eating e h = absurd (ground (arith, e))

pub is_hungry_eq : (s : Status) → is_hungry s ≡ true → s ≡ hungry
is_hungry_eq thinking e = absurd (ground (arith, e))
is_hungry_eq hungry e = refl
is_hungry_eq eating e = absurd (ground (arith, e))

pub hungry_of : (s : Status) → is_thinking s ≡ false → s ≢ eating → s ≡ hungry
hungry_of thinking e h = absurd (ground (arith, e))
hungry_of hungry e h = refl
hungry_of eating e h = absurd (h refl)

pub guard_first : (a b : Bool) → (not a && b) ≡ true → a ≡ false
guard_first a b h = ground (arith, h)

module _ (n : ℕ) (ends : Ends) where
  unmoved :
      (a b : ℕ) (o p : Bool) (i v : ℕ)
      → o ≡ p
      → b + is_end ends p i v ≡ a + is_end ends o i v
      → a ≡ b
  unmoved a b o p i v same h =
      omega (arith, subst (λ s. b + is_end ends s i v ≡ a + is_end ends o i v) (sym same) h)

  -- Bits other than the owner change no count.
  pub put_fork-IsSound :
      (t : Table) (i : ℕ) (f : Fork)
      → IsSound n ends t
      → i < n
      → f.owner ≡ (t.forkset i).owner
      → ((s : Bool) → requested s f ≡ true → (f.owner ≡ not s) × (state_of t (ends s i) ≡ hungry))
      → IsSound n ends (put_fork t i f)
  put_fork-IsSound t i f sound bound owner asks =
      refork n ends t i f (put_fork t i f) sound bound refl (λ v. refl) (λ v. refl)
        (λ v.
          let moved = held-update ends t.forkset i f v n bound in
          sound.acquired v
          ∙ unmoved (held ends t.forkset v n) _ f.owner (t.forkset i).owner i v owner moved)
        (λ s e. owner ∙ sound.eats i s bound e) asks

  lock-IsSound :
      (t : Table) (e : Edge)
      → IsSound n ends t
      → n < 2 ^ 32
      → IsEdge n ends e
      → IsSound n ends (advance_fork_state_on_lock t e)
  unfolding advance_fork_state_on_lock
  lock-IsSound t e sound small edge =
      if_split (IsSound n ends) (t.forkset e.edge_id).owner
        (λ o.
          if_split (IsSound n ends)
            (not (is_eating (state_of t e.target))
              && ((t.forkset e.edge_id).dirty && (t.forkset e.edge_id).request0))
            (λ g.
              to_source-IsSound n ends t e.edge_id _ e.source e.target sound small edge.below
                edge.from_source edge.to_target edge.no_loop o
                (is_eating_iff (state_of t e.target) (guard_first _ _ g)) refl refl
                (is_hungry_eq (state_of t e.target)))
            (λ _. sound))
        (λ o.
          if_split (IsSound n ends)
            (not (is_eating (state_of t e.source))
              && ((t.forkset e.edge_id).dirty && (t.forkset e.edge_id).request1))
            (λ g.
              to_target-IsSound n ends t e.edge_id _ e.source e.target sound small edge.below
                edge.from_source edge.to_target edge.no_loop o
                (is_eating_iff (state_of t e.source) (guard_first _ _ g)) refl refl
                (is_hungry_eq (state_of t e.source)))
            (λ _. sound))

  request-IsSound :
      (t : Table) (i : ℕ) (s : Bool)
      → IsSound n ends t
      → i < n
      → (t.forkset i).owner ≡ not s
      → state_of t (ends s i) ≡ hungry
      → IsSound n ends (request_for_fork t i s)
  unfolding request_for_fork
  request-IsSound t i true sound bound owner wants =
      put_fork-IsSound t i (record (t.forkset i) { request1 = true }) sound bound refl
        (elim [ true ↦ λ _. (owner, wants) | false ↦ λ h. sound.asks i false bound h ])
  request-IsSound t i false sound bound owner wants =
      put_fork-IsSound t i (record (t.forkset i) { request0 = true }) sound bound refl
        (elim [ true ↦ λ h. sound.asks i true bound h | false ↦ λ _. (owner, wants) ])

  -- The philosopher is not thinking, so that it is hungry if the other end has the fork.
  wants_fork :
      (t : Table) (i : ℕ) (s : Bool) (p : ℕ)
      → IsSound n ends t
      → i < n
      → ends s i ≡ p
      → is_thinking (state_of t p) ≡ false
      → (t.forkset i).owner ≡ not s
      → state_of t (ends s i) ≡ hungry
  wants_fork t i s p sound bound end awake other =
      ap (state_of t) end
      ∙ hungry_of (state_of t p) awake
          (λ e. differ s ((sym other) ∙ sound.eats i s bound (ap (state_of t) end ∙ e)))
    where
      differ : (s : Bool) → not s ≢ s
      differ true h = absurd (ground (arith, h))
      differ false h = absurd (ground (arith, h))

  pub take_in-IsSound :
      (t : Table) (e : Edge)
      → IsSound n ends t
      → n < 2 ^ 32
      → IsEdge n ends e
      → is_thinking (state_of t e.target) ≡ false
      → IsSound n ends (take_in t e)
  unfolding take_in
  take_in-IsSound t e sound small edge awake =
      let i = e.edge_id in
      if_split (IsSound n ends) (fork_owner t i) (λ _. sound)
        (λ o.
          lock-IsSound (request_for_fork t i true) e
            (request-IsSound t i true sound edge.below o
              (wants_fork t i true e.target sound edge.below edge.to_target awake o))
            small edge)

  pub take_out-IsSound :
      (t : Table) (e : Edge)
      → IsSound n ends t
      → n < 2 ^ 32
      → IsEdge n ends e
      → is_thinking (state_of t e.source) ≡ false
      → IsSound n ends (take_out t e)
  unfolding take_out
  take_out-IsSound t e sound small edge awake =
      let i = e.edge_id in
      if_split (IsSound n ends) (fork_owner t i)
        (λ o.
          lock-IsSound (request_for_fork t i false) e
            (request-IsSound t i false sound edge.below o
              (wants_fork t i false e.source sound edge.below edge.from_source awake o))
            small edge)
        (λ _. sound)

-- The sections change no philosopher's state.
lock-state :
    (t : Table) (e : Edge) (v : ℕ) → state_of (advance_fork_state_on_lock t e) v ≡ state_of t v
unfolding advance_fork_state_on_lock gain lose
lock-state t e v =
    let i = e.edge_id in
    if_split (λ u. state_of u v ≡ state_of t v) (fork_owner t i)
      (λ _.
        if_split (λ u. state_of u v ≡ state_of t v)
          (not (is_eating (state_of t e.target)) && ((t.forkset i).dirty && (t.forkset i).request0))
          (λ _. lose-gain-state t e.source e.target v) (λ _. refl))
      (λ _.
        if_split (λ u. state_of u v ≡ state_of t v)
          (not (is_eating (state_of t e.source)) && ((t.forkset i).dirty && (t.forkset i).request1))
          (λ _. gain-lose-state t e.source e.target v) (λ _. refl))

pub take_in-state : (t : Table) (e : Edge) (v : ℕ) → state_of (take_in t e) v ≡ state_of t v
unfolding take_in request_for_fork
take_in-state t e v =
    if_split (λ u. state_of u v ≡ state_of t v) (fork_owner t e.edge_id) (λ _. refl)
      (λ _. lock-state (request_for_fork t e.edge_id true) e v)

pub take_out-state : (t : Table) (e : Edge) (v : ℕ) → state_of (take_out t e) v ≡ state_of t v
unfolding take_out request_for_fork
take_out-state t e v =
    if_split (λ u. state_of u v ≡ state_of t v) (fork_owner t e.edge_id)
      (λ _. lock-state (request_for_fork t e.edge_id false) e v) (λ _. refl)
