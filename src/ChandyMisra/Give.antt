-- ===== src/ChandyMisra/Give.antt =====
-- The sections of `philosopher_stops_eating` keep the forks and the philosophers sound, and so does the
-- test by which a hungry philosopher begins to eat.
use graphlabapi_graphlab.Prelude.Updates.{update_cases}
use graphlabapi_graphlab.Prelude.{
  ℕ, ◌^◌, ◌<◌, ◌≡◌, ◌≢◌, Bool, true, false, not, ◌&&◌, inl, inr, refl, sym, ap, ◌∙◌, arith, ==_iff,
  if_split, ◌⊎◌, List,
}
use graphlabapi_graphlab.ChandyMisra.{
  gain, lose, Philosopher, Table, Edge, Status, thinking, hungry, eating, is_hungry, state_of,
  dirty_fork, advance_fork_state_on_unlock, give, signal, finish, set_state, has_all,
}
use graphlabapi_graphlab.ChandyMisra.Count.{Ends, held_all}
use graphlabapi_graphlab.ChandyMisra.Invariant.{IsSound, requested, restate}
use graphlabapi_graphlab.ChandyMisra.Move.{
  to_target-IsSound, to_source-IsSound, gain-lose-state, lose-gain-state,
}
use graphlabapi_graphlab.ChandyMisra.Take.{IsEdge, put_fork-IsSound, is_hungry_eq}

-- A step may make a hungry philosopher eat, and changes no other state.
abbrev pub MayEat : Table → Table → Type 0
MayEat t u =
    (v : ℕ) → (state_of u v ≡ state_of t v) ⊎ ((state_of t v ≡ hungry) × (state_of u v ≡ eating))

module _ (n : ℕ) (ends : Ends) (no_loop : (j : ℕ) → ends true j ≢ ends false j) where
  -- A philosopher whose counts are equal has every fork, and so asks for none.
  pub eat-IsSound :
      (t : Table) (v : ℕ)
      → IsSound n ends t
      → has_all t v ≡ true
      → IsSound n ends (set_state t v eating)
  eat-IsSound t v sound all =
      let owns : (i : ℕ) (s : Bool) → i < n → ends s i ≡ v → (t.forkset i).owner ≡ s =
        held_all ends t.forkset v n no_loop
          (sym (sound.acquired v) ∙ (==_iff _ _).0 all ∙ sound.counted v) in
      restate n ends t v eating sound (λ i s below end _. owns i s below end)
        (λ i s below end asked.
          absurd (other_side s (sym (owns i s below end) ∙ (sound.asks i s below asked).0)))
    where
      other_side : (s : Bool) → s ≢ not s
      other_side true h = absurd (ground (arith, h))
      other_side false h = absurd (ground (arith, h))

  pub signal-IsSound : (t : Table) (v : ℕ) → IsSound n ends t → IsSound n ends (signal t v).0
  unfolding signal
  signal-IsSound t v sound =
      if_split (λ (r : Table × List ℕ). IsSound n ends r.0)
        (is_hungry (state_of t v) && has_all t v) (λ g. eat-IsSound t v sound (ground (arith, g)))
        (λ _. sound)

  pub finish-IsSound : (t : Table) (v : ℕ) → IsSound n ends t → IsSound n ends (finish t v).0
  unfolding finish
  finish-IsSound t v sound =
      if_split (λ (r : Table × List ℕ). IsSound n ends r.0) (has_all t v) (eat-IsSound t v sound)
        (λ _. sound)

  dirty-IsSound : (t : Table) (i : ℕ) → IsSound n ends t → i < n → IsSound n ends (dirty_fork t i)
  unfolding dirty_fork
  dirty-IsSound t i sound bound =
      put_fork-IsSound n ends t i (record (t.forkset i) { dirty = true }) sound bound refl
        (elim [ true ↦ λ h. sound.asks i true bound h | false ↦ λ h. sound.asks i false bound h ])

  -- The one that asks is hungry, so that the fork is not taken from one that eats.
  unlock-IsSound :
      (t : Table) (e : Edge)
      → IsSound n ends t
      → n < 2 ^ 32
      → IsEdge n ends e
      → ((s : Bool)
          → requested (not s) (t.forkset e.edge_id) ≡ true
          → state_of t (ends s e.edge_id) ≢ eating)
      → IsSound n ends (advance_fork_state_on_unlock t e)
  unfolding advance_fork_state_on_unlock
  unlock-IsSound t e sound small edge calm =
      let i = e.edge_id in
      if_split (IsSound n ends) (t.forkset i).owner
        (λ o.
          if_split (IsSound n ends) ((t.forkset i).dirty && (t.forkset i).request0)
            (λ g.
              to_source-IsSound n ends t i _ e.source e.target sound small edge.below
                edge.from_source edge.to_target edge.no_loop o
                (λ eats. calm true (ground (arith, g)) (ap (state_of t) edge.to_target ∙ eats)) refl
                refl (λ h. absurd (ground (arith, h))))
            (λ _. sound))
        (λ o.
          if_split (IsSound n ends) ((t.forkset i).dirty && (t.forkset i).request1)
            (λ g.
              to_target-IsSound n ends t i _ e.source e.target sound small edge.below
                edge.from_source edge.to_target edge.no_loop o
                (λ eats. calm false (ground (arith, g)) (ap (state_of t) edge.from_source ∙ eats))
                refl refl (λ h. absurd (ground (arith, h))))
            (λ _. sound))

  -- The philosopher of the call is thinking, and so asks for nothing.
  pub give-IsSound :
      (t : Table) (e : Edge) (s : Bool) (other : ℕ)
      → IsSound n ends t
      → n < 2 ^ 32
      → IsEdge n ends e
      → state_of t (ends s e.edge_id) ≡ thinking
      → IsSound n ends (give t e other).0
  unfolding give dirty_fork
  give-IsSound t e s other sound small edge calm =
      let i = e.edge_id in
      let dirtied = dirty-IsSound t i sound edge.below in
      signal-IsSound (advance_fork_state_on_unlock (dirty_fork t i) e) other
        (unlock-IsSound (dirty_fork t i) e dirtied small edge (one_calm s calm dirtied))
    where
      thinker : (s : Status) → s ≡ thinking → (s ≢ eating) × (s ≢ hungry)
      thinker thinking same = (λ h. absurd (ground (arith, h)), λ h. absurd (ground (arith, h)))
      thinker hungry same = absurd (ground (arith, same))
      thinker eating same = absurd (ground (arith, same))

      one_calm :
          (s : Bool)
          → state_of t (ends s e.edge_id) ≡ thinking
          → IsSound n ends (dirty_fork t e.edge_id)
          → (s2 : Bool) → requested (not s2) ((dirty_fork t e.edge_id).forkset e.edge_id) ≡ true
          → state_of t (ends s2 e.edge_id) ≢ eating
      one_calm true calm dirtied true asked = (thinker _ calm).0
      one_calm true calm dirtied false asked =
          absurd ((thinker _ calm).1 (dirtied.asks e.edge_id true edge.below asked).1)
      one_calm false calm dirtied false asked = (thinker _ calm).0
      one_calm false calm dirtied true asked =
          absurd ((thinker _ calm).1 (dirtied.asks e.edge_id false edge.below asked).1)

unlock-state :
    (t : Table) (e : Edge) (v : ℕ) → state_of (advance_fork_state_on_unlock t e) v ≡ state_of t v
unfolding advance_fork_state_on_unlock gain lose
unlock-state t e v =
    let f = t.forkset e.edge_id in
    if_split (λ u. state_of u v ≡ state_of t v) f.owner
      (λ _.
        if_split (λ u. state_of u v ≡ state_of t v) (f.dirty && f.request0)
          (λ _. lose-gain-state t e.source e.target v) (λ _. refl))
      (λ _.
        if_split (λ u. state_of u v ≡ state_of t v) (f.dirty && f.request1)
          (λ _. gain-lose-state t e.source e.target v) (λ _. refl))

signal-MayEat : (t : Table) (other : ℕ) → MayEat t (signal t other).0
unfolding signal set_state
signal-MayEat t other v =
    if_split
      (λ (r : Table × List ℕ).
        (state_of r.0 v ≡ state_of t v) ⊎ ((state_of t v ≡ hungry) × (state_of r.0 v ≡ eating)))
      (is_hungry (state_of t other) && has_all t other)
      (λ g.
        update_cases
          (λ w (p : Philosopher).
            (p.state ≡ state_of t w) ⊎ ((state_of t w ≡ hungry) × (p.state ≡ eating)))
          t.philosopherset other _ (inr (is_hungry_eq (state_of t other) (ground (arith, g)), refl))
          (λ w _. inl refl) v)
      (λ _. inl refl)

pub give-MayEat : (t : Table) (e : Edge) (other : ℕ) → MayEat t (give t e other).0
unfolding give dirty_fork
give-MayEat t e other v =
    let same = unlock-state (dirty_fork t e.edge_id) e v in
    elim (signal-MayEat (advance_fork_state_on_unlock (dirty_fork t e.edge_id) e) other v) [
      | inl stays ↦ inl (stays ∙ same)
      | inr eats ↦ inr (sym same ∙ eats.0, eats.1)
    ]
