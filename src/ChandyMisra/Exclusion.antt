-- ===== src/ChandyMisra/Exclusion.antt =====
-- However the calls overlap, two philosophers that share a fork do not eat at the same time.
use graphlabapi_graphlab.Prelude.Updates.{update_self, update_other, update_cases}
use graphlabapi_graphlab.Prelude.{
  ℕ, ◌^◌, ◌<◌, ◌≡◌, ◌≢◌, Bool, true, false, ◌&&◌, inl, inr, refl, sym, ap, ◌∙◌, arith, List, [],
  ◌∷◌, if_split,
}
use graphlabapi_graphlab.ChandyMisra.{
  Table, Edge, Graph, Status, thinking, hungry, eating, is_thinking, is_eating, state_of, set_state,
  take_in, take_out, give, finish, has_all,
}
use graphlabapi_graphlab.ChandyMisra.Count.{Ends}
use graphlabapi_graphlab.ChandyMisra.Invariant.{IsSound, restate}
use graphlabapi_graphlab.ChandyMisra.Take.{
  IsEdge, take_in-IsSound, take_out-IsSound, take_in-state, take_out-state,
}
use graphlabapi_graphlab.ChandyMisra.Give.{MayEat, give-IsSound, give-MayEat, finish-IsSound}
use graphlabapi_graphlab.ChandyMisra.Start.{IsWhole, new-IsSound}
use graphlabapi_graphlab.ChandyMisra.Schedule.{
  World, Call, idle, hungering, stopping, Action, make_hungry, stop_eating, advance, becomes,
  is_idle, next, step, run, start,
}

-- The edges of a list have the philosopher at the end `s`.
abbrev pub AreEdgesOf : ℕ → Ends → Bool → ℕ → List Edge → Type 0
AreEdgesOf n ends s p [] = Unit
AreEdgesOf n ends s p (e ∷ edges) =
    IsEdge n ends e × (ends s e.edge_id ≡ p) × AreEdgesOf n ends s p edges

-- What the class relies on of its graph: its edges are those below `n`, and none is a loop.
pub record IsGraph (n : ℕ) (ends : Ends) (g : Graph) : Type 0 where
  pub few : n < 2 ^ 32
  pub loopless : (i : ℕ) → ends true i ≢ ends false i
  pub ins : (v : ℕ) → AreEdgesOf n ends true v (g.in_edges v)
  pub outs : (v : ℕ) → AreEdgesOf n ends false v (g.out_edges v)

-- What holds of a call between two of its sections.
abbrev pub Suits : ℕ → Ends → Table → ℕ → Call → Type 0
Suits n ends t p idle = Unit
Suits n ends t p (hungering ins outs) =
    (is_thinking (state_of t p) ≡ false)
    × AreEdgesOf n ends true p ins
    × AreEdgesOf n ends false p outs
Suits n ends t p (stopping ins outs) =
    (is_thinking (state_of t p) ≡ true)
    × AreEdgesOf n ends true p ins
    × AreEdgesOf n ends false p outs

pub record IsKept (n : ℕ) (ends : Ends) (w : World) : Type 0 where
  pub sound : IsSound n ends w.table
  pub suits : (p : ℕ) → Suits n ends w.table p (w.call p)

pub thinking_eq : (s : Status) → is_thinking s ≡ true → s ≡ thinking
thinking_eq thinking h = refl
thinking_eq hungry h = absurd (ground (arith, h))
thinking_eq eating h = absurd (ground (arith, h))

Suits-same :
    (n : ℕ) (ends : Ends) (t u : Table) (p : ℕ) (c : Call)
    → is_thinking (state_of u p) ≡ is_thinking (state_of t p)
    → Suits n ends t p c
    → Suits n ends u p c
Suits-same n ends t u p idle same h = h
Suits-same n ends t u p (hungering ins outs) same h = (same ∙ h.0, h.1, h.2)
Suits-same n ends t u p (stopping ins outs) same h = (same ∙ h.0, h.1, h.2)

-- A section that keeps the table sound and wakes no one up.
becomes-IsKept :
    (n : ℕ) (ends : Ends) (w : World) (p : ℕ) (u : Table) (c : Call)
    → IsKept n ends w
    → IsSound n ends u
    → ((q : ℕ) → p ≢ q → is_thinking (state_of u q) ≡ is_thinking (state_of w.table q))
    → Suits n ends u p c
    → IsKept n ends (becomes w p u c)
becomes-IsKept n ends w p u c kept sound same suits = record {
  sound = sound;
  suits =
      update_cases (λ q d. Suits n ends u q d) w.call p c suits
        (λ q differ. Suits-same n ends w.table u q (w.call q) (same q differ) (kept.suits q));
}

MayEat-thinking :
    (t u : Table) → MayEat t u → (q : ℕ) → is_thinking (state_of u q) ≡ is_thinking (state_of t q)
MayEat-thinking t u may q = elim (may q) [
  | inl stays ↦ ap is_thinking stays
  | inr eats ↦ ap is_thinking eats.1 ∙ ap is_thinking (sym eats.0)
]

pub set_state_other :
    (t : Table) (p : ℕ) (s : Status) (q : ℕ) → p ≢ q → state_of (set_state t p s) q ≡ state_of t q
unfolding set_state
set_state_other t p s q differ = ap (λ x. x.state) (update_other t.philosopherset _ differ)

pub set_state_self : (t : Table) (p : ℕ) (s : Status) → state_of (set_state t p s) p ≡ s
unfolding set_state
set_state_self t p s = ap (λ x. x.state) (update_self t.philosopherset p _)

finish-other : (t : Table) (p q : ℕ) → p ≢ q → state_of (finish t p).0 q ≡ state_of t q
unfolding finish
finish-other t p q differ =
    if_split (λ (r : Table × List ℕ). state_of r.0 q ≡ state_of t q) (has_all t p)
      (λ _. set_state_other t p eating q differ) (λ _. refl)

module _ (n : ℕ) (ends : Ends) (g : Graph) (graph : IsGraph n ends g) where
  next-IsKept :
      (w : World) (p : ℕ) (c : Call)
      → IsKept n ends w
      → Suits n ends w.table p c
      → IsKept n ends (next w p c)
  unfolding next
  next-IsKept w p idle kept suits = kept
  next-IsKept w p (hungering (e ∷ ins) outs) kept suits =
      let edge = suits.1 in
      let at : ends true e.edge_id ≡ p = edge.1 in
      let awake : is_thinking (state_of w.table e.target) ≡ false =
        ap (λ v. is_thinking (state_of w.table v)) (sym edge.0.to_target ∙ at) ∙ suits.0 in
      becomes-IsKept n ends w p (take_in w.table e) (hungering ins outs) kept
        (take_in-IsSound n ends w.table e kept.sound graph.few edge.0 awake)
        (λ q _. ap is_thinking (take_in-state w.table e q))
        (ap is_thinking (take_in-state w.table e p) ∙ suits.0, edge.2, suits.2)
  next-IsKept w p (hungering [] (e ∷ outs)) kept suits =
      let edge = suits.2 in
      let at : ends false e.edge_id ≡ p = edge.1 in
      let awake : is_thinking (state_of w.table e.source) ≡ false =
        ap (λ v. is_thinking (state_of w.table v)) (sym edge.0.from_source ∙ at) ∙ suits.0 in
      becomes-IsKept n ends w p (take_out w.table e) (hungering [] outs) kept
        (take_out-IsSound n ends w.table e kept.sound graph.few edge.0 awake)
        (λ q _. ap is_thinking (take_out-state w.table e q))
        (ap is_thinking (take_out-state w.table e p) ∙ suits.0, tt, edge.2)
  next-IsKept w p (hungering [] []) kept suits =
      becomes-IsKept n ends w p (finish w.table p).0 idle kept
        (finish-IsSound n ends graph.loopless w.table p kept.sound)
        (λ q differ. ap is_thinking (finish-other w.table p q differ)) tt
  next-IsKept w p (stopping (e ∷ ins) outs) kept suits =
      let edge = suits.1 in
      let calm : state_of w.table (ends true e.edge_id) ≡ thinking =
        ap (state_of w.table) edge.1 ∙ thinking_eq _ suits.0 in
      let same =
        MayEat-thinking w.table (give w.table e e.source).0 (give-MayEat w.table e e.source) in
      becomes-IsKept n ends w p (give w.table e e.source).0 (stopping ins outs) kept
        (give-IsSound n ends graph.loopless w.table e true e.source kept.sound graph.few edge.0
          calm)
        (λ q _. same q) (same p ∙ suits.0, edge.2, suits.2)
  next-IsKept w p (stopping [] (e ∷ outs)) kept suits =
      let edge = suits.2 in
      let calm : state_of w.table (ends false e.edge_id) ≡ thinking =
        ap (state_of w.table) edge.1 ∙ thinking_eq _ suits.0 in
      let same =
        MayEat-thinking w.table (give w.table e e.target).0 (give-MayEat w.table e e.target) in
      becomes-IsKept n ends w p (give w.table e e.target).0 (stopping [] outs) kept
        (give-IsSound n ends graph.loopless w.table e false e.target kept.sound graph.few edge.0
          calm)
        (λ q _. same q) (same p ∙ suits.0, tt, edge.2)
  next-IsKept w p (stopping [] []) kept suits =
      becomes-IsKept n ends w p w.table idle kept kept.sound (λ q _. refl) tt

  pub step-IsKept : (w : World) (a : Action) → IsKept n ends w → IsKept n ends (step g w a)
  unfolding step
  step-IsKept w (make_hungry p) kept =
      if_split (IsKept n ends) (is_idle (w.call p) && is_thinking (state_of w.table p))
        (λ _.
          becomes-IsKept n ends w p (set_state w.table p hungry)
            (hungering (g.in_edges p) (g.out_edges p)) kept
            (restate n ends w.table p hungry kept.sound (λ _ _ _ _ h. absurd (ground (arith, h)))
              (λ _ _ _ _ _. refl))
            (λ q differ. ap is_thinking (set_state_other w.table p hungry q differ))
            (ap is_thinking (set_state_self w.table p hungry), graph.ins p, graph.outs p))
        (λ _. kept)
  step-IsKept w (stop_eating p) kept =
      if_split (IsKept n ends) (is_idle (w.call p) && is_eating (state_of w.table p))
        (λ guard.
          let eats : is_eating (state_of w.table p) ≡ true = ground (arith, guard) in
          becomes-IsKept n ends w p (set_state w.table p thinking)
            (stopping (g.in_edges p) (g.out_edges p)) kept
            (restate n ends w.table p thinking kept.sound (λ _ _ _ _ h. absurd (ground (arith, h)))
              (λ i s below end asked. absurd (
                eats_asks (state_of w.table p) eats
                  (ap (state_of w.table) (sym end) ∙ (kept.sound.asks i s below asked).1))))
            (λ q differ. ap is_thinking (set_state_other w.table p thinking q differ))
            (ap is_thinking (set_state_self w.table p thinking), graph.ins p, graph.outs p))
        (λ _. kept)
    where
      eats_asks : (s : Status) → is_eating s ≡ true → s ≢ hungry
      eats_asks thinking e h = absurd (ground (arith, e))
      eats_asks hungry e h = absurd (ground (arith, e))
      eats_asks eating e h = absurd (ground (arith, h))
  step-IsKept w (advance p) kept = next-IsKept w p (w.call p) kept (kept.suits p)

  pub run-IsKept :
      (w : World) (actions : List Action) → IsKept n ends w → IsKept n ends (run g w actions)
  unfolding run
  run-IsKept w [] kept = kept
  run-IsKept w (a ∷ actions) kept = run-IsKept (step g w a) actions (step-IsKept w a kept)

pub start-IsKept :
    (n : ℕ) (ends : Ends) (g : Graph) (rank : ℕ → ℕ)
    → IsGraph n ends g
    → IsWhole n ends g
    → IsKept n ends (start rank g)
unfolding start
start-IsKept n ends g rank graph whole = record {
  sound = new-IsSound n ends g rank graph.few graph.loopless whole;
  suits = λ p. tt;
}

-- Whatever calls of make_philosopher_hungry and philosopher_stops_eating are made after the
-- construction, and however their sections interleave, no two philosophers at the ends of one edge
-- eat at the same time. No call of cancel_eating_philosopher is made. The graph has fewer than 2^32
-- edges and no loops, its in-edges name each edge once, and the calls on one philosopher do not overlap.
pub run-exclusive :
    (n : ℕ) (ends : Ends) (g : Graph) (rank : ℕ → ℕ) (actions : List Action) (i : ℕ)
    → IsGraph n ends g
    → IsWhole n ends g
    → i < n
    → state_of (run g (start rank g) actions).table (ends false i) ≡ eating
    → state_of (run g (start rank g) actions).table (ends true i) ≢ eating
run-exclusive n ends g rank actions i graph whole below source target =
    let sound =
      (run-IsKept n ends g graph (start rank g) actions
        (start-IsKept n ends g rank graph whole)).sound in
    absurd (ground (arith, sound.eats i false below source, sound.eats i true below target))
