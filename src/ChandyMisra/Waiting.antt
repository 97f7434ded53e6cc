-- ===== src/ChandyMisra/Waiting.antt =====
-- A philosopher that waits has asked for every fork that it lacks.
use graphlabapi_graphlab.Prelude.Updates.{update, update_self, update_cases}
use graphlabapi_graphlab.Prelude.{
  ℕ, ◌<◌, ◌≡◌, ◌≢◌, Bool, true, false, not, ◌&&◌, inl, inr, refl, sym, ap, subst, ◌∙◌, arith, List,
  [], ◌∷◌, if_split, eq_cases, and_first,
}
use graphlabapi_graphlab.ChandyMisra.{
  Table, Edge, Graph, Status, thinking, hungry, eating, is_eating, is_thinking, state_of, set_state,
  take_in, take_out, give, finish, has_all,
}
use graphlabapi_graphlab.ChandyMisra.Count.{Ends}
use graphlabapi_graphlab.ChandyMisra.Invariant.{IsSound, requested}
use graphlabapi_graphlab.ChandyMisra.Take.{take_in-state, take_out-state}
use graphlabapi_graphlab.ChandyMisra.Give.{give-MayEat}
use graphlabapi_graphlab.ChandyMisra.Exclusion.{
  IsGraph, IsKept, Suits, thinking_eq, step-IsKept, set_state_other, set_state_self, start-IsKept,
}
use graphlabapi_graphlab.ChandyMisra.Start.{is_in, IsWhole, new-at_rest}
use graphlabapi_graphlab.ChandyMisra.Schedule.{
  World, Call, idle, hungering, stopping, Action, make_hungry, stop_eating, advance, is_idle, next,
  step, run, start,
}
use graphlabapi_graphlab.ChandyMisra.Asked.{
  Reforks, IsAsked, thinking_waits, take_in-Reforks, take_out-Reforks, give-Reforks,
}
use graphlabapi_graphlab.ChandyMisra.Heard.{pending, IsHeard, section-IsHeard, quiet-IsHeard}

-- The lists of the graph leave out no edge.
pub record IsListed (n : ℕ) (ends : Ends) (g : Graph) : Type 0 where
  pub ins_listed : (i : ℕ) → i < n → is_in i (g.in_edges (ends true i)) ≡ true
  pub outs_listed : (i : ℕ) → i < n → is_in i (g.out_edges (ends false i)) ≡ true

later_in :
    (e : Edge) (ins : List Edge) (j : ℕ)
    → e.edge_id ≢ j
    → is_in j (e ∷ ins) ≡ true
    → is_in j ins ≡ true
later_in e ins j differ h = ground (arith, h, differ)

give-waits :
    (t : Table) (e : Edge) (other v : ℕ)
    → state_of (give t e other).0 v ≡ hungry
    → state_of t v ≡ hungry
give-waits t e other v waits = elim (give-MayEat t e other v) [
  | inl stays ↦ sym stays ∙ waits
  | inr eats ↦ absurd (ground (arith, sym waits ∙ eats.1))
]

finish-waits : (t : Table) (p v : ℕ) → state_of (finish t p).0 v ≡ hungry → state_of t v ≡ hungry
unfolding finish set_state
finish-waits t p v =
    if_split (λ (r : Table × List ℕ). state_of r.0 v ≡ hungry → state_of t v ≡ hungry) (has_all t p)
      (λ _.
        update_cases (λ w q. q.state ≡ hungry → state_of t w ≡ hungry) t.philosopherset p
          (record (t.philosopherset p) { state = eating }) (λ h. absurd (ground (arith, h)))
          (λ _ _ h. h) v)
      (λ _ h. h)

finish-forks : (t : Table) (p j : ℕ) → (finish t p).0.forkset j ≡ t.forkset j
unfolding finish set_state
finish-forks t p j =
    if_split (λ (r : Table × List ℕ). r.0.forkset j ≡ t.forkset j) (has_all t p) (λ _. refl)
      (λ _. refl)

idle-pending :
    (d c : Call) (r : Bool) (j : ℕ) → is_idle d ≡ true → pending d r j ≡ true → pending c r j ≡ true
idle-pending idle c true j rests on = absurd (ground (arith, on))
idle-pending idle c false j rests on = absurd (ground (arith, on))
idle-pending (hungering ins outs) c r j rests on = absurd (ground (arith, rests))
idle-pending (stopping ins outs) c r j rests on = absurd (ground (arith, rests))

idle-pending_false : (r : Bool) (j : ℕ) → pending idle r j ≢ true
idle-pending_false true j on = absurd (ground (arith, on))
idle-pending_false false j on = absurd (ground (arith, on))

set_state_forks :
    (t : Table) (p : ℕ) (s : Status) (j : ℕ) → (set_state t p s).forkset j ≡ t.forkset j
unfolding set_state
set_state_forks t p s j = refl

module _ (n : ℕ) (ends : Ends) (g : Graph) (graph : IsGraph n ends g) where
  next-IsHeard :
      (w : World) (p : ℕ) (c : Call)
      → w.call p ≡ c
      → IsSound n ends w.table
      → Suits n ends w.table p c
      → IsHeard n ends w
      → IsHeard n ends (next w p c)
  unfolding next
  next-IsHeard w p idle on sound suits heard = heard
  next-IsHeard w p (hungering (e ∷ ins) outs) on sound suits heard =
      let edge = suits.1 in
      let at : e.target ≡ p = sym edge.0.to_target ∙ edge.1 in
      section-IsHeard n ends w p (take_in w.table e) (hungering ins outs) e.edge_id heard
        (λ v waits. sym (take_in-state w.table e v) ∙ waits)
        (subst
          (λ x. Reforks w.table e.edge_id (IsAsked w.table ends e.edge_id x) (take_in w.table e)) at
          (take_in-Reforks w.table ends n e edge.0))
        (elim [
          | true ↦ λ j differ h. later_in e ins j differ (ap (λ d. pending d true j) (sym on) ∙ h)
          | false ↦ λ j differ h. ap (λ d. pending d false j) (sym on) ∙ h
        ])
  next-IsHeard w p (hungering [] (e ∷ outs)) on sound suits heard =
      let edge = suits.2 in
      let at : e.source ≡ p = sym edge.0.from_source ∙ edge.1 in
      section-IsHeard n ends w p (take_out w.table e) (hungering [] outs) e.edge_id heard
        (λ v waits. sym (take_out-state w.table e v) ∙ waits)
        (subst
          (λ x. Reforks w.table e.edge_id (IsAsked w.table ends e.edge_id x) (take_out w.table e))
          at (take_out-Reforks w.table ends n e edge.0))
        (elim [
          | true ↦ λ j differ h. ap (λ d. pending d true j) (sym on) ∙ h
          | false ↦
              λ j differ h. later_in e outs j differ (ap (λ d. pending d false j) (sym on) ∙ h)
        ])
  next-IsHeard w p (hungering [] []) on sound suits heard =
      quiet-IsHeard n ends w p (finish w.table p).0 idle heard (finish-forks w.table p)
        (λ r j below waits. inl (finish-waits w.table p (ends r j) waits, none_left r j))
    where
      none_left : (r : Bool) (j : ℕ) → pending (w.call p) r j ≡ true → pending idle r j ≡ true
      none_left true j h = ap (λ d. pending d true j) (sym on) ∙ h
      none_left false j h = ap (λ d. pending d false j) (sym on) ∙ h
  next-IsHeard w p (stopping (e ∷ ins) outs) on sound suits heard =
      let edge = suits.1 in
      section-IsHeard n ends w p (give w.table e e.source).0 (stopping ins outs) e.edge_id heard
        (give-waits w.table e e.source)
        (give-Reforks w.table ends n p e e.source sound edge.0 (inl edge.1) (thinking_eq _ suits.0))
        (λ r j _ h. ap (λ d. pending d r j) (sym on) ∙ h)
  next-IsHeard w p (stopping [] (e ∷ outs)) on sound suits heard =
      let edge = suits.2 in
      section-IsHeard n ends w p (give w.table e e.target).0 (stopping [] outs) e.edge_id heard
        (give-waits w.table e e.target)
        (give-Reforks w.table ends n p e e.target sound edge.0 (inr edge.1) (thinking_eq _ suits.0))
        (λ r j _ h. ap (λ d. pending d r j) (sym on) ∙ h)
  next-IsHeard w p (stopping [] []) on sound suits heard =
      quiet-IsHeard n ends w p w.table idle heard (λ j. refl)
        (λ r j below waits. inl (waits, λ h. ap (λ d. pending d r j) (sym on) ∙ h))

  step-IsHeard :
      (w : World) (a : Action)
      → IsListed n ends g
      → IsKept n ends w
      → IsHeard n ends w
      → IsHeard n ends (step g w a)
  unfolding step
  step-IsHeard w (make_hungry p) listed kept heard =
      let c = hungering (g.in_edges p) (g.out_edges p) in
      if_split (IsHeard n ends) (is_idle (w.call p) && is_thinking (state_of w.table p))
        (λ guard.
          quiet-IsHeard n ends w p (set_state w.table p hungry) c heard
            (set_state_forks w.table p hungry)
            (λ r j below waits. elim (eq_cases p (ends r j)) [
              | inl same ↦ inr (
                  ap (λ d. pending d r j)
                    (ap (update w.call p c) (sym same) ∙ update_self w.call p c)
                  ∙ asks_all p r j below (sym same) listed)
              | inr differ ↦ inl (
                sym (set_state_other w.table p hungry (ends r j) differ) ∙ waits,
                idle-pending (w.call p) c r j (and_first _ _ guard),
              )
            ]))
        (λ _. heard)
    where
      asks_all :
          (p : ℕ) (r : Bool) (j : ℕ)
          → j < n
          → ends r j ≡ p
          → IsListed n ends g
          → pending (hungering (g.in_edges p) (g.out_edges p)) r j ≡ true
      asks_all p true j below end listed =
          ap (λ v. is_in j (g.in_edges v)) (sym end) ∙ listed.ins_listed j below
      asks_all p false j below end listed =
          ap (λ v. is_in j (g.out_edges v)) (sym end) ∙ listed.outs_listed j below
  step-IsHeard w (stop_eating p) listed kept heard =
      let c = stopping (g.in_edges p) (g.out_edges p) in
      if_split (IsHeard n ends) (is_idle (w.call p) && is_eating (state_of w.table p))
        (λ guard.
          quiet-IsHeard n ends w p (set_state w.table p thinking) c heard
            (set_state_forks w.table p thinking)
            (λ r j below waits. elim (eq_cases p (ends r j)) [
              | inl same ↦ absurd (
                  thinking_waits _
                    (ap (state_of (set_state w.table p thinking)) (sym same)
                      ∙ set_state_self w.table p thinking)
                    waits)
              | inr differ ↦ inl (
                sym (set_state_other w.table p thinking (ends r j) differ) ∙ waits,
                idle-pending (w.call p) c r j (and_first _ _ guard),
              )
            ]))
        (λ _. heard)
  step-IsHeard w (advance p) listed kept heard =
      next-IsHeard w p (w.call p) refl kept.sound (kept.suits p) heard

  run-IsHeard :
      (w : World) (actions : List Action)
      → IsListed n ends g
      → IsKept n ends w
      → IsHeard n ends w
      → IsHeard n ends (run g w actions)
  unfolding run
  run-IsHeard w [] listed kept heard = heard
  run-IsHeard w (a ∷ actions) listed kept heard =
      run-IsHeard (step g w a) actions listed (step-IsKept n ends g graph w a kept)
        (step-IsHeard w a listed kept heard)

start-IsHeard : (n : ℕ) (ends : Ends) (g : Graph) (rank : ℕ → ℕ) → IsHeard n ends (start rank g)
unfolding start
start-IsHeard n ends g rank i s below waits =
    absurd (thinking_waits _ (new-at_rest rank g (ends s i)) waits)

-- Whatever calls of make_philosopher_hungry and philosopher_stops_eating are made after the
-- construction, and however their sections interleave, a hungry philosopher without a call under way
-- has asked for every fork it lacks. No call of cancel_eating_philosopher is made. The graph has fewer than 2^32 edges and no loops, its in-edges name each edge once and its
-- out-edges all of them, and the calls on one philosopher do not overlap.
pub run-asked :
    (n : ℕ) (ends : Ends) (g : Graph) (rank : ℕ → ℕ) (actions : List Action) (i : ℕ) (s : Bool)
    → IsGraph n ends g
    → IsWhole n ends g
    → IsListed n ends g
    → i < n
    → (let w = run g (start rank g) actions in
        w.call (ends s i) ≡ idle
        → state_of w.table (ends s i) ≡ hungry
        → (w.table.forkset i).owner ≡ not s
        → requested s (w.table.forkset i) ≡ true)
run-asked n ends g rank actions i s graph whole listed below rests waits lacks =
    elim (run-IsHeard n ends g graph (start rank g) actions listed
      (start-IsKept n ends g rank graph whole) (start-IsHeard n ends g rank) i s below waits
      lacks) [
        | inl asked ↦ asked
        | inr on ↦ absurd (idle-pending_false s i (sym (ap (λ d. pending d s i) rests) ∙ on))
      ]
