-- ===== src/ChandyMisra/Asked.antt =====
-- What a section does to the requests for the fork of its edge.
use graphlabapi_graphlab.Prelude.Updates.{update, update_self, update_cases}
use graphlabapi_graphlab.Prelude.{
  ℕ, ◌≡◌, ◌≢◌, Bool, true, false, not, ◌&&◌, ◌⊎◌, inl, inr, refl, sym, ap, ◌∙◌, arith, List,
  if_split, and_second, ◌==◌, Bool-cases,
}
use graphlabapi_graphlab.ChandyMisra.{
  Fork, Table, Edge, Status, thinking, hungry, eating, is_hungry, is_eating, state_of, set_state,
  take_in, take_out, give, has_all, put_fork, gain, lose, clean, request_for_fork,
  advance_fork_state_on_lock, advance_fork_state_on_unlock, dirty_fork, fork_owner, signal,
}
use graphlabapi_graphlab.ChandyMisra.Count.{Ends}
use graphlabapi_graphlab.ChandyMisra.Invariant.{IsSound, requested}
use graphlabapi_graphlab.ChandyMisra.Take.{IsEdge}

-- A section replaces the bits of one fork, by bits for which `C` holds.
abbrev pub Reforks : Table → ℕ → (Fork → Type 0) → Table → Type 0
Reforks t i C u = (f : Fork) × ((j : ℕ) → u.forkset j ≡ update t.forkset i f j) × C f

update_twice :
    (g : ℕ → Fork) (i : ℕ) (a b : Fork) (j : ℕ) → update (update g i a) i b j ≡ update g i b j
update_twice g i a b j = elim (Bool-cases (i == j)) [ inl e ↦ rw e refl | inr e ↦ rw e refl ]

update_same : (g : ℕ → Fork) (i j : ℕ) → g j ≡ update g i (g i) j
update_same g i = update_cases (λ j f. g j ≡ f) g i (g i) refl (λ _ _. refl)

-- What is true of the fork of an edge after a section of the call on `p`: the one that is hungry and does
-- not have it has asked, or is not `p` and finds the fork as it was.
abbrev pub IsAsked : Table → Ends → ℕ → ℕ → Fork → Type 0
IsAsked t ends i p f =
    (r : Bool)
    → f.owner ≡ not r
    → state_of t (ends r i) ≡ hungry
    → (requested r f ≡ true)
      ⊎ ((requested r f ≡ requested r (t.forkset i))
          × ((t.forkset i).owner ≡ not r)
          × (ends r i ≢ p))

lock-Reforks :
    (t : Table) (ends : Ends) (n p : ℕ) (e : Edge) (s : Bool) (f : Fork)
    → IsEdge n ends e
    → f.owner ≡ not s
    → requested s f ≡ true
    → Reforks t e.edge_id
        (IsAsked t ends e.edge_id p)
        (advance_fork_state_on_lock (put_fork t e.edge_id f) e)
unfolding advance_fork_state_on_lock gain lose
lock-Reforks t ends n p e true f edge owner asked =
    let i = e.edge_id in
    let q = put_fork t i f in
    let stays : Reforks t i (IsAsked t ends i p) q = (
      f,
      λ j. refl,
      elim [ true ↦ λ _ _. inl asked | false ↦ λ mine _. absurd (ground (arith, owner, mine)) ],
    ) in
    let at = ap (λ g. g.owner) (update_self t.forkset i f) in
    if_split (Reforks t i (IsAsked t ends i p)) (q.forkset i).owner
      (λ o. absurd (ground (arith, sym o ∙ at ∙ owner)))
      (λ _.
        if_split (Reforks t i (IsAsked t ends i p))
          (not (is_eating (state_of t e.source)) && ((q.forkset i).dirty && (q.forkset i).request1))
          (λ _. (
            record (clean true) { request0 = is_hungry (state_of t e.source) },
            λ j. update_twice t.forkset i f _ j,
            elim [
              | true ↦ λ theirs _. absurd (ground (arith, theirs))
              | false ↦
                  λ _ waits. inl (ap is_hungry (ap (state_of t) (sym edge.from_source) ∙ waits))
            ],
          ))
          (λ _. stays))
lock-Reforks t ends n p e false f edge owner asked =
    let i = e.edge_id in
    let q = put_fork t i f in
    let stays : Reforks t i (IsAsked t ends i p) q = (
      f,
      λ j. refl,
      elim [ true ↦ λ mine _. absurd (ground (arith, owner, mine)) | false ↦ λ _ _. inl asked ],
    ) in
    let at = ap (λ g. g.owner) (update_self t.forkset i f) in
    if_split (Reforks t i (IsAsked t ends i p)) (q.forkset i).owner
      (λ _.
        if_split (Reforks t i (IsAsked t ends i p))
          (not (is_eating (state_of t e.target)) && ((q.forkset i).dirty && (q.forkset i).request0))
          (λ _. (
            record (clean false) { request1 = is_hungry (state_of t e.target) },
            λ j. update_twice t.forkset i f _ j,
            elim [
              | true ↦ λ _ waits. inl (ap is_hungry (ap (state_of t) (sym edge.to_target) ∙ waits))
              | false ↦ λ theirs _. absurd (ground (arith, theirs))
            ],
          ))
          (λ _. stays))
      (λ o. absurd (ground (arith, sym o ∙ at ∙ owner)))

-- A section that leaves the owner and the requests of the fork, where `p` is not the one that lacks it.
kept-Reforks :
    (t : Table) (ends : Ends) (i p : ℕ)
    → ((r : Bool) → (t.forkset i).owner ≡ not r → state_of t (ends r i) ≡ hungry → ends r i ≢ p)
    → Reforks t i (IsAsked t ends i p) t
kept-Reforks t ends i p apart =
    (t.forkset i, update_same t.forkset i, λ r owner waits. inr (refl, owner, apart r owner waits))

pub take_in-Reforks :
    (t : Table) (ends : Ends) (n : ℕ) (e : Edge)
    → IsEdge n ends e
    → Reforks t e.edge_id (IsAsked t ends e.edge_id e.target) (take_in t e)
unfolding take_in request_for_fork
take_in-Reforks t ends n e edge =
    if_split (Reforks t e.edge_id (IsAsked t ends e.edge_id e.target)) (fork_owner t e.edge_id)
      (λ mine. kept-Reforks t ends e.edge_id e.target (elim [
        | true ↦ λ theirs _. absurd (ground (arith, mine, theirs))
        | false ↦ λ _ _ same. edge.no_loop (sym edge.from_source ∙ same)
      ]))
      (λ o.
        lock-Reforks t ends n e.target e true (record (t.forkset e.edge_id) { request1 = true })
          edge o refl)

pub take_out-Reforks :
    (t : Table) (ends : Ends) (n : ℕ) (e : Edge)
    → IsEdge n ends e
    → Reforks t e.edge_id (IsAsked t ends e.edge_id e.source) (take_out t e)
unfolding take_out request_for_fork
take_out-Reforks t ends n e edge =
    if_split (Reforks t e.edge_id (IsAsked t ends e.edge_id e.source)) (fork_owner t e.edge_id)
      (λ o.
        lock-Reforks t ends n e.source e false (record (t.forkset e.edge_id) { request0 = true })
          edge o refl)
      (λ mine. kept-Reforks t ends e.edge_id e.source (elim [
        | true ↦ λ _ _ same. edge.no_loop (sym same ∙ edge.to_target)
        | false ↦ λ theirs _. absurd (ground (arith, mine, theirs))
      ]))

pub thinking_waits : (s : Status) → s ≡ thinking → s ≢ hungry
thinking_waits thinking e h = absurd (ground (arith, h))
thinking_waits hungry e h = absurd (ground (arith, e))
thinking_waits eating e h = absurd (ground (arith, e))

-- The philosopher of the call is thinking, and asks for nothing, so that no fork goes to it.
unlock-Reforks :
    (t : Table) (ends : Ends) (n p : ℕ) (e : Edge)
    → IsSound n ends t
    → IsEdge n ends e
    → (ends true e.edge_id ≡ p) ⊎ (ends false e.edge_id ≡ p)
    → state_of t p ≡ thinking
    → Reforks t e.edge_id
        (IsAsked t ends e.edge_id p)
        (advance_fork_state_on_unlock (dirty_fork t e.edge_id) e)
unfolding advance_fork_state_on_unlock gain lose dirty_fork
unlock-Reforks t ends n p e sound edge side calm =
    let i = e.edge_id in
    let f = record (t.forkset i) { dirty = true } in
    let q = put_fork t i f in
    let asleep : (r : Bool) → state_of t (ends r i) ≡ hungry → ends r i ≢ p =
      λ r waits same. thinking_waits (state_of t p) calm (ap (state_of t) (sym same) ∙ waits) in
    let asks : (r : Bool) → requested r f ≡ true → state_of t (ends r i) ≡ hungry = elim [
      | true ↦ λ h. (sound.asks i true edge.below h).1
      | false ↦ λ h. (sound.asks i false edge.below h).1
    ] in
    let stays : Reforks t i (IsAsked t ends i p) q = (
      f,
      λ j. refl,
      elim [
        | true ↦ λ owner waits. inr (refl, owner, asleep true waits)
        | false ↦ λ owner waits. inr (refl, owner, asleep false waits)
      ],
    ) in
    let nobody : state_of t (ends true i) ≡ hungry → state_of t (ends false i) ≡ hungry → ⊥ =
      λ a b. elim side [ inl here ↦ asleep true a here | inr here ↦ asleep false b here ] in
    if_split (Reforks t i (IsAsked t ends i p)) (q.forkset i).owner
      (λ _.
        if_split (Reforks t i (IsAsked t ends i p)) ((q.forkset i).dirty && (q.forkset i).request0)
          (λ guard. (
            clean false,
            λ j. update_twice t.forkset i f (clean false) j,
            elim [
              | true ↦ λ _ waits. absurd (
                  nobody waits (
                    asks false (
                      sym (ap (λ g. g.request0) (update_self t.forkset i f))
                      ∙ and_second _ _ guard)))
              | false ↦ λ theirs _. absurd (ground (arith, theirs))
            ],
          ))
          (λ _. stays))
      (λ _.
        if_split (Reforks t i (IsAsked t ends i p)) ((q.forkset i).dirty && (q.forkset i).request1)
          (λ guard. (
            clean true,
            λ j. update_twice t.forkset i f (clean true) j,
            elim [
              | true ↦ λ theirs _. absurd (ground (arith, theirs))
              | false ↦ λ _ waits. absurd (
                  nobody
                    (asks true (
                      sym (ap (λ g. g.request1) (update_self t.forkset i f))
                      ∙ and_second _ _ guard))
                    waits)
            ],
          ))
          (λ _. stays))

pub give-Reforks :
    (t : Table) (ends : Ends) (n p : ℕ) (e : Edge) (other : ℕ)
    → IsSound n ends t
    → IsEdge n ends e
    → (ends true e.edge_id ≡ p) ⊎ (ends false e.edge_id ≡ p)
    → state_of t p ≡ thinking
    → Reforks t e.edge_id (IsAsked t ends e.edge_id p) (give t e other).0
unfolding give signal set_state
give-Reforks t ends n p e other sound edge side calm =
    let u = advance_fork_state_on_unlock (dirty_fork t e.edge_id) e in
    let moved = unlock-Reforks t ends n p e sound edge side calm in
    if_split (λ (r : Table × List ℕ). Reforks t e.edge_id (IsAsked t ends e.edge_id p) r.0)
      (is_hungry (state_of u other) && has_all u other) (λ _. moved) (λ _. moved)
