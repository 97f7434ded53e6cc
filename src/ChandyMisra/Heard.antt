-- ===== src/ChandyMisra/Heard.antt =====
-- Who has asked for a fork, and how a section keeps it.
use graphlabapi_graphlab.Prelude.Updates.{update, update_self, update_other, update_cases}
use graphlabapi_graphlab.Prelude.{
  ℕ, ◌<◌, ◌≡◌, ◌≢◌, Bool, true, false, not, ◌⊎◌, inl, inr, sym, ap, ◌∙◌, arith, ◌==◌, ==_iff,
  ==_refl, Bool-cases,
}
use graphlabapi_graphlab.ChandyMisra.{Table, hungry, state_of}
use graphlabapi_graphlab.ChandyMisra.Count.{Ends}
use graphlabapi_graphlab.ChandyMisra.Invariant.{requested}
use graphlabapi_graphlab.ChandyMisra.Start.{is_in}
use graphlabapi_graphlab.ChandyMisra.Schedule.{World, Call, hungering, becomes}
use graphlabapi_graphlab.ChandyMisra.Asked.{Reforks, IsAsked}

-- The edges that a call has still to ask for.
abbrev pub pending : Call → Bool → ℕ → Bool
pending (hungering ins outs) true i = is_in i ins
pending (hungering ins outs) false i = is_in i outs
pending _ s i = false

-- A hungry philosopher has asked for the fork it lacks, or its call is still to ask.
abbrev pub IsHeard : ℕ → Ends → World → Type 0
IsHeard n ends w =
    (i : ℕ) (s : Bool)
    → i < n
    → state_of w.table (ends s i) ≡ hungry
    → (w.table.forkset i).owner ≡ not s
    → (requested s (w.table.forkset i) ≡ true) ⊎ (pending (w.call (ends s i)) s i ≡ true)

-- What a section keeps of the others' requests.
pub section-IsHeard :
    (n : ℕ) (ends : Ends) (w : World) (p : ℕ) (u : Table) (c : Call) (i : ℕ)
    → IsHeard n ends w
    → ((v : ℕ) → state_of u v ≡ hungry → state_of w.table v ≡ hungry)
    → Reforks w.table i (IsAsked w.table ends i p) u
    → ((r : Bool) (j : ℕ) → i ≢ j → pending (w.call p) r j ≡ true → pending c r j ≡ true)
    → IsHeard n ends (becomes w p u c)
section-IsHeard n ends w p u c i heard states reforks calls j r below waits lacks =
    let f = reforks.0 in
    let old_waits = states (ends r j) waits in
    elim (Bool-cases (i == j)) [
      | inl e ↦
          let same : i ≡ j = (==_iff i j).0 e in
          let at : u.forkset j ≡ f =
            reforks.1 j
            ∙ ap (update w.table.forkset i f) (sym same)
            ∙ update_self w.table.forkset i f in
          elim (reforks.2 r (ap (λ g. g.owner) (sym at) ∙ lacks)
            (ap (λ k. state_of w.table (ends r k)) same ∙ old_waits)) [
              | inl asked ↦ inl (ap (requested r) at ∙ asked)
              | inr old ↦
                  let owner = ap (λ k. (w.table.forkset k).owner) (sym same) ∙ old.1 in
                  let apart : ends r j ≢ p = λ here. old.2 (ap (ends r) same ∙ here) in
                  elim (heard j r below old_waits owner) [
                    | inl asked ↦ inl (
                        ap (requested r) at
                        ∙ old.0
                        ∙ ap (λ k. requested r (w.table.forkset k)) same
                        ∙ asked)
                    | inr on ↦ inr (
                        ap (λ d. pending d r j) (update_other w.call c (λ here. apart (sym here)))
                        ∙ on)
                  ]
            ]
      | inr e ↦
          let differ : i ≢ j = λ same. ground (arith, e, same, ==_refl i) in
          let at : u.forkset j ≡ w.table.forkset j =
            reforks.1 j ∙ update_other w.table.forkset f differ in
          elim (heard j r below old_waits (ap (λ g. g.owner) (sym at) ∙ lacks)) [
            | inl asked ↦ inl (ap (requested r) at ∙ asked)
            | inr on ↦ inr (
                update_cases (λ q d. pending (w.call q) r j ≡ true → pending d r j ≡ true) w.call p
                  c (calls r j differ) (λ _ _ h. h) (ends r j) on)
          ]
    ]

-- A step that moves no fork.
pub quiet-IsHeard :
    (n : ℕ) (ends : Ends) (w : World) (p : ℕ) (u : Table) (c : Call)
    → IsHeard n ends w
    → ((j : ℕ) → u.forkset j ≡ w.table.forkset j)
    → ((r : Bool) (j : ℕ)
        → j < n
        → state_of u (ends r j) ≡ hungry
        → ((state_of w.table (ends r j) ≡ hungry)
            × (pending (w.call p) r j ≡ true → pending c r j ≡ true))
          ⊎ (pending (update w.call p c (ends r j)) r j ≡ true))
    → IsHeard n ends (becomes w p u c)
quiet-IsHeard n ends w p u c heard forks calls j r below waits lacks =
    elim (calls r j below waits) [
      | inr on ↦ inr on
      | inl old ↦ elim (heard j r below old.0 (ap (λ g. g.owner) (sym (forks j)) ∙ lacks)) [
        | inl asked ↦ inl (ap (requested r) (forks j) ∙ asked)
        | inr on ↦ inr (
            update_cases (λ q d. pending (w.call q) r j ≡ true → pending d r j ≡ true) w.call p c
              old.1 (λ _ _ h. h) (ends r j) on)
      ]
    ]
