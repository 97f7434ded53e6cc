-- ===== src/ChandyMisra/Invariant.antt =====
-- What holds of the forks and the philosophers between any two steps, and the two ways a step changes
-- them: the bits of one fork, or the state of one philosopher.
use graphlabapi_graphlab.Prelude.Updates.{update_cases, update}
use graphlabapi_graphlab.Prelude.{ℕ, ◌<◌, ◌≡◌, Bool, true, false, not, refl, sym, ap, subst, ◌∙◌}
use graphlabapi_graphlab.ChandyMisra.{Fork, Table, Status, hungry, eating, state_of, set_state}
use graphlabapi_graphlab.ChandyMisra.Count.{Ends, held, degree}

abbrev pub requested : Bool → Fork → Bool
requested true f = f.request1
requested false f = f.request0

-- The edges are those whose id is below `n`.
pub record IsSound (n : ℕ) (ends : Ends) (t : Table) : Type 0 where
  pub acquired : (v : ℕ) → (t.philosopherset v).forks_acquired ≡ held ends t.forkset v n
  pub counted : (v : ℕ) → (t.philosopherset v).num_edges ≡ degree ends v n
  pub eats : (i : ℕ) (s : Bool) → i < n → state_of t (ends s i) ≡ eating → (t.forkset i).owner ≡ s
  pub asks :
      (i : ℕ) (s : Bool)
      → i < n
      → requested s (t.forkset i) ≡ true
      → ((t.forkset i).owner ≡ not s) × (state_of t (ends s i) ≡ hungry)

module _ (n : ℕ) (ends : Ends) where
  -- The bits of a fork may be replaced when no one that eats loses it, and only the hungry ask.
  pub refork :
      (t : Table) (i : ℕ) (f : Fork) (u : Table)
      → IsSound n ends t
      → i < n
      → u.forkset ≡ update t.forkset i f
      → ((v : ℕ) → state_of u v ≡ state_of t v)
      → ((v : ℕ) → (u.philosopherset v).num_edges ≡ (t.philosopherset v).num_edges)
      → ((v : ℕ) → (u.philosopherset v).forks_acquired ≡ held ends (update t.forkset i f) v n)
      → ((s : Bool) → state_of t (ends s i) ≡ eating → f.owner ≡ s)
      → ((s : Bool) → requested s f ≡ true → (f.owner ≡ not s) × (state_of t (ends s i) ≡ hungry))
      → IsSound n ends u
  refork t i f u sound bound forks states nums acquired eats asks = record {
    acquired = λ v. acquired v ∙ ap (λ g. held ends g v n) (sym forks);
    counted = λ v. nums v ∙ sound.counted v;
    eats = λ j s below eating_j.
        subst (λ g. (g j).owner ≡ s) (sym forks)
          (update_cases (λ k g. k < n → state_of t (ends s k) ≡ eating → g.owner ≡ s) t.forkset i f
            (λ _ e. eats s e) (λ k _ lt e. sound.eats k s lt e) j below
            (sym (states (ends s j)) ∙ eating_j));
    asks = λ j s below asked.
        let asking =
          update_cases
            (λ k g.
              k < n → requested s g ≡ true → (g.owner ≡ not s) × (state_of t (ends s k) ≡ hungry))
            t.forkset i f (λ _ a. asks s a) (λ k _ lt a. sound.asks k s lt a) j below
            (subst (λ g. requested s (g j) ≡ true) forks asked) in
        (subst (λ g. (g j).owner ≡ not s) (sym forks) asking.0, states (ends s j) ∙ asking.1);
  }

  pub restate :
      (t : Table) (v : ℕ) (state : Status)
      → IsSound n ends t
      → ((i : ℕ) (s : Bool) → i < n → ends s i ≡ v → state ≡ eating → (t.forkset i).owner ≡ s)
      → ((i : ℕ) (s : Bool)
          → i < n
          → ends s i ≡ v
          → requested s (t.forkset i) ≡ true
          → state ≡ hungry)
      → IsSound n ends (set_state t v state)
  unfolding set_state
  restate t v state sound eats asks =
      let there = t.philosopherset in
      let here = record (t.philosopherset v) { state = state } in
      record {
        acquired =
            update_cases (λ w p. p.forks_acquired ≡ held ends t.forkset w n) there v here
              (sound.acquired v) (λ w _. sound.acquired w);
        counted =
            update_cases (λ w p. p.num_edges ≡ degree ends w n) there v here (sound.counted v)
              (λ w _. sound.counted w);
        eats = λ i s below.
            update_cases (λ w p. ends s i ≡ w → p.state ≡ eating → (t.forkset i).owner ≡ s) there v
              here (eats i s below) (λ w _ end e. sound.eats i s below (ap (state_of t) end ∙ e))
              (ends s i) refl;
        asks = λ i s below asked. (
          (sound.asks i s below asked).0,
          update_cases (λ w p. ends s i ≡ w → p.state ≡ hungry) there v here
              (λ end. asks i s below end asked)
              (λ w _ end. ap (state_of t) (sym end) ∙ (sound.asks i s below asked).1) (ends s i)
              refl,
        );
      }
