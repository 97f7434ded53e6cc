-- ===== src/Examples/Meals.antt =====
-- Three philosophers in a row: 0 and 1 share the fork 0, and 1 and 2 the fork 1.
use graphlabapi_graphlab.Prelude.{
  ℕ, zero, suc, ◌<◌, ◌≡◌, ◌≢◌, true, false, refl, arith, List, [], ◌∷◌,
}
use graphlabapi_graphlab.ChandyMisra.{
  Edge, Graph, hungry, eating, state_of, cancel_eating_philosopher, give_all, give_dirty, lay_forks,
  new,
}
use graphlabapi_graphlab.ChandyMisra.Count.{Ends}
use graphlabapi_graphlab.ChandyMisra.Take.{IsEdge}
use graphlabapi_graphlab.ChandyMisra.Start.{IsWhole}
use graphlabapi_graphlab.ChandyMisra.Exclusion.{IsGraph, run-exclusive}
use graphlabapi_graphlab.ChandyMisra.Waiting.{IsListed, run-asked}
use graphlabapi_graphlab.ChandyMisra.Schedule.{
  Action, make_hungry, stop_eating, advance, run, start, step, next,
}

abbrev row_ends : Ends
row_ends true i = suc i
row_ends false i = i

abbrev row_edge : ℕ → Edge
row_edge i = record { edge_id = i; source = i; target = suc i }

abbrev row_in : ℕ → List Edge
row_in (suc zero) = row_edge 0 ∷ []
row_in (suc (suc zero)) = row_edge 1 ∷ []
row_in _ = []

abbrev row_out : ℕ → List Edge
row_out zero = row_edge 0 ∷ []
row_out (suc zero) = row_edge 1 ∷ []
row_out _ = []

abbrev num_in : ℕ → ℕ
num_in (suc zero) = 1
num_in (suc (suc zero)) = 1
num_in _ = 0

abbrev num_out : ℕ → ℕ
num_out zero = 1
num_out (suc zero) = 1
num_out _ = 0

abbrev row : Graph
row = record {
  num_vertices = 3;
  in_edges = row_in;
  out_edges = row_out;
  num_in_edges = num_in;
  num_out_edges = num_out;
}

row_edge-IsEdge : (i : ℕ) → i < 2 → IsEdge 2 row_ends (row_edge i)
row_edge-IsEdge i h = record {
  below = h;
  from_source = refl;
  to_target = refl;
  no_loop = λ e. omega (arith, e);
}

row-IsGraph : IsGraph 2 row_ends row
row-IsGraph = record {
  few = omega arith;
  loopless = λ i e. omega (arith, e);
  ins = elim [
    | zero ↦ tt
    | suc zero ↦ (row_edge-IsEdge 0 (omega arith), refl, tt)
    | suc (suc zero) ↦ (row_edge-IsEdge 1 (omega arith), refl, tt)
    | suc (suc (suc v)) ↦ tt
  ];
  outs = elim [
    | zero ↦ (row_edge-IsEdge 0 (omega arith), refl, tt)
    | suc zero ↦ (row_edge-IsEdge 1 (omega arith), refl, tt)
    | suc (suc v) ↦ tt
  ];
}

row-IsWhole : IsWhole 2 row_ends row
row-IsWhole = record {
  real = (row_edge-IsEdge 0 (omega arith), (row_edge-IsEdge 1 (omega arith), tt));
  distinct = (refl, (refl, tt));
  covers = λ i h. ground arith;
  degrees = elim [
    | zero ↦ refl
    | suc zero ↦ refl
    | suc (suc zero) ↦ refl
    | suc (suc (suc v)) ↦ ground arith
  ];
}

-- The calls of 1 and of 0 overlap. First 1 eats; it stops and is hungry again, and then 0 eats.
abbrev meals : List Action
meals =
    make_hungry 1
    ∷ advance 1
    ∷ make_hungry 0
    ∷ advance 1
    ∷ advance 0
    ∷ advance 1
    ∷ advance 0
    ∷ stop_eating 1
    ∷ advance 1
    ∷ advance 1
    ∷ advance 1
    ∷ make_hungry 1
    ∷ advance 1
    ∷ advance 1
    ∷ advance 1
    ∷ []

abbrev ranks : ℕ → ℕ
ranks v = v

meals-eating : state_of (run row (start ranks row) meals).table 0 ≡ eating
unfolding run start step next new lay_forks
meals-eating = refl

run-exclusive_example : state_of (run row (start ranks row) meals).table 1 ≢ eating
run-exclusive_example =
    run-exclusive 2 row_ends row ranks meals 0 row-IsGraph row-IsWhole (omega arith) meals-eating

row-IsListed : IsListed 2 row_ends row
row-IsListed = record {
  ins_listed = elim [
    | zero ↦ λ _. refl
    | suc zero ↦ λ _. refl
    | suc (suc i) ↦ λ below. absurd (omega arith)
  ];
  outs_listed = elim [
    | zero ↦ λ _. refl
    | suc zero ↦ λ _. refl
    | suc (suc i) ↦ λ below. absurd (omega arith)
  ];
}

-- Philosopher 1 eats, and 2 waits for the fork 1.
abbrev waiting : List Action
waiting =
    make_hungry 1 ∷ advance 1 ∷ advance 1 ∷ advance 1 ∷ make_hungry 2 ∷ advance 2 ∷ advance 2 ∷ []

run-asked_example : ((run row (start ranks row) waiting).table.forkset 1).request1 ≡ true
unfolding run start step next new lay_forks
run-asked_example =
    run-asked 2 row_ends row ranks waiting 1 true row-IsGraph row-IsWhole row-IsListed (omega arith)
      refl refl refl

-- Philosopher 1 eats and holds the dirty fork 1, which 2 has asked for. The cancelled meal passes the
-- fork on and drops the request: 1 is hungry, does not have the fork, and has not asked for it.
cancel_drops_request :
    let t = (run row (start ranks row) waiting).table in
    let u = (cancel_eating_philosopher row t 1).0 in
    (state_of t 1 ≡ eating)
    × (state_of u 1 ≡ hungry)
    × ((u.forkset 1).owner ≡ true)
    × ((u.forkset 1).request0 ≡ false)
unfolding run start step next new lay_forks cancel_eating_philosopher give_all give_dirty
cancel_drops_request = (refl, refl, refl, refl)
