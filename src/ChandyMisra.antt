-- ===== src/ChandyMisra.antt =====
-- src/graphlab/util/chandy_misra.hpp: a lock on the neighborhoods of a graph, by the forks of the
-- dining philosophers. A vector that is read in range only is a function of the index, and the bits of
-- a fork's character are fields. The spinlocks are left out: a philosopher's edges are handled one at a
-- time, and between two of them, where the backoff may release its lock, any other call may run.
pub mod Count
pub mod Invariant
pub mod Move
pub mod Take
pub mod Give
pub mod Schedule
pub mod Start
pub mod Exclusion
pub mod Asked
pub mod Heard
pub mod Waiting
use graphlabapi_graphlab.Prelude.{
  ℕ, zero, suc, ◌+◌, ◌-◌, ◌%◌, ◌^◌, ◌<◌, ◌≡◌, ◌≢◌, Bool, true, false, not, ◌&&◌, some, List, [],
  ◌∷◌, ◌++◌, length, get_elem?, ltb, ◌==◌, if◌then◌else◌,
}
use graphlabapi_graphlab.Prelude.Run.{Run, ok, ◌>>=◌, ◌>>◌, assert}
use graphlabapi_graphlab.Prelude.Updates.{update}

-- The bits of a fork. The owner is the target of the edge if the bit is set, and else the source.
pub record Fork : Type 0 where
  pub owner : Bool
  pub dirty : Bool
  pub request0 : Bool
  pub request1 : Bool

pub data Status : Type 0 where
  thinking hungry eating : Status

abbrev pub is_hungry : Status → Bool
is_hungry hungry = true
is_hungry _ = false

abbrev pub is_eating : Status → Bool
is_eating eating = true
is_eating _ = false

abbrev pub is_thinking : Status → Bool
is_thinking thinking = true
is_thinking _ = false

pub record Philosopher : Type 0 where
  pub num_edges : ℕ
  pub forks_acquired : ℕ
  pub state : Status

pub record Table : Type 0 where
  pub forkset : ℕ → Fork
  pub philosopherset : ℕ → Philosopher

pub record Edge : Type 0 where
  pub edge_id : ℕ
  pub source : ℕ
  pub target : ℕ

abbrev pub put_fork : Table → ℕ → Fork → Table
put_fork t forkid fork = record t { forkset = update t.forkset forkid fork }

abbrev pub put_philosopher : Table → ℕ → Philosopher → Table
put_philosopher t v p = record t { philosopherset = update t.philosopherset v p }

abbrev pub state_of : Table → ℕ → Status
state_of t v = (t.philosopherset v).state

unfoldable pub set_state : Table → ℕ → Status → Table
set_state t v s = put_philosopher t v (record (t.philosopherset v) { state = s })

-- `forks_acquired++` and `forks_acquired--` of a 32-bit count.
unfoldable pub gain : Table → ℕ → Table
gain t v = put_philosopher t v (record (t.philosopherset v) {
  forks_acquired = ((t.philosopherset v).forks_acquired + 1) % 2 ^ 32;
})

unfoldable pub lose : Table → ℕ → Table
lose t v = put_philosopher t v (record (t.philosopherset v) {
  forks_acquired = ((t.philosopherset v).forks_acquired + (2 ^ 32 - 1)) % 2 ^ 32;
})

unfoldable pub request_for_fork : Table → ℕ → Bool → Table
request_for_fork t forkid nextowner =
    let f = t.forkset forkid in
    put_fork t forkid
      (if nextowner then record f { request1 = true } else record f { request0 = true })

abbrev pub fork_owner : Table → ℕ → Bool
fork_owner t forkid = (t.forkset forkid).owner

abbrev pub fork_dirty : Table → ℕ → Bool
fork_dirty t forkid = (t.forkset forkid).dirty

unfoldable pub dirty_fork : Table → ℕ → Table
dirty_fork t forkid = put_fork t forkid (record (t.forkset forkid) { dirty = true })

-- `forkset[forkid] = OWNER_TARGET` or `OWNER_SOURCE`: every other bit is cleared.
abbrev pub clean : Bool → Fork
clean owner = record { owner = owner; dirty = false; request0 = false; request1 = false }

unfoldable pub advance_fork_state_on_lock : Table → Edge → Table
unfolding gain lose
advance_fork_state_on_lock t e =
    let f = t.forkset e.edge_id in
    let to_target =
      gain
        (lose
          (put_fork t e.edge_id
            (record (clean true) { request0 = is_hungry (state_of t e.source) }))
          e.source)
        e.target in
    let to_source =
      lose
        (gain
          (put_fork t e.edge_id
            (record (clean false) { request1 = is_hungry (state_of t e.target) }))
          e.source)
        e.target in
    if f.owner
    then (if not (is_eating (state_of t e.target)) && (f.dirty && f.request0) then to_source else t)
    else (if not (is_eating (state_of t e.source)) && (f.dirty && f.request1) then to_target else t)

-- The result, whether the fork moved, is not used.
unfoldable pub advance_fork_state_on_unlock : Table → Edge → Table
unfolding gain lose
advance_fork_state_on_unlock t e =
    let f = t.forkset e.edge_id in
    let to_target = gain (lose (put_fork t e.edge_id (clean true)) e.source) e.target in
    let to_source = lose (gain (put_fork t e.edge_id (clean false)) e.source) e.target in
    if f.owner
    then (if f.dirty && f.request0 then to_source else t)
    else (if f.dirty && f.request1 then to_target else t)

abbrev pub has_all : Table → ℕ → Bool
has_all t v = (t.philosopherset v).forks_acquired == (t.philosopherset v).num_edges

-- What `make_philosopher_hungry` does for one in-edge, and for one out-edge, of the philosopher.
unfoldable pub take_in : Table → Edge → Table
unfolding request_for_fork advance_fork_state_on_lock
take_in t e =
    if fork_owner t e.edge_id
    then t
    else advance_fork_state_on_lock (request_for_fork t e.edge_id true) e

unfoldable pub take_out : Table → Edge → Table
unfolding request_for_fork advance_fork_state_on_lock
take_out t e =
    if fork_owner t e.edge_id
    then advance_fork_state_on_lock (request_for_fork t e.edge_id false) e
    else t

-- A hungry philosopher that has all its forks eats; it is signalled.
unfoldable pub signal : Table → ℕ → Table × List ℕ
unfolding set_state
signal t other =
    if is_hungry (state_of t other) && has_all t other
    then (set_state t other eating, other ∷ [])
    else (t, [])

-- What `philosopher_stops_eating` does for one edge, whose other end is `other`.
unfoldable pub give : Table → Edge → ℕ → Table × List ℕ
unfolding dirty_fork advance_fork_state_on_unlock signal
give t e other = signal (advance_fork_state_on_unlock (dirty_fork t e.edge_id) e) other

-- What `cancel_eating_philosopher` does for one edge.
unfoldable pub give_dirty : Table → Edge → ℕ → Table × List ℕ
unfolding advance_fork_state_on_unlock signal
give_dirty t e other =
    if fork_dirty t e.edge_id then signal (advance_fork_state_on_unlock t e) other else (t, [])

-- The end of `make_philosopher_hungry` and of `cancel_eating_philosopher`.
unfoldable pub finish : Table → ℕ → Table × List ℕ
unfolding set_state
finish t p = if has_all t p then (set_state t p eating, p ∷ []) else (t, [])

-- The type of the graph is a parameter of the class, of which this is used.
pub record Graph : Type 0 where
  pub num_vertices : ℕ
  pub in_edges : ℕ → List Edge
  pub out_edges : ℕ → List Edge
  pub num_in_edges : ℕ → ℕ
  pub num_out_edges : ℕ → ℕ

unfoldable pub take_all_in : Table → List Edge → Table
unfolding take_in
take_all_in t [] = t
take_all_in t (e ∷ edges) = take_all_in (take_in t e) edges

unfoldable pub take_all_out : Table → List Edge → Table
unfolding take_out
take_all_out t [] = t
take_all_out t (e ∷ edges) = take_all_out (take_out t e) edges

unfoldable pub give_all :
    (Table → Edge → ℕ → Table × List ℕ) → (Edge → ℕ) → Table → List Edge → List ℕ → Table × List ℕ
give_all section other t [] retval = (t, retval)
give_all section other t (e ∷ edges) retval =
    let (u, signalled) = section t e (other e) in
    give_all section other u edges (retval ++ signalled)

-- The methods, when no other call comes between.
unfoldable pub make_philosopher_hungry : Graph → Table → ℕ → Run (Table × List ℕ)
unfolding set_state take_all_in take_all_out finish
make_philosopher_hungry g t p = do
  assert (is_thinking (state_of t p))
  ok (finish (take_all_out (take_all_in (set_state t p hungry) (g.in_edges p)) (g.out_edges p)) p)

unfoldable pub philosopher_stops_eating : Graph → Table → ℕ → Run (Table × List ℕ)
unfolding set_state give give_all
philosopher_stops_eating g t p = do
  assert (is_eating (state_of t p))
  let (u, retval) = give_all give (λ e. e.source) (set_state t p thinking) (g.in_edges p) []
  ok (give_all give (λ e. e.target) u (g.out_edges p) retval)

unfoldable pub cancel_eating_philosopher : Graph → Table → ℕ → Table × List ℕ
unfolding set_state give_dirty give_all finish
cancel_eating_philosopher g t p =
    let (u, retval) =
      give_all give_dirty (λ e. e.source) (set_state t p hungry) (g.in_edges p) [] in
    let (v, retval2) = give_all give_dirty (λ e. e.target) u (g.out_edges p) retval in
    let (w, own) = finish v p in if is_eating (state_of t p) then (w, retval2 ++ own) else (t, [])

-- `compute_initial_fork_arrangement`, where `rank` is the vertex id or the alternative one.
unfoldable pub lay_fork : (ℕ → ℕ) → Table → Edge → Table
unfolding gain
lay_fork rank t e =
    let from_target = ltb (rank e.target) (rank e.source) in
    gain (put_fork t e.edge_id (record (clean from_target) { dirty = true }))
      (if from_target then e.target else e.source)

unfoldable pub lay_forks : (ℕ → ℕ) → Table → List Edge → Table
unfolding lay_fork
lay_forks rank t [] = t
lay_forks rank t (e ∷ edges) = lay_forks rank (lay_fork rank t e) edges

-- The in-edges of the vertices below `n`, as the loops visit them.
abbrev pub edges_below : Graph → ℕ → List Edge
edges_below g zero = []
edges_below g (suc n) = edges_below g n ++ g.in_edges n

unfoldable pub new : (ℕ → ℕ) → Graph → Table
unfolding lay_forks
new rank g =
    lay_forks rank
      (record {
        forkset = λ _. clean false;
        philosopherset = λ v. record {
          num_edges = (g.num_in_edges v + g.num_out_edges v) % 2 ^ 32;
          forks_acquired = 0;
          state = thinking;
        };
      })
      (edges_below g g.num_vertices)
