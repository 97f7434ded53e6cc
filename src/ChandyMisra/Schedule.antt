-- ===== src/ChandyMisra/Schedule.antt =====
-- Calls that overlap: each step is the section of one call between two points where a spinlock may be
-- released, and any call may take the next step. The calls on one philosopher do not overlap. The calls
-- are those of make_philosopher_hungry and philosopher_stops_eating; schedules with calls of
-- cancel_eating_philosopher are not modelled.
use graphlabapi_graphlab.Prelude.Updates.{update}
use graphlabapi_graphlab.Prelude.{ℕ, Bool, true, false, List, [], ◌∷◌, ◌&&◌, if◌then◌else◌}
use graphlabapi_graphlab.ChandyMisra.{
  Table, Edge, Graph, thinking, hungry, is_thinking, is_eating, state_of, set_state, take_in,
  take_out, give, finish, new,
}

-- What is left of the call on a philosopher: its in-edges and its out-edges.
pub data Call : Type 0 where
  idle : Call
  hungering : List Edge → List Edge → Call
  stopping : List Edge → List Edge → Call

pub record World : Type 0 where
  pub table : Table
  pub call : ℕ → Call

-- A call is made, or the call on a philosopher goes on.
pub data Action : Type 0 where
  make_hungry : ℕ → Action
  stop_eating : ℕ → Action
  advance : ℕ → Action

abbrev pub is_idle : Call → Bool
is_idle idle = true
is_idle _ = false

abbrev pub becomes : World → ℕ → Table → Call → World
becomes w p t c = record { table = t; call = update w.call p c }

-- The next section of the call that is on.
unfoldable pub next : World → ℕ → Call → World
unfolding take_in take_out give finish
next w p idle = w
next w p (hungering (e ∷ ins) outs) = becomes w p (take_in w.table e) (hungering ins outs)
next w p (hungering [] (e ∷ outs)) = becomes w p (take_out w.table e) (hungering [] outs)
next w p (hungering [] []) = becomes w p (finish w.table p).0 idle
next w p (stopping (e ∷ ins) outs) = becomes w p (give w.table e e.source).0 (stopping ins outs)
next w p (stopping [] (e ∷ outs)) = becomes w p (give w.table e e.target).0 (stopping [] outs)
next w p (stopping [] []) = becomes w p w.table idle

-- A call whose ASSERT would fail is not made.
unfoldable pub step : Graph → World → Action → World
unfolding set_state next
step g w (make_hungry p) =
    if is_idle (w.call p) && is_thinking (state_of w.table p)
    then becomes w p (set_state w.table p hungry) (hungering (g.in_edges p) (g.out_edges p))
    else w
step g w (stop_eating p) =
    if is_idle (w.call p) && is_eating (state_of w.table p)
    then becomes w p (set_state w.table p thinking) (stopping (g.in_edges p) (g.out_edges p))
    else w
step g w (advance p) = next w p (w.call p)

unfoldable pub run : Graph → World → List Action → World
unfolding step
run g w [] = w
run g w (a ∷ actions) = run g (step g w a) actions

unfoldable pub start : (ℕ → ℕ) → Graph → World
start rank g = record { table = new rank g; call = λ _. idle }
