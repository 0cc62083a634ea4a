-- ===== src/Acyclicity.antt =====
-- webgraph-rs/algo/src/acyclicity.rs: whether a graph is acyclic, by a depth-first visit with predecessors
-- that stops at the first arc back to the visit path.
pub mod Path
pub mod Rounds
pub mod Total
use rbsc.Base.{ℕ, Bool, true, false, Option, none, some, range, ◌>>=◌}
use rbsc.DepthFirst.{Graph, Event, revisit, FilterArgs, visit}
use rbsc.DepthFirst.States.{BitVec}
use rbsc.DepthFirst.Selectors.{three_states}

pub data StoppedWhenDone : Type 0 where
  stopped_when_done : StoppedWhenDone

unfoldable pub callback : Unit {0} → Event → Option (Unit {0} × Option StoppedWhenDone)
callback t (revisit node pred root depth true) = some (t, some stopped_when_done)
callback t event = some (t, none)

-- The filter of a visit without one.
abbrev pub pass_all : Unit {0} → FilterArgs → Unit {0} × Bool
pass_all t a = (t, true)

module _ (bv : BitVec) where
  -- The last step is `is_continue`.
  unfoldable pub is_acyclic : Graph → Option Bool
  is_acyclic g = visit (three_states bv) g callback pass_all (range 0 g.num_nodes) tt >>= λ r.
      elim r.1 [ none ↦ some true | some e ↦ some false ]
