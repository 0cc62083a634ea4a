-- ===== src/TopSort.antt =====
-- webgraph-rs/algo/src/top_sort.rs: a topological sort by a depth-first visit with predecessors.
--
-- `none` is a panic, or a read of memory that was not written.
pub mod Laws
use rbsc.Base.{
  ℕ, ◌-◌, Bool, true, Option, none, some, List, [], ◌∷◌, length, replicate, set, range, leb, ◌>>=◌,
  if◌then◌else◌,
}
use rbsc.DepthFirst.{Graph, Event, postvisit, FilterArgs, visit}
use rbsc.DepthFirst.States.{BitVec}
use rbsc.DepthFirst.Selectors.{two_states}

-- `top_sort` and `pos`. A place that was not written is `none`.
pub record Sort : Type 0 where
  pub top_sort : List (Option ℕ)
  pub pos : ℕ

-- `pos -= 1; top_sort[pos].write(node)`
unfoldable pub write : Sort → ℕ → Option Sort
write s node =
    if leb 1 s.pos
    then (if leb s.pos (length s.top_sort)
        then some (record { top_sort = set s.top_sort (s.pos - 1) (some node); pos = s.pos - 1 })
        else none)
    else none

unfoldable pub callback : Sort → Event → Option (Sort × Option ⊥)
unfolding write
callback s (postvisit node pred root depth) = write s node >>= λ s'. some (s', none)
callback s event = some (s, none)

unfoldable pub assume_init : List (Option ℕ) → Option (List ℕ)
assume_init [] = some []
assume_init (none ∷ slots) = none
assume_init (some v ∷ slots) = assume_init slots >>= λ vs. some (v ∷ vs)

-- The filter of a visit without one.
abbrev pub pass_all : Sort → FilterArgs → Sort × Bool
pass_all s a = (s, true)

unfoldable pub top_sort : BitVec → Graph → Option (List ℕ)
unfolding callback assume_init visit
top_sort bv g = do
  r ←
      visit (two_states bv) g callback pass_all (range 0 g.num_nodes)
        (record { top_sort = replicate g.num_nodes none; pos = g.num_nodes })
  assume_init r.0.acc.top_sort
