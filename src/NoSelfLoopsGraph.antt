-- ===== src/NoSelfLoopsGraph.antt =====
-- webgraph-rs/webgraph/src/graphs/no_selfloops_graph.rs: a graph without its self-loops.
--
-- An iterator and a lender are the lists of what they have not returned.
pub mod Rest
use rbsc.Base.{ℕ, Option, none, some, List, [], ◌∷◌, length, ◌==◌, if◌then◌else◌}

pub record Succ : Type 0 where
  pub src : ℕ
  pub iter : List ℕ

-- The loop of `Succ::next`: what is left, and what is returned.
unfoldable pub next_other : ℕ → List ℕ → List ℕ × Option ℕ
next_other src [] = ([], none)
next_other src (dst ∷ iter) = if dst == src then next_other src iter else (iter, some dst)

-- `Succ::next`
unfoldable pub next_successor : Succ → Succ × Option ℕ
unfolding next_other
next_successor s = let (iter, dst) = next_other s.src s.iter in (record s { iter = iter }, dst)

-- `ExactSizeIterator::len`
unfoldable pub len : Succ → ℕ
len s = length s.iter

-- `Lender::next`
unfoldable pub next : List (ℕ × List ℕ) → List (ℕ × List ℕ) × Option (ℕ × Succ)
next [] = ([], none)
next ((node, succ) ∷ items) = (items, some (node, record { src = node; iter = succ }))
