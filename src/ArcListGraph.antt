-- ===== src/ArcListGraph.antt =====
-- webgraph-rs/webgraph/src/graphs/arc_list_graph.rs: the graph of a list of arcs sorted by source, and its
-- lender.
--
-- The iterator over arcs is the list of those it has not returned. The label of the pair that stands for
-- no more arcs is not initialised: it is `none`.
pub mod Lender
pub mod Traverse
use rbsc.Base.{
  ℕ, zero, suc, ◌+◌, ◌-◌, ◌%◌, ◌^◌, Bool, true, false, Option, none, some, List, [], ◌∷◌, ltb, ◌==◌,
  if◌then◌else◌,
}

-- `usize::MAX`
abbrev pub usize_max : ℕ
usize_max = 2 ^ 64 - 1

module _ {L : Type 0} where
  -- `iter.next().unwrap_or((usize::MAX, usize::MAX, uninit))`, and the iterator behind it.
  unfoldable pub next_or_max : List (ℕ × ℕ × L) → (ℕ × ℕ × Option L) × List (ℕ × ℕ × L)
  next_or_max [] = ((usize_max, usize_max, none), [])
  next_or_max ((src, dst, label) ∷ arcs) = ((src, dst, some label), arcs)

pub record ArcListGraph (L : Type 0) : Type 0 where
  pub num_nodes : ℕ
  pub into_iter : List (ℕ × ℕ × L)

pub record Iter (L : Type 0) : Type 0 where
  pub num_nodes : ℕ
  pub curr_node : ℕ
  pub next_pair : ℕ × ℕ × Option L
  pub iter : List (ℕ × ℕ × L)

module _ {L : Type 0} where
  unfoldable pub new_iter : ℕ → List (ℕ × ℕ × L) → Iter L
  unfolding next_or_max
  new_iter num_nodes arcs =
      let (pair, rest) = next_or_max arcs in
      record { num_nodes = num_nodes; curr_node = usize_max; next_pair = pair; iter = rest }

  -- `while self.next_pair.0 < self.curr_node { .. }`. When no arcs are left, the pair is the last one.
  unfoldable pub skip :
      ℕ → ℕ × ℕ × Option L → List (ℕ × ℕ × L) → (ℕ × ℕ × Option L) × List (ℕ × ℕ × L)
  skip curr pair [] = (if ltb pair.0 curr then (usize_max, usize_max, none) else pair, [])
  skip curr pair ((src, dst, label) ∷ arcs) =
      if ltb pair.0 curr
      then skip curr (src, dst, some label) arcs
      else (pair, (src, dst, label) ∷ arcs)

  -- `Lender::next`: the lender changes also when it returns nothing.
  unfoldable pub next : Iter L → Iter L × Option ℕ
  unfolding skip
  next i =
      let curr = (i.curr_node + 1) % 2 ^ 64 in
      let (pair, rest) = skip curr i.next_pair i.iter in
      if curr == i.num_nodes then (record i { curr_node = curr }, none) else (
        record { num_nodes = i.num_nodes; curr_node = curr; next_pair = pair; iter = rest },
        some curr,
      )

  -- `Succ::next`
  unfoldable pub next_successor : Iter L → Iter L × Option (ℕ × Option L)
  unfolding next_or_max
  next_successor i =
      let (pair, rest) = next_or_max i.iter in
      if i.next_pair.0 == i.curr_node
      then (record i { next_pair = pair; iter = rest }, some (i.next_pair.1, i.next_pair.2))
      else (i, none)

  -- `for _ in 0..from { iter.next(); }`
  unfoldable pub advance : ℕ → Iter L → Iter L
  unfolding next
  advance zero i = i
  advance (suc from) i = advance from (next i).0

  unfoldable pub iter_from : ArcListGraph L → ℕ → Iter L
  unfolding new_iter advance
  iter_from g from = advance from (new_iter g.num_nodes g.into_iter)
