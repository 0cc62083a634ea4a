-- ===== src/PermutedGraph.antt =====
-- webgraph-rs/webgraph/src/graphs/permuted_graph.rs: a graph whose nodes are renumbered on the fly.
--
-- A lender and an iterator are the lists of what they have not returned. `get` is that of the slice `perm`,
-- of the crate sux, which panics out of range.
pub mod Inverse
use rbsc.Base.{ℕ, Option, none, some, List, [], ◌∷◌, length, ◌>>=◌}

module _ (get : ℕ → Option ℕ) where
  -- `Succ::next`: what is left, and what is returned.
  unfoldable pub next_successor : List ℕ → Option (List ℕ × Option ℕ)
  next_successor [] = some ([], none)
  next_successor (succ ∷ iter) = get succ >>= λ v. some (iter, some v)

  -- `Lender::next`
  unfoldable pub next : List (ℕ × List ℕ) → Option (List (ℕ × List ℕ) × Option (ℕ × List ℕ))
  next [] = some ([], none)
  next ((node, succ) ∷ items) = get node >>= λ v. some (items, some (v, succ))
