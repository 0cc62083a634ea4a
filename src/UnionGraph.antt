-- ===== src/UnionGraph.antt =====
-- webgraph-rs/webgraph/src/graphs/union_graph.rs: the graph whose arcs are those of two graphs.
--
-- A lender and an iterator are the lists of what they have not returned; `Peekable` changes nothing of that.
pub mod Merge
use rbsc.Base.{
  ℕ, zero, suc, ◌-◌, ◌^◌, Option, none, some, List, [], ◌∷◌, drop, ltb, leb, if◌then◌else◌, length,
  ◌>>=◌,
}
use Prim.Native.Nat.{max, min}
use rbsc.ArcListGraph.{usize_max}

-- `Succ`
pub record Succ : Type 0 where
  pub iter0 : Option (List ℕ)
  pub iter1 : Option (List ℕ)

-- `iter.as_mut().and_then(|iter| iter.peek().copied()).unwrap_or(usize::MAX)`
unfoldable pub peek_or_max : Option (List ℕ) → ℕ
peek_or_max none = usize_max
peek_or_max (some []) = usize_max
peek_or_max (some (x ∷ xs)) = x

-- `iter.as_mut().and_then(Iterator::next)`
unfoldable pub advance : Option (List ℕ) → Option (List ℕ) × Option ℕ
advance none = (none, none)
advance (some []) = (some [], none)
advance (some (x ∷ xs)) = (some xs, some x)

-- `Succ::next`
unfoldable pub next_successor : Succ → Succ × Option ℕ
unfolding peek_or_max advance
next_successor s =
    let next0 = peek_or_max s.iter0 in
    let next1 = peek_or_max s.iter1 in
    let (iter0, first0) = advance s.iter0 in
    let (iter1, first1) = advance s.iter1 in
    if ltb next1 next0
    then (record s { iter1 = iter1 }, first1)
    else if ltb next0 next1
    then (record s { iter0 = iter0 }, first0)
    else (record { iter0 = iter0; iter1 = iter1 }, first1)

abbrev pub Lent : Type 0
Lent = List (ℕ × List ℕ)

-- `self.0.next().unzip()`
abbrev lend : Lent → Lent × Option ℕ × Option (List ℕ)
lend [] = ([], none, none)
lend ((node, succ) ∷ items) = (items, some node, some succ)

-- `Lender::next`
unfoldable pub next : Lent × Lent → (Lent × Lent) × Option (ℕ × Succ)
next (l0, l1) =
    let (rest0, node0, succ0) = lend l0 in
    let (rest1, node1, succ1) = lend l1 in
    let lent : Succ = record { iter0 = succ0; iter1 = succ1 } in
    (
      (rest0, rest1),
      elim node0 [
        | some node ↦ some (node, lent)
        | none ↦ elim node1 [ some node ↦ some (node, lent) | none ↦ none ]
      ],
    )

-- A graph by its number of nodes and what its lender lends from the first node on.
pub record Graph : Type 0 where
  pub num_nodes : ℕ
  pub items : Lent

unfoldable pub num_nodes : Graph → Graph → ℕ
num_nodes g h = max g.num_nodes h.num_nodes

unfoldable pub iter_from : Graph → Graph → ℕ → Lent × Lent
iter_from g h from = (drop (min from g.num_nodes) g.items, drop (min from h.num_nodes) h.items)
