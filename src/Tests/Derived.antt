-- ===== src/Tests/Derived.antt =====
-- Runs of the graphs that are made from other graphs and from lists of arcs.
use rbsc.Base.{
  ℕ, zero, suc, ◌+◌, ◌%◌, ◌<◌, ◌≡◌, refl, arith, some, List, [], ◌∷◌, length, get_elem?,
}
use Prim.Native.Nat.{max}
use rbsc.ArcListGraph
use rbsc.ArcListGraph.{ArcListGraph}
use rbsc.ArcListGraph.Lender as ArcLender
use rbsc.ArcListGraph.Traverse.{traverse-iter_from}
use rbsc.DepthFirst.Invariant.{count}
use rbsc.UnionGraph
use rbsc.UnionGraph.Merge as Merge
use rbsc.UnionGraph.Merge.{union_successors}
use rbsc.NoSelfLoopsGraph
use rbsc.NoSelfLoopsGraph.Rest as Rest
use rbsc.NoSelfLoopsGraph.Rest.{successors-without}
use rbsc.PermutedGraph
use rbsc.PermutedGraph.Inverse.{lend_all, lend_all-back, renumber, count_arc}

abbrev arc_list : ArcListGraph ℕ
arc_list = record { num_nodes = 3; into_iter = (0, 1, 5) ∷ (0, 2, 6) ∷ (2, 0, 7) ∷ [] }

-- One of the two successors of the first node is taken.
traverse-iter_from_example :
    ArcLender.traverse (1 ∷ 1 ∷ 1 ∷ 1 ∷ []) (ArcListGraph.iter_from arc_list 0)
    ≡ (0, (1, some 5) ∷ []) ∷ (1, []) ∷ (2, (0, some 7) ∷ []) ∷ []
traverse-iter_from_example =
    traverse-iter_from arc_list 0 (1 ∷ 1 ∷ 1 ∷ 1 ∷ []) (omega arith) (omega arith)
      (omega arith, (omega arith, (omega arith, tt)))

-- Past the end, the lender goes on with nodes that the graph does not have.
beyond_the_end : (ArcListGraph.next (ArcListGraph.iter_from arc_list 4)).1 ≡ some 4
unfolding ArcListGraph.next ArcListGraph.iter_from
beyond_the_end = refl

abbrev two_lists : UnionGraph.Succ
two_lists = record { iter0 = some (1 ∷ 3 ∷ []); iter1 = some (2 ∷ 3 ∷ []) }

collected : Merge.collect 4 two_lists ≡ 1 ∷ 2 ∷ 3 ∷ []
unfolding Merge.collect
collected = refl

union_successors_example :
    Merge.Ascending 0 (Merge.collect 4 two_lists)
    × ((v : ℕ)
        → count v (Merge.collect 4 two_lists) ≡ max (count v (1 ∷ 3 ∷ [])) (count v (2 ∷ 3 ∷ [])))
union_successors_example =
    union_successors two_lists 4 (omega arith) (omega arith, (omega arith, tt))
      (omega arith, (omega arith, tt)) (omega arith, (omega arith, tt))
      (omega arith, (omega arith, tt))

abbrev with_loop : NoSelfLoopsGraph.Succ
with_loop = record { src = 1; iter = 0 ∷ 1 ∷ 2 ∷ [] }

successors-without_example :
    (Rest.collect 3 with_loop ≡ 0 ∷ 2 ∷ [])
    × (NoSelfLoopsGraph.len with_loop ≡ length (Rest.collect 3 with_loop) + 1)
successors-without_example = successors-without with_loop 3 (omega arith)

-- The nodes 0, 1, 2 become 2, 0, 1.
abbrev rotate : ℕ → ℕ
rotate v = (v + 2) % 3

abbrev rotate_back : ℕ → ℕ
rotate_back v = (v + 1) % 3

rotate_has : (v : ℕ) → v < 3 → (get_elem? (2 ∷ 0 ∷ 1 ∷ []) v ≡ some (rotate v)) × (rotate v < 3)
rotate_has zero h = (refl, omega arith)
rotate_has (suc zero) h = (refl, omega arith)
rotate_has (suc (suc zero)) h = (refl, omega arith)
rotate_has (suc (suc (suc v))) h = absurd (omega arith)

rotate_back_has :
    (v : ℕ)
    → v < 3
    → (get_elem? (1 ∷ 2 ∷ 0 ∷ []) v ≡ some (rotate_back v)) × (rotate_back (rotate v) ≡ v)
rotate_back_has zero h = (refl, refl)
rotate_back_has (suc zero) h = (refl, refl)
rotate_back_has (suc (suc zero)) h = (refl, refl)
rotate_back_has (suc (suc (suc v))) h = absurd (omega arith)

abbrev two_arcs : List (ℕ × List ℕ)
two_arcs = (0, 1 ∷ []) ∷ (1, 2 ∷ []) ∷ []

rotated : lend_all (get_elem? (2 ∷ 0 ∷ 1 ∷ [])) two_arcs ≡ some ((2, 0 ∷ []) ∷ (0, 1 ∷ []) ∷ [])
unfolding lend_all PermutedGraph.next PermutedGraph.next_successor
rotated = refl

lend_all-back_example :
    (lend_all (get_elem? (2 ∷ 0 ∷ 1 ∷ [])) two_arcs ≡ some (renumber rotate two_arcs))
    × ((u v : ℕ)
        → u < 3
        → v < 3
        → count_arc (rotate u) (rotate v) (renumber rotate two_arcs) ≡ count_arc u v two_arcs)
    × (lend_all (get_elem? (1 ∷ 2 ∷ 0 ∷ [])) (renumber rotate two_arcs) ≡ some two_arcs)
lend_all-back_example =
    lend_all-back 3 rotate rotate_back (get_elem? (2 ∷ 0 ∷ 1 ∷ [])) (get_elem? (1 ∷ 2 ∷ 0 ∷ []))
      rotate_has rotate_back_has two_arcs
      ((omega arith, (omega arith, tt)), ((omega arith, (omega arith, tt)), tt))
