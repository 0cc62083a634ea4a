-- ===== src/CsrGraph/Sorted.antt =====
-- The graph that `from_sorted_lender` builds, whose number of nodes is not known before.
use rbsc.Base.{ℕ, suc, ◌+◌, ◌≤◌, ◌≡◌, refl, subst, arith, List, [], ◌∷◌, ◌++◌}
use Prim.Native.Nat.{max}
use rbsc.CsrGraph.{
  NodeLabels, Builder, new_builder, add_nodes, max_successor, add_lender, from_sorted_lender,
}
use rbsc.CsrGraph.Build.{InOrder, Below, lent_lists, of_lists, add_nodes-AddsAll}

-- What `add_lender` counts, from `m` on.
abbrev max_of : List NodeLabels → ℕ → ℕ
max_of [] m = m
max_of ((src, succs) ∷ items) m = max_of items (max_successor succs (max m src))

add_lender-add_nodes :
    (items : List NodeLabels) (b : Builder) (m : ℕ)
    → add_lender items b m ≡ (add_nodes items b, max_of items m)
unfolding add_lender add_nodes
add_lender-add_nodes [] b m = refl
add_lender-add_nodes ((src, succs) ∷ items) b m = add_lender-add_nodes items _ _

max_successor-ge : (succs : List ℕ) (m : ℕ) → m ≤ max_successor succs m
unfolding max_successor
max_successor-ge [] m = omega arith
max_successor-ge (s ∷ succs) m = omega (arith, max_successor-ge succs (max m s))

max_of-ge : (items : List NodeLabels) (m : ℕ) → m ≤ max_of items m
max_of-ge [] m = omega arith
max_of-ge ((src, succs) ∷ items) m =
    omega
      (arith, max_of-ge items (max_successor succs (max m src)), max_successor-ge succs (max m src))

Below-le : (items : List NodeLabels) (n n' : ℕ) → n ≤ n' → Below n items → Below n' items
Below-le [] n n' h b = tt
Below-le (i ∷ items) n n' h b = (omega (arith, b.0), Below-le items n n' h b.1)

max_of-Below : (items : List NodeLabels) (m : ℕ) → Below (max_of items m + 1) items
max_of-Below [] m = tt
max_of-Below ((src, succs) ∷ items) m =
    let m' = max_successor succs (max m src) in
    (omega (arith, max_of-ge items m', max_successor-ge succs (max m src)), max_of-Below items m')

-- All nodes that occur: those that are lent, and their successors.
abbrev pub occurring : List NodeLabels → List ℕ
occurring [] = []
occurring ((src, succs) ∷ items) = src ∷ (succs ++ occurring items)

-- The largest number of a list, and 0 for an empty one.
abbrev pub largest : List ℕ → ℕ
largest [] = 0
largest (x ∷ xs) = max x (largest xs)

largest-append : (xs ys : List ℕ) → largest (xs ++ ys) ≡ max (largest xs) (largest ys)
largest-append [] ys = omega arith
largest-append (x ∷ xs) ys = omega (arith, largest-append xs ys)

max_successor-eq : (succs : List ℕ) (m : ℕ) → max_successor succs m ≡ max m (largest succs)
unfolding max_successor
max_successor-eq [] m = omega arith
max_successor-eq (s ∷ succs) m = omega (arith, max_successor-eq succs (max m s))

max_of-eq : (items : List NodeLabels) (m : ℕ) → max_of items m ≡ max m (largest (occurring items))
max_of-eq [] m = omega arith
max_of-eq ((src, succs) ∷ items) m = omega (
  arith,
  max_of-eq items (max_successor succs (max m src)),
  max_successor-eq succs (max m src),
  largest-append succs (occurring items),
)

max_of-largest : (items : List NodeLabels) → max_of items 0 ≡ largest (occurring items)
max_of-largest items = omega (arith, max_of-eq items 0)

pub largest-Below : (items : List NodeLabels) → Below (largest (occurring items) + 1) items
largest-Below items = subst (λ m. Below (m + 1) items) (max_of-largest items) (max_of-Below items 0)

-- On nodes lent in order, `from_sorted_lender` builds the graph of the lists that were lent, with one
-- node more than the largest node that occurs, and with one node if none occurs.
pub from_sorted_lender-eq-of_lists :
    (items : List NodeLabels)
    → InOrder 0 items
    → from_sorted_lender items ≡ of_lists (lent_lists (largest (occurring items) + 1) 0 items)
unfolding from_sorted_lender
from_sorted_lender-eq-of_lists items o =
    let m = max_of items 0 in
    let same = max_of-largest items in
    let nodes : suc m ≡ m + 1 = omega arith in
    rw (add_lender-add_nodes items new_builder 0, ← same, ← nodes)
      (add_nodes-AddsAll items m 0 (suc m) [] [] refl (omega arith) o
        (Below-le items (m + 1) (suc m) (omega arith) (max_of-Below items 0)))
