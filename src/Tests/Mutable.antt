-- ===== src/Tests/Mutable.antt =====
-- Runs of the mutable graph.
use rbsc.Base.{ℕ, ◌≡◌, refl, inl, inr, arith, none, some, List, [], ◌∷◌, length}
use mathlib.Core.List.{Perm}
use rbsc.VecGraph.{LabeledVecGraph, Triple, from_arcs, from_lender, from_sorted_lender}
use rbsc.VecGraph.Content.{arcs, Counted}
use rbsc.VecGraph.Insert.{Increasing}
use rbsc.VecGraph.FromArcs.{Distinct, from_arcs-Distinct}
use rbsc.VecGraph.Repeated.{from_arcs-none}
use rbsc.VecGraph.Lent.{lent, from_sorted_lender_lem}

abbrev three_arcs : List (Triple ℕ)
three_arcs = (1, 0, 7) ∷ (0, 2, 8) ∷ (0, 1, 9) ∷ []

three_arcs-Distinct : Distinct three_arcs
three_arcs-Distinct = (
  (inl (λ e. omega (arith, e)), (inl (λ e. omega (arith, e)), tt)),
  ((inr (λ e. omega (arith, e)), tt), (tt, tt)),
)

from_three_arcs :
    from_arcs three_arcs
    ≡ some (record { number_of_arcs = 3; succ = ((1, 9) ∷ (2, 8) ∷ []) ∷ ((0, 7) ∷ []) ∷ [] ∷ [] })
unfolding from_arcs
from_three_arcs = refl

-- Two arcs with the same source and target.
from_same_arcs : from_arcs {L = ℕ} ((0, 1, 5) ∷ (0, 1, 6) ∷ []) ≡ none
unfolding from_arcs
from_same_arcs = refl

from_lent :
    from_lender {L = ℕ} ((1, (2, 5) ∷ (0, 6) ∷ []) ∷ [])
    ≡ from_sorted_lender ((1, (0, 6) ∷ (2, 5) ∷ []) ∷ [])
unfolding from_lender from_sorted_lender
from_lent = refl

from_arcs-Distinct_example :
    (g : LabeledVecGraph ℕ) × (from_arcs three_arcs ≡ some g)
    × Perm three_arcs (arcs g)
    × Increasing (arcs g)
    × (length g.succ ≡ 3)
    × Counted g
from_arcs-Distinct_example = from_arcs-Distinct three_arcs three_arcs-Distinct

abbrev same_arcs : List (Triple ℕ)
same_arcs = (0, 1, 5) ∷ (2, 0, 4) ∷ (0, 1, 6) ∷ []

same_arcs-Distinct : ¬ Distinct same_arcs
same_arcs-Distinct d = elim (d.0.1.0) [ inl differ ↦ differ refl | inr differ ↦ differ refl ]

from_arcs-none_example : from_arcs same_arcs ≡ none
from_arcs-none_example = from_arcs-none same_arcs same_arcs-Distinct

abbrev lent_nodes : List (ℕ × List (ℕ × ℕ))
lent_nodes = (0, (1, 9) ∷ (2, 8) ∷ []) ∷ (1, (0, 7) ∷ []) ∷ []

lent_nodes-Increasing : Increasing (lent lent_nodes)
lent_nodes-Increasing =
    ((inr (refl, omega arith), (inl (omega arith), tt)), ((inl (omega arith), tt), (tt, tt)))

from_sorted_lender_lem_example :
    (g : LabeledVecGraph ℕ) × (from_sorted_lender lent_nodes ≡ some g)
    × (arcs g ≡ (0, 1, 9) ∷ (0, 2, 8) ∷ (1, 0, 7) ∷ [])
    × Counted g
from_sorted_lender_lem_example = from_sorted_lender_lem lent_nodes lent_nodes-Increasing
