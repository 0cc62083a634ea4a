-- ===== src/Tests/Symmetric.antt =====
-- Runs of the connected components of a symmetric graph.
use rbsc.Base.{ℕ, zero, suc, ◌<◌, ◌≡◌, ◌↔◌, refl, arith, some, [], ◌∷◌, length, get_elem?}
use rbsc.DepthFirst.{Graph}
use rbsc.DepthFirst.Invariant.{IsGraph}
use rbsc.DepthFirst.Finish.{Reach}
use rbsc.SeqNoPred.{visit}
use rbsc.Sccs.{Sccs}
use rbsc.SymmSeq.{callback, symm_seq}
use rbsc.SymmSeq.Invariant.{IsSymmetric}
use rbsc.SymmSeq.Components.{symm_seq_lem}
use rbsc.Tests.Visits.{list_bits, Arc-count}

-- 0 - 2, and 1 alone.
abbrev pub edge : Graph
edge = record { num_nodes = 3; successors = get_elem? ((2 ∷ []) ∷ [] ∷ (0 ∷ []) ∷ []) }

pub edge-IsGraph : IsGraph edge
edge-IsGraph zero h = (2 ∷ [], refl, (omega arith, tt))
edge-IsGraph (suc zero) h = ([], refl, tt)
edge-IsGraph (suc (suc zero)) h = (0 ∷ [], refl, (omega arith, tt))
edge-IsGraph (suc (suc (suc v))) h = absurd (omega arith)

edge-IsSymmetric : IsSymmetric edge
edge-IsSymmetric zero w a =
    let m = Arc-count edge 0 w (2 ∷ []) refl a in
    let is_two : 2 ≡ w = ground (arith, m) in rw (← is_two) (0 ∷ [], refl, omega arith)
edge-IsSymmetric (suc zero) w a = let m = Arc-count edge 1 w [] refl a in absurd (omega (arith, m))
edge-IsSymmetric (suc (suc zero)) w a =
    let m = Arc-count edge 2 w (0 ∷ []) refl a in
    let is_zero : 0 ≡ w = ground (arith, m) in rw (← is_zero) (2 ∷ [], refl, omega arith)
edge-IsSymmetric (suc (suc (suc v))) w (ss, e, m) = cc

components :
    symm_seq list_bits edge ≡ some (record { num_components = 2; components = 0 ∷ 1 ∷ 0 ∷ [] })
unfolding symm_seq visit callback
components = refl

symm_seq_lem_example :
    (s : Sccs) × ((symm_seq list_bits edge ≡ some s)
      × (length s.components ≡ 3)
      × ((v : ℕ) → v < 3 → (c : ℕ) × (get_elem? s.components v ≡ some c) × (c < s.num_components))
      × ((c : ℕ) → c < s.num_components → (v : ℕ) × (get_elem? s.components v ≡ some c))
      × ((u v : ℕ)
          → u < 3
          → v < 3
          → ((get_elem? s.components u ≡ get_elem? s.components v) ↔ Reach edge u v)))
symm_seq_lem_example = symm_seq_lem list_bits edge edge-IsGraph edge-IsSymmetric
