-- ===== src/Tests/Csr.antt =====
-- The theorems on `CsrGraph`, each at a graph of four nodes, one of which is not lent.
use rbsc.Base.{
  ℕ, ◌≤◌, ◌+◌, ◌≡◌, refl, arith, Option, some, none, List, [], ◌∷◌, length, get_elem?, drop, ◌>>=◌,
  leb, checked_sub, if◌then◌else◌,
}
use rbsc.CsrGraph.{
  SliceLibrary, NodeLabels, from_seq_graph, from_sorted_lender, labels, close_nodes, add_nodes,
  finish, iter_from,
}
use rbsc.CsrGraph.Build.{lent_lists}
use rbsc.CsrGraph.Sorted.{occurring, largest}
use rbsc.CsrGraph.Lender.{traverse, prefixes}
use rbsc.CsrGraph.Laws.{
  IsLent, labels-from_seq_graph, traverse-from_seq_graph, labels-from_sorted_lender,
}

abbrev vec_from : List ℕ → ℕ → Option (List ℕ)
vec_from xs i = if leb i (length xs) then some (drop i xs) else none

vec_from-le : (xs : List ℕ) (i : ℕ) → i ≤ length xs → vec_from xs i ≡ some (drop i xs)
vec_from-le xs i h = ground arith

-- The values of a vector.
abbrev vec : SliceLibrary
vec = record {
  index_value = get_elem?;
  iter_value_from = vec_from;
  index_value-lt = λ xs i h. refl;
  iter_value_from-le = vec_from-le;
}

abbrev lent : List NodeLabels
lent = (0, 1 ∷ 3 ∷ []) ∷ (2, 0 ∷ 1 ∷ 2 ∷ []) ∷ (3, 2 ∷ []) ∷ []

labels_run : labels vec (from_seq_graph 4 lent) 2 ≡ some (0 ∷ 1 ∷ 2 ∷ [])
unfolding labels from_seq_graph close_nodes add_nodes finish checked_sub
labels_run = refl

labels-from_seq_graph_example : IsLent vec (from_seq_graph 4 lent) 4 lent 2
labels-from_seq_graph_example =
    labels-from_seq_graph vec 4 lent (omega arith) (omega arith) 2 (omega arith)

traverse-from_seq_graph_example :
    (iter_from vec (from_seq_graph 4 lent) 1 >>= λ l. some (traverse (1 ∷ 2 ∷ 3 ∷ 1 ∷ []) l))
    ≡ some (prefixes 1 (1 ∷ 2 ∷ 3 ∷ 1 ∷ []) (lent_lists 3 1 lent))
traverse-from_seq_graph_example =
    traverse-from_seq_graph vec 4 lent (omega arith) (omega arith) 1 (1 ∷ 2 ∷ 3 ∷ 1 ∷ [])
      (omega arith)

-- Node 5 is a successor, and is not lent.
abbrev open_ended : List NodeLabels
open_ended = (0, 1 ∷ 5 ∷ []) ∷ (2, 1 ∷ []) ∷ []

labels-from_sorted_lender_example :
    IsLent vec (from_sorted_lender open_ended) (largest (occurring open_ended) + 1) open_ended 4
labels-from_sorted_lender_example =
    labels-from_sorted_lender vec open_ended 4 (omega arith) (omega arith)
