-- ===== src/CsrGraph/Laws.antt =====
-- What a user of `CsrGraph` relies on.
use rbsc.Base.{
  ℕ, zero, suc, ◌+◌, ◌-◌, ◌≤◌, ◌<◌, ◌≡◌, refl, ap, ◌∙◌, arith, some, List, [], ◌∷◌, ◌++◌, length,
  length-append, get_elem?, drop, ◌>>=◌, ◌==◌, Bool-cases, inl, inr,
}
use rbsc.CsrGraph.{
  SliceLibrary, CsrGraph, NodeLabels, from_seq_graph, from_sorted_lender, num_nodes, num_arcs,
  outdegree, labels, iter_from,
}
use rbsc.CsrGraph.Build.{
  concat, InOrder, Below, lent_for, lent_lists, lent_lists-cons, from_seq_graph-eq-of_lists,
  of_lists,
}
use rbsc.CsrGraph.Sorted.{occurring, largest, largest-Below, from_sorted_lender-eq-of_lists}
use rbsc.CsrGraph.Access.{length-ends, outdegree-of_lists, labels-of_lists}
use rbsc.CsrGraph.Lender.{traverse, prefixes, traverse-of_lists}

get_elem?-lent_lists :
    (n node v : ℕ) (items : List NodeLabels)
    → v < n
    → get_elem? (lent_lists n node items) v ≡ some (lent_for (node + v) items)
get_elem?-lent_lists zero node v items h = absurd (omega arith)
get_elem?-lent_lists (suc n) node zero items h =
    ap (λ (k : ℕ). some (lent_for k items)) (omega arith)
get_elem?-lent_lists (suc n) node (suc v) items h =
    get_elem?-lent_lists n (suc node) v items (omega arith)
    ∙ ap (λ (k : ℕ). some (lent_for k items)) (omega arith)

length-lent_lists : (n node : ℕ) (items : List NodeLabels) → length (lent_lists n node items) ≡ n
length-lent_lists zero node items = refl
length-lent_lists (suc n) node items = ap suc (length-lent_lists n (suc node) items)

drop-lent_lists :
    (from n node : ℕ) (items : List NodeLabels)
    → from ≤ n
    → drop from (lent_lists n node items) ≡ lent_lists (n - from) (node + from) items
drop-lent_lists zero n node items h =
    let e : n - 0 ≡ n = omega arith in let z : node + 0 ≡ node = omega arith in rw (e, z) refl
drop-lent_lists (suc from) zero node items h = absurd (omega arith)
drop-lent_lists (suc from) (suc n) node items h =
    let e : suc n - suc from ≡ n - from = omega arith in
    let z : node + suc from ≡ suc node + from = omega arith in
    rw (e, z) (drop-lent_lists from n (suc node) items (omega arith))

-- The number of successors that are lent.
abbrev pub arcs_lent : List NodeLabels → ℕ
arcs_lent [] = 0
arcs_lent ((src, succ) ∷ items) = length succ + arcs_lent items

arcs_cons :
    (n node src : ℕ) (succ : List ℕ) (items : List NodeLabels)
    → node ≤ src
    → src < node + n
    → length (concat (lent_lists n node ((src, succ) ∷ items)))
      ≡ length succ + length (concat (lent_lists n node items))
arcs_cons zero node src succ items h k = absurd (omega arith)
arcs_cons (suc n) node src succ items h k = elim (Bool-cases (src == node)) [
  | inl e ↦
      let here : src < suc node = ground arith in
      let later = concat (lent_lists n (suc node) items) in
      rw (e, lent_lists-cons n (suc node) src succ items here)
        (omega (
          arith,
          length-append (succ ++ lent_for node items) later,
          length-append succ (lent_for node items),
          length-append (lent_for node items) later,
        ))
  | inr e ↦
      let other : node < src = ground arith in
      let later = concat (lent_lists n (suc node) items) in
      rw e (
        omega (
          arith,
          length-append (lent_for node items)
              (concat (lent_lists n (suc node) ((src, succ) ∷ items))),
          length-append (lent_for node items) later,
          arcs_cons n (suc node) src succ items other (omega arith),
        ))
]

arcs_nil : (n node : ℕ) → length (concat (lent_lists n node [])) ≡ 0
arcs_nil zero node = refl
arcs_nil (suc n) node = arcs_nil n (suc node)

arcs_all :
    (n : ℕ) (items : List NodeLabels)
    → Below n items
    → length (concat (lent_lists n 0 items)) ≡ arcs_lent items
arcs_all n [] b = arcs_nil n 0
arcs_all n ((src, succ) ∷ items) b =
    omega
      (arith, arcs_cons n 0 src succ items (omega arith) (omega (arith, b.0)), arcs_all n items b.1)

-- The graph `g` has `n` nodes, as many arcs as successors were lent, and for `node` the successors
-- that were lent for it.
abbrev pub IsLent : SliceLibrary → CsrGraph → ℕ → List NodeLabels → ℕ → Type 0
IsLent lib g n items node =
    (num_nodes g ≡ n)
    × (num_arcs g ≡ arcs_lent items)
    × (outdegree lib g node ≡ some (length (lent_for node items)))
    × (labels lib g node ≡ some (lent_for node items))

of_lists-IsLent :
    (lib : SliceLibrary) (n : ℕ) (items : List NodeLabels) (node : ℕ)
    → Below n items
    → node < n
    → IsLent lib (of_lists (lent_lists n 0 items)) n items node
unfolding num_nodes num_arcs
of_lists-IsLent lib n items node b h =
    let lists = lent_lists n 0 items in
    let at_node : get_elem? lists node ≡ some (lent_for node items) =
      get_elem?-lent_lists n 0 node items h
      ∙ ap (λ (k : ℕ). some (lent_for k items)) (omega arith) in
    (
      omega (arith, length-ends 0 lists, length-lent_lists n 0 items),
      arcs_all n items b,
      outdegree-of_lists lib lists node (lent_for node items) at_node,
      labels-of_lists lib lists node (lent_for node items) at_node,
    )

module _ (lib : SliceLibrary) (n : ℕ) (items : List NodeLabels) (o : InOrder 0 items)
    (b : Below n items) where
  -- From nodes lent in order, all below the number of nodes, `from_seq_graph` builds a graph with that
  -- number of nodes and as many arcs as successors were lent, in which each node below that number has
  -- the successors lent for it, in order, and their number as outdegree: none if the node was left out.
  pub labels-from_seq_graph :
      (node : ℕ) → node < n → IsLent lib (from_seq_graph n items) n items node
  labels-from_seq_graph node h =
      rw (from_seq_graph-eq-of_lists n items o b) (of_lists-IsLent lib n items node b h)

  -- From such nodes, and from any node not above their number on, the lender of the graph lends the
  -- nodes in order, each with the successors lent for it, whatever number of successors its user takes
  -- of each node before the next: of each node the user gets so many of the first successors.
  pub traverse-from_seq_graph :
      (from : ℕ) (ks : List ℕ)
      → from ≤ n
      → (iter_from lib (from_seq_graph n items) from >>= λ l. some (traverse ks l))
        ≡ some (prefixes from ks (lent_lists (n - from) from items))
  traverse-from_seq_graph from ks h =
      let e : 0 + from ≡ from = omega arith in
      let lists = lent_lists n 0 items in
      rw (from_seq_graph-eq-of_lists n items o b) (
        traverse-of_lists lib lists from ks (omega (arith, length-lent_lists n 0 items))
        ∙ rw (drop-lent_lists from n 0 items h, e) refl)

-- From nodes lent in order, `from_sorted_lender` builds a graph whose number of nodes is 1 more than
-- the largest node that is lent or is a successor (1 if nothing is lent), which has as many arcs as
-- successors were lent, and in which each node below that number has the successors lent for it, in
-- order, and their number as outdegree.
pub labels-from_sorted_lender :
    (lib : SliceLibrary) (items : List NodeLabels) (node : ℕ)
    → InOrder 0 items
    → node < largest (occurring items) + 1
    → IsLent lib (from_sorted_lender items) (largest (occurring items) + 1) items node
labels-from_sorted_lender lib items node o h =
    rw (from_sorted_lender-eq-of_lists items o)
      (of_lists-IsLent lib (largest (occurring items) + 1) items node (largest-Below items) h)
