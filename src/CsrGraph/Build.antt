-- ===== src/CsrGraph/Build.antt =====
-- The graph that is built from the nodes that a sequential graph lends, and the graph of a list of
-- successor lists.
use rbsc.Base.{
  ℕ, zero, suc, ◌+◌, ◌-◌, ◌≤◌, ◌<◌, ◌≡◌, refl, sym, ap, ◌∙◌, arith, List, [], ◌∷◌, ◌++◌, append-nil,
  append_assoc, length, length-append, All, ◌==◌, if◌then◌else◌, true, false,
}
use rbsc.CsrGraph.{
  CsrGraph, from_parts, NodeLabels, Builder, close_node, close_nodes, add_successors, add_nodes,
  finish, from_seq_graph,
}

abbrev pub concat : List (List ℕ) → List ℕ
concat [] = []
concat (l ∷ ls) = l ++ concat ls

-- Where the lists end, the first of them starting at `offset`.
abbrev pub ends : ℕ → List (List ℕ) → List ℕ
ends offset [] = []
ends offset (l ∷ ls) = (offset + length l) ∷ ends (offset + length l) ls

-- The graph with the given successor lists.
abbrev pub of_lists : List (List ℕ) → CsrGraph
of_lists lists = record { dcf = 0 ∷ ends 0 lists; successors = concat lists }

-- The nodes from `low` on, in order.
abbrev pub InOrder : ℕ → List NodeLabels → Type 0
InOrder low [] = Unit
InOrder low ((src, succ) ∷ items) = (low ≤ src) × InOrder src items

abbrev pub Below : ℕ → List NodeLabels → Type 0
Below n items = All (λ i. i.0 < n) items

-- The successors that are lent for a node, and those of the `n` nodes from `node` on.
abbrev pub lent_for : ℕ → List NodeLabels → List ℕ
lent_for node [] = []
lent_for node ((src, succ) ∷ items) =
    if src == node then succ ++ lent_for node items else lent_for node items

abbrev pub lent_lists : ℕ → ℕ → List NodeLabels → List (List ℕ)
lent_lists zero node items = []
lent_lists (suc n) node items = lent_for node items ∷ lent_lists n (suc node) items

concat-append : (xs ys : List (List ℕ)) → concat (xs ++ ys) ≡ concat xs ++ concat ys
concat-append [] ys = refl
concat-append (x ∷ xs) ys =
    ap (λ l. x ++ l) (concat-append xs ys) ∙ sym (append_assoc x (concat xs) (concat ys))

ends-append :
    (offset : ℕ) (xs : List (List ℕ)) (l : List ℕ)
    → ends offset (xs ++ l ∷ []) ≡ ends offset xs ++ (offset + length (concat xs ++ l)) ∷ []
ends-append offset [] l = refl
ends-append offset (x ∷ xs) l = ap (◌∷◌ (offset + length x)) (
    ends-append (offset + length x) xs l
    ∙ ap (λ n. ends (offset + length x) xs ++ n ∷ [])
        (omega (
          arith,
          length-append (concat xs) l,
          length-append (x ++ concat xs) l,
          length-append x (concat xs),
        )))

lent_for-nil :
    (node low : ℕ) (items : List NodeLabels)
    → node < low
    → InOrder low items
    → lent_for node items ≡ []
lent_for-nil node low [] h o = refl
lent_for-nil node low ((src, succ) ∷ items) h o =
    let other : (src == node) ≡ false = ground (arith, o.0) in
    rw other (lent_for-nil node src items (omega (arith, o.0)) o.1)

pub lent_lists-cons :
    (n node src : ℕ) (succ : List ℕ) (items : List NodeLabels)
    → src < node
    → lent_lists n node ((src, succ) ∷ items) ≡ lent_lists n node items
lent_lists-cons zero node src succ items h = refl
lent_lists-cons (suc n) node src succ items h =
    let other : (src == node) ≡ false = ground arith in
    rw other
      (ap (◌∷◌ (lent_for node items)) (lent_lists-cons n (suc node) src succ items (omega arith)))

-- The state with the lists of the nodes that are complete, and what there is of the next one.
abbrev pub builder_of : List (List ℕ) → List ℕ → Builder
builder_of done partial = record {
  dcf = 0 ∷ ends 0 done;
  successors = concat done ++ partial;
  last_src = length done;
}

close_node-builder_of :
    (done : List (List ℕ)) (partial : List ℕ)
    → close_node (builder_of done partial) ≡ builder_of (done ++ partial ∷ []) []
close_node-builder_of done partial =
    let shift : 0 + length (concat done ++ partial) ≡ length (concat done ++ partial) =
      omega arith in
    rw
      (
        ends-append 0 done partial,
        shift,
        concat-append done (partial ∷ []),
        append-nil partial,
        append-nil (concat done ++ partial),
        length-append done (partial ∷ []),
      )
      refl

close_nodes-zero : (b : Builder) → close_nodes 0 b ≡ b
unfolding close_nodes
close_nodes-zero b = refl

close_nodes-suc :
    (rounds : ℕ) (done : List (List ℕ)) (partial : List ℕ)
    → close_nodes (suc rounds) (builder_of done partial)
      ≡ close_nodes rounds (builder_of (done ++ partial ∷ []) [])
unfolding close_nodes
close_nodes-suc rounds done partial = ap (close_nodes rounds) (close_node-builder_of done partial)

-- The lists from the node that is not complete on, once `items` are added too.
abbrev pub all_lists : ℕ → ℕ → List (List ℕ) → List ℕ → List NodeLabels → List (List ℕ)
all_lists n node done partial items =
    done ++ (partial ++ lent_for node items) ∷ lent_lists n (suc node) items

-- That `items` are added as they should be, whatever was added before; `n` nodes follow the current
-- one.
abbrev pub AddsAll : List NodeLabels → Type 0
AddsAll items =
    (n node total : ℕ) (done : List (List ℕ)) (partial : List ℕ)
    → length done ≡ node
    → total ≡ node + suc n
    → InOrder node items
    → Below total items
    → finish total (add_nodes items (builder_of done partial))
      ≡ of_lists (all_lists n node done partial items)

close_nodes-all :
    (n node : ℕ) (done : List (List ℕ)) (partial : List ℕ)
    → (let b = close_nodes (suc n) (builder_of done partial) in from_parts b.dcf b.successors)
      ≡ of_lists (done ++ partial ∷ lent_lists n node [])
close_nodes-all zero node done partial =
    rw (close_nodes-suc, close_nodes-zero, append-nil (concat (done ++ partial ∷ []))) refl
close_nodes-all (suc n) node done partial = rw close_nodes-suc (
    close_nodes-all n (suc node) (done ++ partial ∷ []) []
    ∙ ap of_lists (append_assoc done (partial ∷ []) ([] ∷ lent_lists n (suc node) [])))

finish-closed :
    (n node total : ℕ) (done : List (List ℕ)) (partial : List ℕ)
    → length done ≡ node
    → total ≡ node + suc n
    → finish total (builder_of done partial) ≡ of_lists (all_lists n node done partial [])
unfolding finish
finish-closed n node total done partial d t =
    let rounds : total - length done ≡ suc n = omega arith in
    rw (rounds, append-nil partial) (close_nodes-all n (suc node) done partial)

InOrder-le :
    (low low' : ℕ) (items : List NodeLabels) → low ≤ low' → InOrder low' items → InOrder low items
InOrder-le low low' [] h o = tt
InOrder-le low low' (i ∷ items) h o = (omega (arith, o.0), o.1)

add_first :
    (items : List NodeLabels)
    → AddsAll items
    → (gap n node total src : ℕ) (succ : List ℕ) (done : List (List ℕ)) (partial : List ℕ)
    → length done ≡ node
    → total ≡ node + suc n
    → src ≡ node + gap
    → InOrder src items
    → Below total ((src, succ) ∷ items)
    → finish total
        (add_nodes items (add_successors succ (close_nodes gap (builder_of done partial))))
      ≡ of_lists (all_lists n node done partial ((src, succ) ∷ items))
add_first items h zero n node total src succ done partial d t e o b =
    let here : (src == node) ≡ true = ground arith in
    rw
      (
        close_nodes-zero,
        here,
        lent_lists-cons n (suc node) src succ items (omega arith),
        append_assoc (concat done) partial succ,
        ← append_assoc partial succ (lent_for node items),
      )
      (h n node total done (partial ++ succ) d t (InOrder-le node src items (omega arith) o) b.1)
add_first items h (suc gap) zero node total src succ done partial d t e o b =
    absurd (omega (arith, b.0))
add_first items h (suc gap) (suc n) node total src succ done partial d t e o b =
    let before : (src == node) ≡ false = ground arith in
    rw
      (
        close_nodes-suc,
        before,
        lent_for-nil node src items (omega arith) o,
        append-nil partial,
        ← append_assoc done (partial ∷ []) (lent_lists (suc n) (suc node) ((src, succ) ∷ items)),
      )
      (add_first items h gap n (suc node) total src succ (done ++ partial ∷ []) []
        (omega (arith, length-append done (partial ∷ []))) (omega arith) (omega arith) o b)

pub add_nodes-AddsAll : (items : List NodeLabels) → AddsAll items
unfolding add_nodes
add_nodes-AddsAll [] n node total done partial d t o b = finish-closed n node total done partial d t
add_nodes-AddsAll ((src, succ) ∷ items) n node total done partial d t o b =
    add_first items (add_nodes-AddsAll items) (src - length done) n node total src succ done partial
      d t (omega (arith, o.0)) o.1 b

-- On nodes lent in order below the number of nodes, each with any successors (a node may be left out,
-- or come more than once), `from_seq_graph` builds the graph of the lists that were lent.
pub from_seq_graph-eq-of_lists :
    (n : ℕ) (items : List NodeLabels)
    → InOrder 0 items
    → Below n items
    → from_seq_graph n items ≡ of_lists (lent_lists n 0 items)
unfolding from_seq_graph add_nodes finish close_nodes
from_seq_graph-eq-of_lists zero [] o b = refl
from_seq_graph-eq-of_lists zero (i ∷ items) o b = absurd (omega (arith, b.0))
from_seq_graph-eq-of_lists (suc n) items o b =
    add_nodes-AddsAll items n 0 (suc n) [] [] refl (omega arith) o b
