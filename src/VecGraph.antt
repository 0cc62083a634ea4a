-- ===== src/VecGraph.antt =====
-- webgraph-rs/webgraph/src/graphs/vec_graph.rs: the mutable graph that keeps a vector of successors, with
-- their labels, for each node.
--
-- `none` is a panic. A lender is the list of what it lends. The order of `sort_by_key` is stable.
pub mod Content
pub mod Insert
pub mod FromArcs
pub mod Repeated
pub mod Lent
use rbsc.Base.{
  ℕ, zero, suc, ◌+◌, ◌-◌, ◌%◌, ◌^◌, Bool, true, false, Option, none, some, List, [], ◌∷◌, ◌++◌,
  length, replicate, get_elem?, set, ltb, leb, if◌then◌else◌, ◌>>=◌,
}
use Prim.Native.Nat.{max}

abbrev pub last : {A : Type 0} → List A → Option A
last [] = none
last (x ∷ []) = some x
last (x ∷ y ∷ ys) = last (y ∷ ys)

-- `sort_by_key`, for the order of the keys.
abbrev pub insert_by : {A : Type 0} → (A → A → Bool) → A → List A → List A
insert_by le x [] = x ∷ []
insert_by le x (y ∷ ys) = if le x y then x ∷ y ∷ ys else y ∷ insert_by le x ys

abbrev pub sort_by : {A : Type 0} → (A → A → Bool) → List A → List A
sort_by le [] = []
sort_by le (x ∷ xs) = insert_by le x (sort_by le xs)

-- `number_of_arcs` and `succ`
pub record LabeledVecGraph (L : Type 0) : Type 0 where
  pub number_of_arcs : ℕ
  pub succ : List (List (ℕ × L))

-- `(usize, usize, L)`
abbrev pub Triple : Type 0 → Type 0
Triple L = ℕ × ℕ × L

module _ {L : Type 0} where
  unfoldable pub empty : ℕ → LabeledVecGraph L
  empty n = record { number_of_arcs = 0; succ = replicate n [] }

  unfoldable pub new : LabeledVecGraph L
  new = record { number_of_arcs = 0; succ = [] }

  -- The graph after the call, and what it returns.
  unfoldable pub add_node : ℕ → LabeledVecGraph L → LabeledVecGraph L × Bool
  add_node node g =
      let len = length g.succ in
      (record g { succ = g.succ ++ replicate (node + 1 - len) [] }, leb len node)

  unfoldable pub push : ℕ → List (ℕ × L) → ℕ → L → LabeledVecGraph L → LabeledVecGraph L
  push u ss v l g = record {
    number_of_arcs = (g.number_of_arcs + 1) % 2 ^ 64;
    succ = set g.succ u (ss ++ (v, l) ∷ []);
  }

  unfoldable pub add_arc : ℕ → ℕ → L → LabeledVecGraph L → Option (LabeledVecGraph L)
  unfolding push
  add_arc u v l g =
      if leb (length g.succ) (max u v)
      then none
      else get_elem? g.succ u >>= λ ss. elim (last ss) [
        | none ↦ some (push u ss v l g)
        | some (w, label) ↦ if leb v w then none else some (push u ss v l g)
      ]

  -- `for (v, l) in arcs.drain(..) { self.add_arc(node, v, l) }`
  unfoldable pub add_arcs_of : ℕ → List (ℕ × L) → LabeledVecGraph L → Option (LabeledVecGraph L)
  unfolding add_arc
  add_arcs_of node [] g = some g
  add_arcs_of node ((v, l) ∷ arcs) g = add_arc node v l g >>= add_arcs_of node arcs

  unfoldable pub add_nodes_of : List (ℕ × L) → LabeledVecGraph L → LabeledVecGraph L
  unfolding add_node
  add_nodes_of [] g = g
  add_nodes_of ((v, l) ∷ succ) g = add_nodes_of succ (add_node v g).0

  abbrev successor_le : ℕ × L → ℕ × L → Bool
  successor_le (v, l) (w, m) = leb v w

  unfoldable pub add_lender :
      List (ℕ × List (ℕ × L)) → LabeledVecGraph L → Option (LabeledVecGraph L)
  unfolding add_node add_arcs_of add_nodes_of
  add_lender [] g = some g
  add_lender ((node, succ) ∷ items) g =
      add_arcs_of node (sort_by successor_le succ) (add_nodes_of succ (add_node node g).0)
      >>= add_lender items

  unfoldable pub from_lender : List (ℕ × List (ℕ × L)) → Option (LabeledVecGraph L)
  unfolding add_lender new
  from_lender items = add_lender items new

  unfoldable pub add_sorted_arcs : ℕ → List (ℕ × L) → LabeledVecGraph L → Option (LabeledVecGraph L)
  unfolding add_node add_arc
  add_sorted_arcs node [] g = some g
  add_sorted_arcs node ((v, l) ∷ succ) g =
      add_arc node v l (add_node v g).0 >>= add_sorted_arcs node succ

  unfoldable pub add_sorted_lender :
      List (ℕ × List (ℕ × L)) → LabeledVecGraph L → Option (LabeledVecGraph L)
  unfolding add_sorted_arcs
  add_sorted_lender [] g = some g
  add_sorted_lender ((node, succ) ∷ items) g =
      add_sorted_arcs node succ (add_node node g).0 >>= add_sorted_lender items

  unfoldable pub from_sorted_lender : List (ℕ × List (ℕ × L)) → Option (LabeledVecGraph L)
  unfolding add_sorted_lender new
  from_sorted_lender items = add_sorted_lender items new

  -- The order of pairs `(x.0, x.1)`.
  abbrev pub arc_le : Triple L → Triple L → Bool
  arc_le (u, v, l) (u', v', l') = if ltb u u' then true else if ltb u' u then false else leb v v'

  unfoldable pub add_sorted : List (Triple L) → LabeledVecGraph L → Option (LabeledVecGraph L)
  unfolding add_node add_arc
  add_sorted [] g = some g
  add_sorted ((u, v, l) ∷ arcs) g =
      add_arc u v l (add_node v (add_node u g).0).0 >>= add_sorted arcs

  unfoldable pub add_arcs : List (Triple L) → LabeledVecGraph L → Option (LabeledVecGraph L)
  unfolding add_sorted
  add_arcs arcs g = add_sorted (sort_by arc_le arcs) g

  unfoldable pub from_arcs : List (Triple L) → Option (LabeledVecGraph L)
  unfolding add_arcs new
  from_arcs arcs = add_arcs arcs new

  unfoldable pub outdegree : LabeledVecGraph L → ℕ → Option ℕ
  outdegree g node = get_elem? g.succ node >>= λ ss. some (length ss)

  unfoldable pub labels : LabeledVecGraph L → ℕ → Option (List (ℕ × L))
  labels g node = get_elem? g.succ node
