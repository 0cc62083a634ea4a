-- ===== src/SymmSeq/Settled.antt =====
-- `symm_seq` on a symmetric graph: the visit from one root, which numbers one component.
use rbsc.Base.{
  ℕ, zero, suc, ◌+◌, ◌≤◌, ◌<◌, ◌≡◌, refl, ap, ◌∙◌, inl, inr, arith, Bool, true, false, Option, none,
  some, List, [], ◌∷◌, length, set, ◌==◌, if◌then◌else◌, Bool-cases,
}
use rbsc.DepthFirst.{Graph, visit_fuel}
use rbsc.DepthFirst.States.{NodeStates}
use rbsc.DepthFirst.Invariant.{IsGraph, mark, degree, node_cost-mark}
use rbsc.DepthFirst.Total.{node_cost_lt}
use rbsc.DepthFirst.Finish.{here}
use rbsc.SeqNoPred.{Loop, emit, push, step, recurse, start_root}
use rbsc.SymmSeq.{Labels, callback, no_filter}
use rbsc.SymmSeq.Invariant.{IsSymmetric, label, IsLabelled-enter, other_node}
use rbsc.SymmSeq.Rounds.{All-count, cost, IsRun, step-Round}

module _ (ns : NodeStates) (g : Graph) where
  -- What holds between two roots: every component that is numbered is complete, and not empty.
  pub record IsSettled (state : ns.States) (t : Labels) (k : ℕ → Bool) (lab root : ℕ → ℕ)
      : Type 0 where
    pub run : IsRun ns g state [] t k lab root
    pub strict : (v : ℕ) → k v ≡ true → lab v < t.number_of_components
    pub rooted : (j : ℕ) → j < t.number_of_components → (k (root j) ≡ true) × (lab (root j) ≡ j)

  pub record Finishes (k : ℕ → Bool) (r : Option (Loop ns Labels × Option ⊥)) : Type 0 where
    pub after : Loop ns Labels
    pub known_nodes : ℕ → Bool
    pub lab : ℕ → ℕ
    pub root : ℕ → ℕ
    pub eq : r ≡ some (after, none)
    pub empty : after.stack ≡ []
    pub settled : IsSettled after.state after.acc known_nodes lab root
    pub grows : (v : ℕ) → k v ≡ true → known_nodes v ≡ true

  -- The component is complete when the stack is empty.
  done-IsSettled :
      (state : ns.States) (t : Labels) (k : ℕ → Bool) (lab root : ℕ → ℕ)
      → IsRun ns g state [] t k lab root
      → ((j : ℕ) → j ≤ t.number_of_components → (k (root j) ≡ true) × (lab (root j) ≡ j))
      → IsSettled state (record t { number_of_components = t.number_of_components + 1 }) k lab root
  done-IsSettled state t k lab root i rooted = record {
    run = record {
      fits = i.fits;
      known = i.known;
      labelled = record {
        size = i.labelled.size;
        inside = i.labelled.inside;
        filled = i.labelled.filled;
        below = λ v e. omega (arith, i.labelled.below v e);
        linked = i.labelled.linked;
        arcs = λ v w e a. elim (i.labelled.arcs v w e a) [
          | inl known ↦ inl known
          | inr p ↦ absurd p.1
        ];
        from = λ w p. absurd p;
      };
    };
    strict = λ v e. omega (arith, i.labelled.below v e);
    rooted = λ j h. rooted j (omega arith);
  }

  recurse-done :
      (fuel r : ℕ) (state : ns.States) (t : Labels)
      → recurse ns g callback no_filter (suc fuel) r (record { state = state; stack = []; acc = t })
        ≡ some (
          record {
            state = state;
            stack = [];
            acc = record t { number_of_components = t.number_of_components + 1 };
          },
          none,
        )
  unfolding recurse step emit callback
  recurse-done fuel r state t = refl

  module _ (h : IsGraph g) (sy : IsSymmetric g) where
    recurse-Finishes :
        (fuel r : ℕ) (state : ns.States) (stack : List (List ℕ)) (t : Labels) (k : ℕ → Bool)
        (lab root : ℕ → ℕ)
        → IsRun ns g state stack t k lab root
        → ((j : ℕ) → j ≤ t.number_of_components → (k (root j) ≡ true) × (lab (root j) ≡ j))
        → cost g stack k < fuel
        → Finishes k (
            recurse ns g callback no_filter fuel r
              (record { state = state; stack = stack; acc = t }))
    unfolding recurse
    recurse-Finishes zero r state stack t k lab root i rooted c = absurd (omega (arith, c))
    recurse-Finishes (suc fuel) r state [] t k lab root i rooted c = record {
      after = record {
        state = state;
        stack = [];
        acc = record t { number_of_components = t.number_of_components + 1 };
      };
      known_nodes = k;
      lab = lab;
      root = root;
      eq = recurse-done fuel r state t;
      empty = refl;
      settled = done-IsSettled state t k lab root i rooted;
      grows = λ v e. e;
    }
    recurse-Finishes (suc fuel) r state (iter ∷ below) t k lab root i rooted c =
        let q = step-Round ns g h sy r state iter below t k lab root i in
        let a = q.after in
        let rest =
          recurse-Finishes fuel r a.state a.stack a.acc q.known_nodes q.lab root q.run
            (λ j b.
              let (known, l) = rooted j (omega (arith, q.number)) in
              let (known', l') = q.grows (root j) known in (known', l' ∙ l))
            (omega (arith, c, q.cheaper)) in
        record {
          after = rest.after;
          known_nodes = rest.known_nodes;
          lab = rest.lab;
          root = rest.root;
          eq = rw q.eq rest.eq;
          empty = rest.empty;
          settled = rest.settled;
          grows = λ v e. rest.grows v (q.grows v e).0;
        }

    pub start_root-Finishes :
        (r : ℕ) (state : ns.States) (t : Labels) (k : ℕ → Bool) (lab root : ℕ → ℕ)
        → r < g.num_nodes
        → k r ≡ false
        → IsSettled state t k lab root
        → Finishes
            (mark r k)
            (start_root ns g callback no_filter r (record { state = state; stack = []; acc = t }))
    unfolding start_root emit push callback
    start_root-Finishes r state t k lab root b e i =
        let (state', marked, fits, new) = ns.set_known_lem g.num_nodes state r i.run.fits b in
        let (ss, f, nodes) = h r b in
        let costs : degree g r ≡ length ss =
          ap length (ap (λ o. elim o [ none ↦ [] | some x ↦ x ]) f) in
        let c = t.number_of_components in
        let root' : ℕ → ℕ = λ j. if c == j then r else root j in
        let self : (c == c) ≡ true = ground arith in
        let is_r : root' c ≡ r = rw self refl in
        let entered =
          IsLabelled-enter g i.run.labelled r e ss [] root' b f
            (λ w m. All-count g.num_nodes w ss nodes m) (λ w p. absurd p) (λ w p. p)
            (λ x kx.
              let other : (c == lab x) ≡ false = ground (arith, i.strict x kx) in rw other refl)
            (rw is_r here) in
        let less : cost g (ss ∷ []) (mark r k) < visit_fuel g g.num_nodes =
          omega
            (arith, costs, node_cost-mark g k r g.num_nodes b e, node_cost_lt g k g.num_nodes) in
        let rest =
          recurse-Finishes (visit_fuel g g.num_nodes) r state' (ss ∷ [])
            (record t { component = set t.component r (some c) }) (mark r k) (label r c lab) root'
            (record {
              fits = fits;
              known = λ w hw. ground (arith, new w hw, i.run.known w hw);
              labelled = entered;
            })
            (λ j l. elim (Bool-cases (c == j)) [
              | inl this ↦
                  let is_self : (r == r) ≡ true = ground arith in
                  (rw (this, is_self) refl, rw (this, is_self) (ground arith))
              | inr other ↦
                  let (known, l') = i.rooted j (ground (arith, other)) in
                  let other_r = other_node g i.run.labelled r e (root j) known in
                  (rw (other, other_r, known) refl, rw (other, other_r) l')
            ])
            less in
        record {
          after = rest.after;
          known_nodes = rest.known_nodes;
          lab = rest.lab;
          root = rest.root;
          eq = rw (marked, emit, i.run.labelled.filled r b, push, f) rest.eq;
          empty = rest.empty;
          settled = rest.settled;
          grows = rest.grows;
        }
