-- ===== src/SymmSeq/Rounds.antt =====
-- The rounds of the visit with the callback of `symm_seq`: none panics, and each leaves less to do.
use rbsc.Base.{
  ℕ, ◌+◌, ◌<◌, ◌≡◌, refl, ap, subst, ◌∙◌, inl, inr, arith, Bool, true, false, Option, none, some,
  List, [], ◌∷◌, length, All, set, ◌==◌, Bool-cases,
}
use rbsc.DepthFirst.{Graph}
use rbsc.DepthFirst.States.{NodeStates}
use rbsc.DepthFirst.Invariant.{count, IsGraph, mark, degree, node_cost, node_cost-mark}
use rbsc.DepthFirst.Finish.{Reach, onward}
use rbsc.SeqNoPred.{Loop, Status, going, emit, push, discover, see, step}
use rbsc.SymmSeq.{Labels, callback, no_filter}
use rbsc.SymmSeq.Invariant.{
  IsSymmetric, label, IsLabelled, IsLabelled-revisit, IsLabelled-pop, IsLabelled-enter, other_node,
}

abbrev pub stack_cost : List (List ℕ) → ℕ
stack_cost [] = 0
stack_cost (iter ∷ below) = length iter + 1 + stack_cost below

-- The rounds that are left: for what the stack holds, and for the nodes that are not known.
abbrev pub cost : Graph → List (List ℕ) → (ℕ → Bool) → ℕ
cost g stack k = stack_cost stack + node_cost g k g.num_nodes

pub All-count : (n w : ℕ) (xs : List ℕ) → All (λ x. x < n) xs → 0 < count w xs → w < n
All-count n w [] a h = absurd (omega arith)
All-count n w (x ∷ xs) a h = elim (Bool-cases (x == w)) [
  | inl e ↦ ground arith
  | inr e ↦ All-count n w xs a.1 (ground (arith, e, h))
]

module _ (ns : NodeStates) (g : Graph) where
  -- A state of the visit, with what the component numbers satisfy.
  pub record IsRun (state : ns.States) (stack : List (List ℕ)) (t : Labels) (k : ℕ → Bool)
      (lab root : ℕ → ℕ) : Type 0 where
    pub fits : ns.Fits g.num_nodes state
    pub known : (v : ℕ) → v < g.num_nodes → ns.known state v ≡ some (k v)
    pub labelled : IsLabelled g t.component t.number_of_components stack k lab root

  -- The visit goes on after a round, which keeps the numbers of the nodes that were known.
  pub record Round (stack : List (List ℕ)) (t : Labels) (k : ℕ → Bool) (old root : ℕ → ℕ)
      (r : Option (Loop ns Labels × Status ⊥)) : Type 0 where
    pub after : Loop ns Labels
    pub known_nodes : ℕ → Bool
    pub lab : ℕ → ℕ
    pub eq : r ≡ some (after, going)
    pub run : IsRun after.state after.stack after.acc known_nodes lab root
    pub number : after.acc.number_of_components ≡ t.number_of_components
    pub grows : (v : ℕ) → k v ≡ true → (known_nodes v ≡ true) × (lab v ≡ old v)
    pub cheaper : cost g after.stack known_nodes < cost g stack k

  module _ (h : IsGraph g) (sy : IsSymmetric g) (r : ℕ) where
    pop-Round :
        (state : ns.States) (below : List (List ℕ)) (t : Labels) (k : ℕ → Bool) (lab root : ℕ → ℕ)
        → IsRun state ([] ∷ below) t k lab root
        → Round ([] ∷ below) t k lab root (
            step ns g callback no_filter r
              (record { state = state; stack = [] ∷ below; acc = t })
              ([] ∷ below))
    unfolding step
    pop-Round state below t k lab root i = record {
      after = record { state = state; stack = below; acc = t };
      known_nodes = k;
      lab = lab;
      eq = refl;
      run = record {
        fits = i.fits;
        known = i.known;
        labelled = IsLabelled-pop g sy below i.labelled;
      };
      number = refl;
      grows = λ v e. (e, refl);
      cheaper = omega arith;
    }

    revisit-Round :
        (state : ns.States) (succ : ℕ) (iter : List ℕ) (below : List (List ℕ)) (t : Labels)
        (k : ℕ → Bool) (lab root : ℕ → ℕ)
        → k succ ≡ true
        → succ < g.num_nodes
        → IsRun state ((succ ∷ iter) ∷ below) t k lab root
        → Round ((succ ∷ iter) ∷ below) t k lab root (
            step ns g callback no_filter r
              (record { state = state; stack = (succ ∷ iter) ∷ below; acc = t })
              ((succ ∷ iter) ∷ below))
    unfolding step see emit callback
    revisit-Round state succ iter below t k lab root e b i =
        let known : ns.known state succ ≡ some true = i.known succ b ∙ ap some e in
        record {
          after = record { state = state; stack = iter ∷ below; acc = t };
          known_nodes = k;
          lab = lab;
          eq = rw known refl;
          run = record {
            fits = i.fits;
            known = i.known;
            labelled = IsLabelled-revisit g sy succ iter below e i.labelled;
          };
          number = refl;
          grows = λ v e'. (e', refl);
          cheaper = omega arith;
        }

    discover-Round :
        (state : ns.States) (succ : ℕ) (iter : List ℕ) (below : List (List ℕ)) (t : Labels)
        (k : ℕ → Bool) (lab root : ℕ → ℕ)
        → k succ ≡ false
        → succ < g.num_nodes
        → IsRun state ((succ ∷ iter) ∷ below) t k lab root
        → Round ((succ ∷ iter) ∷ below) t k lab root (
            step ns g callback no_filter r
              (record { state = state; stack = (succ ∷ iter) ∷ below; acc = t })
              ((succ ∷ iter) ∷ below))
    unfolding step see discover emit push callback
    discover-Round state succ iter below t k lab root e b i =
        let known : ns.known state succ ≡ some false = i.known succ b ∙ ap some e in
        let (state', marked, fits, new) = ns.set_known_lem g.num_nodes state succ i.fits b in
        let (ss, f, nodes) = h succ b in
        let costs : degree g succ ≡ length ss =
          ap length (ap (λ o. elim o [ none ↦ [] | some x ↦ x ]) f) in
        let self : (succ == succ) ≡ true = ground arith in
        let (_, v, kv, lv, a) = i.labelled.from succ (inl (ground (arith, self))) in
        let c = t.number_of_components in
        record {
          after = record {
            state = state';
            stack = ss ∷ iter ∷ below;
            acc = record t { component = set t.component succ (some c) };
          };
          known_nodes = mark succ k;
          lab = label succ c lab;
          eq = rw (known, marked, i.labelled.filled succ b, f) refl;
          run = record {
            fits = fits;
            known = λ w hw. ground (arith, new w hw, i.known w hw);
            labelled =
                IsLabelled-enter g i.labelled succ e ss (iter ∷ below) root b f
                  (λ w m. All-count g.num_nodes w ss nodes m)
                  (λ w p. elim p [
                    | inl m ↦ elim (Bool-cases (succ == w)) [
                      | inl this ↦ inl (ground arith)
                      | inr other ↦ inr (inl (ground (arith, other, m)))
                    ]
                    | inr later ↦ inr (inr later)
                  ])
                  (λ w p. elim p [ inl m ↦ inl (omega arith) | inr later ↦ inr later ])
                  (λ x kx. refl)
                  (onward (subst (λ n. Reach g (root n) v) lv (i.labelled.linked v kv)) a);
          };
          number = refl;
          grows = λ w kw.
              let other = other_node g i.labelled succ e w kw in
              (rw (other, kw) refl, rw other refl);
          cheaper = omega (arith, costs, node_cost-mark g k succ g.num_nodes b e);
        }

    pub step-Round :
        (state : ns.States) (iter : List ℕ) (below : List (List ℕ)) (t : Labels) (k : ℕ → Bool)
        (lab root : ℕ → ℕ)
        → IsRun state (iter ∷ below) t k lab root
        → Round (iter ∷ below) t k lab root (
            step ns g callback no_filter r
              (record { state = state; stack = iter ∷ below; acc = t })
              (iter ∷ below))
    step-Round state [] below t k lab root i = pop-Round state below t k lab root i
    step-Round state (succ ∷ iter) below t k lab root i =
        let self : (succ == succ) ≡ true = ground arith in
        let (b, _, _, _, _) = i.labelled.from succ (inl (ground (arith, self))) in
        elim (Bool-cases (k succ)) [
          | inl e ↦ revisit-Round state succ iter below t k lab root e b i
          | inr e ↦ discover-Round state succ iter below t k lab root e b i
        ]
