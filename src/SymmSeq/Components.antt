-- ===== src/SymmSeq/Components.antt =====
-- `symm_seq` on a symmetric graph: the numbers that it returns are those of the connected components.
use rbsc.Base.{
  ℕ, zero, suc, ◌<◌, ◌≡◌, ◌↔◌, refl, sym, ap, ◌∙◌, inl, inr, arith, Bool, true, false, replicate,
  Option, none, some, List, [], ◌∷◌, length, get_elem?,
}
use mathlib.Core.Option.{some-injective}
use rbsc.DepthFirst.{Graph}
use rbsc.DepthFirst.States.{BitVec}
use rbsc.DepthFirst.Selectors.{two_states}
use rbsc.DepthFirst.Invariant.{IsGraph}
use rbsc.DepthFirst.Finish.{Reach, here, onward}
use rbsc.SeqNoPred.{visit}
use rbsc.SymmSeq.{assume_init, symm_seq}
use rbsc.SymmSeq.Invariant.{IsSymmetric, IsLabelled, Reach-both}
use rbsc.SymmSeq.Total.{visit_roots-Finishes, new-IsSettled}
use rbsc.Sccs.{Sccs}

-- Every entry is written.
assume_init_lem :
    (xs : List (Option ℕ)) (n : ℕ) (lab : ℕ → ℕ)
    → length xs ≡ n
    → ((v : ℕ) → v < n → get_elem? xs v ≡ some (some (lab v)))
    → (cs : List ℕ) × (assume_init xs ≡ some cs)
      × (length cs ≡ n)
      × ((v : ℕ) → v < n → get_elem? cs v ≡ some (lab v))
unfolding assume_init
assume_init_lem [] n lab e h = ([], refl, e, λ v b. absurd (omega arith))
assume_init_lem (none ∷ xs) n lab e h = cc (h 0 (omega arith))
assume_init_lem (some c ∷ xs) zero lab e h = absurd (omega arith)
assume_init_lem (some c ∷ xs) (suc n) lab e h =
    let (cs, f, l, holds) =
      assume_init_lem xs n (λ v. lab (suc v)) (omega arith) (λ v b. h (suc v) (omega arith)) in
    let first : c ≡ lab 0 = cc (h 0 (omega arith)) in
    (c ∷ cs, rw f refl, omega (arith, l), entries cs first holds)
  where
    entries :
        (cs : List ℕ)
        → c ≡ lab 0
        → ((v : ℕ) → v < n → get_elem? cs v ≡ some (lab (suc v)))
        → (v : ℕ) → v < suc n
        → get_elem? (c ∷ cs) v ≡ some (lab v)
    entries cs first holds zero b = ap some first
    entries cs first holds (suc v) b = holds v (omega arith)

-- A path stays in its component.
Reach-label :
    (g : Graph) {component : List (Option ℕ)} {c : ℕ} {k : ℕ → Bool} {lab root : ℕ → ℕ}
    → IsLabelled g component c [] k lab root
    → {u v : ℕ} → Reach g u v
    → k u ≡ true
    → (k v ≡ true) × (lab u ≡ lab v)
Reach-label g i here e = (e, refl)
Reach-label g i (onward {v} {w} r a) e =
    let (known, same) = Reach-label g i r e in
    elim (i.arcs v w known a) [ inl (known', l) ↦ (known', same ∙ sym l) | inr p ↦ absurd p.1 ]

module _ (bv : BitVec) (g : Graph) (h : IsGraph g) (sy : IsSymmetric g) where
  -- On a graph whose successors are nodes and whose arcs go both ways, `symm_seq` returns without a
  -- panic and reads no entry that it has not written: each node gets a number below the number of
  -- components, each such number is that of some node, and two nodes have the same number exactly
  -- when a path leads from one to the other.
  pub symm_seq_lem :
      (s : Sccs) × ((symm_seq bv g ≡ some s)
        × (length s.components ≡ g.num_nodes)
        × ((v : ℕ)
            → v < g.num_nodes
            → (c : ℕ) × (get_elem? s.components v ≡ some c) × (c < s.num_components))
        × ((c : ℕ) → c < s.num_components → (v : ℕ) × (get_elem? s.components v ≡ some c))
        × ((u v : ℕ)
            → u < g.num_nodes
            → v < g.num_nodes
            → ((get_elem? s.components u ≡ get_elem? s.components v) ↔ Reach g u v)))
  unfolding symm_seq visit
  symm_seq_lem =
      let (q, all) =
        visit_roots-Finishes (two_states bv) g h sy g.num_nodes 0 ((two_states bv).new g.num_nodes)
          (record { component = replicate g.num_nodes none; number_of_components = 0 }) (λ v. false)
          (λ v. 0) (λ j. 0) (omega arith) (λ v b. absurd (omega arith))
          (new-IsSettled (two_states bv) g h sy) in
      let l = q.settled.run.labelled in
      let (cs, initialised, size, numbers) =
        assume_init_lem q.after.acc.component g.num_nodes q.lab l.size
          (λ v b. rw (l.filled v b, all v b) refl) in
      (
        record { num_components = q.after.acc.number_of_components; components = cs },
        (
          rw (q.eq, initialised) refl,
          size,
          λ v b. (q.lab v, numbers v b, q.settled.strict v (all v b)),
          λ c b.
              let (known, has) = q.settled.rooted c b in
              (q.root c, numbers (q.root c) (l.inside (q.root c) known) ∙ ap some has),
          λ u v bu bv. (
            λ e.
                let same : q.lab u ≡ q.lab v =
                  some-injective (q.lab u) (q.lab v) (sym (numbers u bu) ∙ e ∙ numbers v bv) in
                Reach-both sy (l.linked u (all u bu)) (rw same (l.linked v (all v bv))),
            λ r. numbers u bu ∙ ap some (Reach-label g l r (all u bu)).1 ∙ sym (numbers v bv),
          ),
        ),
      )
