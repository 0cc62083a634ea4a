-- ===== src/Acyclicity/Total.antt =====
-- `is_acyclic` on a graph whose successors are nodes.
use rbsc.Base.{
  ℕ, zero, suc, ◌+◌, ◌*◌, ◌<◌, ◌≡◌, ◌↔◌, refl, sym, ap, ◌∙◌, ◌⊎◌, inl, inr, arith, Bool, true,
  false, Option, none, some, List, [], ◌∷◌, length, ◌==◌, Bool-cases, range,
}
use mathlib.Core.Option.{some-injective}
use rbsc.DepthFirst.{
  Graph, Frame, emit, enter, step, recurse, visit_fuel, visit_root, visit_roots, visit,
}
use rbsc.DepthFirst.States.{BitVec}
use rbsc.DepthFirst.Selectors.{three_states, set_known-path, set_path}
use rbsc.DepthFirst.Invariant.{IsGraph, mark, degree, node_cost-mark, new-IsVisit}
use rbsc.DepthFirst.Kept.{IsVisit-root}
use rbsc.DepthFirst.Rounds.{cost}
use rbsc.DepthFirst.Total.{node_cost_lt}
use rbsc.Acyclicity.{StoppedWhenDone, stopped_when_done, callback, pass_all, is_acyclic}
use rbsc.Acyclicity.Path.{IsPath, IsAcyclic, Strict-Acyclic}
use rbsc.Acyclicity.Rounds.{State, step-Outcome}

module _ (bv : BitVec) (g : Graph) where
  -- The visit of some roots returns.
  record Returns (k : ℕ → Bool) (r : Option (State bv g × Option StoppedWhenDone)) : Type 0 where
    state : bv.Bits
    curr : ℕ
    finished_nodes : List ℕ
    known_nodes : ℕ → Bool
    eq : r ≡ some (record { state = state; stack = []; curr = curr; acc = tt }, none)
    run : IsPath bv g state [] curr finished_nodes known_nodes
    grows : (v : ℕ) → k v ≡ true → known_nodes v ≡ true

  -- It returns, or stops at a cycle.
  abbrev Ends : (ℕ → Bool) → Option (State bv g × Option StoppedWhenDone) → Type 0
  Ends k r =
      Returns k r ⊎ ((l : State bv g) × (r ≡ some (l, some stopped_when_done)) × (IsAcyclic g → ⊥))

  recurse-done :
      (fuel root : ℕ) (state : bv.Bits) (curr : ℕ)
      → recurse
          (three_states bv)
          g
          callback
          pass_all
          (suc fuel)
          root
          (record { state = state; stack = []; curr = curr; acc = tt })
        ≡ some (record { state = state; stack = []; curr = curr; acc = tt }, none)
  unfolding recurse step emit callback
  recurse-done fuel root state curr = refl

  module _ (h : IsGraph g) where
    recurse-Ends :
        (fuel root : ℕ) (state : bv.Bits) (stack : List Frame) (curr : ℕ) (l : List ℕ)
        (k : ℕ → Bool)
        → IsPath bv g state stack curr l k
        → cost g stack k < fuel
        → Ends k (
            recurse
              (three_states bv)
              g
              callback
              pass_all
              fuel
              root
              (record { state = state; stack = stack; curr = curr; acc = tt }))
    unfolding recurse
    recurse-Ends zero root state stack curr l k i c = absurd (omega (arith, c))
    recurse-Ends (suc fuel) root state [] curr l k i c = inl (record {
      state = state;
      curr = curr;
      finished_nodes = l;
      known_nodes = k;
      eq = recurse-done fuel root state curr;
      run = i;
      grows = λ v e. e;
    })
    recurse-Ends (suc fuel) root state ((iter, parent) ∷ below) curr l k i c =
        elim (step-Outcome bv g h root parent iter below state curr l k i) [
          | inl r ↦
              let a = r.after in
              let rest =
                recurse-Ends fuel root a.state a.stack a.curr r.finished_nodes r.known_nodes r.run
                  (omega (arith, c, r.cheaper)) in
              elim rest [
                | inl q ↦ inl (record {
                  state = q.state;
                  curr = q.curr;
                  finished_nodes = q.finished_nodes;
                  known_nodes = q.known_nodes;
                  eq = rw r.eq q.eq;
                  run = q.run;
                  grows = λ v e. q.grows v (r.grows v e);
                })
                | inr (s, e, cycle) ↦ inr (s, rw r.eq e, cycle)
              ]
          | inr (s, e, cycle) ↦ inr (s, rw e refl, cycle)
        ]

    -- A root is known afterwards.
    visit_root-Ends :
        (root : ℕ) (state : bv.Bits) (curr : ℕ) (l : List ℕ) (k : ℕ → Bool)
        → root < g.num_nodes
        → IsPath bv g state [] curr l k
        → Ends (mark root k) (
            visit_root
              (three_states bv)
              g
              callback
              pass_all
              root
              (record { state = state; stack = []; curr = curr; acc = tt }))
    unfolding visit_root emit enter callback
    visit_root-Ends root state curr l k b i = elim (Bool-cases (k root)) [
      | inl e ↦
          let known : bv.get state (root * 2) ≡ some true = i.visit.known root b ∙ ap some e in
          inl (record {
            state = state;
            curr = curr;
            finished_nodes = l;
            known_nodes = k;
            eq = rw known refl;
            run = i;
            grows = λ v m. elim (Bool-cases (root == v)) [
              | inl here ↦ let same : root ≡ v = ground arith in rw same at e
              | inr other ↦ rw other at m
            ];
          })
      | inr e ↦
          let known : bv.get state (root * 2) ≡ some false = i.visit.known root b ∙ ap some e in
          let (s1, es1, fits1, new1, bits1) =
            set_known-path bv g.num_nodes state root i.visit.fits b in
          let (s2, es2, fits2, same2, bits2) = set_path bv g.num_nodes s1 root true fits1 b in
          let (ss, ess, below_n) = h root b in
          let costs : degree g root ≡ length ss =
            ap length (ap (λ o. elim o [ none ↦ [] | some x ↦ x ]) ess) in
          let less : cost g ((ss, root) ∷ []) (mark root k) < visit_fuel g g.num_nodes =
            omega (
              arith,
              costs,
              node_cost-mark g k root g.num_nodes b e,
              node_cost_lt g k g.num_nodes,
            ) in
          let start : IsPath bv g s2 ((ss, root) ∷ []) root l (mark root k) = record {
            visit =
                IsVisit-root (three_states bv) g root ss s2 ess fits2 below_n
                  (λ w hw. same2 w hw ∙ new1 w hw) curr e b i.visit;
            on_path = λ w hw.
                let old = bits1 w hw ∙ i.on_path w hw in
                bits2 w hw ∙ elim (Bool-cases (root == w)) [
                  | inl here ↦ rw here refl
                  | inr other ↦ rw (other, old) refl
                ];
            seen = (
              λ w (ss', e', m).
                  let same : ss' ≡ ss = some-injective ss' ss (sym e' ∙ ess) in inl (rw same at m),
              tt,
            );
            strict = i.strict;
          } in
          let rest =
            recurse-Ends (visit_fuel g g.num_nodes) root s2 ((ss, root) ∷ []) root l (mark root k)
              start less in
          elim rest [
            | inl q ↦ inl (record {
              state = q.state;
              curr = q.curr;
              finished_nodes = q.finished_nodes;
              known_nodes = q.known_nodes;
              eq = rw (known, es1, ess, es2) q.eq;
              run = q.run;
              grows = q.grows;
            })
            | inr (s, e', cycle) ↦ inr (s, rw (known, es1, ess, es2) e', cycle)
          ]
    ]

    -- The roots are the nodes from `root` on, and those before it are known.
    visit_roots-Ends :
        (n root : ℕ) (state : bv.Bits) (curr : ℕ) (l : List ℕ) (k : ℕ → Bool)
        → root + n ≡ g.num_nodes
        → ((v : ℕ) → v < root → k v ≡ true)
        → IsPath bv g state [] curr l k
        → ((r : Returns k (
              visit_roots
                (three_states bv)
                g
                callback
                pass_all
                (range root n)
                (record { state = state; stack = []; curr = curr; acc = tt })))
            × ((v : ℕ) → v < g.num_nodes → r.known_nodes v ≡ true))
          ⊎ ((s : State bv g) × (visit_roots
                  (three_states bv)
                  g
                  callback
                  pass_all
                  (range root n)
                  (record { state = state; stack = []; curr = curr; acc = tt })
                ≡ some (s, some stopped_when_done))
              × (IsAcyclic g → ⊥))
    unfolding visit_roots
    visit_roots-Ends zero root state curr l k e known i = inl (
      record {
        state = state;
        curr = curr;
        finished_nodes = l;
        known_nodes = k;
        eq = refl;
        run = i;
        grows = λ v m. m;
      },
      λ v b. known v (omega arith),
    )
    visit_roots-Ends (suc n) root state curr l k e known i =
        elim (visit_root-Ends root state curr l k (omega arith) i) [
          | inr (s, e', cycle) ↦ inr (s, rw e' refl, cycle)
          | inl r ↦
              let rest =
                visit_roots-Ends n (suc root) r.state r.curr r.finished_nodes r.known_nodes
                  (omega arith)
                  (λ v b. elim (Bool-cases (root == v)) [
                    | inl here ↦ r.grows v (rw here refl)
                    | inr other ↦ r.grows v (rw other (known v (ground arith)))
                  ])
                  r.run in
              elim rest [
                | inl (q, all) ↦ inl (
                  record {
                    state = q.state;
                    curr = q.curr;
                    finished_nodes = q.finished_nodes;
                    known_nodes = q.known_nodes;
                    eq = rw r.eq q.eq;
                    run = q.run;
                    grows = λ v m. q.grows v (r.grows v (ground (arith, m)));
                  },
                  all,
                )
                | inr (s, e', cycle) ↦ inr (s, rw r.eq e', cycle)
              ]
        ]

    new-IsPath : IsPath bv g (bv.new (2 * g.num_nodes)) [] 0 [] (λ v. false)
    new-IsPath = record {
      visit = new-IsVisit (three_states bv) g;
      on_path = λ v b. bv.get-new (2 * g.num_nodes) (v * 2 + 1) (omega arith);
      seen = tt;
      strict = tt;
    }

    -- On a graph whose successors are nodes, `is_acyclic` returns, without a panic, whether no arc from a
    -- node of it closes a cycle.
    pub is_acyclic_lem : (b : Bool) × (is_acyclic bv g ≡ some b) × ((b ≡ true) ↔ IsAcyclic g)
    unfolding is_acyclic visit
    is_acyclic_lem =
        elim (visit_roots-Ends g.num_nodes 0 (bv.new (2 * g.num_nodes)) 0 [] (λ v. false)
          (omega arith) (λ v b. absurd (omega arith)) new-IsPath) [
            | inl (q, all) ↦ (
              true,
              rw q.eq refl,
              (
                λ _ v w b a r.
                    let held = q.run.visit.held v in
                    let known = all v b in
                    Strict-Acyclic g q.finished_nodes q.run.strict (ground (arith, held, known)) a
                      r,
                λ _. refl,
              ),
            )
            | inr (s, e, cycle) ↦ (false, rw e refl, (λ t. cc, λ acyclic. absurd (cycle acyclic)))
          ]
