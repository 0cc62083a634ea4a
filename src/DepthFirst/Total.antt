-- ===== src/DepthFirst/Total.antt =====
-- A visit of the whole graph, with a filter that lets every node pass and a callback that never breaks:
-- it returns, and finishes each node once.
use rbsc.Base.{
  ℕ, zero, suc, ◌+◌, ◌<◌, ◌≡◌, refl, ap, ◌∙◌, inl, inr, arith, Bool, true, false, Option, none,
  some, List, [], ◌∷◌, length, ◌==◌, Bool-cases, range, ltb, if◌then◌else◌,
}
use rbsc.DepthFirst.{
  Graph, Frame, FilterArgs, Event, Loop, emit, enter, step, recurse, visit_fuel, visit_root,
  visit_roots, visit,
}
use rbsc.DepthFirst.States.{NodeStates}
use rbsc.DepthFirst.Invariant.{
  count, IsGraph, mark, degree, node_cost, node_cost-mark, IsVisit, new-IsVisit,
}
use rbsc.DepthFirst.Kept.{IsVisit-root}
use rbsc.DepthFirst.Finish.{Follows}
use rbsc.DepthFirst.Rounds.{cost, step-Round}

-- The visit of some roots returns.
pub record Returns (ns : NodeStates) (g : Graph) {T E : Type 0} (P : List ℕ → T → Type 0)
    (k : ℕ → Bool) (r : Option (Loop ns T × Option E)) : Type 0 where
  pub after : Loop ns T
  pub finished_nodes : List ℕ
  pub known_nodes : ℕ → Bool
  pub eq : r ≡ some (after, none)
  pub empty : after.stack ≡ []
  pub visit : IsVisit ns g after.state [] after.curr finished_nodes known_nodes
  pub follows : P finished_nodes after.acc
  pub grows : (v : ℕ) → k v ≡ true → known_nodes v ≡ true

-- The fuel is enough.
pub node_cost_lt : (g : Graph) (k : ℕ → Bool) (n : ℕ) → node_cost g k n < visit_fuel g n
unfolding visit_fuel
node_cost_lt g k zero = omega arith
node_cost_lt g k (suc n) = elim (Bool-cases (k n)) [
  | inl e ↦ rw e (omega (arith, node_cost_lt g k n))
  | inr e ↦ rw e (omega (arith, node_cost_lt g k n))
]

module _ (ns : NodeStates) (g : Graph) {T E : Type 0} (callback : T → Event → Option (T × Option E))
    (filter : T → FilterArgs → T × Bool) {P : List ℕ → T → Type 0} (h : IsGraph g)
    (f : Follows g callback P) (pass : (t : T) (a : FilterArgs) → filter t a ≡ (t, true)) where
  recurse-Returns :
      (fuel root : ℕ) (state : ns.States) (stack : List Frame) (curr : ℕ) (t : T) (l : List ℕ)
      (k : ℕ → Bool)
      → IsVisit ns g state stack curr l k
      → P l t
      → cost g stack k < fuel
      → Returns ns g P k (
          recurse ns g callback filter fuel root
            (record { state = state; stack = stack; curr = curr; acc = t }))
  unfolding recurse
  recurse-Returns zero root state stack curr t l k i p c = absurd (omega (arith, c))
  recurse-Returns (suc fuel) root state [] curr t l k i p c =
      let (t', et, q) = f.on_done l t root p in
      record {
        after = record { state = state; stack = []; curr = curr; acc = t' };
        finished_nodes = l;
        known_nodes = k;
        eq = rw (step, emit, et) refl;
        empty = refl;
        visit = i;
        follows = q;
        grows = λ v e. e;
      }
  recurse-Returns (suc fuel) root state ((iter, parent) ∷ below) curr t l k i p c =
      let r =
        step-Round ns g callback filter h f pass root parent iter below
          (record { state = state; stack = (iter, parent) ∷ below; curr = curr; acc = t }) l k i
          p in
      let a = r.after in
      let rest =
        recurse-Returns fuel root a.state a.stack a.curr a.acc r.finished_nodes r.known_nodes
          r.visit r.follows (omega (arith, c, r.cheaper)) in
      record {
        after = rest.after;
        finished_nodes = rest.finished_nodes;
        known_nodes = rest.known_nodes;
        eq = rw r.eq rest.eq;
        empty = rest.empty;
        visit = rest.visit;
        follows = rest.follows;
        grows = λ v e. rest.grows v (r.grows v e);
      }

  -- A root is known afterwards.
  visit_root-Returns :
      (root : ℕ) (state : ns.States) (curr : ℕ) (t : T) (l : List ℕ) (k : ℕ → Bool)
      → root < g.num_nodes
      → IsVisit ns g state [] curr l k
      → P l t
      → Returns ns g P (mark root k) (
          visit_root ns g callback filter root
            (record { state = state; stack = []; curr = curr; acc = t }))
  unfolding visit_root
  visit_root-Returns root state curr t l k b i p = elim (Bool-cases (k root)) [
    | inl e ↦
        let known : ns.known state root ≡ some true = i.known root b ∙ ap some e in
        record {
          after = record { state = state; stack = []; curr = curr; acc = t };
          finished_nodes = l;
          known_nodes = k;
          eq = rw known refl;
          empty = refl;
          visit = i;
          follows = p;
          grows = λ v m. elim (Bool-cases (root == v)) [
            | inl here ↦ let same : root ≡ v = ground arith in rw same at e
            | inr other ↦ rw other at m
          ];
        }
    | inr e ↦
        let known : ns.known state root ≡ some false = i.known root b ∙ ap some e in
        let (t1, e1, p1) = f.on_init l t root p in
        let (s1, es1, fits1, new1) = ns.set_known_lem g.num_nodes state root i.fits b in
        let (t2, e2, p2) = f.on_previsit l t1 root root root 0 p1 in
        let (ss, ess, below_n) = h root b in
        let (s2, es2, fits2, same2) = ns.set_on_stack_lem g.num_nodes s1 root fits1 b in
        let costs : degree g root ≡ length ss =
          ap length (ap (λ o. elim o [ none ↦ [] | some x ↦ x ]) ess) in
        let less : cost g ((ss, root) ∷ []) (mark root k) < visit_fuel g g.num_nodes =
          omega
            (arith, costs, node_cost-mark g k root g.num_nodes b e, node_cost_lt g k g.num_nodes) in
        let i' =
          IsVisit-root ns g root ss s2 ess fits2 below_n (λ w hw. same2 w hw ∙ new1 w hw) curr e b
            i in
        let rest =
          recurse-Returns (visit_fuel g g.num_nodes) root s2 ((ss, root) ∷ []) root t2 l
            (mark root k) i' p2 less in
        record {
          after = rest.after;
          finished_nodes = rest.finished_nodes;
          known_nodes = rest.known_nodes;
          eq =
              rw
                (
                  known,
                  pass t (record { node = root; pred = root; root = root; depth = 0 }),
                  emit,
                  e1,
                  es1,
                  e2,
                  enter,
                  ess,
                  es2,
                )
                rest.eq;
          empty = rest.empty;
          visit = rest.visit;
          follows = rest.follows;
          grows = rest.grows;
        }
  ]

  -- The roots are the nodes from `root` on, and those before it are known.
  visit_roots-Returns :
      (n root : ℕ) (state : ns.States) (curr : ℕ) (t : T) (l : List ℕ) (k : ℕ → Bool)
      → root + n ≡ g.num_nodes
      → ((v : ℕ) → v < root → k v ≡ true)
      → IsVisit ns g state [] curr l k
      → P l t
      → (r : Returns ns g P k (
          visit_roots ns g callback filter
            (range root n)
            (record { state = state; stack = []; curr = curr; acc = t })))
        × ((v : ℕ) → v < g.num_nodes → r.known_nodes v ≡ true)
  unfolding visit_roots
  visit_roots-Returns zero root state curr t l k e seen i p = (
    record {
      after = record { state = state; stack = []; curr = curr; acc = t };
      finished_nodes = l;
      known_nodes = k;
      eq = refl;
      empty = refl;
      visit = i;
      follows = p;
      grows = λ v m. m;
    },
    λ v b. seen v (omega arith),
  )
  visit_roots-Returns (suc n) root state curr t l k e seen i p =
      let r = visit_root-Returns root state curr t l k (omega arith) i p in
      let a = r.after in
      let (rest, all) =
        visit_roots-Returns n (suc root) a.state a.curr a.acc r.finished_nodes r.known_nodes
          (omega arith)
          (λ v b. elim (Bool-cases (root == v)) [
            | inl here ↦ r.grows v (rw here refl)
            | inr other ↦ r.grows v (rw other (seen v (ground arith)))
          ])
          r.visit r.follows in
      let same : r.after ≡ record { state = a.state; stack = []; curr = a.curr; acc = a.acc } =
        ap (λ (s : List Frame). record { state = a.state; stack = s; curr = a.curr; acc = a.acc })
          r.empty in
      (
        record {
          after = rest.after;
          finished_nodes = rest.finished_nodes;
          known_nodes = rest.known_nodes;
          eq = rw (r.eq, same) rest.eq;
          empty = rest.empty;
          visit = rest.visit;
          follows = rest.follows;
          grows = λ v m. rest.grows v (r.grows v (ground (arith, m)));
        },
        all,
      )

  -- On a graph whose successors are nodes, and with a filter that lets every node pass, a callback that
  -- fits `Follows` keeps the visit of all the nodes from ever failing: it returns, its stack is empty, it
  -- has finished each node exactly once, and what `Follows` keeps holds of the finished nodes and of the
  -- value of the callback.
  pub visit-Follows :
      (t : T)
      → P [] t
      → (l : Loop ns T) × (order : List ℕ) × (visit ns g callback filter (range 0 g.num_nodes) t
          ≡ some (l, none))
        × (l.stack ≡ [])
        × ((v : ℕ) → count v order ≡ (if ltb v g.num_nodes then 1 else 0))
        × P order l.acc
  unfolding visit
  visit-Follows t p =
      let (r, all) =
        visit_roots-Returns g.num_nodes 0 (ns.new g.num_nodes) 0 t [] (λ v. false) (omega arith)
          (λ v b. absurd (omega arith)) (new-IsVisit ns g) p in
      (
        r.after,
        r.finished_nodes,
        r.eq,
        r.empty,
        λ v. elim (Bool-cases (ltb v g.num_nodes)) [
          | inl b ↦
              let held = r.visit.held v in
              let known = all v (ground arith) in rw b (ground (arith, held, known))
          | inr b ↦
              let held = r.visit.held v in
              rw b (elim (Bool-cases (r.known_nodes v)) [
                | inl known ↦
                    let inside = r.visit.inside v known in absurd (ground (arith, b, inside))
                | inr new ↦ ground (arith, held, new)
              ])
        ],
        r.follows,
      )
