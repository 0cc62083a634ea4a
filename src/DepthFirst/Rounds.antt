-- ===== src/DepthFirst/Rounds.antt =====
-- The rounds of a visit whose callback never breaks and whose filter lets every node pass.
use rbsc.Base.{
  ℕ, suc, ◌+◌, ◌<◌, ◌≡◌, refl, ap, ◌∙◌, ◌⊎◌, inl, inr, arith, Bool, true, false, Option, none, some,
  List, [], ◌∷◌, length, ◌==◌, Bool-cases,
}
use rbsc.DepthFirst.{
  Graph, Frame, FilterArgs, Event, Loop, Status, going, emit, enter, discover, see, leave, step,
}
use rbsc.DepthFirst.States.{NodeStates}
use rbsc.DepthFirst.Invariant.{
  count, IsGraph, path, mark, stack_cost, degree, node_cost, node_cost-mark, IsVisit,
}
use rbsc.DepthFirst.Kept.{IsVisit-revisit, IsVisit-leave, curr_inside, IsVisit-discover}
use rbsc.DepthFirst.Distinct.{length_lt}
use rbsc.DepthFirst.Finish.{Arc, Reach, path-Reach, Follows}

abbrev pub cost : Graph → List Frame → (ℕ → Bool) → ℕ
cost g stack k = stack_cost g stack + node_cost g k g.num_nodes

module _ (ns : NodeStates) (g : Graph) {T E : Type 0} (P : List ℕ → T → Type 0) where
  -- The visit goes on after a round, with less left to do.
  pub record Round (stack : List Frame) (k : ℕ → Bool) (r : Option (Loop ns T × Status E))
      : Type 0 where
    pub after : Loop ns T
    pub finished_nodes : List ℕ
    pub known_nodes : ℕ → Bool
    pub eq : r ≡ some (after, going)
    pub visit : IsVisit ns g after.state after.stack after.curr finished_nodes known_nodes
    pub follows : P finished_nodes after.acc
    pub grows : (v : ℕ) → k v ≡ true → known_nodes v ≡ true
    pub cheaper : cost g after.stack known_nodes < cost g stack k

-- What is finished when the current node is.
module _ (ns : NodeStates) (g : Graph) {state : ns.States} {curr parent : ℕ} {below : List Frame}
    {finished : List ℕ} {k : ℕ → Bool} (h : IsGraph g)
    (i : IsVisit ns g state (([], parent) ∷ below) curr finished k) where
  finished_lt : length finished < g.num_nodes
  finished_lt =
      let (b, k_curr) = curr_inside ns g [] i in
      let self : (curr == curr) ≡ true = ground arith in
      let one : count curr (path (([], parent) ∷ below) curr) + count curr finished ≡ 1 =
        rw k_curr at (i.held curr) in
      length_lt g.num_nodes curr finished
        (λ w. elim (Bool-cases (k w)) [
          | inl e ↦ let both = i.held w in ground (arith, both, e)
          | inr e ↦ let both = i.held w in ground (arith, both, e)
        ])
        (λ w p. elim (Bool-cases (k w)) [
          | inl e ↦ i.inside w e
          | inr e ↦ let both = i.held w in absurd (ground (arith, both, e, p))
        ])
        b (ground (arith, self, one))

  finished_late : (w : ℕ) → Arc g curr w → (0 < count w finished) ⊎ Reach g w curr
  finished_late w (ss, e, m) = elim ((i.frames.1 ss w e).1 m) [
    | inl there ↦ absurd (omega (arith, there))
    | inr seen ↦
        let both : count w (path (([], parent) ∷ below) curr) + count w finished ≡ 1 =
          rw seen at (i.held w) in
        elim (Bool-cases (count w finished == 0)) [
          | inl c ↦ inr (
              path-Reach g (([], parent) ∷ below) curr w h
                (λ v p. elim (Bool-cases (k v)) [
                  | inl kv ↦ i.inside v kv
                  | inr kv ↦ let b = i.held v in absurd (ground (arith, b, kv, p))
                ])
                i.arcs (ground (arith, both, c)))
          | inr c ↦ inl (ground (arith, c))
        ]
  ]

module _ (ns : NodeStates) (g : Graph) {T E : Type 0} (callback : T → Event → Option (T × Option E))
    (filter : T → FilterArgs → T × Bool) {P : List ℕ → T → Type 0} (h : IsGraph g)
    (f : Follows g callback P) (pass : (t : T) (a : FilterArgs) → filter t a ≡ (t, true)) where
  leave-Round :
      (root parent : ℕ) (below : List Frame) (l : Loop ns T) (finished : List ℕ) (k : ℕ → Bool)
      → IsVisit ns g l.state (([], parent) ∷ below) l.curr finished k
      → P finished l.acc
      → Round ns g P (([], parent) ∷ below) k (leave ns g callback filter root parent below l)
  unfolding leave emit
  leave-Round root parent below l finished k i p =
      let (b, _) = curr_inside ns g [] i in
      let (t, et, q) =
        f.on_postvisit finished l.acc l.curr parent root (length below) (finished_lt ns g h i)
          (finished_late ns g h i) p in
      let (s, es, fits, same) = ns.set_off_stack_lem g.num_nodes l.state l.curr i.fits b in
      record {
        after = record { state = s; stack = below; curr = parent; acc = t };
        finished_nodes = l.curr ∷ finished;
        known_nodes = k;
        eq = rw (leave, emit, et, es) refl;
        visit = IsVisit-leave ns g s fits same i;
        follows = q;
        grows = λ v e. e;
        cheaper = omega arith;
      }

  revisit-Round :
      (root succ parent : ℕ) (iter : List ℕ) (below : List Frame) (l : Loop ns T)
      (finished : List ℕ) (k : ℕ → Bool)
      → IsVisit ns g l.state ((succ ∷ iter, parent) ∷ below) l.curr finished k
      → P finished l.acc
      → k succ ≡ true
      → Round ns g P
          ((succ ∷ iter, parent) ∷ below)
          k
          (see ns g callback filter root succ (record l { stack = (iter, parent) ∷ below }))
  unfolding see emit
  revisit-Round root succ parent iter below l finished k i p e =
      let (b, eb) = ns.on_stack-Fits g.num_nodes l.state succ i.fits i.frames.0.0 in
      let (t, et, q) = f.on_revisit finished l.acc succ l.curr root (suc (length below)) b p in
      let known : ns.known l.state succ ≡ some true = i.known succ i.frames.0.0 ∙ ap some e in
      record {
        after = record { state = l.state; stack = (iter, parent) ∷ below; curr = l.curr; acc = t };
        finished_nodes = finished;
        known_nodes = k;
        eq = rw (known, eb, emit, et) refl;
        visit = IsVisit-revisit ns g succ iter e i;
        follows = q;
        grows = λ v e'. e';
        cheaper = omega arith;
      }

  discover-Round :
      (root succ parent : ℕ) (iter : List ℕ) (below : List Frame) (l : Loop ns T)
      (finished : List ℕ) (k : ℕ → Bool)
      → IsVisit ns g l.state ((succ ∷ iter, parent) ∷ below) l.curr finished k
      → P finished l.acc
      → k succ ≡ false
      → Round ns g P
          ((succ ∷ iter, parent) ∷ below)
          k
          (see ns g callback filter root succ (record l { stack = (iter, parent) ∷ below }))
  unfolding see discover emit enter
  discover-Round root succ parent iter below l finished k i p e =
      let b = i.frames.0.0 in
      let (t, et, q) = f.on_previsit finished l.acc succ l.curr root (suc (length below)) p in
      let known : ns.known l.state succ ≡ some false = i.known succ b ∙ ap some e in
      let (s1, es1, fits1, new1) = ns.set_known_lem g.num_nodes l.state succ i.fits b in
      let (s2, es2, fits2, same2) = ns.set_on_stack_lem g.num_nodes s1 succ fits1 b in
      let (ss, ess, below_n) = h succ b in
      let costs : degree g succ ≡ length ss =
        ap length (ap (λ o. elim o [ none ↦ [] | some l ↦ l ]) ess) in
      record {
        after = record {
          state = s2;
          stack = (ss, l.curr) ∷ (iter, parent) ∷ below;
          curr = succ;
          acc = t;
        };
        finished_nodes = finished;
        known_nodes = mark succ k;
        eq =
            rw
              (
                known,
                pass l.acc (record {
                  node = succ;
                  pred = l.curr;
                  root = root;
                  depth = suc (length below);
                }),
                es1,
                emit,
                et,
                ess,
                es2,
              )
              refl;
        visit =
            IsVisit-discover ns g succ ss s2 ess fits2 below_n (λ w hw. same2 w hw ∙ new1 w hw) iter
              parent l.curr below e i;
        follows = q;
        grows = λ v e'. ground (arith, e');
        cheaper = omega (arith, costs, node_cost-mark g k succ g.num_nodes b e);
      }

  pub step-Round :
      (root parent : ℕ) (iter : List ℕ) (below : List Frame) (l : Loop ns T) (finished : List ℕ)
      (k : ℕ → Bool)
      → IsVisit ns g l.state ((iter, parent) ∷ below) l.curr finished k
      → P finished l.acc
      → Round ns g P
          ((iter, parent) ∷ below)
          k
          (step ns g callback filter root l ((iter, parent) ∷ below))
  unfolding step
  step-Round root parent [] below l finished k i p = leave-Round root parent below l finished k i p
  step-Round root parent (succ ∷ iter) below l finished k i p = elim (Bool-cases (k succ)) [
    | inl e ↦ revisit-Round root succ parent iter below l finished k i p e
    | inr e ↦ discover-Round root succ parent iter below l finished k i p e
  ]
