-- ===== src/Acyclicity/Rounds.antt =====
-- The rounds of the visit of `is_acyclic`: none panics, and each leaves less to do, or stops at a cycle.
use rbsc.Base.{
  ℕ, ◌+◌, ◌*◌, ◌<◌, ◌≡◌, refl, sym, ap, ◌∙◌, ◌⊎◌, inl, inr, arith, Bool, true, false, Option, none,
  some, List, [], ◌∷◌, length, ◌==◌, ltb, Bool-cases, if◌then◌else◌,
}
use mathlib.Core.Option.{some-injective}
use rbsc.DepthFirst.{
  Graph, Frame, Loop, Status, going, broke, emit, enter, discover, see, leave, step,
}
use rbsc.DepthFirst.States.{BitVec}
use rbsc.DepthFirst.Selectors.{three_states, set_known-path, set_path}
use rbsc.DepthFirst.Invariant.{count, IsGraph, path, mark, degree, node_cost-mark}
use rbsc.DepthFirst.Kept.{IsVisit-revisit, IsVisit-leave, curr_inside, IsVisit-discover}
use rbsc.DepthFirst.Finish.{Arc, path-Reach}
use rbsc.DepthFirst.Rounds.{cost}
use rbsc.Acyclicity.{StoppedWhenDone, stopped_when_done, callback, pass_all}
use rbsc.Acyclicity.Path.{Seen-more, IsPath, IsAcyclic}

module _ (bv : BitVec) (g : Graph) where
  abbrev pub State : Type 0
  State = Loop (three_states bv) (Unit {0})

  -- The visit goes on after a round.
  pub record Round (stack : List Frame) (k : ℕ → Bool) (r : Option (State × Status StoppedWhenDone))
      : Type 0 where
    pub after : State
    pub finished_nodes : List ℕ
    pub known_nodes : ℕ → Bool
    pub eq : r ≡ some (after, going)
    pub run : IsPath bv g after.state after.stack after.curr finished_nodes known_nodes
    pub grows : (v : ℕ) → k v ≡ true → known_nodes v ≡ true
    pub cheaper : cost g after.stack known_nodes < cost g stack k

  -- The round goes on, or the visit stops and the graph has a cycle.
  abbrev pub Outcome : List Frame → (ℕ → Bool) → Option (State × Status StoppedWhenDone) → Type 0
  Outcome stack k r =
      Round stack k r ⊎ ((l : State) × (r ≡ some (l, broke stopped_when_done)) × (IsAcyclic g → ⊥))

  module _ (h : IsGraph g) (root : ℕ) where
    -- A node that is left is on the path no more.
    leave-Round :
        (parent : ℕ) (below : List Frame) (state : bv.Bits) (curr : ℕ) (finished : List ℕ)
        (k : ℕ → Bool)
        → IsPath bv g state (([], parent) ∷ below) curr finished k
        → Round (([], parent) ∷ below) k (
            leave
              (three_states bv)
              g
              callback
              pass_all
              root
              parent
              below
              (record { state = state; stack = ([], parent) ∷ below; curr = curr; acc = tt }))
    unfolding leave emit callback
    leave-Round parent below state curr finished k i =
        let (b, known) = curr_inside (three_states bv) g [] i.visit in
        let (s, es, fits, same, bits) = set_path bv g.num_nodes state curr false i.visit.fits b in
        record {
          after = record { state = s; stack = below; curr = parent; acc = tt };
          finished_nodes = curr ∷ finished;
          known_nodes = k;
          eq = rw es refl;
          run = record {
            visit = IsVisit-leave (three_states bv) g s fits same i.visit;
            on_path = λ w hw. bits w hw ∙ elim (Bool-cases (curr == w)) [
              | inl e ↦
                  let held = i.visit.held w in
                  let none_left : ltb 0 (count w (path below parent)) ≡ false =
                    elim (Bool-cases (k w)) [
                      | inl kw ↦ ground (arith, held, kw, e)
                      | inr kw ↦ ground (arith, held, kw, e)
                    ] in
                  rw (e, none_left) refl
              | inr e ↦
                  let same_count : count w (path (([], parent) ∷ below) curr)
                      ≡ count w (path below parent) =
                    ground (arith, e) in
                  let old = i.on_path w hw in rw (e, old) (ap (λ c. some (ltb 0 c)) same_count)
            ];
            seen = i.seen.1;
            strict = (
              λ w a. elim (i.seen.0 w a) [ inl there ↦ absurd (omega (arith, there)) | inr m ↦ m ],
              i.strict,
            );
          };
          grows = λ v e. e;
          cheaper = omega arith;
        }

    -- An arc to a node that is known: it is on the path, or finished.
    revisit-Outcome :
        (succ parent : ℕ) (iter : List ℕ) (below : List Frame) (state : bv.Bits) (curr : ℕ)
        (finished : List ℕ) (k : ℕ → Bool)
        → IsPath bv g state ((succ ∷ iter, parent) ∷ below) curr finished k
        → k succ ≡ true
        → Outcome ((succ ∷ iter, parent) ∷ below) k (
            see
              (three_states bv)
              g
              callback
              pass_all
              root
              succ
              (record { state = state; stack = (iter, parent) ∷ below; curr = curr; acc = tt }))
    unfolding see emit callback
    revisit-Outcome succ parent iter below state curr finished k i e =
        let b = i.visit.frames.0.0 in
        let known : bv.get state (succ * 2) ≡ some true = i.visit.known succ b ∙ ap some e in
        let bit = i.on_path succ b in
        elim (Bool-cases (ltb 0 (count succ (path ((iter, parent) ∷ below) curr)))) [
          | inl on ↦
              let (b_curr, _) = curr_inside (three_states bv) g (succ ∷ iter) i.visit in
              let (ss, ess, _) = h curr b_curr in
              let arc : Arc g curr succ =
                (ss, ess, (i.visit.frames.1 ss succ ess).0 (ground arith)) in
              let back =
                path-Reach g ((succ ∷ iter, parent) ∷ below) curr succ h
                  (λ v p. elim (Bool-cases (k v)) [
                    | inl kv ↦ i.visit.inside v kv
                    | inr kv ↦ let held = i.visit.held v in absurd (ground (arith, held, kv, p))
                  ])
                  i.visit.arcs (ground (arith, on)) in
              inr (
                record { state = state; stack = (iter, parent) ∷ below; curr = curr; acc = tt },
                rw (known, bit, on, emit, callback) refl,
                λ acyclic. acyclic curr succ b_curr arc back,
              )
          | inr off ↦
              let held = i.visit.held succ in
              let done : 0 < count succ finished = ground (arith, held, off, e) in
              inl (record {
                after = record {
                  state = state;
                  stack = (iter, parent) ∷ below;
                  curr = curr;
                  acc = tt;
                };
                finished_nodes = finished;
                known_nodes = k;
                eq = rw (known, bit, off, emit, callback) refl;
                run = record {
                  visit = IsVisit-revisit (three_states bv) g succ iter e i.visit;
                  on_path = i.on_path;
                  seen = (
                    λ w a. elim (i.seen.0 w a) [
                      | inl there ↦ elim (Bool-cases (succ == w)) [
                        | inl here ↦ let same : succ ≡ w = ground arith in inr (rw (← same) done)
                        | inr other ↦ inl (ground (arith, there, other))
                      ]
                      | inr m ↦ inr m
                    ],
                    i.seen.1,
                  );
                  strict = i.strict;
                };
                grows = λ v e'. e';
                cheaper = omega arith;
              })
        ]

    -- An arc to a new node, which comes on the path.
    discover-Round :
        (succ parent : ℕ) (iter : List ℕ) (below : List Frame) (state : bv.Bits) (curr : ℕ)
        (finished : List ℕ) (k : ℕ → Bool)
        → IsPath bv g state ((succ ∷ iter, parent) ∷ below) curr finished k
        → k succ ≡ false
        → Round ((succ ∷ iter, parent) ∷ below) k (
            see
              (three_states bv)
              g
              callback
              pass_all
              root
              succ
              (record { state = state; stack = (iter, parent) ∷ below; curr = curr; acc = tt }))
    unfolding see discover emit enter callback
    discover-Round succ parent iter below state curr finished k i e =
        let b = i.visit.frames.0.0 in
        let known : bv.get state (succ * 2) ≡ some false = i.visit.known succ b ∙ ap some e in
        let (s1, es1, fits1, new1, bits1) =
          set_known-path bv g.num_nodes state succ i.visit.fits b in
        let (s2, es2, fits2, same2, bits2) = set_path bv g.num_nodes s1 succ true fits1 b in
        let (ss, ess, below_n) = h succ b in
        let costs : degree g succ ≡ length ss =
          ap length (ap (λ o. elim o [ none ↦ [] | some l ↦ l ]) ess) in
        record {
          after = record {
            state = s2;
            stack = (ss, curr) ∷ (iter, parent) ∷ below;
            curr = succ;
            acc = tt;
          };
          finished_nodes = finished;
          known_nodes = mark succ k;
          eq = rw (known, es1, emit, callback, ess, es2) refl;
          run = record {
            visit =
                IsVisit-discover (three_states bv) g succ ss s2 ess fits2 below_n
                  (λ w hw. same2 w hw ∙ new1 w hw) iter parent curr below e i.visit;
            on_path = λ w hw. bits2 w hw ∙ elim (Bool-cases (succ == w)) [
              | inl here ↦
                  let first : ltb 0 (count w (path ((ss, curr) ∷ (iter, parent) ∷ below) succ))
                      ≡ true =
                    ground (arith, here) in
                  ap (λ c. if c then some true else bv.get s1 (w * 2 + 1)) here
                  ∙ ap some (sym first)
              | inr other ↦
                  let same_count : count w (path ((iter, parent) ∷ below) curr)
                      ≡ count w (path ((ss, curr) ∷ (iter, parent) ∷ below) succ) =
                    ground (arith, other) in
                  let old = bits1 w hw ∙ i.on_path w hw in
                  ap (λ c. if c then some true else bv.get s1 (w * 2 + 1)) other
                  ∙ old
                  ∙ ap (λ c. some (ltb 0 c)) same_count
            ];
            seen = (
              λ w (ss', e', m).
                  let same : ss' ≡ ss = some-injective ss' ss (sym e' ∙ ess) in inl (rw same at m),
              (
                λ w a. elim (i.seen.0 w a) [
                  | inl there ↦ elim (Bool-cases (succ == w)) [
                    | inl here ↦ inr (ground (arith, here))
                    | inr other ↦ inl (ground (arith, there, other))
                  ]
                  | inr m ↦ inr (ground (arith, m))
                ],
                Seen-more g (curr ∷ finished) (curr ∷ succ ∷ finished) below parent
                    (λ w m. ground (arith, m)) i.seen.1,
              ),
            );
            strict = i.strict;
          };
          grows = λ v e'. ground (arith, e');
          cheaper = omega (arith, costs, node_cost-mark g k succ g.num_nodes b e);
        }

    pub step-Outcome :
        (parent : ℕ) (iter : List ℕ) (below : List Frame) (state : bv.Bits) (curr : ℕ)
        (finished : List ℕ) (k : ℕ → Bool)
        → IsPath bv g state ((iter, parent) ∷ below) curr finished k
        → Outcome ((iter, parent) ∷ below) k (
            step
              (three_states bv)
              g
              callback
              pass_all
              root
              (record { state = state; stack = (iter, parent) ∷ below; curr = curr; acc = tt })
              ((iter, parent) ∷ below))
    unfolding step
    step-Outcome parent [] below state curr finished k i =
        inl (leave-Round parent below state curr finished k i)
    step-Outcome parent (succ ∷ iter) below state curr finished k i = elim (Bool-cases (k succ)) [
      | inl e ↦ revisit-Outcome succ parent iter below state curr finished k i e
      | inr e ↦ inl (discover-Round succ parent iter below state curr finished k i e)
    ]
