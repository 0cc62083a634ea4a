-- ===== src/DepthFirst/Kept.antt =====
-- Each kind of round of a visit keeps what holds before it.
use rbsc.Base.{
  ℕ, ◌+◌, ◌<◌, ◌≡◌, sym, ◌∙◌, ◌⊎◌, inl, inr, arith, Bool, true, false, some, List, [], ◌∷◌, All,
  ◌==◌, if◌then◌else◌, Bool-cases,
}
use mathlib.Core.Option.{some-injective}
use rbsc.DepthFirst.{Graph, Frame}
use rbsc.DepthFirst.States.{NodeStates}
use rbsc.DepthFirst.Invariant.{count, path, mark, Arcs, IsVisit, Frames-mark}

module _ (ns : NodeStates) (g : Graph) {state : ns.States} {below : List Frame} {curr parent : ℕ}
    {finished : List ℕ} {k : ℕ → Bool} where
  -- A successor that is known.
  pub IsVisit-revisit :
      (succ : ℕ) (iter : List ℕ)
      → k succ ≡ true
      → IsVisit ns g state ((succ ∷ iter, parent) ∷ below) curr finished k
      → IsVisit ns g state ((iter, parent) ∷ below) curr finished k
  IsVisit-revisit succ iter e i = record {
    fits = i.fits;
    known = i.known;
    inside = i.inside;
    held = i.held;
    arcs = revisit_arcs below i.arcs;
    frames = (
      i.frames.0.1,
      λ ss w f. (
        λ there. (i.frames.1 ss w f).0 (omega arith),
        λ m. elim ((i.frames.1 ss w f).1 m) [
          | inl there ↦ elim (Bool-cases (succ == w)) [
            | inl here ↦ let same : succ ≡ w = ground arith in inr (rw same at e)
            | inr other ↦ inl (ground arith)
          ]
          | inr seen ↦ inr seen
        ],
      ),
      i.frames.2,
    );
  }
    where
      revisit_arcs :
          (fs : List Frame)
          → Arcs g ((succ ∷ iter, parent) ∷ fs) curr
          → Arcs g ((iter, parent) ∷ fs) curr
      revisit_arcs [] a = tt
      revisit_arcs (f ∷ fs) a = a

  -- The node is finished.
  pub IsVisit-leave :
      (state' : ns.States)
      → ns.Fits g.num_nodes state'
      → ((w : ℕ) → w < g.num_nodes → ns.known state' w ≡ ns.known state w)
      → IsVisit ns g state (([], parent) ∷ below) curr finished k
      → IsVisit ns g state' below parent (curr ∷ finished) k
  IsVisit-leave state' f e i = record {
    fits = f;
    known = λ v h. e v h ∙ i.known v h;
    inside = i.inside;
    held = λ v. omega (arith, i.held v);
    arcs = leave_arcs below i.arcs;
    frames = i.frames.2;
  }
    where
      leave_arcs : (fs : List Frame) → Arcs g (([], parent) ∷ fs) curr → Arcs g fs parent
      leave_arcs [] a = tt
      leave_arcs (f ∷ fs) a = a.1

  -- What the path holds is known, so a node that is not known is not on it.
  pub curr_inside :
      (iter : List ℕ)
      → IsVisit ns g state ((iter, parent) ∷ below) curr finished k
      → (curr < g.num_nodes) × (k curr ≡ true)
  curr_inside iter i = elim (Bool-cases (k curr)) [
    | inl e ↦ (i.inside curr e, e)
    | inr e ↦
        let here : (curr == curr) ≡ true = ground arith in
        let h : count curr (path ((iter, parent) ∷ below) curr) + count curr finished ≡ 0 =
          rw e at (i.held curr) in
        absurd (ground (arith, here, h))
  ]

module _ (ns : NodeStates) (g : Graph) (k : ℕ → Bool) (v : ℕ) where
  mark_known :
      (state state' : ns.States)
      → ((w : ℕ) → w < g.num_nodes → ns.known state w ≡ some (k w))
      → ((w : ℕ)
          → w < g.num_nodes
          → ns.known state' w ≡ (if v == w then some true else ns.known state w))
      → (w : ℕ) → w < g.num_nodes
      → ns.known state' w ≡ some (mark v k w)
  mark_known state state' old new w h = ground (arith, old w h, new w h)

  mark_inside :
      v < g.num_nodes
      → ((w : ℕ) → k w ≡ true → w < g.num_nodes)
      → (w : ℕ) → mark v k w ≡ true
      → w < g.num_nodes
  mark_inside h old w e = elim (Bool-cases (v == w)) [
    | inl here ↦ ground arith
    | inr other ↦ old w (rw other at e)
  ]

  -- A new node on the path, with an iterator over all its successors.
  new_frame :
      (ss : List ℕ)
      → g.successors v ≡ some ss
      → (ss' : List ℕ) (w : ℕ) → g.successors v ≡ some ss'
      → (0 < count w ss → 0 < count w ss')
        × (0 < count w ss' → (0 < count w ss) ⊎ (mark v k w ≡ true))
  new_frame ss e ss' w e' =
      let same : ss ≡ ss' = some-injective ss ss' (sym e ∙ e') in
      (λ m. rw same at m, λ m. inl (rw same m))

module _ (ns : NodeStates) (g : Graph) {state : ns.States} {finished : List ℕ} {k : ℕ → Bool} where
  module _ (v : ℕ) (ss : List ℕ) (state' : ns.States) (e : g.successors v ≡ some ss)
      (fits : ns.Fits g.num_nodes state') (below_n : All (λ w. w < g.num_nodes) ss)
      (new : (w : ℕ)
        → w < g.num_nodes
        → ns.known state' w ≡ (if v == w then some true else ns.known state w)) where
    -- A root.
    pub IsVisit-root :
        (curr : ℕ)
        → k v ≡ false
        → v < g.num_nodes
        → IsVisit ns g state [] curr finished k
        → IsVisit ns g state' ((ss, v) ∷ []) v finished (mark v k)
    IsVisit-root curr u h i = record {
      fits = fits;
      known = mark_known ns g k v state state' i.known new;
      inside = mark_inside ns g k v h i.inside;
      held = λ w. elim (Bool-cases (v == w)) [
        | inl here ↦
            let same : v ≡ w = ground arith in
            let u' : k w ≡ false = rw same at u in ground (arith, u', i.held w)
        | inr other ↦ ground (arith, i.held w)
      ];
      arcs = tt;
      frames = (below_n, new_frame ns g k v ss e, tt);
    }

    -- A successor that is not known.
    pub IsVisit-discover :
        (iter : List ℕ) (parent curr : ℕ) (below : List Frame)
        → k v ≡ false
        → IsVisit ns g state ((v ∷ iter, parent) ∷ below) curr finished k
        → IsVisit ns g state' ((ss, curr) ∷ (iter, parent) ∷ below) v finished (mark v k)
    IsVisit-discover iter parent curr below u i = record {
      fits = fits;
      known = mark_known ns g k v state state' i.known new;
      inside = mark_inside ns g k v i.frames.0.0 i.inside;
      held = λ w. elim (Bool-cases (v == w)) [
        | inl here ↦
            let same : v ≡ w = ground arith in
            let u' : k w ≡ false = rw same at u in ground (arith, u', i.held w)
        | inr other ↦ ground (arith, i.held w)
      ];
      arcs = (λ ss' f. (i.frames.1 ss' v f).0 (ground arith), discover_arcs below i.arcs);
      frames = (
        below_n,
        new_frame ns g k v ss e,
        (
          i.frames.0.1,
          λ ss' w f. (
            λ there. (i.frames.1 ss' w f).0 (omega arith),
            λ m. elim ((i.frames.1 ss' w f).1 m) [
              | inl there ↦ elim (Bool-cases (v == w)) [
                | inl here ↦ inr (ground arith)
                | inr other ↦ inl (ground arith)
              ]
              | inr seen ↦ inr (ground (arith, seen))
            ],
          ),
          Frames-mark g k v below parent i.frames.2,
        ),
      );
    }
      where
        discover_arcs :
            (fs : List Frame)
            → Arcs g ((v ∷ iter, parent) ∷ fs) curr
            → Arcs g ((iter, parent) ∷ fs) curr
        discover_arcs [] a = tt
        discover_arcs (f ∷ fs) a = a
