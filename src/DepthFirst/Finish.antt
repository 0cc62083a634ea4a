-- ===== src/DepthFirst/Finish.antt =====
-- A visit of the whole graph, with a filter that lets every node pass and a callback that never breaks:
-- it returns, and finishes each node once.
use rbsc.Base.{
  ℕ, ◌<◌, ◌≡◌, ◌⊎◌, inl, inr, arith, Bool, true, Option, none, some, List, [], ◌∷◌, length, ◌==◌,
  Bool-cases,
}
use rbsc.DepthFirst.{Graph, Frame, Event, init, previsit, revisit, postvisit, done}
use rbsc.DepthFirst.Invariant.{count, IsGraph, path, Arcs}

abbrev pub Arc : Graph → ℕ → ℕ → Type 0
Arc g v w = (ss : List ℕ) × (g.successors v ≡ some ss) × (0 < count w ss)

-- A path of arcs.
pub data Reach (g : Graph) : ℕ → ℕ → Type 0 where
  here : {v : ℕ} → Reach g v v
  onward : {u v w : ℕ} → Reach g u v → Arc g v w → Reach g u w

-- What a callback and a property of the finished nodes, the last one first, and of the callback's value
-- are to satisfy. When a node is finished, its successors are, or reach it.
pub record Follows (g : Graph) {T E : Type 0} (callback : T → Event → Option (T × Option E))
    (P : List ℕ → T → Type 0) : Type 0 where
  pub on_init :
      (l : List ℕ) (t : T) (root : ℕ)
      → P l t
      → (t' : T) × (callback t (init root) ≡ some (t', none)) × P l t'
  pub on_previsit :
      (l : List ℕ) (t : T) (node pred root depth : ℕ)
      → P l t
      → (t' : T) × (callback t (previsit node pred root depth) ≡ some (t', none)) × P l t'
  pub on_revisit :
      (l : List ℕ) (t : T) (node pred root depth : ℕ) (on_stack : Bool)
      → P l t
      → (t' : T) × (callback t (revisit node pred root depth on_stack) ≡ some (t', none)) × P l t'
  pub on_postvisit :
      (l : List ℕ) (t : T) (node pred root depth : ℕ)
      → length l < g.num_nodes
      → ((w : ℕ) → Arc g node w → (0 < count w l) ⊎ Reach g w node)
      → P l t
      → (t' : T) × (callback t (postvisit node pred root depth) ≡ some (t', none)) × P (node ∷ l) t'
  pub on_done :
      (l : List ℕ) (t : T) (root : ℕ)
      → P l t
      → (t' : T) × (callback t (done root) ≡ some (t', none)) × P l t'

pub path-Reach :
    (g : Graph) (stack : List Frame) (curr w : ℕ)
    → IsGraph g
    → ((v : ℕ) → 0 < count v (path stack curr) → v < g.num_nodes)
    → Arcs g stack curr
    → 0 < count w (path stack curr)
    → Reach g w curr
path-Reach g [] curr w h below a m = absurd (omega (arith, m))
path-Reach g ((iter, parent) ∷ []) curr w h below a m = elim (Bool-cases (curr == w)) [
  | inl e ↦ let same : curr ≡ w = ground arith in rw same here
  | inr e ↦ absurd (ground (arith, m))
]
path-Reach g ((iter, parent) ∷ frame ∷ fs) curr w h below a m = elim (Bool-cases (curr == w)) [
  | inl e ↦ let same : curr ≡ w = ground arith in rw same here
  | inr e ↦
      let m' : 0 < count w (path (frame ∷ fs) parent) = ground arith in
      let below' : (v : ℕ) → 0 < count v (path (frame ∷ fs) parent) → v < g.num_nodes =
        λ v p. below v (omega arith) in
      let self : (parent == parent) ≡ true = ground arith in
      let (ss, es, _) = h parent (below' parent (ground (arith, self))) in
      onward (path-Reach g (frame ∷ fs) parent w h below' a.1 m') (ss, es, a.0 ss es)
]
