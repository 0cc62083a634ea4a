-- ===== src/DepthFirst/Invariant.antt =====
-- What holds before each round of a visit, whatever the callback does.
use rbsc.Base.{
  ℕ, zero, suc, ◌+◌, ◌≤◌, ◌<◌, ◌≡◌, refl, ap, ◌⊎◌, inl, inr, arith, Bool, true, false, some, List,
  [], ◌∷◌, length, All, ◌==◌, if◌then◌else◌, Bool-cases,
}
use rbsc.DepthFirst.{Graph, Frame, successors_or_nil}
use rbsc.DepthFirst.States.{NodeStates}

abbrev pub count : ℕ → List ℕ → ℕ
count v [] = 0
count v (x ∷ xs) = (if x == v then 1 else 0) + count v xs

-- All nodes that occur are below the number of nodes.
abbrev pub IsGraph : Graph → Type 0
IsGraph g =
    (v : ℕ)
    → v < g.num_nodes
    → (ss : List ℕ) × (g.successors v ≡ some ss) × All (λ w. w < g.num_nodes) ss

-- The nodes on the visit path, from the current one to the root.
abbrev pub path : List Frame → ℕ → List ℕ
path [] curr = []
path ((iter, parent) ∷ below) curr = curr ∷ path below parent

-- The nodes that are known.
abbrev pub mark : ℕ → (ℕ → Bool) → ℕ → Bool
mark v k w = if v == w then true else k w

module _ (g : Graph) where
  -- Each node on the path is a successor of the one below it.
  abbrev pub Arcs : List Frame → ℕ → Type 0
  Arcs [] curr = Unit
  Arcs ((iter, parent) ∷ []) curr = Unit
  Arcs ((iter, parent) ∷ frame ∷ below) curr =
      ((ss : List ℕ) → g.successors parent ≡ some ss → 0 < count curr ss)
      × Arcs (frame ∷ below) parent

  -- An iterator holds successors of its node, and those that it does not hold any more are known.
  abbrev pub Frames : (ℕ → Bool) → List Frame → ℕ → Type 0
  Frames k [] curr = Unit
  Frames k ((iter, parent) ∷ below) curr =
      All (λ w. w < g.num_nodes) iter
      × ((ss : List ℕ) (w : ℕ)
          → g.successors curr ≡ some ss
          → (0 < count w iter → 0 < count w ss)
            × (0 < count w ss → (0 < count w iter) ⊎ (k w ≡ true)))
      × Frames k below parent

  -- The rounds that the entries of the stack, and the nodes below `n` that are not known, still cost.
  abbrev pub stack_cost : List Frame → ℕ
  stack_cost [] = 0
  stack_cost ((iter, parent) ∷ below) = length iter + 1 + stack_cost below

  abbrev pub degree : ℕ → ℕ
  degree v = length (successors_or_nil g v)

  abbrev pub node_cost : (ℕ → Bool) → ℕ → ℕ
  node_cost k zero = 0
  node_cost k (suc n) = (if k n then 0 else degree n + 1) + node_cost k n

-- The nodes of the path and those that are done are the known ones, once each.
pub record IsVisit (ns : NodeStates) (g : Graph) (state : ns.States) (stack : List Frame) (curr : ℕ)
    (finished : List ℕ) (k : ℕ → Bool) : Type 0 where
  pub fits : ns.Fits g.num_nodes state
  pub known : (v : ℕ) → v < g.num_nodes → ns.known state v ≡ some (k v)
  pub inside : (v : ℕ) → k v ≡ true → v < g.num_nodes
  pub held : (v : ℕ) → count v (path stack curr) + count v finished ≡ (if k v then 1 else 0)
  pub arcs : Arcs g stack curr
  pub frames : Frames g k stack curr

-- Before the first root.
pub new-IsVisit :
    (ns : NodeStates) (g : Graph) → IsVisit ns g (ns.new g.num_nodes) [] 0 [] (λ v. false)
new-IsVisit ns g = record {
  fits = ns.new-Fits g.num_nodes;
  known = ns.known-new g.num_nodes;
  inside = λ v e. cc;
  held = λ v. refl;
  arcs = tt;
  frames = tt;
}

pub Frames-mark :
    (g : Graph) (k : ℕ → Bool) (v : ℕ) (stack : List Frame) (curr : ℕ)
    → Frames g k stack curr
    → Frames g (mark v k) stack curr
Frames-mark g k v [] curr h = tt
Frames-mark g k v ((iter, parent) ∷ below) curr h = (
  h.0,
  λ ss w e. (
    (h.1 ss w e).0,
    λ m. elim ((h.1 ss w e).1 m) [ inl there ↦ inl there | inr seen ↦ inr (ground (arith, seen)) ],
  ),
  Frames-mark g k v below parent h.2,
)

node_cost-mark_ne :
    (g : Graph) (k : ℕ → Bool) (v n : ℕ) → n ≤ v → node_cost g (mark v k) n ≡ node_cost g k n
node_cost-mark_ne g k v zero h = refl
node_cost-mark_ne g k v (suc n) h =
    let other : (v == n) ≡ false = ground arith in
    rw other (omega (arith, node_cost-mark_ne g k v n (omega arith)))

pub node_cost-mark :
    (g : Graph) (k : ℕ → Bool) (v n : ℕ)
    → v < n
    → k v ≡ false
    → node_cost g (mark v k) n + (degree g v + 1) ≡ node_cost g k n
node_cost-mark g k v zero h e = absurd (omega arith)
node_cost-mark g k v (suc n) h e = elim (Bool-cases (v == n)) [
  | inl here ↦
      let same : v ≡ n = ground arith in
      let e' : k n ≡ false = rw same at e in
      rw (here, e') (omega (arith, node_cost-mark_ne g k v n (omega arith), ap (degree g) same))
  | inr there ↦
      let below : v < n = ground arith in rw there (omega (arith, node_cost-mark g k v n below e))
]
