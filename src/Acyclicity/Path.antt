-- ===== src/Acyclicity/Path.antt =====
-- What holds before each round of the visit of `is_acyclic`, for the bits of the visit path and for the
-- nodes that are finished.
use rbsc.Base.{
  ℕ, ◌+◌, ◌*◌, ◌<◌, ◌≡◌, ◌⊎◌, inl, inr, arith, Bool, some, List, [], ◌∷◌, ◌==◌, ltb, Bool-cases,
}
use rbsc.DepthFirst.{Graph, Frame}
use rbsc.DepthFirst.States.{BitVec}
use rbsc.DepthFirst.Selectors.{three_states}
use rbsc.DepthFirst.Invariant.{count, path, IsVisit}
use rbsc.DepthFirst.Finish.{Arc, Reach, here, onward}

-- Each arc from a node of the list goes to a later node of the list.
abbrev pub Strict : Graph → List ℕ → Type 0
Strict g [] = Unit
Strict g (v ∷ vs) = ((w : ℕ) → Arc g v w → 0 < count w vs) × Strict g vs

-- The successors that an iterator does not hold any more are finished, or the node above it on the path.
abbrev pub Seen : Graph → List ℕ → List Frame → ℕ → Type 0
Seen g finished [] curr = Unit
Seen g finished ((iter, parent) ∷ below) curr =
    ((w : ℕ) → Arc g curr w → (0 < count w iter) ⊎ (0 < count w finished))
    × Seen g (curr ∷ finished) below parent

pub Seen-more :
    (g : Graph) (xs ys : List ℕ) (stack : List Frame) (curr : ℕ)
    → ((w : ℕ) → 0 < count w xs → 0 < count w ys)
    → Seen g xs stack curr
    → Seen g ys stack curr
Seen-more g xs ys [] curr more s = tt
Seen-more g xs ys ((iter, parent) ∷ below) curr more s = (
  λ w a. elim (s.0 w a) [ inl there ↦ inl there | inr m ↦ inr (more w m) ],
  Seen-more g (curr ∷ xs) (curr ∷ ys) below parent
      (λ w m. elim (Bool-cases (curr == w)) [
        | inl e ↦ ground (arith, e)
        | inr e ↦ let m' : 0 < count w xs = ground (arith, e, m) in ground (arith, e, more w m')
      ])
      s.1,
)

-- No arc from a node of the graph closes a cycle.
abbrev pub IsAcyclic : Graph → Type 0
IsAcyclic g = (v w : ℕ) → v < g.num_nodes → Arc g v w → Reach g w v → ⊥

-- What a node of such a list reaches is in the list.
Strict-Reach :
    (g : Graph) (l : List ℕ) → Strict g l → {u v : ℕ} → Reach g u v → 0 < count u l → 0 < count v l
Strict-Reach g l s here m = m
Strict-Reach g l s (onward {u} {v} {w} r a) m = next l s (Strict-Reach g l s r m)
  where
    next : (l : List ℕ) → Strict g l → 0 < count v l → 0 < count w l
    next [] s m = m
    next (x ∷ xs) s m = elim (Bool-cases (x == v)) [
      | inl e ↦ let same : x ≡ v = ground arith in let m' = s.0 w (rw same a) in omega (arith, m')
      | inr e ↦ let m' : 0 < count v xs = ground (arith, e, m) in omega (arith, next xs s.1 m')
    ]

-- A node that stands in such a list once is on no cycle.
pub Strict-Acyclic :
    (g : Graph) (l : List ℕ) → Strict g l → {v w : ℕ} → count v l ≡ 1 → Arc g v w → Reach g w v → ⊥
Strict-Acyclic g [] s {v} {w} once a r = absurd (omega (arith, once))
Strict-Acyclic g (x ∷ xs) s {v} {w} once a r = elim (Bool-cases (x == v)) [
  | inl e ↦
      let same : x ≡ v = ground arith in
      let m = Strict-Reach g xs s.1 r (s.0 w (rw same a)) in absurd (ground (arith, once, m, e))
  | inr e ↦ Strict-Acyclic g xs s.1 (ground (arith, e, once)) a r
]

module _ (bv : BitVec) where
  -- The bits for the path are right, and no arc back to the path was seen.
  pub record IsPath (g : Graph) (state : bv.Bits) (stack : List Frame) (curr : ℕ)
      (finished : List ℕ) (k : ℕ → Bool) : Type 0 where
    pub visit : IsVisit (three_states bv) g state stack curr finished k
    pub on_path :
        (v : ℕ)
        → v < g.num_nodes
        → bv.get state (v * 2 + 1) ≡ some (ltb 0 (count v (path stack curr)))
    pub seen : Seen g finished stack curr
    pub strict : Strict g finished
