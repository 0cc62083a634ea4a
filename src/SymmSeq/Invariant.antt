-- ===== src/SymmSeq/Invariant.antt =====
-- What holds of the component numbers before each round of the visit of a symmetric graph, and that the
-- rounds keep it.
use rbsc.Base.{
  ℕ, ◌≤◌, ◌<◌, ◌≡◌, refl, sym, ◌∙◌, ◌⊎◌, inl, inr, arith, Bool, true, false, Option, none, some,
  List, [], ◌∷◌, length, get_elem?, set, ◌==◌, if◌then◌else◌, Bool-cases, length-set,
  get_elem?-set_self, get_elem?-set_ne,
}
use mathlib.Core.Option.{some-injective}
use rbsc.DepthFirst.{Graph}
use rbsc.DepthFirst.Invariant.{count, mark}
use rbsc.DepthFirst.Finish.{Arc, Reach, here, onward}

abbrev pub IsSymmetric : Graph → Type 0
IsSymmetric g = (v w : ℕ) → Arc g v w → Arc g w v

Reach-trans : {g : Graph} {u v w : ℕ} → Reach g u v → Reach g v w → Reach g u w
Reach-trans r here = r
Reach-trans r (onward s a) = onward (Reach-trans r s) a

pub Reach-back : {g : Graph} {u v : ℕ} → IsSymmetric g → Reach g u v → Reach g v u
Reach-back h here = here
Reach-back h (onward {v} {w} r a) = Reach-trans (onward here (h v w a)) (Reach-back h r)

pub Reach-both : {g : Graph} {r u v : ℕ} → IsSymmetric g → Reach g r u → Reach g r v → Reach g u v
Reach-both h p q = Reach-trans (Reach-back h p) q

-- A node that an iterator of the stack still holds.
abbrev pub Pending : ℕ → List (List ℕ) → Type 0
Pending w [] = ⊥
Pending w (iter ∷ below) = (0 < count w iter) ⊎ Pending w below

-- The number of a node that is known.
abbrev pub label : ℕ → ℕ → (ℕ → ℕ) → ℕ → ℕ
label v c lab w = if v == w then c else lab w

-- `c` is the number of the current component, `root` names a node of each component, and `k` the
-- known nodes.
pub record IsLabelled (g : Graph) (component : List (Option ℕ)) (c : ℕ) (stack : List (List ℕ))
    (k : ℕ → Bool) (lab root : ℕ → ℕ) : Type 0 where
  pub size : length component ≡ g.num_nodes
  pub inside : (v : ℕ) → k v ≡ true → v < g.num_nodes
  pub filled :
      (v : ℕ) → v < g.num_nodes → get_elem? component v ≡ some (if k v then some (lab v) else none)
  pub below : (v : ℕ) → k v ≡ true → lab v ≤ c
  pub linked : (v : ℕ) → k v ≡ true → Reach g (root (lab v)) v
  -- A successor has the same number, or is still to be seen.
  pub arcs :
      (v w : ℕ)
      → k v ≡ true
      → Arc g v w
      → ((k w ≡ true) × (lab w ≡ lab v)) ⊎ ((lab v ≡ c) × Pending w stack)
  -- What is to be seen is a successor of a node of the current component.
  pub from :
      (w : ℕ)
      → Pending w stack
      → (w < g.num_nodes) × (v : ℕ) × (k v ≡ true) × (lab v ≡ c) × Arc g v w

module _ (g : Graph) (sy : IsSymmetric g) {component : List (Option ℕ)} {c : ℕ} {k : ℕ → Bool}
    {lab root : ℕ → ℕ} where
  -- A successor that is known has the current number.
  pub IsLabelled-revisit :
      (succ : ℕ) (iter : List ℕ) (below : List (List ℕ))
      → k succ ≡ true
      → IsLabelled g component c ((succ ∷ iter) ∷ below) k lab root
      → IsLabelled g component c (iter ∷ below) k lab root
  IsLabelled-revisit succ iter below e i =
      let self : (succ == succ) ≡ true = ground arith in
      let (_, v, kv, lv, a) = i.from succ (inl (ground (arith, self))) in
      let same : lab succ ≡ c = elim (i.arcs succ v e (sy v succ a)) [
        | inl (_, l) ↦ sym l ∙ lv
        | inr (l, _) ↦ l
      ] in
      record {
        size = i.size;
        inside = i.inside;
        filled = i.filled;
        below = i.below;
        linked = i.linked;
        arcs = λ x w kx b. elim (i.arcs x w kx b) [
          | inl known ↦ inl known
          | inr (l, inl held) ↦ elim (Bool-cases (succ == w)) [
            | inl this ↦
                let is_w : succ ≡ w = ground arith in
                inl (rw (← is_w) e, rw (← is_w) (same ∙ sym l))
            | inr other ↦ inr (l, inl (ground (arith, other, held)))
          ]
          | inr (l, inr held) ↦ inr (l, inr held)
        ];
        from = λ w p. i.from w (elim p [ inl m ↦ inl (omega arith) | inr m ↦ inr m ]);
      }

  -- An iterator that is used up.
  pub IsLabelled-pop :
      (below : List (List ℕ))
      → IsLabelled g component c ([] ∷ below) k lab root
      → IsLabelled g component c below k lab root
  IsLabelled-pop below i = record {
    size = i.size;
    inside = i.inside;
    filled = i.filled;
    below = i.below;
    linked = i.linked;
    arcs = λ x w kx b. elim (i.arcs x w kx b) [
      | inl known ↦ inl known
      | inr (l, inl held) ↦ absurd (omega arith)
      | inr (l, inr held) ↦ inr (l, held)
    ];
    from = λ w p. i.from w (inr p);
  }

-- What `from` and `arcs` say of a node that was known before another one is.
module _ (g : Graph) {component : List (Option ℕ)} {c : ℕ} {k : ℕ → Bool} {lab root : ℕ → ℕ}
    {stack : List (List ℕ)} (i : IsLabelled g component c stack k lab root) (v : ℕ)
    (unknown : k v ≡ false) where
  pub other_node : (x : ℕ) → k x ≡ true → (v == x) ≡ false
  other_node x e = elim (Bool-cases (v == x)) [
    | inl this ↦ let same : v ≡ x = ground arith in let no : k x ≡ false = rw same at unknown in cc
    | inr other ↦ other
  ]

  -- The node is entered with the number `c`: an iterator over its successors is pushed, and what was
  -- to be seen still is, but for the node itself.
  pub IsLabelled-enter :
      (ss : List ℕ) (stack' : List (List ℕ)) (root' : ℕ → ℕ)
      → v < g.num_nodes
      → g.successors v ≡ some ss
      → ((w : ℕ) → 0 < count w ss → w < g.num_nodes)
      → ((w : ℕ) → Pending w stack → (v ≡ w) ⊎ Pending w stack')
      → ((w : ℕ) → Pending w stack' → Pending w stack)
      → ((x : ℕ) → k x ≡ true → root' (lab x) ≡ root (lab x))
      → Reach g (root' c) v
      → IsLabelled g (set component v (some c)) c (ss ∷ stack') (mark v k) (label v c lab) root'
  IsLabelled-enter ss stack' root' b e nodes seen still roots r =
      let self : (v == v) ≡ true = ground arith in
      record {
        size = length-set component v (some c) ∙ i.size;
        inside = λ x m. elim (Bool-cases (v == x)) [
          | inl this ↦ ground arith
          | inr other ↦ i.inside x (rw other at m)
        ];
        filled = λ x h. elim (Bool-cases (v == x)) [
          | inl this ↦
              let same : v ≡ x = ground arith in
              rw this
                (rw (← same) (get_elem?-set_self component v (some c) (omega (arith, i.size))))
          | inr other ↦
              rw other (get_elem?-set_ne component v x (some c) (ground arith) ∙ i.filled x h)
        ];
        below = λ x m. elim (Bool-cases (v == x)) [
          | inl this ↦ rw this (omega arith)
          | inr other ↦ rw other (i.below x (rw other at m))
        ];
        linked = λ x m. elim (Bool-cases (v == x)) [
          | inl this ↦ let same : v ≡ x = ground arith in rw this (rw (← same) r)
          | inr other ↦
              let known : k x ≡ true = rw other at m in rw (other, roots x known) (i.linked x known)
        ];
        arcs = λ x w m a. elim (Bool-cases (v == x)) [
          | inl this ↦
              let same : v ≡ x = ground arith in
              let (ss', f, held) = a in
              let list : ss' ≡ ss = some-injective ss' ss (sym f ∙ (rw (← same) e)) in
              inr (rw this refl, inl (rw list at held))
          | inr other ↦
              let known : k x ≡ true = rw other at m in
              elim (i.arcs x w known a) [
                | inl (kw, l) ↦
                    let new = other_node w kw in inl (rw (new, kw) refl, rw (other, new) l)
                | inr (l, p) ↦ elim (seen w p) [
                  | inl this ↦
                      let is_w : (v == w) ≡ true = ground arith in
                      inl (rw is_w refl, rw (other, is_w) (sym l))
                  | inr later ↦ inr (rw other l, inr later)
                ]
              ]
        ];
        from = λ w p. elim p [
          | inl m ↦ (nodes w m, v, rw self refl, rw self refl, (ss, e, m))
          | inr later ↦
              let (h, x, kx, lx, a) = i.from w (still w later) in
              let new = other_node x kx in (h, x, rw (new, kx) refl, rw new lx, a)
        ];
      }
