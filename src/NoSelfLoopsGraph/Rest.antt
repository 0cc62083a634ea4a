-- ===== src/NoSelfLoopsGraph/Rest.antt =====
-- What is left of the successors of a node without self-loops.
use rbsc.Base.{
  ℕ, zero, suc, ◌+◌, ◌≤◌, ◌≡◌, refl, ap, ◌∙◌, inl, inr, arith, true, false, Option, none, some,
  List, [], ◌∷◌, length, ◌==◌, if◌then◌else◌, Bool-cases,
}
use rbsc.DepthFirst.Invariant.{count}
use rbsc.NoSelfLoopsGraph.{Succ, next_other, next_successor, len}

-- All that `Succ::next` returns, in at most `fuel` calls.
unfoldable pub collect : ℕ → Succ → List ℕ
unfolding next_successor
collect zero s = []
collect (suc fuel) s = elim (next_successor s).1 [
  | none ↦ []
  | some v ↦ v ∷ collect fuel (next_successor s).0
]

-- The nodes that are not `src`, in their order.
abbrev pub without : ℕ → List ℕ → List ℕ
without src [] = []
without src (dst ∷ iter) = if dst == src then without src iter else dst ∷ without src iter

module _ (src dst : ℕ) (iter : List ℕ) where
  next_successor_loop :
      (dst == src) ≡ true
      → next_successor (record { src = src; iter = dst ∷ iter })
        ≡ next_successor (record { src = src; iter = iter })
  unfolding next_successor next_other
  next_successor_loop e = rw e refl

  next_successor_other :
      (dst == src) ≡ false
      → next_successor (record { src = src; iter = dst ∷ iter })
        ≡ (record { src = src; iter = iter }, some dst)
  unfolding next_successor next_other
  next_successor_other e = rw e refl

collect-without :
    (iter : List ℕ) (src fuel : ℕ)
    → length iter ≤ fuel
    → collect fuel (record { src = src; iter = iter }) ≡ without src iter
unfolding collect next_successor next_other
collect-without [] src zero h = refl
collect-without [] src (suc fuel) h = refl
collect-without (dst ∷ iter) src zero h = absurd (omega (arith, h))
collect-without (dst ∷ iter) src (suc fuel) h = elim (Bool-cases (dst == src)) [
  | inl e ↦
      ap (λ (r : Succ × Option ℕ). elim r.1 [ none ↦ [] | some v ↦ v ∷ collect fuel r.0 ])
        (next_successor_loop src dst iter e)
      ∙ collect-without iter src (suc fuel) (omega (arith, h))
      ∙ (rw e refl)
  | inr e ↦
      ap (λ (r : Succ × Option ℕ). elim r.1 [ none ↦ [] | some v ↦ v ∷ collect fuel r.0 ])
        (next_successor_other src dst iter e)
      ∙ ap (◌∷◌ dst) (collect-without iter src fuel (omega (arith, h)))
      ∙ (rw e refl)
]

length-without :
    (src : ℕ) (iter : List ℕ) → length (without src iter) + count src iter ≡ length iter
length-without src [] = refl
length-without src (dst ∷ iter) = elim (Bool-cases (dst == src)) [
  | inl e ↦ rw e (omega (arith, length-without src iter))
  | inr e ↦ rw e (omega (arith, length-without src iter))
]

-- However many nodes the iterator has, with as many calls it returns those that are not the source, in
-- their order, and no more; `len` counts, besides those that it returns, the self-loops it goes past.
pub successors-without :
    (s : Succ) (fuel : ℕ)
    → length s.iter ≤ fuel
    → (collect fuel s ≡ without s.src s.iter)
      × (len s ≡ length (collect fuel s) + count s.src s.iter)
unfolding len
successors-without s fuel h =
    let e = collect-without s.iter s.src fuel h in
    (e, rw e (omega (arith, length-without s.src s.iter)))
