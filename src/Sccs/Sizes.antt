-- ===== src/Sccs/Sizes.antt =====
-- The sizes of components.
use rbsc.Base.{
  ℕ, ◌+◌, ◌<◌, ◌≡◌, refl, sym, ap, ◌∙◌, inl, inr, arith, some, List, [], ◌∷◌, length, length-set,
  length-replicate, replicate, get_elem?, get_elem?-lt, set, All, ◌==◌, Bool-cases,
}
use mathlib.Core.Option.{some-injective}
use rbsc.DepthFirst.Invariant.{count}
use rbsc.LabelStore.Volumes.{get-set, get-replicate}
use rbsc.Sccs.{Sccs, add_sizes, compute_sizes}

-- The counts of the numbers below `n`, on top of those that the list held.
add_sizes_lem :
    (n : ℕ) (components sizes : List ℕ)
    → All (λ c. c < n) components
    → length sizes ≡ n
    → (r : List ℕ) × (add_sizes components sizes ≡ some r)
      × (length r ≡ n)
      × ((c m : ℕ) → get_elem? sizes c ≡ some m → get_elem? r c ≡ some (m + count c components))
unfolding add_sizes
add_sizes_lem n [] sizes h e = (sizes, refl, e, λ c m g. g ∙ ap some (omega arith))
add_sizes_lem n (c ∷ components) sizes h e =
    let (k, g) = get_elem?-lt sizes c (omega (arith, e, h.0)) in
    let (r, e', size, counts) =
      add_sizes_lem n components (set sizes c (k + 1)) h.1 (length-set sizes c (k + 1) ∙ e) in
    (
      r,
      rw g e',
      size,
      λ d m gd. elim (Bool-cases (c == d)) [
        | inl same ↦
            let is : c ≡ d = ground arith in
            let here : m ≡ k = some-injective m k (sym gd ∙ ap (get_elem? sizes) (sym is) ∙ g) in
            let now : get_elem? (set sizes c (k + 1)) d ≡ some (k + 1) =
              get-set sizes c d (k + 1) (omega (arith, e, h.0)) ∙ (rw same refl) in
            counts d (k + 1) now ∙ ap some (rw same (omega (arith, here)))
        | inr other ↦
            let now : get_elem? (set sizes c (k + 1)) d ≡ some m =
              get-set sizes c d (k + 1) (omega (arith, e, h.0)) ∙ (rw other gd) in
            counts d m now ∙ ap some (rw other (omega arith))
      ],
    )

-- When all components are in range, their sizes are computed without a panic: one for each component, the
-- number of nodes in it.
pub compute_sizes_lem :
    (s : Sccs)
    → All (λ c. c < s.num_components) s.components
    → (sizes : List ℕ) × (compute_sizes s ≡ some sizes)
      × (length sizes ≡ s.num_components)
      × ((c : ℕ) → c < s.num_components → get_elem? sizes c ≡ some (count c s.components))
unfolding compute_sizes
compute_sizes_lem s h =
    let (sizes, e, size, counts) =
      add_sizes_lem s.num_components s.components (replicate s.num_components 0) h
        (length-replicate s.num_components 0) in
    (
      sizes,
      e,
      size,
      λ c b. counts c 0 (get-replicate s.num_components c 0 b) ∙ ap some (omega arith),
    )
