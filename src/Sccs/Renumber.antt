-- ===== src/Sccs/Renumber.antt =====
-- The renumbering of components by decreasing size.
use rbsc.Base.{
  ℕ, ◌+◌, ◌<◌, ◌≡◌, refl, sym, ap, subst, ◌∙◌, inl, inr, arith, true, some, List, [], ◌∷◌, length,
  length-replicate, length-range, replicate, range, get_elem?, get_elem?-lt, All, ◌==◌, Bool-cases,
}
use mathlib.Core.Option.{some-injective}
use rbsc.DepthFirst.Invariant.{count}
use rbsc.LabelStore.Volumes.{count-range, count_pos}
use rbsc.VecGraph.{sort_by}
use rbsc.Sccs.{Sccs, SortUnstable, compute_sizes, invert, size_of, sort_by_size}
use rbsc.Sccs.Sizes.{compute_sizes_lem}
use rbsc.Sccs.Orders.{
  ge, Descending, keys, keys-Descending, sort_by-Descending, count-sort_by, count-Permᴰ, keys-Permᴰ,
  length-Permᴰ, Descending-unique, get_elem?-ext,
}
use rbsc.Sccs.Invert.{
  invert_lem, size_of-some, renumber-keys, count-index, index_lt, get-range, get-keys, length-keys,
  keys-range,
}

-- An order of the indices below `n`, and its inverse.
record IsInverse (n : ℕ) (order inv_perm : List ℕ) : Type 0 where
  once : (v : ℕ) → v < n → count v order ≡ 1
  inside : (v : ℕ) → 0 < count v order → v < n
  ordered : length order ≡ n
  sized : length inv_perm ≡ n
  inverse : (k v : ℕ) → get_elem? order k ≡ some v → get_elem? inv_perm v ≡ some k

module _ (n : ℕ) (order inv_perm : List ℕ) (i : IsInverse n order inv_perm) where
  -- Where a component goes.
  place : (c : ℕ) → c < n → get_elem? order (size_of inv_perm c) ≡ some c
  place c h =
      let (k, e) = count-index order c (omega (arith, i.once c h)) in
      subst (λ (j : ℕ). get_elem? order j ≡ some c)
        (sym (size_of-some inv_perm c k (i.inverse k c e))) e

  place_lt : (c : ℕ) → c < n → size_of inv_perm c < n
  place_lt c h = omega (arith, index_lt order (size_of inv_perm c) c (place c h), i.ordered)

  place-injective : (c d : ℕ) → c < n → d < n → size_of inv_perm c ≡ size_of inv_perm d → c ≡ d
  place-injective c d hc hd e =
      some-injective c d (sym (place c hc) ∙ ap (get_elem? order) e ∙ place d hd)

  keys-inside :
      (components : List ℕ)
      → All (λ c. c < n) components
      → All (λ c. c < n) (keys (size_of inv_perm) components)
  keys-inside [] h = tt
  keys-inside (c ∷ components) h = (place_lt c h.0, keys-inside components h.1)

  -- The new component at an index is as large as the old one there.
  count-keys :
      (j w : ℕ) (components : List ℕ)
      → get_elem? order j ≡ some w
      → All (λ c. c < n) components
      → count j (keys (size_of inv_perm) components) ≡ count w components
  count-keys j w [] e h = refl
  count-keys j w (c ∷ components) e h = elim (Bool-cases (c == w)) [
    | inl same ↦
        let c_is : c ≡ w = ground arith in
        let there : size_of inv_perm c ≡ j =
          size_of-some inv_perm c j (ap (get_elem? inv_perm) c_is ∙ i.inverse j w e) in
        let hit : (size_of inv_perm c == j) ≡ true = ground (arith, there) in
        rw (same, hit) (omega (arith, count-keys j w components e h.1))
    | inr other ↦ elim (Bool-cases (size_of inv_perm c == j)) [
      | inl hit ↦
          let there : size_of inv_perm c ≡ j = ground (arith, hit) in
          let c_is : c ≡ w =
            some-injective c w (sym (place c h.0) ∙ ap (get_elem? order) there ∙ e) in
          absurd (ground (arith, c_is, other))
      | inr miss ↦ rw (other, miss) (omega (arith, count-keys j w components e h.1))
    ]
  ]

-- The order that the standard library sorts the indices of the sizes into, and its inverse.
order_of : SortUnstable → List ℕ → List ℕ
order_of std sizes = std.sort_unstable_by (size_of sizes) (range 0 (length sizes))

order-inside :
    (std : SortUnstable) (sizes : List ℕ) (v : ℕ)
    → 0 < count v (order_of std sizes)
    → v < length sizes
unfolding order_of
order-inside std sizes v h =
    let indices = range 0 (length sizes) in
    let same = count-Permᴰ v (std.permutes (size_of sizes) indices) in
    let (k, e) = count-index indices v (omega (arith, h, same)) in
    let k_in : k < length sizes =
      omega (arith, index_lt indices k v e, length-range 0 (length sizes)) in
    let v_is : v ≡ 0 + k = some-injective v (0 + k) (sym e ∙ get-range 0 (length sizes) k k_in) in
    omega (arith, v_is, k_in)

order-once :
    (std : SortUnstable) (sizes : List ℕ) (v : ℕ)
    → v < length sizes
    → count v (order_of std sizes) ≡ 1
unfolding order_of
order-once std sizes v h =
    sym (count-Permᴰ v (std.permutes (size_of sizes) (range 0 (length sizes))))
    ∙ count-range v 0 (length sizes) (omega arith) (omega arith)

invert-IsInverse :
    (std : SortUnstable) (sizes : List ℕ)
    → (inv_perm : List ℕ) × (invert 0 (order_of std sizes) (replicate (length sizes) 0)
        ≡ some inv_perm)
      × IsInverse (length sizes) (order_of std sizes) inv_perm
unfolding order_of
invert-IsInverse std sizes =
    let (r, e, size, places, others) =
      invert_lem (length sizes) 0 (order_of std sizes) (replicate (length sizes) 0)
        (order-inside std sizes)
        (λ v. elim (Bool-cases (count v (order_of std sizes) == 0)) [
          | inl none_of ↦ ground (arith, none_of)
          | inr some_of ↦
              omega
                (arith, order-once std sizes v (order-inside std sizes v (ground (arith, some_of))))
        ])
        (length-replicate (length sizes) 0) in
    (
      r,
      e,
      record {
        once = order-once std sizes;
        inside = order-inside std sizes;
        ordered =
            sym (length-Permᴰ (std.permutes (size_of sizes) (range 0 (length sizes))))
            ∙ length-range 0 (length sizes);
        sized = size;
        inverse = λ k v g. places k v g ∙ ap some (omega arith);
      },
    )

-- The sizes in the order.
sorted_sizes :
    (std : SortUnstable) (sizes : List ℕ)
    → keys (size_of sizes) (order_of std sizes) ≡ sort_by ge sizes
unfolding order_of
sorted_sizes std sizes =
    let indices = range 0 (length sizes) in
    Descending-unique (keys (size_of sizes) (order_of std sizes)) (sort_by ge sizes)
      (keys-Descending (size_of sizes) (order_of std sizes) (std.descends (size_of sizes) indices))
      (sort_by-Descending sizes)
      (λ v.
        sym (count-Permᴰ v (keys-Permᴰ (size_of sizes) (std.permutes (size_of sizes) indices)))
        ∙ ap (count v) (keys-range sizes)
        ∙ sym (count-sort_by v sizes))

-- The sizes of the renumbered components are the sorted ones.
renumbered_sizes :
    (std : SortUnstable) (s : Sccs) (sizes inv_perm : List ℕ)
    → length sizes ≡ s.num_components
    → ((c : ℕ) → c < s.num_components → get_elem? sizes c ≡ some (count c s.components))
    → All (λ c. c < s.num_components) s.components
    → IsInverse s.num_components (order_of std sizes) inv_perm
    → compute_sizes (record s { components = keys (size_of inv_perm) s.components })
      ≡ some (sort_by ge sizes)
renumbered_sizes std s sizes inv_perm size counts h i =
    let order = order_of std sizes in
    let n = s.num_components in
    let s' : Sccs = record s { components = keys (size_of inv_perm) s.components } in
    let (new, e, size', counts') =
      compute_sizes_lem s' (keys-inside n order inv_perm i s.components h) in
    let same : new ≡ keys (size_of sizes) order =
      get_elem?-ext new (keys (size_of sizes) order)
        (size' ∙ sym i.ordered ∙ sym (length-keys (size_of sizes) order))
        (λ j b.
          let j_in : j < n = omega (arith, b, size') in
          let (w, ew) = get_elem?-lt order j (omega (arith, j_in, i.ordered)) in
          let w_in : w < n = i.inside w (count_pos order j w ew) in
          counts' j j_in
          ∙ ap some (
              count-keys n order inv_perm i j w s.components ew h
              ∙ sym (size_of-some sizes w (count w s.components) (counts w w_in)))
          ∙ sym (get-keys (size_of sizes) order j w ew)) in
    e ∙ ap some (same ∙ sorted_sizes std sizes)

-- When all components are in range, sorting them by size does not panic. Two nodes are in the same
-- component afterwards if they were before, and only then, by a renumbering `to` of the components; the
-- sizes that are returned are those of the new components, and they do not increase.
pub sort_by_size_lem :
    (std : SortUnstable) (s : Sccs)
    → All (λ c. c < s.num_components) s.components
    → (s' : Sccs) × (sizes : List ℕ) × (to : ℕ → ℕ) × (sort_by_size std s ≡ some (s', sizes))
      × (s'.num_components ≡ s.num_components)
      × (s'.components ≡ keys to s.components)
      × All (λ c. c < s.num_components) s'.components
      × ((c d : ℕ) → c < s.num_components → d < s.num_components → to c ≡ to d → c ≡ d)
      × (compute_sizes s' ≡ some sizes)
      × Descending sizes
unfolding sort_by_size order_of
sort_by_size_lem std s h =
    let (sizes, e, size, counts) = compute_sizes_lem s h in
    let (inv_perm, e', i) = invert-IsInverse std sizes in
    let i' : IsInverse s.num_components (order_of std sizes) inv_perm =
      subst (λ (n : ℕ). IsInverse n (order_of std sizes) inv_perm) size i in
    let bounded : All (λ c. c < length inv_perm) s.components =
      subst (λ (n : ℕ). All (λ c. c < n) s.components) (sym i'.sized) h in
    (
      record s { components = keys (size_of inv_perm) s.components },
      sort_by ge sizes,
      size_of inv_perm,
      rw (e, e', renumber-keys inv_perm s.components bounded) refl,
      refl,
      refl,
      keys-inside s.num_components (order_of std sizes) inv_perm i' s.components h,
      place-injective s.num_components (order_of std sizes) inv_perm i',
      renumbered_sizes std s sizes inv_perm size counts h i',
      sort_by-Descending sizes,
    )
