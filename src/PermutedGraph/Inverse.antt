-- ===== src/PermutedGraph/Inverse.antt =====
-- What a permuted graph lends: the renumbered nodes and successors, which the inverse renumbering undoes.
use rbsc.Base.{
  ℕ, zero, suc, ◌+◌, ◌≡◌, refl, sym, ap, ◌∙◌, ◌<◌, arith, inl, inr, Option, none, some, List, [],
  ◌∷◌, length, map, All, ◌>>=◌, ◌==◌, if◌then◌else◌, Bool-cases,
}
use rbsc.DepthFirst.Invariant.{count}
use rbsc.PermutedGraph.{next_successor, next}

-- All that the calls of `next` return until the first `None`, in at most `calls` calls; `none` is a panic,
-- or a call that is missing.
abbrev pub drain {ℓ κ} :
    {S : Type ℓ} {A : Type κ} → (S → Option (S × Option A)) → ℕ → S → Option (List A)
drain next zero s = none
drain next (suc calls) s = next s >>= λ r. elim r.1 [
  | none ↦ some []
  | some a ↦ drain next calls r.0 >>= λ rest. some (a ∷ rest)
]

module _ (get : ℕ → Option ℕ) where
  -- All the successors.
  unfoldable pub collect : List ℕ → Option (List ℕ)
  unfolding next_successor
  collect iter = drain (next_successor get) (suc (length iter)) iter

  -- All the successors of each node that is lent.
  abbrev pub collect_each : List (ℕ × List ℕ) → Option (List (ℕ × List ℕ))
  collect_each [] = some []
  collect_each ((node, succ) ∷ items) = do
    ws ← collect succ
    vs ← collect_each items
    some ((node, ws) ∷ vs)

  -- All the nodes, with all their successors.
  unfoldable pub lend_all : List (ℕ × List ℕ) → Option (List (ℕ × List ℕ))
  unfolding next collect
  lend_all items = drain (next get) (suc (length items)) items >>= collect_each

-- A graph whose nodes are renumbered.
abbrev pub renumber : (ℕ → ℕ) → List (ℕ × List ℕ) → List (ℕ × List ℕ)
renumber f = map (λ i. (f i.0, map f i.1))

abbrev pub Inside : ℕ → List (ℕ × List ℕ) → Type 0
Inside n items = All (λ i. (i.0 < n) × All (λ v. v < n) i.1) items

-- How often an arc occurs.
abbrev pub count_arc : ℕ → ℕ → List (ℕ × List ℕ) → ℕ
count_arc u v [] = 0
count_arc u v ((node, succ) ∷ items) = (if node == u then count v succ else 0) + count_arc u v items

module _ (n : ℕ) (f : ℕ → ℕ) (get : ℕ → Option ℕ) (g : (v : ℕ) → v < n → get v ≡ some (f v)) where
  collect-map : (iter : List ℕ) → All (λ v. v < n) iter → collect get iter ≡ some (map f iter)
  unfolding collect next_successor
  collect-map [] h = refl
  collect-map (succ ∷ iter) h = let rest = collect-map iter h.1 in rw (g succ h.0, rest) refl

  collect_each-map :
      (items : List (ℕ × List ℕ))
      → Inside n items
      → collect_each get (map (λ i. (f i.0, i.1)) items) ≡ some (renumber f items)
  collect_each-map [] h = refl
  collect_each-map ((node, succ) ∷ items) h =
      rw (collect-map succ h.0.1, collect_each-map items h.1) refl

  drain-map :
      (items : List (ℕ × List ℕ))
      → Inside n items
      → drain (next get) (suc (length items)) items ≡ some (map (λ i. (f i.0, i.1)) items)
  unfolding next
  drain-map [] h = refl
  drain-map ((node, succ) ∷ items) h =
      let rest = drain-map items h.1 in rw (g node h.0.0, rest) refl

  lend_all-renumber :
      (items : List (ℕ × List ℕ)) → Inside n items → lend_all get items ≡ some (renumber f items)
  unfolding lend_all
  lend_all-renumber items h = rw (drain-map items h) (collect_each-map items h)

module _ (n : ℕ) (f back : ℕ → ℕ) (undo : (v : ℕ) → v < n → back (f v) ≡ v) where
  map-back : (xs : List ℕ) → All (λ v. v < n) xs → map back (map f xs) ≡ xs
  map-back [] h = refl
  map-back (x ∷ xs) h = rw (undo x h.0, map-back xs h.1) refl

  renumber-back :
      (items : List (ℕ × List ℕ)) → Inside n items → renumber back (renumber f items) ≡ items
  renumber-back [] h = refl
  renumber-back ((node, succ) ∷ items) h =
      rw (undo node h.0.0, map-back succ h.0.1, renumber-back items h.1) refl

  same_node : (v w : ℕ) → v < n → w < n → (f v == f w) ≡ (v == w)
  same_node v w h k = elim (Bool-cases (v == w)) [
    | inl e ↦ let same : v ≡ w = ground arith in rw same (ground arith)
    | inr e ↦ elim (Bool-cases (f v == f w)) [
      | inl e' ↦
          let equal : f v ≡ f w = ground arith in
          let same : v ≡ w = sym (undo v h) ∙ ap back equal ∙ undo w k in
          absurd (ground (arith, e, same))
      | inr e' ↦ e' ∙ sym e
    ]
  ]

  count-map :
      (v : ℕ) (xs : List ℕ) → v < n → All (λ w. w < n) xs → count (f v) (map f xs) ≡ count v xs
  count-map v [] h k = refl
  count-map v (x ∷ xs) h k = rw (same_node x v k.0 h, count-map v xs h k.1) refl

  count_arc-renumber :
      (u v : ℕ) (items : List (ℕ × List ℕ))
      → u < n
      → v < n
      → Inside n items
      → count_arc (f u) (f v) (renumber f items) ≡ count_arc u v items
  count_arc-renumber u v [] h k i = refl
  count_arc-renumber u v ((node, succ) ∷ items) h k i =
      rw (same_node node u i.0.0 h, count-map v succ k i.0.1, count_arc-renumber u v items h k i.1)
        refl

-- With a slice that holds `f v` at each node `v`, and another one that holds `v` at `f v`: the first
-- renumbering lends, without a panic, each node `v` as `f v` and its successors `w` as `f w`, in the order
-- of the graph, so that the arc from `f u` to `f v` occurs as often as the one from `u` to `v` does in the
-- graph; and the second renumbering of what is lent gives the graph again.
pub lend_all-back :
    (n : ℕ) (f back : ℕ → ℕ) (get get_back : ℕ → Option ℕ)
    → ((v : ℕ) → v < n → (get v ≡ some (f v)) × (f v < n))
    → ((v : ℕ) → v < n → (get_back v ≡ some (back v)) × (back (f v) ≡ v))
    → (items : List (ℕ × List ℕ)) → Inside n items
    → (lend_all get items ≡ some (renumber f items))
      × ((u v : ℕ) → u < n → v < n → count_arc (f u) (f v) (renumber f items) ≡ count_arc u v items)
      × (lend_all get_back (renumber f items) ≡ some items)
lend_all-back n f back get get_back has has_back items h =
    let undo : (v : ℕ) → v < n → back (f v) ≡ v = λ v b. (has_back v b).1 in
    (
      lend_all-renumber n f get (λ v b. (has v b).0) items h,
      λ u v b c. count_arc-renumber n f back undo u v items b c h,
      lend_all-renumber n back get_back (λ v b. (has_back v b).0) (renumber f items)
            (renumber-Inside items h)
          ∙ ap some (renumber-back n f back undo items h),
    )
  where
    map-Below : (xs : List ℕ) → All (λ v. v < n) xs → All (λ v. v < n) (map f xs)
    map-Below [] i = tt
    map-Below (x ∷ xs) i = ((has x i.0).1, map-Below xs i.1)

    renumber-Inside : (items : List (ℕ × List ℕ)) → Inside n items → Inside n (renumber f items)
    renumber-Inside [] i = tt
    renumber-Inside ((node, succ) ∷ items) i =
        (((has node i.0.0).1, map-Below succ i.0.1), renumber-Inside items i.1)
