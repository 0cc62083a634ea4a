-- ===== src/MaskedIterator/Yields.antt =====
-- A masked iterator next to the list that its blocks select from the parent's values: the calls of `next`.
use rbsc.Base.{
  ℕ, zero, suc, ◌+◌, ◌-◌, ◌≤◌, ◌≡◌, refl, ap, ◌∙◌, arith, true, false, none, some, List, [], ◌∷◌,
  ◌++◌, append_assoc, length, length-append, sum, drop, length-drop, get_elem?, get_elem?-middle,
  get_elem?-append, set-middle, ◌==◌, leb, checked_sub-le,
}
use rbsc.CopyList.{masked}
use rbsc.Compressor.Blocks.{AllPos}
use rbsc.MaskedIterator.{
  ExactIterator, MaskedIterator, skip, next_in_block, next_behind_block, next,
}

module _ {I : Type 0} (it : ExactIterator I) where
  -- The iterator knows how many values are left, yields these, and then ends as often as it is asked.
  abbrev pub Yields : I → List ℕ → Type 0
  Yields i [] = (it.len i ≡ 0) × (it.next i ≡ some (none, i))
  Yields i (x ∷ xs) =
      (it.len i ≡ suc (length xs)) × ((i' : I) × (it.next i ≡ some (some x, i')) × Yields i' xs)

  -- A masked iterator yields these values and then ends. It may not be asked again.
  abbrev pub MaskYields : MaskedIterator I → List ℕ → Type 0
  MaskYields m [] = (m' : MaskedIterator I) × (next it m ≡ some (none, m'))
  MaskYields m (x ∷ xs) =
      (m' : MaskedIterator I) × (next it m ≡ some (some x, m')) × MaskYields m' xs

  pub Yields-len : (i : I) (xs : List ℕ) → Yields i xs → it.len i ≡ length xs
  Yields-len i [] y = y.0
  Yields-len i (x ∷ xs) y = y.0

  skip-Yields :
      (n : ℕ) (i : I) (xs : List ℕ)
      → n ≤ length xs
      → Yields i xs
      → (i' : I) × (skip it n i ≡ some i') × Yields i' (drop n xs)
  unfolding skip
  skip-Yields zero i xs h y = (i, refl, y)
  skip-Yields (suc n) i [] h y = absurd (omega arith)
  skip-Yields (suc n) i (x ∷ xs) h y =
      let (i1, e, rest) = y.1 in
      let (i2, later, z) = skip-Yields n i1 xs (omega arith) rest in (i2, rw (e, later), z)

-- Skipped and copied blocks in turn, behind a copied one.
abbrev pub Paired : List ℕ → Type 0
Paired [] = Unit {0}
Paired (s ∷ []) = ⊥
Paired (s ∷ c ∷ bs) = Paired bs

module _ {I : Type 0} (it : ExactIterator I) where
  -- The iterator in the block `b`, with `bs` behind it.
  abbrev pub in_block : I → List ℕ → ℕ → List ℕ → ℕ → MaskedIterator I
  in_block parent pre b bs size = record {
    parent = parent;
    blocks = pre ++ b ∷ bs;
    block_idx = length pre;
    size = size;
  }

  -- The blocks `0` and `s` are behind the iterator.
  two_blocks :
      (parent : I) (pre : List ℕ) (s c : ℕ) (bs : List ℕ) (size : ℕ)
      → ◌≡◌ {A = MaskedIterator I}
          (record {
            parent = parent;
            blocks = pre ++ 0 ∷ s ∷ c ∷ bs;
            block_idx = length pre + 1 + 1;
            size = size;
          })
          (in_block parent (pre ++ 0 ∷ s ∷ []) c bs size)
  two_blocks parent pre s c bs size =
      let idx : length (pre ++ 0 ∷ s ∷ []) ≡ length pre + 1 + 1 =
        omega (arith, length-append pre (0 ∷ s ∷ [])) in
      rw (append_assoc pre (0 ∷ s ∷ []) (c ∷ bs), idx)

  next_in_block_lem :
      (parent parent' : I) (pre : List ℕ) (b : ℕ) (bs : List ℕ) (size x : ℕ)
      → it.next parent ≡ some (some x, parent')
      → next_in_block it (in_block parent pre (suc b) bs size)
        ≡ some (some x, in_block parent' pre b bs size)
  unfolding next_in_block
  next_in_block_lem parent parent' pre b bs size x e =
      let back : suc b - 1 ≡ b = omega arith in
      rw (
        e,
        get_elem?-middle pre (suc b) bs,
        checked_sub-le (suc b) 1 (omega arith),
        back,
        set-middle pre (suc b) bs b,
      )

  next-in_block :
      (parent parent' : I) (pre : List ℕ) (b : ℕ) (bs : List ℕ) (size x : ℕ)
      → it.next parent ≡ some (some x, parent')
      → next it (in_block parent pre (suc b) bs size)
        ≡ some (some x, in_block parent' pre b bs size)
  unfolding next
  next-in_block parent parent' pre b bs size x e =
      let pos : (suc b == 0) ≡ false = ground arith in
      rw (get_elem?-middle pre (suc b) bs, pos) (next_in_block_lem parent parent' pre b bs size x e)

  next-last :
      (parent : I) (pre : List ℕ) (size : ℕ)
      → (m : MaskedIterator I) × (next it (in_block parent pre 0 [] size) ≡ some (none, m))
  unfolding next next_behind_block
  next-last parent pre size =
      let last : leb (length (pre ++ 0 ∷ [])) (length pre + 1) ≡ true =
        ground (arith, length-append pre (0 ∷ [])) in
      (
        record (in_block parent pre 0 [] size) { block_idx = length pre + 1 },
        rw (get_elem?-middle pre 0 [], last),
      )

  next-behind_block :
      (parent parent1 parent2 : I) (pre : List ℕ) (s c : ℕ) (bs : List ℕ) (size x : ℕ)
      → skip it s parent ≡ some parent1
      → it.next parent1 ≡ some (some x, parent2)
      → next it (in_block parent pre 0 (s ∷ suc c ∷ bs) size)
        ≡ some (some x, in_block parent2 (pre ++ 0 ∷ s ∷ []) c bs size)
  unfolding next next_behind_block
  next-behind_block parent parent1 parent2 pre s c bs size x e f =
      let blocks = pre ++ 0 ∷ s ∷ suc c ∷ bs in
      let more : leb (length blocks) (length pre + 1) ≡ false =
        ground (arith, length-append pre (0 ∷ s ∷ suc c ∷ bs)) in
      let skipped : get_elem? blocks (length pre + 1) ≡ some s =
        get_elem?-append pre (0 ∷ s ∷ suc c ∷ bs) (length pre + 1) 1 refl in
      let copied : get_elem? blocks (length pre + 1 + 1) ≡ some (suc c) =
        get_elem?-append pre (0 ∷ s ∷ suc c ∷ bs) (length pre + 1 + 1) 2 (omega arith) in
      rw (get_elem?-middle pre 0 (s ∷ suc c ∷ bs), more, skipped, e, copied)
        (ap (next_in_block it) (two_blocks parent1 pre s (suc c) bs size)
          ∙ next_in_block_lem parent1 parent2 (pre ++ 0 ∷ s ∷ []) c bs size x f)

  -- From a copied block `b` on, with skipped and copied blocks in turn behind it.
  pub in_block-Yields :
      (bs : List ℕ) (b : ℕ) (pre : List ℕ) (parent : I) (xs : List ℕ) (size : ℕ)
      → Yields it parent xs
      → Paired bs
      → AllPos bs
      → b + sum bs ≤ length xs
      → MaskYields it (in_block parent pre b bs size) (masked true (b ∷ bs) xs)
  in_block-Yields bs (suc b) pre parent [] size y e p h = absurd (omega arith)
  in_block-Yields bs (suc b) pre parent (x ∷ xs) size y e p h =
      let (parent', taken, later) = y.1 in
      (
        in_block parent' pre b bs size,
        next-in_block parent parent' pre b bs size x taken,
        in_block-Yields bs b pre parent' xs size later e p (omega arith),
      )
  in_block-Yields [] zero pre parent xs size y e p h = next-last parent pre size
  in_block-Yields (s ∷ []) zero pre parent xs size y e p h = absurd e
  in_block-Yields (s ∷ zero ∷ bs) zero pre parent xs size y e p h = absurd (omega arith)
  in_block-Yields (s ∷ suc c ∷ bs) zero pre parent xs size y e p h =
      let (parent1, skipped, z) = skip-Yields it s parent xs (omega arith) y in
      behind_block-Yields bs s c pre parent parent1 (drop s xs) size skipped z
        (λ parent2 xs' z' k. in_block-Yields bs c (pre ++ 0 ∷ s ∷ []) parent2 xs' size z' e p.1.1 k)
        (omega (arith, length-drop s xs))
    where
      behind_block-Yields :
          (bs : List ℕ) (s c : ℕ) (pre : List ℕ) (parent parent1 : I) (xs : List ℕ) (size : ℕ)
          → skip it s parent ≡ some parent1
          → Yields it parent1 xs
          → ((parent2 : I) (xs' : List ℕ)
              → Yields it parent2 xs'
              → c + sum bs ≤ length xs'
              → MaskYields it
                  (in_block parent2 (pre ++ 0 ∷ s ∷ []) c bs size)
                  (masked true (c ∷ bs) xs'))
          → suc c + sum bs ≤ length xs
          → MaskYields it
              (in_block parent pre 0 (s ∷ suc c ∷ bs) size)
              (masked true (suc c ∷ bs) xs)
      behind_block-Yields bs s c pre parent parent1 [] size skipped z later h = absurd (omega arith)
      behind_block-Yields bs s c pre parent parent1 (x ∷ xs) size skipped z later h =
          let (parent2, taken, rest) = z.1 in
          (
            in_block parent2 (pre ++ 0 ∷ s ∷ []) c bs size,
            next-behind_block parent parent1 parent2 pre s c bs size x skipped taken,
            later parent2 xs rest (omega arith),
          )
