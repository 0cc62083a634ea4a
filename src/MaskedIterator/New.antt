-- ===== src/MaskedIterator/New.antt =====
-- `MaskedIterator::new`: the sums, and the block that is added for the remainder.
use rbsc.Base.{
  ℕ, ◌+◌, ◌-◌, ◌%◌, ◌≤◌, ◌<◌, ◌≡◌, refl, ap, ap₂, subst, All-append, ◌∙◌, arith, Bool, true, false,
  not, some, List, [], ◌∷◌, ◌++◌, append-nil, length, length-append, sum, take, drop, length-take,
  take-all, length-drop, ◌==◌, checked_sub-le, Bool-cases, inl, inr,
}
use rbsc.CopyList.{masked, ends_copying}
use rbsc.Compressor.Blocks.{AllPos, rest_of}
use rbsc.MaskedIterator.{ExactIterator, MaskedIterator, measure, new}
use rbsc.MaskedIterator.Yields.{Yields, MaskYields, Yields-len, Paired, in_block-Yields}

-- The sum of the blocks that are copied.
kept : Bool → List ℕ → ℕ
kept copying [] = 0
kept true (b ∷ bs) = b + kept false bs
kept false (b ∷ bs) = kept true bs

measure_lem :
    (blocks : List ℕ) (copying : Bool) (i size cumsum : ℕ)
    → (i % 2 == 0) ≡ copying
    → measure i size cumsum blocks ≡ (size + kept copying blocks, cumsum + sum blocks)
unfolding measure kept
measure_lem [] copying i size cumsum e = ap₂ (λ (m n : ℕ). (m, n)) (omega arith) (omega arith)
measure_lem (b ∷ bs) true i size cumsum e =
    let h = measure_lem bs false (i + 1) (size + b) (cumsum + b) (ground arith) in
    rw e (h ∙ ap₂ (λ (m n : ℕ). (m, n)) (omega arith) (omega arith))
measure_lem (b ∷ bs) false i size cumsum e =
    let h = measure_lem bs true (i + 1) (size + 0) (cumsum + b) (ground arith) in
    rw e (h ∙ ap₂ (λ (m n : ℕ). (m, n)) (omega arith) (omega arith))

parity_next : (i : ℕ) (copying : Bool) → (i % 2 == 0) ≡ copying → ((i + 1) % 2 == 0) ≡ not copying
parity_next i true e = ground arith
parity_next i false e = ground arith

parity :
    (blocks : List ℕ) (copying : Bool) (i n : ℕ)
    → (i % 2 == 0) ≡ copying
    → n ≡ i + length blocks
    → (n % 2 == 0) ≡ ends_copying copying blocks
parity [] copying i n e h = ap (λ (k : ℕ). k % 2 == 0) (omega arith) ∙ e
parity (b ∷ bs) copying i n e h =
    parity bs (not copying) (i + 1) n (parity_next i copying e) (omega arith)

length-masked :
    (blocks : List ℕ) (copying : Bool) (xs : List ℕ)
    → sum blocks ≤ length xs
    → ends_copying copying blocks ≡ false
    → length (masked copying blocks xs) ≡ kept copying blocks
unfolding kept
length-masked [] true xs h e = cc
length-masked [] false xs h e = refl
length-masked (b ∷ bs) true xs h e = omega (
  arith,
  length-append (take b xs) (masked false bs (drop b xs)),
  length-take b xs,
  length-drop b xs,
  length-masked bs false (drop b xs) (omega (arith, length-drop b xs)) e,
)
length-masked (b ∷ bs) false xs h e =
    length-masked bs true (drop b xs) (omega (arith, length-drop b xs)) e

kept-append :
    (blocks : List ℕ) (copying : Bool) (r : ℕ)
    → ends_copying copying blocks ≡ true
    → kept copying (blocks ++ r ∷ []) ≡ kept copying blocks + r
unfolding kept
kept-append [] true r e = omega arith
kept-append [] false r e = cc
kept-append (b ∷ bs) true r e = omega (arith, kept-append bs false r e)
kept-append (b ∷ bs) false r e = kept-append bs true r e

ends_copying-append :
    (blocks : List ℕ) (copying : Bool) (r : ℕ)
    → ends_copying copying (blocks ++ r ∷ []) ≡ not (ends_copying copying blocks)
ends_copying-append [] copying r = refl
ends_copying-append (b ∷ bs) copying r = ends_copying-append bs (not copying) r

-- What follows the blocks, as a block.
masked-append :
    (blocks : List ℕ) (copying : Bool) (xs : List ℕ) (r : ℕ)
    → ends_copying copying blocks ≡ true
    → length xs ≡ sum blocks + r
    → masked copying (blocks ++ r ∷ []) xs ≡ masked copying blocks xs
masked-append [] true xs r e h = append-nil (take r xs) ∙ take-all r xs (omega arith)
masked-append [] false xs r e h = cc
masked-append (b ∷ bs) true xs r e h =
    ap (λ (l : List ℕ). take b xs ++ l)
      (masked-append bs false (drop b xs) r e (omega (arith, length-drop b xs)))
masked-append (b ∷ bs) false xs r e h =
    masked-append bs true (drop b xs) r e (omega (arith, length-drop b xs))

Paired-of : (bs : List ℕ) → ends_copying false bs ≡ false → Paired bs
Paired-of [] e = tt
Paired-of (s ∷ []) e = cc
Paired-of (s ∷ c ∷ bs) e = Paired-of bs e

Paired-append : (bs : List ℕ) (r : ℕ) → ends_copying false bs ≡ true → Paired (bs ++ r ∷ [])
Paired-append [] r e = cc
Paired-append (s ∷ []) r e = tt
Paired-append (s ∷ c ∷ bs) r e = Paired-append bs r e

sum-append : (xs ys : List ℕ) → sum (xs ++ ys) ≡ sum xs + sum ys
sum-append [] ys = omega arith
sum-append (x ∷ xs) ys = omega (arith, sum-append xs ys)

module _ {I : Type 0} (it : ExactIterator I) (parent : I) (xs : List ℕ)
    (y : Yields it parent xs) where
  abbrev start : List ℕ → ℕ → MaskedIterator I
  start blocks size = record { parent = parent; blocks = blocks; block_idx = 0; size = size }

  start-Yields :
      (b : ℕ) (bs : List ℕ) (size : ℕ)
      → Paired bs
      → AllPos bs
      → b + sum bs ≤ length xs
      → MaskYields it (start (b ∷ bs) size) (masked true (b ∷ bs) xs)
  start-Yields b bs size = in_block-Yields it bs b [] parent xs size y

  abbrev Selects : List ℕ → Type 0
  Selects blocks =
      (m : MaskedIterator I) × (new it parent blocks ≡ some m)
      × (m.size ≡ length (masked true blocks xs))
      × MaskYields it m (masked true blocks xs)

  -- The blocks of a finished iterator: a copied one is the last.
  finished :
      (blocks : List ℕ)
      → AllPos (rest_of blocks)
      → sum blocks ≤ length xs
      → ends_copying true blocks ≡ false
      → (size : ℕ) → MaskYields it (start blocks size) (masked true blocks xs)
  finished [] p h e size = cc
  finished (b ∷ bs) p h e size = start-Yields b bs size (Paired-of bs e) p h

  new-odd :
      (blocks : List ℕ)
      → AllPos (rest_of blocks)
      → sum blocks ≤ length xs
      → ends_copying true blocks ≡ false
      → Selects blocks
  unfolding new
  new-odd blocks p h e =
      let odd : (length blocks % 2 == 0) ≡ false =
        parity blocks true 0 (length blocks) refl (omega arith) ∙ e in
      let size : 0 + kept true blocks ≡ length (masked true blocks xs) =
        omega (arith, length-masked blocks true xs h e) in
      (
        start blocks (0 + kept true blocks),
        rw
            (
              measure_lem blocks true 0 0 0 refl,
              Yields-len it parent xs y,
              checked_sub-le (length xs) (0 + sum blocks) (omega arith),
              odd,
            )
            (ground arith),
        size,
        finished blocks p h e (0 + kept true blocks),
      )

  -- A remainder is copied.
  new-even :
      (blocks : List ℕ)
      → AllPos (rest_of blocks)
      → sum blocks < length xs
      → ends_copying true blocks ≡ true
      → Selects blocks
  unfolding new
  new-even blocks p h e =
      let r = length xs - (0 + sum blocks) in
      let even : (length blocks % 2 == 0) ≡ true =
        parity blocks true 0 (length blocks) refl (omega arith) ∙ e in
      let some_left : (r == 0) ≡ false = ground arith in
      let same = masked-append blocks true xs r e (omega arith) in
      let fits : sum (blocks ++ r ∷ []) ≤ length xs = omega (arith, sum-append blocks (r ∷ [])) in
      let odd = ends_copying-append blocks true r ∙ ap not e in
      (
        start (blocks ++ r ∷ []) (0 + kept true blocks + r),
        rw
            (
              measure_lem blocks true 0 0 0 refl,
              Yields-len it parent xs y,
              checked_sub-le (length xs) (0 + sum blocks) (omega arith),
              even,
              some_left,
            )
            refl,
        omega (
          arith,
          ap length same,
          length-masked (blocks ++ r ∷ []) true xs fits odd,
          kept-append blocks true r e,
        ),
        subst (MaskYields it (start (blocks ++ r ∷ []) (0 + kept true blocks + r))) same
            (finished (blocks ++ r ∷ []) (later_blocks blocks r p (omega arith)) fits odd _),
      )
    where
      later_blocks :
          (bs : List ℕ) (r : ℕ) → AllPos (rest_of bs) → 0 < r → AllPos (rest_of (bs ++ r ∷ []))
      later_blocks [] r p h = tt
      later_blocks (b ∷ bs) r p h = All-append (λ (n : ℕ). 0 < n) bs (r ∷ []) p (h, tt)

-- On a parent that yields the list `xs`, whose length it knows, and blocks of which all but the first
-- are positive, that lie within `xs` and do not end with a skipped block at its very end: `new` does
-- not panic, the size is the number of values selected, and the calls of `next` return, without a
-- panic, what the blocks select from `xs` in order, and then `None`. What follows the blocks is selected
-- when their number is even, and not when it is odd.
pub new-MaskYields :
    {I : Type 0} (it : ExactIterator I) (parent : I) (xs blocks : List ℕ)
    → Yields it parent xs
    → AllPos (rest_of blocks)
    → sum blocks ≤ length xs
    → (ends_copying true blocks ≡ true → sum blocks < length xs)
    → (m : MaskedIterator I) × (new it parent blocks ≡ some m)
      × (m.size ≡ length (masked true blocks xs))
      × MaskYields it m (masked true blocks xs)
new-MaskYields it parent xs blocks y p h k = elim (Bool-cases (ends_copying true blocks)) [
  | inl e ↦ new-even it parent xs y blocks p (k e) e
  | inr e ↦ new-odd it parent xs y blocks p h e
]
