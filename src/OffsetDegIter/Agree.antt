-- ===== src/OffsetDegIter/Agree.antt =====
-- Readers that count nodes, next to readers of the nodes: rules, and the copy blocks.
use rbsc.Base.{
  ℕ, zero, suc, ◌+◌, ◌-◌, ◌%◌, ◌≤◌, ◌≡◌, refl, ap, subst, arith, Bool, Option, none, some, List, [],
  ◌++◌, length, length-append, length-take, length-drop, take, drop, leb, leb→le, ◌==◌, Bool-cases,
  inl, inr, slice, checked_sub, checked_sub-le,
}
use mathlib.Core.Option.{some-injective}
use rbsc.Codec.{CodeLibrary, CodeConsts, Component, block}
use rbsc.Sequential.{Reader, ◌>>=◌, pure, lift, read, read_next_blocks, read_blocks}
use rbsc.OffsetDegIter.{count_next_blocks, count_blocks}

-- Whenever `r` reads a list, `count` passes over the same bits and subtracts from the number it is given
-- the length of the list, less the `known` elements that `r` was given.
abbrev pub Counts : ℕ → Reader (List ℕ) → (ℕ → Reader ℕ) → Type 0
Counts known r count =
    (s : List Bool) (xs : List ℕ) (s' : List Bool)
    → r s ≡ some (xs, s')
    → (known ≤ length xs)
      × ((left : ℕ) → length xs ≤ left + known → count left s ≡ some (left + known - length xs, s'))

pub bind_inv :
    {A B : Type 0} (m : Reader A) (f : A → Reader B) (s : List Bool) (b : B × List Bool)
    → (m >>= f) s ≡ some b
    → (r : A × List Bool) × (m s ≡ some r) × (f r.0 r.1 ≡ some b)
bind_inv m f s b e = go (m s) refl
  where
    go : (o : Option _) → m s ≡ o → (r : _) × (m s ≡ some r) × (f r.0 r.1 ≡ some b)
    go none h = cc
    go (some r) h = (r, h, rw (◌>>=◌, h) at e)

slice-inv :
    (xs ys : List ℕ) (lo hi : ℕ)
    → slice xs lo hi ≡ some ys
    → (lo ≤ hi) × (hi ≤ length xs) × (length ys ≡ hi - lo)
unfolding slice
slice-inv xs ys lo hi e = elim (Bool-cases (leb lo hi)) [
  | inl a ↦ elim (Bool-cases (leb hi (length xs))) [
    | inl b ↦
        let f : some (take (hi - lo) (drop lo xs)) ≡ some ys = rw (a, b) at e in
        (
          leb→le lo hi a,
          leb→le hi (length xs) b,
          omega (
            arith,
            ap length (some-injective (take (hi - lo) (drop lo xs)) ys f),
            length-take (hi - lo) (drop lo xs),
            length-drop lo xs,
            leb→le lo hi a,
            leb→le hi (length xs) b,
          ),
        )
    | inr b ↦ let f : none ≡ some ys = rw (a, b) at e in cc
  ]
  | inr a ↦ let f : none ≡ some ys = rw a at e in cc
]

pub lift_inv :
    {A : Type 0} (o : Option A) (s : List Bool) (a : A) (s' : List Bool)
    → lift o s ≡ some (a, s')
    → (o ≡ some a) × (s ≡ s')
lift_inv none s a s' e = cc
lift_inv (some x) s a s' e =
    let p = some-injective (x, s) (a, s') e in (ap (λ q. some q.0) p, ap (λ q. q.1) p)

module _ (lib : CodeLibrary) (cs : CodeConsts) where
  pub Counts-pure : (xs : List ℕ) → Counts (length xs) (pure xs) (λ left. pure left)
  Counts-pure xs s ys s' e =
      let p = some-injective (xs, s) (ys, s') e in
      let same : length xs ≡ length ys = ap (λ q. length q.0) p in
      (
        omega arith,
        λ left l.
            let n : left + length xs - length ys ≡ left = omega arith in
            rw n (ap (λ q. some (left, q.1)) p),
      )

  pub Counts-read :
      (known : ℕ) (κ : Component) (k : ℕ → Reader (List ℕ)) (c : ℕ → ℕ → Reader ℕ)
      → ((b : ℕ) → Counts known (k b) (c b))
      → Counts known (read lib cs κ >>= k) (λ left. read lib cs κ >>= λ b. c b left)
  Counts-read known κ k c h s xs s' e =
      let ((b, s1), m, f) = bind_inv (read lib cs κ) k s (xs, s') e in
      let (le, rest) = h b s1 xs s' f in (le, λ left l. rw (◌>>=◌, m) (rest left l))

  -- A slice of `n` elements is copied.
  Counts-slice :
      (known n lo hi : ℕ) (ns : List ℕ) (k : List ℕ → Reader (List ℕ)) (c : ℕ → Reader ℕ)
      → n ≡ hi - lo
      → ((copied : List ℕ) → length copied ≡ n → Counts (known + n) (k copied) c)
      → Counts known (lift (slice ns lo hi) >>= k) (λ left. lift (checked_sub left n) >>= c)
  Counts-slice known n lo hi ns k c d h s xs s' e =
      let ((copied, s1), m, f) = bind_inv (lift (slice ns lo hi)) k s (xs, s') e in
      let (o, same) = lift_inv (slice ns lo hi) s copied s1 m in
      let (le, le', len) = slice-inv ns copied lo hi o in
      let size : length copied ≡ n = omega arith in
      let (known_le, rest) = h copied size s1 xs s' f in
      (
        omega arith,
        λ left l.
            let count = rest (left - n) (omega arith) in
            let e : left - n + (known + n) - length xs ≡ left + known - length xs = omega arith in
            rw (checked_sub-le left n (omega arith), ◌>>=◌, same, ← e) count,
      )

  Counts-known :
      (known known' : ℕ) (r : Reader (List ℕ)) (c : ℕ → Reader ℕ)
      → known ≡ known'
      → Counts known r c
      → Counts known' r c
  Counts-known known known' r c e h = subst (λ (k : ℕ). Counts k r c) e h

  Counts-last_block :
      (ns results : List ℕ) (idx : ℕ)
      → Counts
          (length results)
          (lift (slice ns idx (length ns)) >>= λ copied. pure (results ++ copied))
          (λ left. lift (checked_sub (length ns) idx) >>= λ copied. lift (checked_sub left copied))
  Counts-last_block ns results idx s xs s' e =
      let n = length ns - idx in
      let k : List ℕ → Reader (List ℕ) = λ copied. pure (results ++ copied) in
      let ((copied, s1), m, f) = bind_inv (lift (slice ns idx (length ns))) k s (xs, s') e in
      let (o, same) = lift_inv (slice ns idx (length ns)) s copied s1 m in
      let (le, le', len) = slice-inv ns copied idx (length ns) o in
      let p = some-injective (results ++ copied, s1) (xs, s') f in
      let size : length results + n ≡ length xs =
        omega (arith, length-append results copied, (ap (λ q. length q.0) p)) in
      (
        omega arith,
        λ left l.
            let d : left - n ≡ left + length results - length xs = omega arith in
            rw (checked_sub-le (length ns) idx le, checked_sub-le left n (omega arith), d, same)
              (ap (λ q. some (left + length results - length xs, q.1)) p),
      )

  Counts-next_blocks :
      (ns : List ℕ) (rounds block_id idx : ℕ) (results : List ℕ)
      → Counts
          (length results)
          (read_next_blocks lib cs ns rounds block_id idx results)
          (count_next_blocks lib cs (length ns) rounds block_id idx)
  unfolding read_next_blocks count_next_blocks
  Counts-next_blocks ns zero block_id idx results = elim (Bool-cases (block_id % 2 == 0)) [
    | inl e ↦ rw e (Counts-last_block ns results idx)
    | inr e ↦ rw e (Counts-pure results)
  ]
  Counts-next_blocks ns (suc rounds) block_id idx results = elim (Bool-cases (block_id % 2 == 0)) [
    | inl e ↦ rw e (
        Counts-read (length results) block _ _ (λ b.
          Counts-slice (length results) (b + 1) idx (idx + b + 1) ns _ _ (omega arith) (λ copied z.
            Counts-known (length (results ++ copied)) (length results + (b + 1)) _ _
              (omega (arith, length-append results copied))
              (Counts-next_blocks ns rounds (block_id + 1) (idx + b + 1) (results ++ copied)))))
    | inr e ↦ rw e (
        Counts-read (length results) block _ _ (λ b.
          Counts-known (length (results ++ [])) (length results) _ _
            (omega (arith, length-append results []))
            (Counts-next_blocks ns rounds (block_id + 1) (idx + b + 1) (results ++ []))))
  ]

  Counts-all : (ns : List ℕ) → Counts 0 (pure ns) (λ left. lift (checked_sub left (length ns)))
  Counts-all ns s xs s' e =
      let p = some-injective (ns, s) (xs, s') e in
      let size : length ns ≡ length xs = ap (λ q. length q.0) p in
      (
        omega arith,
        λ left l.
            let d : left - length ns ≡ left + 0 - length xs = omega arith in
            rw (checked_sub-le left (length ns) (omega arith), d)
              (ap (λ q. some (left + 0 - length xs, q.1)) p),
      )

  pub Counts-blocks :
      (ns : List ℕ) (rounds : ℕ)
      → Counts 0 (read_blocks lib cs ns rounds) (count_blocks lib cs (length ns) rounds)
  unfolding read_blocks count_blocks
  Counts-blocks ns zero = Counts-all ns
  Counts-blocks ns (suc rounds) = Counts-read 0 block _ _ (λ idx.
      Counts-slice 0 idx 0 idx ns _ _ (omega arith) (λ copied z.
        Counts-known (length copied) (0 + idx) _ _ (omega arith)
          (Counts-next_blocks ns rounds 1 idx copied)))
