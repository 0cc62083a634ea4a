-- ===== src/RandomAccess/Parts.antt =====
-- The three parts of a `Succ`: what is left of each, and what each yields when it is forwarded.
use rbsc.Base.{
  ℕ, zero, suc, ◌+◌, ◌-◌, ◌≤◌, ◌<◌, ◌≡◌, refl, sym, ap, subst, arith, Bool, false, Option, some,
  List, [], ◌∷◌, ◌++◌, length, append_assoc, length-append, All, Ascending, range, checked_sub-le,
  get_elem?-middle, set-middle, ◌==◌, if◌then◌else◌,
}
use rbsc.Codec.{CodeLibrary, CodeConsts, residual, encode_all}
use rbsc.Codec.Laws.{decode-encode_all}
use rbsc.MaskedIterator.{ExactIterator, MaskedIterator}
use rbsc.MaskedIterator.Yields.{MaskYields}
use rbsc.Sequential.ExtraTrip.{IsNode, next_residual_symbols}
use rbsc.RandomAccess.{Succ, usize_max, len, next_copied, forward_interval, forward_residual}

-- The nodes of the intervals, and the interval that ends the vector.
abbrev pub nodes_of : List (ℕ × ℕ) → List ℕ
nodes_of [] = []
nodes_of ((start, len) ∷ pairs) = range start len ++ nodes_of pairs

abbrev pub sentinel : ℕ × ℕ
sentinel = (usize_max - 1, 1)

abbrev pub AllLong : List (ℕ × ℕ) → Type 0
AllLong = All (λ p. 0 < p.1)

-- A part that is used up shows a node above all others.
abbrev pub Absent : ℕ → Type 0
Absent node = usize_max - 1 ≤ node

-- The nodes of the intervals that are left, the first of which is in `node`.
abbrev pub Spans : ℕ → List (ℕ × ℕ) → ℕ → List ℕ → Type 0
Spans node intervals idx [] = Absent node
Spans node intervals idx (x ∷ xs) =
    (node ≡ x)
    × (pre : List (ℕ × ℕ)) × (pairs : List (ℕ × ℕ)) × (intervals ≡ pre ++ (pairs ++ sentinel ∷ []))
    × (idx ≡ length pre)
    × AllLong pairs
    × (nodes_of pairs ≡ xs)

module _ {P : Type 0} (it : ExactIterator P) where
  -- The nodes to be copied that are left.
  abbrev pub Copies : ℕ → Option (MaskedIterator P) → List ℕ → Type 0
  Copies node o [] = Absent node
  Copies node o (x ∷ xs) = (node ≡ x) × (m : MaskedIterator P) × (o ≡ some m) × MaskYields it m xs

  pub next_copied-Copies :
      (node : ℕ) (o : Option (MaskedIterator P)) (x : ℕ) (xs : List ℕ)
      → Copies node o (x ∷ xs)
      → (r : ℕ × Option (MaskedIterator P)) × (next_copied it o ≡ some r) × Copies r.0 r.1 xs
  unfolding next_copied
  next_copied-Copies node o x [] (e, m, f, (m', g)) = ((usize_max, some m'), rw (f, g), omega arith)
  next_copied-Copies node o x (y ∷ ys) (e, m, f, (m', g, h)) =
      ((y, some m'), rw (f, g), (refl, m', refl, h))

module _ (lib : CodeLibrary) (cs : CodeConsts) where
  -- The residuals that are left: all but the first are still in the stream.
  abbrev pub Residuals : ℕ → ℕ → List Bool → List ℕ → Type 0
  Residuals node to_go reader [] = Absent node
  Residuals node to_go reader (x ∷ xs) =
      (node ≡ x)
      × (to_go ≡ length xs)
      × (rest : List Bool) × (reader ≡ encode_all lib cs (next_residual_symbols x xs) ++ rest)
      × Ascending (suc x) xs
      × All IsNode xs

  module _ {P : Type 0} where
    pub forward_residual-Residuals :
        (s : Succ P) (x : ℕ) (xs : List ℕ)
        → Residuals s.next_residual_node s.residuals_to_go s.reader (x ∷ xs)
        → (node to_go : ℕ) × (reader : List Bool) × (forward_residual lib cs s
            ≡ some
                (record s { reader = reader; residuals_to_go = to_go; next_residual_node = node }))
          × Residuals node to_go reader xs
    unfolding forward_residual
    forward_residual-Residuals s x [] (e, f, rest, g, a, n) =
        (usize_max, s.residuals_to_go, s.reader, rw f, omega arith)
    forward_residual-Residuals s x (y ∷ ys) (e, f, rest, g, a, n) =
        let more : (s.residuals_to_go == 0) ≡ false = ground arith in
        let at_y : s.next_residual_node + (1 + (y - x - 1)) ≡ y = omega arith in
        (
          y,
          s.residuals_to_go - 1,
          encode_all lib cs (next_residual_symbols y ys) ++ rest,
          rw (
            more,
            g,
            decode-encode_all lib cs residual (y - x - 1) (next_residual_symbols y ys) rest
                (omega arith),
            at_y,
          ),
          (refl, omega arith, rest, refl, a.1, n.1),
        )

module _ {P : Type 0} (s : Succ P) where
  -- The state behind `forward_interval`.
  abbrev pub forwarded : List (ℕ × ℕ) → ℕ → ℕ → Succ P
  forwarded intervals node idx = record s {
    intervals = intervals;
    next_interval_node = node;
    intervals_idx = idx;
  }

  -- The vector is cut behind the interval at which it is read.
  forward_interval_lem :
      (pre : List (ℕ × ℕ)) (start len : ℕ) (pairs : List (ℕ × ℕ)) (idx : ℕ)
      → s.intervals ≡ pre ++ (start, suc len) ∷ pairs
      → s.intervals_idx ≡ length pre
      → length pre + (if len == 0 then 1 else 0) ≡ idx
      → forward_interval s ≡ some (forwarded (pre ++ (start + 1, len) ∷ pairs) start idx)
  unfolding forward_interval
  forward_interval_lem pre start len pairs idx e f g =
      let left_in_interval : suc len - 1 ≡ len = omega arith in
      rw (
        e,
        f,
        get_elem?-middle pre (start, suc len) pairs,
        checked_sub-le (suc len) 1 (omega arith),
        left_in_interval,
        set-middle pre (start, suc len) pairs (start + 1, len),
        g,
      )

  abbrev pub Forwards : List ℕ → Type 0
  Forwards xs =
      (node : ℕ) × (intervals : List (ℕ × ℕ)) × (idx : ℕ) × (forward_interval s
        ≡ some (forwarded intervals node idx))
      × Spans node intervals idx xs

  pub forward_interval-Spans :
      (x : ℕ) (xs : List ℕ)
      → Spans s.next_interval_node s.intervals s.intervals_idx (x ∷ xs)
      → Forwards xs
  forward_interval-Spans x xs (e, pre, [], f, g, l, h) = (
    usize_max - 1,
    pre ++ (usize_max - 1 + 1, 0) ∷ [],
    length pre + 1,
    forward_interval_lem pre (usize_max - 1) 0 [] (length pre + 1) f g refl,
    subst (Spans (usize_max - 1) (pre ++ (usize_max - 1 + 1, 0) ∷ []) (length pre + 1)) h
        (omega arith),
  )
  forward_interval-Spans x xs (e, pre, (start, zero) ∷ pairs, f, g, l, h) = absurd (omega arith)
  forward_interval-Spans x xs (e, pre, (start, suc zero) ∷ pairs, f, g, l, h) = (
    start,
    _,
    length pre + 1,
    forward_interval_lem pre start 0 (pairs ++ sentinel ∷ []) (length pre + 1) f g refl,
    subst (Spans start (pre ++ (start + 1, 0) ∷ (pairs ++ sentinel ∷ [])) (length pre + 1)) h (
      refl,
      pre ++ (start + 1, 0) ∷ [],
      pairs,
      sym (append_assoc pre ((start + 1, 0) ∷ []) (pairs ++ sentinel ∷ [])),
      omega (arith, length-append pre ((start + 1, 0) ∷ [])),
      l.1,
      refl,
    ),
  )
  forward_interval-Spans x xs (e, pre, (start, suc (suc len)) ∷ pairs, f, g, l, h) = (
    start,
    _,
    length pre,
    forward_interval_lem pre start (suc len) (pairs ++ sentinel ∷ []) (length pre) f g
        (ground arith),
    subst (Spans start (pre ++ (start + 1, suc len) ∷ (pairs ++ sentinel ∷ [])) (length pre)) h (
      refl,
      pre,
      (start + 1, suc len) ∷ pairs,
      refl,
      refl,
      (omega arith, l.1),
      ap (λ (n : ℕ). range n (suc len) ++ nodes_of pairs) (omega arith),
    ),
  )
