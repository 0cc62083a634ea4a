-- ===== src/RandomAccess/Merge.antt =====
-- `Succ::next`: the nodes that are copied, those of the intervals and the residuals are merged.
use Prim.Native.Nat.{min}
use rbsc.Base.{
  ℕ, suc, ◌-◌, ◌<◌, ◌≡◌, refl, ap, ◌∙◌, arith, true, false, some, List, ◌∷◌, length, All, Ascending,
  Interleave, done, left, right, Interleave-All_left, Interleave-All_right, ◌==◌, leb,
}
use rbsc.Codec.{CodeLibrary, CodeConsts}
use rbsc.MaskedIterator.{ExactIterator}
use rbsc.MaskedIterator.Yields.{Yields}
use rbsc.RandomAccess.{Succ, usize_max, len, forward_copied, next_node, next, succ_iterator}
use rbsc.RandomAccess.Parts.{
  Spans, Copies, Residuals, next_copied-Copies, forward_residual-Residuals, forward_interval-Spans,
}
use rbsc.RandomAccess.Above.{IsAbove, Ascending-IsAbove, Spans-above, Copies-above, Residuals-above}

module _ (lib : CodeLibrary) (cs : CodeConsts) {P : Type 0} (it : ExactIterator P) where
  -- The parts of a state, of which the nodes to be copied, those of the intervals and the residuals
  -- are left.
  pub record IsLeft (s : Succ P) (copied spanned residuals : List ℕ) : Type 0 where
    pub copies : Copies it s.next_copied_node s.copied_nodes_iter copied
    pub spans : Spans s.next_interval_node s.intervals s.intervals_idx spanned
    pub rests : Residuals lib cs s.next_residual_node s.residuals_to_go s.reader residuals

  abbrev lowered : Succ P → Succ P
  lowered s = record s { size = s.size - 1 }

  next-size :
      (s : Succ P) (n : ℕ) → s.size ≡ suc n → next lib cs it s ≡ next_node lib cs it (lowered s)
  unfolding next
  next-size s n e = let pos : (s.size == 0) ≡ false = ground arith in rw pos

  -- The smallest node is copied.
  next-copied :
      (s : Succ P) (x : ℕ) (copied spanned residuals : List ℕ)
      → IsLeft s (x ∷ copied) spanned residuals
      → x < usize_max - 1
      → IsAbove x spanned
      → IsAbove x residuals
      → (s' : Succ P) × (next_node lib cs it s ≡ some (some x, s'))
        × (s'.size ≡ s.size)
        × IsLeft s' copied spanned residuals
  unfolding next_node forward_copied
  next-copied s x copied spanned residuals i h a b =
      let ((node, o), e, left_behind) =
        next_copied-Copies it s.next_copied_node s.copied_nodes_iter x copied i.copies in
      let first : leb s.next_copied_node (min s.next_residual_node s.next_interval_node) ≡ true =
        ground (
          arith,
          i.copies.0,
          Spans-above x s.next_interval_node s.intervals s.intervals_idx spanned h a i.spans,
          Residuals-above lib cs x s.next_residual_node s.residuals_to_go s.reader residuals h b
              i.rests,
        ) in
      (
        record s { next_copied_node = node; copied_nodes_iter = o },
        rw (first, e)
            (ap
              (λ (n : ℕ).
                some (some n, record s { next_copied_node = node; copied_nodes_iter = o }))
              i.copies.0),
        refl,
        record { copies = left_behind; spans = i.spans; rests = i.rests },
      )

  -- It is a residual.
  next-residual :
      (s : Succ P) (x : ℕ) (copied spanned residuals : List ℕ)
      → IsLeft s copied spanned (x ∷ residuals)
      → x < usize_max - 1
      → IsAbove x copied
      → IsAbove x spanned
      → (s' : Succ P) × (next_node lib cs it s ≡ some (some x, s'))
        × (s'.size ≡ s.size)
        × IsLeft s' copied spanned residuals
  unfolding next_node
  next-residual s x copied spanned residuals i h a b =
      let (node, to_go, reader, e, left_behind) =
        forward_residual-Residuals lib cs s x residuals i.rests in
      let least = min s.next_residual_node s.next_interval_node in
      let above_x =
        Spans-above x s.next_interval_node s.intervals s.intervals_idx spanned h b i.spans in
      let is_x : least ≡ x = omega (arith, i.rests.0, above_x) in
      let first : leb s.next_copied_node least ≡ false = ground (
        arith,
        is_x,
        Copies-above it x s.next_copied_node s.copied_nodes_iter copied h a i.copies,
      ) in
      let second : (least == s.next_residual_node) ≡ true = ground (arith, is_x, i.rests.0) in
      (
        record s { reader = reader; residuals_to_go = to_go; next_residual_node = node },
        rw (first, second, e)
            (ap
              (λ (n : ℕ). some (
                some n,
                record s { reader = reader; residuals_to_go = to_go; next_residual_node = node },
              ))
              is_x),
        refl,
        record { copies = i.copies; spans = i.spans; rests = left_behind },
      )

  -- It belongs to an interval.
  next-interval :
      (s : Succ P) (x : ℕ) (copied spanned residuals : List ℕ)
      → IsLeft s copied (x ∷ spanned) residuals
      → x < usize_max - 1
      → IsAbove x copied
      → IsAbove x residuals
      → (s' : Succ P) × (next_node lib cs it s ≡ some (some x, s'))
        × (s'.size ≡ s.size)
        × IsLeft s' copied spanned residuals
  unfolding next_node
  next-interval s x copied spanned residuals i h a b =
      let (node, intervals, idx, e, left_behind) = forward_interval-Spans s x spanned i.spans in
      let least = min s.next_residual_node s.next_interval_node in
      let above_x =
        Residuals-above lib cs x s.next_residual_node s.residuals_to_go s.reader residuals h b
          i.rests in
      let is_x : least ≡ x = omega (arith, i.spans.0, above_x) in
      let first : leb s.next_copied_node least ≡ false = ground (
        arith,
        is_x,
        Copies-above it x s.next_copied_node s.copied_nodes_iter copied h a i.copies,
      ) in
      let second : (least == s.next_residual_node) ≡ false = ground (arith, is_x, above_x) in
      (
        record s { intervals = intervals; next_interval_node = node; intervals_idx = idx },
        rw (first, second, e)
            (ap
              (λ (n : ℕ). some (
                some n,
                record s { intervals = intervals; next_interval_node = node; intervals_idx = idx },
              ))
              is_x),
        refl,
        record { copies = i.copies; spans = left_behind; rests = i.rests },
      )

  -- What one call leaves, as `next_node` returns it behind the test of the size.
  abbrev Leaves : Succ P → ℕ → List ℕ → List ℕ → List ℕ → Type 0
  Leaves s x copied spanned residuals =
      (s' : Succ P) × (next_node lib cs it s ≡ some (some x, s'))
      × (s'.size ≡ s.size)
      × IsLeft s' copied spanned residuals

  next-Leaves :
      (s : Succ P) (x : ℕ) (nodes copied spanned residuals : List ℕ)
      → s.size ≡ suc (length nodes)
      → Leaves (lowered s) x copied spanned residuals
      → ((s' : Succ P)
          → s'.size ≡ length nodes
          → IsLeft s' copied spanned residuals
          → Yields (succ_iterator lib cs it) s' nodes)
      → Yields (succ_iterator lib cs it) s (x ∷ nodes)
  unfolding len
  next-Leaves s x nodes copied spanned residuals e (s', called, size, l) later =
      (e, (s', next-size s (length nodes) e ∙ called, later s' (omega arith) l))

  same_parts :
      (s : Succ P) (copied spanned residuals : List ℕ)
      → IsLeft s copied spanned residuals
      → IsLeft (lowered s) copied spanned residuals
  same_parts s copied spanned residuals l = record {
    copies = l.copies;
    spans = l.spans;
    rests = l.rests;
  }

  -- A state whose three parts have the nodes of a strictly increasing list left, each part in order,
  -- and whose size is the number of these nodes, all below `usize::MAX - 1`: `len` is exact, and the
  -- calls of `next` return these nodes in increasing order, without a panic, and then `None` as often
  -- as they are repeated.
  pub next-Yields :
      {nodes copied extra spanned residuals : List ℕ} (lo : ℕ) (s : Succ P)
      → Interleave copied extra nodes
      → Interleave spanned residuals extra
      → IsLeft s copied spanned residuals
      → s.size ≡ length nodes
      → Ascending lo nodes
      → All (λ x. x < usize_max - 1) nodes
      → Yields (succ_iterator lib cs it) s nodes
  unfolding next len IsAbove
  next-Yields lo s done done l e a h = (e, rw e)
  next-Yields {copied = x ∷ copied} {spanned = spanned} {residuals = residuals} lo s
        (left {zs = nodes} _ i) j l e a h =
      let extra_above = Interleave-All_right (λ y. x < y) i (Ascending-IsAbove x nodes a.1) in
      next-Leaves s x nodes copied spanned residuals e
        (next-copied (lowered s) x copied spanned residuals
          (same_parts s (x ∷ copied) spanned residuals l) h.0
          (Interleave-All_left (λ y. x < y) j extra_above)
          (Interleave-All_right (λ y. x < y) j extra_above))
        (λ s' size l'. next-Yields (suc x) s' i j l' size a.1 h.1)
  next-Yields {copied = copied} {spanned = x ∷ spanned} {residuals = residuals} lo s
        (right {zs = nodes} _ i) (left _ j) l e a h =
      let above = Ascending-IsAbove x nodes a.1 in
      next-Leaves s x nodes copied spanned residuals e
        (next-interval (lowered s) x copied spanned residuals
          (same_parts s copied (x ∷ spanned) residuals l) h.0
          (Interleave-All_left (λ y. x < y) i above)
          (Interleave-All_right (λ y. x < y) j (Interleave-All_right (λ y. x < y) i above)))
        (λ s' size l'. next-Yields (suc x) s' i j l' size a.1 h.1)
  next-Yields {copied = copied} {spanned = spanned} {residuals = x ∷ residuals} lo s
        (right {zs = nodes} _ i) (right _ j) l e a h =
      let above = Ascending-IsAbove x nodes a.1 in
      next-Leaves s x nodes copied spanned residuals e
        (next-residual (lowered s) x copied spanned residuals
          (same_parts s copied spanned (x ∷ residuals) l) h.0
          (Interleave-All_left (λ y. x < y) i above)
          (Interleave-All_left (λ y. x < y) j (Interleave-All_right (λ y. x < y) i above)))
        (λ s' size l'. next-Yields (suc x) s' i j l' size a.1 h.1)
