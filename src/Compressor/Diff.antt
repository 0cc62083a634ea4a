-- ===== src/Compressor/Diff.antt =====
-- `diff_comp`: the rounds of its loop, and what it leaves in the two buffers.
use rbsc.Base.{
  ℕ, zero, suc, ◌+◌, ◌*◌, ◌≤◌, ◌<◌, ◌≡◌, refl, ◌⊎◌, inl, inr, arith, Bool, true, false, some, List,
  [], ◌∷◌, length, sum, Interleave, less, equal, greater, compare-cases,
}
use rbsc.CopyList.{masked, ends_copying}
use rbsc.Compressor.{Pushed, diff_end, push_block, push_extra, diff_loop, bump_first, diff_comp}
use rbsc.Compressor.Blocks.{
  AllPos, rest_of, Ready, IsDiff, IsDiff-end_curr, IsDiff-end_ref, IsDiff-stop, IsDiff-resume,
  IsDiff-extra, IsDiff-copy, IsDiff-skip,
}

-- Twice the elements left, and one for a change of `copying` that has to come first.
abbrev Enough : ℕ → List ℕ → List ℕ → Bool → Type 0
Enough fuel curr ref copying =
    (2 * (length curr + length ref) + 1 < fuel)
    ⊎ (Ready copying curr ref × (2 * (length curr + length ref) < fuel))

Enough-lt :
    (fuel : ℕ) (curr ref : List ℕ) (copying : Bool)
    → Enough fuel curr ref copying
    → 2 * (length curr + length ref) < fuel
Enough-lt fuel curr ref copying (inl h) = omega arith
Enough-lt fuel curr ref copying (inr h) = h.1

Ends : ℕ → List ℕ → List ℕ → ℕ → Bool → Type 0
Ends fuel curr ref len copying =
    (p : Pushed) × (diff_loop fuel curr ref len copying ≡ some p) × IsDiff curr ref len copying p

diff_loop-Ends :
    (fuel : ℕ) (curr ref : List ℕ) (len : ℕ) (copying : Bool)
    → Enough fuel curr ref copying
    → Ends fuel curr ref len copying
unfolding diff_loop Ends
diff_loop-Ends zero curr ref len copying h =
    absurd (omega (arith, Enough-lt zero curr ref copying h))
diff_loop-Ends (suc fuel) [] ref len copying h =
    (diff_end [] ref len copying, refl, IsDiff-end_curr ref len copying)
diff_loop-Ends (suc fuel) (x ∷ xs) [] len copying h =
    (diff_end (x ∷ xs) [] len copying, refl, IsDiff-end_ref x xs len copying)
diff_loop-Ends (suc fuel) (x ∷ xs) (y ∷ ys) len true h = elim (compare-cases x y) [
  | less o lt ↦
      let (p, e, d) = diff_loop-Ends fuel xs (y ∷ ys) len true (inl (omega arith)) in
      (push_extra x p, rw (diff_loop, o, e), IsDiff-extra true lt d)
  | equal o eq ↦
      let (p, e, d) = diff_loop-Ends fuel xs ys (len + 1) true (inl (omega arith)) in
      (p, rw (diff_loop, o, e), IsDiff-copy eq d)
  | greater o gt ↦
      let (p, e, d) = diff_loop-Ends fuel (x ∷ xs) (y ∷ ys) 0 false (inr (gt, omega arith)) in
      (push_block len p, rw (diff_loop, o, e), IsDiff-stop gt d)
]
diff_loop-Ends (suc fuel) (x ∷ xs) (y ∷ ys) len false h = elim (compare-cases x y) [
  | less o lt ↦
      let (p, e, d) = diff_loop-Ends fuel xs (y ∷ ys) len false (inl (omega arith)) in
      (push_extra x p, rw (diff_loop, o, e), IsDiff-extra false lt d)
  | equal o eq ↦
      let (p, e, d) = diff_loop-Ends fuel (x ∷ xs) (y ∷ ys) 0 true (inr (eq, omega arith)) in
      (push_block len p, rw (diff_loop, o, e), IsDiff-resume eq d)
  | greater o gt ↦
      let (p, e, d) = diff_loop-Ends fuel (x ∷ xs) ys (len + 1) false (inl (omega arith)) in
      (p, rw (diff_loop, o, e), IsDiff-skip d)
]

-- What `diff_comp` leaves in the two buffers. 1 is subtracted from each block when it is written, and
-- added again to all but the first when it is read.
pub record IsSplit (curr ref : List ℕ) (p : Pushed) : Type 0 where
  pub raw : List ℕ
  pub bumped : p.blocks ≡ bump_first raw
  pub copied : List ℕ
  pub shuffle : Interleave copied p.extra_nodes curr
  pub mask : masked true raw ref ≡ copied
  pub fits : sum raw ≤ length ref
  pub later_pos : AllPos (rest_of raw)
  pub remains : 0 < length ref → ends_copying true raw ≡ true → sum raw < length ref

-- On any two lists the loop of `diff_comp` ends within twice their length and two rounds, and leaves
-- the extra nodes and the blocks with 1 added to the first, such that: a copying decoder selects by the
-- blocks from the reference list a sequence of which, with the extra nodes, the current list is a
-- shuffle; the blocks lie within the reference list; all blocks but the first are positive; and a
-- skipped block does not end at the end of the reference list, if that is not empty.
pub diff_comp_ends :
    (curr ref : List ℕ) → (p : Pushed) × (diff_comp curr ref ≡ some p) × IsSplit curr ref p
unfolding diff_comp Ends
diff_comp_ends curr ref =
    let (p, e, d) =
      diff_loop-Ends (2 * (length curr + length ref) + 2) curr ref 0 true (inl (omega arith)) in
    (
      record p { blocks = bump_first p.blocks },
      rw e,
      record {
        raw = p.blocks;
        bumped = refl;
        copied = d.copied;
        shuffle = d.shuffle;
        mask = d.mask [] refl;
        fits = omega (arith, d.fits);
        later_pos = d.later_pos;
        remains = λ h k. omega (arith, d.remains (omega arith) k);
      },
    )
