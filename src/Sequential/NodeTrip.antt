-- ===== src/Sequential/NodeTrip.antt =====
-- A successor list, compressed and written, and read, with and without a reference.
use rbsc.Base.{
  ℕ, suc, ◌-◌, ◌≤◌, ◌<◌, ◌≡◌, refl, ap, subst, ◌∙◌, arith, Option, some, none, List, [], ◌∷◌,
  Bool-cases, inl, inr, length, Interleave-nil_left, if◌then◌else◌, ◌==◌,
}
use rbsc.CircularBuffer
use rbsc.CircularBuffer.{CircularBuffer}
use rbsc.Codec.{CodeLibrary, CodeConsts, reference_offset, block_count}
use rbsc.Compressor.{Compressor, Pushed, divide_extra, split_list, compress}
use rbsc.Compressor.Diff.{diff_comp_ends}
use rbsc.Compressor.Write.{write, write_reference, write_blocks}
use rbsc.Sequential.{read_copied}
use rbsc.Sequential.Stream.{Reads-pure, Reads-read, Reads-value}
use rbsc.Sequential.CopyTrip.{block_symbols, write_reference-some, Reads-copied, pos-eq-zero}
use rbsc.Sequential.ExtraTrip.{IsNode}
use rbsc.Sequential.RestTrip.{IsSuccessors, IsSuccessors-length}
use rbsc.RandomAccess.Labels.{iterator, open_copied}
use rbsc.RandomAccess.PartsTrip.{Reads-open_copied}
use rbsc.MaskedIterator.Yields.{MaskYields}
use rbsc.MaskedIterator.New.{new-MaskYields}
use rbsc.Sequential.Described.{
  IsEncoded, IsAccessible, IsAccessible-if, IsAccessible-IsEncoded, encode_split, encode_empty,
}

module _ (lib : CodeLibrary) (cs : CodeConsts) (window min_len node : ℕ)
    (backrefs : CircularBuffer (List ℕ)) where
  -- The reference offset is written if the window is not empty; 0 says that nothing is copied.
  abbrev pub offset_without_reference : Option ℕ
  offset_without_reference = if window == 0 then none else some 0

  -- Without a reference, on no condition.
  pub access_without_reference :
      (curr : List ℕ)
      → IsNode node
      → IsSuccessors curr
      → (c : Compressor) × (compress curr none min_len ≡ some c)
        × IsAccessible lib cs window min_len node backrefs curr
            (write lib c node offset_without_reference min_len)
            (Unit {0})
  unfolding compress split_list write_reference write_blocks read_copied open_copied
  access_without_reference [] h s =
      encode_empty lib cs window min_len node backrefs offset_without_reference none (Unit {0})
  access_without_reference (x ∷ xs) h s = (
    divide_extra (suc (length xs)) min_len plain,
    refl,
    elim (Bool-cases (window == 0)) [
      | inl e ↦ rw e (
          IsAccessible-if (λ _ depth successors earlier. (none, refl, Reads-pure lib cs none))
            (encode_split lib cs window min_len node backrefs none x xs [] plain 0 [] [] [] h s
              (Interleave-nil_left (x ∷ xs)) refl refl (rw e (Reads-pure lib cs 0))
              (Reads-pure lib cs [])))
      | inr e ↦ rw e (
          IsAccessible-if (λ _ depth successors earlier. (none, refl, Reads-pure lib cs none))
            (encode_split lib cs window min_len node backrefs (some 0) x xs [] plain 0 _
              ((reference_offset, 0) ∷ []) [] h s (Interleave-nil_left (x ∷ xs)) refl refl
              (rw e (Reads-read lib cs reference_offset 0 (omega arith))) (Reads-pure lib cs [])))
    ],
  )
    where
      plain : Pushed
      plain = record { blocks = []; extra_nodes = x ∷ xs }

  -- With a reference, on the condition that it is within the window and has successors.
  pub access_with_reference :
      (ref_delta : ℕ) (curr ref_list : List ℕ)
      → IsNode node
      → IsSuccessors curr
      → IsSuccessors ref_list
      → 0 < window
      → 0 < ref_delta
      → ref_delta ≤ node
      → CircularBuffer.index backrefs (node - ref_delta) ≡ some ref_list
      → (c : Compressor) × (compress curr (some ref_list) min_len ≡ some c)
        × IsAccessible lib cs window min_len node backrefs curr
            (write lib c node (some ref_delta) min_len)
            ((0 < length ref_list) × (ref_delta ≤ window))
  unfolding compress split_list
  access_with_reference ref_delta [] ref_list h s t w d l e =
      encode_empty lib cs window min_len node backrefs (some ref_delta) (some ref_list) _
  access_with_reference ref_delta (x ∷ xs) ref_list h s t w d l e =
      let (p, ends, split) = diff_comp_ends (x ∷ xs) ref_list in
      let bound = IsSuccessors-length ref_list t in
      (
        divide_extra (suc (length xs)) min_len p,
        rw ends,
        IsAccessible-if
            (λ condition depth successors earlier.
              let (parent, found, yields) = earlier ref_delta ref_list d condition.1 l e in
              let it = iterator lib cs depth in
              let (m, opened, size, selected) =
                new-MaskYields it parent ref_list split.raw yields split.later_pos split.fits
                  (split.remains condition.0) in
              (
                some m,
                (size ∙ ap length split.mask, subst (MaskYields it m) split.mask selected),
                Reads-open_copied lib cs it successors node ref_delta parent split.raw m d l found
                    opened split.later_pos (omega (arith, split.fits)),
              ))
            (encode_split lib cs window min_len node backrefs (some ref_delta) x xs split.copied p
              ref_delta _ ((reference_offset, ref_delta) ∷ [])
              ((block_count, length split.raw) ∷ block_symbols split.raw) h s split.shuffle
              (rw split.bumped (write_reference-some ref_delta split.raw d split.later_pos)) refl
              (rw (pos-eq-zero window w)
                (Reads-read lib cs reference_offset ref_delta (omega arith)))
              (Reads-value lib cs _ _ _ _ split.mask (
                Reads-copied lib cs node ref_delta backrefs ref_list split.raw d l e split.later_pos
                  split.fits (omega arith)))),
      )

  -- For a node and a strictly increasing successor list, all below 2^63, `compress` without a reference
  -- and `write` do not panic, every value written can be coded, and the decoder reads the list back
  -- from the bits written, whatever follows them, and reads no more. With a window the offset 0 is
  -- given to `write`, and none without one.
  pub encode_without_reference :
      (curr : List ℕ)
      → IsNode node
      → IsSuccessors curr
      → (c : Compressor) × (compress curr none min_len ≡ some c)
        × IsEncoded lib cs window min_len node backrefs curr
            (write lib c node offset_without_reference min_len)
  encode_without_reference curr h s =
      let (c, compressed, a) = access_without_reference curr h s in
      (c, compressed, IsAccessible-IsEncoded a)

  -- With a window, and a reference at a positive distance not above the node, whose successor list the
  -- decoder's buffer holds: if both lists are strictly increasing and they and the node are below 2^63,
  -- `compress` against the reference's list and `write` do not panic, every value written can be coded,
  -- and the decoder reads the list back from the bits written, whatever follows them, and no more.
  pub encode_with_reference :
      (ref_delta : ℕ) (curr ref_list : List ℕ)
      → IsNode node
      → IsSuccessors curr
      → IsSuccessors ref_list
      → 0 < window
      → 0 < ref_delta
      → ref_delta ≤ node
      → CircularBuffer.index backrefs (node - ref_delta) ≡ some ref_list
      → (c : Compressor) × (compress curr (some ref_list) min_len ≡ some c)
        × IsEncoded lib cs window min_len node backrefs curr
            (write lib c node (some ref_delta) min_len)
  encode_with_reference ref_delta curr ref_list h s t w d l e =
      let (c, compressed, a) = access_with_reference ref_delta curr ref_list h s t w d l e in
      (c, compressed, IsAccessible-IsEncoded a)
