-- ===== src/Sequential/CopyTrip.antt =====
-- The copy blocks, written and read.
use rbsc.Base.{
  ℕ, ◌+◌, ◌-◌, ◌%◌, ◌≤◌, ◌<◌, ◌≡◌, refl, sym, ap, ◌∙◌, arith, Bool, true, false, some, List, [],
  ◌∷◌, ◌++◌, append-nil, append_assoc, length, sum, take, drop, take-all, length-drop, drop-drop,
  slice, slice-le, checked_sub-le, ◌==◌,
}
use rbsc.Codec.{CodeLibrary, CodeConsts, Symbol, block, block_count, reference_offset, u64_mod}
use rbsc.CircularBuffer
use rbsc.CircularBuffer.{CircularBuffer}
use rbsc.CopyList.{masked}
use rbsc.Compressor.{bump_first}
use rbsc.Compressor.Blocks.{AllPos, rest_of}
use rbsc.Compressor.Write.{write_blocks, write_reference}
use rbsc.Sequential.{read_next_blocks, read_blocks, read_copied}
use rbsc.Sequential.Stream.{Reads, Reads-pure, Reads-symbol, Reads-lift, Reads-value}

-- The calls for blocks behind the first, and for all blocks.
abbrev pub next_block_symbols : List ℕ → List Symbol
next_block_symbols [] = []
next_block_symbols (b ∷ bs) = (block, b - 1) ∷ next_block_symbols bs

abbrev pub block_symbols : List ℕ → List Symbol
block_symbols [] = []
block_symbols (b ∷ bs) = (block, b) ∷ next_block_symbols bs

write_blocks-pos : (bs : List ℕ) → AllPos bs → write_blocks bs ≡ some (next_block_symbols bs)
unfolding write_blocks
write_blocks-pos [] h = refl
write_blocks-pos (b ∷ bs) h = rw (checked_sub-le b 1 h.0, write_blocks-pos bs h.1)

pub write_blocks-bump_first :
    (raw : List ℕ) → AllPos (rest_of raw) → write_blocks (bump_first raw) ≡ some (block_symbols raw)
unfolding write_blocks
write_blocks-bump_first [] h = refl
write_blocks-bump_first (b ∷ bs) h =
    let back : b + 1 - 1 ≡ b = omega arith in
    rw (checked_sub-le (b + 1) 1 (omega arith), write_blocks-pos bs h, back)

-- The slice from `idx` to the end.
slice_to_end :
    (xs : List ℕ) (idx : ℕ) → idx ≤ length xs → slice xs idx (length xs) ≡ some (drop idx xs)
slice_to_end xs idx h =
    slice-le xs idx (length xs) h (omega arith)
    ∙ ap some (take-all (length xs - idx) (drop idx xs) (omega (arith, length-drop idx xs)))

slice_prefix : (xs : List ℕ) (b : ℕ) → b ≤ length xs → slice xs 0 b ≡ some (take b xs)
slice_prefix xs b h =
    let all : b - 0 ≡ b = omega arith in
    slice-le xs 0 b (omega arith) h ∙ ap (λ m. some (take m xs)) all

slice_block :
    (xs : List ℕ) (idx b : ℕ)
    → 0 < b
    → idx + b ≤ length xs
    → slice xs idx (idx + (b - 1) + 1) ≡ some (take b (drop idx xs))
slice_block xs idx b h k =
    let n : idx + (b - 1) + 1 - idx ≡ b = omega arith in
    slice-le xs idx (idx + (b - 1) + 1) (omega arith) (omega arith)
    ∙ ap (λ m. some (take m (drop idx xs))) n

module _ (lib : CodeLibrary) (cs : CodeConsts) (neighbours : List ℕ) where
  -- `copying` says whether `block_id` is even.
  Reads-next_blocks :
      (bs : List ℕ) (copying : Bool) (block_id idx : ℕ) (results : List ℕ)
      → (block_id % 2 == 0) ≡ copying
      → AllPos bs
      → idx + sum bs ≤ length neighbours
      → length neighbours < u64_mod - 1
      → Reads lib cs
          (read_next_blocks lib cs neighbours (length bs) block_id idx results)
          (results ++ masked copying bs (drop idx neighbours))
          (next_block_symbols bs)
  unfolding read_next_blocks
  Reads-next_blocks [] true block_id idx results e h k m =
      rw (e, slice_to_end neighbours idx (omega arith)) (Reads-pure lib cs _)
  Reads-next_blocks [] false block_id idx results e h k m =
      rw (e, append-nil results) (Reads-pure lib cs _)
  Reads-next_blocks (b ∷ bs) true block_id idx results e h k m =
      let end = idx + (b - 1) + 1 in
      let copied = take b (drop idx neighbours) in
      Reads-symbol lib cs block (b - 1) _ _ _ (omega arith) (
        rw e (
          Reads-lift lib cs (slice neighbours idx end) copied _ _ _
            (slice_block neighbours idx b h.0 (omega arith))
            (Reads-value lib cs _ _ _ _
              (append_assoc results copied (masked false bs (drop end neighbours))
                ∙ ap (λ l. results ++ (copied ++ masked false bs l))
                    (sym (drop-drop b idx end neighbours (omega arith))))
              (Reads-next_blocks bs false (block_id + 1) end (results ++ copied) (ground arith) h.1
                (omega arith) m))))
  Reads-next_blocks (b ∷ bs) false block_id idx results e h k m =
      let end = idx + (b - 1) + 1 in
      Reads-symbol lib cs block (b - 1) _ _ _ (omega arith) (
        rw e (
          Reads-value lib cs _ _ _ _
            (rw append-nil (
              ap (λ l. results ++ masked true bs l)
                (sym (drop-drop b idx end neighbours (omega arith)))))
            (Reads-next_blocks bs true (block_id + 1) end (results ++ []) (ground arith) h.1
              (omega arith) m)))

  pub Reads-blocks :
      (raw : List ℕ)
      → AllPos (rest_of raw)
      → sum raw ≤ length neighbours
      → length neighbours < u64_mod - 1
      → Reads lib cs
          (read_blocks lib cs neighbours (length raw))
          (masked true raw neighbours)
          (block_symbols raw)
  unfolding read_blocks
  Reads-blocks [] h k m = Reads-pure lib cs neighbours
  Reads-blocks (b ∷ bs) h k m = Reads-symbol lib cs block b _ _ _ (omega arith) (
      Reads-lift lib cs (slice neighbours 0 b) (take b neighbours) _ _ _
        (slice_prefix neighbours b (omega arith))
        (Reads-next_blocks bs false 1 b (take b neighbours) refl h (omega arith) m))

pub pos-eq-zero : (n : ℕ) → 0 < n → (n == 0) ≡ false
pos-eq-zero n h = ground arith

length-bump_first : (raw : List ℕ) → length (bump_first raw) ≡ length raw
length-bump_first [] = refl
length-bump_first (b ∷ bs) = refl

pub write_reference-some :
    (ref_delta : ℕ) (raw : List ℕ)
    → 0 < ref_delta
    → AllPos (rest_of raw)
    → write_reference (some ref_delta) (bump_first raw)
      ≡ some ((reference_offset, ref_delta) ∷ (block_count, length raw) ∷ block_symbols raw)
unfolding write_reference
write_reference-some ref_delta raw d h =
    rw (pos-eq-zero ref_delta d, write_blocks-bump_first raw h, length-bump_first raw)

-- Positive blocks within a list are no more than its elements; the first may be empty.
length-le-sum : (bs : List ℕ) → AllPos bs → length bs ≤ sum bs
length-le-sum [] h = omega arith
length-le-sum (b ∷ bs) h = omega (arith, h.0, length-le-sum bs h.1)

pub length-raw-le : (raw : List ℕ) → AllPos (rest_of raw) → length raw ≤ 1 + sum raw
length-raw-le [] h = omega arith
length-raw-le (b ∷ bs) h = omega (arith, length-le-sum bs h)

pub Reads-copied :
    (lib : CodeLibrary) (cs : CodeConsts) (node ref_delta : ℕ) (backrefs : CircularBuffer (List ℕ))
    (neighbours raw : List ℕ)
    → 0 < ref_delta
    → ref_delta ≤ node
    → CircularBuffer.index backrefs (node - ref_delta) ≡ some neighbours
    → AllPos (rest_of raw)
    → sum raw ≤ length neighbours
    → length neighbours < u64_mod - 2
    → Reads lib cs
        (read_copied lib cs node backrefs ref_delta)
        (masked true raw neighbours)
        ((block_count, length raw) ∷ block_symbols raw)
unfolding read_copied
Reads-copied lib cs node ref_delta backrefs neighbours raw d l e h k m =
    rw (pos-eq-zero ref_delta d) (
      Reads-lift lib cs _ (node - ref_delta) _ _ _ (checked_sub-le node ref_delta l) (
        Reads-lift lib cs _ neighbours _ _ _ e (
          Reads-symbol lib cs block_count (length raw) _ _ _ (omega (arith, length-raw-le raw h))
            (Reads-blocks lib cs neighbours raw h k (omega arith)))))
