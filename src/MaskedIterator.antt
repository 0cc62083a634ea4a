-- ===== src/MaskedIterator.antt =====
-- webgraph-rs/webgraph/src/graphs/bvgraph/masked_iterator.rs: an iterator that filters out blocks of the values
-- of another iterator. `none` is a panic.
pub mod Yields
pub mod New
use rbsc.Base.{
  ℕ, zero, suc, ◌+◌, ◌%◌, Option, none, some, Bool, List, [], ◌∷◌, ◌++◌, length, get_elem?, set,
  ◌>>=◌, ◌==◌, ◌&&◌, not, leb, if◌then◌else◌, checked_sub,
}

-- `Iterator<Item = usize> + ExactSizeIterator`: what `next` returns with the iterator behind it, and
-- the number of values left.
pub record ExactIterator (I : Type 0) : Type 0 where
  pub next : I → Option (Option ℕ × I)
  pub len : I → ℕ

pub record MaskedIterator (I : Type 0) : Type 0 where
  pub parent : I
  pub blocks : List ℕ
  pub block_idx : ℕ
  pub size : ℕ

-- The loop of `new` over the blocks: `i`, `size` and `cumsum_blocks`.
unfoldable pub measure : ℕ → ℕ → ℕ → List ℕ → ℕ × ℕ
measure i size cumsum [] = (size, cumsum)
measure i size cumsum (x ∷ xs) =
    measure (i + 1) (size + (if i % 2 == 0 then x else 0)) (cumsum + x) xs

-- `<MaskedIterator as ExactSizeIterator>::len`
unfoldable pub len : {I : Type 0} → MaskedIterator I → ℕ
len m = m.size

module _ {I : Type 0} (it : ExactIterator I) where
  unfoldable pub new : I → List ℕ → Option (MaskedIterator I)
  new parent blocks = do
    let (size, cumsum) = measure 0 0 0 blocks
    remainder ← checked_sub (it.len parent) cumsum
    some (
        if not (remainder == 0) && (length blocks % 2 == 0)
        then record {
          parent = parent;
          blocks = blocks ++ (remainder ∷ []);
          block_idx = 0;
          size = size + remainder;
        }
        else record { parent = parent; blocks = blocks; block_idx = 0; size = size })

  -- Values of the parent that are passed over.
  unfoldable pub skip : ℕ → I → Option I
  skip zero parent = some parent
  skip (suc n) parent = it.next parent >>= λ r. skip n r.1

  -- The end of `next`, in a block that is copied.
  unfoldable pub next_in_block : MaskedIterator I → Option (Option ℕ × MaskedIterator I)
  next_in_block m = do
    result ← it.next m.parent
    current_block ← get_elem? m.blocks m.block_idx
    left_in_block ← checked_sub current_block 1
    some (result.0, record m { parent = result.1; blocks = set m.blocks m.block_idx left_in_block })

  -- The branch of `next` behind a block that is used up: the next block is skipped.
  unfoldable pub next_behind_block : MaskedIterator I → Option (Option ℕ × MaskedIterator I)
  next_behind_block m =
      let block_idx = m.block_idx + 1 in
      if leb (length m.blocks) block_idx
      then some (none, record m { block_idx = block_idx })
      else do
        skipped ← get_elem? m.blocks block_idx
        parent ← skip skipped m.parent
        current_block ← get_elem? m.blocks (block_idx + 1)
        next_in_block (record m { parent = parent; block_idx = block_idx + 1 })

  unfoldable pub next : MaskedIterator I → Option (Option ℕ × MaskedIterator I)
  next m = do
    current_block ← get_elem? m.blocks m.block_idx
    if current_block == 0 then next_behind_block m else next_in_block m
