-- ===== src/Compressor/Write.antt =====
-- webgraph-rs/webgraph/src/graphs/bvgraph/comp/bvcomp.rs, `Compressor::write`: the calls that it makes of its
-- encoder, in order. `start_node` and `end_node` of the encoders write nothing and return 0. What
-- `write` returns is the sum of what the calls return (`Codec.encode_all`, `Codec.estimate_all`).
use rbsc.Base.{
  ℕ, ◌+◌, ◌-◌, ◌%◌, Option, none, some, List, [], ◌∷◌, ◌++◌, length, ◌>>=◌, ◌==◌, ◌||◌,
  if◌then◌else◌, checked_sub,
}
use rbsc.Codec.{
  CodeLibrary, Symbol, outdegree, reference_offset, block_count, block, interval_count,
  interval_start, interval_len, first_residual, residual, u64_mod,
}
use rbsc.Compressor.{Compressor, is_empty}

-- `a as i64 - b as i64`, as the bit pattern of an i64.
abbrev pub sub_i64 : ℕ → ℕ → ℕ
sub_i64 a b = (a + u64_mod - b) % u64_mod

unfoldable pub write_blocks : List ℕ → Option (List Symbol)
write_blocks [] = some []
write_blocks (b ∷ bs) = do v ← checked_sub b 1; rest ← write_blocks bs; some ((block, v) ∷ rest)

-- The part under `if self.outdegree != 0`.
unfoldable pub write_reference : Option ℕ → List ℕ → Option (List Symbol)
write_reference none blocks = some []
write_reference (some offset) blocks =
    let copied = write_blocks blocks >>= λ syms. some ((block_count, length blocks) ∷ syms) in
    (if offset == 0 then some [] else copied) >>= λ syms. some ((reference_offset, offset) ∷ syms)

-- The intervals behind the first, `prev` being the end of the one before.
unfoldable pub write_next_intervals : ℕ → ℕ → List ℕ → List ℕ → Option (List Symbol)
write_next_intervals min_interval_length prev [] lens = some []
write_next_intervals min_interval_length prev (l ∷ ls) [] = none
write_next_intervals min_interval_length prev (l ∷ ls) (n ∷ ns) = do
  distance ← checked_sub l prev
  gap ← checked_sub distance 1
  excess ← checked_sub n min_interval_length
  rest ← write_next_intervals min_interval_length (l + n) ls ns
  some ((interval_start, gap) ∷ (interval_len, excess) ∷ rest)

-- The residuals behind the first.
unfoldable pub write_next_residuals : ℕ → List ℕ → Option (List Symbol)
write_next_residuals prev [] = some []
write_next_residuals prev (x ∷ xs) = do
  distance ← checked_sub x prev
  gap ← checked_sub distance 1
  rest ← write_next_residuals x xs
  some ((residual, gap) ∷ rest)

module _ (lib : CodeLibrary) where
  unfoldable pub write_intervals : ℕ → ℕ → List ℕ → List ℕ → Option (List Symbol)
  unfolding write_next_intervals
  write_intervals curr_node min_interval_length [] lens = some []
  write_intervals curr_node min_interval_length (l ∷ ls) [] = none
  write_intervals curr_node min_interval_length (l ∷ ls) (n ∷ ns) = do
    excess ← checked_sub n min_interval_length
    rest ← write_next_intervals min_interval_length (l + n) ls ns
    some ((interval_start, lib.to_nat (sub_i64 l curr_node)) ∷ (interval_len, excess) ∷ rest)

  -- The part under `if !self.extra_nodes.is_empty() && min_interval_length != NO_INTERVALS`.
  unfoldable pub write_extra : Compressor → ℕ → ℕ → Option (List Symbol)
  unfolding write_intervals
  write_extra c curr_node min_interval_length =
      if is_empty c.extra_nodes || min_interval_length == 0
      then some []
      else write_intervals curr_node min_interval_length c.left_interval c.len_interval >>= λ syms.
          some ((interval_count, length c.left_interval) ∷ syms)

  unfoldable pub write_residuals : ℕ → List ℕ → Option (List Symbol)
  unfolding write_next_residuals
  write_residuals curr_node [] = some []
  write_residuals curr_node (x ∷ xs) = do
    rest ← write_next_residuals x xs
    some ((first_residual, lib.to_nat (sub_i64 x curr_node)) ∷ rest)

  unfoldable pub write : Compressor → ℕ → Option ℕ → ℕ → Option (List Symbol)
  write c curr_node offset min_interval_length = do
    references ← if c.outdegree == 0 then some [] else write_reference offset c.blocks
    intervals ← write_extra c curr_node min_interval_length
    residuals ← write_residuals curr_node c.residuals
    some ((outdegree, c.outdegree) ∷ (references ++ (intervals ++ residuals)))
