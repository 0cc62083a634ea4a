-- ===== src/OffsetDegIter.antt =====
-- webgraph-rs/webgraph/src/graphs/bvgraph/offset_deg_iter.rs: the iterator over the outdegrees, which decodes as
-- little of a node as it can. `none` is a panic.
--
-- The bit offsets that the iterator also returns are those of the bit stream, and are left out.
pub mod Agree
pub mod Intervals
pub mod Node
pub mod Degree
pub mod Steps
use rbsc.Base.{
  ℕ, zero, suc, ◌+◌, ◌%◌, Bool, Option, none, some, List, [], ◌∷◌, replicate, get_elem?, set, ◌==◌,
  ◌||◌, if◌then◌else◌, leb, checked_sub,
}
use rbsc.Base
use rbsc.Codec.{
  CodeLibrary, CodeConsts, outdegree, reference_offset, block_count, block, interval_count,
  interval_start, interval_len, first_residual, residual,
}
use rbsc.Sequential.{Reader, ◌>>=◌, pure, lift, read}

pub record OffsetDegIter : Type 0 where
  pub number_of_nodes : ℕ
  pub compression_window : ℕ
  pub min_interval_length : ℕ
  pub node_id : ℕ
  pub decoder : List Bool
  pub backrefs : List ℕ

unfoldable pub new : List Bool → ℕ → ℕ → ℕ → OffsetDegIter
new decoder number_of_nodes compression_window min_interval_length = record {
  number_of_nodes = number_of_nodes;
  compression_window = compression_window;
  min_interval_length = min_interval_length;
  node_id = 0;
  decoder = decoder;
  backrefs = replicate compression_window 0;
}

-- The degree is kept if the window is not empty, with and without successors.
unfoldable pub keep_degree : ℕ → ℕ → ℕ → List ℕ → Option (List ℕ)
keep_degree window node_id degree backrefs =
    if window == 0
    then some backrefs
    else Base.◌>>=◌ (get_elem? backrefs (node_id % window))
        (λ _. some (set backrefs (node_id % window) degree))

module _ (lib : CodeLibrary) (cs : CodeConsts) where
  -- The blocks behind the first, and the last copy block behind an even number of blocks. The arguments
  -- are the rounds left, `block_id` and `idx`; `nodes_left_to_decode` is given last and returned.
  unfoldable pub count_next_blocks : ℕ → ℕ → ℕ → ℕ → ℕ → Reader ℕ
  count_next_blocks ref_degree zero block_id idx left =
      if block_id % 2 == 0
      then (lift (checked_sub ref_degree idx) >>= λ copied. lift (checked_sub left copied))
      else pure left
  count_next_blocks ref_degree (suc rounds) block_id idx left = do
    b ← read lib cs block
    left' ← if block_id % 2 == 0 then lift (checked_sub left (b + 1)) else pure left
    count_next_blocks ref_degree rounds (block_id + 1) (idx + b + 1) left'

  unfoldable pub count_blocks : ℕ → ℕ → ℕ → Reader ℕ
  count_blocks ref_degree zero left = lift (checked_sub left ref_degree)
  count_blocks ref_degree (suc rounds) left = do
    idx ← read lib cs block
    left' ← lift (checked_sub left idx)
    count_next_blocks ref_degree rounds 1 idx left'

  -- `self.backrefs[reference_node_id % self.compression_window]`
  unfoldable pub reference_degree : ℕ → ℕ → List ℕ → ℕ → Option ℕ
  reference_degree window node_id backrefs ref_delta =
      Base.◌>>=◌ (checked_sub node_id ref_delta)
        (λ reference_node_id. get_elem? backrefs (reference_node_id % window))

  unfoldable pub count_copied : ℕ → ℕ → List ℕ → ℕ → ℕ → Reader ℕ
  count_copied window node_id backrefs ref_delta left = if ref_delta == 0 then pure left else do
    ref_degree ← lift (reference_degree window node_id backrefs ref_delta)
    number_of_blocks ← read lib cs block_count
    count_blocks ref_degree number_of_blocks left

  -- The code writes the first round out. The argument is the number of rounds.
  unfoldable pub count_some_intervals : ℕ → ℕ → ℕ → Reader ℕ
  count_some_intervals min_interval_length zero left = pure left
  count_some_intervals min_interval_length (suc rounds) left = do
    start ← read lib cs interval_start
    excess ← read lib cs interval_len
    left' ← lift (checked_sub left (excess + min_interval_length))
    count_some_intervals min_interval_length rounds left'

  unfoldable pub count_intervals : ℕ → ℕ → Reader ℕ
  count_intervals min_interval_length left =
      if left == 0 || min_interval_length == 0
      then pure left
      else read lib cs interval_count >>= λ rounds.
          count_some_intervals min_interval_length rounds left

  unfoldable pub skip_next_residuals : ℕ → Reader Unit
  skip_next_residuals zero = pure tt
  skip_next_residuals (suc rounds) = read lib cs residual >>= λ gap. skip_next_residuals rounds

  -- `nodes_left_to_decode` residuals.
  unfoldable pub skip_residuals : ℕ → Reader Unit
  unfolding skip_next_residuals
  skip_residuals zero = pure tt
  skip_residuals (suc rounds) = read lib cs first_residual >>= λ offset. skip_next_residuals rounds

  -- What is behind the reference offset.
  unfoldable pub skip_lists : OffsetDegIter → ℕ → ℕ → Reader Unit
  skip_lists it degree ref_delta = do
    behind_copied ← count_copied it.compression_window it.node_id it.backrefs ref_delta degree
    behind_intervals ← count_intervals it.min_interval_length behind_copied
    skip_residuals behind_intervals

  unfoldable pub read_degree : OffsetDegIter → Reader ℕ
  read_degree it = do
    degree ← read lib cs outdegree
    if degree == 0 then pure degree else do
      ref_delta ← if it.compression_window == 0 then pure 0 else read lib cs reference_offset
      done ← skip_lists it degree ref_delta
      pure degree

  unfoldable pub next_degree : OffsetDegIter → Option (ℕ × OffsetDegIter)
  next_degree it = Base.◌>>=◌ (read_degree it it.decoder) (λ r.
      Base.◌>>=◌ (keep_degree it.compression_window it.node_id r.0 it.backrefs) (λ backrefs.
        some (r.0, record it { decoder = r.1; backrefs = backrefs; node_id = it.node_id + 1 })))
