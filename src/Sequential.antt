-- ===== src/Sequential.antt =====
-- webgraph-rs/webgraph/src/graphs/bvgraph/sequential.rs: the decoder of the successors of the nodes, in order.
--
-- A decoder is a function from the bits that are left; `none` is a panic (the end of the stream, an
-- index out of range, an unsigned subtraction below 0).
pub mod Stream
pub mod Iter
pub mod CopyTrip
pub mod ExtraTrip
pub mod RestTrip
pub mod Described
pub mod NodeTrip
use rbsc.Base.{
  ℕ, zero, suc, ◌+◌, ◌-◌, ◌%◌, Bool, Option, none, some, List, [], ◌∷◌, ◌++◌, length, range, ◌==◌,
  ◌||◌, if◌then◌else◌, leb, checked_sub, slice, sort,
}
use rbsc.CircularBuffer
use rbsc.CircularBuffer.{CircularBuffer}
use rbsc.Codec.{
  CodeLibrary, CodeConsts, Component, outdegree, reference_offset, block_count, block,
  interval_count, interval_start, interval_len, first_residual, residual, u64_mod, decode,
}

abbrev pub Reader : Type 0 → Type 0
Reader A = List Bool → Option (A × List Bool)

infixl 5 ◌>>=◌
abbrev pub ◌>>=◌ : {A B : Type 0} → Reader A → (A → Reader B) → Reader B
◌>>=◌ m f s = elim (m s) [ none ↦ none | some (a, s') ↦ f a s' ]

abbrev pub pure : {A : Type 0} → A → Reader A
pure a s = some (a, s)

abbrev pub lift : {A : Type 0} → Option A → Reader A
lift none s = none
lift (some a) s = some (a, s)

-- `(node as i64 + offset) as usize`, of the bit pattern of an i64.
abbrev pub add_i64 : ℕ → ℕ → ℕ
add_i64 node offset = (node + offset) % u64_mod

module _ (lib : CodeLibrary) (cs : CodeConsts) where
  abbrev pub read : Component → Reader ℕ
  read κ s = decode lib cs κ s

  -- The loop over the blocks behind the first, and the last copy block behind an even number of
  -- blocks. The arguments are the rounds left, `block_id`, `idx` and `results`.
  unfoldable pub read_next_blocks : List ℕ → ℕ → ℕ → ℕ → List ℕ → Reader (List ℕ)
  read_next_blocks neighbours zero block_id idx results =
      if block_id % 2 == 0
      then (lift (slice neighbours idx (length neighbours)) >>= λ copied. pure (results ++ copied))
      else pure results
  read_next_blocks neighbours (suc rounds) block_id idx results = do
    b ← read block
    let end = idx + b + 1
    copied ← if block_id % 2 == 0 then lift (slice neighbours idx end) else pure []
    read_next_blocks neighbours rounds (block_id + 1) end (results ++ copied)

  unfoldable pub read_blocks : List ℕ → ℕ → Reader (List ℕ)
  unfolding read_next_blocks
  read_blocks neighbours zero = pure neighbours
  read_blocks neighbours (suc rounds) = do
    idx ← read block
    copied ← lift (slice neighbours 0 idx)
    read_next_blocks neighbours rounds 1 idx copied

  -- The nodes that are copied from the reference.
  unfoldable pub read_copied : ℕ → CircularBuffer (List ℕ) → ℕ → Reader (List ℕ)
  read_copied node_id backrefs ref_delta = if ref_delta == 0 then pure [] else do
    reference_node_id ← lift (checked_sub node_id ref_delta)
    neighbours ← lift (CircularBuffer.index backrefs reference_node_id)
    number_of_blocks ← read block_count
    read_blocks neighbours number_of_blocks

  -- The rounds left and `start`.
  unfoldable pub read_next_intervals : ℕ → ℕ → ℕ → Reader (List ℕ)
  read_next_intervals min_interval_length zero start = pure []
  read_next_intervals min_interval_length (suc rounds) start = do
    gap ← read interval_start
    excess ← read interval_len
    let first = start + (1 + gap)
    let delta = excess + min_interval_length
    later ← read_next_intervals min_interval_length rounds (first + delta)
    pure (range first delta ++ later)

  unfoldable pub read_some_intervals : ℕ → ℕ → ℕ → Reader (List ℕ)
  unfolding read_next_intervals
  read_some_intervals node_id min_interval_length zero = pure []
  read_some_intervals node_id min_interval_length (suc rounds) = do
    node_id_offset ← read interval_start
    excess ← read interval_len
    let first = add_i64 node_id (lib.to_int node_id_offset)
    let delta = excess + min_interval_length
    later ← read_next_intervals min_interval_length rounds (first + delta)
    pure (range first delta ++ later)

  unfoldable pub read_intervals : ℕ → ℕ → ℕ → Reader (List ℕ)
  unfolding read_some_intervals
  read_intervals node_id min_interval_length nodes_left_to_decode =
      if nodes_left_to_decode == 0 || min_interval_length == 0
      then pure []
      else read interval_count >>= read_some_intervals node_id min_interval_length

  -- The rounds left and `extra`.
  unfoldable pub read_next_residuals : ℕ → ℕ → Reader (List ℕ)
  read_next_residuals zero extra = pure []
  read_next_residuals (suc rounds) extra = do
    gap ← read residual
    let node = extra + (1 + gap)
    later ← read_next_residuals rounds node
    pure (node ∷ later)

  unfoldable pub read_residuals : ℕ → ℕ → Reader (List ℕ)
  unfolding read_next_residuals
  read_residuals node_id zero = pure []
  read_residuals node_id (suc rounds) = do
    node_id_offset ← read first_residual
    let extra = add_i64 node_id (lib.to_int node_id_offset)
    later ← read_next_residuals rounds extra
    pure (extra ∷ later)

  -- `get_successors_iter_priv` from the reference on.
  unfoldable pub read_from_reference : ℕ → ℕ → CircularBuffer (List ℕ) → ℕ → ℕ → Reader (List ℕ)
  read_from_reference min_interval_length node_id backrefs degree ref_delta = do
    copied ← read_copied node_id backrefs ref_delta
    left_behind_copied ← lift (checked_sub degree (length copied))
    from_intervals ← read_intervals node_id min_interval_length left_behind_copied
    left_behind_intervals ← lift (checked_sub degree (length (copied ++ from_intervals)))
    residuals ← read_residuals node_id left_behind_intervals
    pure (sort (copied ++ (from_intervals ++ residuals)))

  -- `get_successors_iter_priv` behind `degree == 0`.
  unfoldable pub read_successors : ℕ → ℕ → ℕ → CircularBuffer (List ℕ) → ℕ → Reader (List ℕ)
  read_successors compression_window min_interval_length node_id backrefs degree =
      (if compression_window == 0 then pure 0 else read reference_offset)
      >>= read_from_reference min_interval_length node_id backrefs degree

  unfoldable pub get_successors : ℕ → ℕ → ℕ → CircularBuffer (List ℕ) → Reader (List ℕ)
  get_successors compression_window min_interval_length node_id backrefs = do
    degree ← read outdegree
    if degree == 0
        then pure []
        else read_successors compression_window min_interval_length node_id backrefs degree
