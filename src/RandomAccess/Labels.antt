-- ===== src/RandomAccess/Labels.antt =====
-- webgraph-rs/webgraph/src/graphs/bvgraph/random_access.rs, `RandomAccessLabeling for BvGraph`: `labels` opens the
-- iterator over the successors of a node.
--
-- `new_decoder` of the factory is a parameter: the bits of the stream from the position of a node on.
-- The iterator over the successors of a node whose chain of references has at most `depth` nodes is a
-- `SuccAt depth`; the fuel of `labels` is that depth.
use rbsc.Base.{
  ℕ, zero, suc, ◌+◌, ◌-◌, Bool, Option, none, some, List, [], ◌∷◌, ◌==◌, ◌||◌, if◌then◌else◌,
  checked_sub,
}
use rbsc.Codec.{
  CodeLibrary, CodeConsts, outdegree, reference_offset, block_count, block, interval_count,
  interval_start, interval_len, first_residual,
}
use rbsc.MaskedIterator
use rbsc.MaskedIterator.{ExactIterator, MaskedIterator}
use rbsc.Sequential.{Reader, ◌>>=◌, pure, lift, read, add_i64}
use rbsc.RandomAccess.{Succ, usize_max, new, forward_copied, forward_interval, succ_iterator}

-- The first interval, if there is one.
unfoldable pub prefill_interval : {P : Type 0} → List (ℕ × ℕ) → Succ P → Option (Succ P)
prefill_interval [] s = some s
prefill_interval (x ∷ xs) s = forward_interval s

-- What `labels` reads in front of the residuals but the first.
pub record Opened (P : Type 0) : Type 0 where
  pub copied : Option (MaskedIterator P)
  pub intervals : List (ℕ × ℕ)
  pub residuals_to_go : ℕ
  pub first_node : ℕ

unfoldable pub copied_len : {P : Type 0} → Option (MaskedIterator P) → ℕ
unfolding MaskedIterator.len
copied_len none = 0
copied_len (some res) = MaskedIterator.len res

module _ {P : Type 0} (it : ExactIterator P) where
  -- The first node of each of the three parts is made ready.
  unfoldable pub prefill : ℕ → Opened P → List Bool → Option (Succ P)
  prefill degree o reader =
      let start = record (new reader) {
        size = degree;
        copied_nodes_iter = o.copied;
        intervals = o.intervals;
        residuals_to_go = o.residuals_to_go;
        next_residual_node = o.first_node;
      } in
      elim (prefill_interval o.intervals start) [ none ↦ none | some s ↦ forward_copied it s ]

module _ (lib : CodeLibrary) (cs : CodeConsts) where
  -- The blocks behind the first.
  unfoldable pub read_next_lengths : ℕ → Reader (List ℕ)
  read_next_lengths zero = pure []
  read_next_lengths (suc rounds) = do
    b ← read lib cs block
    later ← read_next_lengths rounds
    pure ((b + 1) ∷ later)

  unfoldable pub read_lengths : ℕ → Reader (List ℕ)
  unfolding read_next_lengths
  read_lengths zero = pure []
  read_lengths (suc rounds) = do
    b ← read lib cs block
    later ← read_next_lengths rounds
    pure (b ∷ later)

  -- The loop over the intervals behind the first: the rounds left, `start`, `nodes_left_to_decode`.
  -- The fake interval is pushed behind the last.
  unfoldable pub read_next_pairs : ℕ → ℕ → ℕ → ℕ → Reader (List (ℕ × ℕ) × ℕ)
  read_next_pairs min_interval_length zero start nodes_left_to_decode =
      pure ((usize_max - 1, 1) ∷ [], nodes_left_to_decode)
  read_next_pairs min_interval_length (suc rounds) start nodes_left_to_decode = do
    gap ← read lib cs interval_start
    excess ← read lib cs interval_len
    let first = start + (1 + gap)
    let delta = excess + min_interval_length
    nodes_left ← lift (checked_sub nodes_left_to_decode delta)
    later ← read_next_pairs min_interval_length rounds (first + delta) nodes_left
    pure ((first, delta) ∷ later.0, later.1)

  unfoldable pub read_pairs : ℕ → ℕ → ℕ → ℕ → Reader (List (ℕ × ℕ) × ℕ)
  unfolding read_next_pairs
  read_pairs node_id min_interval_length nodes_left_to_decode zero = pure ([], nodes_left_to_decode)
  read_pairs node_id min_interval_length nodes_left_to_decode (suc rounds) = do
    node_id_offset ← read lib cs interval_start
    excess ← read lib cs interval_len
    let first = add_i64 node_id (lib.to_int node_id_offset)
    let delta = excess + min_interval_length
    nodes_left ← lift (checked_sub nodes_left_to_decode delta)
    later ← read_next_pairs min_interval_length rounds (first + delta) nodes_left
    pure ((first, delta) ∷ later.0, later.1)

  unfoldable pub open_intervals : ℕ → ℕ → ℕ → Reader (List (ℕ × ℕ) × ℕ)
  open_intervals node_id min_interval_length nodes_left_to_decode =
      if nodes_left_to_decode == 0 || min_interval_length == 0
      then pure ([], nodes_left_to_decode)
      else read lib cs interval_count
        >>= read_pairs node_id min_interval_length nodes_left_to_decode

  -- The first residual, and how many follow it.
  unfoldable pub open_residuals : ℕ → ℕ → Reader (ℕ × ℕ)
  open_residuals node_id zero = pure (usize_max, 0)
  open_residuals node_id (suc left_behind_first) = do
    node_id_offset ← read lib cs first_residual
    pure (add_i64 node_id (lib.to_int node_id_offset), left_behind_first)

  module _ (new_decoder : ℕ → List Bool) where
    -- `outdegree`
    unfoldable pub outdegree_of : ℕ → Option ℕ
    outdegree_of node_id = elim (read lib cs outdegree (new_decoder node_id)) [
      | none ↦ none
      | some (degree, _) ↦ some degree
    ]

  module _ {P : Type 0} (it : ExactIterator P) (successors : ℕ → Option P) where
    unfoldable pub open_copied : ℕ → ℕ → Reader (Option (MaskedIterator P))
    unfolding read_lengths
    open_copied node_id ref_delta = if ref_delta == 0 then pure none else do
      reference_node_id ← lift (checked_sub node_id ref_delta)
      neighbours ← lift (successors reference_node_id)
      number_of_blocks ← read lib cs block_count
      blocks ← read_lengths number_of_blocks
      res ← lift (MaskedIterator.new it neighbours blocks)
      pure (some res)

    unfoldable pub open_from_reference : ℕ → ℕ → ℕ → ℕ → Reader (Opened P)
    open_from_reference min_interval_length node_id degree ref_delta = do
      copied ← open_copied node_id ref_delta
      left_behind_copied ← lift (checked_sub degree (copied_len copied))
      intervals ← open_intervals node_id min_interval_length left_behind_copied
      residuals ← open_residuals node_id intervals.1
      pure (record {
        copied = copied;
        intervals = intervals.0;
        residuals_to_go = residuals.1;
        first_node = residuals.0;
      })

    unfoldable pub open_parts : ℕ → ℕ → ℕ → ℕ → Reader (Opened P)
    open_parts compression_window min_interval_length node_id degree =
        (if compression_window == 0 then pure 0 else read lib cs reference_offset)
        >>= open_from_reference min_interval_length node_id degree

    -- `labels`, on the decoder of the node.
    unfoldable pub open_labels : ℕ → ℕ → ℕ → List Bool → Option (Succ P)
    open_labels compression_window min_interval_length node_id decoder =
        elim (read lib cs outdegree decoder) [
          | none ↦ none
          | some (degree, reader) ↦
              if degree == 0
              then some (new reader)
              else elim (open_parts compression_window min_interval_length node_id degree reader) [
                | none ↦ none
                | some (o, reader') ↦ prefill it degree o reader'
              ]
        ]

  abbrev pub SuccAt : ℕ → Type 0
  SuccAt zero = ⊥
  SuccAt (suc depth) = Succ (SuccAt depth)

  abbrev pub iterator : (depth : ℕ) → ExactIterator (SuccAt depth)
  iterator zero = record { next = λ s. absurd s; len = λ s. absurd s }
  iterator (suc depth) = succ_iterator lib cs (iterator depth)

  unfoldable pub labels : (ℕ → List Bool) → ℕ → ℕ → (depth : ℕ) → ℕ → Option (SuccAt depth)
  unfolding open_labels
  labels new_decoder compression_window min_interval_length zero node_id = none
  labels new_decoder compression_window min_interval_length (suc depth) node_id =
      open_labels (iterator depth) (labels new_decoder compression_window min_interval_length depth)
        compression_window min_interval_length node_id (new_decoder node_id)
