-- ===== src/BvComp.antt =====
-- webgraph-rs/webgraph/src/graphs/bvgraph/comp/bvcomp.rs, `struct BvComp`: the compressor of a graph, which is
-- given the successor lists of its nodes in order.
--
-- `none` is a panic. The state of the encoder is the stream of bits written so far, and of the
-- estimators that `push` creates only the returned sums matter.
pub mod Choice
pub mod Search
pub mod State
pub mod Push
pub mod Graph
pub mod RoundTrip
pub mod Places
pub mod Access
use rbsc.Base.{
  ℕ, zero, suc, ◌+◌, ◌-◌, Bool, Option, none, some, List, [], ◌∷◌, ◌++◌, length, replicate,
  get_elem?, set, ◌>>=◌, ◌==◌, ltb, leb, if◌then◌else◌, checked_sub,
}
use Prim.Native.Nat.{min}
use rbsc.CircularBuffer
use rbsc.CircularBuffer.{CircularBuffer}
use rbsc.Codec.{CodeLibrary, CodeConsts, Symbol, encode_all, estimate_all}
use rbsc.Compressor.{Compressor, empty, is_empty, compress}
use rbsc.Compressor.Write.{write}

pub record BvComp : Type 0 where
  pub backrefs : CircularBuffer (List ℕ)
  pub ref_counts : CircularBuffer ℕ
  pub encoder : List Bool
  pub compressors : List Compressor
  pub compression_window : ℕ
  pub max_ref_count : ℕ
  pub min_interval_length : ℕ
  pub curr_node : ℕ
  pub start_node : ℕ
  pub arcs : ℕ

unfoldable pub new : List Bool → ℕ → ℕ → ℕ → ℕ → BvComp
new encoder compression_window max_ref_count min_interval_length start_node = record {
  backrefs = CircularBuffer.new [] (compression_window + 1);
  ref_counts = CircularBuffer.new 0 (compression_window + 1);
  encoder = encoder;
  compressors = replicate (compression_window + 1) empty;
  compression_window = compression_window;
  max_ref_count = max_ref_count;
  min_interval_length = min_interval_length;
  curr_node = start_node;
  start_node = start_node;
  arcs = 0;
}

-- `xs[i] = v`, which panics out of range.
abbrev pub store {ℓ} : {A : Type ℓ} → List A → ℕ → A → Option (List A)
store xs i v = get_elem? xs i >>= λ _. some (set xs i v)

-- The variables that the loop over the references changes.
pub record Best : Type 0 where
  pub compressors : List Compressor
  pub ref_delta : ℕ
  pub min_bits : ℕ
  pub ref_count : ℕ

module _ (lib : CodeLibrary) (cs : CodeConsts) where
  -- The part of a round behind both `continue`s.
  unfoldable pub try_reference : BvComp → List ℕ → ℕ → ℕ → List ℕ → Best → Option Best
  try_reference b curr_list delta count ref_list best = do
    c ← compress curr_list (some ref_list) b.min_interval_length
    compressors ← store best.compressors delta c
    calls ← write lib c b.curr_node (some delta) b.min_interval_length
    let bits = estimate_all lib cs calls
    some (
        if ltb bits best.min_bits
        then record {
          compressors = compressors;
          ref_delta = delta;
          min_bits = bits;
          ref_count = count + 1;
        }
        else record best { compressors = compressors })

  unfoldable pub reference_round : BvComp → List ℕ → ℕ → Best → Option Best
  reference_round b curr_list delta best = do
    ref_node ← checked_sub b.curr_node delta
    count ← CircularBuffer.index b.ref_counts ref_node
    if leb b.max_ref_count count
        then some best
        else CircularBuffer.index b.backrefs ref_node >>= λ ref_list.
            if is_empty ref_list
            then some best
            else try_reference b curr_list delta count ref_list best

  -- `for delta in 1..deltas`: the rounds left and `delta`.
  unfoldable pub reference_loop : BvComp → List ℕ → ℕ → ℕ → Best → Option Best
  reference_loop b curr_list zero delta best = some best
  reference_loop b curr_list (suc rounds) delta best =
      reference_round b curr_list delta best >>= reference_loop b curr_list rounds (delta + 1)

  -- The end of `push` without a window.
  unfoldable pub push_plain : BvComp → Compressor → List Compressor → Option (ℕ × BvComp)
  push_plain b c compressors = do
    calls ← write lib c b.curr_node none b.min_interval_length
    let bits = encode_all lib cs calls
    some (
      length bits,
      record b {
        encoder = b.encoder ++ bits;
        compressors = compressors;
        curr_node = b.curr_node + 1;
      },
    )

  -- The end of `push` with a window: the search for a reference, and the writing.
  unfoldable pub push_best : BvComp → List ℕ → Compressor → List Compressor → Option (ℕ × BvComp)
  push_best b curr_list plain compressors = do
    plain_calls ← write lib plain b.curr_node (some 0) b.min_interval_length
    nodes_before ← checked_sub b.curr_node b.start_node
    best ← reference_loop b curr_list (min b.compression_window nodes_before) 1 (record {
      compressors = compressors;
      ref_delta = 0;
      min_bits = estimate_all lib cs plain_calls;
      ref_count = 0;
    })
    c ← get_elem? best.compressors best.ref_delta
    calls ← write lib c b.curr_node (some best.ref_delta) b.min_interval_length
    let bits = encode_all lib cs calls
    ref_counts ← CircularBuffer.replace b.ref_counts b.curr_node best.ref_count
    some (
      length bits,
      record b {
        encoder = b.encoder ++ bits;
        compressors = best.compressors;
        ref_counts = ref_counts;
        curr_node = b.curr_node + 1;
      },
    )

  -- The number of bits written, and the new state.
  unfoldable pub push : BvComp → List ℕ → Option (ℕ × BvComp)
  push b succ_list = do
    taken ← CircularBuffer.take [] b.backrefs b.curr_node
    backrefs ← CircularBuffer.replace taken.1 b.curr_node succ_list
    curr_list ← CircularBuffer.index backrefs b.curr_node
    let b' = record b { backrefs = backrefs; arcs = b.arcs + length curr_list }
    c ← compress curr_list none b.min_interval_length
    compressors ← store b.compressors 0 c
    if b.compression_window == 0
        then push_plain b' c compressors
        else push_best b' curr_list c compressors

  unfoldable pub extend : BvComp → List (List ℕ) → Option (ℕ × BvComp)
  extend b [] = some (0, b)
  extend b (succ_list ∷ lists) = do
    pushed ← push b succ_list
    rest ← extend pushed.1 lists
    some (pushed.0 + rest.0, rest.1)
