-- ===== src/Sequential/Iter.antt =====
-- webgraph-rs/webgraph/src/graphs/bvgraph/sequential.rs, `struct Iter`: the iterator that yields the nodes of a
-- compressed graph with their successors. `none` is a panic.
use rbsc.Base.{
  ℕ, zero, suc, ◌+◌, Bool, Option, none, some, List, [], ◌∷◌, leb, if◌then◌else◌, ◌>>=◌,
}
use rbsc.CircularBuffer
use rbsc.CircularBuffer.{CircularBuffer}
use rbsc.Codec.{CodeLibrary, CodeConsts}
use rbsc.Sequential.{get_successors}

pub record Iter : Type 0 where
  pub number_of_nodes : ℕ
  pub compression_window : ℕ
  pub min_interval_length : ℕ
  pub decoder : List Bool
  pub backrefs : CircularBuffer (List ℕ)
  pub current_node : ℕ

unfoldable pub new : List Bool → ℕ → ℕ → ℕ → Iter
new decoder number_of_nodes compression_window min_interval_length = record {
  number_of_nodes = number_of_nodes;
  compression_window = compression_window;
  min_interval_length = min_interval_length;
  decoder = decoder;
  backrefs = CircularBuffer.new [] (compression_window + 1);
  current_node = 0;
}

module _ (lib : CodeLibrary) (cs : CodeConsts) where
  unfoldable pub next_successors : Iter → Option (List ℕ × Iter)
  next_successors it = do
    taken ← CircularBuffer.take [] it.backrefs it.current_node
    decoded ←
        get_successors lib cs it.compression_window it.min_interval_length it.current_node taken.1
          it.decoder
    backrefs ← CircularBuffer.replace taken.1 it.current_node decoded.0
    some (
      decoded.0,
      record it { decoder = decoded.1; backrefs = backrefs; current_node = it.current_node + 1 },
    )

  -- `Lender::next`: `some none` is the end of the iteration.
  unfoldable pub next : Iter → Option (Option (ℕ × List ℕ) × Iter)
  next it =
      if leb it.number_of_nodes it.current_node
      then some (none, it)
      else next_successors it >>= λ r. some (some (it.current_node, r.0), r.1)

  -- The rounds of a loop over the iterator, at most `rounds`.
  unfoldable pub collect : ℕ → Iter → Option (List (ℕ × List ℕ) × Iter)
  collect zero it = some ([], it)
  collect (suc rounds) it = next it >>= λ r. elim r.0 [
    | none ↦ some ([], r.1)
    | some item ↦ collect rounds r.1 >>= λ rest. some (item ∷ rest.0, rest.1)
  ]
