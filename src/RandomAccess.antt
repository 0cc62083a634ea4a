-- ===== src/RandomAccess.antt =====
-- webgraph-rs/webgraph/src/graphs/bvgraph/random_access.rs, `Succ`: the iterator over the successors of one node
-- of a compressed graph.
--
-- The nodes that are copied come from an iterator of the same kind over the successors of the
-- reference, which has a decoder of its own. `none` is a panic.
pub mod Parts
pub mod Above
pub mod Merge
pub mod Labels
pub mod PartsTrip
pub mod OpenTrip
pub mod Opens
pub mod Outdegree
use Prim.Native.Nat.{min}
use rbsc.Base.{
  ℕ, ◌+◌, ◌-◌, Bool, Option, none, some, List, [], get_elem?, set, ◌>>=◌, ◌==◌, leb, if◌then◌else◌,
  checked_sub,
}
use rbsc.Codec.{CodeLibrary, CodeConsts, residual, u64_mod}
use rbsc.MaskedIterator
use rbsc.MaskedIterator.{ExactIterator, MaskedIterator}
use rbsc.Sequential.{read}

abbrev pub usize_max : ℕ
usize_max = u64_mod - 1

-- `P` is the iterator over the successors of the reference.
pub record Succ (P : Type 0) : Type 0 where
  pub reader : List Bool
  pub size : ℕ
  pub copied_nodes_iter : Option (MaskedIterator P)
  pub intervals : List (ℕ × ℕ)
  pub intervals_idx : ℕ
  pub residuals_to_go : ℕ
  pub next_residual_node : ℕ
  pub next_copied_node : ℕ
  pub next_interval_node : ℕ

unfoldable pub new : {P : Type 0} → List Bool → Succ P
new reader = record {
  reader = reader;
  size = 0;
  copied_nodes_iter = none;
  intervals = [];
  intervals_idx = 0;
  residuals_to_go = 0;
  next_residual_node = usize_max;
  next_copied_node = usize_max;
  next_interval_node = usize_max;
}

-- `<Succ as ExactSizeIterator>::len`
unfoldable pub len : {P : Type 0} → Succ P → ℕ
len s = s.size

abbrev unwrap_or : ℕ → Option ℕ → ℕ
unwrap_or default none = default
unwrap_or default (some n) = n

module _ {P : Type 0} (it : ExactIterator P) where
  -- `.as_mut().and_then(|iter| iter.next()).unwrap_or(usize::MAX)`
  unfoldable pub next_copied : Option (MaskedIterator P) → Option (ℕ × Option (MaskedIterator P))
  next_copied none = some (usize_max, none)
  next_copied (some m) = do r ← MaskedIterator.next it m; some (unwrap_or usize_max r.0, some r.1)

  -- `next` forwards the copied nodes.
  unfoldable pub forward_copied : Succ P → Option (Succ P)
  unfolding next_copied
  forward_copied s = do
    r ← next_copied s.copied_nodes_iter
    some (record s { next_copied_node = r.0; copied_nodes_iter = r.1 })

-- The next node of the current interval, whose part in `intervals` is cut by it.
unfoldable pub forward_interval : {P : Type 0} → Succ P → Option (Succ P)
forward_interval s = do
  interval ← get_elem? s.intervals s.intervals_idx
  len ← checked_sub interval.1 1
  some (record s {
    intervals = set s.intervals s.intervals_idx (interval.0 + 1, len);
    next_interval_node = interval.0;
    intervals_idx = s.intervals_idx + (if len == 0 then 1 else 0);
  })

module _ (lib : CodeLibrary) (cs : CodeConsts) where
  unfoldable pub forward_residual : {P : Type 0} → Succ P → Option (Succ P)
  forward_residual s =
      if s.residuals_to_go == 0
      then some (record s { next_residual_node = usize_max })
      else read lib cs residual s.reader >>= λ gap. some (record s {
        reader = gap.1;
        residuals_to_go = s.residuals_to_go - 1;
        next_residual_node = s.next_residual_node + (1 + gap.0);
      })

  module _ {P : Type 0} (it : ExactIterator P) where
    -- `next` behind the test of `size`.
    unfoldable pub next_node : Succ P → Option (Option ℕ × Succ P)
    next_node s =
        let least = min s.next_residual_node s.next_interval_node in
        if leb s.next_copied_node least
        then (forward_copied it s >>= λ s'. some (some s.next_copied_node, s'))
        else if least == s.next_residual_node
        then (forward_residual s >>= λ s'. some (some least, s'))
        else forward_interval s >>= λ s'. some (some least, s')

    -- `<Succ as Iterator>::next`
    unfoldable pub next : Succ P → Option (Option ℕ × Succ P)
    unfolding next_node
    next s = if s.size == 0 then some (none, s) else next_node (record s { size = s.size - 1 })

    abbrev pub succ_iterator : ExactIterator (Succ P)
    succ_iterator = record { next = next; len = len }
