-- ===== src/CsrGraph.antt =====
-- webgraph-rs/webgraph/src/graphs/csr_graph.rs: graphs by the degree-cumulative function (`dcf`) and the
-- concatenated successors.
--
-- The two sequences are their lists of values. `none` is a panic in `outdegree` and `labels`, and in the
-- iterators it is their end.
pub mod Build
pub mod Sorted
pub mod Access
pub mod Lender
pub mod Laws
use rbsc.Base.{
  ℕ, zero, suc, ◌+◌, ◌-◌, ◌≤◌, ◌<◌, ◌≡◌, Option, none, some, List, [], ◌∷◌, ◌++◌, length, get_elem?,
  take, drop, ◌>>=◌, leb, if◌then◌else◌, checked_sub,
}
use Prim.Native.Nat.{max}

-- What the program uses of the crate value-traits: the value at an index, and an iterator over the
-- values from an index on. An index out of range panics, and an iterator may start at the end.
pub record SliceLibrary : Type 0 where
  pub index_value : List ℕ → ℕ → Option ℕ
  pub iter_value_from : List ℕ → ℕ → Option (List ℕ)
  pub index_value-lt : (xs : List ℕ) (i : ℕ) → i < length xs → index_value xs i ≡ get_elem? xs i
  pub iter_value_from-le :
      (xs : List ℕ) (i : ℕ) → i ≤ length xs → iter_value_from xs i ≡ some (drop i xs)

pub record CsrGraph : Type 0 where
  pub dcf : List ℕ
  pub successors : List ℕ

abbrev pub from_parts : List ℕ → List ℕ → CsrGraph
from_parts dcf successors = record { dcf = dcf; successors = successors }

-- What a sequential graph lends: a node with its successors.
abbrev pub NodeLabels : Type 0
NodeLabels = ℕ × List ℕ

-- The variables of the functions that build a graph.
pub record Builder : Type 0 where
  pub dcf : List ℕ
  pub successors : List ℕ
  pub last_src : ℕ

abbrev pub new_builder : Builder
new_builder = record { dcf = 0 ∷ []; successors = []; last_src = 0 }

-- A round of `while last_src < src`, or of the last loop.
abbrev pub close_node : Builder → Builder
close_node b = record b { dcf = b.dcf ++ length b.successors ∷ []; last_src = b.last_src + 1 }

-- The rounds are counted down.
unfoldable pub close_nodes : ℕ → Builder → Builder
close_nodes zero b = b
close_nodes (suc rounds) b = close_nodes rounds (close_node b)

abbrev pub add_successors : List ℕ → Builder → Builder
add_successors succ b = record b { successors = b.successors ++ succ }

unfoldable pub add_nodes : List NodeLabels → Builder → Builder
add_nodes [] b = b
add_nodes ((src, succ) ∷ items) b =
    add_nodes items (add_successors succ (close_nodes (src - b.last_src) b))

-- The loop behind the last node, up to `end`, and the result.
unfoldable pub finish : ℕ → Builder → CsrGraph
finish end b = let b' = close_nodes (end - b.last_src) b in from_parts b'.dcf b'.successors

unfoldable pub from_seq_graph : ℕ → List NodeLabels → CsrGraph
from_seq_graph num_nodes items = finish num_nodes (add_nodes items new_builder)

-- The loop over the successors of one node, with `max_node`.
unfoldable pub max_successor : List ℕ → ℕ → ℕ
max_successor [] max_node = max_node
max_successor (succ ∷ succs) max_node = max_successor succs (max max_node succ)

unfoldable pub add_lender : List NodeLabels → Builder → ℕ → Builder × ℕ
add_lender [] b max_node = (b, max_node)
add_lender ((src, succs) ∷ items) b max_node =
    add_lender items (add_successors succs (close_nodes (src - b.last_src) b))
      (max_successor succs (max max_node src))

unfoldable pub from_sorted_lender : List NodeLabels → CsrGraph
from_sorted_lender items = let r = add_lender items new_builder 0 in finish (r.1 + 1) r.0

-- `dcf` is never empty.
unfoldable pub num_nodes : CsrGraph → ℕ
num_nodes g = length g.dcf - 1

unfoldable pub num_arcs : CsrGraph → ℕ
num_arcs g = length g.successors

-- `LenderImpl`, with what is left of its two iterators.
pub record LenderImpl : Type 0 where
  pub node : ℕ
  pub last_offset : ℕ
  pub current_offset : ℕ
  pub offsets_iter : List ℕ
  pub successors_iter : List ℕ

-- `self.successors_iter.next()` with `current_offset += 1`.
unfoldable pub advance : LenderImpl → Option (ℕ × LenderImpl)
advance l = elim l.successors_iter [
  | [] ↦ none
  | x ∷ xs ↦ some (x, record l { current_offset = l.current_offset + 1; successors_iter = xs })
]

-- The loop over the successors that the user did not take; the rounds are counted down.
unfoldable pub skip : ℕ → LenderImpl → Option LenderImpl
unfolding advance
skip zero l = some l
skip (suc rounds) l = advance l >>= λ r. skip rounds r.1

-- `Lender::next`; the successors of the node it returns are read from the lender.
unfoldable pub next : LenderImpl → Option (ℕ × LenderImpl)
unfolding skip
next l = skip (l.last_offset - l.current_offset) l >>= λ l'. elim l'.offsets_iter [
  | [] ↦ none
  | offset ∷ offsets ↦
      some (l'.node, record l' { node = l'.node + 1; last_offset = offset; offsets_iter = offsets })
]

-- `IteratorImpl::next`, and `IteratorImpl::len`.
unfoldable pub next_successor : LenderImpl → Option (ℕ × LenderImpl)
unfolding advance
next_successor l = if leb l.last_offset l.current_offset then none else advance l

unfoldable pub successors_left : LenderImpl → Option ℕ
successors_left l = checked_sub l.last_offset l.current_offset

-- `offsets_iter.next().unwrap_or(0)`
abbrev pub next_or_zero : List ℕ → ℕ
next_or_zero [] = 0
next_or_zero (offset ∷ offsets) = offset

module _ (lib : SliceLibrary) where
  unfoldable pub outdegree : CsrGraph → ℕ → Option ℕ
  outdegree g node = do
    end ← lib.index_value g.dcf (node + 1)
    start ← lib.index_value g.dcf node
    checked_sub end start

  unfoldable pub labels : CsrGraph → ℕ → Option (List ℕ)
  labels g node = do
    start ← lib.index_value g.dcf node
    end ← lib.index_value g.dcf (node + 1)
    later ← lib.iter_value_from g.successors start
    degree ← checked_sub end start
    some (take degree later)

  unfoldable pub iter_from : CsrGraph → ℕ → Option LenderImpl
  iter_from g from = do
    offsets ← lib.iter_value_from g.dcf from
    let offset = next_or_zero offsets
    successors ← lib.iter_value_from g.successors offset
    some (record {
      node = from;
      last_offset = offset;
      current_offset = offset;
      offsets_iter = drop 1 offsets;
      successors_iter = successors;
    })
