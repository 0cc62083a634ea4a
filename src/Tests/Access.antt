-- ===== src/Tests/Access.antt =====
-- Random access on the graph of five nodes, and its parts at an input.
use rbsc.Base.{
  ℕ, zero, suc, ◌-◌, ◌≡◌, refl, arith, Bool, true, Option, none, some, List, [], ◌∷◌, ◌++◌,
  append-nil, length, take, drop, checked_sub, left, right, done,
}
use rbsc.Codec.{encode_all, estimate_all, decode}
use rbsc.CircularBuffer
use rbsc.CopyList.{masked}
use rbsc.Compressor.{compress, split_list, divide_extra, diff_comp, intervalize}
use rbsc.Compressor.Write.{
  write, write_reference, write_blocks, write_extra, write_intervals, write_residuals,
}
use rbsc.MaskedIterator
use rbsc.MaskedIterator.{ExactIterator, MaskedIterator}
use rbsc.MaskedIterator.Yields.{MaskYields}
use rbsc.MaskedIterator.Yields
use rbsc.MaskedIterator.New.{new-MaskYields}
use rbsc.RandomAccess
use rbsc.RandomAccess.{
  Succ, succ_iterator, forward_interval, forward_copied, forward_residual, next_copied, next_node,
  next,
}
use rbsc.RandomAccess.Labels.{
  SuccAt, iterator, labels, outdegree_of, open_parts, open_from_reference, open_copied,
  open_intervals, read_pairs, open_residuals, prefill, prefill_interval, copied_len,
}
use rbsc.RandomAccess.Opens.{Finds}
use rbsc.RandomAccess.Merge.{IsLeft, next-Yields}
use rbsc.BvComp.{
  BvComp, new, push, push_plain, push_best, reference_loop, reference_round, try_reference, extend,
}
use rbsc.BvComp.Access.{IsPositioned, labels-extend}
use rbsc.BvComp.RoundTrip.{collect-extend}
use rbsc.Tests.Codes.{unary, consts, write_unary, read_unary, zigzag, unzigzag}
use rbsc.Tests.Graphs.{graph, ascending}

-- A list as an iterator.
abbrev next_in : List ℕ → Option (Option ℕ × List ℕ)
next_in [] = some (none, [])
next_in (x ∷ xs) = some (some x, xs)

abbrev list_iterator : ExactIterator (List ℕ)
list_iterator = record { next = next_in; len = length }

abbrev sorted : List ℕ
sorted = 3 ∷ 5 ∷ 8 ∷ 9 ∷ []

new-MaskYields_example :
    (m : MaskedIterator (List ℕ)) × (MaskedIterator.new list_iterator sorted (1 ∷ 1 ∷ []) ≡ some m)
    × (m.size ≡ length (masked true (1 ∷ 1 ∷ []) sorted))
    × MaskYields list_iterator m (masked true (1 ∷ 1 ∷ []) sorted)
new-MaskYields_example =
    new-MaskYields list_iterator sorted sorted (1 ∷ 1 ∷ [])
      (
        refl,
        (
          5 ∷ 8 ∷ 9 ∷ [],
          refl,
          (refl, (8 ∷ 9 ∷ [], refl, (refl, (9 ∷ [], refl, (refl, ([], refl, (refl, refl))))))),
        ),
      )
      (omega arith) (omega arith) (λ e. omega arith)

-- 1 and 5 are copied, 2 and 3 are an interval, and 7 is a residual.
abbrev parts : Succ (List ℕ)
parts = record {
  reader = [];
  size = 5;
  copied_nodes_iter = some (record { parent = 5 ∷ []; blocks = 1 ∷ []; block_idx = 0; size = 2 });
  intervals = (3, 1) ∷ (RandomAccess.usize_max - 1, 1) ∷ [];
  intervals_idx = 0;
  residuals_to_go = 0;
  next_residual_node = 7;
  next_copied_node = 1;
  next_interval_node = 2;
}

parts-IsLeft : IsLeft unary consts list_iterator parts (1 ∷ 5 ∷ []) (2 ∷ 3 ∷ []) (7 ∷ [])
unfolding encode_all MaskedIterator.next MaskedIterator.next_in_block
    MaskedIterator.next_behind_block checked_sub
parts-IsLeft = record {
  copies = (refl, _, refl, (_, refl, (_, refl)));
  spans = (refl, [], (3, 1) ∷ [], refl, refl, (omega arith, tt), refl);
  rests = (refl, refl, [], refl, tt, tt);
}

next-Yields_example :
    Yields.Yields (succ_iterator unary consts list_iterator) parts (1 ∷ 2 ∷ 3 ∷ 5 ∷ 7 ∷ [])
next-Yields_example =
    next-Yields unary consts list_iterator 0 parts
      (left 1 (right 2 (right 3 (left 5 (right 7 done))))) (left 2 (left 3 (right 7 done)))
      parts-IsLeft refl (omega arith) (omega arith)

-- The stream of the graph, with the position of each node.
stream : List Bool
stream = elim (extend unary consts (new [] 2 3 2 0) graph) [ none ↦ [] | some r ↦ r.1.encoder ]

decoder_at : ℕ → List Bool
unfolding stream
decoder_at node = elim (extend unary consts (new [] 2 3 2 0) (take node graph)) [
  | none ↦ []
  | some r ↦ drop r.0 stream
]

-- The values that an iterator returns.
drain : (rounds depth : ℕ) → SuccAt unary consts depth → List ℕ
drain zero depth s = []
drain (suc rounds) depth s = elim ((iterator unary consts depth).next s) [
  | none ↦ []
  | some (none, s') ↦ []
  | some (some x, s') ↦ x ∷ drain rounds depth s'
]

found : ℕ → List ℕ
unfolding drain decoder_at
found node = elim (labels unary consts decoder_at 2 2 5 node) [ none ↦ [] | some s ↦ drain 9 5 s ]

found_runs : found 3 ≡ 0 ∷ 2 ∷ 3 ∷ []
unfolding found extend new push push_plain push_best reference_loop reference_round try_reference
    compress split_list divide_extra diff_comp intervalize write write_reference write_blocks
    write_extra write_intervals write_residuals encode_all estimate_all decode CircularBuffer.new
    CircularBuffer.index CircularBuffer.take CircularBuffer.replace checked_sub write_unary
    read_unary zigzag unzigzag labels open_parts open_from_reference open_copied open_intervals
    read_pairs open_residuals prefill prefill_interval copied_len RandomAccess.new next
    forward_copied forward_residual forward_interval MaskedIterator.new RandomAccess.len
    MaskedIterator.measure MaskedIterator.next MaskedIterator.next_in_block
    MaskedIterator.next_behind_block
found_runs = refl

stream_lem :
    (r : ℕ × BvComp) → extend unary consts (new [] 2 3 2 0) graph ≡ some r → stream ≡ r.1.encoder
unfolding stream
stream_lem r e = rw (stream, e)

decoder_at-IsPositioned :
    (r : ℕ × BvComp)
    → extend unary consts (new [] 2 3 2 0) graph ≡ some r
    → IsPositioned unary consts 2 3 2 graph decoder_at (r.1.encoder ++ [])
unfolding decoder_at
decoder_at-IsPositioned r extended node prefix h e =
    rw (decoder_at, e, stream_lem r extended, append-nil r.1.encoder)

labels-extend_example :
    Finds unary consts 5 (labels unary consts decoder_at 2 2 5 3) (0 ∷ 2 ∷ 3 ∷ [])
    × (outdegree_of unary consts decoder_at 3 ≡ some 3)
labels-extend_example =
    let (r, (extended, _, _, _)) =
      collect-extend unary consts 2 3 2 graph ascending (omega arith) in
    labels-extend unary consts 2 3 2 graph r [] decoder_at 5 3 (0 ∷ 2 ∷ 3 ∷ []) ascending
      (omega arith) extended (decoder_at-IsPositioned r extended) (omega arith) refl
