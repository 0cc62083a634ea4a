-- ===== src/Tests/Graphs.antt =====
-- A graph of five nodes is compressed and read back.
use rbsc.Base.{
  ℕ, ◌≡◌, refl, arith, Bool, Option, some, List, [], ◌∷◌, ◌++◌, length, replicate, All, ◌>>=◌,
  checked_sub, slice, sort,
}
use rbsc.CircularBuffer
use rbsc.Codec.{encode_all, estimate_all, decode}
use rbsc.Compressor.{empty, compress, split_list, divide_extra, diff_comp, intervalize}
use rbsc.Compressor.Write.{
  write, write_reference, write_blocks, write_extra, write_intervals, write_residuals,
}
use rbsc.Sequential.{
  get_successors, read_successors, read_from_reference, read_copied, read_blocks, read_intervals,
  read_residuals,
}
use rbsc.Sequential.Iter
use rbsc.Sequential.Iter.{Iter, next, next_successors, collect}
use rbsc.Sequential.RestTrip.{IsSuccessors}
use rbsc.BvComp.{
  BvComp, new, push, push_plain, push_best, reference_loop, reference_round, try_reference, extend,
}
use rbsc.BvComp.State.{IsState, IsFewest, IsChosen}
use rbsc.BvComp.Graph.{numbered, total_length}
use rbsc.CircularBuffer.Laws.{put}
use rbsc.BvComp.RoundTrip.{Yields, collect-extend, push-IsFewest}
use rbsc.Tests.Codes.{unary, consts, write_unary, read_unary, zigzag, unzigzag}

abbrev pub graph : List (List ℕ)
graph = (1 ∷ 2 ∷ 3 ∷ 4 ∷ []) ∷ (0 ∷ 2 ∷ 3 ∷ 4 ∷ []) ∷ [] ∷ (0 ∷ 2 ∷ 3 ∷ []) ∷ (1 ∷ 4 ∷ []) ∷ []

written : Option (List Bool)
written = extend unary consts (new [] 2 3 2 0) graph >>= λ r. some r.1.encoder

read_back : Option (List (ℕ × List ℕ))
read_back = written >>= λ bits. collect unary consts 6 (Iter.new bits 5 2 2) >>= λ r. some r.0

read_back_runs : read_back ≡ some (numbered 0 graph)
unfolding read_back written extend new push push_plain push_best reference_loop reference_round
    try_reference compress split_list divide_extra diff_comp intervalize write write_reference
    write_blocks write_extra write_intervals write_residuals encode_all estimate_all decode
    get_successors read_successors read_from_reference read_copied read_blocks read_intervals
    read_residuals Iter.new next next_successors collect CircularBuffer.new CircularBuffer.index
    CircularBuffer.take CircularBuffer.replace checked_sub slice sort write_unary read_unary zigzag
    unzigzag
read_back_runs = refl

pub ascending : All IsSuccessors graph
ascending = omega arith

collect-extend_example :
    (r : ℕ × BvComp) × ((extend unary consts (new [] 2 3 2 0) graph ≡ some r)
      × (r.0 ≡ length r.1.encoder)
      × (r.1.arcs ≡ total_length graph)
      × ((rest : List Bool) → Yields unary consts 2 2 (r.1.encoder ++ rest) rest graph))
collect-extend_example = collect-extend unary consts 2 3 2 graph ascending (omega arith)

-- After the first list: the other slots are empty.
abbrev second : BvComp
second = record {
  backrefs = record { slots = (2 ∷ 5 ∷ 9 ∷ 14 ∷ []) ∷ [] ∷ [] ∷ [] };
  ref_counts = record { slots = 0 ∷ 0 ∷ 0 ∷ [] };
  encoder = [];
  compressors = replicate 3 empty;
  compression_window = 2;
  max_ref_count = 3;
  min_interval_length = 2;
  curr_node = 1;
  start_node = 0;
  arcs = 4;
}

second-IsState : IsState second
second-IsState = record {
  backrefs_size = refl;
  counts_size = refl;
  compressors_size = refl;
  started = omega arith;
  lists = omega arith;
  counts = omega arith;
}

-- The first node is the reference of the second one.
second_counts :
    (push unary consts second (2 ∷ 5 ∷ 9 ∷ 14 ∷ 15 ∷ []) >>= λ r. some r.1.ref_counts.slots)
    ≡ some (0 ∷ 1 ∷ 0 ∷ [])
unfolding push push_plain push_best reference_loop reference_round try_reference compress split_list
    divide_extra diff_comp intervalize write write_reference write_blocks write_extra
    write_intervals write_residuals encode_all estimate_all CircularBuffer.index CircularBuffer.take
    CircularBuffer.replace checked_sub write_unary zigzag
second_counts = refl

push-IsFewest_example :
    (r : ℕ × BvComp) × ((push unary consts second (2 ∷ 5 ∷ 9 ∷ 14 ∷ 15 ∷ []) ≡ some r)
      × IsState r.1
      × IsFewest unary consts second (2 ∷ 5 ∷ 9 ∷ 14 ∷ 15 ∷ []) r.0
      × IsChosen unary consts second (2 ∷ 5 ∷ 9 ∷ 14 ∷ 15 ∷ []) r.0 r.1
      × (r.1.backrefs ≡ put second.backrefs 1 (2 ∷ 5 ∷ 9 ∷ 14 ∷ 15 ∷ []))
      × (r.1.curr_node ≡ 2)
      × (r.1.arcs ≡ 9))
push-IsFewest_example =
    push-IsFewest unary consts second (2 ∷ 5 ∷ 9 ∷ 14 ∷ 15 ∷ []) second-IsState (omega arith)
      (omega arith) (omega arith)
