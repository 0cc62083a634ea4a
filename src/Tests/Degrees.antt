-- ===== src/Tests/Degrees.antt =====
-- The two iterators at a node that copies the list of the node before, and has one residual.
use rbsc.Base.{
  ℕ, zero, suc, ◌-◌, ◌%◌, ◌≤◌, ◌<◌, ◌≡◌, refl, sym, ap, ◌∙◌, arith, Bool, some, List, [], ◌∷◌,
  length, get_elem?, slice, sort, checked_sub,
}
use mathlib.Core.Option.{some-injective}
use rbsc.CircularBuffer
use rbsc.Codec.{
  encode_all, encode, decode, outdegree, reference_offset, block_count, interval_count,
  first_residual,
}
use rbsc.Sequential.{
  read, get_successors, read_successors, read_from_reference, read_copied, read_blocks,
  read_intervals, read_residuals,
}
use rbsc.Sequential.Iter.{Iter, next_successors}
use rbsc.OffsetDegIter.{next_degree}
use rbsc.OffsetDegIter.Degree.{InStep, RefersWithin, degree_iter}
use rbsc.OffsetDegIter.Steps.{next_degree-next_successors}
use rbsc.Tests.Codes.{unary, consts, write_unary, read_unary, zigzag, unzigzag}

abbrev bits_behind_degree : List Bool
bits_behind_degree =
    encode_all unary consts
      ((reference_offset, 1) ∷ (block_count, 0) ∷ (interval_count, 0) ∷ (first_residual, 12) ∷ [])

abbrev copying : Iter
copying = record {
  number_of_nodes = 2;
  compression_window = 1;
  min_interval_length = 2;
  decoder = encode_all unary consts (
      (outdegree, 4)
      ∷ (reference_offset, 1)
      ∷ (block_count, 0)
      ∷ (interval_count, 0)
      ∷ (first_residual, 12)
      ∷ []);
  backrefs = record { slots = (1 ∷ 2 ∷ 3 ∷ []) ∷ [] ∷ [] };
  current_node = 1;
}

abbrev after : Iter
after = record copying {
  decoder = [];
  backrefs = record { slots = (1 ∷ 2 ∷ 3 ∷ []) ∷ (1 ∷ 2 ∷ 3 ∷ 7 ∷ []) ∷ [] };
  current_node = 2;
}

copying-next : next_successors unary consts copying ≡ some (1 ∷ 2 ∷ 3 ∷ 7 ∷ [], after)
unfolding next_successors encode_all encode decode get_successors read_successors
    read_from_reference read_copied read_blocks read_intervals read_residuals CircularBuffer.index
    CircularBuffer.take CircularBuffer.replace checked_sub slice sort write_unary read_unary zigzag
    unzigzag
copying-next = refl

copying-same :
    (delta : ℕ)
    → 0 < delta
    → delta ≤ 1
    → delta ≤ 1
    → (succs : List ℕ) × (CircularBuffer.index copying.backrefs (1 - delta) ≡ some succs)
      × (get_elem? (3 ∷ []) ((1 - delta) % 1) ≡ some (length succs))
unfolding CircularBuffer.index
copying-same zero h w n = absurd (omega arith)
copying-same (suc zero) h w n = (1 ∷ 2 ∷ 3 ∷ [], refl, refl)
copying-same (suc (suc d)) h w n = absurd (omega arith)

copying-InStep : InStep copying (3 ∷ [])
copying-InStep = record { lists_size = refl; degrees_size = refl; same = copying-same }

copying-degree : read unary consts outdegree copying.decoder ≡ some (4, bits_behind_degree)
unfolding encode_all encode decode write_unary read_unary
copying-degree = refl

copying-reference :
    (s' : List Bool) × (read unary consts reference_offset bits_behind_degree ≡ some (1, s'))
unfolding encode_all encode decode write_unary read_unary
copying-reference = (_, refl)

copying-RefersWithin : RefersWithin unary consts copying
copying-RefersWithin degree ref_delta s s' e f =
    let p = some-injective (4, bits_behind_degree) (degree, s) (sym copying-degree ∙ e) in
    let (s1, g) = copying-reference in
    let q =
      some-injective (1, s1) (ref_delta, s')
        (sym g ∙ ap (λ p. read unary consts reference_offset p.1) p ∙ f) in
    omega (arith, (ap (λ q. q.0) q))

next_degree-next_successors_example :
    (degrees' : List ℕ) × (next_degree unary consts (degree_iter copying (3 ∷ []))
      ≡ some (4, degree_iter after degrees'))
    × InStep after degrees'
next_degree-next_successors_example =
    next_degree-next_successors unary consts copying (3 ∷ []) copying-InStep (1 ∷ 2 ∷ 3 ∷ 7 ∷ [])
      after copying-RefersWithin copying-next
