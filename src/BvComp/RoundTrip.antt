-- ===== src/BvComp/RoundTrip.antt =====
-- What a user of the compressor and of the sequential iterator relies on.
use rbsc.Base.{
  ℕ, ◌+◌, ◌≤◌, ◌<◌, ◌≡◌, refl, arith, Bool, true, none, some, List, [], ◌++◌, length, All, leb,
}
use rbsc.Codec.{CodeLibrary, CodeConsts, i64_min}
use rbsc.CircularBuffer.Laws.{put}
use rbsc.Sequential.Iter
use rbsc.Sequential.Iter.{Iter, next, collect}
use rbsc.Sequential.ExtraTrip.{IsNode}
use rbsc.Sequential.RestTrip.{IsSuccessors}
use rbsc.BvComp.{BvComp, new, push, extend}
use rbsc.BvComp.State.{IsState, IsFewest, IsChosen, new-IsState}
use rbsc.BvComp.Push.{push-Returns}
use rbsc.BvComp.Graph.{numbered, total_length, iter_at, extend-IsExtended}

-- The iterator over the compressed stream `decoder` yields the nodes from 0 on with the lists, then
-- ends, and leaves the rest of the stream.
pub record Yields (lib : CodeLibrary) (cs : CodeConsts) (window min_len : ℕ)
    (decoder rest : List Bool) (lists : List (List ℕ)) : Type 0 where
  pub last : Iter
  pub items :
      collect lib cs (length lists) (Iter.new decoder (length lists) window min_len)
      ≡ some (numbered 0 lists, last)
  pub ends : next lib cs last ≡ some (none, last)
  pub leaves : last.decoder ≡ rest

module _ (lib : CodeLibrary) (cs : CodeConsts) (window max_ref_count min_len : ℕ)
    (lists : List (List ℕ)) (successors : All IsSuccessors lists)
    (nodes : length lists ≤ i64_min) where
  -- On any number of strictly increasing successor lists of nodes below 2^63, and whatever the window,
  -- the maximum reference count and the minimum interval length are, `BvComp::new` and `extend` do not
  -- panic, return the number of bits written and count the arcs, and from the stream, whatever follows
  -- it, the sequential iterator yields the same lists in order, ends, and has read no more.
  pub collect-extend :
      (r : ℕ × BvComp) × ((extend lib cs (new [] window max_ref_count min_len 0) lists ≡ some r)
        × (r.0 ≡ length r.1.encoder)
        × (r.1.arcs ≡ total_length lists)
        × ((rest : List Bool) → Yields lib cs window min_len (r.1.encoder ++ rest) rest lists))
  unfolding new Iter.new next
  collect-extend =
      let b = new [] window max_ref_count min_len 0 in
      let (r, (extended, q)) =
        extend-IsExtended lib cs b lists (new-IsState [] window max_ref_count min_len 0) successors
          (omega arith) in
      (
        r,
        (
          extended,
          rw q.written q.counted,
          omega (arith, q.arcs),
          λ rest.
              let at_end : leb (length lists) r.1.curr_node ≡ true = ground (arith, q.node) in
              record {
                last = iter_at r.1 (length lists) rest;
                items = rw q.written (q.read_back (length lists) rest (omega arith));
                ends = rw at_end;
                leaves = refl;
              },
        ),
      )

-- From a state of the compressor with a window, `push` of a strictly increasing list of nodes below
-- 2^63 does not panic. It stores the list in the node's slot and keeps the other slots, adds its length
-- to the arcs, and goes on to the next node. It returns the number of bits that it appends to the
-- encoder's stream: the description without a reference, for which the node's reference count becomes 0,
-- or the one by an earlier node in the window, for which it becomes 1 more than that node's. These bits
-- are no more than those of the description without a reference, and of the one by any earlier node in
-- the window that has successors and a reference count below the maximum. The buffers keep their sizes,
-- hold strictly increasing lists, and no reference count is above the maximum.
pub push-IsFewest :
    (lib : CodeLibrary) (cs : CodeConsts) (b : BvComp) (succs : List ℕ)
    → IsState b
    → IsNode b.curr_node
    → IsSuccessors succs
    → 0 < b.compression_window
    → (r : ℕ × BvComp) × ((push lib cs b succs ≡ some r)
        × IsState r.1
        × IsFewest lib cs b succs r.0
        × IsChosen lib cs b succs r.0 r.1
        × (r.1.backrefs ≡ put b.backrefs b.curr_node succs)
        × (r.1.curr_node ≡ b.curr_node + 1)
        × (r.1.arcs ≡ b.arcs + length succs))
push-IsFewest lib cs b succs i n s w =
    let (r, (pushed, p, fewest)) = push-Returns lib cs b succs i n s in
    (r, (pushed, p.state, (fewest w).0, (fewest w).1, p.refs, p.node, p.arcs))
