-- ===== src/BvComp/Graph.antt =====
-- The calls of `push` for a whole graph, next to the steps of the sequential iterator.
use rbsc.Base.{
  ℕ, suc, ◌+◌, ◌≤◌, ◌<◌, ◌≡◌, refl, sym, ap, ◌∙◌, arith, Bool, false, some, List, [], ◌∷◌, ◌++◌,
  append-nil, append_assoc, length, length-append, All, leb,
}
use rbsc.CircularBuffer.Laws.{capacity, put, capacity-put, replace-eq-put, take-eq-put, put-put}
use rbsc.Codec.{CodeLibrary, CodeConsts, i64_min, encode_all}
use rbsc.Sequential.Iter.{Iter, next_successors, next, collect}
use rbsc.Sequential.RestTrip.{IsSuccessors}
use rbsc.BvComp.{BvComp, extend}
use rbsc.BvComp.State.{IsState, IsPushed}
use rbsc.BvComp.Push.{push-Returns}

-- The nodes from `node` on, with their successors.
abbrev pub numbered : ℕ → List (List ℕ) → List (ℕ × List ℕ)
numbered node [] = []
numbered node (l ∷ ls) = (node, l) ∷ numbered (node + 1) ls

-- The sum of the lengths: the number of arcs.
abbrev pub total_length : List (List ℕ) → ℕ
total_length [] = 0
total_length (l ∷ ls) = length l + total_length ls

-- An iterator that has come as far as the compressor, and has `decoder` in front of it.
abbrev pub iter_at : BvComp → ℕ → List Bool → Iter
iter_at b number_of_nodes decoder = record {
  number_of_nodes = number_of_nodes;
  compression_window = b.compression_window;
  min_interval_length = b.min_interval_length;
  decoder = decoder;
  backrefs = b.backrefs;
  current_node = b.curr_node;
}

module _ (lib : CodeLibrary) (cs : CodeConsts) where
  -- One round of the iterator reads what one `push` has written.
  next_successors-push :
      (b : BvComp) (succs : List ℕ) (bits : ℕ) (b' : BvComp) (total : ℕ) (rest : List Bool)
      → IsState b
      → (p : IsPushed lib cs b succs bits b')
      → next_successors lib cs (iter_at b total (encode_all lib cs p.calls ++ rest))
        ≡ some (succs, iter_at b' total rest)
  unfolding next_successors
  next_successors-push b succs bits b' total rest i p =
      let some_slot : 0 < capacity b.backrefs = omega (arith, i.backrefs_size) in
      let (_, taken) = take-eq-put [] b.backrefs b.curr_node some_slot in
      let replaced =
        replace-eq-put (put b.backrefs b.curr_node []) b.curr_node succs
          (omega (arith, capacity-put b.backrefs b.curr_node [], some_slot)) in
      rw (
        taken,
        p.read_back.reads rest,
        replaced,
        put-put b.backrefs b.curr_node [] succs,
        p.window,
        p.min_len,
        p.refs,
        p.node,
      )

  next-push :
      (b : BvComp) (succs : List ℕ) (bits : ℕ) (b' : BvComp) (total : ℕ) (rest : List Bool)
      → IsState b
      → (p : IsPushed lib cs b succs bits b') → b.curr_node < total
      → next lib cs (iter_at b total (encode_all lib cs p.calls ++ rest))
        ≡ some (some (b.curr_node, succs), iter_at b' total rest)
  unfolding next
  next-push b succs bits b' total rest i p h =
      let more : leb total b.curr_node ≡ false = ground arith in
      rw (more, next_successors-push b succs bits b' total rest i p)

  collect-push :
      (b b1 b2 : BvComp) (succs : List ℕ) (bits : ℕ) (lists : List (List ℕ)) (total : ℕ)
      (stream rest : List Bool)
      → IsState b
      → (p : IsPushed lib cs b succs bits b1) → b.curr_node < total
      → collect lib cs (length lists) (iter_at b1 total (stream ++ rest))
        ≡ some (numbered b1.curr_node lists, iter_at b2 total rest)
      → collect lib cs
          (suc (length lists))
          (iter_at b total ((encode_all lib cs p.calls ++ stream) ++ rest))
        ≡ some ((b.curr_node, succs) ∷ numbered (b.curr_node + 1) lists, iter_at b2 total rest)
  unfolding collect
  collect-push b b1 b2 succs bits lists total stream rest i p h later = rw (
    append_assoc (encode_all lib cs p.calls) stream rest,
    next-push b succs bits b1 total (stream ++ rest) i p h,
    later,
    p.node,
  )

  -- The compressor's result on the lists of the nodes from the present one on.
  pub record IsExtended (b : BvComp) (lists : List (List ℕ)) (bits : ℕ) (b' : BvComp) : Type 0 where
    pub stream : List Bool
    pub state : IsState b'
    pub written : b'.encoder ≡ b.encoder ++ stream
    pub counted : bits ≡ length stream
    pub node : b'.curr_node ≡ b.curr_node + length lists
    pub arcs : b'.arcs ≡ b.arcs + total_length lists
    pub read_back :
        (total : ℕ) (rest : List Bool)
        → b.curr_node + length lists ≤ total
        → collect lib cs (length lists) (iter_at b total (stream ++ rest))
          ≡ some (numbered b.curr_node lists, iter_at b' total rest)

  pub extend-IsExtended :
      (b : BvComp) (lists : List (List ℕ))
      → IsState b
      → All IsSuccessors lists
      → b.curr_node + length lists ≤ i64_min
      → (r : ℕ × BvComp) × ((extend lib cs b lists ≡ some r) × IsExtended b lists r.0 r.1)
  unfolding extend collect
  extend-IsExtended b [] i a h = (
    (0, b),
    (
      refl,
      record {
        stream = [];
        state = i;
        written = sym (append-nil b.encoder);
        counted = refl;
        node = omega arith;
        arcs = omega arith;
        read_back = λ total rest k. refl;
      },
    ),
  )
  extend-IsExtended b (succs ∷ lists) i a h =
      let ((bits, b1), (pushed, p, _)) = push-Returns lib cs b succs i (omega arith) a.0 in
      let ((more_bits, b2), (extended, q)) =
        extend-IsExtended b1 lists p.state a.1 (omega (arith, p.node)) in
      (
        (bits + more_bits, b2),
        (
          rw (pushed, extended),
          record {
            stream = encode_all lib cs p.calls ++ q.stream;
            state = q.state;
            written =
                q.written
                ∙ ap (λ l. l ++ q.stream) p.written
                ∙ append_assoc b.encoder (encode_all lib cs p.calls) q.stream;
            counted =
                omega
                  (arith, p.counted, q.counted, length-append (encode_all lib cs p.calls) q.stream);
            node = omega (arith, p.node, q.node);
            arcs = omega (arith, p.arcs, q.arcs);
            read_back = λ total rest k.
                collect-push b b1 b2 succs bits lists total q.stream rest i p (omega arith)
                  (q.read_back total rest (omega (arith, p.node)));
          },
        ),
      )
