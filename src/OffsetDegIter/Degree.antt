-- ===== src/OffsetDegIter/Degree.antt =====
-- `read_degree` next to the sequential decoder of a node, when the kept degrees are those of the lists.
use rbsc.Base.{
  ℕ, ◌+◌, ◌-◌, ◌%◌, ◌≤◌, ◌<◌, ◌≡◌, refl, sym, ap, ◌∙◌, arith, Bool, some, List, [], length,
  get_elem?, ◌==◌, if◌then◌else◌, Bool-cases, inl, inr,
}
use mathlib.Core.Option.{some-injective}
use rbsc.CircularBuffer
use rbsc.CircularBuffer.{CircularBuffer}
use rbsc.CircularBuffer.Laws.{capacity, put, index-put_ne, slot-ne}
use rbsc.Codec.{CodeLibrary, CodeConsts, outdegree, reference_offset}
use rbsc.Sequential.{◌>>=◌, pure, read, read_successors, get_successors}
use rbsc.Sequential.Iter.{Iter}
use rbsc.OffsetDegIter.{OffsetDegIter, read_degree}
use rbsc.OffsetDegIter.Agree.{bind_inv}
use rbsc.OffsetDegIter.Node.{checked_sub_inv, Known, skip_lists-eq}

-- An iterator over the degrees where the sequential one is, with the degrees that it has kept.
abbrev pub degree_iter : Iter → List ℕ → OffsetDegIter
degree_iter it degrees = record {
  number_of_nodes = it.number_of_nodes;
  compression_window = it.compression_window;
  min_interval_length = it.min_interval_length;
  node_id = it.current_node;
  decoder = it.decoder;
  backrefs = degrees;
}

-- The buffers have their sizes, and the degrees of the nodes in the window are those of the lists.
pub record InStep (it : Iter) (degrees : List ℕ) : Type 0 where
  pub lists_size : capacity it.backrefs ≡ it.compression_window + 1
  pub degrees_size : length degrees ≡ it.compression_window
  pub same :
      (delta : ℕ)
      → 0 < delta
      → delta ≤ it.compression_window
      → delta ≤ it.current_node
      → (succs : List ℕ) × (CircularBuffer.index it.backrefs (it.current_node - delta) ≡ some succs)
        × (get_elem? degrees ((it.current_node - delta) % it.compression_window)
            ≡ some (length succs))

module _ (lib : CodeLibrary) (cs : CodeConsts) where
  -- The next node refers to no node outside the window.
  abbrev pub RefersWithin : Iter → Type 0
  RefersWithin it =
      (degree ref_delta : ℕ) (s s' : List Bool)
      → read lib cs outdegree it.decoder ≡ some (degree, s)
      → read lib cs reference_offset s ≡ some (ref_delta, s')
      → ref_delta ≤ it.compression_window

  refers_within :
      (it : Iter) (degree ref_delta : ℕ) (s s' : List Bool)
      → RefersWithin it
      → read lib cs outdegree it.decoder ≡ some (degree, s)
      → (if it.compression_window == 0 then pure 0 else read lib cs reference_offset) s
        ≡ some (ref_delta, s')
      → ref_delta ≤ it.compression_window
  refers_within it degree ref_delta s s' w m e = elim (Bool-cases (it.compression_window == 0)) [
    | inl z ↦
        let p = some-injective (0, s) (ref_delta, s') (rw z at e) in
        omega (arith, (ap (λ q. q.0) p))
    | inr z ↦ w degree ref_delta s s' m (rw z at e)
  ]

  module _ (it : Iter) (degrees : List ℕ) (i : InStep it degrees) where
    known :
        (ref_delta : ℕ)
        → ref_delta ≤ it.compression_window
        → Known it.compression_window it.current_node
            (put it.backrefs it.current_node [])
            degrees
            ref_delta
    known ref_delta w reference neighbours h e f =
        let node = it.current_node in
        let (le, eq) = checked_sub_inv node ref_delta reference e in
        let (succs, o, d) = i.same ref_delta h w le in
        let other = slot-ne it.backrefs node ref_delta h (omega (arith, i.lists_size)) le in
        let found : some neighbours ≡ some succs =
          sym f
          ∙ ap (CircularBuffer.index (put it.backrefs node [])) eq
          ∙ index-put_ne it.backrefs node (node - ref_delta) [] other
          ∙ o in
        ap (λ (k : ℕ). get_elem? degrees (k % it.compression_window)) eq
        ∙ d
        ∙ ap (λ l. some (length l)) (sym (some-injective neighbours succs found))

    pub read_degree-eq :
        (succs : List ℕ) (bits : List Bool)
        → RefersWithin it
        → get_successors lib cs it.compression_window it.min_interval_length it.current_node
            (put it.backrefs it.current_node [])
            it.decoder
          ≡ some (succs, bits)
        → read_degree lib cs (degree_iter it degrees) it.decoder ≡ some (length succs, bits)
    unfolding get_successors read_successors read_degree
    read_degree-eq succs bits w e =
        let refs = put it.backrefs it.current_node [] in
        let ((degree, s1), m, f) = bind_inv (read lib cs outdegree) _ it.decoder (succs, bits) e in
        elim (Bool-cases (degree == 0)) [
          | inl t ↦
              let p = some-injective ([], s1) (succs, bits) (rw t at f) in
              let nothing : degree ≡ 0 = ground arith in
              let size : degree ≡ length succs = omega (arith, (ap (λ q. length q.0) p)) in
              rw (◌>>=◌, m, t, size) (ap (λ q. some (length succs, q.1)) p)
          | inr t ↦
              let ((ref_delta, s2), m', f') =
                bind_inv
                  (if it.compression_window == 0 then pure 0 else read lib cs reference_offset) _ s1
                  (succs, bits) (rw t at f) in
              let within : ref_delta ≤ it.compression_window =
                refers_within it degree ref_delta s1 s2 w m m' in
              let (r, size) =
                skip_lists-eq lib cs (degree_iter it degrees) refs degree ref_delta s2 succs bits
                  (known ref_delta within) f' in
              rw (◌>>=◌, m, t, m', r, size) refl
        ]
