-- ===== src/OffsetDegIter/Steps.antt =====
-- A step of the iterator over the degrees next to one of the sequential iterator.
use native.Mathlib.Nat.{mod-lt}
use rbsc.Base.{
  ℕ, zero, suc, ◌+◌, ◌-◌, ◌%◌, ◌≤◌, ◌<◌, ◌≡◌, refl, sym, ap, subst, ◌∙◌, arith, Bool, none, some,
  Option-cases, List, [], length, length-set, get_elem?, get_elem?-lt, get_elem?-set_self,
  get_elem?-set_ne, set, ◌==◌, Bool-cases, inl, inr,
}
use mathlib.Core.Option.{some-injective}
use rbsc.CircularBuffer
use rbsc.CircularBuffer.{CircularBuffer}
use rbsc.CircularBuffer.Laws.{
  capacity, put, capacity-put, replace-eq-put, take-eq-put, index-put_self, index-put_ne, put-put,
  slot-ne, mod-ne,
}
use rbsc.Codec.{CodeLibrary, CodeConsts}
use rbsc.Sequential.{get_successors}
use rbsc.Sequential.Iter.{Iter, next_successors}
use rbsc.OffsetDegIter.{keep_degree, next_degree}
use rbsc.OffsetDegIter.Degree.{degree_iter, InStep, RefersWithin, read_degree-eq}

module _ (lib : CodeLibrary) (cs : CodeConsts) (it : Iter) (degrees : List ℕ)
    (i : InStep it degrees) where
  stepped : List ℕ → List Bool → Iter
  stepped succs bits = record it {
    decoder = bits;
    backrefs = put it.backrefs it.current_node succs;
    current_node = it.current_node + 1;
  }

  next_successors_inv :
      (succs : List ℕ) (it' : Iter)
      → next_successors lib cs it ≡ some (succs, it')
      → (bits : List Bool) × (get_successors lib cs it.compression_window it.min_interval_length
            it.current_node
            (put it.backrefs it.current_node [])
            it.decoder
          ≡ some (succs, bits))
        × (stepped succs bits ≡ it')
  unfolding next_successors stepped
  next_successors_inv succs it' e =
      let node = it.current_node in
      let slots : 0 < capacity it.backrefs = omega (arith, i.lists_size) in
      let (a, taken) = take-eq-put [] it.backrefs node slots in
      let cleared = put it.backrefs node [] in
      elim (Option-cases (
        get_successors lib cs it.compression_window it.min_interval_length node cleared
          it.decoder)) [
            | inl o ↦ let f : none ≡ some (succs, it') = rw (taken, o) at e in cc
            | inr (r, o) ↦
                let again =
                  replace-eq-put cleared node r.0
                    (omega (arith, capacity-put it.backrefs node [], i.lists_size)) in
                let p = some-injective _ _ (rw (taken, o, again) at e) in
                let same : r.0 ≡ succs = ap (λ q. q.0) p in
                (
                  r.1,
                  o ∙ ap (λ l. some (l, r.1)) same,
                  ap (λ l. stepped l r.1) (sym same)
                      ∙ ap (λ b. record it { decoder = r.1; backrefs = b; current_node = node + 1 })
                          (sym (put-put it.backrefs node [] r.0))
                      ∙ ap (λ q. q.1) p,
                )
          ]

  kept_degrees : ℕ → List ℕ
  kept_degrees degree = set degrees (it.current_node % it.compression_window) degree

  kept_same :
      (succs : List ℕ) (delta : ℕ)
      → 0 < delta
      → delta ≤ it.compression_window
      → delta ≤ it.current_node + 1
      → (l : List ℕ) × (CircularBuffer.index
            (put it.backrefs it.current_node succs)
            (it.current_node + 1 - delta)
          ≡ some l)
        × (get_elem?
              (kept_degrees (length succs))
              ((it.current_node + 1 - delta) % it.compression_window)
            ≡ some (length l))
  unfolding kept_degrees
  kept_same succs zero h w n = absurd (omega arith)
  kept_same succs (suc zero) h w n =
      let node = it.current_node in
      let here : node + 1 - 1 ≡ node = omega arith in
      let size = i.degrees_size in
      let slot_lt : node % it.compression_window < length degrees =
        omega (arith, mod-lt node h, mod-lt node w) in
      (
        succs,
        rw here (index-put_self it.backrefs node succs (omega (arith, i.lists_size))),
        rw here (get_elem?-set_self degrees (node % it.compression_window) (length succs) slot_lt),
      )
  kept_same succs (suc (suc d)) h w n =
      let node = it.current_node in
      let before : node + 1 - suc (suc d) ≡ node - suc d = omega arith in
      let (l, o, e) = i.same (suc d) (omega arith) (omega arith) (omega arith) in
      let other =
        slot-ne it.backrefs node (suc d) (omega arith) (omega (arith, i.lists_size))
          (omega arith) in
      let apart =
        mod-ne node (suc d) it.compression_window (omega arith) (omega arith) (omega arith) in
      (
        l,
        ap (CircularBuffer.index (put it.backrefs node succs)) before
            ∙ index-put_ne it.backrefs node (node - suc d) succs other
            ∙ o,
        ap (λ (k : ℕ). get_elem? (kept_degrees (length succs)) (k % it.compression_window)) before
            ∙ get_elem?-set_ne degrees (node % it.compression_window)
                ((node - suc d) % it.compression_window) (length succs) apart
            ∙ e,
      )

  InStep-stepped :
      (succs : List ℕ) (bits : List Bool)
      → (degrees' : List ℕ) × (keep_degree it.compression_window it.current_node
            (length succs)
            degrees
          ≡ some degrees')
        × InStep (stepped succs bits) degrees'
  unfolding keep_degree stepped kept_degrees
  InStep-stepped succs bits = elim (Bool-cases (it.compression_window == 0)) [
    | inl z ↦
        let empty : it.compression_window ≡ 0 = ground arith in
        (
          degrees,
          rw z refl,
          record {
            lists_size = capacity-put it.backrefs it.current_node succs ∙ i.lists_size;
            degrees_size = i.degrees_size;
            same = λ delta h w n. absurd (omega arith);
          },
        )
    | inr z ↦
        let positive : 0 < it.compression_window = ground arith in
        let slot = it.current_node % it.compression_window in
        let (old, found) =
          get_elem?-lt degrees slot
            (omega (arith, i.degrees_size, mod-lt it.current_node positive)) in
        (
          kept_degrees (length succs),
          rw (z, found) refl,
          record {
            lists_size = capacity-put it.backrefs it.current_node succs ∙ i.lists_size;
            degrees_size = length-set degrees slot (length succs) ∙ i.degrees_size;
            same = kept_same succs;
          },
        )
  ]

  -- While the two iterators are in step, and the next node refers to no node outside the window: if the
  -- sequential iterator decodes the node, `next_degree` does not panic, returns the number of its
  -- successors, has read the same bits, and the two are in step again.
  pub next_degree-next_successors :
      (succs : List ℕ) (it' : Iter)
      → RefersWithin lib cs it
      → next_successors lib cs it ≡ some (succs, it')
      → (degrees' : List ℕ) × (next_degree lib cs (degree_iter it degrees)
          ≡ some (length succs, degree_iter it' degrees'))
        × InStep it' degrees'
  unfolding next_degree stepped
  next_degree-next_successors succs it' w e =
      let (bits, decoded, after) = next_successors_inv succs it' e in
      let (degrees', kept, in_step) = InStep-stepped succs bits in
      let result : (next_degree lib cs (degree_iter it degrees)
            ≡ some (length succs, degree_iter (stepped succs bits) degrees'))
          × InStep (stepped succs bits) degrees' =
        (rw (read_degree-eq lib cs it degrees i succs bits w decoded, kept) refl, in_step) in
      let r =
        subst
          (λ (t : Iter).
            (next_degree lib cs (degree_iter it degrees)
              ≡ some (length succs, degree_iter t degrees'))
            × InStep t degrees')
          after result in
      (degrees', r.0, r.1)
