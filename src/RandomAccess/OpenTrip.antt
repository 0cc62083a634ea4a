-- ===== src/RandomAccess/OpenTrip.antt =====
-- `labels` on the bits that were written for a node: what the iterator that it opens yields.
use rbsc.Base.{
  ℕ, suc, ◌-◌, ◌<◌, ◌≡◌, refl, sym, ap, subst, ◌∙◌, arith, Option, none, some, Bool, List, [], ◌∷◌,
  ◌++◌, append_assoc, length, All, Interleave, Interleave-length, checked_sub-add, ◌==◌,
  if◌then◌else◌,
}
use rbsc.Codec.{CodeLibrary, CodeConsts, Symbol, outdegree, reference_offset, u64_mod, encode_all}
use rbsc.Codec.Laws.{encode_all-append, decode-encode_all}
use rbsc.Compressor.{Compressor}
use rbsc.MaskedIterator.{ExactIterator, MaskedIterator}
use rbsc.MaskedIterator.Yields.{Yields, MaskYields}
use rbsc.Sequential.{pure, read}
use rbsc.Sequential.Stream.{Reads, Reads-pure, Reads-append, Reads-lift, Reads-last}
use rbsc.Sequential.ExtraTrip.{IsNode}
use rbsc.Sequential.RestTrip.{
  IsSuccessors, IsSuccessors-extra, IsSuccessors-length, IsWritten, suc-eq-zero,
}
use rbsc.RandomAccess.{Succ, usize_max, new, next_copied, forward_copied, next, len, succ_iterator}
use rbsc.RandomAccess.Parts.{
  Spans, Copies, Residuals, next_copied-Copies, forward_interval-Spans, nodes_of, AllLong,
}
use rbsc.RandomAccess.Merge.{next-Yields}
use rbsc.RandomAccess.Labels.{
  Opened, prefill_interval, open_copied, copied_len, open_from_reference, open_parts, prefill,
  open_labels,
}
use rbsc.RandomAccess.PartsTrip.{
  vector, first_and_rest, first_residual_symbols, later_residual_symbols, residual_symbols-split,
  Reads-open_residuals,
}

module _ {P : Type 0} (s : Succ P) where
  -- From the vector of the intervals, none of which is ready yet.
  prefill_interval-Spans :
      (pairs : List (ℕ × ℕ))
      → AllLong pairs
      → s.intervals ≡ vector pairs
      → s.intervals_idx ≡ 0
      → s.next_interval_node ≡ usize_max
      → (node : ℕ) × (intervals : List (ℕ × ℕ)) × (idx : ℕ) × (prefill_interval (vector pairs) s
          ≡ some
              (record s { intervals = intervals; next_interval_node = node; intervals_idx = idx }))
        × Spans node intervals idx (nodes_of pairs)
  unfolding prefill_interval
  prefill_interval-Spans [] h e f g =
      (s.next_interval_node, s.intervals, s.intervals_idx, refl, omega arith)
  prefill_interval-Spans (p ∷ ps) h e f g =
      forward_interval-Spans s s.next_interval_node (nodes_of (p ∷ ps))
        (refl, [], p ∷ ps, e, f, h, refl)

nodes_below : (xs : List ℕ) → All IsNode xs → All (λ x. x < usize_max - 1) xs
nodes_below [] h = tt
nodes_below (x ∷ xs) h = (omega arith, nodes_below xs h.1)

module _ (lib : CodeLibrary) (cs : CodeConsts) {P : Type 0} (it : ExactIterator P)
    (successors : ℕ → Option P) where
  -- The nodes that the masked iterator yields, if there is one.
  abbrev pub IsCopier : Option (MaskedIterator P) → List ℕ → Type 0
  IsCopier none xs = xs ≡ []
  IsCopier (some m) xs = (m.size ≡ length xs) × MaskYields it m xs

  IsCopier-len :
      (o : Option (MaskedIterator P)) (xs : List ℕ) → IsCopier o xs → copied_len o ≡ length xs
  unfolding copied_len
  IsCopier-len none xs c = ap length (sym c)
  IsCopier-len (some m) xs c = c.0

  IsCopier-Copies :
      (o : Option (MaskedIterator P)) (xs : List ℕ)
      → IsCopier o xs
      → (r : ℕ × Option (MaskedIterator P)) × (next_copied it o ≡ some r) × Copies it r.0 r.1 xs
  unfolding next_copied
  IsCopier-Copies none xs c =
      ((usize_max, none), refl, subst (Copies it usize_max none) (sym c) (omega arith))
  IsCopier-Copies (some m) xs c = next_copied-Copies it 0 (some m) 0 xs (refl, m, refl, c.1)

  Residuals-start :
      (xs : List ℕ) (rest : List Bool)
      → IsSuccessors xs
      → Residuals lib cs
          (first_and_rest xs).0
          (first_and_rest xs).1
          (encode_all lib cs (later_residual_symbols lib cs xs) ++ rest)
          xs
  Residuals-start [] rest s = omega arith
  Residuals-start (x ∷ xs) rest s = (refl, refl, rest, refl, s.ascending.1, s.nodes.1)

  module _ (node min_len : ℕ) (h : IsNode node) (curr copied extra : List ℕ) (c : Compressor)
      (s : IsSuccessors curr) (i : Interleave copied extra curr)
      (w : IsWritten lib cs node min_len c extra) (o : Option (MaskedIterator P))
      (k : IsCopier o copied) where
    abbrev opened : Opened P
    opened = record {
      copied = o;
      intervals = vector w.pairs;
      residuals_to_go = (first_and_rest w.residuals).1;
      first_node = (first_and_rest w.residuals).0;
    }

    Reads-open_from_reference :
        (ref_delta : ℕ) (copy_calls : List Symbol)
        → Reads lib cs (open_copied lib cs it successors node ref_delta) o copy_calls
        → Reads lib cs
            (open_from_reference lib cs it successors min_len node (length curr) ref_delta)
            opened
            (copy_calls ++ (w.interval_calls ++ first_residual_symbols lib cs node w.residuals))
    unfolding open_from_reference
    Reads-open_from_reference ref_delta copy_calls r =
        let residuals = IsSuccessors-extra w.shuffle (IsSuccessors-extra i s) in
        let left_behind_copied =
          checked_sub-add (length curr) (copied_len o) (length extra)
            (omega (arith, IsCopier-len o copied k, Interleave-length i)) in
        Reads-append lib cs _ o _ opened copy_calls _ r (
          Reads-lift lib cs _ (length extra) _ _ _ left_behind_copied (
            Reads-append lib cs _ (vector w.pairs, length w.residuals) _ opened w.interval_calls _
              w.opens
              (Reads-last lib cs _ (first_and_rest w.residuals) _ opened _
                (Reads-open_residuals lib cs node w.residuals h residuals.nodes)
                (Reads-pure lib cs opened))))

    prefill-Yields :
        (rest : List Bool)
        → (t : Succ P) × (prefill it
              (length curr)
              opened
              (encode_all lib cs (later_residual_symbols lib cs w.residuals) ++ rest)
            ≡ some t)
          × Yields (succ_iterator lib cs it) t curr
    unfolding prefill forward_copied new
    prefill-Yields rest =
        let start =
          record (new (encode_all lib cs (later_residual_symbols lib cs w.residuals) ++ rest)) {
            size = length curr;
            copied_nodes_iter = o;
            intervals = vector w.pairs;
            residuals_to_go = (first_and_rest w.residuals).1;
            next_residual_node = (first_and_rest w.residuals).0;
          } in
        let (node, intervals, idx, e, spans) =
          prefill_interval-Spans start w.pairs w.long refl refl refl in
        let ((copied_node, o'), f, copies) = IsCopier-Copies o copied k in
        let copy : Option (Succ P) → Option (Succ P) =
          λ x. elim x [ none ↦ none | some s' ↦ forward_copied it s' ] in
        let t : Succ P = record start {
          intervals = intervals;
          next_interval_node = node;
          intervals_idx = idx;
          next_copied_node = copied_node;
          copied_nodes_iter = o';
        } in
        (
          t,
          ap copy e ∙ rw f refl,
          next-Yields lib cs it 0 t i w.shuffle
              (record {
                copies = copies;
                spans = subst (Spans node intervals idx) w.spanned spans;
                rests =
                    Residuals-start w.residuals rest
                      (IsSuccessors-extra w.shuffle (IsSuccessors-extra i s));
              })
              refl s.ascending (nodes_below curr s.nodes),
        )

    module _ (window ref_delta : ℕ) (delta_calls copy_calls : List Symbol)
        (rd : Reads lib cs
          (if window == 0 then pure 0 else read lib cs reference_offset)
          ref_delta
          delta_calls)
        (rc : Reads lib cs (open_copied lib cs it successors node ref_delta) o copy_calls) where
      -- What is read when the iterator is opened, and what is left to read.
      abbrev calls : List Symbol
      calls =
          delta_calls
          ++ (copy_calls ++ (w.interval_calls ++ first_residual_symbols lib cs node w.residuals))

      abbrev later : List Symbol
      later = later_residual_symbols lib cs w.residuals

      Reads-open_parts :
          Reads lib cs
            (open_parts lib cs it successors window min_len node (length curr))
            opened
            calls
      unfolding open_parts
      Reads-open_parts =
          Reads-append lib cs _ ref_delta _ opened delta_calls _ rd
            (Reads-open_from_reference ref_delta copy_calls rc)

      open_parts_lem :
          (rest : List Bool)
          → open_parts lib cs it successors window min_len node
              (length curr)
              (encode_all lib cs (calls ++ later) ++ rest)
            ≡ some (opened, encode_all lib cs later ++ rest)
      open_parts_lem rest =
          rw
            (
              encode_all-append lib cs calls later,
              append_assoc (encode_all lib cs calls) (encode_all lib cs later) rest,
            )
            (Reads-open_parts.reads (encode_all lib cs later ++ rest))

      -- `labels` on the calls for a node with successors.
      pub open_labels-Yields :
          (degree : ℕ) (rest : List Bool)
          → length curr ≡ suc degree
          → (t : Succ P) × (open_labels lib cs it successors window min_len node (
                encode_all lib cs (
                  (outdegree, suc degree)
                  ∷ (delta_calls ++ (copy_calls ++ (w.interval_calls ++ w.residual_calls))))
                ++ rest)
              ≡ some t)
            × Yields (succ_iterator lib cs it) t curr
      unfolding open_labels
      open_labels-Yields degree rest e =
          let bound : suc degree < u64_mod - 1 = omega (arith, IsSuccessors-length curr s) in
          let split : delta_calls ++ (copy_calls ++ (w.interval_calls ++ w.residual_calls))
              ≡ calls ++ later =
            simp (
              w.residual_calls_are,
              residual_symbols-split lib cs node w.residuals,
              append_assoc,
            ) in
          let (t, f, yields) = prefill-Yields rest in
          let finish : Option (Opened P × List Bool) → Option (Succ P) =
            λ x. elim x [ none ↦ none | some (o', reader) ↦ prefill it (suc degree) o' reader ] in
          let parts : open_parts lib cs it successors window min_len node (suc degree)
                (encode_all lib cs (calls ++ later) ++ rest)
              ≡ some (opened, encode_all lib cs later ++ rest) =
            rw (← e) (open_parts_lem rest) in
          let filled : prefill it (suc degree) opened (encode_all lib cs later ++ rest) ≡ some t =
            rw (← e) f in
          (
            t,
            rw
                (
                  split,
                  open_labels,
                  decode-encode_all lib cs outdegree (suc degree) (calls ++ later) rest bound,
                  suc-eq-zero degree,
                )
                (ap finish parts ∙ filled),
            yields,
          )

  -- `labels` on the call for a node without successors.
  pub open_labels-empty :
      (window min_len node : ℕ) (rest : List Bool)
      → (t : Succ P) × (open_labels lib cs it successors window min_len node
            (encode_all lib cs ((outdegree, 0) ∷ []) ++ rest)
          ≡ some t)
        × Yields (succ_iterator lib cs it) t []
  unfolding open_labels new next len encode_all
  open_labels-empty window min_len node rest =
      let bits = encode_all lib cs [] ++ rest in
      (
        new bits,
        rw (open_labels, decode-encode_all lib cs outdegree 0 [] rest (omega arith)),
        (refl, refl),
      )
