-- ===== src/OffsetDegIter/Node.antt =====
-- What the iterator over degrees reads of a node, next to what the sequential decoder reads of it.
use rbsc.Base.{
  ℕ, zero, suc, ◌+◌, ◌-◌, ◌%◌, ◌≤◌, ◌<◌, ◌≡◌, sym, ap, ◌∙◌, arith, Bool, none, some, List, [], ◌∷◌,
  ◌++◌, length, length-append, get_elem?, leb, leb→le, ◌==◌, Bool-cases, inl, inr, checked_sub,
  sort, length-sort,
}
use mathlib.Core.Option.{some-injective}
use rbsc.CircularBuffer
use rbsc.CircularBuffer.{CircularBuffer}
use rbsc.Codec.{CodeLibrary, CodeConsts, block_count, residual, first_residual}
use rbsc.Sequential.{
  ◌>>=◌, lift, read, add_i64, read_copied, read_blocks, read_intervals, read_next_residuals,
  read_residuals, read_from_reference,
}
use rbsc.OffsetDegIter.{
  OffsetDegIter, reference_degree, count_blocks, count_copied, skip_next_residuals, skip_residuals,
  skip_lists,
}
use rbsc.OffsetDegIter.Agree.{Counts, bind_inv, lift_inv, Counts-pure, Counts-read, Counts-blocks}
use rbsc.OffsetDegIter.Intervals.{count_intervals-eq}

pub checked_sub_inv : (a b c : ℕ) → checked_sub a b ≡ some c → (b ≤ a) × (c ≡ a - b)
unfolding checked_sub
checked_sub_inv a b c e = elim (Bool-cases (leb b a)) [
  | inl h ↦
      let f : some (a - b) ≡ some c = rw h at e in (leb→le b a h, sym (some-injective (a - b) c f))
  | inr h ↦ let f : none ≡ some c = rw h at e in cc
]

-- The degrees that are kept agree with the lists that are kept, where `ref_delta` points to.
abbrev pub Known : ℕ → ℕ → CircularBuffer (List ℕ) → List ℕ → ℕ → Type 0
Known window node backrefs degrees ref_delta =
    (reference : ℕ) (neighbours : List ℕ)
    → 0 < ref_delta
    → checked_sub node ref_delta ≡ some reference
    → CircularBuffer.index backrefs reference ≡ some neighbours
    → get_elem? degrees (reference % window) ≡ some (length neighbours)

module _ (lib : CodeLibrary) (cs : CodeConsts) where
  Counts-copied :
      (window node : ℕ) (backrefs : CircularBuffer (List ℕ)) (degrees : List ℕ) (ref_delta : ℕ)
      → Known window node backrefs degrees ref_delta
      → Counts 0
          (read_copied lib cs node backrefs ref_delta)
          (count_copied lib cs window node degrees ref_delta)
  unfolding read_copied count_copied reference_degree
  Counts-copied window node backrefs degrees ref_delta h s xs s' e =
      elim (Bool-cases (ref_delta == 0)) [
        | inl t ↦ rw t (Counts-pure lib cs [] s xs s' (rw t at e))
        | inr t ↦
            let ((reference, s1), m, f) =
              bind_inv (lift (checked_sub node ref_delta)) _ s (xs, s') (rw t at e) in
            let (o, same) = lift_inv (checked_sub node ref_delta) s reference s1 m in
            let ((ns, s2), m', f') =
              bind_inv (lift (CircularBuffer.index backrefs reference)) _ s1 (xs, s') f in
            let (o', same') = lift_inv (CircularBuffer.index backrefs reference) s1 ns s2 m' in
            rw (t, o, h reference ns (ground arith) o o')
              (Counts-read lib cs 0 block_count (read_blocks lib cs ns)
                (count_blocks lib cs (length ns)) (Counts-blocks lib cs ns) s xs s'
                (rw (same, same') f'))
      ]

  skip_next_residuals-eq :
      (rounds extra : ℕ) (s : List Bool) (xs : List ℕ) (s' : List Bool)
      → read_next_residuals lib cs rounds extra s ≡ some (xs, s')
      → (skip_next_residuals lib cs rounds s ≡ some (tt, s')) × (length xs ≡ rounds)
  unfolding read_next_residuals skip_next_residuals
  skip_next_residuals-eq zero extra s xs s' e =
      let p = some-injective ([], s) (xs, s') e in
      (ap (λ q. some (tt, q.1)) p, sym (ap (λ q. length q.0) p))
  skip_next_residuals-eq (suc rounds) extra s xs s' e =
      let ((gap, s1), m, f) = bind_inv (read lib cs residual) _ s (xs, s') e in
      let node = extra + (1 + gap) in
      let ((later, s2), m', f') =
        bind_inv (read_next_residuals lib cs rounds node) _ s1 (xs, s') f in
      let p = some-injective (node ∷ later, s2) (xs, s') f' in
      let (r, len) = skip_next_residuals-eq rounds node s1 later s2 m' in
      (rw (◌>>=◌, m) (r ∙ ap (λ q. some (tt, q.1)) p), sym (ap (λ q. length q.0) p) ∙ ap suc len)

  skip_residuals-eq :
      (node rounds : ℕ) (s : List Bool) (xs : List ℕ) (s' : List Bool)
      → read_residuals lib cs node rounds s ≡ some (xs, s')
      → (skip_residuals lib cs rounds s ≡ some (tt, s')) × (length xs ≡ rounds)
  unfolding read_residuals skip_residuals
  skip_residuals-eq node zero s xs s' e =
      let p = some-injective ([], s) (xs, s') e in
      (ap (λ q. some (tt, q.1)) p, sym (ap (λ q. length q.0) p))
  skip_residuals-eq node (suc rounds) s xs s' e =
      let ((offset, s1), m, f) = bind_inv (read lib cs first_residual) _ s (xs, s') e in
      let extra = add_i64 node (lib.to_int offset) in
      let ((later, s2), m', f') =
        bind_inv (read_next_residuals lib cs rounds extra) _ s1 (xs, s') f in
      let p = some-injective (extra ∷ later, s2) (xs, s') f' in
      let (r, len) = skip_next_residuals-eq rounds extra s1 later s2 m' in
      (rw (◌>>=◌, m) (r ∙ ap (λ q. some (tt, q.1)) p), sym (ap (λ q. length q.0) p) ∙ ap suc len)

  pub skip_lists-eq :
      (it : OffsetDegIter) (backrefs : CircularBuffer (List ℕ)) (degree ref_delta : ℕ)
      (s : List Bool) (xs : List ℕ) (s' : List Bool)
      → Known it.compression_window it.node_id backrefs it.backrefs ref_delta
      → read_from_reference lib cs it.min_interval_length it.node_id backrefs degree ref_delta s
        ≡ some (xs, s')
      → (skip_lists lib cs it degree ref_delta s ≡ some (tt, s')) × (length xs ≡ degree)
  unfolding read_from_reference skip_lists
  skip_lists-eq it backrefs degree ref_delta s xs s' h e =
      let node = it.node_id in
      let ((copied, s1), m1, f1) =
        bind_inv (read_copied lib cs node backrefs ref_delta) _ s (xs, s') e in
      let ((left, s2), m2, f2) =
        bind_inv (lift (checked_sub degree (length copied))) _ s1 (xs, s') f1 in
      let (o2, t2) = lift_inv (checked_sub degree (length copied)) s1 left s2 m2 in
      let (le2, eq2) = checked_sub_inv degree (length copied) left o2 in
      let ((ints, s3), m3, f3) =
        bind_inv (read_intervals lib cs node it.min_interval_length left) _ s2 (xs, s') f2 in
      let ((left', s4), m4, f4) =
        bind_inv (lift (checked_sub degree (length (copied ++ ints)))) _ s3 (xs, s') f3 in
      let (o4, t4) = lift_inv (checked_sub degree (length (copied ++ ints))) s3 left' s4 m4 in
      let (le4, eq4) = checked_sub_inv degree (length (copied ++ ints)) left' o4 in
      let ((residuals, s5), m5, f5) =
        bind_inv (read_residuals lib cs node left') _ s4 (xs, s') f4 in
      let p = some-injective (sort (copied ++ (ints ++ residuals)), s5) (xs, s') f5 in
      let (r5, len5) = skip_residuals-eq node left' s4 residuals s5 m5 in
      let (known, count) =
        Counts-copied it.compression_window node backrefs it.backrefs ref_delta h s copied s1 m1 in
      let all = length-append copied ints in
      let d1 : degree + 0 - length copied ≡ left = omega arith in
      let d2 : left - length ints ≡ left' = omega arith in
      let c1 = count degree (omega arith) in
      let c2 =
        count_intervals-eq lib cs node it.min_interval_length left s2 ints s3 m3 (omega arith) in
      (
        rw (◌>>=◌, c1, d1, t2, c2, d2, t4) (r5 ∙ ap (λ q. some (tt, q.1)) p),
        omega (
          arith,
          (ap (λ q. length q.0) p),
          length-sort (copied ++ (ints ++ residuals)),
          length-append copied (ints ++ residuals),
          length-append ints residuals,
        ),
      )
