-- ===== src/OffsetDegIter/Intervals.antt =====
-- The intervals of a node, counted and decoded.
use rbsc.Base.{
  ℕ, zero, suc, ◌+◌, ◌-◌, ◌≤◌, ◌≡◌, ap, ◌∙◌, arith, Bool, some, List, [], ◌++◌, length,
  length-append, length-range, ◌==◌, ◌||◌, Bool-cases, inl, inr, range, checked_sub, checked_sub-le,
}
use mathlib.Core.Option.{some-injective}
use rbsc.Codec.{CodeLibrary, CodeConsts, interval_count, interval_start, interval_len}
use rbsc.Sequential.{
  Reader, ◌>>=◌, pure, lift, add_i64, read_next_intervals, read_some_intervals, read_intervals,
}
use rbsc.OffsetDegIter.{count_some_intervals, count_intervals}
use rbsc.OffsetDegIter.Agree.{Counts, bind_inv, Counts-pure, Counts-read}

module _ (lib : CodeLibrary) (cs : CodeConsts) where
  -- An interval, and what is read behind it.
  Counts-range :
      (start n : ℕ) (r : Reader (List ℕ)) (c : ℕ → Reader ℕ)
      → Counts 0 r c
      → Counts 0
          (r >>= λ later. pure (range start n ++ later))
          (λ left. lift (checked_sub left n) >>= c)
  Counts-range start n r c h s xs s' e =
      let k : List ℕ → Reader (List ℕ) = λ later. pure (range start n ++ later) in
      let ((later, s1), m, f) = bind_inv r k s (xs, s') e in
      let p = some-injective (range start n ++ later, s1) (xs, s') f in
      let size : n + length later ≡ length xs = omega (
        arith,
        length-append (range start n) later,
        length-range start n,
        (ap (λ q. length q.0) p),
      ) in
      let (le, rest) = h s later s1 m in
      (
        omega arith,
        λ left l.
            let d : left - n + 0 - length later ≡ left + 0 - length xs = omega arith in
            rw (checked_sub-le left n (omega arith), ← d)
              (rest (left - n) (omega arith) ∙ ap (λ q. some (left - n + 0 - length later, q.1)) p),
      )

  Counts-next_intervals :
      (min_len rounds start : ℕ)
      → Counts 0
          (read_next_intervals lib cs min_len rounds start)
          (count_some_intervals lib cs min_len rounds)
  unfolding read_next_intervals count_some_intervals
  Counts-next_intervals min_len zero start = Counts-pure lib cs []
  Counts-next_intervals min_len (suc rounds) start = Counts-read lib cs 0 interval_start _ _ (λ gap.
      Counts-read lib cs 0 interval_len _ _ (λ excess.
        Counts-range (start + (1 + gap)) (excess + min_len) _ _
          (Counts-next_intervals min_len rounds (start + (1 + gap) + (excess + min_len)))))

  Counts-some_intervals :
      (node min_len rounds : ℕ)
      → Counts 0
          (read_some_intervals lib cs node min_len rounds)
          (count_some_intervals lib cs min_len rounds)
  unfolding read_some_intervals count_some_intervals
  Counts-some_intervals node min_len zero = Counts-pure lib cs []
  Counts-some_intervals node min_len (suc rounds) =
      Counts-read lib cs 0 interval_start _ _ (λ offset.
        Counts-read lib cs 0 interval_len _ _ (λ excess.
          Counts-range (add_i64 node (lib.to_int offset)) (excess + min_len) _ _
            (Counts-next_intervals min_len rounds _)))

  -- The sequential decoder and the counter both look at what is left.
  pub count_intervals-eq :
      (node min_len left : ℕ) (s : List Bool) (xs : List ℕ) (s' : List Bool)
      → read_intervals lib cs node min_len left s ≡ some (xs, s')
      → length xs ≤ left
      → count_intervals lib cs min_len left s ≡ some (left - length xs, s')
  unfolding read_intervals count_intervals
  count_intervals-eq node min_len left s xs s' e h =
      let d : left + 0 - length xs ≡ left - length xs = omega arith in
      elim (Bool-cases (left == 0 || min_len == 0)) [
        | inl t ↦
            let (le, rest) = Counts-pure lib cs [] s xs s' (rw t at e) in
            rw (t, ← d) (rest left (omega arith))
        | inr t ↦
            let (le, rest) =
              Counts-read lib cs 0 interval_count _ _ (Counts-some_intervals node min_len) s xs s'
                (rw t at e) in
            rw (t, ← d) (rest left (omega arith))
      ]
