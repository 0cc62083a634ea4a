-- ===== src/Sequential/ExtraTrip.antt =====
-- The intervals and the residuals, written and read.
use rbsc.Base.{
  ℕ, zero, suc, ◌+◌, ◌-◌, ◌≤◌, ◌<◌, ◌≡◌, refl, arith, some, List, [], ◌∷◌, ◌++◌, length, range, All,
  Ascending, checked_sub-le,
}
use rbsc.Codec.{
  CodeLibrary, CodeConsts, Symbol, interval_start, interval_len, first_residual, residual, u64_mod,
  i64_min,
}
use rbsc.Compressor.Runs.{expand, Gapped}
use rbsc.Compressor.Write.{
  sub_i64, write_next_intervals, write_intervals, write_next_residuals, write_residuals,
}
use rbsc.Sequential.{
  add_i64, read_next_intervals, read_some_intervals, read_next_residuals, read_residuals,
}
use rbsc.Sequential.Stream.{Reads, Reads-pure, Reads-symbol, Reads-map}

-- Nodes are below 2^63, the bound of an index into a vector.
abbrev pub IsNode : ℕ → Type 0
IsNode x = x < i64_min

abbrev pub next_interval_symbols : ℕ → ℕ → List ℕ → List ℕ → List Symbol
next_interval_symbols min_len prev [] ns = []
next_interval_symbols min_len prev (l ∷ ls) [] = []
next_interval_symbols min_len prev (l ∷ ls) (n ∷ ns) =
    (interval_start, l - prev - 1)
    ∷ (interval_len, n - min_len)
    ∷ next_interval_symbols min_len (l + n) ls ns

abbrev pub next_residual_symbols : ℕ → List ℕ → List Symbol
next_residual_symbols prev [] = []
next_residual_symbols prev (x ∷ xs) = (residual, x - prev - 1) ∷ next_residual_symbols x xs

write_next_intervals-Gapped :
    (min_len prev : ℕ) (ls ns : List ℕ)
    → Gapped min_len (suc prev) ls ns
    → write_next_intervals min_len prev ls ns ≡ some (next_interval_symbols min_len prev ls ns)
unfolding write_next_intervals
write_next_intervals-Gapped min_len prev [] ns g = refl
write_next_intervals-Gapped min_len prev (l ∷ ls) [] g = absurd g
write_next_intervals-Gapped min_len prev (l ∷ ls) (n ∷ ns) g = rw (
  checked_sub-le l prev (omega arith),
  checked_sub-le (l - prev) 1 (omega arith),
  checked_sub-le n min_len g.1,
  write_next_intervals-Gapped min_len (l + n) ls ns g.2,
)

write_next_residuals-Ascending :
    (prev : ℕ) (xs : List ℕ)
    → Ascending (suc prev) xs
    → write_next_residuals prev xs ≡ some (next_residual_symbols prev xs)
unfolding write_next_residuals
write_next_residuals-Ascending prev [] a = refl
write_next_residuals-Ascending prev (x ∷ xs) a = rw (
  checked_sub-le x prev (omega arith),
  checked_sub-le (x - prev) 1 (omega arith),
  write_next_residuals-Ascending x xs a.1,
)

-- Bounds of the first interval, and those of the others.
pub All-range :
    (l n : ℕ) (rest : List ℕ)
    → 0 < n
    → All IsNode (range l n ++ rest)
    → IsNode l × (l + n ≤ i64_min) × All IsNode rest
All-range l zero rest h a = absurd (omega arith)
All-range l (suc zero) rest h a = (a.0, omega arith, a.1)
All-range l (suc (suc n)) rest h a =
    let (_, bound, others) = All-range (suc l) (suc n) rest (omega arith) a.1 in
    (a.0, omega arith, others)

module _ (lib : CodeLibrary) (cs : CodeConsts) where
  Reads-next_intervals :
      (min_len prev : ℕ) (ls ns : List ℕ)
      → 0 < min_len
      → Gapped min_len (suc prev) ls ns
      → All IsNode (expand ls ns)
      → Reads lib cs
          (read_next_intervals lib cs min_len (length ls) prev)
          (expand ls ns)
          (next_interval_symbols min_len prev ls ns)
  unfolding read_next_intervals
  Reads-next_intervals min_len prev [] ns h g a = Reads-pure lib cs []
  Reads-next_intervals min_len prev (l ∷ ls) [] h g a = absurd g
  Reads-next_intervals min_len prev (l ∷ ls) (n ∷ ns) h g a =
      let (node, bound, others) = All-range l n (expand ls ns) (omega arith) a in
      let first : prev + (1 + (l - prev - 1)) ≡ l = omega arith in
      let delta : n - min_len + min_len ≡ n = omega arith in
      Reads-symbol lib cs interval_start (l - prev - 1) _ _ _ (omega arith) (
        Reads-symbol lib cs interval_len (n - min_len) _ _ _ (omega arith) (
          rw (first, delta)
            (Reads-map lib cs _ _ (λ later. range l n ++ later) _ _ refl
              (Reads-next_intervals min_len (l + n) ls ns h g.2 others))))

  Reads-next_residuals :
      (prev : ℕ) (xs : List ℕ)
      → Ascending (suc prev) xs
      → All IsNode xs
      → Reads lib cs
          (read_next_residuals lib cs (length xs) prev)
          xs
          (next_residual_symbols prev xs)
  unfolding read_next_residuals
  Reads-next_residuals prev [] a h = Reads-pure lib cs []
  Reads-next_residuals prev (x ∷ xs) a h =
      let node : prev + (1 + (x - prev - 1)) ≡ x = omega arith in
      Reads-symbol lib cs residual (x - prev - 1) _ _ _ (omega arith) (
        rw node
          (Reads-map lib cs _ _ (λ later. x ∷ later) _ _ refl (Reads-next_residuals x xs a.1 h.1)))

  abbrev pub interval_symbols : ℕ → ℕ → List ℕ → List ℕ → List Symbol
  interval_symbols node min_len [] ns = []
  interval_symbols node min_len (l ∷ ls) [] = []
  interval_symbols node min_len (l ∷ ls) (n ∷ ns) =
      (interval_start, lib.to_nat (sub_i64 l node))
      ∷ (interval_len, n - min_len)
      ∷ next_interval_symbols min_len (l + n) ls ns

  abbrev pub residual_symbols : ℕ → List ℕ → List Symbol
  residual_symbols node [] = []
  residual_symbols node (x ∷ xs) =
      (first_residual, lib.to_nat (sub_i64 x node)) ∷ next_residual_symbols x xs

  pub write_intervals-Gapped :
      (node min_len lo : ℕ) (ls ns : List ℕ)
      → Gapped min_len lo ls ns
      → write_intervals lib node min_len ls ns ≡ some (interval_symbols node min_len ls ns)
  unfolding write_intervals
  write_intervals-Gapped node min_len lo [] ns g = refl
  write_intervals-Gapped node min_len lo (l ∷ ls) [] g = absurd g
  write_intervals-Gapped node min_len lo (l ∷ ls) (n ∷ ns) g =
      rw (checked_sub-le n min_len g.1, write_next_intervals-Gapped min_len (l + n) ls ns g.2)

  pub write_residuals-Ascending :
      (node lo : ℕ) (xs : List ℕ)
      → Ascending lo xs
      → write_residuals lib node xs ≡ some (residual_symbols node xs)
  unfolding write_residuals
  write_residuals-Ascending node lo [] a = refl
  write_residuals-Ascending node lo (x ∷ xs) a = rw (write_next_residuals-Ascending x xs a.1)

  -- The first interval and the first residual are coded by their distance from the node.
  pub to_nat-lt_node :
      (x node : ℕ) → IsNode x → IsNode node → lib.to_nat (sub_i64 x node) < u64_mod - 1
  to_nat-lt_node x node h k = lib.to_nat-lt (sub_i64 x node) (omega arith) (omega arith)

  pub to_int-to_nat_node :
      (x node : ℕ)
      → IsNode x
      → IsNode node
      → add_i64 node (lib.to_int (lib.to_nat (sub_i64 x node))) ≡ x
  to_int-to_nat_node x node h k =
      rw (lib.to_int-to_nat (sub_i64 x node) (omega arith)) (omega arith)

  pub Reads-some_intervals :
      (node min_len lo : ℕ) (ls ns : List ℕ)
      → 0 < min_len
      → IsNode node
      → Gapped min_len lo ls ns
      → All IsNode (expand ls ns)
      → Reads lib cs
          (read_some_intervals lib cs node min_len (length ls))
          (expand ls ns)
          (interval_symbols node min_len ls ns)
  unfolding read_some_intervals
  Reads-some_intervals node min_len lo [] ns h k g a = Reads-pure lib cs []
  Reads-some_intervals node min_len lo (l ∷ ls) [] h k g a = absurd g
  Reads-some_intervals node min_len lo (l ∷ ls) (n ∷ ns) h k g a =
      let (is_node, bound, others) = All-range l n (expand ls ns) (omega arith) a in
      let delta : n - min_len + min_len ≡ n = omega arith in
      Reads-symbol lib cs interval_start _ _ _ _ (to_nat-lt_node l node is_node k) (
        Reads-symbol lib cs interval_len (n - min_len) _ _ _ (omega arith) (
          rw (to_int-to_nat_node l node is_node k, delta)
            (Reads-map lib cs _ _ (λ later. range l n ++ later) _ _ refl
              (Reads-next_intervals min_len (l + n) ls ns h g.2 others))))

  pub Reads-residuals :
      (node lo : ℕ) (xs : List ℕ)
      → IsNode node
      → Ascending lo xs
      → All IsNode xs
      → Reads lib cs (read_residuals lib cs node (length xs)) xs (residual_symbols node xs)
  unfolding read_residuals
  Reads-residuals node lo [] k a h = Reads-pure lib cs []
  Reads-residuals node lo (x ∷ xs) k a h =
      Reads-symbol lib cs first_residual _ _ _ _ (to_nat-lt_node x node h.0 k) (
        rw (to_int-to_nat_node x node h.0 k)
          (Reads-map lib cs _ _ (λ later. x ∷ later) _ _ refl (Reads-next_residuals x xs a.1 h.1)))
