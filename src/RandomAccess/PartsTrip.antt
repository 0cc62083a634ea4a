-- ===== src/RandomAccess/PartsTrip.antt =====
-- What `labels` reads from the calls of `Compressor::write` for the blocks, the intervals and the first
-- residual.
use rbsc.Base.{
  ℕ, suc, ◌+◌, ◌-◌, ◌≤◌, ◌<◌, ◌≡◌, refl, ap, arith, Option, some, List, [], ◌∷◌, ◌++◌, length,
  length-append, length-range, sum, range, All, checked_sub-le, checked_sub-add,
}
use rbsc.Codec.{
  CodeLibrary, CodeConsts, Symbol, block, block_count, interval_start, interval_len, first_residual,
  u64_mod,
}
use rbsc.Compressor.Blocks.{AllPos, rest_of}
use rbsc.Compressor.Runs.{expand, Gapped}
use rbsc.MaskedIterator
use rbsc.MaskedIterator.{ExactIterator, MaskedIterator}
use rbsc.Compressor.Write.{sub_i64}
use rbsc.Sequential.Stream.{Reads, Reads-pure, Reads-symbol, Reads-lift, Reads-map, Reads-last}
use rbsc.Sequential.CopyTrip.{next_block_symbols, block_symbols, pos-eq-zero, length-raw-le}
use rbsc.Sequential.ExtraTrip.{
  IsNode, next_interval_symbols, interval_symbols, residual_symbols, next_residual_symbols,
  to_nat-lt_node, to_int-to_nat_node, All-range,
}
use rbsc.RandomAccess.{usize_max}
use rbsc.RandomAccess.Parts.{nodes_of, sentinel, AllLong}
use rbsc.RandomAccess.Labels.{
  read_next_lengths, read_lengths, read_next_pairs, read_pairs, open_residuals, open_copied,
}

abbrev pub pairs_of : List ℕ → List ℕ → List (ℕ × ℕ)
pairs_of [] ns = []
pairs_of (l ∷ ls) [] = []
pairs_of (l ∷ ls) (n ∷ ns) = (l, n) ∷ pairs_of ls ns

-- The vector of the intervals: the sentinel follows the last one.
abbrev pub vector : List (ℕ × ℕ) → List (ℕ × ℕ)
vector [] = []
vector (p ∷ ps) = p ∷ (ps ++ sentinel ∷ [])

pub nodes_of-pairs_of : (ls ns : List ℕ) → nodes_of (pairs_of ls ns) ≡ expand ls ns
nodes_of-pairs_of [] ns = refl
nodes_of-pairs_of (l ∷ ls) [] = refl
nodes_of-pairs_of (l ∷ ls) (n ∷ ns) = ap (λ (m : List ℕ). range l n ++ m) (nodes_of-pairs_of ls ns)

pub pairs_of-AllLong :
    (min_len lo : ℕ) (ls ns : List ℕ)
    → 0 < min_len
    → Gapped min_len lo ls ns
    → AllLong (pairs_of ls ns)
pairs_of-AllLong min_len lo [] ns h g = tt
pairs_of-AllLong min_len lo (l ∷ ls) [] h g = tt
pairs_of-AllLong min_len lo (l ∷ ls) (n ∷ ns) h g =
    (omega arith, pairs_of-AllLong min_len (suc (l + n)) ls ns h g.2)

-- The first node and the number of those behind it, or what stands for no residual.
abbrev pub first_and_rest : List ℕ → ℕ × ℕ
first_and_rest [] = (usize_max, 0)
first_and_rest (x ∷ xs) = (x, length xs)

module _ (lib : CodeLibrary) (cs : CodeConsts) where
  Reads-next_lengths :
      (bs : List ℕ)
      → AllPos bs
      → sum bs < u64_mod - 1
      → Reads lib cs (read_next_lengths lib cs (length bs)) bs (next_block_symbols bs)
  unfolding read_next_lengths
  Reads-next_lengths [] h k = Reads-pure lib cs []
  Reads-next_lengths (b ∷ bs) h k =
      let back : b - 1 + 1 ≡ b = omega arith in
      Reads-symbol lib cs block (b - 1) _ _ _ (omega arith) (
        rw back (
          Reads-map lib cs _ _ (λ later. b ∷ later) _ _ refl
            (Reads-next_lengths bs h.1 (omega arith))))

  Reads-lengths :
      (raw : List ℕ)
      → AllPos (rest_of raw)
      → sum raw < u64_mod - 1
      → Reads lib cs (read_lengths lib cs (length raw)) raw (block_symbols raw)
  unfolding read_lengths
  Reads-lengths [] h k = Reads-pure lib cs []
  Reads-lengths (b ∷ bs) h k =
      Reads-symbol lib cs block b _ _ _ (omega arith)
        (Reads-map lib cs _ _ (λ later. b ∷ later) _ _ refl (Reads-next_lengths bs h (omega arith)))

  pub Reads-open_copied :
      {P : Type 0} (it : ExactIterator P) (successors : ℕ → Option P) (node ref_delta : ℕ)
      (parent : P) (raw : List ℕ) (m : MaskedIterator P)
      → 0 < ref_delta
      → ref_delta ≤ node
      → successors (node - ref_delta) ≡ some parent
      → MaskedIterator.new it parent raw ≡ some m
      → AllPos (rest_of raw)
      → sum raw < u64_mod - 2
      → Reads lib cs
          (open_copied lib cs it successors node ref_delta)
          (some m)
          ((block_count, length raw) ∷ block_symbols raw)
  unfolding open_copied
  Reads-open_copied it successors node ref_delta parent raw m d l e f h k =
      rw (pos-eq-zero ref_delta d) (
        Reads-lift lib cs _ (node - ref_delta) _ _ _ (checked_sub-le node ref_delta l) (
          Reads-lift lib cs _ parent _ _ _ e (
            Reads-symbol lib cs block_count (length raw) _ _ _ (omega (arith, length-raw-le raw h))
              (Reads-last lib cs _ raw _ (some m) (block_symbols raw)
                (Reads-lengths raw h (omega arith))
                (Reads-lift lib cs _ m _ (some m) [] f (Reads-pure lib cs (some m)))))))

  Reads-next_pairs :
      (min_len prev : ℕ) (ls ns : List ℕ) (left_behind : ℕ)
      → 0 < min_len
      → Gapped min_len (suc prev) ls ns
      → All IsNode (expand ls ns)
      → Reads lib cs
          (read_next_pairs lib cs min_len (length ls) prev (length (expand ls ns) + left_behind))
          (pairs_of ls ns ++ sentinel ∷ [], left_behind)
          (next_interval_symbols min_len prev ls ns)
  unfolding read_next_pairs
  Reads-next_pairs min_len prev [] ns k h g a =
      let all : 0 + k ≡ k = omega arith in rw all (Reads-pure lib cs _)
  Reads-next_pairs min_len prev (l ∷ ls) [] k h g a = absurd g
  Reads-next_pairs min_len prev (l ∷ ls) (n ∷ ns) k h g a =
      let (node, bound, others) = All-range l n (expand ls ns) (omega arith) a in
      let first : prev + (1 + (l - prev - 1)) ≡ l = omega arith in
      let delta : n - min_len + min_len ≡ n = omega arith in
      Reads-symbol lib cs interval_start (l - prev - 1) _ _ _ (omega arith) (
        Reads-symbol lib cs interval_len (n - min_len) _ _ _ (omega arith) (
          rw (first, delta)
            (Reads-lift lib cs _ (length (expand ls ns) + k) _ _ _
              (checked_sub-add _ n _
                (omega (arith, length-append (range l n) (expand ls ns), length-range l n)))
              (Reads-map lib cs _ _ (λ (r : List (ℕ × ℕ) × ℕ). ((l, n) ∷ r.0, r.1)) _ _ refl
                (Reads-next_pairs min_len (l + n) ls ns k h g.2 others)))))

  pub Reads-pairs :
      (node min_len lo : ℕ) (ls ns : List ℕ) (left_behind : ℕ)
      → 0 < min_len
      → IsNode node
      → Gapped min_len lo ls ns
      → All IsNode (expand ls ns)
      → Reads lib cs
          (read_pairs lib cs node min_len (length (expand ls ns) + left_behind) (length ls))
          (vector (pairs_of ls ns), left_behind)
          (interval_symbols lib cs node min_len ls ns)
  unfolding read_pairs
  Reads-pairs node min_len lo [] ns k h b g a =
      let all : 0 + k ≡ k = omega arith in rw all (Reads-pure lib cs _)
  Reads-pairs node min_len lo (l ∷ ls) [] k h b g a = absurd g
  Reads-pairs node min_len lo (l ∷ ls) (n ∷ ns) k h b g a =
      let (is_node, bound, others) = All-range l n (expand ls ns) (omega arith) a in
      let delta : n - min_len + min_len ≡ n = omega arith in
      Reads-symbol lib cs interval_start _ _ _ _ (to_nat-lt_node lib cs l node is_node b) (
        Reads-symbol lib cs interval_len (n - min_len) _ _ _ (omega arith) (
          rw (to_int-to_nat_node lib cs l node is_node b, delta)
            (Reads-lift lib cs _ (length (expand ls ns) + k) _ _ _
              (checked_sub-add _ n _
                (omega (arith, length-append (range l n) (expand ls ns), length-range l n)))
              (Reads-map lib cs _ _ (λ (r : List (ℕ × ℕ) × ℕ). ((l, n) ∷ r.0, r.1)) _ _ refl
                (Reads-next_pairs min_len (l + n) ls ns k h g.2 others)))))

  -- The call for the first residual, and those for the others.
  abbrev pub first_residual_symbols : ℕ → List ℕ → List Symbol
  first_residual_symbols node [] = []
  first_residual_symbols node (x ∷ xs) = (first_residual, lib.to_nat (sub_i64 x node)) ∷ []

  abbrev pub later_residual_symbols : List ℕ → List Symbol
  later_residual_symbols [] = []
  later_residual_symbols (x ∷ xs) = next_residual_symbols x xs

  pub residual_symbols-split :
      (node : ℕ) (xs : List ℕ)
      → residual_symbols lib cs node xs
        ≡ first_residual_symbols node xs ++ later_residual_symbols xs
  residual_symbols-split node [] = refl
  residual_symbols-split node (x ∷ xs) = refl

  pub Reads-open_residuals :
      (node : ℕ) (xs : List ℕ)
      → IsNode node
      → All IsNode xs
      → Reads lib cs
          (open_residuals lib cs node (length xs))
          (first_and_rest xs)
          (first_residual_symbols node xs)
  unfolding open_residuals
  Reads-open_residuals node [] k h = Reads-pure lib cs _
  Reads-open_residuals node (x ∷ xs) k h =
      Reads-symbol lib cs first_residual _ _ _ _ (to_nat-lt_node lib cs x node h.0 k)
        (rw (to_int-to_nat_node lib cs x node h.0 k) (Reads-pure lib cs _))
