-- ===== src/Compressor/Runs.antt =====
-- `intervalize`: how it divides ascending nodes into intervals and residuals.
use native.Mathlib.Decide.{ℕ_discrete, dec_lt, dec_le}
use mathlib.Core.Path.{subst}
use rbsc.Base.{
  ◌≢◌, ◌⊎◌, ℕ, zero, suc, ◌+◌, ◌≤◌, ◌<◌, ◌≡◌, refl, ap, inl, inr, arith, List, [], ◌∷◌, ◌++◌, range,
  drop, Ascending, Interleave, done, left, right,
}
use rbsc.Compressor.{
  Intervals, consecutive, interval_length, intervalize, push_interval, push_residual,
}

-- The nodes of a list of intervals.
abbrev pub expand : List ℕ → List ℕ → List ℕ
expand (l ∷ ls) (n ∷ ns) = range l n ++ expand ls ns
expand [] ns = []
expand (l ∷ ls) [] = []

-- Each interval has at least `min_len` nodes, and at least one node lies between two of them.
abbrev pub Gapped : ℕ → ℕ → List ℕ → List ℕ → Type 0
Gapped min_len lo [] [] = Unit {0}
Gapped min_len lo [] (n ∷ ns) = ⊥
Gapped min_len lo (l ∷ ls) [] = ⊥
Gapped min_len lo (l ∷ ls) (n ∷ ns) = (lo ≤ l) × (min_len ≤ n) × Gapped min_len (suc (l + n)) ls ns

Gapped-le :
    (min_len lo hi : ℕ) (ls ns : List ℕ)
    → lo ≤ hi
    → Gapped min_len hi ls ns
    → Gapped min_len lo ls ns
Gapped-le min_len lo hi [] [] h g = tt
Gapped-le min_len lo hi [] (n ∷ ns) h g = g
Gapped-le min_len lo hi (l ∷ ls) [] h g = g
Gapped-le min_len lo hi (l ∷ ls) (n ∷ ns) h g = (omega arith, g.1, g.2)

Interleave-append_left :
    (ps : List ℕ) {xs ys zs : List ℕ} → Interleave xs ys zs → Interleave (ps ++ xs) ys (ps ++ zs)
Interleave-append_left [] i = i
Interleave-append_left (p ∷ ps) i = left p (Interleave-append_left ps i)

pub consecutive_next :
    (x y : ℕ) (ys : List ℕ) → x + 1 ≡ y → consecutive x (y ∷ ys) ≡ suc (consecutive y ys)
unfolding consecutive
consecutive_next x y ys h = ground arith

pub consecutive_stop : (x y : ℕ) (ys : List ℕ) → x + 1 ≢ y → consecutive x (y ∷ ys) ≡ 0
unfolding consecutive
consecutive_stop x y ys h = ground arith

pub consecutive_nil : (x : ℕ) → consecutive x [] ≡ 0
unfolding consecutive
consecutive_nil x = refl

range-append-drop :
    (x : ℕ) (rest : List ℕ)
    → range (suc x) (consecutive x rest) ++ drop (consecutive x rest) rest ≡ rest
range-append-drop x [] = rw consecutive_nil
range-append-drop x (y ∷ ys) = elim (ℕ_discrete (x + 1) y) [
  | yes e ↦
      let next : suc x ≡ y = omega arith in
      rw (consecutive_next x y ys e, next) (ap (◌∷◌ y) (range-append-drop y ys))
  | no e ↦ rw (consecutive_stop x y ys e)
]

-- The run is as long as possible.
drop-Ascending :
    (x : ℕ) (rest : List ℕ)
    → Ascending (suc x) rest
    → Ascending (x + consecutive x rest + 2) (drop (consecutive x rest) rest)
drop-Ascending x [] a = rw consecutive_nil tt
drop-Ascending x (y ∷ ys) a = elim (ℕ_discrete (x + 1) y) [
  | yes e ↦
      let next : x + suc (consecutive y ys) + 2 ≡ y + consecutive y ys + 2 = omega arith in
      rw (consecutive_next x y ys e, next) (drop-Ascending y ys a.1)
  | no e ↦ rw (consecutive_stop x y ys e) (omega arith, a.1)
]

pub record IsDivided (min_len lo : ℕ) (nodes : List ℕ) (s : Intervals) : Type 0 where
  pub shuffle : Interleave (expand s.left_interval s.len_interval) s.residuals nodes
  pub gapped : Gapped min_len lo s.left_interval s.len_interval

IsDivided-interval :
    (min_len lo x : ℕ) (rest : List ℕ) (s : Intervals)
    → lo ≤ x
    → min_len ≤ consecutive x rest + 1
    → IsDivided min_len (x + consecutive x rest + 2) (drop (consecutive x rest) rest) s
    → IsDivided min_len lo (x ∷ rest) (push_interval x (consecutive x rest + 1) s)
IsDivided-interval min_len lo x rest s h k d =
    let r = consecutive x rest in
    let one : r + 1 ≡ suc r = omega arith in
    let all = left x (Interleave-append_left (range (suc x) r) d.shuffle) in
    record {
      shuffle = rw one (
          subst (λ l. Interleave (x ∷ (range (suc x) r ++ later)) s.residuals (x ∷ l))
            (range-append-drop x rest) all);
      gapped = (
        h,
        k,
        Gapped-le min_len (suc (x + (r + 1))) (x + r + 2) s.left_interval s.len_interval
            (omega arith) d.gapped,
      );
    }
  where
    later : List ℕ
    later = expand s.left_interval s.len_interval

IsDivided-residual :
    (min_len lo x : ℕ) (rest : List ℕ) (s : Intervals)
    → lo ≤ x
    → IsDivided min_len (suc x) rest s
    → IsDivided min_len lo (x ∷ rest) (push_residual x s)
IsDivided-residual min_len lo x rest s h d = record {
  shuffle = right x d.shuffle;
  gapped = Gapped-le min_len lo (suc x) s.left_interval s.len_interval (omega arith) d.gapped;
}

-- A run at `x` is an interval of `run + 1` nodes.
unfoldable pub IsLong : ℕ → ℕ → Type 0
IsLong min_len run = (run ≢ 0) × (min_len ≤ run + 1)

pub IsLong-cases : (min_len run : ℕ) → IsLong min_len run ⊎ (¬ IsLong min_len run)
unfolding IsLong
IsLong-cases min_len run = elim (dec_lt 0 run) [
  | yes p ↦ elim (dec_le min_len (run + 1)) [
    | yes q ↦ inl (omega arith, q)
    | no q ↦ inr (λ l. q l.1)
  ]
  | no p ↦ inr (λ l. l.0 (omega arith))
]

pub intervalize_long :
    (min_len x : ℕ) (rest : List ℕ)
    → IsLong min_len (consecutive x rest)
    → intervalize min_len 0 (x ∷ rest)
      ≡ push_interval x (consecutive x rest + 1) (intervalize min_len (consecutive x rest) rest)
unfolding intervalize interval_length IsLong
intervalize_long min_len x rest h = ground arith

pub intervalize_short :
    (min_len x : ℕ) (rest : List ℕ)
    → 0 < min_len
    → ¬ IsLong min_len (consecutive x rest)
    → intervalize min_len 0 (x ∷ rest) ≡ push_residual x (intervalize min_len 0 rest)
unfolding intervalize interval_length IsLong
intervalize_short min_len x rest k h = ground arith

-- On strictly increasing nodes from `lo` on, of which the loop of `intervalize` has passed over the
-- first `jump` elements of its list, and with a positive minimum length: the nodes are a shuffle of the
-- intervals' nodes and the residuals, each interval has at least the minimum length and starts at `lo`
-- or later, and at least one number lies between two consecutive intervals.
pub intervalize-IsDivided :
    (min_len lo jump : ℕ) (nodes : List ℕ)
    → 0 < min_len
    → Ascending lo (drop jump nodes)
    → IsDivided min_len lo (drop jump nodes) (intervalize min_len jump nodes)
unfolding intervalize IsLong
intervalize-IsDivided min_len lo zero [] h a = record { shuffle = done; gapped = tt }
intervalize-IsDivided min_len lo (suc jump) [] h a = record { shuffle = done; gapped = tt }
intervalize-IsDivided min_len lo (suc jump) (x ∷ rest) h a =
    intervalize-IsDivided min_len lo jump rest h a
intervalize-IsDivided min_len lo zero (x ∷ rest) h a =
    elim (IsLong-cases min_len (consecutive x rest)) [
      | inl long ↦ rw (intervalize_long min_len x rest long) (
          IsDivided-interval min_len lo x rest (intervalize min_len (consecutive x rest) rest) a.0
            long.1
            (intervalize-IsDivided min_len (x + consecutive x rest + 2) (consecutive x rest) rest h
              (drop-Ascending x rest a.1)))
      | inr short ↦ rw (intervalize_short min_len x rest h short) (
          IsDivided-residual min_len lo x rest (intervalize min_len 0 rest) a.0
            (intervalize-IsDivided min_len (suc x) 0 rest h a.1))
    ]
