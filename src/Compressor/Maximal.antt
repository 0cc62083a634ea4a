-- ===== src/Compressor/Maximal.antt =====
-- `intervalize` next to the maximal runs of consecutive nodes.
use native.Mathlib.Decide.{ℕ_discrete}
use rbsc.Base.{
  ℕ, zero, suc, ◌+◌, ◌≤◌, ◌<◌, ◌⊎◌, ◌≡◌, refl, sym, ap, ◌∙◌, inl, inr, arith, true, false, List, [],
  ◌∷◌, ◌++◌, range, drop, Ascending, ◌==◌, leb, if◌then◌else◌, ◌&&◌, Bool-cases,
}
use rbsc.Compressor.{Intervals, consecutive, intervalize, push_interval, push_residual}
use rbsc.Compressor.Runs.{
  consecutive_next, consecutive_stop, consecutive_nil, IsLong, IsLong-cases, intervalize_long,
  intervalize_short,
}

-- A run is its first node and its number of nodes. A node goes to the run that starts behind it.
abbrev pub join_run : ℕ → List (ℕ × ℕ) → List (ℕ × ℕ)
join_run x [] = (x, 1) ∷ []
join_run x ((y, n) ∷ rs) = if x + 1 == y then (x, suc n) ∷ rs else (x, 1) ∷ (y, n) ∷ rs

abbrev pub runs : List ℕ → List (ℕ × ℕ)
runs [] = []
runs (x ∷ xs) = join_run x (runs xs)

-- The runs of two nodes or more that have the minimum length are intervals, the nodes of the others
-- residuals.
abbrev pub choose : ℕ → List (ℕ × ℕ) → Intervals
choose min_len [] = record { left_interval = []; len_interval = []; residuals = [] }
choose min_len ((x, n) ∷ rs) =
    let later = choose min_len rs in
    if leb 2 n && leb min_len n
    then push_interval x n later
    else record later { residuals = range x n ++ later.residuals }

-- The runs are all of the nodes, and at least one number lies between two of them.
abbrev pub all_nodes : List (ℕ × ℕ) → List ℕ
all_nodes [] = []
all_nodes ((x, n) ∷ rs) = range x n ++ all_nodes rs

abbrev pub Apart : ℕ → List (ℕ × ℕ) → Type 0
Apart lo [] = Unit
Apart lo ((x, n) ∷ rs) = (lo ≤ x) × (0 < n) × Apart (suc (x + n)) rs

-- The first run.
runs-consecutive :
    (x : ℕ) (rest : List ℕ)
    → runs (x ∷ rest) ≡ (x, suc (consecutive x rest)) ∷ runs (drop (consecutive x rest) rest)
runs-consecutive x [] = rw consecutive_nil refl
runs-consecutive x (y ∷ ys) = elim (ℕ_discrete (x + 1) y) [
  | yes e ↦
      let next : (x + 1 == y) ≡ true = ground arith in
      ap (join_run x) (runs-consecutive y ys) ∙ rw (next, consecutive_next x y ys e) refl
  | no e ↦
      let far : (x + 1 == y) ≡ false = ground arith in
      ap (join_run x) (runs-consecutive y ys)
      ∙ rw (far, consecutive_stop x y ys e) (ap (λ l. (x, 1) ∷ l) (sym (runs-consecutive y ys)))
]

choose-long :
    (min_len x n : ℕ) (rs : List (ℕ × ℕ))
    → 2 ≤ n
    → min_len ≤ n
    → choose min_len ((x, n) ∷ rs) ≡ push_interval x n (choose min_len rs)
choose-long min_len x n rs h k =
    let two : leb 2 n ≡ true = ground arith in
    let long : leb min_len n ≡ true = ground arith in rw (two, long) refl

choose-short :
    (min_len x n : ℕ) (rs : List (ℕ × ℕ))
    → ((n < 2) ⊎ (n < min_len))
    → choose min_len ((x, n) ∷ rs)
      ≡ record (choose min_len rs) { residuals = range x n ++ (choose min_len rs).residuals }
choose-short min_len x n rs h =
    let short : (leb 2 n && leb min_len n) ≡ false = ground (arith, h) in rw short refl

-- A short run gives one residual after the other.
choose-next :
    (min_len x : ℕ) (rest : List ℕ)
    → ¬ IsLong min_len (consecutive x rest)
    → choose min_len (runs (x ∷ rest)) ≡ push_residual x (choose min_len (runs rest))
unfolding IsLong
choose-next min_len x [] h = choose-short min_len x 1 [] (inl (omega arith))
choose-next min_len x (y ∷ ys) h = elim (ℕ_discrete (x + 1) y) [
  | yes e ↦
      let c = consecutive y ys in
      let rs = runs (drop c ys) in
      let longer = consecutive_next x y ys e in
      let short : suc (suc c) < min_len = ground (arith, h, longer) in
      let first : runs (x ∷ y ∷ ys) ≡ (x, suc (suc c)) ∷ rs =
        runs-consecutive x (y ∷ ys) ∙ rw longer refl in
      let next : suc x ≡ y = omega arith in
      ap (choose min_len) first
      ∙ choose-short min_len x (suc (suc c)) rs (inr short)
      ∙ rw next (
          sym (
            ap (λ r. push_residual x (choose min_len r)) (runs-consecutive y ys)
            ∙ ap (push_residual x) (choose-short min_len y (suc c) rs (inr (omega arith)))))
  | no e ↦
      let stop = consecutive_stop x y ys e in
      let alone : runs (x ∷ y ∷ ys) ≡ (x, 1) ∷ runs (y ∷ ys) =
        runs-consecutive x (y ∷ ys) ∙ rw stop refl in
      ap (choose min_len) alone ∙ choose-short min_len x 1 (runs (y ∷ ys)) (inl (omega arith))
]

intervalize-eq-choose :
    (min_len jump : ℕ) (nodes : List ℕ)
    → 0 < min_len
    → intervalize min_len jump nodes ≡ choose min_len (runs (drop jump nodes))
unfolding intervalize IsLong
intervalize-eq-choose min_len zero [] h = refl
intervalize-eq-choose min_len (suc jump) [] h = refl
intervalize-eq-choose min_len (suc jump) (x ∷ rest) h = intervalize-eq-choose min_len jump rest h
intervalize-eq-choose min_len zero (x ∷ rest) h =
    let c = consecutive x rest in
    elim (IsLong-cases min_len c) [
      | inl long ↦
          let same : c + 1 ≡ suc c = omega arith in
          intervalize_long min_len x rest long
          ∙ ap (push_interval x (c + 1)) (intervalize-eq-choose min_len c rest h)
          ∙ rw same (
              sym (
                ap (choose min_len) (runs-consecutive x rest)
                ∙ choose-long min_len x (suc c) (runs (drop c rest)) (omega (arith, long.0))
                    (omega (arith, long.1))))
      | inr short ↦
          intervalize_short min_len x rest h short
          ∙ ap (push_residual x) (intervalize-eq-choose min_len 0 rest h)
          ∙ sym (choose-next min_len x rest short)
    ]

all_nodes-runs : (nodes : List ℕ) → all_nodes (runs nodes) ≡ nodes
all_nodes-runs [] = refl
all_nodes-runs (x ∷ xs) = front x (runs xs) ∙ ap (◌∷◌ x) (all_nodes-runs xs)
  where
    front : (x : ℕ) (rs : List (ℕ × ℕ)) → all_nodes (join_run x rs) ≡ x ∷ all_nodes rs
    front x [] = refl
    front x ((y, n) ∷ rs) = elim (Bool-cases (x + 1 == y)) [
      | inl e ↦ let next : suc x ≡ y = ground arith in rw (e, next) refl
      | inr e ↦ rw e refl
    ]

runs-Apart : (lo : ℕ) (nodes : List ℕ) → Ascending lo nodes → Apart lo (runs nodes)
runs-Apart lo [] a = tt
runs-Apart lo (x ∷ xs) a = front x (runs xs) a.0 (runs-Apart (suc x) xs a.1)
  where
    front : (x : ℕ) (rs : List (ℕ × ℕ)) → lo ≤ x → Apart (suc x) rs → Apart lo (join_run x rs)
    front x [] h a = (h, omega arith, tt)
    front x ((y, n) ∷ rs) h a = elim (Bool-cases (x + 1 == y)) [
      | inl e ↦
          let next : suc (x + suc n) ≡ suc (y + n) = ground arith in
          rw e (h, omega arith, rw next a.2)
      | inr e ↦ rw e (h, omega arith, (ground (arith, e, a.0), a.1, a.2))
    ]

-- On strictly increasing nodes from `lo` on, and with a positive minimum length, `intervalize` takes the
-- maximal runs of consecutive nodes, in which all nodes are and between which at least one number lies:
-- the runs of at least two nodes and at least the minimum length become the intervals, each with its
-- first node and its length, and the nodes of the other runs the residuals, all in order.
pub intervalize-Maximal :
    (min_len lo : ℕ) (nodes : List ℕ)
    → 0 < min_len
    → Ascending lo nodes
    → (intervalize min_len 0 nodes ≡ choose min_len (runs nodes))
      × (all_nodes (runs nodes) ≡ nodes)
      × Apart lo (runs nodes)
intervalize-Maximal min_len lo nodes h a =
    (intervalize-eq-choose min_len 0 nodes h, all_nodes-runs nodes, runs-Apart lo nodes a)
