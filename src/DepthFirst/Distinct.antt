-- ===== src/DepthFirst/Distinct.antt =====
-- Lists of distinct nodes below a bound.
use rbsc.Base.{
  ℕ, zero, suc, ◌+◌, ◌≤◌, ◌<◌, ◌≡◌, refl, inl, inr, arith, true, false, List, [], ◌∷◌, length, ◌==◌,
  Bool-cases, ltb, if◌then◌else◌,
}
use rbsc.DepthFirst.Invariant.{count}

-- The occurrences of the first nodes.
tally : ℕ → List ℕ → ℕ
tally zero l = 0
tally (suc n) l = count n l + tally n l

tally-cons_ge : (n v : ℕ) (l : List ℕ) → n ≤ v → tally n (v ∷ l) ≡ tally n l
unfolding tally
tally-cons_ge zero v l h = refl
tally-cons_ge (suc n) v l h =
    let other : (v == n) ≡ false = ground arith in
    rw other (omega (arith, tally-cons_ge n v l (omega arith)))

tally-cons : (n v : ℕ) (l : List ℕ) → v < n → tally n (v ∷ l) ≡ suc (tally n l)
unfolding tally
tally-cons zero v l h = absurd (omega arith)
tally-cons (suc n) v l h = elim (Bool-cases (v == n)) [
  | inl e ↦ rw e (omega (arith, tally-cons_ge n v l (ground arith)))
  | inr e ↦ let below : v < n = ground arith in rw e (omega (arith, tally-cons n v l below))
]

tally-nil : (n : ℕ) → tally n [] ≡ 0
unfolding tally
tally-nil zero = refl
tally-nil (suc n) = omega (arith, tally-nil n)

tally_all : (n : ℕ) (l : List ℕ) → ((v : ℕ) → 0 < count v l → v < n) → tally n l ≡ length l
tally_all n [] h = tally-nil n
tally_all n (v ∷ l) h =
    let self : (v == v) ≡ true = ground arith in
    let v_below : v < n = h v (ground (arith, self)) in
    omega (arith, tally-cons n v l v_below, tally_all n l (λ w p. h w (omega arith)))

tally_le : (n : ℕ) (l : List ℕ) → ((v : ℕ) → count v l ≤ 1) → tally n l ≤ n
unfolding tally
tally_le zero l h = omega arith
tally_le (suc n) l h = omega (arith, h n, tally_le n l h)

tally_lt :
    (n v : ℕ) (l : List ℕ) → ((w : ℕ) → count w l ≤ 1) → v < n → count v l ≡ 0 → tally n l < n
unfolding tally
tally_lt zero v l h b e = absurd (omega arith)
tally_lt (suc n) v l h b e = elim (Bool-cases (v == n)) [
  | inl same ↦
      let v_is : v ≡ n = ground arith in
      let e' : count n l ≡ 0 = rw v_is at e in omega (arith, tally_le n l h, e')
  | inr other ↦ let below : v < n = ground arith in omega (arith, h n, tally_lt n v l h below e)
]

-- Distinct nodes below `n`, without one of them, are less than `n` many.
pub length_lt :
    (n v : ℕ) (l : List ℕ)
    → ((w : ℕ) → count w l ≤ 1)
    → ((w : ℕ) → 0 < count w l → w < n)
    → v < n
    → count v l ≡ 0
    → length l < n
length_lt n v l once below b e = omega (arith, tally_all n l below, tally_lt n v l once b e)

tally_full : (n : ℕ) (l : List ℕ) → ((v : ℕ) → v < n → count v l ≡ 1) → tally n l ≡ n
unfolding tally
tally_full zero l once = refl
tally_full (suc n) l once =
    omega (arith, once n (omega arith), tally_full n l (λ v b. once v (omega arith)))

pub length_eq :
    (n : ℕ) (l : List ℕ) → ((v : ℕ) → count v l ≡ (if ltb v n then 1 else 0)) → length l ≡ n
length_eq n l once = omega (
  arith,
  tally_full n l (λ v b. let c = once v in ground (arith, c)),
  tally_all n l (λ v p. let c = once v in ground (arith, c)),
)
