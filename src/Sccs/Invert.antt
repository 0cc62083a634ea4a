-- ===== src/Sccs/Invert.antt =====
-- The inverse of an order, and lists that are renumbered.
use rbsc.Base.{
  ℕ, zero, suc, ◌+◌, ◌≤◌, ◌<◌, ◌≡◌, refl, sym, ap, subst, ◌∙◌, inl, inr, arith, true, false, none,
  some, List, [], ◌∷◌, length, length-set, length-range, range, get_elem?, get_elem?-lt, set, All,
  ◌==◌, lt→ltb, Bool-cases,
}
use mathlib.Core.Option.{some-injective}
use rbsc.DepthFirst.Invariant.{count}
use rbsc.LabelStore.Volumes.{get-set}
use rbsc.Sccs.{invert, renumber, size_of}
use rbsc.Sccs.Orders.{keys, get_elem?-ext}

pub invert_lem :
    (n i : ℕ) (order inv_perm : List ℕ)
    → ((v : ℕ) → 0 < count v order → v < n)
    → ((v : ℕ) → count v order ≤ 1)
    → length inv_perm ≡ n
    → (r : List ℕ) × (invert i order inv_perm ≡ some r)
      × (length r ≡ n)
      × ((k v : ℕ) → get_elem? order k ≡ some v → get_elem? r v ≡ some (i + k))
      × ((v : ℕ) → count v order ≡ 0 → get_elem? r v ≡ get_elem? inv_perm v)
unfolding invert
invert_lem n i [] inv_perm inside once e = (inv_perm, refl, e, λ k v g. cc, λ v c. refl)
invert_lem n i (x ∷ order) inv_perm inside once e =
    let self : (x == x) ≡ true = ground arith in
    let x_in : x < length inv_perm =
      let b = inside x (ground (arith, self)) in omega (arith, b, e) in
    let (r, e', size, places, others) =
      invert_lem n (suc i) order (set inv_perm x i) (λ v p. inside v (omega arith))
        (λ v. omega (arith, once v)) (length-set inv_perm x i ∙ e) in
    (
      r,
      rw (lt→ltb x (length inv_perm) x_in) e',
      size,
      λ k v g. place r k v g places others self x_in,
      λ v c.
          let other : (x == v) ≡ false = ground (arith, c) in
          let rest : count v order ≡ 0 = omega (arith, c) in
          others v rest ∙ get-set inv_perm x v i x_in ∙ (rw other refl),
    )
  where
    place :
        (r : List ℕ) (k v : ℕ)
        → get_elem? (x ∷ order) k ≡ some v
        → ((k v : ℕ) → get_elem? order k ≡ some v → get_elem? r v ≡ some (suc i + k))
        → ((v : ℕ) → count v order ≡ 0 → get_elem? r v ≡ get_elem? (set inv_perm x i) v)
        → (x == x) ≡ true
        → x < length inv_perm
        → get_elem? r v ≡ some (i + k)
    place r zero v g places others self x_in =
        let same : x ≡ v = some-injective x v g in
        let gone : count x order ≡ 0 = let o = once x in ground (arith, self, o) in
        let here : get_elem? (set inv_perm x i) x ≡ some i =
          get-set inv_perm x x i x_in ∙ (rw self refl) in
        subst (λ (w : ℕ). get_elem? r w ≡ some (i + 0)) same
          (others x gone ∙ here ∙ ap some (omega arith))
    place r (suc k) v g places others self x_in = places k v g ∙ ap some (omega arith)

pub size_of-some : (xs : List ℕ) (i v : ℕ) → get_elem? xs i ≡ some v → size_of xs i ≡ v
size_of-some xs i v e = ap (λ o. elim o [ none ↦ 0 | some n ↦ n ]) e

pub renumber-keys :
    (inv_perm components : List ℕ)
    → All (λ c. c < length inv_perm) components
    → renumber inv_perm components ≡ some (keys (size_of inv_perm) components)
unfolding renumber
renumber-keys inv_perm [] h = refl
renumber-keys inv_perm (c ∷ components) h =
    let (d, e) = get_elem?-lt inv_perm c h.0 in
    rw (e, renumber-keys inv_perm components h.1)
      (ap (λ (w : ℕ). some (w ∷ keys (size_of inv_perm) components))
        (sym (size_of-some inv_perm c d e)))

pub count-index : (xs : List ℕ) (v : ℕ) → 0 < count v xs → (k : ℕ) × (get_elem? xs k ≡ some v)
count-index [] v h = absurd (omega (arith, h))
count-index (x ∷ xs) v h = elim (Bool-cases (x == v)) [
  | inl e ↦ (0, ap some (ground arith))
  | inr e ↦ let (k, g) = count-index xs v (ground (arith, h)) in (suc k, g)
]

pub index_lt : (xs : List ℕ) (k v : ℕ) → get_elem? xs k ≡ some v → k < length xs
index_lt [] k v e = cc
index_lt (x ∷ xs) zero v e = omega arith
index_lt (x ∷ xs) (suc k) v e = omega (arith, index_lt xs k v e)

pub get-range : (start n i : ℕ) → i < n → get_elem? (range start n) i ≡ some (start + i)
get-range start zero i h = elim h [ ]
get-range start (suc n) zero h = ap some (omega arith)
get-range start (suc n) (suc i) h = get-range (suc start) n i (omega arith) ∙ ap some (omega arith)

pub get-keys :
    (key : ℕ → ℕ) (xs : List ℕ) (i v : ℕ)
    → get_elem? xs i ≡ some v
    → get_elem? (keys key xs) i ≡ some (key v)
get-keys key [] i v e = cc
get-keys key (x ∷ xs) zero v e = ap some (ap key (some-injective x v e))
get-keys key (x ∷ xs) (suc i) v e = get-keys key xs i v e

pub length-keys : (key : ℕ → ℕ) (xs : List ℕ) → length (keys key xs) ≡ length xs
length-keys key [] = refl
length-keys key (x ∷ xs) = ap suc (length-keys key xs)

-- The sizes are those of the indices in order.
pub keys-range : (sizes : List ℕ) → keys (size_of sizes) (range 0 (length sizes)) ≡ sizes
keys-range sizes =
    get_elem?-ext (keys (size_of sizes) (range 0 (length sizes))) sizes
      (length-keys (size_of sizes) (range 0 (length sizes)) ∙ length-range 0 (length sizes))
      (λ i b.
        let inside : i < length sizes = omega (
          arith,
          b,
          length-keys (size_of sizes) (range 0 (length sizes)),
          length-range 0 (length sizes),
        ) in
        let (v, e) = get_elem?-lt sizes i inside in
        let at : get_elem? (range 0 (length sizes)) i ≡ some i =
          get-range 0 (length sizes) i inside ∙ ap some (omega arith) in
        get-keys (size_of sizes) (range 0 (length sizes)) i i at
        ∙ ap some (size_of-some sizes i v e)
        ∙ sym e)
