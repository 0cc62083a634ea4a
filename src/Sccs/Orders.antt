-- ===== src/Sccs/Orders.antt =====
-- Lists in decreasing order, and lists with the same elements.
use rbsc.Base.{
  ℕ, suc, ◌+◌, ◌≤◌, ◌<◌, ◌≡◌, refl, sym, ap, ap₂, ◌∙◌, inl, inr, arith, Bool, true, false, List, [],
  ◌∷◌, length, get_elem?, All, ◌==◌, leb, if◌then◌else◌, Bool-cases,
}
use mathlib.Core.Option.{some-injective}
use mathlib.Core.List.{Permᴰ}
use rbsc.DepthFirst.Invariant.{count}
use rbsc.VecGraph.{sort_by, insert_by}
use rbsc.Sccs.{DescendingBy}

abbrev pub ge : ℕ → ℕ → Bool
ge x y = leb y x

abbrev pub Descending : List ℕ → Type 0
Descending [] = Unit
Descending (x ∷ xs) = All (λ y. y ≤ x) xs × Descending xs

abbrev pub keys : (ℕ → ℕ) → List ℕ → List ℕ
keys key [] = []
keys key (x ∷ xs) = key x ∷ keys key xs

keys-All :
    (key : ℕ → ℕ) (m : ℕ) (xs : List ℕ) → All (λ y. key y ≤ m) xs → All (λ y. y ≤ m) (keys key xs)
keys-All key m [] h = tt
keys-All key m (x ∷ xs) h = (h.0, keys-All key m xs h.1)

pub keys-Descending : (key : ℕ → ℕ) (xs : List ℕ) → DescendingBy key xs → Descending (keys key xs)
keys-Descending key [] d = tt
keys-Descending key (x ∷ xs) d = (keys-All key (key x) xs d.0, keys-Descending key xs d.1)

insert_by-All :
    (m x : ℕ) (xs : List ℕ) → x ≤ m → All (λ y. y ≤ m) xs → All (λ y. y ≤ m) (insert_by ge x xs)
insert_by-All m x [] h a = (h, tt)
insert_by-All m x (y ∷ xs) h a = elim (Bool-cases (leb y x)) [
  | inl e ↦ rw e (h, a)
  | inr e ↦ rw e (a.0, insert_by-All m x xs h a.1)
]

All-mono : (m k : ℕ) (xs : List ℕ) → m ≤ k → All (λ y. y ≤ m) xs → All (λ y. y ≤ k) xs
All-mono m k [] h a = tt
All-mono m k (x ∷ xs) h a = (omega (arith, h, a.0), All-mono m k xs h a.1)

insert_by-Descending : (x : ℕ) (xs : List ℕ) → Descending xs → Descending (insert_by ge x xs)
insert_by-Descending x [] d = (tt, tt)
insert_by-Descending x (y ∷ xs) d = elim (Bool-cases (leb y x)) [
  | inl e ↦ let le : y ≤ x = ground arith in rw e ((le, All-mono y x xs le d.0), d)
  | inr e ↦ rw e (insert_by-All y x xs (ground arith) d.0, insert_by-Descending x xs d.1)
]

pub sort_by-Descending : (xs : List ℕ) → Descending (sort_by ge xs)
sort_by-Descending [] = tt
sort_by-Descending (x ∷ xs) = insert_by-Descending x (sort_by ge xs) (sort_by-Descending xs)

count-insert_by : (v x : ℕ) (xs : List ℕ) → count v (insert_by ge x xs) ≡ count v (x ∷ xs)
count-insert_by v x [] = refl
count-insert_by v x (y ∷ xs) = elim (Bool-cases (leb y x)) [
  | inl e ↦ rw e refl
  | inr e ↦ rw e (omega (arith, count-insert_by v x xs))
]

pub count-sort_by : (v : ℕ) (xs : List ℕ) → count v (sort_by ge xs) ≡ count v xs
count-sort_by v [] = refl
count-sort_by v (x ∷ xs) = omega (arith, count-insert_by v x (sort_by ge xs), count-sort_by v xs)

pub count-Permᴰ : (v : ℕ) {xs ys : List ℕ} → Permᴰ xs ys → count v xs ≡ count v ys
count-Permᴰ v Permᴰ.nil = refl
count-Permᴰ v (Permᴰ.cons e d) =
    ap₂ (λ (a b : ℕ). (if a == v then 1 else 0) + b) e (count-Permᴰ v d)
count-Permᴰ v (Permᴰ.swap {a = a} {b = b} {a' = a'} {b' = b'} {l = l} e f) = rw (e, f) (omega arith)
count-Permᴰ v (Permᴰ.trans d e) = count-Permᴰ v d ∙ count-Permᴰ v e

pub keys-Permᴰ : (key : ℕ → ℕ) {xs ys : List ℕ} → Permᴰ xs ys → Permᴰ (keys key xs) (keys key ys)
keys-Permᴰ key Permᴰ.nil = Permᴰ.nil
keys-Permᴰ key (Permᴰ.cons e d) = Permᴰ.cons (ap key e) (keys-Permᴰ key d)
keys-Permᴰ key (Permᴰ.swap e f) = Permᴰ.swap (ap key e) (ap key f)
keys-Permᴰ key (Permᴰ.trans d e) = Permᴰ.trans (keys-Permᴰ key d) (keys-Permᴰ key e)

pub length-Permᴰ : {xs ys : List ℕ} → Permᴰ xs ys → length xs ≡ length ys
length-Permᴰ Permᴰ.nil = refl
length-Permᴰ (Permᴰ.cons e d) = ap suc (length-Permᴰ d)
length-Permᴰ (Permᴰ.swap e f) = refl
length-Permᴰ (Permᴰ.trans d e) = length-Permᴰ d ∙ length-Permᴰ e

count-above : (v m : ℕ) (xs : List ℕ) → m < v → All (λ y. y ≤ m) xs → count v xs ≡ 0
count-above v m [] h a = refl
count-above v m (x ∷ xs) h a =
    let other : (x == v) ≡ false = ground (arith, a.0) in
    rw other (omega (arith, count-above v m xs h a.1))

not_below :
    (x y : ℕ) (xs ys : List ℕ)
    → All (λ z. z ≤ x) xs
    → ((v : ℕ) → count v (x ∷ xs) ≡ count v (y ∷ ys))
    → y ≤ x
not_below x y xs ys a c = elim (Bool-cases (leb y x)) [
  | inl e ↦ ground arith
  | inr e ↦
      let self : (y == y) ≡ true = ground arith in
      let other : (x == y) ≡ false = ground arith in
      let h = c y in
      let none_above = count-above y x xs (ground arith) a in
      absurd (ground (arith, self, other, h, none_above))
]

-- A list in decreasing order is determined by how often it has each element.
pub Descending-unique :
    (xs ys : List ℕ) → Descending xs → Descending ys → ((v : ℕ) → count v xs ≡ count v ys) → xs ≡ ys
Descending-unique [] [] dx dy c = refl
Descending-unique [] (y ∷ ys) dx dy c =
    let self : (y == y) ≡ true = ground arith in absurd (let h = c y in ground (arith, self, h))
Descending-unique (x ∷ xs) [] dx dy c =
    let self : (x == x) ≡ true = ground arith in absurd (let h = c x in ground (arith, self, h))
Descending-unique (x ∷ xs) (y ∷ ys) dx dy c =
    let same : x ≡ y =
      omega (arith, not_below x y xs ys dx.0 c, not_below y x ys xs dy.0 (λ v. sym (c v))) in
    ap₂ ◌∷◌ same (
      Descending-unique xs ys dx.1 dy.1 (λ v.
        let h : (if y == v then 1 else 0) + count v xs ≡ (if y == v then 1 else 0) + count v ys =
          rw same at (c v) in
        omega (arith, h)))

-- Lists that agree at each index are the same.
pub get_elem?-ext :
    (xs ys : List ℕ)
    → length xs ≡ length ys
    → ((i : ℕ) → i < length xs → get_elem? xs i ≡ get_elem? ys i)
    → xs ≡ ys
get_elem?-ext [] [] e h = refl
get_elem?-ext [] (y ∷ ys) e h = absurd (omega (arith, e))
get_elem?-ext (x ∷ xs) [] e h = absurd (omega (arith, e))
get_elem?-ext (x ∷ xs) (y ∷ ys) e h =
    ap₂ ◌∷◌ (some-injective x y (h 0 (omega arith)))
      (get_elem?-ext xs ys (omega (arith, e)) (λ i b. h (suc i) (omega arith)))
