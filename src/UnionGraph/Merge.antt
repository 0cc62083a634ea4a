-- ===== src/UnionGraph/Merge.antt =====
-- The successors of a node in the union of two graphs.
use rbsc.Base.{
  ℕ, zero, suc, ◌+◌, ◌≤◌, ◌<◌, ◌≡◌, refl, sym, ap, ◌∙◌, inl, inr, arith, true, false, Option, none,
  some, List, [], ◌∷◌, length, All, ltb, ◌==◌, if◌then◌else◌, Bool-cases,
}
use Prim.Native.Nat.{max}
use rbsc.ArcListGraph.{usize_max}
use rbsc.DepthFirst.Invariant.{count}
use rbsc.UnionGraph.{Succ, peek_or_max, advance, next_successor}

-- All that `Succ::next` returns, in at most `fuel` calls.
unfoldable pub collect : ℕ → Succ → List ℕ
unfolding next_successor
collect zero s = []
collect (suc fuel) s = elim (next_successor s).1 [
  | none ↦ []
  | some v ↦ v ∷ collect fuel (next_successor s).0
]

-- What an iterator that may be missing still returns.
abbrev pub items : Option (List ℕ) → List ℕ
items none = []
items (some xs) = xs

-- Strictly increasing, from `low` on.
abbrev pub Ascending : ℕ → List ℕ → Type 0
Ascending low [] = Unit
Ascending low (x ∷ xs) = (low ≤ x) × Ascending (suc x) xs

Ascending-mono : (low high : ℕ) (xs : List ℕ) → low ≤ high → Ascending high xs → Ascending low xs
Ascending-mono low high [] h a = tt
Ascending-mono low high (x ∷ xs) h a = (omega (arith, a.0), a.1)

count-Ascending : (v low : ℕ) (xs : List ℕ) → v < low → Ascending low xs → count v xs ≡ 0
count-Ascending v low [] h a = refl
count-Ascending v low (x ∷ xs) h a =
    let other : (x == v) ≡ false = ground (arith, a.0) in
    rw other (omega (arith, count-Ascending v (suc x) xs (omega (arith, a.0)) a.1))

abbrev Below : List ℕ → Type 0
Below xs = All (λ v. v < usize_max) xs

-- The first of a list, and the rest, as the iterator of the list sees them.
abbrev first : List ℕ → Option ℕ
first [] = none
first (x ∷ xs) = some x

abbrev rest : List ℕ → List ℕ
rest [] = []
rest (x ∷ xs) = xs

advance-items :
    (o : Option (List ℕ))
    → ((advance o).1 ≡ first (items o)) × (items (advance o).0 ≡ rest (items o))
unfolding advance
advance-items none = (refl, refl)
advance-items (some []) = (refl, refl)
advance-items (some (x ∷ xs)) = (refl, refl)

-- The smaller of two first nodes, and what is left of both lists.
record Step (s : Succ) (v : Option ℕ) (xs ys : List ℕ) : Type 0 where
  returns : (next_successor s).1 ≡ v
  left0 : items (next_successor s).0.iter0 ≡ xs
  left1 : items (next_successor s).0.iter1 ≡ ys

module _ (s : Succ) where
  both_next :
      peek_or_max s.iter0 ≡ peek_or_max s.iter1
      → Step s (first (items s.iter1)) (rest (items s.iter0)) (rest (items s.iter1))
  unfolding next_successor
  both_next e =
      let l : ltb (peek_or_max s.iter1) (peek_or_max s.iter0) ≡ false = ground arith in
      let m : ltb (peek_or_max s.iter0) (peek_or_max s.iter1) ≡ false = ground arith in
      record {
        returns = rw (l, m) (advance-items s.iter1).0;
        left0 = rw (l, m) (advance-items s.iter0).1;
        left1 = rw (l, m) (advance-items s.iter1).1;
      }

  left_next :
      peek_or_max s.iter0 < peek_or_max s.iter1
      → Step s (first (items s.iter0)) (rest (items s.iter0)) (items s.iter1)
  unfolding next_successor
  left_next e =
      let l : ltb (peek_or_max s.iter1) (peek_or_max s.iter0) ≡ false = ground arith in
      let m : ltb (peek_or_max s.iter0) (peek_or_max s.iter1) ≡ true = ground arith in
      record {
        returns = rw (l, m) (advance-items s.iter0).0;
        left0 = rw (l, m) (advance-items s.iter0).1;
        left1 = rw (l, m) refl;
      }

  right_next :
      peek_or_max s.iter1 < peek_or_max s.iter0
      → Step s (first (items s.iter1)) (items s.iter0) (rest (items s.iter1))
  unfolding next_successor
  right_next e =
      let l : ltb (peek_or_max s.iter1) (peek_or_max s.iter0) ≡ true = ground arith in
      record {
        returns = rw l (advance-items s.iter1).0;
        left0 = rw l refl;
        left1 = rw l (advance-items s.iter1).1;
      }

peek-cons : (o : Option (List ℕ)) (x : ℕ) (xs : List ℕ) → items o ≡ x ∷ xs → peek_or_max o ≡ x
unfolding peek_or_max
peek-cons none x xs e = cc
peek-cons (some []) x xs e = cc
peek-cons (some (y ∷ ys)) x xs e = ap (λ l. peek_or_max (some l)) e

peek-nil : (o : Option (List ℕ)) → items o ≡ [] → peek_or_max o ≡ usize_max
unfolding peek_or_max
peek-nil none e = refl
peek-nil (some []) e = refl
peek-nil (some (y ∷ ys)) e = cc

-- What the union of two lists is to be.
abbrev Merged : ℕ → List ℕ → List ℕ → List ℕ → Type 0
Merged low xs ys r = Ascending low r × ((v : ℕ) → count v r ≡ max (count v xs) (count v ys))

collect_round :
    (fuel : ℕ) (s : Succ) (v : ℕ) (xs ys : List ℕ)
    → Step s (some v) xs ys
    → collect (suc fuel) s ≡ v ∷ collect fuel (next_successor s).0
unfolding collect
collect_round fuel s v xs ys t = rw (collect, t.returns) refl

module _ (v x : ℕ) (xs ys : List ℕ) (ax : Ascending (suc x) xs) (ay : Ascending (suc x) ys) where
  count_left :
      (if x == v then 1 else 0) + max (count v xs) (count v ys)
      ≡ max (count v (x ∷ xs)) (count v ys)
  count_left = elim (Bool-cases (x == v)) [
    | inl e ↦
        let less : v < suc x = ground arith in
        rw e (omega (arith, count-Ascending v (suc x) ys less ay))
    | inr e ↦ rw e (omega arith)
  ]

  count_both :
      (if x == v then 1 else 0) + max (count v xs) (count v ys)
      ≡ max (count v (x ∷ xs)) (count v (x ∷ ys))
  count_both = omega arith

  count_right :
      (if x == v then 1 else 0) + max (count v xs) (count v ys)
      ≡ max (count v xs) (count v (x ∷ ys))
  count_right = elim (Bool-cases (x == v)) [
    | inl e ↦
        let less : v < suc x = ground arith in
        rw e (omega (arith, count-Ascending v (suc x) xs less ax))
    | inr e ↦ rw e (omega arith)
  ]

-- A step that returns `x`, and what is collected after it.
collect-cons :
    (fuel : ℕ) (s : Succ) (low x : ℕ) (xs ys xs0 ys0 : List ℕ)
    → Step s (some x) xs ys
    → low ≤ x
    → Ascending (suc x) xs
    → Ascending (suc x) ys
    → ((v : ℕ)
        → (if x == v then 1 else 0) + max (count v xs) (count v ys)
          ≡ max (count v xs0) (count v ys0))
    → Merged (suc x) xs ys (collect fuel (next_successor s).0)
    → Merged low xs0 ys0 (collect (suc fuel) s)
collect-cons fuel s low x xs ys xs0 ys0 t h ax ay counts m =
    rw (collect_round fuel s x xs ys t)
      ((h, m.0), λ v. let c = m.1 v in let d = counts v in omega (arith, c, d))

collect-Merged :
    (fuel : ℕ) (s : Succ) (low : ℕ) (xs ys : List ℕ)
    → items s.iter0 ≡ xs
    → items s.iter1 ≡ ys
    → Ascending low xs
    → Ascending low ys
    → Below xs
    → Below ys
    → length xs + length ys ≤ fuel
    → Merged low xs ys (collect fuel s)
unfolding collect
collect-Merged zero s low [] [] e0 e1 ax ay bx by f = (tt, λ v. refl)
collect-Merged (suc fuel) s low [] [] e0 e1 ax ay bx by f =
    let t = both_next s (peek-nil s.iter0 e0 ∙ sym (peek-nil s.iter1 e1)) in
    let ended : (next_successor s).1 ≡ none = rw e1 at t.returns in
    rw (collect, ended) (tt, λ v. refl)
collect-Merged zero s low (x ∷ xs) ys e0 e1 ax ay bx by f = absurd (omega (arith, f))
collect-Merged zero s low [] (y ∷ ys) e0 e1 ax ay bx by f = absurd (omega (arith, f))
collect-Merged (suc fuel) s low (x ∷ xs) [] e0 e1 ax ay bx by f =
    let t = left_next s (omega (arith, peek-cons s.iter0 x xs e0, peek-nil s.iter1 e1, bx.0)) in
    let t' : Step s (some x) xs [] = rw (e0, e1) at t in
    collect-cons fuel s low x xs [] (x ∷ xs) [] t' ax.0 ax.1 tt (λ v. count_left v x xs [] ax.1 tt)
      (collect-Merged fuel (next_successor s).0 (suc x) xs [] t'.left0 t'.left1 ax.1 tt bx.1 tt
        (omega (arith, f)))
collect-Merged (suc fuel) s low [] (y ∷ ys) e0 e1 ax ay bx by f =
    let t = right_next s (omega (arith, peek-nil s.iter0 e0, peek-cons s.iter1 y ys e1, by.0)) in
    let t' : Step s (some y) [] ys = rw (e0, e1) at t in
    collect-cons fuel s low y [] ys [] (y ∷ ys) t' ay.0 tt ay.1 (λ v. count_right v y [] ys tt ay.1)
      (collect-Merged fuel (next_successor s).0 (suc y) [] ys t'.left0 t'.left1 tt ay.1 tt by.1
        (omega (arith, f)))
collect-Merged (suc fuel) s low (x ∷ xs) (y ∷ ys) e0 e1 ax ay bx by f =
    let p0 = peek-cons s.iter0 x xs e0 in
    let p1 = peek-cons s.iter1 y ys e1 in
    elim (Bool-cases (ltb x y)) [
      | inl less ↦
          let t = left_next s (ground (arith, p0, p1)) in
          let t' : Step s (some x) xs (y ∷ ys) = rw (e0, e1) at t in
          let ay' : Ascending (suc x) (y ∷ ys) = (ground arith, ay.1) in
          collect-cons fuel s low x xs (y ∷ ys) (x ∷ xs) (y ∷ ys) t' ax.0 ax.1 ay'
            (λ v. count_left v x xs (y ∷ ys) ax.1 ay')
            (collect-Merged fuel (next_successor s).0 (suc x) xs (y ∷ ys) t'.left0 t'.left1 ax.1 ay'
              bx.1 by (omega (arith, f)))
      | inr not_less ↦ elim (Bool-cases (ltb y x)) [
        | inl greater ↦
            let t = right_next s (ground (arith, p0, p1)) in
            let t' : Step s (some y) (x ∷ xs) ys = rw (e0, e1) at t in
            let ax' : Ascending (suc y) (x ∷ xs) = (ground arith, ax.1) in
            collect-cons fuel s low y (x ∷ xs) ys (x ∷ xs) (y ∷ ys) t' ay.0 ax' ay.1
              (λ v. count_right v y (x ∷ xs) ys ax' ay.1)
              (collect-Merged fuel (next_successor s).0 (suc y) (x ∷ xs) ys t'.left0 t'.left1 ax'
                ay.1 bx by.1 (omega (arith, f)))
        | inr not_greater ↦
            let same : x ≡ y = ground arith in
            let t = both_next s (omega (arith, p0, p1, same)) in
            let t' : Step s (some y) xs ys = rw (e0, e1) at t in
            let ax' : Ascending (suc y) xs = rw same at ax.1 in
            collect-cons fuel s low y xs ys (x ∷ xs) (y ∷ ys) t' ay.0 ax' ay.1
              (λ v. rw same (count_both v y xs ys ax' ay.1))
              (collect-Merged fuel (next_successor s).0 (suc y) xs ys t'.left0 t'.left1 ax' ay.1
                bx.1 by.1 (omega (arith, f)))
      ]
    ]

-- Of two strictly increasing iterators, or iterators that are missing, below `usize::MAX`, the union's
-- iterator returns each node that one of them has, once, and no other, in strictly increasing order. As
-- many calls as both have nodes are enough: more calls return no more.
pub union_successors :
    (s : Succ) (fuel : ℕ)
    → length (items s.iter0) + length (items s.iter1) ≤ fuel
    → Ascending 0 (items s.iter0)
    → Ascending 0 (items s.iter1)
    → All (λ v. v < usize_max) (items s.iter0)
    → All (λ v. v < usize_max) (items s.iter1)
    → Ascending 0 (collect fuel s)
      × ((v : ℕ)
          → count v (collect fuel s) ≡ max (count v (items s.iter0)) (count v (items s.iter1)))
union_successors s fuel enough a0 a1 b0 b1 =
    collect-Merged fuel s 0 (items s.iter0) (items s.iter1) refl refl a0 a1 b0 b1 enough
