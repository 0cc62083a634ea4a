-- ===== src/Base/Sorting.antt =====
-- Sorting of node lists, ascending lists without repetitions, and shuffles of two lists.
use Prim.Native.Nat.{ℕ, suc, ◌+◌, ◌≤◌}
use mathlib.Core.Path.{◌≡◌, refl, ap, ◌∙◌}
use mathlib.Core.List.{List, [], ◌∷◌, ◌++◌}
use native.Mathlib.Omega.{arith}
use rbsc.Base.Tests.{leb, if◌then◌else◌, Bool-cases}
use mathlib.Core.Logic.{inl, inr}
use rbsc.Base.Lists.{length, All}

unfoldable pub insert : ℕ → List ℕ → List ℕ
insert x [] = x ∷ []
insert x (y ∷ ys) = if leb x y then x ∷ y ∷ ys else y ∷ insert x ys

-- `sort` of the standard library's slices, at numbers.
unfoldable pub sort : List ℕ → List ℕ
unfolding insert
sort [] = []
sort (x ∷ xs) = insert x (sort xs)

insert_comm : (x y : ℕ) (l : List ℕ) → insert x (insert y l) ≡ insert y (insert x l)
unfolding insert
insert_comm x y [] = ground arith
insert_comm x y (z ∷ l) = ground (arith, insert_comm x y l)

sort_middle : (xs : List ℕ) (y : ℕ) (ys : List ℕ) → sort (xs ++ y ∷ ys) ≡ insert y (sort (xs ++ ys))
unfolding sort
sort_middle [] y ys = refl
sort_middle (x ∷ xs) y ys = rw (sort_middle xs y ys) (insert_comm x y (sort (xs ++ ys)))

-- Strictly increasing, with all elements at least `lo`.
abbrev pub Ascending : ℕ → List ℕ → Type 0
Ascending lo [] = Unit {0}
Ascending lo (x ∷ xs) = (lo ≤ x) × Ascending (suc x) xs

pub Ascending-le : (lo hi : ℕ) (xs : List ℕ) → lo ≤ hi → Ascending hi xs → Ascending lo xs
Ascending-le lo hi [] h a = tt
Ascending-le lo hi (x ∷ xs) h a = (omega arith, a.1)

insert-Ascending : (x : ℕ) (xs : List ℕ) → Ascending (suc x) xs → insert x xs ≡ x ∷ xs
unfolding insert
insert-Ascending x [] a = refl
insert-Ascending x (y ∷ ys) a = ground arith

pub sort-Ascending : (lo : ℕ) (xs : List ℕ) → Ascending lo xs → sort xs ≡ xs
unfolding sort
sort-Ascending lo [] a = refl
sort-Ascending lo (x ∷ xs) a = rw (sort-Ascending (suc x) xs a.1) (insert-Ascending x xs a.1)

-- `Interleave xs ys zs`: `zs` is a shuffle of `xs` and `ys` that keeps the order of each.
pub data Interleave : List ℕ → List ℕ → List ℕ → Type 0 where
  done : Interleave [] [] []
  left : {xs ys zs : List ℕ} (x : ℕ) → Interleave xs ys zs → Interleave (x ∷ xs) ys (x ∷ zs)
  right : {xs ys zs : List ℕ} (y : ℕ) → Interleave xs ys zs → Interleave xs (y ∷ ys) (y ∷ zs)

pub sort-Interleave : {xs ys zs : List ℕ} → Interleave xs ys zs → sort (xs ++ ys) ≡ sort zs
unfolding sort
sort-Interleave done = refl
sort-Interleave (left x i) = ap (insert x) (sort-Interleave i)
sort-Interleave (right {xs} {ys} y i) = sort_middle xs y ys ∙ ap (insert y) (sort-Interleave i)

sort-append_right : (xs ys zs : List ℕ) → sort ys ≡ sort zs → sort (xs ++ ys) ≡ sort (xs ++ zs)
unfolding sort
sort-append_right [] ys zs e = e
sort-append_right (x ∷ xs) ys zs e = ap (insert x) (sort-append_right xs ys zs e)

-- A list that is shuffled from `xs` and a shuffle of `as` and `bs` is the sorted concatenation.
pub sort-three :
    {xs ys as' bs zs : List ℕ} (lo : ℕ)
    → Interleave xs ys zs
    → Interleave as' bs ys
    → Ascending lo zs
    → sort (xs ++ (as' ++ bs)) ≡ zs
sort-three {xs} {ys} {as'} {bs} {zs} lo i j a =
    sort-append_right xs (as' ++ bs) ys (sort-Interleave j)
    ∙ sort-Interleave i
    ∙ sort-Ascending lo zs a

pub Interleave-Ascending_right :
    {xs ys zs : List ℕ} (lo : ℕ) → Interleave xs ys zs → Ascending lo zs → Ascending lo ys
Interleave-Ascending_right lo done a = tt
Interleave-Ascending_right lo (left {ys} x i) a =
    Ascending-le lo (suc x) ys (omega arith) (Interleave-Ascending_right (suc x) i a.1)
Interleave-Ascending_right lo (right y i) a = (a.0, Interleave-Ascending_right (suc y) i a.1)

pub Interleave-length :
    {xs ys zs : List ℕ} → Interleave xs ys zs → length xs + length ys ≡ length zs
Interleave-length done = refl
Interleave-length (left x i) = omega (arith, Interleave-length i)
Interleave-length (right y i) = omega (arith, Interleave-length i)

pub Interleave-All_left {κ} :
    {xs ys zs : List ℕ} (P : ℕ → Type κ) → Interleave xs ys zs → All P zs → All P xs
Interleave-All_left P done a = tt
Interleave-All_left P (left x i) a = (a.0, Interleave-All_left P i a.1)
Interleave-All_left P (right y i) a = Interleave-All_left P i a.1

pub Interleave-All_right {κ} :
    {xs ys zs : List ℕ} (P : ℕ → Type κ) → Interleave xs ys zs → All P zs → All P ys
Interleave-All_right P done a = tt
Interleave-All_right P (left x i) a = Interleave-All_right P i a.1
Interleave-All_right P (right y i) a = (a.0, Interleave-All_right P i a.1)

-- With nothing to copy, a list is the shuffle of itself.
pub Interleave-nil_left : (zs : List ℕ) → Interleave [] zs zs
Interleave-nil_left [] = done
Interleave-nil_left (z ∷ zs) = right z (Interleave-nil_left zs)

length-insert : (x : ℕ) (xs : List ℕ) → length (insert x xs) ≡ suc (length xs)
unfolding insert
length-insert x [] = refl
length-insert x (y ∷ ys) = elim (Bool-cases (leb x y)) [
  | inl e ↦ rw e refl
  | inr e ↦ rw e (ap suc (length-insert x ys))
]

pub length-sort : (xs : List ℕ) → length (sort xs) ≡ length xs
unfolding sort
length-sort [] = refl
length-sort (x ∷ xs) = length-insert x (sort xs) ∙ ap suc (length-sort xs)
