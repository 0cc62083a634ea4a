-- ===== src/Tests/Components.antt =====
-- Runs of the sizes of components, with an insertion sort for the sort of the standard library.
use rbsc.Base.{
  ℕ, ◌≤◌, ◌<◌, ◌≡◌, refl, inl, inr, arith, some, List, [], ◌∷◌, length, get_elem?, leb, All,
  if◌then◌else◌, Bool-cases,
}
use mathlib.Core.List.{Permᴰ}
use rbsc.DepthFirst.Invariant.{count}
use rbsc.Sccs.{Sccs, SortUnstable, DescendingBy, compute_sizes, sort_by_size}
use rbsc.Sccs.Orders.{Descending, keys}
use rbsc.Sccs.Sizes.{compute_sizes_lem}
use rbsc.Sccs.Renumber.{sort_by_size_lem}

abbrev insert_key : (ℕ → ℕ) → ℕ → List ℕ → List ℕ
insert_key key x [] = x ∷ []
insert_key key x (y ∷ ys) = if leb (key y) (key x) then x ∷ y ∷ ys else y ∷ insert_key key x ys

abbrev sort_key : (ℕ → ℕ) → List ℕ → List ℕ
sort_key key [] = []
sort_key key (x ∷ xs) = insert_key key x (sort_key key xs)

same_list : (xs : List ℕ) → Permᴰ xs xs
same_list [] = Permᴰ.nil
same_list (x ∷ xs) = Permᴰ.cons refl (same_list xs)

insert_key-Permᴰ : (key : ℕ → ℕ) (x : ℕ) (xs : List ℕ) → Permᴰ (x ∷ xs) (insert_key key x xs)
insert_key-Permᴰ key x [] = same_list (x ∷ [])
insert_key-Permᴰ key x (y ∷ ys) = elim (Bool-cases (leb (key y) (key x))) [
  | inl e ↦ rw e (same_list (x ∷ y ∷ ys))
  | inr e ↦
      rw e
        (Permᴰ.trans (Permᴰ.swap {l = ys} refl refl) (Permᴰ.cons refl (insert_key-Permᴰ key x ys)))
]

sort_key-Permᴰ : (key : ℕ → ℕ) (xs : List ℕ) → Permᴰ xs (sort_key key xs)
sort_key-Permᴰ key [] = Permᴰ.nil
sort_key-Permᴰ key (x ∷ xs) =
    Permᴰ.trans (Permᴰ.cons refl (sort_key-Permᴰ key xs)) (insert_key-Permᴰ key x (sort_key key xs))

bounded_by :
    (key : ℕ → ℕ) (m k : ℕ) (xs : List ℕ)
    → m ≤ k
    → All (λ y. key y ≤ m) xs
    → All (λ y. key y ≤ k) xs
bounded_by key m k [] h a = tt
bounded_by key m k (x ∷ xs) h a = (omega (arith, h, a.0), bounded_by key m k xs h a.1)

insert_key_bounded :
    (key : ℕ → ℕ) (m x : ℕ) (xs : List ℕ)
    → key x ≤ m
    → All (λ y. key y ≤ m) xs
    → All (λ y. key y ≤ m) (insert_key key x xs)
insert_key_bounded key m x [] h a = (h, tt)
insert_key_bounded key m x (y ∷ ys) h a = elim (Bool-cases (leb (key y) (key x))) [
  | inl e ↦ rw e (h, a)
  | inr e ↦ rw e (a.0, insert_key_bounded key m x ys h a.1)
]

insert_key-DescendingBy :
    (key : ℕ → ℕ) (x : ℕ) (xs : List ℕ)
    → DescendingBy key xs
    → DescendingBy key (insert_key key x xs)
insert_key-DescendingBy key x [] d = (tt, tt)
insert_key-DescendingBy key x (y ∷ ys) d = elim (Bool-cases (leb (key y) (key x))) [
  | inl e ↦
      let le : key y ≤ key x = ground arith in
      rw e ((le, bounded_by key (key y) (key x) ys le d.0), d)
  | inr e ↦
      rw e (
        insert_key_bounded key (key y) x ys (ground arith) d.0,
        insert_key-DescendingBy key x ys d.1,
      )
]

sort_key-DescendingBy : (key : ℕ → ℕ) (xs : List ℕ) → DescendingBy key (sort_key key xs)
sort_key-DescendingBy key [] = tt
sort_key-DescendingBy key (x ∷ xs) =
    insert_key-DescendingBy key x (sort_key key xs) (sort_key-DescendingBy key xs)

abbrev insertion_sort : SortUnstable
insertion_sort = record {
  sort_unstable_by = sort_key;
  permutes = sort_key-Permᴰ;
  descends = sort_key-DescendingBy;
}

abbrev four_nodes : Sccs
four_nodes = record { num_components = 2; components = 1 ∷ 1 ∷ 0 ∷ 1 ∷ [] }

four_nodes_inside : All (λ c. c < 2) (1 ∷ 1 ∷ 0 ∷ 1 ∷ [])
four_nodes_inside = (omega arith, (omega arith, (omega arith, (omega arith, tt))))

sorted_four :
    sort_by_size insertion_sort four_nodes
    ≡ some (record { num_components = 2; components = 0 ∷ 0 ∷ 1 ∷ 0 ∷ [] }, 3 ∷ 1 ∷ [])
unfolding sort_by_size
sorted_four = refl

compute_sizes_lem_example :
    (sizes : List ℕ) × (compute_sizes four_nodes ≡ some sizes)
    × (length sizes ≡ 2)
    × ((c : ℕ) → c < 2 → get_elem? sizes c ≡ some (count c (1 ∷ 1 ∷ 0 ∷ 1 ∷ [])))
compute_sizes_lem_example = compute_sizes_lem four_nodes four_nodes_inside

sort_by_size_lem_example :
    (s' : Sccs) × (sizes : List ℕ) × (to : ℕ → ℕ) × (sort_by_size insertion_sort four_nodes
      ≡ some (s', sizes))
    × (s'.num_components ≡ 2)
    × (s'.components ≡ keys to (1 ∷ 1 ∷ 0 ∷ 1 ∷ []))
    × All (λ c. c < 2) s'.components
    × ((c d : ℕ) → c < 2 → d < 2 → to c ≡ to d → c ≡ d)
    × (compute_sizes s' ≡ some sizes)
    × Descending sizes
sort_by_size_lem_example = sort_by_size_lem insertion_sort four_nodes four_nodes_inside
