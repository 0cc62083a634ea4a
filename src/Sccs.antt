-- ===== src/Sccs.antt =====
-- webgraph-rs/algo/src/sccs/mod.rs: strongly connected components by their index, and their sizes.
--
-- `none` is a panic.
pub mod Sizes
pub mod Orders
pub mod Invert
pub mod Renumber
use rbsc.Base.{
  ℕ, zero, suc, ◌+◌, ◌≤◌, Bool, Option, none, some, List, [], ◌∷◌, length, replicate, range,
  get_elem?, set, ltb, leb, All, if◌then◌else◌, ◌>>=◌,
}
use mathlib.Core.List.{Permᴰ}
use rbsc.VecGraph.{sort_by}

pub record Sccs : Type 0 where
  pub num_components : ℕ
  pub components : List ℕ

-- By decreasing keys.
abbrev pub DescendingBy : (ℕ → ℕ) → List ℕ → Type 0
DescendingBy key [] = Unit
DescendingBy key (x ∷ xs) = All (λ y. key y ≤ key x) xs × DescendingBy key xs

-- `sort_unstable_by(|&x, &y| key(y).cmp(&key(x)))` of the standard library, which leaves open how
-- elements with the same key are ordered.
pub record SortUnstable : Type 0 where
  pub sort_unstable_by : (ℕ → ℕ) → List ℕ → List ℕ
  pub permutes : (key : ℕ → ℕ) (xs : List ℕ) → Permᴰ xs (sort_unstable_by key xs)
  pub descends : (key : ℕ → ℕ) (xs : List ℕ) → DescendingBy key (sort_unstable_by key xs)

-- `for &node_component in self.components() { sizes[node_component] += 1; }`
unfoldable pub add_sizes : List ℕ → List ℕ → Option (List ℕ)
add_sizes [] sizes = some sizes
add_sizes (c ∷ components) sizes =
    get_elem? sizes c >>= λ n. add_sizes components (set sizes c (n + 1))

unfoldable pub compute_sizes : Sccs → Option (List ℕ)
unfolding add_sizes
compute_sizes s = add_sizes s.components (replicate s.num_components 0)

-- `sort_perm.iter().enumerate().for_each(|(i, &x)| inv_perm[x] = i)`, from `i` on.
unfoldable pub invert : ℕ → List ℕ → List ℕ → Option (List ℕ)
invert i [] inv_perm = some inv_perm
invert i (x ∷ sort_perm) inv_perm =
    if ltb x (length inv_perm) then invert (suc i) sort_perm (set inv_perm x i) else none

-- `*node_component = inv_perm[*node_component]` for all nodes.
unfoldable pub renumber : List ℕ → List ℕ → Option (List ℕ)
renumber inv_perm [] = some []
renumber inv_perm (c ∷ components) = do
  d ← get_elem? inv_perm c
  ds ← renumber inv_perm components
  some (d ∷ ds)

-- `sizes[x]`, where the index is never out of range.
abbrev pub size_of : List ℕ → ℕ → ℕ
size_of sizes x = elim (get_elem? sizes x) [ none ↦ 0 | some n ↦ n ]

-- The components after the call, and what it returns.
unfoldable pub sort_by_size : SortUnstable → Sccs → Option (Sccs × List ℕ)
unfolding compute_sizes invert renumber
sort_by_size std s = do
  sizes ← compute_sizes s
  inv_perm ←
      invert 0 (std.sort_unstable_by (size_of sizes) (range 0 (length sizes)))
        (replicate (length sizes) 0)
  components ← renumber inv_perm s.components
  some (record s { components = components }, sort_by (λ x y. leb y x) sizes)
