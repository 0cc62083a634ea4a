-- ===== src/CsrGraph/Access.antt =====
-- What `labels`, `outdegree` and the lender read from the graph of a list of successor lists.
use rbsc.Base.{
  ℕ, zero, suc, ◌+◌, ◌-◌, ◌≤◌, ◌<◌, ◌≡◌, refl, sym, ap, ◌∙◌, arith, some, List, [], ◌∷◌, ◌++◌,
  length, get_elem?, drop, take_append_left, drop_append_left, drop-drop, length-append,
  checked_sub-le,
}
use mathlib.Core.Option.{some-injective}
use rbsc.CsrGraph.{SliceLibrary, outdegree, labels}
use rbsc.CsrGraph.Build.{concat, ends, of_lists}

-- Where the successors of a node start.
abbrev pub offset : List (List ℕ) → ℕ → ℕ
offset lists zero = 0
offset [] (suc node) = 0
offset (l ∷ lists) (suc node) = length l + offset lists node

pub length-ends : (a : ℕ) (lists : List (List ℕ)) → length (ends a lists) ≡ length lists
length-ends a [] = refl
length-ends a (l ∷ lists) = ap suc (length-ends (a + length l) lists)

-- From a node on.
pub drop-ends :
    (a : ℕ) (lists : List (List ℕ)) (node : ℕ)
    → node ≤ length lists
    → drop node (a ∷ ends a lists)
      ≡ (a + offset lists node) ∷ ends (a + offset lists node) (drop node lists)
drop-ends a lists zero h = let e : a + 0 ≡ a = omega arith in rw e refl
drop-ends a [] (suc node) h = absurd (omega arith)
drop-ends a (l ∷ lists) (suc node) h =
    let e : a + (length l + offset lists node) ≡ a + length l + offset lists node = omega arith in
    rw e (drop-ends (a + length l) lists node (omega arith))

pub drop-concat :
    (lists : List (List ℕ)) (node : ℕ)
    → node ≤ length lists
    → drop (offset lists node) (concat lists) ≡ concat (drop node lists)
drop-concat lists zero h = refl
drop-concat [] (suc node) h = absurd (omega arith)
drop-concat (l ∷ lists) (suc node) h =
    sym (drop-drop (offset lists node) (length l) _ (l ++ concat lists) refl)
    ∙ ap (drop (offset lists node)) (drop_append_left l (concat lists) (length l) refl)
    ∙ drop-concat lists node (omega arith)

pub offset-le-length :
    (lists : List (List ℕ)) (node : ℕ) → offset lists node ≤ length (concat lists)
offset-le-length lists zero = omega arith
offset-le-length [] (suc node) = omega arith
offset-le-length (l ∷ lists) (suc node) =
    omega (arith, offset-le-length lists node, length-append l (concat lists))

pub get_elem?-ends :
    (a : ℕ) (lists : List (List ℕ)) (node : ℕ)
    → node ≤ length lists
    → get_elem? (a ∷ ends a lists) node ≡ some (a + offset lists node)
get_elem?-ends a lists zero h = let e : a + 0 ≡ a = omega arith in rw e refl
get_elem?-ends a [] (suc node) h = absurd (omega arith)
get_elem?-ends a (l ∷ lists) (suc node) h =
    let e : a + (length l + offset lists node) ≡ a + length l + offset lists node = omega arith in
    rw e (get_elem?-ends (a + length l) lists node (omega arith))

-- A node of the graph, with its list.
pub get_elem?-some-lt :
    (lists : List (List ℕ)) (node : ℕ) (l : List ℕ)
    → get_elem? lists node ≡ some l
    → node < length lists
get_elem?-some-lt [] node l e = cc
get_elem?-some-lt (x ∷ lists) zero l e = omega arith
get_elem?-some-lt (x ∷ lists) (suc node) l e = omega (arith, get_elem?-some-lt lists node l e)

pub offset-suc :
    (lists : List (List ℕ)) (node : ℕ) (l : List ℕ)
    → get_elem? lists node ≡ some l
    → offset lists (suc node) ≡ offset lists node + length l
offset-suc [] node l e = cc
offset-suc (x ∷ lists) zero l e = omega (arith, ap length (some-injective x l e))
offset-suc (x ∷ lists) (suc node) l e = omega (arith, offset-suc lists node l e)

pub concat-drop :
    (lists : List (List ℕ)) (node : ℕ) (l : List ℕ)
    → get_elem? lists node ≡ some l
    → concat (drop node lists) ≡ l ++ concat (drop (suc node) lists)
concat-drop [] node l e = cc
concat-drop (x ∷ lists) zero l e = ap (λ y. y ++ concat lists) (some-injective x l e)
concat-drop (x ∷ lists) (suc node) l e = concat-drop lists node l e

module _ (lib : SliceLibrary) (lists : List (List ℕ)) (node : ℕ) (l : List ℕ)
    (e : get_elem? lists node ≡ some l) where
  dcf_at : (i : ℕ) → i ≤ length lists → lib.index_value (0 ∷ ends 0 lists) i ≡ some (offset lists i)
  dcf_at i h =
      let zero_add : 0 + offset lists i ≡ offset lists i = omega arith in
      lib.index_value-lt (0 ∷ ends 0 lists) i (omega (arith, length-ends 0 lists))
      ∙ get_elem?-ends 0 lists i h
      ∙ ap some zero_add

  pub outdegree-of_lists : outdegree lib (of_lists lists) node ≡ some (length l)
  unfolding outdegree
  outdegree-of_lists =
      let bound = get_elem?-some-lt lists node l e in
      let next : node + 1 ≡ suc node = omega arith in
      let degree : offset lists (suc node) - offset lists node ≡ length l =
        omega (arith, offset-suc lists node l e) in
      rw (
        next,
        dcf_at (suc node) (omega arith),
        dcf_at node (omega arith),
        checked_sub-le (offset lists (suc node)) (offset lists node)
            (omega (arith, offset-suc lists node l e)),
        degree,
      )

  pub labels-of_lists : labels lib (of_lists lists) node ≡ some l
  unfolding labels
  labels-of_lists =
      let bound = get_elem?-some-lt lists node l e in
      let next : node + 1 ≡ suc node = omega arith in
      let degree : offset lists (suc node) - offset lists node ≡ length l =
        omega (arith, offset-suc lists node l e) in
      rw (
        next,
        dcf_at (suc node) (omega arith),
        dcf_at node (omega arith),
        lib.iter_value_from-le (concat lists) (offset lists node) (offset-le-length lists node),
        checked_sub-le (offset lists (suc node)) (offset lists node)
            (omega (arith, offset-suc lists node l e)),
        degree,
        drop-concat lists node (omega arith),
        concat-drop lists node l e,
        take_append_left l (concat (drop (suc node) lists)) (length l) refl,
      )
