-- ===== src/CsrGraph/Lender.antt =====
-- What a user reads from the lender, who takes of each node's successors as many as they like.
use rbsc.Base.{
  ℕ, zero, suc, ◌+◌, ◌-◌, ◌≤◌, ◌≡◌, refl, ap, arith, none, some, List, [], ◌∷◌, ◌++◌, length, take,
  drop, ◌>>=◌, leb, true, false,
}
use rbsc.CsrGraph.{SliceLibrary, NodeLabels, LenderImpl, skip, next, next_successor, iter_from}
use rbsc.CsrGraph.Build.{concat, ends, of_lists}
use rbsc.CsrGraph.Access.{offset, length-ends, drop-ends, drop-concat, offset-le-length}

-- Up to `k` calls of `IteratorImpl::next`.
unfoldable pub take_successors : ℕ → LenderImpl → List ℕ × LenderImpl
unfolding next_successor
take_successors zero l = ([], l)
take_successors (suc k) l = elim (next_successor l) [
  | none ↦ ([], l)
  | some (x, l') ↦ let r = take_successors k l' in (x ∷ r.0, r.1)
]

-- Calls of `Lender::next`, with how many successors are taken after each.
unfoldable pub traverse : List ℕ → LenderImpl → List NodeLabels
unfolding next take_successors
traverse [] l = []
traverse (k ∷ ks) l = elim (next l) [
  | none ↦ []
  | some (node, l') ↦ let r = take_successors k l' in (node, r.0) ∷ traverse ks r.1
]

-- The nodes from `node` on, each with as many of its successors as are taken.
abbrev pub prefixes : ℕ → List ℕ → List (List ℕ) → List NodeLabels
prefixes node [] lists = []
prefixes node (k ∷ ks) [] = []
prefixes node (k ∷ ks) (l ∷ lists) = (node, take k l) ∷ prefixes (node + 1) ks lists

-- The lender before `node`, with what the user left of the successors before.
abbrev lender_at : ℕ → ℕ → ℕ → List ℕ → List (List ℕ) → LenderImpl
lender_at node current last left lists = record {
  node = node;
  last_offset = last;
  current_offset = current;
  offsets_iter = ends last lists;
  successors_iter = left ++ concat lists;
}

skip-left :
    (left : List ℕ) (node current last : ℕ) (lists : List (List ℕ))
    → last ≡ current + length left
    → skip (length left) (lender_at node current last left lists)
      ≡ some (lender_at node last last [] lists)
unfolding skip
skip-left [] node current last lists h = let e : current ≡ last = omega arith in rw e refl
skip-left (x ∷ left) node current last lists h =
    skip-left left node (current + 1) last lists (omega arith)

module _ (left : List ℕ) (node current last : ℕ) (h : last ≡ current + length left) where
  next-cons :
      (l : List ℕ) (lists : List (List ℕ))
      → next (lender_at node current last left (l ∷ lists))
        ≡ some (node, lender_at (node + 1) last (last + length l) l lists)
  unfolding next
  next-cons l lists =
      let rounds : last - current ≡ length left = omega arith in
      rw (rounds, skip-left left node current last (l ∷ lists) h)

  next-nil : next (lender_at node current last left []) ≡ none
  unfolding next
  next-nil =
      let rounds : last - current ≡ length left = omega arith in
      rw (rounds, skip-left left node current last [] h)

take_successors-eq-take :
    (k : ℕ) (left : List ℕ) (node current last : ℕ) (lists : List (List ℕ))
    → last ≡ current + length left
    → take_successors k (lender_at node current last left lists)
      ≡ (take k left, lender_at node (current + length (take k left)) last (drop k left) lists)
unfolding take_successors next_successor
take_successors-eq-take zero left node current last lists h =
    let e : current + 0 ≡ current = omega arith in rw e refl
take_successors-eq-take (suc k) [] node current last lists h =
    let ended : leb last current ≡ true = ground arith in
    let e : current + 0 ≡ current = omega arith in rw (take_successors, ended, e) refl
take_successors-eq-take (suc k) (x ∷ left) node current last lists h =
    let more : leb last current ≡ false = ground arith in
    let e : current + suc (length (take k left)) ≡ current + 1 + length (take k left) =
      omega arith in
    rw
      (
        take_successors,
        more,
        e,
        take_successors-eq-take k left node (current + 1) last lists (omega arith),
      )
      refl

length-take-drop : (k : ℕ) (xs : List ℕ) → length xs ≡ length (take k xs) + length (drop k xs)
length-take-drop zero xs = omega arith
length-take-drop (suc k) [] = omega arith
length-take-drop (suc k) (x ∷ xs) = omega (arith, length-take-drop k xs)

traverse-eq-prefixes :
    (ks left : List ℕ) (node current last : ℕ) (lists : List (List ℕ))
    → last ≡ current + length left
    → traverse ks (lender_at node current last left lists) ≡ prefixes node ks lists
unfolding traverse
traverse-eq-prefixes [] left node current last lists h = refl
traverse-eq-prefixes (k ∷ ks) left node current last [] h =
    rw (traverse, next-nil left node current last h) refl
traverse-eq-prefixes (k ∷ ks) left node current last (l ∷ lists) h =
    let end = last + length l in
    rw
      (
        traverse,
        next-cons left node current last h l lists,
        take_successors-eq-take k l (node + 1) last end lists refl,
      )
      (ap (◌∷◌ (node, take k l)) (
        traverse-eq-prefixes ks (drop k l) (node + 1) (last + length (take k l)) end lists
          (omega (arith, length-take-drop k l))))

pub traverse-of_lists :
    (lib : SliceLibrary) (lists : List (List ℕ)) (from : ℕ) (ks : List ℕ)
    → from ≤ length lists
    → (iter_from lib (of_lists lists) from >>= λ l. some (traverse ks l))
      ≡ some (prefixes from ks (drop from lists))
unfolding iter_from
traverse-of_lists lib lists from ks h =
    let o = offset lists from in
    let zero_add : 0 + o ≡ o = omega arith in
    let end : o ≡ o + 0 = omega arith in
    rw
      (
        lib.iter_value_from-le (0 ∷ ends 0 lists) from (omega (arith, length-ends 0 lists)),
        drop-ends 0 lists from h,
        zero_add,
        lib.iter_value_from-le (concat lists) o (offset-le-length lists from),
        drop-concat lists from h,
      )
      (ap some (traverse-eq-prefixes ks [] from o o (drop from lists) end))
