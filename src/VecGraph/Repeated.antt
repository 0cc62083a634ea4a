-- ===== src/VecGraph/Repeated.antt =====
-- Arcs with the same source and target.
use rbsc.Base.{
  ◌==◌, ℕ, zero, suc, ◌+◌, ◌-◌, ◌≡◌, refl, sym, ap, subst, ◌∙◌, ◌⊎◌, inl, inr, arith, true, Option,
  none, some, List, [], ◌∷◌, ◌++◌, length, All, leb, replicate, get_elem?, if◌then◌else◌,
  Bool-cases,
}
use Prim.Native.Nat.{max}
use rbsc.VecGraph.{
  LabeledVecGraph, Triple, new, arc_le, insert_by, sort_by, from_arcs, add_sorted, add_arc,
  add_node, push,
}
use rbsc.VecGraph.Content.{Before}
use rbsc.VecGraph.Insert.{Increasing, RoomFirst, Ends, arcs-add_node, add_arc-Pushed}
use rbsc.VecGraph.FromArcs.{Apart, Distinct, All-Before-trans, arc_le-Before, arc_le-After}

get-append :
    {A : Type 0} (xs ys : List A) (i : ℕ) (a : A)
    → get_elem? xs i ≡ some a
    → get_elem? (xs ++ ys) i ≡ some a
get-append [] ys i a e = cc
get-append (x ∷ xs) ys zero a e = e
get-append (x ∷ xs) ys (suc i) a e = get-append xs ys i a e

none-or-some : {A : Type 0} (o : Option A) → (o ≡ none) ⊎ ((a : A) × (o ≡ some a))
none-or-some none = inl refl
none-or-some (some a) = inr (a, refl)

module _ {L : Type 0} where
  Ends-add_node : (node u v : ℕ) (g : LabeledVecGraph L) → Ends u v g → Ends u v (add_node node g).0
  unfolding add_node
  Ends-add_node node u v g (ss, l, e, f) =
      (ss, l, get-append g.succ (replicate (node + 1 - length g.succ) []) u ss e, f)

  -- A repeated arc panics.
  add_arc-none : (u v : ℕ) (l : L) (g : LabeledVecGraph L) → Ends u v g → add_arc u v l g ≡ none
  unfolding add_arc
  add_arc-none u v l g (ss, m, e, f) = elim (Bool-cases (leb (length g.succ) (max u v))) [
    | inl outside ↦ rw outside refl
    | inr inside ↦
        let behind : leb v v ≡ true = ground arith in
        rw (inside, e)
          (ap
              (λ (o : Option (ℕ × L)). elim o [
                | none ↦ some (push u ss v l g)
                | some (w, k) ↦ if leb v w then none else some (push u ss v l g)
              ])
              f
            ∙ (rw behind refl))
  ]

  add_sorted-none :
      (u v : ℕ) (l : L) (bs : List (Triple L)) (g : LabeledVecGraph L)
      → Ends u v g
      → add_sorted ((u, v, l) ∷ bs) g ≡ none
  unfolding add_sorted
  add_sorted-none u v l bs g h =
      let again = Ends-add_node v u v (add_node u g).0 (Ends-add_node u u v g h) in
      rw (add_arc-none u v l (add_node v (add_node u g).0).0 again) refl

  -- In order, arcs with the same source and target next to each other.
  abbrev HeadLe : Triple L → List (Triple L) → Type 0
  HeadLe c [] = Unit
  HeadLe c (b ∷ bs) = arc_le c b ≡ true

  abbrev LeSorted : List (Triple L) → Type 0
  LeSorted [] = Unit
  LeSorted (b ∷ bs) = HeadLe b bs × LeSorted bs

  Before-arc_le : (a b : Triple L) → Before a b → arc_le a b ≡ true
  Before-arc_le a b (inl h) = ground arith
  Before-arc_le a b (inr h) = let e = h.0 in let k = h.1 in ground arith

  insert_by-LeSorted :
      (a : Triple L) (bs : List (Triple L))
      → LeSorted bs
      → LeSorted (insert_by arc_le a bs)
        × ((c : Triple L) → arc_le c a ≡ true → HeadLe c bs → HeadLe c (insert_by arc_le a bs))
  insert_by-LeSorted a [] s = ((tt, tt), λ c e h. e)
  insert_by-LeSorted a (b ∷ bs) s = elim (Bool-cases (arc_le a b)) [
    | inl le ↦ rw le ((le, s), λ c e h. e)
    | inr after ↦
        let rest = insert_by-LeSorted a bs s.1 in
        let b_le : arc_le b a ≡ true = Before-arc_le b a (arc_le-After a b after) in
        rw after ((rest.1 b b_le s.0, rest.0), λ c e h. h)
  ]

  sort_by-LeSorted : (bs : List (Triple L)) → LeSorted (sort_by arc_le bs)
  sort_by-LeSorted [] = tt
  sort_by-LeSorted (b ∷ bs) = (insert_by-LeSorted b (sort_by arc_le bs) (sort_by-LeSorted bs)).0

  same_key : (a b : Triple L) → Apart a b ⊎ ((a.0 ≡ b.0) × (a.1 ≡ b.1))
  same_key a b = elim (Bool-cases (a.0 == b.0)) [
    | inr e ↦ inl (inl (λ h. ground arith))
    | inl e ↦ elim (Bool-cases (a.1 == b.1)) [
      | inr f ↦ inl (inr (λ h. ground arith))
      | inl f ↦ inr (ground arith, ground arith)
    ]
  ]

  add_sorted-some :
      (bs : List (Triple L)) (g g' : LabeledVecGraph L)
      → LeSorted bs
      → RoomFirst bs g
      → add_sorted bs g ≡ some g'
      → Increasing bs
  unfolding add_sorted
  add_sorted-some [] g g' s r e = tt
  add_sorted-some (a ∷ []) g g' s r e = (tt, tt)
  add_sorted-some ((u, v, l) ∷ b ∷ bs) g g' s r e =
      let g1 = (add_node u g).0 in
      let g2 = (add_node v g1).0 in
      let (same1, size1, room1, counted1) = arcs-add_node u g in
      let (same2, size2, room2, counted2) = arcs-add_node v g1 in
      let (g3, e3, (more, size3, counted, room, ends)) =
        add_arc-Pushed u v l g2 (omega (arith, size1, size2)) (omega (arith, size2))
          (room2 u v (room1 u v r)) in
      let after : add_sorted (b ∷ bs) g3 ≡ some g' = rw e3 at e in
      elim (same_key (u, v, l) b) [
        | inl apart ↦
            let first = arc_le-Before (u, v, l) b apart s.0 in
            let rest = add_sorted-some (b ∷ bs) g3 g' s.1 (room b first) after in
            ((first, All-Before-trans (u, v, l) b bs first rest.0), rest)
        | inr (eu, ev) ↦
            let ends' : Ends b.0 b.1 g3 =
              subst (λ (w : ℕ). Ends b.0 w g3) ev (subst (λ (w : ℕ). Ends w v g3) eu ends) in
            let panic : add_sorted (b ∷ bs) g3 ≡ none = add_sorted-none b.0 b.1 b.2 bs g3 ends' in
            cc
      ]

  Before-Apart : (a b : Triple L) → Before a b → Apart a b
  Before-Apart a b (inl h) = inl (λ e. omega arith)
  Before-Apart a b (inr h) = let k = h.1 in inr (λ e. omega arith)

  Apart-sym : (a b : Triple L) → Apart a b → Apart b a
  Apart-sym a b (inl h) = inl (λ e. h (sym e))
  Apart-sym a b (inr h) = inr (λ e. h (sym e))

  All-Before-Apart : (a : Triple L) (bs : List (Triple L)) → All (Before a) bs → All (Apart a) bs
  All-Before-Apart a [] h = tt
  All-Before-Apart a (b ∷ bs) h = (Before-Apart a b h.0, All-Before-Apart a bs h.1)

  Increasing-Distinct : (bs : List (Triple L)) → Increasing bs → Distinct bs
  Increasing-Distinct [] i = tt
  Increasing-Distinct (b ∷ bs) i = (All-Before-Apart b bs i.0, Increasing-Distinct bs i.1)

  All-insert_by-inv :
      (P : Triple L → Type 0) (a : Triple L) (bs : List (Triple L))
      → All P (insert_by arc_le a bs)
      → P a × All P bs
  All-insert_by-inv P a [] h = h
  All-insert_by-inv P a (b ∷ bs) h = elim (Bool-cases (arc_le a b)) [
    | inl e ↦ rw e at h
    | inr e ↦
        let h' : P b × All P (insert_by arc_le a bs) = rw e at h in
        let rest = All-insert_by-inv P a bs h'.1 in (rest.0, (h'.0, rest.1))
  ]

  Distinct-insert_by :
      (a : Triple L) (bs : List (Triple L)) → Distinct (insert_by arc_le a bs) → Distinct (a ∷ bs)
  Distinct-insert_by a [] d = d
  Distinct-insert_by a (b ∷ bs) d = elim (Bool-cases (arc_le a b)) [
    | inl e ↦ rw e at d
    | inr e ↦
        let d' : All (Apart b) (insert_by arc_le a bs) × Distinct (insert_by arc_le a bs) =
          rw e at d in
        let apart = All-insert_by-inv (Apart b) a bs d'.0 in
        let rest = Distinct-insert_by a bs d'.1 in
        ((Apart-sym b a apart.0, rest.0), (apart.1, rest.1))
  ]

  Distinct-sort_by : (bs : List (Triple L)) → Distinct (sort_by arc_le bs) → Distinct bs
  Distinct-sort_by [] d = tt
  Distinct-sort_by (b ∷ bs) d =
      let d' = Distinct-insert_by b (sort_by arc_le bs) d in
      (spread b bs d'.0, Distinct-sort_by bs d'.1)
    where
      spread :
          (b : Triple L) (bs : List (Triple L))
          → All (Apart b) (sort_by arc_le bs)
          → All (Apart b) bs
      spread b [] h = tt
      spread b (c ∷ cs) h =
          let both = All-insert_by-inv (Apart b) c (sort_by arc_le cs) h in
          (both.0, spread b cs both.1)

  -- When two of the arcs have the same source and target, `from_arcs` panics.
  pub from_arcs-none : (bs : List (Triple L)) → ¬ Distinct bs → from_arcs bs ≡ none
  unfolding from_arcs new
  from_arcs-none bs repeated = elim (none-or-some (from_arcs bs)) [
    | inl e ↦ e
    | inr (g, e) ↦
        let sorted = sort_by arc_le bs in
        let increasing = add_sorted-some sorted new g (sort_by-LeSorted bs) (room sorted) e in
        absurd (repeated (Distinct-sort_by bs (Increasing-Distinct sorted increasing)))
  ]
    where
      room : (cs : List (Triple L)) → RoomFirst cs new
      room [] = tt
      room (c ∷ cs) = tt
