-- ===== src/VecGraph/FromArcs.antt =====
-- A graph that is made from a list of arcs.
use rbsc.Base.{
  ℕ, ◌+◌, ◌≤◌, ◌≡◌, refl, sym, ap, subst, ◌∙◌, ◌⊎◌, inl, inr, arith, ◌≢◌, true, false, some, List,
  [], ◌∷◌, length, All, ltb, Bool-cases,
}
use Prim.Native.Nat.{max}
use mathlib.Core.List.{Perm}
use mathlib.Core.List.Perm
use rbsc.VecGraph.{LabeledVecGraph, Triple, new, arc_le, insert_by, sort_by, from_arcs}
use rbsc.VecGraph.Content.{arcs, Counted, Before}
use rbsc.VecGraph.Insert.{Increasing, RoomFirst, nodes_of, add_sorted-Increasing}

module _ {L : Type 0} where
  -- Not the same source and target.
  abbrev pub Apart : Triple L → Triple L → Type 0
  Apart (u, v, l) (u', v', l') = (u ≢ u') ⊎ (v ≢ v')

  -- No two arcs have the same source and target.
  abbrev pub Distinct : List (Triple L) → Type 0
  Distinct [] = Unit
  Distinct (a ∷ bs) = All (Apart a) bs × Distinct bs

  Before-trans : (a b c : Triple L) → Before a b → Before b c → Before a c
  Before-trans a b c (inl h) (inl k) = inl (omega arith)
  Before-trans a b c (inl h) (inr k) = inl (omega (arith, h, k.0))
  Before-trans a b c (inr h) (inl k) = inl (omega (arith, h.0, k))
  Before-trans a b c (inr h) (inr k) = inr (h.0 ∙ k.0, omega (arith, h.1, k.1))

  pub All-Before-trans :
      (a b : Triple L) (bs : List (Triple L)) → Before a b → All (Before b) bs → All (Before a) bs
  All-Before-trans a b [] h k = tt
  All-Before-trans a b (c ∷ bs) h k = (Before-trans a b c h k.0, All-Before-trans a b bs h k.1)

  pub arc_le-Before : (a b : Triple L) → Apart a b → arc_le a b ≡ true → Before a b
  arc_le-Before (u, v, l) (u', v', l') apart e = elim (Bool-cases (ltb u u')) [
    | inl less ↦ inl (ground arith)
    | inr not_less ↦ elim (Bool-cases (ltb u' u)) [
      | inl greater ↦ absurd (ground (arith, e))
      | inr not_greater ↦
          let same : u ≡ u' = ground arith in
          let le : v ≤ v' = ground (arith, e) in
          inr (
            same,
            elim apart [ inl other ↦ absurd (other same) | inr other ↦ ground (arith, other, le) ],
          )
    ]
  ]

  pub arc_le-After : (a b : Triple L) → arc_le a b ≡ false → Before b a
  arc_le-After (u, v, l) (u', v', l') e = elim (Bool-cases (ltb u u')) [
    | inl less ↦ absurd (ground (arith, e))
    | inr not_less ↦ elim (Bool-cases (ltb u' u)) [
      | inl greater ↦ inl (ground arith)
      | inr not_greater ↦ let same : u' ≡ u = ground arith in inr (same, ground (arith, e))
    ]
  ]

  All-insert_by :
      (P : Triple L → Type 0) (a : Triple L) (bs : List (Triple L))
      → P a
      → All P bs
      → All P (insert_by arc_le a bs)
  All-insert_by P a [] h k = (h, tt)
  All-insert_by P a (b ∷ bs) h k = elim (Bool-cases (arc_le a b)) [
    | inl e ↦ rw e (h, k)
    | inr e ↦ rw e (k.0, All-insert_by P a bs h k.1)
  ]

  All-sort_by :
      (P : Triple L → Type 0) (bs : List (Triple L)) → All P bs → All P (sort_by arc_le bs)
  All-sort_by P [] k = tt
  All-sort_by P (b ∷ bs) k = All-insert_by P b (sort_by arc_le bs) k.0 (All-sort_by P bs k.1)

  insert_by-Increasing :
      (a : Triple L) (bs : List (Triple L))
      → All (Apart a) bs
      → Increasing bs
      → Increasing (insert_by arc_le a bs)
  insert_by-Increasing a [] h i = (tt, tt)
  insert_by-Increasing a (b ∷ bs) h i = elim (Bool-cases (arc_le a b)) [
    | inl e ↦
        let first = arc_le-Before a b h.0 e in rw e ((first, All-Before-trans a b bs first i.0), i)
    | inr e ↦
        rw e (
          All-insert_by (Before b) a bs (arc_le-After a b e) i.0,
          insert_by-Increasing a bs h.1 i.1,
        )
  ]

  sort_by-Increasing : (bs : List (Triple L)) → Distinct bs → Increasing (sort_by arc_le bs)
  sort_by-Increasing [] d = tt
  sort_by-Increasing (b ∷ bs) d =
      insert_by-Increasing b (sort_by arc_le bs) (All-sort_by (Apart b) bs d.0)
        (sort_by-Increasing bs d.1)

  insert_by-Perm : (a : Triple L) (bs : List (Triple L)) → Perm (a ∷ bs) (insert_by arc_le a bs)
  insert_by-Perm a [] = Perm.refl (a ∷ [])
  insert_by-Perm a (b ∷ bs) = elim (Bool-cases (arc_le a b)) [
    | inl e ↦ rw e (Perm.refl (a ∷ b ∷ bs))
    | inr e ↦ rw e (Perm.trans (Perm.swap b a bs) (Perm.cons b (insert_by-Perm a bs)))
  ]

  sort_by-Perm : (bs : List (Triple L)) → Perm bs (sort_by arc_le bs)
  sort_by-Perm [] = Perm.refl []
  sort_by-Perm (b ∷ bs) =
      Perm.trans (Perm.cons b (sort_by-Perm bs)) (insert_by-Perm b (sort_by arc_le bs))

  nodes_of-max : (bs : List (Triple L)) (n m : ℕ) → nodes_of bs (max n m) ≡ max (nodes_of bs n) m
  nodes_of-max [] n m = refl
  nodes_of-max ((u, v, l) ∷ bs) n m =
      ap (nodes_of bs) (omega arith) ∙ nodes_of-max bs (max (max n (u + 1)) (v + 1)) m

  nodes_of-insert_by :
      (a : Triple L) (bs : List (Triple L)) (n : ℕ)
      → nodes_of (insert_by arc_le a bs) n ≡ nodes_of (a ∷ bs) n
  nodes_of-insert_by a [] n = refl
  nodes_of-insert_by a (b ∷ bs) n = elim (Bool-cases (arc_le a b)) [
    | inl e ↦ rw e refl
    | inr e ↦
        rw e (
          nodes_of-insert_by a bs (max (max n (b.0 + 1)) (b.1 + 1))
          ∙ ap (nodes_of bs) (omega arith))
  ]

  nodes_of-sort_by : (bs : List (Triple L)) (n : ℕ) → nodes_of (sort_by arc_le bs) n ≡ nodes_of bs n
  nodes_of-sort_by [] n = refl
  nodes_of-sort_by (b ∷ bs) n =
      nodes_of-insert_by b (sort_by arc_le bs) n
      ∙ nodes_of-sort_by bs (max (max n (b.0 + 1)) (b.1 + 1))

  -- From arcs no two of which have the same source and target, `from_arcs` makes a graph without a panic.
  -- Its arcs are the given ones, sorted by source and target, its nodes go up to the largest node that an
  -- arc names, and the number of arcs, as a 64-bit number, is right.
  pub from_arcs-Distinct :
      (bs : List (Triple L))
      → Distinct bs
      → (g : LabeledVecGraph L) × (from_arcs bs ≡ some g)
        × Perm bs (arcs g)
        × Increasing (arcs g)
        × (length g.succ ≡ nodes_of bs 0)
        × Counted g
  unfolding from_arcs new
  from_arcs-Distinct bs d =
      let i = sort_by-Increasing bs d in
      let (g, e, same, size, counted) =
        add_sorted-Increasing (sort_by arc_le bs) new i (room (sort_by arc_le bs)) in
      (
        g,
        e,
        subst (Perm bs) (sym same) (sort_by-Perm bs),
        subst Increasing (sym same) i,
        size ∙ nodes_of-sort_by bs 0,
        counted refl,
      )
    where
      room : (cs : List (Triple L)) → RoomFirst cs new
      room [] = tt
      room (c ∷ cs) = tt
