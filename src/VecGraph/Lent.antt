-- ===== src/VecGraph/Lent.antt =====
-- A graph that is made from the sorted nodes and successors that a lender lends.
use rbsc.Base.{
  ℕ, ◌<◌, ◌≡◌, refl, sym, ap, ◌∙◌, arith, some, List, [], ◌∷◌, ◌++◌, append-nil, append_assoc,
  length, All,
}
use rbsc.VecGraph.{
  LabeledVecGraph, Triple, new, add_node, add_sorted_arcs, add_sorted_lender, from_sorted_lender,
}
use rbsc.VecGraph.Content.{arcs, tag, Counted, Before, Room}
use rbsc.VecGraph.Insert.{Increasing, arcs-add_node, add_arc-Pushed}

module _ {L : Type 0} where
  -- The arcs that are lent.
  abbrev pub lent : List (ℕ × List (ℕ × L)) → List (Triple L)
  lent [] = []
  lent ((node, succ) ∷ items) = tag node succ ++ lent items

  abbrev RoomAll : List (Triple L) → LabeledVecGraph L → Type 0
  RoomAll cs g = All (λ b. Room b.0 b.1 g.succ) cs

  RoomAll-add_node :
      (node : ℕ) (g : LabeledVecGraph L) (cs : List (Triple L))
      → RoomAll cs g
      → RoomAll cs (add_node node g).0
  RoomAll-add_node node g [] r = tt
  RoomAll-add_node node g (c ∷ cs) r =
      ((arcs-add_node node g).2 c.0 c.1 r.0, RoomAll-add_node node g cs r.1)

  RoomAll-Before :
      (a : Triple L) (g : LabeledVecGraph L) (cs : List (Triple L))
      → All (Before a) cs
      → ((b : Triple L) → Before a b → Room b.0 b.1 g.succ)
      → RoomAll cs g
  RoomAll-Before a g [] h room = tt
  RoomAll-Before a g (c ∷ cs) h room = (room c h.0, RoomAll-Before a g cs h.1 room)

  -- The successors of one node, before other arcs.
  add_sorted_arcs_lem :
      (node : ℕ) (succ : List (ℕ × L)) (cs : List (Triple L)) (g : LabeledVecGraph L)
      → node < length g.succ
      → Increasing (tag node succ ++ cs)
      → RoomAll (tag node succ ++ cs) g
      → (g' : LabeledVecGraph L) × (add_sorted_arcs node succ g ≡ some g')
        × (arcs g' ≡ arcs g ++ tag node succ)
        × Increasing cs
        × RoomAll cs g'
        × (Counted g → Counted g')
  unfolding add_sorted_arcs
  add_sorted_arcs_lem node [] cs g h i r = (g, refl, sym (append-nil (arcs g)), i, r, λ c. c)
  add_sorted_arcs_lem node ((v, l) ∷ succ) cs g h i r =
      let g1 = (add_node v g).0 in
      let (same, size, room, counted) = arcs-add_node v g in
      let (g2, e, (more, size2, counted2, room2, _)) =
        add_arc-Pushed node v l g1 (omega (arith, h, size)) (omega (arith, size))
          (room node v r.0) in
      let (g', e', more', i', r', counted') =
        add_sorted_arcs_lem node succ cs g2 (omega (arith, h, size, size2)) i.1
          (RoomAll-Before (node, v, l) g2 (tag node succ ++ cs) i.0 room2) in
      (
        g',
        rw e e',
        more'
            ∙ ap (λ (xs : List (Triple L)). xs ++ tag node succ)
                (more ∙ ap (λ (xs : List (Triple L)). xs ++ (node, v, l) ∷ []) same)
            ∙ append_assoc (arcs g) ((node, v, l) ∷ []) (tag node succ),
        i',
        r',
        λ c. counted' (counted2 (counted c)),
      )

  add_sorted_lender_lem :
      (items : List (ℕ × List (ℕ × L))) (g : LabeledVecGraph L)
      → Increasing (lent items)
      → RoomAll (lent items) g
      → (g' : LabeledVecGraph L) × (add_sorted_lender items g ≡ some g')
        × (arcs g' ≡ arcs g ++ lent items)
        × (Counted g → Counted g')
  unfolding add_sorted_lender
  add_sorted_lender_lem [] g i r = (g, refl, sym (append-nil (arcs g)), λ c. c)
  add_sorted_lender_lem ((node, succ) ∷ items) g i r =
      let g1 = (add_node node g).0 in
      let (same, size, room, counted) = arcs-add_node node g in
      let (g2, e, more, i', r', counted2) =
        add_sorted_arcs_lem node succ (lent items) g1 (omega (arith, size)) i
          (RoomAll-add_node node g (tag node succ ++ lent items) r) in
      let (g', e', more', counted') = add_sorted_lender_lem items g2 i' r' in
      (
        g',
        rw e e',
        more'
            ∙ ap (λ (xs : List (Triple L)). xs ++ lent items)
                (more ∙ ap (λ (xs : List (Triple L)). xs ++ tag node succ) same)
            ∙ append_assoc (arcs g) (tag node succ) (lent items),
        λ c. counted' (counted2 (counted c)),
      )

  room_in_new : (cs : List (Triple L)) → RoomAll cs new
  unfolding new
  room_in_new [] = tt
  room_in_new (c ∷ cs) = (tt, room_in_new cs)

  -- When the arcs that are lent increase strictly, by source and then by target, `from_sorted_lender` makes a graph without a panic, whose arcs are those lent, in the same order, and
  -- whose number of arcs, as a 64-bit number, is right.
  pub from_sorted_lender_lem :
      (items : List (ℕ × List (ℕ × L)))
      → Increasing (lent items)
      → (g : LabeledVecGraph L) × (from_sorted_lender items ≡ some g)
        × (arcs g ≡ lent items)
        × Counted g
  unfolding from_sorted_lender new
  from_sorted_lender_lem items i =
      let (g, e, same, counted) = add_sorted_lender_lem items new i (room_in_new (lent items)) in
      (g, e, same, counted refl)
