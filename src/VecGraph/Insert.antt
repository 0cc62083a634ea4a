-- ===== src/VecGraph/Insert.antt =====
-- Arcs that are added in increasing order.
use rbsc.Base.{
  ℕ, zero, suc, ◌+◌, ◌-◌, ◌<◌, ◌≡◌, refl, sym, ap, ◌∙◌, arith, false, Option, none, some, List, [],
  ◌∷◌, ◌++◌, append-nil, append_assoc, length, length-append, length-replicate, length-set,
  replicate, get_elem?, get_elem?-lt, get_elem?-set_self, leb, if◌then◌else◌, All,
}
use Prim.Native.Nat.{max}
use rbsc.VecGraph.{last, LabeledVecGraph, Triple, add_node, add_arc, push, add_sorted}
use rbsc.VecGraph.Content.{
  arcs, arcs_from-append, arcs_from-set, Counted, Before, AllEmpty-replicate, Room, Room-append,
  Room-set, Room-EndsBelow, last-append,
}

get_elem?-some_lt :
    {A : Type 0} (xs : List A) (i : ℕ) (a : A) → get_elem? xs i ≡ some a → i < length xs
get_elem?-some_lt [] i a e = cc
get_elem?-some_lt (x ∷ xs) zero a e = omega arith
get_elem?-some_lt (x ∷ xs) (suc i) a e = omega (arith, get_elem?-some_lt xs i a e)

module _ {L : Type 0} where
  -- A new node has no arcs.
  pub arcs-add_node :
      (node : ℕ) (g : LabeledVecGraph L)
      → (arcs (add_node node g).0 ≡ arcs g)
        × (length (add_node node g).0.succ ≡ max (length g.succ) (node + 1))
        × ((u v : ℕ) → Room u v g.succ → Room u v (add_node node g).0.succ)
        × (Counted g → Counted (add_node node g).0)
  unfolding add_node
  arcs-add_node node g =
      let k = node + 1 - length g.succ in
      let same = arcs_from-append 0 g.succ (replicate k []) (AllEmpty-replicate L k) in
      (
        same,
        omega (
          arith,
          length-append g.succ (replicate k []),
          length-replicate {A = List (ℕ × L)} k [],
        ),
        λ u v r. Room-append u v g.succ (replicate k []) (AllEmpty-replicate L k) r,
        λ c. rw same c,
      )

  -- The last successor of a node.
  abbrev pub Ends : ℕ → ℕ → LabeledVecGraph L → Type 0
  Ends u v g =
      (ss : List (ℕ × L)) × (l : L) × (get_elem? g.succ u ≡ some ss) × (last ss ≡ some (v, l))

  -- What holds after an arc is pushed where there is room.
  abbrev pub Pushed : Triple L → LabeledVecGraph L → LabeledVecGraph L → Type 0
  Pushed (u, v, l) g g' =
      (arcs g' ≡ arcs g ++ (u, v, l) ∷ [])
      × (length g'.succ ≡ length g.succ)
      × (Counted g → Counted g')
      × ((b : Triple L) → Before (u, v, l) b → Room b.0 b.1 g'.succ)
      × Ends u v g'

  push-Pushed :
      (u v : ℕ) (l : L) (g : LabeledVecGraph L) (ss : List (ℕ × L))
      → Room u v g.succ
      → get_elem? g.succ u ≡ some ss
      → Pushed (u, v, l) g (push u ss v l g)
  unfolding push
  push-Pushed u v l g ss r e =
      let more = arcs_from-set 0 u v l g.succ ss r e in
      let u_is : 0 + u ≡ u = omega arith in
      let more' : arcs (push u ss v l g) ≡ arcs g ++ (u, v, l) ∷ [] =
        more ∙ ap (λ (w : ℕ). arcs g ++ (w, v, l) ∷ []) u_is in
      (
        more',
        length-set g.succ u (ss ++ (v, l) ∷ []),
        λ c. rw more' (omega (arith, c, length-append (arcs g) ((u, v, l) ∷ []))),
        λ b before. Room-set u v b.0 b.1 l g.succ ss r before,
        (
          ss ++ (v, l) ∷ [],
          l,
          get_elem?-set_self g.succ u (ss ++ (v, l) ∷ []) (get_elem?-some_lt g.succ u ss e),
          last-append ss (v, l),
        ),
      )

  fits_after :
      {A : Type 0} (v : ℕ) (a : A) (o : Option (ℕ × L))
      → ((w : ℕ) (m : L) → o ≡ some (w, m) → w < v)
      → (elim o [ none ↦ some a | some (w, m) ↦ if leb v w then none else some a ]) ≡ some a
  fits_after v a none h = refl
  fits_after v a (some (w, m)) h =
      let behind : leb v w ≡ false = let b = h w m refl in ground arith in rw behind refl

  pub add_arc-Pushed :
      (u v : ℕ) (l : L) (g : LabeledVecGraph L)
      → u < length g.succ
      → v < length g.succ
      → Room u v g.succ
      → (g' : LabeledVecGraph L) × (add_arc u v l g ≡ some g') × Pushed (u, v, l) g g'
  unfolding add_arc
  add_arc-Pushed u v l g hu hv r =
      let (ss, e) = get_elem?-lt g.succ u hu in
      let inside : leb (length g.succ) (max u v) ≡ false = ground arith in
      (
        push u ss v l g,
        rw (inside, e)
            (fits_after v (push u ss v l g) (last ss) (Room-EndsBelow u v g.succ ss r e)),
        push-Pushed u v l g ss r e,
      )

  -- Each arc is behind those before it.
  abbrev pub Increasing : List (Triple L) → Type 0
  Increasing [] = Unit
  Increasing (a ∷ bs) = All (Before a) bs × Increasing bs

  abbrev pub RoomFirst : List (Triple L) → LabeledVecGraph L → Type 0
  RoomFirst [] g = Unit
  RoomFirst ((u, v, l) ∷ bs) g = Room u v g.succ

  -- The number of nodes, of which there are `n` at first.
  abbrev pub nodes_of : List (Triple L) → ℕ → ℕ
  nodes_of [] n = n
  nodes_of ((u, v, l) ∷ bs) n = nodes_of bs (max (max n (u + 1)) (v + 1))

  pub add_sorted-Increasing :
      (bs : List (Triple L)) (g : LabeledVecGraph L)
      → Increasing bs
      → RoomFirst bs g
      → (g' : LabeledVecGraph L) × (add_sorted bs g ≡ some g')
        × (arcs g' ≡ arcs g ++ bs)
        × (length g'.succ ≡ nodes_of bs (length g.succ))
        × (Counted g → Counted g')
  unfolding add_sorted
  add_sorted-Increasing [] g i r = (g, refl, sym (append-nil (arcs g)), refl, λ c. c)
  add_sorted-Increasing ((u, v, l) ∷ bs) g i r =
      let g1 = (add_node u g).0 in
      let g2 = (add_node v g1).0 in
      let (same1, size1, room1, counted1) = arcs-add_node u g in
      let (same2, size2, room2, counted2) = arcs-add_node v g1 in
      let (g3, e, (more, size3, counted, room, _)) =
        add_arc-Pushed u v l g2 (omega (arith, size1, size2)) (omega (arith, size2))
          (room2 u v (room1 u v r)) in
      let (g', e', more', size', counted') =
        add_sorted-Increasing bs g3 i.1 (first bs g3 i.0 room) in
      let n : length g3.succ ≡ max (max (length g.succ) (u + 1)) (v + 1) =
        omega (arith, size1, size2, size3) in
      (
        g',
        rw e e',
        more'
            ∙ ap (λ (xs : List (Triple L)). xs ++ bs)
                (more ∙ ap (λ (xs : List (Triple L)). xs ++ (u, v, l) ∷ []) (same2 ∙ same1))
            ∙ append_assoc (arcs g) ((u, v, l) ∷ []) bs,
        size' ∙ ap (nodes_of bs) n,
        λ c. counted' (counted (counted2 (counted1 c))),
      )
    where
      first :
          (bs : List (Triple L)) (g3 : LabeledVecGraph L)
          → All (Before (u, v, l)) bs
          → ((b : Triple L) → Before (u, v, l) b → Room b.0 b.1 g3.succ)
          → RoomFirst bs g3
      first [] g3 b room = tt
      first (a ∷ bs) g3 b room = room a b.0
