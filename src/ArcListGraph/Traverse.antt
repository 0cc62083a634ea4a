-- ===== src/ArcListGraph/Traverse.antt =====
-- The nodes and successors that the lender of a sorted list of arcs lends.
use rbsc.Base.{
  ℕ, zero, suc, ◌+◌, ◌-◌, ◌%◌, ◌^◌, ◌≤◌, ◌<◌, ◌≡◌, refl, ap, ap₂, subst, ◌∙◌, arith, true, false,
  none, some, List, [], ◌∷◌, take, ◌==◌,
}
use rbsc.ArcListGraph.{ArcListGraph, usize_max, next, advance, iter_from, new_iter}
use rbsc.ArcListGraph.Lender.{
  traverse, targets, prefixes, InOrder, at, drop_below, drop_taken, skip-next_or_max,
  InOrder-drop_below, targets-drop_below, InOrder-drop_taken, targets-drop_taken,
  take_successors-at,
}

module _ {L : Type 0} where
  -- The lender is before the node `c` of `n`, and still has the successors from there on.
  record Ahead (arcs : List (ℕ × ℕ × L)) (n c curr : ℕ) (pending : List (ℕ × ℕ × L)) : Type 0 where
    wraps : (curr + 1) % 2 ^ 64 ≡ c
    low : ℕ
    order : InOrder low pending
    agrees : (w : ℕ) → c ≤ w → targets w pending ≡ targets w arcs

  prefixes-agree :
      (n v : ℕ) (ks : List ℕ) (xs ys : List (ℕ × ℕ × L))
      → ((w : ℕ) → v ≤ w → targets w xs ≡ targets w ys)
      → prefixes n v ks xs ≡ prefixes n v ks ys
  prefixes-agree n v [] xs ys h = refl
  prefixes-agree zero v (k ∷ ks) xs ys h = refl
  prefixes-agree (suc n) v (k ∷ ks) xs ys h =
      ap₂ (λ a b. (v, take k a) ∷ b) (h v (omega arith))
        (prefixes-agree n (suc v) ks xs ys (λ w l. h w (omega arith)))

  module _ (arcs : List (ℕ × ℕ × L)) (n c curr : ℕ) (pending : List (ℕ × ℕ × L))
      (small : n ≤ usize_max) (a : Ahead arcs n c curr pending) where
    next-at : c < n → next (at n curr pending) ≡ (at n c (drop_below c pending), some c)
    unfolding next
    next-at h =
        let w = a.wraps in
        let more : (c == n) ≡ false = ground arith in
        rw (w, more, skip-next_or_max c pending (omega arith)) refl

    ends_at : c ≡ n → (next (at n curr pending)).1 ≡ none
    unfolding next
    ends_at h = let w = a.wraps in let ended : (c == n) ≡ true = ground arith in rw (w, ended) refl

    Ahead-next : (k : ℕ) → c < n → Ahead arcs n (suc c) c (drop_taken k c (drop_below c pending))
    Ahead-next k h = record {
      wraps = omega arith;
      low = c;
      order =
          InOrder-drop_taken k c c (drop_below c pending)
            (InOrder-drop_below c a.low pending a.order);
      agrees = λ w l.
          targets-drop_taken k c w (drop_below c pending) l
          ∙ targets-drop_below c w pending (omega arith)
          ∙ a.agrees w (omega arith);
    }

  traverse-at :
      (arcs : List (ℕ × ℕ × L)) (n c curr : ℕ) (ks : List ℕ) (pending : List (ℕ × ℕ × L)) (m : ℕ)
      → n ≤ usize_max
      → c + m ≡ n
      → Ahead arcs n c curr pending
      → traverse ks (at n curr pending) ≡ prefixes m c ks arcs
  unfolding traverse
  traverse-at arcs n c curr [] pending m small e a = refl
  traverse-at arcs n c curr (k ∷ ks) pending zero small e a =
      rw (traverse, ends_at arcs n c curr pending small a (omega arith)) refl
  traverse-at arcs n c curr (k ∷ ks) pending (suc m) small e a =
      rw
        (
          traverse,
          next-at arcs n c curr pending small a (omega arith),
          next-at arcs n c curr pending small a (omega arith),
          take_successors-at n k c (drop_below c pending) (omega arith)
              (InOrder-drop_below c a.low pending a.order),
          targets-drop_below c c pending (omega arith),
          a.agrees c (omega arith),
        )
        (ap (◌∷◌ (c, take k (targets c arcs))) (
          traverse-at arcs n (suc c) c ks (drop_taken k c (drop_below c pending)) m small
            (omega arith) (Ahead-next arcs n c curr pending small a k (omega arith))))

  advance-at :
      (arcs : List (ℕ × ℕ × L)) (n c curr from : ℕ) (pending : List (ℕ × ℕ × L))
      → n ≤ usize_max
      → c + from ≤ n
      → Ahead arcs n c curr pending
      → (curr' : ℕ) × (pending' : List (ℕ × ℕ × L)) × (advance from (at n curr pending)
          ≡ at n curr' pending')
        × Ahead arcs n (c + from) curr' pending'
  unfolding advance
  advance-at arcs n c curr zero pending small h a =
      let same : c ≡ c + 0 = omega arith in
      (curr, pending, refl, subst (λ (d : ℕ). Ahead arcs n d curr pending) same a)
  advance-at arcs n c curr (suc from) pending small h a =
      let (curr', pending', e, a') =
        advance-at arcs n (suc c) c from (drop_below c pending) small (omega arith)
          (Ahead-next arcs n c curr pending small a 0 (omega arith)) in
      let same : suc c + from ≡ c + suc from = omega arith in
      (
        curr',
        pending',
        rw (next-at arcs n c curr pending small a (omega arith)) e,
        subst (λ (d : ℕ). Ahead arcs n d curr' pending') same a',
      )

  -- For a list of arcs sorted by source, and no more than `usize::MAX` nodes, the lender from a node on
  -- lends each node, in order, with the successors that the list has for it: those among the first `k` of
  -- them, when the user takes `k`, however many the user took of the nodes before.
  pub traverse-iter_from :
      (g : ArcListGraph L) (from : ℕ) (ks : List ℕ)
      → g.num_nodes ≤ usize_max
      → from ≤ g.num_nodes
      → InOrder 0 g.into_iter
      → traverse ks (iter_from g from) ≡ prefixes (g.num_nodes - from) from ks g.into_iter
  unfolding iter_from new_iter
  traverse-iter_from g from ks small h order =
      let start : Ahead g.into_iter g.num_nodes 0 usize_max g.into_iter = record {
        wraps = refl;
        low = 0;
        order = order;
        agrees = λ w l. refl;
      } in
      let (curr, pending, e, a) =
        advance-at g.into_iter g.num_nodes 0 usize_max from g.into_iter small (omega arith) start in
      let same : 0 + from ≡ from = omega arith in
      ap (traverse ks) e
      ∙ traverse-at g.into_iter g.num_nodes (0 + from) curr ks pending (g.num_nodes - from) small
          (omega arith) a
      ∙ ap (λ (c : ℕ). prefixes (g.num_nodes - from) c ks g.into_iter) same
