-- ===== src/VecGraph/Content.antt =====
-- The arcs of a graph, in order, and how adding nodes and arcs changes them.
use rbsc.Base.{
  ℕ, zero, suc, ◌+◌, ◌%◌, ◌^◌, ◌<◌, ◌≡◌, refl, sym, ap, subst, ◌∙◌, ◌⊎◌, inl, inr, arith, none,
  some, List, [], ◌∷◌, ◌++◌, append-nil, append_assoc, length, replicate, get_elem?, set,
}
use mathlib.Core.Option.{some-injective}
use rbsc.VecGraph.{last, LabeledVecGraph, Triple}

module _ {L : Type 0} where
  abbrev pub tag : ℕ → List (ℕ × L) → List (Triple L)
  tag u [] = []
  tag u ((v, l) ∷ ss) = (u, v, l) ∷ tag u ss

  -- The arcs from the nodes from `u` on.
  abbrev pub arcs_from : ℕ → List (List (ℕ × L)) → List (Triple L)
  arcs_from u [] = []
  arcs_from u (ss ∷ lists) = tag u ss ++ arcs_from (suc u) lists

  abbrev pub arcs : LabeledVecGraph L → List (Triple L)
  arcs g = arcs_from 0 g.succ

  abbrev pub Counted : LabeledVecGraph L → Type 0
  Counted g = g.number_of_arcs ≡ length (arcs g) % 2 ^ 64

  -- The order of the pairs of source and target.
  abbrev pub Before : Triple L → Triple L → Type 0
  Before (u, v, l) (u', v', l') = (u < u') ⊎ ((u ≡ u') × (v < v'))

  abbrev pub EndsBelow : ℕ → List (ℕ × L) → Type 0
  EndsBelow v ss = (w : ℕ) (l : L) → last ss ≡ some (w, l) → w < v

  abbrev pub AllEmpty : List (List (ℕ × L)) → Type 0
  AllEmpty [] = Unit
  AllEmpty (ss ∷ lists) = (ss ≡ []) × AllEmpty lists

  -- The arc from `u` to `v` is behind all the others.
  abbrev pub Room : ℕ → ℕ → List (List (ℕ × L)) → Type 0
  Room u v [] = Unit
  Room zero v (ss ∷ lists) = EndsBelow v ss × AllEmpty lists
  Room (suc u) v (ss ∷ lists) = Room u v lists

  tag-append : (u : ℕ) (xs ys : List (ℕ × L)) → tag u (xs ++ ys) ≡ tag u xs ++ tag u ys
  tag-append u [] ys = refl
  tag-append u ((v, l) ∷ xs) ys = ap (◌∷◌ (u, v, l)) (tag-append u xs ys)

  arcs_from-empty : (u : ℕ) (lists : List (List (ℕ × L))) → AllEmpty lists → arcs_from u lists ≡ []
  arcs_from-empty u [] h = refl
  arcs_from-empty u (ss ∷ lists) h = rw h.0 (arcs_from-empty (suc u) lists h.1)

  AllEmpty-append : (xs ys : List (List (ℕ × L))) → AllEmpty xs → AllEmpty ys → AllEmpty (xs ++ ys)
  AllEmpty-append [] ys hx hy = hy
  AllEmpty-append (x ∷ xs) ys hx hy = (hx.0, AllEmpty-append xs ys hx.1 hy)

  pub arcs_from-append :
      (u : ℕ) (lists more : List (List (ℕ × L)))
      → AllEmpty more
      → arcs_from u (lists ++ more) ≡ arcs_from u lists
  arcs_from-append u [] more h = arcs_from-empty u more h
  arcs_from-append u (ss ∷ lists) more h =
      ap (◌++◌ (tag u ss)) (arcs_from-append (suc u) lists more h)

  Room-AllEmpty : (u v : ℕ) (lists : List (List (ℕ × L))) → AllEmpty lists → Room u v lists
  Room-AllEmpty u v [] h = tt
  Room-AllEmpty zero v (ss ∷ lists) h =
      let nothing : last {A = ℕ × L} ss ≡ none = rw h.0 refl in (λ w l e. cc, h.1)
  Room-AllEmpty (suc u) v (ss ∷ lists) h = Room-AllEmpty u v lists h.1

  pub Room-append :
      (u v : ℕ) (lists more : List (List (ℕ × L)))
      → AllEmpty more
      → Room u v lists
      → Room u v (lists ++ more)
  Room-append u v [] more h r = Room-AllEmpty u v more h
  Room-append zero v (ss ∷ lists) more h r = (r.0, AllEmpty-append lists more r.1 h)
  Room-append (suc u) v (ss ∷ lists) more h r = Room-append u v lists more h r

  pub last-append : (ss : List (ℕ × L)) (a : ℕ × L) → last (ss ++ a ∷ []) ≡ some a
  last-append [] a = refl
  last-append (s ∷ []) a = refl
  last-append (s ∷ t ∷ ss) a = last-append (t ∷ ss) a

  pub Room-EndsBelow :
      (u v : ℕ) (lists : List (List (ℕ × L))) (ss : List (ℕ × L))
      → Room u v lists
      → get_elem? lists u ≡ some ss
      → EndsBelow v ss
  Room-EndsBelow u v [] ss r e = cc
  Room-EndsBelow zero v (x ∷ lists) ss r e = subst (EndsBelow v) (some-injective x ss e) r.0
  Room-EndsBelow (suc u) v (x ∷ lists) ss r e = Room-EndsBelow u v lists ss r e

  -- What is pushed where there is room comes last, and leaves room for what is behind it.
  pub arcs_from-set :
      (k u v : ℕ) (l : L) (lists : List (List (ℕ × L))) (ss : List (ℕ × L))
      → Room u v lists
      → get_elem? lists u ≡ some ss
      → arcs_from k (set lists u (ss ++ (v, l) ∷ [])) ≡ arcs_from k lists ++ (k + u, v, l) ∷ []
  arcs_from-set k u v l [] ss r e = cc
  arcs_from-set k zero v l (x ∷ lists) ss r e =
      let same : ss ≡ x = sym (some-injective x ss e) in
      let here : k + 0 ≡ k = omega arith in
      rw
        (
          same,
          arcs_from-empty (suc k) lists r.1,
          tag-append k x ((v, l) ∷ []),
          append-nil (tag k x),
          append-nil (tag k x ++ (k, v, l) ∷ []),
          here,
        )
        refl
  arcs_from-set k (suc u) v l (x ∷ lists) ss r e =
      let here : suc k + u ≡ k + suc u = omega arith in
      let rest : arcs_from (suc k) (set lists u (ss ++ (v, l) ∷ []))
          ≡ arcs_from (suc k) lists ++ (k + suc u, v, l) ∷ [] =
        rw here at (arcs_from-set (suc k) u v l lists ss r e) in
      ap (◌++◌ (tag k x)) rest
      ∙ sym (append_assoc (tag k x) (arcs_from (suc k) lists) ((k + suc u, v, l) ∷ []))

  pub Room-set :
      (u v u' v' : ℕ) (l : L) (lists : List (List (ℕ × L))) (ss : List (ℕ × L))
      → Room u v lists
      → (u < u') ⊎ ((u ≡ u') × (v < v'))
      → Room u' v' (set lists u (ss ++ (v, l) ∷ []))
  Room-set u v u' v' l [] ss r b = tt
  Room-set zero v zero v' l (x ∷ lists) ss r (inl b) = absurd (omega arith)
  Room-set zero v zero v' l (x ∷ lists) ss r (inr b) = (
    λ w m e.
        let same : (v, l) ≡ (w, m) =
          some-injective (v, l) (w, m) (sym (last-append ss (v, l)) ∙ e) in
        let v_is : v ≡ w = ap (λ (a : ℕ × L). a.0) same in omega (arith, b.1, v_is),
    r.1,
  )
  Room-set zero v (suc u') v' l (x ∷ lists) ss r b = Room-AllEmpty u' v' lists r.1
  Room-set (suc u) v zero v' l (x ∷ lists) ss r (inl b) = absurd (omega arith)
  Room-set (suc u) v zero v' l (x ∷ lists) ss r (inr b) = absurd (omega (arith, b.0))
  Room-set (suc u) v (suc u') v' l (x ∷ lists) ss r (inl b) =
      Room-set u v u' v' l lists ss r (inl (omega arith))
  Room-set (suc u) v (suc u') v' l (x ∷ lists) ss r (inr b) =
      Room-set u v u' v' l lists ss r (inr (omega (arith, b.0), b.1))

pub AllEmpty-replicate : (L : Type 0) (n : ℕ) → AllEmpty {L = L} (replicate n [])
AllEmpty-replicate L zero = tt
AllEmpty-replicate L (suc n) = (refl, AllEmpty-replicate L n)
