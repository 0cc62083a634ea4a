-- ===== src/RandomAccess/Outdegree.antt =====
-- The outdegree that `labels` reads is the number of successors that it announces.
use rbsc.Base.{
  ℕ, ◌≡◌, refl, sym, ap, ◌∙◌, arith, true, false, Bool, Option, none, some, Option-cases,
  if◌then◌else◌, List, [], ◌∷◌, inl, inr, ◌==◌,
}
use rbsc.Codec.{CodeLibrary, CodeConsts, outdegree}
use rbsc.MaskedIterator.{ExactIterator}
use rbsc.Sequential.{read}
use rbsc.RandomAccess.{Succ, new, forward_copied, forward_interval}
use rbsc.RandomAccess.Labels.{Opened, prefill_interval, prefill, open_parts, open_labels}

forward_interval-size : {P : Type 0} (s t : Succ P) → forward_interval s ≡ some t → t.size ≡ s.size
unfolding forward_interval
forward_interval-size s t e = ground (arith)

prefill_interval-size :
    {P : Type 0} (pairs : List (ℕ × ℕ)) (s t : Succ P)
    → prefill_interval pairs s ≡ some t
    → t.size ≡ s.size
unfolding prefill_interval
prefill_interval-size [] s t e = ground (arith)
prefill_interval-size (p ∷ ps) s t e = forward_interval-size s t e

module _ {P : Type 0} (it : ExactIterator P) where
  forward_copied-size : (s t : Succ P) → forward_copied it s ≡ some t → t.size ≡ s.size
  unfolding forward_copied
  forward_copied-size s t e = ground (arith)

  behind_interval-size :
      (n : ℕ) (m : Option (Succ P)) (t : Succ P)
      → ((s : Succ P) → m ≡ some s → s.size ≡ n)
      → ◌≡◌ {A = Option (Succ P)} (elim m [ none ↦ none | some s ↦ forward_copied it s ]) (some t)
      → t.size ≡ n
  behind_interval-size n none t h e = cc
  behind_interval-size n (some s) t h e = forward_copied-size s t e ∙ h s refl

  prefill-size :
      (degree : ℕ) (o : Opened P) (reader : List Bool) (t : Succ P)
      → prefill it degree o reader ≡ some t
      → t.size ≡ degree
  unfolding prefill new
  prefill-size degree o reader t e =
      let start = record (new reader) {
        size = degree;
        copied_nodes_iter = o.copied;
        intervals = o.intervals;
        residuals_to_go = o.residuals_to_go;
        next_residual_node = o.first_node;
      } in
      behind_interval-size degree (prefill_interval o.intervals start) t
        (λ s f. prefill_interval-size o.intervals start s f) e

module _ (lib : CodeLibrary) (cs : CodeConsts) {P : Type 0} (it : ExactIterator P)
    (successors : ℕ → Option P) (window min_len node : ℕ) (decoder : List Bool) (t : Succ P) where
  -- The size of an iterator with successors.
  parts-size :
      (degree : ℕ) (m : Option (Opened P × List Bool))
      → ◌≡◌ {A = Option (Succ P)}
          (elim m [ none ↦ none | some (o, r) ↦ prefill it degree o r ])
          (some t)
      → t.size ≡ degree
  parts-size degree none e = cc
  parts-size degree (some (o, r)) e = prefill-size it degree o r t e

  sized :
      (degree : ℕ) (reader : List Bool) (empty : Bool) (o : Option (Succ P))
      → (degree == 0) ≡ empty
      → (o ≡ some t → t.size ≡ degree)
      → (if empty then some (new reader) else o) ≡ some t
      → t.size ≡ degree
  unfolding new
  sized degree reader true o z h e = ground (arith)
  sized degree reader false o z h e = h e

  pub open_labels-size :
      open_labels lib cs it successors window min_len node decoder ≡ some t
      → (reader : List Bool) × (read lib cs outdegree decoder ≡ some (t.size, reader))
  unfolding open_labels
  open_labels-size e = elim (Option-cases (read lib cs outdegree decoder)) [
    | inl f ↦ let none_there = rw (open_labels, f) at e in cc
    | inr ((degree, reader), f) ↦
        let some_there = rw (open_labels, f) at e in
        let size =
          sized degree reader (degree == 0) _ refl
            (parts-size degree (open_parts lib cs it successors window min_len node degree reader))
            some_there in
        (reader, f ∙ ap (λ (n : ℕ). some (n, reader)) (sym size))
  ]
