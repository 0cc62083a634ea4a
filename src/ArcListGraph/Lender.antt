-- ===== src/ArcListGraph/Lender.antt =====
-- What a user reads from the lender, who takes of each node's successors as many as they like.
use rbsc.Base.{
  ℕ, zero, suc, ◌≤◌, ◌<◌, ◌≡◌, refl, inl, inr, arith, false, Option, none, some, List, [], ◌∷◌,
  take, ltb, ◌==◌, if◌then◌else◌, Bool-cases,
}
use rbsc.ArcListGraph.{Iter, usize_max, next_or_max, skip, next, next_successor}

module _ {L : Type 0} where
  -- Up to `k` calls of `Succ::next`.
  unfoldable pub take_successors : ℕ → Iter L → List (ℕ × Option L) × Iter L
  unfolding next_successor
  take_successors zero i = ([], i)
  take_successors (suc k) i = elim (next_successor i).1 [
    | none ↦ ([], (next_successor i).0)
    | some s ↦ let r = take_successors k (next_successor i).0 in (s ∷ r.0, r.1)
  ]

  -- Calls of `Lender::next`, with how many successors are taken after each.
  unfoldable pub traverse : List ℕ → Iter L → List (ℕ × List (ℕ × Option L))
  unfolding next take_successors
  traverse [] i = []
  traverse (k ∷ ks) i = elim (next i).1 [
    | none ↦ []
    | some node ↦ let r = take_successors k (next i).0 in (node, r.0) ∷ traverse ks r.1
  ]

  -- The successors that the list has for a node.
  abbrev pub targets : ℕ → List (ℕ × ℕ × L) → List (ℕ × Option L)
  targets v [] = []
  targets v ((src, dst, label) ∷ arcs) =
      if src == v then (dst, some label) ∷ targets v arcs else targets v arcs

  -- The `n` nodes from `v` on, each with as many of its successors as are taken.
  abbrev pub prefixes : ℕ → ℕ → List ℕ → List (ℕ × ℕ × L) → List (ℕ × List (ℕ × Option L))
  prefixes n v [] arcs = []
  prefixes zero v (k ∷ ks) arcs = []
  prefixes (suc n) v (k ∷ ks) arcs = (v, take k (targets v arcs)) ∷ prefixes n (suc v) ks arcs

  -- Sorted by source.
  abbrev pub InOrder : ℕ → List (ℕ × ℕ × L) → Type 0
  InOrder low [] = Unit
  InOrder low ((src, dst, label) ∷ arcs) = (low ≤ src) × InOrder src arcs

  -- The lender at a node, with the arcs that it has not gone past.
  abbrev pub at : ℕ → ℕ → List (ℕ × ℕ × L) → Iter L
  at n curr pending = record {
    num_nodes = n;
    curr_node = curr;
    next_pair = (next_or_max pending).0;
    iter = (next_or_max pending).1;
  }

  abbrev pub drop_below : ℕ → List (ℕ × ℕ × L) → List (ℕ × ℕ × L)
  drop_below c [] = []
  drop_below c (a ∷ arcs) = if ltb a.0 c then drop_below c arcs else a ∷ arcs

  pub skip-next_or_max :
      (c : ℕ) (pending : List (ℕ × ℕ × L))
      → c ≤ usize_max
      → skip c (next_or_max pending).0 (next_or_max pending).1 ≡ next_or_max (drop_below c pending)
  unfolding skip next_or_max
  skip-next_or_max c [] h = let ended : ltb usize_max c ≡ false = ground arith in rw ended refl
  skip-next_or_max c (a ∷ []) h = elim (Bool-cases (ltb a.0 c)) [
    | inl e ↦ rw e refl
    | inr e ↦ rw e refl
  ]
  skip-next_or_max c (a ∷ b ∷ arcs) h = elim (Bool-cases (ltb a.0 c)) [
    | inl e ↦ rw e (skip-next_or_max c (b ∷ arcs) h)
    | inr e ↦ rw e refl
  ]

  pub InOrder-drop_below :
      (c low : ℕ) (pending : List (ℕ × ℕ × L))
      → InOrder low pending
      → InOrder c (drop_below c pending)
  InOrder-drop_below c low [] o = tt
  InOrder-drop_below c low (a ∷ arcs) o = elim (Bool-cases (ltb a.0 c)) [
    | inl e ↦ rw e (InOrder-drop_below c a.0 arcs o.1)
    | inr e ↦ rw e (ground arith, o.1)
  ]

  pub targets-drop_below :
      (c w : ℕ) (pending : List (ℕ × ℕ × L))
      → c ≤ w
      → targets w (drop_below c pending) ≡ targets w pending
  targets-drop_below c w [] h = refl
  targets-drop_below c w (a ∷ arcs) h = elim (Bool-cases (ltb a.0 c)) [
    | inl e ↦
        let other : (a.0 == w) ≡ false = ground arith in
        rw (e, other) (targets-drop_below c w arcs h)
    | inr e ↦ rw e refl
  ]

  targets-nil :
      (c low : ℕ) (pending : List (ℕ × ℕ × L))
      → c < low
      → InOrder low pending
      → targets c pending ≡ []
  targets-nil c low [] h o = refl
  targets-nil c low (a ∷ arcs) h o =
      let other : (a.0 == c) ≡ false = ground (arith, o.0) in
      rw other (targets-nil c a.0 arcs (omega (arith, o.0)) o.1)

  -- What is left after some successors of `c` are taken.
  abbrev pub drop_taken : ℕ → ℕ → List (ℕ × ℕ × L) → List (ℕ × ℕ × L)
  drop_taken zero c pending = pending
  drop_taken (suc k) c [] = []
  drop_taken (suc k) c (a ∷ arcs) = if a.0 == c then drop_taken k c arcs else a ∷ arcs

  pub InOrder-drop_taken :
      (k c low : ℕ) (pending : List (ℕ × ℕ × L))
      → InOrder low pending
      → InOrder low (drop_taken k c pending)
  InOrder-drop_taken zero c low pending o = o
  InOrder-drop_taken (suc k) c low [] o = tt
  InOrder-drop_taken (suc k) c low (a ∷ arcs) o = elim (Bool-cases (a.0 == c)) [
    | inl e ↦ rw e (lower low a.0 (drop_taken k c arcs) o.0 (InOrder-drop_taken k c a.0 arcs o.1))
    | inr e ↦ rw e o
  ]
    where
      lower : (low high : ℕ) (ps : List (ℕ × ℕ × L)) → low ≤ high → InOrder high ps → InOrder low ps
      lower low high [] h p = tt
      lower low high (b ∷ ps) h p = (omega (arith, p.0), p.1)

  pub targets-drop_taken :
      (k c w : ℕ) (pending : List (ℕ × ℕ × L))
      → c < w
      → targets w (drop_taken k c pending) ≡ targets w pending
  targets-drop_taken zero c w pending h = refl
  targets-drop_taken (suc k) c w [] h = refl
  targets-drop_taken (suc k) c w (a ∷ arcs) h = elim (Bool-cases (a.0 == c)) [
    | inl e ↦
        let other : (a.0 == w) ≡ false = ground arith in
        rw (e, other) (targets-drop_taken k c w arcs h)
    | inr e ↦ rw e refl
  ]

  pub take_successors-at :
      (n k c : ℕ) (pending : List (ℕ × ℕ × L))
      → c < usize_max
      → InOrder c pending
      → take_successors k (at n c pending)
        ≡ (take k (targets c pending), at n c (drop_taken k c pending))
  unfolding take_successors next_successor next_or_max
  take_successors-at n zero c pending h o = refl
  take_successors-at n (suc k) c [] h o =
      let ended : (usize_max == c) ≡ false = ground arith in rw (take_successors, ended, ended) refl
  take_successors-at n (suc k) c (a ∷ arcs) h o = elim (Bool-cases (a.0 == c)) [
    | inl e ↦
        let order : InOrder c arcs = let same : a.0 ≡ c = ground arith in rw same at o.1 in
        rw (take_successors, e, e, take_successors-at n k c arcs h order) refl
    | inr e ↦
        let nothing = targets-nil c a.0 arcs (ground (arith, o.0)) o.1 in
        rw (take_successors, e, e, nothing) refl
  ]
