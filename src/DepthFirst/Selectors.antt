-- ===== src/DepthFirst/Selectors.antt =====
-- webgraph-rs/algo/src/visits/depth_first/seq.rs: `TwoStates` and `ThreeStates`, on a bit vector of the
-- crate sux.
use rbsc.Base.{
  ℕ, ◌+◌, ◌*◌, ◌<◌, ◌≡◌, refl, ◌∙◌, arith, Bool, true, false, some, ◌==◌, if◌then◌else◌, inl, inr,
  Bool-cases,
}
use rbsc.DepthFirst.States.{BitVec, NodeStates}

module _ (bv : BitVec) where
  abbrev pub two_states : NodeStates
  two_states = record {
    States = bv.Bits;
    new = bv.new;
    known = bv.get;
    on_stack = λ s v. some false;
    set_known = λ s v. bv.set s v true;
    set_on_stack = λ s v. some s;
    set_off_stack = λ s v. some s;
    Fits = bv.IsSized;
    new-Fits = bv.new-IsSized;
    known-new = bv.get-new;
    on_stack-Fits = λ n s v f h. (false, refl);
    set_known_lem = λ n s v f h. bv.set_lem n s v true f h;
    set_on_stack_lem = λ n s v f h. (s, refl, f, λ w b. refl);
    set_off_stack_lem = λ n s v f h. (s, refl, f, λ w b. refl);
  }

  -- A node is known, and the bits for the path stay.
  pub set_known-path :
      (n : ℕ) (s : bv.Bits) (v : ℕ)
      → bv.IsSized (2 * n) s
      → v < n
      → (s' : bv.Bits) × (bv.set s (v * 2) true ≡ some s')
        × bv.IsSized (2 * n) s'
        × ((w : ℕ) → w < n → bv.get s' (w * 2) ≡ (if v == w then some true else bv.get s (w * 2)))
        × ((w : ℕ) → w < n → bv.get s' (w * 2 + 1) ≡ bv.get s (w * 2 + 1))
  set_known-path n s v f h =
      let (s', e, f', new) = bv.set_lem (2 * n) s (v * 2) true f (omega arith) in
      (
        s',
        e,
        f',
        λ w hw. new (w * 2) (omega arith) ∙ elim (Bool-cases (v == w)) [
          | inl is_v ↦ let same : ((v * 2) == (w * 2)) ≡ true = ground arith in rw (is_v, same) refl
          | inr there ↦
              let other : ((v * 2) == (w * 2)) ≡ false = ground arith in rw (there, other) refl
        ],
        λ w hw.
            let other : ((v * 2) == (w * 2 + 1)) ≡ false = ground arith in
            new (w * 2 + 1) (omega arith) ∙ (rw other refl),
      )

  -- A node comes on the path or goes off it.
  pub set_path :
      (n : ℕ) (s : bv.Bits) (v : ℕ) (b : Bool)
      → bv.IsSized (2 * n) s
      → v < n
      → (s' : bv.Bits) × (bv.set s (v * 2 + 1) b ≡ some s')
        × bv.IsSized (2 * n) s'
        × ((w : ℕ) → w < n → bv.get s' (w * 2) ≡ bv.get s (w * 2))
        × ((w : ℕ)
            → w < n
            → bv.get s' (w * 2 + 1) ≡ (if v == w then some b else bv.get s (w * 2 + 1)))
  set_path n s v b f h =
      let (s', e, f', new) = bv.set_lem (2 * n) s (v * 2 + 1) b f (omega arith) in
      (
        s',
        e,
        f',
        λ w hw.
            let other : ((v * 2 + 1) == (w * 2)) ≡ false = ground arith in
            new (w * 2) (omega arith) ∙ (rw other refl),
        λ w hw. new (w * 2 + 1) (omega arith) ∙ elim (Bool-cases (v == w)) [
          | inl is_v ↦
              let same : ((v * 2 + 1) == (w * 2 + 1)) ≡ true = ground arith in rw (is_v, same) refl
          | inr there ↦
              let other : ((v * 2 + 1) == (w * 2 + 1)) ≡ false = ground arith in
              rw (there, other) refl
        ],
      )

  abbrev pub three_states : NodeStates
  three_states = record {
    States = bv.Bits;
    new = λ n. bv.new (2 * n);
    known = λ s v. bv.get s (v * 2);
    on_stack = λ s v. bv.get s (v * 2 + 1);
    set_known = λ s v. bv.set s (v * 2) true;
    set_on_stack = λ s v. bv.set s (v * 2 + 1) true;
    set_off_stack = λ s v. bv.set s (v * 2 + 1) false;
    Fits = λ n s. bv.IsSized (2 * n) s;
    new-Fits = λ n. bv.new-IsSized (2 * n);
    known-new = λ n v h. bv.get-new (2 * n) (v * 2) (omega arith);
    on_stack-Fits = λ n s v f h. bv.get-IsSized (2 * n) s (v * 2 + 1) f (omega arith);
    set_known_lem =
        λ n s v f h. let (s', e, f', known, _) = set_known-path n s v f h in (s', e, f', known);
    set_on_stack_lem =
        λ n s v f h. let (s', e, f', known, _) = set_path n s v true f h in (s', e, f', known);
    set_off_stack_lem =
        λ n s v f h. let (s', e, f', known, _) = set_path n s v false f h in (s', e, f', known);
  }
