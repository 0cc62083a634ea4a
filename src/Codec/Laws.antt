-- ===== src/Codec/Laws.antt =====
-- The encoder of a component next to its decoder and to the estimator.
use rbsc.Base.{
  ℕ, ◌-◌, ◌<◌, ◌≡◌, refl, sym, arith, Bool, some, List, [], ◌∷◌, ◌++◌, append_assoc, All, length,
  length-append,
}
use rbsc.Codec.{
  CodeLibrary, Component, Symbol, CodeConsts, outdegree, reference_offset, block_count, block,
  interval_count, interval_start, interval_len, first_residual, residual, u64_mod, encode, estimate,
  decode, encode_all, estimate_all,
}

-- The value of a call can be coded.
abbrev pub IsCodable : Symbol → Type 0
IsCodable s = s.1 < u64_mod - 1

module _ (lib : CodeLibrary) (cs : CodeConsts) where
  -- A number below `u64::MAX` that is written for a component is read back for the same component,
  -- whatever follows it, and no more is read.
  pub decode-encode :
      (κ : Component) (v : ℕ) (rest : List Bool)
      → v < u64_mod - 1
      → decode lib cs κ (encode lib cs κ v ++ rest) ≡ some (v, rest)
  unfolding decode encode
  decode-encode outdegree v rest h = lib.read-write cs.outdegrees v rest h
  decode-encode reference_offset v rest h = lib.read-write cs.references v rest h
  decode-encode block_count v rest h = lib.read-write cs.blocks v rest h
  decode-encode block v rest h = lib.read-write cs.blocks v rest h
  decode-encode interval_count v rest h = lib.read-write cs.intervals v rest h
  decode-encode interval_start v rest h = lib.read-write cs.intervals v rest h
  decode-encode interval_len v rest h = lib.read-write cs.intervals v rest h
  decode-encode first_residual v rest h = lib.read-write cs.residuals v rest h
  decode-encode residual v rest h = lib.read-write cs.residuals v rest h

  pub decode-encode_all :
      (κ : Component) (v : ℕ) (syms : List Symbol) (rest : List Bool)
      → v < u64_mod - 1
      → decode lib cs κ (encode_all lib cs ((κ, v) ∷ syms) ++ rest)
        ≡ some (v, encode_all lib cs syms ++ rest)
  unfolding encode_all
  decode-encode_all κ v syms rest h =
      rw (append_assoc (encode lib cs κ v) (encode_all lib cs syms) rest)
        (decode-encode κ v (encode_all lib cs syms ++ rest) h)

  pub encode_all-append :
      (xs ys : List Symbol)
      → encode_all lib cs (xs ++ ys) ≡ encode_all lib cs xs ++ encode_all lib cs ys
  unfolding encode_all
  encode_all-append [] ys = refl
  encode_all-append ((κ, v) ∷ xs) ys =
      rw (encode_all-append xs ys)
        (sym (append_assoc (encode lib cs κ v) (encode_all lib cs xs) (encode_all lib cs ys)))

  estimate-eq-length :
      (κ : Component) (v : ℕ) → v < u64_mod - 1 → estimate lib cs κ v ≡ length (encode lib cs κ v)
  unfolding estimate encode
  estimate-eq-length outdegree v h = lib.len-write cs.outdegrees v h
  estimate-eq-length reference_offset v h = lib.len-write cs.references v h
  estimate-eq-length block_count v h = lib.len-write cs.blocks v h
  estimate-eq-length block v h = lib.len-write cs.blocks v h
  estimate-eq-length interval_count v h = lib.len-write cs.intervals v h
  estimate-eq-length interval_start v h = lib.len-write cs.intervals v h
  estimate-eq-length interval_len v h = lib.len-write cs.intervals v h
  estimate-eq-length first_residual v h = lib.len-write cs.residuals v h
  estimate-eq-length residual v h = lib.len-write cs.residuals v h

  -- On calls with values that can be coded, the sum that the estimator returns is the number of bits
  -- that the encoder writes.
  pub estimate_all-eq-length :
      (syms : List Symbol)
      → All IsCodable syms
      → estimate_all lib cs syms ≡ length (encode_all lib cs syms)
  unfolding estimate_all encode_all
  estimate_all-eq-length [] h = refl
  estimate_all-eq-length ((κ, v) ∷ syms) h = omega (
    arith,
    estimate-eq-length κ v h.0,
    estimate_all-eq-length syms h.1,
    length-append (encode lib cs κ v) (encode_all lib cs syms),
  )
