-- ===== src/Codec.antt =====
-- webgraph-rs/webgraph/src/graphs/bvgraph/codecs/{mod, enc_const, dec_const}.rs: which instantaneous code each
-- component of a compressed graph is written and read with.
--
-- The codes themselves are those of the crate dsi-bitstream, the parameter `CodeLibrary`. A stream is
-- the list of its bits. A writer is one that does not fail, as a writer to memory.
pub mod Laws
use rbsc.Base.{
  ℕ, ◌+◌, ◌-◌, ◌%◌, ◌^◌, ◌<◌, ◌≡◌, ◌≢◌, Bool, Option, none, some, List, [], ◌∷◌, ◌++◌, length,
  ◌>>=◌,
}

abbrev pub u64_mod : ℕ
u64_mod = 2 ^ 64

abbrev pub i64_min : ℕ
i64_min = 2 ^ 63

-- What the program uses of dsi-bitstream. A code is named by its constant (`code_consts`).
-- The codes hold any number but `u64::MAX`, and `len` is the length of a code word. `ToNat::to_nat`
-- and `ToInt::to_int` are the bijection between i64 (here by its bit pattern) and u64 that maps
-- small absolute values to small numbers.
pub record CodeLibrary : Type 0 where
  pub write_code : ℕ → ℕ → List Bool
  pub read_code : ℕ → List Bool → Option (ℕ × List Bool)
  pub len_code : ℕ → ℕ → ℕ
  pub to_nat : ℕ → ℕ
  pub to_int : ℕ → ℕ
  pub read-write :
      (c v : ℕ) (rest : List Bool)
      → v < u64_mod - 1
      → read_code c (write_code c v ++ rest) ≡ some (v, rest)
  pub len-write : (c v : ℕ) → v < u64_mod - 1 → len_code c v ≡ length (write_code c v)
  pub to_int-to_nat : (x : ℕ) → x < u64_mod → to_int (to_nat x) ≡ x
  pub to_nat-lt : (x : ℕ) → x < u64_mod → x ≢ i64_min → to_nat x < u64_mod - 1

-- The methods of `Encode` and `Decode` that write or read a number.
pub data Component : Type 0 where
  outdegree reference_offset block_count block : Component
  interval_count interval_start interval_len : Component
  first_residual residual : Component

-- A call `write_<component>(value)`.
abbrev pub Symbol : Type 0
Symbol = Component × ℕ

-- The constant parameters of `ConstCodesEncoder` and `ConstCodesDecoder`.
pub record CodeConsts : Type 0 where
  pub outdegrees : ℕ
  pub references : ℕ
  pub blocks : ℕ
  pub intervals : ℕ
  pub residuals : ℕ

module _ (lib : CodeLibrary) (cs : CodeConsts) where
  -- `Encode for ConstCodesEncoder`: the bits that a call appends to the stream.
  unfoldable pub encode : Component → ℕ → List Bool
  encode outdegree v = lib.write_code cs.outdegrees v
  encode reference_offset v = lib.write_code cs.references v
  encode block_count v = lib.write_code cs.blocks v
  encode block v = lib.write_code cs.blocks v
  encode interval_count v = lib.write_code cs.intervals v
  encode interval_start v = lib.write_code cs.intervals v
  encode interval_len v = lib.write_code cs.intervals v
  encode first_residual v = lib.write_code cs.residuals v
  encode residual v = lib.write_code cs.residuals v

  -- `Encode for ConstCodesEstimator`: the number of bits, with nothing written.
  unfoldable pub estimate : Component → ℕ → ℕ
  estimate outdegree v = lib.len_code cs.outdegrees v
  estimate reference_offset v = lib.len_code cs.references v
  estimate block_count v = lib.len_code cs.blocks v
  estimate block v = lib.len_code cs.blocks v
  estimate interval_count v = lib.len_code cs.intervals v
  estimate interval_start v = lib.len_code cs.intervals v
  estimate interval_len v = lib.len_code cs.intervals v
  estimate first_residual v = lib.len_code cs.residuals v
  estimate residual v = lib.len_code cs.residuals v

  -- `Decode for ConstCodesDecoder`: the number read and the rest of the stream. The `unwrap` of a
  -- failed read is `none`.
  unfoldable pub decode : Component → List Bool → Option (ℕ × List Bool)
  decode outdegree s = lib.read_code cs.outdegrees s
  decode reference_offset s = lib.read_code cs.references s
  decode block_count s = lib.read_code cs.blocks s
  decode block s = lib.read_code cs.blocks s
  decode interval_count s = lib.read_code cs.intervals s
  decode interval_start s = lib.read_code cs.intervals s
  decode interval_len s = lib.read_code cs.intervals s
  decode first_residual s = lib.read_code cs.residuals s
  decode residual s = lib.read_code cs.residuals s

  -- The stream that a sequence of calls leaves.
  unfoldable pub encode_all : List Symbol → List Bool
  unfolding encode
  encode_all [] = []
  encode_all ((κ, v) ∷ syms) = encode κ v ++ encode_all syms

  -- The sum of what the calls return on an estimator.
  unfoldable pub estimate_all : List Symbol → ℕ
  unfolding estimate
  estimate_all [] = 0
  estimate_all ((κ, v) ∷ syms) = estimate κ v + estimate_all syms
