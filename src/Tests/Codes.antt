-- ===== src/Tests/Codes.antt =====
-- A code library to run the models with: every code is the unary one.
use rbsc.Base.{
  ℕ, zero, suc, ◌+◌, ◌-◌, ◌*◌, ◌/◌, ◌%◌, ◌<◌, ◌≡◌, ◌≢◌, refl, arith, Bool, true, false, Option,
  none, some, List, [], ◌∷◌, ◌++◌, length, ltb, ◌==◌, ◌>>=◌, if◌then◌else◌,
}
use rbsc.Codec.{CodeLibrary, CodeConsts, u64_mod, i64_min}

unfoldable pub write_unary : ℕ → List Bool
write_unary zero = false ∷ []
write_unary (suc n) = true ∷ write_unary n

unfoldable pub read_unary : List Bool → Option (ℕ × List Bool)
read_unary [] = none
read_unary (false ∷ s) = some (0, s)
read_unary (true ∷ s) = read_unary s >>= λ r. some (suc r.0, r.1)

pub read-write_unary :
    (v : ℕ) (rest : List Bool) → read_unary (write_unary v ++ rest) ≡ some (v, rest)
unfolding read_unary write_unary
read-write_unary zero rest = refl
read-write_unary (suc v) rest = rw (read-write_unary v rest)

pub length-write_unary : (v : ℕ) → v + 1 ≡ length (write_unary v)
unfolding write_unary
length-write_unary zero = refl
length-write_unary (suc v) = omega (arith, length-write_unary v)

unfoldable pub zigzag : ℕ → ℕ
zigzag x = if ltb x i64_min then 2 * x else 2 * (u64_mod - x) - 1

unfoldable pub unzigzag : ℕ → ℕ
unzigzag u = if u % 2 == 0 then u / 2 else u64_mod - (u + 1) / 2

pub unzigzag-zigzag : (x : ℕ) → x < u64_mod → unzigzag (zigzag x) ≡ x
unfolding zigzag unzigzag
unzigzag-zigzag x h = ground arith

pub zigzag-lt : (x : ℕ) → x < u64_mod → x ≢ i64_min → zigzag x < u64_mod - 1
unfolding zigzag
zigzag-lt x h k = ground arith

abbrev pub unary : CodeLibrary
unary = record {
  write_code = λ c v. write_unary v;
  read_code = λ c s. read_unary s;
  len_code = λ c v. v + 1;
  to_nat = zigzag;
  to_int = unzigzag;
  read-write = λ c v rest h. read-write_unary v rest;
  len-write = λ c v h. length-write_unary v;
  to_int-to_nat = unzigzag-zigzag;
  to_nat-lt = zigzag-lt;
}

abbrev pub consts : CodeConsts
consts = record { outdegrees = 1; references = 0; blocks = 1; intervals = 1; residuals = 2 }
