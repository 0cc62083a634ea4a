-- ===== src/DepthFirst/States.antt =====
-- webgraph-rs/algo/src/visits/depth_first/seq.rs, `trait NodeStates` and its two implementations: what a
-- visit keeps of each node.
use rbsc.Base.{ℕ, ◌<◌, ◌≡◌, Bool, true, false, Option, some, ◌==◌, if◌then◌else◌}

-- What the program uses of the bit vectors of the crate sux. `IsSized n v` says that `v` has `n` bits; an
-- index out of range panics.
pub record BitVec : Type 1 where
  pub Bits : Type 0
  pub new : ℕ → Bits
  pub get : Bits → ℕ → Option Bool
  pub set : Bits → ℕ → Bool → Option Bits
  pub IsSized : ℕ → Bits → Type 0
  pub new-IsSized : (n : ℕ) → IsSized n (new n)
  pub get-new : (n i : ℕ) → i < n → get (new n) i ≡ some false
  pub get-IsSized :
      (n : ℕ) (v : Bits) (i : ℕ) → IsSized n v → i < n → (b : Bool) × (get v i ≡ some b)
  pub set_lem :
      (n : ℕ) (v : Bits) (i : ℕ) (b : Bool)
      → IsSized n v
      → i < n
      → (v' : Bits) × (set v i b ≡ some v')
        × IsSized n v'
        × ((j : ℕ) → j < n → get v' j ≡ (if i == j then some b else get v j))

-- What a visit uses of `S: NodeStates`, and what it relies on: `Fits n s` says that `s` is a state of `n`
-- nodes. `on_stack` may be a constant.
pub record NodeStates : Type 1 where
  pub States : Type 0
  pub new : ℕ → States
  pub known : States → ℕ → Option Bool
  pub on_stack : States → ℕ → Option Bool
  pub set_known : States → ℕ → Option States
  pub set_on_stack : States → ℕ → Option States
  pub set_off_stack : States → ℕ → Option States
  pub Fits : ℕ → States → Type 0
  pub new-Fits : (n : ℕ) → Fits n (new n)
  pub known-new : (n v : ℕ) → v < n → known (new n) v ≡ some false
  pub on_stack-Fits :
      (n : ℕ) (s : States) (v : ℕ) → Fits n s → v < n → (b : Bool) × (on_stack s v ≡ some b)
  pub set_known_lem :
      (n : ℕ) (s : States) (v : ℕ)
      → Fits n s
      → v < n
      → (s' : States) × (set_known s v ≡ some s')
        × Fits n s'
        × ((w : ℕ) → w < n → known s' w ≡ (if v == w then some true else known s w))
  pub set_on_stack_lem :
      (n : ℕ) (s : States) (v : ℕ)
      → Fits n s
      → v < n
      → (s' : States) × (set_on_stack s v ≡ some s')
        × Fits n s'
        × ((w : ℕ) → w < n → known s' w ≡ known s w)
  pub set_off_stack_lem :
      (n : ℕ) (s : States) (v : ℕ)
      → Fits n s
      → v < n
      → (s' : States) × (set_off_stack s v ≡ some s')
        × Fits n s'
        × ((w : ℕ) → w < n → known s' w ≡ known s w)
