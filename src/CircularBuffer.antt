-- ===== src/CircularBuffer.antt =====
-- webgraph-rs/webgraph/src/utils/circular_buffer.rs: the ring of the last `compression_window + 1` values.
-- An access to a buffer of no slots divides by zero, which is the `none` here.
pub mod Laws
use rbsc.Base.{ℕ, ◌%◌, List, Option, none, some, get_elem?, set, length, replicate, ◌>>=◌}

pub record CircularBuffer {ℓ} (T : Type ℓ) : Type ℓ where
  pub slots : List T

module _ {ℓ} {T : Type ℓ} where
  -- `default` is `T::default()`.
  unfoldable pub new : T → ℕ → CircularBuffer T
  new default len = record { slots = replicate len default }

  -- `index % self.data.len()`
  unfoldable pub slot : CircularBuffer T → ℕ → ℕ
  slot b index = index % length b.slots

  unfoldable pub index : CircularBuffer T → ℕ → Option T
  unfolding slot
  index b node = get_elem? b.slots (slot b node)

  unfoldable pub take : T → CircularBuffer T → ℕ → Option (T × CircularBuffer T)
  unfolding slot
  take default b node = get_elem? b.slots (slot b node) >>= λ value.
      some (value, record b { slots = set b.slots (slot b node) default })

  unfoldable pub replace : CircularBuffer T → ℕ → T → Option (CircularBuffer T)
  unfolding slot
  replace b node value = get_elem? b.slots (slot b node) >>= λ _.
      some (record b { slots = set b.slots (slot b node) value })
