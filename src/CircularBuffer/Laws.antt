-- ===== src/CircularBuffer/Laws.antt =====
-- What a client knows of a buffer with at least one slot.
use native.Mathlib.Nat.{mod-lt, mod-add-mod, mod-eq_of_lt, mod-eq-sub-mod}
use native.Mathlib.Decide.{dec_lt}
use rbsc.Base.{
  ℕ, ◌+◌, ◌-◌, ◌%◌, ◌≤◌, ◌<◌, ◌≡◌, ◌≢◌, sym, ap, arith, some, length, set, length-set,
  length-replicate, get_elem?-set_self, get_elem?-set_ne, get_elem?-lt, ◌∙◌, set-set, All, All-set,
  All-replicate, All-get_elem?,
}
use rbsc.CircularBuffer.{CircularBuffer, new, slot, index, take, replace}

module _ {ℓ} {T : Type ℓ} where
  abbrev pub capacity : CircularBuffer T → ℕ
  capacity b = length b.slots

  pub capacity-new : (default : T) (n : ℕ) → capacity (new default n) ≡ n
  unfolding new
  capacity-new default n = length-replicate n default

  -- The buffer after a value has been put in the slot of a node.
  unfoldable pub put : CircularBuffer T → ℕ → T → CircularBuffer T
  unfolding slot
  put b node value = record b { slots = set b.slots (slot b node) value }

  pub capacity-put :
      (b : CircularBuffer T) (node : ℕ) (v : T) → capacity (put b node v) ≡ capacity b
  unfolding put
  capacity-put b node v = length-set b.slots (slot b node) v

  slot-lt : (b : CircularBuffer T) (node : ℕ) → 0 < capacity b → slot b node < capacity b
  unfolding slot
  slot-lt b node h = mod-lt node h

  pub replace-eq-put :
      (b : CircularBuffer T) (node : ℕ) (v : T)
      → 0 < capacity b
      → replace b node v ≡ some (put b node v)
  unfolding replace put
  replace-eq-put b node v h =
      let (a, e) = get_elem?-lt b.slots (slot b node) (slot-lt b node h) in rw e

  pub take-eq-put :
      (default : T) (b : CircularBuffer T) (node : ℕ)
      → 0 < capacity b
      → (a : T) × (take default b node ≡ some (a, put b node default))
  unfolding take put
  take-eq-put default b node h =
      let (a, e) = get_elem?-lt b.slots (slot b node) (slot-lt b node h) in (a, rw e)

  pub index-put_self :
      (b : CircularBuffer T) (node : ℕ) (v : T)
      → 0 < capacity b
      → index (put b node v) node ≡ some v
  unfolding index put
  index-put_self b node v h =
      rw (length-set b.slots (slot b node) v)
        (get_elem?-set_self b.slots (slot b node) v (slot-lt b node h))

  pub put-put :
      (b : CircularBuffer T) (node : ℕ) (v w : T) → put (put b node v) node w ≡ put b node w
  unfolding put
  put-put b node v w = rw (length-set b.slots (slot b node) v, set-set b.slots (slot b node) v w)

  pub index-put_ne :
      (b : CircularBuffer T) (node other : ℕ) (v : T)
      → slot b node ≢ slot b other
      → index (put b node v) other ≡ index b other
  unfolding index put
  index-put_ne b node other v h =
      rw (length-set b.slots (slot b node) v)
        (get_elem?-set_ne b.slots (slot b node) (slot b other) v h)

module _ {ℓ κ} {T : Type ℓ} (P : T → Type κ) where
  abbrev pub AllSlots : CircularBuffer T → Type κ
  AllSlots b = All P b.slots

  pub new-AllSlots : (default : T) (n : ℕ) → P default → AllSlots (new default n)
  unfolding new
  new-AllSlots default n h = All-replicate P n default h

  pub put-AllSlots :
      (b : CircularBuffer T) (node : ℕ) (v : T) → AllSlots b → P v → AllSlots (put b node v)
  unfolding put
  put-AllSlots b node v a h = All-set P b.slots (slot b node) v a h

  pub index-AllSlots :
      (b : CircularBuffer T) (node : ℕ)
      → 0 < capacity b
      → AllSlots b
      → (v : T) × (index b node ≡ some v) × P v
  unfolding index
  index-AllSlots b node h a =
      let (v, e) = get_elem?-lt b.slots (slot b node) (slot-lt b node h) in
      (v, e, All-get_elem? P b.slots (slot b node) v a e)

-- Fewer than `n` steps forward do not come back to the same remainder.
add-mod-ne : (r d n : ℕ) → r < n → 0 < d → d < n → (r + d) % n ≢ r
add-mod-ne r d n hr h0 hd = elim (dec_lt (r + d) n) [
  | yes p ↦ omega (arith, mod-eq_of_lt p)
  | no p ↦ omega (
    arith,
    mod-eq-sub-mod {n = r + d} {m = n} (omega arith),
    mod-eq_of_lt {n = r + d - n} {m = n} (omega arith),
  )
]

pub mod-ne :
    (node delta n : ℕ) → 0 < delta → delta < n → delta ≤ node → node % n ≢ (node - delta) % n
mod-ne node delta n h0 h1 h2 e =
    let shift : node ≡ node - delta + delta = omega arith in
    add-mod-ne ((node - delta) % n) delta n (mod-lt (node - delta) (omega arith)) h0 h1
      (mod-add-mod (node - delta) n delta ∙ ap (λ k. k % n) (sym shift) ∙ e)

-- The slot of an earlier node at a distance below the capacity is another one.
pub slot-ne {ℓ} :
    {T : Type ℓ} (b : CircularBuffer T) (node delta : ℕ)
    → 0 < delta
    → delta < capacity b
    → delta ≤ node
    → slot b node ≢ slot b (node - delta)
unfolding slot
slot-ne b node delta h0 h1 h2 = mod-ne node delta (capacity b) h0 h1 h2

-- `replace` on a buffer with slots returns a buffer of the same size that holds the value at the node,
-- and at any earlier node nearer than the size what the old buffer held there.
pub index-replace {ℓ} :
    {T : Type ℓ} (b : CircularBuffer T) (node delta : ℕ) (v : T)
    → 0 < delta
    → delta < capacity b
    → delta ≤ node
    → (b' : CircularBuffer T) × ((replace b node v ≡ some b')
        × (capacity b' ≡ capacity b)
        × (index b' node ≡ some v)
        × (index b' (node - delta) ≡ index b (node - delta)))
index-replace b node delta v k l m = (
  put b node v,
  (
    replace-eq-put b node v (omega arith),
    capacity-put b node v,
    index-put_self b node v (omega arith),
    index-put_ne b node (node - delta) v (slot-ne b node delta k l m),
  ),
)
