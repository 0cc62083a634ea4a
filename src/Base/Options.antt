-- ===== src/Base/Options.antt =====
-- `none` stands for a panic (or an `unwrap` of an error); chains of such steps are `do` blocks.
use Prim.Native.Nat.{ℕ, ◌+◌, ◌-◌, ◌≤◌}
use mathlib.Core.Path.{◌≡◌, refl, ap, ◌∙◌}
use mathlib.Core.Logic.{◌⊎◌, inl, inr}
use mathlib.Core.List.{List}
use mathlib.Core.Option.{Option, none, some}
use native.Mathlib.Omega.{arith}
use rbsc.Base.Tests.{leb, if◌then◌else◌, le→leb}
use rbsc.Base.Lists.{length, take, drop}

infixl 5 ◌>>=◌
abbrev pub ◌>>=◌ {ℓ κ} : {A : Type ℓ} {B : Type κ} → Option A → (A → Option B) → Option B
some a >>= f = f a
none >>= f = none

pub Option-cases {ℓ} : {A : Type ℓ} (o : Option A) → (o ≡ none) ⊎ ((a : A) × (o ≡ some a))
Option-cases none = inl refl
Option-cases (some a) = inr (a, refl)

-- A subtraction of unsigned numbers, which panics below 0.
unfoldable pub checked_sub : ℕ → ℕ → Option ℕ
checked_sub a b = if leb b a then some (a - b) else none

pub checked_sub-le : (a b : ℕ) → b ≤ a → checked_sub a b ≡ some (a - b)
unfolding checked_sub
checked_sub-le a b h = ground arith

pub checked_sub-add : (a b c : ℕ) → b + c ≡ a → checked_sub a b ≡ some c
checked_sub-add a b c h =
    let rest : a - b ≡ c = omega arith in checked_sub-le a b (omega arith) ∙ ap some rest

-- `&xs[lo..hi]`, which panics out of range.
unfoldable pub slice {ℓ} : {A : Type ℓ} → List A → ℕ → ℕ → Option (List A)
slice xs lo hi =
    if leb lo hi
    then (if leb hi (length xs) then some (take (hi - lo) (drop lo xs)) else none)
    else none

pub slice-le {ℓ} :
    {A : Type ℓ} (xs : List A) (lo hi : ℕ)
    → lo ≤ hi
    → hi ≤ length xs
    → slice xs lo hi ≡ some (take (hi - lo) (drop lo xs))
unfolding slice
slice-le xs lo hi h k = rw (le→leb lo hi h, le→leb hi (length xs) k)
