-- ===== src/RandomAccess/Above.antt =====
-- The nodes that are left lie above the one that is returned.
use rbsc.Base.{ℕ, suc, ◌-◌, ◌<◌, arith, Bool, Option, List, [], ◌∷◌, All, Ascending}
use rbsc.Codec.{CodeLibrary, CodeConsts}
use rbsc.MaskedIterator.{ExactIterator, MaskedIterator}
use rbsc.RandomAccess.{usize_max}
use rbsc.RandomAccess.Parts.{Spans, Copies, Residuals}

unfoldable pub IsAbove : ℕ → List ℕ → Type 0
IsAbove z = All (λ x. z < x)

pub Ascending-IsAbove : (z : ℕ) (xs : List ℕ) → Ascending (suc z) xs → IsAbove z xs
unfolding IsAbove
Ascending-IsAbove z [] a = tt
Ascending-IsAbove z (x ∷ xs) a = (a.0, later xs (Ascending-IsAbove x xs a.1))
  where
    later : (ys : List ℕ) → IsAbove x ys → IsAbove z ys
    later [] h = tt
    later (y ∷ ys) h = (omega arith, later ys h.1)

pub Spans-above :
    (z node : ℕ) (intervals : List (ℕ × ℕ)) (idx : ℕ) (xs : List ℕ)
    → z < usize_max - 1
    → IsAbove z xs
    → Spans node intervals idx xs
    → z < node
unfolding IsAbove
Spans-above z node intervals idx [] h a s = omega arith
Spans-above z node intervals idx (x ∷ xs) h a s = omega (arith, s.0, a.0)

pub Copies-above :
    {P : Type 0} (it : ExactIterator P) (z node : ℕ) (o : Option (MaskedIterator P)) (xs : List ℕ)
    → z < usize_max - 1
    → IsAbove z xs
    → Copies it node o xs
    → z < node
unfolding IsAbove
Copies-above it z node o [] h a s = omega arith
Copies-above it z node o (x ∷ xs) h a s = omega (arith, s.0, a.0)

pub Residuals-above :
    (lib : CodeLibrary) (cs : CodeConsts) (z node to_go : ℕ) (reader : List Bool) (xs : List ℕ)
    → z < usize_max - 1
    → IsAbove z xs
    → Residuals lib cs node to_go reader xs
    → z < node
unfolding IsAbove
Residuals-above lib cs z node to_go reader [] h a s = omega arith
Residuals-above lib cs z node to_go reader (x ∷ xs) h a s = omega (arith, s.0, a.0)
