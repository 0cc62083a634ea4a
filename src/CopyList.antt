-- ===== src/CopyList.antt =====
-- The meaning of a list of blocks, as the compressor writes them and `MaskedIterator::new` reads them:
-- blocks of even index are copied, blocks of odd index are skipped, and what follows the blocks is copied
-- if their number is even. (The doc of `MaskedIterator::new` says odd there; its code says even.)
use rbsc.Base.{ℕ, Bool, true, false, not, List, [], ◌∷◌, ◌++◌, take, drop}

module _ {ℓ} {A : Type ℓ} where
  -- The flag says whether the next block is copied.
  abbrev pub masked : Bool → List ℕ → List A → List A
  masked true [] xs = xs
  masked false [] xs = []
  masked true (b ∷ bs) xs = take b xs ++ masked false bs (drop b xs)
  masked false (b ∷ bs) xs = masked true bs (drop b xs)

-- Whether what follows the blocks is copied.
abbrev pub ends_copying : Bool → List ℕ → Bool
ends_copying copying [] = copying
ends_copying copying (b ∷ bs) = ends_copying (not copying) bs
