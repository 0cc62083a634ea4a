-- ===== src/RandomAccess/Opens.antt =====
-- What the bits of a node promise to `labels`, for an iterator over the successors of any depth.
use rbsc.Base.{ℕ, suc, ◌-◌, ◌≤◌, ◌<◌, ◌≡◌, Option, some, Bool, List, ◌++◌}
use rbsc.CircularBuffer
use rbsc.CircularBuffer.{CircularBuffer}
use rbsc.Codec.{CodeLibrary, CodeConsts, Symbol, encode_all}
use rbsc.MaskedIterator.{MaskedIterator}
use rbsc.MaskedIterator.Yields.{Yields}
use rbsc.Sequential.Stream.{Reads}
use rbsc.RandomAccess.OpenTrip.{IsCopier}
use rbsc.RandomAccess.Labels.{SuccAt, iterator, open_copied, open_labels}

-- What a user of a compressed stream relies on: how the lists of earlier nodes are found, and how the
-- list of a node is found if they are.
module _ (lib : CodeLibrary) (cs : CodeConsts) where
  abbrev pub Finds : (depth : ℕ) → Option (SuccAt lib cs depth) → List ℕ → Type 0
  Finds depth found l =
      (s : SuccAt lib cs depth) × (found ≡ some s) × Yields (iterator lib cs depth) s l

  module _ (window min_len node : ℕ) (backrefs : CircularBuffer (List ℕ)) where
    -- The nodes within the window are found with the lists that the buffer of a decoder holds.
    abbrev pub FindsEarlier : (depth : ℕ) → (ℕ → Option (SuccAt lib cs depth)) → Type 0
    FindsEarlier depth successors =
        (d : ℕ) (l : List ℕ)
        → 0 < d
        → d ≤ window
        → d ≤ node
        → CircularBuffer.index backrefs (node - d) ≡ some l
        → Finds depth (successors (node - d)) l

    -- From the bits of the calls `symbols`, whatever follows them, the list of the node is found.
    abbrev pub Opens : List ℕ → List Symbol → Type 0
    Opens curr symbols =
        (depth : ℕ) (successors : ℕ → Option (SuccAt lib cs depth)) (rest : List Bool)
        → FindsEarlier depth successors
        → Finds (suc depth)
            (open_labels lib cs (iterator lib cs depth) successors window min_len node
              (encode_all lib cs symbols ++ rest))
            curr

    -- The part of `labels` for the copied nodes, on the calls for them.
    abbrev pub OpensCopied : ℕ → List ℕ → List Symbol → Type 0
    OpensCopied ref_delta copied copy_calls =
        (depth : ℕ) (successors : ℕ → Option (SuccAt lib cs depth))
        → FindsEarlier depth successors
        → (o : Option (MaskedIterator (SuccAt lib cs depth))) × IsCopier lib cs
            (iterator lib cs depth) successors o copied
          × Reads lib cs (open_copied lib cs (iterator lib cs depth) successors node ref_delta) o
              copy_calls
