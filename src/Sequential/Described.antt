-- ===== src/Sequential/Described.antt =====
-- A successor list that is split into copied and extra nodes, compressed and written, and read.
use rbsc.Base.{
  ℕ, suc, ◌≡◌, refl, arith, Option, some, List, [], ◌∷◌, ◌++◌, append_assoc, length, length-append,
  Interleave, Interleave-length, sort, sort-three, checked_sub-add, if◌then◌else◌, ◌==◌,
}
use rbsc.CircularBuffer.{CircularBuffer}
use rbsc.Codec.{CodeLibrary, CodeConsts, Symbol, outdegree, reference_offset}
use rbsc.Compressor.{Compressor, empty, Pushed, divide_extra, compress}
use rbsc.Compressor.Write.{write, write_reference, write_extra, write_residuals}
use rbsc.Sequential.{pure, read, read_copied, read_from_reference, read_successors, get_successors}
use rbsc.Sequential.Stream.{Reads, Reads-pure, Reads-symbol, Reads-append, Reads-lift, Reads-map}
use rbsc.Sequential.ExtraTrip.{IsNode}
use rbsc.Sequential.RestTrip.{
  IsSuccessors, IsSuccessors-length, IsSuccessors-extra, IsWritten, divide_extra-IsWritten,
  suc-eq-zero,
}
use rbsc.RandomAccess.Labels.{iterator}
use rbsc.RandomAccess.OpenTrip.{open_labels-Yields, open_labels-empty}
use rbsc.RandomAccess.Opens.{Opens, OpensCopied}

module _ (lib : CodeLibrary) (cs : CodeConsts) (node min_len : ℕ) where
  Reads-from_reference :
      (backrefs : CircularBuffer (List ℕ)) (ref_delta : ℕ) (curr copied extra : List ℕ)
      (c : Compressor) (copy_calls : List Symbol)
      → IsSuccessors curr
      → Interleave copied extra curr
      → Reads lib cs (read_copied lib cs node backrefs ref_delta) copied copy_calls
      → (w : IsWritten lib cs node min_len c extra)
      → Reads lib cs
          (read_from_reference lib cs min_len node backrefs (length curr) ref_delta)
          curr
          (copy_calls ++ (w.interval_calls ++ w.residual_calls))
  unfolding read_from_reference
  Reads-from_reference backrefs ref_delta curr copied extra c copy_calls s i r w =
      let left_behind_copied =
        checked_sub-add (length curr) (length copied) (length extra) (Interleave-length i) in
      let left_behind_intervals =
        checked_sub-add (length curr) (length (copied ++ w.from_intervals)) (length w.residuals) (
          omega (
            arith,
            Interleave-length i,
            Interleave-length w.shuffle,
            length-append copied w.from_intervals,
          )) in
      Reads-append lib cs _ copied _ curr copy_calls _ r (
        Reads-lift lib cs _ (length extra) _ _ _ left_behind_copied (
          Reads-append lib cs _ w.from_intervals _ curr w.interval_calls _ w.reads_intervals (
            Reads-lift lib cs _ (length w.residuals) _ _ _ left_behind_intervals (
              Reads-map lib cs _ w.residuals
                (λ (residuals : List ℕ). sort (copied ++ (w.from_intervals ++ residuals))) curr _
                (sort-three 0 i w.shuffle s.ascending) w.reads_residuals))))

divide_extra-outdegree : (d min_len : ℕ) (p : Pushed) → (divide_extra d min_len p).outdegree ≡ d
unfolding divide_extra
divide_extra-outdegree d min_len p = ground arith

divide_extra-blocks : (d min_len : ℕ) (p : Pushed) → (divide_extra d min_len p).blocks ≡ p.blocks
unfolding divide_extra
divide_extra-blocks d min_len p = ground arith

-- How a node is encoded against `backrefs`, and that it is decoded.
pub record IsEncoded (lib : CodeLibrary) (cs : CodeConsts) (window min_len node : ℕ)
    (backrefs : CircularBuffer (List ℕ)) (curr : List ℕ) (calls : Option (List Symbol))
    : Type 0 where
  pub symbols : List Symbol
  pub written : calls ≡ some symbols
  pub read_back : Reads lib cs (get_successors lib cs window min_len node backrefs) curr symbols

-- The same, and that `labels` finds the list on a condition on the reference.
pub record IsAccessible (lib : CodeLibrary) (cs : CodeConsts) (window min_len node : ℕ)
    (backrefs : CircularBuffer (List ℕ)) (curr : List ℕ) (calls : Option (List Symbol))
    (condition : Type 0) : Type 0 where
  pub symbols : List Symbol
  pub written : calls ≡ some symbols
  pub read_back : Reads lib cs (get_successors lib cs window min_len node backrefs) curr symbols
  pub opens : condition → Opens lib cs window min_len node backrefs curr symbols

-- On another condition.
pub IsAccessible-if :
    {lib : CodeLibrary} {cs : CodeConsts} {window min_len node : ℕ}
    {backrefs : CircularBuffer (List ℕ)} {curr : List ℕ} {calls : Option (List Symbol)}
    {condition stronger : Type 0}
    → (stronger → condition)
    → IsAccessible lib cs window min_len node backrefs curr calls condition
    → IsAccessible lib cs window min_len node backrefs curr calls stronger
IsAccessible-if f a = record {
  symbols = a.symbols;
  written = a.written;
  read_back = a.read_back;
  opens = λ h. a.opens (f h);
}

pub IsAccessible-IsEncoded :
    {lib : CodeLibrary} {cs : CodeConsts} {window min_len node : ℕ}
    {backrefs : CircularBuffer (List ℕ)} {curr : List ℕ} {calls : Option (List Symbol)}
    {condition : Type 0}
    → IsAccessible lib cs window min_len node backrefs curr calls condition
    → IsEncoded lib cs window min_len node backrefs curr calls
IsAccessible-IsEncoded a = record {
  symbols = a.symbols;
  written = a.written;
  read_back = a.read_back;
}

module _ (lib : CodeLibrary) (cs : CodeConsts) (window min_len node : ℕ)
    (backrefs : CircularBuffer (List ℕ)) where
  -- The successors `x ∷ xs`, split into copied and extra nodes, with the calls for the reference.
  pub encode_split :
      (offset : Option ℕ) (x : ℕ) (xs copied : List ℕ) (p : Pushed) (ref_delta : ℕ)
      (ref_calls delta_calls copy_calls : List Symbol)
      → IsNode node
      → IsSuccessors (x ∷ xs)
      → Interleave copied p.extra_nodes (x ∷ xs)
      → write_reference offset p.blocks ≡ some ref_calls
      → delta_calls ++ copy_calls ≡ ref_calls
      → Reads lib cs
          (if window == 0 then pure 0 else read lib cs reference_offset)
          ref_delta
          delta_calls
      → Reads lib cs (read_copied lib cs node backrefs ref_delta) copied copy_calls
      → IsAccessible lib cs window min_len node backrefs
          (x ∷ xs)
          (write lib (divide_extra (suc (length xs)) min_len p) node offset min_len)
          (OpensCopied lib cs window min_len node backrefs ref_delta copied copy_calls)
  unfolding write get_successors read_successors
  encode_split offset x xs copied p ref_delta ref_calls delta_calls copy_calls h s i e f rd rc =
      let c = divide_extra (suc (length xs)) min_len p in
      let degree = divide_extra-outdegree (suc (length xs)) min_len p in
      let w =
        divide_extra-IsWritten lib cs node (suc (length xs)) p.blocks min_len p.extra_nodes h
          (IsSuccessors-extra i s) in
      let rest = w.interval_calls ++ w.residual_calls in
      record {
        symbols = (outdegree, suc (length xs)) ∷ (delta_calls ++ (copy_calls ++ rest));
        written = rw (
          w.writes_intervals,
          w.writes_residuals,
          degree,
          suc-eq-zero (length xs),
          divide_extra-blocks (suc (length xs)) min_len p,
          e,
          ← f,
          append_assoc delta_calls copy_calls rest,
        );
        read_back =
            Reads-symbol lib cs outdegree (suc (length xs)) _ _ _
              (omega (arith, IsSuccessors-length (x ∷ xs) s))
              (rw (suc-eq-zero (length xs)) (
                Reads-append lib cs _ ref_delta _ (x ∷ xs) delta_calls _ rd (
                  Reads-from_reference lib cs node min_len backrefs ref_delta (x ∷ xs) copied
                    p.extra_nodes c copy_calls s i rc w)));
        opens = λ copier depth successors rest' earlier.
            let (o, k, r) = copier depth successors earlier in
            open_labels-Yields lib cs (iterator lib cs depth) successors node min_len h (x ∷ xs)
              copied p.extra_nodes c s i w o k window ref_delta delta_calls copy_calls rd r
              (length xs) rest' refl;
      }

  -- No successors: only the outdegree is written.
  pub encode_empty :
      (offset : Option ℕ) (ref_list : Option (List ℕ))
      → (condition : Type 0)
      → (c : Compressor) × (compress [] ref_list min_len ≡ some c)
        × IsAccessible lib cs window min_len node backrefs []
            (write lib c node offset min_len)
            condition
  unfolding compress write write_extra write_residuals get_successors
  encode_empty offset ref_list condition = (
    empty,
    refl,
    record {
      symbols = (outdegree, 0) ∷ [];
      written = refl;
      read_back = Reads-symbol lib cs outdegree 0 _ _ _ (omega arith) (Reads-pure lib cs []);
      opens = λ _ depth successors rest _.
          open_labels-empty lib cs (iterator lib cs depth) successors window min_len node rest;
    },
  )
