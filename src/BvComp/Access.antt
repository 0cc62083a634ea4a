-- ===== src/BvComp/Access.antt =====
-- The stream that the compressor writes, read at random: `labels` and `outdegree` of every node.
use rbsc.Base.{
  ℕ, zero, suc, ◌+◌, ◌-◌, ◌≤◌, ◌<◌, ◌≡◌, refl, sym, ap, ◌∙◌, arith, some, Bool, List, [], ◌∷◌, ◌++◌,
  append_assoc, length, All, take, drop, get_elem?, drop_append_left,
}
use mathlib.Core.Option.{some-injective}
use rbsc.Codec.{CodeLibrary, CodeConsts, encode_all, i64_min}
use rbsc.RandomAccess.Labels.{iterator, labels, outdegree_of}
use rbsc.RandomAccess.{len}
use rbsc.RandomAccess.Outdegree.{open_labels-size}
use rbsc.MaskedIterator.Yields.{Yields-len}
use rbsc.RandomAccess.Opens.{Finds}
use rbsc.Sequential.RestTrip.{IsSuccessors}
use rbsc.BvComp.{BvComp, new, extend}
use rbsc.BvComp.State.{new-IsState}
use rbsc.BvComp.Places.{IsPlaced, extend-IsPlaced}

get_elem?-bound {ℓ} :
    {A : Type ℓ} (xs : List A) (i : ℕ) (a : A) → get_elem? xs i ≡ some a → i < length xs
get_elem?-bound [] i a e = cc
get_elem?-bound (x ∷ xs) zero a e = omega arith
get_elem?-bound (x ∷ xs) (suc i) a e = omega (arith, get_elem?-bound xs i a e)

module _ (lib : CodeLibrary) (cs : CodeConsts) (window max_ref_count min_len : ℕ)
    (lists : List (List ℕ)) where
  -- The decoder of a node stands, in the stream and what follows it, behind as many bits as `extend`
  -- returns for the lists of the nodes before it.
  abbrev pub IsPositioned : (ℕ → List Bool) → List Bool → Type 0
  IsPositioned new_decoder stream =
      (node : ℕ) (prefix : ℕ × BvComp)
      → node < length lists
      → extend lib cs (new [] window max_ref_count min_len 0) (take node lists) ≡ some prefix
      → new_decoder node ≡ drop prefix.0 stream

  module _ (successors : All IsSuccessors lists) (nodes : length lists ≤ i64_min) where
    fresh-IsPlaced :
        (node : ℕ) (l : List ℕ)
        → get_elem? lists node ≡ some l
        → IsPlaced lib cs window min_len lists (new [] window max_ref_count min_len 0) lists node l
    unfolding new
    fresh-IsPlaced node l e =
        extend-IsPlaced lib cs window min_len lists lists (new [] window max_ref_count min_len 0)
          node l (new-IsState [] window max_ref_count min_len 0) refl refl successors (omega arith)
          (λ d h k m. absurd (omega arith)) (λ j. ap (get_elem? lists) (omega arith)) e

    module _ (r : ℕ × BvComp)
        (extended : extend lib cs (new [] window max_ref_count min_len 0) lists ≡ some r)
        (rest : List Bool) (new_decoder : ℕ → List Bool)
        (positioned : IsPositioned new_decoder (r.1.encoder ++ rest)) where
      -- The bits from the position of a node on.
      decoder-IsPlaced :
          (node : ℕ) (l : List ℕ)
          (placed : IsPlaced lib cs window min_len lists
            (new [] window max_ref_count min_len 0)
            lists
            node
            l)
          → node < length lists
          → new_decoder node ≡ encode_all lib cs placed.calls ++ (placed.after ++ rest)
      unfolding new
      decoder-IsPlaced node l placed h =
          let same : r.1.encoder
              ≡ placed.before ++ (encode_all lib cs placed.calls ++ placed.after) =
            ap (λ (x : ℕ × BvComp). x.1.encoder)
              (some-injective r placed.result (sym extended ∙ placed.extended))
            ∙ placed.written in
          positioned node placed.prefix h placed.extended_before
          ∙ rw
              (
                same,
                append_assoc placed.before (encode_all lib cs placed.calls ++ placed.after) rest,
                append_assoc (encode_all lib cs placed.calls) placed.after rest,
              )
              (drop_append_left placed.before _ placed.prefix.0 placed.position)

      labels-Finds :
          (depth node : ℕ) (l : List ℕ)
          → node < depth
          → node < length lists
          → get_elem? lists node ≡ some l
          → Finds lib cs depth (labels lib cs new_decoder window min_len depth node) l
      unfolding labels new
      labels-Finds zero node l h k e = absurd (omega arith)
      labels-Finds (suc depth) node l h k e =
          let placed = fresh-IsPlaced node l e in
          let here : (new [] window max_ref_count min_len 0).curr_node + node ≡ node =
            omega arith in
          rw (decoder-IsPlaced node l placed k) (
            rw here at (
              placed.opens depth (labels lib cs new_decoder window min_len depth)
                (placed.after ++ rest)
                (λ d l' pos in_window before e'.
                  labels-Finds depth ((new [] window max_ref_count min_len 0).curr_node + node - d)
                    l' (omega arith) (omega arith) e')))

      outdegree_of-lem :
          (node : ℕ) (l : List ℕ)
          → Finds lib cs (suc node) (labels lib cs new_decoder window min_len (suc node) node) l
          → outdegree_of lib cs new_decoder node ≡ some (length l)
      unfolding labels outdegree_of len
      outdegree_of-lem node l (s, e, y) =
          let it = iterator lib cs node in
          let (reader, f) =
            open_labels-size lib cs it (labels lib cs new_decoder window min_len node) window
              min_len node (new_decoder node) s e in
          let size : s.size ≡ length l = Yields-len (iterator lib cs (suc node)) s l y in
          rw (outdegree_of, f, size)

-- When `extend` has written strictly increasing successor lists of nodes below 2^63 from node 0 on, and
-- the decoder of each node stands, in that stream and whatever follows it, behind as many bits as
-- `extend` returns for the lists before it: for each node, with any depth above it, `labels` opens an
-- iterator without a panic that knows the length of the node's list, yields the list in order and then
-- ends, and `outdegree` returns that length.
pub labels-extend :
    (lib : CodeLibrary) (cs : CodeConsts) (window max_ref_count min_len : ℕ) (lists : List (List ℕ))
    (r : ℕ × BvComp) (rest : List Bool) (new_decoder : ℕ → List Bool) (depth node : ℕ) (l : List ℕ)
    → All IsSuccessors lists
    → length lists ≤ i64_min
    → extend lib cs (new [] window max_ref_count min_len 0) lists ≡ some r
    → IsPositioned lib cs window max_ref_count min_len lists new_decoder (r.1.encoder ++ rest)
    → node < depth
    → get_elem? lists node ≡ some l
    → Finds lib cs depth (labels lib cs new_decoder window min_len depth node) l
      × (outdegree_of lib cs new_decoder node ≡ some (length l))
labels-extend lib cs window max_ref_count min_len lists r rest new_decoder depth node l s n e p h
      k =
    let before : node < length lists = get_elem?-bound lists node l k in
    let find = labels-Finds lib cs window max_ref_count min_len lists s n r e rest new_decoder p in
    (
      find depth node l h before k,
      outdegree_of-lem lib cs window max_ref_count min_len lists s n r e rest new_decoder p node l
          (find (suc node) node l (omega arith) before k),
    )
