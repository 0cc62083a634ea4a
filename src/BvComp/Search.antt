-- ===== src/BvComp/Search.antt =====
-- The loop over the references, with what is known of the best choice.
use rbsc.Base.{
  [], ◌∷◌, length, false, ℕ, zero, suc, ◌+◌, ◌-◌, ◌≤◌, ◌<◌, ◌≡◌, refl, inl, inr, arith, some, List,
  Bool-cases, checked_sub-le, leb,
}
use rbsc.CircularBuffer
use rbsc.CircularBuffer.{CircularBuffer}
use rbsc.Codec.{CodeLibrary, CodeConsts}
use rbsc.Compressor.{is_empty}
use rbsc.Sequential.ExtraTrip.{IsNode}
use rbsc.Sequential.RestTrip.{IsSuccessors}
use rbsc.Sequential.NodeTrip.{access_with_reference}
use rbsc.Sequential.Described.{IsAccessible-if}
use rbsc.BvComp.{BvComp, Best, reference_round, reference_loop}
use rbsc.BvComp.Choice.{IsBest, IsBest-skip, try_reference-IsBest}

is_empty-pos : (xs : List ℕ) → is_empty xs ≡ false → 0 < length xs
is_empty-pos [] e = cc
is_empty-pos (x ∷ xs) e = omega arith

module _ (lib : CodeLibrary) (cs : CodeConsts) (b : BvComp) (curr : List ℕ) where
  module _ (decoder_refs : CircularBuffer (List ℕ)) (plain_bits : ℕ) where
    -- What the buffers hold at a distance `delta` in front of the node.
    pub record IsReference (delta : ℕ) : Type 0 where
      pub count : ℕ
      pub ref_list : List ℕ
      pub has_count : CircularBuffer.index b.ref_counts (b.curr_node - delta) ≡ some count
      pub has_list : CircularBuffer.index b.backrefs (b.curr_node - delta) ≡ some ref_list
      pub decoder_has : CircularBuffer.index decoder_refs (b.curr_node - delta) ≡ some ref_list
      pub successors : IsSuccessors ref_list

    module _ (node : IsNode b.curr_node) (s : IsSuccessors curr)
        (some_window : 0 < b.compression_window) where
      reference_round-IsBest :
          (delta : ℕ) (best : Best)
          → 0 < delta
          → delta ≤ b.compression_window
          → delta ≤ b.curr_node
          → IsReference delta
          → IsBest lib cs b curr decoder_refs plain_bits delta best
          → (best' : Best) × ((reference_round lib cs b curr delta best ≡ some best')
              × IsBest lib cs b curr decoder_refs plain_bits (delta + 1) best')
      unfolding reference_round
      reference_round-IsBest delta best h k l r i =
          let ref_node = checked_sub-le b.curr_node delta l in
          elim (Bool-cases (leb b.max_ref_count r.count)) [
            | inl deep ↦ (
              best,
              (
                rw (ref_node, r.has_count, deep),
                IsBest-skip lib cs b curr decoder_refs plain_bits delta best
                    (λ calls c.
                      let same : c.count ≡ r.count = cc (c.has_count, r.has_count) in
                      cc (c.allowed, deep, same))
                    i,
              ),
            )
            | inr shallow ↦ elim (Bool-cases (is_empty r.ref_list)) [
              | inl none_there ↦ (
                best,
                (
                  rw (ref_node, r.has_count, shallow, r.has_list, none_there),
                  IsBest-skip lib cs b curr decoder_refs plain_bits delta best
                      (λ calls c.
                        let same : c.ref_list ≡ r.ref_list = cc (c.has_list, r.has_list) in
                        cc (c.nonempty, none_there, same))
                      i,
                ),
              )
              | inr some_there ↦
                  let (c, compressed, e) =
                    access_with_reference lib cs b.compression_window b.min_interval_length
                      b.curr_node decoder_refs delta curr r.ref_list node s r.successors some_window
                      h l r.decoder_has in
                  let (best', tried) =
                    try_reference-IsBest lib cs b curr decoder_refs plain_bits delta r.count
                      r.ref_list best c
                      (IsAccessible-if (λ _. (is_empty-pos r.ref_list some_there, k)) e) k
                      r.has_list compressed i h r.has_count shallow some_there in
                  (
                    best',
                    (rw (ref_node, r.has_count, shallow, r.has_list, some_there) tried.0, tried.1),
                  )
            ]
          ]

      pub reference_loop-IsBest :
          (rounds delta : ℕ) (best : Best)
          → 0 < delta
          → rounds + delta ≤ b.compression_window + 1
          → rounds + delta ≤ b.curr_node + 1
          → ((d : ℕ) → 0 < d → d ≤ b.compression_window → d ≤ b.curr_node → IsReference d)
          → IsBest lib cs b curr decoder_refs plain_bits delta best
          → (best' : Best) × ((reference_loop lib cs b curr rounds delta best ≡ some best')
              × IsBest lib cs b curr decoder_refs plain_bits (delta + rounds) best')
      unfolding reference_loop
      reference_loop-IsBest zero delta best h k l refs i =
          let same : delta + 0 ≡ delta = omega arith in (best, (refl, rw same i))
      reference_loop-IsBest (suc rounds) delta best h k l refs i =
          let (middle, one) =
            reference_round-IsBest delta best h (omega arith) (omega arith)
              (refs delta h (omega arith) (omega arith)) i in
          let (best', rest) =
            reference_loop-IsBest rounds (delta + 1) middle (omega arith) (omega arith)
              (omega arith) refs one.1 in
          let same : delta + suc rounds ≡ delta + 1 + rounds = omega arith in
          (best', (rw one.0 rest.0, rw same rest.1))
