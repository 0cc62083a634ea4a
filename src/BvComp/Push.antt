-- ===== src/BvComp/Push.antt =====
-- `push`, with and without a window.
use Prim.Native.Nat.{min}
use rbsc.Base.{
  ℕ, ◌+◌, ◌-◌, ◌≤◌, ◌<◌, ◌≡◌, refl, subst, ◌∙◌, inl, inr, arith, Bool, true, false, Option, none,
  some, List, [], ◌++◌, length, get_elem?, set, length-set, checked_sub-le, ◌==◌, if◌then◌else◌,
  get_elem?-set_self,
}
use rbsc.CircularBuffer.{CircularBuffer}
use rbsc.CircularBuffer.Laws.{
  capacity, put, capacity-put, replace-eq-put, take-eq-put, index-put_self, put-put, AllSlots,
  put-AllSlots,
}
use rbsc.Codec.{CodeLibrary, CodeConsts, Symbol, encode_all, estimate_all}
use rbsc.Codec.Laws.{estimate_all-eq-length}
use rbsc.Compressor.{Compressor, compress}
use rbsc.Compressor.Write.{write}
use rbsc.Sequential.ExtraTrip.{IsNode}
use rbsc.Sequential.RestTrip.{IsSuccessors}
use rbsc.Sequential.Described.{IsAccessible}
use rbsc.Sequential.NodeTrip.{access_without_reference}
use rbsc.BvComp.{BvComp, Best, push_plain, push_best, push}
use rbsc.BvComp.Choice.{store-lt, IsBest}
use rbsc.BvComp.Search.{reference_loop-IsBest}
use rbsc.BvComp.State.{
  IsState, IsPushed, IsFewest, IsChosen, loaded, decoder_refs, loaded-IsReference,
}

module _ (lib : CodeLibrary) (cs : CodeConsts) (b : BvComp) (succs : List ℕ) where
  abbrev after : List Symbol → List Compressor → CircularBuffer ℕ → BvComp
  after calls compressors ref_counts = record (loaded lib cs b succs) {
    encoder = b.encoder ++ encode_all lib cs calls;
    compressors = compressors;
    ref_counts = ref_counts;
    curr_node = b.curr_node + 1;
  }

  abbrev Encodes : Option ℕ → Compressor → Type 0
  Encodes offset c =
      IsAccessible lib cs b.compression_window b.min_interval_length b.curr_node
        (decoder_refs lib cs b succs) succs (write lib c b.curr_node offset b.min_interval_length)
        (Unit {0})

  -- What a call returns.
  abbrev pub Returns : Option (ℕ × BvComp) → Type 0
  Returns o =
      (r : ℕ × BvComp) × ((o ≡ some r)
        × IsPushed lib cs b succs r.0 r.1
        × (0 < b.compression_window
            → IsFewest lib cs b succs r.0 × IsChosen lib cs b succs r.0 r.1))

  module _ (i : IsState b) (n : IsNode b.curr_node) (s : IsSuccessors succs) where
    after-IsPushed :
        (offset : Option ℕ) (c : Compressor) (e : Encodes offset c) (compressors : List Compressor)
        (ref_counts : CircularBuffer ℕ)
        → length compressors ≡ b.compression_window + 1
        → capacity ref_counts ≡ b.compression_window + 1
        → AllSlots (λ m. m ≤ b.max_ref_count) ref_counts
        → IsPushed lib cs b succs
            (length (encode_all lib cs e.symbols))
            (after e.symbols compressors ref_counts)
    after-IsPushed offset c e compressors ref_counts h k l = record {
      calls = e.symbols;
      state = record {
        backrefs_size = capacity-put b.backrefs b.curr_node succs ∙ i.backrefs_size;
        counts_size = k;
        compressors_size = h;
        started = omega (arith, i.started);
        lists = put-AllSlots IsSuccessors b.backrefs b.curr_node succs i.lists s;
        counts = l;
      };
      written = refl;
      counted = refl;
      refs = refl;
      node = refl;
      window = refl;
      min_len = refl;
      arcs = refl;
      read_back = e.read_back;
      opens = e.opens tt;
    }

    module _ (c : Compressor) (compressed : compress succs none b.min_interval_length ≡ some c)
        (compressors : List Compressor) (size : length compressors ≡ b.compression_window + 1)
        (stored : get_elem? compressors 0 ≡ some c) where
      push_plain-Returns :
          b.compression_window ≡ 0
          → Encodes none c
          → Returns (push_plain lib cs (loaded lib cs b succs) c compressors)
      unfolding push_plain
      push_plain-Returns w e = (
        (length (encode_all lib cs e.symbols), after e.symbols compressors b.ref_counts),
        (
          rw e.written,
          after-IsPushed none c e compressors b.ref_counts size i.counts_size i.counts,
          λ h. absurd (omega arith),
        ),
      )

      first_best : Encodes (some 0) c → Best
      first_best e = record {
        compressors = compressors;
        ref_delta = 0;
        min_bits = estimate_all lib cs e.symbols;
        ref_count = 0;
      }

      first_best-IsBest :
          (e : Encodes (some 0) c)
          → IsBest lib cs
              (loaded lib cs b succs)
              succs
              (decoder_refs lib cs b succs)
              (estimate_all lib cs e.symbols)
              1
              (first_best e)
      unfolding first_best
      first_best-IsBest e = record {
        size = size;
        before = omega arith;
        compressor = c;
        stored = stored;
        encoded = e;
        bits = refl;
        below = omega arith;
        least = λ d calls h k _. absurd (omega arith);
        picks = inl (refl, refl, compressed);
        count_le = omega arith;
      }

      push_best-Returns :
          0 < b.compression_window
          → Encodes (some 0) c
          → Returns (push_best lib cs (loaded lib cs b succs) succs c compressors)
      unfolding push_best first_best
      push_best-Returns w e =
          let rounds = min b.compression_window (b.curr_node - b.start_node) in
          let (best, (ends, found)) =
            reference_loop-IsBest lib cs (loaded lib cs b succs) succs (decoder_refs lib cs b succs)
              (estimate_all lib cs e.symbols) n s w rounds 1 (first_best e) (omega arith)
              (omega arith) (omega (arith, i.started))
              (λ d h k l.
                loaded-IsReference lib cs b succs i n s d h k l (estimate_all lib cs e.symbols))
              (first_best-IsBest e) in
          let counts = put b.ref_counts b.curr_node best.ref_count in
          let bits =
            estimate_all-eq-length lib cs found.encoded.symbols found.encoded.read_back.codable in
          (
            (
              length (encode_all lib cs found.encoded.symbols),
              after found.encoded.symbols best.compressors counts,
            ),
            (
              rw (
                e.written,
                checked_sub-le b.curr_node b.start_node i.started,
                ends,
                found.stored,
                found.encoded.written,
                replace-eq-put b.ref_counts b.curr_node best.ref_count
                    (omega (arith, i.counts_size)),
              ),
              after-IsPushed (some best.ref_delta) found.compressor found.encoded best.compressors
                  counts found.size
                  (capacity-put b.ref_counts b.curr_node best.ref_count ∙ i.counts_size)
                  (put-AllSlots (λ m. m ≤ b.max_ref_count) b.ref_counts b.curr_node best.ref_count
                    i.counts found.count_le),
              λ _. (
                record {
                  plain = λ c' calls h k.
                      let same : c' ≡ c = cc (h, compressed) in
                      let same_calls : calls ≡ e.symbols = cc (same, k, e.written) in
                      rw same_calls (omega (arith, bits, found.bits, found.below));
                  references = λ d calls h k l candidate.
                      omega
                        (arith, bits, found.bits, found.least d calls h (omega arith) candidate);
                },
                record {
                  calls = found.encoded.symbols;
                  ref_delta = best.ref_delta;
                  ref_count = best.ref_count;
                  written = refl;
                  counted = refl;
                  kept = refl;
                  in_window = omega (arith, found.before);
                  in_graph = omega (arith, found.before);
                  choice = elim found.picks [
                    | inl (z, none_counted, plain) ↦ inl (
                      z,
                      none_counted,
                      found.compressor,
                      plain,
                      subst
                          (λ d.
                            write lib found.compressor b.curr_node (some d) b.min_interval_length
                            ≡ some found.encoded.symbols)
                          z found.encoded.written,
                    )
                    | inr p ↦ inr p
                  ];
                },
              ),
            ),
          )

    push_end-Returns :
        (no_window : Bool) (c : Compressor)
        → (b.compression_window == 0) ≡ no_window
        → compress succs none b.min_interval_length ≡ some c
        → Encodes (if no_window then none else some 0) c
        → Returns (
            if no_window
            then push_plain lib cs (loaded lib cs b succs) c (set b.compressors 0 c)
            else push_best lib cs (loaded lib cs b succs) succs c (set b.compressors 0 c))
    push_end-Returns true c w compressed e =
        push_plain-Returns c compressed (set b.compressors 0 c)
          (length-set b.compressors 0 c ∙ i.compressors_size)
          (get_elem?-set_self b.compressors 0 c (omega (arith, i.compressors_size))) (ground arith)
          e
    push_end-Returns false c w compressed e =
        push_best-Returns c compressed (set b.compressors 0 c)
          (length-set b.compressors 0 c ∙ i.compressors_size)
          (get_elem?-set_self b.compressors 0 c (omega (arith, i.compressors_size))) (ground arith)
          e

    pub push-Returns : Returns (push lib cs b succs)
    unfolding push
    push-Returns =
        let some_slot : 0 < capacity b.backrefs = omega (arith, i.backrefs_size) in
        let (_, taken) = take-eq-put [] b.backrefs b.curr_node some_slot in
        let emptied = put b.backrefs b.curr_node [] in
        let replaced =
          replace-eq-put emptied b.curr_node succs
            (omega (arith, capacity-put b.backrefs b.curr_node [], some_slot)) in
        let (c, compressed, e) =
          access_without_reference lib cs b.compression_window b.min_interval_length b.curr_node
            (decoder_refs lib cs b succs) succs n s in
        rw
          (
            taken,
            replaced,
            put-put b.backrefs b.curr_node [] succs,
            index-put_self b.backrefs b.curr_node succs some_slot,
            compressed,
            store-lt b.compressors 0 c (omega (arith, i.compressors_size)),
          )
          (push_end-Returns (b.compression_window == 0) c refl compressed e)
