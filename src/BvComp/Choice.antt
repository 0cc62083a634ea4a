-- ===== src/BvComp/Choice.antt =====
-- One choice of a reference: the stored compressor, its calls, and what their bits are compared with.
use native.Mathlib.Decide.{ℕ_discrete}
use mathlib.Core.Path.{subst}
use rbsc.Base.{
  ℕ, ◌+◌, ◌-◌, ◌≤◌, ◌<◌, ◌≡◌, refl, ◌∙◌, inl, inr, arith, false, none, some, ◌⊎◌, List, length,
  get_elem?, set, length-set, get_elem?-set_self, get_elem?-set_ne, get_elem?-lt, Bool-cases, leb,
  ltb,
}
use rbsc.CircularBuffer
use rbsc.CircularBuffer.{CircularBuffer}
use rbsc.Codec.{CodeLibrary, CodeConsts, Symbol, estimate_all}
use rbsc.Compressor.{Compressor, is_empty, compress}
use rbsc.Compressor.Write.{write}
use rbsc.Sequential.Described.{IsAccessible}
use rbsc.BvComp.{BvComp, Best, store, try_reference}

pub store-lt {ℓ} :
    {A : Type ℓ} (xs : List A) (i : ℕ) (v : A) → i < length xs → store xs i v ≡ some (set xs i v)
store-lt xs i v h = let (a, e) = get_elem?-lt xs i h in rw e

module _ (lib : CodeLibrary) (cs : CodeConsts) (b : BvComp) (curr : List ℕ) where
  -- The calls for the node with the reference `delta`, where `push` considers it.
  pub record IsCandidate (delta : ℕ) (calls : List Symbol) : Type 0 where
    pub count : ℕ
    pub ref_list : List ℕ
    pub compressor : Compressor
    pub has_count : CircularBuffer.index b.ref_counts (b.curr_node - delta) ≡ some count
    pub has_list : CircularBuffer.index b.backrefs (b.curr_node - delta) ≡ some ref_list
    pub allowed : leb b.max_ref_count count ≡ false
    pub nonempty : is_empty ref_list ≡ false
    pub compressed : compress curr (some ref_list) b.min_interval_length ≡ some compressor
    pub written : write lib compressor b.curr_node (some delta) b.min_interval_length ≡ some calls

  -- The best choice so far: no reference, or a node with its reference count and 1.
  abbrev pub Picks : ℕ → ℕ → Compressor → List Symbol → Type 0
  Picks delta ref_count c calls =
      ((delta ≡ 0) × (ref_count ≡ 0) × (compress curr none b.min_interval_length ≡ some c))
      ⊎ ((0 < delta) × (k : IsCandidate delta calls) × (ref_count ≡ k.count + 1))

  module _ (decoder_refs : CircularBuffer (List ℕ)) (plain_bits : ℕ) where
    abbrev pub Encoded : ℕ → Compressor → Type 0
    Encoded delta c =
        IsAccessible lib cs b.compression_window b.min_interval_length b.curr_node decoder_refs curr
          (write lib c b.curr_node (some delta) b.min_interval_length) (Unit {0})

    -- The state in front of the round `delta`.
    pub record IsBest (delta : ℕ) (best : Best) : Type 0 where
      pub size : length best.compressors ≡ b.compression_window + 1
      pub before : best.ref_delta < delta
      pub compressor : Compressor
      pub stored : get_elem? best.compressors best.ref_delta ≡ some compressor
      pub encoded : Encoded best.ref_delta compressor
      pub bits : best.min_bits ≡ estimate_all lib cs encoded.symbols
      pub picks : Picks best.ref_delta best.ref_count compressor encoded.symbols
      pub below : best.min_bits ≤ plain_bits
      pub least :
          (d : ℕ) (calls : List Symbol)
          → 0 < d
          → d < delta
          → IsCandidate d calls
          → best.min_bits ≤ estimate_all lib cs calls
      pub count_le : best.ref_count ≤ b.max_ref_count

    -- A round that does not consider its reference.
    pub IsBest-skip :
        (delta : ℕ) (best : Best)
        → ((calls : List Symbol) → ¬ IsCandidate delta calls)
        → IsBest delta best
        → IsBest (delta + 1) best
    IsBest-skip delta best no_candidate i = record {
      size = i.size;
      before = omega (arith, i.before);
      compressor = i.compressor;
      stored = i.stored;
      encoded = i.encoded;
      bits = i.bits;
      picks = i.picks;
      below = i.below;
      least = λ d calls h k c. elim (ℕ_discrete d delta) [
        | yes e ↦ absurd (no_candidate calls (subst (λ n. IsCandidate n calls) e c))
        | no e ↦ i.least d calls h (omega arith) c
      ];
      count_le = i.count_le;
    }

    -- A round that does: `c` describes the node by the reference `delta`.
    module _ (delta count : ℕ) (ref_list : List ℕ) (best : Best) (c : Compressor)
        (e : Encoded delta c) (in_window : delta ≤ b.compression_window)
        (has_list : CircularBuffer.index b.backrefs (b.curr_node - delta) ≡ some ref_list)
        (compressed : compress curr (some ref_list) b.min_interval_length ≡ some c)
        (i : IsBest delta best) where
      same_calls : (calls : List Symbol) → IsCandidate delta calls → calls ≡ e.symbols
      same_calls calls k =
          let r : k.ref_list ≡ ref_list = cc (k.has_list, has_list) in
          let q : k.compressor ≡ c = cc (k.compressed, compressed, r) in
          cc (k.written, e.written, q)

      no_candidate_below :
          (bound : ℕ)
          → bound ≤ best.min_bits
          → bound ≤ estimate_all lib cs e.symbols
          → (d : ℕ) (calls : List Symbol) → 0 < d
          → d < delta + 1
          → IsCandidate d calls
          → bound ≤ estimate_all lib cs calls
      no_candidate_below bound h k d calls pos l candidate = elim (ℕ_discrete d delta) [
        | yes eq ↦ rw (same_calls calls (subst (λ n. IsCandidate n calls) eq candidate)) k
        | no ne ↦ omega (arith, i.least d calls pos (omega arith) candidate)
      ]

      stored_new : get_elem? (set best.compressors delta c) delta ≡ some c
      stored_new = get_elem?-set_self best.compressors delta c (omega (arith, i.size))

      IsBest-better :
          estimate_all lib cs e.symbols < best.min_bits
          → count < b.max_ref_count
          → 0 < delta
          → CircularBuffer.index b.ref_counts (b.curr_node - delta) ≡ some count
          → leb b.max_ref_count count ≡ false
          → is_empty ref_list ≡ false
          → IsBest (delta + 1) (record {
            compressors = set best.compressors delta c;
            ref_delta = delta;
            min_bits = estimate_all lib cs e.symbols;
            ref_count = count + 1;
          })
      IsBest-better h k pos has_count allowed nonempty = record {
        size = length-set best.compressors delta c ∙ i.size;
        before = omega arith;
        compressor = c;
        stored = stored_new;
        encoded = e;
        bits = refl;
        picks = inr (
          pos,
          record {
            count = count;
            ref_list = ref_list;
            compressor = c;
            has_count = has_count;
            has_list = has_list;
            allowed = allowed;
            nonempty = nonempty;
            compressed = compressed;
            written = e.written;
          },
          refl,
        );
        below = omega (arith, i.below);
        least = no_candidate_below (estimate_all lib cs e.symbols) (omega arith) (omega arith);
        count_le = omega arith;
      }

      IsBest-worse :
          ¬ (estimate_all lib cs e.symbols < best.min_bits)
          → IsBest (delta + 1) (record best { compressors = set best.compressors delta c })
      IsBest-worse h = record {
        size = length-set best.compressors delta c ∙ i.size;
        before = omega (arith, i.before);
        compressor = i.compressor;
        stored =
            get_elem?-set_ne best.compressors delta best.ref_delta c (omega (arith, i.before))
            ∙ i.stored;
        encoded = i.encoded;
        bits = i.bits;
        picks = i.picks;
        below = i.below;
        least = no_candidate_below best.min_bits (omega arith) (omega arith);
        count_le = i.count_le;
      }

      -- What the round leaves.
      abbrev pub Tried : Best → Type 0
      Tried best' =
          (try_reference lib cs b curr delta count ref_list best ≡ some best')
          × IsBest (delta + 1) best'

      pub try_reference-IsBest :
          0 < delta
          → CircularBuffer.index b.ref_counts (b.curr_node - delta) ≡ some count
          → leb b.max_ref_count count ≡ false
          → is_empty ref_list ≡ false
          → (best' : Best) × Tried best'
      unfolding try_reference
      try_reference-IsBest pos has_count h nonempty =
          let stores = store-lt best.compressors delta c (omega (arith, i.size)) in
          elim (Bool-cases (ltb (estimate_all lib cs e.symbols) best.min_bits)) [
            | inl better ↦ (
              _,
              (
                rw (compressed, stores, e.written, better),
                IsBest-better (ground arith) (ground arith) pos has_count h nonempty,
              ),
            )
            | inr worse ↦
                (_, (rw (compressed, stores, e.written, worse), IsBest-worse (ground arith)))
          ]
