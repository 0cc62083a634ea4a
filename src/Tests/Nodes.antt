-- ===== src/Tests/Nodes.antt =====
-- The theorems on the parts of the compressor and the decoder, each at an input.
use rbsc.Base.{ℕ, ◌-◌, ◌≡◌, refl, arith, true, none, some, List, [], ◌∷◌, ◌++◌, length}
use rbsc.CircularBuffer
use rbsc.CircularBuffer.{CircularBuffer}
use rbsc.CircularBuffer.Laws.{capacity, index-replace}
use rbsc.Codec.{encode, decode, encode_all, estimate_all, outdegree, residual}
use rbsc.Codec.Laws.{decode-encode, estimate_all-eq-length}
use rbsc.Compressor.{Compressor, compress}
use rbsc.Compressor.Write.{write}
use rbsc.Sequential.Described.{IsEncoded}
use rbsc.Sequential.NodeTrip.{encode_with_reference, encode_without_reference}
use rbsc.Tests.Codes.{unary, consts}

abbrev refs : CircularBuffer (List ℕ)
refs = record { slots = (1 ∷ 2 ∷ 5 ∷ []) ∷ [] ∷ [] ∷ [] }

encode_with_reference_example :
    (c : Compressor) × (compress (1 ∷ 5 ∷ 6 ∷ []) (some (1 ∷ 2 ∷ 5 ∷ [])) 2 ≡ some c)
    × IsEncoded unary consts 2 2 4 refs (1 ∷ 5 ∷ 6 ∷ []) (write unary c 4 (some 1) 2)
unfolding CircularBuffer.index
encode_with_reference_example =
    encode_with_reference unary consts 2 2 4 refs 1 (1 ∷ 5 ∷ 6 ∷ []) (1 ∷ 2 ∷ 5 ∷ []) (omega arith)
      (omega arith) (omega arith) (omega arith) (omega arith) (omega arith) refl

encode_without_reference_example :
    (c : Compressor) × (compress (1 ∷ 5 ∷ 6 ∷ []) none 2 ≡ some c)
    × IsEncoded unary consts 2 2 4 refs (1 ∷ 5 ∷ 6 ∷ []) (write unary c 4 (some 0) 2)
encode_without_reference_example =
    encode_without_reference unary consts 2 2 4 refs (1 ∷ 5 ∷ 6 ∷ []) (omega arith) (omega arith)

decode-encode_example :
    decode unary consts residual (encode unary consts residual 3 ++ (true ∷ []))
    ≡ some (3, true ∷ [])
decode-encode_example = decode-encode unary consts residual 3 (true ∷ []) (omega arith)

estimate_all-eq-length_example :
    estimate_all unary consts ((outdegree, 2) ∷ (residual, 4) ∷ [])
    ≡ length (encode_all unary consts ((outdegree, 2) ∷ (residual, 4) ∷ []))
estimate_all-eq-length_example =
    estimate_all-eq-length unary consts ((outdegree, 2) ∷ (residual, 4) ∷ []) (omega arith)

abbrev cells : CircularBuffer ℕ
cells = record { slots = 10 ∷ 11 ∷ 12 ∷ [] }

index-replace_example :
    (b' : CircularBuffer ℕ) × ((CircularBuffer.replace cells 7 99 ≡ some b')
      × (capacity b' ≡ 3)
      × (CircularBuffer.index b' 7 ≡ some 99)
      × (CircularBuffer.index b' (7 - 2) ≡ CircularBuffer.index cells (7 - 2)))
index-replace_example = index-replace cells 7 2 99 (omega arith) (omega arith) (omega arith)
