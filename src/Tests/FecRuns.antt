-- ===== src/Tests/FecRuns.antt =====
-- Code words with losses, and groups of packets of different lengths.
use qdap_protocol.Base.{◌≡◌, refl, true, false, List, [], ◌∷◌, Option, none, some, ok, arith, inl}
use qdap_protocol.Bytes.{Bytes}
use qdap_protocol.Fec.{
  fec_encode, fec_decode, encode_chunks, chunks_from, add_parities, xor_at, xor_into, xor_known,
  missing,
}
use qdap_protocol.Fec.RoundTrip.{fec_decode-fec_encode, fec_decode-eq_none}
use qdap_protocol.Fec.Codec.{
  FecEncoder, AdaptiveFec, reliable, emergency, encode_group, decode_group, recover_all,
  recover_stripe, parities_from, xor_stripe, adaptive_encode, FecBlock,
}
use qdap_protocol.Fec.Codec.Recovers.{decode_group-encode_group, GivesBack}
use qdap_protocol.Fec.Codec.Adaptive.{adaptive_encode-Sends, Sends}

abbrev payload : Bytes
payload = 1 ∷ 2 ∷ 3 ∷ 4 ∷ 5 ∷ []

abbrev code_word : List Bytes
code_word = (1 ∷ 2 ∷ []) ∷ (3 ∷ 4 ∷ []) ∷ (5 ∷ 0 ∷ []) ∷ (4 ∷ 2 ∷ []) ∷ (3 ∷ 4 ∷ []) ∷ []

encoded : fec_encode payload 3 2 ≡ ok code_word
unfolding fec_encode encode_chunks chunks_from add_parities xor_at xor_into
encoded = refl

-- The first packet and the second parity are lost.
abbrev received : List (Option Bytes)
received = none ∷ some (3 ∷ 4 ∷ []) ∷ some (5 ∷ 0 ∷ []) ∷ some (4 ∷ 2 ∷ []) ∷ none ∷ []

fec_decode-fec_encode_example : fec_decode received 3 2 5 ≡ some payload
unfolding missing
fec_decode-fec_encode_example =
    fec_decode-fec_encode payload 3 2 code_word received (omega arith) encoded
      (refl, (refl, (refl, tt))) (omega arith, (omega arith, tt))

-- Two of the four packets of the profile BALANCED, a packet and its parity.
abbrev two_lost : List (Option Bytes)
two_lost = none ∷ some (3 ∷ []) ∷ none ∷ some (3 ∷ []) ∷ []

fec_decode-eq_none_example : fec_decode two_lost 2 2 2 ≡ none
unfolding missing
fec_decode-eq_none_example =
    fec_decode-eq_none two_lost 2 2 2 (omega arith) (omega arith) (inl (omega arith))

abbrev encoder : FecEncoder
encoder = record { profile = reliable; sequence = 7 }

abbrev block : FecBlock
block = record {
  sequence = 7;
  data_packets = (1 ∷ 2 ∷ 3 ∷ []) ∷ (4 ∷ []) ∷ [];
  parity_packets = (5 ∷ 2 ∷ 3 ∷ []) ∷ [];
  profile = reliable;
}

grouped :
    encode_group encoder ((1 ∷ 2 ∷ 3 ∷ []) ∷ (4 ∷ []) ∷ [])
    ≡ ok (block, record encoder { sequence = 8 })
unfolding encode_group parities_from xor_stripe xor_into
grouped = refl

decode_group-encode_group_example :
    GivesBack 3
      ((1 ∷ 2 ∷ 3 ∷ []) ∷ (4 ∷ []) ∷ [])
      (decode_group block (some (1 ∷ 2 ∷ 3 ∷ []) ∷ none ∷ []) (some (5 ∷ 2 ∷ 3 ∷ []) ∷ []))
unfolding missing
decode_group-encode_group_example =
    decode_group-encode_group encoder (1 ∷ 2 ∷ 3 ∷ []) (4 ∷ []) [] block
      (record encoder { sequence = 8 }) (some (1 ∷ 2 ∷ 3 ∷ []) ∷ none ∷ [])
      (some (5 ∷ 2 ∷ 3 ∷ []) ∷ []) (omega arith) grouped (refl, tt) (refl, tt) (omega arith, tt)

-- The shorter packet comes back with its zeros.
padded_back :
    decode_group block (some (1 ∷ 2 ∷ 3 ∷ []) ∷ none ∷ []) (some (5 ∷ 2 ∷ 3 ∷ []) ∷ [])
    ≡ some ((1 ∷ 2 ∷ 3 ∷ []) ∷ (4 ∷ 0 ∷ 0 ∷ []) ∷ [])
unfolding decode_group recover_all recover_stripe missing xor_known xor_into
padded_back = refl

-- Under k = 1 every parity is a copy of the first packet: a lost second packet comes back as
-- another one.
copied :
    encode_group (record { profile = emergency; sequence = 0 }) ((1 ∷ []) ∷ (2 ∷ []) ∷ [])
    ≡ ok (
      record {
        sequence = 0;
        data_packets = (1 ∷ []) ∷ (2 ∷ []) ∷ [];
        parity_packets = (1 ∷ []) ∷ (1 ∷ []) ∷ [];
        profile = emergency;
      },
      record { profile = emergency; sequence = 1 },
    )
unfolding encode_group
copied = refl

wrong_back :
    decode_group
      (record { sequence = 0; data_packets = []; parity_packets = []; profile = emergency })
      (some (1 ∷ []) ∷ none ∷ [])
      (some (1 ∷ []) ∷ some (1 ∷ []) ∷ [])
    ≡ some ((1 ∷ []) ∷ (1 ∷ []) ∷ [])
unfolding decode_group recover_all recover_stripe missing xor_known xor_into
wrong_back = refl

abbrev adaptive : AdaptiveFec
adaptive = record { observed_loss = 0x3fd0000000000000; encoder = encoder }

adaptive_encode-Sends_example :
    Sends payload
      (adaptive_encode adaptive payload false 0x4008000000000000 true 0x4069000000000000)
adaptive_encode-Sends_example =
    adaptive_encode-Sends adaptive payload false 0x4008000000000000 true 0x4069000000000000
