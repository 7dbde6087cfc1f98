-- ===== src/Fec/Codec.antt =====
-- src/qdap/transport/fec.py: the profiles, the encoder of a group of packets and its decoder, and
-- the choice of a profile (src/qdap/_rust_bridge.py, fec_select_profile). A loss rate, an overhead
-- and a round trip time are non-negative floats as bit patterns.
pub mod Padding
pub mod Filled
pub mod Recovers
pub mod Adaptive
use qdap_protocol.Base.{
  ℕ, zero, suc, ◌+◌, ◌-◌, ◌%◌, Bool, true, false, ◌&&◌, List, [], ◌∷◌, ◌++◌, length, take, drop,
  map, replicate, Option, none, some, Result, ok, err, ◌>>=◌, Error, max, ltb, leb, ◌==◌,
  if◌then◌else◌, list_eq,
}
use qdap_protocol.Bytes.{Bytes}
use qdap_protocol.Fec.{
  fec_encode, ljust, xor_into, xor_known, missing, store, count_lost, all_there,
}

pub data FecProfile : Type 0 where
  emergency aggressive balanced reliable no_fec : FecProfile

-- The label, k and r of a profile, the label as ASCII codes.
abbrev pub label : FecProfile → List ℕ
label emergency = 101 ∷ 109 ∷ 101 ∷ 114 ∷ 103 ∷ 101 ∷ 110 ∷ 99 ∷ 121 ∷ []
label aggressive = 97 ∷ 103 ∷ 103 ∷ 114 ∷ 101 ∷ 115 ∷ 115 ∷ 105 ∷ 118 ∷ 101 ∷ []
label balanced = 98 ∷ 97 ∷ 108 ∷ 97 ∷ 110 ∷ 99 ∷ 101 ∷ 100 ∷ []
label reliable = 114 ∷ 101 ∷ 108 ∷ 105 ∷ 97 ∷ 98 ∷ 108 ∷ 101 ∷ []
label no_fec = 110 ∷ 111 ∷ 110 ∷ 101 ∷ []

abbrev pub data_count : FecProfile → ℕ
data_count emergency = 1
data_count aggressive = 1
data_count balanced = 2
data_count reliable = 2
data_count no_fec = 1

abbrev pub parity_count : FecProfile → ℕ
parity_count emergency = 2
parity_count aggressive = 1
parity_count balanced = 2
parity_count reliable = 1
parity_count no_fec = 0

-- The members of the enumeration, in its order.
abbrev pub profiles : List FecProfile
profiles = emergency ∷ aggressive ∷ balanced ∷ reliable ∷ no_fec ∷ []

abbrev pub labelled : List ℕ → List FecProfile → Result FecProfile
labelled wanted [] = err Error.value_error
labelled wanted (p ∷ ps) = if list_eq (label p) wanted then ok p else labelled wanted ps

unfoldable pub profile_from_label : List ℕ → Result FecProfile
profile_from_label wanted = labelled wanted profiles

-- The bit patterns of 0.20, 0.05, 3.0 and 150.
abbrev pub high_loss : ℕ
high_loss = 0x3fc999999999999a

abbrev pub low_loss : ℕ
low_loss = 0x3fa999999999999a

abbrev pub three : ℕ
three = 0x4008000000000000

abbrev pub high_rtt : ℕ
high_rtt = 0x4062c00000000000

-- The label of the profile, with its k and r.
unfoldable pub fec_select_profile : ℕ → Bool → ℕ → List ℕ × ℕ × ℕ
fec_select_profile loss_rate is_emergency max_overhead =
    if is_emergency
    then (if leb three max_overhead then (label emergency, 1, 2) else (label aggressive, 1, 1))
    else if leb high_loss loss_rate
    then (label balanced, 2, 2)
    else if leb low_loss loss_rate
    then (label reliable, 2, 1)
    else (label no_fec, 1, 0)

unfoldable pub select_fec_profile : ℕ → Bool → ℕ → Result FecProfile
select_fec_profile loss_rate is_emergency max_overhead =
    profile_from_label (fec_select_profile loss_rate is_emergency max_overhead).0

unfoldable pub select_bulk_fec_profile : ℕ → ℕ → FecProfile
select_bulk_fec_profile loss_rate rtt_ms =
    if leb high_loss loss_rate && leb high_rtt rtt_ms
    then balanced
    else if leb high_loss loss_rate
    then reliable
    else if leb low_loss loss_rate
    then reliable
    else no_fec

pub record FecBlock : Type 0 where
  pub sequence : ℕ
  pub data_packets : List Bytes
  pub parity_packets : List Bytes
  pub profile : FecProfile

pub record FecEncoder : Type 0 where
  pub profile : FecProfile
  pub sequence : ℕ

abbrev pub max_length : List Bytes → ℕ
max_length [] = 0
max_length (p ∷ ps) = max (length p) (max_length ps)

-- The packets of one stripe on top of `acc`, from packet number `i` on.
unfoldable pub xor_stripe : ℕ → ℕ → ℕ → Bytes → List Bytes → Bytes
xor_stripe r j i acc [] = acc
xor_stripe r j i acc (p ∷ ps) =
    xor_stripe r j (suc i) (if i % r == j then xor_into acc p else acc) ps

-- `for j in range(r)`, from stripe `j` on.
unfoldable pub parities_from : ℕ → ℕ → ℕ → ℕ → List Bytes → List Bytes
parities_from zero j r max_len padded = []
parities_from (suc n) j r max_len padded =
    xor_stripe r j 0 (replicate max_len 0) padded ∷ parities_from n (suc j) r max_len padded

-- A block with the next sequence number.
abbrev pub block_of : FecEncoder → List Bytes → List Bytes → FecBlock × FecEncoder
block_of e data_packets parity_packets = (
  record {
    sequence = e.sequence;
    data_packets = data_packets;
    parity_packets = parity_packets;
    profile = e.profile;
  },
  record e { sequence = suc e.sequence },
)

-- One packet is cut into k chunks; k = 1 copies the first packet.
unfoldable pub encode_group : FecEncoder → List Bytes → Result (FecBlock × FecEncoder)
encode_group e [] = err Error.value_error
encode_group e (p ∷ []) = do
  coded ← fec_encode p (data_count e.profile) (parity_count e.profile)
  ok (block_of e (take (data_count e.profile) coded) (drop (data_count e.profile) coded))
encode_group e (p ∷ q ∷ ps) =
    if data_count e.profile == 1
    then ok (block_of e (p ∷ q ∷ ps) (replicate (parity_count e.profile) p))
    else (let max_len = max_length (p ∷ q ∷ ps) in
        ok (
          block_of e (p ∷ q ∷ ps) (
            parities_from (parity_count e.profile) 0 (parity_count e.profile) max_len
              (map (ljust max_len) (p ∷ q ∷ ps)))))

unfoldable pub encode_single : Bytes → ℕ → List Bytes
encode_single payload r = payload ∷ replicate r payload

-- The exclusive or of the known packets of the stripe and of the parity.
unfoldable pub recover_stripe : ℕ → ℕ → Bytes → List ℕ → List (Option Bytes) → List (Option Bytes)
recover_stripe r j parity [] recovered = recovered
recover_stripe r j parity (m ∷ []) recovered =
    store m (xor_into (xor_known r j 0 (replicate (length parity) 0) recovered) parity) recovered
recover_stripe r j parity (m ∷ n ∷ ms) recovered = recovered

unfoldable pub recover_all : ℕ → ℕ → List (Option Bytes) → List (Option Bytes) → List (Option Bytes)
recover_all r j [] recovered = recovered
recover_all r j (none ∷ parities) recovered = recover_all r (suc j) parities recovered
recover_all r j (some parity ∷ parities) recovered =
    recover_all r (suc j) parities (recover_stripe r j parity (missing r j 0 recovered) recovered)

-- FECDecoder.decode; only the profile of the block is read.
unfoldable pub decode_group :
    FecBlock → List (Option Bytes) → List (Option Bytes) → Option (List Bytes)
decode_group block received_data received_parity =
    let r = parity_count block.profile in
    if ltb r (count_lost received_data + count_lost received_parity)
    then none
    else elim (all_there received_data) [
      | some there ↦ some there
      | none ↦ all_there (recover_all r 0 received_parity received_data)
    ]

pub record AdaptiveFec : Type 0 where
  pub observed_loss : ℕ
  pub encoder : FecEncoder

abbrev pub encode_with :
    AdaptiveFec → Bytes → FecProfile → Result (List Bytes × FecProfile × AdaptiveFec)
encode_with a payload no_fec =
    ok (payload ∷ [], no_fec, record a { encoder = record (a.encoder) { profile = no_fec } })
encode_with a payload profile = do
  (block, encoder) ← encode_group (record (a.encoder) { profile = profile }) (payload ∷ [])
  ok (block.data_packets ++ block.parity_packets, profile, record a { encoder = encoder })

unfoldable pub adaptive_encode :
    AdaptiveFec → Bytes → Bool → ℕ → Bool → ℕ → Result (List Bytes × FecProfile × AdaptiveFec)
adaptive_encode a payload is_emergency max_overhead is_bulk rtt_ms =
    if is_bulk then encode_with a payload (select_bulk_fec_profile a.observed_loss rtt_ms) else (do
      profile ← select_fec_profile a.observed_loss is_emergency max_overhead
      encode_with a payload profile)
