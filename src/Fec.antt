-- ===== src/Fec.antt =====
-- src/qdap/_rust_bridge.py, _python_fec_encode and _python_fec_decode: the systematic code that cuts
-- a payload into `k` chunks and adds `r` parities, chunk `i` going into parity `i % r`.
pub mod Laws
pub mod Stripes
pub mod Missing
pub mod Repair
pub mod Recovery
pub mod Losses
pub mod Chunks
pub mod Decoding
pub mod RoundTrip
pub mod Codec
use Prim.Native.Nat.{bit_xor}
use qdap_protocol.Base.{
  ℕ, zero, suc, ◌+◌, ◌-◌, ◌*◌, ◌/◌, ◌%◌, Bool, true, false, not, List, [], ◌∷◌, ◌++◌, length, take,
  drop, slice, join, replicate, Option, none, some, Result, ok, err, Error, min, ltb, ◌==◌,
  if◌then◌else◌,
}
use qdap_protocol.Bytes.{Bytes}

-- bytes.ljust(width, b"\x00")
abbrev pub ljust : ℕ → Bytes → Bytes
ljust width bs = bs ++ replicate (width - length bs) 0

-- `acc[pos] ^= byte` for each byte of a packet and `pos < len(acc)`; the encoder, which has no such
-- test, calls it for packets of the length of `acc`.
unfoldable pub xor_into : Bytes → Bytes → Bytes
xor_into acc [] = acc
xor_into [] (b ∷ bs) = []
xor_into (a ∷ acc) (b ∷ bs) = bit_xor a b ∷ xor_into acc bs

-- The chunks from number `i` on, each of `size` bytes.
unfoldable pub chunks_from : ℕ → ℕ → ℕ → Bytes → List Bytes
chunks_from zero i size payload = []
chunks_from (suc n) i size payload =
    ljust size (slice (i * size) (min (i * size + size) (length payload)) payload)
    ∷ chunks_from n (suc i) size payload

-- parities[i] ^= chunk
unfoldable pub xor_at : ℕ → Bytes → List Bytes → List Bytes
xor_at i chunk [] = []
xor_at zero chunk (p ∷ ps) = xor_into p chunk ∷ ps
xor_at (suc i) chunk (p ∷ ps) = p ∷ xor_at i chunk ps

-- The loop over the chunks, from chunk number `i` on.
unfoldable pub add_parities : ℕ → ℕ → List Bytes → List Bytes → List Bytes
add_parities r i [] parities = parities
add_parities r i (chunk ∷ chunks) parities =
    add_parities r (suc i) chunks (xor_at (i % r) chunk parities)

-- (total + k - 1) // k
abbrev pub chunk_size : ℕ → Bytes → ℕ
chunk_size k payload = (length payload + k - 1) / k

unfoldable pub encode_chunks : ℕ → ℕ → Bytes → List Bytes
encode_chunks k r payload =
    let size = chunk_size k payload in
    let chunks = chunks_from k 0 size payload in
    chunks ++ add_parities r 0 chunks (replicate r (replicate size 0))

unfoldable pub fec_encode : Bytes → ℕ → ℕ → Result (List Bytes)
fec_encode payload k r =
    if k == 0
    then err Error.value_error
    else if r == 0
    then ok (payload ∷ [])
    else if k == 1
    then ok (payload ∷ replicate r payload)
    else ok (encode_chunks k r payload)

abbrev pub lost : Option Bytes → Bool
lost none = true
lost (some p) = false

-- packets.count(None)
abbrev pub count_lost : List (Option Bytes) → ℕ
count_lost [] = 0
count_lost (none ∷ ps) = suc (count_lost ps)
count_lost (some p ∷ ps) = count_lost ps

-- The packets, when all of them are there.
abbrev pub all_there : List (Option Bytes) → Option (List Bytes)
all_there [] = some []
all_there (none ∷ ps) = none
all_there (some p ∷ ps) = elim (all_there ps) [ none ↦ none | some qs ↦ some (p ∷ qs) ]

-- The first packet of a list that is not lost.
abbrev pub first_there : List (Option Bytes) → Option Bytes
first_there [] = none
first_there (none ∷ ps) = first_there ps
first_there (some p ∷ ps) = some p

-- [i for i in stripe if recovered[i] is None], for the packets from number `i` on and the stripe of
-- the numbers that leave the remainder `j` modulo `r`.
unfoldable pub missing : ℕ → ℕ → ℕ → List (Option Bytes) → List ℕ
missing r j i [] = []
missing r j i (p ∷ ps) =
    let rest = missing r j (suc i) ps in
    if i % r == j then (if lost p then i ∷ rest else rest) else rest

-- acc ^= recovered[idx] for the numbers of the stripe whose packet is known.
unfoldable pub xor_known : ℕ → ℕ → ℕ → Bytes → List (Option Bytes) → Bytes
xor_known r j i acc [] = acc
xor_known r j i acc (none ∷ ps) = xor_known r j (suc i) acc ps
xor_known r j i acc (some p ∷ ps) =
    xor_known r j (suc i) (if i % r == j then xor_into acc p else acc) ps

-- recovered[i] = p
abbrev pub store : ℕ → Bytes → List (Option Bytes) → List (Option Bytes)
store i p [] = []
store zero p (q ∷ qs) = some p ∷ qs
store (suc i) p (q ∷ qs) = q ∷ store i p qs

-- One stripe: exactly one packet of it is missing, or nothing is done.
unfoldable pub repair : ℕ → ℕ → Bytes → List ℕ → List (Option Bytes) → List (Option Bytes)
repair r j parity [] recovered = recovered
repair r j parity (m ∷ []) recovered = store m (xor_known r j 0 parity recovered) recovered
repair r j parity (m ∷ n ∷ ms) recovered = recovered

-- The loop over the parities, from parity `j` on.
unfoldable pub repair_all : ℕ → ℕ → List (Option Bytes) → List (Option Bytes) → List (Option Bytes)
repair_all r j [] recovered = recovered
repair_all r j (none ∷ parities) recovered = repair_all r (suc j) parities recovered
repair_all r j (some parity ∷ parities) recovered =
    repair_all r (suc j) parities (repair r j parity (missing r j 0 recovered) recovered)

abbrev pub joined : ℕ → Option (List Bytes) → Option Bytes
joined original_len none = none
joined original_len (some packets) = some (take original_len (join packets))

-- The branch with two chunks or more.
unfoldable pub decode_chunks : List (Option Bytes) → ℕ → ℕ → ℕ → Option Bytes
decode_chunks packets k r original_len = elim (all_there (take k packets)) [
  | some there ↦ some (take original_len (join there))
  | none ↦ joined original_len (all_there (repair_all r 0 (drop k packets) (take k packets)))
]

abbrev cut_to : ℕ → Option Bytes → Option Bytes
cut_to n none = none
cut_to n (some p) = some (take n p)

unfoldable pub fec_decode : List (Option Bytes) → ℕ → ℕ → ℕ → Option Bytes
fec_decode [] k r original_len = none
fec_decode (first ∷ rest) k r original_len =
    if r == 0
    then cut_to original_len first
    else if k == 1
    then cut_to original_len (first_there (first ∷ rest))
    else if ltb r (count_lost (first ∷ rest))
    then none
    else decode_chunks (first ∷ rest) k r original_len
