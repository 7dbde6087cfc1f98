-- ===== src/Fec/RoundTrip.antt =====
-- Which losses src/qdap/_rust_bridge.py, _python_fec_decode, makes good.
use mathlib.Core.Path.{subst}
use qdap_protocol.Base.{
  ℕ, zero, suc, ◌+◌, ◌≤◌, ◌<◌, ◌≡◌, refl, sym, ap, ◌∙◌, false, List, [], ◌∷◌, length, take, drop,
  replicate, length-append, length-replicate, length-drop, le→ltb, take_of_length-le, Option, none,
  some, ok, err, Error, ltb, ◌==◌, inl, inr, arith,
}
use qdap_protocol.Bytes.{Bytes}
use qdap_protocol.Fec.{
  fec_encode, fec_decode, encode_chunks, chunk_size, chunks_from, add_parities, count_lost,
  all_there, first_there, repair_all, joined, decode_chunks, missing,
}
use qdap_protocol.Fec.Stripes.{add_parities-stripes}
use qdap_protocol.Fec.Missing.{IsReceived}
use qdap_protocol.Fec.Recovery.{IsRecoverable, HasBadStripe, repair_all_hole, all_there-eq_none}
use qdap_protocol.Fec.Losses.{count_lost-le}
use qdap_protocol.Fec.Chunks.{length-chunks_from}
use qdap_protocol.Fec.Decoding.{length-IsReceived, length-stripes, decode_chunks-eq_some}

fec_encode_more :
    (payload : Bytes) (k r : ℕ)
    → 1 < k
    → 0 < r
    → fec_encode payload k r ≡ ok (encode_chunks k r payload)
unfolding fec_encode
fec_encode_more payload k r two pos = ground arith

fec_encode_one :
    (payload : Bytes) (r : ℕ) → 0 < r → fec_encode payload 1 r ≡ ok (payload ∷ replicate r payload)
unfolding fec_encode
fec_encode_one payload r pos = ground arith

fec_decode_more :
    (packets : List (Option Bytes)) (k r n : ℕ)
    → 1 < k
    → 0 < r
    → 0 < length packets
    → count_lost packets ≤ r
    → fec_decode packets k r n ≡ decode_chunks packets k r n
unfolding fec_decode
fec_decode_more [] k r n two pos nonempty few = absurd (omega arith)
fec_decode_more (p ∷ ps) k r n two pos nonempty few =
    let r_test : (r == 0) ≡ false = ground arith in
    let k_test : (k == 1) ≡ false = ground arith in
    let few_test : ltb r (count_lost (p ∷ ps)) ≡ false = le→ltb r (count_lost (p ∷ ps)) few in
    rw (r_test, k_test, few_test) refl

-- With one chunk, each packet is the payload.
first_there-replicate :
    (n r : ℕ) (payload : Bytes) (ps : List (Option Bytes))
    → IsReceived (replicate n payload) ps
    → count_lost ps < n
    → first_there ps ≡ some payload
first_there-replicate zero r payload ps v h = absurd (omega arith)
first_there-replicate (suc n) r payload [] v h = elim v [ ]
first_there-replicate (suc n) r payload (none ∷ ps) v h =
    first_there-replicate n r payload ps v (omega arith)
first_there-replicate (suc n) r payload (some p ∷ ps) (e, v) h = ap some e

cut_whole : (payload : Bytes) → take (length payload) payload ≡ payload
cut_whole payload = take_of_length-le (length payload) payload (omega arith)

-- With one chunk and `r` copies of it, one packet of the `r + 1` that arrives gives the payload.
pub fec_decode_any :
    (payload : Bytes) (r : ℕ) (received : List (Option Bytes))
    → 0 < r
    → IsReceived (payload ∷ replicate r payload) received
    → count_lost received ≤ r
    → fec_decode received 1 r (length payload) ≡ some payload
unfolding fec_decode
fec_decode_any payload r [] pos v h = elim v [ ]
fec_decode_any payload r (p ∷ ps) pos v h =
    let r_test : (r == 0) ≡ false = ground arith in
    rw (r_test, first_there-replicate (suc r) r payload (p ∷ ps) v (omega arith))
      (ap some (cut_whole payload))

length-encode_chunks : (k r : ℕ) (payload : Bytes) → length (encode_chunks k r payload) ≡ k + r
unfolding encode_chunks
length-encode_chunks k r payload =
    let chunks : List Bytes = chunks_from k 0 (chunk_size k payload) payload in
    let zeros : List Bytes = replicate r (replicate (chunk_size k payload) 0) in
    omega (
      arith,
      length-append chunks (add_parities r 0 chunks zeros),
      length-chunks_from k 0 (chunk_size k payload) payload,
      ap length (add_parities-stripes r 0 chunks zeros),
      length-stripes r 0 chunks 0 zeros,
      length-replicate {A = Bytes} r (replicate (chunk_size k payload) 0),
    )

fec_encode_zero : (payload : Bytes) (r : ℕ) → fec_encode payload 0 r ≡ err Error.value_error
unfolding fec_encode
fec_encode_zero payload r = refl

ok-injective : (xs ys : List Bytes) → ok xs ≡ ok ys → xs ≡ ys
ok-injective xs ys h = cc

-- For at least one parity, whatever packets of an encoded payload are lost, if each stripe lost one
-- packet at most, its parity counted, then the decoder gives back the payload, with the padding of
-- the last chunk cut off.
pub fec_decode-fec_encode :
    (payload : Bytes) (k r : ℕ) (sent : List Bytes) (received : List (Option Bytes))
    → 0 < r
    → fec_encode payload k r ≡ ok sent
    → IsReceived sent received
    → IsRecoverable r 0 (take k received) (drop k received)
    → fec_decode received k r (length payload) ≡ some payload
fec_decode-fec_encode payload zero r sent received pos e v w =
    absurd (cc (fec_encode_zero payload r, e))
fec_decode-fec_encode payload (suc zero) r sent received pos e v w =
    let each : sent ≡ payload ∷ replicate r payload =
      ok-injective sent (payload ∷ replicate r payload) (sym e ∙ fec_encode_one payload r pos) in
    let arrived : IsReceived (payload ∷ replicate r payload) received =
      subst (λ t. IsReceived t received) each v in
    let size : length received ≡ suc (length (replicate r payload)) =
      length-IsReceived (payload ∷ replicate r payload) received arrived in
    fec_decode_any payload r received pos arrived (
      count_lost-le 1 r received pos
        (omega (arith, length-drop 1 received, size, length-replicate r payload)) w)
fec_decode-fec_encode payload (suc (suc k)) r sent received pos e v w =
    let coded : sent ≡ encode_chunks (suc (suc k)) r payload =
      ok-injective sent (encode_chunks (suc (suc k)) r payload)
        (sym e ∙ fec_encode_more payload (suc (suc k)) r (omega arith) pos) in
    let arrived : IsReceived (encode_chunks (suc (suc k)) r payload) received =
      subst (λ t. IsReceived t received) coded v in
    let size : length received ≡ suc (suc k) + r =
      length-IsReceived (encode_chunks (suc (suc k)) r payload) received arrived
      ∙ length-encode_chunks (suc (suc k)) r payload in
    let parities : length (drop (suc (suc k)) received) ≡ r =
      omega (arith, length-drop (suc (suc k)) received, size) in
    fec_decode_more received (suc (suc k)) r (length payload) (omega arith) pos
      (omega (arith, size)) (count_lost-le (suc (suc k)) r received pos parities w)
    ∙ decode_chunks-eq_some payload (suc (suc k)) r (omega arith) pos received arrived w parities

not_all_decode :
    (packets : List (Option Bytes)) (k r n : ℕ)
    → all_there (take k packets) ≡ none
    → all_there (repair_all r 0 (drop k packets) (take k packets)) ≡ none
    → decode_chunks packets k r n ≡ none
unfolding decode_chunks
not_all_decode packets k r n before after = rw (decode_chunks, before) (ap (joined n) after)

-- A packet that the repair leaves lost was lost before.
all_there-repair_all :
    (r j : ℕ) (parities ps : List (Option Bytes))
    → HasBadStripe r j ps parities
    → all_there ps ≡ none
all_there-repair_all r j [] ps v = elim v [ ]
all_there-repair_all r j (none ∷ parities) ps (inl h) = all_there-eq_none r j 0 ps (omega arith)
all_there-repair_all r j (some p ∷ parities) ps (inl h) = all_there-eq_none r j 0 ps (omega arith)
all_there-repair_all r j (p ∷ parities) ps (inr v) = all_there-repair_all r (suc j) parities ps v

-- For two chunks or more and at least one parity: when some stripe lost two packets or more, its
-- parity counted, the decoder returns None, whatever the other packets and the lengths are.
pub fec_decode-eq_none :
    (received : List (Option Bytes)) (k r original_len : ℕ)
    → 1 < k
    → 0 < r
    → HasBadStripe r 0 (take k received) (drop k received)
    → fec_decode received k r original_len ≡ none
unfolding fec_decode
fec_decode-eq_none [] k r n two pos bad = refl
fec_decode-eq_none (p ∷ ps) k r n two pos bad =
    let r_test : (r == 0) ≡ false = ground arith in
    let k_test : (k == 1) ≡ false = ground arith in
    let hole : (j : ℕ) × (0
          < length (missing r j 0 (repair_all r 0 (drop k (p ∷ ps)) (take k (p ∷ ps))))) =
      repair_all_hole r 0 (drop k (p ∷ ps)) (take k (p ∷ ps)) bad in
    let after : decode_chunks (p ∷ ps) k r n ≡ none =
      not_all_decode (p ∷ ps) k r n
        (all_there-repair_all r 0 (drop k (p ∷ ps)) (take k (p ∷ ps)) bad)
        (all_there-eq_none r hole.0 0 _ hole.1) in
    rw (r_test, k_test, after) (ground arith)
