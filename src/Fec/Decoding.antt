-- ===== src/Fec/Decoding.antt =====
-- The branch of two chunks or more of src/qdap/_rust_bridge.py, _python_fec_decode, on a code word that
-- lost at most one packet in each stripe.
use mathlib.Core.Path.{subst}
use qdap_protocol.Base.{
  ℕ, zero, suc, ◌*◌, ◌<◌, ◌≡◌, refl, ap, ◌∙◌, List, [], ◌∷◌, ◌++◌, length, take, drop, join,
  replicate, Option, none, some, arith,
}
use qdap_protocol.Base.Rounding.{rounded_up}
use qdap_protocol.Bytes.{Bytes}
use qdap_protocol.Fec.{
  encode_chunks, chunk_size, chunks_from, all_there, repair_all, joined, decode_chunks,
}
use qdap_protocol.Fec.Stripes.{stripes, add_parities-stripes}
use qdap_protocol.Fec.Missing.{IsReceived}
use qdap_protocol.Fec.Recovery.{
  IsRecoverable, repair_all-IsReceived, missing-repair_all, all_there-eq_some,
}
use qdap_protocol.Fec.Chunks.{chunks_from-sizes, length-chunks_from, take-join-chunks_from}

pub take-IsReceived :
    (k : ℕ) (cs qs : List Bytes) (ps : List (Option Bytes))
    → length cs ≡ k
    → IsReceived (cs ++ qs) ps
    → IsReceived cs (take k ps) × IsReceived qs (drop k ps)
take-IsReceived zero [] qs ps n v = (tt, v)
take-IsReceived (suc k) [] qs ps n v = absurd (omega arith)
take-IsReceived zero (c ∷ cs) qs ps n v = absurd (omega arith)
take-IsReceived (suc k) (c ∷ cs) qs [] n v = elim v [ ]
take-IsReceived (suc k) (c ∷ cs) qs (none ∷ ps) n v = take-IsReceived k cs qs ps (omega arith) v
take-IsReceived (suc k) (c ∷ cs) qs (some p ∷ ps) n (e, v) =
    let (front, back) = take-IsReceived k cs qs ps (omega arith) v in ((e, front), back)

pub length-IsReceived :
    (cs : List Bytes) (ps : List (Option Bytes)) → IsReceived cs ps → length ps ≡ length cs
length-IsReceived [] [] v = refl
length-IsReceived [] (p ∷ ps) v = elim v [ ]
length-IsReceived (c ∷ cs) [] v = elim v [ ]
length-IsReceived (c ∷ cs) (none ∷ ps) v = ap suc (length-IsReceived cs ps v)
length-IsReceived (c ∷ cs) (some p ∷ ps) (e, v) = ap suc (length-IsReceived cs ps v)

pub length-stripes :
    (r i : ℕ) (cs : List Bytes) (j : ℕ) (ps : List Bytes) → length (stripes r i cs j ps) ≡ length ps
unfolding stripes
length-stripes r i cs j [] = refl
length-stripes r i cs j (p ∷ ps) = ap suc (length-stripes r i cs (suc j) ps)

-- What all the packets give, given all of them.
pub all_there_sent :
    (cs there : List Bytes) (ps : List (Option Bytes))
    → IsReceived cs ps
    → all_there ps ≡ some there
    → there ≡ cs
all_there_sent [] there [] v h = cc
all_there_sent [] there (p ∷ ps) v h = elim v [ ]
all_there_sent (c ∷ cs) there [] v h = elim v [ ]
all_there_sent (c ∷ cs) there (none ∷ ps) v h = absurd (cc)
all_there_sent (c ∷ cs) there (some p ∷ ps) (e, v) h =
    by (all_there ps) refl (λ qs. all_there_sent cs qs ps v)
  where
    by :
        (o : Option (List Bytes))
        → all_there ps ≡ o
        → ((qs : List Bytes) → all_there ps ≡ some qs → qs ≡ cs)
        → there ≡ c ∷ cs
    by none f rest = absurd (cc (rw f at h))
    by (some qs) f rest = cc (rw f at h, e, rest qs f)

module _ (payload : Bytes) (k r : ℕ) (two : 1 < k) (pos : 0 < r) where
  abbrev sent_chunks : List Bytes
  sent_chunks = chunks_from k 0 (chunk_size k payload) payload

  split :
      (packets : List (Option Bytes))
      → IsReceived (encode_chunks k r payload) packets
      → IsReceived sent_chunks (take k packets)
        × IsReceived
            (stripes r 0 sent_chunks 0 (replicate r (replicate (chunk_size k payload) 0)))
            (drop k packets)
  unfolding encode_chunks
  split packets v =
      take-IsReceived k sent_chunks _ packets
        (length-chunks_from k 0 (chunk_size k payload) payload)
        (subst (λ t. IsReceived (sent_chunks ++ t) packets)
          (add_parities-stripes r 0 sent_chunks (replicate r (replicate (chunk_size k payload) 0)))
          v)

  join_sent : take (length payload) (join sent_chunks) ≡ payload
  join_sent =
      let start : 0 * chunk_size k payload ≡ 0 = omega arith in
      rw start at (
        take-join-chunks_from k 0 (chunk_size k payload) payload
          (omega (arith, rounded_up k (length payload) (omega arith))))

  pub decode_chunks-eq_some :
      (packets : List (Option Bytes))
      → IsReceived (encode_chunks k r payload) packets
      → IsRecoverable r 0 (take k packets) (drop k packets)
      → length (drop k packets) ≡ r
      → decode_chunks packets k r (length payload) ≡ some payload
  unfolding decode_chunks
  decode_chunks-eq_some packets v w parities = by (all_there (take k packets)) refl
    where
      parts :
          IsReceived sent_chunks (take k packets)
          × IsReceived
              (stripes r 0 sent_chunks 0 (replicate r (replicate (chunk_size k payload) 0)))
              (drop k packets)
      parts = split packets v

      repaired : all_there (repair_all r 0 (drop k packets) (take k packets)) ≡ some sent_chunks
      repaired =
          all_there-eq_some r 0 sent_chunks _ pos
            (repair_all-IsReceived r (chunk_size k payload) sent_chunks
              (chunks_from-sizes k 0 (chunk_size k payload) payload) r 0 (drop k packets)
              (take k packets) parts.0 parts.1)
            (λ j lt.
              missing-repair_all r 0 j (drop k packets) (take k packets) w (omega arith)
                (omega (arith, parities)))

      by :
          (o : Option (List Bytes))
          → all_there (take k packets) ≡ o
          → decode_chunks packets k r (length payload) ≡ some payload
      by none e = rw (decode_chunks, e) (ap (joined (length payload)) repaired ∙ ap some join_sent)
      by (some there) e =
          rw (decode_chunks, e)
            (ap some (
              ap (λ t. take (length payload) (join t))
                (all_there_sent sent_chunks there (take k packets) parts.0 e)
              ∙ join_sent))
