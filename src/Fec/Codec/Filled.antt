-- ===== src/Fec/Codec/Filled.antt =====
-- FECEncoder and FECDecoder of src/qdap/transport/fec.py on packets filled up with zeros: they
-- then work as the module functions do.
use qdap_protocol.Base.{
  ℕ, zero, suc, ◌%◌, ◌≡◌, refl, sym, ap, ◌∙◌, List, [], ◌∷◌, length, replicate, length-replicate,
  map, Option, none, some, ◌==◌, if◌then◌else◌, arith,
}
use qdap_protocol.Bytes.{Bytes, All}
use qdap_protocol.Fec.{ljust, xor_into, xor_known, missing, store, repair, repair_all}
use qdap_protocol.Fec.Laws.{xor_into-replicate, xor_known-xor_into}
use qdap_protocol.Fec.Chunks.{ljust_whole}
use qdap_protocol.Fec.Stripes.{stripes}
use qdap_protocol.Fec.Missing.{IsReceived}
use qdap_protocol.Fec.Codec.{parities_from, recover_stripe, recover_all}
use qdap_protocol.Fec.Codec.Padding.{
  pad_all, xor_known-pad_all, missing-pad_all, pad_all-store, xor_stripe-xor_known,
}

length-xor_into : (acc p : Bytes) → length (xor_into acc p) ≡ length acc
unfolding xor_into
length-xor_into acc [] = refl
length-xor_into [] (b ∷ p) = refl
length-xor_into (a ∷ acc) (b ∷ p) = ap suc (length-xor_into acc p)

length-xor_known :
    (r j i : ℕ) (acc : Bytes) (ps : List (Option Bytes))
    → length (xor_known r j i acc ps) ≡ length acc
unfolding xor_known
length-xor_known r j i acc [] = refl
length-xor_known r j i acc (none ∷ ps) = length-xor_known r j (suc i) acc ps
length-xor_known r j i acc (some p ∷ ps) =
    length-xor_known r j (suc i) (if i % r == j then xor_into acc p else acc) ps
    ∙ ground (arith, length-xor_into acc p)

-- The two decoders repair a stripe alike, once the packets are filled up.
pad_all-recover_stripe :
    (n r j : ℕ) (p : Bytes) (ms : List ℕ) (ps : List (Option Bytes))
    → length p ≡ n
    → pad_all n (recover_stripe r j p ms ps) ≡ repair r j p ms (pad_all n ps)
unfolding recover_stripe repair
pad_all-recover_stripe n r j p [] ps size = refl
pad_all-recover_stripe n r j p (m ∷ []) ps size =
    let sum : xor_into (xor_known r j 0 (replicate (length p) 0) ps) p
        ≡ xor_known r j 0 p (pad_all n ps) =
      sym (xor_known-xor_into r j 0 (replicate (length p) 0) p ps)
      ∙ ap (λ t. xor_known r j 0 t ps) (xor_into-replicate (length p) p refl)
      ∙ sym (xor_known-pad_all n r j 0 p ps) in
    pad_all-store n m (xor_into (xor_known r j 0 (replicate (length p) 0) ps) p) ps
    ∙ ap (λ t. store m (ljust n t) (pad_all n ps)) sum
    ∙ ap (λ t. store m t (pad_all n ps))
        (ljust_whole n (xor_known r j 0 p (pad_all n ps))
          (length-xor_known r j 0 p (pad_all n ps) ∙ size))
pad_all-recover_stripe n r j p (m ∷ k ∷ ms) ps size = refl

pub pad_all-recover_all :
    (n r j : ℕ) (sent : List Bytes) (parities ps : List (Option Bytes))
    → All (λ c. length c ≡ n) sent
    → IsReceived sent parities
    → pad_all n (recover_all r j parities ps) ≡ repair_all r j parities (pad_all n ps)
unfolding recover_all repair_all
pad_all-recover_all n r j [] [] ps sizes v = refl
pad_all-recover_all n r j [] (p ∷ parities) ps sizes v = elim v [ ]
pad_all-recover_all n r j (c ∷ sent) [] ps sizes v = elim v [ ]
pad_all-recover_all n r j (c ∷ sent) (none ∷ parities) ps sizes v =
    pad_all-recover_all n r (suc j) sent parities ps sizes.1 v
pad_all-recover_all n r j (c ∷ sent) (some p ∷ parities) ps sizes (e, v) =
    pad_all-recover_all n r (suc j) sent parities _ sizes.1 v
    ∙ ap (repair_all r (suc j) parities) (
        pad_all-recover_stripe n r j p (missing r j 0 ps) ps (ap length e ∙ sizes.0)
        ∙ ap (λ t. repair r j p t (pad_all n ps)) (sym (missing-pad_all n r j 0 ps)))

pub parities_from-stripes :
    (n j r max_len : ℕ) (padded : List Bytes)
    → parities_from n j r max_len padded ≡ stripes r 0 padded j (replicate n (replicate max_len 0))
unfolding parities_from stripes
parities_from-stripes zero j r max_len padded = refl
parities_from-stripes (suc n) j r max_len padded =
    rw
      (
        xor_stripe-xor_known r j 0 (replicate max_len 0) padded,
        parities_from-stripes n (suc j) r max_len padded,
      )
      refl

pub stripes-sizes :
    (r i : ℕ) (cs : List Bytes) (j n size : ℕ)
    → All (λ c. length c ≡ size) (stripes r i cs j (replicate n (replicate size 0)))
unfolding stripes
stripes-sizes r i cs j zero size = tt
stripes-sizes r i cs j (suc n) size = (
  length-xor_known r j i (replicate size 0) (map some cs) ∙ length-replicate {A = ℕ} size 0,
  stripes-sizes r i cs (suc j) n size,
)

pub pad_all-IsReceived :
    (n : ℕ) (cs : List Bytes) (ps : List (Option Bytes))
    → IsReceived cs ps
    → IsReceived (map (ljust n) cs) (pad_all n ps)
pad_all-IsReceived n [] [] v = tt
pad_all-IsReceived n [] (p ∷ ps) v = elim v [ ]
pad_all-IsReceived n (c ∷ cs) [] v = elim v [ ]
pad_all-IsReceived n (c ∷ cs) (none ∷ ps) v = pad_all-IsReceived n cs ps v
pad_all-IsReceived n (c ∷ cs) (some p ∷ ps) (e, v) = (ap (ljust n) e, pad_all-IsReceived n cs ps v)
