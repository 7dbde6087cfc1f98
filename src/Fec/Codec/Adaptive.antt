-- ===== src/Fec/Codec/Adaptive.antt =====
-- src/qdap/transport/fec.py, AdaptiveFEC: what it sends is a code word of the profile it returns.
use qdap_protocol.Base.{
  ℕ, ◌≡◌, refl, sym, ap, Bool, true, false, List, take-append-drop, Result, ok, leb, Bool-cases,
  inl, inr,
}
use qdap_protocol.Bytes.{Bytes}
use qdap_protocol.Fec.{fec_encode, encode_chunks}
use qdap_protocol.Fec.Codec.{
  FecProfile, emergency, aggressive, balanced, reliable, no_fec, data_count, parity_count, label,
  profile_from_label, fec_select_profile, select_fec_profile, select_bulk_fec_profile, encode_group,
  AdaptiveFec, encode_with, adaptive_encode,
}

profile_from_label-label : (p : FecProfile) → profile_from_label (label p) ≡ ok p
unfolding profile_from_label
profile_from_label-label emergency = refl
profile_from_label-label aggressive = refl
profile_from_label-label balanced = refl
profile_from_label-label reliable = refl
profile_from_label-label no_fec = refl

-- The bridge names a profile of the enumeration, with its k and r.
pub select_fec_profile_known :
    (loss_rate : ℕ) (is_emergency : Bool) (max_overhead : ℕ)
    → (p : FecProfile) × (select_fec_profile loss_rate is_emergency max_overhead ≡ ok p)
      × (fec_select_profile loss_rate is_emergency max_overhead
          ≡ (label p, data_count p, parity_count p))
unfolding select_fec_profile fec_select_profile
select_fec_profile_known loss_rate is_emergency max_overhead = by is_emergency
  where
    by :
        (urgent : Bool)
        → (p : FecProfile) × (select_fec_profile loss_rate urgent max_overhead ≡ ok p)
          × (fec_select_profile loss_rate urgent max_overhead
              ≡ (label p, data_count p, parity_count p))
    by true = elim (Bool-cases (leb 0x4008000000000000 max_overhead)) [
      | inl e ↦ (emergency, rw e (profile_from_label-label emergency), rw e refl)
      | inr e ↦ (aggressive, rw e (profile_from_label-label aggressive), rw e refl)
    ]
    by false = elim (Bool-cases (leb 0x3fc999999999999a loss_rate)) [
      | inl e ↦ (balanced, rw e (profile_from_label-label balanced), rw e refl)
      | inr e ↦ elim (Bool-cases (leb 0x3fa999999999999a loss_rate)) [
        | inl f ↦ (reliable, rw (e, f) (profile_from_label-label reliable), rw (e, f) refl)
        | inr f ↦ (no_fec, rw (e, f) (profile_from_label-label no_fec), rw (e, f) refl)
      ]
    ]

-- The packets sent under a profile are the code word of its k and r.
abbrev pub Sends : Bytes → Result (List Bytes × FecProfile × AdaptiveFec) → Type 0
Sends payload r =
    (packets : List Bytes) × (p : FecProfile) × (a' : AdaptiveFec) × (r ≡ ok (packets, p, a'))
    × (fec_encode payload (data_count p) (parity_count p) ≡ ok packets)

encode_with-Sends :
    (a : AdaptiveFec) (payload : Bytes) (p : FecProfile) → Sends payload (encode_with a payload p)
unfolding encode_group fec_encode
encode_with-Sends a payload emergency = (_, emergency, _, refl, refl)
encode_with-Sends a payload aggressive = (_, aggressive, _, refl, refl)
encode_with-Sends a payload balanced =
    (_, balanced, _, refl, ap ok (sym (take-append-drop 2 (encode_chunks 2 2 payload))))
encode_with-Sends a payload reliable =
    (_, reliable, _, refl, ap ok (sym (take-append-drop 2 (encode_chunks 2 1 payload))))
encode_with-Sends a payload no_fec = (_, no_fec, _, refl, refl)

-- For every payload, loss rate and request, AdaptiveFEC.encode raises nothing, and its packets are
-- the code word of the payload for the k and r of the profile it returns.
pub adaptive_encode-Sends :
    (a : AdaptiveFec) (payload : Bytes) (is_emergency : Bool) (max_overhead : ℕ) (is_bulk : Bool)
    (rtt_ms : ℕ)
    → Sends payload (adaptive_encode a payload is_emergency max_overhead is_bulk rtt_ms)
unfolding adaptive_encode
adaptive_encode-Sends a payload is_emergency max_overhead true rtt_ms =
    encode_with-Sends a payload (select_bulk_fec_profile a.observed_loss rtt_ms)
adaptive_encode-Sends a payload is_emergency max_overhead false rtt_ms =
    let (p, chosen, meaning) = select_fec_profile_known a.observed_loss is_emergency max_overhead in
    rw chosen (encode_with-Sends a payload p)
