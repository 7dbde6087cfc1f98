-- ===== src/Fec/Codec/Recovers.antt =====
-- src/qdap/transport/fec.py, FECDecoder: the packets of a group come back, up to the zeros with
-- which the encoder fills the shorter ones up.
use mathlib.Core.Path.{subst}
use qdap_protocol.Base.{
  ℕ, ◌+◌, ◌≤◌, ◌<◌, ◌≡◌, refl, sym, ap, ◌∙◌, false, List, ◌∷◌, length, replicate, length-replicate,
  map, Option, none, some, ok, ltb, le→ltb, ◌==◌, arith,
}
use qdap_protocol.Bytes.{Bytes}
use qdap_protocol.Fec.{ljust, count_lost, all_there, repair_all}
use qdap_protocol.Fec.Stripes.{stripes}
use qdap_protocol.Fec.Missing.{IsReceived}
use qdap_protocol.Fec.Recovery.{
  IsRecoverable, transfer-IsRecoverable, repair_all-IsReceived, missing-repair_all,
  all_there-eq_some,
}
use qdap_protocol.Fec.Losses.{losses-le}
use qdap_protocol.Fec.Decoding.{all_there_sent, length-IsReceived, length-stripes}
use qdap_protocol.Fec.Codec.{
  FecProfile, FecBlock, FecEncoder, data_count, parity_count, max_length, encode_group, recover_all,
  decode_group, balanced, reliable, emergency, aggressive, no_fec,
}
use qdap_protocol.Fec.Codec.Padding.{pad_all, missing-pad_all, all_there-pad_all, ljust-sizes}
use qdap_protocol.Fec.Codec.Filled.{
  pad_all-recover_all, parities_from-stripes, stripes-sizes, pad_all-IsReceived,
}

-- All packets of a group that may be told apart from them by zeros at their ends.
abbrev pub GivesBack : ℕ → List Bytes → Option (List Bytes) → Type 0
GivesBack n packets result =
    (recovered : List Bytes) × (result ≡ some recovered)
    × (map (ljust n) recovered ≡ map (ljust n) packets)

module _ (n r : ℕ) (packets : List Bytes) (pos : 0 < r) (fits : max_length packets ≤ n) where
  abbrev sent_parities : List Bytes
  sent_parities = stripes r 0 (map (ljust n) packets) 0 (replicate r (replicate n 0))

  recover_all-GivesBack :
      (ps parities : List (Option Bytes))
      → IsReceived packets ps
      → IsReceived sent_parities parities
      → IsRecoverable r 0 ps parities
      → GivesBack n packets (all_there (recover_all r 0 parities ps))
  recover_all-GivesBack ps parities v w ok_losses =
      let filled : IsRecoverable r 0 (pad_all n ps) parities =
        transfer-IsRecoverable r 0 ps (pad_all n ps) parities
          (λ m le. sym (missing-pad_all n r m 0 ps)) ok_losses in
      let count : length parities ≡ r =
        length-IsReceived sent_parities parities w
        ∙ length-stripes r 0 (map (ljust n) packets) 0 (replicate r (replicate n 0))
        ∙ length-replicate {A = Bytes} r (replicate n 0) in
      let whole : all_there (repair_all r 0 parities (pad_all n ps))
          ≡ some (map (ljust n) packets) =
        all_there-eq_some r 0 (map (ljust n) packets) _ pos
          (repair_all-IsReceived r n (map (ljust n) packets) (ljust-sizes n packets fits) r 0
            parities (pad_all n ps) (pad_all-IsReceived n packets ps v) w)
          (λ j lt.
            missing-repair_all r 0 j parities (pad_all n ps) filled (omega arith)
              (omega (arith, count))) in
      all_there-pad_all n (recover_all r 0 parities ps) (map (ljust n) packets) (
        ap all_there (
          pad_all-recover_all n r 0 sent_parities parities ps
            (stripes-sizes r 0 (map (ljust n) packets) 0 r n) w)
        ∙ whole)

decode_group-GivesBack :
    (n : ℕ) (block : FecBlock) (packets : List Bytes) (ps parities : List (Option Bytes))
    → count_lost ps + count_lost parities ≤ parity_count block.profile
    → IsReceived packets ps
    → GivesBack n packets (all_there (recover_all (parity_count block.profile) 0 parities ps))
    → GivesBack n packets (decode_group block ps parities)
unfolding decode_group
decode_group-GivesBack n block packets ps parities few v repaired =
    let test : ltb (parity_count block.profile) (count_lost ps + count_lost parities) ≡ false =
      le→ltb (parity_count block.profile) (count_lost ps + count_lost parities) few in
    rw test (by (all_there ps) refl)
  where
    by :
        (o : Option (List Bytes))
        → all_there ps ≡ o
        → GivesBack n packets (elim (all_there ps) [
          | some there ↦ some there
          | none ↦ all_there (recover_all (parity_count block.profile) 0 parities ps)
        ])
    by none h = rw h repaired
    by (some there) h = rw h (there, refl, ap (map (ljust n)) (all_there_sent packets there ps v h))

-- A group of two packets or more under k > 1, encoded: its data packets are the group, and its
-- parities are the stripes of the filled-up packets.
abbrev pub group_parities : ℕ → List Bytes → List Bytes
group_parities r packets =
    stripes r 0 (map (ljust (max_length packets)) packets) 0
      (replicate r (replicate (max_length packets) 0))

encode_group_parts :
    (e : FecEncoder) (p q : Bytes) (rest : List Bytes) (block : FecBlock) (e' : FecEncoder)
    → 1 < data_count e.profile
    → encode_group e (p ∷ q ∷ rest) ≡ ok (block, e')
    → (block.profile ≡ e.profile)
      × (block.data_packets ≡ p ∷ q ∷ rest)
      × (block.parity_packets ≡ group_parities (parity_count e.profile) (p ∷ q ∷ rest))
unfolding encode_group
encode_group_parts e p q rest block e' two h =
    let test : (data_count e.profile == 1) ≡ false = ground arith in
    let parts : ok (block, e') ≡ encode_group e (p ∷ q ∷ rest) = sym h in
    let packets : List Bytes = p ∷ q ∷ rest in
    let shape =
      parities_from-stripes (parity_count e.profile) 0 (parity_count e.profile)
        (max_length (p ∷ q ∷ rest)) (map (ljust (max_length (p ∷ q ∷ rest))) (p ∷ q ∷ rest)) in
    ground (arith, test, shape, h)

parity_positive : (p : FecProfile) → 1 < data_count p → 0 < parity_count p
parity_positive emergency h = absurd (omega arith)
parity_positive aggressive h = absurd (omega arith)
parity_positive balanced h = omega arith
parity_positive reliable h = omega arith
parity_positive no_fec h = absurd (omega arith)

-- A group of two packets or more, encoded under a profile with k > 1: whatever is lost, if each
-- stripe lost one packet at most, its parity counted, then the decoder returns packets that are
-- those of the group, once all are filled up with zeros to the length of the longest.
pub decode_group-encode_group :
    (e : FecEncoder) (p q : Bytes) (rest : List Bytes) (block : FecBlock) (e' : FecEncoder)
    (received_data received_parity : List (Option Bytes))
    → 1 < data_count e.profile
    → encode_group e (p ∷ q ∷ rest) ≡ ok (block, e')
    → IsReceived block.data_packets received_data
    → IsReceived block.parity_packets received_parity
    → IsRecoverable (parity_count e.profile) 0 received_data received_parity
    → GivesBack
        (max_length (p ∷ q ∷ rest))
        (p ∷ q ∷ rest)
        (decode_group block received_data received_parity)
decode_group-encode_group e p q rest block e' ps parities two h v w few =
    let pos : 0 < parity_count e.profile = parity_positive e.profile two in
    let (same, group, sums) = encode_group_parts e p q rest block e' two h in
    let data_in : IsReceived (p ∷ q ∷ rest) ps = subst (λ t. IsReceived t ps) group v in
    let parity_in : IsReceived (group_parities (parity_count e.profile) (p ∷ q ∷ rest)) parities =
      subst (λ t. IsReceived t parities) sums w in
    let count : length parities ≡ parity_count e.profile =
      length-IsReceived _ parities parity_in
      ∙ length-stripes (parity_count e.profile) 0 _ 0 _
      ∙ length-replicate {A = Bytes} (parity_count e.profile) _ in
    decode_group-GivesBack (max_length (p ∷ q ∷ rest)) block (p ∷ q ∷ rest) ps parities
      (subst (λ t. count_lost ps + count_lost parities ≤ parity_count t) (sym same)
        (losses-le (parity_count e.profile) ps parities pos count few))
      data_in
      (subst
        (λ t.
          GivesBack (max_length (p ∷ q ∷ rest)) (p ∷ q ∷ rest)
            (all_there (recover_all (parity_count t) 0 parities ps)))
        (sym same)
        (recover_all-GivesBack (max_length (p ∷ q ∷ rest)) (parity_count e.profile) (p ∷ q ∷ rest)
          pos (omega arith) ps parities data_in parity_in few))
