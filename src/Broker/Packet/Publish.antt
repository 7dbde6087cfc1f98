-- ===== src/Broker/Packet/Publish.antt =====
-- PUBLISH packets of src/qdap/broker/packet_parser.py: building and parsing.
use Prim.Native.Nat.{bit_and, bit_or}
use mathlib.Core.Path.{subst}
use qdap_protocol.Base.{
  ℕ, zero, suc, ◌+◌, ◌*◌, ◌/◌, ◌≤◌, ◌<◌, ◌≡◌, refl, sym, ap, ◌∙◌, Bool, true, false, not, [], ◌∷◌,
  ◌++◌, append_assoc, length, drop, slice, length-append, drop-append, Option, none, some, ok,
  ◌>>=◌, arith, ◌==◌, lt→ltb, if◌then◌else◌,
}
use qdap_protocol.Bytes.{Bytes, be_bytes}
use qdap_protocol.Bytes.Laws.{slice-append, pack_be_ok, unpack_be_at-be_bytes, length-be_bytes}
use qdap_protocol.Broker.Utf8.{Text, valid_utf8, decode_utf8}
use qdap_protocol.Broker.Packet.{
  MqttPacket, packet, mqtt_publish, parse_packet, parse_body, parse_publish, parse_packet_id,
  decode_string, encode_string, publish_id, build_publish, decode_remaining_length,
  encode_remaining_length, encode_loop,
}
use qdap_protocol.Broker.Packet.Remaining.{decode_remaining_length-encode_remaining_length}
use qdap_protocol.Broker.Packet.Header.{headed, with_header_ok, parse_packet-headed}

-- A text that is written is read back at its position.
pub decode_string-append :
    (front : Bytes) (s : Text) (rest : Bytes)
    → valid_utf8 s ≡ true
    → length s < 65536
    → decode_string (front ++ (be_bytes 2 (length s) ++ (s ++ rest))) (length front)
      ≡ ok (s, length front + 2 + length s)
unfolding decode_string decode_utf8
decode_string-append front s rest valid h =
    rw (unpack_be_at-be_bytes 2 (length front) (length s) front (s ++ rest) refl h, text, valid)
  where
    text :
        slice
          (length front + 2)
          (length front + 2 + length s)
          (front ++ (be_bytes 2 (length s) ++ (s ++ rest)))
        ≡ s
    text =
        ap (slice (length front + 2) (length front + 2 + length s))
          (sym (append_assoc front (be_bytes 2 (length s)) (s ++ rest)))
        ∙ slice-append (length front + 2) (length s) (front ++ be_bytes 2 (length s)) s rest
            (omega
              (arith, length-append front (be_bytes 2 (length s)), length-be_bytes 2 (length s)))
            refl

pub encode_string_ok :
    (s : Text) → length s < 65536 → encode_string s ≡ ok (be_bytes 2 (length s) ++ s)
unfolding encode_string
encode_string_ok s h = rw (pack_be_ok 2 (length s) h)

-- The identifier that goes with a QoS: none with QoS 0.
abbrev pub id_for : ℕ → ℕ → Option ℕ
id_for zero id = none
id_for (suc qos) id = some id

abbrev id_bytes : ℕ → ℕ → Bytes
id_bytes zero id = []
id_bytes (suc qos) id = be_bytes 2 id

publish_id_ok : (qos id : ℕ) → id < 65536 → publish_id qos (id_for qos id) ≡ ok (id_bytes qos id)
unfolding publish_id
publish_id_ok zero id h = refl
publish_id_ok (suc qos) id h = rw (lt→ltb 0 (suc qos) (omega arith)) (pack_be_ok 2 id h)

parse_packet_id-id_bytes :
    (front rest : Bytes) (qos id : ℕ)
    → id < 65536
    → parse_packet_id (front ++ (id_bytes qos id ++ rest)) qos (length front)
      ≡ ok (id_for qos id, length front + length (id_bytes qos id))
unfolding parse_packet_id
parse_packet_id-id_bytes front rest zero id h = ap (λ (k : ℕ). ok (none, k)) (omega arith)
parse_packet_id-id_bytes front rest (suc qos) id h = rw (
  lt→ltb 0 (suc qos) (omega arith),
  unpack_be_at-be_bytes 2 (length front) id front rest refl h,
  length-be_bytes 2 id,
)

abbrev pub publish_flags : ℕ → Bool → ℕ
publish_flags qos retain = bit_or (qos * 2) (if retain then 1 else 0)

-- What a subscriber sees of a published message.
abbrev pub published : Text → Bytes → ℕ → ℕ → Bool → MqttPacket
published topic payload qos id retain = record (packet mqtt_publish (publish_flags qos retain)) {
  qos = qos;
  retain = retain;
  topic = topic;
  packet_id = id_for qos id;
  payload = payload;
}

abbrev publish_body : Text → Bytes → ℕ → ℕ → Bytes
publish_body topic payload qos id =
    be_bytes 2 (length topic) ++ (topic ++ (id_bytes qos id ++ (0 ∷ payload)))

abbrev publish_head : ℕ → Bool → ℕ
publish_head qos retain = bit_or 0x30 (publish_flags qos retain)

-- The type and the flags in the first byte, and the QoS and the retain bit in the flags.
abbrev HeadFacts : ℕ → Bool → Type 0
HeadFacts qos retain =
    (publish_head qos retain < 256)
    × (bit_and (publish_head qos retain / 16) 0x0f ≡ mqtt_publish)
    × (bit_and (publish_head qos retain) 0x0f ≡ publish_flags qos retain)
    × (bit_and (publish_flags qos retain / 2) 0x03 ≡ qos)
    × (not (bit_and (publish_flags qos retain) 0x01 == 0) ≡ retain)

publish_head-HeadFacts : (qos : ℕ) (retain : Bool) → qos ≤ 2 → HeadFacts qos retain
publish_head-HeadFacts zero false h = (omega arith, refl, refl, refl, refl)
publish_head-HeadFacts zero true h = (omega arith, refl, refl, refl, refl)
publish_head-HeadFacts (suc zero) false h = (omega arith, refl, refl, refl, refl)
publish_head-HeadFacts (suc zero) true h = (omega arith, refl, refl, refl, refl)
publish_head-HeadFacts (suc (suc zero)) false h = (omega arith, refl, refl, refl, refl)
publish_head-HeadFacts (suc (suc zero)) true h = (omega arith, refl, refl, refl, refl)
publish_head-HeadFacts (suc (suc (suc qos))) retain h = absurd (omega arith)

no_properties :
    (front rest : Bytes)
    → decode_remaining_length (front ++ (0 ∷ rest)) (length front) ≡ ok (0, length front + 1)
unfolding encode_remaining_length encode_loop
no_properties front rest = decode_remaining_length-encode_remaining_length 0 front rest

parse_publish-publish_body :
    (topic : Text) (payload : Bytes) (qos id : ℕ) (pkt : MqttPacket)
    → valid_utf8 topic ≡ true
    → length topic < 65536
    → id < 65536
    → bit_and (pkt.flags / 2) 0x03 ≡ qos
    → parse_publish (publish_body topic payload qos id) pkt
      ≡ ok (record pkt {
        qos = qos;
        retain = not (bit_and pkt.flags 0x01 == 0);
        topic = topic;
        packet_id = id_for qos id;
        payload = payload;
      })
unfolding parse_publish
parse_publish-publish_body topic payload qos id pkt valid h k e = rw (
  decode_string-append [] topic (id_bytes qos id ++ (0 ∷ payload)) valid h,
  e,
  id_eq,
  size_eq,
  rest_eq,
)
  where
    front : Bytes
    front = be_bytes 2 (length topic) ++ topic

    length-front : length front ≡ 0 + 2 + length topic
    length-front =
        omega
          (arith, length-append (be_bytes 2 (length topic)) topic, length-be_bytes 2 (length topic))

    end : ℕ
    end = 0 + 2 + length topic + length (id_bytes qos id)

    body_eq : publish_body topic payload qos id ≡ front ++ (id_bytes qos id ++ (0 ∷ payload))
    body_eq =
        sym (append_assoc (be_bytes 2 (length topic)) topic (id_bytes qos id ++ (0 ∷ payload)))

    body_eq' : publish_body topic payload qos id ≡ (front ++ id_bytes qos id) ++ (0 ∷ payload)
    body_eq' = body_eq ∙ sym (append_assoc front (id_bytes qos id) (0 ∷ payload))

    length-both : length (front ++ id_bytes qos id) ≡ end
    length-both = omega (arith, length-append front (id_bytes qos id), length-front)

    id_eq :
        parse_packet_id (publish_body topic payload qos id) qos (0 + 2 + length topic)
        ≡ ok (id_for qos id, end)
    id_eq =
        ap (λ bs. parse_packet_id bs qos (0 + 2 + length topic)) body_eq
        ∙ subst
            (λ k.
              parse_packet_id (front ++ (id_bytes qos id ++ (0 ∷ payload))) qos k
              ≡ ok (id_for qos id, k + length (id_bytes qos id)))
            length-front (parse_packet_id-id_bytes front (0 ∷ payload) qos id k)

    size_eq : decode_remaining_length (publish_body topic payload qos id) end ≡ ok (0, end + 1)
    size_eq =
        ap (λ bs. decode_remaining_length bs end) body_eq'
        ∙ subst
            (λ k.
              decode_remaining_length ((front ++ id_bytes qos id) ++ (0 ∷ payload)) k
              ≡ ok (0, k + 1))
            length-both (no_properties (front ++ id_bytes qos id) payload)

    rest_eq : drop (end + 1 + 0) (publish_body topic payload qos id) ≡ payload
    rest_eq =
        ap (drop (end + 1 + 0))
          (body_eq' ∙ sym (append_assoc (front ++ id_bytes qos id) (0 ∷ []) payload))
        ∙ drop-append (end + 1 + 0) ((front ++ id_bytes qos id) ++ (0 ∷ [])) payload
            (omega (arith, length-append (front ++ id_bytes qos id) (0 ∷ []), length-both))

-- A published packet with a QoS up to 2, a topic in UTF-8 below 64 KiB and an identifier of 16 bits
-- is built without error and parsed back to its topic, payload, QoS, flags and identifier; with
-- QoS 0 there is no identifier.
pub parse_packet-build_publish :
    (topic : Text) (payload : Bytes) (qos id : ℕ) (retain : Bool)
    → valid_utf8 topic ≡ true
    → length topic < 65536
    → id < 65536
    → qos ≤ 2
    → (bytes : Bytes) × (build_publish topic payload qos (id_for qos id) retain ≡ ok bytes)
      × (parse_packet bytes ≡ ok (some (published topic payload qos id retain)))
unfolding build_publish parse_body
parse_packet-build_publish topic payload qos id retain valid h k q =
    (headed (publish_head qos retain) (publish_body topic payload qos id), built, parsed)
  where
    head : HeadFacts qos retain
    head = publish_head-HeadFacts qos retain q

    small : publish_head qos retain < 256
    small = head.0

    body_eq :
        (be_bytes 2 (length topic) ++ topic) ++ (id_bytes qos id ++ (0 ∷ payload))
        ≡ publish_body topic payload qos id
    body_eq = append_assoc (be_bytes 2 (length topic)) topic (id_bytes qos id ++ (0 ∷ payload))

    built :
        build_publish topic payload qos (id_for qos id) retain
        ≡ ok (headed (publish_head qos retain) (publish_body topic payload qos id))
    built =
        rw (encode_string_ok topic h, publish_id_ok qos id k, body_eq) (with_header_ok _ _ small)

    parsed :
        parse_packet (headed (publish_head qos retain) (publish_body topic payload qos id))
        ≡ ok (some (published topic payload qos id retain))
    parsed =
        parse_packet-headed (publish_head qos retain) (publish_body topic payload qos id)
        ∙ rw (head.1, head.2)
            (ap (λ r. r >>= λ pkt. ok (some pkt))
                (parse_publish-publish_body topic payload qos id
                  (packet mqtt_publish (publish_flags qos retain)) valid h k head.3)
              ∙ ap
                  (λ (b : Bool).
                    ok (some (record (published topic payload qos id retain) { retain = b })))
                  head.4)
