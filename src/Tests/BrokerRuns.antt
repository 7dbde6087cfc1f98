-- ===== src/Tests/BrokerRuns.antt =====
-- MQTT packets, the receive loop, and the priorities of topics.
use qdap_protocol.Base.{
  ◌+◌, ◌≡◌, ◌≢◌, ◌≤◌, refl, false, List, [], ◌∷◌, ◌++◌, length, join, none, some, ok, err, Error,
  list_eq_instance, nat_eq, arith,
}
use qdap_protocol.Bytes.{Bytes, unpack_be_at, unpack_be, be_number, be_number_from}
use qdap_protocol.Broker.Utf8.{Text, valid_utf8, decode_utf8, valid_from, next_state, lead}
use qdap_protocol.Broker.Packet.{
  MqttPacket, parse_packet, build_publish, encode_remaining_length, encode_loop,
  decode_remaining_length, decode_loop, parse_body, parse_publish, decode_string, parse_packet_id,
}
use qdap_protocol.Broker.Packet.Remaining.{decode_remaining_length-encode_remaining_length}
use qdap_protocol.Broker.Packet.Publish.{id_for, published, parse_packet-build_publish}
use qdap_protocol.Broker.Packet.Fuel.{parse_packet_total}
use qdap_protocol.Broker.Stream.{waiting, Handler, receive, receive_all}
use qdap_protocol.Broker.Priority.{
  topic_to_priority, wrap_in_qframe, unwrap_qframe, is_emergency, search_in, starts_with,
}
use qdap_protocol.Broker.Priority.RoundTrip.{unwrap_qframe-wrap_in_qframe}
use qdap_protocol.Broker.Stream.Laws.{receive_all-join}

-- "a/b", and a PUBLISH packet of it with QoS 1 and identifier 258.
abbrev topic : Text
topic = 0x61 ∷ 0x2f ∷ 0x62 ∷ []

abbrev publish_bytes : Bytes
publish_bytes = 0x32 ∷ 10 ∷ 0 ∷ 3 ∷ 0x61 ∷ 0x2f ∷ 0x62 ∷ 1 ∷ 2 ∷ 0 ∷ 7 ∷ 8 ∷ []

parse_packet-build_publish_example :
    (bytes : Bytes) × (build_publish topic (7 ∷ 8 ∷ []) 1 (id_for 1 258) false ≡ ok bytes)
    × (parse_packet bytes ≡ ok (some (published topic (7 ∷ 8 ∷ []) 1 258 false)))
unfolding valid_utf8 valid_from next_state lead
parse_packet-build_publish_example =
    parse_packet-build_publish topic (7 ∷ 8 ∷ []) 1 258 false refl (omega arith) (omega arith)
      (omega arith)

parsed_publish : parse_packet publish_bytes ≡ ok (some (published topic (7 ∷ 8 ∷ []) 1 258 false))
unfolding parse_packet decode_remaining_length decode_loop parse_body parse_publish decode_string
    decode_utf8 valid_utf8 valid_from next_state lead unpack_be_at unpack_be be_number
    be_number_from parse_packet_id
parsed_publish = refl

decode_remaining_length-encode_remaining_length_example :
    decode_remaining_length ((0x30 ∷ []) ++ (encode_remaining_length 321 ++ (5 ∷ []))) 1
    ≡ ok (321, 1 + length (encode_remaining_length 321))
decode_remaining_length-encode_remaining_length_example =
    decode_remaining_length-encode_remaining_length 321 (0x30 ∷ []) (5 ∷ [])

encoded_321 : encode_remaining_length 321 ≡ 193 ∷ 2 ∷ []
unfolding encode_remaining_length encode_loop
encoded_321 = refl

-- SUBSCRIBE whose topic is cut off.
parse_packet_total_example : parse_packet (0x82 ∷ 4 ∷ 0 ∷ 1 ∷ 0 ∷ 9 ∷ []) ≢ err Error.out_of_fuel
parse_packet_total_example = parse_packet_total (0x82 ∷ 4 ∷ 0 ∷ 1 ∷ 0 ∷ 9 ∷ [])

-- A handler that keeps the packets and stops at DISCONNECT.
abbrev keep : Handler (List MqttPacket)
keep pkt seen = (pkt ∷ seen, none)

abbrev cut_packets : List Bytes
cut_packets =
    (0xc0 ∷ [])
    ∷ (0 ∷ 0x32 ∷ 10 ∷ 0 ∷ [])
    ∷ (3 ∷ 0x61 ∷ 0x2f ∷ 0x62 ∷ 1 ∷ 2 ∷ 0 ∷ 7 ∷ 8 ∷ 0xc0 ∷ [])
    ∷ []

receive_all-join_example :
    receive_all keep cut_packets (waiting [] []) ≡ receive keep (join cut_packets) (waiting [] [])
receive_all-join_example = receive_all-join keep cut_packets []

unwrap_qframe-wrap_in_qframe_example :
    (bytes : Bytes) × (wrap_in_qframe topic (7 ∷ 8 ∷ []) ≡ ok bytes)
    × (unwrap_qframe bytes ≡ ok (topic_to_priority topic 2, 7 ∷ 8 ∷ []))
    × (topic_to_priority topic 2 ≤ 1000)
unwrap_qframe-wrap_in_qframe_example = unwrap_qframe-wrap_in_qframe topic (7 ∷ 8 ∷ [])

-- "EMS/Emergency" by its word, whatever the case of the letters.
emergency_topic :
    topic_to_priority
      (0x45 ∷ 0x4d ∷ 0x53 ∷ 0x2f ∷ 0x45 ∷ 0x6d ∷ 0x65 ∷ 0x72 ∷ 0x67 ∷ 0x65 ∷ 0x6e ∷ 0x63 ∷ 0x79
        ∷ [])
      2000
    ≡ 1000
unfolding topic_to_priority is_emergency search_in starts_with
emergency_topic = refl
