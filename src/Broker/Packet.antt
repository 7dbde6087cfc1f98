-- ===== src/Broker/Packet.antt =====
-- src/qdap/broker/packet_parser.py: MQTT packets. Byte positions are offsets into the data, as in
-- the source.
pub mod Remaining
pub mod Fuel
pub mod Header
pub mod Publish
use Prim.Native.Nat.{bit_and, bit_or}
use qdap_protocol.Base.{
  ℕ, zero, suc, ◌+◌, ◌-◌, ◌*◌, ◌/◌, ◌%◌, Bool, true, false, not, List, [], ◌∷◌, ◌++◌, length, drop,
  slice, replicate, get_elem?, Option, none, some, Result, ok, err, Error, or_raise, ◌>>=◌, ltb,
  ◌==◌, if◌then◌else◌,
}
use qdap_protocol.Bytes.{Bytes, be_bytes, pack_be, unpack_be_at}
use qdap_protocol.Broker.Utf8.{Text, decode_utf8}

abbrev pub mqtt_connect : ℕ
mqtt_connect = 1

abbrev pub mqtt_publish : ℕ
mqtt_publish = 3

abbrev pub mqtt_subscribe : ℕ
mqtt_subscribe = 8

abbrev pub mqtt_unsubscribe : ℕ
mqtt_unsubscribe = 10

abbrev pub mqtt_pingreq : ℕ
mqtt_pingreq = 12

abbrev pub mqtt_disconnect : ℕ
mqtt_disconnect = 14

pub record MqttPacket : Type 0 where
  pub ptype : ℕ
  pub flags : ℕ
  pub payload : Bytes
  pub topic : Text
  pub qos : ℕ
  pub retain : Bool
  pub packet_id : Option ℕ
  pub client_id : Text
  pub clean_session : Bool
  pub keepalive : ℕ
  pub subscriptions : List (Text × ℕ)

-- MQTTPacket(ptype=…, flags=…), with the defaults of the other fields.
abbrev pub packet : ℕ → ℕ → MqttPacket
packet ptype flags = record {
  ptype = ptype;
  flags = flags;
  payload = [];
  topic = [];
  qos = 0;
  retain = false;
  packet_id = none;
  client_id = [];
  clean_session = true;
  keepalive = 60;
  subscriptions = [];
}

-- The loop from the byte at `offset` on; the list is the data from there. Past its end a read
-- raises IndexError.
unfoldable pub decode_loop : Bytes → ℕ → ℕ → ℕ → Result (ℕ × ℕ)
decode_loop [] multiplier value offset = err Error.index_error
decode_loop (byte ∷ bytes) multiplier value offset =
    let value' = value + bit_and byte 0x7f * multiplier in
    let rest = decode_loop bytes (multiplier * 128) value' (offset + 1) in
    if bit_and byte 0x80 == 0 then ok (value', offset + 1) else rest

unfoldable pub decode_remaining_length : Bytes → ℕ → Result (ℕ × ℕ)
decode_remaining_length bytes offset = decode_loop (drop offset bytes) 1 0 offset

-- The bytes that the loop appends from here on; the length is the fuel, which is enough.
unfoldable pub encode_loop : ℕ → ℕ → Bytes
encode_loop zero n = []
encode_loop (suc fuel) n =
    let byte = n % 128 in
    let rest = encode_loop fuel (n / 128) in
    if ltb 0 (n / 128) then bit_or byte 0x80 ∷ rest else byte ∷ []

unfoldable pub encode_remaining_length : ℕ → Bytes
encode_remaining_length n = encode_loop (suc n) n

-- data[i]
abbrev pub byte_at : Bytes → ℕ → Result ℕ
byte_at bytes i = or_raise Error.index_error (get_elem? bytes i)

unfoldable pub decode_string : Bytes → ℕ → Result (Text × ℕ)
decode_string bytes offset = do
  size ← unpack_be_at 2 offset bytes
  text ← decode_utf8 (slice (offset + 2) (offset + 2 + size) bytes)
  ok (text, offset + 2 + size)

unfoldable pub encode_string : Text → Result Bytes
encode_string s = do size ← pack_be 2 (length s); ok (size ++ s)

-- The branch of parse_packet for CONNECT. Only MQTT 5 has properties here.
unfoldable pub parse_connect : Bytes → MqttPacket → Result MqttPacket
parse_connect body pkt = do
  proto_len ← unpack_be_at 2 0 body
  let pos = 2 + proto_len
  version ← byte_at body pos
  connect_flags ← byte_at body (pos + 1)
  keepalive ← unpack_be_at 2 (pos + 2) body
  start ←
      (if version == 5
        then (do prop_len ← byte_at body (pos + 4); ok (pos + 4 + (1 + prop_len)))
        else ok (pos + 4))
  (client_id, pos') ← decode_string body start
  ok (record pkt {
    keepalive = keepalive;
    client_id = client_id;
    clean_session = not (bit_and connect_flags 0x02 == 0);
  })

-- The packet identifier, only with a QoS above 0, and the position behind it.
unfoldable pub parse_packet_id : Bytes → ℕ → ℕ → Result (Option ℕ × ℕ)
parse_packet_id body qos pos =
    if ltb 0 qos then (do id ← unpack_be_at 2 pos body; ok (some id, pos + 2)) else ok (none, pos)

unfoldable pub parse_publish : Bytes → MqttPacket → Result MqttPacket
parse_publish body pkt = do
  let qos = bit_and (pkt.flags / 2) 0x03
  (topic, pos) ← decode_string body 0
  (packet_id, pos') ← parse_packet_id body qos pos
  (prop_len, pos'') ← decode_remaining_length body pos'
  ok (record pkt {
    qos = qos;
    retain = not (bit_and pkt.flags 0x01 == 0);
    topic = topic;
    packet_id = packet_id;
    payload = drop (pos'' + prop_len) body;
  })

-- The loops `while pos < len(body)`. Each round moves `pos` by two bytes at least, so the length
-- of the body is enough fuel.
unfoldable pub parse_filters : ℕ → Bytes → ℕ → Result (List (Text × ℕ))
parse_filters zero body pos = if ltb pos (length body) then err Error.out_of_fuel else ok []
parse_filters (suc fuel) body pos =
    if ltb pos (length body)
    then (do
      (topic, pos') ← decode_string body pos
      byte ← byte_at body pos'
      rest ← parse_filters fuel body (pos' + 1)
      ok ((topic, bit_and byte 0x03) ∷ rest))
    else ok []

unfoldable pub parse_topics : ℕ → Bytes → ℕ → Result (List (Text × ℕ))
parse_topics zero body pos = if ltb pos (length body) then err Error.out_of_fuel else ok []
parse_topics (suc fuel) body pos =
    if ltb pos (length body)
    then (do
      (topic, pos') ← decode_string body pos
      rest ← parse_topics fuel body pos'
      ok ((topic, 0) ∷ rest))
    else ok []

unfoldable pub parse_subscribe : Bytes → MqttPacket → Result MqttPacket
parse_subscribe body pkt = do
  id ← unpack_be_at 2 0 body
  (prop_len, pos) ← decode_remaining_length body 2
  subs ← parse_filters (length body) body (pos + prop_len)
  ok (record pkt { packet_id = some id; subscriptions = subs })

unfoldable pub parse_unsubscribe : Bytes → MqttPacket → Result MqttPacket
parse_unsubscribe body pkt = do
  id ← unpack_be_at 2 0 body
  (prop_len, pos) ← decode_remaining_length body 2
  topics ← parse_topics (length body) body (pos + prop_len)
  ok (record pkt { packet_id = some id; subscriptions = topics })

unfoldable pub parse_body : ℕ → Bytes → MqttPacket → Result MqttPacket
parse_body ptype body pkt =
    if ptype == mqtt_connect
    then parse_connect body pkt
    else if ptype == mqtt_publish
    then parse_publish body pkt
    else if ptype == mqtt_subscribe
    then parse_subscribe body pkt
    else if ptype == mqtt_unsubscribe
    then parse_unsubscribe body pkt
    else ok pkt

unfoldable pub parse_packet : Bytes → Result (Option MqttPacket)
parse_packet [] = ok none
parse_packet (b ∷ []) = ok none
parse_packet (first ∷ second ∷ more) = do
  let bytes = first ∷ second ∷ more
  let ptype = bit_and (first / 16) 0x0f
  (remaining, offset) ← decode_remaining_length bytes 1
  let body = slice offset (offset + remaining) bytes
  pkt ← parse_body ptype body (packet ptype (bit_and first 0x0f))
  ok (some pkt)

-- bytes([…]) raises ValueError for a number that is no byte.
unfoldable pub to_bytes : List ℕ → Result Bytes
to_bytes [] = ok []
to_bytes (b ∷ bs) = do
  rest ← to_bytes bs
  (if ltb b 256 then ok (b ∷ rest) else err Error.value_error)

-- bytes([head]) + encode_remaining_length(len(body)) + body
unfoldable pub with_header : ℕ → Bytes → Result Bytes
with_header head body = do
  first ← to_bytes (head ∷ [])
  ok (first ++ (encode_remaining_length (length body) ++ body))

unfoldable pub build_connack : Bool → ℕ → Result Bytes
build_connack session_present reason_code = do
  payload ← to_bytes ((if session_present then 1 else 0) ∷ reason_code ∷ 0 ∷ [])
  with_header 0x20 payload

unfoldable pub build_suback : ℕ → List ℕ → Result Bytes
build_suback packet_id reason_codes = do
  id ← pack_be 2 packet_id
  codes ← to_bytes reason_codes
  with_header 0x90 (id ++ (0 ∷ codes))

unfoldable pub build_unsuback : ℕ → ℕ → Result Bytes
build_unsuback packet_id count = do
  id ← pack_be 2 packet_id
  with_header 0xb0 (id ++ (0 ∷ replicate count 0))

unfoldable pub build_puback : ℕ → Result Bytes
build_puback packet_id = do id ← pack_be 2 packet_id; with_header 0x40 (id ++ (0 ∷ 0 ∷ []))

-- The identifier is written only with a QoS above 0, and only if there is one.
unfoldable pub publish_id : ℕ → Option ℕ → Result Bytes
publish_id qos none = ok []
publish_id qos (some id) = if ltb 0 qos then pack_be 2 id else ok []

unfoldable pub build_publish : Text → Bytes → ℕ → Option ℕ → Bool → Result Bytes
build_publish topic payload qos packet_id retain = do
  let flags = bit_or (qos * 2) (if retain then 1 else 0)
  name ← encode_string topic
  id ← publish_id qos packet_id
  with_header (bit_or 0x30 flags) (name ++ (id ++ (0 ∷ payload)))

abbrev pub pingresp : Bytes
pingresp = 0xd0 ∷ 0x00 ∷ []
