-- ===== src/Broker/Handler/Delivery.antt =====
-- What a subscriber of src/qdap/broker/broker.py receives of a published message.
use qdap_protocol.Base.{
  ℕ, zero, suc, ◌≤◌, ◌<◌, ◌≡◌, refl, ap, ◌∙◌, Bool, true, List, [], ◌∷◌, ◌++◌, length, none, some,
  ok, min, lt→ltb, arith,
}
use qdap_protocol.Bytes.{Bytes}
use qdap_protocol.Broker.Utf8.{valid_utf8}
use qdap_protocol.Broker.Packet.{MqttPacket, parse_packet, build_publish}
use qdap_protocol.Broker.Packet.Publish.{id_for, published, parse_packet-build_publish}
use qdap_protocol.Broker.Sessions.{Session, get_packet_id}
use qdap_protocol.Broker.Handler.{Client, client_eq, Broker, write, packet_id_for, deliver_packet}

module _ {W : Type 0} (drains : W → Bool) (auto_id : W → List ℕ) where
  packet_id_for_eq :
      (qos : ℕ) (s : Session W)
      → (packet_id_for drains auto_id qos s).0 ≡ id_for qos s.next_packet_id
  unfolding packet_id_for get_packet_id
  packet_id_for_eq zero s = refl
  packet_id_for_eq (suc qos) s = rw (lt→ltb 0 (suc qos) (omega arith))

  -- For a topic in UTF-8 below 64 KiB, a subscription of QoS up to 2 and a session whose next
  -- identifier has 16 bits, a subscriber is written one packet, after all that was written before,
  -- without an exception; it parses to the topic and the payload of the message, the lower of the
  -- two QoS, and the next identifier of the session, none with QoS 0.
  pub deliver_packet-published :
      (pkt : MqttPacket) (client : Client) (sub_qos : ℕ) (w : W) (s : Session W) (b : Broker W)
      → valid_utf8 pkt.topic ≡ true
      → length pkt.topic < 65536
      → sub_qos ≤ 2
      → s.next_packet_id ≤ 65535
      → (bytes : Bytes) × ((deliver_packet drains auto_id pkt client sub_qos w s b).1 ≡ none)
        × ((deliver_packet drains auto_id pkt client sub_qos w s b).0.written
            ≡ b.written ++ ((w, bytes) ∷ []))
        × (parse_packet bytes
            ≡ ok (
                some (
                  published pkt.topic pkt.payload
                    (min pkt.qos sub_qos)
                    s.next_packet_id
                    pkt.retain)))
  unfolding deliver_packet write
  deliver_packet-published pkt client sub_qos w s b valid short q k =
      let (bytes, built, parsed) =
        parse_packet-build_publish pkt.topic pkt.payload (min pkt.qos sub_qos) s.next_packet_id
          pkt.retain valid short (omega arith) (omega arith) in
      let sent : build_publish pkt.topic pkt.payload (min pkt.qos sub_qos)
            ((packet_id_for drains auto_id (min pkt.qos sub_qos) s).0) pkt.retain
          ≡ ok bytes =
        ap (λ id. build_publish pkt.topic pkt.payload (min pkt.qos sub_qos) id pkt.retain)
          (packet_id_for_eq (min pkt.qos sub_qos) s)
        ∙ built in
      (bytes, rw (deliver_packet, sent), rw (deliver_packet, sent), parsed)
