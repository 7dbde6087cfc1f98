-- ===== src/Broker/Handler.antt =====
-- src/qdap/broker/broker.py: what the broker does with one packet, and when a connection ends.
pub mod Delivery
use qdap_protocol.Base.{
  ℕ, ◌+◌, Bool, true, false, ◌&&◌, List, [], ◌∷◌, ◌++◌, length, map, Option, none, some, Result, ok,
  err, Error, min, ltb, ◌==◌, if◌then◌else◌, is_empty, Eq, list_eq, list_eq_iff, ◌≡◌, ◌↔◌, refl, ap,
  arith,
}
use qdap_protocol.Base.Dict.{Dict, get, put}
use qdap_protocol.Bytes.{Bytes}
use qdap_protocol.Broker.Utf8.{Text}
use qdap_protocol.Broker.Packet.{
  MqttPacket, mqtt_connect, mqtt_publish, mqtt_subscribe, mqtt_unsubscribe, mqtt_pingreq,
  mqtt_disconnect, build_connack, build_publish, build_puback, build_suback, build_unsuback,
  pingresp,
}
use qdap_protocol.Broker.TopicTree.{
  TopicNode, subscribe, unsubscribe, match_topic, remove_from_node,
}
use qdap_protocol.Broker.Sessions.{Session, get_packet_id, create, remove_session, get_writer}

-- The client of a connection: None until it has sent CONNECT.
abbrev pub Client : Type 0
Client = Option Text

abbrev client_beq : Client → Client → Bool
client_beq none none = true
client_beq none (some d) = false
client_beq (some c) none = false
client_beq (some c) (some d) = list_eq c d

pub client_beq_iff : (a b : Client) → (client_beq a b ≡ true) ↔ (a ≡ b)
client_beq_iff none none = (λ h. refl, λ p. refl)
client_beq_iff none (some d) = (λ h. absurd (cc), λ p. absurd (cc))
client_beq_iff (some c) none = (λ h. absurd (cc), λ p. absurd (cc))
client_beq_iff (some c) (some d) =
    (λ h. ap some ((list_eq_iff c d).0 h), λ p. (list_eq_iff c d).1 (some_inj p))
  where
    some_inj : some c ≡ some d → c ≡ d
    some_inj p = cc

instance abbrev pub client_eq : Eq Client
client_eq = record { beq = client_beq; beq_iff = client_beq_iff }

-- `written` is what has been written to the writers, in order.
pub record Broker (W : Type 0) : Type 0 where
  pub topic_tree : TopicNode Client
  pub sessions : Dict Client (Session W)
  pub written : List (W × Bytes)
  pub published : ℕ
  pub delivered : ℕ
  pub connected : ℕ

-- What is left of the broker when a step ends, and the exception that ended it, if any.
abbrev pub Outcome : Type 0 → Type 0
Outcome W = Broker W × Option Error

module _ {W : Type 0} (drains : W → Bool) (auto_id : W → Text) where
  unfoldable pub write : W → Bytes → Broker W → Broker W
  write w bytes b = record b { written = b.written ++ ((w, bytes) ∷ []) }

  -- writer.write(…) of a packet that may not be built, and `await writer.drain()`.
  unfoldable pub send : W → Result Bytes → Broker W → Outcome W
  send w (err e) b = (b, some e)
  send w (ok bytes) b = (write w bytes b, if drains w then none else some Error.connection_error)

  -- The identifier for a QoS above 0, and the session that has handed it out.
  unfoldable pub packet_id_for : ℕ → Session W → Option ℕ × Session W
  packet_id_for qos session =
      if ltb 0 qos
      then (some ((get_packet_id session).0), (get_packet_id session).1)
      else (none, session)

  -- A subscriber's drain may fail; the message then does not count as delivered.
  unfoldable pub deliver_packet : MqttPacket → Client → ℕ → W → Session W → Broker W → Outcome W
  deliver_packet pkt client sub_qos w session b =
      let effective_qos = min pkt.qos sub_qos in
      let b' = record b {
        sessions = put client ((packet_id_for effective_qos session).1) b.sessions;
      } in
      elim (build_publish pkt.topic pkt.payload effective_qos
        ((packet_id_for effective_qos session).0) pkt.retain) [
          | err e ↦ (b', some e)
          | ok bytes ↦ (
            record (write w bytes b') {
              delivered = if drains w then b.delivered + 1 else b.delivered;
            },
            none,
          )
        ]

  unfoldable pub deliver_one : MqttPacket → Client → Client → ℕ → Broker W → Outcome W
  deliver_one pkt sender client sub_qos b =
      if client_beq client sender then (b, none) else elim (get client b.sessions) [
        | none ↦ (b, none)
        | some session ↦ elim session.writer [
          | none ↦ (b, none)
          | some w ↦ deliver_packet pkt client sub_qos w session b
        ]
      ]

  abbrev pub and_then : Outcome W → (Broker W → Outcome W) → Outcome W
  and_then (b, some e) next = (b, some e)
  and_then (b, none) next = next b

  unfoldable pub deliver_all : MqttPacket → Client → List (Client × ℕ) → Broker W → Outcome W
  deliver_all pkt sender [] b = (b, none)
  deliver_all pkt sender ((client, sub_qos) ∷ subscribers) b =
      and_then (deliver_one pkt sender client sub_qos b) (deliver_all pkt sender subscribers)

  unfoldable pub acknowledge : MqttPacket → W → Broker W → Outcome W
  acknowledge pkt w b = elim pkt.packet_id [
    | none ↦ (b, none)
    | some id ↦ if pkt.qos == 1 then send w (build_puback id) b else (b, none)
  ]

  unfoldable pub handle_connect : MqttPacket → W → Broker W → Outcome W × Client
  handle_connect pkt w b =
      let client = some (if is_empty pkt.client_id then auto_id w else pkt.client_id) in
      let b' = record b { sessions = create client pkt.clean_session w b.sessions } in
      (
        and_then (send w (build_connack false 0) b')
            (λ b''. (record b'' { connected = b''.connected + 1 }, none)),
        client,
      )

  unfoldable pub handle_publish : MqttPacket → W → Client → Broker W → Outcome W
  handle_publish pkt w sender b =
      and_then
        (deliver_all pkt sender (match_topic b.topic_tree pkt.topic)
          (record b { published = b.published + 1 }))
        (acknowledge pkt w)

  unfoldable pub subscribe_all : Client → List (Text × ℕ) → TopicNode Client → TopicNode Client
  subscribe_all client [] tree = tree
  subscribe_all client ((topic_filter, qos) ∷ subs) tree =
      subscribe_all client subs (subscribe tree client topic_filter qos)

  unfoldable pub unsubscribe_all : Client → List (Text × ℕ) → TopicNode Client → TopicNode Client
  unsubscribe_all client [] tree = tree
  unsubscribe_all client ((topic_filter, qos) ∷ subs) tree =
      unsubscribe_all client subs (unsubscribe tree client topic_filter)

  -- The packets that are acknowledged have their identifier from the parser.
  abbrev id_or_zero : Option ℕ → ℕ
  id_or_zero none = 0
  id_or_zero (some id) = id

  unfoldable pub handle_subscribe : MqttPacket → W → Client → Broker W → Outcome W
  handle_subscribe pkt w client b =
      send w (build_suback (id_or_zero pkt.packet_id) (map (λ sub. sub.1) pkt.subscriptions))
        (record b { topic_tree = subscribe_all client pkt.subscriptions b.topic_tree })

  unfoldable pub handle_unsubscribe : MqttPacket → W → Client → Broker W → Outcome W
  handle_unsubscribe pkt w client b =
      send w (build_unsuback (id_or_zero pkt.packet_id) (length pkt.subscriptions))
        (record b { topic_tree = unsubscribe_all client pkt.subscriptions b.topic_tree })

  -- The client of the connection is an outcome too. When an exception ends the step, the
  -- assignment of the returned client does not happen.
  unfoldable pub handle_packet :
      W → MqttPacket → Broker W × Client → (Broker W × Client) × Option Error
  handle_packet w pkt (b, client) =
      if pkt.ptype == mqtt_connect
      then returned client (handle_connect pkt w b)
      else if pkt.ptype == mqtt_publish
      then returned client (handle_publish pkt w client b, client)
      else if pkt.ptype == mqtt_subscribe
      then returned client (handle_subscribe pkt w client b, client)
      else if pkt.ptype == mqtt_unsubscribe
      then returned client (handle_unsubscribe pkt w client b, client)
      else if pkt.ptype == mqtt_pingreq
      then returned client (send w (ok pingresp) b, client)
      else if pkt.ptype == mqtt_disconnect
      then ((b, client), some Error.connection_error)
      else ((b, client), none)
    where
      returned : Client → Outcome W × Client → (Broker W × Client) × Option Error
      returned before ((b, some e), after) = ((b, before), some e)
      returned before ((b, none), after) = ((b, after), none)

  -- The end of handle_client.
  unfoldable pub leave : Client → Broker W → Broker W
  leave none b = b
  leave (some c) b = if is_empty c then b else record b {
    sessions = remove_session (some c) b.sessions;
    topic_tree = remove_from_node b.topic_tree (some c);
  }
