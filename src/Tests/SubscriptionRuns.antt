-- ===== src/Tests/SubscriptionRuns.antt =====
-- Subscriptions, sessions, deliveries and redeemed tickets.
use qdap_protocol.Base.{
  ℕ, ◌+◌, ◌%◌, ◌≤◌, ◌<◌, ◌≡◌, ◌↔◌, refl, Bool, true, false, List, [], ◌∷◌, ◌++◌, min, none, some,
  ok, list_eq_instance, arith, if◌then◌else◌,
}
use qdap_protocol.Base.Dict.{get, put, Dict}
use qdap_protocol.Bytes.{Bytes}
use qdap_protocol.Broker.Utf8.{Text, valid_utf8, valid_from, next_state, lead}
use qdap_protocol.Broker.Packet.{MqttPacket, packet, parse_packet}
use qdap_protocol.Broker.Packet.Publish.{published}
use qdap_protocol.Broker.TopicTree.{
  TopicNode, new_node, subscribe, subscribe_node, match_topic, match_node, split_slash, find_child,
  put_child, add_node, add_subscribers,
}
use qdap_protocol.Broker.TopicTree.Laws.{qos_at}
use qdap_protocol.Broker.TopicTree.Valid.{IsReachable, empty_tree, subscribed}
use qdap_protocol.Broker.TopicTree.Match.{matches, AtLeast}
use qdap_protocol.Broker.TopicTree.Match.Best.{Origin, match_topic_max}
use qdap_protocol.Broker.Sessions.{Session, new_session, remove_session}
use qdap_protocol.Broker.Sessions.Laws.{
  nth_packet_id, nth_packet_id_cycle, get-remove_session, after_leaving,
}
use qdap_protocol.Broker.Handler.{Broker, client_eq, deliver_packet}
use qdap_protocol.Broker.Handler.Delivery.{deliver_packet-published}

-- Clients 1 and 2; "a/#", "a/+" and "a".
abbrev client : ℕ → Text
client n = n ∷ []

abbrev a_hash : Text
a_hash = 0x61 ∷ 0x2f ∷ 0x23 ∷ []

abbrev a_plus : Text
a_plus = 0x61 ∷ 0x2f ∷ 0x2b ∷ []

abbrev tree : TopicNode Text
tree =
    subscribe (subscribe (subscribe new_node (client 1) a_hash 2) (client 1) a_plus 1) (client 2)
      a_plus 0

tree-IsReachable : IsReachable tree
tree-IsReachable =
    subscribed (subscribed (subscribed empty_tree (client 1) a_hash 2) (client 1) a_plus 1)
      (client 2) a_plus 0

match_topic_max_example :
    ((q : ℕ)
      → get (client 1) (match_topic tree (0x61 ∷ 0x2f ∷ 0x62 ∷ [])) ≡ some q
      → Origin tree (split_slash (0x61 ∷ 0x2f ∷ 0x62 ∷ [])) (client 1) q)
    × ((f : List Text) (r : ℕ)
        → matches f (split_slash (0x61 ∷ 0x2f ∷ 0x62 ∷ [])) ≡ true
        → qos_at tree f (client 1) ≡ some r
        → AtLeast r (get (client 1) (match_topic tree (0x61 ∷ 0x2f ∷ 0x62 ∷ []))))
match_topic_max_example = match_topic_max tree (0x61 ∷ 0x2f ∷ 0x62 ∷ []) (client 1) tree-IsReachable

matched : match_topic tree (0x61 ∷ 0x2f ∷ 0x62 ∷ []) ≡ (client 1, 2) ∷ (client 2, 0) ∷ []
unfolding match_topic match_node split_slash subscribe subscribe_node find_child put_child add_node
    add_subscribers get put
matched = refl

-- The level above the filter is not matched.
parent_unmatched : match_topic tree (0x61 ∷ []) ≡ []
unfolding match_topic match_node split_slash subscribe subscribe_node find_child put_child add_node
    add_subscribers get put
parent_unmatched = refl

-- Writers are numbers here.
abbrev last_session : Session ℕ
last_session = record (new_session false 7) { next_packet_id = 65535 }

nth_packet_id_cycle_example :
    (1 ≤ nth_packet_id 0 last_session)
    × (nth_packet_id 0 last_session ≤ 65535)
    × ((n : ℕ) × (0 ≤ n) × (n < 0 + 65535) × (nth_packet_id n last_session ≡ 1))
    × ((nth_packet_id 0 last_session ≡ nth_packet_id (0 + 65534) last_session)
        ↔ (65534 % 65535 ≡ 0))
nth_packet_id_cycle_example =
    nth_packet_id_cycle 0 65534 1 last_session (omega arith) (omega arith) (omega arith)
      (omega arith)

abbrev store : Dict Text (Session ℕ)
store = (client 1, last_session) ∷ []

get-remove_session_example : get (client 1) (remove_session (client 1) store) ≡ (
    if list_eq_instance.beq (client 1) (client 1)
    then after_leaving (get (client 1) store)
    else get (client 1) store)
get-remove_session_example = get-remove_session (client 1) (client 1) store

abbrev broker : Broker ℕ
broker = record {
  topic_tree = new_node;
  sessions = [];
  written = [];
  published = 0;
  delivered = 0;
  connected = 0;
}

abbrev drains : ℕ → Bool
drains w = true

abbrev message : MqttPacket
message = record (packet 3 4) { topic = client 0x61; payload = 1 ∷ 2 ∷ []; qos = 2 }

deliver_packet-published_example :
    (bytes : Bytes) × ((deliver_packet drains client message
        (some (client 1))
        1
        7
        last_session
        broker).1
      ≡ none)
    × ((deliver_packet drains client message (some (client 1)) 1 7 last_session broker).0.written
        ≡ [] ++ ((7, bytes) ∷ []))
    × (parse_packet bytes ≡ ok (some (published (client 0x61) (1 ∷ 2 ∷ []) (min 2 1) 65535 false)))
unfolding valid_utf8 valid_from next_state lead
deliver_packet-published_example =
    deliver_packet-published drains client message (some (client 1)) 1 7 last_session broker refl
      (omega arith) (omega arith) (omega arith)
