-- ===== src/Broker.antt =====
-- src/qdap/broker: an MQTT broker. Packets, the topic tree, the sessions, and the broker itself.
pub mod Utf8
pub mod Packet
pub mod Stream
pub mod Priority
pub mod TopicTree
pub mod Sessions
pub mod Handler
