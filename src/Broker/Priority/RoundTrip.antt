-- ===== src/Broker/Priority/RoundTrip.antt =====
-- The priority that src/qdap/broker/qdap_transport.py puts in front of a payload is read back.
use qdap_protocol.Base.{ℕ, ◌≤◌, ◌<◌, ◌≡◌, refl, [], ◌++◌, length, drop-append, ok, arith}
use qdap_protocol.Bytes.{Bytes, be_bytes}
use qdap_protocol.Bytes.Laws.{pack_be_ok, unpack_be_at-be_bytes, length-be_bytes}
use qdap_protocol.Broker.Utf8.{Text}
use qdap_protocol.Broker.Priority.{topic_to_priority, wrap_in_qframe, unwrap_qframe}

topic_to_priority_bound : (topic : Text) (size : ℕ) → topic_to_priority topic size ≤ 1000
unfolding topic_to_priority
topic_to_priority_bound topic size = ground arith

-- Wrapping any payload raises nothing, and unwrapping gives the priority of the topic, at most
-- 1000, and the payload.
pub unwrap_qframe-wrap_in_qframe :
    (topic : Text) (payload : Bytes)
    → (bytes : Bytes) × (wrap_in_qframe topic payload ≡ ok bytes)
      × (unwrap_qframe bytes ≡ ok (topic_to_priority topic (length payload), payload))
      × (topic_to_priority topic (length payload) ≤ 1000)
unfolding wrap_in_qframe unwrap_qframe
unwrap_qframe-wrap_in_qframe topic payload = (
  be_bytes 2 p ++ payload,
  rw (pack_be_ok 2 p small),
  rw (
    unwrap_qframe,
    unpack_be_at-be_bytes 2 0 p [] payload refl small,
    drop-append 2 (be_bytes 2 p) payload (length-be_bytes 2 p),
  ),
  topic_to_priority_bound topic (length payload),
)
  where
    p : ℕ
    p = topic_to_priority topic (length payload)

    small : p < 65536
    small = omega (arith, topic_to_priority_bound topic (length payload))
