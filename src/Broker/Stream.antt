-- ===== src/Broker/Stream.antt =====
-- src/qdap/broker/broker.py, the receive loop of handle_client: bytes arrive in chunks of any
-- size, complete packets are cut off the front of the buffer, and each is parsed and handled.
pub mod Complete
pub mod Laws
use qdap_protocol.Base.{
  ℕ, zero, suc, ◌+◌, Bool, true, false, List, [], ◌∷◌, ◌++◌, length, take, drop, Option, none, some,
  Result, ok, err, Error, ltb, if◌then◌else◌,
}
use qdap_protocol.Bytes.{Bytes}
use qdap_protocol.Broker.Packet.{MqttPacket, decode_remaining_length, parse_packet}

-- The end of the packet at the front of the buffer, if all of it is there. Only IndexError is
-- caught, and decode_remaining_length raises no other.
unfoldable pub packet_end : Bytes → Option ℕ
packet_end buffer =
    if ltb (length buffer) 2 then none else elim (decode_remaining_length buffer 1) [
      | err e ↦ none
      | ok (rem_len, offset) ↦
          if ltb (length buffer) (offset + rem_len) then none else some (offset + rem_len)
    ]

-- A connection waits for more bytes, or has been closed by an exception of the handler or the
-- parser. The state S is what the handler has done so far.
pub data Connection (S : Type 0) : Type 0 where
  waiting : Bytes → S → Connection S
  closed : Error → S → Connection S

-- What the handler of one packet does to the state, and the exception it raises, if any.
abbrev pub Handler : Type 0 → Type 0
Handler S = MqttPacket → S → S × Option Error

module _ {S : Type 0} (handle : Handler S) where
  -- An exception of the handler leaves the loop, which goes on otherwise.
  unfoldable pub after_handler : (S → Connection S) → S × Option Error → Connection S
  after_handler next (s, some e) = closed e s
  after_handler next (s, none) = next s

  unfoldable pub after_parser :
      (S → Connection S) → Bytes → S → Result (Option MqttPacket) → Connection S
  after_parser next buffer s (err e) = closed e s
  after_parser next buffer s (ok none) = waiting buffer s
  after_parser next buffer s (ok (some pkt)) = after_handler next (handle pkt s)

  -- A round of the inner loop, and how it goes on with the rest of the buffer.
  unfoldable pub drain_round : (Bytes → S → Connection S) → Bytes → S → Connection S
  drain_round next buffer s = elim (packet_end buffer) [
    | none ↦ waiting buffer s
    | some consumed ↦
        after_parser (next (drop consumed buffer)) buffer s (parse_packet (take consumed buffer))
  ]

  -- The inner loop. Every round takes two bytes at least off the buffer, so its length is enough
  -- fuel.
  unfoldable pub drain : ℕ → Bytes → S → Connection S
  drain zero buffer s = waiting buffer s
  drain (suc fuel) buffer s = drain_round (drain fuel) buffer s

  -- One chunk from the reader; an empty one is the end of the stream, the last of all. A closed
  -- connection reads nothing.
  unfoldable pub receive : Bytes → Connection S → Connection S
  receive chunk (closed e s) = closed e s
  receive chunk (waiting buffer s) = drain (length (buffer ++ chunk)) (buffer ++ chunk) s

  unfoldable pub receive_all : List Bytes → Connection S → Connection S
  receive_all [] c = c
  receive_all (chunk ∷ chunks) c = receive_all chunks (receive chunk c)
