-- ===== src/Broker/Stream/Complete.antt =====
-- When the bytes received hold a whole packet, and that more bytes do not change it: the length
-- test of handle_client in src/qdap/broker.
use qdap_protocol.Base.{
  ℕ, ◌+◌, ◌*◌, ◌≤◌, ◌<◌, ◌≡◌, refl, ap, inl, inr, false, [], ◌∷◌, ◌++◌, length, drop, length-append,
  none, some, Result, ok, err, arith, Bool-cases, ltb, if◌then◌else◌, le→ltb, drop-append_front,
}
use Prim.Native.Nat.{bit_and}
use qdap_protocol.Bytes.{Bytes}
use qdap_protocol.Broker.Packet.{decode_loop, decode_remaining_length}
use qdap_protocol.Broker.Stream.{packet_end}

-- A length that has been read stays the same when more data follows.
decode_loop-append :
    (bs more : Bytes) (m v o : ℕ) (out : ℕ × ℕ)
    → decode_loop bs m v o ≡ ok out
    → decode_loop (bs ++ more) m v o ≡ ok out
unfolding decode_loop
decode_loop-append [] more m v o out h = absurd (cc)
decode_loop-append (b ∷ bs) more m v o out h =
    ground (arith, decode_loop-append bs more (m * 128) (v + bit_and b 0x7f * m) (o + 1) out)

decode_loop_offset : (bs : Bytes) (m v o a b : ℕ) → decode_loop bs m v o ≡ ok (a, b) → o < b
unfolding decode_loop
decode_loop_offset [] m v o x y h = absurd (cc)
decode_loop_offset (b ∷ bs) m v o x y h =
    ground (arith, decode_loop_offset bs (m * 128) (v + bit_and b 0x7f * m) (o + 1) x y)

-- What it takes for a packet to be complete.
packet_end_parts :
    (buffer : Bytes) (n : ℕ)
    → packet_end buffer ≡ some n
    → (rem_len : ℕ) × (offset : ℕ) × (decode_remaining_length buffer 1 ≡ ok (rem_len, offset))
      × (n ≡ offset + rem_len)
      × (2 ≤ length buffer)
      × (n ≤ length buffer)
unfolding packet_end
packet_end_parts buffer n h = elim (Bool-cases (ltb (length buffer) 2)) [
  | inl p ↦ absurd (cc (rw p at h))
  | inr p ↦ parts (decode_remaining_length buffer 1) refl p (rw p at h)
]
  where
    parts :
        (r : Result (ℕ × ℕ))
        → decode_remaining_length buffer 1 ≡ r
        → ltb (length buffer) 2 ≡ false
        → elim r [
          | err e ↦ none
          | ok (rem_len, offset) ↦
              if ltb (length buffer) (offset + rem_len) then none else some (offset + rem_len)
        ]
          ≡ some n
        → (rem_len : ℕ) × (offset : ℕ) × (decode_remaining_length buffer 1 ≡ ok (rem_len, offset))
          × (n ≡ offset + rem_len)
          × (2 ≤ length buffer)
          × (n ≤ length buffer)
    parts (err e) eq p h = absurd (cc)
    parts (ok (rem_len, offset)) eq p h =
        (rem_len, offset, eq, ground arith, ground arith, ground arith)

pub packet_end_bounds :
    (buffer : Bytes) (n : ℕ) → packet_end buffer ≡ some n → (2 ≤ n) × (n ≤ length buffer)
unfolding decode_remaining_length
packet_end_bounds buffer n h =
    let (rem_len, offset, eq, e, l, k) = packet_end_parts buffer n h in
    (omega (arith, decode_loop_offset (drop 1 buffer) 1 0 1 rem_len offset eq), k)

pub packet_end-append :
    (buffer more : Bytes) (n : ℕ)
    → packet_end buffer ≡ some n
    → packet_end (buffer ++ more) ≡ some n
unfolding packet_end decode_remaining_length
packet_end-append buffer more n h =
    let (rem_len, offset, eq, e, l, k) = packet_end_parts buffer n h in
    rw
      (
        drop-append_front 1 buffer more (omega arith),
        decode_loop-append (drop 1 buffer) more 1 0 1 (rem_len, offset) eq,
        length-append buffer more,
        le→ltb (length buffer + length more) 2 (omega arith),
        le→ltb (length buffer + length more) (offset + rem_len) (omega arith),
      )
      (ap some (omega arith))
