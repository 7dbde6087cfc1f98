-- ===== src/Bridge.antt =====
-- src/qdap/_rust_bridge.py: the frame of a fixed header of 60 bytes, in its Python form. SHA3-256
-- is a parameter, and the deadline is the bit pattern of a double.
pub mod RoundTrip
pub mod Peek
use qdap_protocol.Base.{
  ℕ, ◌+◌, Bool, not, List, [], ◌∷◌, ◌++◌, length, take, slice, Option, none, some, Result, ok, err,
  Error, ◌>>=◌, ◌>>◌, guard, or_raise, get_elem?, leb, ltb, ◌==◌, if◌then◌else◌, list_eq,
}
use qdap_protocol.Bytes.{Bytes, be_bytes, pack_le, unpack_be_at, unpack_le_at}

-- 0x51444150, "QDAP"
abbrev pub magic_number : ℕ
magic_number = 0x51444150

abbrev pub bridge_header_size : ℕ
bridge_header_size = 60

pub record FrameFields : Type 0 where
  pub payload : Bytes
  pub priority : ℕ
  pub deadline_ms : ℕ
  pub sequence_number : ℕ
  pub frame_type : ℕ

-- The checks of the length and of the magic number.
abbrev pub check_header : Bytes → Result (Unit {0})
check_header bytes =
    guard (leb bridge_header_size (length bytes)) Error.value_error
    >> (unpack_be_at 4 0 bytes >>= λ magic. guard (magic == magic_number) Error.value_error)

-- (payload_length, priority, deadline_ms, frame_type), from the header alone.
unfoldable pub qframe_peek_header : Bytes → Result (ℕ × ℕ × ℕ × ℕ)
qframe_peek_header bytes = do
  check_header bytes
  frame_type ← or_raise Error.index_error (get_elem? bytes 5)
  priority ← unpack_le_at 2 6 bytes
  deadline_ms ← unpack_le_at 8 8 bytes
  payload_length ← unpack_le_at 4 24 bytes
  ok (payload_length, priority, deadline_ms, frame_type)

module _ (sha3_256 : Bytes → Bytes) where
  -- A bytearray takes only bytes: another frame type raises ValueError.
  unfoldable pub qframe_serialize : FrameFields → Result Bytes
  qframe_serialize f = do
    guard (ltb f.frame_type 256) Error.value_error
    priority ← pack_le 2 f.priority
    deadline ← pack_le 8 f.deadline_ms
    sequence ← pack_le 8 f.sequence_number
    payload_len ← pack_le 4 (length f.payload)
    ok (
        be_bytes 4 magic_number
        ++ (1
            ∷ f.frame_type
            ∷ (priority
                ++ (deadline ++ (sequence ++ (payload_len ++ (sha3_256 f.payload ++ f.payload)))))))

  -- The fields, and whether the hash is that of the payload.
  unfoldable pub qframe_deserialize : Bytes → Result (FrameFields × Bool)
  qframe_deserialize bytes = do
    check_header bytes
    frame_type ← or_raise Error.index_error (get_elem? bytes 5)
    priority ← unpack_le_at 2 6 bytes
    deadline_ms ← unpack_le_at 8 8 bytes
    seq_num ← unpack_le_at 8 16 bytes
    payload_length ← unpack_le_at 4 24 bytes
    guard (leb (bridge_header_size + payload_length) (length bytes)) Error.value_error
    let payload = slice bridge_header_size (bridge_header_size + payload_length) bytes
    ok (
      record {
        payload = payload;
        priority = priority;
        deadline_ms = deadline_ms;
        sequence_number = seq_num;
        frame_type = frame_type;
      },
      list_eq (sha3_256 payload) (slice 28 60 bytes),
    )
