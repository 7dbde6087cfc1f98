-- ===== src/Frame/Control.antt =====
-- build_control_frame and parse_control_frame of src/qdap/frame/qframe.py (session tickets).
use qdap_protocol.Base.{
  ℕ, ◌+◌, ◌^◌, ◌<◌, ◌≡◌, refl, ap, ◌++◌, append_assoc, length, drop, slice, take-append, Result, ok,
  Error, guard, ◌>>=◌, ◌>>◌, ltb, not, le→ltb, arith, false,
}
use qdap_protocol.Bytes.{Bytes, be_bytes, unpack_be_at, unpack_be, pack_be}
use qdap_protocol.Bytes.Laws.{be_number-be_bytes, pack_be_ok}

abbrev pub ctrl_header_size : ℕ
ctrl_header_size = 5

unfoldable pub build_control_frame : ℕ → Bytes → Result Bytes
build_control_frame frame_type payload = do
  type ← pack_be 1 frame_type
  size ← pack_be 4 (length payload)
  ok ((type ++ size) ++ payload)

unfoldable pub parse_control_frame : Bytes → Result (ℕ × Bytes)
parse_control_frame bytes = do
  guard (not (ltb (length bytes) ctrl_header_size)) Error.value_error
  type ← unpack_be_at 1 0 bytes
  size ← unpack_be_at 4 1 bytes
  ok (type, slice ctrl_header_size (ctrl_header_size + size) bytes)

abbrev control_bytes : ℕ → Bytes → Bytes
control_bytes type payload = (be_bytes 1 type ++ be_bytes 4 (length payload)) ++ payload

module _ (type size : ℕ) (rest : Bytes) where
  abbrev message : Bytes
  message = (be_bytes 1 type ++ be_bytes 4 size) ++ rest

  long_enough : ltb (length message) 5 ≡ false
  unfolding be_bytes
  long_enough = le→ltb _ _ (omega arith)

  type_field : type < 256 ^ 1 → unpack_be_at 1 0 message ≡ ok type
  unfolding be_bytes unpack_be_at unpack_be
  type_field h = ap ok (be_number-be_bytes 1 type h)

  size_field : size < 256 ^ 4 → unpack_be_at 4 1 message ≡ ok size
  unfolding be_bytes unpack_be_at unpack_be
  size_field h = ap ok (be_number-be_bytes 4 size h)

  drop_header : drop 5 message ≡ rest
  unfolding be_bytes
  drop_header = refl

-- A control frame of a payload below 4 GiB is built without error, and parses back to its type
-- and payload, whatever bytes follow.
pub parse_control_frame-build_control_frame :
    (frame_type : ℕ) (payload rest : Bytes)
    → frame_type < 2 ^ 8
    → length payload < 2 ^ 32
    → (bytes : Bytes) × (build_control_frame frame_type payload ≡ ok bytes)
      × (parse_control_frame (bytes ++ rest) ≡ ok (frame_type, payload))
unfolding build_control_frame parse_control_frame
parse_control_frame-build_control_frame type payload rest ht hp = (
  control_bytes type payload,
  rw (pack_be_ok 1 type ht, pack_be_ok 4 (length payload) hp),
  rw
      (
        append_assoc (be_bytes 1 type ++ be_bytes 4 (length payload)) payload rest,
        long_enough type (length payload) (payload ++ rest),
        type_field type (length payload) (payload ++ rest) ht,
        size_field type (length payload) (payload ++ rest) hp,
        drop_header type (length payload) (payload ++ rest),
      )
      (ap (λ (p : Bytes). ok (type, p)) (take-append _ payload rest (omega arith))),
)
