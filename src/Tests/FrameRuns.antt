-- ===== src/Tests/FrameRuns.antt =====
-- Frames, control frames and truncation.
use qdap_protocol.Base.{◌≡◌, ◌≢◌, refl, [], ◌∷◌, ◌++◌, ok, arith}
use qdap_protocol.Bytes.{
  Bytes, be_bytes, le_bytes, be_number, be_number_from, pack_be, unpack_be, unpack_be_at,
}
use qdap_protocol.Frame.{
  SubframeType, FrameType, QFrame, subframe, serialize, deserialize, serialize_subframe,
  serialize_subframes, float_bytes, pack_header,
}
use qdap_protocol.Frame.Control.{parse_control_frame}
use qdap_protocol.Frame.Layout.{IsValidFrame, wire_frame}
use qdap_protocol.Frame.RoundTrip.{deserialize-serialize}
use qdap_protocol.Frame.Integrity.{deserialize_truncated}
use qdap_protocol.Tests.Hash.{toy_hash, length-toy_hash}

abbrev pub one_frame : QFrame
one_frame = record {
  version = 1;
  frame_type = FrameType.ghost;
  session_id = 0x1122334455667788;
  flags = 0;
  subframes = subframe (1 ∷ 2 ∷ 3 ∷ []) SubframeType.data_kind 0x4059000000000000 42 ∷ [];
  amplitude_vector = 0x3f800000 ∷ [];
}

abbrev pub one_frame_front : Bytes
one_frame_front =
    1 ∷ 3 ∷ 0 ∷ 1 ∷ 0 ∷ 0 ∷ 0x11 ∷ 0x22 ∷ 0x33 ∷ 0x44 ∷ 0x55 ∷ 0x66 ∷ 0x77 ∷ 0x88 ∷ 0 ∷ 0 ∷ 0x80
    ∷ 0x3f ∷ 0 ∷ 0 ∷ 0 ∷ 3 ∷ 1 ∷ 0 ∷ 0 ∷ 0 ∷ 42 ∷ 1 ∷ 2 ∷ 3 ∷ []

abbrev one_frame_bytes : Bytes
unfolding toy_hash
one_frame_bytes = one_frame_front ++ toy_hash one_frame_front

pub one_frame-IsValidFrame : IsValidFrame one_frame
one_frame-IsValidFrame = record {
  version = omega arith;
  flags = omega arith;
  count = omega arith;
  session = omega arith;
  weighted = refl;
  floats = omega arith;
  items = (record { sized = refl; short = omega arith; seq = omega arith }, tt);
}

one_frame_serializes :
    serialize toy_hash one_frame ≡ ok (one_frame_front ++ toy_hash one_frame_front)
unfolding serialize pack_header serialize_subframes serialize_subframe float_bytes pack_be be_bytes
    le_bytes
one_frame_serializes = refl

deserialize-serialize_example :
    (bytes : Bytes) × (serialize toy_hash one_frame ≡ ok bytes)
    × (deserialize toy_hash (bytes ++ (9 ∷ 9 ∷ [])) ≡ ok (wire_frame one_frame))
deserialize-serialize_example =
    deserialize-serialize toy_hash length-toy_hash one_frame (9 ∷ 9 ∷ []) one_frame-IsValidFrame

-- The cut is inside the payload.
deserialize_truncated_example :
    deserialize toy_hash (
      1 ∷ 3 ∷ 0 ∷ 1 ∷ 0 ∷ 0 ∷ 0x11 ∷ 0x22 ∷ 0x33 ∷ 0x44 ∷ 0x55 ∷ 0x66 ∷ 0x77 ∷ 0x88 ∷ 0 ∷ 0 ∷ 0x80
      ∷ 0x3f ∷ 0 ∷ 0 ∷ 0 ∷ 3 ∷ 1 ∷ 0 ∷ 0 ∷ 0 ∷ 42 ∷ 1 ∷ [])
    ≢ ok (wire_frame one_frame)
deserialize_truncated_example =
    deserialize_truncated toy_hash length-toy_hash one_frame (wire_frame one_frame)
      (one_frame_front ++ toy_hash one_frame_front)
      (1 ∷ 3 ∷ 0 ∷ 1 ∷ 0 ∷ 0 ∷ 0x11 ∷ 0x22 ∷ 0x33 ∷ 0x44 ∷ 0x55 ∷ 0x66 ∷ 0x77 ∷ 0x88 ∷ 0 ∷ 0 ∷ 0x80
        ∷ 0x3f ∷ 0 ∷ 0 ∷ 0 ∷ 3 ∷ 1 ∷ 0 ∷ 0 ∷ 0 ∷ 42 ∷ 1 ∷ [])
      (3 ∷ toy_hash one_frame_front) 2 one_frame-IsValidFrame one_frame_serializes refl

-- A control frame that is cut inside its payload is accepted with the part that came.
control_frame_cut : parse_control_frame (7 ∷ 0 ∷ 0 ∷ 0 ∷ 5 ∷ 1 ∷ []) ≡ ok (7, 1 ∷ [])
unfolding parse_control_frame unpack_be_at unpack_be be_number be_number_from
control_frame_cut = refl
