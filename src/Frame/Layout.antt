-- ===== src/Frame/Layout.antt =====
-- The parts of the bytes that serialize of src/qdap/frame/qframe.py writes, and how deserialize
-- reads each of them back.
use qdap_protocol.Base.{
  ℕ, ◌+◌, ◌*◌, ◌^◌, ◌<◌, ◌≡◌, refl, sym, ap, ◌∙◌, List, [], ◌∷◌, ◌++◌, append_assoc, map, length,
  length-append, take, drop, slice, drop-append, drop-drop, slice, ok, arith,
}
use qdap_protocol.Bytes.{Bytes, All, be_bytes, le_bytes, unpack_be_at, unpack_be}
use qdap_protocol.Bytes.Laws.{be_number-be_bytes, le_number-le_bytes}
use qdap_protocol.Frame.{
  Subframe, FrameType, QFrame, frame_code, frame_type_of, subframe_count, float_bytes, from_buffer,
  serialize_subframes, deserialize_subframes,
}
use qdap_protocol.Frame.Laws.{
  IsValidSubframe, wire_subframe, subframe_bytes, serialize_subframe_ok, deserialize_subframe_ok,
  length-subframe_bytes,
}

-- A frame within the ranges of the wire format, with one amplitude for each subframe.
pub record IsValidFrame (f : QFrame) : Type 0 where
  pub version : f.version < 2 ^ 8
  pub flags : f.flags < 2 ^ 16
  pub count : subframe_count f < 2 ^ 16
  pub session : f.session_id < 2 ^ 64
  pub weighted : length f.amplitude_vector ≡ subframe_count f
  pub floats : All (λ a. a < 2 ^ 32) f.amplitude_vector
  pub items : All IsValidSubframe f.subframes

-- What the wire carries of a frame.
abbrev pub wire_frame : QFrame → QFrame
wire_frame f = record f { subframes = map wire_subframe f.subframes }

abbrev pub frame_header_bytes : QFrame → Bytes
frame_header_bytes f =
    be_bytes 1 f.version
    ++ (be_bytes 1 (frame_code f.frame_type)
        ++ (be_bytes 2 (subframe_count f) ++ be_bytes 2 f.flags))

abbrev pub body_bytes : List Subframe → Bytes
body_bytes [] = []
body_bytes (sf ∷ sfs) = subframe_bytes sf ++ body_bytes sfs

abbrev pub raw_bytes : QFrame → Bytes
raw_bytes f =
    frame_header_bytes f
    ++ (be_bytes 8 f.session_id ++ (float_bytes f.amplitude_vector ++ body_bytes f.subframes))

pub frame_code-lt : (t : FrameType) → frame_code t < 256 ^ 1
frame_code-lt FrameType.data_kind = omega arith
frame_code-lt FrameType.ctrl = omega arith
frame_code-lt FrameType.ghost = omega arith
frame_code-lt FrameType.probe = omega arith
frame_code-lt FrameType.sync = omega arith

pub frame_type_of-frame_code : (t : FrameType) → frame_type_of (frame_code t) ≡ ok t
frame_type_of-frame_code FrameType.data_kind = refl
frame_type_of-frame_code FrameType.ctrl = refl
frame_type_of-frame_code FrameType.ghost = refl
frame_type_of-frame_code FrameType.probe = refl
frame_type_of-frame_code FrameType.sync = refl

pub length-float_bytes : (as' : List ℕ) → length (float_bytes as') ≡ length as' * 4
unfolding float_bytes le_bytes
length-float_bytes [] = refl
length-float_bytes (a ∷ as') = omega (arith, length-float_bytes as')

pub from_buffer-float_bytes :
    (as' : List ℕ) → All (λ a. a < 2 ^ 32) as' → from_buffer (float_bytes as') ≡ ok as'
unfolding float_bytes from_buffer le_bytes
from_buffer-float_bytes [] h = refl
from_buffer-float_bytes (a ∷ as') h =
    rw (from_buffer-float_bytes as' h.1) (ap (λ (n : ℕ). ok (n ∷ as')) (le_number-le_bytes 4 a h.0))

pub serialize_subframes_ok :
    (sfs : List Subframe) → All IsValidSubframe sfs → serialize_subframes sfs ≡ ok (body_bytes sfs)
unfolding serialize_subframes
serialize_subframes_ok [] h = refl
serialize_subframes_ok (sf ∷ sfs) h =
    rw (serialize_subframe_ok sf h.0, serialize_subframes_ok sfs h.1)

pub deserialize_subframes_ok :
    (sfs : List Subframe) (bytes rest : Bytes) (offset : ℕ)
    → All IsValidSubframe sfs
    → drop offset bytes ≡ body_bytes sfs ++ rest
    → deserialize_subframes (length sfs) bytes offset
      ≡ ok (map wire_subframe sfs, offset + length (body_bytes sfs))
unfolding deserialize_subframes
deserialize_subframes_ok [] bytes rest offset h e = ap (λ (n : ℕ). ok ([], n)) (omega arith)
deserialize_subframes_ok (sf ∷ sfs) bytes rest offset h e =
    let tail : Bytes = body_bytes sfs ++ rest in
    let e' : drop offset bytes ≡ subframe_bytes sf ++ tail =
      e ∙ append_assoc (subframe_bytes sf) (body_bytes sfs) rest in
    let n : ℕ = 9 + length sf.payload in
    let e'' : drop (offset + n) bytes ≡ tail =
      sym (drop-drop offset n bytes)
      ∙ ap (drop n) e'
      ∙ drop-append n (subframe_bytes sf) tail (length-subframe_bytes sf) in
    rw
      (
        e',
        deserialize_subframe_ok sf tail h.0,
        deserialize_subframes_ok sfs bytes rest (offset + n) h.1 e'',
      )
      (ap (λ (k : ℕ). ok (wire_subframe sf ∷ map wire_subframe sfs, k))
        (omega (
          arith,
          length-append {0} (subframe_bytes sf) (body_bytes sfs),
          length-subframe_bytes sf,
        )))

-- The header, the session id and the amplitudes, read back one by one.
module _ (version code count flags : ℕ) (rest : Bytes) where
  abbrev header : Bytes
  header = be_bytes 1 version ++ (be_bytes 1 code ++ (be_bytes 2 count ++ be_bytes 2 flags))

  pub take-header : take 6 (header ++ rest) ≡ header
  unfolding be_bytes
  take-header = refl

  pub version_field : version < 256 ^ 1 → unpack_be_at 1 0 header ≡ ok version
  unfolding be_bytes unpack_be_at unpack_be
  version_field h = ap ok (be_number-be_bytes 1 version h)

  pub code_field : code < 256 ^ 1 → unpack_be_at 1 1 header ≡ ok code
  unfolding be_bytes unpack_be_at unpack_be
  code_field h = ap ok (be_number-be_bytes 1 code h)

  pub count_field : count < 256 ^ 2 → unpack_be_at 2 2 header ≡ ok count
  unfolding be_bytes unpack_be_at unpack_be
  count_field h = ap ok (be_number-be_bytes 2 count h)

  pub flags_field : flags < 256 ^ 2 → unpack_be_at 2 4 header ≡ ok flags
  unfolding be_bytes unpack_be_at unpack_be
  flags_field h = ap ok (be_number-be_bytes 2 flags h)

  pub session_field :
      (session : ℕ)
      → session < 256 ^ 8
      → unpack_be_at 8 0 (slice 6 14 (header ++ (be_bytes 8 session ++ rest))) ≡ ok session
  unfolding be_bytes unpack_be_at unpack_be
  session_field session h = ap ok (be_number-be_bytes 8 session h)

  pub drop_prefix : (session : ℕ) → drop 14 (header ++ (be_bytes 8 session ++ rest)) ≡ rest
  unfolding be_bytes
  drop_prefix session = refl
