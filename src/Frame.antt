-- ===== src/Frame.antt =====
-- src/qdap/frame/qframe.py: subframes, frames, their wire format, and control frames.
-- A float is its IEEE 754 bit pattern: `deadline_ms` 64 bits, an amplitude 32 bits. The host is
-- little-endian, which fixes what `tobytes` and `frombuffer` do. SHA3-256 and the amplitudes that
-- numpy computes are parameters.
pub mod Laws
pub mod Layout
pub mod RoundTrip
pub mod Integrity
pub mod Control
use qdap_protocol.Base.{
  ℕ, zero, suc, ◌+◌, ◌*◌, ◌≡◌, List, [], ◌∷◌, ◌++◌, length, take, drop, slice, replicate, Option,
  none, some, Result, ok, err, Error, guard, ◌>>=◌, ◌>>◌, list_eq, ◌==◌, if◌then◌else◌,
}
use qdap_protocol.Bytes.{
  Bytes, be_bytes, le_bytes, le_number, pack_be, unpack_be_at, be_number, unpack_be, be_number_from,
}

pub data SubframeType : Type 0 where
  data_kind ctrl ghost probe sync : SubframeType

abbrev pub subframe_code : SubframeType → ℕ
subframe_code SubframeType.data_kind = 1
subframe_code SubframeType.ctrl = 2
subframe_code SubframeType.ghost = 3
subframe_code SubframeType.probe = 4
subframe_code SubframeType.sync = 5

-- SubframeType(n)
abbrev pub subframe_type : ℕ → Result SubframeType
subframe_type n =
    if n == 1
    then ok SubframeType.data_kind
    else if n == 2
    then ok SubframeType.ctrl
    else if n == 3
    then ok SubframeType.ghost
    else if n == 4
    then ok SubframeType.probe
    else if n == 5
    then ok SubframeType.sync
    else err Error.value_error

pub data FrameType : Type 0 where
  data_kind ctrl ghost probe sync : FrameType

abbrev pub frame_code : FrameType → ℕ
frame_code FrameType.data_kind = 1
frame_code FrameType.ctrl = 2
frame_code FrameType.ghost = 3
frame_code FrameType.probe = 4
frame_code FrameType.sync = 5

-- FrameType(n)
abbrev pub frame_type_of : ℕ → Result FrameType
frame_type_of n =
    if n == 1
    then ok FrameType.data_kind
    else if n == 2
    then ok FrameType.ctrl
    else if n == 3
    then ok FrameType.ghost
    else if n == 4
    then ok FrameType.probe
    else if n == 5
    then ok FrameType.sync
    else err Error.value_error

abbrev pub qdap_version : ℕ
qdap_version = 1

abbrev pub header_size : ℕ
header_size = 6

abbrev pub session_id_size : ℕ
session_id_size = 8

abbrev pub integrity_hash_size : ℕ
integrity_hash_size = 32

abbrev pub subframe_header_size : ℕ
subframe_header_size = 9

-- The bit pattern of 1000.0.
abbrev pub default_deadline : ℕ
default_deadline = 0x408f400000000000

pub record Subframe : Type 0 where
  pub payload : Bytes
  pub type : SubframeType
  pub deadline_ms : ℕ
  pub seq_num : ℕ
  pub size_bytes : ℕ
  pub session_id : ℕ

-- The constructor with its `__post_init__`; `session_id` keeps its default.
abbrev pub subframe : Bytes → SubframeType → ℕ → ℕ → Subframe
subframe payload type deadline_ms seq_num = record {
  payload = payload;
  type = type;
  deadline_ms = deadline_ms;
  seq_num = seq_num;
  size_bytes = length payload;
  session_id = 0;
}

unfoldable pub serialize_subframe : Subframe → Result Bytes
serialize_subframe sf = do
  size ← pack_be 4 sf.size_bytes
  type ← pack_be 1 (subframe_code sf.type)
  seq ← pack_be 4 sf.seq_num
  ok ((size ++ (type ++ seq)) ++ sf.payload)

-- The subframe and the number of bytes consumed. A payload that the data cuts short is accepted
-- here, as the slice does.
unfoldable pub deserialize_subframe : Bytes → Result (Subframe × ℕ)
deserialize_subframe bytes = do
  let header = take subframe_header_size bytes
  size ← unpack_be_at 4 0 header
  code ← unpack_be_at 1 4 header
  seq ← unpack_be_at 4 5 header
  let payload = slice subframe_header_size (subframe_header_size + size) bytes
  type ← subframe_type code
  ok (subframe payload type default_deadline seq, subframe_header_size + size)

pub record QFrame : Type 0 where
  pub version : ℕ
  pub frame_type : FrameType
  pub session_id : ℕ
  pub flags : ℕ
  pub subframes : List Subframe
  pub amplitude_vector : List ℕ

-- QFrame.create; `uniform n` is the float32 1/√n.
unfoldable pub create : (ℕ → ℕ) → List Subframe → ℕ → FrameType → Option (List ℕ) → QFrame
create uniform subframes session_id frame_type none = record {
  version = qdap_version;
  frame_type = frame_type;
  session_id = session_id;
  flags = 0;
  subframes = subframes;
  amplitude_vector = replicate (length subframes) (uniform (length subframes));
}
create uniform subframes session_id frame_type (some amplitudes) = record {
  version = qdap_version;
  frame_type = frame_type;
  session_id = session_id;
  flags = 0;
  subframes = subframes;
  amplitude_vector = amplitudes;
}

-- QFrame.create_with_encoder; `encode` is what AmplitudeEncoder.encode computes, as float32.
unfoldable pub create_with_encoder :
    (List Subframe → List ℕ) → List Subframe → ℕ → FrameType → QFrame
create_with_encoder encode subframes session_id frame_type = record {
  version = qdap_version;
  frame_type = frame_type;
  session_id = session_id;
  flags = 0;
  subframes = subframes;
  amplitude_vector = encode subframes;
}

abbrev pub subframe_count : QFrame → ℕ
subframe_count f = length f.subframes

-- amplitude_vector.tobytes() and np.frombuffer(…, dtype=np.float32)
unfoldable pub float_bytes : List ℕ → Bytes
float_bytes [] = []
float_bytes (a ∷ as') = le_bytes 4 a ++ float_bytes as'

unfoldable pub from_buffer : Bytes → Result (List ℕ)
from_buffer [] = ok []
from_buffer (a ∷ b ∷ c ∷ d ∷ bs) = do
  rest ← from_buffer bs
  ok (le_number (a ∷ b ∷ c ∷ d ∷ []) ∷ rest)
from_buffer bs = err Error.value_error

unfoldable pub pack_header : QFrame → Result Bytes
pack_header f = do
  version ← pack_be 1 f.version
  type ← pack_be 1 (frame_code f.frame_type)
  count ← pack_be 2 (subframe_count f)
  flags ← pack_be 2 f.flags
  ok (version ++ (type ++ (count ++ flags)))

unfoldable pub serialize_subframes : List Subframe → Result Bytes
serialize_subframes [] = ok []
serialize_subframes (sf ∷ sfs) = do
  first ← serialize_subframe sf
  rest ← serialize_subframes sfs
  ok (first ++ rest)

-- The loop over `range(subframe_count)`: the subframes and the final offset.
unfoldable pub deserialize_subframes : ℕ → Bytes → ℕ → Result (List Subframe × ℕ)
deserialize_subframes zero bytes offset = ok ([], offset)
deserialize_subframes (suc n) bytes offset = do
  (sf, consumed) ← deserialize_subframe (drop offset bytes)
  (sfs, end) ← deserialize_subframes n bytes (offset + consumed)
  ok (sf ∷ sfs, end)

module _ (sha3_256 : Bytes → Bytes) where
  -- The bytes fed to the hash object, in order.
  unfoldable pub compute_integrity_hash : QFrame → Result Bytes
  compute_integrity_hash f = do
    header ← pack_header f
    session ← pack_be 8 f.session_id
    body ← serialize_subframes f.subframes
    ok (sha3_256 (header ++ (session ++ (float_bytes f.amplitude_vector ++ body))))

  unfoldable pub serialize : QFrame → Result Bytes
  serialize f = do
    header ← pack_header f
    session ← pack_be 8 f.session_id
    body ← serialize_subframes f.subframes
    let raw = header ++ (session ++ (float_bytes f.amplitude_vector ++ body))
    ok (raw ++ sha3_256 raw)

  unfoldable pub deserialize : Bytes → Result QFrame
  deserialize bytes = do
    let header = take header_size bytes
    version ← unpack_be_at 1 0 header
    code ← unpack_be_at 1 1 header
    count ← unpack_be_at 2 2 header
    flags ← unpack_be_at 2 4 header
    session_id ← unpack_be_at 8 0 (slice header_size (header_size + session_id_size) bytes)
    let start = header_size + session_id_size
    amplitudes ← from_buffer (slice start (start + count * 4) bytes)
    (subframes, end) ← deserialize_subframes count bytes (start + count * 4)
    let received = slice end (end + integrity_hash_size) bytes
    type ← frame_type_of code
    guard (list_eq received (sha3_256 (take end bytes))) Error.value_error
    ok (record {
      version = version;
      frame_type = type;
      session_id = session_id;
      flags = flags;
      subframes = subframes;
      amplitude_vector = amplitudes;
    })
