-- ===== src/Frame/RoundTrip.antt =====
-- serialize and deserialize of src/qdap/frame/qframe.py are inverse on valid frames.
use mathlib.Core.Path.{ap₂}
use qdap_protocol.Base.{
  ℕ, ◌+◌, ◌*◌, ◌≡◌, refl, sym, ap, ◌∙◌, [], ◌++◌, append_assoc, map, length, length-append, take,
  drop, slice, take-append, drop-append, drop-drop, slice, ok, arith, list_eq_iff,
}
use qdap_protocol.Bytes.{Bytes, be_bytes, unpack_be_at}
use qdap_protocol.Bytes.Laws.{pack_be_ok, slice-append}
use qdap_protocol.Frame.{
  QFrame, frame_code, subframe_count, float_bytes, from_buffer, pack_header, deserialize_subframes,
  serialize, deserialize,
}
use qdap_protocol.Frame.Laws.{wire_subframe}
use qdap_protocol.Frame.Layout.{
  IsValidFrame, wire_frame, frame_header_bytes, body_bytes, raw_bytes, frame_code-lt,
  frame_type_of-frame_code, length-float_bytes, from_buffer-float_bytes, serialize_subframes_ok,
  deserialize_subframes_ok, take-header, version_field, code_field, count_field, flags_field,
  session_field, drop_prefix,
}

module _ (sha3_256 : Bytes → Bytes) where
  -- What `deserialize` returns, from what each of its reads gives.
  deserialize_parts :
      (f : QFrame) (bytes raw : Bytes) (end : ℕ)
      → IsValidFrame f
      → take 6 bytes ≡ frame_header_bytes f
      → unpack_be_at 8 0 (slice 6 14 bytes) ≡ ok f.session_id
      → from_buffer (slice 14 (14 + subframe_count f * 4) bytes) ≡ ok f.amplitude_vector
      → deserialize_subframes (subframe_count f) bytes (14 + subframe_count f * 4)
        ≡ ok (map wire_subframe f.subframes, end)
      → take end bytes ≡ raw
      → slice end (end + 32) bytes ≡ sha3_256 raw
      → deserialize sha3_256 bytes ≡ ok (wire_frame f)
  unfolding deserialize
  deserialize_parts f bytes raw end v header session amps subs front hash = rw (
    header,
    version_field f.version (frame_code f.frame_type) (subframe_count f) f.flags [] v.version,
    code_field f.version (frame_code f.frame_type) (subframe_count f) f.flags [] (frame_code-lt _),
    count_field f.version (frame_code f.frame_type) (subframe_count f) f.flags [] v.count,
    flags_field f.version (frame_code f.frame_type) (subframe_count f) f.flags [] v.flags,
    session,
    amps,
    subs,
    frame_type_of-frame_code f.frame_type,
    front,
    hash,
    (list_eq_iff (sha3_256 raw) (sha3_256 raw)).1 refl,
  )

  -- A valid frame serializes without error, to the raw bytes and their hash.
  pub serialize_ok :
      (f : QFrame)
      → IsValidFrame f
      → serialize sha3_256 f ≡ ok (raw_bytes f ++ sha3_256 (raw_bytes f))
  unfolding serialize pack_header
  serialize_ok f v = rw (
    pack_be_ok 1 f.version v.version,
    pack_be_ok 1 (frame_code f.frame_type) (frame_code-lt _),
    pack_be_ok 2 (subframe_count f) v.count,
    pack_be_ok 2 f.flags v.flags,
    pack_be_ok 8 f.session_id v.session,
    serialize_subframes_ok f.subframes v.items,
  )

  -- The four parts of the raw bytes, each before what follows it.
  raw_bytes-append :
      (f : QFrame) (tail : Bytes)
      → raw_bytes f ++ tail
        ≡ frame_header_bytes f
          ++ (be_bytes 8 f.session_id
              ++ (float_bytes f.amplitude_vector ++ (body_bytes f.subframes ++ tail)))
  raw_bytes-append f tail = simp append_assoc

  module _ (sha3_length : (b : Bytes) → length (sha3_256 b) ≡ 32) (f : QFrame) (v : IsValidFrame f)
      (rest : Bytes) where
    abbrev tail : Bytes
    tail = sha3_256 (raw_bytes f) ++ rest

    abbrev floats : Bytes
    floats = float_bytes f.amplitude_vector

    abbrev after_session : Bytes
    after_session = floats ++ (body_bytes f.subframes ++ tail)

    abbrev whole : Bytes
    whole = frame_header_bytes f ++ (be_bytes 8 f.session_id ++ after_session)

    abbrev start : ℕ
    start = 14 + subframe_count f * 4

    length-floats : length floats ≡ subframe_count f * 4
    length-floats = length-float_bytes f.amplitude_vector ∙ ap (λ (n : ℕ). n * 4) v.weighted

    drop_session : drop 14 whole ≡ after_session
    drop_session =
        drop_prefix f.version (frame_code f.frame_type) (subframe_count f) f.flags after_session
          f.session_id

    drop_floats : drop start whole ≡ body_bytes f.subframes ++ tail
    drop_floats =
        sym (drop-drop 14 (subframe_count f * 4) whole)
        ∙ ap (drop (subframe_count f * 4)) drop_session
        ∙ drop-append _ floats (body_bytes f.subframes ++ tail) length-floats

    float_slice : slice 14 start whole ≡ floats
    float_slice =
        ap₂ (λ (n : ℕ) (b : Bytes). take n b) (omega arith) drop_session
        ∙ take-append _ floats (body_bytes f.subframes ++ tail) length-floats

    abbrev end : ℕ
    end = start + length (body_bytes f.subframes)

    length-raw : length (raw_bytes f) ≡ end
    unfolding be_bytes
    length-raw = omega (arith, length-append {0} floats (body_bytes f.subframes), length-floats)

    hash_slice : slice end (end + 32) whole ≡ sha3_256 (raw_bytes f)
    hash_slice =
        ap (slice end (end + 32)) (sym (raw_bytes-append f tail))
        ∙ slice-append end 32 (raw_bytes f) (sha3_256 (raw_bytes f)) rest length-raw (sha3_length _)

    take_raw : take end whole ≡ raw_bytes f
    take_raw =
        ap (take end) (sym (raw_bytes-append f tail))
        ∙ take-append end (raw_bytes f) tail length-raw

    -- The two reads that place the hash.
    pub layout :
        (unpack_be_at 2 2 (take 6 (raw_bytes f ++ tail)) ≡ ok (subframe_count f))
        × (deserialize_subframes (subframe_count f) (raw_bytes f ++ tail) start
            ≡ ok (map wire_subframe f.subframes, length (raw_bytes f)))
    unfolding be_bytes
    layout = rw raw_bytes-append (
      count_field f.version (frame_code f.frame_type) (subframe_count f) f.flags [] v.count,
      deserialize_subframes_ok f.subframes whole tail start v.items drop_floats
          ∙ ap (λ (n : ℕ). ok (map wire_subframe f.subframes, n)) (sym length-raw),
    )

    pub deserialize-whole : deserialize sha3_256 (raw_bytes f ++ tail) ≡ ok (wire_frame f)
    deserialize-whole =
        ap (deserialize sha3_256) (raw_bytes-append f tail)
        ∙ deserialize_parts f whole (raw_bytes f) end v
            (take-header f.version (frame_code f.frame_type) (subframe_count f) f.flags
              (be_bytes 8 f.session_id ++ after_session))
            (session_field f.version (frame_code f.frame_type) (subframe_count f) f.flags
              after_session f.session_id v.session)
            (ap from_buffer float_slice ∙ from_buffer-float_bytes f.amplitude_vector v.floats)
            (deserialize_subframes_ok f.subframes whole tail start v.items drop_floats) take_raw
            hash_slice

  -- A valid frame serializes, and deserializing the bytes gives back every field that the wire
  -- carries, whatever bytes follow. What it does not carry (a subframe's deadline and session)
  -- takes its default. The hash is any function with 32 bytes of output.
  pub deserialize-serialize :
      (sha3_length : (b : Bytes) → length (sha3_256 b) ≡ 32) (f : QFrame) (rest : Bytes)
      → IsValidFrame f
      → (bytes : Bytes) × (serialize sha3_256 f ≡ ok bytes)
        × (deserialize sha3_256 (bytes ++ rest) ≡ ok (wire_frame f))
  deserialize-serialize sha3_length f rest v = (
    raw_bytes f ++ sha3_256 (raw_bytes f),
    serialize_ok f v,
    ap (deserialize sha3_256) (append_assoc (raw_bytes f) (sha3_256 (raw_bytes f)) rest)
        ∙ deserialize-whole sha3_length f v rest,
  )
