-- ===== src/Bridge/RoundTrip.antt =====
-- A frame of src/qdap/_rust_bridge.py is read back with a valid hash.
use qdap_protocol.Base.{
  ℕ, ◌+◌, ◌^◌, ◌<◌, ◌≡◌, refl, ap, ◌∙◌, true, [], ◌∷◌, ◌++◌, append_assoc, length, slice,
  length-append, ok, le→leb, lt→ltb, list_eq_iff, arith,
}
use qdap_protocol.Bytes.{
  Bytes, be_bytes, le_bytes, unpack_be_at, unpack_be, be_number, be_number_from, unpack_le_at,
}
use qdap_protocol.Bytes.Laws.{pack_le_ok, unpack_le-le_bytes, slice-append}
use qdap_protocol.Bridge.{FrameFields, magic_number, qframe_serialize, qframe_deserialize}

abbrev frame_of : (frame_type priority deadline sequence size : ℕ) → Bytes → Bytes
frame_of y p d q n tail =
    be_bytes 4 magic_number
    ++ (1 ∷ y ∷ (le_bytes 2 p ++ (le_bytes 8 d ++ (le_bytes 8 q ++ (le_bytes 4 n ++ tail)))))

length-frame_of :
    (y p d q n : ℕ) (tail : Bytes) → length (frame_of y p d q n tail) ≡ 28 + length tail
unfolding le_bytes be_bytes
length-frame_of y p d q n tail = omega arith

module _ (sha3_256 : Bytes → Bytes) (length-hash : (bs : Bytes) → length (sha3_256 bs) ≡ 32) where
  -- For a hash of 32 bytes, a one-byte type, a 16-bit priority, 64-bit deadline and sequence number
  -- and a payload below 4 GiB, a frame is serialized without error, and it is read back, whatever
  -- bytes follow, to the same fields with a valid hash.
  pub qframe_deserialize-qframe_serialize :
      (f : FrameFields) (rest : Bytes)
      → f.frame_type < 256
      → f.priority < 65536
      → f.deadline_ms < 256 ^ 8
      → f.sequence_number < 256 ^ 8
      → length f.payload < 4294967296
      → (bytes : Bytes) × (qframe_serialize sha3_256 f ≡ ok bytes)
        × (qframe_deserialize sha3_256 (bytes ++ rest) ≡ ok (f, true))
  unfolding qframe_serialize qframe_deserialize be_bytes le_bytes unpack_be_at unpack_be be_number
      be_number_from unpack_le_at
  qframe_deserialize-qframe_serialize f rest hy hp hd hq hn = (
    head (sha3_256 f.payload ++ f.payload),
    built,
    ap (λ tail. qframe_deserialize sha3_256 (head tail)) tail_eq ∙ read,
  )
    where
      head : Bytes → Bytes
      head tail =
          frame_of f.frame_type f.priority f.deadline_ms f.sequence_number (length f.payload) tail

      built : qframe_serialize sha3_256 f ≡ ok (head (sha3_256 f.payload ++ f.payload))
      built = rw (
        lt→ltb f.frame_type 256 hy,
        pack_le_ok 2 f.priority hp,
        pack_le_ok 8 f.deadline_ms hd,
        pack_le_ok 8 f.sequence_number hq,
        pack_le_ok 4 (length f.payload) hn,
      )

      tail_eq :
          (sha3_256 f.payload ++ f.payload) ++ rest ≡ sha3_256 f.payload ++ (f.payload ++ rest)
      tail_eq = append_assoc (sha3_256 f.payload) f.payload rest

      whole : Bytes
      whole = head (sha3_256 f.payload ++ (f.payload ++ rest))

      size : length whole ≡ 28 + (32 + (length f.payload + length rest))
      size = omega (
        arith,
        length-frame_of f.frame_type f.priority f.deadline_ms f.sequence_number (length f.payload)
            (sha3_256 f.payload ++ (f.payload ++ rest)),
        length-append (sha3_256 f.payload) (f.payload ++ rest),
        length-append f.payload rest,
        length-hash f.payload,
      )

      body : slice 60 (60 + length f.payload) whole ≡ f.payload
      body =
          slice-append 60 (length f.payload) (head (sha3_256 f.payload)) f.payload rest
            (omega (
              arith,
              length-frame_of f.frame_type f.priority f.deadline_ms f.sequence_number
                  (length f.payload) (sha3_256 f.payload),
              length-hash f.payload,
            ))
            refl

      hash : slice 28 60 whole ≡ sha3_256 f.payload
      hash =
          slice-append 28 32 (head []) (sha3_256 f.payload) (f.payload ++ rest)
            (length-frame_of f.frame_type f.priority f.deadline_ms f.sequence_number
              (length f.payload) [])
            (length-hash f.payload)

      read : qframe_deserialize sha3_256 whole ≡ ok (f, true)
      read = rw (
        le→leb 60 (length whole) (omega (arith, size)),
        unpack_le-le_bytes 2 f.priority hp,
        unpack_le-le_bytes 8 f.deadline_ms hd,
        unpack_le-le_bytes 8 f.sequence_number hq,
        unpack_le-le_bytes 4 (length f.payload) hn,
        le→leb (60 + length f.payload) (length whole) (omega (arith, size)),
        body,
        hash,
        (list_eq_iff (sha3_256 f.payload) (sha3_256 f.payload)).1 refl,
      )
