-- ===== src/Parallel/RoundTrip.antt =====
-- A chunk frame of src/qdap/transport/parallel_sender.py is read back.
use qdap_protocol.Base.{
  ℕ, ◌+◌, ◌≤◌, ◌<◌, ◌≡◌, refl, append_assoc, ap, ◌∙◌, false, [], ◌∷◌, ◌++◌, length, slice,
  length-append, some, ok, ltb, le→ltb, list_eq_iff, arith,
}
use qdap_protocol.Bytes.{Bytes, le_bytes, unpack_le_at}
use qdap_protocol.Bytes.Laws.{pack_le_ok, unpack_le-le_bytes, slice-append}
use qdap_protocol.Parallel.{
  ChunkInfo, magic, version, frame_type, low_16, low_32, build_chunk_frame, check_payload,
  parse_chunk_frame,
}

-- What the wire keeps of a chunk.
abbrev pub wire_chunk : ChunkInfo → ChunkInfo
wire_chunk c = record c {
  stream_id = low_16 c.stream_id;
  chunk_idx = low_16 c.chunk_idx;
  total_chunks = low_16 c.total_chunks;
  seq = low_32 c.seq;
  priority = low_16 c.priority;
}

abbrev frame_of : (priority stream_id chunk_idx total_chunks seq size : ℕ) → Bytes → Bytes
frame_of p s i t q n tail =
    magic
    ++ (version
        ∷ frame_type
        ∷ (le_bytes 2 p
            ++ (le_bytes 2 s
                ++ (le_bytes 2 i ++ (le_bytes 2 t ++ (le_bytes 4 q ++ (le_bytes 4 n ++ tail)))))))

length-frame_of :
    (p s i t q n : ℕ) (tail : Bytes) → length (frame_of p s i t q n tail) ≡ 22 + length tail
unfolding le_bytes
length-frame_of p s i t q n tail = omega arith

module _ (sha3_256 : Bytes → Bytes) (length-hash : (bs : Bytes) → length (sha3_256 bs) ≡ 32) where
  parse_frame_of :
      (p s i t q n : ℕ) (tail : Bytes)
      → p < 65536
      → s < 65536
      → i < 65536
      → t < 65536
      → q < 4294967296
      → n < 4294967296
      → 32 ≤ length tail
      → parse_chunk_frame sha3_256 (frame_of p s i t q n tail)
        ≡ ok (
            check_payload sha3_256 (frame_of p s i t q n tail) n (λ payload. record {
              stream_id = s;
              chunk_idx = i;
              total_chunks = t;
              chunk_data = payload;
              seq = q;
              priority = p;
            }))
  unfolding parse_chunk_frame unpack_le_at le_bytes
  parse_frame_of p s i t q n tail hp hs hi ht hq hn long = rw (
    parse_chunk_frame,
    le→ltb (length (frame_of p s i t q n tail)) 54
        (omega (arith, length-frame_of p s i t q n tail, long)),
    unpack_le-le_bytes 2 p hp,
    unpack_le-le_bytes 2 s hs,
    unpack_le-le_bytes 2 i hi,
    unpack_le-le_bytes 2 t ht,
    unpack_le-le_bytes 4 q hq,
    unpack_le-le_bytes 4 n hn,
  )

  check_frame_of :
      (p s i t q : ℕ) (payload rest : Bytes) (chunk : Bytes → ChunkInfo)
      → check_payload sha3_256
          (frame_of p s i t q (length payload) (sha3_256 payload ++ (payload ++ rest)))
          (length payload)
          chunk
        ≡ some (chunk payload)
  unfolding check_payload le_bytes
  check_frame_of p s i t q payload rest chunk = rw (
    check_payload,
    enough,
    body,
    hash,
    (list_eq_iff (sha3_256 payload) (sha3_256 payload)).1 refl,
  )
    where
      head : Bytes → Bytes
      head tail = frame_of p s i t q (length payload) tail

      whole : Bytes
      whole = head (sha3_256 payload ++ (payload ++ rest))

      size : length whole ≡ 22 + (32 + (length payload + length rest))
      size = omega (
        arith,
        length-frame_of p s i t q (length payload) (sha3_256 payload ++ (payload ++ rest)),
        length-append (sha3_256 payload) (payload ++ rest),
        length-append payload rest,
        length-hash payload,
      )

      enough : ltb (length whole) (54 + length payload) ≡ false
      enough = le→ltb (length whole) (54 + length payload) (omega (arith, size))

      body : slice 54 (54 + length payload) whole ≡ payload
      body =
          slice-append 54 (length payload) (head (sha3_256 payload)) payload rest
            (omega (
              arith,
              length-frame_of p s i t q (length payload) (sha3_256 payload),
              length-hash payload,
            ))
            refl

      hash : slice 22 54 whole ≡ sha3_256 payload
      hash =
          slice-append 22 32 (head []) (sha3_256 payload) (payload ++ rest)
            (length-frame_of p s i t q (length payload) []) (length-hash payload)

  -- For a hash of 32 bytes and a payload below 4 GiB a chunk frame is built without error, and it is
  -- parsed, whatever bytes follow, to the payload and the header fields, each modulo its width.
  pub parse_chunk_frame-build_chunk_frame :
      (c : ChunkInfo) (rest : Bytes)
      → length c.chunk_data < 4294967296
      → (bytes : Bytes) × (build_chunk_frame sha3_256 c ≡ ok bytes)
        × (parse_chunk_frame sha3_256 (bytes ++ rest) ≡ ok (some (wire_chunk c)))
  unfolding build_chunk_frame le_bytes
  parse_chunk_frame-build_chunk_frame c rest h = (
    frame_of (low_16 c.priority) (low_16 c.stream_id) (low_16 c.chunk_idx) (low_16 c.total_chunks)
        (low_32 c.seq) (length c.chunk_data) (sha3_256 c.chunk_data ++ c.chunk_data),
    rw (pack_le_ok 4 (length c.chunk_data) h),
    ap (λ tail. parse_chunk_frame sha3_256 (frame_of p s i t q n tail))
          (append_assoc (sha3_256 c.chunk_data) c.chunk_data rest)
        ∙ parse_frame_of p s i t q n (sha3_256 c.chunk_data ++ (c.chunk_data ++ rest)) (omega arith)
            (omega arith) (omega arith) (omega arith) (omega arith) h
            (omega (
              arith,
              length-append (sha3_256 c.chunk_data) (c.chunk_data ++ rest),
              length-hash c.chunk_data,
            ))
        ∙ ap ok (check_frame_of p s i t q c.chunk_data rest _),
  )
    where
      p : ℕ
      p = low_16 c.priority

      s : ℕ
      s = low_16 c.stream_id

      i : ℕ
      i = low_16 c.chunk_idx

      t : ℕ
      t = low_16 c.total_chunks

      q : ℕ
      q = low_32 c.seq

      n : ℕ
      n = length c.chunk_data
