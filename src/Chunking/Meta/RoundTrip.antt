-- ===== src/Chunking/Meta/RoundTrip.antt =====
-- The metadata headers of src/qdap/chunking/chunk_qframe.py are read back as they were written.
use qdap_protocol.Base.{
  ℕ, ◌^◌, ◌<◌, ◌≡◌, refl, ap, Bool, true, false, [], ◌∷◌, ◌++◌, length, take, ok, arith,
}
use qdap_protocol.Bytes.{Bytes, be_bytes, unpack_be_at, unpack_be}
use qdap_protocol.Bytes.Laws.{be_number-be_bytes, pack_be_ok}
use qdap_protocol.Chunking.Meta.{
  ChunkMetadata, BatchMetadata, IsValidChunk, IsValidBatch, pack_8s, pack_flags, has_flag,
  flag_first, flag_last, chunk_to_bytes, chunk_from_bytes, batch_to_bytes, batch_from_bytes,
}

pub pack_flags-lt : (a b : Bool) → pack_flags a b < 256 ^ 4
unfolding pack_flags
pack_flags-lt true true = omega arith
pack_flags-lt true false = omega arith
pack_flags-lt false true = omega arith
pack_flags-lt false false = omega arith

pub has_flag-pack_flags :
    (a b : Bool)
    → (has_flag (pack_flags a b) flag_first ≡ a) × (has_flag (pack_flags a b) flag_last ≡ b)
unfolding pack_flags has_flag
has_flag-pack_flags true true = (refl, refl)
has_flag-pack_flags true false = (refl, refl)
has_flag-pack_flags false true = (refl, refl)
has_flag-pack_flags false false = (refl, refl)

-- The five numbers of a batch header, behind a stream id of 8 bytes.
module _ (a b c d e f g h : ℕ) (i t n k w : ℕ) (rest : Bytes) where
  abbrev id8 : Bytes
  id8 = a ∷ b ∷ c ∷ d ∷ e ∷ f ∷ g ∷ h ∷ []

  abbrev batch_header : Bytes
  batch_header =
      id8 ++ (be_bytes 4 i ++ (be_bytes 4 t ++ (be_bytes 4 n ++ (be_bytes 4 k ++ be_bytes 4 w))))

  batch_cut : take 28 (batch_header ++ rest) ≡ batch_header
  unfolding be_bytes
  batch_cut = refl

  batch_fields :
      i < 256 ^ 4
      → t < 256 ^ 4
      → n < 256 ^ 4
      → k < 256 ^ 4
      → w < 256 ^ 4
      → (unpack_be_at 4 8 batch_header ≡ ok i)
        × (unpack_be_at 4 12 batch_header ≡ ok t)
        × (unpack_be_at 4 16 batch_header ≡ ok n)
        × (unpack_be_at 4 20 batch_header ≡ ok k)
        × (unpack_be_at 4 24 batch_header ≡ ok w)
  unfolding be_bytes unpack_be_at unpack_be
  batch_fields hi ht hn hk hw = (
    ap ok (be_number-be_bytes 4 i hi),
    ap ok (be_number-be_bytes 4 t ht),
    ap ok (be_number-be_bytes 4 n hn),
    ap ok (be_number-be_bytes 4 k hk),
    ap ok (be_number-be_bytes 4 w hw),
  )

  abbrev chunk_header : Bytes
  chunk_header = id8 ++ (be_bytes 4 i ++ (be_bytes 4 t ++ be_bytes 4 w))

  chunk_cut : take 20 (chunk_header ++ rest) ≡ chunk_header
  unfolding be_bytes
  chunk_cut = refl

  chunk_fields :
      i < 256 ^ 4
      → t < 256 ^ 4
      → w < 256 ^ 4
      → (unpack_be_at 4 8 chunk_header ≡ ok i)
        × (unpack_be_at 4 12 chunk_header ≡ ok t)
        × (unpack_be_at 4 16 chunk_header ≡ ok w)
  unfolding be_bytes unpack_be_at unpack_be
  chunk_fields hi ht hw = (
    ap ok (be_number-be_bytes 4 i hi),
    ap ok (be_number-be_bytes 4 t ht),
    ap ok (be_number-be_bytes 4 w hw),
  )

length_eight :
    (s : Bytes) → length s ≡ 8 → (a b c d e f g h : ℕ) × (s ≡ a ∷ b ∷ c ∷ d ∷ e ∷ f ∷ g ∷ h ∷ [])
length_eight (a ∷ b ∷ c ∷ d ∷ e ∷ f ∷ g ∷ h ∷ []) p = (a, b, c, d, e, f, g, h, refl)
length_eight s p = absurd (omega arith)

module _ (s : Bytes) (i t n k : ℕ) (p q : Bool) (eight : length s ≡ 8) where
  abbrev batch : BatchMetadata
  batch = record {
    stream_id = s;
    batch_index = i;
    total_batches = t;
    chunks_in_batch = n;
    first_chunk_idx = k;
    is_first = p;
    is_last = q;
  }

  abbrev batch_bytes : Bytes
  batch_bytes =
      s
      ++ (be_bytes 4 i
          ++ (be_bytes 4 t ++ (be_bytes 4 n ++ (be_bytes 4 k ++ be_bytes 4 (pack_flags p q)))))

  pack_8s_eight : pack_8s s ≡ s
  pack_8s_eight = let (a, b, c, d, e, f, g, h, x) = length_eight s eight in rw x

  batch_to_bytes_ok : IsValidBatch batch → batch_to_bytes batch ≡ ok batch_bytes
  unfolding batch_to_bytes
  batch_to_bytes_ok v =
      rw
        (
          pack_be_ok 4 i v.index,
          pack_be_ok 4 t v.total,
          pack_be_ok 4 n v.count,
          pack_be_ok 4 k v.first,
          pack_be_ok 4 (pack_flags p q) (pack_flags-lt p q),
        )
        (ap
          (λ (x : Bytes). ok (
            x
            ++ (be_bytes 4 i
                ++ (be_bytes 4 t
                    ++ (be_bytes 4 n ++ (be_bytes 4 k ++ be_bytes 4 (pack_flags p q)))))))
          pack_8s_eight)

  batch_from_bytes_ok :
      (rest : Bytes) → IsValidBatch batch → batch_from_bytes (batch_bytes ++ rest) ≡ ok batch
  unfolding batch_from_bytes
  batch_from_bytes_ok rest v =
      let (a, b, c, d, e, f, g, h, x) = length_eight s eight in
      let (f1, f2, f3, f4, f5) =
        batch_fields a b c d e f g h i t n k (pack_flags p q) rest v.index v.total v.count v.first
          (pack_flags-lt p q) in
      rw x (
        rw (
          batch_cut a b c d e f g h i t n k (pack_flags p q) rest,
          f1,
          f2,
          f3,
          f4,
          f5,
          (has_flag-pack_flags p q).0,
          (has_flag-pack_flags p q).1,
        ))

  abbrev chunk : ChunkMetadata
  chunk = record { stream_id = s; chunk_index = i; total_chunks = t; is_first = p; is_last = q }

  abbrev chunk_bytes : Bytes
  chunk_bytes = s ++ (be_bytes 4 i ++ (be_bytes 4 t ++ be_bytes 4 (pack_flags p q)))

  chunk_to_bytes_ok : IsValidChunk chunk → chunk_to_bytes chunk ≡ ok chunk_bytes
  unfolding chunk_to_bytes
  chunk_to_bytes_ok v =
      rw
        (
          pack_be_ok 4 i v.index,
          pack_be_ok 4 t v.total,
          pack_be_ok 4 (pack_flags p q) (pack_flags-lt p q),
        )
        (ap
          (λ (x : Bytes). ok (x ++ (be_bytes 4 i ++ (be_bytes 4 t ++ be_bytes 4 (pack_flags p q)))))
          pack_8s_eight)

  chunk_from_bytes_ok :
      (rest : Bytes) → IsValidChunk chunk → chunk_from_bytes (chunk_bytes ++ rest) ≡ ok chunk
  unfolding chunk_from_bytes
  chunk_from_bytes_ok rest v =
      let (a, b, c, d, e, f, g, h, x) = length_eight s eight in
      let (f1, f2, f3) =
        chunk_fields a b c d e f g h i t 0 0 (pack_flags p q) rest v.index v.total
          (pack_flags-lt p q) in
      rw x (
        rw (
          chunk_cut a b c d e f g h i t 0 0 (pack_flags p q) rest,
          f1,
          f2,
          f3,
          (has_flag-pack_flags p q).0,
          (has_flag-pack_flags p q).1,
        ))

  length-batch_bytes : IsValidBatch batch → length batch_bytes ≡ 28
  unfolding be_bytes
  length-batch_bytes v = let (a, b, c, d, e, f, g, h, x) = length_eight s eight in rw x

  length-chunk_bytes : IsValidChunk chunk → length chunk_bytes ≡ 20
  unfolding be_bytes
  length-chunk_bytes v = let (a, b, c, d, e, f, g, h, x) = length_eight s eight in rw x

-- Valid batch metadata packs to 28 bytes, which are read back as the same metadata, whatever
-- follows.
pub batch_from_bytes-batch_to_bytes :
    (m : BatchMetadata) (rest : Bytes)
    → IsValidBatch m
    → (bytes : Bytes) × (batch_to_bytes m ≡ ok bytes)
      × (length bytes ≡ 28)
      × (batch_from_bytes (bytes ++ rest) ≡ ok m)
batch_from_bytes-batch_to_bytes m rest v =
    let s = m.stream_id in
    let i = m.batch_index in
    let t = m.total_batches in
    let n = m.chunks_in_batch in
    let k = m.first_chunk_idx in
    (
      batch_bytes s i t n k m.is_first m.is_last v.stream,
      batch_to_bytes_ok s i t n k m.is_first m.is_last v.stream v,
      length-batch_bytes s i t n k m.is_first m.is_last v.stream v,
      batch_from_bytes_ok s i t n k m.is_first m.is_last v.stream rest v,
    )

-- Valid chunk metadata packs to 20 bytes, which are read back as the same metadata, whatever
-- follows.
pub chunk_from_bytes-chunk_to_bytes :
    (m : ChunkMetadata) (rest : Bytes)
    → IsValidChunk m
    → (bytes : Bytes) × (chunk_to_bytes m ≡ ok bytes)
      × (length bytes ≡ 20)
      × (chunk_from_bytes (bytes ++ rest) ≡ ok m)
chunk_from_bytes-chunk_to_bytes m rest v =
    let s = m.stream_id in
    let i = m.chunk_index in
    let t = m.total_chunks in
    (
      chunk_bytes s i t 0 0 m.is_first m.is_last v.stream,
      chunk_to_bytes_ok s i t 0 0 m.is_first m.is_last v.stream v,
      length-chunk_bytes s i t 0 0 m.is_first m.is_last v.stream v,
      chunk_from_bytes_ok s i t 0 0 m.is_first m.is_last v.stream rest v,
    )
