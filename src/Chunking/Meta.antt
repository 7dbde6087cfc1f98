-- ===== src/Chunking/Meta.antt =====
-- ChunkMetadata and BatchMetadata of src/qdap/chunking/chunk_qframe.py.
pub mod RoundTrip
use Prim.Native.Nat.{bit_and, bit_or}
use qdap_protocol.Base.{
  ℕ, ◌+◌, ◌-◌, ◌^◌, ◌<◌, ◌≡◌, refl, ap, ◌∙◌, Bool, true, false, not, List, [], ◌∷◌, ◌++◌,
  append-nil, length, take, drop, slice, replicate, take_of_length-le, Result, ok, err, ◌>>=◌, ◌==◌,
  if◌then◌else◌, arith,
}
use qdap_protocol.Bytes.{Bytes, be_bytes, unpack_be_at, unpack_be, pack_be}
use qdap_protocol.Bytes.Laws.{be_number-be_bytes, pack_be_ok}

-- struct's code `8s`: cut, or padded with zero bytes, to 8 bytes.
abbrev pub pack_8s : Bytes → Bytes
pack_8s b = take 8 b ++ replicate (8 - length b) 0

abbrev pub flag_first : ℕ
flag_first = 0x01

abbrev pub flag_last : ℕ
flag_last = 0x02

abbrev pub chunk_header_size : ℕ
chunk_header_size = 20

abbrev pub batch_header_size : ℕ
batch_header_size = 28

-- flags = 0; if is_first: flags |= FIRST; if is_last: flags |= LAST
unfoldable pub pack_flags : Bool → Bool → ℕ
pack_flags is_first is_last =
    let flags = if is_first then bit_or 0 flag_first else 0 in
    if is_last then bit_or flags flag_last else flags

-- bool(flags & flag)
unfoldable pub has_flag : ℕ → ℕ → Bool
has_flag flags flag = not (bit_and flags flag == 0)

pub record ChunkMetadata : Type 0 where
  pub stream_id : Bytes
  pub chunk_index : ℕ
  pub total_chunks : ℕ
  pub is_first : Bool
  pub is_last : Bool

pub record BatchMetadata : Type 0 where
  pub stream_id : Bytes
  pub batch_index : ℕ
  pub total_batches : ℕ
  pub chunks_in_batch : ℕ
  pub first_chunk_idx : ℕ
  pub is_first : Bool
  pub is_last : Bool

unfoldable pub chunk_to_bytes : ChunkMetadata → Result Bytes
chunk_to_bytes m = do
  index ← pack_be 4 m.chunk_index
  total ← pack_be 4 m.total_chunks
  flags ← pack_be 4 (pack_flags m.is_first m.is_last)
  ok (pack_8s m.stream_id ++ (index ++ (total ++ flags)))

unfoldable pub chunk_from_bytes : Bytes → Result ChunkMetadata
chunk_from_bytes bytes = do
  let header = take chunk_header_size bytes
  index ← unpack_be_at 4 8 header
  total ← unpack_be_at 4 12 header
  flags ← unpack_be_at 4 16 header
  ok (record {
    stream_id = take 8 header;
    chunk_index = index;
    total_chunks = total;
    is_first = has_flag flags flag_first;
    is_last = has_flag flags flag_last;
  })

unfoldable pub batch_to_bytes : BatchMetadata → Result Bytes
batch_to_bytes m = do
  index ← pack_be 4 m.batch_index
  total ← pack_be 4 m.total_batches
  count ← pack_be 4 m.chunks_in_batch
  first ← pack_be 4 m.first_chunk_idx
  flags ← pack_be 4 (pack_flags m.is_first m.is_last)
  ok (pack_8s m.stream_id ++ (index ++ (total ++ (count ++ (first ++ flags)))))

unfoldable pub batch_from_bytes : Bytes → Result BatchMetadata
batch_from_bytes bytes = do
  let header = take batch_header_size bytes
  index ← unpack_be_at 4 8 header
  total ← unpack_be_at 4 12 header
  count ← unpack_be_at 4 16 header
  first ← unpack_be_at 4 20 header
  flags ← unpack_be_at 4 24 header
  ok (record {
    stream_id = take 8 header;
    batch_index = index;
    total_batches = total;
    chunks_in_batch = count;
    first_chunk_idx = first;
    is_first = has_flag flags flag_first;
    is_last = has_flag flags flag_last;
  })

-- Metadata that the wire format can carry: an 8-byte stream id, and 32-bit counters.
pub record IsValidBatch (m : BatchMetadata) : Type 0 where
  pub stream : length m.stream_id ≡ 8
  pub index : m.batch_index < 2 ^ 32
  pub total : m.total_batches < 2 ^ 32
  pub count : m.chunks_in_batch < 2 ^ 32
  pub first : m.first_chunk_idx < 2 ^ 32

pub record IsValidChunk (m : ChunkMetadata) : Type 0 where
  pub stream : length m.stream_id ≡ 8
  pub index : m.chunk_index < 2 ^ 32
  pub total : m.total_chunks < 2 ^ 32
