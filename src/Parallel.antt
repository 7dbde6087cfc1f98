-- ===== src/Parallel.antt =====
-- src/qdap/transport/parallel_sender.py: the frames of the chunks that parallel streams carry, and
-- the plan of the chunks. SHA3-256 is a parameter.
pub mod RoundTrip
pub mod Plan
pub mod Receiver
use qdap_protocol.Base.{
  ℕ, zero, suc, ◌+◌, ◌-◌, ◌*◌, ◌/◌, ◌%◌, ◌^◌, ◌||◌, Bool, not, List, [], ◌∷◌, ◌++◌, length, take,
  drop, slice, Option, none, some, Result, ok, err, ◌>>=◌, min, ltb, ◌==◌, if◌then◌else◌, list_eq,
}
use qdap_protocol.Bytes.{Bytes, le_bytes, pack_le, unpack_le_at}

abbrev pub magic : Bytes
magic = 0x51 ∷ 0x44 ∷ 0x41 ∷ 0x50 ∷ []

abbrev pub version : ℕ
version = 1

abbrev pub frame_type : ℕ
frame_type = 0x01

abbrev pub header_size : ℕ
header_size = 22

abbrev pub hash_size : ℕ
hash_size = 32

-- (stream_num, chunk_idx, start, end) for the chunks from `idx` on.
unfoldable pub plan_from : ℕ → ℕ → ℕ → ℕ → ℕ → List (ℕ × ℕ × ℕ × ℕ)
plan_from zero idx payload_size chunk_size n_streams = []
plan_from (suc n) idx payload_size chunk_size n_streams =
    (idx % n_streams, idx, idx * chunk_size, min (idx * chunk_size + chunk_size) payload_size)
    ∷ plan_from n (suc idx) payload_size chunk_size n_streams

unfoldable pub plan_parallel_chunks : ℕ → ℕ → ℕ → List (ℕ × ℕ × ℕ × ℕ)
plan_parallel_chunks payload_size chunk_size n_streams =
    if (chunk_size == 0) || (n_streams == 0)
    then []
    else plan_from ((payload_size + chunk_size - 1) / chunk_size) 0 payload_size chunk_size
        n_streams

pub record ChunkInfo : Type 0 where
  pub stream_id : ℕ
  pub chunk_idx : ℕ
  pub total_chunks : ℕ
  pub chunk_data : Bytes
  pub seq : ℕ
  pub priority : ℕ

-- `& 0xFFFF` and `& 0xFFFFFFFF`
abbrev pub low_16 : ℕ → ℕ
low_16 n = n % 65536

abbrev pub low_32 : ℕ → ℕ
low_32 n = n % 4294967296

module _ (sha3_256 : Bytes → Bytes) where
  unfoldable pub build_chunk_frame : ChunkInfo → Result Bytes
  build_chunk_frame chunk = do
    payload_len ← pack_le 4 (length chunk.chunk_data)
    ok (
        magic
        ++ (version
            ∷ frame_type
            ∷ (le_bytes 2 (low_16 chunk.priority)
                ++ (le_bytes 2 (low_16 chunk.stream_id)
                    ++ (le_bytes 2 (low_16 chunk.chunk_idx)
                        ++ (le_bytes 2 (low_16 chunk.total_chunks)
                            ++ (le_bytes 4 (low_32 chunk.seq)
                                ++ (payload_len
                                    ++ (sha3_256 chunk.chunk_data ++ chunk.chunk_data)))))))))

  -- The tests behind the header, with the fields read from it.
  unfoldable pub check_payload : Bytes → ℕ → (Bytes → ChunkInfo) → Option ChunkInfo
  check_payload bytes payload_len chunk =
      let payload = slice (header_size + hash_size) (header_size + hash_size + payload_len) bytes in
      if ltb (length bytes) (header_size + hash_size + payload_len)
      then none
      else if not (list_eq (sha3_256 payload) (slice header_size (header_size + hash_size) bytes))
      then none
      else some (chunk payload)

  unfoldable pub parse_chunk_frame : Bytes → Result (Option ChunkInfo)
  parse_chunk_frame bytes = if ltb (length bytes) (header_size + hash_size) then ok none else (do
    priority ← unpack_le_at 2 6 bytes
    stream_id ← unpack_le_at 2 8 bytes
    chunk_idx ← unpack_le_at 2 10 bytes
    total_chunks ← unpack_le_at 2 12 bytes
    seq ← unpack_le_at 4 14 bytes
    payload_len ← unpack_le_at 4 18 bytes
    (if not (list_eq (take 4 bytes) magic)
        then ok none
        else ok (
            check_payload bytes payload_len (λ payload. record {
              stream_id = stream_id;
              chunk_idx = chunk_idx;
              total_chunks = total_chunks;
              chunk_data = payload;
              seq = seq;
              priority = priority;
            }))))
