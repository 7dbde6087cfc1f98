-- ===== src/Chunking/Frames.antt =====
-- make_chunk_frames and make_batch_frames of src/qdap/chunking/chunk_qframe.py. `double` is `* 2`
-- on floats, `encode` is AmplitudeEncoder.encode, and `fresh` is `uuid.uuid4().bytes[:8]`.
use qdap_protocol.Base.{
  ℕ, suc, ◌+◌, ◌-◌, List, [], ◌∷◌, length, join, Option, none, some, Result, ok, ◌>>=◌, ◌==◌,
}
use qdap_protocol.Bytes.{Bytes}
use qdap_protocol.Frame.{Subframe, SubframeType, FrameType, QFrame, subframe, create_with_encoder}
use qdap_protocol.Chunking.Meta.{ChunkMetadata, BatchMetadata, chunk_to_bytes, batch_to_bytes}
use qdap_protocol.Chunking.Split.{split}

abbrev pub or_fresh : Bytes → Option Bytes → Bytes
or_fresh fresh none = fresh
or_fresh fresh (some stream_id) = stream_id

module _ (encode : List Subframe → List ℕ) (double : ℕ → ℕ) (deadline_ms : ℕ) where
  -- The two subframes of a frame: the metadata, with twice the deadline, and the data.
  unfoldable pub two_subframes : Bytes → Bytes → QFrame
  two_subframes meta bytes =
      create_with_encoder encode
        (subframe meta SubframeType.ctrl (double deadline_ms) 0
          ∷ subframe bytes SubframeType.data_kind deadline_ms 0
          ∷ [])
        0 FrameType.data_kind

  unfoldable pub chunk_frames : Bytes → ℕ → ℕ → List Bytes → Result (List (ChunkMetadata × QFrame))
  chunk_frames stream_id total idx [] = ok []
  chunk_frames stream_id total idx (chunk ∷ chunks) = do
    let meta : ChunkMetadata = record {
      stream_id = stream_id;
      chunk_index = idx;
      total_chunks = total;
      is_first = idx == 0;
      is_last = idx == total - 1;
    }
    bytes ← chunk_to_bytes meta
    rest ← chunk_frames stream_id total (suc idx) chunks
    ok ((meta, two_subframes bytes chunk) ∷ rest)

  unfoldable pub make_chunk_frames :
      Bytes → Bytes → ℕ → Option Bytes → Result (List (ChunkMetadata × QFrame))
  make_chunk_frames fresh payload chunk_size stream_id = do
    chunks ← split chunk_size payload
    chunk_frames (or_fresh fresh stream_id) (length chunks) 0 chunks

  -- `cursor` is `chunk_cursor`, the number of chunks in the batches before.
  unfoldable pub batch_frames :
      Bytes → ℕ → ℕ → ℕ → List (List Bytes) → Result (List (BatchMetadata × QFrame))
  batch_frames stream_id total idx cursor [] = ok []
  batch_frames stream_id total idx cursor (batch ∷ batches) = do
    let meta : BatchMetadata = record {
      stream_id = stream_id;
      batch_index = idx;
      total_batches = total;
      chunks_in_batch = length batch;
      first_chunk_idx = cursor;
      is_first = idx == 0;
      is_last = idx == total - 1;
    }
    bytes ← batch_to_bytes meta
    rest ← batch_frames stream_id total (suc idx) (cursor + length batch) batches
    ok ((meta, two_subframes bytes (join batch)) ∷ rest)

  unfoldable pub make_batch_frames :
      Bytes → Bytes → ℕ → ℕ → Option Bytes → Result (List (BatchMetadata × QFrame))
  make_batch_frames fresh payload chunk_size batch_size stream_id = do
    chunks ← split chunk_size payload
    batches ← split batch_size chunks
    batch_frames (or_fresh fresh stream_id) (length batches) 0 0 batches
