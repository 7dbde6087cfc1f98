-- ===== src/Chunking/Reassembler.antt =====
-- src/qdap/chunking/reassembler.py: the receiver's buffers. The monotonic clock is read in whole
-- nanoseconds and passed in; the lock makes each call one step. `notified` lists the calls of the
-- `on_complete` callback, which is taken to return.
pub mod Buffer
pub mod Delivery
use qdap_protocol.Base.{
  ℕ, zero, suc, ◌+◌, ◌-◌, ◌*◌, Bool, true, false, List, [], ◌∷◌, ◌++◌, length, Option, none, some,
  Result, ok, err, Error, nat_eq, list_eq_instance, or_raise, ◌>>=◌, ltb, leb, ◌==◌, if◌then◌else◌,
  map,
}
use qdap_protocol.Base.Dict.{Dict, get, put, remove}
use qdap_protocol.Bytes.{Bytes}
use qdap_protocol.Frame.{Subframe, SubframeType}
use qdap_protocol.Chunking.Meta.{
  ChunkMetadata, BatchMetadata, chunk_from_bytes, batch_from_bytes, chunk_header_size,
  batch_header_size,
}

pub record StreamBuffer : Type 0 where
  pub stream_id : Bytes
  pub total_chunks : ℕ
  pub chunks : Dict ℕ Bytes
  pub created_at : ℕ

unfoldable pub is_complete : StreamBuffer → Bool
is_complete b = length b.chunks == b.total_chunks

unfoldable pub add_chunk : ℕ → Bytes → StreamBuffer → StreamBuffer
add_chunk index bytes b = record b { chunks = put index bytes b.chunks }

-- self.chunks[i] for n values of i, joined; a missing index raises KeyError.
unfoldable pub gather : ℕ → ℕ → Dict ℕ Bytes → Result Bytes
gather zero i chunks = ok []
gather (suc n) i chunks = do
  chunk ← or_raise Error.key_error (get i chunks)
  rest ← gather n (suc i) chunks
  ok (chunk ++ rest)

unfoldable pub reassemble : StreamBuffer → Result Bytes
unfolding gather
reassemble b = gather b.total_chunks 0 b.chunks

pub record Reassembler : Type 0 where
  pub streams : Dict Bytes StreamBuffer
  pub has_callback : Bool
  pub notified : List (Bytes × Bytes)

-- The buffer of a stream, a new one for an unknown stream.
unfoldable pub buffer_for : Reassembler → Bytes → ℕ → ℕ → StreamBuffer
buffer_for s stream_id total now = elim (get stream_id s.streams) [
  | none ↦ record { stream_id = stream_id; total_chunks = total; chunks = []; created_at = now }
  | some b ↦ b
]

-- `if buf.is_complete:` and its body. A KeyError leaves the stream in place.
unfoldable pub finish : Reassembler → Bytes → StreamBuffer → Reassembler × Result (Option Bytes)
finish s stream_id b =
    if is_complete b
    then (elim (reassemble b) [
      | err e ↦ (s, err e)
      | ok payload ↦ (
        record s {
          streams = remove stream_id s.streams;
          notified = if s.has_callback then s.notified ++ (stream_id, payload) ∷ [] else s.notified;
        },
        ok (some payload),
      )
    ])
    else (s, ok none)

-- The locked part that `_process_batch` and `_process_chunk` have in common.
unfoldable pub add_to_stream :
    Reassembler → Bytes → ℕ → ℕ → Bytes → ℕ → Reassembler × Result (Option Bytes)
add_to_stream s stream_id total index bytes now =
    let b = add_chunk index bytes (buffer_for s stream_id total now) in
    finish (record s { streams = put stream_id b s.streams }) stream_id b

unfoldable pub process_batch : Reassembler → Bytes → Bytes → ℕ → Reassembler × Result (Option Bytes)
process_batch s meta_bytes data_bytes now = elim (batch_from_bytes meta_bytes) [
  | err e ↦ (s, err e)
  | ok meta ↦ add_to_stream s meta.stream_id meta.total_batches meta.batch_index data_bytes now
]

unfoldable pub process_chunk : Reassembler → Bytes → Bytes → ℕ → Reassembler × Result (Option Bytes)
process_chunk s meta_bytes data_bytes now = elim (chunk_from_bytes meta_bytes) [
  | err e ↦ (s, err e)
  | ok meta ↦ add_to_stream s meta.stream_id meta.total_chunks meta.chunk_index data_bytes now
]

-- The loop over the subframes: the payloads of the last CTRL and of the last DATA subframe.
unfoldable pub scan : List Subframe → Option Bytes → Option Bytes → Option Bytes × Option Bytes
scan [] meta bytes = (meta, bytes)
scan (sf ∷ sfs) meta bytes = elim sf.type [
  | SubframeType.ctrl ↦ scan sfs (some sf.payload) bytes
  | SubframeType.data_kind ↦ scan sfs meta (some sf.payload)
  | _ ↦ scan sfs meta bytes
]

-- The tests on `meta_bytes` and `data_bytes` after the loop.
unfoldable pub dispatch :
    Reassembler → Option Bytes × Option Bytes → ℕ → Reassembler × Result (Option Bytes)
dispatch s (some meta, some bytes) now =
    if leb batch_header_size (length meta)
    then process_batch s meta bytes now
    else if leb chunk_header_size (length meta)
    then process_chunk s meta bytes now
    else (s, ok none)
dispatch s _ now = (s, ok none)

unfoldable pub process_subframes :
    Reassembler → List Subframe → ℕ → Reassembler × Result (Option Bytes)
process_subframes s subframes now = dispatch s (scan subframes none none) now

-- 30.0 seconds
abbrev pub stream_timeout : ℕ
stream_timeout = 30_000_000_000

-- The stream ids that the comprehension lists, and their deletion.
unfoldable pub stale_streams : ℕ → Dict Bytes StreamBuffer → List Bytes
stale_streams now [] = []
stale_streams now ((sid, b) ∷ streams) =
    let rest = stale_streams now streams in
    if ltb stream_timeout (now - b.created_at) then sid ∷ rest else rest

unfoldable pub delete_all : List Bytes → Dict Bytes StreamBuffer → Dict Bytes StreamBuffer
delete_all [] streams = streams
delete_all (sid ∷ sids) streams = delete_all sids (remove sid streams)

unfoldable pub cleanup_stale : ℕ → Reassembler → Reassembler
cleanup_stale now s = record s { streams = delete_all (stale_streams now s.streams) s.streams }
