-- ===== src/Parallel/Receiver.antt =====
-- src/qdap/transport/parallel_sender.py, AssemblyBuffer and ParallelReceiver: the chunks of a stream,
-- in whatever order they come. Times are whole nanoseconds.
pub mod Delivery
use qdap_protocol.Base.{
  ℕ, zero, suc, ◌+◌, ◌-◌, Bool, true, false, List, [], ◌∷◌, ◌++◌, length, Option, none, some,
  Result, ok, err, ◌>>=◌, ◌>>◌, guard, Error, nat_eq, ltb, ◌==◌, if◌then◌else◌,
}
use qdap_protocol.Base.Dict.{Dict, get, put, remove, contains}
use qdap_protocol.Bytes.{Bytes}
use qdap_protocol.Chunking.Reassembler.{gather}

pub record AssemblyBuffer : Type 0 where
  pub stream_id : ℕ
  pub total_chunks : ℕ
  pub received : Dict ℕ Bytes
  pub created_at : ℕ

abbrev pub is_assembled : AssemblyBuffer → Bool
is_assembled b = length b.received == b.total_chunks

-- The payload; `gather` reads the numbers in their order, as the reassembler of frames does.
unfoldable pub assemble : AssemblyBuffer → Result Bytes
assemble b = do guard (is_assembled b) Error.assertion_error; gather b.total_chunks 0 b.received

-- [i for i in range(total) if i not in received], from i on
unfoldable pub missing_from : ℕ → ℕ → Dict ℕ Bytes → List ℕ
missing_from zero i received = []
missing_from (suc n) i received =
    let rest = missing_from n (suc i) received in if contains i received then rest else i ∷ rest

abbrev pub missing_chunks : AssemblyBuffer → List ℕ
missing_chunks b = missing_from b.total_chunks 0 b.received

pub record ParallelReceiver : Type 0 where
  pub buffers : Dict ℕ AssemblyBuffer
  pub timeout : ℕ

-- The buffer of the stream, a new one if there is none.
abbrev pub buffer_or_new : ℕ → ℕ → ℕ → Option AssemblyBuffer → AssemblyBuffer
buffer_or_new stream_id total now none = record {
  stream_id = stream_id;
  total_chunks = total;
  received = [];
  created_at = now;
}
buffer_or_new stream_id total now (some b) = b

-- `if complete:` and its body; an exception leaves the buffer.
abbrev pub give_payload :
    ParallelReceiver → ℕ → Result Bytes → ParallelReceiver × Result (Option Bytes)
give_payload s stream_id (err e) = (s, err e)
give_payload s stream_id (ok payload) =
    (record s { buffers = remove stream_id s.buffers }, ok (some payload))

-- The chunk goes into the buffer, which is an object of the dictionary.
abbrev pub add_to_buffer :
    ParallelReceiver → ℕ → AssemblyBuffer → ParallelReceiver × Result (Option Bytes)
add_to_buffer s stream_id b =
    let s' = record s { buffers = put stream_id b s.buffers } in
    if is_assembled b then give_payload s' stream_id (assemble b) else (s', ok none)

-- The clock is read once: the test comes at the time at which a new buffer is made.
unfoldable pub on_chunk :
    ParallelReceiver → ℕ → ℕ → ℕ → Bytes → ℕ → ParallelReceiver × Result (Option Bytes)
on_chunk s stream_id chunk_idx total_chunks chunk_data now =
    let b = buffer_or_new stream_id total_chunks now (get stream_id s.buffers) in
    if ltb s.timeout (now - b.created_at)
    then (record s { buffers = remove stream_id s.buffers }, ok none)
    else add_to_buffer s stream_id (record b { received = put chunk_idx chunk_data b.received })

abbrev pub missing_of : Option AssemblyBuffer → List ℕ
missing_of none = []
missing_of (some b) = missing_chunks b

unfoldable pub missing_for_stream : ParallelReceiver → ℕ → List ℕ
missing_for_stream s stream_id = missing_of (get stream_id s.buffers)
