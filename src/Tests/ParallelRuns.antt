-- ===== src/Tests/ParallelRuns.antt =====
-- Chunk frames and the plan of a small payload.
use qdap_protocol.Base.{
  ℕ, zero, suc, true, List, ◌<◌, elem, none, nat_eq, ◌≡◌, refl, [], ◌∷◌, ◌++◌, join, length, some,
  ok, arith,
}
use qdap_protocol.Bytes.{Bytes}
use qdap_protocol.Parallel.{
  ChunkInfo, build_chunk_frame, parse_chunk_frame, plan_parallel_chunks, plan_from,
}
use qdap_protocol.Parallel.RoundTrip.{wire_chunk, parse_chunk_frame-build_chunk_frame}
use qdap_protocol.Parallel.Plan.{cut, join-plan_parallel_chunks}
use qdap_protocol.Base.Dict.{get}
use qdap_protocol.Parallel.Receiver.{ParallelReceiver}
use qdap_protocol.Parallel.Receiver.Delivery.{receive_chunks, receive_chunks-answers}
use qdap_protocol.Tests.Hash.{toy_hash, length-toy_hash}

abbrev chunk : ChunkInfo
chunk = record {
  stream_id = 65537;
  chunk_idx = 2;
  total_chunks = 3;
  chunk_data = 7 ∷ 8 ∷ [];
  seq = 2;
  priority = 500;
}

parse_chunk_frame-build_chunk_frame_example :
    (bytes : Bytes) × (build_chunk_frame toy_hash chunk ≡ ok bytes)
    × (parse_chunk_frame toy_hash (bytes ++ (1 ∷ [])) ≡ ok (some (wire_chunk chunk)))
parse_chunk_frame-build_chunk_frame_example =
    parse_chunk_frame-build_chunk_frame toy_hash length-toy_hash chunk (1 ∷ []) (omega arith)

abbrev payload : Bytes
payload = 1 ∷ 2 ∷ 3 ∷ 4 ∷ 5 ∷ []

planned : plan_parallel_chunks 5 2 2 ≡ (0, 0, 0, 2) ∷ (1, 1, 2, 4) ∷ (0, 2, 4, 5) ∷ []
unfolding plan_parallel_chunks plan_from
planned = refl

join-plan_parallel_chunks_example :
    join (cut payload (plan_parallel_chunks (length payload) 2 2)) ≡ payload
join-plan_parallel_chunks_example =
    join-plan_parallel_chunks payload 2 2 (omega arith) (omega arith)

-- Three chunks, the last one first.
abbrev pieces : List Bytes
pieces = (1 ∷ 2 ∷ []) ∷ (3 ∷ 4 ∷ []) ∷ (5 ∷ []) ∷ []

abbrev arrivals : List (ℕ × ℕ × Bytes)
arrivals = (100, 2, 5 ∷ []) ∷ (101, 0, 1 ∷ 2 ∷ []) ∷ (103, 1, 3 ∷ 4 ∷ []) ∷ []

abbrev receiver : ParallelReceiver
receiver = record { buffers = []; timeout = 50 }

each_once : (j : ℕ) → j < 3 → elem j (1 ∷ 0 ∷ 2 ∷ []) ≡ true
each_once zero h = refl
each_once (suc zero) h = refl
each_once (suc (suc zero)) h = refl
each_once (suc (suc (suc j))) h = absurd (omega arith)

receive_chunks-answers_example :
    ((receive_chunks receiver 7 3 arrivals).1 ≡ ok none ∷ ok none ∷ ok (some payload) ∷ [])
    × (get 7 (receive_chunks receiver 7 3 arrivals).0.buffers ≡ none)
unfolding get
receive_chunks-answers_example =
    receive_chunks-answers 7 pieces 90 receiver arrivals refl (omega arith) (
      refl,
      refl,
      omega arith,
      omega arith,
      (
        refl,
        refl,
        omega arith,
        omega arith,
        (refl, refl, omega arith, omega arith, (refl, each_once)),
      ),
    )
