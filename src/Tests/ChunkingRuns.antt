-- ===== src/Tests/ChunkingRuns.antt =====
-- Batches of a small payload, delivered out of order.
use qdap_protocol.Base.{
  elem, ℕ, ◌+◌, ◌-◌, ◌/◌, ◌<◌, ◌≤◌, ◌*◌, ◌↔◌, ◌≡◌, refl, true, false, List, [], ◌∷◌, ◌++◌, map,
  length, none, some, Option, Result, ok, err, Error, list_eq_instance, ◌==◌, zero, suc, arith,
}
use qdap_protocol.Base.Dict.{get}
use qdap_protocol.Bytes.{Bytes, be_bytes, pack_be, All}
use qdap_protocol.Frame.{Subframe, QFrame}
use qdap_protocol.Chunking.Strategy.{for_payload, for_payload_bounds, strategy_size, large}
use qdap_protocol.Chunking.Meta.{ChunkMetadata, BatchMetadata, batch_to_bytes, pack_flags}
use qdap_protocol.Chunking.Split.{split, range_step, join-split, range_count}
use qdap_protocol.Chunking.Frames.{make_batch_frames, batch_frames, two_subframes}
use qdap_protocol.Chunking.Reassembler.{Reassembler}
use qdap_protocol.Chunking.Reassembler.Delivery.{answers, deliver}
use qdap_protocol.Chunking.Carried.{subframes_of}
use qdap_protocol.Chunking.Transfer.{
  frame_count, make_batch_frames_total, deliver-make_batch_frames,
}

abbrev sid : Bytes
sid = 1 ∷ 2 ∷ 3 ∷ 4 ∷ 5 ∷ 6 ∷ 7 ∷ 8 ∷ []

abbrev payload : Bytes
payload = 10 ∷ 20 ∷ 30 ∷ 40 ∷ 50 ∷ []

abbrev equal_amplitudes : List Subframe → List ℕ
equal_amplitudes = map (λ sf. 0x3f3504f3)

abbrev double : ℕ → ℕ
double d = d + 0x0010000000000000

abbrev idle : Reassembler
idle = record { streams = []; has_callback = false; notified = [] }

abbrev some_meta : BatchMetadata
some_meta = record {
  stream_id = sid;
  batch_index = 1;
  total_batches = 5;
  chunks_in_batch = 8;
  first_chunk_idx = 8;
  is_first = false;
  is_last = false;
}

abbrev some_chunk : ChunkMetadata
some_chunk = record {
  stream_id = sid;
  chunk_index = 0;
  total_chunks = 1;
  is_first = true;
  is_last = true;
}

join-split_example :
    (xss : List Bytes) × (split 2 payload ≡ ok xss)
    × (qdap_protocol.Base.join xss ≡ payload)
    × (length xss ≡ range_count (length payload) 2)
    × All (λ c. length c ≤ 2) xss
join-split_example = join-split 2 payload (omega arith)

make_batch_frames_total_example :
    (frames : List (BatchMetadata × QFrame)) × (make_batch_frames equal_amplitudes double 0 sid
        payload 2 2 none
      ≡ ok frames)
    × (length frames ≡ frame_count (length payload) 2 2)
make_batch_frames_total_example =
    make_batch_frames_total equal_amplitudes double 0 sid payload 2 2 none (omega arith)
      (omega arith) refl (omega arith)

abbrev batch_meta : ℕ → ℕ → ℕ → BatchMetadata
batch_meta idx count first = record {
  stream_id = sid;
  batch_index = idx;
  total_batches = 2;
  chunks_in_batch = count;
  first_chunk_idx = first;
  is_first = idx == 0;
  is_last = idx == 1;
}

abbrev two_frames : List (BatchMetadata × QFrame)
two_frames =
    (
      batch_meta 0 2 0,
      two_subframes equal_amplitudes double 0
          (sid
            ++ (0 ∷ 0 ∷ 0 ∷ 0 ∷ 0 ∷ 0 ∷ 0 ∷ 2 ∷ 0 ∷ 0 ∷ 0 ∷ 2 ∷ 0 ∷ 0 ∷ 0 ∷ 0 ∷ 0 ∷ 0 ∷ 0 ∷ 1 ∷ []))
          (10 ∷ 20 ∷ 30 ∷ 40 ∷ []),
    )
    ∷ (
      batch_meta 1 1 2,
      two_subframes equal_amplitudes double 0
          (sid
            ++ (0 ∷ 0 ∷ 0 ∷ 1 ∷ 0 ∷ 0 ∷ 0 ∷ 2 ∷ 0 ∷ 0 ∷ 0 ∷ 1 ∷ 0 ∷ 0 ∷ 0 ∷ 2 ∷ 0 ∷ 0 ∷ 0 ∷ 2 ∷ []))
          (50 ∷ []),
    )
    ∷ []

two_frames_made : make_batch_frames equal_amplitudes double 0 sid payload 2 2 none ≡ ok two_frames
unfolding make_batch_frames batch_frames split range_step batch_to_bytes pack_flags pack_be be_bytes
two_frames_made = refl

-- The second batch comes first.
deliver-make_batch_frames_example :
    ((deliver (map subframes_of two_frames) idle ((5, 1) ∷ (9, 0) ∷ [])).1
      ≡ answers payload ((5, 1) ∷ (9, 0) ∷ []))
    × (get sid (deliver (map subframes_of two_frames) idle ((5, 1) ∷ (9, 0) ∷ [])).0.streams ≡ none)
deliver-make_batch_frames_example =
    deliver-make_batch_frames equal_amplitudes double 0 sid payload 2 2 none two_frames idle
      ((5, 1) ∷ (9, 0) ∷ []) (omega arith) (omega arith) refl (omega arith) (omega arith)
      two_frames_made (unfold get in refl) (refl, omega arith, (refl, omega arith, (refl, both)))
  where
    both : (i : ℕ) → i < 2 → elem i (0 ∷ 1 ∷ []) ≡ true
    both zero h = refl
    both (suc zero) h = refl
    both (suc (suc i)) h = absurd (omega arith)

for_payload_bounds_example :
    (n : ℕ) × (for_payload 50_000_000 (strategy_size large) ≡ ok n)
    × (1 ≤ n)
    × (n ≤ 32)
    × (n * strategy_size large ≤ 2 * 1024 * 1024)
for_payload_bounds_example = for_payload_bounds 50_000_000 large
