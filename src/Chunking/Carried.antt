-- ===== src/Chunking/Carried.antt =====
-- Each frame that make_batch_frames of src/qdap/chunking/chunk_qframe.py builds is taken by the
-- reassembler as its piece of the payload.
use mathlib.Core.Path.{ap₂}
use qdap_protocol.Base.{
  ℕ, zero, suc, ◌+◌, ◌-◌, ◌^◌, ◌<◌, ◌≡◌, refl, sym, ap, ◌∙◌, List, [], ◌∷◌, append-nil, map, length,
  length-append, get_elem?, join, some, ok, list_eq_instance, ◌==◌, le→leb, arith,
}
use qdap_protocol.Bytes.{Bytes}
use qdap_protocol.Frame.{Subframe, QFrame, create_with_encoder}
use qdap_protocol.Chunking.Meta.{BatchMetadata, IsValidBatch, batch_to_bytes, batch_from_bytes}
use qdap_protocol.Chunking.Meta.RoundTrip.{batch_from_bytes-batch_to_bytes}
use qdap_protocol.Chunking.Frames.{two_subframes, batch_frames}
use qdap_protocol.Chunking.Reassembler.{
  Reassembler, add_to_stream, process_batch, scan, dispatch, process_subframes,
}

abbrev pub subframes_of : BatchMetadata × QFrame → List Subframe
subframes_of p = p.1.subframes

module _ (encode : List Subframe → List ℕ) (double : ℕ → ℕ) (deadline_ms : ℕ) where
  -- One frame of a batch is taken by the reassembler as its piece.
  process_two_subframes :
      (m : BatchMetadata) (bytes piece : Bytes) (s : Reassembler) (now : ℕ)
      → length bytes ≡ 28
      → batch_from_bytes bytes ≡ ok m
      → process_subframes s (two_subframes encode double deadline_ms bytes piece).subframes now
        ≡ add_to_stream s m.stream_id m.total_batches m.batch_index piece now
  unfolding process_subframes scan dispatch process_batch two_subframes create_with_encoder
  process_two_subframes m bytes piece s now long read =
      rw (le→leb 28 (length bytes) (omega arith), read, process_batch)

  abbrev meta_of : Bytes → ℕ → ℕ → ℕ → List Bytes → BatchMetadata
  meta_of sid total idx cursor batch = record {
    stream_id = sid;
    batch_index = idx;
    total_batches = total;
    chunks_in_batch = length batch;
    first_chunk_idx = cursor;
    is_first = idx == 0;
    is_last = idx == total - 1;
  }

  batch_frames_step :
      (sid : Bytes) (total idx cursor : ℕ) (batch : List Bytes) (batches : List (List Bytes))
      (bytes : Bytes) (frames : List (BatchMetadata × QFrame))
      → batch_to_bytes (meta_of sid total idx cursor batch) ≡ ok bytes
      → batch_frames encode double deadline_ms sid total (suc idx) (cursor + length batch) batches
        ≡ ok frames
      → batch_frames encode double deadline_ms sid total idx cursor (batch ∷ batches)
        ≡ ok (
            (
              meta_of sid total idx cursor batch,
              two_subframes encode double deadline_ms bytes (join batch),
            )
            ∷ frames)
  unfolding batch_frames
  batch_frames_step sid total idx cursor batch batches bytes frames e1 e2 = rw (e1, e2)

  module _ (sid : Bytes) (total : ℕ) (eight : length sid ≡ 8) (few : total < 2 ^ 32) where
    -- The frames from `idx` on carry the pieces from `idx` on.
    abbrev pub CarriesFrom : ℕ → List (List Bytes) → List (BatchMetadata × QFrame) → Type 0
    CarriesFrom idx batches frames =
        (i : ℕ) (piece : Bytes)
        → get_elem? (map join batches) i ≡ some piece
        → (subframes : List Subframe) × (get_elem? (map subframes_of frames) i ≡ some subframes)
          × ((s : Reassembler) (now : ℕ)
              → process_subframes s subframes now ≡ add_to_stream s sid total (idx + i) piece now)

    CarriesFrom-cons :
        (idx cursor : ℕ) (batch : List Bytes) (batches : List (List Bytes))
        (frames : List (BatchMetadata × QFrame)) (bytes : Bytes)
        → length bytes ≡ 28
        → batch_from_bytes bytes ≡ ok (meta_of sid total idx cursor batch)
        → CarriesFrom (suc idx) batches frames
        → CarriesFrom idx (batch ∷ batches) (
            (
              meta_of sid total idx cursor batch,
              two_subframes encode double deadline_ms bytes (join batch),
            )
            ∷ frames)
    CarriesFrom-cons idx cursor batch batches frames bytes long read carry zero piece h =
        let same : join batch ≡ piece = cc in
        let here : idx ≡ idx + 0 = omega arith in
        (
          (two_subframes encode double deadline_ms bytes (join batch)).subframes,
          refl,
          λ s now.
              process_two_subframes (meta_of sid total idx cursor batch) bytes (join batch) s now
                long read
              ∙ ap₂ (λ (k : ℕ) (b : Bytes). add_to_stream s sid total k b now) here same,
        )
    CarriesFrom-cons idx cursor batch batches frames bytes long read carry (suc i) piece h =
        let (subframes, at, same) = carry i piece h in
        let there : suc idx + i ≡ idx + suc i = omega arith in
        (
          subframes,
          at,
          λ s now. same s now ∙ ap (λ (k : ℕ). add_to_stream s sid total k piece now) there,
        )

    pub batch_frames_carry :
        (batches : List (List Bytes)) (idx cursor : ℕ)
        → idx + length batches ≡ total
        → cursor + length (join batches) < 2 ^ 32
        → (frames : List (BatchMetadata × QFrame)) × (batch_frames encode double deadline_ms sid
              total idx cursor batches
            ≡ ok frames)
          × (length frames ≡ length batches)
          × CarriesFrom idx batches frames
    unfolding batch_frames
    batch_frames_carry [] idx cursor e p = ([], refl, refl, λ i piece h. cc)
    batch_frames_carry (batch ∷ batches) idx cursor e p =
        let m : BatchMetadata = meta_of sid total idx cursor batch in
        let size = length-append batch (join batches) in
        let valid : IsValidBatch m = record {
          stream = eight;
          index = omega arith;
          total = few;
          count = omega (arith, size);
          first = omega arith;
        } in
        let (bytes, packed, long, read) = batch_from_bytes-batch_to_bytes m [] valid in
        let (frames, built, same, carry) =
          batch_frames_carry batches (suc idx) (cursor + length batch) (omega arith)
            (omega (arith, size)) in
        let read' : batch_from_bytes bytes ≡ ok m =
          ap batch_from_bytes (sym (append-nil bytes)) ∙ read in
        (
          (m, two_subframes encode double deadline_ms bytes (join batch)) ∷ frames,
          batch_frames_step sid total idx cursor batch batches bytes frames packed built,
          ap suc same,
          CarriesFrom-cons idx cursor batch batches frames bytes long read' carry,
        )
