-- ===== src/Chunking/Transfer.antt =====
-- From make_batch_frames of src/qdap/chunking/chunk_qframe.py to the reassembler: a payload sent
-- in batches arrives whole, whatever the order in which its frames come in.
use mathlib.Core.Path.{ap₂, subst}
use native.Mathlib.Nat.{zero-add}
use qdap_protocol.Base.{
  ℕ, ◌^◌, ◌≤◌, ◌<◌, ◌≡◌, refl, sym, ap, ◌∙◌, List, [], ◌∷◌, ◌++◌, map, length, join, join-append,
  Option, none, ok, list_eq_instance, arith,
}
use qdap_protocol.Base.Dict.{get}
use qdap_protocol.Bytes.{Bytes}
use qdap_protocol.Frame.{Subframe, QFrame}
use qdap_protocol.Chunking.Meta.{BatchMetadata}
use qdap_protocol.Chunking.Split.{split, join-split, length-map, range_count, range_count-le}
use qdap_protocol.Chunking.Frames.{or_fresh, batch_frames, make_batch_frames}
use qdap_protocol.Chunking.Reassembler.{Reassembler, add_to_stream}
use qdap_protocol.Chunking.Reassembler.Delivery.{
  IsOrder, answers, deliver, Carries, HasSeen-new, deliver_order, length-IsOrder,
}
use qdap_protocol.Chunking.Carried.{subframes_of, batch_frames_carry}

-- The number of frames: the chunks over the batch size, rounded up.
abbrev pub frame_count : ℕ → ℕ → ℕ → ℕ
frame_count len chunk_size batch_size = range_count (range_count len chunk_size) batch_size

join-map-join : (xss : List (List Bytes)) → join (map join xss) ≡ join (join xss)
join-map-join [] = refl
join-map-join (xs ∷ xss) =
    ap (λ (t : Bytes). join xs ++ t) (join-map-join xss) ∙ sym (join-append xs (join xss))

join-pos : (xss : List Bytes) → 0 < length (join xss) → 0 < length xss
join-pos [] h = h
join-pos (xs ∷ xss) h = omega arith

module _ (encode : List Subframe → List ℕ) (double : ℕ → ℕ) (deadline_ms : ℕ) where
  make_batch_frames_built :
      (fresh payload : Bytes) (chunk_size batch_size : ℕ) (stream_id : Option Bytes)
      (chunks : List Bytes) (batches : List (List Bytes)) (frames : List (BatchMetadata × QFrame))
      → split chunk_size payload ≡ ok chunks
      → split batch_size chunks ≡ ok batches
      → batch_frames encode double deadline_ms
          (or_fresh fresh stream_id)
          (length batches)
          0
          0
          batches
        ≡ ok frames
      → make_batch_frames encode double deadline_ms fresh payload chunk_size batch_size stream_id
        ≡ ok frames
  unfolding make_batch_frames
  make_batch_frames_built fresh payload chunk_size batch_size stream_id chunks batches frames e1 e2
        e3 =
      rw (e1, e2, e3)

  -- Frames that carry the pieces of a payload, in any order.
  abbrev Delivers : Bytes → Bytes → List (List Subframe) → Type 0
  Delivers sid payload frames =
      (s : Reassembler) (order : List (ℕ × ℕ))
      → get sid s.streams ≡ none
      → IsOrder (length frames) [] order
      → ((deliver frames s order).1 ≡ answers payload order)
        × (get sid (deliver frames s order).0.streams ≡ none)

  Carries-Delivers :
      (sid payload : Bytes) (pieces : List Bytes) (frames : List (List Subframe))
      → join pieces ≡ payload
      → length frames ≡ length pieces
      → 0 < length pieces
      → Carries sid pieces frames
      → Delivers sid payload frames
  Carries-Delivers sid payload pieces frames whole same pos carries s order unknown o =
      let o' : IsOrder (length pieces) [] order = subst (λ n. IsOrder n [] order) same o in
      let nonempty : 0 < length order = omega (arith, length-IsOrder (length pieces) [] order o') in
      let (got, gone) =
        deliver_order sid pieces frames carries order [] s nonempty
          (HasSeen-new sid pieces s unknown) o' in
      (got ∙ ap (λ (p : Bytes). answers p order) whole, gone)

  batch_delivery :
      (fresh payload : Bytes) (chunk_size batch_size : ℕ) (stream_id : Option Bytes)
      → 0 < chunk_size
      → 0 < batch_size
      → length (or_fresh fresh stream_id) ≡ 8
      → length payload < 2 ^ 32
      → (frames : List (BatchMetadata × QFrame)) × (make_batch_frames encode double deadline_ms
            fresh payload chunk_size batch_size stream_id
          ≡ ok frames)
        × (length frames ≡ frame_count (length payload) chunk_size batch_size)
        × (0 < length payload
            → Delivers (or_fresh fresh stream_id) payload (map subframes_of frames))
  batch_delivery fresh payload chunk_size batch_size stream_id hc hb eight small =
      let sid : Bytes = or_fresh fresh stream_id in
      let (chunks, cut, joined, count1, _) = join-split chunk_size payload hc in
      let (batches, cut', joined', count2, _) = join-split batch_size chunks hb in
      let few : length chunks ≤ length payload =
        omega (arith, count1, range_count-le (length payload) chunk_size hc) in
      let few' : length batches ≤ length chunks =
        omega (arith, count2, range_count-le (length chunks) batch_size hb) in
      let (frames, built, same, carry) =
        batch_frames_carry encode double deadline_ms sid (length batches) eight (omega arith)
          batches 0 0 (omega arith) (omega (arith, ap length joined')) in
      let whole : join (map join batches) ≡ payload =
        join-map-join batches ∙ ap join joined' ∙ joined in
      let size : length (map join batches) ≡ length batches = length-map join batches in
      let count : length (map subframes_of frames) ≡ length batches =
        length-map subframes_of frames ∙ same in
      let carries : Carries sid (map join batches) (map subframes_of frames) = λ i piece h.
        let (subframes, at, taken) = carry i piece h in
        (
          subframes,
          at,
          λ s now.
              taken s now
              ∙ ap₂ (λ (n k : ℕ). add_to_stream s sid n k piece now) (sym size) (zero-add i),
        ) in
      (
        frames,
        make_batch_frames_built fresh payload chunk_size batch_size stream_id chunks batches frames
            cut cut' built,
        same ∙ count2 ∙ ap (λ (n : ℕ). range_count n batch_size) count1,
        λ some_bytes.
            Carries-Delivers sid payload (map join batches) (map subframes_of frames) whole
              (count ∙ sym size) (join-pos (map join batches) (omega (arith, ap length whole)))
              carries,
      )

  -- A payload below 4 GiB is turned into frames without error, whatever the positive chunk and
  -- batch sizes, and their number is ⌈⌈length / chunk_size⌉ / batch_size⌉.
  pub make_batch_frames_total :
      (fresh payload : Bytes) (chunk_size batch_size : ℕ) (stream_id : Option Bytes)
      → 0 < chunk_size
      → 0 < batch_size
      → length (or_fresh fresh stream_id) ≡ 8
      → length payload < 2 ^ 32
      → (frames : List (BatchMetadata × QFrame)) × (make_batch_frames encode double deadline_ms
            fresh payload chunk_size batch_size stream_id
          ≡ ok frames)
        × (length frames ≡ frame_count (length payload) chunk_size batch_size)
  make_batch_frames_total fresh payload chunk_size batch_size stream_id hc hb eight small =
      let (frames, made, count, _) =
        batch_delivery fresh payload chunk_size batch_size stream_id hc hb eight small in
      (frames, made, count)

  -- The frames of a payload that is not empty and below 4 GiB, handed to a reassembler that does
  -- not know the stream, each exactly once, in any order and at any times, give nothing until the
  -- last one, which gives the payload; then the stream is forgotten.
  pub deliver-make_batch_frames :
      (fresh payload : Bytes) (chunk_size batch_size : ℕ) (stream_id : Option Bytes)
      (frames : List (BatchMetadata × QFrame)) (s : Reassembler) (order : List (ℕ × ℕ))
      → 0 < chunk_size
      → 0 < batch_size
      → length (or_fresh fresh stream_id) ≡ 8
      → length payload < 2 ^ 32
      → 0 < length payload
      → make_batch_frames encode double deadline_ms fresh payload chunk_size batch_size stream_id
        ≡ ok frames
      → get (or_fresh fresh stream_id) s.streams ≡ none
      → IsOrder (length (map subframes_of frames)) [] order
      → ((deliver (map subframes_of frames) s order).1 ≡ answers payload order)
        × (get (or_fresh fresh stream_id) (deliver (map subframes_of frames) s order).0.streams
            ≡ none)
  deliver-make_batch_frames fresh payload chunk_size batch_size stream_id frames s order hc hb eight
        small some_bytes made unknown o =
      let (frames', made', _, delivers) =
        batch_delivery fresh payload chunk_size batch_size stream_id hc hb eight small in
      let same : frames' ≡ frames = cc in
      subst (λ fs. Delivers (or_fresh fresh stream_id) payload (map subframes_of fs)) same
        (delivers some_bytes) s order unknown o
