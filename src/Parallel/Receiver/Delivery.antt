-- ===== src/Parallel/Receiver/Delivery.antt =====
-- The chunks of one stream, handed to the receiver of src/qdap/transport/parallel_sender.py in any
-- order.
use qdap_protocol.Base.{
  ℕ, ◌+◌, ◌-◌, ◌≤◌, ◌<◌, ◌≡◌, refl, ap, true, false, List, [], ◌∷◌, length, get_elem?, join, elem,
  Option, none, some, Result, ok, ltb, le→ltb, ◌==◌, nat_eq, beq_refl, arith,
}
use qdap_protocol.Base.Dict.{get, put, remove}
use qdap_protocol.Base.Dict.Laws.{get-put_self, get-remove}
use qdap_protocol.Bytes.{Bytes}
use qdap_protocol.Chunking.Reassembler.{StreamBuffer, add_chunk, reassemble}
use qdap_protocol.Chunking.Reassembler.Buffer.{Holds, Holds-add_chunk, reassemble-join}
use qdap_protocol.Parallel.Receiver.{
  AssemblyBuffer, ParallelReceiver, is_assembled, assemble, buffer_or_new, on_chunk,
}

-- The buffer as one of the reassembler of frames, whose lemmas apply.
abbrev as_stream : AssemblyBuffer → StreamBuffer
as_stream b = record {
  stream_id = [];
  total_chunks = b.total_chunks;
  chunks = b.received;
  created_at = b.created_at;
}

abbrev with_chunk : ℕ → Bytes → AssemblyBuffer → AssemblyBuffer
with_chunk i piece b = record b { received = put i piece b.received }

module _ (pieces : List Bytes) where
  Holds-with_chunk :
      (seen : List ℕ) (b : AssemblyBuffer) (i : ℕ) (piece : Bytes)
      → Holds pieces seen (as_stream b)
      → elem i seen ≡ false
      → get_elem? pieces i ≡ some piece
      → Holds pieces (i ∷ seen) (as_stream (with_chunk i piece b))
  unfolding add_chunk
  Holds-with_chunk seen b i piece h fresh found = Holds-add_chunk i piece h fresh found

  assemble-join :
      (seen : List ℕ) (b : AssemblyBuffer)
      → Holds pieces seen (as_stream b)
      → length seen ≡ length pieces
      → ((j : ℕ) → j < length pieces → elem j seen ≡ true)
      → assemble b ≡ ok (join pieces)
  unfolding assemble reassemble
  assemble-join seen b h full every =
      let whole : (length b.received == b.total_chunks) ≡ true = ground (arith, h.size, h.total) in
      rw whole (reassemble-join pieces seen (as_stream b) h every)

-- The arrivals (time, number, chunk) name each piece that is not in `seen` exactly once, between
-- `start` and the timeout after it.
abbrev pub Arrives : List Bytes → ℕ → ℕ → List ℕ → List (ℕ × ℕ × Bytes) → Type 0
Arrives pieces start timeout seen [] =
    (length seen ≡ length pieces) × ((j : ℕ) → j < length pieces → elem j seen ≡ true)
Arrives pieces start timeout seen ((t, i, piece) ∷ rest) =
    (elem i seen ≡ false)
    × (get_elem? pieces i ≡ some piece)
    × (start ≤ t)
    × (t ≤ start + timeout)
    × Arrives pieces start timeout (i ∷ seen) rest

length-Arrives :
    (pieces : List Bytes) (start timeout : ℕ) (seen : List ℕ) (arrivals : List (ℕ × ℕ × Bytes))
    → Arrives pieces start timeout seen arrivals
    → length seen + length arrivals ≡ length pieces
length-Arrives pieces start timeout seen [] h = omega (arith, h.0)
length-Arrives pieces start timeout seen ((t, i, piece) ∷ rest) h =
    omega (arith, length-Arrives pieces start timeout (i ∷ seen) rest h.4)

unfoldable pub receive_chunks :
    ParallelReceiver
    → ℕ
    → ℕ
    → List (ℕ × ℕ × Bytes)
    → ParallelReceiver × List (Result (Option Bytes))
receive_chunks s sid total [] = (s, [])
receive_chunks s sid total ((t, i, piece) ∷ rest) =
    let (s', answer) = on_chunk s sid i total piece t in
    let (s'', answers') = receive_chunks s' sid total rest in (s'', answer ∷ answers')

-- Nothing until the last chunk, then the payload.
abbrev pub answers : Bytes → List (ℕ × ℕ × Bytes) → List (Result (Option Bytes))
answers payload [] = []
answers payload (x ∷ []) = ok (some payload) ∷ []
answers payload (x ∷ y ∷ rest) = ok none ∷ answers payload (y ∷ rest)

module _ (sid : ℕ) (pieces : List Bytes) (start : ℕ) where
  abbrev buffer_at : ParallelReceiver → ℕ → AssemblyBuffer
  buffer_at s now = buffer_or_new sid (length pieces) now (get sid s.buffers)

  -- The stream has come in so far as `seen`.
  record HasSeen (seen : List ℕ) (s : ParallelReceiver) : Type 0 where
    holds : (now : ℕ) → Holds pieces seen (as_stream (buffer_at s now))
    young : (now : ℕ) → start ≤ now → start ≤ (buffer_at s now).created_at

  abbrev after_chunk : ParallelReceiver → ℕ → Bytes → ℕ → ParallelReceiver
  after_chunk s i piece now = record s {
    buffers = put sid (with_chunk i piece (buffer_at s now)) s.buffers;
  }

  module _ (s : ParallelReceiver) (seen : List ℕ) (i now : ℕ) (piece : Bytes) (h : HasSeen seen s)
      (fresh : elem i seen ≡ false) (found : get_elem? pieces i ≡ some piece) (late : start ≤ now)
      (soon : now ≤ start + s.timeout) where
    Holds-next : Holds pieces (i ∷ seen) (as_stream (with_chunk i piece (buffer_at s now)))
    Holds-next = Holds-with_chunk pieces seen (buffer_at s now) i piece (h.holds now) fresh found

    in_time : ltb s.timeout (now - (buffer_at s now).created_at) ≡ false
    in_time =
        le→ltb s.timeout (now - (buffer_at s now).created_at) (omega (arith, h.young now late))

    on_chunk_middle :
        length seen + 1 < length pieces
        → on_chunk s sid i (length pieces) piece now ≡ (after_chunk s i piece now, ok none)
    unfolding on_chunk
    on_chunk_middle p =
        let h' = Holds-next in
        let partial : is_assembled (with_chunk i piece (buffer_at s now)) ≡ false =
          ground (arith, h'.size, h'.total) in
        rw (in_time, partial) refl

    HasSeen-next : HasSeen (i ∷ seen) (after_chunk s i piece now)
    HasSeen-next =
        let stored : get sid (after_chunk s i piece now).buffers
            ≡ some (with_chunk i piece (buffer_at s now)) =
          get-put_self sid (with_chunk i piece (buffer_at s now)) s.buffers in
        record { holds = λ t. rw stored Holds-next; young = λ t le. rw stored (h.young now late) }

    on_chunk_last :
        length seen + 1 ≡ length pieces
        → ((j : ℕ) → j < length pieces → elem j (i ∷ seen) ≡ true)
        → on_chunk s sid i (length pieces) piece now ≡ (
          record s { buffers = remove sid (after_chunk s i piece now).buffers },
          ok (some (join pieces)),
        )
    unfolding on_chunk
    on_chunk_last p every =
        let h' = Holds-next in
        let whole : is_assembled (with_chunk i piece (buffer_at s now)) ≡ true =
          ground (arith, h'.size, h'.total) in
        let payload : assemble (with_chunk i piece (buffer_at s now)) ≡ ok (join pieces) =
          assemble-join pieces (i ∷ seen) (with_chunk i piece (buffer_at s now)) h' (omega arith)
            every in
        rw (in_time, whole, payload) refl

  new-HasSeen : (s : ParallelReceiver) → get sid s.buffers ≡ none → HasSeen [] s
  unfolding get
  new-HasSeen s h = record {
    holds = λ now. rw h (record { total = refl; size = refl; items = λ j. refl });
    young = λ now le. rw h le;
  }

  after_rest :
      (s s' : ParallelReceiver) (t i : ℕ) (piece : Bytes) (answer : Result (Option Bytes))
      (rest : List (ℕ × ℕ × Bytes))
      → on_chunk s sid i (length pieces) piece t ≡ (s', answer)
      → receive_chunks s sid (length pieces) ((t, i, piece) ∷ rest) ≡ (
        (receive_chunks s' sid (length pieces) rest).0,
        answer ∷ (receive_chunks s' sid (length pieces) rest).1,
      )
  unfolding receive_chunks
  after_rest s s' t i piece answer rest h =
      ap
        (λ (r : ParallelReceiver × Result (Option Bytes)). (
          (receive_chunks r.0 sid (length pieces) rest).0,
          r.1 ∷ (receive_chunks r.0 sid (length pieces) rest).1,
        ))
        h

  nothing_left : (s : ParallelReceiver) → receive_chunks s sid (length pieces) [] ≡ (s, [])
  unfolding receive_chunks
  nothing_left s = refl

  -- What a run gives: the answers, and the stream is forgotten.
  abbrev pub Delivered :
      ParallelReceiver × List (Result (Option Bytes)) → List (ℕ × ℕ × Bytes) → Type 0
  Delivered result arrivals =
      (result.1 ≡ answers (join pieces) arrivals) × (get sid result.0.buffers ≡ none)

  receive_from :
      (s : ParallelReceiver) (seen : List ℕ) (t i : ℕ) (piece : Bytes) (rest : List (ℕ × ℕ × Bytes))
      → HasSeen seen s
      → Arrives pieces start s.timeout seen ((t, i, piece) ∷ rest)
      → Delivered
          (receive_chunks s sid (length pieces) ((t, i, piece) ∷ rest))
          ((t, i, piece) ∷ rest)
  receive_from s seen t i piece [] h (fresh, found, late, soon, (full, every)) =
      let last =
        on_chunk_last s seen i t piece h fresh found late soon (omega (arith, full)) every in
      rw (after_rest s _ t i piece _ [] last, nothing_left _)
        (refl, rw (get-remove sid sid (after_chunk s i piece t).buffers, beq_refl sid) refl)
  receive_from s seen t i piece ((t', i', piece') ∷ rest) h (fresh, found, late, soon, more) =
      let count = length-Arrives pieces start s.timeout (i ∷ seen) ((t', i', piece') ∷ rest) more in
      let middle =
        on_chunk_middle s seen i t piece h fresh found late soon (omega (arith, count)) in
      let (ih, forgets) =
        receive_from (after_chunk s i piece t) (i ∷ seen) t' i' piece' rest
          (HasSeen-next s seen i t piece h fresh found late soon) more in
      rw (after_rest s _ t i piece _ ((t', i', piece') ∷ rest) middle)
        (ap (◌∷◌ (ok none)) ih, forgets)

  -- The chunks of a payload that has one at least, each received exactly once, in any order, by a
  -- receiver that does not know the stream, and all within the timeout after a moment before them:
  -- nothing is given back until the last one, which gives the payload, and nothing is raised; after
  -- it the stream is forgotten.
  pub receive_chunks-answers :
      (s : ParallelReceiver) (arrivals : List (ℕ × ℕ × Bytes))
      → get sid s.buffers ≡ none
      → 0 < length pieces
      → Arrives pieces start s.timeout [] arrivals
      → ((receive_chunks s sid (length pieces) arrivals).1 ≡ answers (join pieces) arrivals)
        × (get sid (receive_chunks s sid (length pieces) arrivals).0.buffers ≡ none)
  receive_chunks-answers s [] unknown some_piece (full, every) = absurd (omega arith)
  receive_chunks-answers s ((t, i, piece) ∷ rest) unknown some_piece v =
      receive_from s [] t i piece rest (new-HasSeen s unknown) v
