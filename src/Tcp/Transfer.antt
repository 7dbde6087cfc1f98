-- ===== src/Tcp/Transfer.antt =====
-- Frames sent by src/qdap/transport/tcp/adapter.py and received by it, in whatever pieces the bytes
-- arrive.
use qdap_protocol.Base.{
  ℕ, zero, suc, ◌+◌, ◌^◌, ◌<◌, ◌≡◌, refl, sym, ap, ◌∙◌, false, List, [], ◌∷◌, ◌++◌, append_assoc,
  append-nil, map, length, take, drop, join, length-append, take-append, drop-append, ok, err,
  Error, ltb, ltb→lt, Bool-cases, inl, inr, arith,
}
use qdap_protocol.Bytes.{Bytes, All, be_bytes, pack_be, unpack_be_at}
use qdap_protocol.Bytes.Laws.{length-be_bytes, pack_be_ok, unpack_be_at-be_bytes}
use qdap_protocol.Frame.{QFrame, qdap_version, serialize, deserialize}
use qdap_protocol.Frame.Layout.{IsValidFrame, wire_frame}
use qdap_protocol.Frame.RoundTrip.{deserialize-serialize}
use qdap_protocol.Tcp.{
  TcpAdapter, Reader, qdap_magic, transport_header_size, count_received, recv_exactly, recv_frame,
  frame_payload, handle_client, after_frame,
}
use qdap_protocol.Tcp.Reading.{Reads, recv_exactly-Promise}

abbrev header_of : ℕ → Bytes
header_of n = qdap_magic ++ (be_bytes 2 qdap_version ++ be_bytes 4 n)

length-header_of : (n : ℕ) → length (header_of n) ≡ 10
length-header_of n =
    length-append qdap_magic (be_bytes 2 qdap_version ++ be_bytes 4 n)
    ∙ omega (
      arith,
      length-append (be_bytes 2 qdap_version) (be_bytes 4 n),
      length-be_bytes 2 qdap_version,
      length-be_bytes 4 n,
    )

header_version : (n : ℕ) → unpack_be_at 2 4 (header_of n) ≡ ok qdap_version
header_version n =
    unpack_be_at-be_bytes 2 4 qdap_version qdap_magic (be_bytes 4 n) refl (omega arith)

header_size_of : (n : ℕ) → n < 256 ^ 4 → unpack_be_at 4 6 (header_of n) ≡ ok n
header_size_of n h =
    ap (λ t. unpack_be_at 4 6 (qdap_magic ++ (be_bytes 2 qdap_version ++ t)))
      (sym (append-nil (be_bytes 4 n)))
    ∙ ap (unpack_be_at 4 6)
        (sym (append_assoc qdap_magic (be_bytes 2 qdap_version) (be_bytes 4 n ++ [])))
    ∙ unpack_be_at-be_bytes 4 6 n (qdap_magic ++ be_bytes 2 qdap_version) []
        (length-append qdap_magic (be_bytes 2 qdap_version)
          ∙ omega (arith, length-be_bytes 2 qdap_version))
        h

-- The next bytes of a connection, at a seam of the stream.
reads_seam :
    (n : ℕ) (front rest : Bytes) (reader : Reader)
    → join reader ≡ front ++ rest
    → length front ≡ n
    → (after : Reader) × (recv_exactly n reader ≡ ok (front, after)) × (join after ≡ rest)
reads_seam n front rest reader stream size =
    let read : Reads n (join reader) (recv_exactly n reader) =
      (recv_exactly-Promise n reader).0
        (omega (arith, ap length stream, length-append front rest)) in
    (
      read.0,
      read.1 ∙ ap (λ t. ok (t, read.0)) (ap (take n) stream ∙ take-append n front rest size),
      read.2 ∙ ap (drop n) stream ∙ drop-append n front rest size,
    )

module _ (sha3_256 : Bytes → Bytes) where
  recv_parts :
      (a : TcpAdapter) (n : ℕ) (body : Bytes) (frame : QFrame) (reader r1 r2 : Reader)
      → n < 256 ^ 4
      → recv_exactly transport_header_size reader ≡ ok (header_of n, r1)
      → recv_exactly n r1 ≡ ok (body, r2)
      → deserialize sha3_256 body ≡ ok frame
      → recv_frame sha3_256 a reader
        ≡ ok (frame, record a { stats = count_received a.stats (transport_header_size + n) }, r2)
  unfolding recv_frame
  recv_parts a n body frame reader r1 r2 small e1 e2 e3 =
      rw (e1, header_version n, header_size_of n small, e2, e3) refl

  -- What a frame's payload consists of.
  pub record IsPayload (f : QFrame) (payload body : Bytes) : Type 0 where
    pub shape : payload ≡ header_of (length body) ++ body
    pub fits : length body < 256 ^ 4
    pub reads_back : deserialize sha3_256 body ≡ ok (wire_frame f)

  too_long :
      (f : QFrame) (body : Bytes)
      → serialize sha3_256 f ≡ ok body
      → ltb (length body) (256 ^ 4) ≡ false
      → frame_payload sha3_256 f ≡ err Error.struct_error
  unfolding frame_payload pack_be
  too_long f body e h = rw (e, h) refl

  short_enough :
      (f : QFrame) (body : Bytes)
      → serialize sha3_256 f ≡ ok body
      → length body < 256 ^ 4
      → frame_payload sha3_256 f ≡ ok (header_of (length body) ++ body)
  unfolding frame_payload
  short_enough f body e h = rw (e, pack_be_ok 4 (length body) h) refl

  frame_payload-IsPayload :
      (sha3_length : (b : Bytes) → length (sha3_256 b) ≡ 32) (f : QFrame) (payload : Bytes)
      → IsValidFrame f
      → frame_payload sha3_256 f ≡ ok payload
      → (body : Bytes) × IsPayload f payload body
  frame_payload-IsPayload sha3_length f payload v sent =
      let (body, written, back) = deserialize-serialize sha3_256 sha3_length f [] v in
      elim (Bool-cases (ltb (length body) (256 ^ 4))) [
        | inl h ↦
            let small : length body < 256 ^ 4 = ltb→lt (length body) (256 ^ 4) h in
            (
              body,
              record {
                shape = cc (short_enough f body written small, sent);
                fits = small;
                reads_back = sym (ap (deserialize sha3_256) (append-nil body)) ∙ back;
              },
            )
        | inr h ↦ absurd (cc (too_long f body written h, sent))
      ]

  -- The adapter after a frame of that payload.
  abbrev pub after_payload : TcpAdapter → Bytes → TcpAdapter
  after_payload a payload = record a { stats = count_received a.stats (length payload) }

  pub recv_frame-frame_payload :
      (sha3_length : (b : Bytes) → length (sha3_256 b) ≡ 32) (a : TcpAdapter) (f : QFrame)
      (payload rest : Bytes) (reader : Reader)
      → IsValidFrame f
      → frame_payload sha3_256 f ≡ ok payload
      → join reader ≡ payload ++ rest
      → (after : Reader) × (recv_frame sha3_256 a reader
          ≡ ok (wire_frame f, after_payload a payload, after))
        × (join after ≡ rest)
  recv_frame-frame_payload sha3_length a f payload rest reader v sent stream =
      let (body, made) = frame_payload-IsPayload sha3_length f payload v sent in
      let whole : join reader ≡ header_of (length body) ++ (body ++ rest) =
        stream
        ∙ ap (λ t. t ++ rest) made.shape
        ∙ append_assoc (header_of (length body)) body rest in
      let (r1, e1, s1) =
        reads_seam 10 (header_of (length body)) (body ++ rest) reader whole
          (length-header_of (length body)) in
      let (r2, e2, s2) = reads_seam (length body) body rest r1 s1 refl in
      let count : transport_header_size + length body ≡ length payload = omega (
        arith,
        ap length made.shape,
        length-append (header_of (length body)) body,
        length-header_of (length body),
      ) in
      (
        r2,
        recv_parts a (length body) body (wire_frame f) reader r1 r2 made.fits e1 e2 made.reads_back
            ∙ ap (λ (n : ℕ). ok (wire_frame f, record a { stats = count_received a.stats n }, r2))
                count,
        s2,
      )

  -- The payloads of some frames, in their order.
  abbrev pub SentAs : List QFrame → List Bytes → Type 0
  SentAs [] [] = Unit
  SentAs [] (p ∷ ps) = ⊥
  SentAs (f ∷ fs) [] = ⊥
  SentAs (f ∷ fs) (p ∷ ps) = (frame_payload sha3_256 f ≡ ok p) × SentAs fs ps

  abbrev pub after_payloads : TcpAdapter → List Bytes → TcpAdapter
  after_payloads a [] = a
  after_payloads a (p ∷ ps) = after_payloads (after_payload a p) ps

  closed_recv :
      (a : TcpAdapter) (reader : Reader)
      → join reader ≡ []
      → recv_frame sha3_256 a reader ≡ err Error.connection_error
  unfolding recv_frame
  closed_recv a reader h = rw ((recv_exactly-Promise 10 reader).1 (omega (arith, ap length h))) refl

  closed_client :
      (fuel : ℕ) (a : TcpAdapter) (reader : Reader)
      → join reader ≡ []
      → handle_client sha3_256 (suc fuel) a reader ≡ ([], a, ok tt)
  unfolding handle_client
  closed_client fuel a reader h = rw (handle_client, closed_recv a reader h) refl

  one_more :
      (fuel : ℕ) (a a' : TcpAdapter) (f : QFrame) (reader rest : Reader)
      → recv_frame sha3_256 a reader ≡ ok (f, a', rest)
      → handle_client sha3_256 (suc fuel) a reader
        ≡ after_frame sha3_256 f (handle_client sha3_256 fuel a' rest)
  unfolding handle_client
  one_more fuel a a' f reader rest e = rw (handle_client, e) refl

  -- Valid frames, each sent as its payload on one connection that is then closed: in whatever pieces
  -- the bytes arrive, the client's loop gives `on_frame` as many frames, in their order, each with every
  -- field that the wire carries as it was sent, and with the deadlines and sessions of its subframes,
  -- which the wire does not carry, at their defaults. It counts each frame and the bytes of its
  -- payload, and ends without an exception, given one round of the loop more than there are frames.
  -- The hash is any function with 32 bytes of output.
  pub handle_client-SentAs :
      (sha3_length : (b : Bytes) → length (sha3_256 b) ≡ 32) (fuel : ℕ) (a : TcpAdapter)
      (frames : List QFrame) (payloads : List Bytes) (reader : Reader)
      → All IsValidFrame frames
      → SentAs frames payloads
      → join reader ≡ join payloads
      → length frames < fuel
      → handle_client sha3_256 fuel a reader
        ≡ (map wire_frame frames, after_payloads a payloads, ok tt)
  handle_client-SentAs sha3_length zero a frames payloads reader v sent stream fueled =
      absurd (omega arith)
  handle_client-SentAs sha3_length (suc fuel) a [] [] reader v sent stream fueled =
      closed_client fuel a reader stream
  handle_client-SentAs sha3_length (suc fuel) a [] (p ∷ ps) reader v sent stream fueled =
      elim sent [ ]
  handle_client-SentAs sha3_length (suc fuel) a (f ∷ fs) [] reader v sent stream fueled =
      elim sent [ ]
  handle_client-SentAs sha3_length (suc fuel) a (f ∷ fs) (p ∷ ps) reader v sent stream fueled =
      let (rest, got, left) =
        recv_frame-frame_payload sha3_length a f p (join ps) reader v.0 sent.0 stream in
      one_more fuel a (after_payload a p) (wire_frame f) reader rest got
      ∙ ap (after_frame sha3_256 (wire_frame f)) (
          handle_client-SentAs sha3_length fuel (after_payload a p) fs ps rest v.1 sent.1 left
            (omega arith))
