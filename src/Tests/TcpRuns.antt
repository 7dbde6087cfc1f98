-- ===== src/Tests/TcpRuns.antt =====
-- Frames over a connection whose bytes arrive in odd pieces, and a connection without slots.
use mathlib.Core.Path.{subst}
use qdap_protocol.Base.{
  ◌≡◌, refl, true, false, [], ◌∷◌, ◌++◌, none, some, ok, err, Error, arith, take, drop, join,
}
use qdap_protocol.Bytes.{Bytes, be_bytes, le_bytes, pack_be}
use qdap_protocol.Frame.{
  QFrame, serialize, serialize_subframe, serialize_subframes, float_bytes, pack_header,
}
use qdap_protocol.Frame.Layout.{wire_frame}
use qdap_protocol.Tcp.{
  TcpAdapter, Reader, drains, frame_payload, handle_client, send_frame, acquire_slot,
  new_backpressure,
}
use qdap_protocol.Tcp.Transfer.{handle_client-SentAs, after_payloads}
use qdap_protocol.Tcp.Starved.{
  Sending, no_sends, SendsReach, here, later, raises, others, send_frame_starved,
}
use qdap_protocol.Tcp.Pool.{ConnectionPool, new_pool, initialize, initialize_from, acquire, release}
use qdap_protocol.Tcp.Pool.Calls.{Inv}
use qdap_protocol.Tcp.Pool.Ownership.{
  PoolReach-Inv, initialize-Inv, start, next, acquires, releases,
}
use qdap_protocol.Tests.Hash.{toy_hash, length-toy_hash}
use qdap_protocol.Tests.FrameRuns.{one_frame, one_frame_front, one_frame-IsValidFrame}

abbrev adapter : TcpAdapter
adapter = record {
  stats = record {
    frames_sent = 0;
    frames_received = 0;
    bytes_sent = 0;
    bytes_received = 0;
    connection_resets = 0;
  };
  bp = record { free = 1; high = 1; current = 0 };
  connected = true;
  healthy = true;
}

abbrev payload : Bytes
payload =
    0x51
    ∷ 0x44
    ∷ 0x41
    ∷ 0x50
    ∷ 0
    ∷ 1
    ∷ 0
    ∷ 0
    ∷ 0
    ∷ 62
    ∷ (one_frame_front ++ toy_hash one_frame_front)

payload_made : frame_payload toy_hash one_frame ≡ ok payload
unfolding frame_payload serialize pack_header serialize_subframes serialize_subframe float_bytes
    pack_be be_bytes le_bytes toy_hash
payload_made = refl

-- Two frames in three pieces, one of them empty, the cut inside the second header.
abbrev pieces : Reader
pieces = (payload ++ take 3 payload) ∷ [] ∷ drop 3 payload ∷ []

pieces_joined : join pieces ≡ join (payload ∷ payload ∷ [])
unfolding toy_hash
pieces_joined = refl

handle_client-SentAs_example : handle_client toy_hash 3 adapter pieces ≡ (
  wire_frame one_frame ∷ wire_frame one_frame ∷ [],
  after_payloads toy_hash adapter (payload ∷ payload ∷ []),
  ok tt,
)
handle_client-SentAs_example =
    handle_client-SentAs toy_hash length-toy_hash 3 adapter (one_frame ∷ one_frame ∷ [])
      (payload ∷ payload ∷ []) pieces (one_frame-IsValidFrame, (one_frame-IsValidFrame, tt))
      (payload_made, (payload_made, tt)) pieces_joined (omega arith)

fresh : adapter.bp ≡ new_backpressure 1
unfolding new_backpressure
fresh = refl

-- A session id of more than 64 bits cannot be packed.
abbrev too_wide : QFrame
too_wide = record one_frame { session_id = 0x10000000000000000 }

no_payload : frame_payload toy_hash too_wide ≡ err Error.struct_error
unfolding frame_payload serialize pack_header pack_be be_bytes
no_payload = refl

-- The one slot is lost with a frame that cannot be packed.
abbrev lost : Sending
lost = record {
  adapter = record adapter { bp = record { free = 0; high = 1; current = 1 } };
  in_flight = [];
  raised = 1;
}

slot_lost : SendsReach toy_hash (no_sends adapter) lost
unfolding acquire_slot
slot_lost = later here (
    raises (no_sends adapter) too_wide Error.struct_error
      (record { free = 0; high = 1; current = 1 }) refl no_payload)

-- Then the connection is closed and made anew.
abbrev closed : TcpAdapter
closed = record (lost.adapter) { connected = false; healthy = false }

send_frame_starved_example :
    (acquire_slot lost.adapter.bp ≡ none)
    × (send_frame toy_hash lost.adapter one_frame drains ≡ none)
send_frame_starved_example =
    send_frame_starved toy_hash 1 adapter lost lost one_frame drains fresh slot_lost refl
      (later (later here (others lost closed refl))
        (others (record lost { adapter = closed }) lost.adapter refl))
      refl

-- A pool of one connection is used, and its connection is given back and replaced.
abbrev pool : ConnectionPool
pool = record {
  min_size = 1;
  max_size = 1;
  idle = 0 ∷ [];
  active = 0;
  next_connection = 1;
  closed = [];
}

initialized : initialize (new_pool 1 1) ≡ pool
unfolding new_pool initialize_from
initialized = refl

abbrev in_use : ConnectionPool
in_use = record pool { idle = []; active = 1 }

taken_once : acquire pool (λ c. true) true ≡ some (in_use, ok 0)
unfolding acquire
taken_once = refl

given_back : pool ≡ release in_use 0 true
unfolding release
given_back = refl

PoolReach-Inv_example : Inv pool []
PoolReach-Inv_example =
    PoolReach-Inv
      (next (next start (acquires (λ c. true) true 0 taken_once refl))
        (releases 0 true refl given_back refl))
      (subst (λ p. Inv p []) initialized (initialize-Inv 1 1))
