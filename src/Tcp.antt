-- ===== src/Tcp.antt =====
-- src/qdap/transport/tcp/adapter.py and backpressure.py: frames over a TCP connection, with a header
-- of their own, and the slots that bound the frames in flight. SHA3-256 is a parameter.
pub mod Reading
pub mod Transfer
pub mod Slots
pub mod Starved
pub mod Pool
use qdap_protocol.Base.{
  ℕ, zero, suc, ◌+◌, ◌-◌, ◌≤◌, Bool, true, false, not, ◌||◌, List, [], ◌∷◌, ◌++◌, length, take,
  drop, slice, Option, none, some, Result, ok, err, ◌>>=◌, ◌>>◌, guard, Error, ltb, leb, ◌==◌,
  if◌then◌else◌, list_eq,
}
use qdap_protocol.Bytes.{Bytes, be_bytes, pack_be, unpack_be_at}
use qdap_protocol.Frame.{QFrame, qdap_version, serialize, deserialize}

-- QDAP_MAGIC
abbrev pub qdap_magic : Bytes
qdap_magic = 0x51 ∷ 0x44 ∷ 0x41 ∷ 0x50 ∷ []

abbrev pub transport_header_size : ℕ
transport_header_size = 10

-- asyncio.Semaphore(high) as its count of free slots, and _current.
pub record Backpressure : Type 0 where
  pub free : ℕ
  pub high : ℕ
  pub current : ℕ

unfoldable pub new_backpressure : ℕ → Backpressure
new_backpressure high = record { free = high; high = high; current = 0 }

-- `none`: the caller waits.
unfoldable pub acquire_slot : Backpressure → Option Backpressure
acquire_slot b =
    if b.free == 0 then none else some (record b { free = b.free - 1; current = suc b.current })

-- max(0, current - 1)
unfoldable pub release_slot : Backpressure → Backpressure
release_slot b = record b { free = suc b.free; current = b.current - 1 }

pub record TcpStats : Type 0 where
  pub frames_sent : ℕ
  pub frames_received : ℕ
  pub bytes_sent : ℕ
  pub bytes_received : ℕ
  pub connection_resets : ℕ

-- `connected`: there is a writer that is not closing.
pub record TcpAdapter : Type 0 where
  pub stats : TcpStats
  pub bp : Backpressure
  pub connected : Bool
  pub healthy : Bool

-- What the writer does with the bytes: it drains, or the connection is reset or its pipe broken.
pub data Writing : Type 0 where
  drains resets : Writing

abbrev pub count_sent : TcpStats → ℕ → TcpStats
count_sent s n = record s { frames_sent = suc s.frames_sent; bytes_sent = s.bytes_sent + n }

abbrev pub count_received : TcpStats → ℕ → TcpStats
count_received s n = record s {
  frames_received = suc s.frames_received;
  bytes_received = s.bytes_received + n;
}

-- The bytes that arrive on a connection, in the pieces in which they arrive, until it is closed.
abbrev pub Reader : Type 0
Reader = List Bytes

-- reader.read(n): what has arrived, `n` bytes at most; nothing when the connection is closed.
unfoldable pub read : ℕ → Reader → Bytes × Reader
read n [] = ([], [])
read n ([] ∷ pieces) = read n pieces
read n ((b ∷ bs) ∷ pieces) =
    if leb (length (b ∷ bs)) n
    then (b ∷ bs, pieces)
    else (take n (b ∷ bs), drop n (b ∷ bs) ∷ pieces)

-- An empty chunk ends the loop.
abbrev pub after_chunk : Bytes → Result (Bytes × Reader) → Result (Bytes × Reader)
after_chunk [] more = err Error.connection_error
after_chunk (b ∷ bs) more = more

-- The loop, at most `fuel` rounds: each one reads a byte at least.
unfoldable pub read_loop : ℕ → ℕ → Bytes → Reader → Result (Bytes × Reader)
read_loop zero n buf reader = if ltb (length buf) n then err Error.out_of_fuel else ok (buf, reader)
read_loop (suc fuel) n buf reader =
    let (chunk, rest) = read (n - length buf) reader in
    let more = read_loop fuel n (buf ++ chunk) rest in
    if ltb (length buf) n then after_chunk chunk more else ok (buf, reader)

unfoldable pub recv_exactly : ℕ → Reader → Result (Bytes × Reader)
recv_exactly n reader = read_loop n n [] reader

module _ (sha3_256 : Bytes → Bytes) where
  -- The header and the frame.
  unfoldable pub frame_payload : QFrame → Result Bytes
  frame_payload frame = do
    body ← serialize sha3_256 frame
    size ← pack_be 4 (length body)
    ok ((qdap_magic ++ (be_bytes 2 qdap_version ++ size)) ++ body)

  -- The bytes written, or the exception, with the adapter after it.
  abbrev pub write_payload : TcpAdapter → Writing → Bytes → TcpAdapter × Result Bytes
  write_payload a drains payload =
      (record a { stats = count_sent a.stats (length payload); bp = release_slot a.bp }, ok payload)
  write_payload a resets payload = (
    record a {
      stats = record (a.stats) { connection_resets = suc a.stats.connection_resets };
      bp = release_slot a.bp;
      healthy = false;
    },
    err Error.connection_error,
  )

  abbrev pub send_packed : TcpAdapter → Writing → Result Bytes → TcpAdapter × Result Bytes
  send_packed a writing (err e) = (a, err e)
  send_packed a writing (ok payload) = write_payload a writing payload

  abbrev pub send_on :
      TcpAdapter → Option Backpressure → Writing → Result Bytes → Option (TcpAdapter × Result Bytes)
  send_on a none writing payload = none
  send_on a (some bp) writing payload = some (send_packed (record a { bp = bp }) writing payload)

  -- `none`: the sender waits for a slot.
  unfoldable pub send_frame : TcpAdapter → QFrame → Writing → Option (TcpAdapter × Result Bytes)
  send_frame a frame writing =
      if not a.connected
      then some (a, err Error.connection_error)
      else send_on a (acquire_slot a.bp) writing (frame_payload frame)

  unfoldable pub recv_frame : TcpAdapter → Reader → Result (QFrame × TcpAdapter × Reader)
  recv_frame a reader = do
    (header, rest) ← recv_exactly transport_header_size reader
    version ← unpack_be_at 2 4 header
    size ← unpack_be_at 4 6 header
    guard (list_eq (slice 0 4 header) qdap_magic) Error.protocol_error
    guard (version == qdap_version) Error.protocol_error
    (body, rest) ← recv_exactly size rest
    frame ← deserialize sha3_256 body
    ok (frame, record a { stats = count_received a.stats (transport_header_size + size) }, rest)

  -- A frame goes to `on_frame`, and the next one is read; a closed connection ends the loop.
  abbrev pub after_frame :
      QFrame
      → List QFrame × TcpAdapter × Result (Unit {0})
      → List QFrame × TcpAdapter × Result (Unit {0})
  after_frame frame (frames, a, result) = (frame ∷ frames, a, result)

  abbrev pub end_client : TcpAdapter → Error → List QFrame × TcpAdapter × Result (Unit {0})
  end_client a Error.connection_error = ([], a, ok tt)
  end_client a e = ([], a, err e)

  -- The frames given to `on_frame`, at most `fuel` of them, and the exception that ends the loop.
  unfoldable pub handle_client :
      ℕ → TcpAdapter → Reader → List QFrame × TcpAdapter × Result (Unit {0})
  handle_client zero a reader = ([], a, err Error.out_of_fuel)
  handle_client (suc fuel) a reader = elim (recv_frame a reader) [
    | err e ↦ end_client a e
    | ok (frame, a', rest) ↦ after_frame frame (handle_client fuel a' rest)
  ]
