-- ===== src/Tcp/Slots.antt =====
-- The slots of src/qdap/transport/tcp/backpressure.py, and what send_frame of adapter.py does with
-- them on each of its branches.
use qdap_protocol.Base.{
  suc, ◌-◌, ◌<◌, ◌≡◌, refl, sym, ap, ◌∙◌, true, false, not, none, some, Result, ok, err, Error,
  ◌==◌, if◌then◌else◌, arith,
}
use qdap_protocol.Bytes.{Bytes}
use qdap_protocol.Frame.{QFrame}
use qdap_protocol.Tcp.{
  Backpressure, TcpAdapter, Writing, drains, resets, acquire_slot, release_slot, frame_payload,
  send_packed, send_on, send_frame,
}

abbrev pub taken : Backpressure → Backpressure
taken b = record b { free = b.free - 1; current = suc b.current }

acquire_slot-taken : (b : Backpressure) → 0 < b.free → acquire_slot b ≡ some (taken b)
unfolding acquire_slot
acquire_slot-taken b free = let test : (b.free == 0) ≡ false = ground arith in rw test refl

pub acquire_slot_full : (b : Backpressure) → b.free ≡ 0 → acquire_slot b ≡ none
unfolding acquire_slot
acquire_slot_full b h = let test : (b.free == 0) ≡ true = ground arith in rw test refl

-- A taken slot, released.
pub release_slot-taken : (b : Backpressure) → 0 < b.free → release_slot (taken b) ≡ b
unfolding release_slot
release_slot-taken b free =
    let one : suc (b.free - 1) ≡ b.free = omega arith in
    let same : suc b.current - 1 ≡ b.current = omega arith in
    λ i. record { free = one i; high = b.high; current = same i }

module _ (sha3_256 : Bytes → Bytes) where
  send_frame-taken :
      (a : TcpAdapter) (f : QFrame) (writing : Writing) (made : Result Bytes)
      → a.connected ≡ true
      → 0 < a.bp.free
      → frame_payload sha3_256 f ≡ made
      → send_frame sha3_256 a f writing
        ≡ some (send_packed sha3_256 (record a { bp = taken a.bp }) writing made)
  unfolding send_frame
  send_frame-taken a f writing made on free e =
      ap
        (λ t.
          if not t
          then some (a, err Error.connection_error)
          else send_on sha3_256 a (acquire_slot a.bp) writing (frame_payload sha3_256 f))
        on
      ∙ ap (λ t. send_on sha3_256 a t writing (frame_payload sha3_256 f))
          (acquire_slot-taken a.bp free)
      ∙ ap (send_on sha3_256 a (some (taken a.bp)) writing) e

  pub send_frame_waits :
      (a : TcpAdapter) (f : QFrame) (writing : Writing)
      → a.connected ≡ true
      → a.bp.free ≡ 0
      → send_frame sha3_256 a f writing ≡ none
  unfolding send_frame
  send_frame_waits a f writing on full =
      ap
        (λ t.
          if not t
          then some (a, err Error.connection_error)
          else send_on sha3_256 a (acquire_slot a.bp) writing (frame_payload sha3_256 f))
        on
      ∙ ap (λ t. send_on sha3_256 a t writing (frame_payload sha3_256 f))
          (acquire_slot_full a.bp full)

  -- The slots after a send, for each way it may end.
  abbrev pub slots_after : TcpAdapter → Result Bytes → Backpressure
  slots_after a (ok payload) = a.bp
  slots_after a (err e) = taken a.bp

  -- On a connection with a free slot a send does not wait. When the frame has a payload, the slot is
  -- given back, whether the writer drains or is reset; when making the payload raises an exception,
  -- the slot stays taken.
  pub send_frame_slots :
      (a : TcpAdapter) (f : QFrame) (writing : Writing)
      → a.connected ≡ true
      → 0 < a.bp.free
      → (a' : TcpAdapter) × (r : Result Bytes) × (send_frame sha3_256 a f writing ≡ some (a', r))
        × (a'.bp ≡ slots_after a (frame_payload sha3_256 f))
  send_frame_slots a f writing on free = by (frame_payload sha3_256 f) refl writing
    where
      by :
          (made : Result Bytes)
          → frame_payload sha3_256 f ≡ made
          → (writing : Writing)
          → (a' : TcpAdapter) × (r : Result Bytes) × (send_frame sha3_256 a f writing
              ≡ some (a', r))
            × (a'.bp ≡ slots_after a (frame_payload sha3_256 f))
      by (err x) e w = (
        record a { bp = taken a.bp },
        err x,
        send_frame-taken a f w (err x) on free e,
        ap (slots_after a) (sym e),
      )
      by (ok payload) e drains = (
        (send_packed sha3_256 (record a { bp = taken a.bp }) drains (ok payload)).0,
        ok payload,
        send_frame-taken a f drains (ok payload) on free e,
        release_slot-taken a.bp free ∙ ap (slots_after a) (sym e),
      )
      by (ok payload) e resets = (
        (send_packed sha3_256 (record a { bp = taken a.bp }) resets (ok payload)).0,
        err Error.connection_error,
        send_frame-taken a f resets (ok payload) on free e,
        release_slot-taken a.bp free ∙ ap (slots_after a) (sym e),
      )
