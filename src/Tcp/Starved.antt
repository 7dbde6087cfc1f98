-- ===== src/Tcp/Starved.antt =====
-- The senders of one adapter of src/qdap/transport/tcp/adapter.py that interleave, and the slots that
-- send_frame loses when a frame cannot be packed.
use qdap_protocol.Base.{
  ℕ, suc, ◌+◌, ◌≤◌, ◌≡◌, refl, ap, true, List, [], ◌∷◌, ◌++◌, length, length-append, none, some, ok,
  err, Error, arith,
}
use qdap_protocol.Bytes.{Bytes}
use qdap_protocol.Frame.{QFrame}
use qdap_protocol.Tcp.{
  Backpressure, TcpAdapter, Writing, drains, resets, new_backpressure, acquire_slot, release_slot,
  frame_payload, write_payload, send_packed, send_frame,
}
use qdap_protocol.Tcp.Slots.{acquire_slot_full, send_frame_waits}

-- An adapter, the payloads of the sends that hold a slot while they write, and the number of sends
-- that have raised an exception between taking a slot and writing.
pub record Sending : Type 0 where
  pub adapter : TcpAdapter
  pub in_flight : List Bytes
  pub raised : ℕ

abbrev pub no_sends : TcpAdapter → Sending
no_sends a = record { adapter = a; in_flight = []; raised = 0 }

module _ (sha3_256 : Bytes → Bytes) where
  -- send_frame from one wait to the next: a sender, which tested the connection before it waited, gets
  -- a slot and packs its frame, or raises the exception of the packing; a sender ends its writing,
  -- which drains or is reset. Connecting, closing and receiving leave the slots alone.
  pub data SendStep : Sending → Sending → Type 0 where
    begins :
        (s : Sending) (f : QFrame) (payload : Bytes) (bp : Backpressure)
        → acquire_slot s.adapter.bp ≡ some bp
        → frame_payload sha3_256 f ≡ ok payload
        → SendStep s (record s {
          adapter = record (s.adapter) { bp = bp };
          in_flight = payload ∷ s.in_flight;
        })
    raises :
        (s : Sending) (f : QFrame) (e : Error) (bp : Backpressure)
        → acquire_slot s.adapter.bp ≡ some bp
        → frame_payload sha3_256 f ≡ err e
        → SendStep s (record s {
          adapter = (send_packed sha3_256 (record (s.adapter) { bp = bp }) drains (err e)).0;
          raised = suc s.raised;
        })
    ends :
        (s : Sending) (front back : List Bytes) (payload : Bytes) (w : Writing)
        → s.in_flight ≡ front ++ (payload ∷ back)
        → SendStep s (record s {
          adapter = (write_payload sha3_256 s.adapter w payload).0;
          in_flight = front ++ back;
        })
    others :
        (s : Sending) (a : TcpAdapter) → a.bp ≡ s.adapter.bp → SendStep s (record s { adapter = a })

  pub data SendsReach (s : Sending) : Sending → Type 0 where
    here : SendsReach s s
    later : {t u : Sending} → SendsReach s t → SendStep t u → SendsReach s u

  -- Each slot is free, held by a send that writes, or lost with one that has raised.
  abbrev IsCounted : ℕ → Sending → Type 0
  IsCounted high s = s.adapter.bp.free + length s.in_flight + s.raised ≡ high

  slots_of_write :
      (a : TcpAdapter) (w : Writing) (payload : Bytes)
      → (write_payload sha3_256 a w payload).0.bp ≡ release_slot a.bp
  slots_of_write a drains payload = refl
  slots_of_write a resets payload = refl

  SendStep-IsCounted :
      (high : ℕ) {s t : Sending} → SendStep s t → IsCounted high s → IsCounted high t
  unfolding acquire_slot release_slot
  SendStep-IsCounted high (begins s f payload bp taken made) v = ground arith
  SendStep-IsCounted high (raises s f e bp taken made) v = ground arith
  SendStep-IsCounted high (ends s front back payload w held) v = omega (
    arith,
    v,
    ap (λ (b : Backpressure). b.free) (slots_of_write s.adapter w payload),
    ap length held,
    length-append {0} front (payload ∷ back),
    length-append {0} front back,
  )
  SendStep-IsCounted high (others s a same) v =
      omega (arith, v, ap (λ (b : Backpressure). b.free) same)

  SendsReach-IsCounted :
      (high : ℕ) {s t : Sending} → SendsReach s t → IsCounted high s → IsCounted high t
  SendsReach-IsCounted high here v = v
  SendsReach-IsCounted high (later r st) v =
      SendStep-IsCounted high st (SendsReach-IsCounted high r v)

  SendStep-le : {s t : Sending} → SendStep s t → s.raised ≤ t.raised
  SendStep-le (begins s f payload bp taken made) = omega arith
  SendStep-le (raises s f e bp taken made) = omega arith
  SendStep-le (ends s front back payload w held) = omega arith
  SendStep-le (others s a same) = omega arith

  SendsReach-le : {s t : Sending} → SendsReach s t → s.raised ≤ t.raised
  SendsReach-le here = omega arith
  SendsReach-le (later r st) = omega (arith, SendsReach-le r, SendStep-le st)

  -- An adapter begins with `high` free slots. When, of the sends that interleave on it, `high` have
  -- raised an exception while they packed their frame, then in every state from there on, after
  -- whatever further calls and also on a new connection, no slot is to be had and a send on an open
  -- connection waits.
  pub send_frame_starved :
      (high : ℕ) (a : TcpAdapter) (s s' : Sending) (f : QFrame) (w : Writing)
      → a.bp ≡ new_backpressure high
      → SendsReach (no_sends a) s
      → s.raised ≡ high
      → SendsReach s s'
      → s'.adapter.connected ≡ true
      → (acquire_slot s'.adapter.bp ≡ none) × (send_frame sha3_256 s'.adapter f w ≡ none)
  unfolding new_backpressure
  send_frame_starved high a s s' f w fresh before lost after on =
      let begun : IsCounted high (no_sends a) =
        omega (arith, ap (λ (b : Backpressure). b.free) fresh) in
      let counted = SendsReach-IsCounted high after (SendsReach-IsCounted high before begun) in
      let none_free : s'.adapter.bp.free ≡ 0 = omega (arith, counted, SendsReach-le after, lost) in
      (
        acquire_slot_full s'.adapter.bp none_free,
        send_frame_waits sha3_256 s'.adapter f w on none_free,
      )
