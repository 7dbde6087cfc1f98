-- ===== src/Tickets.antt =====
-- src/qdap/security/session_ticket.py: session tickets for resumption, each of a single use. The
-- random bytes, HMAC-SHA256 and AES-256-GCM come from outside: they are parameters. Times are in
-- milliseconds.
pub mod Redeem
use qdap_protocol.Base.{
  ℕ, ◌+◌, ◌-◌, Bool, true, false, not, ◌&&◌, ◌||◌, List, [], ◌∷◌, ◌++◌, length, take, drop, slice,
  Option, none, some, Result, ok, err, ◌>>=◌, ltb, ◌==◌, if◌then◌else◌, Eq, list_eq,
  list_eq_instance,
}
use qdap_protocol.Base.Dict.{Dict, get, put, remove}
use qdap_protocol.Bytes.{Bytes, pack_be, unpack_be_at}
use qdap_protocol.Broker.Utf8.{Text}

abbrev pub ticket_ttl_ms : ℕ
ticket_ttl_ms = 900000

abbrev pub ticket_id_size : ℕ
ticket_id_size = 16

abbrev pub nonce_size : ℕ
nonce_size = 12

pub record SessionTicket : Type 0 where
  pub ticket_id : Bytes
  pub session_key : Bytes
  pub device_id : Text
  pub expiry : ℕ
  pub used : Bool

unfoldable pub is_valid : ℕ → SessionTicket → Bool
is_valid now t = not t.used && ltb now t.expiry

abbrev pub mark_used : SessionTicket → SessionTicket
mark_used t = record t { used = true }

abbrev pub Tickets : Type 0
Tickets = Dict Bytes SessionTicket

-- The HMAC of a payload and AES-GCM with the master key: encrypt nonce data associated_data.
pub record TicketCrypto : Type 0 where
  pub mac : Bytes → Bytes
  pub encrypt : Bytes → Bytes → Bytes → Bytes
  pub decrypt : Bytes → Bytes → Bytes → Option Bytes

module _ (c : TicketCrypto) where
  -- The bytes that the HMAC covers.
  unfoldable pub ticket_payload : Bytes → ℕ → Bytes → Bytes → Result Bytes
  ticket_payload ticket_id expiry nonce session_key = do
    expiry_bytes ← pack_be 8 expiry
    ok (ticket_id ++ (expiry_bytes ++ (nonce ++ c.encrypt nonce session_key ticket_id)))

  -- The store keeps the ticket also when the packing raises.
  unfoldable pub create_ticket :
      Text → Bytes → (ticket_id nonce : Bytes) → (now : ℕ) → Tickets → Tickets × Result Bytes
  create_ticket device_id session_key ticket_id nonce now tickets = (
    put ticket_id
        (record {
          ticket_id = ticket_id;
          session_key = session_key;
          device_id = device_id;
          expiry = now + ticket_ttl_ms;
          used = false;
        })
        tickets,
    (do
      payload ← ticket_payload ticket_id (now + ticket_ttl_ms) nonce session_key
      ok (payload ++ c.mac payload)),
  )

  -- The step under the lock: the ticket is handed out once, and forgotten.
  unfoldable pub take_ticket : Bytes → Bytes → ℕ → Tickets → Tickets × Option SessionTicket
  take_ticket ticket_id session_key now tickets = elim (get ticket_id tickets) [
    | none ↦ (tickets, none)
    | some ticket ↦
        if is_valid now ticket
        then (
          remove ticket_id tickets,
          some (record (mark_used ticket) { session_key = session_key }),
        )
        else (tickets, none)
  ]

  -- A slice that ends 32 bytes before the end. The wire has 100 bytes at least, so that reading the
  -- expiry raises nothing. Two clocks are read: `now` before the lock, `later` under it.
  unfoldable pub redeem_ticket : Bytes → (now later : ℕ) → Tickets → Tickets × Option SessionTicket
  redeem_ticket wire now later tickets =
      let payload = take (length wire - 32) wire in
      if ltb (length wire) (ticket_id_size + 8 + nonce_size + 32 + 32)
      then (tickets, none)
      else if not (list_eq (drop (length wire - 32) wire) (c.mac payload))
      then (tickets, none)
      else elim (unpack_be_at 8 ticket_id_size wire) [
        | err e ↦ (tickets, none)
        | ok expiry ↦
            if ltb expiry now
            then (tickets, none)
            else elim (c.decrypt (slice 24 36 wire) (slice 36 (length wire - 32) wire)
                (take ticket_id_size wire)) [
                  | none ↦ (tickets, none)
                  | some session_key ↦
                      take_ticket (take ticket_id_size wire) session_key later tickets
                ]
      ]

unfoldable pub drop_all : List Bytes → Tickets → Tickets
drop_all [] tickets = tickets
drop_all (k ∷ ks) tickets = drop_all ks (remove k tickets)

unfoldable pub expired : ℕ → Tickets → List Bytes
expired now [] = []
expired now ((k, t) ∷ tickets) =
    let rest = expired now tickets in if is_valid now t then rest else k ∷ rest

unfoldable pub evict_expired : ℕ → Tickets → Tickets × ℕ
evict_expired now tickets = (drop_all (expired now tickets) tickets, length (expired now tickets))
