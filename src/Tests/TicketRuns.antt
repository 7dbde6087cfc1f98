-- ===== src/Tests/TicketRuns.antt =====
-- A ticket is created, redeemed, and shown again.
use qdap_protocol.Base.{
  ◌≡◌, refl, true, false, [], ◌∷◌, ◌++◌, take, replicate, none, some, list_eq_instance,
}
use qdap_protocol.Base.Dict.{get, remove}
use qdap_protocol.Bytes.{Bytes, be_bytes, unpack_be_at, unpack_be, be_number, be_number_from}
use qdap_protocol.Tickets.{
  TicketCrypto, Tickets, SessionTicket, redeem_ticket, take_ticket, is_valid,
}
use qdap_protocol.Tickets.Redeem.{redeem_ticket_once}

-- A cipher that appends a tag, and a constant HMAC.
abbrev crypto : TicketCrypto
crypto = record {
  mac = λ bs. replicate 32 9;
  encrypt = λ nonce bs ad. bs ++ replicate 16 0;
  decrypt = λ nonce bs ad. some (take 32 bs);
}

abbrev ticket_id : Bytes
ticket_id = replicate 16 1

abbrev ticket : SessionTicket
ticket = record {
  ticket_id = ticket_id;
  session_key = replicate 32 5;
  device_id = 0x61 ∷ [];
  expiry = 900100;
  used = false;
}

abbrev tickets : Tickets
tickets = (ticket_id, ticket) ∷ []

abbrev wire : Bytes
unfolding be_bytes
wire =
    (ticket_id ++ (be_bytes 8 900100 ++ (replicate 12 2 ++ (replicate 32 5 ++ replicate 16 0))))
    ++ replicate 32 9

wire_redeemed : (redeem_ticket crypto wire 200 201 tickets).1 ≡ some (record ticket { used = true })
unfolding redeem_ticket take_ticket is_valid get remove unpack_be_at unpack_be be_number
    be_number_from be_bytes wire
wire_redeemed = refl

redeem_ticket_once_example :
    redeem_ticket crypto wire 300 301 ((redeem_ticket crypto wire 200 201 tickets).0)
    ≡ ((redeem_ticket crypto wire 200 201 tickets).0, none)
redeem_ticket_once_example =
    redeem_ticket_once crypto wire wire 200 201 300 301 tickets (record ticket { used = true })
      wire_redeemed refl
