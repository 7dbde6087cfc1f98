-- ===== src/Tickets/Redeem.antt =====
-- Redeeming tickets of src/qdap/security/session_ticket.py.
use qdap_protocol.Base.{
  ℕ, ◌-◌, ◌≡◌, refl, sym, ap, ◌∙◌, ◌⊎◌, inl, inr, Bool, true, false, length, take, slice, Option,
  none, some, Result, ok, err, ltb, if◌then◌else◌, list_eq_instance, beq_refl,
}
use qdap_protocol.Base.Dict.{get, remove}
use qdap_protocol.Base.Dict.Laws.{get-remove}
use qdap_protocol.Bytes.{Bytes, unpack_be_at}
use qdap_protocol.Tickets.{
  SessionTicket, Tickets, TicketCrypto, is_valid, ticket_id_size, take_ticket, redeem_ticket,
}

-- What handing a ticket out does, by what the store has for the identifier.
abbrev handed_out : Bytes → SessionTicket → Tickets → Bool → Tickets × Option SessionTicket
handed_out id t tickets valid = if valid then (remove id tickets, some t) else (tickets, none)

take_ticket-none :
    (c : TicketCrypto) (id key : Bytes) (now : ℕ) (tickets : Tickets)
    → get id tickets ≡ none
    → take_ticket c id key now tickets ≡ (tickets, none)
unfolding take_ticket
take_ticket-none c id key now tickets eq = rw (take_ticket, eq)

take_ticket-some :
    (c : TicketCrypto) (id key : Bytes) (now : ℕ) (tickets : Tickets) (u : SessionTicket)
    → get id tickets ≡ some u
    → take_ticket c id key now tickets
      ≡ handed_out id (record u { used = true; session_key = key }) tickets (is_valid now u)
unfolding take_ticket
take_ticket-some c id key now tickets u eq = rw (take_ticket, eq)

handed_out_once :
    (id : Bytes) (u t : SessionTicket) (tickets : Tickets) (valid : Bool)
    → (handed_out id u tickets valid).1 ≡ some t
    → get id ((handed_out id u tickets valid).0) ≡ none
handed_out_once id u t tickets true h = rw (get-remove id id tickets, beq_refl id)
handed_out_once id u t tickets false h = absurd (cc)

take_ticket_once :
    (c : TicketCrypto) (id key : Bytes) (now : ℕ) (tickets : Tickets) (t : SessionTicket)
    → (take_ticket c id key now tickets).1 ≡ some t
    → get id ((take_ticket c id key now tickets).0) ≡ none
take_ticket_once c id key now tickets t h = by_found (get id tickets) refl
  where
    by_found :
        (found : Option SessionTicket)
        → get id tickets ≡ found
        → get id ((take_ticket c id key now tickets).0) ≡ none
    by_found none eq = rw (take_ticket-none c id key now tickets eq) eq
    by_found (some u) eq =
        let e : take_ticket c id key now tickets
            ≡ handed_out id (record u { used = true; session_key = key }) tickets (is_valid now u) =
          take_ticket-some c id key now tickets u eq in
        ap (λ r. get id (r.0)) e
        ∙ handed_out_once id (record u { used = true; session_key = key }) t tickets
            (is_valid now u) (sym (ap (λ r. r.1) e) ∙ h)

-- Redeeming either changes nothing and gives nothing, or hands out a ticket of its identifier.
module _ (c : TicketCrypto) (wire : Bytes) (later : ℕ) (tickets : Tickets) where
  abbrev Reached : Tickets × Option SessionTicket → Type 0
  Reached out =
      (out ≡ (tickets, none))
      ⊎ ((key : Bytes) × (out ≡ take_ticket c (take ticket_id_size wire) key later tickets))

  refused_or :
      (refused : Bool) (out : Tickets × Option SessionTicket)
      → Reached out
      → Reached (if refused then (tickets, none) else out)
  refused_or true out r = inl refl
  refused_or false out r = r

  pub redeem_ticket_cases : (now : ℕ) → Reached (redeem_ticket c wire now later tickets)
  unfolding redeem_ticket
  redeem_ticket_cases now =
      refused_or _ _ (refused_or _ _ (by_expiry (unpack_be_at 8 ticket_id_size wire)))
    where
      by_key :
          (found : Option Bytes)
          → Reached (elim found [
            | none ↦ (tickets, none)
            | some session_key ↦ take_ticket c (take ticket_id_size wire) session_key later tickets
          ])
      by_key none = inl refl
      by_key (some key) = inr (key, refl)

      by_expiry :
          (read : Result ℕ)
          → Reached (elim read [
            | err e ↦ (tickets, none)
            | ok expiry ↦
                if ltb expiry now
                then (tickets, none)
                else elim (c.decrypt
                    (slice 24 36 wire)
                    (slice 36 (length wire - 32) wire)
                    (take ticket_id_size wire)) [
                      | none ↦ (tickets, none)
                      | some session_key ↦
                          take_ticket c (take ticket_id_size wire) session_key later tickets
                    ]
          ])
      by_expiry (err e) = inl refl
      by_expiry (ok expiry) = refused_or _ _ (by_key _)

-- A ticket is redeemed at most once: after a wire has been redeemed, no wire with its identifier is
-- redeemed, at any later time and whatever else it carries.
pub redeem_ticket_once :
    (c : TicketCrypto) (wire wire' : Bytes) (now later now' later' : ℕ) (tickets : Tickets)
    (t : SessionTicket)
    → (redeem_ticket c wire now later tickets).1 ≡ some t
    → take ticket_id_size wire' ≡ take ticket_id_size wire
    → redeem_ticket c wire' now' later' ((redeem_ticket c wire now later tickets).0)
      ≡ ((redeem_ticket c wire now later tickets).0, none)
redeem_ticket_once c wire wire' now later now' later' tickets t h same =
    again (redeem_ticket_cases c wire' later' ((redeem_ticket c wire now later tickets).0) now')
  where
    rest : Tickets
    rest = (redeem_ticket c wire now later tickets).0

    gone :
        Reached c wire later tickets (redeem_ticket c wire now later tickets)
        → get (take ticket_id_size wire) rest ≡ none
    gone (inl p) = absurd (none-some (sym (ap (λ r. r.1) p) ∙ h))
      where
        none-some : none ≡ some t → ⊥
        none-some p = cc
    gone (inr (key, p)) =
        ap (λ r. get (take ticket_id_size wire) (r.0)) p
        ∙ take_ticket_once c (take ticket_id_size wire) key later tickets t
            (sym (ap (λ r. r.1) p) ∙ h)

    absent : get (take ticket_id_size wire') rest ≡ none
    absent = ap (λ id. get id rest) same ∙ gone (redeem_ticket_cases c wire later tickets now)

    again :
        Reached c wire' later' rest (redeem_ticket c wire' now' later' rest)
        → redeem_ticket c wire' now' later' rest ≡ (rest, none)
    again (inl p) = p
    again (inr (key, p)) = p ∙ take_ticket-none c (take ticket_id_size wire') key later' rest absent
