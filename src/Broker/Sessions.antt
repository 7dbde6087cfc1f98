-- ===== src/Broker/Sessions.antt =====
-- src/qdap/broker/session_store.py: sessions by client id, and their packet identifiers.
pub mod Laws
use qdap_protocol.Base.{
  ℕ, ◌+◌, ◌%◌, Bool, true, false, ◌||◌, not, [], Option, none, some, if◌then◌else◌, Eq,
}
use qdap_protocol.Base.Dict.{Dict, get, put, remove, contains}

-- A writer W is a stream of asyncio. pending_qos1 is never written, so it is left out.
pub record Session (W : Type 0) : Type 0 where
  pub clean_session : Bool
  pub writer : Option W
  pub next_packet_id : ℕ

-- The identifier handed out, and the session after it.
unfoldable pub get_packet_id : {W : Type 0} → Session W → ℕ × Session W
get_packet_id s = (s.next_packet_id, record s { next_packet_id = s.next_packet_id % 65535 + 1 })

abbrev pub new_session : {W : Type 0} → Bool → W → Session W
new_session clean_session writer = record {
  clean_session = clean_session;
  writer = some writer;
  next_packet_id = 1;
}

module _ {K W : Type 0} ⦃e : Eq K⦄ where
  -- The session returned is the one stored, an object that the store shares.
  unfoldable pub create : K → Bool → W → Dict K (Session W) → Dict K (Session W)
  create client_id clean_session writer sessions =
      if clean_session
      then put client_id (new_session clean_session writer) sessions
      else elim (get client_id sessions) [
        | none ↦ put client_id (new_session clean_session writer) sessions
        | some session ↦ put client_id (record session { writer = some writer }) sessions
      ]

  unfoldable pub remove_session : K → Dict K (Session W) → Dict K (Session W)
  remove_session client_id sessions = elim (get client_id sessions) [
    | none ↦ sessions
    | some session ↦
        if session.clean_session
        then remove client_id sessions
        else put client_id (record session { writer = none }) sessions
  ]

  unfoldable pub get_writer : K → Dict K (Session W) → Option W
  get_writer client_id sessions = elim (get client_id sessions) [
    | none ↦ none
    | some session ↦ session.writer
  ]
