-- ===== src/Broker/Sessions/Laws.antt =====
-- Packet identifiers in cycles, and what becomes of a session of src/qdap/broker/session_store.py.
use mathlib.Core.Path.{subst}
use qdap_protocol.Base.{
  ℕ, zero, suc, ◌+◌, ◌-◌, ◌%◌, ◌≤◌, ◌<◌, ◌≡◌, ◌↔◌, refl, ◌∙◌, Bool, true, false, Option, none, some,
  if◌then◌else◌, Eq, arith,
}
use qdap_protocol.Base.Dict.{Dict, get, put, remove}
use qdap_protocol.Base.Dict.Laws.{get-put, get-remove}
use qdap_protocol.Broker.Sessions.{Session, get_packet_id, remove_session}

-- The identifier handed out after n others.
abbrev pub nth_packet_id : {W : Type 0} → ℕ → Session W → ℕ
nth_packet_id zero s = (get_packet_id s).0
nth_packet_id (suc n) s = nth_packet_id n ((get_packet_id s).1)

nth_packet_id_eq :
    {W : Type 0} (n : ℕ) (s : Session W)
    → 1 ≤ s.next_packet_id
    → s.next_packet_id ≤ 65535
    → nth_packet_id n s ≡ (s.next_packet_id - 1 + n) % 65535 + 1
unfolding get_packet_id
nth_packet_id_eq zero s h k = omega arith
nth_packet_id_eq (suc n) s h k =
    nth_packet_id_eq n ((get_packet_id s).1) (omega arith) (omega arith) ∙ omega arith

-- From an identifier of 1 to 65535 on, a session hands out, again and again, all identifiers of 16
-- bits but 0 in turn: each one is at least 1 and at most 65535, every one of these comes among any
-- 65535 in a row, and two of the run are the same exactly when a multiple of 65535 lies between them.
pub nth_packet_id_cycle :
    {W : Type 0} (m d i : ℕ) (s : Session W)
    → 1 ≤ s.next_packet_id
    → s.next_packet_id ≤ 65535
    → 1 ≤ i
    → i ≤ 65535
    → (1 ≤ nth_packet_id m s)
      × (nth_packet_id m s ≤ 65535)
      × ((n : ℕ) × (m ≤ n) × (n < m + 65535) × (nth_packet_id n s ≡ i))
      × ((nth_packet_id m s ≡ nth_packet_id (m + d) s) ↔ (d % 65535 ≡ 0))
nth_packet_id_cycle m d i s h k p q =
    let at_m = nth_packet_id_eq m s h k in
    let at_d = nth_packet_id_eq (m + d) s h k in
    let n : ℕ = m + (i + 65535 - nth_packet_id m s) % 65535 in
    (
      omega (arith, at_m),
      omega (arith, at_m),
      (n, omega arith, omega arith, omega (arith, at_m, nth_packet_id_eq n s h k)),
      (λ same. omega (arith, at_m, at_d, same), λ multiple. omega (arith, at_m, at_d, multiple)),
    )

-- A session after its client has gone: a clean one is forgotten, another one loses its writer.
abbrev pub after_leaving : {W : Type 0} → Option (Session W) → Option (Session W)
after_leaving none = none
after_leaving (some s) = if s.clean_session then none else some (record s { writer = none })

module _ {K W : Type 0} ⦃e : Eq K⦄ where
  remove_session-none :
      (c : K) (sessions : Dict K (Session W))
      → get c sessions ≡ none
      → remove_session c sessions ≡ sessions
  unfolding remove_session
  remove_session-none c sessions eq = rw (remove_session, eq)

  remove_session-some :
      (c : K) (sessions : Dict K (Session W)) (s : Session W)
      → get c sessions ≡ some s
      → remove_session c sessions ≡ (
          if s.clean_session
          then remove c sessions
          else put c (record s { writer = none }) sessions)
  unfolding remove_session
  remove_session-some c sessions s eq = rw (remove_session, eq)

  -- Removing a session changes that of the client alone: a clean session is forgotten, another one
  -- stays without its writer, its next identifier and its kind as they were.
  pub get-remove_session :
      (c k : K) (sessions : Dict K (Session W))
      → get k (remove_session c sessions)
        ≡ (if e.beq c k then after_leaving (get c sessions) else get k sessions)
  get-remove_session c k sessions = by_found (get c sessions) refl
    where
      by_kind :
          (s : Session W) (clean : Bool)
          → get k (if clean then remove c sessions else put c (record s { writer = none }) sessions)
            ≡ (if e.beq c k
                then (if clean then none else some (record s { writer = none }))
                else get k sessions)
      by_kind s true = get-remove c k sessions
      by_kind s false = get-put c k (record s { writer = none }) sessions

      none_case :
          get c sessions ≡ none → get k sessions ≡ (if e.beq c k then none else get k sessions)
      none_case eq = by_key (e.beq c k) refl
        where
          by_key :
              (b : Bool) → e.beq c k ≡ b → get k sessions ≡ (if b then none else get k sessions)
          by_key true p = subst (λ j. get j sessions ≡ none) ((e.beq_iff c k).0 p) eq
          by_key false p = refl

      by_found :
          (found : Option (Session W))
          → get c sessions ≡ found
          → get k (remove_session c sessions)
            ≡ (if e.beq c k then after_leaving (get c sessions) else get k sessions)
      by_found none eq = rw (remove_session-none c sessions eq, eq) (none_case eq)
      by_found (some s) eq =
          rw (remove_session-some c sessions s eq, eq) (by_kind s s.clean_session)
