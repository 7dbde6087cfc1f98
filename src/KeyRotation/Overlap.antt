-- ===== src/KeyRotation/Overlap.antt =====
-- While a rotation of src/qdap/security/key_rotation.py is pending, the old encryptor stays in use,
-- in whatever order the calls of concurrent senders come.
use mathlib.Core.Path.{subst}
use qdap_protocol.Base.{
  ℕ, suc, ◌+◌, ◌-◌, ◌^◌, ◌≤◌, ◌<◌, ◌≡◌, refl, sym, Bool, true, false, [], ◌∷◌, ◌++◌, length,
  length-append, Option, none, some, Result, ok, err, >>=-eq-ok, guard, or_raise, Error, ltb, ◌==◌,
  if◌then◌else◌, Bool-cases, inl, inr, arith,
}
use qdap_protocol.Bytes.{Bytes}
use qdap_protocol.Encryption.{FrameEncryptor, new_encryptor_for}
use qdap_protocol.KeyRotation.{
  Crypto, SessionKeys, RotationState, KeyManager, first_manager, new_manager, increment_msg_count,
  should_rotate, begin_rotation, rotate_if, maybe_rotate, set_pending, finish_rotation,
  derive_session_keys, apply_state, apply_pending_rotation, decryptor_state,
  get_decryptor_for_rotation,
}

-- A pending rotation keeps the encryptor and the keys in use as the old ones; its number has been
-- announced, and its encryptor is another one, that was made.
pub record IsPending (m : KeyManager) (p : RotationState) : Type 0 where
  pub old : p.old_encryptor ≡ some m.current_encryptor
  pub old_keys : p.old_keys ≡ some m.current_keys
  pub since : p.activated_at_msg ≤ m.msg_count
  pub announced : p.rotation_id ≤ m.rotation_id
  pub made : p.new_encryptor < length m.encryptors

abbrev pub Pends : KeyManager → Option RotationState → Type 0
Pends m none = Unit
Pends m (some p) = IsPending m p

pub record Inv (m : KeyManager) : Type 0 where
  pub pends : Pends m m.pending
  pub made : m.current_encryptor < length m.encryptors

module _ (c : Crypto) where
  -- The calls of the manager, a rotation in the two parts that its wait for the peer cuts it into.
  pub data RotationStep : KeyManager → KeyManager → Type 0 where
    counts : (m : KeyManager) → RotationStep m (increment_msg_count m)
    starts :
        (m : KeyManager) (private : Bytes) (now : ℕ)
        → RotationStep m (maybe_rotate c m private now).0
    finishes :
        (m m' : KeyManager) (private peer_key salt : Bytes) (now now_ms : ℕ)
        → finish_rotation c m private peer_key salt now now_ms ≡ ok m'
        → RotationStep m m'
    applies : (m : KeyManager) → RotationStep m (apply_pending_rotation m).0

  pub data RotationReach (m : KeyManager) : KeyManager → Type 0 where
    start : RotationReach m m
    next : {n k : KeyManager} → RotationReach m n → RotationStep n k → RotationReach m k

  count-Pends :
      (m : KeyManager) (p : Option RotationState)
      → Pends m p
      → Pends (record m { msg_count = suc m.msg_count }) p
  count-Pends m none v = tt
  count-Pends m (some p) v = record {
    old = v.old;
    old_keys = v.old_keys;
    since = omega (arith, v.since);
    announced = v.announced;
    made = v.made;
  }

  begin-Pends :
      (m : KeyManager) (private : Bytes) (p : Option RotationState)
      → Pends m p
      → Pends (begin_rotation c m private).0 p
  unfolding begin_rotation
  begin-Pends m private none v = tt
  begin-Pends m private (some p) v = elim (Bool-cases (ltb (suc m.rotation_id) (256 ^ 4))) [
    | inl e ↦ rw e (record {
      old = v.old;
      old_keys = v.old_keys;
      since = v.since;
      announced = omega (arith, v.announced);
      made = v.made;
    })
    | inr e ↦ rw e (record {
      old = v.old;
      old_keys = v.old_keys;
      since = v.since;
      announced = omega (arith, v.announced);
      made = v.made;
    })
  ]

  begin-Inv : (m : KeyManager) (private : Bytes) → Inv m → Inv (begin_rotation c m private).0
  unfolding begin_rotation
  begin-Inv m private v =
      let kept = begin-Pends m private m.pending v.pends in
      elim (Bool-cases (ltb (suc m.rotation_id) (256 ^ 4))) [
        | inl e ↦ rw e (record { pends = rw e at kept; made = v.made })
        | inr e ↦ rw e (record { pends = rw e at kept; made = v.made })
      ]

  rotate_if-Inv :
      (m : KeyManager) (private : Bytes) (due : Result Bool)
      → Inv m
      → Inv (rotate_if c m private due).0
  rotate_if-Inv m private (err e) v = v
  rotate_if-Inv m private (ok false) v = v
  rotate_if-Inv m private (ok true) v = begin-Inv m private v

  set_pending-Inv :
      (m : KeyManager) (keys : SessionKeys) (now : ℕ) (e : FrameEncryptor)
      → Inv m
      → Inv (set_pending c m keys now e)
  set_pending-Inv m keys now e v =
      let grown : length (m.encryptors ++ (e ∷ [])) ≡ length m.encryptors + 1 =
        length-append m.encryptors (e ∷ []) in
      record {
        pends = record {
          old = refl;
          old_keys = refl;
          since = omega arith;
          announced = omega arith;
          made = omega (arith, grown);
        };
        made = omega (arith, grown, v.made);
      }

  -- A rotation that is finished has set what is pending.
  pub finish_rotation-set_pending :
      (m m' : KeyManager) (private peer_key salt : Bytes) (now now_ms : ℕ)
      → finish_rotation c m private peer_key salt now now_ms ≡ ok m'
      → (shared : Bytes) × (e : FrameEncryptor) × (c.exchange private peer_key ≡ some shared)
        × (m' ≡ set_pending c m (derive_session_keys c shared salt) now e)
  unfolding finish_rotation
  finish_rotation-set_pending m m' private peer_key salt now now_ms done =
      let (sized, g, rest) = >>=-eq-ok (guard (length peer_key == 32) Error.value_error) _ done in
      let (shared, found, rest') =
        >>=-eq-ok (or_raise Error.value_error (c.exchange private peer_key)) _ rest in
      let (e, made, last) =
        >>=-eq-ok (new_encryptor_for (derive_session_keys c shared salt).data_key now_ms) _ rest' in
      (shared, e, raised (c.exchange private peer_key) shared found, cc last)
    where
      raised :
          (o : Option Bytes) (shared : Bytes)
          → or_raise Error.value_error o ≡ ok shared
          → o ≡ some shared
      raised none shared h = absurd (cc)
      raised (some a) shared h = cc

  apply_state-Inv :
      (m : KeyManager) (p : Option RotationState)
      → m.pending ≡ p
      → Pends m p
      → m.current_encryptor < length m.encryptors
      → Inv (apply_state m p).0
  apply_state-Inv m none e v made = record { pends = subst (Pends m) (sym e) v; made = made }
  apply_state-Inv m (some p) e v made =
      elim (Bool-cases (ltb (m.msg_count - p.activated_at_msg) 50)) [
        | inl h ↦ rw h (record { pends = subst (Pends m) (sym e) v; made = made })
        | inr h ↦ rw h (record { pends = tt; made = v.made })
      ]

  RotationStep-Inv : {m m' : KeyManager} → RotationStep m m' → Inv m → Inv m'
  unfolding increment_msg_count maybe_rotate apply_pending_rotation
  RotationStep-Inv (counts m) v = record { pends = count-Pends m m.pending v.pends; made = v.made }
  RotationStep-Inv (starts m private now) v = rotate_if-Inv m private (should_rotate m now) v
  RotationStep-Inv (finishes m m' private peer_key salt now now_ms e) v =
      let (shared, encryptor, found, same) =
        finish_rotation-set_pending m m' private peer_key salt now now_ms e in
      subst Inv (sym same) (set_pending-Inv m (derive_session_keys c shared salt) now encryptor v)
  RotationStep-Inv (applies m) v = apply_state-Inv m m.pending refl v.pends v.made

  RotationReach-Inv : {m m' : KeyManager} → RotationReach m m' → Inv m → Inv m'
  RotationReach-Inv start v = v
  RotationReach-Inv (next r st) v = RotationStep-Inv st (RotationReach-Inv r v)

  -- The encryptor that an identifier stands for: that of the pending rotation for its identifier, and
  -- for every other one the encryptor in use.
  abbrev pub decryptor_for : KeyManager → ℕ → Option RotationState → ℕ
  decryptor_for m id none = m.current_encryptor
  decryptor_for m id (some p) = if id == p.rotation_id then p.new_encryptor else m.current_encryptor

  decryptor_state-eq_some :
      (m : KeyManager) (id : ℕ) (p : Option RotationState)
      → Pends m p
      → m.current_encryptor < length m.encryptors
      → (decryptor_state m id p ≡ some (decryptor_for m id p))
        × (decryptor_for m id p < length m.encryptors)
  decryptor_state-eq_some m id none v made = (refl, made)
  decryptor_state-eq_some m id (some p) v made = elim (Bool-cases (id == p.rotation_id)) [
    | inl e ↦ rw e (refl, v.made)
    | inr e ↦ rw e (ground (arith, v.old), made)
  ]

  -- From a manager that satisfies the invariant, such as a new one, and after any calls of its senders
  -- in any order, a rotation being cut in two by its wait for the peer: every rotation identifier has
  -- a decryptor that was made, the new one for the pending rotation, and the one in use for any
  -- other, the one before the pending rotation among them.
  pub get_decryptor_for_rotation-eq_some :
      {m m' : KeyManager} (id : ℕ)
      → RotationReach m m'
      → Inv m
      → (get_decryptor_for_rotation m' id ≡ some (decryptor_for m' id m'.pending))
        × (decryptor_for m' id m'.pending < length m'.encryptors)
  unfolding get_decryptor_for_rotation
  get_decryptor_for_rotation-eq_some {m' = m'} id reach v =
      let v' : Inv m' = RotationReach-Inv reach v in
      decryptor_state-eq_some m' id m'.pending v'.pends v'.made

pub new_manager-Inv :
    (keys : SessionKeys) (msg_interval time_interval now now_ms : ℕ) (m : KeyManager)
    → new_manager keys msg_interval time_interval now now_ms ≡ ok m
    → Inv m
unfolding new_manager
new_manager-Inv keys msg_interval time_interval now now_ms m h =
    let (e, made, same) = >>=-eq-ok (new_encryptor_for keys.data_key now_ms) _ h in
    let whole : first_manager keys msg_interval time_interval now e ≡ m = cc same in
    subst Inv whole (record { pends = tt; made = omega arith })
