-- ===== src/KeyRotation.antt =====
-- src/qdap/security/key_rotation.py, with the key derivation of handshake.py. X25519 and HKDF are
-- parameters; the clock is read in whole nanoseconds, and the writer drains. An encryptor is an
-- object: it is named by its place in the list of those that were made.
pub mod Overlap
pub mod Windows
pub mod Races
use qdap_protocol.Base.{
  ℕ, zero, suc, ◌+◌, ◌-◌, ◌*◌, ◌%◌, ◌^◌, Bool, true, false, not, ◌&&◌, ◌||◌, List, [], ◌∷◌, ◌++◌,
  length, Option, none, some, Result, ok, err, ◌>>=◌, ◌>>◌, guard, or_raise, Error, ltb, leb, ◌==◌,
  if◌then◌else◌,
}
use qdap_protocol.Bytes.{Bytes, be_bytes}
use qdap_protocol.Encryption.{FrameEncryptor, new_encryptor_for}

-- The public key of a private key, the shared secret (none: ValueError), and HKDF-SHA256 with a
-- length, a salt, an info and a secret.
pub record Crypto : Type 0 where
  pub public_key : Bytes → Bytes
  pub exchange : Bytes → Bytes → Option Bytes
  pub hkdf : ℕ → Option Bytes → Bytes → Bytes → Bytes

-- KEY_OVERLAP_WINDOW
abbrev pub key_overlap_window : ℕ
key_overlap_window = 50

-- b"RKEY"
abbrev pub key_rotation_magic : Bytes
key_rotation_magic = 0x52 ∷ 0x4b ∷ 0x45 ∷ 0x59 ∷ []

-- The infos of HKDF, as ASCII codes.
abbrev pub info_data : Bytes
info_data =
    113 ∷ 100 ∷ 97 ∷ 112 ∷ 45 ∷ 118 ∷ 49 ∷ 45 ∷ 100 ∷ 97 ∷ 116 ∷ 97 ∷ 45 ∷ 107 ∷ 101 ∷ 121 ∷ []

abbrev pub info_hmac : Bytes
info_hmac =
    113 ∷ 100 ∷ 97 ∷ 112 ∷ 45 ∷ 118 ∷ 49 ∷ 45 ∷ 104 ∷ 109 ∷ 97 ∷ 99 ∷ 45 ∷ 107 ∷ 101 ∷ 121 ∷ []

abbrev pub info_session : Bytes
info_session =
    113 ∷ 100 ∷ 97 ∷ 112 ∷ 45 ∷ 118 ∷ 49 ∷ 45 ∷ 115 ∷ 101 ∷ 115 ∷ 115 ∷ 105 ∷ 111 ∷ 110 ∷ 45 ∷ 105
    ∷ 100 ∷ []

pub record SessionKeys : Type 0 where
  pub data_key : Bytes
  pub hmac_key : Bytes
  pub session_id : Bytes

-- `salt if salt else None`
abbrev pub salt_of : Bytes → Option Bytes
salt_of [] = none
salt_of (b ∷ bs) = some (b ∷ bs)

unfoldable pub derive_session_keys : Crypto → Bytes → Bytes → SessionKeys
derive_session_keys c shared_secret salt = record {
  data_key = c.hkdf 32 (salt_of salt) info_data shared_secret;
  hmac_key = c.hkdf 32 (salt_of salt) info_hmac shared_secret;
  session_id = c.hkdf 16 (salt_of salt) info_session shared_secret;
}

pub record RotationState : Type 0 where
  pub rotation_id : ℕ
  pub new_keys : SessionKeys
  pub new_encryptor : ℕ
  pub activated_at_msg : ℕ
  pub old_encryptor : Option ℕ
  pub old_keys : Option SessionKeys

pub record KeyManager : Type 0 where
  pub encryptors : List FrameEncryptor
  pub current_keys : SessionKeys
  pub current_encryptor : ℕ
  pub written : List Bytes
  pub msg_interval : ℕ
  pub time_interval : ℕ
  pub msg_count : ℕ
  pub last_rotation_ts : ℕ
  pub rotation_id : ℕ
  pub pending : Option RotationState

-- KeyRotationManager.__init__
abbrev pub first_manager : SessionKeys → ℕ → ℕ → ℕ → FrameEncryptor → KeyManager
first_manager initial_keys msg_interval time_interval now encryptor = record {
  encryptors = encryptor ∷ [];
  current_keys = initial_keys;
  current_encryptor = 0;
  written = [];
  msg_interval = msg_interval;
  time_interval = time_interval;
  msg_count = 0;
  last_rotation_ts = now;
  rotation_id = 0;
  pending = none;
}

unfoldable pub new_manager : SessionKeys → ℕ → ℕ → ℕ → ℕ → Result KeyManager
new_manager initial_keys msg_interval time_interval now now_ms = do
  encryptor ← new_encryptor_for initial_keys.data_key now_ms
  ok (first_manager initial_keys msg_interval time_interval now encryptor)

unfoldable pub increment_msg_count : KeyManager → KeyManager
increment_msg_count m = record m { msg_count = suc m.msg_count }

abbrev pub is_none {ℓ} : {A : Type ℓ} → Option A → Bool
is_none none = true
is_none (some a) = false

-- A message interval of 0 raises ZeroDivisionError.
unfoldable pub should_rotate : KeyManager → ℕ → Result Bool
should_rotate m now =
    let msg_trigger = (m.msg_count % m.msg_interval == 0) && ltb 0 m.msg_count in
    let time_trigger = leb m.time_interval (now - m.last_rotation_ts) in
    if m.msg_interval == 0
    then err Error.zero_division
    else ok ((msg_trigger || time_trigger) && is_none m.pending)

module _ (c : Crypto) where
  abbrev pub rotation_msg : ℕ → Bytes → Bytes
  rotation_msg rotation_id private =
      key_rotation_magic ++ (be_bytes 4 rotation_id ++ c.public_key private)

  -- _initiate_rotation up to the point where it waits for the key of the peer.
  unfoldable pub begin_rotation : KeyManager → Bytes → KeyManager × Result (Unit {0})
  begin_rotation m private =
      let m' = record m { rotation_id = suc m.rotation_id } in
      if ltb (suc m.rotation_id) (256 ^ 4)
      then (
        record m' { written = m.written ++ (rotation_msg (suc m.rotation_id) private ∷ []) },
        ok tt,
      )
      else (m', err Error.overflow_error)

  -- maybe_rotate up to that point, and whether it waits there.
  abbrev pub rotate_if : KeyManager → Bytes → Result Bool → KeyManager × Result Bool
  rotate_if m private (err e) = (m, err e)
  rotate_if m private (ok false) = (m, ok false)
  rotate_if m private (ok true) =
      let (m', result) = begin_rotation m private in (m', result >> ok true)

  unfoldable pub maybe_rotate : KeyManager → Bytes → ℕ → KeyManager × Result Bool
  maybe_rotate m private now = rotate_if m private (should_rotate m now)

  -- The pending rotation, with the encryptor of the new keys.
  abbrev pub set_pending : KeyManager → SessionKeys → ℕ → FrameEncryptor → KeyManager
  set_pending m new_keys now encryptor = record m {
    encryptors = m.encryptors ++ (encryptor ∷ []);
    pending = some (record {
      rotation_id = m.rotation_id;
      new_keys = new_keys;
      new_encryptor = length m.encryptors;
      activated_at_msg = m.msg_count;
      old_encryptor = some m.current_encryptor;
      old_keys = some m.current_keys;
    });
    last_rotation_ts = now;
  }

  -- The rest of it, with the key of the peer, the random salt and the clock, in nanoseconds for the
  -- rotation and in milliseconds for the encryptor.
  unfoldable pub finish_rotation : KeyManager → Bytes → Bytes → Bytes → ℕ → ℕ → Result KeyManager
  finish_rotation m private peer_key salt now now_ms = do
    guard (length peer_key == 32) Error.value_error
    new_shared ← or_raise Error.value_error (c.exchange private peer_key)
    let new_keys = derive_session_keys c new_shared salt
    encryptor ← new_encryptor_for new_keys.data_key now_ms
    ok (set_pending m new_keys now encryptor)

-- True if the rotation is applied.
abbrev pub apply_state : KeyManager → Option RotationState → KeyManager × Bool
apply_state m none = (m, false)
apply_state m (some p) =
    if ltb (m.msg_count - p.activated_at_msg) key_overlap_window then (m, false) else (
      record m { current_keys = p.new_keys; current_encryptor = p.new_encryptor; pending = none },
      true,
    )

unfoldable pub apply_pending_rotation : KeyManager → KeyManager × Bool
apply_pending_rotation m = apply_state m m.pending

abbrev pub decryptor_state : KeyManager → ℕ → Option RotationState → Option ℕ
decryptor_state m id none = some m.current_encryptor
decryptor_state m id (some p) =
    if id == p.rotation_id
    then some p.new_encryptor
    else if suc id == p.rotation_id
    then p.old_encryptor
    else some m.current_encryptor

unfoldable pub get_decryptor_for_rotation : KeyManager → ℕ → Option ℕ
get_decryptor_for_rotation m rotation_id = decryptor_state m rotation_id m.pending
