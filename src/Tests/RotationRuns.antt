-- ===== src/Tests/RotationRuns.antt =====
-- Key rotations with toy functions for X25519 and HKDF.
use qdap_protocol.Base.{
  ℕ, ◌+◌, ◌-◌, ◌≡◌, ◌↔◌, ◌<◌, refl, true, [], ◌∷◌, ◌++◌, length, replicate, Option, none, some, ok,
  arith,
}
use qdap_protocol.Bytes.{Bytes, be_bytes}
use qdap_protocol.Encryption.{FrameEncryptor, new_encryptor_for}
use qdap_protocol.KeyRotation.{
  Crypto, SessionKeys, KeyManager, first_manager, new_manager, set_pending, increment_msg_count,
  should_rotate, begin_rotation, maybe_rotate, finish_rotation, derive_session_keys,
  get_decryptor_for_rotation,
}
use qdap_protocol.KeyRotation.Overlap.{
  next, start, starts, finishes, new_manager-Inv, get_decryptor_for_rotation-eq_some,
}
use qdap_protocol.KeyRotation.Windows.{after_messages}
use qdap_protocol.KeyRotation.Races.{
  pending_keys, Collide, finish_rotation_agrees, maybe_rotate_twice,
}

-- The keys are their own public keys, and the secret is the two in a fixed order.
abbrev total : Bytes → ℕ
total [] = 0
total (b ∷ bs) = b + total bs

abbrev toy_hkdf : ℕ → Option Bytes → Bytes → Bytes → Bytes
toy_hkdf n none info secret = replicate n (total secret)
toy_hkdf n (some salt) info secret = salt ++ replicate (n - length salt) (total secret)

abbrev toy : Crypto
toy = record {
  public_key = λ p. p;
  exchange = λ mine yours. some ((total mine + total yours) ∷ []);
  hkdf = toy_hkdf;
}

abbrev mine : Bytes
mine = replicate 32 1

abbrev yours : Bytes
yours = replicate 32 2

abbrev keys : SessionKeys
keys = record { data_key = replicate 32 5; hmac_key = []; session_id = [] }

abbrev first : KeyManager
first = first_manager keys 1000 0 0 (record { key = replicate 32 5; counter = 0; base_ts = 7 })

abbrev salt : Bytes
salt = replicate 16 9

abbrev other_salt : Bytes
other_salt = replicate 16 8

abbrev encryptor_of : Bytes → FrameEncryptor
encryptor_of s = record { key = s ++ replicate 16 96; counter = 0; base_ts = 7 }

abbrev finished : KeyManager → Bytes → KeyManager
finished m s =
    set_pending toy m
      (record { data_key = s ++ replicate 16 96; hmac_key = s ++ replicate 16 96; session_id = s })
      3 (encryptor_of s)

-- A new manager, whose rotation is due at once, and the one that waits.
made : new_manager keys 1000 0 0 7 ≡ ok first
unfolding new_manager new_encryptor_for
made = refl

abbrev waiting : KeyManager
waiting = record first {
  rotation_id = 1;
  written = (0x52 ∷ 0x4b ∷ 0x45 ∷ 0x59 ∷ 0 ∷ 0 ∷ 0 ∷ 1 ∷ mine) ∷ [];
}

begins : maybe_rotate toy first mine 0 ≡ (waiting, ok true)
unfolding maybe_rotate should_rotate begin_rotation be_bytes
begins = refl

ends : finish_rotation toy waiting mine yours salt 3 7 ≡ ok (finished waiting salt)
unfolding finish_rotation derive_session_keys new_encryptor_for
ends = refl

get_decryptor_for_rotation-eq_some_example :
    (get_decryptor_for_rotation (finished (maybe_rotate toy first mine 0).0 salt) 0 ≡ some 0)
    × (0 < 2)
unfolding maybe_rotate should_rotate begin_rotation be_bytes
get_decryptor_for_rotation-eq_some_example =
    get_decryptor_for_rotation-eq_some toy 0
      (next (next start (starts first mine 0))
        (finishes waiting (finished waiting salt) mine yours salt 3 7 ends))
      (new_manager-Inv keys 1000 0 0 7 first made)

ends_too : finish_rotation toy waiting yours mine other_salt 3 7 ≡ ok (finished waiting other_salt)
unfolding finish_rotation derive_session_keys new_encryptor_for
ends_too = refl

finish_rotation_agrees_example :
    ((finished waiting salt).written ≡ waiting.written)
    × ((finished waiting other_salt).written ≡ waiting.written)
    × ((pending_keys (finished waiting salt).pending
          ≡ pending_keys (finished waiting other_salt).pending)
        ↔ Collide toy salt other_salt (96 ∷ []))
finish_rotation_agrees_example =
    finish_rotation_agrees toy waiting (finished waiting salt) waiting (finished waiting other_salt)
      mine yours salt other_salt (96 ∷ []) 3 7 3 7 refl refl refl refl ends ends_too

-- Two senders at once.
abbrev both : KeyManager
both = record first {
  rotation_id = 2;
  written =
      (0x52 ∷ 0x4b ∷ 0x45 ∷ 0x59 ∷ 0 ∷ 0 ∷ 0 ∷ 1 ∷ mine)
      ∷ (0x52 ∷ 0x4b ∷ 0x45 ∷ 0x59 ∷ 0 ∷ 0 ∷ 0 ∷ 2 ∷ mine)
      ∷ [];
}

-- After the message that the second begins with, one more, and one between the two ends.
abbrev counted : ℕ → KeyManager → KeyManager
counted n m = record m { msg_count = n }

begins_too : counted 2 both ≡ after_messages 1 (maybe_rotate toy (counted 1 waiting) mine 5).0
unfolding maybe_rotate should_rotate begin_rotation be_bytes after_messages increment_msg_count
begins_too = refl

begins_one : counted 1 waiting ≡ after_messages 1 (maybe_rotate toy first mine 0).0
unfolding maybe_rotate should_rotate begin_rotation be_bytes after_messages increment_msg_count
begins_one = refl

due : should_rotate first 0 ≡ ok true
unfolding should_rotate
due = refl

due_again : should_rotate (after_messages 1 first) 5 ≡ ok true
unfolding should_rotate after_messages increment_msg_count
due_again = refl

first_ends :
    finish_rotation toy (counted 2 both) mine yours salt 3 7 ≡ ok (finished (counted 2 both) salt)
unfolding finish_rotation derive_session_keys new_encryptor_for
first_ends = refl

second_ends :
    finish_rotation toy
      (after_messages 1 (finished (counted 2 both) salt))
      mine
      yours
      other_salt
      3
      7
    ≡ ok (finished (counted 3 (finished (counted 2 both) salt)) other_salt)
unfolding finish_rotation derive_session_keys new_encryptor_for after_messages increment_msg_count
second_ends = refl

maybe_rotate_twice_example :
    ((maybe_rotate toy first mine 0).1 ≡ ok true)
    × ((maybe_rotate toy (counted 1 waiting) mine 5).1 ≡ ok true)
    × (get_decryptor_for_rotation
          (finished (counted 3 (finished (counted 2 both) salt)) other_salt)
          1
        ≡ some 0)
maybe_rotate_twice_example =
    maybe_rotate_twice toy first (counted 1 waiting) (counted 2 both)
      (finished (counted 2 both) salt)
      (finished (counted 3 (finished (counted 2 both) salt)) other_salt) mine mine mine mine yours
      yours salt other_salt 0 5 3 3 7 7 1 1 1 due due_again (omega arith) begins_one begins_too
      first_ends second_ends
