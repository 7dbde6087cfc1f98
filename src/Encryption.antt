-- ===== src/Encryption.antt =====
-- src/qdap/security/encrypted_frame.py: frames under AES-256-GCM, with a nonce of a time stamp and
-- a counter. The cipher is a parameter, with encrypt_frame and decrypt_frame of
-- src/qdap/_rust_bridge.py that call it; its failure to authenticate is `none`, and it has no other.
pub mod Nonce
pub mod RoundTrip
use qdap_protocol.Base.{
  ℕ, ◌+◌, ◌-◌, ◌*◌, ◌%◌, Bool, true, false, List, [], ◌++◌, length, take, drop, slice, Option, none,
  some, Result, ok, err, Error, ltb, ◌==◌, if◌then◌else◌,
}
use qdap_protocol.Bytes.{Bytes, be_bytes}

abbrev pub aes_nonce_size : ℕ
aes_nonce_size = 12

abbrev pub aes_tag_size : ℕ
aes_tag_size = 16

-- encrypt key nonce plaintext aad, with the tag at the end; decrypt key nonce ciphertext tag aad.
pub record Cipher : Type 0 where
  pub encrypt_bytes : Bytes → Bytes → Bytes → Bytes → Bytes
  pub decrypt_bytes : Bytes → Bytes → Bytes → Bytes → Bytes → Option Bytes

pub record EncryptionResult : Type 0 where
  pub nonce : Bytes
  pub tag : Bytes
  pub ciphertext : Bytes

pub record DecryptionResult : Type 0 where
  pub plaintext : Bytes
  pub verified : Bool

pub record FrameEncryptor : Type 0 where
  pub key : Bytes
  pub counter : ℕ
  pub base_ts : ℕ

-- `now_ms` is the monotonic clock in whole milliseconds.
unfoldable pub new_encryptor_for : Bytes → ℕ → Result FrameEncryptor
new_encryptor_for data_key now_ms =
    if length data_key == 32
    then ok (record { key = data_key; counter = 0; base_ts = now_ms % 18446744073709551616 })
    else err Error.value_error

unfoldable pub make_nonce : FrameEncryptor → Bytes × FrameEncryptor
make_nonce s =
    let counter = s.counter + 1 in
    (
      be_bytes 8 ((s.base_ts + counter) % 18446744073709551616)
          ++ be_bytes 4 (counter % 4294967296),
      record s { counter = counter },
    )

module _ (c : Cipher) where
  unfoldable pub encrypt_frame : Bytes → Bytes → FrameEncryptor → EncryptionResult × FrameEncryptor
  encrypt_frame plaintext aad s =
      let nonce = (make_nonce s).0 in
      let ct_with_tag = c.encrypt_bytes s.key nonce plaintext aad in
      (
        record {
          nonce = nonce;
          tag = drop (length ct_with_tag - 16) ct_with_tag;
          ciphertext = take (length ct_with_tag - 16) ct_with_tag;
        },
        (make_nonce s).1,
      )

  unfoldable pub decrypt_frame : Bytes → Bytes → Bytes → Bytes → FrameEncryptor → DecryptionResult
  decrypt_frame nonce tag ciphertext aad s = elim (c.decrypt_bytes s.key nonce ciphertext tag aad) [
    | none ↦ record { plaintext = []; verified = false }
    | some plaintext ↦ record { plaintext = plaintext; verified = true }
  ]

  unfoldable pub pack_frame : Bytes → Bytes → FrameEncryptor → Bytes × FrameEncryptor
  pack_frame plaintext aad s =
      let result = (encrypt_frame plaintext aad s).0 in
      (result.nonce ++ (result.tag ++ result.ciphertext), (encrypt_frame plaintext aad s).1)

  unfoldable pub unpack_frame : Bytes → Bytes → FrameEncryptor → DecryptionResult
  unpack_frame wire_bytes aad s =
      if ltb (length wire_bytes) (aes_nonce_size + aes_tag_size)
      then record { plaintext = []; verified = false }
      else decrypt_frame (take aes_nonce_size wire_bytes)
          (slice aes_nonce_size (aes_nonce_size + aes_tag_size) wire_bytes)
          (drop (aes_nonce_size + aes_tag_size) wire_bytes) aad s
