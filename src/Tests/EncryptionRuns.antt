-- ===== src/Tests/EncryptionRuns.antt =====
-- An encrypted frame, and the nonces of an encryptor.
use qdap_protocol.Base.{
  ◌+◌, ◌-◌, ◌≤◌, ◌≡◌, ◌≢◌, refl, ap, true, [], ◌∷◌, ◌++◌, length, length-append, take, take-append,
  replicate, some, arith,
}
use qdap_protocol.Bytes.{Bytes}
use qdap_protocol.Encryption.{Cipher, FrameEncryptor, pack_frame, unpack_frame}
use qdap_protocol.Encryption.Nonce.{nth_nonce, nth_nonce_distinct}
use qdap_protocol.Encryption.RoundTrip.{unpack_frame-pack_frame}

-- A cipher that only appends a tag.
abbrev tagging : Cipher
tagging = record {
  encrypt_bytes = λ k n p a. p ++ replicate 16 7;
  decrypt_bytes = λ k n ct tag a. some ct;
}

length-tagged : (p : Bytes) → length (p ++ replicate 16 7) ≡ length p + 16
length-tagged p = length-append p (replicate 16 7)

tagged : (k n p a : Bytes) → 16 ≤ length (tagging.encrypt_bytes k n p a)
tagged k n p a = omega (arith, length-tagged p)

untagged :
    (k n p a : Bytes)
    → tagging.decrypt_bytes k n
        (take (length (tagging.encrypt_bytes k n p a) - 16) (tagging.encrypt_bytes k n p a))
        []
        a
      ≡ some p
untagged k n p a = ap some (
    take-append (length (p ++ replicate 16 7) - 16) p (replicate 16 7)
      (omega (arith, length-tagged p)))

abbrev sender : FrameEncryptor
sender = record { key = replicate 32 1; counter = 4294967295; base_ts = 18446744073709551615 }

abbrev receiver : FrameEncryptor
receiver = record sender { counter = 0 }

unpack_frame-pack_frame_example :
    unpack_frame tagging ((pack_frame tagging (1 ∷ 2 ∷ []) (9 ∷ []) sender).0) (9 ∷ []) receiver
    ≡ record { plaintext = 1 ∷ 2 ∷ []; verified = true }
unpack_frame-pack_frame_example =
    unpack_frame-pack_frame tagging (1 ∷ 2 ∷ []) (9 ∷ []) sender receiver tagged untagged refl

-- Also across the wrap of the counter.
nth_nonce_distinct_example : nth_nonce 0 sender ≢ nth_nonce (0 + 4294967296) sender
nth_nonce_distinct_example = nth_nonce_distinct 0 4294967296 sender (omega arith) (omega arith)
