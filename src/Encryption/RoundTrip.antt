-- ===== src/Encryption/RoundTrip.antt =====
-- A frame of src/qdap/security/encrypted_frame.py is decrypted and verified.
use qdap_protocol.Base.{
  ◌-◌, ◌≤◌, ◌≡◌, sym, ap, ◌∙◌, true, ◌++◌, append_assoc, length, take, drop, slice, length-append,
  length-drop, take-append, drop-append, Bool, some, ltb, le→ltb, arith,
}
use qdap_protocol.Bytes.{Bytes}
use qdap_protocol.Bytes.Laws.{slice-append}
use qdap_protocol.Encryption.{
  Cipher, FrameEncryptor, make_nonce, encrypt_frame, decrypt_frame, pack_frame, unpack_frame,
}
use qdap_protocol.Encryption.Nonce.{length-make_nonce}

-- When the cipher appends a tag of 16 bytes and decrypts what it encrypts, the frame that one
-- encryptor packs is unpacked by any encryptor with the same key and the same associated data to
-- the plaintext, verified.
pub unpack_frame-pack_frame :
    (c : Cipher) (plaintext aad : Bytes) (s t : FrameEncryptor)
    → ((k n p a : Bytes) → 16 ≤ length (c.encrypt_bytes k n p a))
    → ((k n p a : Bytes)
        → c.decrypt_bytes k n
            (take (length (c.encrypt_bytes k n p a) - 16) (c.encrypt_bytes k n p a))
            (drop (length (c.encrypt_bytes k n p a) - 16) (c.encrypt_bytes k n p a))
            a
          ≡ some p)
    → t.key ≡ s.key
    → unpack_frame c ((pack_frame c plaintext aad s).0) aad t
      ≡ record { plaintext = plaintext; verified = true }
unfolding unpack_frame pack_frame encrypt_frame decrypt_frame
unpack_frame-pack_frame c plaintext aad s t tagged law same =
    rw (unpack_frame, enough, nonce_eq, tag_eq, ct_eq, decrypt_frame, decrypted)
  where
    nonce : Bytes
    nonce = (make_nonce s).0

    sealed : Bytes
    sealed = c.encrypt_bytes s.key nonce plaintext aad

    tag : Bytes
    tag = drop (length sealed - 16) sealed

    ct : Bytes
    ct = take (length sealed - 16) sealed

    length-tag : length tag ≡ 16
    length-tag =
        omega (arith, length-drop (length sealed - 16) sealed, tagged s.key nonce plaintext aad)

    enough : ltb (length (nonce ++ (tag ++ ct))) 28 ≡ Bool.false
    enough = le→ltb (length (nonce ++ (tag ++ ct))) 28 (
        omega (
          arith,
          length-append nonce (tag ++ ct),
          length-append tag ct,
          length-tag,
          length-make_nonce s,
        ))

    nonce_eq : take 12 (nonce ++ (tag ++ ct)) ≡ nonce
    nonce_eq = take-append 12 nonce (tag ++ ct) (length-make_nonce s)

    tag_eq : slice 12 28 (nonce ++ (tag ++ ct)) ≡ tag
    tag_eq = slice-append 12 16 nonce tag ct (length-make_nonce s) length-tag

    ct_eq : drop 28 (nonce ++ (tag ++ ct)) ≡ ct
    ct_eq =
        ap (drop 28) (sym (append_assoc nonce tag ct))
        ∙ drop-append 28 (nonce ++ tag) ct
            (omega (arith, length-append nonce tag, length-tag, length-make_nonce s))

    decrypted : c.decrypt_bytes t.key nonce ct tag aad ≡ some plaintext
    decrypted = ap (λ k. c.decrypt_bytes k nonce ct tag aad) same ∙ law s.key nonce plaintext aad
