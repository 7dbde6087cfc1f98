-- ===== src/Encryption/Nonce.antt =====
-- The nonces of src/qdap/security/encrypted_frame.py.
use qdap_protocol.Base.{
  ℕ, zero, suc, ◌+◌, ◌%◌, ◌<◌, ◌≡◌, ◌≢◌, sym, ap, ◌∙◌, length, length-append, take, take-append,
  arith,
}
use qdap_protocol.Bytes.{Bytes, be_bytes, be_number}
use qdap_protocol.Bytes.Laws.{length-be_bytes, be_number-be_bytes}
use qdap_protocol.Encryption.{FrameEncryptor, make_nonce}

pub length-make_nonce : (s : FrameEncryptor) → length ((make_nonce s).0) ≡ 12
unfolding make_nonce
length-make_nonce s = omega (
  arith,
  length-append (be_bytes 8 ((s.base_ts + (s.counter + 1)) % 18446744073709551616))
      (be_bytes 4 ((s.counter + 1) % 4294967296)),
  length-be_bytes 8 ((s.base_ts + (s.counter + 1)) % 18446744073709551616),
  length-be_bytes 4 ((s.counter + 1) % 4294967296),
)

-- The nonce made after n others.
abbrev pub nth_nonce : ℕ → FrameEncryptor → Bytes
nth_nonce zero s = (make_nonce s).0
nth_nonce (suc n) s = nth_nonce n ((make_nonce s).1)

-- The time stamp at its front.
nth_stamp :
    (n : ℕ) (s : FrameEncryptor)
    → be_number (take 8 (nth_nonce n s)) ≡ (s.base_ts + s.counter + n + 1) % 18446744073709551616
unfolding make_nonce
nth_stamp zero s =
    ap be_number (
      take-append 8 (be_bytes 8 stamp) (be_bytes 4 ((s.counter + 1) % 4294967296))
        (length-be_bytes 8 stamp))
    ∙ be_number-be_bytes 8 stamp (omega arith)
    ∙ ap (λ (k : ℕ). k % 18446744073709551616) (omega arith)
  where
    stamp : ℕ
    stamp = (s.base_ts + (s.counter + 1)) % 18446744073709551616
nth_stamp (suc n) s =
    nth_stamp n ((make_nonce s).1) ∙ ap (λ (k : ℕ). k % 18446744073709551616) (omega arith)

-- Of 2 to the power 64 nonces in a row that an encryptor makes, no two are equal.
pub nth_nonce_distinct :
    (m d : ℕ) (s : FrameEncryptor)
    → 0 < d
    → d < 18446744073709551616
    → nth_nonce m s ≢ nth_nonce (m + d) s
nth_nonce_distinct m d s h k same =
    omega (arith, sym (nth_stamp m s) ∙ ap (λ bs. be_number (take 8 bs)) same ∙ nth_stamp (m + d) s)
