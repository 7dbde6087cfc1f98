-- ===== src/KeyRotation/Races.antt =====
-- Where rotations of src/qdap/security/key_rotation.py go wrong: each side draws its own salt, and a
-- second rotation may begin while the first one waits for its peer.
use qdap_protocol.Base.{
  ℕ, suc, ◌^◌, ◌<◌, ◌≡◌, ◌↔◌, refl, sym, ap, ◌∙◌, true, [], ◌∷◌, length, Option, none, some, ok,
  ltb, lt→ltb, arith,
}
use qdap_protocol.Bytes.{Bytes}
use qdap_protocol.KeyRotation.{
  Crypto, RotationState, SessionKeys, KeyManager, info_data, info_hmac, info_session, salt_of,
  derive_session_keys, should_rotate, begin_rotation, maybe_rotate, finish_rotation,
  decryptor_state, get_decryptor_for_rotation,
}
use qdap_protocol.KeyRotation.Overlap.{finish_rotation-set_pending}
use qdap_protocol.KeyRotation.Windows.{after_messages, after_messages_lem}

-- The keys of the pending rotation.
abbrev pub pending_keys : Option RotationState → Option SessionKeys
pending_keys none = none
pending_keys (some p) = some p.new_keys

salt_of-some : (salt : Bytes) → length salt ≡ 16 → salt_of salt ≡ some salt
salt_of-some [] h = absurd (omega arith)
salt_of-some (b ∷ bs) h = refl

module _ (c : Crypto) where
  finish_rotation_keys :
      (m m' : KeyManager) (private peer_key salt shared : Bytes) (now now_ms : ℕ)
      → c.exchange private peer_key ≡ some shared
      → finish_rotation c m private peer_key salt now now_ms ≡ ok m'
      → (m'.written ≡ m.written)
        × (pending_keys m'.pending ≡ some (derive_session_keys c shared salt))
  finish_rotation_keys m m' private peer_key salt shared now now_ms agreed done =
      let (secret, e, found, same) =
        finish_rotation-set_pending c m m' private peer_key salt now now_ms done in
      let secret_same : secret ≡ shared = cc (found, agreed) in
      (
        ap (λ (k : KeyManager). k.written) same,
        ap (λ (k : KeyManager). pending_keys k.pending) same
            ∙ ap (λ t. some (derive_session_keys c t salt)) secret_same,
      )

  -- HKDF gives the same three keys for two salts.
  abbrev pub Collide : Bytes → Bytes → Bytes → Type 0
  Collide salt salt' secret =
      (c.hkdf 32 (some salt) info_data secret ≡ c.hkdf 32 (some salt') info_data secret)
      × (c.hkdf 32 (some salt) info_hmac secret ≡ c.hkdf 32 (some salt') info_hmac secret)
      × (c.hkdf 16 (some salt) info_session secret ≡ c.hkdf 16 (some salt') info_session secret)

  derive_session_keys-Collide :
      (salt salt' secret : Bytes)
      → length salt ≡ 16
      → length salt' ≡ 16
      → (some (derive_session_keys c secret salt) ≡ some (derive_session_keys c secret salt'))
        ↔ Collide salt salt' secret
  unfolding derive_session_keys
  derive_session_keys-Collide salt salt' secret h h' =
      rw (salt_of-some salt h, salt_of-some salt' h')
        (
          λ e. (cc e, cc e, cc e),
          λ (d, h, n) i. some (record { data_key = d i; hmac_key = h i; session_id = n i }),
        )

  -- Two peers rotate with each other's public keys, so with one shared secret, and each draws its own
  -- salt of 16 bytes: neither writes anything more, and their new keys are the same exactly when HKDF
  -- gives the same keys for the two salts.
  pub finish_rotation_agrees :
      (m m' k k' : KeyManager) (mine yours salt salt' shared : Bytes) (now now_ms now' now_ms' : ℕ)
      → c.exchange mine (c.public_key yours) ≡ some shared
      → c.exchange yours (c.public_key mine) ≡ some shared
      → length salt ≡ 16
      → length salt' ≡ 16
      → finish_rotation c m mine (c.public_key yours) salt now now_ms ≡ ok m'
      → finish_rotation c k yours (c.public_key mine) salt' now' now_ms' ≡ ok k'
      → (m'.written ≡ m.written)
        × (k'.written ≡ k.written)
        × ((pending_keys m'.pending ≡ pending_keys k'.pending) ↔ Collide salt salt' shared)
  finish_rotation_agrees m m' k k' mine yours salt salt' shared now now_ms now' now_ms' a b size
        size' done done' =
      let (silent, is_new) =
        finish_rotation_keys m m' mine (c.public_key yours) salt shared now now_ms a done in
      let (silent', is_new') =
        finish_rotation_keys k k' yours (c.public_key mine) salt' shared now' now_ms' b done' in
      (
        silent,
        silent',
        rw (is_new, is_new') (derive_session_keys-Collide salt salt' shared size size'),
      )

  should_rotate-begin_rotation :
      (m : KeyManager) (private : Bytes) (n now : ℕ)
      → should_rotate (after_messages n (begin_rotation c m private).0) now
        ≡ should_rotate (after_messages n m) now
  unfolding should_rotate begin_rotation
  should_rotate-begin_rotation m private n now =
      rw (after_messages_lem n m, after_messages_lem n (begin_rotation c m private).0)
        (ground arith)

  begun :
      (m : KeyManager) (private : Bytes) (now : ℕ)
      → should_rotate m now ≡ ok true
      → suc m.rotation_id < 256 ^ 4
      → (maybe_rotate c m private now ≡ ((begin_rotation c m private).0, ok true))
        × ((begin_rotation c m private).0.rotation_id ≡ suc m.rotation_id)
        × ((begin_rotation c m private).0.current_encryptor ≡ m.current_encryptor)
  unfolding maybe_rotate begin_rotation
  begun m private now due small =
      let test : ltb (suc m.rotation_id) (256 ^ 4) ≡ true = lt→ltb _ _ small in
      (rw (due, test) refl, rw test refl, rw test refl)

  -- Messages in between leave the rotations and the encryptors alone.
  rotation_id-after_messages :
      (n : ℕ) (m : KeyManager) → (after_messages n m).rotation_id ≡ m.rotation_id
  rotation_id-after_messages n m = ap (λ (k : KeyManager). k.rotation_id) (after_messages_lem n m)

  current_encryptor-after_messages :
      (n : ℕ) (m : KeyManager) → (after_messages n m).current_encryptor ≡ m.current_encryptor
  current_encryptor-after_messages n m =
      ap (λ (k : KeyManager). k.current_encryptor) (after_messages_lem n m)

  finish_rotation_same :
      (m m' : KeyManager) (private peer_key salt : Bytes) (now now_ms : ℕ)
      → finish_rotation c m private peer_key salt now now_ms ≡ ok m'
      → (m'.rotation_id ≡ m.rotation_id)
        × (m'.current_encryptor ≡ m.current_encryptor)
        × (get_decryptor_for_rotation m' m.rotation_id ≡ some (length m.encryptors))
        × ((id : ℕ)
            → suc id ≡ m.rotation_id
            → get_decryptor_for_rotation m' id ≡ some m.current_encryptor)
  unfolding get_decryptor_for_rotation
  finish_rotation_same m m' private peer_key salt now now_ms done =
      let (shared, e, found, same) =
        finish_rotation-set_pending c m m' private peer_key salt now now_ms done in
      (
        ap (λ (k : KeyManager). k.rotation_id) same,
        ap (λ (k : KeyManager). k.current_encryptor) same,
        ap (λ (k : KeyManager). decryptor_state k m.rotation_id k.pending) same ∙ ground arith,
        λ id before. ap (λ (k : KeyManager). decryptor_state k id k.pending) same ∙ ground arith,
      )

  -- A rotation begins, and while it waits for the key of its peer, after `i` messages and at any
  -- reading of the clock, maybe_rotate is called again, at a time when a rotation would be due if
  -- none had begun: it starts a rotation too. Whichever of the two is finished first and last, and
  -- whatever messages come in between, the identifier announced first then stands for the old
  -- encryptor, and not for a new one.
  pub maybe_rotate_twice :
      (m m1 m2 m3 m4 : KeyManager) (p1 p2 q1 q2 key1 key2 salt1 salt2 : Bytes)
      (now now' s1 s2 n1 n2 i j k : ℕ)
      → should_rotate m now ≡ ok true
      → should_rotate (after_messages i m) now' ≡ ok true
      → suc (suc m.rotation_id) < 256 ^ 4
      → m1 ≡ after_messages i (maybe_rotate c m p1 now).0
      → m2 ≡ after_messages j (maybe_rotate c m1 p2 now').0
      → finish_rotation c m2 q1 key1 salt1 s1 n1 ≡ ok m3
      → finish_rotation c (after_messages k m3) q2 key2 salt2 s2 n2 ≡ ok m4
      → ((maybe_rotate c m p1 now).1 ≡ ok true)
        × ((maybe_rotate c m1 p2 now').1 ≡ ok true)
        × (get_decryptor_for_rotation m4 (suc m.rotation_id) ≡ some m.current_encryptor)
  maybe_rotate_twice m m1 m2 m3 m4 p1 p2 q1 q2 key1 key2 salt1 salt2 now now' s1 s2 n1 n2 i j k due
        due' small e1 e2 f1 f2 =
      let (first, id1, same1) = begun m p1 now due (omega arith) in
      let is1 : m1 ≡ after_messages i (begin_rotation c m p1).0 =
        e1 ∙ ap (λ t. after_messages i t.0) first in
      let due1 : should_rotate m1 now' ≡ ok true =
        ap (λ (t : KeyManager). should_rotate t now') is1
        ∙ should_rotate-begin_rotation m p1 i now'
        ∙ due' in
      let id_m1 : m1.rotation_id ≡ suc m.rotation_id =
        ap (λ (t : KeyManager). t.rotation_id) is1 ∙ rotation_id-after_messages i _ ∙ id1 in
      let current1 : m1.current_encryptor ≡ m.current_encryptor =
        ap (λ (t : KeyManager). t.current_encryptor) is1
        ∙ current_encryptor-after_messages i _
        ∙ same1 in
      let (second, id2, same2) = begun m1 p2 now' due1 (omega arith) in
      let is2 : m2 ≡ after_messages j (begin_rotation c m1 p2).0 =
        e2 ∙ ap (λ t. after_messages j t.0) second in
      let id_m2 : m2.rotation_id ≡ suc (suc m.rotation_id) =
        ap (λ (t : KeyManager). t.rotation_id) is2
        ∙ rotation_id-after_messages j _
        ∙ id2
        ∙ ap suc id_m1 in
      let current2 : m2.current_encryptor ≡ m.current_encryptor =
        ap (λ (t : KeyManager). t.current_encryptor) is2
        ∙ current_encryptor-after_messages j _
        ∙ same2
        ∙ current1 in
      let (id3, current3, _, _) = finish_rotation_same m2 m3 q1 key1 salt1 s1 n1 f1 in
      let (_, _, _, before) =
        finish_rotation_same (after_messages k m3) m4 q2 key2 salt2 s2 n2 f2 in
      (
        ap (λ t. t.1) first,
        ap (λ t. t.1) second,
        before (suc m.rotation_id) (sym (rotation_id-after_messages k m3 ∙ id3 ∙ id_m2))
            ∙ ap some (current_encryptor-after_messages k m3 ∙ current3 ∙ current2),
      )
