-- ===== src/KeyRotation/Windows.antt =====
-- A rotation of src/qdap/security/key_rotation.py from its end to its application.
use qdap_protocol.Base.{ℕ, zero, suc, ◌+◌, ◌≡◌, ◌∙◌, arith}
use qdap_protocol.Bytes.{Bytes}
use qdap_protocol.KeyRotation.{KeyManager, increment_msg_count}

-- `n` messages
unfoldable pub after_messages : ℕ → KeyManager → KeyManager
after_messages zero m = m
after_messages (suc n) m = after_messages n (increment_msg_count m)

-- Messages only count.
pub after_messages_lem :
    (n : ℕ) (m : KeyManager) → after_messages n m ≡ record m { msg_count = m.msg_count + n }
unfolding after_messages increment_msg_count
after_messages_lem zero m =
    let same : m.msg_count ≡ m.msg_count + 0 = omega arith in λ i. record m { msg_count = same i }
after_messages_lem (suc n) m =
    let same : suc m.msg_count + n ≡ m.msg_count + suc n = omega arith in
    after_messages_lem n (record m { msg_count = suc m.msg_count })
    ∙ (λ i. record m { msg_count = same i })
