-- ===== src/Tests/Hash.antt =====
-- A function with 32 bytes of output, to stand for SHA3-256 in the tests.
use qdap_protocol.Base.{ℕ, ◌+◌, ◌*◌, ◌%◌, ◌≡◌, [], ◌∷◌, length, length-replicate, replicate}
use qdap_protocol.Bytes.{Bytes}

unfoldable pub checksum : Bytes → ℕ
checksum [] = 7
checksum (b ∷ bs) = (b + 31 * checksum bs) % 251

unfoldable pub toy_hash : Bytes → Bytes
unfolding checksum
toy_hash bs = replicate 32 (checksum bs)

pub length-toy_hash : (b : Bytes) → length (toy_hash b) ≡ 32
unfolding toy_hash
length-toy_hash b = length-replicate 32 (checksum b)
