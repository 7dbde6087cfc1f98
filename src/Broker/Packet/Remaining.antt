-- ===== src/Broker/Packet/Remaining.antt =====
-- The variable byte integer of src/qdap/broker/packet_parser.py: writing and reading.
use Prim.Native.Nat.{bit_or}
use native.Mathlib.Nat.{pow-suc}
use qdap_protocol.Base.{
  ℕ, zero, suc, ◌+◌, ◌*◌, ◌^◌, ◌/◌, ◌%◌, ◌≤◌, ◌<◌, ◌≡◌, refl, ap, ◌∙◌, inl, inr, ◌∷◌, ◌++◌, length,
  drop-append, ok, arith, Bool-cases, false, ltb, ltb→lt,
}
use qdap_protocol.Base.Bits.{bit_and_7f, bit_and_80, bit_or_80}
use qdap_protocol.Bytes.{Bytes}
use qdap_protocol.Broker.Packet.{
  decode_loop, decode_remaining_length, encode_loop, encode_remaining_length,
}

-- A byte with the top bit set makes the loop go on, one without it ends it.
decode_loop_more :
    (b : ℕ) (bs : Bytes) (multiplier value offset : ℕ)
    → b < 128
    → decode_loop (bit_or b 0x80 ∷ bs) multiplier value offset
      ≡ decode_loop bs (multiplier * 128) (value + b * multiplier) (offset + 1)
unfolding decode_loop
decode_loop_more b bs m v o h =
    rw (
      bit_or_80 b h,
      bit_and_80 (b + 128) (omega arith),
      bit_and_7f (b + 128) (omega arith),
      eq,
      eq',
    )
  where
    eq : (b + 128) / 128 * 128 ≡ 128
    eq = omega arith

    eq' : (b + 128) % 128 ≡ b
    eq' = omega arith

decode_loop_last :
    (b : ℕ) (bs : Bytes) (multiplier value offset : ℕ)
    → b < 128
    → decode_loop (b ∷ bs) multiplier value offset ≡ ok (value + b * multiplier, offset + 1)
unfolding decode_loop
decode_loop_last b bs m v o h = rw (bit_and_80 b (omega arith), bit_and_7f b (omega arith), eq, eq')
  where
    eq : b / 128 * 128 ≡ 0
    eq = omega arith

    eq' : b % 128 ≡ b
    eq' = omega arith

value_eq : (v n m : ℕ) → v + n % 128 * m + n / 128 * (m * 128) ≡ v + n * m
value_eq v n m = distrib (n % 128) (n / 128) ∙ ap (λ (k : ℕ). v + k * m) (omega arith)
  where
    distrib : (r q : ℕ) → v + r * m + q * (m * 128) ≡ v + (r + q * 128) * m
    distrib r q = omega (arith)

digit_eq : (n : ℕ) → ltb 0 (n / 128) ≡ false → n % 128 ≡ n
digit_eq n h = ground arith

pub decode_loop-encode_loop :
    (fuel n : ℕ) (rest : Bytes) (multiplier value offset : ℕ)
    → n < fuel
    → decode_loop (encode_loop fuel n ++ rest) multiplier value offset
      ≡ ok (value + n * multiplier, offset + length (encode_loop fuel n))
unfolding encode_loop
decode_loop-encode_loop zero n rest m v o h = absurd (omega arith)
decode_loop-encode_loop (suc fuel) n rest m v o h = elim (Bool-cases (ltb 0 (n / 128))) [
  | inl p ↦ rw p (
      decode_loop_more (n % 128) (encode_loop fuel (n / 128) ++ rest) m v o (omega arith)
      ∙ decode_loop-encode_loop fuel (n / 128) rest (m * 128) (v + n % 128 * m) (o + 1)
          (omega (arith, ltb→lt _ _ p))
      ∙ ap (λ (k : ℕ). ok (k, o + 1 + length (encode_loop fuel (n / 128)))) (value_eq v n m)
      ∙ ap (λ (k : ℕ). ok (v + n * m, k)) (omega arith))
  | inr p ↦ rw p (
      decode_loop_last (n % 128) rest m v o (omega arith)
      ∙ ap (λ (k : ℕ). ok (v + k * m, o + 1)) (digit_eq n p))
]

one_more :
    (w n size : ℕ)
    → 0 < n / 128
    → n < 128 ^ suc w
    → ((v : ℕ) → n / 128 < 128 ^ suc v → size ≤ suc v)
    → suc size ≤ suc w
one_more zero n size p k f = absurd (omega (arith, pow-suc 128 0, k))
one_more (suc w) n size p k f = omega (arith, f w (omega (arith, pow-suc 128 (suc w))))

length-encode_loop : (w fuel n : ℕ) → n < 128 ^ suc w → length (encode_loop fuel n) ≤ suc w
unfolding encode_loop
length-encode_loop w zero n k = omega arith
length-encode_loop w (suc fuel) n k = elim (Bool-cases (ltb 0 (n / 128))) [
  | inl p ↦ rw p (
      one_more w n (length (encode_loop fuel (n / 128))) (ltb→lt _ _ p) k
        (λ v q. length-encode_loop v fuel (n / 128) q))
  | inr p ↦ rw p (omega arith)
]

-- The encoding of any number, wherever it stands in the data and whatever follows it, is read back
-- as the number and the position behind it.
pub decode_remaining_length-encode_remaining_length :
    (n : ℕ) (front rest : Bytes)
    → decode_remaining_length (front ++ (encode_remaining_length n ++ rest)) (length front)
      ≡ ok (n, length front + length (encode_remaining_length n))
unfolding decode_remaining_length encode_remaining_length
decode_remaining_length-encode_remaining_length n front rest =
    rw (drop-append (length front) front (encode_loop (suc n) n ++ rest) refl) (
      decode_loop-encode_loop (suc n) n rest 1 0 (length front) (omega arith)
      ∙ ap (λ (k : ℕ). ok (k, length front + length (encode_loop (suc n) n))) (omega arith))

-- A number below 128 to the power w + 1 takes at most w + 1 bytes.
pub length-encode_remaining_length :
    (w n : ℕ) → n < 128 ^ suc w → length (encode_remaining_length n) ≤ suc w
unfolding encode_remaining_length
length-encode_remaining_length w n k = length-encode_loop w (suc n) n k

pub encode_remaining_length_pos : (n : ℕ) → 0 < length (encode_remaining_length n)
unfolding encode_remaining_length encode_loop
encode_remaining_length_pos n = ground arith
