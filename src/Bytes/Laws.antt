-- ===== src/Bytes/Laws.antt =====
-- Packing and unpacking are inverse, the widths, and reading a field of a longer message.
use native.Mathlib.Nat.{pow-suc}
use qdap_protocol.Base.{
  ℕ, zero, suc, ◌+◌, ◌*◌, ◌/◌, ◌%◌, ◌^◌, ◌<◌, ◌≡◌, refl, ap, ◌∙◌, List, [], ◌∷◌, ◌++◌, length,
  length-append, take, slice, take-append, drop-append, ok, arith, lt→ltb, ==_iff,
}
use qdap_protocol.Bytes.{
  Bytes, IsByte, All, be_bytes, le_bytes, be_number_from, be_number, le_number, pack_be, pack_le,
  unpack_be, unpack_le, unpack_be_at, unpack_le_at,
}

pub length-be_bytes : (w n : ℕ) → length (be_bytes w n) ≡ w
unfolding be_bytes
length-be_bytes zero n = refl
length-be_bytes (suc w) n =
    omega
      (arith, length-append {0} (be_bytes w (n / 256)) (n % 256 ∷ []), length-be_bytes w (n / 256))

pub length-le_bytes : (w n : ℕ) → length (le_bytes w n) ≡ w
unfolding le_bytes
length-le_bytes zero n = refl
length-le_bytes (suc w) n = ap suc (length-le_bytes w (n / 256))

All-append {κ} :
    {A : Type 0} (P : A → Type κ) (xs ys : List A) → All P xs → All P ys → All P (xs ++ ys)
All-append P [] ys h k = k
All-append P (x ∷ xs) ys h k = (h.0, All-append P xs ys h.1 k)

pub be_bytes-IsByte : (w n : ℕ) → All IsByte (be_bytes w n)
unfolding be_bytes
be_bytes-IsByte zero n = tt
be_bytes-IsByte (suc w) n =
    All-append IsByte (be_bytes w (n / 256)) (n % 256 ∷ []) (be_bytes-IsByte w (n / 256))
      (omega arith)

be_number_from-append :
    (acc : ℕ) (xs ys : Bytes)
    → be_number_from acc (xs ++ ys) ≡ be_number_from (be_number_from acc xs) ys
unfolding be_number_from
be_number_from-append acc [] ys = refl
be_number_from-append acc (x ∷ xs) ys = be_number_from-append (acc * 256 + x) xs ys

pub be_number-be_bytes : (w n : ℕ) → n < 256 ^ w → be_number (be_bytes w n) ≡ n
unfolding be_number be_bytes be_number_from
be_number-be_bytes zero n h = omega arith
be_number-be_bytes (suc w) n h =
    be_number_from-append 0 (be_bytes w (n / 256)) (n % 256 ∷ [])
    ∙ omega (arith, be_number-be_bytes w (n / 256) (omega (arith, pow-suc 256 w)))

pub le_number-le_bytes : (w n : ℕ) → n < 256 ^ w → le_number (le_bytes w n) ≡ n
unfolding le_number le_bytes
le_number-le_bytes zero n h = omega arith
le_number-le_bytes (suc w) n h =
    omega (arith, le_number-le_bytes w (n / 256) (omega (arith, pow-suc 256 w)))

pub pack_be_ok : (w n : ℕ) → n < 256 ^ w → pack_be w n ≡ ok (be_bytes w n)
unfolding pack_be
pack_be_ok w n h = rw (lt→ltb _ _ h)

pub pack_le_ok : (w n : ℕ) → n < 256 ^ w → pack_le w n ≡ ok (le_bytes w n)
unfolding pack_le
pack_le_ok w n h = rw (lt→ltb _ _ h)

pub unpack_be-be_bytes : (w n : ℕ) → n < 256 ^ w → unpack_be w (be_bytes w n) ≡ ok n
unfolding unpack_be
unpack_be-be_bytes w n h = rw (length-be_bytes w n, (==_iff w w).1 refl, be_number-be_bytes w n h)

pub unpack_le-le_bytes : (w n : ℕ) → n < 256 ^ w → unpack_le w (le_bytes w n) ≡ ok n
unfolding unpack_le
unpack_le-le_bytes w n h = rw (length-le_bytes w n, (==_iff w w).1 refl, le_number-le_bytes w n h)

-- A slice that lies on a seam.
pub slice-append {ℓ} :
    {A : Type ℓ} (a w : ℕ) (front mid rest : List A)
    → length front ≡ a
    → length mid ≡ w
    → slice a (a + w) (front ++ (mid ++ rest)) ≡ mid
slice-append a w front mid rest hf hm =
    rw (drop-append a front (mid ++ rest) hf)
      (ap (λ (k : ℕ). take k (mid ++ rest)) (omega arith) ∙ take-append w mid rest hm)

pub unpack_be_at-be_bytes :
    (w a n : ℕ) (front rest : Bytes)
    → length front ≡ a
    → n < 256 ^ w
    → unpack_be_at w a (front ++ (be_bytes w n ++ rest)) ≡ ok n
unfolding unpack_be_at
unpack_be_at-be_bytes w a n front rest hf h =
    ap (unpack_be w) (slice-append a w front (be_bytes w n) rest hf (length-be_bytes w n))
    ∙ unpack_be-be_bytes w n h

pub unpack_le_at-le_bytes :
    (w a n : ℕ) (front rest : Bytes)
    → length front ≡ a
    → n < 256 ^ w
    → unpack_le_at w a (front ++ (le_bytes w n ++ rest)) ≡ ok n
unfolding unpack_le_at
unpack_le_at-le_bytes w a n front rest hf h =
    ap (unpack_le w) (slice-append a w front (le_bytes w n) rest hf (length-le_bytes w n))
    ∙ unpack_le-le_bytes w n h
