-- ===== src/Fec/Laws.antt =====
-- Exclusive or of packets, and the stripe sums of src/qdap/_rust_bridge.py.
use qdap_protocol.Base.{
  ℕ, zero, suc, ◌%◌, ◌≡◌, ◌≢◌, refl, ap, ◌∙◌, true, false, List, [], ◌∷◌, length, replicate, Option,
  none, some, ◌==◌, Bool-cases, inl, inr, arith,
}
use qdap_protocol.Base.Xor.{zero-bit_xor, bit_xor_cancel, bit_xor_swap}
use qdap_protocol.Bytes.{Bytes}
use qdap_protocol.Fec.{xor_into, xor_known}

pub xor_into_cancel : (acc p : Bytes) → xor_into (xor_into acc p) p ≡ acc
unfolding xor_into
xor_into_cancel acc [] = refl
xor_into_cancel [] (b ∷ bs) = refl
xor_into_cancel (a ∷ acc) (b ∷ bs) = rw (bit_xor_cancel a b, xor_into_cancel acc bs) refl

pub xor_into_swap : (acc p q : Bytes) → xor_into (xor_into acc p) q ≡ xor_into (xor_into acc q) p
unfolding xor_into
xor_into_swap acc [] q = refl
xor_into_swap acc (b ∷ bs) [] = refl
xor_into_swap [] (b ∷ bs) (c ∷ cs) = refl
xor_into_swap (a ∷ acc) (b ∷ bs) (c ∷ cs) = rw (bit_xor_swap a b c, xor_into_swap acc bs cs) refl

-- Onto zeros of its length, a packet is itself.
pub xor_into-replicate : (n : ℕ) (p : Bytes) → length p ≡ n → xor_into (replicate n 0) p ≡ p
unfolding xor_into
xor_into-replicate zero [] h = refl
xor_into-replicate zero (b ∷ p) h = absurd (omega arith)
xor_into-replicate (suc n) [] h = absurd (omega arith)
xor_into-replicate (suc n) (b ∷ p) h =
    rw (zero-bit_xor b, xor_into-replicate n p (omega arith)) refl

-- One packet more at the start of a stripe's sum, or at its end.
pub xor_known-xor_into :
    (r j i : ℕ) (acc p : Bytes) (ps : List (Option Bytes))
    → xor_known r j i (xor_into acc p) ps ≡ xor_into (xor_known r j i acc ps) p
unfolding xor_known
xor_known-xor_into r j i acc p [] = refl
xor_known-xor_into r j i acc p (none ∷ ps) = xor_known-xor_into r j (suc i) acc p ps
xor_known-xor_into r j i acc p (some q ∷ ps) = elim (Bool-cases (i % r == j)) [
  | inl e ↦ rw e (
      ap (λ t. xor_known r j (suc i) t ps) (xor_into_swap acc p q)
      ∙ xor_known-xor_into r j (suc i) (xor_into acc q) p ps)
  | inr e ↦ rw e (xor_known-xor_into r j (suc i) acc p ps)
]

-- A packet outside the stripe, and one of the stripe.
pub xor_known_outside :
    (r j i : ℕ) (acc q : Bytes) (ps : List (Option Bytes))
    → i % r ≢ j
    → xor_known r j i acc (some q ∷ ps) ≡ xor_known r j (suc i) acc ps
unfolding xor_known
xor_known_outside r j i acc q ps h =
    let other : (i % r == j) ≡ false = ground arith in rw other refl

pub xor_known_inside :
    (r j i : ℕ) (acc q : Bytes) (ps : List (Option Bytes))
    → i % r ≡ j
    → xor_known r j i acc (some q ∷ ps) ≡ xor_known r j (suc i) (xor_into acc q) ps
unfolding xor_known
xor_known_inside r j i acc q ps h = let same : (i % r == j) ≡ true = ground arith in rw same refl
