-- ===== src/Fec/Codec/Padding.antt =====
-- Packets of different lengths, filled up with zeros (src/qdap/transport/fec.py).
use qdap_protocol.Base.{
  ℕ, zero, suc, ◌-◌, ◌%◌, ◌≤◌, ◌≡◌, refl, sym, ap, ◌∙◌, List, [], ◌∷◌, ◌++◌, length, replicate, map,
  Option, none, some, ◌==◌, if◌then◌else◌, ℕ-eq_or, inl, inr, arith,
}
use qdap_protocol.Base.Xor.{bit_xor-zero}
use qdap_protocol.Bytes.{Bytes, All}
use qdap_protocol.Fec.{ljust, xor_into, xor_known, missing, store, all_there}
use qdap_protocol.Fec.Laws.{xor_known_inside, xor_known_outside}
use qdap_protocol.Fec.Chunks.{length-ljust}
use qdap_protocol.Fec.Codec.{xor_stripe, max_length}

abbrev pub pad_all : ℕ → List (Option Bytes) → List (Option Bytes)
pad_all n [] = []
pad_all n (none ∷ ps) = none ∷ pad_all n ps
pad_all n (some p ∷ ps) = some (ljust n p) ∷ pad_all n ps

xor_into-replicate_zero : (n : ℕ) (acc : Bytes) → xor_into acc (replicate n 0) ≡ acc
unfolding xor_into
xor_into-replicate_zero zero acc = refl
xor_into-replicate_zero (suc n) [] = refl
xor_into-replicate_zero (suc n) (a ∷ acc) = rw (bit_xor-zero a, xor_into-replicate_zero n acc) refl

-- Padding changes no exclusive or.
pub xor_into-ljust : (n : ℕ) (acc p : Bytes) → xor_into acc (p ++ replicate n 0) ≡ xor_into acc p
unfolding xor_into
xor_into-ljust n acc [] = xor_into-replicate_zero n acc
xor_into-ljust n [] (b ∷ p) = refl
xor_into-ljust n (a ∷ acc) (b ∷ p) = rw (xor_into-ljust n acc p) refl

pub xor_known-pad_all :
    (n r j i : ℕ) (acc : Bytes) (ps : List (Option Bytes))
    → xor_known r j i acc (pad_all n ps) ≡ xor_known r j i acc ps
unfolding xor_known
xor_known-pad_all n r j i acc [] = refl
xor_known-pad_all n r j i acc (none ∷ ps) = xor_known-pad_all n r j (suc i) acc ps
xor_known-pad_all n r j i acc (some p ∷ ps) = elim (ℕ-eq_or (i % r) j) [
  | inl e ↦
      xor_known_inside r j i acc (ljust n p) (pad_all n ps) e
      ∙ ap (λ t. xor_known r j (suc i) t (pad_all n ps)) (xor_into-ljust (n - length p) acc p)
      ∙ xor_known-pad_all n r j (suc i) (xor_into acc p) ps
      ∙ sym (xor_known_inside r j i acc p ps e)
  | inr e ↦
      xor_known_outside r j i acc (ljust n p) (pad_all n ps) e
      ∙ xor_known-pad_all n r j (suc i) acc ps
      ∙ sym (xor_known_outside r j i acc p ps e)
]

pub missing-pad_all :
    (n r j i : ℕ) (ps : List (Option Bytes)) → missing r j i (pad_all n ps) ≡ missing r j i ps
unfolding missing
missing-pad_all n r j i [] = refl
missing-pad_all n r j i (none ∷ ps) = rw (missing-pad_all n r j (suc i) ps) refl
missing-pad_all n r j i (some p ∷ ps) = rw (missing-pad_all n r j (suc i) ps) refl

pub pad_all-store :
    (n k : ℕ) (v : Bytes) (ps : List (Option Bytes))
    → pad_all n (store k v ps) ≡ store k (ljust n v) (pad_all n ps)
pad_all-store n k v [] = refl
pad_all-store n zero v (none ∷ ps) = refl
pad_all-store n zero v (some p ∷ ps) = refl
pad_all-store n (suc k) v (none ∷ ps) = ap (◌∷◌ none) (pad_all-store n k v ps)
pad_all-store n (suc k) v (some p ∷ ps) = ap (◌∷◌ (some (ljust n p))) (pad_all-store n k v ps)

-- A stripe of packets that are all there.
pub xor_stripe-xor_known :
    (r j i : ℕ) (acc : Bytes) (ps : List Bytes)
    → xor_stripe r j i acc ps ≡ xor_known r j i acc (map some ps)
unfolding xor_stripe xor_known
xor_stripe-xor_known r j i acc [] = refl
xor_stripe-xor_known r j i acc (p ∷ ps) =
    xor_stripe-xor_known r j (suc i) (if i % r == j then xor_into acc p else acc) ps

-- All packets there, padded, are the padded packets.
pub all_there-pad_all :
    (n : ℕ) (ps : List (Option Bytes)) (there : List Bytes)
    → all_there (pad_all n ps) ≡ some there
    → (raw : List Bytes) × (all_there ps ≡ some raw) × (map (ljust n) raw ≡ there)
all_there-pad_all n [] there h = ([], refl, cc)
all_there-pad_all n (none ∷ ps) there h = absurd (cc)
all_there-pad_all n (some p ∷ ps) there h =
    by (all_there (pad_all n ps)) refl (all_there-pad_all n ps)
  where
    by :
        (o : Option (List Bytes))
        → all_there (pad_all n ps) ≡ o
        → ((qs : List Bytes)
            → all_there (pad_all n ps) ≡ some qs
            → (raw : List Bytes) × (all_there ps ≡ some raw) × (map (ljust n) raw ≡ qs))
        → (raw : List Bytes) × (all_there (some p ∷ ps) ≡ some raw) × (map (ljust n) raw ≡ there)
    by none e rest = absurd (cc (rw e at h))
    by (some qs) e rest =
        let (raw, found, same) = rest qs e in (p ∷ raw, rw found refl, cc (rw e at h, same))

pub ljust-sizes :
    (n : ℕ) (ps : List Bytes) → max_length ps ≤ n → All (λ c. length c ≡ n) (map (ljust n) ps)
ljust-sizes n [] h = tt
ljust-sizes n (p ∷ ps) h = (length-ljust n p (omega arith), ljust-sizes n ps (omega arith))
