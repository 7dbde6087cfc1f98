-- ===== src/Fec/Missing.antt =====
-- Which packets of a stripe are lost, and the stripe's sum over the others
-- (src/qdap/_rust_bridge.py, _python_fec_decode).
use qdap_protocol.Base.{
  ℕ, zero, suc, ◌-◌, ◌%◌, ◌≤◌, ◌≡◌, ◌≢◌, refl, sym, ap, ◌∙◌, true, false, List, [], ◌∷◌, Option,
  none, some, map, ◌==◌, ℕ-eq_or, inl, inr, arith,
}
use qdap_protocol.Bytes.{Bytes}
use qdap_protocol.Fec.{xor_into, xor_known, missing}
use qdap_protocol.Fec.Laws.{
  xor_into_cancel, xor_known-xor_into, xor_known_inside, xor_known_outside,
}

-- Every packet of the list is lost, or the one that was sent.
abbrev pub IsReceived : List Bytes → List (Option Bytes) → Type 0
IsReceived [] [] = Unit
IsReceived [] (p ∷ ps) = ⊥
IsReceived (c ∷ cs) [] = ⊥
IsReceived (c ∷ cs) (none ∷ ps) = IsReceived cs ps
IsReceived (c ∷ cs) (some p ∷ ps) = (p ≡ c) × IsReceived cs ps

abbrev pub packet_at : ℕ → List Bytes → Bytes
packet_at n [] = []
packet_at zero (c ∷ cs) = c
packet_at (suc n) (c ∷ cs) = packet_at n cs

pub missing_outside :
    (r j i : ℕ) (p : Option Bytes) (ps : List (Option Bytes))
    → i % r ≢ j
    → missing r j i (p ∷ ps) ≡ missing r j (suc i) ps
unfolding missing
missing_outside r j i p ps h = let other : (i % r == j) ≡ false = ground arith in rw other refl

pub missing_known :
    (r j i : ℕ) (q : Bytes) (ps : List (Option Bytes))
    → missing r j i (some q ∷ ps) ≡ missing r j (suc i) ps
unfolding missing
missing_known r j i q ps = ground arith

pub missing_lost :
    (r j i : ℕ) (ps : List (Option Bytes))
    → i % r ≡ j
    → missing r j i (none ∷ ps) ≡ i ∷ missing r j (suc i) ps
unfolding missing
missing_lost r j i ps h = let same : (i % r == j) ≡ true = ground arith in rw same refl

-- A packet that the sum over all of the stripe and the sum over what arrived both hold.
sums_cancel :
    (r j i : ℕ) (acc c p : Bytes) (cs : List Bytes) (ps : List (Option Bytes))
    → p ≡ c
    → xor_known r j i (xor_known r j i acc (some c ∷ map some cs)) (some p ∷ ps)
      ≡ xor_known r j (suc i) (xor_known r j (suc i) acc (map some cs)) ps
sums_cancel r j i acc c p cs ps e = elim (ℕ-eq_or (i % r) j) [
  | inl h ↦
      ap (λ t. xor_known r j i t (some p ∷ ps)) (xor_known_inside r j i acc c (map some cs) h)
      ∙ xor_known_inside r j i _ p ps h
      ∙ ap (λ t. xor_known r j (suc i) t ps)
          (sym (xor_known-xor_into r j (suc i) (xor_into acc c) p (map some cs))
            ∙ ap (λ t. xor_known r j (suc i) (xor_into (xor_into acc c) t) (map some cs)) e
            ∙ ap (λ t. xor_known r j (suc i) t (map some cs)) (xor_into_cancel acc c))
  | inr h ↦
      ap (λ t. xor_known r j i t (some p ∷ ps)) (xor_known_outside r j i acc c (map some cs) h)
      ∙ xor_known_outside r j i _ p ps h
]

-- Nothing of the stripe is lost: the sum over it, twice, is what it was on top of.
sum_twice :
    (r j i : ℕ) (acc : Bytes) (cs : List Bytes) (ps : List (Option Bytes))
    → IsReceived cs ps
    → missing r j i ps ≡ []
    → xor_known r j i (xor_known r j i acc (map some cs)) ps ≡ acc
unfolding xor_known missing
sum_twice r j i acc [] [] v h = refl
sum_twice r j i acc [] (p ∷ ps) v h = elim v [ ]
sum_twice r j i acc (c ∷ cs) [] v h = elim v [ ]
sum_twice r j i acc (c ∷ cs) (some p ∷ ps) (e, v) h =
    sums_cancel r j i acc c p cs ps e
    ∙ sum_twice r j (suc i) acc cs ps v (sym (missing_known r j i p ps) ∙ h)
sum_twice r j i acc (c ∷ cs) (none ∷ ps) v h = elim (ℕ-eq_or (i % r) j) [
  | inl same ↦ absurd (cc (missing_lost r j i ps same, h))
  | inr other ↦
      ap (λ t. xor_known r j (suc i) t ps) (xor_known_outside r j i acc c (map some cs) other)
      ∙ sum_twice r j (suc i) acc cs ps v (sym (missing_outside r j i none ps other) ∙ h)
]

pub missing_above :
    (r j i m : ℕ) (ms : List ℕ) (ps : List (Option Bytes)) → missing r j i ps ≡ m ∷ ms → i ≤ m
unfolding missing
missing_above r j i m ms [] h = absurd (cc)
missing_above r j i m ms (some p ∷ ps) h =
    omega (arith, missing_above r j (suc i) m ms ps (sym (missing_known r j i p ps) ∙ h))
missing_above r j i m ms (none ∷ ps) h = elim (ℕ-eq_or (i % r) j) [
  | inl same ↦ ground (arith, missing_lost r j i ps same)
  | inr other ↦
      omega
        (arith, missing_above r j (suc i) m ms ps (sym (missing_outside r j i none ps other) ∙ h))
]

abbrev pub head_is : ℕ → List ℕ → ℕ
head_is d [] = d
head_is d (m ∷ ms) = m

abbrev pub tail_of : List ℕ → List ℕ
tail_of [] = []
tail_of (m ∷ ms) = ms

pub packet_at_later :
    (i m : ℕ) (c : Bytes) (cs : List Bytes)
    → suc i ≤ m
    → packet_at (m - i) (c ∷ cs) ≡ packet_at (m - suc i) cs
packet_at_later i m c cs h = let later : m - i ≡ suc (m - suc i) = omega arith in rw later refl

pub packet_at_first :
    (i m : ℕ) (c : Bytes) (cs : List Bytes) → i ≡ m → packet_at (m - i) (c ∷ cs) ≡ c
packet_at_first i m c cs h = let first : m - i ≡ 0 = omega arith in rw first refl

-- Exactly one packet of the stripe is lost: the two sums leave that packet.
pub sum_without :
    (r j i m : ℕ) (acc : Bytes) (cs : List Bytes) (ps : List (Option Bytes))
    → IsReceived cs ps
    → missing r j i ps ≡ m ∷ []
    → xor_known r j i (xor_known r j i acc (map some cs)) ps ≡ xor_into acc (packet_at (m - i) cs)
unfolding xor_known missing
sum_without r j i m acc [] [] v h = absurd (cc)
sum_without r j i m acc [] (p ∷ ps) v h = elim v [ ]
sum_without r j i m acc (c ∷ cs) [] v h = elim v [ ]
sum_without r j i m acc (c ∷ cs) (some p ∷ ps) (e, v) h =
    let later : missing r j (suc i) ps ≡ m ∷ [] = sym (missing_known r j i p ps) ∙ h in
    sums_cancel r j i acc c p cs ps e
    ∙ sum_without r j (suc i) m acc cs ps v later
    ∙ ap (xor_into acc) (sym (packet_at_later i m c cs (missing_above r j (suc i) m [] ps later)))
sum_without r j i m acc (c ∷ cs) (none ∷ ps) v h = elim (ℕ-eq_or (i % r) j) [
  | inl same ↦
      let found : i ∷ missing r j (suc i) ps ≡ m ∷ [] = sym (missing_lost r j i ps same) ∙ h in
      ap (λ t. xor_known r j (suc i) t ps) (xor_known_inside r j i acc c (map some cs) same)
      ∙ sum_twice r j (suc i) (xor_into acc c) cs ps v (ap tail_of found)
      ∙ ap (xor_into acc) (sym (packet_at_first i m c cs (ap (head_is 0) found)))
  | inr other ↦
      let later : missing r j (suc i) ps ≡ m ∷ [] = sym (missing_outside r j i none ps other) ∙ h in
      ap (λ t. xor_known r j (suc i) t ps) (xor_known_outside r j i acc c (map some cs) other)
      ∙ sum_without r j (suc i) m acc cs ps v later
      ∙ ap (xor_into acc) (sym (packet_at_later i m c cs (missing_above r j (suc i) m [] ps later)))
]
