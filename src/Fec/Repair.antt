-- ===== src/Fec/Repair.antt =====
-- What the repair of one stripe leaves (src/qdap/_rust_bridge.py, _python_fec_decode).
use mathlib.Core.Path.{subst}
use qdap_protocol.Base.{
  ℕ, zero, suc, ◌+◌, ◌-◌, ◌%◌, ◌≤◌, ◌<◌, ◌≡◌, ◌≢◌, refl, sym, ap, ◌∙◌, List, [], ◌∷◌, length,
  replicate, Option, none, some, map, ℕ-eq_or, inl, inr, arith,
}
use qdap_protocol.Bytes.{Bytes, All}
use qdap_protocol.Fec.{xor_known, missing, store, repair}
use qdap_protocol.Fec.Laws.{xor_into-replicate}
use qdap_protocol.Fec.Missing.{
  IsReceived, packet_at, missing_known, missing_lost, missing_outside, missing_above, sum_without,
  head_is, tail_of, packet_at_later, packet_at_first,
}

store-IsReceived :
    (k : ℕ) (cs : List Bytes) (ps : List (Option Bytes))
    → IsReceived cs ps
    → IsReceived cs (store k (packet_at k cs) ps)
store-IsReceived k [] [] v = tt
store-IsReceived k [] (p ∷ ps) v = elim v [ ]
store-IsReceived k (c ∷ cs) [] v = elim v [ ]
store-IsReceived zero (c ∷ cs) (none ∷ ps) v = (refl, v)
store-IsReceived zero (c ∷ cs) (some p ∷ ps) (e, v) = (refl, v)
store-IsReceived (suc k) (c ∷ cs) (none ∷ ps) v = store-IsReceived k cs ps v
store-IsReceived (suc k) (c ∷ cs) (some p ∷ ps) (e, v) = (e, store-IsReceived k cs ps v)

missing_in :
    (r j i m : ℕ) (ms : List ℕ) (ps : List (Option Bytes)) → missing r j i ps ≡ m ∷ ms → m % r ≡ j
unfolding missing
missing_in r j i m ms [] h = absurd (cc)
missing_in r j i m ms (some p ∷ ps) h =
    missing_in r j (suc i) m ms ps (sym (missing_known r j i p ps) ∙ h)
missing_in r j i m ms (none ∷ ps) h = elim (ℕ-eq_or (i % r) j) [
  | inl same ↦
      let first : i ≡ m = ap (head_is 0) (sym (missing_lost r j i ps same) ∙ h) in
      ap (λ (n : ℕ). n % r) (sym first) ∙ same
  | inr other ↦ missing_in r j (suc i) m ms ps (sym (missing_outside r j i none ps other) ∙ h)
]

-- A packet that is stored changes no other stripe.
pub missing-store :
    (r j i k : ℕ) (v : Bytes) (ps : List (Option Bytes))
    → (i + k) % r ≢ j
    → missing r j i (store k v ps) ≡ missing r j i ps
unfolding missing
missing-store r j i k v [] h = refl
missing-store r j i zero v (p ∷ ps) h =
    let other : i % r ≢ j = λ e. h (ap (λ (n : ℕ). n % r) (omega arith) ∙ e) in
    missing_outside r j i (some v) ps other ∙ sym (missing_outside r j i p ps other)
missing-store r j i (suc k) v (some q ∷ ps) h =
    missing_known r j i q (store k v ps)
    ∙ missing-store r j (suc i) k v ps (λ e. h (ap (λ (n : ℕ). n % r) (omega arith) ∙ e))
    ∙ sym (missing_known r j i q ps)
missing-store r j i (suc k) v (none ∷ ps) h =
    let rest : missing r j (suc i) (store k v ps) ≡ missing r j (suc i) ps =
      missing-store r j (suc i) k v ps (λ e. h (ap (λ (n : ℕ). n % r) (omega arith) ∙ e)) in
    elim (ℕ-eq_or (i % r) j) [
      | inl same ↦
          missing_lost r j i (store k v ps) same
          ∙ ap (◌∷◌ i) rest
          ∙ sym (missing_lost r j i ps same)
      | inr other ↦
          missing_outside r j i none (store k v ps) other
          ∙ rest
          ∙ sym (missing_outside r j i none ps other)
    ]

-- The only lost packet of its stripe, stored, leaves none lost.
missing-store_only :
    (r j i m k : ℕ) (v : Bytes) (ps : List (Option Bytes))
    → m ≡ i + k
    → missing r j i ps ≡ m ∷ []
    → missing r j i (store k v ps) ≡ []
unfolding missing
missing-store_only r j i m k v [] at h = refl
missing-store_only r j i m zero v (some q ∷ ps) at h =
    absurd (omega (arith, missing_above r j (suc i) m [] ps (sym (missing_known r j i q ps) ∙ h)))
missing-store_only r j i m (suc k) v (some q ∷ ps) at h =
    missing_known r j i q (store k v ps)
    ∙ missing-store_only r j (suc i) m k v ps (omega arith) (sym (missing_known r j i q ps) ∙ h)
missing-store_only r j i m zero v (none ∷ ps) at h = elim (ℕ-eq_or (i % r) j) [
  | inl same ↦ missing_known r j i v ps ∙ ap tail_of (sym (missing_lost r j i ps same) ∙ h)
  | inr other ↦ absurd (
      omega
        (arith, missing_above r j (suc i) m [] ps (sym (missing_outside r j i none ps other) ∙ h)))
]
missing-store_only r j i m (suc k) v (none ∷ ps) at h = elim (ℕ-eq_or (i % r) j) [
  | inl same ↦
      let first : i ≡ m = ap (head_is 0) (sym (missing_lost r j i ps same) ∙ h) in
      absurd (omega arith)
  | inr other ↦
      missing_outside r j i none (store k v ps) other
      ∙ missing-store_only r j (suc i) m k v ps (omega arith)
          (sym (missing_outside r j i none ps other) ∙ h)
]

length-packet_at :
    (size i m : ℕ) (ms : List ℕ) (r j : ℕ) (cs : List Bytes) (ps : List (Option Bytes))
    → All (λ c. length c ≡ size) cs
    → IsReceived cs ps
    → missing r j i ps ≡ m ∷ ms
    → length (packet_at (m - i) cs) ≡ size
unfolding missing
length-packet_at size i m ms r j [] [] sizes v h = absurd (cc)
length-packet_at size i m ms r j [] (p ∷ ps) sizes v h = elim v [ ]
length-packet_at size i m ms r j (c ∷ cs) [] sizes v h = elim v [ ]
length-packet_at size i m ms r j (c ∷ cs) (some p ∷ ps) sizes v h =
    let rest : missing r j (suc i) ps ≡ m ∷ ms = sym (missing_known r j i p ps) ∙ h in
    ap length (packet_at_later i m c cs (missing_above r j (suc i) m ms ps rest))
    ∙ length-packet_at size (suc i) m ms r j cs ps sizes.1 v.1 rest
length-packet_at size i m ms r j (c ∷ cs) (none ∷ ps) sizes v h = elim (ℕ-eq_or (i % r) j) [
  | inl same ↦
      let first : i ≡ m = ap (head_is 0) (sym (missing_lost r j i ps same) ∙ h) in
      ap length (packet_at_first i m c cs first) ∙ sizes.0
  | inr other ↦
      let rest : missing r j (suc i) ps ≡ m ∷ ms = sym (missing_outside r j i none ps other) ∙ h in
      ap length (packet_at_later i m c cs (missing_above r j (suc i) m ms ps rest))
      ∙ length-packet_at size (suc i) m ms r j cs ps sizes.1 v rest
]

module _ (r j size : ℕ) (cs : List Bytes) (sizes : All (λ c. length c ≡ size) cs) where
  -- The parity of a stripe, from which its one lost packet comes back.
  abbrev pub parity : Bytes
  parity = xor_known r j 0 (replicate size 0) (map some cs)

  pub repair_one :
      (m : ℕ) (ps : List (Option Bytes))
      → IsReceived cs ps
      → missing r j 0 ps ≡ m ∷ []
      → repair r j parity (m ∷ []) ps ≡ store m (packet_at m cs) ps
  unfolding repair
  repair_one m ps v h =
      let from_start : m - 0 ≡ m = omega arith in
      ap (λ t. store m t ps)
        (sum_without r j 0 m (replicate size 0) cs ps v h
          ∙ xor_into-replicate size (packet_at (m - 0) cs)
              (length-packet_at size 0 m [] r j cs ps sizes v h)
          ∙ ap (λ (n : ℕ). packet_at n cs) from_start)

  pub repair-IsReceived :
      (ms : List ℕ) (ps : List (Option Bytes))
      → IsReceived cs ps
      → missing r j 0 ps ≡ ms
      → IsReceived cs (repair r j parity ms ps)
  unfolding repair
  repair-IsReceived [] ps v h = v
  repair-IsReceived (m ∷ []) ps v h =
      subst (IsReceived cs) (sym (repair_one m ps v h)) (store-IsReceived m cs ps v)
  repair-IsReceived (m ∷ n ∷ ms) ps v h = v

-- Another stripe than the repaired one.
pub missing-repair_other :
    (r j j' : ℕ) (parity : Bytes) (ms : List ℕ) (ps : List (Option Bytes))
    → j ≢ j'
    → missing r j 0 ps ≡ ms
    → missing r j' 0 (repair r j parity ms ps) ≡ missing r j' 0 ps
unfolding repair
missing-repair_other r j j' parity [] ps h e = refl
missing-repair_other r j j' parity (m ∷ []) ps h e =
    missing-store r j' 0 m _ ps
      (λ f. h (sym (missing_in r j 0 m [] ps e) ∙ ap (λ (n : ℕ). n % r) (omega arith) ∙ f))
missing-repair_other r j j' parity (m ∷ n ∷ ms) ps h e = refl

-- The repaired stripe: at most one packet was lost, and none is.
pub missing-repair :
    (r j : ℕ) (parity : Bytes) (ms : List ℕ) (ps : List (Option Bytes))
    → missing r j 0 ps ≡ ms
    → length ms ≤ 1
    → missing r j 0 (repair r j parity ms ps) ≡ []
unfolding repair
missing-repair r j parity [] ps e h = e
missing-repair r j parity (m ∷ []) ps e h = missing-store_only r j 0 m m _ ps (omega arith) e
missing-repair r j parity (m ∷ n ∷ ms) ps e h = absurd (omega arith)

-- A stripe that lost two packets or more stays as it is.
pub repair_not :
    (r j : ℕ) (parity : Bytes) (ms : List ℕ) (ps : List (Option Bytes))
    → 1 < length ms
    → repair r j parity ms ps ≡ ps
unfolding repair
repair_not r j parity [] ps h = absurd (omega arith)
repair_not r j parity (m ∷ []) ps h = absurd (omega arith)
repair_not r j parity (m ∷ n ∷ ms) ps h = refl
