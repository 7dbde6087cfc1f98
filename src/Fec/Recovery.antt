-- ===== src/Fec/Recovery.antt =====
-- The loop over the parities (src/qdap/_rust_bridge.py, _python_fec_decode): every stripe that lost
-- one packet at most comes back whole, every other stripe keeps a hole.
use mathlib.Core.Path.{subst}
use native.Mathlib.Nat.{mod-lt}
use qdap_protocol.Base.{
  ℕ, zero, suc, ◌+◌, ◌%◌, ◌≤◌, ◌<◌, ◌≡◌, refl, sym, ap, ◌∙◌, List, [], ◌∷◌, length, replicate,
  Option, none, some, if◌then◌else◌, ℕ-eq_or, ◌⊎◌, inl, inr, arith,
}
use qdap_protocol.Bytes.{Bytes, All}
use qdap_protocol.Fec.{missing, repair, repair_all, lost, all_there}
use qdap_protocol.Fec.Stripes.{stripes}
use qdap_protocol.Fec.Missing.{IsReceived, missing_known, missing_lost}
use qdap_protocol.Fec.Repair.{repair-IsReceived, missing-repair, missing-repair_other, repair_not}

-- The losses of one stripe, its parity counted.
abbrev pub stripe_losses : ℕ → ℕ → List (Option Bytes) → Option Bytes → ℕ
stripe_losses r j ps p = length (missing r j 0 ps) + (if lost p then 1 else 0)

-- From parity `j` on, each stripe lost one packet at most; some stripe lost two or more.
abbrev pub IsRecoverable : ℕ → ℕ → List (Option Bytes) → List (Option Bytes) → Type 0
IsRecoverable r j ps [] = Unit
IsRecoverable r j ps (p ∷ parities) =
    (stripe_losses r j ps p ≤ 1) × IsRecoverable r (suc j) ps parities

abbrev pub HasBadStripe : ℕ → ℕ → List (Option Bytes) → List (Option Bytes) → Type 0
HasBadStripe r j ps [] = ⊥
HasBadStripe r j ps (p ∷ parities) =
    (1 < stripe_losses r j ps p) ⊎ HasBadStripe r (suc j) ps parities

-- Packets with the same losses in the stripes from `j` on.
abbrev pub SameFrom : ℕ → ℕ → List (Option Bytes) → List (Option Bytes) → Type 0
SameFrom r j ps qs = (n : ℕ) → j ≤ n → missing r n 0 ps ≡ missing r n 0 qs

pub transfer-IsRecoverable :
    (r j : ℕ) (ps qs parities : List (Option Bytes))
    → SameFrom r j ps qs
    → IsRecoverable r j ps parities
    → IsRecoverable r j qs parities
transfer-IsRecoverable r j ps qs [] same v = tt
transfer-IsRecoverable r j ps qs (p ∷ parities) same (h, v) = (
  omega (arith, ap length (same j (omega arith))),
  transfer-IsRecoverable r (suc j) ps qs parities (λ n le. same n (omega arith)) v,
)

transfer-HasBadStripe :
    (r j : ℕ) (ps qs parities : List (Option Bytes))
    → SameFrom r j ps qs
    → HasBadStripe r j ps parities
    → HasBadStripe r j qs parities
transfer-HasBadStripe r j ps qs [] same v = v
transfer-HasBadStripe r j ps qs (p ∷ parities) same (inl h) =
    inl (omega (arith, ap length (same j (omega arith))))
transfer-HasBadStripe r j ps qs (p ∷ parities) same (inr v) =
    inr (transfer-HasBadStripe r (suc j) ps qs parities (λ n le. same n (omega arith)) v)

-- The repair of stripe `j` leaves the later ones.
repair_same :
    (r j : ℕ) (p : Bytes) (ps : List (Option Bytes))
    → SameFrom r (suc j) ps (repair r j p (missing r j 0 ps) ps)
repair_same r j p ps n le =
    sym (missing-repair_other r j n p (missing r j 0 ps) ps (λ e. absurd (omega arith)) refl)

-- The loop from parity `j` on leaves the stripes before it.
pub missing-repair_all_before :
    (r j n : ℕ) (parities ps : List (Option Bytes))
    → n < j
    → missing r n 0 (repair_all r j parities ps) ≡ missing r n 0 ps
unfolding repair_all
missing-repair_all_before r j n [] ps h = refl
missing-repair_all_before r j n (none ∷ parities) ps h =
    missing-repair_all_before r (suc j) n parities ps (omega arith)
missing-repair_all_before r j n (some p ∷ parities) ps h =
    missing-repair_all_before r (suc j) n parities _ (omega arith)
    ∙ missing-repair_other r j n p (missing r j 0 ps) ps (λ e. absurd (omega arith)) refl

empty_of_length : (xs : List ℕ) → length xs ≤ 0 → xs ≡ []
empty_of_length [] h = refl
empty_of_length (x ∷ xs) h = absurd (omega arith)

module _ (r size : ℕ) (cs : List Bytes) (sizes : All (λ c. length c ≡ size) cs) where
  -- The parities from `j` on, as they were sent.
  abbrev pub sent_parities : ℕ → ℕ → List Bytes
  sent_parities j n = stripes r 0 cs j (replicate n (replicate size 0))

  pub repair_all-IsReceived :
      (n j : ℕ) (parities ps : List (Option Bytes))
      → IsReceived cs ps
      → IsReceived (sent_parities j n) parities
      → IsReceived cs (repair_all r j parities ps)
  unfolding repair_all stripes
  repair_all-IsReceived n j [] ps v w = v
  repair_all-IsReceived zero j (p ∷ parities) ps v w = elim w [ ]
  repair_all-IsReceived (suc n) j (none ∷ parities) ps v w =
      repair_all-IsReceived n (suc j) parities ps v w
  repair_all-IsReceived (suc n) j (some p ∷ parities) ps v (e, w) =
      repair_all-IsReceived n (suc j) parities _
        (subst (λ q. IsReceived cs (repair r j q (missing r j 0 ps) ps)) (sym e)
          (repair-IsReceived r j size cs sizes (missing r j 0 ps) ps v refl))
        w

-- A stripe that lost at most one packet, its parity counted, has none lost after the loop.
pub missing-repair_all :
    (r j n : ℕ) (parities ps : List (Option Bytes))
    → IsRecoverable r j ps parities
    → j ≤ n
    → n < j + length parities
    → missing r n 0 (repair_all r j parities ps) ≡ []
unfolding repair_all
missing-repair_all r j n [] ps v from to = absurd (omega arith)
missing-repair_all r j n (none ∷ parities) ps (h, v) from to = elim (ℕ-eq_or n j) [
  | inl e ↦
      missing-repair_all_before r (suc j) n parities ps (omega arith)
      ∙ ap (λ (t : ℕ). missing r t 0 ps) e
      ∙ empty_of_length (missing r j 0 ps) (omega arith)
  | inr other ↦ missing-repair_all r (suc j) n parities ps v (omega arith) (omega arith)
]
missing-repair_all r j n (some p ∷ parities) ps (h, v) from to = elim (ℕ-eq_or n j) [
  | inl e ↦
      missing-repair_all_before r (suc j) n parities _ (omega arith)
      ∙ ap (λ (t : ℕ). missing r t 0 (repair r j p (missing r j 0 ps) ps)) e
      ∙ missing-repair r j p (missing r j 0 ps) ps refl (omega arith)
  | inr other ↦
      missing-repair_all r (suc j) n parities _
        (transfer-IsRecoverable r (suc j) ps _ parities (repair_same r j p ps) v) (omega arith)
        (omega arith)
]

-- A stripe that lost two packets or more, its parity counted, has one lost after the loop.
pub repair_all_hole :
    (r j : ℕ) (parities ps : List (Option Bytes))
    → HasBadStripe r j ps parities
    → (n : ℕ) × (0 < length (missing r n 0 (repair_all r j parities ps)))
unfolding repair_all
repair_all_hole r j [] ps v = elim v [ ]
repair_all_hole r j (none ∷ parities) ps (inl h) =
    (j, omega (arith, ap length (missing-repair_all_before r (suc j) j parities ps (omega arith))))
repair_all_hole r j (none ∷ parities) ps (inr v) = repair_all_hole r (suc j) parities ps v
repair_all_hole r j (some p ∷ parities) ps (inl h) = (
  j,
  rw (repair_not r j p (missing r j 0 ps) ps (omega arith))
      (omega (arith, ap length (missing-repair_all_before r (suc j) j parities ps (omega arith)))),
)
repair_all_hole r j (some p ∷ parities) ps (inr v) =
    repair_all_hole r (suc j) parities _
      (transfer-HasBadStripe r (suc j) ps _ parities (repair_same r j p ps) v)

-- No stripe lost a packet: every packet is there, as it was sent.
pub all_there-eq_some :
    (r i : ℕ) (cs : List Bytes) (ps : List (Option Bytes))
    → 0 < r
    → IsReceived cs ps
    → ((j : ℕ) → j < r → missing r j i ps ≡ [])
    → all_there ps ≡ some cs
unfolding missing
all_there-eq_some r i [] [] pos v h = refl
all_there-eq_some r i [] (p ∷ ps) pos v h = elim v [ ]
all_there-eq_some r i (c ∷ cs) [] pos v h = elim v [ ]
all_there-eq_some r i (c ∷ cs) (none ∷ ps) pos v h =
    absurd (cc (missing_lost r (i % r) i ps refl, h (i % r) (mod-lt i pos)))
all_there-eq_some r i (c ∷ cs) (some p ∷ ps) pos (e, v) h =
    rw (all_there-eq_some r (suc i) cs ps pos v (λ j lt. sym (missing_known r j i p ps) ∙ h j lt))
      (ap (λ t. some (t ∷ cs)) e)

-- A stripe lost a packet: not all are there.
pub all_there-eq_none :
    (r j i : ℕ) (ps : List (Option Bytes)) → 0 < length (missing r j i ps) → all_there ps ≡ none
unfolding missing
all_there-eq_none r j i [] h = absurd (omega arith)
all_there-eq_none r j i (none ∷ ps) h = refl
all_there-eq_none r j i (some p ∷ ps) h =
    rw (all_there-eq_none r j (suc i) ps (omega (arith, ap length (missing_known r j i p ps)))) refl
