-- ===== src/Fec/Losses.antt =====
-- Counting the lost packets of a code word by stripes (src/qdap/_rust_bridge.py).
use native.Mathlib.Nat.{mod-lt}
use qdap_protocol.Base.{
  ℕ, zero, suc, ◌+◌, ◌%◌, ◌≤◌, ◌<◌, ◌≡◌, refl, sym, ap, ◌∙◌, List, [], ◌∷◌, ◌++◌, length, take,
  drop, take-append-drop, Option, none, some, inl, inr, ℕ-eq_or, arith,
}
use qdap_protocol.Bytes.{Bytes}
use qdap_protocol.Fec.{missing, count_lost}
use qdap_protocol.Fec.Missing.{missing_known, missing_lost, missing_outside}
use qdap_protocol.Fec.Recovery.{IsRecoverable}

-- The losses of the `n` stripes from `j` on.
total : ℕ → ℕ → ℕ → ℕ → List (Option Bytes) → ℕ
total r j zero i ps = 0
total r j (suc n) i ps = length (missing r j i ps) + total r (suc j) n i ps

total-nil : (r j n i : ℕ) → total r j n i [] ≡ 0
unfolding total missing
total-nil r j zero i = refl
total-nil r j (suc n) i = omega (arith, total-nil r (suc j) n i)

total_known :
    (r j n i : ℕ) (q : Bytes) (ps : List (Option Bytes))
    → total r j n i (some q ∷ ps) ≡ total r j n (suc i) ps
unfolding total
total_known r j zero i q ps = refl
total_known r j (suc n) i q ps =
    omega (arith, ap length (missing_known r j i q ps), total_known r (suc j) n i q ps)

total_before :
    (r j n i : ℕ) (ps : List (Option Bytes))
    → i % r < j
    → total r j n i (none ∷ ps) ≡ total r j n (suc i) ps
unfolding total
total_before r j zero i ps h = refl
total_before r j (suc n) i ps h = omega (
  arith,
  ap length (missing_outside r j i none ps (λ e. absurd (omega arith))),
  total_before r (suc j) n i ps (omega arith),
)

total_lost :
    (r j n i : ℕ) (ps : List (Option Bytes))
    → j ≤ i % r
    → i % r < j + n
    → total r j n i (none ∷ ps) ≡ suc (total r j n (suc i) ps)
unfolding total
total_lost r j zero i ps from to = absurd (omega arith)
total_lost r j (suc n) i ps from to = elim (ℕ-eq_or (i % r) j) [
  | inl e ↦
      omega
        (arith, ap length (missing_lost r j i ps e), total_before r (suc j) n i ps (omega arith))
  | inr other ↦ omega (
    arith,
    ap length (missing_outside r j i none ps other),
    total_lost r (suc j) n i ps (omega arith) (omega arith),
  )
]

-- Every lost packet is lost in one stripe.
count_lost-total : (r i : ℕ) (ps : List (Option Bytes)) → 0 < r → total r 0 r i ps ≡ count_lost ps
count_lost-total r i [] pos = total-nil r 0 r i
count_lost-total r i (some q ∷ ps) pos =
    total_known r 0 r i q ps ∙ count_lost-total r (suc i) ps pos
count_lost-total r i (none ∷ ps) pos =
    total_lost r 0 r i ps (omega arith) (omega (arith, mod-lt i pos))
    ∙ ap suc (count_lost-total r (suc i) ps pos)

total_le :
    (r j : ℕ) (ps parities : List (Option Bytes))
    → IsRecoverable r j ps parities
    → total r j (length parities) 0 ps + count_lost parities ≤ length parities
unfolding total
total_le r j ps [] v = omega arith
total_le r j ps (none ∷ parities) (h, v) = omega (arith, total_le r (suc j) ps parities v)
total_le r j ps (some p ∷ parities) (h, v) = omega (arith, total_le r (suc j) ps parities v)

count_lost-append :
    (ps qs : List (Option Bytes)) → count_lost (ps ++ qs) ≡ count_lost ps + count_lost qs
count_lost-append [] qs = omega arith
count_lost-append (none ∷ ps) qs = omega (arith, count_lost-append ps qs)
count_lost-append (some p ∷ ps) qs = omega (arith, count_lost-append ps qs)

-- At most one loss in each of the `r` stripes is at most `r` losses.
pub losses-le :
    (r : ℕ) (ps parities : List (Option Bytes))
    → 0 < r
    → length parities ≡ r
    → IsRecoverable r 0 ps parities
    → count_lost ps + count_lost parities ≤ r
losses-le r ps parities pos size v =
    let stripes_of : total r 0 (length parities) 0 ps ≡ count_lost ps =
      ap (λ (n : ℕ). total r 0 n 0 ps) size ∙ count_lost-total r 0 ps pos in
    omega (arith, total_le r 0 ps parities v, stripes_of, size)

pub count_lost-le :
    (k r : ℕ) (packets : List (Option Bytes))
    → 0 < r
    → length (drop k packets) ≡ r
    → IsRecoverable r 0 (take k packets) (drop k packets)
    → count_lost packets ≤ r
count_lost-le k r packets pos size v =
    let whole : count_lost packets ≡ count_lost (take k packets) + count_lost (drop k packets) =
      ap count_lost (sym (take-append-drop k packets))
      ∙ count_lost-append (take k packets) (drop k packets) in
    omega (arith, losses-le r (take k packets) (drop k packets) pos size v, whole)
