-- ===== src/Fec/Stripes.antt =====
-- The parities of src/qdap/_rust_bridge.py are the sums of their stripes.
use qdap_protocol.Base.{
  ℕ, zero, suc, ◌+◌, ◌%◌, ◌<◌, ◌≡◌, refl, sym, ap, ◌∙◌, List, [], ◌∷◌, some, map, arith,
}
use qdap_protocol.Bytes.{Bytes}
use qdap_protocol.Fec.Laws.{xor_known_outside, xor_known_inside}
use qdap_protocol.Fec.{xor_into, xor_known, xor_at, add_parities}

-- The sums of the stripes from `j` on, each on top of a packet.
unfoldable pub stripes : ℕ → ℕ → List Bytes → ℕ → List Bytes → List Bytes
stripes r i chunks j [] = []
stripes r i chunks j (p ∷ ps) = xor_known r j i p (map some chunks) ∷ stripes r i chunks (suc j) ps

stripes-nil : (r i j : ℕ) (ps : List Bytes) → stripes r i [] j ps ≡ ps
unfolding stripes xor_known
stripes-nil r i j [] = refl
stripes-nil r i j (p ∷ ps) = ap (◌∷◌ p) (stripes-nil r i (suc j) ps)

-- A stripe below the first one of the list takes no chunk.
stripes_below :
    (r i : ℕ) (c : Bytes) (cs : List Bytes) (j : ℕ) (ps : List Bytes)
    → i % r < j
    → stripes r i (c ∷ cs) j ps ≡ stripes r (suc i) cs j ps
unfolding stripes xor_known
stripes_below r i c cs j [] h = refl
stripes_below r i c cs j (p ∷ ps) h =
    ap (λ t. t ∷ stripes r i (c ∷ cs) (suc j) ps)
      (xor_known_outside r j i p c (map some cs) (omega arith))
    ∙ ap (λ t. xor_known r j (suc i) p (map some cs) ∷ t)
        (stripes_below r i c cs (suc j) ps (omega arith))

stripes-cons :
    (r i : ℕ) (c : Bytes) (cs : List Bytes) (j m : ℕ) (ps : List Bytes)
    → i % r ≡ j + m
    → stripes r i (c ∷ cs) j ps ≡ stripes r (suc i) cs j (xor_at m c ps)
unfolding stripes xor_known xor_at
stripes-cons r i c cs j m [] h = refl
stripes-cons r i c cs j zero (p ∷ ps) h =
    ap (λ t. t ∷ stripes r i (c ∷ cs) (suc j) ps)
      (xor_known_inside r j i p c (map some cs) (omega arith))
    ∙ ap (λ t. xor_known r j (suc i) (xor_into p c) (map some cs) ∷ t)
        (stripes_below r i c cs (suc j) ps (omega arith))
stripes-cons r i c cs j (suc m) (p ∷ ps) h =
    ap (λ t. t ∷ stripes r i (c ∷ cs) (suc j) ps)
      (xor_known_outside r j i p c (map some cs) (omega arith))
    ∙ ap (λ t. xor_known r j (suc i) p (map some cs) ∷ t)
        (stripes-cons r i c cs (suc j) m ps (omega arith))

pub add_parities-stripes :
    (r i : ℕ) (chunks ps : List Bytes) → add_parities r i chunks ps ≡ stripes r i chunks 0 ps
unfolding add_parities
add_parities-stripes r i [] ps = sym (stripes-nil r i 0 ps)
add_parities-stripes r i (c ∷ cs) ps =
    add_parities-stripes r (suc i) cs (xor_at (i % r) c ps)
    ∙ sym (stripes-cons r i c cs 0 (i % r) ps (omega arith))
