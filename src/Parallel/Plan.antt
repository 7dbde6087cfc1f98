-- ===== src/Parallel/Plan.antt =====
-- The plan of src/qdap/transport/parallel_sender.py covers the payload, once and in order.
use qdap_protocol.Base.{
  ℕ, zero, suc, ◌+◌, ◌-◌, ◌*◌, ◌/◌, ◌≤◌, ◌<◌, ◌≡◌, sym, ap, ◌∙◌, true, false, ◌||◌, List, ◌++◌,
  length, take, drop, slice, join, map, length-drop, drop-drop, drop_of_length-le, take-append-drop,
  take_of_length-le, leb, leb→le, Bool-cases, ◌⊎◌, inl, inr, min, ◌==◌, arith,
}
use qdap_protocol.Base.Rounding.{rounded_up}
use qdap_protocol.Bytes.{Bytes}
use qdap_protocol.Parallel.{plan_from, plan_parallel_chunks}

-- The chunks that a plan cuts out of a payload.
abbrev pub cut : Bytes → List (ℕ × ℕ × ℕ × ℕ) → List Bytes
cut payload = map (λ c. slice c.2 c.3 payload)

pub clipped : (n : ℕ) (xs : Bytes) → take (min n (length xs)) xs ≡ take n xs
clipped n xs = by_le (Bool-cases (leb n (length xs)))
  where
    long : leb n (length xs) ≡ false → length xs ≤ n
    long p = ground arith

    by_le :
        (leb n (length xs) ≡ true) ⊎ (leb n (length xs) ≡ false)
        → take (min n (length xs)) xs ≡ take n xs
    by_le (inl p) = ap (λ (k : ℕ). take k xs) (omega (arith, leb→le n (length xs) p))
    by_le (inr p) =
        take_of_length-le (min n (length xs)) xs (omega (arith, long p))
        ∙ sym (take_of_length-le n xs (long p))

joined_cut : (n : ℕ) (xs : Bytes) → take (min n (length xs)) xs ++ drop n xs ≡ xs
joined_cut n xs = ap (λ t. t ++ drop n xs) (clipped n xs) ∙ take-append-drop n xs

join-plan_from :
    (n idx size : ℕ) (payload : Bytes) (n_streams : ℕ)
    → length payload ≤ (idx + n) * size
    → join (cut payload (plan_from n idx (length payload) size n_streams))
      ≡ drop (idx * size) payload
unfolding plan_from
join-plan_from zero idx size payload n_streams h =
    sym (drop_of_length-le (idx * size) payload (omega (arith, h)))
join-plan_from (suc n) idx size payload n_streams h =
    ap (λ t. slice (idx * size) (min (idx * size + size) (length payload)) payload ++ t)
      (join-plan_from n (suc idx) size payload n_streams (omega (arith, h))
        ∙ ap (λ (k : ℕ). drop k payload) (omega arith)
        ∙ sym (drop-drop (idx * size) size payload))
    ∙ ap (λ (k : ℕ). take k (drop (idx * size) payload) ++ drop size (drop (idx * size) payload))
        (omega (arith, length-drop (idx * size) payload))
    ∙ joined_cut size (drop (idx * size) payload)

positive : (size n_streams : ℕ) → 0 < size → 0 < n_streams → (size == 0) || (n_streams == 0) ≡ false
positive size n_streams h k = ground arith

-- For a positive chunk size and a positive number of streams, the chunks of the plan, cut out of any
-- payload of the planned size and joined in the order of the plan, are the payload.
pub join-plan_parallel_chunks :
    (payload : Bytes) (size n_streams : ℕ)
    → 0 < size
    → 0 < n_streams
    → join (cut payload (plan_parallel_chunks (length payload) size n_streams)) ≡ payload
unfolding plan_parallel_chunks
join-plan_parallel_chunks payload size n_streams h k =
    let start : 0 * size ≡ 0 = omega arith in
    rw (positive size n_streams h k) (
      join-plan_from ((length payload + size - 1) / size) 0 size payload n_streams
        (omega (arith, rounded_up size (length payload) h))
      ∙ ap (λ (n : ℕ). drop n payload) start)
