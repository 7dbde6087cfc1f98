-- ===== src/Fec/Chunks.antt =====
-- The chunks of src/qdap/_rust_bridge.py, _python_fec_encode, joined and cut to the length of the
-- payload, are the payload.
use qdap_protocol.Base.{
  ℕ, zero, suc, ◌+◌, ◌-◌, ◌*◌, ◌≤◌, ◌≡◌, refl, sym, ap, ◌∙◌, [], ◌∷◌, ◌++◌, length, take, drop,
  slice, join, replicate, min, length-append, length-take, length-drop, length-replicate,
  take-append, drop-drop, drop_of_length-le, take_of_length-le, take-append-drop, append_assoc,
  append-nil, leb, leb→le, Bool-cases, true, false, ◌⊎◌, inl, inr, arith,
}
use qdap_protocol.Bytes.{Bytes, All}
use qdap_protocol.Parallel.Plan.{clipped}
use qdap_protocol.Fec.{ljust, chunks_from}

pub length-ljust : (n : ℕ) (p : Bytes) → length p ≤ n → length (ljust n p) ≡ n
length-ljust n p h =
    omega (
      arith,
      length-append p (replicate (n - length p) 0),
      length-replicate {A = ℕ} (n - length p) 0,
    )

pub chunks_from-sizes :
    (n i size : ℕ) (payload : Bytes) → All (λ c. length c ≡ size) (chunks_from n i size payload)
unfolding chunks_from
chunks_from-sizes zero i size payload = tt
chunks_from-sizes (suc n) i size payload = (
  length-ljust size _ (
      omega (
        arith,
        length-take (min (i * size + size) (length payload) - i * size) (drop (i * size) payload),
      )),
  chunks_from-sizes n (suc i) size payload,
)

pub length-chunks_from :
    (n i size : ℕ) (payload : Bytes) → length (chunks_from n i size payload) ≡ n
unfolding chunks_from
length-chunks_from zero i size payload = refl
length-chunks_from (suc n) i size payload = ap suc (length-chunks_from n (suc i) size payload)

take-append_more :
    (m n : ℕ) (xs ys : Bytes) → length xs ≡ m → take (m + n) (xs ++ ys) ≡ xs ++ take n ys
take-append_more m n [] ys h = ap (λ (t : ℕ). take t ys) (omega arith)
take-append_more zero n (x ∷ xs) ys h = absurd (omega arith)
take-append_more (suc m) n (x ∷ xs) ys h =
    let count : suc m + n ≡ suc (m + n) = omega arith in
    ap (λ (t : ℕ). take t (x ∷ (xs ++ ys))) count
    ∙ ap (◌∷◌ x) (take-append_more m n xs ys (omega arith))

-- A whole piece is not padded, the last one is.
pub ljust_whole : (n : ℕ) (p : Bytes) → length p ≡ n → ljust n p ≡ p
ljust_whole n p h =
    let full : n - length p ≡ 0 = omega arith in
    ap (λ (m : ℕ). p ++ replicate m 0) full ∙ append-nil p

-- One chunk: the next `size` bytes of the payload, or its rest and padding.
chunk_whole :
    (size : ℕ) (xs : Bytes)
    → size ≤ length xs
    → ljust size (take (min size (length xs)) xs) ≡ take size xs
chunk_whole size xs h =
    ap (ljust size) (clipped size xs)
    ∙ ljust_whole size (take size xs) (omega (arith, length-take size xs))

chunk_last :
    (size : ℕ) (xs : Bytes)
    → length xs ≤ size
    → ljust size (take (min size (length xs)) xs) ≡ ljust size xs
chunk_last size xs h = ap (ljust size) (clipped size xs ∙ take_of_length-le size xs h)

-- `slice` with its end clipped to the payload.
clipped_slice :
    (size a : ℕ) (payload : Bytes)
    → slice a (min (a + size) (length payload)) payload
      ≡ take (min size (length (drop a payload))) (drop a payload)
clipped_slice size a payload =
    ap (λ (n : ℕ). take n (drop a payload)) (omega (arith, length-drop a payload))

take-join-cons :
    (size : ℕ) (xs rest : Bytes)
    → (size ≤ length xs → take (length xs - size) rest ≡ drop size xs)
    → take (length xs) (ljust size (take (min size (length xs)) xs) ++ rest) ≡ xs
take-join-cons size xs rest later = by (Bool-cases (leb size (length xs)))
  where
    short : leb size (length xs) ≡ false → length xs ≤ size
    short p = ground arith

    by :
        (leb size (length xs) ≡ true) ⊎ (leb size (length xs) ≡ false)
        → take (length xs) (ljust size (take (min size (length xs)) xs) ++ rest) ≡ xs
    by (inl p) =
        let le : size ≤ length xs = leb→le size (length xs) p in
        let parts : length xs ≡ size + (length xs - size) = omega (arith, le) in
        ap (λ t. take (length xs) (t ++ rest)) (chunk_whole size xs le)
        ∙ ap (λ (n : ℕ). take n (take size xs ++ rest)) parts
        ∙ take-append_more size (length xs - size) (take size xs) rest
            (omega (arith, le, length-take size xs))
        ∙ ap (λ t. take size xs ++ t) (later le)
        ∙ take-append-drop size xs
    by (inr p) =
        ap (λ t. take (length xs) (t ++ rest)) (chunk_last size xs (short p))
        ∙ ap (take (length xs)) (append_assoc xs (replicate (size - length xs) 0) rest)
        ∙ take-append (length xs) xs (replicate (size - length xs) 0 ++ rest) refl

pub take-join-chunks_from :
    (n i size : ℕ) (payload : Bytes)
    → length payload ≤ (i + n) * size
    → take (length (drop (i * size) payload)) (join (chunks_from n i size payload))
      ≡ drop (i * size) payload
unfolding chunks_from
take-join-chunks_from zero i size payload h =
    let over : drop (i * size) payload ≡ [] =
      drop_of_length-le (i * size) payload (omega (arith, h)) in
    rw over refl
take-join-chunks_from (suc n) i size payload h =
    let xs : Bytes = drop (i * size) payload in
    let more : drop size (drop (i * size) payload) ≡ drop (suc i * size) payload =
      drop-drop (i * size) size payload ∙ ap (λ (k : ℕ). drop k payload) (omega arith) in
    let count : length (drop (i * size) payload) - size ≡ length (drop (suc i * size) payload) =
      sym (length-drop size (drop (i * size) payload)) ∙ ap length more in
    ap
      (λ t.
        take (length (drop (i * size) payload))
          (ljust size t ++ join (chunks_from n (suc i) size payload)))
      (clipped_slice size (i * size) payload)
    ∙ take-join-cons size (drop (i * size) payload) (join (chunks_from n (suc i) size payload))
        (λ le.
          ap (λ (k : ℕ). take k (join (chunks_from n (suc i) size payload))) count
          ∙ take-join-chunks_from n (suc i) size payload (omega (arith, h))
          ∙ sym more)
