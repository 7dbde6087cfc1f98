-- ===== src/Chunking/Split.antt =====
-- `[xs[i:i + k] for i in range(0, len(xs), k)]` of src/qdap/chunking/chunk_qframe.py: the chunks
-- of a payload, and the batches of a list of chunks.
use native.Mathlib.Nat.{zero-add, suc-add, div-add-mod', mod-lt}
use mathlib.Core.Path.{ap₂}
use qdap_protocol.Base.{
  ℕ, zero, suc, ◌+◌, ◌-◌, ◌*◌, ◌/◌, ◌≤◌, ◌<◌, ◌≡◌, refl, sym, ap, ◌∙◌, List, [], ◌∷◌, ◌++◌, map,
  length, length-take, take, drop, slice, join, drop-drop, take_of_length-le, take-nil, Result, ok,
  err, Error, ◌==◌, if◌then◌else◌, arith,
}
use qdap_protocol.Bytes.{All}

-- The values of range(start, …, step), `n` of them.
unfoldable pub range_step : ℕ → ℕ → ℕ → List ℕ
range_step zero start step = []
range_step (suc n) start step = start ∷ range_step n (start + step) step

-- The number of values of range(0, stop, step), for a positive step.
abbrev pub range_count : ℕ → ℕ → ℕ
range_count stop step = (stop + step - 1) / step

-- range raises ValueError at step 0.
unfoldable pub split {ℓ} : {A : Type ℓ} → ℕ → List A → Result (List (List A))
split size xs =
    if size == 0
    then err Error.value_error
    else ok (map (λ i. slice i (i + size) xs) (range_step (range_count (length xs) size) 0 size))

-- Rounding up, the chunks reach past the end.
pub range_count_covers : (len size : ℕ) → 0 < size → len ≤ range_count len size * size
range_count_covers len size h =
    grind (arith, div-add-mod' (len + size - 1) size, mod-lt (len + size - 1) h)

pub range_count-le : (len size : ℕ) → 0 < size → range_count len size ≤ len
range_count-le len size h =
    grind (arith, div-add-mod' (len + size - 1) size, mod-lt (len + size - 1) h)

length-range_step : (n start step : ℕ) → length (range_step n start step) ≡ n
unfolding range_step
length-range_step zero start step = refl
length-range_step (suc n) start step = ap suc (length-range_step n (start + step) step)

pub length-map {ℓ κ} :
    {A : Type ℓ} {B : Type κ} (f : A → B) (xs : List A) → length (map f xs) ≡ length xs
length-map f [] = refl
length-map f (x ∷ xs) = ap suc (length-map f xs)

module _ {A : Type 0} where
  abbrev pieces : ℕ → ℕ → ℕ → List A → List (List A)
  pieces n start size xs = map (λ i. slice i (i + size) xs) (range_step n start size)

  pieces_short :
      (n start size : ℕ) (xs : List A) → All (λ c. length c ≤ size) (pieces n start size xs)
  unfolding range_step
  pieces_short zero start size xs = tt
  pieces_short (suc n) start size xs = (
    omega (arith, length-take {0} (start + size - start) (drop start xs)),
    pieces_short n (start + size) size xs,
  )

  take-add : (m n : ℕ) (xs : List A) → take m xs ++ take n (drop m xs) ≡ take (m + n) xs
  take-add zero n xs = ap (λ (k : ℕ). take k xs) (sym (zero-add n))
  take-add (suc m) n [] = take-nil n ∙ sym (take-nil (suc m + n))
  take-add (suc m) n (x ∷ xs) =
      ap (◌∷◌ x) (take-add m n xs) ∙ ap (λ (k : ℕ). take k (x ∷ xs)) (sym (suc-add m n))

  join-pieces :
      (n start size : ℕ) (xs : List A)
      → join (pieces n start size xs) ≡ take (n * size) (drop start xs)
  unfolding range_step
  join-pieces zero start size xs =
      let none_left : 0 ≡ 0 * size = omega arith in ap (λ (k : ℕ). take k (drop start xs)) none_left
  join-pieces (suc n) start size xs =
      let one : start + size - start ≡ size = omega arith in
      let all : size + n * size ≡ suc n * size = omega arith in
      ap₂ (λ (k : ℕ) (t : List A). take k (drop start xs) ++ t) one
        (join-pieces n (start + size) size xs)
      ∙ ap (λ (t : List A). take size (drop start xs) ++ take (n * size) t)
          (sym (drop-drop start size xs))
      ∙ take-add size (n * size) (drop start xs)
      ∙ ap (λ (k : ℕ). take k (drop start xs)) all

  -- The chunks of a list, in order, make up the list: nothing is lost, doubled or reordered; their
  -- number is the length over the size, rounded up, and none exceeds the size.
  pub join-split :
      (size : ℕ) (xs : List A)
      → 0 < size
      → (xss : List (List A)) × (split size xs ≡ ok xss)
        × (join xss ≡ xs)
        × (length xss ≡ range_count (length xs) size)
        × All (λ c. length c ≤ size) xss
  unfolding split
  join-split size xs h =
      let n : ℕ = range_count (length xs) size in
      (
        pieces n 0 size xs,
        ground arith,
        join-pieces n 0 size xs
            ∙ take_of_length-le (n * size) xs (range_count_covers (length xs) size h),
        omega (
          arith,
          length-map {0, 0} (λ (i : ℕ). slice i (i + size) xs) (range_step n 0 size),
          length-range_step n 0 size,
        ),
        pieces_short n 0 size xs,
      )
