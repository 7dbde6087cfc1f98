-- ===== src/Bytes.antt =====
-- Bytes and the integer codes of Python's `struct`: a `bytes` value is a list of numbers below
-- 256, `>` and `!` formats put the highest byte first, `<` formats the lowest. A pack raises
-- struct.error for a number that does not fit; an unpack wants exactly its number of bytes.
pub mod Laws
use qdap_protocol.Base.{
  ℕ, zero, suc, ◌+◌, ◌*◌, ◌/◌, ◌%◌, ◌^◌, ◌<◌, List, [], ◌∷◌, ◌++◌, length, slice, Result, ok, err,
  Error, ltb, ◌==◌, if◌then◌else◌,
}

abbrev pub Bytes : Type 0
Bytes = List ℕ

abbrev pub IsByte : ℕ → Type 0
IsByte b = b < 256

abbrev pub All {ℓ κ} : {A : Type ℓ} → (A → Type κ) → List A → Type κ
All P [] = Unit
All P (x ∷ xs) = P x × All P xs

-- The `w` bytes of `n`, highest first and lowest first.
unfoldable pub be_bytes : ℕ → ℕ → Bytes
be_bytes zero n = []
be_bytes (suc w) n = be_bytes w (n / 256) ++ (n % 256 ∷ [])

unfoldable pub le_bytes : ℕ → ℕ → Bytes
le_bytes zero n = []
le_bytes (suc w) n = (n % 256) ∷ le_bytes w (n / 256)

-- The number that some bytes stand for.
unfoldable pub be_number_from : ℕ → Bytes → ℕ
be_number_from acc [] = acc
be_number_from acc (b ∷ bs) = be_number_from (acc * 256 + b) bs

unfoldable pub be_number : Bytes → ℕ
be_number bs = be_number_from 0 bs

unfoldable pub le_number : Bytes → ℕ
le_number [] = 0
le_number (b ∷ bs) = b + 256 * le_number bs

-- struct.pack with one unsigned code of `w` bytes
unfoldable pub pack_be : ℕ → ℕ → Result Bytes
pack_be w n = if ltb n (256 ^ w) then ok (be_bytes w n) else err Error.struct_error

unfoldable pub pack_le : ℕ → ℕ → Result Bytes
pack_le w n = if ltb n (256 ^ w) then ok (le_bytes w n) else err Error.struct_error

-- struct.unpack with one unsigned code of `w` bytes
unfoldable pub unpack_be : ℕ → Bytes → Result ℕ
unpack_be w bs = if length bs == w then ok (be_number bs) else err Error.struct_error

unfoldable pub unpack_le : ℕ → Bytes → Result ℕ
unpack_le w bs = if length bs == w then ok (le_number bs) else err Error.struct_error

-- One field of a longer format: the code of `w` bytes at `offset`, as struct.unpack_from reads it.
unfoldable pub unpack_be_at : ℕ → ℕ → Bytes → Result ℕ
unpack_be_at w offset bs = unpack_be w (slice offset (offset + w) bs)

unfoldable pub unpack_le_at : ℕ → ℕ → Bytes → Result ℕ
unpack_le_at w offset bs = unpack_le w (slice offset (offset + w) bs)
