-- ===== src/Base/Xor.antt =====
-- Exclusive or of native numbers, digit by digit: what Python's `^` on bytes is used for.
use Prim.Native.Nat.{
  ℕ, zero, suc, ◌+◌, ◌*◌, ◌/◌, ◌%◌, ◌≤◌, ◌<◌, bit_xor, digits, differ, bit_xor-bitwise,
}
use mathlib.Core.Path.{◌≡◌, refl}
use native.Mathlib.Omega.{arith}

abbrev xor_digits : ℕ → ℕ → ℕ → ℕ
xor_digits n a b = digits (λ b. b) differ n a b

xor_digits_fuel : (n m a b : ℕ) → a ≤ n → a ≤ m → xor_digits n a b ≡ xor_digits m a b
xor_digits_fuel zero zero a b p q = refl
xor_digits_fuel zero (suc m) zero b p q = refl
xor_digits_fuel zero (suc m) (suc a) b p q = absurd (omega arith)
xor_digits_fuel (suc n) zero zero b p q = refl
xor_digits_fuel (suc n) zero (suc a) b p q = absurd (omega arith)
xor_digits_fuel (suc n) (suc m) zero b p q = refl
xor_digits_fuel (suc n) (suc m) (suc a) b p q =
    omega (arith, xor_digits_fuel n m (suc a / 2) (b / 2) (omega arith) (omega arith))

differ_small : (x y : ℕ) → x < 2 → y < 2 → differ x y ≡ (x + y) % 2
differ_small zero y p q = omega arith
differ_small (suc zero) zero p q = refl
differ_small (suc zero) (suc zero) p q = refl
differ_small (suc zero) (suc (suc y)) p q = absurd (omega arith)
differ_small (suc (suc x)) y p q = absurd (omega arith)

pub zero-bit_xor : (b : ℕ) → bit_xor 0 b ≡ b
zero-bit_xor b = bit_xor-bitwise 0 b

pub bit_xor_step : (a b : ℕ) → bit_xor a b ≡ bit_xor (a / 2) (b / 2) * 2 + (a + b) % 2
bit_xor_step zero b = omega (arith, zero-bit_xor b, zero-bit_xor (b / 2))
bit_xor_step (suc a) b = omega (
  arith,
  bit_xor-bitwise (suc a) b,
  bit_xor-bitwise (suc a / 2) (b / 2),
  differ_small (suc a % 2) (b % 2) (omega arith) (omega arith),
  xor_digits_fuel a (suc a / 2) (suc a / 2) (b / 2) (omega arith) (omega arith),
)

bit_xor-zero_fuel : (n b : ℕ) → b ≤ n → bit_xor b 0 ≡ b
bit_xor-zero_fuel n zero h = refl
bit_xor-zero_fuel zero (suc b) h = absurd (omega arith)
bit_xor-zero_fuel (suc n) (suc b) h =
    omega (arith, bit_xor_step (suc b) 0, bit_xor-zero_fuel n (suc b / 2) (omega arith))

pub bit_xor-zero : (b : ℕ) → bit_xor b 0 ≡ b
bit_xor-zero b = bit_xor-zero_fuel b b (omega arith)

cancel_fuel : (n a b : ℕ) → a ≤ n → b ≤ n → bit_xor (bit_xor a b) b ≡ a
cancel_fuel zero zero zero p q = refl
cancel_fuel zero zero (suc b) p q = absurd (omega arith)
cancel_fuel zero (suc a) b p q = absurd (omega arith)
cancel_fuel (suc n) a b p q =
    let half : bit_xor a b / 2 ≡ bit_xor (a / 2) (b / 2) = omega (arith, bit_xor_step a b) in
    let halves : bit_xor (bit_xor a b / 2) (b / 2) ≡ a / 2 =
      rw half (cancel_fuel n (a / 2) (b / 2) (omega arith) (omega arith)) in
    omega (arith, bit_xor_step a b, bit_xor_step (bit_xor a b) b, halves)

-- The same number twice gives the first one back.
pub bit_xor_cancel : (a b : ℕ) → bit_xor (bit_xor a b) b ≡ a
bit_xor_cancel a b = cancel_fuel (a + b) a b (omega arith) (omega arith)

swap_fuel :
    (n a b c : ℕ) → a ≤ n → b ≤ n → c ≤ n → bit_xor (bit_xor a b) c ≡ bit_xor (bit_xor a c) b
swap_fuel zero zero zero zero p q r = refl
swap_fuel zero zero zero (suc c) p q r = absurd (omega arith)
swap_fuel zero zero (suc b) c p q r = absurd (omega arith)
swap_fuel zero (suc a) b c p q r = absurd (omega arith)
swap_fuel (suc n) a b c p q r =
    let left : bit_xor a b / 2 ≡ bit_xor (a / 2) (b / 2) = omega (arith, bit_xor_step a b) in
    let right : bit_xor a c / 2 ≡ bit_xor (a / 2) (c / 2) = omega (arith, bit_xor_step a c) in
    let halves : bit_xor (bit_xor a b / 2) (c / 2) ≡ bit_xor (bit_xor a c / 2) (b / 2) =
      rw (left, right)
        (swap_fuel n (a / 2) (b / 2) (c / 2) (omega arith) (omega arith) (omega arith)) in
    omega (
      arith,
      bit_xor_step a b,
      bit_xor_step a c,
      bit_xor_step (bit_xor a b) c,
      bit_xor_step (bit_xor a c) b,
      halves,
    )

pub bit_xor_swap : (a b c : ℕ) → bit_xor (bit_xor a b) c ≡ bit_xor (bit_xor a c) b
bit_xor_swap a b c = swap_fuel (a + b + c) a b c (omega arith) (omega arith) (omega arith)
