-- ===== src/Base/Bits.antt =====
-- Masks of one byte as arithmetic, each checked at every byte.
use Prim.Native.Nat.{ℕ, zero, suc, ◌+◌, ◌*◌, ◌/◌, ◌%◌, ◌<◌, bit_and, bit_or}
use mathlib.Core.Path.{◌≡◌, refl}
use mathlib.Core.Bool.{Bool, true, ◌&&◌}
use native.Mathlib.Omega.{arith}
use qdap_protocol.Base.Tests.{◌==◌}

-- The two functions agree on every number below the bound.
agree : (ℕ → ℕ) → (ℕ → ℕ) → ℕ → Bool
agree f g zero = true
agree f g (suc n) = agree f g n && f n == g n

agree→eq : (f g : ℕ → ℕ) (n i : ℕ) → agree f g n ≡ true → i < n → f i ≡ g i
unfolding agree
agree→eq f g zero i h p = absurd (omega arith)
agree→eq f g (suc n) i h p = ground (arith, agree→eq f g n i)

pub bit_and_7f : (b : ℕ) → b < 256 → bit_and b 0x7f ≡ b % 128
unfolding agree
bit_and_7f b = agree→eq (λ x. bit_and x 0x7f) (λ x. x % 128) 256 b refl

pub bit_and_80 : (b : ℕ) → b < 256 → bit_and b 0x80 ≡ b / 128 * 128
unfolding agree
bit_and_80 b = agree→eq (λ x. bit_and x 0x80) (λ x. x / 128 * 128) 256 b refl

pub bit_or_80 : (b : ℕ) → b < 128 → bit_or b 0x80 ≡ b + 128
unfolding agree
bit_or_80 b = agree→eq (λ x. bit_or x 0x80) (λ x. x + 128) 128 b refl

pub bit_and_0f : (b : ℕ) → b < 256 → bit_and b 0x0f ≡ b % 16
unfolding agree
bit_and_0f b = agree→eq (λ x. bit_and x 0x0f) (λ x. x % 16) 256 b refl
