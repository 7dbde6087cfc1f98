-- ===== src/Base/Rounding.antt =====
-- Division rounded up: the pieces of that size hold everything.
use Prim.Native.Nat.{ℕ, ◌+◌, ◌-◌, ◌*◌, ◌/◌, ◌≤◌, ◌<◌}
use native.Mathlib.Nat.{div-add-mod', mod-lt}
use native.Mathlib.Omega.{arith}

pub rounded_up :
    (size payload_size : ℕ) → 0 < size → payload_size ≤ (payload_size + size - 1) / size * size
rounded_up size payload_size h =
    grind (arith, div-add-mod' (payload_size + size - 1) size, mod-lt (payload_size + size - 1) h)
