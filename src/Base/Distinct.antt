-- ===== src/Base/Distinct.antt =====
-- Lists of numbers without doubles.
use Prim.Native.Nat.{ℕ, suc}
use mathlib.Core.Path.{◌≡◌, refl}
use mathlib.Core.Bool.{true, false, ◌||◌}
use mathlib.Core.List.{List, [], ◌∷◌, ◌++◌}
use native.Mathlib.Omega.{arith}
use qdap_protocol.Base.Tests.{◌==◌, if◌then◌else◌, Bool-cases}
use mathlib.Core.Logic.{inl, inr}
use qdap_protocol.Base.Lists.{length}
use qdap_protocol.Base.Keys.{elem}

-- No number stands in the list twice.
abbrev pub IsDistinct : List ℕ → Type 0
IsDistinct [] = Unit
IsDistinct (x ∷ xs) = (elem x xs ≡ false) × IsDistinct xs

pub elem-append : (x : ℕ) (xs ys : List ℕ) → elem x (xs ++ ys) ≡ elem x xs || elem x ys
elem-append x [] ys = refl
elem-append x (y ∷ xs) ys = ground (arith, elem-append x xs ys)

pub IsDistinct-append :
    (xs ys : List ℕ)
    → IsDistinct xs
    → IsDistinct ys
    → ((x : ℕ) → elem x ys ≡ true → elem x xs ≡ false)
    → IsDistinct (xs ++ ys)
IsDistinct-append [] ys d e h = e
IsDistinct-append (x ∷ xs) ys d e h = (
  ground (arith, elem-append x xs ys, h x, d.0),
  IsDistinct-append xs ys d.1 e (λ y m. ground (arith, h y m)),
)

-- Without a number.
abbrev pub erase : ℕ → List ℕ → List ℕ
erase x [] = []
erase x (y ∷ ys) = if y == x then ys else y ∷ erase x ys

-- `out` are the connections in use.
pub elem-erase :
    (x y : ℕ) (xs : List ℕ)
    → IsDistinct xs
    → elem y (erase x xs) ≡ (if x == y then false else elem y xs)
elem-erase x y [] d = ground arith
elem-erase x y (z ∷ zs) d = ground (arith, d.0, elem-erase x y zs d.1)

pub length-erase : (x : ℕ) (xs : List ℕ) → elem x xs ≡ true → suc (length (erase x xs)) ≡ length xs
length-erase x [] h = absurd (cc)
length-erase x (z ∷ zs) h = ground (arith, length-erase x zs)

pub erase-IsDistinct : (x : ℕ) (xs : List ℕ) → IsDistinct xs → IsDistinct (erase x xs)
erase-IsDistinct x [] d = tt
erase-IsDistinct x (z ∷ zs) d = elim (Bool-cases (z == x)) [
  | inl e ↦ rw e d.1
  | inr e ↦ rw e (ground (arith, elem-erase x z zs d.1, d.0), erase-IsDistinct x zs d.1)
]
