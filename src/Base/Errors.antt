-- ===== src/Base/Errors.antt =====
-- The exceptions that the modelled code raises, and results that carry one.
use mathlib.Core.Path.{◌≡◌, refl}
use mathlib.Core.Bool.{Bool, true, false}
use mathlib.Core.Option.{Option, none, some}

pub data Error : Type 0 where
  -- struct.error, ValueError, IndexError, KeyError, UnicodeDecodeError,
  -- ZeroDivisionError
  struct_error value_error index_error key_error unicode_error zero_division : Error
  -- AssertionError, ConnectionError, ProtocolError, RuntimeError, OverflowError
  assertion_error connection_error protocol_error runtime_error overflow_error : Error
  -- No exception: a loop of the model ran out of its fuel, which is proved never to happen.
  out_of_fuel : Error

pub data Result {ℓ} (A : Type ℓ) : Type ℓ where
  ok : A → Result A
  err : Error → Result A

-- A test that must pass, and a value that must be there.
abbrev pub guard : Bool → Error → Result (Unit {0})
guard passed e = elim passed [ true ↦ ok tt | false ↦ err e ]

abbrev pub or_raise {ℓ} : {A : Type ℓ} → Error → Option A → Result A
or_raise e found = elim found [ none ↦ err e | some a ↦ ok a ]

infixl 5 ◌>>=◌ ◌>>◌
abbrev pub ◌>>=◌ {ℓ κ} : {A : Type ℓ} {B : Type κ} → Result A → (A → Result B) → Result B
err e >>= k = err e
ok a >>= k = k a

abbrev pub ◌>>◌ {ℓ} : {B : Type ℓ} → Result (Unit {0}) → Result B → Result B
first >> next = first >>= λ _. next

-- A chain that succeeds has a first step that succeeds.
pub >>=-eq-ok {ℓ κ} :
    {A : Type ℓ} {B : Type κ} (first : Result A) (k : A → Result B) {out : B}
    → (first >>= k) ≡ ok out
    → (a : A) × (first ≡ ok a) × (k a ≡ ok out)
>>=-eq-ok (err e) k done = absurd (cc)
>>=-eq-ok (ok a) k done = (a, refl, done)
