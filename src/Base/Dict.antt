-- ===== src/Base/Dict.antt =====
-- Python's `dict`, as an association list in the order of insertion: `d[k] = v` overwrites the
-- value of a present key in its place, and appends a new key.
pub mod Laws
pub mod Unique
use Prim.Native.Nat.{ℕ}
use mathlib.Core.Bool.{Bool, true, false}
use mathlib.Core.List.{List, [], ◌∷◌, map}
use mathlib.Core.Option.{Option, none, some}
use qdap_protocol.Base.Tests.{if◌then◌else◌}
use qdap_protocol.Base.Keys.{Eq}

abbrev pub Dict {ℓ} : Type ℓ → Type ℓ → Type ℓ
Dict K V = List (K × V)

module _ {ℓ} {K V : Type ℓ} ⦃e : Eq K⦄ where
  -- d.get(k)
  unfoldable pub get : K → Dict K V → Option V
  get k [] = none
  get k ((j, v) ∷ d) = if e.beq j k then some v else get k d

  -- d[k] = v
  unfoldable pub put : K → V → Dict K V → Dict K V
  put k v [] = (k, v) ∷ []
  put k v ((j, w) ∷ d) = let rest = put k v d in if e.beq j k then (j, v) ∷ d else (j, w) ∷ rest

  -- d.pop(k, None), del d[k]
  unfoldable pub remove : K → Dict K V → Dict K V
  remove k [] = []
  remove k ((j, w) ∷ d) = let rest = remove k d in if e.beq j k then rest else (j, w) ∷ rest

-- k in d
abbrev pub contains {ℓ} : {K V : Type ℓ} ⦃e : Eq K⦄ → K → Dict K V → Bool
contains k d = elim (get k d) [ none ↦ false | some v ↦ true ]

-- d.keys()
abbrev pub keys {ℓ} : {K V : Type ℓ} → Dict K V → List K
keys = map (λ p. p.0)
