-- ===== src/Base/Dict/Unique.antt =====
-- Dictionaries in which no key stands twice, as in Python's.
use mathlib.Core.Path.{◌≡◌, refl}
use mathlib.Core.Logic.{inl, inr}
use mathlib.Core.List.{[], ◌∷◌}
use mathlib.Core.Option.{none}
use native.Mathlib.Omega.{arith}
use qdap_protocol.Base.Tests.{Bool-cases}
use qdap_protocol.Base.Keys.{Eq}
use qdap_protocol.Base.Dict.{Dict, get, put, remove}
use qdap_protocol.Base.Dict.Laws.{get-put, get-remove}

module _ {ℓ} {K V : Type ℓ} ⦃e : Eq K⦄ where
  abbrev pub IsUnique : Dict K V → Type ℓ
  IsUnique [] = Unit
  IsUnique ((k, v) ∷ d) = (get k d ≡ none) × IsUnique d

  pub put-IsUnique : (k : K) (v : V) (d : Dict K V) → IsUnique d → IsUnique (put k v d)
  unfolding get put
  put-IsUnique k v [] u = (refl, tt)
  put-IsUnique k v ((j, w) ∷ d) u = elim (Bool-cases (e.beq j k)) [
    | inl p ↦ rw p u
    | inr p ↦ rw p (
      rw (get-put k j v d) (ground (arith, e.beq_iff k j, e.beq_iff j k, u.0, p)),
      put-IsUnique k v d u.1,
    )
  ]

  pub remove-IsUnique : (k : K) (d : Dict K V) → IsUnique d → IsUnique (remove k d)
  unfolding get remove
  remove-IsUnique k [] u = tt
  remove-IsUnique k ((j, w) ∷ d) u = elim (Bool-cases (e.beq j k)) [
    | inl p ↦ rw p (remove-IsUnique k d u.1)
    | inr p ↦ rw p (rw (get-remove k j d) (ground (arith, u.0)), remove-IsUnique k d u.1)
  ]
