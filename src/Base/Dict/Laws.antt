-- ===== src/Base/Dict/Laws.antt =====
-- Laws of dictionaries: what a read gives after each operation, and the number of keys.
use Prim.Native.Nat.{◌+◌}
use mathlib.Core.Path.{◌≡◌, refl}
use mathlib.Core.List.{[], ◌∷◌}
use mathlib.Core.Option.{none, some}
use native.Mathlib.Omega.{arith}
use qdap_protocol.Base.Tests.{if◌then◌else◌}
use qdap_protocol.Base.Lists.{length}
use qdap_protocol.Base.Keys.{Eq, beq_refl}
use qdap_protocol.Base.Dict.{Dict, get, put, remove, contains}

module _ {ℓ} {K V : Type ℓ} ⦃e : Eq K⦄ where
  pub get-put :
      (k j : K) (v : V) (d : Dict K V) → get j (put k v d) ≡ (if e.beq k j then some v else get j d)
  unfolding get put
  get-put k j v [] = refl
  get-put k j v ((i, w) ∷ d) =
      ground (arith, e.beq_iff i k, e.beq_iff i j, e.beq_iff k j, get-put k j v d)

  pub get-remove :
      (k j : K) (d : Dict K V) → get j (remove k d) ≡ (if e.beq k j then none else get j d)
  unfolding get remove
  get-remove k j [] = ground arith
  get-remove k j ((i, w) ∷ d) =
      ground (arith, e.beq_iff i k, e.beq_iff i j, e.beq_iff k j, get-remove k j d)

  pub get-put_self : (k : K) (v : V) (d : Dict K V) → get k (put k v d) ≡ some v
  get-put_self k v d = rw (get-put k k v d, beq_refl k)

  -- A new key adds one entry, a present key none.
  pub length-put :
      (k : K) (v : V) (d : Dict K V)
      → length (put k v d) ≡ (if contains k d then length d else length d + 1)
  unfolding get put
  length-put k v [] = refl
  length-put k v ((j, w) ∷ d) = ground (arith, length-put k v d)
