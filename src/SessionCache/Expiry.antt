-- ===== src/SessionCache/Expiry.antt =====
-- What the cache of src/qdap/scheduler/session_cache.py still has after a sweep.
use mathlib.Core.Path.{subst}
use qdap_protocol.Base.{
  ℕ, ◌≡◌, refl, sym, ap, ◌∙◌, Bool, true, false, ◌||◌, List, [], ◌∷◌, Option, none, some,
  if◌then◌else◌, list_eq, list_eq_instance, list_eq_iff,
}
use qdap_protocol.Base.Dict.{Dict, get, remove}
use qdap_protocol.Base.Dict.Laws.{get-remove}
use qdap_protocol.Base.Dict.Unique.{IsUnique}
use qdap_protocol.Broker.Utf8.{Text}
use qdap_protocol.SessionCache.{SessionProfile, is_expired, expired_keys, delete_keys, evict}

abbrev listed : Text → List Text → Bool
listed k [] = false
listed k (j ∷ js) = list_eq j k || listed k js

module _ {Theta Hint : Type 0} where
  get-delete_keys :
      (k : Text) (ks : List Text) (store : Dict Text (SessionProfile Theta Hint))
      → get k (delete_keys ks store) ≡ (if listed k ks then none else get k store)
  unfolding delete_keys
  get-delete_keys k [] store = refl
  get-delete_keys k (j ∷ ks) store =
      get-delete_keys k ks (remove j store)
      ∙ ap (λ o. if listed k ks then none else o) (get-remove j k store)
      ∙ by_tests (list_eq j k) (listed k ks)
    where
      by_tests :
          (a b : Bool)
          → (if b then none else (if a then none else get k store))
            ≡ (if a || b then none else get k store)
      by_tests true true = refl
      by_tests true false = refl
      by_tests false true = refl
      by_tests false false = refl

  -- A profile that has not expired.
  abbrev pub fresh : ℕ → ℕ → Option (SessionProfile Theta Hint) → Option (SessionProfile Theta Hint)
  fresh ttl now none = none
  fresh ttl now (some v) = if is_expired ttl now v then none else some v

  abbrev expired_if_any : ℕ → ℕ → Option (SessionProfile Theta Hint) → Bool
  expired_if_any ttl now none = false
  expired_if_any ttl now (some v) = is_expired ttl now v

  listed-expired_keys :
      (ttl now : ℕ) (k : Text) (store : Dict Text (SessionProfile Theta Hint))
      → IsUnique store
      → listed k (expired_keys ttl now store) ≡ expired_if_any ttl now (get k store)
  unfolding expired_keys get
  listed-expired_keys ttl now k [] u = refl
  listed-expired_keys ttl now k ((j, v) ∷ store) u =
      by_tests (is_expired ttl now v) refl (list_eq j k) refl
        (listed-expired_keys ttl now k store u.1)
    where
      by_tests :
          (b : Bool)
          → is_expired ttl now v ≡ b
          → (t : Bool) → list_eq j k ≡ t
          → listed k (expired_keys ttl now store) ≡ expired_if_any ttl now (get k store)
          → listed k (if b then j ∷ expired_keys ttl now store else expired_keys ttl now store)
            ≡ expired_if_any ttl now (if t then some v else get k store)
      by_tests true q true p ih =
          ap (λ (t : Bool). t || listed k (expired_keys ttl now store)) p ∙ sym q
      by_tests true q false p ih =
          ap (λ (t : Bool). t || listed k (expired_keys ttl now store)) p ∙ ih
      by_tests false q true p ih =
          ih
          ∙ ap (expired_if_any ttl now)
              (subst (λ x. get x store ≡ none) ((list_eq_iff j k).0 p) u.0)
          ∙ sym q
      by_tests false q false p ih = ih

  -- In a store without a device twice, a sweep leaves for every device its profile if that has not
  -- expired, and nothing otherwise.
  pub get-evict :
      (ttl now : ℕ) (k : Text) (store : Dict Text (SessionProfile Theta Hint))
      → IsUnique store
      → get k ((evict ttl now store).0) ≡ fresh ttl now (get k store)
  unfolding evict
  get-evict ttl now k store u =
      get-delete_keys k (expired_keys ttl now store) store
      ∙ ap (λ (b : Bool). if b then none else get k store) (listed-expired_keys ttl now k store u)
      ∙ by_value (get k store)
    where
      by_value :
          (o : Option (SessionProfile Theta Hint))
          → (if expired_if_any ttl now o then none else o) ≡ fresh ttl now o
      by_value none = refl
      by_value (some v) = refl
