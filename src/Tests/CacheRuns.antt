-- ===== src/Tests/CacheRuns.antt =====
-- Two profiles, one of them too old.
use qdap_protocol.Base.{ℕ, ◌≡◌, refl, [], ◌∷◌, none, list_eq_instance}
use qdap_protocol.Base.Dict.{get}
use qdap_protocol.Base.Dict.Unique.{IsUnique}
use qdap_protocol.SessionCache.{SessionProfile, Store, evict, ttl_seconds}
use qdap_protocol.SessionCache.Expiry.{fresh, get-evict}

abbrev profile : ℕ → SessionProfile ℕ ℕ
profile seen = record {
  device_id = [];
  theta = 0;
  n_decisions = 5;
  last_seen = seen;
  channel_hint = none;
}

abbrev store : Store ℕ ℕ
store = (1 ∷ [], profile 0) ∷ (2 ∷ [], profile 200_000_000_000) ∷ []

store-IsUnique : IsUnique store
unfolding get
store-IsUnique = (refl, (refl, tt))

get-evict_example :
    get (2 ∷ []) ((evict ttl_seconds 400_000_000_000 store).0)
    ≡ fresh ttl_seconds 400_000_000_000 (get (2 ∷ []) store)
get-evict_example = get-evict ttl_seconds 400_000_000_000 (2 ∷ []) store store-IsUnique
