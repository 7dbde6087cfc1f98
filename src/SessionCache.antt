-- ===== src/SessionCache.antt =====
-- src/qdap/scheduler/session_cache.py: the channel profiles of devices, kept for a limited time.
-- Times are in nanoseconds; the weights and the hint are values of types of their own.
-- A sweep reads the clock once, where the code reads it for each entry.
pub mod Expiry
use qdap_protocol.Base.{
  ℕ, ◌-◌, Bool, true, false, List, [], ◌∷◌, length, Option, none, some, ltb, if◌then◌else◌,
  list_eq_instance,
}
use qdap_protocol.Base.Dict.{Dict, get, put, remove}
use qdap_protocol.Broker.Utf8.{Text}

-- 300 seconds
abbrev pub ttl_seconds : ℕ
ttl_seconds = 300_000_000_000

pub record SessionProfile (Theta Hint : Type 0) : Type 0 where
  pub device_id : Text
  pub theta : Theta
  pub n_decisions : ℕ
  pub last_seen : ℕ
  pub channel_hint : Option Hint

abbrev pub Store : Type 0 → Type 0 → Type 0
Store Theta Hint = Dict Text (SessionProfile Theta Hint)

module _ {Theta Hint : Type 0} where
  unfoldable pub is_expired : ℕ → ℕ → SessionProfile Theta Hint → Bool
  is_expired ttl now profile = ltb ttl (now - profile.last_seen)

  -- An expired profile is deleted.
  unfoldable pub load :
      ℕ → ℕ → Text → Store Theta Hint → Store Theta Hint × Option (SessionProfile Theta Hint)
  load ttl now device_id store = elim (get device_id store) [
    | none ↦ (store, none)
    | some profile ↦
        if is_expired ttl now profile then (remove device_id store, none) else (store, some profile)
  ]

  unfoldable pub save : ℕ → Text → Theta → ℕ → Option Hint → Store Theta Hint → Store Theta Hint
  save now device_id theta n_decisions channel_hint store =
      put device_id
        (record {
          device_id = device_id;
          theta = theta;
          n_decisions = n_decisions;
          last_seen = now;
          channel_hint = channel_hint;
        })
        store

  unfoldable pub expired_keys : ℕ → ℕ → Store Theta Hint → List Text
  expired_keys ttl now [] = []
  expired_keys ttl now ((k, v) ∷ store) =
      let rest = expired_keys ttl now store in if is_expired ttl now v then k ∷ rest else rest

  unfoldable pub delete_keys : List Text → Store Theta Hint → Store Theta Hint
  delete_keys [] store = store
  delete_keys (k ∷ ks) store = delete_keys ks (remove k store)

  unfoldable pub evict : ℕ → ℕ → Store Theta Hint → Store Theta Hint × ℕ
  evict ttl now store =
      (delete_keys (expired_keys ttl now store) store, length (expired_keys ttl now store))
