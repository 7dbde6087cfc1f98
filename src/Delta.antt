-- ===== src/Delta.antt =====
-- src/qdap/compression/delta_encoder.py with the delta functions of src/qdap/_rust_bridge.py
-- (their Python fallbacks): a sender encodes dictionaries against its last one, and a receiver
-- restores them.
pub mod Keys
pub mod Laws
pub mod Ordered
pub mod InStep
pub mod RoundTrip
use qdap_protocol.Base.{
  ℕ, suc, ◌+◌, ◌*◌, Bool, true, false, not, ◌&&◌, ◌||◌, List, [], ◌∷◌, ◌++◌, length, take, drop,
  slice, is_empty, Option, none, some, Result, ok, err, Error, ◌>>=◌, ltb, ◌==◌, if◌then◌else◌, Eq,
  list_eq_instance,
}
use qdap_protocol.Base.Dict.{Dict, get, put, contains, keys}
use qdap_protocol.Bytes.{Bytes, be_bytes, be_number}
use qdap_protocol.Broker.Utf8.{Text}

abbrev pub frame_full : ℕ
frame_full = 0x00

abbrev pub frame_delta : ℕ
frame_delta = 0x01

abbrev pub max_fields : ℕ
max_fields = 16

unfoldable pub wrap_full : Bytes → Bytes
wrap_full payload = 0x00 ∷ payload

-- int.to_bytes(2, "big") raises OverflowError.
unfoldable pub wrap_delta : ℕ → Bytes → Result Bytes
wrap_delta bitmask payload =
    if ltb bitmask 65536
    then ok (0x01 ∷ (be_bytes 2 bitmask ++ payload))
    else err Error.overflow_error

unfoldable pub parse_header : Bytes → Result (ℕ × ℕ)
parse_header [] = err Error.value_error
parse_header (type ∷ rest) =
    if type == 0x00
    then ok (0x00, 0)
    else if type == 0x01
    then (if ltb (length (type ∷ rest)) 3
        then err Error.value_error
        else ok (0x01, be_number (take 2 rest)))
    else err Error.value_error

unfoldable pub get_payload : Bytes → Result Bytes
get_payload frame = do
  (type, bitmask) ← parse_header frame
  ok (if type == 0x00 then drop 1 frame else drop 3 frame)

-- should_send_full for the threshold 0.50: changed / total is above a half.
unfoldable pub should_send_full : ℕ → ℕ → Bool
should_send_full total changed =
    if total == 0 then true else ltb total (2 * changed) || ltb max_fields total

abbrev pub member : Text → List Text → Bool
member k [] = false
member k (j ∷ js) = list_eq_instance.beq j k || member k js

module _ {V : Type 0} where
  -- Bit i stands for the field of index i; the bits differ, so that `|=` is +.
  unfoldable pub bits_of : List Text → Dict Text V → ℕ
  bits_of [] changed = 0
  bits_of (key ∷ order) changed =
      (if contains key changed then 1 else 0) + 2 * bits_of order changed

  unfoldable pub compute_bitmask : List Text → Dict Text V → ℕ
  compute_bitmask order changed = bits_of (take 16 order) changed

  -- set(a) <= set(b), and set(a) == set(b)
  unfoldable pub keys_in : Dict Text V → Dict Text V → Bool
  keys_in [] b = true
  keys_in ((k, v) ∷ a) b = contains k b && keys_in a b

  unfoldable pub same_keys : Dict Text V → Dict Text V → Bool
  same_keys a b = keys_in a b && keys_in b a

  -- d.update(changes)
  unfoldable pub update : Dict Text V → Dict Text V → Dict Text V
  update d [] = d
  update d ((k, v) ∷ changes) = update (put k v d) changes

  -- The loop over _field_order that fills `values`.
  unfoldable pub select : List Text → Dict Text V → Dict Text V → Dict Text V
  select [] changed values = values
  select (key ∷ order) changed values =
      select order changed (elim (get key changed) [ none ↦ values | some v ↦ put key v values ])

module _ {V : Type 0} ⦃e : Eq V⦄ where
  -- v != self._baseline.get(k)
  abbrev pub differs : V → Option V → Bool
  differs v none = true
  differs v (some w) = not (e.beq v w)

  unfoldable pub changes : Dict Text V → Dict Text V → Dict Text V
  changes [] baseline = []
  changes ((k, v) ∷ fields) baseline =
      let rest = changes fields baseline in
      if differs v (get k baseline) then (k, v) ∷ rest else rest

-- The fields _bytes_saved and, of the receiver, _field_order are only reported, never read.
pub record Encoder (V : Type 0) : Type 0 where
  pub baseline : Option (Dict Text V)
  pub field_order : List Text
  pub total_sent : ℕ
  pub delta_count : ℕ

pub record Decoder (V : Type 0) : Type 0 where
  pub baseline : Option (Dict Text V)

module _ {V : Type 0} ⦃e : Eq V⦄ (pack : Dict Text V → Bytes)
    (unpack : Bytes → Result (Dict Text V)) where
  unfoldable pub encode_full : Encoder V → Dict Text V → Encoder V × Result Bytes
  encode_full s fields =
      (record s { baseline = some fields; field_order = keys fields }, ok (wrap_full (pack fields)))

  unfoldable pub encode_delta :
      Encoder V → Dict Text V → Dict Text V → Dict Text V → Encoder V × Result Bytes
  encode_delta s baseline changed fields =
      if is_empty changed then (record s { baseline = some fields }, wrap_delta 0 []) else (
        record s { baseline = some (update baseline changed); delta_count = s.delta_count + 1 },
        wrap_delta (compute_bitmask s.field_order changed) (pack (select s.field_order changed [])),
      )

  unfoldable pub encode : Encoder V → Dict Text V → Encoder V × Result Bytes
  encode s fields =
      let s' = record s { total_sent = s.total_sent + 1 } in
      elim s.baseline [
        | none ↦ encode_full s' fields
        | some baseline ↦
            if not (same_keys fields baseline)
            then encode_full s' fields
            else if should_send_full (length fields) (length (changes fields baseline))
            then encode_full s' fields
            else encode_delta s' baseline (changes fields baseline) fields
      ]

  -- A delta against the last dictionary, once the header has been read.
  unfoldable pub decode_delta : Decoder V → ℕ → Bytes → Decoder V × Result (Option (Dict Text V))
  decode_delta s bitmask body = elim s.baseline [
    | none ↦ (s, ok none)
    | some baseline ↦ if bitmask == 0 then (s, ok (some baseline)) else elim (unpack body) [
      | err x ↦ (s, err x)
      | ok changed ↦ (
        record { baseline = some (update baseline changed) },
        ok (some (update baseline changed)),
      )
    ]
  ]

  unfoldable pub decode_full : Decoder V → Bytes → Decoder V × Result (Option (Dict Text V))
  decode_full s body = elim (unpack body) [
    | err x ↦ (s, err x)
    | ok fields ↦ (record { baseline = some fields }, ok (some fields))
  ]

  -- Only ValueError is caught, and the header raises no other.
  unfoldable pub decode : Decoder V → Bytes → Decoder V × Result (Option (Dict Text V))
  decode s frame = elim (parse_header frame) [
    | err x ↦ (s, ok none)
    | ok (type, bitmask) ↦ elim (get_payload frame) [
      | err x ↦ (s, ok none)
      | ok body ↦ if type == frame_full then decode_full s body else decode_delta s bitmask body
    ]
  ]
