-- ===== src/Tests/DeltaRuns.antt =====
-- Readings of a sensor, sent as deltas.
use qdap_protocol.Base.{
  ℕ, zero, suc, ◌≡◌, refl, sym, ap, ◌∙◌, List, [], ◌∷◌, ◌++◌, append_assoc, append-nil, Result, ok,
  err, Error, ◌>>=◌, nat_eq, list_eq_instance,
}
use qdap_protocol.Base.Dict.{Dict, get, put}
use qdap_protocol.Base.Dict.Unique.{IsUnique}
use qdap_protocol.Bytes.{Bytes, All, be_bytes}
use qdap_protocol.Broker.Utf8.{Text}
use qdap_protocol.Delta.{
  encode, encode_full, encode_delta, wrap_full, wrap_delta, should_send_full, bits_of,
  compute_bitmask, same_keys, keys_in, update, select, changes,
}
use qdap_protocol.Delta.RoundTrip.{
  exchange, AllRestored, new_encoder, new_decoder, exchange-AllRestored,
}

-- A packing of numbers by name: a byte of a name is one more than it is, 0 ends the name.
abbrev name_code : Text → Bytes → Bytes
name_code [] rest = 0 ∷ rest
name_code (b ∷ name) rest = suc b ∷ name_code name rest

abbrev pack : Dict Text ℕ → Bytes
pack [] = []
pack ((name, v) ∷ fields) = name_code name (v ∷ pack fields)

abbrev read_from : Text → Bytes → Result (Dict Text ℕ)
read_from name [] = ok []
read_from name (suc b ∷ bs) = read_from (name ++ (b ∷ [])) bs
read_from name (zero ∷ []) = err Error.value_error
read_from name (zero ∷ (v ∷ bs)) = do fields ← read_from [] bs; ok ((name, v) ∷ fields)

abbrev unpack : Bytes → Result (Dict Text ℕ)
unpack = read_from []

read_from-name_code :
    (name front : Text) (v : ℕ) (rest : Bytes)
    → read_from front (name_code name (v ∷ rest))
      ≡ (read_from [] rest >>= λ fields. ok ((front ++ name, v) ∷ fields))
read_from-name_code [] front v rest =
    ap (λ t. read_from [] rest >>= λ fields. ok ((t, v) ∷ fields)) (sym (append-nil front))
read_from-name_code (b ∷ name) front v rest =
    read_from-name_code name (front ++ (b ∷ [])) v rest
    ∙ ap (λ t. read_from [] rest >>= λ fields. ok ((t, v) ∷ fields))
        (append_assoc front (b ∷ []) name)

unpack-pack : (fields : Dict Text ℕ) → unpack (pack fields) ≡ ok fields
unpack-pack [] = refl
unpack-pack ((name, v) ∷ fields) =
    read_from-name_code name [] v (pack fields)
    ∙ ap (λ r. r >>= λ d. ok ((name, v) ∷ d)) (unpack-pack fields)

-- "t" and "h": first both, then one changed, then none, then another field.
abbrev readings : List (Dict Text ℕ)
readings =
    ((0x74 ∷ [], 20) ∷ (0x68 ∷ [], 60) ∷ [])
    ∷ ((0x68 ∷ [], 60) ∷ (0x74 ∷ [], 21) ∷ [])
    ∷ ((0x74 ∷ [], 21) ∷ (0x68 ∷ [], 60) ∷ [])
    ∷ ((0x74 ∷ [], 21) ∷ [])
    ∷ []

readings-IsUnique : All IsUnique readings
unfolding get
readings-IsUnique =
    ((refl, (refl, tt)), ((refl, (refl, tt)), ((refl, (refl, tt)), ((refl, tt), tt))))

exchange-AllRestored_example :
    AllRestored pack unpack (exchange pack unpack new_encoder new_decoder readings) readings
exchange-AllRestored_example =
    exchange-AllRestored pack unpack readings unpack-pack readings-IsUnique

-- The second frame is a delta of the field "t", bit 0.
delta_frame :
    (encode pack unpack
      ((encode pack unpack new_encoder ((0x74 ∷ [], 20) ∷ (0x68 ∷ [], 60) ∷ [])).0)
      ((0x68 ∷ [], 60) ∷ (0x74 ∷ [], 21) ∷ [])).1
    ≡ ok (1 ∷ 0 ∷ 1 ∷ 0x75 ∷ 0 ∷ 21 ∷ [])
unfolding encode encode_full encode_delta wrap_full wrap_delta should_send_full bits_of
    compute_bitmask same_keys keys_in update select changes get put be_bytes
delta_frame = refl
