-- ===== src/Delta/RoundTrip.antt =====
-- Whole runs of the sender and the receiver of src/qdap/compression/delta_encoder.py.
use qdap_protocol.Base.{
  ℕ, ◌+◌, ◌≤◌, ◌≡◌, refl, Bool, true, false, not, List, [], ◌∷◌, length, Option, none, some, Result,
  ok, err, if◌then◌else◌, Eq, list_eq_instance, arith,
}
use qdap_protocol.Base.Dict.{Dict}
use qdap_protocol.Base.Dict.Unique.{IsUnique}
use qdap_protocol.Bytes.{Bytes, All}
use qdap_protocol.Broker.Utf8.{Text}
use qdap_protocol.Delta.{
  Encoder, Decoder, should_send_full, same_keys, keys_in, changes, encode, encode_full,
  encode_delta, decode,
}
use qdap_protocol.Delta.Keys.{Sub, keys_in-Sub}
use qdap_protocol.Delta.Laws.{Same}
use qdap_protocol.Delta.InStep.{InStep, Restores, encode_full-Restores}
use qdap_protocol.Delta.InStep.Deltas.{encode_same-Restores, encode_changed-Restores}

module _ {V : Type 0} where
  same_keys_parts :
      (a b : Dict Text V) → same_keys a b ≡ true → (keys_in a b ≡ true) × (keys_in b a ≡ true)
  unfolding same_keys
  same_keys_parts a b h = (ground arith, ground arith)

negated_twice : (b : Bool) → b ≡ not (not b)
negated_twice true = refl
negated_twice false = refl

few_fields : (total changed : ℕ) → should_send_full total changed ≡ false → total ≤ 16
unfolding should_send_full
few_fields total changed h = ground arith

module _ {V : Type 0} ⦃e : Eq V⦄ (pack : Dict Text V → Bytes)
    (unpack : Bytes → Result (Dict Text V)) where
  encode_delta-Restores :
      (s : Encoder V) (t : Decoder V) (b fields : Dict Text V)
      → ((d : Dict Text V) → unpack (pack d) ≡ ok d)
      → s.baseline ≡ some b
      → InStep s t
      → IsUnique fields
      → Sub fields b
      → Sub b fields
      → length fields ≤ 16
      → Restores pack unpack (encode_delta pack unpack s b (changes fields b) fields) t fields
  encode_delta-Restores s t b fields law eq step u sub sup few = by_changes (changes fields b) refl
    where
      by_changes :
          (ch : Dict Text V)
          → changes fields b ≡ ch
          → Restores pack unpack (encode_delta pack unpack s b (changes fields b) fields) t fields
      by_changes [] p = rw p (encode_same-Restores pack unpack s t b fields eq step u sub sup p)
      by_changes ((j, v) ∷ rest) p =
          rw p
            (encode_changed-Restores pack unpack s t b fields j v rest law eq step u sub sup few p)

  decode-encode :
      (s : Encoder V) (t : Decoder V) (fields : Dict Text V)
      → ((d : Dict Text V) → unpack (pack d) ≡ ok d)
      → InStep s t
      → IsUnique fields
      → Restores pack unpack (encode pack unpack s fields) t fields
  unfolding encode InStep
  decode-encode s t fields law step u = by_baseline s.baseline refl
    where
      counted : Encoder V
      counted = record s { total_sent = s.total_sent + 1 }

      full : Restores pack unpack (encode_full pack unpack counted fields) t fields
      full = encode_full-Restores pack unpack counted t fields u (law fields)

      by_tests :
          (b : Dict Text V)
          → s.baseline ≡ some b
          → (differ send : Bool) → same_keys fields b ≡ not differ
          → should_send_full (length fields) (length (changes fields b)) ≡ send
          → Restores pack unpack
              (if differ
                then encode_full pack unpack counted fields
                else if send
                then encode_full pack unpack counted fields
                else encode_delta pack unpack counted b (changes fields b) fields)
              t
              fields
      by_tests b eq true send p q = full
      by_tests b eq false true p q = full
      by_tests b eq false false p q =
          encode_delta-Restores counted t b fields law eq step u
            (keys_in-Sub fields b (same_keys_parts fields b p).0)
            (keys_in-Sub b fields (same_keys_parts fields b p).1)
            (few_fields (length fields) (length (changes fields b)) q)

      by_baseline :
          (o : Option (Dict Text V))
          → s.baseline ≡ o
          → Restores pack unpack (encode pack unpack s fields) t fields
      by_baseline none eq = rw (encode, eq) full
      by_baseline (some b) eq =
          rw (encode, eq)
            (by_tests b eq (not (same_keys fields b)) _ (negated_twice (same_keys fields b)) refl)

  -- A sender and a receiver that pass each frame on: what the receiver makes of the frames, up to
  -- the first that cannot be made.
  unfoldable pub exchange :
      Encoder V → Decoder V → List (Dict Text V) → List (Result (Option (Dict Text V)))
  exchange s t [] = []
  exchange s t (fields ∷ more) =
      let rest = λ (frame : Bytes).
        (decode pack unpack t frame).1
        ∷ exchange ((encode pack unpack s fields).0) ((decode pack unpack t frame).0) more in
      elim ((encode pack unpack s fields).1) [ err x ↦ err x ∷ [] | ok frame ↦ rest frame ]

  -- The results are as many as the dictionaries, each with the same entries.
  abbrev pub AllRestored : List (Result (Option (Dict Text V))) → List (Dict Text V) → Type 0
  AllRestored [] [] = Unit
  AllRestored (ok (some result) ∷ results) (fields ∷ more) =
      Same result fields × AllRestored results more
  AllRestored _ _ = ⊥

  exchange_step :
      (s : Encoder V) (t : Decoder V) (more : List (Dict Text V))
      → ((d : Dict Text V) → unpack (pack d) ≡ ok d)
      → InStep s t
      → All IsUnique more
      → AllRestored (exchange s t more) more
  unfolding exchange Restores
  exchange_step s t [] law step us = tt
  exchange_step s t (fields ∷ more) law step us =
      let (frame, result, made, decoded, same, next) = decode-encode s t fields law step us.0 in
      rw (exchange, made, decoded)
        (
          same,
          exchange_step ((encode pack unpack s fields).0) ((decode pack unpack t frame).0) more law
              next us.1,
        )

abbrev pub new_encoder : {V : Type 0} → Encoder V
new_encoder = record { baseline = none; field_order = []; total_sent = 0; delta_count = 0 }

abbrev pub new_decoder : {V : Type 0} → Decoder V
new_decoder = record { baseline = none }

-- When packing is undone by unpacking, a new sender encodes every dictionary of a sequence without
-- an exception, and a new receiver makes of each frame a dictionary with the same entries.
pub exchange-AllRestored :
    {V : Type 0} ⦃e : Eq V⦄ (pack : Dict Text V → Bytes) (unpack : Bytes → Result (Dict Text V))
    (sent : List (Dict Text V))
    → ((d : Dict Text V) → unpack (pack d) ≡ ok d)
    → All IsUnique sent
    → AllRestored pack unpack (exchange pack unpack new_encoder new_decoder sent) sent
unfolding InStep
exchange-AllRestored pack unpack sent law us =
    exchange_step pack unpack new_encoder new_decoder sent law (λ b p. absurd (cc)) us
