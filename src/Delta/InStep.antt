-- ===== src/Delta/InStep.antt =====
-- Sender and receiver of src/qdap/compression/delta_encoder.py stay in step: each frame restores
-- the dictionary that was sent.
pub mod Deltas
use mathlib.Core.Path.{subst}
use qdap_protocol.Base.{
  ℕ, suc, ◌≤◌, ◌<◌, ◌≡◌, refl, sym, ap, ◌∙◌, Bool, true, false, List, [], ◌∷◌, ◌++◌, length, Option,
  none, some, Result, ok, lt→ltb, le→ltb, ◌==◌, if◌then◌else◌, Eq, list_eq_instance, list_eq_iff,
  arith, take_of_length-le,
}
use qdap_protocol.Base.Dict.{Dict, get, contains, keys}
use qdap_protocol.Base.Dict.Unique.{IsUnique}
use qdap_protocol.Bytes.{Bytes, be_bytes}
use qdap_protocol.Bytes.Laws.{be_number-be_bytes}
use qdap_protocol.Broker.Utf8.{Text}
use qdap_protocol.Delta.{
  Encoder, Decoder, wrap_full, wrap_delta, parse_header, get_payload, member, compute_bitmask,
  update, select, changes, encode_full, encode_delta, decode, decode_full, decode_delta,
}
use qdap_protocol.Delta.Laws.{
  Same, select-IsUnique, changes-IsUnique, changes_absent, get-changes, or_else-get,
}
use qdap_protocol.Delta.Keys.{
  Sub, length-Sub, member-keys, bits_of_bound, bits_of_pos, or_else, only_if, get-update,
  get-select,
}
use qdap_protocol.Delta.Ordered.{Ordered, Ordered-keys, Ordered-member, length-keys}

header_of_delta :
    (bitmask : ℕ) (payload : Bytes)
    → bitmask < 65536
    → parse_header (0x01 ∷ (be_bytes 2 bitmask ++ payload)) ≡ ok (0x01, bitmask)
unfolding parse_header be_bytes
header_of_delta bitmask payload h =
    rw (le→ltb (suc (suc (suc (length payload)))) 3 (omega arith))
      (ap (λ (k : ℕ). ok (0x01, k)) (be_number-be_bytes 2 bitmask h))

get_payload_of_delta :
    (bitmask : ℕ) (payload : Bytes)
    → bitmask < 65536
    → get_payload (0x01 ∷ (be_bytes 2 bitmask ++ payload)) ≡ ok payload
unfolding get_payload be_bytes
get_payload_of_delta bitmask payload h = rw (get_payload, header_of_delta bitmask payload h)

module _ {V : Type 0} where
  -- The receiver has the dictionary that the sender compares with.
  unfoldable pub InStep : Encoder V → Decoder V → Type 0
  InStep s t =
      (b : Dict Text V)
      → s.baseline ≡ some b
      → (c : Dict Text V) × (t.baseline ≡ some c) × Same c b × Ordered s.field_order b

module _ {V : Type 0} ⦃e : Eq V⦄ (pack : Dict Text V → Bytes)
    (unpack : Bytes → Result (Dict Text V)) where
  pub decode-wrap_delta :
      (t : Decoder V) (bitmask : ℕ) (payload : Bytes)
      → bitmask < 65536
      → decode pack unpack t (0x01 ∷ (be_bytes 2 bitmask ++ payload))
        ≡ decode_delta pack unpack t bitmask payload
  unfolding decode
  decode-wrap_delta t bitmask payload h =
      rw (decode, header_of_delta bitmask payload h, get_payload_of_delta bitmask payload h)

  pub wrap_delta_ok :
      (bitmask : ℕ) (payload : Bytes)
      → bitmask < 65536
      → wrap_delta bitmask payload ≡ ok (0x01 ∷ (be_bytes 2 bitmask ++ payload))
  unfolding wrap_delta
  wrap_delta_ok bitmask payload h = rw (lt→ltb bitmask 65536 h)

  -- One frame restores the dictionary sent, and leaves both sides in step.
  unfoldable pub Restores : Encoder V × Result Bytes → Decoder V → Dict Text V → Type 0
  Restores (s, made) t fields =
      (frame : Bytes) × (result : Dict Text V) × (made ≡ ok frame)
      × ((decode pack unpack t frame).1 ≡ ok (some result))
      × Same result fields
      × InStep s ((decode pack unpack t frame).0)

  decode_full_ok :
      (t : Decoder V) (fields : Dict Text V)
      → unpack (pack fields) ≡ ok fields
      → decode_full pack unpack t (pack fields)
        ≡ (record { baseline = some fields }, ok (some fields))
  unfolding decode_full
  decode_full_ok t fields law = rw (decode_full, law)

  pub encode_full-Restores :
      (s : Encoder V) (t : Decoder V) (fields : Dict Text V)
      → IsUnique fields
      → unpack (pack fields) ≡ ok fields
      → Restores (encode_full pack unpack s fields) t fields
  unfolding Restores encode_full wrap_full decode parse_header get_payload InStep
  encode_full-Restores s t fields u law = (
    0x00 ∷ pack fields,
    fields,
    refl,
    ap (λ r. r.1) full,
    λ k. refl,
    λ b p.
        let same : fields ≡ b = cc in
        (
          fields,
          ap (λ r. r.0.baseline) full,
          λ k. ap (get k) same,
          subst (Ordered (keys fields)) same (Ordered-keys fields u),
        ),
  )
    where
      full :
          decode_full pack unpack t (pack fields)
          ≡ (record { baseline = some fields }, ok (some fields))
      full = decode_full_ok t fields law

  pub decode_delta_same :
      (t : Decoder V) (body : Bytes) (c : Dict Text V)
      → t.baseline ≡ some c
      → decode_delta pack unpack t 0 body ≡ (t, ok (some c))
  unfolding decode_delta
  decode_delta_same t body c eq =
      rw (decode_delta, eq) (λ i. (record { baseline = eq i }, ok (some c)))

  pub decode_delta_changed :
      (t : Decoder V) (bitmask : ℕ) (changed c : Dict Text V)
      → t.baseline ≡ some c
      → 0 < bitmask
      → unpack (pack changed) ≡ ok changed
      → decode_delta pack unpack t bitmask (pack changed)
        ≡ (record { baseline = some (update c changed) }, ok (some (update c changed)))
  unfolding decode_delta
  decode_delta_changed t bitmask changed c eq h law = rw (decode_delta, eq, law, nonzero bitmask h)
    where
      nonzero : (n : ℕ) → 0 < n → n == 0 ≡ false
      nonzero n h = ground arith

  pub cons_present : (j : Text) (v : V) (rest : Dict Text V) → contains j ((j, v) ∷ rest) ≡ true
  unfolding get
  cons_present j v rest =
      ap (λ (t : Bool). elim (if t then some v else get j rest) [ none ↦ false | some w ↦ true ])
        ((list_eq_iff j j).1 refl)

  pub changes-Sub : (fields b : Dict Text V) → Sub (changes fields b) fields
  changes-Sub fields b k h = by_value (get k fields) refl
    where
      by_value : (o : Option V) → get k fields ≡ o → elim o [ none ↦ false | some v ↦ true ] ≡ true
      by_value (some v) p = refl
      by_value none p =
          sym (
            ap (λ (o : Option V). elim o [ none ↦ false | some v ↦ true ])
              (changes_absent fields b k p))
          ∙ h

  pub get-select_all :
      (order : List Text) (changed : Dict Text V) (k : Text)
      → (contains k changed ≡ true → member k order ≡ true)
      → get k (select order changed []) ≡ get k changed
  unfolding get
  get-select_all order changed k all =
      get-select order changed [] k ∙ by_value (member k order) (get k changed) all
    where
      by_value :
          (m : Bool) (o : Option V)
          → (elim o [ none ↦ false | some v ↦ true ] ≡ true → m ≡ true)
          → or_else (only_if m o) none ≡ o
      by_value true none h = refl
      by_value true (some v) h = refl
      by_value false none h = refl
      by_value false (some v) h = absurd (no (h refl))
        where
          no : false ≡ true → ⊥
          no q = cc

  pub Same-Sub : (a b : Dict Text V) → Same a b → Sub a b
  Same-Sub a b same k h =
      sym (ap (λ (o : Option V). elim o [ none ↦ false | some v ↦ true ]) (same k)) ∙ h

  pub compute_bitmask_bounds :
      (order : List Text) (b fields changed : Dict Text V)
      → Ordered order b
      → IsUnique fields
      → Sub fields b
      → Sub b fields
      → length fields ≤ 16
      → (k : Text) → Sub changed fields
      → contains k changed ≡ true
      → (0 < compute_bitmask order changed) × (compute_bitmask order changed < 65536)
  unfolding compute_bitmask
  compute_bitmask_bounds order b fields changed ordered u sub sup few k in_fields present =
      rw (take_of_length-le 16 order short) (
        bits_of_pos order changed k (Ordered-member order b k ordered (sub k (in_fields k present)))
            present,
        bits_of_bound 16 order changed short,
      )
    where
      short : length order ≤ 16
      short = omega (
        arith,
        ap length ordered.named,
        length-keys ordered.first,
        length-Sub ordered.first fields ordered.unique u (λ x h. sup x (ordered.lower x h)),
        few,
      )
