-- ===== src/Delta/InStep/Deltas.antt =====
-- Delta frames of src/qdap/compression/delta_encoder.py keep sender and receiver in step.
use mathlib.Core.Path.{subst}
use qdap_protocol.Base.{
  ℕ, ◌≤◌, ◌<◌, ◌≡◌, sym, ap, ◌∙◌, [], ◌∷◌, ◌++◌, length, some, Result, ok, Eq, list_eq_instance,
  arith,
}
use qdap_protocol.Base.Dict.{Dict, get}
use qdap_protocol.Base.Dict.Unique.{IsUnique}
use qdap_protocol.Bytes.{Bytes, be_bytes}
use qdap_protocol.Broker.Utf8.{Text}
use qdap_protocol.Delta.{
  Encoder, Decoder, compute_bitmask, update, select, changes, encode_delta, decode,
}
use qdap_protocol.Delta.Laws.{Same, select-IsUnique, changes-IsUnique, get-changes, or_else-get}
use qdap_protocol.Delta.Keys.{Sub, or_else, get-update}
use qdap_protocol.Delta.Ordered.{Ordered, Ordered-Same, Ordered-member}
use qdap_protocol.Delta.InStep.{
  InStep, Restores, decode-wrap_delta, wrap_delta_ok, decode_delta_same, decode_delta_changed,
  cons_present, changes-Sub, get-select_all, Same-Sub, compute_bitmask_bounds,
}

module _ {V : Type 0} ⦃e : Eq V⦄ (pack : Dict Text V → Bytes)
    (unpack : Bytes → Result (Dict Text V)) where
  -- Nothing has changed.
  pub encode_same-Restores :
      (s : Encoder V) (t : Decoder V) (b fields : Dict Text V)
      → s.baseline ≡ some b
      → InStep s t
      → IsUnique fields
      → Sub fields b
      → Sub b fields
      → changes fields b ≡ []
      → Restores pack unpack (encode_delta pack unpack s b [] fields) t fields
  unfolding Restores encode_delta InStep get
  encode_same-Restores s t b fields eq step u sub sup none_changed =
      let (c, has, same, ordered) = step b eq in
      let decoded : decode pack unpack t (0x01 ∷ (be_bytes 2 0 ++ [])) ≡ (t, ok (some c)) =
        decode-wrap_delta pack unpack t 0 [] (omega arith)
        ∙ decode_delta_same pack unpack t [] c has in
      (
        0x01 ∷ (be_bytes 2 0 ++ []),
        c,
        wrap_delta_ok pack unpack 0 [] (omega arith),
        ap (λ r. r.1) decoded,
        λ k. same k ∙ unchanged k,
        λ b' p.
            let is : fields ≡ b' = cc in
            (
              c,
              ap (λ r. r.0.baseline) decoded ∙ has,
              λ k. same k ∙ unchanged k ∙ ap (get k) is,
              subst (Ordered s.field_order) is
                  (Ordered-Same s.field_order b fields ordered sup sub),
            ),
      )
    where
      unchanged : (k : Text) → get k b ≡ get k fields
      unchanged k =
          ap (λ o. or_else o (get k b)) (sym (ap (get k) none_changed))
          ∙ get-changes fields b k u
          ∙ or_else-get fields b k sup

  pub encode_changed-Restores :
      (s : Encoder V) (t : Decoder V) (b fields : Dict Text V) (j : Text) (v : V)
      (rest : Dict Text V)
      → ((d : Dict Text V) → unpack (pack d) ≡ ok d)
      → s.baseline ≡ some b
      → InStep s t
      → IsUnique fields
      → Sub fields b
      → Sub b fields
      → length fields ≤ 16
      → changes fields b ≡ (j, v) ∷ rest
      → Restores pack unpack (encode_delta pack unpack s b ((j, v) ∷ rest) fields) t fields
  unfolding Restores encode_delta InStep
  encode_changed-Restores s t b fields j v rest law eq step u sub sup few is_changed =
      let (c, has, same, ordered) = step b eq in
      let mask : ℕ = compute_bitmask s.field_order changed in
      let selected : Dict Text V = select s.field_order changed [] in
      let bounds : (0 < mask) × (mask < 65536) =
        compute_bitmask_bounds pack unpack s.field_order b fields changed ordered u sub sup few j
          in_fields (cons_present pack unpack j v rest) in
      let decoded : decode pack unpack t (0x01 ∷ (be_bytes 2 mask ++ pack selected))
          ≡ (record { baseline = some (update c selected) }, ok (some (update c selected))) =
        decode-wrap_delta pack unpack t mask (pack selected) bounds.1
        ∙ decode_delta_changed pack unpack t mask selected c has bounds.0 (law selected) in
      (
        0x01 ∷ (be_bytes 2 mask ++ pack selected),
        update c selected,
        wrap_delta_ok pack unpack mask (pack selected) bounds.1,
        ap (λ r. r.1) decoded,
        restored c same ordered,
        λ b' p.
            let is : update b changed ≡ b' = cc in
            (
              update c selected,
              ap (λ r. r.0.baseline) decoded,
              λ k. restored c same ordered k ∙ sym (kept k) ∙ ap (get k) is,
              subst (Ordered s.field_order) is (
                  Ordered-Same s.field_order b (update b changed) ordered
                    (λ k h.
                      Same-Sub pack unpack fields (update b changed) (λ x. sym (kept x)) k
                        (sup k h))
                    (λ k h. sub k (Same-Sub pack unpack (update b changed) fields kept k h))),
            ),
      )
    where
      changed : Dict Text V
      changed = (j, v) ∷ rest

      in_fields : Sub changed fields
      in_fields = subst (λ d. Sub d fields) is_changed (changes-Sub pack unpack fields b)

      now : (k : Text) → or_else (get k changed) (get k b) ≡ get k fields
      now k =
          ap (λ d. or_else (get k d) (get k b)) (sym is_changed)
          ∙ get-changes fields b k u
          ∙ or_else-get fields b k sup

      kept : Same (update b changed) fields
      kept k =
          get-update b changed k (subst IsUnique is_changed (changes-IsUnique fields b u)) ∙ now k

      restored :
          (c : Dict Text V)
          → Same c b
          → Ordered s.field_order b
          → Same (update c (select s.field_order changed [])) fields
      restored c same ordered k =
          get-update c (select s.field_order changed []) k
            (select-IsUnique s.field_order changed [] tt)
          ∙ ap (λ o. or_else o (get k c))
              (get-select_all pack unpack s.field_order changed k
                (λ h. Ordered-member s.field_order b k ordered (sub k (in_fields k h))))
          ∙ ap (or_else (get k changed)) (same k)
          ∙ now k
