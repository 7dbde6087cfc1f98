-- ===== src/Frame/Integrity.antt =====
-- deserialize of src/qdap/frame/qframe.py on damaged input: what an accepted message guarantees,
-- and that a message cut short is refused.
use qdap_protocol.Base.{
  ℕ, zero, suc, ◌+◌, ◌-◌, ◌*◌, ◌≤◌, ◌≡◌, ◌≢◌, refl, sym, ap, ◌∙◌, List, [], ◌∷◌, ◌++◌, length,
  length-append, length-take, length-drop, take, drop, slice, slice, Result, ok, Error, guard, ◌>>◌,
  >>=-eq-ok, arith, list_eq_iff, true, false, Bool, append-nil, take-append_front,
  drop-append_front,
}
use qdap_protocol.Bytes.{Bytes, unpack_be_at, unpack_be}
use qdap_protocol.Frame.{
  Subframe, QFrame, SubframeType, subframe, subframe_type, default_deadline, frame_type_of,
  subframe_count, from_buffer, deserialize_subframe, deserialize_subframes, serialize, deserialize,
}
use qdap_protocol.Frame.Layout.{IsValidFrame, raw_bytes}
use qdap_protocol.Frame.RoundTrip.{serialize_ok, layout}

-- A field that can be read lies inside the message.
unpack_be_at_inside :
    (w a n : ℕ) (bytes : Bytes) → unpack_be_at (suc w) a bytes ≡ ok n → a + suc w ≤ length bytes
unfolding unpack_be_at unpack_be
unpack_be_at_inside w a n bytes h =
    ground (arith, length-take (a + suc w - a) (drop a bytes), length-drop a bytes)

-- The four checks of `deserialize_subframe`.
record SubframeFields (bytes : Bytes) (type : SubframeType) (size code seq : ℕ) : Type 0 where
  size_read : unpack_be_at 4 0 (take 9 bytes) ≡ ok size
  code_read : unpack_be_at 1 4 (take 9 bytes) ≡ ok code
  seq_read : unpack_be_at 4 5 (take 9 bytes) ≡ ok seq
  type_read : subframe_type code ≡ ok type

deserialize_subframe_fields :
    (bytes : Bytes) (type : SubframeType) (size code seq : ℕ)
    → SubframeFields bytes type size code seq
    → deserialize_subframe bytes
      ≡ ok (subframe (slice 9 (9 + size) bytes) type default_deadline seq, 9 + size)
unfolding deserialize_subframe
deserialize_subframe_fields bytes type size code seq h =
    rw (h.size_read, h.code_read, h.seq_read, h.type_read)

deserialize_subframe-eq-ok :
    (bytes : Bytes) (sf : Subframe) (n : ℕ)
    → deserialize_subframe bytes ≡ ok (sf, n)
    → (type : SubframeType) × (size : ℕ) × (code : ℕ) × (seq : ℕ) × SubframeFields bytes type size
        code seq
      × (n ≡ 9 + size)
unfolding deserialize_subframe
deserialize_subframe-eq-ok bytes sf n h =
    let (size, e1, k1) = >>=-eq-ok (unpack_be_at 4 0 (take 9 bytes)) _ h in
    let (code, e2, k2) = >>=-eq-ok (unpack_be_at 1 4 (take 9 bytes)) _ k1 in
    let (seq, e3, k3) = >>=-eq-ok (unpack_be_at 4 5 (take 9 bytes)) _ k2 in
    let (type, e4, k4) = >>=-eq-ok (subframe_type code) _ k3 in
    (
      type,
      size,
      code,
      seq,
      record { size_read = e1; code_read = e2; seq_read = e3; type_read = e4 },
      cc k4,
    )

fields-append :
    (bytes more : Bytes) (type : SubframeType) (size code seq : ℕ)
    → 9 ≤ length bytes
    → SubframeFields bytes type size code seq
    → SubframeFields (bytes ++ more) type size code seq
fields-append bytes more type size code seq long h =
    let e : take 9 (bytes ++ more) ≡ take 9 bytes = take-append_front 9 bytes more long in
    record {
      size_read = rw e h.size_read;
      code_read = rw e h.code_read;
      seq_read = rw e h.seq_read;
      type_read = h.type_read;
    }

-- A subframe that can be read takes the same number of bytes when the message goes on.
deserialize_subframe-append :
    (bytes more : Bytes) (sf : Subframe) (n : ℕ)
    → deserialize_subframe bytes ≡ ok (sf, n)
    → (9 ≤ length bytes) × (sf' : Subframe) × (deserialize_subframe (bytes ++ more) ≡ ok (sf', n))
deserialize_subframe-append bytes more sf n h =
    let (type, size, code, seq, fields, e) = deserialize_subframe-eq-ok bytes sf n h in
    let long : 9 ≤ length bytes = omega (
      arith,
      unpack_be_at_inside 3 5 seq (take 9 bytes) fields.seq_read,
      length-take {0} 9 bytes,
    ) in
    (
      long,
      subframe (slice 9 (9 + size) (bytes ++ more)) type default_deadline seq,
      deserialize_subframe_fields (bytes ++ more) type size code seq
            (fields-append bytes more type size code seq long fields)
          ∙ ap
              (λ (t : ℕ).
                ok (subframe (slice 9 (9 + size) (bytes ++ more)) type default_deadline seq, t))
              (sym e),
    )

deserialize_subframes-eq-ok :
    (n : ℕ) (bytes : Bytes) (offset : ℕ) (r : List Subframe × ℕ)
    → deserialize_subframes (suc n) bytes offset ≡ ok r
    → (sf : Subframe) × (k : ℕ) × (q : List Subframe × ℕ) × (deserialize_subframe
          (drop offset bytes)
        ≡ ok (sf, k))
      × (deserialize_subframes n bytes (offset + k) ≡ ok q)
      × (r ≡ (sf ∷ q.0, q.1))
unfolding deserialize_subframes
deserialize_subframes-eq-ok n bytes offset r h =
    let ((sf, k), e1, k1) = >>=-eq-ok (deserialize_subframe (drop offset bytes)) _ h in
    let (q, e2, k2) = >>=-eq-ok (deserialize_subframes n bytes (offset + k)) _ k1 in
    (sf, k, q, e1, e2, cc k2)

deserialize_subframes_step :
    (n : ℕ) (bytes : Bytes) (offset k : ℕ) (sf : Subframe) (q : List Subframe × ℕ)
    → deserialize_subframe (drop offset bytes) ≡ ok (sf, k)
    → deserialize_subframes n bytes (offset + k) ≡ ok q
    → deserialize_subframes (suc n) bytes offset ≡ ok (sf ∷ q.0, q.1)
unfolding deserialize_subframes
deserialize_subframes_step n bytes offset k sf q e1 e2 = rw (e1, e2)

same_end :
    (n m : ℕ) (bytes : Bytes) (r s : List Subframe × ℕ)
    → n ≡ m
    → deserialize_subframes n bytes (14 + n * 4) ≡ ok r
    → deserialize_subframes m bytes (14 + m * 4) ≡ ok s
    → r.1 ≡ s.1
same_end n m bytes r s e h k = let p : r ≡ s = cc in ap (λ (t : List Subframe × ℕ). t.1) p

-- A list of subframes that can be read ends at the same offset when the message goes on.
deserialize_subframes-append :
    (n : ℕ) (bytes more : Bytes) (offset : ℕ) (r : List Subframe × ℕ)
    → deserialize_subframes n bytes offset ≡ ok r
    → (sfs : List Subframe) × (deserialize_subframes n (bytes ++ more) offset ≡ ok (sfs, r.1))
unfolding deserialize_subframes
deserialize_subframes-append zero bytes more offset r h = ([], ap (λ (k : ℕ). ok ([], k)) (cc h))
deserialize_subframes-append (suc n) bytes more offset r h =
    let (sf, k, q, e1, e2, e3) = deserialize_subframes-eq-ok n bytes offset r h in
    let (long, sf', e1') = deserialize_subframe-append (drop offset bytes) more sf k e1 in
    let (sfs, e2') = deserialize_subframes-append n bytes more (offset + k) q e2 in
    let inside : offset ≤ length bytes = omega (arith, length-drop {0} offset bytes) in
    (
      sf' ∷ sfs,
      deserialize_subframes_step n (bytes ++ more) offset k sf' (sfs, q.1)
            (ap deserialize_subframe (drop-append_front offset bytes more inside) ∙ e1') e2'
          ∙ ap (λ (t : ℕ). ok (sf' ∷ sfs, t)) (sym (ap (λ (t : List Subframe × ℕ). t.1) e3)),
    )

guard-eq-true :
    {A : Type 0} (b : Bool) (m : Result A) (a : A)
    → (guard b Error.value_error >> m) ≡ ok a
    → b ≡ true
guard-eq-true true m a h = refl
guard-eq-true false m a h = cc

module _ (sha3_256 : Bytes → Bytes) where
  -- What acceptance says: the subframes end at `end`, and the 32 bytes there are the hash of all
  -- the bytes before them.
  record IsVerified (bytes : Bytes) (end : ℕ) : Type 0 where
    count : ℕ
    sfs : List Subframe
    count_read : unpack_be_at 2 2 (take 6 bytes) ≡ ok count
    parsed : deserialize_subframes count bytes (14 + count * 4) ≡ ok (sfs, end)
    hashed : slice end (end + 32) bytes ≡ sha3_256 (take end bytes)

  deserialize-IsVerified :
      (bytes : Bytes) (f : QFrame)
      → deserialize sha3_256 bytes ≡ ok f
      → (end : ℕ) × IsVerified bytes end
  unfolding deserialize
  deserialize-IsVerified bytes f h =
      let (version, e1, k1) = >>=-eq-ok (unpack_be_at 1 0 (take 6 bytes)) _ h in
      let (code, e2, k2) = >>=-eq-ok (unpack_be_at 1 1 (take 6 bytes)) _ k1 in
      let (count, e3, k3) = >>=-eq-ok (unpack_be_at 2 2 (take 6 bytes)) _ k2 in
      let (flags, e4, k4) = >>=-eq-ok (unpack_be_at 2 4 (take 6 bytes)) _ k3 in
      let (session, e5, k5) = >>=-eq-ok (unpack_be_at 8 0 (slice 6 14 bytes)) _ k4 in
      let (amps, e6, k6) = >>=-eq-ok (from_buffer (slice 14 (14 + count * 4) bytes)) _ k5 in
      let (r, e7, k7) = >>=-eq-ok (deserialize_subframes count bytes (14 + count * 4)) _ k6 in
      let (type, e8, k8) = >>=-eq-ok (frame_type_of code) _ k7 in
      (
        r.1,
        record {
          count = count;
          sfs = r.0;
          count_read = e3;
          parsed = e7;
          hashed = (list_eq_iff _ _).0 (guard-eq-true _ _ _ k8);
        },
      )

  module _ (sha3_length : (b : Bytes) → length (sha3_256 b) ≡ 32) where
    verified_long : (bytes : Bytes) (end : ℕ) → IsVerified bytes end → end + 32 ≤ length bytes
    verified_long bytes end v = omega (
      arith,
      ap length v.hashed,
      sha3_length (take end bytes),
      length-take {0} (end + 32 - end) (drop end bytes),
      length-drop {0} end bytes,
    )

    -- No proper prefix of a serialized valid frame is accepted: a frame cut short anywhere is an
    -- error, also where the cut falls inside a payload, which alone would parse.
    pub deserialize_truncated :
        (f g : QFrame) (bytes front back : Bytes) (x : ℕ)
        → IsValidFrame f
        → serialize sha3_256 f ≡ ok bytes
        → bytes ≡ front ++ (x ∷ back)
        → deserialize sha3_256 front ≢ ok g
    deserialize_truncated f g bytes front back x v s e d =
        let (end, w) = deserialize-IsVerified front g d in
        let full : Bytes = front ++ (x ∷ back) in
        let whole : raw_bytes f ++ (sha3_256 (raw_bytes f) ++ []) ≡ full =
          ap (λ (t : Bytes). raw_bytes f ++ t) (append-nil _)
          ∙ cc (serialize_ok sha3_256 f v)
          ∙ e in
        let (count_read, parsed) = layout sha3_256 sha3_length f v [] in
        let same : w.count ≡ subframe_count f = cc (
          whole,
          count_read,
          ap (unpack_be_at 2 2)
              (take-append_front 6 front (x ∷ back) (omega (arith, verified_long front end w))),
          w.count_read,
        ) in
        let (sfs, again) =
          deserialize_subframes-append w.count front (x ∷ back) (14 + w.count * 4) _ w.parsed in
        let ends : end ≡ length (raw_bytes f) =
          same_end w.count (subframe_count f) full _ _ same again (
            ap
              (λ (t : Bytes).
                deserialize_subframes (subframe_count f) t (14 + subframe_count f * 4))
              (sym whole)
            ∙ parsed) in
        omega (
          arith,
          ends,
          verified_long front end w,
          ap length whole,
          length-append {0} (raw_bytes f) (sha3_256 (raw_bytes f) ++ []),
          length-append {0} (sha3_256 (raw_bytes f)) [],
          sha3_length (raw_bytes f),
          length-append {0} front (x ∷ back),
        )
