-- ===== src/Bridge/Peek.antt =====
-- Peeking at a frame of src/qdap/_rust_bridge.py agrees with reading all of it.
use qdap_protocol.Base.{
  ℕ, ◌+◌, ◌-◌, ◌≤◌, ◌≡◌, refl, sym, ap, ◌∙◌, Bool, true, false, length, length-take, length-drop,
  drop, slice, ok, Error, >>=-eq-ok, guard, or_raise, get_elem?, leb, leb→le, arith,
}
use qdap_protocol.Bytes.{Bytes, unpack_le_at}
use qdap_protocol.Bridge.{FrameFields, check_header, qframe_deserialize, qframe_peek_header}

guard_passed : (b : Bool) (x : Error) (u : Unit {0}) → guard b x ≡ ok u → b ≡ true
guard_passed true x u h = refl
guard_passed false x u h = absurd (cc)

ok_first : {A B : Type 0} (p q : A × B) → ok p ≡ ok q → p.0 ≡ q.0
ok_first p q h = cc

peek_of_parts :
    (bytes : Bytes) (u : Unit {0}) (y p d n : ℕ)
    → check_header bytes ≡ ok u
    → or_raise Error.index_error (get_elem? bytes 5) ≡ ok y
    → unpack_le_at 2 6 bytes ≡ ok p
    → unpack_le_at 8 8 bytes ≡ ok d
    → unpack_le_at 4 24 bytes ≡ ok n
    → qframe_peek_header bytes ≡ ok (n, p, d, y)
unfolding qframe_peek_header
peek_of_parts bytes u y p d n checked type priority deadline size =
    rw (qframe_peek_header, checked, type, priority, deadline, size)

length-slice_60 :
    (bytes : Bytes) (n : ℕ) → 60 + n ≤ length bytes → length (slice 60 (60 + n) bytes) ≡ n
length-slice_60 bytes n h =
    omega (arith, length-take (60 + n - 60) (drop 60 bytes), length-drop 60 bytes)

-- Whenever a frame is read, with a valid hash or not, peeking at the same bytes gives the length of
-- its payload, its priority, deadline and type.
pub qframe_peek_header-qframe_deserialize :
    (sha3_256 : Bytes → Bytes) (bytes : Bytes) (f : FrameFields) (valid : Bool)
    → qframe_deserialize sha3_256 bytes ≡ ok (f, valid)
    → qframe_peek_header bytes ≡ ok (length f.payload, f.priority, f.deadline_ms, f.frame_type)
unfolding qframe_deserialize qframe_peek_header
qframe_peek_header-qframe_deserialize sha3_256 bytes f valid h =
    let (u, checked, h1) = >>=-eq-ok (check_header bytes) _ h in
    let (y, type, h2) = >>=-eq-ok (or_raise Error.index_error (get_elem? bytes 5)) _ h1 in
    let (p, priority, h3) = >>=-eq-ok (unpack_le_at 2 6 bytes) _ h2 in
    let (d, deadline, h4) = >>=-eq-ok (unpack_le_at 8 8 bytes) _ h3 in
    let (q, sequence, h5) = >>=-eq-ok (unpack_le_at 8 16 bytes) _ h4 in
    let (n, size, h6) = >>=-eq-ok (unpack_le_at 4 24 bytes) _ h5 in
    let (w, enough, h7) = >>=-eq-ok (guard (leb (60 + n) (length bytes)) Error.value_error) _ h6 in
    let is : record {
      payload = slice 60 (60 + n) bytes;
      priority = p;
      deadline_ms = d;
      sequence_number = q;
      frame_type = y;
    }
        ≡ f =
      ok_first _ _ h7 in
    peek_of_parts bytes u y p d n checked type priority deadline size
    ∙ ap (λ (k : ℕ). ok (k, p, d, y))
        (sym (length-slice_60 bytes n (leb→le (60 + n) (length bytes) (guard_passed _ _ w enough))))
    ∙ ap (λ (g : FrameFields). ok (length g.payload, g.priority, g.deadline_ms, g.frame_type)) is
