-- ===== src/Frame/Laws.antt =====
-- One subframe of src/qdap/frame/qframe.py on the wire.
use qdap_protocol.Base.{
  ℕ, ◌+◌, ◌^◌, ◌<◌, ◌≡◌, refl, sym, ap, ◌∙◌, ◌++◌, append_assoc, length, length-append, take-append,
  ok, arith,
}
use qdap_protocol.Bytes.{Bytes, be_bytes, unpack_be_at, unpack_be}
use qdap_protocol.Bytes.Laws.{be_number-be_bytes, pack_be_ok, slice-append}
use qdap_protocol.Frame.{
  Subframe, SubframeType, subframe, subframe_code, subframe_type, default_deadline,
  serialize_subframe, deserialize_subframe, subframe_header_size,
}

-- What a caller of the constructor gets, within the ranges of the wire format.
pub record IsValidSubframe (sf : Subframe) : Type 0 where
  pub sized : sf.size_bytes ≡ length sf.payload
  pub short : sf.size_bytes < 2 ^ 32
  pub seq : sf.seq_num < 2 ^ 32

-- The part of a subframe that the wire carries; the rest takes its defaults.
abbrev pub wire_subframe : Subframe → Subframe
wire_subframe sf = subframe sf.payload sf.type default_deadline sf.seq_num

abbrev pub header_bytes : ℕ → ℕ → ℕ → Bytes
header_bytes size code seq = be_bytes 4 size ++ (be_bytes 1 code ++ be_bytes 4 seq)

abbrev pub subframe_bytes : Subframe → Bytes
subframe_bytes sf = header_bytes sf.size_bytes (subframe_code sf.type) sf.seq_num ++ sf.payload

subframe_code-lt : (t : SubframeType) → subframe_code t < 256 ^ 1
subframe_code-lt SubframeType.data_kind = omega arith
subframe_code-lt SubframeType.ctrl = omega arith
subframe_code-lt SubframeType.ghost = omega arith
subframe_code-lt SubframeType.probe = omega arith
subframe_code-lt SubframeType.sync = omega arith

pub subframe_type-subframe_code : (t : SubframeType) → subframe_type (subframe_code t) ≡ ok t
subframe_type-subframe_code SubframeType.data_kind = refl
subframe_type-subframe_code SubframeType.ctrl = refl
subframe_type-subframe_code SubframeType.ghost = refl
subframe_type-subframe_code SubframeType.probe = refl
subframe_type-subframe_code SubframeType.sync = refl

module _ (size code seq : ℕ) where
  length-header_bytes : length (header_bytes size code seq) ≡ 9
  unfolding be_bytes
  length-header_bytes = refl

  size_field : size < 256 ^ 4 → unpack_be_at 4 0 (header_bytes size code seq) ≡ ok size
  unfolding be_bytes unpack_be_at unpack_be
  size_field h = ap ok (be_number-be_bytes 4 size h)

  code_field : code < 256 ^ 1 → unpack_be_at 1 4 (header_bytes size code seq) ≡ ok code
  unfolding be_bytes unpack_be_at unpack_be
  code_field h = ap ok (be_number-be_bytes 1 code h)

  seq_field : seq < 256 ^ 4 → unpack_be_at 4 5 (header_bytes size code seq) ≡ ok seq
  unfolding be_bytes unpack_be_at unpack_be
  seq_field h = ap ok (be_number-be_bytes 4 seq h)

-- A valid subframe packs without error, to these bytes.
pub serialize_subframe_ok :
    (sf : Subframe) → IsValidSubframe sf → serialize_subframe sf ≡ ok (subframe_bytes sf)
unfolding serialize_subframe
serialize_subframe_ok sf v = rw (
  pack_be_ok 4 sf.size_bytes v.short,
  pack_be_ok 1 (subframe_code sf.type) (subframe_code-lt sf.type),
  pack_be_ok 4 sf.seq_num v.seq,
)

pub length-subframe_bytes :
    (sf : Subframe) → length (subframe_bytes sf) ≡ subframe_header_size + length sf.payload
length-subframe_bytes sf =
    length-append (header_bytes sf.size_bytes (subframe_code sf.type) sf.seq_num) sf.payload
    ∙ ap (λ (n : ℕ). n + length sf.payload) (length-header_bytes _ _ _)

-- Reading a packed subframe gives it back, with the bytes it takes, whatever follows.
pub deserialize_subframe_ok :
    (sf : Subframe) (rest : Bytes)
    → IsValidSubframe sf
    → deserialize_subframe (subframe_bytes sf ++ rest)
      ≡ ok (wire_subframe sf, subframe_header_size + length sf.payload)
unfolding deserialize_subframe
deserialize_subframe_ok sf rest v =
    let header : Bytes = header_bytes sf.size_bytes (subframe_code sf.type) sf.seq_num in
    rw
      (
        append_assoc header sf.payload rest,
        take-append 9 header (sf.payload ++ rest) (length-header_bytes _ _ _),
        size_field sf.size_bytes (subframe_code sf.type) sf.seq_num v.short,
        code_field sf.size_bytes (subframe_code sf.type) sf.seq_num (subframe_code-lt sf.type),
        seq_field sf.size_bytes (subframe_code sf.type) sf.seq_num v.seq,
        subframe_type-subframe_code sf.type,
      )
      (ap
          (λ (p : Bytes).
            ok (
              subframe p sf.type default_deadline sf.seq_num,
              subframe_header_size + sf.size_bytes,
            ))
          (slice-append 9 sf.size_bytes header sf.payload rest (length-header_bytes _ _ _)
            (sym v.sized))
        ∙ ap (λ (k : ℕ). ok (wire_subframe sf, subframe_header_size + k)) v.sized)
