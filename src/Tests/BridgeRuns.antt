-- ===== src/Tests/BridgeRuns.antt =====
-- A frame of the bridge, and its header.
use qdap_protocol.Base.{◌≡◌, refl, true, [], ◌∷◌, ◌++◌, ok, arith}
use qdap_protocol.Bytes.{
  Bytes, be_bytes, le_bytes, unpack_be_at, unpack_be, be_number, be_number_from, unpack_le_at,
  unpack_le, le_number,
}
use qdap_protocol.Bridge.{FrameFields, qframe_serialize, qframe_deserialize, qframe_peek_header}
use qdap_protocol.Bridge.RoundTrip.{qframe_deserialize-qframe_serialize}
use qdap_protocol.Bridge.Peek.{qframe_peek_header-qframe_deserialize}
use qdap_protocol.Tests.Hash.{toy_hash, length-toy_hash}

abbrev fields : FrameFields
fields = record {
  payload = 5 ∷ 6 ∷ [];
  priority = 500;
  deadline_ms = 0x407f400000000000;
  sequence_number = 9;
  frame_type = 2;
}

qframe_deserialize-qframe_serialize_example :
    (bytes : Bytes) × (qframe_serialize toy_hash fields ≡ ok bytes)
    × (qframe_deserialize toy_hash (bytes ++ (1 ∷ [])) ≡ ok (fields, true))
qframe_deserialize-qframe_serialize_example =
    qframe_deserialize-qframe_serialize toy_hash length-toy_hash fields (1 ∷ []) (omega arith)
      (omega arith) (omega arith) (omega arith) (omega arith)

abbrev wire : Bytes
unfolding be_bytes le_bytes toy_hash
wire =
    be_bytes 4 0x51444150
    ++ (1
        ∷ 2
        ∷ (le_bytes 2 500
            ++ (le_bytes 8 0x407f400000000000
                ++ (le_bytes 8 9 ++ (le_bytes 4 2 ++ (toy_hash (5 ∷ 6 ∷ []) ++ (5 ∷ 6 ∷ [])))))))

wire_read : qframe_deserialize toy_hash wire ≡ ok (fields, true)
unfolding qframe_deserialize wire be_bytes le_bytes toy_hash unpack_be_at unpack_be be_number
    be_number_from unpack_le_at unpack_le le_number
wire_read = refl

qframe_peek_header-qframe_deserialize_example :
    qframe_peek_header wire ≡ ok (2, 500, 0x407f400000000000, 2)
qframe_peek_header-qframe_deserialize_example =
    qframe_peek_header-qframe_deserialize toy_hash wire fields true wire_read
