-- ===== src/Broker/Packet/Header.antt =====
-- The fixed header of src/qdap/broker/packet_parser.py around any body.
use Prim.Native.Nat.{bit_and}
use qdap_protocol.Base.{
  ℕ, ◌+◌, ◌/◌, ◌<◌, ◌≡◌, refl, sym, ap, ◌∙◌, [], ◌∷◌, ◌++◌, append_assoc, append-nil, length, slice,
  length-append, some, ok, ◌>>=◌, arith, lt→ltb, le→ltb,
}
use qdap_protocol.Bytes.{Bytes}
use qdap_protocol.Bytes.Laws.{slice-append}
use qdap_protocol.Broker.Packet.{
  packet, with_header, to_bytes, encode_remaining_length, parse_packet, parse_body,
  decode_remaining_length,
}
use qdap_protocol.Broker.Packet.Remaining.{
  encode_remaining_length_pos, decode_remaining_length-encode_remaining_length,
}
use qdap_protocol.Broker.Stream.{packet_end}

-- The packet that with_header makes.
abbrev pub headed : ℕ → Bytes → Bytes
headed head body = (head ∷ []) ++ (encode_remaining_length (length body) ++ body)

pub with_header_ok :
    (head : ℕ) (body : Bytes) → head < 256 → with_header head body ≡ ok (headed head body)
unfolding with_header to_bytes
with_header_ok head body h = rw (lt→ltb head 256 h)

decode-headed :
    (head : ℕ) (body more : Bytes)
    → decode_remaining_length (headed head body ++ more) 1
      ≡ ok (length body, 1 + length (encode_remaining_length (length body)))
decode-headed head body more =
    ap (λ bs. decode_remaining_length (head ∷ bs) 1)
      (append_assoc (encode_remaining_length (length body)) body more)
    ∙ decode_remaining_length-encode_remaining_length (length body) (head ∷ []) (body ++ more)

pub length-headed :
    (head : ℕ) (body : Bytes)
    → length (headed head body) ≡ 1 + length (encode_remaining_length (length body)) + length body
length-headed head body = omega (arith, length-append (encode_remaining_length (length body)) body)

-- In a buffer that begins with a packet of any body, the receive loop finds the end of exactly that
-- packet, whatever follows it.
pub packet_end-headed :
    (head : ℕ) (body more : Bytes)
    → packet_end (headed head body ++ more) ≡ some (length (headed head body))
unfolding packet_end
packet_end-headed head body more =
    rw
      (
        le→ltb (length (headed head body ++ more)) 2
            (omega (arith, long, encode_remaining_length_pos (length body))),
        decode-headed head body more,
        le→ltb (length (headed head body ++ more))
            (1 + length (encode_remaining_length (length body)) + length body)
            (omega (arith, long)),
      )
      (ap some (sym (length-headed head body)))
  where
    long :
        length (headed head body ++ more)
        ≡ 1 + length (encode_remaining_length (length body)) + length body + length more
    long =
        length-append (headed head body) more
        ∙ ap (λ (k : ℕ). k + length more) (length-headed head body)

parse_packet_parts :
    (head : ℕ) (tail : Bytes) (rem_len offset : ℕ)
    → 0 < length tail
    → decode_remaining_length (head ∷ tail) 1 ≡ ok (rem_len, offset)
    → parse_packet (head ∷ tail) ≡ (
        parse_body
          (bit_and (head / 16) 0x0f)
          (slice offset (offset + rem_len) (head ∷ tail))
          (packet (bit_and (head / 16) 0x0f) (bit_and head 0x0f))
        >>= λ pkt. ok (some pkt))
unfolding parse_packet
parse_packet_parts head [] rem_len offset h eq = absurd (omega arith)
parse_packet_parts head (second ∷ tail) rem_len offset h eq = rw eq

-- A packet is parsed by its type and its body alone.
pub parse_packet-headed :
    (head : ℕ) (body : Bytes)
    → parse_packet (headed head body) ≡ (
        parse_body
          (bit_and (head / 16) 0x0f)
          body
          (packet (bit_and (head / 16) 0x0f) (bit_and head 0x0f))
        >>= λ pkt. ok (some pkt))
parse_packet-headed head body =
    parse_packet_parts head (size ++ body) (length body) (1 + length size)
      (omega (arith, length-append size body, encode_remaining_length_pos (length body)))
      (ap (λ bs. decode_remaining_length bs 1) (sym (append-nil (headed head body)))
        ∙ decode-headed head body [])
    ∙ ap
        (λ bs.
          parse_body (bit_and (head / 16) 0x0f) bs
            (packet (bit_and (head / 16) 0x0f) (bit_and head 0x0f))
          >>= λ pkt. ok (some pkt))
        cut
  where
    size : Bytes
    size = encode_remaining_length (length body)

    cut : slice (1 + length size) (1 + length size + length body) (headed head body) ≡ body
    cut =
        ap (λ bs. slice (1 + length size) (1 + length size + length body) ((head ∷ size) ++ bs))
          (sym (append-nil body))
        ∙ slice-append (1 + length size) (length body) (head ∷ size) body [] (omega arith) refl
