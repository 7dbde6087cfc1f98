-- ===== src/Broker/Packet/Fuel.antt =====
-- The loops of src/qdap/broker/packet_parser.py over the topics of a packet end: the fuel of the
-- model is always enough.
use Prim.Native.Nat.{bit_and}
use qdap_protocol.Base.{
  ℕ, zero, suc, ◌+◌, ◌*◌, ◌≤◌, ◌≡◌, ◌≢◌, refl, Bool, true, false, List, [], ◌∷◌, length, slice,
  drop, get_elem?, Option, none, some, Result, ok, err, Error, or_raise, ◌>>=◌, ltb, le→ltb, ◌==◌,
  if◌then◌else◌, arith, >>=-eq-ok,
}
use qdap_protocol.Bytes.{Bytes, unpack_be_at, unpack_be}
use qdap_protocol.Broker.Utf8.{Text, decode_utf8}
use qdap_protocol.Broker.Packet.{
  mqtt_connect, mqtt_publish, mqtt_subscribe, mqtt_unsubscribe, MqttPacket, parse_filters,
  parse_topics, decode_string, byte_at, parse_packet, parse_body, parse_connect, parse_publish,
  parse_subscribe, parse_unsubscribe, parse_packet_id, decode_remaining_length, decode_loop,
}

abbrev pub Ends {ℓ} : {A : Type ℓ} → Result A → Type ℓ
Ends r = r ≢ err Error.out_of_fuel

ok-Ends : {A : Type 0} (a : A) → Ends (ok a)
ok-Ends a p = cc

module _ {A B : Type 0} where
  bind-Ends :
      (first : Result A) (k : A → Result B)
      → Ends first
      → ((a : A) → first ≡ ok a → Ends (k a))
      → Ends (first >>= k)
  bind-Ends (err e) k h g = λ p. h (cc)
  bind-Ends (ok a) k h g = g a refl

byte_at-Ends : (bs : Bytes) (i : ℕ) → Ends (byte_at bs i)
byte_at-Ends bs i = by_elem (get_elem? bs i)
  where
    by_elem : (o : Option ℕ) → Ends (or_raise Error.index_error o)
    by_elem none p = cc
    by_elem (some b) p = cc

unpack_be_at-Ends : (w offset : ℕ) (bs : Bytes) → Ends (unpack_be_at w offset bs)
unfolding unpack_be_at unpack_be
unpack_be_at-Ends w offset bs p = ground arith

decode_utf8-Ends : (bs : Bytes) → Ends (decode_utf8 bs)
unfolding decode_utf8
decode_utf8-Ends bs p = ground arith

decode_string-Ends : (bs : Bytes) (offset : ℕ) → Ends (decode_string bs offset)
unfolding decode_string
decode_string-Ends bs offset =
    bind-Ends (unpack_be_at 2 offset bs) _ (unpack_be_at-Ends 2 offset bs) (λ size eq.
      bind-Ends (decode_utf8 (slice (offset + 2) (offset + 2 + size) bs)) _ (decode_utf8-Ends _)
        (λ text eq'. ok-Ends (text, offset + 2 + size)))

-- A string takes two bytes at least.
decode_string_moves :
    (bs : Bytes) (offset : ℕ) (out : Text × ℕ)
    → decode_string bs offset ≡ ok out
    → offset + 2 ≤ out.1
unfolding decode_string
decode_string_moves bs offset out h =
    let (size, e, h') = >>=-eq-ok (unpack_be_at 2 offset bs) _ h in
    let (text, e', h'') =
      >>=-eq-ok (decode_utf8 (slice (offset + 2) (offset + 2 + size) bs)) _ h' in
    let end : offset + 2 + size ≡ out.1 = cc in omega (arith, end)

none_left :
    {A : Type 0} (pos size : ℕ) (stuck done : Result (List A))
    → size ≤ pos + 0
    → Ends done
    → Ends (if ltb pos size then stuck else done)
none_left pos size stuck done h e = rw (le→ltb pos size (omega arith)) e

if-Ends : {A : Type 0} (b : Bool) (r : Result (List A)) → Ends r → Ends (if b then r else ok [])
if-Ends true r h = h
if-Ends false r h = ok-Ends []

pub parse_filters-Ends :
    (fuel : ℕ) (body : Bytes) (pos : ℕ)
    → length body ≤ pos + fuel
    → Ends (parse_filters fuel body pos)
unfolding parse_filters
parse_filters-Ends zero body pos h = none_left pos (length body) _ _ h (ok-Ends [])
parse_filters-Ends (suc fuel) body pos h = if-Ends (ltb pos (length body)) _ (
    bind-Ends (decode_string body pos) _ (decode_string-Ends body pos) (λ s eq.
      bind-Ends (byte_at body s.1) _ (byte_at-Ends body s.1) (λ b eq'.
        bind-Ends (parse_filters fuel body (s.1 + 1)) _
          (parse_filters-Ends fuel body (s.1 + 1)
            (omega (arith, h, decode_string_moves body pos s eq)))
          (λ rest eq''. ok-Ends _))))

pub parse_topics-Ends :
    (fuel : ℕ) (body : Bytes) (pos : ℕ)
    → length body ≤ pos + fuel
    → Ends (parse_topics fuel body pos)
unfolding parse_topics
parse_topics-Ends zero body pos h = none_left pos (length body) _ _ h (ok-Ends [])
parse_topics-Ends (suc fuel) body pos h = if-Ends (ltb pos (length body)) _ (
    bind-Ends (decode_string body pos) _ (decode_string-Ends body pos) (λ s eq.
      bind-Ends (parse_topics fuel body s.1) _
        (parse_topics-Ends fuel body s.1 (omega (arith, h, decode_string_moves body pos s eq)))
        (λ rest eq''. ok-Ends _)))

decode_loop-Ends : (bs : Bytes) (m v o : ℕ) → Ends (decode_loop bs m v o)
unfolding decode_loop
decode_loop-Ends [] m v o = λ p. cc
decode_loop-Ends (b ∷ bs) m v o =
    by_test (bit_and b 0x80 == 0) _ (decode_loop-Ends bs (m * 128) (v + bit_and b 0x7f * m) (o + 1))
  where
    by_test : (t : Bool) (a : ℕ × ℕ) {r : Result (ℕ × ℕ)} → Ends r → Ends (if t then ok a else r)
    by_test true a h = ok-Ends a
    by_test false a h = h

decode_remaining_length-Ends : (bs : Bytes) (offset : ℕ) → Ends (decode_remaining_length bs offset)
unfolding decode_remaining_length
decode_remaining_length-Ends bs offset = decode_loop-Ends (drop offset bs) 1 0 offset

parse_subscribe-Ends : (body : Bytes) (pkt : MqttPacket) → Ends (parse_subscribe body pkt)
unfolding parse_subscribe
parse_subscribe-Ends body pkt =
    bind-Ends (unpack_be_at 2 0 body) _ (unpack_be_at-Ends 2 0 body) (λ id eq.
      bind-Ends (decode_remaining_length body 2) _ (decode_remaining_length-Ends body 2) (λ n eq'.
        bind-Ends (parse_filters (length body) body (n.1 + n.0)) _
          (parse_filters-Ends (length body) body (n.1 + n.0) (omega arith))
          (λ subs eq''. ok-Ends _)))

parse_unsubscribe-Ends : (body : Bytes) (pkt : MqttPacket) → Ends (parse_unsubscribe body pkt)
unfolding parse_unsubscribe
parse_unsubscribe-Ends body pkt =
    bind-Ends (unpack_be_at 2 0 body) _ (unpack_be_at-Ends 2 0 body) (λ id eq.
      bind-Ends (decode_remaining_length body 2) _ (decode_remaining_length-Ends body 2) (λ n eq'.
        bind-Ends (parse_topics (length body) body (n.1 + n.0)) _
          (parse_topics-Ends (length body) body (n.1 + n.0) (omega arith))
          (λ subs eq''. ok-Ends _)))

parse_packet_id-Ends : (body : Bytes) (qos pos : ℕ) → Ends (parse_packet_id body qos pos)
unfolding parse_packet_id
parse_packet_id-Ends body qos pos =
    by_test (ltb 0 qos) _
      (bind-Ends (unpack_be_at 2 pos body) _ (unpack_be_at-Ends 2 pos body) (λ id eq. ok-Ends _))
  where
    by_test :
        (t : Bool) (a : Option ℕ × ℕ) {r : Result (Option ℕ × ℕ)}
        → Ends r
        → Ends (if t then r else ok a)
    by_test true a h = h
    by_test false a h = ok-Ends a

parse_publish-Ends : (body : Bytes) (pkt : MqttPacket) → Ends (parse_publish body pkt)
unfolding parse_publish
parse_publish-Ends body pkt =
    bind-Ends (decode_string body 0) _ (decode_string-Ends body 0) (λ t eq.
      bind-Ends (parse_packet_id body _ t.1) _ (parse_packet_id-Ends body _ t.1) (λ i eq'.
        bind-Ends (decode_remaining_length body i.1) _ (decode_remaining_length-Ends body i.1)
          (λ n eq''. ok-Ends _)))

either-Ends : {A : Type 0} (t : Bool) (r s : Result A) → Ends r → Ends s → Ends (if t then r else s)
either-Ends true r s h k = h
either-Ends false r s h k = k

parse_connect-Ends : (body : Bytes) (pkt : MqttPacket) → Ends (parse_connect body pkt)
unfolding parse_connect
parse_connect-Ends body pkt =
    bind-Ends (unpack_be_at 2 0 body) _ (unpack_be_at-Ends 2 0 body) (λ n eq.
      bind-Ends (byte_at body (2 + n)) _ (byte_at-Ends body (2 + n)) (λ version eq1.
        bind-Ends (byte_at body (2 + n + 1)) _ (byte_at-Ends body (2 + n + 1)) (λ flags eq2.
          bind-Ends (unpack_be_at 2 (2 + n + 2) body) _ (unpack_be_at-Ends 2 (2 + n + 2) body)
            (λ keepalive eq3.
              bind-Ends _ _
                (either-Ends (version == 5) _ _
                  (bind-Ends (byte_at body (2 + n + 4)) _ (byte_at-Ends body (2 + n + 4))
                    (λ b eq5. ok-Ends _))
                  (ok-Ends _))
                (λ start eq4.
                  bind-Ends (decode_string body start) _ (decode_string-Ends body start)
                    (λ s eq6. ok-Ends _))))))

parse_body-Ends : (ptype : ℕ) (body : Bytes) (pkt : MqttPacket) → Ends (parse_body ptype body pkt)
unfolding parse_body
parse_body-Ends ptype body pkt =
    either-Ends (ptype == mqtt_connect) _ _ (parse_connect-Ends body pkt) (
      either-Ends (ptype == mqtt_publish) _ _ (parse_publish-Ends body pkt) (
        either-Ends (ptype == mqtt_subscribe) _ _ (parse_subscribe-Ends body pkt) (
          either-Ends (ptype == mqtt_unsubscribe) _ _ (parse_unsubscribe-Ends body pkt)
            (ok-Ends pkt))))

-- Parsing any bytes ends with a packet, nothing, or one of the exceptions of the code: the fuel of
-- the loops is enough.
pub parse_packet_total : (bytes : Bytes) → parse_packet bytes ≢ err Error.out_of_fuel
unfolding parse_packet
parse_packet_total [] = ok-Ends none
parse_packet_total (b ∷ []) = ok-Ends none
parse_packet_total (first ∷ second ∷ more) =
    bind-Ends (decode_remaining_length (first ∷ second ∷ more) 1) _
      (decode_remaining_length-Ends _ 1)
      (λ n eq. bind-Ends _ _ (parse_body-Ends _ _ _) (λ pkt eq'. ok-Ends _))
