-- ===== src/Broker/Stream/Laws.antt =====
-- How the receive loop of handle_client depends on the cuts between chunks: not at all.
use qdap_protocol.Base.{
  ℕ, zero, suc, ◌≤◌, ◌≡◌, refl, sym, ap, ◌∙◌, List, [], ◌∷◌, ◌++◌, append_assoc, append-nil, length,
  take, drop, join, length-append, length-drop, Option, none, some, Result, ok, err, Error, arith,
  take-append_front, drop-append_front,
}
use qdap_protocol.Bytes.{Bytes}
use qdap_protocol.Broker.Packet.{MqttPacket, parse_packet}
use qdap_protocol.Broker.Stream.{
  packet_end, Connection, waiting, Handler, drain, drain_round, after_handler, after_parser,
  receive, receive_all,
}
use qdap_protocol.Broker.Stream.Complete.{packet_end_bounds, packet_end-append}

module _ {S : Type 0} (handle : Handler S) where
  after_handler_congr :
      (next other : S → Connection S) (r : S × Option Error)
      → ((t : S) → next t ≡ other t)
      → after_handler handle next r ≡ after_handler handle other r
  unfolding after_handler
  after_handler_congr next other (t, some e) same = refl
  after_handler_congr next other (t, none) same = same t

  after_parser_congr :
      (next other : S → Connection S) (buffer : Bytes) (s : S) (r : Result (Option MqttPacket))
      → ((t : S) → next t ≡ other t)
      → after_parser handle next buffer s r ≡ after_parser handle other buffer s r
  unfolding after_parser
  after_parser_congr next other buffer s (err e) same = refl
  after_parser_congr next other buffer s (ok none) same = refl
  after_parser_congr next other buffer s (ok (some pkt)) same =
      after_handler_congr next other (handle pkt s) same

  drain_round-none :
      (next : Bytes → S → Connection S) (buffer : Bytes) (s : S)
      → packet_end buffer ≡ none
      → drain_round handle next buffer s ≡ waiting buffer s
  unfolding drain_round
  drain_round-none next buffer s eq = rw (drain_round, eq)

  drain_round-some :
      (next : Bytes → S → Connection S) (buffer : Bytes) (s : S) (n : ℕ)
      → packet_end buffer ≡ some n
      → drain_round handle next buffer s
        ≡ after_parser handle (next (drop n buffer)) buffer s (parse_packet (take n buffer))
  unfolding drain_round
  drain_round-some next buffer s n eq = rw (drain_round, eq)

  drain_round_congr :
      (next other : Bytes → S → Connection S) (buffer : Bytes) (s : S)
      → ((n : ℕ) (t : S)
          → packet_end buffer ≡ some n
          → next (drop n buffer) t ≡ other (drop n buffer) t)
      → drain_round handle next buffer s ≡ drain_round handle other buffer s
  drain_round_congr next other buffer s same = by_end (packet_end buffer) refl
    where
      by_end :
          (e : Option ℕ)
          → packet_end buffer ≡ e
          → drain_round handle next buffer s ≡ drain_round handle other buffer s
      by_end none eq = drain_round-none next buffer s eq ∙ sym (drain_round-none other buffer s eq)
      by_end (some n) eq =
          drain_round-some next buffer s n eq
          ∙ after_parser_congr (next (drop n buffer)) (other (drop n buffer)) buffer s
              (parse_packet (take n buffer)) (λ t. same n t eq)
          ∙ sym (drain_round-some other buffer s n eq)

  -- Fuel above the length changes nothing.
  drain_fuel :
      (f g : ℕ) (buffer : Bytes) (s : S)
      → length buffer ≤ f
      → length buffer ≤ g
      → drain handle f buffer s ≡ drain handle g buffer s
  unfolding drain drain_round packet_end
  drain_fuel zero zero buffer s h k = refl
  drain_fuel zero (suc g) [] s h k = refl
  drain_fuel zero (suc g) (b ∷ buffer) s h k = absurd (omega arith)
  drain_fuel (suc f) zero [] s h k = refl
  drain_fuel (suc f) zero (b ∷ buffer) s h k = absurd (omega arith)
  drain_fuel (suc f) (suc g) buffer s h k =
      drain_round_congr (drain handle f) (drain handle g) buffer s
        (λ n t e. drain_fuel f g (drop n buffer) t (shorter n f e h) (shorter n g e k))
    where
      shorter :
          (n f : ℕ)
          → packet_end buffer ≡ some n
          → length buffer ≤ suc f
          → length (drop n buffer) ≤ f
      shorter n f e h = omega (arith, packet_end_bounds buffer n e, length-drop n buffer)

  receive-after_handler :
      (next other : S → Connection S) (chunk : Bytes) (r : S × Option Error)
      → ((t : S) → receive handle chunk (next t) ≡ other t)
      → receive handle chunk (after_handler handle next r) ≡ after_handler handle other r
  unfolding after_handler receive
  receive-after_handler next other chunk (t, some e) same = refl
  receive-after_handler next other chunk (t, none) same = same t

  receive-after_parser :
      (next other : S → Connection S) (buffer chunk : Bytes) (s : S)
      (r : Result (Option MqttPacket))
      → ((t : S) → receive handle chunk (next t) ≡ other t)
      → receive handle chunk (waiting buffer s) ≡ after_parser handle other (buffer ++ chunk) s r
      → receive handle chunk (after_parser handle next buffer s r)
        ≡ after_parser handle other (buffer ++ chunk) s r
  unfolding after_parser receive
  receive-after_parser next other buffer chunk s (err e) same whole = refl
  receive-after_parser next other buffer chunk s (ok none) same whole = whole
  receive-after_parser next other buffer chunk s (ok (some pkt)) same whole =
      receive-after_handler next other chunk (handle pkt s) same

  receive-drain_round :
      (next : Bytes → S → Connection S) (f : ℕ) (buffer chunk : Bytes) (s : S)
      → length buffer ≤ suc f
      → ((n : ℕ) (t : S)
          → packet_end buffer ≡ some n
          → receive handle chunk (next (drop n buffer) t)
            ≡ drain handle (length (drop n buffer ++ chunk)) (drop n buffer ++ chunk) t)
      → receive handle chunk (drain_round handle next buffer s)
        ≡ drain handle (length (buffer ++ chunk)) (buffer ++ chunk) s
  unfolding drain receive
  receive-drain_round next f buffer chunk s h same = by_end (packet_end buffer) refl
    where
      whole : Bytes
      whole = buffer ++ chunk

      other : ℕ → S → Connection S
      other n t = drain handle (length whole) (drop n whole) t

      rest :
          (n : ℕ)
          → packet_end buffer ≡ some n
          → (t : S) → receive handle chunk (next (drop n buffer) t) ≡ other n t
      rest n eq t =
          same n t eq
          ∙ drain_fuel (length (drop n buffer ++ chunk)) (length whole) (drop n buffer ++ chunk) t
              (omega arith)
              (omega (
                arith,
                length-append (drop n buffer) chunk,
                length-append buffer chunk,
                length-drop n buffer,
              ))
          ∙ ap (λ bs. drain handle (length whole) bs t)
              (sym (drop-append_front n buffer chunk (packet_end_bounds buffer n eq).1))

      joined :
          (n : ℕ)
          → packet_end buffer ≡ some n
          → after_parser handle (other n) whole s (parse_packet (take n buffer))
            ≡ drain handle (length whole) whole s
      joined n eq =
          ap (λ bs. after_parser handle (other n) whole s (parse_packet bs))
            (sym (take-append_front n buffer chunk (packet_end_bounds buffer n eq).1))
          ∙ sym (
              drain_round-some (drain handle (length whole)) whole s n
                (packet_end-append buffer chunk n eq))
          ∙ drain_fuel (suc (length whole)) (length whole) whole s (omega arith) (omega arith)

      by_end :
          (e : Option ℕ)
          → packet_end buffer ≡ e
          → receive handle chunk (drain_round handle next buffer s)
            ≡ drain handle (length whole) whole s
      by_end none eq = ap (receive handle chunk) (drain_round-none next buffer s eq)
      by_end (some n) eq =
          ap (receive handle chunk) (drain_round-some next buffer s n eq)
          ∙ receive-after_parser (next (drop n buffer)) (other n) buffer chunk s
              (parse_packet (take n buffer)) (rest n eq) (sym (joined n eq))
          ∙ joined n eq

  -- Handling what is there and then receiving more is handling all of it.
  receive-drain :
      (f : ℕ) (buffer chunk : Bytes) (s : S)
      → length buffer ≤ f
      → receive handle chunk (drain handle f buffer s)
        ≡ drain handle (length (buffer ++ chunk)) (buffer ++ chunk) s
  unfolding drain receive
  receive-drain zero buffer chunk s h = refl
  receive-drain (suc f) buffer chunk s h =
      receive-drain_round (drain handle f) f buffer chunk s h (λ n t e.
        receive-drain f (drop n buffer) chunk t
          (omega (arith, packet_end_bounds buffer n e, length-drop n buffer)))

  receive_all-drain :
      (chunks : List Bytes) (buffer : Bytes) (s : S)
      → receive_all handle chunks (drain handle (length buffer) buffer s)
        ≡ drain handle (length (buffer ++ join chunks)) (buffer ++ join chunks) s
  unfolding receive_all
  receive_all-drain [] buffer s = rw (append-nil buffer)
  receive_all-drain (chunk ∷ chunks) buffer s =
      rw (receive-drain (length buffer) buffer chunk s (omega arith)) (
        receive_all-drain chunks (buffer ++ chunk) s
        ∙ ap (λ bs. drain handle (length bs) bs s) (append_assoc buffer chunk (join chunks)))

  -- Whatever the handler does and however the bytes of a connection are cut into chunks, the state
  -- after the packets handled, the exception if one is raised, and the bytes left over are those
  -- of all the bytes received at once.
  pub receive_all-join :
      (chunks : List Bytes) (s : S)
      → receive_all handle chunks (waiting [] s) ≡ receive handle (join chunks) (waiting [] s)
  unfolding receive drain
  receive_all-join chunks s = receive_all-drain chunks [] s
