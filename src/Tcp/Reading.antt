-- ===== src/Tcp/Reading.antt =====
-- The loop of src/qdap/transport/tcp/adapter.py, _recv_exactly: it reads exactly the next bytes of
-- the connection, however they arrive, and raises when the connection ends before.
use mathlib.Core.Path.{subst}
use qdap_protocol.Base.{
  ℕ, zero, suc, ◌+◌, ◌-◌, ◌≤◌, ◌<◌, ◌≡◌, refl, sym, ap, ◌∙◌, true, false, [], ◌∷◌, ◌++◌,
  append_assoc, length, take, drop, join, length-append, length-take, take-append-drop, take-append,
  drop-append, Result, ok, err, Error, ltb, leb, leb→le, lt→ltb, ltb→lt, le→ltb, Bool-cases, ◌⊎◌,
  inl, inr, arith,
}
use qdap_protocol.Bytes.{Bytes}
use qdap_protocol.Tcp.{Reader, after_chunk, read, read_loop, recv_exactly}

-- What a read takes is the front of what is to come, within the limit, and something if there is
-- something.
pub record IsRead (n : ℕ) (reader : Reader) (chunk : Bytes) (rest : Reader) : Type 0 where
  pub front : chunk ++ join rest ≡ join reader
  pub within : length chunk ≤ n
  pub some_if_any : 0 < n → 0 < length (join reader) → 0 < length chunk

read-IsRead : (n : ℕ) (reader : Reader) → IsRead n reader (read n reader).0 (read n reader).1
unfolding read
read-IsRead n [] = record {
  front = refl;
  within = omega arith;
  some_if_any = λ h k. absurd (omega arith);
}
read-IsRead n ([] ∷ pieces) =
    let rest : IsRead n pieces (read n pieces).0 (read n pieces).1 = read-IsRead n pieces in
    record { front = rest.front; within = rest.within; some_if_any = rest.some_if_any }
read-IsRead n ((b ∷ bs) ∷ pieces) = by (Bool-cases (leb (length (b ∷ bs)) n))
  where
    by :
        (leb (length (b ∷ bs)) n ≡ true) ⊎ (leb (length (b ∷ bs)) n ≡ false)
        → IsRead n ((b ∷ bs) ∷ pieces) (read n ((b ∷ bs) ∷ pieces)).0 (read n ((b ∷ bs) ∷ pieces)).1
    by (inl h) = rw h (record {
      front = refl;
      within = leb→le (length (b ∷ bs)) n h;
      some_if_any = λ p q. omega arith;
    })
    by (inr h) = rw h (record {
      front =
          sym (append_assoc (take n (b ∷ bs)) (drop n (b ∷ bs)) (join pieces))
          ∙ ap (λ t. t ++ join pieces) (take-append-drop n (b ∷ bs));
      within = omega (arith, length-take n (b ∷ bs));
      some_if_any = λ p q. omega (arith, length-take n (b ∷ bs));
    })

read_loop_full :
    (fuel n : ℕ) (buf : Bytes) (reader : Reader)
    → length buf ≡ n
    → read_loop fuel n buf reader ≡ ok (buf, reader)
unfolding read_loop
read_loop_full zero n buf reader h = rw (le→ltb (length buf) n (omega arith)) refl
read_loop_full (suc fuel) n buf reader h = rw (le→ltb (length buf) n (omega arith)) refl

read_loop_more :
    (fuel n : ℕ) (buf : Bytes) (reader : Reader) (b : ℕ) (bs : Bytes)
    → length buf < n
    → (read (n - length buf) reader).0 ≡ b ∷ bs
    → read_loop (suc fuel) n buf reader
      ≡ read_loop fuel n (buf ++ (b ∷ bs)) (read (n - length buf) reader).1
unfolding read_loop
read_loop_more fuel n buf reader b bs h e =
    let rest : Reader = (read (n - length buf) reader).1 in
    rw (lt→ltb (length buf) n h) (ap (λ t. after_chunk t (read_loop fuel n (buf ++ t) rest)) e)

read_loop_closed :
    (fuel n : ℕ) (buf : Bytes) (reader : Reader)
    → length buf < n
    → (read (n - length buf) reader).0 ≡ []
    → read_loop (suc fuel) n buf reader ≡ err Error.connection_error
unfolding read_loop
read_loop_closed fuel n buf reader h e =
    let rest : Reader = (read (n - length buf) reader).1 in
    rw (lt→ltb (length buf) n h) (ap (λ t. after_chunk t (read_loop fuel n (buf ++ t) rest)) e)

Bytes-cases : (bs : Bytes) → (bs ≡ []) ⊎ ((b : ℕ) × (rest : Bytes) × (bs ≡ b ∷ rest))
Bytes-cases [] = inl refl
Bytes-cases (b ∷ bs) = inr (b, bs, refl)

-- What the loop promises, when the bytes come and when they do not.
abbrev pub Reads : ℕ → Bytes → Result (Bytes × Reader) → Type 0
Reads n stream result =
    (rest : Reader) × (result ≡ ok (take n stream, rest)) × (join rest ≡ drop n stream)

abbrev pub Promise : ℕ → Bytes → Result (Bytes × Reader) → Type 0
Promise n stream result =
    (n ≤ length stream → Reads n stream result)
    × (length stream < n → result ≡ err Error.connection_error)

full_read :
    (fuel n : ℕ) (buf : Bytes) (reader : Reader)
    → length buf ≡ n
    → Promise n (buf ++ join reader) (read_loop fuel n buf reader)
full_read fuel n buf reader h = (
  λ enough. (
    reader,
    read_loop_full fuel n buf reader h
        ∙ ap (λ t. ok (t, reader)) (sym (take-append n buf (join reader) h)),
    sym (drop-append n buf (join reader) h),
  ),
  λ short. absurd (omega (arith, length-append buf (join reader))),
)

-- Nothing arrives any more: the connection is closed.
closed_read :
    (fuel n : ℕ) (buf : Bytes) (reader : Reader)
    → length buf < n
    → (read (n - length buf) reader).0 ≡ []
    → Promise n (buf ++ join reader) (read_loop (suc fuel) n buf reader)
closed_read fuel n buf reader h e =
    let shape = read-IsRead (n - length buf) reader in
    (
      λ enough. absurd (
          omega (
            arith,
            length-append buf (join reader),
            ap length e,
            shape.some_if_any (omega arith) (omega (arith, length-append buf (join reader))),
          )),
      λ short. read_loop_closed fuel n buf reader h e,
    )

-- With enough fuel, the loop reads up to `n` bytes in all, or finds the connection closed.
read_loop-Promise :
    (fuel n : ℕ) (buf : Bytes) (reader : Reader)
    → n ≤ length buf + fuel
    → length buf ≤ n
    → Promise n (buf ++ join reader) (read_loop fuel n buf reader)
read_loop-Promise zero n buf reader fueled small = full_read zero n buf reader (omega arith)
read_loop-Promise (suc fuel) n buf reader fueled small = elim (Bool-cases (ltb (length buf) n)) [
  | inr h ↦ full_read (suc fuel) n buf reader (ground arith)
  | inl h ↦
      let less : length buf < n = ltb→lt (length buf) n h in
      elim (Bytes-cases (read (n - length buf) reader).0) [
        | inl e ↦ closed_read fuel n buf reader less e
        | inr (b, bs, e) ↦
            let shape = read-IsRead (n - length buf) reader in
            let rest : Reader = (read (n - length buf) reader).1 in
            let stream : (buf ++ (b ∷ bs)) ++ join (read (n - length buf) reader).1
                ≡ buf ++ join reader =
              append_assoc buf (b ∷ bs) (join (read (n - length buf) reader).1)
              ∙ ap (λ t. buf ++ t)
                  (ap (λ t. t ++ join (read (n - length buf) reader).1) (sym e) ∙ shape.front) in
            rw (read_loop_more fuel n buf reader b bs less e) (
              subst
                (λ t.
                  Promise n t (read_loop fuel n (buf ++ (b ∷ bs)) (read (n - length buf) reader).1))
                stream
                (read_loop-Promise fuel n (buf ++ (b ∷ bs)) (read (n - length buf) reader).1
                  (omega (arith, length-append buf (b ∷ bs)))
                  (omega (arith, length-append buf (b ∷ bs), shape.within, ap length e))))
      ]
]

-- In whatever pieces the bytes of a connection arrive, `n` of them are read, and the rest is left;
-- if the connection ends before, ConnectionError is raised.
pub recv_exactly-Promise :
    (n : ℕ) (reader : Reader) → Promise n (join reader) (recv_exactly n reader)
unfolding recv_exactly
recv_exactly-Promise n reader = read_loop-Promise n n [] reader (omega arith) (omega arith)
