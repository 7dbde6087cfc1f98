-- ===== src/Ghost/Forged.antt =====
-- What src/qdap/session/ghost_session.py, on_receive, does not check: the signature that it
-- computes, and numbers that have left the set.
use qdap_protocol.Base.{
  ℕ, zero, suc, ◌/◌, ◌^◌, ◌<◌, ◌≡◌, refl, sym, ap, ◌∙◌, true, false, List, [], ◌∷◌, length, drop,
  elem, ok, ltb, leb, lt→ltb, le→leb, Bool-cases, inl, inr, arith,
}
use qdap_protocol.Bytes.{Bytes, All}
use qdap_protocol.Frame.{Subframe, QFrame}
use qdap_protocol.Ghost.{
  GhostSession, receive_subframes, on_receive, trim_received, verified, sorted, insert_sorted,
}
use qdap_protocol.Ghost.Replay.{receive_known, receive_new}

-- Subframes with the same sequence numbers, all of 32 bits.
abbrev pub SameNumbers : List Subframe → List Subframe → Type 0
SameNumbers [] [] = Unit
SameNumbers [] (sf ∷ sfs) = ⊥
SameNumbers (sf ∷ sfs) [] = ⊥
SameNumbers (sf ∷ sfs) (sf' ∷ sfs') =
    (sf.seq_num ≡ sf'.seq_num) × (sf.seq_num < 256 ^ 4) × SameNumbers sfs sfs'

pub receive_subframes_forged :
    (hmac_sha256 : Bytes → Bytes → Bytes) (key key' : Bytes) (seqs : List ℕ)
    (sfs sfs' : List Subframe)
    → SameNumbers sfs sfs'
    → receive_subframes hmac_sha256 key seqs sfs ≡ receive_subframes hmac_sha256 key' seqs sfs'
unfolding receive_subframes
receive_subframes_forged hmac key key' seqs [] [] v = refl
receive_subframes_forged hmac key key' seqs [] (sf ∷ sfs) v = elim v [ ]
receive_subframes_forged hmac key key' seqs (sf ∷ sfs) [] v = elim v [ ]
receive_subframes_forged hmac key key' seqs (sf ∷ sfs) (sf' ∷ sfs') (e, lt, v) =
    elim (Bool-cases (elem sf.seq_num seqs)) [
      | inl h ↦
          receive_known hmac key seqs sf sfs h
          ∙ receive_subframes_forged hmac key key' seqs sfs sfs' v
          ∙ sym (receive_known hmac key' seqs sf' sfs' (ap (λ (n : ℕ). elem n seqs) (sym e) ∙ h))
      | inr h ↦
          receive_new hmac key seqs sf sfs h lt
          ∙ ap (verified hmac sf.seq_num) (
              receive_subframes_forged hmac key key' (trim_received (sf.seq_num ∷ seqs)) sfs sfs' v)
          ∙ ap
              (λ (n : ℕ).
                verified hmac n (receive_subframes hmac key' (trim_received (n ∷ seqs)) sfs'))
              e
          ∙ sym (
              receive_new hmac key' seqs sf' sfs' (ap (λ (n : ℕ). elem n seqs) (sym e) ∙ h)
                (omega arith))
    ]

-- The result of a frame depends on its sequence numbers alone: for numbers of 32 bits, a frame with
-- other payloads, received under another key, gives the same verified numbers and the same set.
pub on_receive_forged :
    {S M : Type 0} (hmac_sha256 : Bytes → Bytes → Bytes) (s : GhostSession S M) (key' : Bytes)
    (f f' : QFrame)
    → SameNumbers f.subframes f'.subframes
    → ((on_receive hmac_sha256 s f).1
        ≡ (on_receive hmac_sha256 (record s { ghost_key = key' }) f').1)
      × ((on_receive hmac_sha256 s f).0.received_seqs
          ≡ (on_receive hmac_sha256 (record s { ghost_key = key' }) f').0.received_seqs)
unfolding on_receive
on_receive_forged hmac s key' f f' v =
    let same : receive_subframes hmac s.ghost_key s.received_seqs f.subframes
        ≡ receive_subframes hmac key' s.received_seqs f'.subframes =
      receive_subframes_forged hmac s.ghost_key key' s.received_seqs f.subframes f'.subframes v in
    (ap (λ t. t.1) same, ap (λ t. t.0) same)

insert_sorted-All :
    (n x : ℕ) (ys : List ℕ) → n < x → All (λ y. n < y) ys → All (λ y. n < y) (insert_sorted x ys)
unfolding insert_sorted
insert_sorted-All n x [] h v = (h, tt)
insert_sorted-All n x (y ∷ ys) h v =
    let rest : All (λ y. n < y) (insert_sorted x ys) = insert_sorted-All n x ys h v.1 in
    elim (Bool-cases (leb x y)) [ inl e ↦ rw e (h, v) | inr e ↦ rw e (v.0, rest) ]

sorted-All : (n : ℕ) (ys : List ℕ) → All (λ y. n < y) ys → All (λ y. n < y) (sorted ys)
unfolding sorted
sorted-All n [] v = tt
sorted-All n (y ∷ ys) v = insert_sorted-All n y (sorted ys) v.0 (sorted-All n ys v.1)

insert_sorted_least : (n : ℕ) (ys : List ℕ) → All (λ y. n < y) ys → insert_sorted n ys ≡ n ∷ ys
unfolding insert_sorted
insert_sorted_least n [] v = refl
insert_sorted_least n (y ∷ ys) v = rw (le→leb n y (omega (arith, v.0))) refl

drop-All : (n k : ℕ) (ys : List ℕ) → All (λ y. n < y) ys → All (λ y. n < y) (drop k ys)
drop-All n zero ys v = v
drop-All n (suc k) [] v = tt
drop-All n (suc k) (y ∷ ys) v = drop-All n k ys v.1

elem_above : (n : ℕ) (ys : List ℕ) → All (λ y. n < y) ys → elem n ys ≡ false
elem_above n [] v = refl
elem_above n (y ∷ ys) v = ground (arith, v.0, elem_above n ys v.1)

-- The least number of a set that is too large leaves it at once.
trim_received_least :
    (n : ℕ) (seqs : List ℕ)
    → length seqs ≡ 2048
    → All (λ y. n < y) seqs
    → elem n (trim_received (n ∷ seqs)) ≡ false
unfolding trim_received sorted
trim_received_least n seqs full v =
    let over : ltb 2048 (length (n ∷ seqs)) ≡ true =
      lt→ltb 2048 (suc (length seqs)) (omega arith) in
    let half : length (n ∷ seqs) / 2 ≡ suc 1023 = omega arith in
    let above : All (λ y. n < y) (sorted seqs) = sorted-All n seqs v in
    rw over (
      ap (λ (k : ℕ). elem n (drop k (insert_sorted n (sorted seqs)))) half
      ∙ ap (λ t. elem n (drop (suc 1023) t)) (insert_sorted_least n (sorted seqs) above)
      ∙ elem_above n (drop 1023 (sorted seqs)) (drop-All n 1023 (sorted seqs) above))

single :
    (hmac_sha256 : Bytes → Bytes → Bytes) (key : Bytes) (seqs : List ℕ) (sf : Subframe)
    → elem sf.seq_num seqs ≡ false
    → sf.seq_num < 256 ^ 4
    → receive_subframes hmac_sha256 key seqs (sf ∷ [])
      ≡ (trim_received (sf.seq_num ∷ seqs), ok (sf.seq_num ∷ []))
unfolding receive_subframes
single hmac key seqs sf new short = receive_new hmac key seqs sf [] new short

-- To a receiver whose set is full, with 2048 numbers, a frame comes with one number that is less than
-- all of these: the number is verified, and the same frame received again is verified again.
pub on_receive_replayed :
    {S M : Type 0} (hmac_sha256 : Bytes → Bytes → Bytes) (s : GhostSession S M) (f : QFrame)
    (sf : Subframe)
    → f.subframes ≡ sf ∷ []
    → sf.seq_num < 256 ^ 4
    → length s.received_seqs ≡ 2048
    → All (λ y. sf.seq_num < y) s.received_seqs
    → ((on_receive hmac_sha256 s f).1 ≡ ok (sf.seq_num ∷ []))
      × ((on_receive hmac_sha256 (on_receive hmac_sha256 s f).0 f).1 ≡ ok (sf.seq_num ∷ []))
unfolding on_receive
on_receive_replayed hmac s f sf one short full least =
    let once : (seqs : List ℕ)
        → elem sf.seq_num seqs ≡ false
        → receive_subframes hmac s.ghost_key seqs (sf ∷ [])
          ≡ (trim_received (sf.seq_num ∷ seqs), ok (sf.seq_num ∷ [])) =
      λ seqs new. single hmac s.ghost_key seqs sf new short in
    let first : receive_subframes hmac s.ghost_key s.received_seqs f.subframes
        ≡ (trim_received (sf.seq_num ∷ s.received_seqs), ok (sf.seq_num ∷ [])) =
      ap (receive_subframes hmac s.ghost_key s.received_seqs) one
      ∙ once s.received_seqs (elem_above sf.seq_num s.received_seqs least) in
    (
      ap (λ t. t.1) first,
      ap (λ t. (receive_subframes hmac s.ghost_key t.0 f.subframes).1) first
          ∙ ap
              (λ t.
                (receive_subframes hmac s.ghost_key (trim_received (sf.seq_num ∷ s.received_seqs))
                  t).1)
              one
          ∙ ap (λ t. t.1)
              (once (trim_received (sf.seq_num ∷ s.received_seqs))
                (trim_received_least sf.seq_num s.received_seqs full least)),
    )
