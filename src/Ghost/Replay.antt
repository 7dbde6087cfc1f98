-- ===== src/Ghost/Replay.antt =====
-- The replay check of src/qdap/session/ghost_session.py, on_receive, over a run of frames.
use qdap_protocol.Base.{
  ℕ, suc, ◌+◌, ◌^◌, ◌≤◌, ◌<◌, ◌≡◌, refl, ap, ◌∙◌, true, false, List, [], ◌∷◌, ◌++◌, length, take,
  length-append, map, elem, Result, ok, err, lt→ltb, le→ltb, Bool-cases, inl, inr, arith,
}
use qdap_protocol.Bytes.{Bytes, All, be_bytes}
use qdap_protocol.Frame.{Subframe, QFrame}
use qdap_protocol.Ghost.{
  GhostSession, ghost_sign, receive_subframes, on_receive, trim_received, verified,
}
use qdap_protocol.Ghost.Accepted.{IsAccepted, nothing_new, already, new_one, compose}

abbrev pub seqs_of : List Subframe → List ℕ
seqs_of sfs = map (λ (sf : Subframe). sf.seq_num) sfs

abbrev pub frames_seqs : List QFrame → List ℕ
frames_seqs [] = []
frames_seqs (f ∷ fs) = seqs_of f.subframes ++ frames_seqs fs

abbrev pub IsWire : QFrame → Type 0
IsWire f = All (λ (sf : Subframe). sf.seq_num < 256 ^ 4) f.subframes

length-seqs_of : (sfs : List Subframe) → length (seqs_of sfs) ≡ length sfs
length-seqs_of [] = refl
length-seqs_of (sf ∷ sfs) = ap suc (length-seqs_of sfs)

trim_received_small : (seqs : List ℕ) → length seqs ≤ 2048 → trim_received seqs ≡ seqs
unfolding trim_received
trim_received_small seqs h = rw (le→ltb 2048 (length seqs) h) refl

module _ (hmac_sha256 : Bytes → Bytes → Bytes) where
  abbrev signature : Bytes → Subframe → Bytes
  signature key sf = take 8 (hmac_sha256 key (be_bytes 4 sf.seq_num ++ take 32 sf.payload))

  ghost_sign_short :
      (key : Bytes) (sf : Subframe)
      → sf.seq_num < 256 ^ 4
      → ghost_sign hmac_sha256 key sf.seq_num sf.payload ≡ ok (signature key sf)
  unfolding ghost_sign
  ghost_sign_short key sf h = rw (lt→ltb sf.seq_num (256 ^ 4) h) refl

  pub receive_known :
      (key : Bytes) (seqs : List ℕ) (sf : Subframe) (sfs : List Subframe)
      → elem sf.seq_num seqs ≡ true
      → receive_subframes hmac_sha256 key seqs (sf ∷ sfs)
        ≡ receive_subframes hmac_sha256 key seqs sfs
  unfolding receive_subframes
  receive_known key seqs sf sfs h = rw h refl

  pub receive_new :
      (key : Bytes) (seqs : List ℕ) (sf : Subframe) (sfs : List Subframe)
      → elem sf.seq_num seqs ≡ false
      → sf.seq_num < 256 ^ 4
      → receive_subframes hmac_sha256 key seqs (sf ∷ sfs)
        ≡ verified hmac_sha256 sf.seq_num
            (receive_subframes hmac_sha256 key (trim_received (sf.seq_num ∷ seqs)) sfs)
  unfolding receive_subframes
  receive_new key seqs sf sfs h short = rw (h, ghost_sign_short key sf short) refl

  -- A run of the receiver: the verified numbers and the set after it.
  abbrev pub Receives : List ℕ → List ℕ → List ℕ × Result (List ℕ) → Type 0
  Receives seen all result =
      (after : List ℕ) × (out : List ℕ) × (result ≡ (after, ok out)) × IsAccepted seen after out all

  receive_subframes-Receives :
      (key : Bytes) (seqs : List ℕ) (sfs : List Subframe)
      → All (λ (sf : Subframe). sf.seq_num < 256 ^ 4) sfs
      → length seqs + length sfs ≤ 2048
      → Receives seqs (seqs_of sfs) (receive_subframes hmac_sha256 key seqs sfs)
  unfolding receive_subframes
  receive_subframes-Receives key seqs [] short room = (seqs, [], refl, nothing_new seqs)
  receive_subframes-Receives key seqs (sf ∷ sfs) (lt, short) room =
      elim (Bool-cases (elem sf.seq_num seqs)) [
        | inl h ↦
            let (after, out, got, accepted) =
              receive_subframes-Receives key seqs sfs short (omega arith) in
            (
              after,
              out,
              receive_known key seqs sf sfs h ∙ got,
              compose seqs seqs after [] out (sf.seq_num ∷ []) (seqs_of sfs)
                  (already seqs sf.seq_num h) accepted,
            )
        | inr h ↦
            let (after, out, got, accepted) =
              receive_subframes-Receives key (sf.seq_num ∷ seqs) sfs short (omega arith) in
            (
              after,
              sf.seq_num ∷ out,
              receive_new key seqs sf sfs h lt
                  ∙ ap
                      (λ t.
                        verified hmac_sha256 sf.seq_num (receive_subframes hmac_sha256 key t sfs))
                      (trim_received_small (sf.seq_num ∷ seqs) (omega arith))
                  ∙ ap (verified hmac_sha256 sf.seq_num) got,
              compose seqs (sf.seq_num ∷ seqs) after (sf.seq_num ∷ []) out (sf.seq_num ∷ [])
                  (seqs_of sfs) (new_one seqs sf.seq_num h) accepted,
            )
      ]

  module _ {S M : Type 0} where
    -- Frames received one after the other: the numbers verified in all of them, or the first
    -- exception.
    abbrev pub then_frames :
        GhostSession S M × Result (List ℕ)
        → GhostSession S M × Result (List ℕ)
        → GhostSession S M × Result (List ℕ)
    then_frames (s, err e) more = (s, err e)
    then_frames (s, ok out) (s', err e) = (s', err e)
    then_frames (s, ok out) (s', ok rest) = (s', ok (out ++ rest))

    unfoldable pub receive_frames :
        GhostSession S M → List QFrame → GhostSession S M × Result (List ℕ)
    receive_frames s [] = (s, ok [])
    receive_frames s (f ∷ fs) =
        then_frames (on_receive hmac_sha256 s f) (receive_frames (on_receive hmac_sha256 s f).0 fs)

    on_receive-Receives :
        (s : GhostSession S M) (f : QFrame)
        → IsWire f
        → length s.received_seqs + length f.subframes ≤ 2048
        → (s' : GhostSession S M) × (out : List ℕ) × (on_receive hmac_sha256 s f ≡ (s', ok out))
          × IsAccepted s.received_seqs s'.received_seqs out (seqs_of f.subframes)
    unfolding on_receive
    on_receive-Receives s f short room =
        let (after, out, got, accepted) =
          receive_subframes-Receives s.ghost_key s.received_seqs f.subframes short room in
        (
          record s { received_seqs = after },
          out,
          ap (λ t. (record s { received_seqs = t.0 }, t.1)) got,
          accepted,
        )

    -- Frames with sequence numbers of 32 bits, received one after the other, where the numbers known
    -- before and those that come in are 2048 at most: nothing is raised, and the numbers given back
    -- are exactly the incoming ones that were not known before, each once, however often it came.
    pub receive_frames-IsAccepted :
        (s : GhostSession S M) (frames : List QFrame)
        → All IsWire frames
        → length s.received_seqs + length (frames_seqs frames) ≤ 2048
        → (s' : GhostSession S M) × (out : List ℕ) × (receive_frames s frames ≡ (s', ok out))
          × IsAccepted s.received_seqs s'.received_seqs out (frames_seqs frames)
    unfolding receive_frames
    receive_frames-IsAccepted s [] short room = (s, [], refl, nothing_new s.received_seqs)
    receive_frames-IsAccepted s (f ∷ fs) (short, shorts) room =
        let count : length (frames_seqs (f ∷ fs)) ≡ length f.subframes + length (frames_seqs fs) =
          omega (
            arith,
            length-append (seqs_of f.subframes) (frames_seqs fs),
            length-seqs_of f.subframes,
          ) in
        let (s1, out, got, accepted) = on_receive-Receives s f short (omega (arith, count)) in
        let (s2, outs, rest, more) =
          receive_frames-IsAccepted s1 fs shorts
            (omega (arith, count, accepted.size, accepted.fewer, length-seqs_of f.subframes)) in
        (
          s2,
          out ++ outs,
          ap (λ t. then_frames t (receive_frames t.0 fs)) got ∙ ap (then_frames (s1, ok out)) rest,
          compose s.received_seqs s1.received_seqs s2.received_seqs out outs (seqs_of f.subframes)
              (frames_seqs fs) accepted more,
        )
