-- ===== src/Ghost.antt =====
-- src/qdap/session/ghost_session.py: a sender's window of packets that are not acknowledged, and a
-- receiver's set of sequence numbers. HMAC-SHA256, SHA-256 and the channel model (a Markov chain in
-- floating point) are parameters; times are whole nanoseconds, and a sample of the round trip time
-- is kept in them.
pub mod Accepted
pub mod Replay
pub mod Forged
pub mod Oldest
pub mod Window
use qdap_protocol.Base.{
  ℕ, zero, suc, ◌+◌, ◌-◌, ◌*◌, ◌/◌, ◌%◌, ◌^◌, ◌||◌, ◌&&◌, Bool, true, false, not, List, [], ◌∷◌,
  ◌++◌, length, take, drop, replicate, map, elem, nat_eq, Option, none, some, Result, ok, err,
  ◌>>=◌, Error, ltb, leb, ◌==◌, if◌then◌else◌,
}
use qdap_protocol.Base.Dict.{Dict, get, put, remove}
use qdap_protocol.Bytes.{Bytes, be_bytes, be_number}
use qdap_protocol.Frame.{
  Subframe, SubframeType, FrameType, QFrame, subframe, create, default_deadline,
}

abbrev pub max_window_size : ℕ
max_window_size = 1024

abbrev pub max_received_seq_window : ℕ
max_received_seq_window = 2048

abbrev pub history_size : ℕ
history_size = 100

abbrev pub max_samples : ℕ
max_samples = 200

-- xs[-n:] for a positive n
abbrev pub last_of : ℕ → List ℕ → List ℕ
last_of n xs = drop (length xs - n) xs

-- int(seq_num).to_bytes(4, "big")
abbrev pub seq_bytes : ℕ → Result Bytes
seq_bytes seq_num =
    if ltb seq_num (256 ^ 4) then ok (be_bytes 4 seq_num) else err Error.overflow_error

-- bytes.ljust(8, b"\x00") and int.from_bytes(…, "big")
abbrev pub session_number : Bytes → ℕ
session_number session_id =
    let front = take 8 session_id in be_number (front ++ replicate (8 - length front) 0)

-- sorted, on numbers
unfoldable pub insert_sorted : ℕ → List ℕ → List ℕ
insert_sorted x [] = x ∷ []
insert_sorted x (y ∷ ys) = let rest = insert_sorted x ys in if leb x y then x ∷ y ∷ ys else y ∷ rest

unfoldable pub sorted : List ℕ → List ℕ
sorted [] = []
sorted (x ∷ xs) = insert_sorted x (sorted xs)

-- The set of received numbers, as a list without doubles, cut to its upper half when it is too large.
unfoldable pub trim_received : List ℕ → List ℕ
trim_received seqs =
    if ltb max_received_seq_window (length seqs) then drop (length seqs / 2) (sorted seqs) else seqs

module _ (hmac_sha256 : Bytes → Bytes → Bytes) where
  unfoldable pub ghost_sign : Bytes → ℕ → Bytes → Result Bytes
  ghost_sign key seq_num payload = do
    seq ← seq_bytes seq_num
    ok (take 8 (hmac_sha256 key (seq ++ take 32 payload)))

  -- What a subframe adds to the verified numbers of the rest of the frame.
  abbrev pub verified : ℕ → List ℕ × Result (List ℕ) → List ℕ × Result (List ℕ)
  verified seq (seqs, ok rest) = (seqs, ok (seq ∷ rest))
  verified seq (seqs, err e) = (seqs, err e)

  abbrev pub after_signature :
      ℕ → List ℕ → Result Bytes → List ℕ × Result (List ℕ) → List ℕ × Result (List ℕ)
  after_signature seq seqs (err e) rest = (seqs, err e)
  after_signature seq seqs (ok expected_sig) rest = verified seq rest

  -- The loop over the subframes: the received numbers after it, and the verified numbers or the
  -- exception.
  unfoldable pub receive_subframes : Bytes → List ℕ → List Subframe → List ℕ × Result (List ℕ)
  receive_subframes key seqs [] = (seqs, ok [])
  receive_subframes key seqs (sf ∷ sfs) =
      let replayed = elem sf.seq_num seqs in
      let rest =
        receive_subframes key (if replayed then seqs else trim_received (sf.seq_num ∷ seqs)) sfs in
      if replayed
      then rest
      else after_signature sf.seq_num seqs (ghost_sign key sf.seq_num sf.payload) rest

pub record GhostEntry (S : Type 0) : Type 0 where
  pub sent_at : ℕ
  pub ghost_sig : Bytes
  pub predicted_state : S
  pub payload_hash : Bytes

-- sorted(window.items(), key=lambda x: x[1].sent_at), which keeps the order of equal times
unfoldable pub insert_by_age :
    {S : Type 0} → ℕ → GhostEntry S → List (ℕ × GhostEntry S) → List (ℕ × GhostEntry S)
insert_by_age k x [] = (k, x) ∷ []
insert_by_age k x ((j, y) ∷ ys) =
    let rest = insert_by_age k x ys in
    if leb x.sent_at y.sent_at then (k, x) ∷ (j, y) ∷ ys else (j, y) ∷ rest

unfoldable pub by_age : {S : Type 0} → List (ℕ × GhostEntry S) → List (ℕ × GhostEntry S)
by_age [] = []
by_age ((k, x) ∷ xs) = insert_by_age k x (by_age xs)

pub record GhostSession (S M : Type 0) : Type 0 where
  pub session_id : Bytes
  pub ghost_key : Bytes
  pub loss_model : M
  pub success_history : List ℕ
  pub ghost_window : Dict ℕ (GhostEntry S)
  pub total_sent : ℕ
  pub total_acked : ℕ
  pub total_lost_detected : ℕ
  pub rtt_samples : List ℕ
  pub received_seqs : List ℕ

-- The entries that a clean-up removes: the oldest quarter.
abbrev pub oldest : {S : Type 0} → Dict ℕ (GhostEntry S) → List ℕ
oldest window = map (λ p. p.0) (take (length window / 4) (by_age window))

abbrev pub delete_all : {S : Type 0} → List ℕ → Dict ℕ (GhostEntry S) → Dict ℕ (GhostEntry S)
delete_all [] window = window
delete_all (k ∷ ks) window = delete_all ks (remove k window)

unfoldable pub cleanup_window : {S M : Type 0} → GhostSession S M → GhostSession S M
cleanup_window s =
    if ltb max_window_size (length s.ghost_window)
    then record s {
      ghost_window = delete_all (oldest s.ghost_window) s.ghost_window;
      total_lost_detected = s.total_lost_detected + length (oldest s.ghost_window);
    }
    else s

-- record_success, which keeps the last hundred
abbrev pub record_success : ℕ → List ℕ → List ℕ
record_success seq history =
    if ltb history_size (length (history ++ (seq ∷ [])))
    then last_of history_size (history ++ (seq ∷ []))
    else history ++ (seq ∷ [])

abbrev pub record_sample : ℕ → List ℕ → List ℕ
record_sample t samples =
    if ltb max_samples (length (samples ++ (t ∷ [])))
    then last_of max_samples (samples ++ (t ∷ []))
    else samples ++ (t ∷ [])

module _ {S M : Type 0} (hmac_sha256 : Bytes → Bytes → Bytes) where
  unfoldable pub on_receive : GhostSession S M → QFrame → GhostSession S M × Result (List ℕ)
  on_receive s frame =
      let (seqs, result) =
        receive_subframes hmac_sha256 s.ghost_key s.received_seqs frame.subframes in
      (record s { received_seqs = seqs }, result)

module _ {S M : Type 0} (hmac_sha256 : Bytes → Bytes → Bytes) (sha256 : Bytes → Bytes)
    (uniform : ℕ → ℕ) (predict_next : M → S) where
  -- The frame, and the session with one entry more; `now` is the monotonic clock.
  unfoldable pub send : GhostSession S M → Bytes → ℕ → ℕ → Result (QFrame × GhostSession S M)
  send s payload seq_num now = do
    ghost_sig ← ghost_sign hmac_sha256 s.ghost_key seq_num payload
    let entry : GhostEntry S = record {
      sent_at = now;
      ghost_sig = ghost_sig;
      predicted_state = predict_next s.loss_model;
      payload_hash = take 16 (sha256 payload);
    }
    let s' = cleanup_window (record s {
      ghost_window = put seq_num entry s.ghost_window;
      total_sent = suc s.total_sent;
    })
    ok (
      create uniform (subframe payload SubframeType.data_kind default_deadline seq_num ∷ [])
          (session_number s.session_id) FrameType.ghost none,
      s',
    )

module _ {S M : Type 0} (update : Bool → ℕ → M → M) where
  abbrev pub acknowledge : GhostSession S M → ℕ → ℕ → Option (GhostEntry S) → GhostSession S M
  acknowledge s seq now none = s
  acknowledge s seq now (some entry) = record s {
    ghost_window = remove seq s.ghost_window;
    loss_model = update true (now - entry.sent_at) s.loss_model;
    success_history = record_success seq s.success_history;
    total_acked = suc s.total_acked;
    rtt_samples = record_sample (now - entry.sent_at) s.rtt_samples;
  }

  unfoldable pub implicit_ack : GhostSession S M → ℕ → ℕ → GhostSession S M
  implicit_ack s seq now = acknowledge s seq now (get seq s.ghost_window)

module _ {S M : Type 0} (update : Bool → ℕ → M → M) (suspect : M → ℕ → Bool) where
  -- The loop over the entries: the lost numbers, the channel model, and how many were found.
  unfoldable pub detect_from : ℕ → Dict ℕ (GhostEntry S) → M → List ℕ × M
  detect_from now [] model = ([], model)
  detect_from now ((seq, entry) ∷ entries) model =
      let suspected = suspect model (now - entry.sent_at) in
      let (lost, after) =
        detect_from now entries
          (if suspected then update false (now - entry.sent_at) model else model) in
      (if suspected then seq ∷ lost else lost, after)

  unfoldable pub detect_loss : GhostSession S M → ℕ → List ℕ × GhostSession S M
  detect_loss s now =
      let (lost, model) = detect_from now s.ghost_window s.loss_model in
      (
        lost,
        record s { loss_model = model; total_lost_detected = s.total_lost_detected + length lost },
      )
