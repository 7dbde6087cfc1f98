-- ===== src/Tests/GhostRuns.antt =====
-- Ghost sessions: repeated numbers, a forged frame, and a window in use.
use qdap_protocol.Base.{
  ℕ, zero, suc, ap, ltb, ◌≡◌, ◌<◌, refl, Bool, true, List, [], ◌∷◌, ◌++◌, length, ok, arith,
}
use qdap_protocol.Base.Dict.{put}
use qdap_protocol.Bytes.{Bytes, All, be_bytes, be_number, be_number_from}
use qdap_protocol.Frame.{QFrame, FrameType, SubframeType, subframe, create, default_deadline}
use qdap_protocol.Ghost.{
  GhostSession, on_receive, receive_subframes, ghost_sign, trim_received, send, cleanup_window,
  detect_loss,
}
use qdap_protocol.Ghost.Accepted.{IsAccepted}
use qdap_protocol.Ghost.Replay.{receive_frames, receive_frames-IsAccepted}
use qdap_protocol.Ghost.Forged.{on_receive_forged, on_receive_replayed}
use qdap_protocol.Ghost.Window.{Inv, GhostReach-Inv, next, start, sends, detects}

abbrev hmac : Bytes → Bytes → Bytes
hmac key message = key ++ message

-- A channel model that predicts nothing and finds nothing lost.
abbrev session : GhostSession Bool Bool
session = record {
  session_id = 1 ∷ 2 ∷ [];
  ghost_key = 9 ∷ [];
  loss_model = true;
  success_history = [];
  ghost_window = [];
  total_sent = 0;
  total_acked = 0;
  total_lost_detected = 0;
  rtt_samples = [];
  received_seqs = [];
}

abbrev frame_of : ℕ → Bytes → QFrame
frame_of seq payload = record {
  version = 1;
  frame_type = FrameType.ghost;
  session_id = 0;
  flags = 0;
  subframes = subframe payload SubframeType.data_kind 0 seq ∷ [];
  amplitude_vector = 0x3f800000 ∷ [];
}

abbrev frames : List QFrame
frames = frame_of 5 (1 ∷ []) ∷ frame_of 3 [] ∷ frame_of 5 (1 ∷ []) ∷ []

once_each : (receive_frames hmac session frames).1 ≡ ok (5 ∷ 3 ∷ [])
unfolding receive_frames on_receive receive_subframes ghost_sign trim_received
once_each = refl

receive_frames-IsAccepted_example :
    (s' : GhostSession Bool Bool) × (out : List ℕ) × (receive_frames hmac session frames
      ≡ (s', ok out))
    × IsAccepted [] s'.received_seqs out (5 ∷ 3 ∷ 5 ∷ [])
receive_frames-IsAccepted_example =
    receive_frames-IsAccepted hmac session frames
      ((omega arith, tt), ((omega arith, tt), ((omega arith, tt), tt))) (omega arith)

on_receive_forged_example :
    ((on_receive hmac session (frame_of 5 (1 ∷ []))).1
      ≡ (on_receive hmac (record session { ghost_key = [] }) (frame_of 5 (66 ∷ []))).1)
    × ((on_receive hmac session (frame_of 5 (1 ∷ []))).0.received_seqs
        ≡ (on_receive hmac
            (record session { ghost_key = [] })
            (frame_of 5 (66 ∷ []))).0.received_seqs)
on_receive_forged_example =
    on_receive_forged hmac session [] (frame_of 5 (1 ∷ [])) (frame_of 5 (66 ∷ []))
      (refl, omega arith, tt)

session-Inv : Inv session
session-Inv = record {
  unique = tt;
  bounded = omega arith;
  accounted = omega arith;
  history = omega arith;
  samples = omega arith;
}

-- The `n` numbers from `k` on.
count_up : ℕ → ℕ → List ℕ
count_up zero k = []
count_up (suc n) k = k ∷ count_up n (suc k)

length-count_up : (n k : ℕ) → length (count_up n k) ≡ n
unfolding count_up
length-count_up zero k = refl
length-count_up (suc n) k = ap suc (length-count_up n (suc k))

count_up-All : (m n k : ℕ) → m < k → All (λ y. m < y) (count_up n k)
unfolding count_up
count_up-All m zero k h = tt
count_up-All m (suc n) k h = (h, count_up-All m n (suc k) (omega arith))

on_receive_replayed_example :
    ((on_receive hmac (record session { received_seqs = count_up 2048 100 }) (frame_of 5 [])).1
      ≡ ok (5 ∷ []))
    × ((on_receive hmac
          (on_receive hmac (record session { received_seqs = count_up 2048 100 }) (frame_of 5 [])).0
          (frame_of 5 [])).1
        ≡ ok (5 ∷ []))
on_receive_replayed_example =
    on_receive_replayed hmac (record session { received_seqs = count_up 2048 100 }) (frame_of 5 [])
      (subframe [] SubframeType.data_kind 0 5) refl (omega arith) (length-count_up 2048 100)
      (count_up-All 5 2048 100 (omega arith))

-- A packet is sent, and lost.
abbrev model : Bool → ℕ → Bool → Bool
model good age state = good

abbrev suspect : Bool → ℕ → Bool
suspect state age = ltb 100 age

abbrev after_send : GhostSession Bool Bool
after_send = record session {
  ghost_window =
      (
        5,
        record {
          sent_at = 1000;
          ghost_sig = 9 ∷ 0 ∷ 0 ∷ 0 ∷ 5 ∷ 1 ∷ [];
          predicted_state = true;
          payload_hash = 1 ∷ [];
        },
      )
      ∷ [];
  total_sent = 1;
}

abbrev sent_frame : QFrame
sent_frame = record (frame_of 5 (1 ∷ [])) {
  session_id = 0x0102000000000000;
  subframes = subframe (1 ∷ []) SubframeType.data_kind default_deadline 5 ∷ [];
  amplitude_vector = 1 ∷ [];
}

sent : send hmac (λ b. b) (λ n. n) (λ m. m) session (1 ∷ []) 5 1000 ≡ ok (sent_frame, after_send)
unfolding send ghost_sign cleanup_window be_bytes be_number be_number_from create put
sent = refl

GhostReach-Inv_example : Inv (detect_loss model suspect after_send 2000).1
GhostReach-Inv_example =
    GhostReach-Inv hmac (λ b. b) (λ n. n) (λ m. m) model suspect
      (next (next start (sends session after_send (1 ∷ []) 5 1000 sent_frame sent))
        (detects after_send 2000))
      session-Inv
