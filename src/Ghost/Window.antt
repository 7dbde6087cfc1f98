-- ===== src/Ghost/Window.antt =====
-- The bounds that every operation of src/qdap/session/ghost_session.py keeps.
use mathlib.Core.Path.{subst}
use qdap_protocol.Base.{
  ℕ, suc, ◌+◌, ◌-◌, ◌/◌, ◌≤◌, ◌<◌, ◌≡◌, ◌≢◌, refl, Bool, List, [], ◌∷◌, ◌++◌, length, take, Option,
  none, some, ok, >>=-eq-ok, ltb, ltb→lt, nat_eq, if◌then◌else◌, Bool-cases, inl, inr, arith,
  length-drop,
}
use qdap_protocol.Base.Dict.{get, put, remove}
use qdap_protocol.Base.Dict.Laws.{length-put}
use qdap_protocol.Base.Dict.Unique.{IsUnique, put-IsUnique, remove-IsUnique}
use qdap_protocol.Bytes.{Bytes}
use qdap_protocol.Frame.{QFrame}
use qdap_protocol.Ghost.{
  GhostEntry, GhostSession, last_of, ghost_sign, by_age, oldest, delete_all, cleanup_window, send,
  on_receive, acknowledge, implicit_ack, detect_loss,
}
use qdap_protocol.Ghost.Oldest.{
  length-remove-lt, delete_all-IsUnique, by_age-FirstIn, length-by_age, delete_oldest,
}

length-kept : (n : ℕ) (xs : List ℕ) → length (if ltb n (length xs) then last_of n xs else xs) ≤ n
length-kept n xs = elim (Bool-cases (ltb n (length xs))) [
  | inl e ↦ rw e (omega (arith, length-drop (length xs - n) xs, ltb→lt n (length xs) e))
  | inr e ↦ rw e (ground arith)
]

-- What a session keeps: a window of at most 1024 entries with distinct numbers, of which none is
-- acknowledged, and bounded histories.
pub record Inv {S M : Type 0} (s : GhostSession S M) : Type 0 where
  pub unique : IsUnique s.ghost_window
  pub bounded : length s.ghost_window ≤ 1024
  pub accounted : s.total_acked + length s.ghost_window ≤ s.total_sent
  pub history : length s.success_history ≤ 100
  pub samples : length s.rtt_samples ≤ 200

module _ {S M : Type 0} where
  cleanup_window-Inv :
      (s : GhostSession S M)
      → IsUnique s.ghost_window
      → length s.ghost_window ≤ 1025
      → s.total_acked + length s.ghost_window ≤ s.total_sent
      → length s.success_history ≤ 100
      → length s.rtt_samples ≤ 200
      → Inv (cleanup_window s)
  unfolding cleanup_window
  cleanup_window-Inv s u small accounted history samples =
      elim (Bool-cases (ltb 1024 (length s.ghost_window))) [
        | inl e ↦
            let over : 1024 < length s.ghost_window = ltb→lt 1024 (length s.ghost_window) e in
            let fewer : length (delete_all (oldest s.ghost_window) s.ghost_window)
                < length s.ghost_window =
              delete_oldest (length s.ghost_window / 4) (by_age s.ghost_window) s.ghost_window
                (by_age-FirstIn s.ghost_window) (omega (arith, over))
                (omega (arith, over, length-by_age s.ghost_window)) in
            rw e (record {
              unique = delete_all-IsUnique (oldest s.ghost_window) s.ghost_window u;
              bounded = omega (arith, fewer, small);
              accounted = omega (arith, fewer, accounted);
              history = history;
              samples = samples;
            })
        | inr e ↦ rw e (record {
          unique = u;
          bounded = ground (arith, e);
          accounted = accounted;
          history = history;
          samples = samples;
        })
      ]

  acknowledge-Inv :
      (update : Bool → ℕ → M → M) (s : GhostSession S M) (seq now : ℕ)
      (found : Option (GhostEntry S))
      → get seq s.ghost_window ≡ found
      → Inv s
      → Inv (acknowledge update s seq now found)
  acknowledge-Inv update s seq now none e v = v
  acknowledge-Inv update s seq now (some entry) e v =
      let there : get seq s.ghost_window ≢ none = λ f. absurd (cc (e, f)) in
      let fewer : length (remove seq s.ghost_window) < length s.ghost_window =
        length-remove-lt seq s.ghost_window there in
      record {
        unique = remove-IsUnique seq s.ghost_window v.unique;
        bounded = omega (arith, fewer, v.bounded);
        accounted = omega (arith, fewer, v.accounted);
        history = length-kept 100 (s.success_history ++ (seq ∷ []));
        samples = length-kept 200 (s.rtt_samples ++ ((now - entry.sent_at) ∷ []));
      }

  implicit_ack-Inv :
      (update : Bool → ℕ → M → M) (s : GhostSession S M) (seq now : ℕ)
      → Inv s
      → Inv (implicit_ack update s seq now)
  unfolding implicit_ack
  implicit_ack-Inv update s seq now v =
      acknowledge-Inv update s seq now (get seq s.ghost_window) refl v

  detect_loss-Inv :
      (update : Bool → ℕ → M → M) (suspect : M → ℕ → Bool) (s : GhostSession S M) (now : ℕ)
      → Inv s
      → Inv (detect_loss update suspect s now).1
  unfolding detect_loss
  detect_loss-Inv update suspect s now v = record {
    unique = v.unique;
    bounded = v.bounded;
    accounted = v.accounted;
    history = v.history;
    samples = v.samples;
  }

  on_receive-Inv :
      (hmac_sha256 : Bytes → Bytes → Bytes) (s : GhostSession S M) (f : QFrame)
      → Inv s
      → Inv (on_receive hmac_sha256 s f).0
  unfolding on_receive
  on_receive-Inv hmac s f v = record {
    unique = v.unique;
    bounded = v.bounded;
    accounted = v.accounted;
    history = v.history;
    samples = v.samples;
  }

module _ {S M : Type 0} (hmac_sha256 : Bytes → Bytes → Bytes) (sha256 : Bytes → Bytes)
    (uniform : ℕ → ℕ) (predict_next : M → S) (update : Bool → ℕ → M → M)
    (suspect : M → ℕ → Bool) where
  abbrev sent_entry : GhostSession S M → Bytes → ℕ → Bytes → GhostEntry S
  sent_entry s payload now sig = record {
    sent_at = now;
    ghost_sig = sig;
    predicted_state = predict_next s.loss_model;
    payload_hash = take 16 (sha256 payload);
  }

  send-Inv :
      (s s' : GhostSession S M) (payload : Bytes) (seq now : ℕ) (f : QFrame)
      → send hmac_sha256 sha256 uniform predict_next s payload seq now ≡ ok (f, s')
      → Inv s
      → Inv s'
  unfolding send
  send-Inv s s' payload seq now f sent v =
      let (sig, signed, made) = >>=-eq-ok (ghost_sign hmac_sha256 s.ghost_key seq payload) _ sent in
      let after : Inv (
          cleanup_window (record s {
            ghost_window = put seq (sent_entry s payload now sig) s.ghost_window;
            total_sent = suc s.total_sent;
          })) =
        cleanup_window-Inv _
          (put-IsUnique seq (sent_entry s payload now sig) s.ghost_window v.unique)
          (ground (arith, length-put seq (sent_entry s payload now sig) s.ghost_window, v.bounded))
          (ground
            (arith, length-put seq (sent_entry s payload now sig) s.ghost_window, v.accounted))
          v.history v.samples in
      subst Inv (cc made) after

  -- The calls that a session may see, in any order.
  pub data GhostStep : GhostSession S M → GhostSession S M → Type 0 where
    sends :
        (s s' : GhostSession S M) (payload : Bytes) (seq now : ℕ) (f : QFrame)
        → send hmac_sha256 sha256 uniform predict_next s payload seq now ≡ ok (f, s')
        → GhostStep s s'
    receives : (s : GhostSession S M) (f : QFrame) → GhostStep s (on_receive hmac_sha256 s f).0
    acks : (s : GhostSession S M) (seq now : ℕ) → GhostStep s (implicit_ack update s seq now)
    detects : (s : GhostSession S M) (now : ℕ) → GhostStep s (detect_loss update suspect s now).1

  pub data GhostReach (s : GhostSession S M) : GhostSession S M → Type 0 where
    start : GhostReach s s
    next : {t u : GhostSession S M} → GhostReach s t → GhostStep t u → GhostReach s u

  GhostStep-Inv : {t u : GhostSession S M} → GhostStep t u → Inv t → Inv u
  GhostStep-Inv (sends s s' payload seq now f e) v = send-Inv s s' payload seq now f e v
  GhostStep-Inv (receives s f) v = on_receive-Inv hmac_sha256 s f v
  GhostStep-Inv (acks s seq now) v = implicit_ack-Inv update s seq now v
  GhostStep-Inv (detects s now) v = detect_loss-Inv update suspect s now v

  -- From a session that keeps the bounds, every session that sending, receiving, acknowledging and
  -- detecting losses can make keeps them: at most 1024 entries with distinct numbers, as many
  -- packets sent as acknowledged and pending together at least, and histories of at most 100 and 200.
  pub GhostReach-Inv : {s t : GhostSession S M} → GhostReach s t → Inv s → Inv t
  GhostReach-Inv start v = v
  GhostReach-Inv (next r st) v = GhostStep-Inv st (GhostReach-Inv r v)
