-- ===== src/Chunking/Reassembler/Delivery.antt =====
-- The pieces of one stream, delivered to the reassembler in any order.
use qdap_protocol.Base.{
  elem, ℕ, ◌+◌, ◌<◌, ◌≡◌, refl, ap, ◌∙◌, true, false, List, [], ◌∷◌, ◌++◌, length, get_elem?, join,
  Option, none, some, Result, ok, nat_eq, list_eq_instance, beq_refl, if◌then◌else◌, arith,
}
use qdap_protocol.Base.Dict.{get, put, remove}
use qdap_protocol.Base.Dict.Laws.{get-put_self, get-remove}
use qdap_protocol.Bytes.{Bytes}
use qdap_protocol.Frame.{Subframe}
use qdap_protocol.Chunking.Reassembler.{
  StreamBuffer, Reassembler, add_chunk, is_complete, reassemble, buffer_for, finish, add_to_stream,
  process_subframes,
}
use qdap_protocol.Chunking.Reassembler.Buffer.{
  Holds, Holds-add_chunk, get_elem?-drop, reassemble-join,
}

-- An order of arrival, as pairs of a time and an index: with the indices `seen` before, it names
-- each index below `n` exactly once.
abbrev pub IsOrder : ℕ → List ℕ → List (ℕ × ℕ) → Type 0
IsOrder n seen [] = (length seen ≡ n) × ((i : ℕ) → i < n → elem i seen ≡ true)
IsOrder n seen ((t, i) ∷ order) = (elem i seen ≡ false) × (i < n) × IsOrder n (i ∷ seen) order

pub length-IsOrder :
    (n : ℕ) (seen : List ℕ) (order : List (ℕ × ℕ))
    → IsOrder n seen order
    → length seen + length order ≡ n
length-IsOrder n seen [] h = omega (arith, h.0)
length-IsOrder n seen ((t, i) ∷ order) h = omega (arith, length-IsOrder n (i ∷ seen) order h.2)

-- Nothing until the last piece, then the payload.
abbrev pub answers : Bytes → List (ℕ × ℕ) → List (Result (Option Bytes))
answers payload [] = []
answers payload (x ∷ []) = ok (some payload) ∷ []
answers payload (x ∷ y ∷ order) = ok none ∷ answers payload (y ∷ order)

module _ (sid : Bytes) (pieces : List Bytes) where
  -- The stream has come in so far as `seen`.
  pub record HasSeen (seen : List ℕ) (s : Reassembler) : Type 0 where
    pub at : (now : ℕ) → Holds pieces seen (buffer_for s sid (length pieces) now)

  pub HasSeen-new : (s : Reassembler) → get sid s.streams ≡ none → HasSeen [] s
  unfolding buffer_for get
  HasSeen-new s h = record {
    at = λ now. rw (h, buffer_for) (record { total = refl; size = refl; items = λ j. refl });
  }

  abbrev next : Reassembler → ℕ → Bytes → ℕ → StreamBuffer
  next s i piece now = add_chunk i piece (buffer_for s sid (length pieces) now)

  abbrev with_next : Reassembler → ℕ → Bytes → ℕ → Reassembler
  with_next s i piece now = record s { streams = put sid (next s i piece now) s.streams }

  module _ (s : Reassembler) (seen : List ℕ) (i now : ℕ) (piece : Bytes) (h : HasSeen seen s)
      (fresh : elem i seen ≡ false) (found : get_elem? pieces i ≡ some piece) where
    Holds-next : Holds pieces (i ∷ seen) (next s i piece now)
    Holds-next = Holds-add_chunk i piece (h.at now) fresh found

    -- A piece before the last one is kept.
    add_to_stream_middle :
        length seen + 1 < length pieces
        → add_to_stream s sid (length pieces) i piece now ≡ (with_next s i piece now, ok none)
    unfolding add_to_stream finish is_complete
    add_to_stream_middle p = let h' = Holds-next in ground (arith, h'.size, h'.total)

    HasSeen-next : HasSeen (i ∷ seen) (with_next s i piece now)
    unfolding buffer_for
    HasSeen-next = record {
      at = λ t. rw (get-put_self sid (next s i piece now) s.streams, buffer_for) Holds-next;
    }

    abbrev last_state : Reassembler
    last_state = record s {
      streams = remove sid (put sid (next s i piece now) s.streams);
      notified = if s.has_callback then s.notified ++ (sid, join pieces) ∷ [] else s.notified;
    }

    -- The last piece completes the payload, and the stream is forgotten.
    add_to_stream_last :
        length seen + 1 ≡ length pieces
        → ((j : ℕ) → j < length pieces → elem j (i ∷ seen) ≡ true)
        → add_to_stream s sid (length pieces) i piece now ≡ (last_state, ok (some (join pieces)))
    unfolding add_to_stream finish is_complete
    add_to_stream_last p every =
        let h' = Holds-next in
        let whole : reassemble (next s i piece now) ≡ ok (join pieces) =
          reassemble-join pieces (i ∷ seen) (next s i piece now) h' every in
        ground (arith, h'.size, h'.total, whole)

    last_state_forgets : get sid last_state.streams ≡ none
    last_state_forgets = rw get-remove (rw (beq_refl sid))

-- The frames of a list, by index, handed over in an order of arrival; an index that the list does
-- not have hands over nothing.
unfoldable pub deliver :
    List (List Subframe) → Reassembler → List (ℕ × ℕ) → Reassembler × List (Result (Option Bytes))
deliver frames s [] = (s, [])
deliver frames s ((now, i) ∷ order) = elim (get_elem? frames i) [
  | none ↦ deliver frames s order
  | some subframes ↦
      let (s', answer) = process_subframes s subframes now in
      let (s'', answers') = deliver frames s' order in (s'', answer ∷ answers')
]

module _ (sid : Bytes) (pieces : List Bytes) (frames : List (List Subframe)) where
  -- Each frame adds its piece to the stream.
  abbrev pub Carries : Type 0
  Carries =
      (i : ℕ) (piece : Bytes)
      → get_elem? pieces i ≡ some piece
      → (subframes : List Subframe) × (get_elem? frames i ≡ some subframes)
        × ((s : Reassembler) (now : ℕ)
            → process_subframes s subframes now ≡ add_to_stream s sid (length pieces) i piece now)

  deliver_step :
      (s : Reassembler) (now i : ℕ) (order : List (ℕ × ℕ)) (subframes : List Subframe)
      (s' : Reassembler) (answer : Result (Option Bytes))
      → get_elem? frames i ≡ some subframes
      → process_subframes s subframes now ≡ (s', answer)
      → deliver frames s ((now, i) ∷ order)
        ≡ ((deliver frames s' order).0, answer ∷ (deliver frames s' order).1)
  unfolding deliver
  deliver_step s now i order subframes s' answer e1 e2 = rw (e1, e2, deliver)

  deliver-nil : (s : Reassembler) → deliver frames s [] ≡ (s, [])
  unfolding deliver
  deliver-nil s = refl

  pub deliver_order :
      Carries
      → (order : List (ℕ × ℕ)) (seen : List ℕ) (s : Reassembler) → 0 < length order
      → HasSeen sid pieces seen s
      → IsOrder (length pieces) seen order
      → ((deliver frames s order).1 ≡ answers (join pieces) order)
        × (get sid (deliver frames s order).0.streams ≡ none)
  deliver_order carries [] seen s p h o = absurd (omega arith)
  deliver_order carries ((now, i) ∷ []) seen s p h (fresh, inside, all) =
      let (piece, found, _) = get_elem?-drop i pieces inside in
      let (subframes, at, same) = carries i piece found in
      let e = deliver_step s now i [] subframes _ _ at (
        same s now
        ∙ add_to_stream_last sid pieces s seen i now piece h fresh found (omega (arith, all.0))
            all.1) in
      rw (e, deliver-nil) (refl, last_state_forgets sid pieces s seen i now piece h fresh found)
  deliver_order carries ((now, i) ∷ (x ∷ order)) seen s p h (fresh, inside, o) =
      let (piece, found, _) = get_elem?-drop i pieces inside in
      let (subframes, at, same) = carries i piece found in
      let e = deliver_step s now i (x ∷ order) subframes _ _ at (
        same s now
        ∙ add_to_stream_middle sid pieces s seen i now piece h fresh found
            (omega (arith, length-IsOrder (length pieces) (i ∷ seen) (x ∷ order) o))) in
      let (ih, gone) =
        deliver_order carries (x ∷ order) (i ∷ seen) _ (omega arith)
          (HasSeen-next sid pieces s seen i now piece h fresh found) o in
      rw e (ap (◌∷◌ (ok none)) ih, gone)
