-- ===== src/Broker/Priority.antt =====
-- src/qdap/broker/qdap_transport.py: the priority of a topic, and the two bytes that carry it.
pub mod RoundTrip
use qdap_protocol.Base.{
  ℕ, ◌+◌, Bool, true, false, ◌&&◌, ◌||◌, List, [], ◌∷◌, ◌++◌, length, map, drop, Result, ok, ◌>>=◌,
  ltb, leb, ◌==◌, if◌then◌else◌,
}
use qdap_protocol.Bytes.{Bytes, pack_be, unpack_be_at}
use qdap_protocol.Broker.Utf8.{Text}

-- "alert", "alarm" and "critical", anywhere in the topic
abbrev pub emergency_patterns : List Text
emergency_patterns =
    (0x61 ∷ 0x6c ∷ 0x65 ∷ 0x72 ∷ 0x74 ∷ [])
    ∷ (0x61 ∷ 0x6c ∷ 0x61 ∷ 0x72 ∷ 0x6d ∷ [])
    ∷ (0x63 ∷ 0x72 ∷ 0x69 ∷ 0x74 ∷ 0x69 ∷ 0x63 ∷ 0x61 ∷ 0x6c ∷ [])
    ∷ []

-- "emergency", in letters of any case
abbrev pub emergency_word : Text
emergency_word = 0x65 ∷ 0x6d ∷ 0x65 ∷ 0x72 ∷ 0x67 ∷ 0x65 ∷ 0x6e ∷ 0x63 ∷ 0x79 ∷ []

-- "ems/" and "hospital/", at the front
abbrev pub emergency_fronts : List Text
emergency_fronts =
    (0x65 ∷ 0x6d ∷ 0x73 ∷ 0x2f ∷ [])
    ∷ (0x68 ∷ 0x6f ∷ 0x73 ∷ 0x70 ∷ 0x69 ∷ 0x74 ∷ 0x61 ∷ 0x6c ∷ 0x2f ∷ [])
    ∷ []

abbrev pub lower : ℕ → ℕ
lower c = if leb 0x41 c && leb c 0x5a then c + 32 else c

unfoldable pub starts_with : Text → Text → Bool
starts_with [] s = true
starts_with (c ∷ word) [] = false
starts_with (c ∷ word) (d ∷ s) = (c == d) && starts_with word s

-- A search anywhere in the text.
unfoldable pub search_in : Text → Text → Bool
search_in word [] = starts_with word []
search_in word (c ∷ s) = starts_with word (c ∷ s) || search_in word s

abbrev pub any_of : (Text → Bool) → List Text → Bool
any_of test [] = false
any_of test (word ∷ words) = test word || any_of test words

unfoldable pub is_emergency : Text → Bool
is_emergency topic =
    search_in emergency_word (map lower topic)
    || (any_of (λ word. search_in word topic) emergency_patterns
        || any_of (λ word. starts_with word topic) emergency_fronts)

unfoldable pub topic_to_priority : Text → ℕ → ℕ
topic_to_priority topic payload_size =
    if is_emergency topic
    then 1000
    else if ltb payload_size 64
    then 800
    else if ltb payload_size 1024
    then 500
    else 100

unfoldable pub wrap_in_qframe : Text → Bytes → Result Bytes
wrap_in_qframe topic payload = do
  priority ← pack_be 2 (topic_to_priority topic (length payload))
  ok (priority ++ payload)

unfoldable pub unwrap_qframe : Bytes → Result (ℕ × Bytes)
unwrap_qframe bytes = do priority ← unpack_be_at 2 0 bytes; ok (priority, drop 2 bytes)
