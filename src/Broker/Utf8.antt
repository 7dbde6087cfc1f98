-- ===== src/Broker/Utf8.antt =====
-- Python's `str.encode("utf-8")` and `bytes.decode("utf-8")`. A text is represented by its UTF-8
-- bytes, so that encoding is the identity and decoding is the check of well-formedness.
use qdap_protocol.Base.{
  ℕ, ◌-◌, Bool, false, ◌&&◌, [], ◌∷◌, Option, none, some, Result, ok, err, Error, leb, ◌==◌,
  if◌then◌else◌,
}
use qdap_protocol.Bytes.{Bytes}

abbrev pub Text : Type 0
Text = Bytes

-- The continuation bytes still to come, and the range of the next one.
pub record Utf8State : Type 0 where
  pub more : ℕ
  pub lo : ℕ
  pub hi : ℕ

abbrev between : ℕ → ℕ → ℕ → Bool
between lo hi b = leb lo b && leb b hi

abbrev expect : ℕ → ℕ → ℕ → Option Utf8State
expect more lo hi = some (record { more = more; lo = lo; hi = hi })

-- The first byte of a character (RFC 3629, table 3-7 of Unicode).
unfoldable pub lead : ℕ → Option Utf8State
lead b =
    if leb b 0x7f
    then expect 0 0 0
    else if between 0xc2 0xdf b
    then expect 1 0x80 0xbf
    else if b == 0xe0
    then expect 2 0xa0 0xbf
    else if b == 0xed
    then expect 2 0x80 0x9f
    else if between 0xe1 0xef b
    then expect 2 0x80 0xbf
    else if b == 0xf0
    then expect 3 0x90 0xbf
    else if between 0xf1 0xf3 b
    then expect 3 0x80 0xbf
    else if b == 0xf4
    then expect 3 0x80 0x8f
    else none

unfoldable pub next_state : Utf8State → ℕ → Option Utf8State
unfolding lead
next_state s b =
    if s.more == 0
    then lead b
    else if between s.lo s.hi b
    then expect (s.more - 1) 0x80 0xbf
    else none

unfoldable pub valid_from : Option Utf8State → Bytes → Bool
valid_from none bs = false
valid_from (some s) [] = s.more == 0
valid_from (some s) (b ∷ bs) = valid_from (next_state s b) bs

unfoldable pub valid_utf8 : Bytes → Bool
unfolding valid_from next_state
valid_utf8 bs = valid_from (expect 0 0 0) bs

unfoldable pub decode_utf8 : Bytes → Result Text
decode_utf8 bs = if valid_utf8 bs then ok bs else err Error.unicode_error
