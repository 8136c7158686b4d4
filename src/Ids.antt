-- ===== src/Ids.antt =====
-- The identifiers of upstream requests and sessions, cmd/server/main.go. The random bytes, the hashes and the
-- clock's reading are arguments; times are milliseconds.
use opencode_rush_free.Base.{
  Bytes, List, Option, [], codes, get_elem?, if◌then◌else◌, ltb, map, none, some, suc, zero, ℕ, ◌%◌,
  ◌*◌, ◌++◌, ◌+◌, ◌-◌, ◌/◌, ◌^◌, ◌∷◌,
}
pub mod Digits
pub mod Order
mod Tests

abbrev pub base62_alphabet : Bytes
base62_alphabet = codes "0123456789ABCDEFGHIJKLMNOPQRSTUVWXYZabcdefghijklmnopqrstuvwxyz"

abbrev pub hex_alphabet : Bytes
hex_alphabet = codes "0123456789abcdef"

abbrev pub char_or_zero : Option ℕ → ℕ
char_or_zero none = 0
char_or_zero (some c) = c

-- `alphabet[i]`; the indices below are remainders, so that they lie in the alphabet.
abbrev pub char_at : Bytes → ℕ → ℕ
char_at alphabet i = char_or_zero (get_elem? alphabet i)

-- `openCodeBase62Encode` and `base62Fixed`, which fill a text of fixed width from its end.
unfoldable pub base62_encode : ℕ → ℕ → Bytes
base62_encode v zero = []
base62_encode v (suc width) =
    base62_encode (v / 62) width ++ (char_at base62_alphabet (v % 62) ∷ [])

-- `%0*x`, of a number that has no more digits than the width.
unfoldable pub hex_encode : ℕ → ℕ → Bytes
hex_encode v zero = []
hex_encode v (suc width) = hex_encode (v / 16) width ++ (char_at hex_alphabet (v % 16) ∷ [])

-- `openCodeLastMs` and `openCodeSeq`.
pub record IdClock : Type 0 where
  pub last_ms : ℕ
  pub seq : ℕ

unfoldable pub tick : ℕ → IdClock → IdClock
tick now c =
    if ltb c.last_ms now
    then record { last_ms = now; seq = 0 }
    else if ltb 0xfff (c.seq + 1)
    then record { last_ms = c.last_ms + 1; seq = 0 }
    else record { last_ms = c.last_ms; seq = c.seq + 1 }

abbrev pub random_chars : List ℕ → Bytes
random_chars bytes = map (λ b. char_at base62_alphabet (b % 62)) bytes

-- The identifier for the clock's state behind the tick; no random bytes are an error.
unfoldable pub id_text : Bytes → IdClock → List ℕ → Bytes
id_text id_prefix c random =
    id_prefix
    ++ (95 ∷ (hex_encode (c.last_ms % 2 ^ 48) 12 ++ (base62_encode c.seq 3 ++ random_chars random)))

unfoldable pub open_code_id : Bytes → ℕ → Option (List ℕ) → IdClock → Option Bytes × IdClock
open_code_id id_prefix now none c = (none, tick now c)
open_code_id id_prefix now (some random) c =
    (some (id_text id_prefix (tick now c) random), tick now c)

-- The six bytes of a hash, each below 256, as they are put together; the bits do not overlap, so that `|` is
-- a sum, and the inversion of 48 bits is a difference.
unfoldable pub descending_word : ℕ → ℕ → ℕ → ℕ → ℕ → ℕ
descending_word h0 h1 h2 h3 h4 =
    let current =
      (h0 * 2 ^ 28 + h1 * 2 ^ 20 + h2 * 2 ^ 12 + h3 * 2 ^ 4 + h4 / 2 ^ 4) * 2 ^ 12 + 1 in
    2 ^ 48 - 1 - current

unfoldable pub descending_time_part : ℕ → ℕ → ℕ → ℕ → ℕ → Bytes
descending_time_part h0 h1 h2 h3 h4 = hex_encode (descending_word h0 h1 h2 h3 h4) 12
