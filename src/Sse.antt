-- ===== src/Sse.antt =====
-- The detector of the first content in a stream of events, and the capture of the first bytes of a response,
-- cmd/server/main.go. `json.Unmarshal` into the event is an argument: it gives the deltas of the choices.
use opencode_rush_free.Base.{
  Bool, Bytes, List, Option, String, [], any, bytes_eq, bytes_eqb, codes, false, has_prefix,
  if◌then◌else◌, length, ltb, nat_eq, none, not, some, string_eq, suc, take, trim_prefix,
  trim_space, true, zero, ℕ, ◌++◌, ◌-◌, ◌==◌, ◌||◌, ◌∷◌,
}
use opencode_rush_free.Json.{
  Json, Items, Fields, null, bool, num, str, arr, obj, nil, cons, end, field, get,
}
pub mod Chunks
pub mod Capture
mod Tests

abbrev pub newline : ℕ
newline = 10

unfoldable mutual
  -- A text that is not empty, anywhere in a list or under one of three keys of an object.
  pub text_content_present : Json → Bool
  text_content_present (str s) = not (s == "")
  text_content_present (arr xs) = any_text_present xs
  text_content_present (obj m) =
      text_present_at "text" m || text_present_at "content" m || text_present_at "output_text" m
  text_content_present null = false
  text_content_present (bool b) = false
  text_content_present (num n) = false

  pub any_text_present : Items → Bool
  any_text_present nil = false
  any_text_present (cons x xs) = text_content_present x || any_text_present xs

  -- The value that the object has at the key.
  pub text_present_at : String → Fields → Bool
  text_present_at k end = false
  text_present_at k (field j v m) =
      let here = text_content_present v in
      let later = text_present_at k m in if j == k then here else later

abbrev pub value_present : Option Json → Bool
value_present none = false
value_present (some v) = text_content_present v

abbrev pub deltas_present : Option (List Fields) → Bool
deltas_present none = false
deltas_present (some deltas) = any (λ delta. value_present (get "content" delta)) deltas

abbrev pub payload_present : (Bytes → Option (List Fields)) → Bytes → Bool
payload_present decode payload =
    if bytes_eqb payload [] || bytes_eqb payload (codes "[DONE]")
    then false
    else deltas_present (decode payload)

unfoldable pub observe_line : (Bytes → Option (List Fields)) → Bytes → Bool
observe_line decode raw =
    let line = trim_space raw in
    if not (has_prefix line (codes "data:"))
    then false
    else payload_present decode (trim_space (trim_prefix line (codes "data:")))

pub record Detector : Type 0 where
  pub buffer : Bytes
  pub found : Bool

-- The line in front of the first newline, and what follows it.
abbrev pub add_to_line : ℕ → Option (Bytes × Bytes) → Option (Bytes × Bytes)
add_to_line c none = none
add_to_line c (some (line, rest)) = some (c ∷ line, rest)

unfoldable pub cut_line : Bytes → Option (Bytes × Bytes)
cut_line [] = none
cut_line (c ∷ s) =
    let later = cut_line s in if c == newline then some ([], s) else add_to_line c later

-- The loop over the lines in the buffer, with a bound on their number: whether one has content, and what is
-- left of the buffer.
unfoldable pub scan : (Bytes → Bool) → ℕ → Bytes → Bool × Bytes
scan f zero buffer = (false, buffer)
scan f (suc n) buffer = elim (cut_line buffer) [
  | none ↦ (false, buffer)
  | some (line, rest) ↦ let later = scan f n rest in if f line then (true, rest) else later
]

abbrev pub max_line : ℕ
max_line = 1048576

abbrev pub after_scan : Bool × Bytes → Detector
after_scan (true, rest) = record { buffer = rest; found = true }
after_scan (false, rest) = record {
  buffer = if ltb max_line (length rest) then [] else rest;
  found = false;
}

-- A buffer has at most as many newlines as bytes. The result is that of `found`, which `Observe` returns when
-- it becomes true.
unfoldable pub observe : (Bytes → Bool) → Bytes → Detector → Detector
observe f chunk d =
    if d.found
    then d
    else let buffer = d.buffer ++ chunk in after_scan (scan f (suc (length buffer)) buffer)

unfoldable pub flush : (Bytes → Bool) → Detector → Detector
flush f d =
    if d.found || bytes_eqb d.buffer [] then d else record { buffer = []; found = f d.buffer }

abbrev pub new_detector : Detector
new_detector = record { buffer = []; found = false }

pub record LimitedCapture : Type 0 where
  pub buf : Bytes
  pub limit : ℕ

unfoldable pub write : Bytes → LimitedCapture → LimitedCapture
write p w =
    let remaining = w.limit - length w.buf in
    if ltb 0 remaining
    then record w {
      buf = w.buf ++ take (if ltb (length p) remaining then length p else remaining) p;
    }
    else w
