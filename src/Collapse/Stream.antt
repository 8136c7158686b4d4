-- ===== src/Collapse/Stream.antt =====
-- The loop over the lines of a stream, cmd/server/agent_shape.go, against a description that first
-- reads the events and then folds them.
use opencode_rush_free.Base.{
  Bool, Bytes, List, Option, Option-cases, [], ap, arith, bytes_eq, if◌then◌else◌, inl, inr, length,
  nat_eq, none, refl, some, string_eq, suc, ℕ, ◌+◌, ◌==◌, ◌∙◌, ◌∷◌, ◌≡◌,
}
use opencode_rush_free.Base.Int.{ℤ}
use opencode_rush_free.Collapse.{
  StreamEvent, Accumulator, TimedLine, skipped, done, payload_of, classify_line, Drained, at_end,
  at_done, bad_event, drain, consume, empty_accumulator, Collapsed, completion, invalid_event,
  read_failed, no_events, finish_stream, collapse_stream, encode,
}
use opencode_rush_free.Collapse.Fold.{TimedEvent, consume_all}

add_event : ℕ → StreamEvent → Option (List TimedEvent) → Option (List TimedEvent)
add_event t e none = none
add_event t e (some es) = some ((t, e) ∷ es)

-- The events in front of the end marker, or of the end; `none` if one of them is no JSON.
pub events_of : (Bytes → Option StreamEvent) → List TimedLine → Option (List TimedEvent)
events_of decode [] = some []
events_of decode (l ∷ rest) =
    let later = events_of decode rest in
    elim (classify_line l.line) [
      | skipped ↦ later
      | done ↦ some []
      | payload_of payload ↦ elim (decode payload) [
        | none ↦ none
        | some e ↦ add_event l.elapsed e later
      ]
    ]

-- Where the loop stops: at the first end marker, with whether reading has failed by then, or at the end.
abbrev pub end_marker : List TimedLine → Option Bool
end_marker [] = none
end_marker (l ∷ rest) =
    let later = end_marker rest in elim (classify_line l.line) [ done ↦ some l.failed | _ ↦ later ]

-- Whether reading has failed by the time the loop stops.
abbrev pub failed_by : Bool → Option Bool → Bool
failed_by read_error none = read_error
failed_by read_error (some failed) = failed

-- The description: the events, none of them bad, are folded into one document.
pub collapse_events : Bytes → ℤ → Bytes → Bool → Option (List TimedEvent) → Collapsed
collapse_events fresh_id now fallback failed none = invalid_event
collapse_events fresh_id now fallback failed (some es) =
    let acc = consume_all es empty_accumulator in
    if failed
    then read_failed
    else if length es == 0
    then no_events
    else completion (encode fresh_id now fallback acc) acc.first_token

drained : Option Bool → Accumulator → ℕ → Drained
drained (some failed) acc n = at_done failed acc n
drained none acc n = at_end acc n

from_events : Option Bool → Accumulator → ℕ → Option (List TimedEvent) → Drained
from_events at acc n none = bad_event
from_events at acc n (some es) = drained at (consume_all es acc) (n + length es)

add_event_lem :
    (at : Option Bool) (acc : Accumulator) (n t : ℕ) (e : StreamEvent)
    (o : Option (List TimedEvent))
    → from_events at (consume t e acc) (suc n) o ≡ from_events at acc n (add_event t e o)
unfolding from_events add_event drained consume_all
add_event_lem at acc n t e none = refl
add_event_lem at acc n t e (some es) =
    ap (drained at (consume_all es (consume t e acc))) (omega arith)

-- The loop gives what folding the events gives, with their number.
drain_lem :
    (decode : Bytes → Option StreamEvent) (lines : List TimedLine) (acc : Accumulator) (n : ℕ)
    → drain decode lines acc n ≡ from_events (end_marker lines) acc n (events_of decode lines)
unfolding drain events_of from_events drained consume_all
drain_lem decode [] acc n = ap (at_end acc) (omega arith)
drain_lem decode (l ∷ rest) acc n =
    elim (classify_line l.line)
      as (λ kind.
        elim kind as (λ x. Drained) [
          | skipped ↦ drain decode rest acc n
          | done ↦ at_done l.failed acc n
          | payload_of payload ↦ elim (decode payload) as (λ x. Drained) [
            | none ↦ bad_event
            | some e ↦ drain decode rest (consume l.elapsed e acc) (suc n)
          ]
        ]
        ≡ from_events
            (elim kind as (λ x. Option Bool) [
              | done ↦ some l.failed
              | skipped ↦ end_marker rest
              | payload_of p ↦ end_marker rest
            ])
            acc n
            (elim kind as (λ x. Option (List TimedEvent)) [
              | skipped ↦ events_of decode rest
              | done ↦ some []
              | payload_of payload ↦ elim (decode payload) as (λ x. Option (List TimedEvent)) [
                | none ↦ none
                | some e ↦ add_event l.elapsed e (events_of decode rest)
              ]
            ])) [
              | skipped ↦ drain_lem decode rest acc n
              | done ↦ ap (at_done l.failed acc) (omega arith)
              | payload_of payload ↦ elim (Option-cases (decode payload)) [
                | inl bad ↦ rw bad
                | inr (e, good) ↦ rw good (
                    drain_lem decode rest (consume l.elapsed e acc) (suc n)
                    ∙ add_event_lem (end_marker rest) acc n l.elapsed e (events_of decode rest))
              ]
            ]

ending :
    (fresh_id : Bytes) (now : ℤ) (fallback : Bytes) (read_error : Bool) (at : Option Bool)
    (o : Option (List TimedEvent))
    → finish_stream fresh_id now fallback read_error (from_events at empty_accumulator 0 o)
      ≡ collapse_events fresh_id now fallback (failed_by read_error at) o
unfolding finish_stream from_events drained collapse_events
ending fresh_id now fallback read_error at none = refl
ending fresh_id now fallback read_error none (some es) = ground arith
ending fresh_id now fallback read_error (some failed) (some es) = ground arith

-- The loop and what follows it give the document of the events: one bad event in front of the end marker is
-- an error of the whole, and so is an error of reading that the scanner has met by the time the loop stops, at the
-- marker or at the end of the lines. Everything behind the marker is ignored, also an error of reading that is met
-- only there.
pub collapse_stream_lem :
    (decode : Bytes → Option StreamEvent) (fresh_id : Bytes) (now : ℤ) (fallback : Bytes)
    (lines : List TimedLine) (read_error : Bool)
    → collapse_stream decode fresh_id now fallback lines read_error
      ≡ collapse_events fresh_id now fallback
          (failed_by read_error (end_marker lines))
          (events_of decode lines)
unfolding collapse_stream
collapse_stream_lem decode fresh_id now fallback lines read_error =
    ap (finish_stream fresh_id now fallback read_error) (drain_lem decode lines empty_accumulator 0)
    ∙ ending fresh_id now fallback read_error (end_marker lines) (events_of decode lines)
