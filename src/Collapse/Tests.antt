-- ===== src/Collapse/Tests.antt =====
-- A stream of two events and its document.
use opencode_rush_free.Base.{
  Bytes, List, Option, [], bytes_eq, bytes_eqb, codes, false, has_prefix, lookup, nat_eq, none,
  refl, some, string_eq, trim_prefix, trim_space, true, ◌∷◌, ◌≡◌,
}
use opencode_rush_free.Base.Int.{ℤ, pos, int_eq}
use opencode_rush_free.Collapse.{
  ChatDeltaTool, empty_accumulator, TimedLine, classify_line, drain, consume_tools, finish_stream,
  collapse_stream, no_events, read_failed,
}
use opencode_rush_free.Collapse.Fold.{TimedEvent, consume_all, consume_all_lem}
use opencode_rush_free.Collapse.Stream.{
  collapse_events, end_marker, failed_by, events_of, collapse_stream_lem,
}
use opencode_rush_free.Collapse.ToolCalls.{tool_of, consume_tools_args}

abbrev piece : Option ℤ → Bytes → Bytes → ChatDeltaTool
piece i name args = record { index = i; id = []; name = name; arguments = args }

abbrev pieces : List ChatDeltaTool
pieces =
    piece (some (pos 0)) (codes "read") (codes "{\"a")
    ∷ piece (some (pos 1)) (codes "grep") (codes "{}")
    ∷ piece (some (pos 0)) [] (codes "\":1}")
    ∷ []

consume_tools_args_example : (tool_of (pos 0) (consume_tools pieces [])).args ≡ codes "{\"a\":1}"
unfolding lookup
consume_tools_args_example =
    consume_tools_args (pos 0) pieces [] ((pos 0, refl), ((pos 1, refl), ((pos 0, refl), tt)))

lines : List TimedLine
lines =
    record { line = codes "event: x"; elapsed = 1; failed = false }
    ∷ record { line = codes "data: [DONE]"; elapsed = 2; failed = false }
    ∷ []

done_only : collapse_stream (λ s. none) [] (pos 0) [] lines true ≡ no_events
unfolding collapse_stream finish_stream drain lines classify_line trim_space has_prefix trim_prefix
    bytes_eqb
done_only = refl

-- The read that carried the end marker has failed as well.
failed_done : List TimedLine
failed_done = record { line = codes "data: [DONE]"; elapsed = 2; failed = true } ∷ []

failed_at_done : collapse_stream (λ s. none) [] (pos 0) [] failed_done false ≡ read_failed
unfolding collapse_stream finish_stream drain failed_done classify_line trim_space has_prefix
    trim_prefix bytes_eqb
failed_at_done = refl

collapse_stream_lem_example :
    collapse_stream (λ s. none) [] (pos 0) [] lines false
    ≡ collapse_events []
        (pos 0)
        []
        (failed_by false (end_marker lines))
        (events_of (λ s. none) lines)
collapse_stream_lem_example = collapse_stream_lem (λ s. none) [] (pos 0) [] lines false

abbrev event : Bytes → TimedEvent
event s = (
  1,
  record {
    id = none;
    model = [];
    created = pos 0;
    choices =
        record {
          finish_reason = none;
          delta = record {
            content = some s;
            reasoning = none;
            reasoning_legacy = none;
            tool_calls = [];
          };
        }
        ∷ [];
    usage = none;
  },
)

abbrev two_events : List TimedEvent
two_events = event (codes "he") ∷ event (codes "llo") ∷ []

consume_all_lem_example : (consume_all two_events empty_accumulator).content ≡ codes "hello"
consume_all_lem_example = (consume_all_lem two_events).0
