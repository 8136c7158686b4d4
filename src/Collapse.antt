-- ===== src/Collapse.antt =====
-- A streamed chat response folded into one document, cmd/server/agent_shape.go. The lines of the
-- stream, whether reading it failed at its end, and the decoder of an event are arguments. An entry of
-- the map `toolByIdx` and of the slice `tools` is one pointer, so the two are one list, by index and
-- in the order of the entries' creation.
pub mod Fold
pub mod ToolCalls
pub mod Stream
mod Tests
use opencode_rush_free.Base.{
  Bool, Bytes, List, Option, [], bytes_eq, codes, false, has_prefix, if◌then◌else◌, insert, length,
  lookup, map, nat_eq, none, not, some, string_eq, suc, trim_prefix, trim_space, true, ℕ, ◌&&◌,
  ◌++◌, ◌==◌, ◌||◌, ◌∷◌,
}
use opencode_rush_free.Base.Int.{ℤ, pos, negsuc, int_eq, int_eqb}
use opencode_rush_free.Json.{Json, Fields, null, bool, num, str, arr, obj, end, field}

pub record ChatDeltaTool : Type 0 where
  pub index : Option ℤ
  pub id : Bytes
  pub name : Bytes
  pub arguments : Bytes

pub record ChatStreamDelta : Type 0 where
  pub content : Option Bytes
  pub reasoning : Option Bytes
  pub reasoning_legacy : Option Bytes
  pub tool_calls : List ChatDeltaTool

pub record ChatStreamChoice : Type 0 where
  pub finish_reason : Option Bytes
  pub delta : ChatStreamDelta

-- An event as decoded: an id that is no string is `none`, and `usage` is the decoded value.
pub record StreamEvent : Type 0 where
  pub id : Option Bytes
  pub model : Bytes
  pub created : ℤ
  pub choices : List ChatStreamChoice
  pub usage : Option Json

pub record CollapsedTool : Type 0 where
  pub id : Bytes
  pub name : Bytes
  pub args : Bytes

pub record Accumulator : Type 0 where
  pub id : Bytes
  pub model : Bytes
  pub created : ℤ
  pub content : Bytes
  pub reasoning : Bytes
  pub tools : List (ℤ × CollapsedTool)
  pub finish : Bytes
  pub usage : Option Fields
  pub first_token : Option ℕ

abbrev pub empty_accumulator : Accumulator
empty_accumulator = record {
  id = [];
  model = [];
  created = pos 0;
  content = [];
  reasoning = [];
  tools = [];
  finish = [];
  usage = none;
  first_token = none;
}

-- A pointer to a text: the text, and nothing for nil.
abbrev pub text_of : Option Bytes → Bytes
text_of none = []
text_of (some s) = s

abbrev pub is_blank : Bytes → Bool
is_blank [] = true
is_blank (c ∷ s) = false

-- The text that a name becomes by one more fragment.
pub write_merged_name : Bytes → Bytes → Bytes
write_merged_name current fragment =
    if is_blank current
    then fragment
    else if fragment == current
    then current
    else if has_prefix fragment current
    then fragment
    else current ++ fragment

abbrev pub empty_tool : CollapsedTool
empty_tool = record { id = []; name = []; args = [] }

abbrev pub tool_or_empty : Option CollapsedTool → CollapsedTool
tool_or_empty none = empty_tool
tool_or_empty (some t) = t

pub extend_tool : ChatDeltaTool → CollapsedTool → CollapsedTool
extend_tool raw t = record {
  id = if is_blank raw.id then t.id else raw.id;
  name = if is_blank raw.name then t.name else write_merged_name t.name raw.name;
  args = t.args ++ raw.arguments;
}

abbrev pub tool_index : ChatDeltaTool → List (ℤ × CollapsedTool) → ℤ
tool_index raw tools = elim raw.index [ none ↦ pos (length tools) | some i ↦ i ]

pub consume_tool : ChatDeltaTool → List (ℤ × CollapsedTool) → List (ℤ × CollapsedTool)
consume_tool raw tools =
    let i = tool_index raw tools in
    insert i (extend_tool raw (tool_or_empty (lookup i tools))) tools

pub consume_tools : List ChatDeltaTool → List (ℤ × CollapsedTool) → List (ℤ × CollapsedTool)
consume_tools [] tools = tools
consume_tools (raw ∷ rest) tools = consume_tools rest (consume_tool raw tools)

-- The reasoning that a delta adds: the current field, or else the legacy one.
abbrev pub delta_reasoning : ChatStreamDelta → Bytes
delta_reasoning d =
    if is_blank (text_of d.reasoning) then text_of d.reasoning_legacy else text_of d.reasoning

abbrev pub has_no_tools : List ChatDeltaTool → Bool
has_no_tools [] = true
has_no_tools (raw ∷ rest) = false

abbrev pub delta_seen : ChatStreamDelta → Bool
delta_seen d =
    not (is_blank (text_of d.content))
    || not (is_blank (delta_reasoning d))
    || not (has_no_tools d.tool_calls)

abbrev pub mark_first_token : ℕ → Option ℕ → Option ℕ
mark_first_token elapsed none = some elapsed
mark_first_token elapsed (some latency) = some latency

-- `elapsed` is the time since the request began.
pub consume_delta : ℕ → ChatStreamDelta → Accumulator → Accumulator
consume_delta elapsed d acc = record acc {
  content = acc.content ++ text_of d.content;
  reasoning = acc.reasoning ++ delta_reasoning d;
  tools = consume_tools d.tool_calls acc.tools;
  first_token = if delta_seen d then mark_first_token elapsed acc.first_token else acc.first_token;
}

abbrev pub sets_finish : Option Bytes → Bool
sets_finish reason = not (is_blank (text_of reason)) && not (text_of reason == codes "null")

pub consume_choices : ℕ → List ChatStreamChoice → Accumulator → Accumulator
consume_choices elapsed [] acc = acc
consume_choices elapsed (c ∷ rest) acc =
    let finish = if sets_finish c.finish_reason then text_of c.finish_reason else acc.finish in
    consume_choices elapsed rest (consume_delta elapsed c.delta (record acc { finish = finish }))

-- The usage of an event that replaces the one before: an object that is not empty.
abbrev pub usage_of : Option Json → Option Fields → Option Fields
usage_of (some (obj (field k v m))) old = some (field k v m)
usage_of _ old = old

abbrev pub is_zero : ℤ → Bool
is_zero i = int_eqb i (pos 0)

pub consume : ℕ → StreamEvent → Accumulator → Accumulator
consume elapsed e acc = consume_choices elapsed e.choices (record acc {
  model = if is_blank acc.model then e.model else acc.model;
  created = if is_zero acc.created then e.created else acc.created;
  id = if is_blank acc.id then text_of e.id else acc.id;
  usage = usage_of e.usage acc.usage;
})

-- One line that the scanner hands out, with the time at which it is consumed, and whether reading has failed
-- by then: a read can give bytes and an error, and the lines among the bytes still come.
pub record TimedLine : Type 0 where
  pub line : Bytes
  pub elapsed : ℕ
  pub failed : Bool

pub data LineKind : Type 0 where
  skipped done : LineKind
  payload_of : Bytes → LineKind

pub classify_line : Bytes → LineKind
classify_line raw =
    let line = trim_space raw in
    let payload = trim_space (trim_prefix line (codes "data:")) in
    if not (has_prefix line (codes "data:"))
    then skipped
    else if is_blank payload
    then skipped
    else if payload == codes "[DONE]"
    then done
    else payload_of payload

-- How the loop ends: at the end of the lines or by the end marker, with the number of events and whether
-- reading has failed by the time of the marker, or by an event that is no JSON.
pub data Drained : Type 0 where
  at_end : Accumulator → ℕ → Drained
  at_done : Bool → Accumulator → ℕ → Drained
  bad_event : Drained

pub drain : (Bytes → Option StreamEvent) → List TimedLine → Accumulator → ℕ → Drained
drain decode [] acc events = at_end acc events
drain decode (l ∷ rest) acc events = elim (classify_line l.line) [
  | skipped ↦ drain decode rest acc events
  | done ↦ at_done l.failed acc events
  | payload_of payload ↦ elim (decode payload) [
    | none ↦ bad_event
    | some e ↦ drain decode rest (consume l.elapsed e acc) (suc events)
  ]
]

pub record ChatCompletion : Type 0 where
  pub id : Bytes
  pub created : ℤ
  pub model : Bytes
  pub content : Bytes
  -- Left out of the document if it is empty.
  pub reasoning_content : Option Bytes
  pub tool_calls : List CollapsedTool
  pub finish_reason : Bytes
  pub usage : Option Fields

abbrev pub or_else : Bytes → Bytes → Bytes
or_else s fallback = if is_blank s then fallback else s

-- `fresh_id` and `now` are what the clock gives for a document with no id or time.
pub encode : Bytes → ℤ → Bytes → Accumulator → ChatCompletion
encode fresh_id now fallback_model acc = record {
  id = or_else acc.id fresh_id;
  created = if is_zero acc.created then now else acc.created;
  model = or_else acc.model fallback_model;
  content = acc.content;
  reasoning_content = if is_blank acc.reasoning then none else some acc.reasoning;
  tool_calls = map (λ entry. entry.1) acc.tools;
  finish_reason = or_else acc.finish (codes "stop");
  usage = acc.usage;
}

pub data Collapsed : Type 0 where
  completion : ChatCompletion → Option ℕ → Collapsed
  invalid_event read_failed no_events : Collapsed

-- Behind the loop: `scanner.Err()`, then the number of events.
abbrev pub finish_collapse : Bytes → ℤ → Bytes → Bool → Accumulator → ℕ → Collapsed
finish_collapse fresh_id now fallback failed acc events =
    if failed
    then read_failed
    else if events == 0
    then no_events
    else completion (encode fresh_id now fallback acc) acc.first_token

-- What `collapseChatCompletionStream` returns behind its loop; `read_error` says whether reading has failed
-- by the time the lines are at an end.
pub finish_stream : Bytes → ℤ → Bytes → Bool → Drained → Collapsed
finish_stream fresh_id now fallback read_error bad_event = invalid_event
finish_stream fresh_id now fallback read_error (at_done failed acc events) =
    finish_collapse fresh_id now fallback failed acc events
finish_stream fresh_id now fallback read_error (at_end acc events) =
    finish_collapse fresh_id now fallback read_error acc events

pub collapse_stream :
    (Bytes → Option StreamEvent) → Bytes → ℤ → Bytes → List TimedLine → Bool → Collapsed
collapse_stream decode fresh_id now fallback lines read_error =
    finish_stream fresh_id now fallback read_error (drain decode lines empty_accumulator 0)
