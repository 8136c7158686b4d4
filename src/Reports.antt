-- ===== src/Reports.antt =====
-- How errors are worded in the records of requests and probes, cmd/server/main.go. Texts are ASCII; decoding
-- JSON is an argument.
use opencode_rush_free.Base.{
  Bytes, List, Option, String, [], bytes_eq, bytes_eqb, codes, contains, if◌then◌else◌, is_space,
  leb, length, ltb, nat_eq, none, not, some, string_eq, take, to_lower, trim_space, ℕ, ◌++◌, ◌+◌,
  ◌==◌, ◌||◌, ◌∷◌,
}
use opencode_rush_free.Proxy.{GoError}
pub mod Words
mod Tests

abbrev pub word_before : Bytes → List Bytes → List Bytes
word_before current words = if current == [] then words else current ∷ words

-- `strings.Fields`, with the word that is being read.
unfoldable pub fields_from : Bytes → Bytes → List Bytes
unfolding bytes_eqb
fields_from current [] = word_before current []
fields_from current (c ∷ s) =
    let next = fields_from [] s in
    let same = fields_from (current ++ (c ∷ [])) s in
    if is_space c then word_before current next else same

-- `strings.Join(words, " ")`.
unfoldable pub join_words : List Bytes → Bytes
join_words [] = []
join_words (w ∷ []) = w
join_words (w ∷ (v ∷ words)) = w ++ (32 ∷ join_words (v ∷ words))

unfoldable pub truncate_error : Bytes → Bytes
unfolding fields_from join_words
truncate_error s =
    let text = join_words (fields_from [] s) in
    if ltb 500 (length text) then take 500 text else text

-- What `upstreamErrorSummary` decodes from a body: no object with an error, an error that is no object, or
-- the error's message and type.
pub data ErrorBody : Type 0 where
  no_error other_error : ErrorBody
  detailed : Bytes → Bytes → ErrorBody

unfoldable pub summary_of : Bytes → ErrorBody → Bytes
unfolding truncate_error
summary_of trimmed no_error = truncate_error trimmed
summary_of trimmed other_error = truncate_error trimmed
summary_of trimmed (detailed message kind) =
    if not (message == [])
    then truncate_error message
    else if not (kind == [])
    then truncate_error kind
    else truncate_error trimmed

unfoldable pub upstream_error_summary : (Bytes → ErrorBody) → Bytes → Bytes
unfolding summary_of trim_space
upstream_error_summary decode body =
    let trimmed = trim_space body in if trimmed == [] then [] else summary_of trimmed (decode body)

abbrev pub or_else : Bytes → Bytes → Bytes
or_else s other = if s == [] then other else s

abbrev pub read_problem : Option Bytes → Bytes
read_problem none = []
read_problem (some message) = message

-- `readRetryResponse`: the summary of the first 4096 bytes, or the error of reading them.
unfoldable pub read_retry_response : (Bytes → ErrorBody) → Bytes → Option Bytes → Bytes
unfolding upstream_error_summary
read_retry_response decode body problem =
    or_else (upstream_error_summary decode (take 4096 body)) (read_problem problem)

unfoldable pub gateway_attempt_reason : ℕ → Option GoError → String
unfolding contains to_lower
gateway_attempt_reason status (some e) =
    if e.canceled
    then "client_cancelled"
    else if e.deadline_exceeded
        || contains (to_lower e.message) (codes "timeout awaiting response headers")
    then "header_timeout"
    else "transport_error"
gateway_attempt_reason status none =
    if status == 401
    then "unauthorized"
    else if status == 429
    then "rate_limit"
    else if status == 0
    then "transport_error"
    else if leb 400 status
    then "upstream_error"
    else "success"

-- `strings.Cut(username, ".")`, of which the second part.
unfoldable pub account_part : Bytes → Option Bytes
account_part [] = none
account_part (c ∷ s) = let rest = account_part s in if c == 46 then some s else rest

abbrev pub shortened : Option Bytes → Bytes
shortened none = []
shortened (some account) = if account == [] then [] else take 8 account ++ codes "****"

unfoldable pub resin_account_hint : Bytes → Bytes
unfolding account_part
resin_account_hint username = shortened (account_part username)

-- An entry of `attempt_summary`, where `none` and an empty text are absent keys.
pub record AttemptEntry : Type 0 where
  pub attempt : ℕ
  pub engine : String
  pub proxy : Bytes
  pub reason : String
  pub status_code : Option ℕ
  pub account : Bytes
  pub message : Bytes

unfoldable pub entry_message : Bytes → Option GoError → Bytes
unfolding truncate_error
entry_message message none = truncate_error message
entry_message message (some e) = or_else (truncate_error message) (truncate_error e.message)

unfoldable pub gateway_attempt :
    ℕ → String → Bytes → Bytes → ℕ → Option GoError → Bytes → AttemptEntry
unfolding entry_message gateway_attempt_reason resin_account_hint
gateway_attempt index engine uri username status e message = record {
  attempt = index + 1;
  engine = engine;
  proxy = uri;
  reason = gateway_attempt_reason status e;
  status_code = if status == 0 then none else some status;
  account = resin_account_hint username;
  message = entry_message message e;
}
