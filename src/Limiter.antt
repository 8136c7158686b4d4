-- ===== src/Limiter.antt =====
-- The rate limiter of client keys, cmd/server/client_keys.go: sliding windows of one minute over
-- requests and tokens, in 64 shards. Times are nanoseconds since Go's zero time; a token total is an
-- int64, kept as its bit pattern below 2 ^ 64.
pub mod Window
pub mod Refinement
pub mod Bound
pub mod Shards
mod Tests
use opencode_rush_free.Base.{
  Bool, Bytes, List, Option, [], bytes_eq, drop, false, filter, get_elem?, if◌then◌else◌, insert,
  leb, length, lookup, ltb, nat_eq, none, some, string_eq, suc, true, ℕ, ◌%◌, ◌&&◌, ◌*◌, ◌++◌, ◌+◌,
  ◌-◌, ◌/◌, ◌==◌, ◌^◌, ◌∷◌,
}
use opencode_rush_free.Base.Int.{ℤ, pos, ◌-ℤ◌}

pub record ClientKey : Type 0 where
  pub id : ℕ
  pub name : Bytes
  pub hint : Bytes
  pub enabled : Bool
  pub expires_at : Option ℕ
  pub rpm_limit : ℕ
  pub tpm_limit : ℕ
  pub last_used_at : Option ℕ
  pub created_at : ℕ

pub record TokenSample : Type 0 where
  pub at : ℕ
  pub value : ℕ

pub record KeyWindow : Type 0 where
  pub requests : List ℕ
  pub request_head : ℕ
  pub tokens : List TokenSample
  pub token_head : ℕ
  pub token_total : ℕ
  pub last_at : ℕ

pub record LimiterShard : Type 0 where
  pub windows : List (ℕ × KeyWindow)
  pub last_cleanup : ℕ

-- The array of 64 shards, by index.
pub record ClientKeyLimiter : Type 0 where
  pub shards : ℕ → LimiterShard

abbrev pub second : ℕ
second = 1000000000

abbrev pub minute : ℕ
minute = 60 * second

abbrev pub word : ℕ
word = 2 ^ 64

abbrev pub max_int64 : ℕ
max_int64 = 2 ^ 63

-- int64 addition and subtraction on bit patterns.
abbrev pub add64 : ℕ → ℕ → ℕ
add64 a b = (a + b) % word

abbrev pub sub64 : ℕ → ℕ → ℕ
sub64 a b = (a + word - b % word) % word

-- `a >= b` for the int64 with pattern `a` and a limit `b` that is not negative.
abbrev pub reaches64 : ℕ → ℕ → Bool
reaches64 a b = ltb a max_int64 && leb b a

abbrev pub empty_window : KeyWindow
empty_window = record {
  requests = [];
  request_head = 0;
  tokens = [];
  token_head = 0;
  token_total = 0;
  last_at = 0;
}

pub new_client_key_limiter : ClientKeyLimiter
new_client_key_limiter = record { shards = λ i. record { windows = []; last_cleanup = 0 } }

pub data LimitCode : Type 0 where
  key_rpm_limit key_tpm_limit : LimitCode

-- `panics` is an index out of range, which Go would meet in `w.requests[w.requestHead]`.
pub data Decision : Type 0 where
  allowed : Decision
  limited : ℤ → LimitCode → Decision
  panics : Decision

-- `!t.After(cutoff)` for a cutoff one minute before `now`.
abbrev pub is_old : ℕ → ℕ → Bool
is_old now t = leb (t + minute) now

-- The first loop of `allow`, over the entries from `requestHead` on.
pub skip_requests : ℕ → List ℕ → ℕ → ℕ
skip_requests now [] head = head
skip_requests now (t ∷ rest) head = if is_old now t then skip_requests now rest (suc head) else head

-- The second loop, which also takes the values out of the total.
pub skip_tokens : ℕ → List TokenSample → ℕ → ℕ → ℕ × ℕ
skip_tokens now [] head total = (head, total)
skip_tokens now (s ∷ rest) head total =
    let next = skip_tokens now rest (suc head) (sub64 total s.value) in
    if is_old now s.at then next else (head, total)

pub prune : ℕ → KeyWindow → KeyWindow
prune now w =
    let (head, total) = skip_tokens now (drop w.token_head w.tokens) w.token_head w.token_total in
    record w {
      request_head = skip_requests now (drop w.request_head w.requests) w.request_head;
      token_head = head;
      token_total = total;
      last_at = now;
    }

-- `time.Until` of one minute after a sample; `later` is the clock when it is read again.
abbrev pub until_minute_after : ℕ → Option ℕ → LimitCode → Decision
until_minute_after later none code = panics
until_minute_after later (some t) code = limited (pos (t + minute) -ℤ pos later) code

abbrev pub sample_time : Option TokenSample → Option ℕ
sample_time none = none
sample_time (some s) = some s.at

pub decide_window : ClientKey → ℕ → KeyWindow → Decision
decide_window key later w =
    if ltb 0 key.rpm_limit && leb key.rpm_limit (length w.requests - w.request_head)
    then until_minute_after later (get_elem? w.requests w.request_head) key_rpm_limit
    else if ltb 0 key.tpm_limit && reaches64 w.token_total key.tpm_limit
    then until_minute_after later (sample_time (get_elem? w.tokens w.token_head)) key_tpm_limit
    else allowed

abbrev pub mostly_dead : ℕ → ℕ → Bool
mostly_dead head len = ltb 128 head && leb len (head * 2)

-- The append, and the copies that drop the dead front of a slice.
pub admit : ℕ → KeyWindow → KeyWindow
admit now w =
    let requests = w.requests ++ (now ∷ []) in
    let dead = mostly_dead w.request_head (length requests) in
    let dead_tokens = mostly_dead w.token_head (length w.tokens) in
    record w {
      requests = if dead then drop w.request_head requests else requests;
      request_head = if dead then 0 else w.request_head;
      tokens = if dead_tokens then drop w.token_head w.tokens else w.tokens;
      token_head = if dead_tokens then 0 else w.token_head;
    }

-- The window's part of `allow`.
pub allow_window : ClientKey → ℕ → ℕ → KeyWindow → KeyWindow × Decision
allow_window key now later w =
    let w' = prune now w in
    elim (decide_window key later w') [
      | allowed ↦ (admit now w', allowed)
      | limited wait code ↦ (w', limited wait code)
      | panics ↦ (w', panics)
    ]

abbrev pub is_idle : ℕ → KeyWindow → Bool
is_idle now w =
    leb (w.last_at + 5 * minute) now
    && leb (length w.requests) w.request_head
    && leb (length w.tokens) w.token_head

-- The removal of idle windows, done at most once in five minutes, in a shard with over 1024 keys.
pub clean_up : ℕ → LimiterShard → LimiterShard
clean_up now s =
    if ltb 1024 (length s.windows) && leb (s.last_cleanup + 5 * minute) now
    then record {
      windows = filter (λ item. if is_idle now item.1 then false else true) s.windows;
      last_cleanup = now;
    }
    else s

abbrev pub window_or_new : Option KeyWindow → KeyWindow
window_or_new none = empty_window
window_or_new (some w) = w

pub put_window : ℕ → KeyWindow → LimiterShard → LimiterShard
put_window id w s = record s { windows = insert id w s.windows }

pub allow_shard : ClientKey → ℕ → ℕ → LimiterShard → LimiterShard × Decision
allow_shard key now later s =
    let (w, d) = allow_window key now later (window_or_new (lookup key.id s.windows)) in
    let s' = put_window key.id w s in
    elim d [
      | allowed ↦ (clean_up now s', allowed)
      | limited wait code ↦ (s', limited wait code)
      | panics ↦ (s', panics)
    ]

pub put_shard : ℕ → LimiterShard → ClientKeyLimiter → ClientKeyLimiter
put_shard i s l = record { shards = λ j. if i == j then s else l.shards j }

unfoldable pub allow : ClientKeyLimiter → ClientKey → ℕ → ℕ → ClientKeyLimiter × Decision
allow l key now later =
    if key.rpm_limit == 0 && key.tpm_limit == 0
    then (l, allowed)
    else let (s, d) = allow_shard key now later (l.shards (key.id % 64)) in
      (put_shard (key.id % 64) s l, d)

pub record_window : ℕ → ℕ → KeyWindow → KeyWindow
record_window total now w = record w {
  tokens = w.tokens ++ (record { at = now; value = total } ∷ []);
  token_total = add64 w.token_total total;
  last_at = now;
}

-- `usage` is the field `Total` of the token usage; its absence stands for a nil pointer on the way.
pub record_tokens : ClientKeyLimiter → ℕ → Option ℤ → ℕ → ClientKeyLimiter
record_tokens l id (some (pos (suc n))) now =
    let s = l.shards (id % 64) in
    let w = record_window (suc n) now (window_or_new (lookup id s.windows)) in
    if id == 0 then l else put_shard (id % 64) (put_window id w s) l
record_tokens l id _ now = l

-- `int(retryAfter.Round(time.Second).Seconds())`, at least 1: the Retry-After header of a refusal.
-- `Round` rounds halves away from zero, so all waits below half a second give 1.
unfoldable pub retry_seconds : ℤ → ℕ
retry_seconds (pos n) =
    let seconds = (n + 500000000) / second in if ltb seconds 1 then 1 else seconds
retry_seconds _ = 1
