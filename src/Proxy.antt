-- ===== src/Proxy.antt =====
-- Proxies and the errors of requests through them, cmd/server/main.go and cmd/server/proxy_runtime.go.
-- A proxy record has the fields that the modelled code reads. A Go error is its message and what
-- `errors.Is` finds in its chain.
use opencode_rush_free.Base.{
  Bool, Bytes, Option, String, bytes_eq, codes, contains, false, if◌then◌else◌, leb, ltb, nat_eq,
  none, some, string_eq, suc, to_lower, ℕ, ◌%◌, ◌&&◌, ◌*◌, ◌==◌, ◌||◌,
}
use opencode_rush_free.Base.Int.{ℤ, pos}
use opencode_rush_free.Limiter.{second, word, max_int64}

pub record ProxyRecord : Type 0 where
  pub id : ℕ
  pub uri : Bytes
  pub username : Bytes
  pub password : Bytes
  pub enabled : Bool
  pub health_status : String
  pub failure_count : ℕ
  pub cooldown_until : Option ℕ
  pub expires_at : Option ℕ

pub record GoError : Type 0 where
  pub canceled : Bool
  pub deadline_exceeded : Bool
  pub message : Bytes

-- `errors.New`.
abbrev pub new_error : Bytes → GoError
new_error m = record { canceled = false; deadline_exceeded = false; message = m }

unfoldable pub is_proxy_transport_error : GoError → Bool
is_proxy_transport_error e =
    let lower = to_lower e.message in
    e.deadline_exceeded
    || contains lower (codes "proxyconnect")
    || contains lower (codes "connect")
    || contains lower (codes "timeout")

unfoldable pub retryable_upstream_status : ℕ → Bool
retryable_upstream_status status =
    status == 408
    || status == 401
    || status == 429
    || status == 500
    || status == 502
    || status == 503
    || status == 504

-- A delay as an int64 pattern, cut off at two seconds; a negative one is not cut and waits not at all.
abbrev pub capped_delay : ℕ → ℕ
capped_delay d = if leb max_int64 d then 0 else if ltb (2 * second) d then 2 * second else d

-- The Retry-After header as `strconv.Atoi` reads it, trimmed; `none` if it is absent or no number.
-- `time.Duration(seconds) * time.Second` wraps around as an int64.
unfoldable pub retry_after_delay : Option ℤ → ℕ → ℕ
retry_after_delay (some (pos (suc n))) attempt = capped_delay ((suc n * second) % word)
retry_after_delay _ attempt = if ltb 0 attempt then 300000000 else 100000000

-- The free-tier and region rejections of an exit. The body is read up to 4096 bytes; `none` is an
-- error of that reading, or a response with no body.
unfoldable pub disqualified_exit_response : ℕ → Option Bytes → Bool
disqualified_exit_response status none = false
disqualified_exit_response status (some body) =
    status == 403
    && (contains body (codes "FreeTierError")
        || contains body (codes "not available in your country"))
