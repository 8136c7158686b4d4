-- ===== src/Login.antt =====
-- The lock on failed logins of the administrator, cmd/server/main.go. A time is a number of
-- nanoseconds, and Go's zero time is `none`, which lies farther back than any window.
use opencode_rush_free.Base.{
  Bool, Bytes, List, Option, bytes_eq, delete, false, filter, if◌then◌else◌, insert, leb, length,
  lookup, ltb, nat_eq, none, not, some, string_eq, suc, true, ℕ, ◌&&◌, ◌*◌, ◌+◌, ◌-◌,
}
use opencode_rush_free.Limiter.{second}
mod Lock
pub mod Admin
mod Tests

pub record LoginAttempt : Type 0 where
  pub window_start : Option ℕ
  pub failures : ℕ
  pub blocked_until : Option ℕ

abbrev pub login_window : ℕ
login_window = 15 * 60 * second

abbrev pub block_for : ℕ
block_for = 15 * 60 * second

abbrev pub max_failures : ℕ
max_failures = 5

-- `now.Sub(t) > window`; a negative difference is not.
abbrev pub window_over : ℕ → Option ℕ → Bool
window_over now none = true
window_over now (some t) = ltb login_window (now - t)

-- `t.After(now)`.
abbrev pub is_after : Option ℕ → ℕ → Bool
is_after none now = false
is_after (some t) now = ltb now t

-- `time.Until`, at the same instant.
abbrev pub time_until : ℕ → Option ℕ → ℕ
time_until now none = 0
time_until now (some t) = t - now

abbrev pub is_stale : ℕ → Bytes × LoginAttempt → Bool
is_stale now (ip, a) = window_over now a.window_start && not (is_after a.blocked_until now)

unfoldable pub retry_of :
    ℕ → Bytes → List (Bytes × LoginAttempt) → Option LoginAttempt → ℕ × List (Bytes × LoginAttempt)
retry_of now ip m none = (0, m)
retry_of now ip m (some a) =
    if is_after a.blocked_until now
    then (time_until now a.blocked_until, m)
    else if window_over now a.window_start
    then (0, delete ip m)
    else (0, m)

-- The wait in nanoseconds, and the attempts that are kept.
unfoldable pub login_retry_after :
    ℕ → Bytes → List (Bytes × LoginAttempt) → ℕ × List (Bytes × LoginAttempt)
login_retry_after now ip m =
    let kept = if ltb 1024 (length m) then filter (λ e. not (is_stale now e)) m else m in
    retry_of now ip kept (lookup ip kept)

abbrev pub attempt_or_zero : Option LoginAttempt → LoginAttempt
attempt_or_zero none = record { window_start = none; failures = 0; blocked_until = none }
attempt_or_zero (some a) = a

-- A window that is over starts anew.
abbrev pub window_at : ℕ → LoginAttempt → LoginAttempt
window_at now a =
    if window_over now a.window_start
    then record { window_start = some now; failures = 0; blocked_until = none }
    else a

abbrev pub one_more : ℕ → LoginAttempt → LoginAttempt
one_more now a = record {
  window_start = a.window_start;
  failures = suc a.failures;
  blocked_until =
      if leb max_failures (suc a.failures) then some (now + block_for) else a.blocked_until;
}

unfoldable pub record_login_failure :
    ℕ → Bytes → List (Bytes × LoginAttempt) → List (Bytes × LoginAttempt)
record_login_failure now ip m =
    insert ip (one_more now (window_at now (attempt_or_zero (lookup ip m)))) m

unfoldable pub clear_login_failures :
    Bytes → List (Bytes × LoginAttempt) → List (Bytes × LoginAttempt)
clear_login_failures ip m = delete ip m
