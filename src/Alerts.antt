-- ===== src/Alerts.antt =====
-- The outbox of alerts, cmd/server/alerts.go. A time is a number of nanoseconds; the database keeps whole
-- seconds. The statements of the database do not fail here, and the events stand in the order of their ids.
use opencode_rush_free.Base.{
  Bool, Bytes, List, [], any, bytes_eq, bytes_eqb, false, filter, if◌then◌else◌, leb, length, ltb,
  nat_eq, not, string_eq, suc, true, zero, ℕ, ◌&&◌, ◌*◌, ◌++◌, ◌+◌, ◌-◌, ◌==◌, ◌||◌, ◌∷◌,
}
use opencode_rush_free.Pool.{minute, stored}
pub mod Delivery
pub mod Settled
mod Tests

pub data AlertStatus : Type 0 where
  pending delivered failed : AlertStatus

pub record AlertEvent : Type 0 where
  pub id : ℕ
  pub dedupe_key : Bytes
  pub status : AlertStatus
  pub attempts : ℕ
  pub next_attempt_at : ℕ
  pub created_at : ℕ

pub record AlertSettings : Type 0 where
  pub enabled : Bool
  pub webhook_url : Bytes
  pub events : List Bytes

unfoldable pub event_enabled : AlertSettings → Bytes → Bool
event_enabled settings event = any (λ candidate. candidate == event) settings.events

-- `SELECT COUNT(*) ... WHERE dedupe_key=? AND created_at>=?`.
abbrev pub existing_events : Bytes → ℕ → List AlertEvent → ℕ
existing_events key since events =
    length (filter (λ e. e.dedupe_key == key && leb since e.created_at) events)

-- The row of the new event has the id `fresh`.
unfoldable pub emit_alert : AlertSettings → ℕ → Bytes → ℕ → List AlertEvent → List AlertEvent
emit_alert settings now event_type fresh events =
    if not settings.enabled || not (event_enabled settings event_type)
    then events
    else if ltb 0 (existing_events event_type (stored (now - 15 * minute)) events)
    then events
    else events
      ++ (record {
        id = fresh;
        dedupe_key = event_type;
        status = pending;
        attempts = 0;
        next_attempt_at = stored now;
        created_at = stored now;
      }
          ∷ [])

-- `delays[attempts-1]`.
unfoldable pub retry_delay : ℕ → ℕ
retry_delay (suc zero) = minute
retry_delay (suc (suc zero)) = 5 * minute
retry_delay _ = 30 * minute

abbrev pub max_attempts : ℕ
max_attempts = 4

-- One POST, which a 2xx answer delivers.
unfoldable pub attempt_alert : ℕ → Bool → AlertEvent → AlertEvent
attempt_alert now true e = record e { status = delivered; attempts = e.attempts + 1 }
attempt_alert now false e =
    let attempts = e.attempts + 1 in
    if leb max_attempts attempts
    then record e { status = failed; attempts = attempts }
    else record e { attempts = attempts; next_attempt_at = stored (now + retry_delay attempts) }

abbrev pub is_pending : AlertStatus → Bool
is_pending pending = true
is_pending _ = false

abbrev pub is_due : ℕ → AlertEvent → Bool
is_due now e = is_pending e.status && leb e.next_attempt_at (stored now)

-- At most `left` events that are due; `answers` says which webhook calls are delivered.
unfoldable pub deliver_batch : ℕ → ℕ → (ℕ → Bool) → List AlertEvent → List AlertEvent
deliver_batch left now answers [] = []
deliver_batch zero now answers (e ∷ es) = e ∷ es
deliver_batch (suc left) now answers (e ∷ es) =
    let others = deliver_batch (suc left) now answers es in
    let rest = deliver_batch left now answers es in
    if is_due now e then attempt_alert now (answers e.id) e ∷ rest else e ∷ others

unfoldable pub deliver_due : AlertSettings → ℕ → (ℕ → Bool) → List AlertEvent → List AlertEvent
deliver_due settings now answers events =
    if not settings.enabled || bytes_eqb settings.webhook_url []
    then events
    else deliver_batch 20 now answers events
