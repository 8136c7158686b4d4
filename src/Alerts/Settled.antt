-- ===== src/Alerts/Settled.antt =====
-- When the dispatcher of cmd/server/alerts.go is done with the alerts.
use opencode_rush_free.Base.{
  Bool, List, [], false, filter, if◌then◌else◌, leb, length, suc, ℕ, ◌*◌, ◌+◌, ◌∷◌, ◌≡◌, ◌≤◌, ◌⊎◌,
}
use opencode_rush_free.Pool.{minute, stored}
use opencode_rush_free.Alerts.{
  AlertEvent, AlertSettings, max_attempts, attempt_alert, is_pending, is_due, deliver_due,
}

-- A run of the dispatcher: its time, and which webhook calls are delivered.
abbrev pub Tick : Type 0
Tick = ℕ × (ℕ → Bool)

-- The runs of `run`, one after the other.
unfoldable pub deliver_all : AlertSettings → List Tick → List AlertEvent → List AlertEvent
unfolding deliver_due
deliver_all settings [] es = es
deliver_all settings ((now, answers) ∷ ticks) es =
    deliver_all settings ticks (deliver_due settings now answers es)

-- The longest delay of a retry.
abbrev pub half_hour : ℕ
half_hour = 30 * minute

-- The runs from the deadline on that are at least half an hour apart; those in between do not count.
abbrev pub spaced : ℕ → List Tick → ℕ
spaced deadline [] = 0
spaced deadline ((now, answers) ∷ ticks) =
    let later = spaced (now + half_hour) ticks in
    let others = spaced deadline ticks in if leb deadline now then suc later else others

abbrev pub pending_count : List AlertEvent → ℕ
pending_count es = length (filter (λ (e : AlertEvent). is_pending e.status) es)

-- What a run does to one event, if the batch has room for it.
tick_event : ℕ → (ℕ → Bool) → AlertEvent → AlertEvent
tick_event now answers e = if is_due now e then attempt_alert now (answers e.id) e else e

-- An event that is settled, or due by the deadline with as many runs left as attempts, or one that was attempted
-- before the deadline and has a run more.
OnTrack : ℕ → ℕ → AlertEvent → Type 0
OnTrack deadline runs e =
    (is_pending e.status ≡ false)
    ⊎ ((max_attempts ≤ runs + e.attempts) × (e.next_attempt_at ≤ stored deadline))
    ⊎ ((suc max_attempts ≤ runs + e.attempts) × (e.next_attempt_at ≤ stored (deadline + half_hour)))
