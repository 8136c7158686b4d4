-- ===== src/Alerts/Tests.antt =====
-- An alert whose webhook never answers.
use opencode_rush_free.Base.{All, List, [], arith, codes, false, true, ◌*◌, ◌+◌, ◌∷◌}
use opencode_rush_free.Alerts.{AlertEvent, pending, AlertSettings, deliver_due}
use opencode_rush_free.Alerts.Settled.{Tick, half_hour}
use opencode_rush_free.Pool.{minute}
use opencode_rush_free.Limiter.{second}
use opencode_rush_free.Alerts.Delivery.{AlertInv, deliver_due-AlertInv}

abbrev event : AlertEvent
event = record {
  id = 1;
  dedupe_key = codes "resin_unavailable";
  status = pending;
  attempts = 0;
  next_attempt_at = 0;
  created_at = 0;
}

abbrev settings : AlertSettings
settings = record { enabled = true; webhook_url = codes "https://example.org"; events = [] }

-- Runs at once, a minute later, and then every half an hour.
abbrev ticks : List Tick
ticks =
    (second, λ id. false)
    ∷ (second + minute, λ id. false)
    ∷ (second + half_hour, λ id. false)
    ∷ (second + 2 * half_hour, λ id. false)
    ∷ (second + 3 * half_hour, λ id. false)
    ∷ []

deliver_due-AlertInv_example : All AlertInv (deliver_due settings 5 (λ id. false) (event ∷ []))
deliver_due-AlertInv_example =
    deliver_due-AlertInv settings 5 (λ id. false) (event ∷ []) (omega arith, tt)
