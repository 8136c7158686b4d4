-- ===== src/Alerts/Delivery.antt =====
-- How often an alert is sent, cmd/server/alerts.go.
use opencode_rush_free.Base.{
  All, Bool, List, [], arith, bytes_eqb, false, if_cases, leb, not, refl, subst, suc, sym, true,
  zero, ℕ, ◌+◌, ◌<◌, ◌||◌, ◌∷◌, ◌≡◌, ◌≤◌,
}
use opencode_rush_free.Alerts.{
  AlertStatus, pending, delivered, failed, AlertEvent, AlertSettings, max_attempts, attempt_alert,
  is_pending, is_due, deliver_batch, deliver_due,
}

-- A pending event has attempts left, and a failed one has used up all.
abbrev pub Attempted : AlertStatus → ℕ → Type 0
Attempted pending n = n < max_attempts
Attempted delivered n = (1 ≤ n) × (n ≤ max_attempts)
Attempted failed n = n ≡ max_attempts

abbrev pub AlertInv : AlertEvent → Type 0
AlertInv e = Attempted e.status e.attempts

pub attempt_alert-AlertInv :
    (now : ℕ) (ok : Bool) (e : AlertEvent)
    → e.attempts < max_attempts
    → e.status ≡ pending
    → AlertInv (attempt_alert now ok e)
unfolding attempt_alert
attempt_alert-AlertInv now true e h p = (omega arith, omega arith)
attempt_alert-AlertInv now false e h p =
    if_cases AlertInv (leb max_attempts (e.attempts + 1)) (λ t. ground arith)
      (λ f. subst (λ s. Attempted s (e.attempts + 1)) (sym p) (ground arith))

pub pending_of : (s : AlertStatus) → is_pending s ≡ true → s ≡ pending
pending_of pending h = refl
pending_of delivered h = cc
pending_of failed h = cc

pub due-AlertInv :
    (now : ℕ) (ok : Bool) (e : AlertEvent)
    → is_due now e ≡ true
    → AlertInv e
    → AlertInv (attempt_alert now ok e)
due-AlertInv now ok e d h =
    let p = pending_of e.status (ground arith) in
    attempt_alert-AlertInv now ok e (subst (λ s. Attempted s e.attempts) p h) p

deliver_batch-AlertInv :
    (left now : ℕ) (answers : ℕ → Bool) (es : List AlertEvent)
    → All AlertInv es
    → All AlertInv (deliver_batch left now answers es)
unfolding deliver_batch
deliver_batch-AlertInv left now answers [] h = tt
deliver_batch-AlertInv zero now answers (e ∷ es) h = h
deliver_batch-AlertInv (suc left) now answers (e ∷ es) h =
    if_cases (All AlertInv) (is_due now e)
      (λ d.
        (due-AlertInv now (answers e.id) e d h.0, deliver_batch-AlertInv left now answers es h.1))
      (λ _. (h.0, deliver_batch-AlertInv (suc left) now answers es h.1))

-- A run of the dispatcher keeps it that a pending event has been sent less than four times, a delivered one
-- at most four times, and a failed one exactly four times.
pub deliver_due-AlertInv :
    (settings : AlertSettings) (now : ℕ) (answers : ℕ → Bool) (es : List AlertEvent)
    → All AlertInv es
    → All AlertInv (deliver_due settings now answers es)
unfolding deliver_due
deliver_due-AlertInv settings now answers es h =
    if_cases (All AlertInv) (not settings.enabled || bytes_eqb settings.webhook_url []) (λ _. h)
      (λ _. deliver_batch-AlertInv 20 now answers es h)
