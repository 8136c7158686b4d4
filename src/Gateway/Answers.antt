-- ===== src/Gateway/Answers.antt =====
-- What the answer of `gatewayChat` (cmd/server/main.go) to the client says about the attempts.
use opencode_rush_free.Base.{
  Bool, Option, bytes_eq, false, nat_eq, none, not, some, string_eq, suc, true, ℕ, ◌&&◌, ◌+◌, ◌==◌,
  ◌||◌, ◌≡◌, ◌≤◌, ◌⊎◌,
}
use opencode_rush_free.Proxy.{retryable_upstream_status, disqualified_exit_response}
use opencode_rush_free.Gateway.Types.{
  LoopConfig, AttemptEnv, Response, answered, Next, again, stop, copied,
}
use opencode_rush_free.Gateway.Vision.{retries}
use opencode_rush_free.Gateway.Attempt.{is_success}
use opencode_rush_free.Gateway.Loop.{Origin, external, internal, Outcome}

-- A response that asks for another attempt.
abbrev pub rejects : Response → Bool
rejects r = retryable_upstream_status r.status || disqualified_exit_response r.status r.body

-- The answer is the response of attempt `i`: its status, and success as the status and the copying have
-- it; a response that asks for another attempt only when no attempt is left, and the proxy's own 407 never
-- without Resin.
pub record AnsweredBy (cfg : LoopConfig) (env : AttemptEnv) (i status : ℕ) (ok : Bool)
    : Type 0 where
  pub response : Response
  pub was_forwarded : env.forwarded ≡ answered response
  pub same_status : status ≡ response.status
  pub same_success : ok ≡ is_success status env.copy_error
  pub last_resort : rejects response ≡ true → cfg.attempts ≤ i + 1
  pub no_proxy_auth : (response.status == 407 && not cfg.resin_mode) ≡ false

abbrev OnCopied : (ℕ → ℕ → Bool → Type 0) → Next → Type 0
OnCopied P (again t) = Unit
OnCopied P (stop t) = Unit
OnCopied P (copied t i status ok) = P i status ok

-- The answer of attempt `i`.
abbrev AtAttempt : LoopConfig → AttemptEnv → ℕ → ℕ → ℕ → Bool → Type 0
AtAttempt cfg env i j status ok = (j ≡ i) × AnsweredBy cfg env i status ok

-- Some attempt within the bound has the answer.
abbrev Answered : LoopConfig → (ℕ → AttemptEnv) → ℕ → ℕ → ℕ → Bool → Type 0
Answered cfg env bound j status ok = (suc j ≤ bound) × AnsweredBy cfg (env j) j status ok

-- What the recorded outcome of a run says about its attempts.
abbrev pub Verdict : LoopConfig → (ℕ → AttemptEnv) → Outcome → Option Origin → Type 0
Verdict cfg env o none =
    (suc o.retries ≤ cfg.attempts) × AnsweredBy cfg (env o.retries) o.retries o.status o.success
Verdict cfg env o (some external) = ((o.status ≡ 499) ⊎ (o.status ≡ 504)) × (o.success ≡ false)
Verdict cfg env o (some internal) = (o.status ≡ 502) × (o.success ≡ false)
