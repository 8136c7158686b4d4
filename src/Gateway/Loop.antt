-- ===== src/Gateway/Loop.antt =====
-- The loop over the attempts of `gatewayChat` and its end, cmd/server/main.go.
use opencode_rush_free.Base.{
  Bool, List, Option, [], false, if◌then◌else◌, ltb, none, some, suc, true, zero, ℕ,
}
use opencode_rush_free.Proxy.{GoError}
use opencode_rush_free.Gateway.Types.{
  LoopConfig, AttemptEnv, Effect, LoopState, Next, again, stop, copied,
}
use opencode_rush_free.Gateway.Attempt.{attempt_step}

abbrev pub resin_max_attempts : ℕ
resin_max_attempts = 10

-- The number of attempts, for the number of proxies at hand.
unfoldable pub attempt_count : Bool → ℕ → ℕ
attempt_count true proxies = resin_max_attempts
attempt_count false proxies = if ltb proxies 3 then proxies else 3

abbrev pub start : LoopState
start = record {
  last_error = none;
  downstream_error = none;
  last_proxy_uri = [];
  retry_count = 0;
  used = [];
  effects = [];
}

-- `for i := 0; i < attempts; i++`, by the number of rounds that are left.
unfoldable pub attempt_loop : LoopConfig → ℕ → ℕ → (ℕ → AttemptEnv) → LoopState → Next
attempt_loop cfg zero i env s = stop s
attempt_loop cfg (suc left) i env s = elim (attempt_step cfg i (env i) s) [
  | again t ↦ attempt_loop cfg left (suc i) env t
  | stop t ↦ stop t
  | copied t n status ok ↦ copied t n status ok
]

abbrev pub status_client_closed_request : ℕ
status_client_closed_request = 499

pub data Origin : Type 0 where
  external internal : Origin

unfoldable pub terminal_gateway_failure :
    Option GoError → Option GoError → Option GoError × ℕ × Origin
terminal_gateway_failure (some e) route =
    (some e, if e.deadline_exceeded then 504 else status_client_closed_request, external)
terminal_gateway_failure none route = (route, 502, internal)

-- The one usage record and the one answer of a request that came to its attempts: the status, the
-- retries, whether the record says success, and for a request with no response its error's origin.
pub record Outcome : Type 0 where
  pub status : ℕ
  pub retries : ℕ
  pub success : Bool
  pub origin : Option Origin
  pub effects : List Effect

unfoldable pub conclude_failure : LoopState → Outcome
unfolding terminal_gateway_failure
conclude_failure s =
    let (e, status, origin) = terminal_gateway_failure s.downstream_error s.last_error in
    record {
      status = status;
      retries = s.retry_count;
      success = false;
      origin = some origin;
      effects = s.effects;
    }

unfoldable pub conclude : Next → Outcome
unfolding conclude_failure
conclude (copied s i status ok) = record {
  status = status;
  retries = i;
  success = ok;
  origin = none;
  effects = s.effects;
}
conclude (again s) = conclude_failure s
conclude (stop s) = conclude_failure s

unfoldable pub run_attempts : LoopConfig → (ℕ → AttemptEnv) → Outcome
run_attempts cfg env = conclude (attempt_loop cfg cfg.attempts 0 env start)
