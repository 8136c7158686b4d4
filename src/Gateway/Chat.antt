-- ===== src/Gateway/Chat.antt =====
-- `gatewayChat` as a whole, cmd/server/main.go: who asks, how often, how many at a time, the checks of the request, its
-- identifiers, and the attempts.
use opencode_rush_free.Base.{
  Bool, Bytes, Option, String, [], bytes_eq, codes, false, if◌then◌else◌, length, ltb, nat_eq, none,
  some, string_eq, ℕ, ◌&&◌, ◌+◌, ◌-◌, ◌==◌,
}
use opencode_rush_free.Limiter.{
  ClientKey, ClientKeyLimiter, Decision, allowed, limited, panics, allow, retry_seconds,
}
use opencode_rush_free.Keys.{
  KeyState, AuthResult, authenticated, auth_failed, auth_panics, authenticate_client,
}
use opencode_rush_free.Keys.Rotation.{touch_client_key}
use opencode_rush_free.Keys.Credential.{client_credential}
use opencode_rush_free.Ids.{IdClock, open_code_id}
use opencode_rush_free.Gateway.Types.{LoopConfig, AttemptEnv}
use opencode_rush_free.Gateway.Loop.{Outcome, attempt_count, run_attempts}
use opencode_rush_free.Gateway.Admission.{
  Refusal, Checked, passed, refused, refusal, Plan, ChatRequest, ChatEnv, check_request,
}

-- The parts of the server that a request reads and changes; `touches` holds for each key the time of its last touch,
-- and `in_flight` counts the slots of `gatewaySem` that are taken.
pub record GatewayState : Type 0 where
  pub keys : KeyState
  pub limiter : ClientKeyLimiter
  pub touches : ℕ → Option ℕ
  pub clock : IdClock
  pub in_flight : ℕ

pub data ChatResult : Type 0 where
  turned_away : Refusal → ChatResult
  attempted : Plan → Outcome → ChatResult
  crashed : ChatResult

-- The configuration of the loop.
unfoldable pub loop_config : Plan → LoopConfig
unfolding attempt_count
loop_config plan = record {
  attempts = attempt_count plan.resin_mode (length plan.proxies);
  resin_mode = plan.resin_mode;
  dynamic_scoring = plan.dynamic_scoring;
  vision_enabled = plan.vision_enabled;
  vision_use_proxy = plan.vision_use_proxy;
}

-- An anonymous request through Resin needs a seed for its route, `newResinRequestRoute`.
abbrev pub lacks_seed : Bool → Bool → Option Bytes → Bool
lacks_seed resin anonymous none = resin && anonymous
lacks_seed resin anonymous (some seed) = false

unfoldable pub attempt_request :
    Option Bytes → (Plan → ℕ → AttemptEnv) → Option Bytes → Plan → ChatResult
unfolding loop_config run_attempts
attempt_request seed attempts none plan = turned_away (refusal 500)
attempt_request seed attempts (some id) plan =
    if lacks_seed plan.resin_mode (plan.session == []) seed
    then turned_away (refusal 500)
    else attempted plan (run_attempts (loop_config plan) (attempts plan))

-- From the checked request on; the slot is given back at the end.
unfoldable pub serve_checked :
    ChatEnv → (Plan → ℕ → AttemptEnv) → Checked Plan → GatewayState → ChatResult × GatewayState
unfolding attempt_request open_code_id
serve_checked env attempts (refused r) s = (turned_away r, s)
serve_checked env attempts (passed plan) s =
    let (id, clock) = open_code_id (codes "msg") env.now_ms env.random s.clock in
    (attempt_request env.route_seed attempts id plan, record s { clock = clock })

abbrev pub release : ChatResult × GatewayState → ChatResult × GatewayState
release (r, s) = (r, record s { in_flight = s.in_flight - 1 })

-- From the semaphore on.
unfoldable pub serve :
    (Bytes → Bytes)
    → ℕ
    → (Bytes → String)
    → ChatEnv
    → (Plan → ℕ → AttemptEnv)
    → ChatRequest
    → GatewayState
    → ChatResult × GatewayState
unfolding serve_checked check_request
serve hash_token capacity text_of env attempts request s =
    if ltb s.in_flight capacity
    then release (
        serve_checked env attempts (check_request hash_token text_of env request)
          (record s { in_flight = s.in_flight + 1 }))
    else (turned_away (record { status = 429; retry_after = some 1; recorded = false }), s)

unfoldable pub touch : ChatEnv → ClientKey → GatewayState → GatewayState
unfolding touch_client_key
touch env key s =
    let (at, keys) =
      touch_client_key env.touch_answers env.now_seconds (s.touches key.id) key s.keys in
    record s { keys = keys; touches = λ id. if id == key.id then at else s.touches id }

-- Behind the limiter's decision, `enforceClientLimit`.
unfoldable pub serve_decided :
    (Bytes → Bytes)
    → ℕ
    → (Bytes → String)
    → ChatEnv
    → (Plan → ℕ → AttemptEnv)
    → ChatRequest
    → ClientKey
    → Decision
    → GatewayState
    → ChatResult × GatewayState
unfolding serve touch
serve_decided hash_token capacity text_of env attempts request key allowed s =
    serve hash_token capacity text_of env attempts request (touch env key s)
serve_decided hash_token capacity text_of env attempts request key (limited wait code) s = (
  turned_away (record { status = 429; retry_after = some (retry_seconds wait); recorded = false }),
  s,
)
serve_decided hash_token capacity text_of env attempts request key panics s = (crashed, s)

-- Behind the authentication.
unfoldable pub serve_client :
    (Bytes → Bytes)
    → ℕ
    → (Bytes → String)
    → ChatEnv
    → (Plan → ℕ → AttemptEnv)
    → ChatRequest
    → AuthResult
    → GatewayState
    → ChatResult × GatewayState
unfolding serve_decided
serve_client hash_token capacity text_of env attempts request (auth_failed e) s =
    (turned_away (refusal 401), s)
serve_client hash_token capacity text_of env attempts request auth_panics s = (crashed, s)
serve_client hash_token capacity text_of env attempts request (authenticated key) s =
    let (limiter, decision) = allow s.limiter key env.now env.later in
    serve_decided hash_token capacity text_of env attempts request key decision
      (record s { limiter = limiter })

unfoldable pub gateway_chat :
    (Bytes → Bytes)
    → ℕ
    → (Bytes → String)
    → ChatEnv
    → (Plan → ℕ → AttemptEnv)
    → ChatRequest
    → GatewayState
    → ChatResult × GatewayState
unfolding serve_client authenticate_client client_credential
gateway_chat hash_token capacity text_of env attempts request s =
    let supplied = client_credential request.header_of in
    let (auth, keys) =
      authenticate_client hash_token env.key_answers supplied env.now_seconds s.keys in
    serve_client hash_token capacity text_of env attempts request auth (record s { keys = keys })
