-- ===== src/Gateway/Types.antt =====
-- What an attempt of `gatewayChat` (cmd/server/main.go) meets and does. What comes from outside, the
-- network, the clock, the proxy pickers and the client's context, is the record `AttemptEnv`; what
-- the handler does to other components is a list of effects, in order.
use opencode_rush_free.Base.{Bool, Bytes, List, Option, some, ℕ, ◌++◌}
use opencode_rush_free.Base.Int.{ℤ}
use opencode_rush_free.Proxy.{ProxyRecord, GoError}

pub record LoopConfig : Type 0 where
  pub attempts : ℕ
  pub resin_mode : Bool
  pub dynamic_scoring : Bool
  pub vision_enabled : Bool
  pub vision_use_proxy : Bool

-- What `pickSessionProxy` or `resinRoute.proxy` returns: a proxy, none left, or an error.
pub data Picked : Type 0 where
  picked : ProxyRecord → Picked
  exhausted : Picked
  pick_failed : GoError → Picked

-- How far the vision helper comes.
pub data Helped : Type 0 where
  build_failed : GoError → Helped
  request_failed : GoError → Helped
  read_failed : GoError → Helped
  refused : ℕ → GoError → Helped
  unusable : GoError → Helped
  described : Helped

-- A response: its status, the start of its body as far as it could be read, and the Retry-After header.
pub record Response : Type 0 where
  pub status : ℕ
  pub body : Option Bytes
  pub retry_after : Option ℤ

pub data Forwarded : Type 0 where
  failed : GoError → Forwarded
  answered : Response → Forwarded

pub record AttemptEnv : Type 0 where
  -- `r.Context().Err()` at the head of the loop, after a failed forward, and after a cut-off wait.
  pub cancelled : Option GoError
  pub cancelled_after : Option GoError
  pub wait_cancelled : Option GoError
  pub pick : List ℕ → Picked
  pub helped : Helped
  pub forwarded : Forwarded
  -- What `copyResponse` reports: an upstream error in the body, and an error of copying.
  pub upstream_error : Bytes
  pub copy_error : Option GoError

pub data Effect : Type 0 where
  forwards : ℕ → Effect
  marks_failure marks_success clears_session : ℕ → Effect
  resin_advances resin_succeeds : Effect
  resin_fails : GoError → Effect
  observes : ℕ → Option GoError → Effect
  helper_recorded : Bool → Effect
  -- An entry of `attemptSummary`: the attempt's number, its status and its error.
  summarises : ℕ → ℕ → Option GoError → Effect
  waits : ℕ → Effect

-- The variables of the loop.
pub record LoopState : Type 0 where
  pub last_error : Option GoError
  pub downstream_error : Option GoError
  pub last_proxy_uri : Bytes
  pub retry_count : ℕ
  pub used : List ℕ
  pub effects : List Effect

-- How an attempt ends: `continue`, `break`, or with the response copied to the client, which is the
-- attempt's number, the status, and whether it is recorded as a success.
pub data Next : Type 0 where
  again stop : LoopState → Next
  copied : LoopState → ℕ → ℕ → Bool → Next

abbrev pub emit : List Effect → LoopState → LoopState
emit es s = record s { effects = s.effects ++ es }

abbrev pub fail_with : GoError → LoopState → LoopState
fail_with e s = record s { last_error = some e }
