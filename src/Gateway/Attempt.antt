-- ===== src/Gateway/Attempt.antt =====
-- One round of the loop of `gatewayChat`, cmd/server/main.go, from the check of the client's context
-- to the copy of the response.
use opencode_rush_free.Base.{
  Bool, List, Option, [], bytes_eq, codes, false, if◌then◌else◌, ltb, nat_eq, none, not, some,
  string_eq, ℕ, ◌&&◌, ◌++◌, ◌+◌, ◌==◌, ◌||◌, ◌∷◌,
}
use opencode_rush_free.Proxy.{
  ProxyRecord, GoError, new_error, retryable_upstream_status, retry_after_delay,
  disqualified_exit_response,
}
use opencode_rush_free.Gateway.Types.{
  LoopConfig, Picked, picked, exhausted, pick_failed, Response, failed, answered, AttemptEnv,
  Effect, forwards, marks_failure, marks_success, clears_session, resin_advances, resin_succeeds,
  resin_fails, observes, summarises, waits, LoopState, Next, again, stop, copied, emit, fail_with,
}
use opencode_rush_free.Gateway.Vision.{proceeds, retries, breaks, vision_step, mark_if_transport}

-- The client has gone: both errors are the context's.
abbrev pub gone : Option GoError → LoopState → LoopState
gone e s = record s { downstream_error = e; last_error = e }

abbrev pub observed : LoopConfig → ℕ → Option GoError → List Effect
observed cfg status e = if cfg.resin_mode && cfg.dynamic_scoring then observes status e ∷ [] else []

-- `e != nil` after `forward`.
unfoldable pub forward_failed :
    LoopConfig → ℕ → ProxyRecord → AttemptEnv → GoError → LoopState → Next
forward_failed cfg i p env e s =
    let s' =
      emit (observed cfg 0 (some e) ++ (summarises (i + 1) 0 (some e) ∷ [])) (fail_with e s) in
    elim env.cancelled_after [
      | some gone_error ↦ stop (gone (some gone_error) s')
      | none ↦
          if cfg.resin_mode
          then if ltb (i + 1) cfg.attempts
            then again (emit (resin_advances ∷ []) s')
            else stop (emit (resin_advances ∷ resin_fails e ∷ []) s')
          else again (emit (mark_if_transport e p.id ++ (clears_session p.id ∷ [])) s')
    ]

-- The health of the proxy after an answer.
unfoldable pub health_effects : LoopConfig → ProxyRecord → ℕ → Bool → List Effect
health_effects cfg p status disqualified =
    if cfg.resin_mode
    then resin_succeeds ∷ []
    else if status == 407
    then marks_failure p.id ∷ clears_session p.id ∷ []
    else if ltb status 500 && not disqualified
    then marks_success p.id ∷ []
    else []

abbrev pub is_success : ℕ → Option GoError → Bool
is_success status none = ltb status 400
is_success status (some e) = false

-- The copy of the response, which ends the request.
unfoldable pub copy_step : LoopConfig → ℕ → AttemptEnv → ℕ → LoopState → Next
copy_step cfg i env status s =
    let ok = is_success status env.copy_error in
    copied
      (emit (observed cfg status env.copy_error ++ (summarises (i + 1) status env.copy_error ∷ []))
        s)
      i status ok

-- A retry of the built-in engine, behind the wait that the response asks for.
unfoldable pub retry_builtin :
    LoopConfig → ℕ → ProxyRecord → AttemptEnv → Response → Bool → LoopState → Next
retry_builtin cfg i p env r disqualified s =
    let s' =
      emit
        (summarises (i + 1) r.status none ∷ (if disqualified then clears_session p.id ∷ [] else []))
        s in
    elim env.wait_cancelled [
      | some e ↦ stop (gone (some e) (emit (waits (retry_after_delay r.retry_after i) ∷ []) s'))
      | none ↦ again (emit (waits (retry_after_delay r.retry_after i) ∷ []) s')
    ]

-- What follows the rotation: a retry of the built-in engine, or the copy.
unfoldable pub finish_response :
    LoopConfig → ℕ → ProxyRecord → AttemptEnv → Response → Bool → LoopState → Next
finish_response cfg i p env r disqualified s =
    if (retryable_upstream_status r.status || disqualified)
      && ltb (i + 1) cfg.attempts
      && not cfg.resin_mode
    then retry_builtin cfg i p env r disqualified s
    else copy_step cfg i env r.status s

-- Resin rotates its account; the built-in engine drops a sticky route on 401 and 429.
unfoldable pub rotate_step :
    LoopConfig → ℕ → ProxyRecord → AttemptEnv → Response → Bool → LoopState → Next
rotate_step cfg i p env r disqualified s =
    let rotates =
      r.status == 429 || retryable_upstream_status r.status || (cfg.resin_mode && disqualified) in
    let rotated = emit (observed cfg r.status none ++ (resin_advances ∷ [])) s in
    if cfg.resin_mode && rotates
    then if ltb (i + 1) cfg.attempts
      then again (emit (summarises (i + 1) r.status none ∷ []) rotated)
      else finish_response cfg i p env r disqualified rotated
    else if r.status == 401 || r.status == 429
    then finish_response cfg i p env r disqualified (emit (clears_session p.id ∷ []) s)
    else finish_response cfg i p env r disqualified s

unfoldable pub response_step :
    LoopConfig → ℕ → ProxyRecord → AttemptEnv → Response → LoopState → Next
response_step cfg i p env r s =
    let disqualified = disqualified_exit_response r.status r.body in
    let s' = emit (health_effects cfg p r.status disqualified) s in
    if r.status == 407 && not cfg.resin_mode
    then again (
        fail_with (new_error (codes "proxy authentication failed"))
          (emit (summarises (i + 1) 407 none ∷ []) s'))
    else rotate_step cfg i p env r disqualified s'

unfoldable pub forward_step : LoopConfig → ℕ → ProxyRecord → AttemptEnv → LoopState → Next
forward_step cfg i p env s =
    let s' = emit (forwards p.id ∷ []) s in
    elim env.forwarded [
      | failed e ↦ forward_failed cfg i p env e s'
      | answered r ↦ response_step cfg i p env r s'
    ]

-- The proxy is taken: it counts as used in the built-in engine, and `retryCount = i`.
abbrev pub taken_state : LoopConfig → ℕ → ProxyRecord → LoopState → LoopState
taken_state cfg i p s = record s {
  used = if cfg.resin_mode then s.used else p.id ∷ s.used;
  retry_count = i;
  last_proxy_uri = p.uri;
}

unfoldable pub picked_step : LoopConfig → ℕ → ProxyRecord → AttemptEnv → LoopState → Next
picked_step cfg i p env s =
    let s' = taken_state cfg i p s in
    if cfg.vision_enabled
    then elim (vision_step cfg i p env.helped s') [
      | proceeds t ↦ forward_step cfg i p env t
      | retries t ↦ again t
      | breaks t ↦ stop t
    ]
    else forward_step cfg i p env s'

unfoldable pub pick_step : LoopConfig → ℕ → AttemptEnv → LoopState → Picked → Next
pick_step cfg i env s (pick_failed e) = stop (fail_with e s)
pick_step cfg i env s exhausted = stop s
pick_step cfg i env s (picked p) = picked_step cfg i p env s

abbrev pub cancelled_or : Option GoError → Next → LoopState → Next
cancelled_or (some e) next s = stop (gone (some e) s)
cancelled_or none next s = next

unfoldable pub attempt_step : LoopConfig → ℕ → AttemptEnv → LoopState → Next
attempt_step cfg i env s = cancelled_or env.cancelled (pick_step cfg i env s (env.pick s.used)) s
