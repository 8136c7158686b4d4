-- ===== src/Gateway/Vision.antt =====
-- The vision helper within an attempt, cmd/server/main.go: the image is described by another model
-- first, and each failure either ends the loop or goes on to the next attempt.
use opencode_rush_free.Base.{
  List, [], bytes_eq, false, if◌then◌else◌, ltb, nat_eq, not, string_eq, true, ℕ, ◌&&◌, ◌++◌, ◌+◌,
  ◌==◌, ◌∷◌,
}
use opencode_rush_free.Proxy.{ProxyRecord, GoError, is_proxy_transport_error}
use opencode_rush_free.Gateway.Types.{
  LoopConfig, Helped, build_failed, request_failed, read_failed, refused, unusable, described,
  Effect, marks_failure, clears_session, resin_advances, resin_fails, helper_recorded, LoopState,
  emit, fail_with,
}

-- `proceeds` goes on to forward the request.
pub data VisionNext : Type 0 where
  proceeds retries breaks : LoopState → VisionNext

abbrev pub mark_if_transport : GoError → ℕ → List Effect
mark_if_transport e id = if is_proxy_transport_error e then marks_failure id ∷ [] else []

abbrev pub refused_step : LoopConfig → ℕ → ProxyRecord → ℕ → LoopState → VisionNext
refused_step cfg i p status s =
    if cfg.vision_use_proxy && status == 429 && ltb (i + 1) cfg.attempts
    then retries (emit ((if cfg.resin_mode then resin_advances else clears_session p.id) ∷ []) s)
    else breaks s

unfoldable pub vision_step : LoopConfig → ℕ → ProxyRecord → Helped → LoopState → VisionNext
vision_step cfg i p (build_failed e) s = breaks (emit (helper_recorded false ∷ []) (fail_with e s))
vision_step cfg i p (request_failed e) s =
    let s' = emit (helper_recorded false ∷ []) (fail_with e s) in
    if not cfg.vision_use_proxy
    then breaks s'
    else if cfg.resin_mode
    then breaks (emit (resin_fails e ∷ []) s')
    else retries (emit (mark_if_transport e p.id ++ (clears_session p.id ∷ [])) s')
vision_step cfg i p (read_failed e) s =
    let s' = emit (helper_recorded false ∷ []) (fail_with e s) in
    if not cfg.vision_use_proxy
    then breaks s'
    else if not cfg.resin_mode && is_proxy_transport_error e
    then retries (emit (marks_failure p.id ∷ clears_session p.id ∷ []) s')
    else retries s'
vision_step cfg i p (refused status e) s =
    refused_step cfg i p status (emit (helper_recorded false ∷ []) (fail_with e s))
vision_step cfg i p (unusable e) s = breaks (emit (helper_recorded false ∷ []) (fail_with e s))
vision_step cfg i p described s = proceeds (emit (helper_recorded true ∷ []) s)
