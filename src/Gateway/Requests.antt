-- ===== src/Gateway/Requests.antt =====
-- How `gatewayChat` answers the requests that it turns away, cmd/server/main.go.
use opencode_rush_free.Base.{
  Bytes, Option, String, [], ap, arith, bytes_eq, codes, if_cases, leb, ltb, nat_eq, none, refl,
  some, string_eq, subst, true, ℕ, ◌&&◌, ◌+◌, ◌==◌, ◌≡◌,
}
use opencode_rush_free.Base.Int.{ℤ, pos, negsuc}
use opencode_rush_free.Ids.{open_code_id}
use opencode_rush_free.Limiter.{ClientKey, Decision, allowed, limited, panics, allow, retry_seconds}
use opencode_rush_free.Keys.{
  AuthResult, authenticated, auth_failed, auth_panics, authenticate_client,
}
use opencode_rush_free.Keys.Credential.{client_credential}
use opencode_rush_free.Gateway.Types.{AttemptEnv}
use opencode_rush_free.Gateway.Admission.{
  Refusal, Checked, passed, refused, Plan, ChatRequest, ChatEnv, check_request,
}
use opencode_rush_free.Gateway.Chat.{
  GatewayState, ChatResult, turned_away, attempted, crashed, attempt_request, serve_checked, serve,
  touch, serve_decided, serve_client, gateway_chat, lacks_seed,
}
use opencode_rush_free.Gateway.Admitted.{well_refused, WellRefused, check_request-WellRefused}

retry_seconds-positive : (wait : ℤ) → leb 1 (retry_seconds wait) ≡ true
unfolding retry_seconds
retry_seconds-positive (pos n) = ground arith
retry_seconds-positive (negsuc n) = refl

-- A result that is well refused, if it is a refusal.
unfoldable WellAnswered : ChatResult → Type 0
unfolding well_refused
WellAnswered (turned_away r) = well_refused r ≡ true
WellAnswered (attempted plan o) = Unit
WellAnswered crashed = Unit

module _ (hash_token : Bytes → Bytes) (capacity : ℕ) (text_of : Bytes → String) (env : ChatEnv)
    (attempts : Plan → ℕ → AttemptEnv) (request : ChatRequest) where
  attempt_request-WellAnswered :
      (id : Option Bytes) (plan : Plan)
      → WellAnswered (attempt_request env.route_seed attempts id plan)
  unfolding attempt_request WellAnswered
  attempt_request-WellAnswered none plan = refl
  attempt_request-WellAnswered (some id) plan =
      if_cases WellAnswered (lacks_seed plan.resin_mode (plan.session == []) env.route_seed)
        (λ e. refl) (λ e. tt)

  serve_checked-WellAnswered :
      (c : Checked Plan) (s : GatewayState)
      → WellRefused c
      → WellAnswered (serve_checked env attempts c s).0
  unfolding serve_checked WellAnswered WellRefused open_code_id
  serve_checked-WellAnswered (refused r) s w = w
  serve_checked-WellAnswered (passed plan) s w =
      attempt_request-WellAnswered (open_code_id (codes "msg") env.now_ms env.random s.clock).0 plan

  serve-WellAnswered :
      (s : GatewayState) → WellAnswered (serve hash_token capacity text_of env attempts request s).0
  unfolding serve WellAnswered
  serve-WellAnswered s =
      if_cases (λ (x : ChatResult × GatewayState). WellAnswered x.0) (ltb s.in_flight capacity)
        (λ e.
          serve_checked-WellAnswered (check_request hash_token text_of env request)
            (record s { in_flight = s.in_flight + 1 })
            (check_request-WellRefused hash_token text_of env request))
        (λ e. refl)

  serve_decided-WellAnswered :
      (key : ClientKey) (d : Decision) (s : GatewayState)
      → WellAnswered (serve_decided hash_token capacity text_of env attempts request key d s).0
  unfolding serve_decided WellAnswered well_refused
  serve_decided-WellAnswered key allowed s = serve-WellAnswered (touch env key s)
  serve_decided-WellAnswered key panics s = tt
  serve_decided-WellAnswered key (limited wait code) s =
      ap (λ b. b && true) (retry_seconds-positive wait)

  serve_client-WellAnswered :
      (auth : AuthResult) (s : GatewayState)
      → WellAnswered (serve_client hash_token capacity text_of env attempts request auth s).0
  unfolding serve_client WellAnswered
  serve_client-WellAnswered (auth_failed e) s = refl
  serve_client-WellAnswered auth_panics s = tt
  serve_client-WellAnswered (authenticated key) s =
      serve_decided-WellAnswered key (allow s.limiter key env.now env.later).1
        (record s { limiter = (allow s.limiter key env.now env.later).0 })

  -- A request that is turned away is answered with 400, 401, 413, 429, 500 or 503; exactly the answer 429 says when
  -- to retry, in a second at the earliest; and a usage record is written only with 400, 500 or 503.
  pub turned_away-well_refused :
      (s : GatewayState) (r : Refusal)
      → (gateway_chat hash_token capacity text_of env attempts request s).0 ≡ turned_away r
      → well_refused r ≡ true
  unfolding gateway_chat WellAnswered
  turned_away-well_refused s r e =
      let auth =
        authenticate_client hash_token env.key_answers (client_credential request.header_of)
          env.now_seconds s.keys in
      subst WellAnswered e (serve_client-WellAnswered auth.0 (record s { keys = auth.1 }))
