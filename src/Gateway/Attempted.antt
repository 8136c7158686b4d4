-- ===== src/Gateway/Attempted.antt =====
-- Which requests come to their attempts, cmd/server/main.go.
use opencode_rush_free.Base.{
  Bool, Bytes, Option, String, [], arith, bytes_eq, codes, false, if_cases, length, ltb, nat_eq,
  none, refl, some, string_eq, subst, true, ℕ, ◌+◌, ◌<◌, ◌==◌, ◌≡◌, ◌≤◌,
}
use opencode_rush_free.Ids.{open_code_id}
use opencode_rush_free.Limiter.{ClientKey, Decision, allowed, limited, panics, allow}
use opencode_rush_free.Keys.{
  AuthResult, authenticated, auth_failed, auth_panics, authenticate_client,
}
use opencode_rush_free.Keys.Credential.{client_credential}
use opencode_rush_free.Gateway.Types.{AttemptEnv}
use opencode_rush_free.Gateway.Loop.{Outcome, attempt_count, run_attempts}
use opencode_rush_free.Gateway.Admission.{
  Checked, passed, refused, Plan, ChatRequest, ChatEnv, check_request,
}
use opencode_rush_free.Gateway.Chat.{
  GatewayState, ChatResult, turned_away, attempted, crashed, loop_config, attempt_request,
  serve_checked, release, serve, touch, serve_decided, serve_client, gateway_chat, lacks_seed,
}
use opencode_rush_free.Gateway.Admitted.{PassedWith, HasAttempts, check_request-HasAttempts}

module _ (hash_token : Bytes → Bytes) (capacity : ℕ) (text_of : Bytes → String) (env : ChatEnv)
    (attempts : Plan → ℕ → AttemptEnv) (request : ChatRequest) where
  release-in_flight :
      (n : ℕ) (x : ChatResult × GatewayState) → x.1.in_flight ≡ n + 1 → (release x).1.in_flight ≡ n
  release-in_flight n (r, s) e = omega arith

  serve_checked-in_flight :
      (c : Checked Plan) (s : GatewayState)
      → (serve_checked env attempts c s).1.in_flight ≡ s.in_flight
  unfolding serve_checked
  serve_checked-in_flight (refused r) s = refl
  serve_checked-in_flight (passed plan) s = refl

  serve-in_flight :
      (s : GatewayState)
      → (serve hash_token capacity text_of env attempts request s).1.in_flight ≡ s.in_flight
  unfolding serve
  serve-in_flight s =
      let c = check_request hash_token text_of env request in
      let t = record s { in_flight = s.in_flight + 1 } in
      if_cases (λ (x : ChatResult × GatewayState). x.1.in_flight ≡ s.in_flight)
        (ltb s.in_flight capacity)
        (λ e.
          release-in_flight s.in_flight (serve_checked env attempts c t)
            (serve_checked-in_flight c t))
        (λ e. refl)

  serve_client-in_flight :
      (auth : AuthResult) (s : GatewayState)
      → (serve_client hash_token capacity text_of env attempts request auth s).1.in_flight
        ≡ s.in_flight
  unfolding serve_client
  serve_client-in_flight (auth_failed e) s = refl
  serve_client-in_flight auth_panics s = refl
  serve_client-in_flight (authenticated key) s =
      let l = allow s.limiter key env.now env.later in of_decision l.1 (record s { limiter = l.0 })
    where
      of_decision :
          (d : Decision) (t : GatewayState)
          → (serve_decided hash_token capacity text_of env attempts request key d t).1.in_flight
            ≡ t.in_flight
      of_decision allowed t = serve-in_flight (touch env key t)
      of_decision (limited wait code) t = refl
      of_decision panics t = refl

  -- Whatever the answer, a request leaves as many slots of the semaphore taken as before.
  pub gateway_chat-in_flight :
      (s : GatewayState)
      → (gateway_chat hash_token capacity text_of env attempts request s).1.in_flight ≡ s.in_flight
  unfolding gateway_chat
  gateway_chat-in_flight s =
      let auth =
        authenticate_client hash_token env.key_answers (client_credential request.header_of)
          env.now_seconds s.keys in
      serve_client-in_flight auth.0 (record s { keys = auth.1 })

  -- What holds of a request that comes to its attempts.
  unfoldable pub Ran : Plan → Outcome → Type 0
  unfolding check_request loop_config run_attempts
  Ran plan o =
      (check_request hash_token text_of env request ≡ passed plan)
      × (1 ≤ (loop_config plan).attempts)
      × (o ≡ run_attempts (loop_config plan) (attempts plan))

  unfoldable IfRan : ChatResult → Type 0
  unfolding Ran
  IfRan (attempted plan o) = Ran plan o
  IfRan (turned_away r) = Unit
  IfRan crashed = Unit

  has_attempts :
      (plan : Plan) → PassedWith HasAttempts (passed plan) → 1 ≤ (loop_config plan).attempts
  unfolding PassedWith loop_config
  has_attempts plan h = by_mode plan.resin_mode h
    where
      by_mode :
          (b : Bool)
          → (b ≡ false → 1 ≤ length plan.proxies)
          → 1 ≤ attempt_count b (length plan.proxies)
      by_mode true h = omega arith
      by_mode false h = ground (arith, h refl)

  attempt_request-IfRan :
      (id : Option Bytes) (plan : Plan)
      → check_request hash_token text_of env request ≡ passed plan
      → IfRan (attempt_request env.route_seed attempts id plan)
  unfolding attempt_request IfRan Ran
  attempt_request-IfRan none plan e = tt
  attempt_request-IfRan (some id) plan e =
      let h =
        subst (PassedWith HasAttempts) e
          (check_request-HasAttempts hash_token text_of env request) in
      if_cases IfRan (lacks_seed plan.resin_mode (plan.session == []) env.route_seed) (λ l. tt)
        (λ l. (e, has_attempts plan h, refl))

  serve_checked-IfRan :
      (c : Checked Plan) (s : GatewayState)
      → check_request hash_token text_of env request ≡ c
      → IfRan (serve_checked env attempts c s).0
  unfolding serve_checked IfRan open_code_id
  serve_checked-IfRan (refused r) s e = tt
  serve_checked-IfRan (passed plan) s e =
      attempt_request-IfRan (open_code_id (codes "msg") env.now_ms env.random s.clock).0 plan e

  -- The same with who asked and that there was room.
  unfoldable pub Admitted : GatewayState → AuthResult → ChatResult → Type 0
  unfolding Ran
  Admitted s auth (attempted plan o) =
      (key : ClientKey) × (auth ≡ authenticated key)
      × ((allow s.limiter key env.now env.later).1 ≡ allowed)
      × (s.in_flight < capacity)
      × Ran plan o
  Admitted s auth (turned_away r) = Unit
  Admitted s auth crashed = Unit

  serve-IfRan :
      (P : ChatResult → Type 0) (s : GatewayState)
      → ((r : ChatResult) → s.in_flight < capacity → IfRan r → P r)
      → P (turned_away (record { status = 429; retry_after = some 1; recorded = false }))
      → P (serve hash_token capacity text_of env attempts request s).0
  unfolding serve
  serve-IfRan P s k full =
      let t = record s { in_flight = s.in_flight + 1 } in
      let c = check_request hash_token text_of env request in
      if_cases (λ (x : ChatResult × GatewayState). P x.0) (ltb s.in_flight capacity)
        (λ e. k (serve_checked env attempts c t).0 (ground arith) (serve_checked-IfRan c t refl))
        (λ e. full)

  room-Admitted :
      (s : GatewayState) (key : ClientKey)
      → (allow s.limiter key env.now env.later).1 ≡ allowed
      → (r : ChatResult) → s.in_flight < capacity
      → IfRan r
      → Admitted s (authenticated key) r
  unfolding Admitted IfRan
  room-Admitted s key d (attempted plan o) l h = (key, refl, d, l, h)
  room-Admitted s key d (turned_away r) l h = tt
  room-Admitted s key d crashed l h = tt

  serve_client-Admitted :
      (auth : AuthResult) (s : GatewayState)
      → Admitted s auth (serve_client hash_token capacity text_of env attempts request auth s).0
  unfolding serve_client serve_decided Admitted
  serve_client-Admitted (auth_failed e) s = tt
  serve_client-Admitted auth_panics s = tt
  serve_client-Admitted (authenticated key) s =
      of_decision (allow s.limiter key env.now env.later).1 refl
    where
      t : GatewayState
      t = record s { limiter = (allow s.limiter key env.now env.later).0 }

      of_decision :
          (d : Decision)
          → (allow s.limiter key env.now env.later).1 ≡ d
          → Admitted s
              (authenticated key)
              (serve_decided hash_token capacity text_of env attempts request key d t).0
      of_decision (limited wait code) e = tt
      of_decision panics e = tt
      of_decision allowed e =
          serve-IfRan (Admitted s (authenticated key)) (touch env key t) (room-Admitted s key e) tt

  Admitted-parts :
      (s : GatewayState) (auth : AuthResult) (plan : Plan) (o : Outcome)
      → Admitted s auth (attempted plan o)
      → (key : ClientKey) × (auth ≡ authenticated key)
        × ((allow s.limiter key env.now env.later).1 ≡ allowed)
        × (s.in_flight < capacity)
        × (check_request hash_token text_of env request ≡ passed plan)
        × (1 ≤ (loop_config plan).attempts)
        × (o ≡ run_attempts (loop_config plan) (attempts plan))
  unfolding Admitted Ran
  Admitted-parts s auth plan o (key, a, d, l, (c, n, e)) = (key, a, d, l, c, n, e)

  -- A request comes to its attempts only if its credential was authenticated, its key's limits let it pass, a slot was
  -- free and all checks passed; it then has at least one attempt, and the answer is that of the loop over the
  -- attempts for the checked plan.
  pub attempted-Admitted :
      (s : GatewayState) (plan : Plan) (o : Outcome)
      → (gateway_chat hash_token capacity text_of env attempts request s).0 ≡ attempted plan o
      → (key : ClientKey) × ((authenticate_client hash_token env.key_answers
            (client_credential request.header_of)
            env.now_seconds
            s.keys).0
          ≡ authenticated key)
        × ((allow s.limiter key env.now env.later).1 ≡ allowed)
        × (s.in_flight < capacity)
        × (check_request hash_token text_of env request ≡ passed plan)
        × (1 ≤ (loop_config plan).attempts)
        × (o ≡ run_attempts (loop_config plan) (attempts plan))
  unfolding gateway_chat Admitted
  attempted-Admitted s plan o e =
      let auth =
        authenticate_client hash_token env.key_answers (client_credential request.header_of)
          env.now_seconds s.keys in
      Admitted-parts s auth.0 plan o
        (subst (Admitted s auth.0) e (serve_client-Admitted auth.0 (record s { keys = auth.1 })))
