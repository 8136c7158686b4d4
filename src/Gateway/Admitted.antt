-- ===== src/Gateway/Admitted.antt =====
-- Which requests come to an attempt, and how the others are answered, cmd/server/main.go.
use opencode_rush_free.Base.{
  Bool, Bytes, List, Option, String, [], any, arith, bytes_eq, codes, false, if◌then◌else◌, leb,
  length, ltb, nat_eq, none, not, refl, some, string_eq, true, ℕ, ◌&&◌, ◌==◌, ◌||◌, ◌∷◌, ◌≡◌, ◌≤◌,
}
use opencode_rush_free.Proxy.{ProxyRecord}
use opencode_rush_free.Models.{
  ModelRuntime, ResolveResult, resolved, not_enabled, target_missing, resolve_model,
}
use opencode_rush_free.Json.{Fields, put, str}
use opencode_rush_free.Gateway.Engine.{
  EngineConfig, ParsedUrl, validate_resin_gateway_url, validate_resin_platform,
}
use opencode_rush_free.Gateway.Admission.{
  Refusal, Checked, passed, refused, ◌>>=◌, refusal, recorded_refusal, guard, or_refuse, Plan,
  ChatRequest, ChatEnv, check_request, check_model, check_engine, check_image, rewrite_model,
  resolution, read_limited_body, parse_chat_envelope, check_resin, check_builtin,
}

-- Refusals: the statuses of the handler, a Retry-After of at least a second with 429 and no other, and a usage record
-- only with 400, 500 or 503.
abbrev pub retry_fits : ℕ → Option ℕ → Bool
retry_fits status none = not (status == 429)
retry_fits status (some seconds) = status == 429 && leb 1 seconds

unfoldable pub well_refused : Refusal → Bool
well_refused r =
    any (λ status. r.status == status) (400 ∷ 401 ∷ 413 ∷ 429 ∷ 500 ∷ 503 ∷ [])
    && (retry_fits r.status r.retry_after
        && (not r.recorded || any (λ status. r.status == status) (400 ∷ 500 ∷ 503 ∷ [])))

unfoldable pub WellRefused {ℓ} : {A : Type ℓ} → Checked A → Type 0
unfolding well_refused
WellRefused (passed a) = Unit
WellRefused (refused r) = well_refused r ≡ true

module _ {A : Type 0} where
  passed-WellRefused : (a : A) → WellRefused (passed a)
  unfolding WellRefused
  passed-WellRefused a = tt

  bind-WellRefused :
      {B : Type 0} (m : Checked A) (f : A → Checked B)
      → WellRefused m
      → ((a : A) → WellRefused (f a))
      → WellRefused (m >>= f)
  unfolding WellRefused
  bind-WellRefused (passed a) f h k = k a
  bind-WellRefused (refused r) f h k = h

  or_refuse-WellRefused :
      (o : Option A) (r : Refusal) → well_refused r ≡ true → WellRefused (or_refuse o r)
  unfolding WellRefused
  or_refuse-WellRefused none r h = h
  or_refuse-WellRefused (some a) r h = tt

  either-WellRefused :
      (b : Bool) (x y : Checked A)
      → WellRefused x
      → WellRefused y
      → WellRefused (if b then x else y)
  either-WellRefused true x y p q = p
  either-WellRefused false x y p q = q

guard-WellRefused : (b : Bool) (r : Refusal) → well_refused r ≡ true → WellRefused (guard b r)
unfolding WellRefused
guard-WellRefused true r h = tt
guard-WellRefused false r h = h

check_model-WellRefused :
    (models : Option ModelRuntime) (requested : Bytes) → WellRefused (check_model models requested)
unfolding check_model well_refused WellRefused
check_model-WellRefused none requested = refl
check_model-WellRefused (some rt) requested = of_result (resolve_model rt requested)
  where
    of_result : (r : ResolveResult) → WellRefused (resolution r)
    of_result (resolved m) = tt
    of_result not_enabled = refl
    of_result target_missing = refl

check_resin-WellRefused :
    (parse_url : Bytes → Option ParsedUrl) (engine : EngineConfig)
    → WellRefused (check_resin parse_url engine)
unfolding check_resin well_refused
check_resin-WellRefused parse_url engine =
    bind-WellRefused _ _
      (or_refuse-WellRefused (validate_resin_gateway_url parse_url engine.gateway_url) (refusal 503)
        refl)
      (λ u.
        bind-WellRefused _ _
          (or_refuse-WellRefused (validate_resin_platform engine.platform) (refusal 503) refl)
          (λ v. passed-WellRefused []))

check_builtin-WellRefused :
    (proxies : Option (List ProxyRecord)) → WellRefused (check_builtin proxies)
unfolding check_builtin well_refused
check_builtin-WellRefused proxies =
    bind-WellRefused _ _ (or_refuse-WellRefused proxies (recorded_refusal 500) refl) (λ found.
      bind-WellRefused _ _ (guard-WellRefused (ltb 0 (length found)) (recorded_refusal 503) refl)
        (λ v. passed-WellRefused found))

check_engine-WellRefused :
    (parse_url : Bytes → Option ParsedUrl) (proxies : Option (List ProxyRecord))
    (engine : EngineConfig)
    → WellRefused (check_engine parse_url proxies engine)
unfolding check_engine
check_engine-WellRefused parse_url proxies engine =
    either-WellRefused engine.is_resin (check_resin parse_url engine) (check_builtin proxies)
      (check_resin-WellRefused parse_url engine) (check_builtin-WellRefused proxies)

rewrite_model-WellRefused :
    (text_of : Bytes → String) (encode : Fields → Option Bytes) (body : Bytes) (payload : Fields)
    (requested model : Bytes)
    → WellRefused (rewrite_model text_of encode body payload requested model)
unfolding rewrite_model well_refused
rewrite_model-WellRefused text_of encode body payload requested model =
    either-WellRefused (model == requested) (passed body) _ (passed-WellRefused body) (
      or_refuse-WellRefused (encode (put "model" (str (text_of model)) payload)) (refusal 400) refl)

check_image-WellRefused :
    (plain_image : Bool) (support : Bool × Bool) → WellRefused (check_image plain_image support)
unfolding check_image well_refused
check_image-WellRefused plain_image (known, supported) =
    guard-WellRefused (not (plain_image && (known && not supported))) (recorded_refusal 400) refl

pub check_request-WellRefused :
    (hash_token : Bytes → Bytes) (text_of : Bytes → String) (env : ChatEnv) (request : ChatRequest)
    → WellRefused (check_request hash_token text_of env request)
unfolding check_request rewrite_model check_image well_refused
check_request-WellRefused hash_token text_of env request =
    bind-WellRefused _ _
      (or_refuse-WellRefused (read_limited_body 16777216 request.body) (refusal 413) refl)
      (λ body.
        bind-WellRefused _ _
          (or_refuse-WellRefused (parse_chat_envelope env.decode body) (refusal 400) refl)
          (λ parsed.
            bind-WellRefused _ _ (guard-WellRefused (not (parsed.0.model == "")) (refusal 400) refl)
              (λ u.
                bind-WellRefused _ _ (check_model-WellRefused env.models (codes parsed.0.model))
                  (λ model.
                    bind-WellRefused _ _
                      (rewrite_model-WellRefused text_of env.encode_object body parsed.1
                        (codes parsed.0.model) model)
                      (λ forward_body.
                        bind-WellRefused _ _ (or_refuse-WellRefused env.upstream (refusal 500) refl)
                          (λ upstream.
                            bind-WellRefused _ _
                              (guard-WellRefused (not (upstream.base_url == [])) (refusal 503) refl)
                              (λ v.
                                bind-WellRefused _ _
                                  (check_image-WellRefused _ (env.image_support model))
                                  (λ w.
                                    bind-WellRefused _ _
                                      (or_refuse-WellRefused env.engine (refusal 500) refl)
                                      (λ engine.
                                        bind-WellRefused _ _
                                          (check_engine-WellRefused env.parse_url env.proxies
                                            engine)
                                          (λ proxies. passed-WellRefused _))))))))))

-- A fact of what a chain passes on, if it passes.
unfoldable pub PassedWith : {A : Type 0} → (A → Type 0) → Checked A → Type 0
PassedWith P (passed a) = P a
PassedWith P (refused r) = Unit

module _ {A : Type 0} where
  bind-PassedWith :
      {B : Type 0} (P : B → Type 0) (m : Checked A) (f : A → Checked B)
      → ((a : A) → PassedWith P (f a))
      → PassedWith P (m >>= f)
  unfolding PassedWith
  bind-PassedWith P (passed a) f k = k a
  bind-PassedWith P (refused r) f k = tt

  bind-PassedWith_fact :
      {B : Type 0} (Q : A → Type 0) (P : B → Type 0) (m : Checked A) (f : A → Checked B)
      → PassedWith Q m
      → ((a : A) → Q a → PassedWith P (f a))
      → PassedWith P (m >>= f)
  unfolding PassedWith
  bind-PassedWith_fact Q P (passed a) f q k = k a q
  bind-PassedWith_fact Q P (refused r) f q k = tt

-- Proxies for the attempts of an engine that needs them.
abbrev pub HasProxies : Bool → List ProxyRecord → Type 0
HasProxies is_resin proxies = is_resin ≡ false → 1 ≤ length proxies

guard-fact : (b : Bool) (r : Refusal) → PassedWith (λ u. b ≡ true) (guard b r)
unfolding PassedWith
guard-fact true r = refl
guard-fact false r = tt

some_found :
    (found : List ProxyRecord)
    → ltb 0 (length found) ≡ true
    → PassedWith (HasProxies false) (passed found)
unfolding PassedWith
some_found found e f = ground arith

check_builtin-HasProxies :
    (proxies : Option (List ProxyRecord)) → PassedWith (HasProxies false) (check_builtin proxies)
unfolding check_builtin PassedWith
check_builtin-HasProxies none = tt
check_builtin-HasProxies (some found) =
    bind-PassedWith_fact (λ u. ltb 0 (length found) ≡ true) (HasProxies false)
      (guard (ltb 0 (length found)) (recorded_refusal 503)) (λ u. passed found)
      (guard-fact (ltb 0 (length found)) (recorded_refusal 503)) (λ u e. some_found found e)

needs_none : (m : Checked (List ProxyRecord)) → PassedWith (HasProxies true) m
unfolding PassedWith
needs_none (passed ps) = λ e. cc
needs_none (refused r) = tt

check_engine-HasProxies :
    (parse_url : Bytes → Option ParsedUrl) (proxies : Option (List ProxyRecord))
    (engine : EngineConfig)
    → PassedWith (HasProxies engine.is_resin) (check_engine parse_url proxies engine)
unfolding check_engine
check_engine-HasProxies parse_url proxies engine = of_mode engine.is_resin
  where
    of_mode :
        (b : Bool)
        → PassedWith
            (HasProxies b)
            (if b then check_resin parse_url engine else check_builtin proxies)
    of_mode true = needs_none (check_resin parse_url engine)
    of_mode false = check_builtin-HasProxies proxies

-- A checked request has at least one attempt.
abbrev pub HasAttempts : Plan → Type 0
HasAttempts plan = HasProxies plan.resin_mode plan.proxies

passed-HasAttempts :
    (plan : Plan) → HasProxies plan.resin_mode plan.proxies → PassedWith HasAttempts (passed plan)
unfolding PassedWith
passed-HasAttempts plan h = h

pub check_request-HasAttempts :
    (hash_token : Bytes → Bytes) (text_of : Bytes → String) (env : ChatEnv) (request : ChatRequest)
    → PassedWith HasAttempts (check_request hash_token text_of env request)
unfolding check_request
check_request-HasAttempts hash_token text_of env request =
    bind-PassedWith HasAttempts (or_refuse (read_limited_body 16777216 request.body) (refusal 413))
      _
      (λ body.
        bind-PassedWith HasAttempts (or_refuse (parse_chat_envelope env.decode body) (refusal 400))
          _
          (λ parsed.
            bind-PassedWith HasAttempts (guard (not (parsed.0.model == "")) (refusal 400)) _ (λ u.
              bind-PassedWith HasAttempts (check_model env.models (codes parsed.0.model)) _
                (λ model.
                  bind-PassedWith HasAttempts
                    (rewrite_model text_of env.encode_object body parsed.1 (codes parsed.0.model)
                      model)
                    _
                    (λ forward_body.
                      bind-PassedWith HasAttempts (or_refuse env.upstream (refusal 500)) _
                        (λ upstream.
                          bind-PassedWith HasAttempts
                            (guard (not (upstream.base_url == [])) (refusal 503)) _
                            (λ v.
                              bind-PassedWith HasAttempts (check_image _ (env.image_support model))
                                _
                                (λ w.
                                  bind-PassedWith HasAttempts (or_refuse env.engine (refusal 500)) _
                                    (λ engine.
                                      bind-PassedWith_fact (HasProxies engine.is_resin) HasAttempts
                                        (check_engine env.parse_url env.proxies engine) _
                                        (check_engine-HasProxies env.parse_url env.proxies engine)
                                        (λ proxies h. passed-HasAttempts _ h))))))))))
