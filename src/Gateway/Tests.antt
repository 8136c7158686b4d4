-- ===== src/Gateway/Tests.antt =====
-- Runs of the loop of `gatewayChat`, cmd/server/main.go, at concrete inputs.
use opencode_rush_free.Base.{
  Bytes, List, NoRepeat, [], bytes_eq, bytes_eqb, codes, false, if◌then◌else◌, length, member,
  nat_eq, none, refl, some, string_eq, true, ℕ, ◌<◌, ◌==◌, ◌∷◌, ◌≡◌, ◌≤◌,
}
use opencode_rush_free.Proxy.{ProxyRecord}
use opencode_rush_free.Gateway.Types.{
  LoopConfig, AttemptEnv, Picked, picked, exhausted, described, answered,
}
use opencode_rush_free.Gateway.Loop.{run_attempts}
use opencode_rush_free.Gateway.Steps.{forwarded_ids}
use opencode_rush_free.Gateway.Forwards.{forwards_bounded}
use opencode_rush_free.Sessions.{
  SessionPick, chosen, none_left, query_failed, panics, PickInput, RouteStore, pick_session_proxy,
}
use opencode_rush_free.Gateway.Sessions.{session_forwards}
use opencode_rush_free.Json.{field, str, arr, nil, end}
use opencode_rush_free.Limiter.{ClientKey, allowed, allow, new_client_key_limiter}
use opencode_rush_free.Keys.{authenticated, authenticate_client, look_up, found_in, fill_cache}
use opencode_rush_free.Keys.Credential.{client_credential}
use opencode_rush_free.Gateway.Admission.{ChatRequest, ChatEnv, Plan, passed, check_request}
use opencode_rush_free.Gateway.Chat.{GatewayState, loop_config, gateway_chat}
use opencode_rush_free.Gateway.Admitted.{well_refused}
use opencode_rush_free.Gateway.Requests.{turned_away-well_refused}
use opencode_rush_free.Gateway.Attempted.{attempted-Admitted}

abbrev builtin : LoopConfig
builtin = record {
  attempts = 3;
  resin_mode = false;
  dynamic_scoring = false;
  vision_enabled = false;
  vision_use_proxy = false;
}

abbrev proxy : ℕ → ProxyRecord
proxy n = record {
  id = n;
  uri = [];
  username = [];
  password = [];
  enabled = true;
  health_status = "healthy";
  failure_count = 0;
  cooldown_until = none;
  expires_at = none;
}

-- Proxies 1 and 2, each while it is unused.
abbrev pick_unused : List ℕ → Picked
pick_unused used =
    if member 1 used
    then (if member 2 used then exhausted else picked (proxy 2))
    else picked (proxy 1)

-- An upstream that answers every attempt with one status.
abbrev world : ℕ → ℕ → AttemptEnv
world status i = record {
  cancelled = none;
  cancelled_after = none;
  wait_cancelled = none;
  pick = pick_unused;
  helped = described;
  forwarded = answered (record { status = status; body = none; retry_after = none });
  upstream_error = [];
  copy_error = none;
}

-- Proxies by the session's route.
abbrev to_picked : SessionPick → Picked
to_picked (chosen p) = picked p
to_picked _ = exhausted

abbrev route_input : PickInput
route_input = record {
  key = codes "s";
  limit = 0;
  proxies = proxy 1 ∷ proxy 2 ∷ [];
  used = [];
  read_error = none;
  write_error = none;
}

abbrev no_routes : RouteStore
no_routes = record { routes = []; rr = 0 }

abbrev session_world : ℕ → AttemptEnv
session_world i = record (world 429 i) {
  pick = λ used. to_picked (pick_session_proxy (record route_input { used = used }) no_routes).0;
}

picked_chosen : (o : SessionPick) (p : ProxyRecord) → to_picked o ≡ picked p → o ≡ chosen p
picked_chosen (chosen q) p h = cc
picked_chosen none_left p h = cc
picked_chosen (query_failed e) p h = cc
picked_chosen panics p h = cc

session_forwards_example : NoRepeat (forwarded_ids (run_attempts builtin session_world).effects)
session_forwards_example =
    session_forwards builtin session_world (λ i. route_input) (λ i. no_routes) refl
      (λ i used p h.
        picked_chosen (pick_session_proxy (record route_input { used = used }) no_routes).0 p h)

-- Whole requests: a key, a model, two proxies.
abbrev plain_key : ClientKey
plain_key = record {
  id = 4;
  name = codes "ci";
  hint = [];
  enabled = true;
  expires_at = none;
  rpm_limit = 0;
  tpm_limit = 0;
  last_used_at = none;
  created_at = 0;
}

abbrev server : GatewayState
server = record {
  keys = record {
    rows = (codes "#k", plain_key) ∷ [];
    legacy_hash = none;
    next_id = 5;
    cached = none;
  };
  limiter = new_client_key_limiter;
  touches = λ id. some 0;
  clock = record { last_ms = 0; seq = 0 };
  in_flight = 1;
}

abbrev tagged : Bytes → Bytes
tagged s = 35 ∷ s

abbrev request : ChatRequest
request = record {
  header_of = λ name. if name == codes "API-Key" then codes "k" else [];
  body = some (codes "{}");
}

abbrev chat_env : ChatEnv
chat_env = record {
  key_answers = record {
    loads = true;
    reads_legacy = true;
    updates = true;
    inserts = true;
    reloads = true;
  };
  touch_answers = true;
  now_seconds = 100;
  now = 100;
  later = 100;
  now_ms = 100000;
  decode = λ b. some (field "model" (str "free") (field "messages" (arr nil) end));
  encode_object = λ m. none;
  marshal = λ v. none;
  models = some (record { models = (codes "free", true) ∷ []; aliases = [] });
  image_support = λ m. (true, false);
  upstream = some (record {
    base_url = codes "http://u";
    vision_base_url = [];
    vision_model = [];
    vision_use_proxy = false;
  });
  engine =
      some (record { is_resin = false; gateway_url = []; platform = []; dynamic_scoring = false });
  parse_url = λ u. none;
  proxies = some (proxy 1 ∷ proxy 2 ∷ []);
  random = some (1 ∷ []);
  route_seed = none;
}

abbrev plan : Plan
plan = record {
  session = [];
  resolved_model = codes "free";
  forward_body = codes "{}";
  vision_enabled = false;
  vision_use_proxy = false;
  resin_mode = false;
  dynamic_scoring = false;
  proxies = proxy 1 ∷ proxy 2 ∷ [];
}

forwards_bounded_example :
    (length (forwarded_ids (run_attempts (loop_config plan) (world 429)).effects) ≤ 3)
    × (length (forwarded_ids (run_attempts (loop_config plan) (world 429)).effects) ≤ 2)
forwards_bounded_example = forwards_bounded plan (world 429)

attempted-Admitted_example :
    (key : ClientKey) × ((authenticate_client tagged chat_env.key_answers
        (client_credential request.header_of)
        100
        server.keys).0
      ≡ authenticated key)
    × ((allow server.limiter key 100 100).1 ≡ allowed)
    × (1 < 2)
    × (check_request tagged (λ b. "") chat_env request ≡ passed plan)
    × (1 ≤ (loop_config plan).attempts)
    × (run_attempts (loop_config plan) (world 200) ≡ run_attempts (loop_config plan) (world 200))
unfolding gateway_chat bytes_eqb look_up found_in fill_cache allow
attempted-Admitted_example =
    attempted-Admitted tagged 2 (λ b. "") chat_env (λ p. world 200) request server plan
      (run_attempts (loop_config plan) (world 200)) refl

turned_away-well_refused_example :
    well_refused (record { status = 429; retry_after = some 1; recorded = false }) ≡ true
unfolding gateway_chat bytes_eqb look_up found_in fill_cache allow
turned_away-well_refused_example =
    turned_away-well_refused tagged 1 (λ b. "") chat_env (λ p. world 200) request server
      (record { status = 429; retry_after = some 1; recorded = false }) refl
