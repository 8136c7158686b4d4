-- ===== src/Gateway/Admission.antt =====
-- What `gatewayChat` (cmd/server/main.go) checks before the first attempt, in the order of the code, and what it
-- does to the other components meanwhile. Results of the database and of `encoding/json` are arguments.
use opencode_rush_free.Base.{
  Bool, Bytes, List, Option, String, [], bytes_eq, codes, false, if◌then◌else◌, length, ltb, nat_eq,
  none, not, some, string_eq, true, ℕ, ◌&&◌, ◌==◌,
}
use opencode_rush_free.Json.{Json, Fields, Items, get, put, str, as_str, as_bool, as_arr, null, nil}
use opencode_rush_free.Proxy.{ProxyRecord}
use opencode_rush_free.Keys.{Answers}
use opencode_rush_free.Keys.Credential.{session_key}
use opencode_rush_free.Models.{
  ModelRuntime, ResolveResult, resolved, not_enabled, target_missing, resolve_model,
}
use opencode_rush_free.Images.{contains_image_content_in_messages}
use opencode_rush_free.Gateway.Engine.{
  EngineConfig, ParsedUrl, validate_resin_gateway_url, validate_resin_platform,
}

-- An answer that ends a request before its attempts: its status, its Retry-After header, and whether a usage record
-- is written.
pub record Refusal : Type 0 where
  pub status : ℕ
  pub retry_after : Option ℕ
  pub recorded : Bool

pub data Checked {ℓ} (A : Type ℓ) : Type ℓ where
  passed : A → Checked A
  refused : Refusal → Checked A

infixl 5 ◌>>=◌ ◌>>◌
abbrev pub ◌>>=◌ {ℓ κ} : {A : Type ℓ} {B : Type κ} → Checked A → (A → Checked B) → Checked B
passed a >>= f = f a
refused r >>= f = refused r

abbrev pub ◌>>◌ {ℓ} : {B : Type ℓ} → Checked (Unit {0}) → Checked B → Checked B
m >> k = m >>= λ _. k

abbrev pub refusal : ℕ → Refusal
refusal status = record { status = status; retry_after = none; recorded = false }

abbrev pub recorded_refusal : ℕ → Refusal
recorded_refusal status = record { status = status; retry_after = none; recorded = true }

abbrev pub guard : Bool → Refusal → Checked (Unit {0})
guard true r = passed tt
guard false r = refused r

abbrev pub or_refuse {ℓ} : {A : Type ℓ} → Option A → Refusal → Checked A
or_refuse none r = refused r
or_refuse (some a) r = passed a

-- `readLimitedBody`: a body of more than the limit is an error, and so is one that cannot be read.
unfoldable pub read_limited_body : ℕ → Option Bytes → Option Bytes
read_limited_body limit none = none
read_limited_body limit (some body) = if ltb limit (length body) then none else some body

pub record ChatEnvelope : Type 0 where
  pub model : String
  pub messages : Items
  pub user : String
  pub stream : Bool

abbrev pub string_or_empty : Option String → String
string_or_empty none = ""
string_or_empty (some s) = s

abbrev pub is_set : Option Bool → Bool
is_set none = false
is_set (some b) = b

-- The messages: absent and null ones are none, others have to be an array.
abbrev pub messages_of : Option Json → Option Items
messages_of none = some nil
messages_of (some null) = some nil
messages_of (some v) = as_arr (some v)

unfoldable pub envelope_of : Fields → Option Items → Option (ChatEnvelope × Fields)
unfolding get
envelope_of payload none = none
envelope_of payload (some messages) = some (
  record {
    model = string_or_empty (as_str (get "model" payload));
    messages = messages;
    user = string_or_empty (as_str (get "user" payload));
    stream = is_set (as_bool (get "stream" payload));
  },
  payload,
)

-- `parseChatEnvelope`, with the `user` field as the handler reads it later, of a body that `decode` reads as an object.
unfoldable pub parse_chat_envelope :
    (Bytes → Option Fields) → Bytes → Option (ChatEnvelope × Fields)
unfolding envelope_of get
parse_chat_envelope decode body = elim (decode body) [
  | none ↦ none
  | some payload ↦ envelope_of payload (messages_of (get "messages" payload))
]

pub record UpstreamConfig : Type 0 where
  pub base_url : Bytes
  pub vision_base_url : Bytes
  pub vision_model : Bytes
  pub vision_use_proxy : Bool

-- The client's request, and what the handler's calls answer.
pub record ChatRequest : Type 0 where
  pub header_of : Bytes → Bytes
  pub body : Option Bytes

pub record ChatEnv : Type 0 where
  pub key_answers : Answers
  pub touch_answers : Bool
  pub now_seconds : ℕ
  pub now : ℕ
  pub later : ℕ
  pub now_ms : ℕ
  pub decode : Bytes → Option Fields
  pub encode_object : Fields → Option Bytes
  pub marshal : Json → Option Bytes
  pub models : Option ModelRuntime
  pub image_support : Bytes → Bool × Bool
  pub upstream : Option UpstreamConfig
  pub engine : Option EngineConfig
  pub parse_url : Bytes → Option ParsedUrl
  pub proxies : Option (List ProxyRecord)
  pub random : Option (List ℕ)
  pub route_seed : Option Bytes

-- What the checks hand to the attempts.
pub record Plan : Type 0 where
  pub session : Bytes
  pub resolved_model : Bytes
  pub forward_body : Bytes
  pub vision_enabled : Bool
  pub vision_use_proxy : Bool
  pub resin_mode : Bool
  pub dynamic_scoring : Bool
  pub proxies : List ProxyRecord

abbrev pub resolution : ResolveResult → Checked Bytes
resolution (resolved m) = passed m
resolution not_enabled = refused (refusal 400)
resolution target_missing = refused (refusal 400)

unfoldable pub check_model : Option ModelRuntime → Bytes → Checked Bytes
unfolding resolve_model
check_model none requested = refused (refusal 500)
check_model (some rt) requested = resolution (resolve_model rt requested)

-- The body that is forwarded: the client's own, unless the model's name is another; `text_of` makes a string of bytes.
unfoldable pub rewrite_model :
    (Bytes → String) → (Fields → Option Bytes) → Bytes → Fields → Bytes → Bytes → Checked Bytes
unfolding put
rewrite_model text_of encode body payload requested model =
    if model == requested
    then passed body
    else or_refuse (encode (put "model" (str (text_of model)) payload)) (refusal 400)

unfoldable pub check_image : Bool → Bool × Bool → Checked (Unit {0})
check_image plain_image (known, supported) =
    guard (not (plain_image && (known && not supported))) (recorded_refusal 400)

-- The engine's part: the settings of Resin, which needs no proxies, or proxies.
unfoldable pub check_resin : (Bytes → Option ParsedUrl) → EngineConfig → Checked (List ProxyRecord)
unfolding validate_resin_gateway_url validate_resin_platform
check_resin parse_url engine = do
  gateway ← or_refuse (validate_resin_gateway_url parse_url engine.gateway_url) (refusal 503)
  platform ← or_refuse (validate_resin_platform engine.platform) (refusal 503)
  passed []

unfoldable pub check_builtin : Option (List ProxyRecord) → Checked (List ProxyRecord)
check_builtin proxies = do
  found ← or_refuse proxies (recorded_refusal 500)
  guard (ltb 0 (length found)) (recorded_refusal 503)
  passed found

unfoldable pub check_engine :
    (Bytes → Option ParsedUrl)
    → Option (List ProxyRecord)
    → EngineConfig
    → Checked (List ProxyRecord)
unfolding check_resin check_builtin
check_engine parse_url proxies engine =
    if engine.is_resin then check_resin parse_url engine else check_builtin proxies

unfoldable pub check_request :
    (Bytes → Bytes) → (Bytes → String) → ChatEnv → ChatRequest → Checked Plan
unfolding read_limited_body parse_chat_envelope check_model rewrite_model
    contains_image_content_in_messages check_image check_engine session_key
check_request hash_token text_of env request = do
  body ← or_refuse (read_limited_body 16777216 request.body) (refusal 413)
  parsed ← or_refuse (parse_chat_envelope env.decode body) (refusal 400)
  guard (not (parsed.0.model == "")) (refusal 400)
  let requested = codes parsed.0.model
  model ← check_model env.models requested
  forward_body ← rewrite_model text_of env.encode_object body parsed.1 requested model
  upstream ← or_refuse env.upstream (refusal 500)
  guard (not (upstream.base_url == [])) (refusal 503)
  let has_image = contains_image_content_in_messages parsed.0.messages
  let vision =
      has_image && (not (upstream.vision_base_url == []) && not (upstream.vision_model == []))
  check_image (has_image && not vision) (env.image_support model)
  engine ← or_refuse env.engine (refusal 500)
  proxies ← check_engine env.parse_url env.proxies engine
  passed (record {
    session =
        session_key hash_token request.header_of env.marshal (codes parsed.0.user)
          parsed.0.messages;
    resolved_model = model;
    forward_body = forward_body;
    vision_enabled = vision;
    vision_use_proxy = upstream.vision_use_proxy;
    resin_mode = engine.is_resin;
    dynamic_scoring = engine.dynamic_scoring;
    proxies = proxies;
  })
