-- ===== src/Agent.antt =====
-- Request bodies shaped for the free tier, cmd/server/agent_shape.go: streaming on, token usage
-- included, and the core tools of the OpenCode client among the tools. The definitions of
-- cmd/server/opencode_tools.json, as they are decoded, are a parameter.
pub mod Shape
pub mod Declared
pub mod Tools
mod Tests
use Prim.Native.String.{◌++◌ as str_append}
use opencode_rush_free.Base.{
  Bool, List, Option, String, [], any, false, filter, if◌then◌else◌, lookup, nat_eq, none, not,
  some, string_eq, true, ◌&&◌, ◌==◌, ◌||◌, ◌∷◌,
}
use opencode_rush_free.Json.{
  Json, Items, Fields, null, bool, num, str, arr, obj, nil, cons, end, field, get, put,
  append_items, as_bool, as_str, as_arr, as_obj,
}

pub record AgentToolDefinition : Type 0 where
  pub description : String
  pub parameters : Option Fields

abbrev pub Catalog : Type 0
Catalog = List (String × AgentToolDefinition)

abbrev pub agent_core_tools : List String
agent_core_tools = "shell" ∷ "edit" ∷ "glob" ∷ "grep" ∷ "read" ∷ []

pub known_agent_tool : Catalog → String → Option AgentToolDefinition
known_agent_tool catalog name = lookup name catalog

abbrev pub name_or_empty : Option String → String
name_or_empty none = ""
name_or_empty (some s) = s

abbrev pub name_of_function : Option Fields → String
name_of_function none = ""
name_of_function (some fn) = name_or_empty (as_str (get "name" fn))

-- The name of a tool in the Chat shape, or the empty text.
pub agent_tool_name : Json → String
agent_tool_name (obj entry) = name_of_function (as_obj (get "function" entry))
agent_tool_name _ = ""

abbrev pub default_parameters : Fields
default_parameters = field "type" (str "object") (field "properties" (obj end) end)

abbrev pub tool_description : String → Option AgentToolDefinition → String
tool_description name none = str_append "Agent tool " name
tool_description name (some d) = d.description

abbrev pub or_default : Option Fields → Fields
or_default none = default_parameters
or_default (some p) = p

abbrev pub tool_parameters : Option AgentToolDefinition → Fields
tool_parameters none = default_parameters
tool_parameters (some d) = or_default d.parameters

pub agent_tool : Catalog → String → Json
agent_tool catalog name =
    let d = known_agent_tool catalog name in
    obj (
      field "type" (str "function") (
        field "function"
          (obj (
            field "name" (str name) (
              field "description" (str (tool_description name d))
                (field "parameters" (obj (tool_parameters d)) end))))
          end))

pub agent_tools_of : Catalog → List String → Items
agent_tools_of catalog [] = nil
agent_tools_of catalog (name ∷ names) =
    cons (agent_tool catalog name) (agent_tools_of catalog names)

-- `names == nil` stands for all core tools.
pub agent_toolset : Catalog → Option (List String) → Items
agent_toolset catalog none = agent_tools_of catalog agent_core_tools
agent_toolset catalog (some names) = agent_tools_of catalog names

pub force_include_usage : Fields → Fields × Bool
force_include_usage payload = elim (as_obj (get "stream_options" payload)) [
  | none ↦ (put "stream_options" (obj (field "include_usage" (bool true) end)) payload, true)
  | some options ↦ elim (as_bool (get "include_usage" options)) [
    | some true ↦ (payload, false)
    | _ ↦ (put "stream_options" (obj (put "include_usage" (bool true) options)) payload, true)
  ]
]

abbrev pub is_known : Option AgentToolDefinition → Bool
is_known none = false
is_known (some d) = true

-- One entry of the loop over the declared tools: the entry kept or replaced.
pub genuine : Catalog → Json → Json
genuine catalog item =
    let name = agent_tool_name item in
    if name == ""
    then item
    else if is_known (known_agent_tool catalog name)
    then agent_tool catalog name
    else item

abbrev pub is_replaced : Catalog → Json → Bool
is_replaced catalog item =
    not (agent_tool_name item == "") && is_known (known_agent_tool catalog (agent_tool_name item))

-- The loop: the entries after it, whether one was replaced, and the map `present`, as a list.
pub replace_known : Catalog → Items → Items
replace_known catalog nil = nil
replace_known catalog (cons item rest) = cons (genuine catalog item) (replace_known catalog rest)

pub any_known : Catalog → Items → Bool
any_known catalog nil = false
any_known catalog (cons item rest) = is_replaced catalog item || any_known catalog rest

pub present : Items → List String
present nil = []
present (cons item rest) =
    let names = present rest in
    if agent_tool_name item == "" then names else agent_tool_name item ∷ names

pub missing_tools : List String → List String
missing_tools names = filter (λ name. not (any (λ s. s == name) names)) agent_core_tools

abbrev pub is_empty {ℓ} : {A : Type ℓ} → List A → Bool
is_empty [] = true
is_empty (x ∷ xs) = false

-- The part of `forceAgentTools` for a list of tools.
pub force_items : Catalog → Items → Fields → Fields × Bool
force_items catalog items payload =
    let missing = missing_tools (present items) in
    let replaced = replace_known catalog items in
    let changed = any_known catalog items || not (is_empty missing) in
    let items' =
      if is_empty missing
      then replaced
      else append_items replaced (agent_toolset catalog (some missing)) in
    -- Without a change `items` is `payload["tools"]` as it was.
    if changed then (put "tools" (arr items') payload, true) else (payload, false)

pub force_agent_tools : Catalog → Fields → Fields × Bool
force_agent_tools catalog payload = elim (get "tools" payload) [
  | none ↦ (put "tools" (arr (agent_toolset catalog none)) payload, true)
  | some (arr items) ↦ force_items catalog items payload
  | some _ ↦ (payload, false)
]

abbrev pub is_streaming : Fields → Bool
is_streaming payload = elim (as_bool (get "stream" payload)) [ some true ↦ true | _ ↦ false ]

-- The three steps of `shapeFreeModelBody` on a decoded body.
pub shape_payload : Catalog → Fields → Fields × Bool
shape_payload catalog payload =
    let streaming = is_streaming payload in
    let streamed = if streaming then payload else put "stream" (bool true) payload in
    let (counted, usage_changed) = force_include_usage streamed in
    let (tooled, tools_changed) = force_agent_tools catalog counted in
    (tooled, not streaming || usage_changed || tools_changed)

-- What `json.Unmarshal` into a map gives: an error, the nil map for the text `null`, or an object.
pub data Decoded : Type 0 where
  invalid : Decoded
  nil_map : Decoded
  object : Fields → Decoded

-- A write into the nil map is a panic in Go.
pub data Shaped (Body : Type 0) : Type 0 where
  body_of : Body → Bool → Shaped Body
  panics : Shaped Body

pub shape_free_model_body :
    {Body : Type 0} → (Body → Decoded) → (Fields → Option Body) → Catalog → Body → Shaped Body
shape_free_model_body decode encode catalog body = elim (decode body) [
  | invalid ↦ body_of body false
  | nil_map ↦ panics
  | object payload ↦
      let (shaped, changed) = shape_payload catalog payload in
      if changed
      then elim (encode shaped) [ none ↦ body_of body false | some encoded ↦ body_of encoded true ]
      else body_of body false
]
