-- ===== src/Agent/Tests.antt =====
-- Shaping a small request.
use opencode_rush_free.Base.{
  String, [], bytes_eq, lookup, nat_eq, none, refl, string_eq, true, ◌∷◌, ◌≡◌,
}
use opencode_rush_free.Json.{
  Json, Items, Fields, str, arr, obj, nil, cons, end, field, get, append_items,
}
use opencode_rush_free.Agent.{
  Catalog, agent_tool_name, agent_tool, agent_tools_of, known_agent_tool, genuine, replace_known,
  present, missing_tools, shape_payload, is_streaming, Decoded, nil_map, panics,
  shape_free_model_body,
}
use opencode_rush_free.Agent.Tools.{completed}
use opencode_rush_free.Agent.Shape.{shape_payload_lem, shape_payload_idem, reshaped_changed}

abbrev catalog : Catalog
catalog = ("shell", record { description = "Runs a command"; parameters = none }) ∷ []

abbrev tool : String → Json
tool name =
    obj (field "type" (str "function") (field "function" (obj (field "name" (str name) end)) end))

abbrev declared : Items
declared = cons (tool "shell") (cons (tool "weather") nil)

abbrev request : Fields
request = field "model" (str "m") (field "tools" (arr declared) end)

names :
    present (completed catalog declared)
    ≡ "shell" ∷ "weather" ∷ "edit" ∷ "glob" ∷ "grep" ∷ "read" ∷ []
unfolding present replace_known genuine agent_tool_name agent_tool known_agent_tool agent_tools_of
    missing_tools get append_items lookup
names = refl

decode_null : Unit {0} → Decoded
decode_null _ = nil_map

null_body : shape_free_model_body decode_null (λ m. none) catalog tt ≡ panics
unfolding shape_free_model_body decode_null
null_body = refl

shape_payload_lem_example : is_streaming (shape_payload catalog request).0 ≡ true
shape_payload_lem_example = (shape_payload_lem catalog request).0

shape_payload_idem_example :
    (shape_payload catalog (shape_payload catalog request).0).0 ≡ (shape_payload catalog request).0
shape_payload_idem_example = shape_payload_idem catalog request

reshaped_changed_example : (shape_payload catalog (shape_payload catalog request).0).1 ≡ true
unfolding known_agent_tool get lookup
reshaped_changed_example = reshaped_changed catalog declared request refl refl
