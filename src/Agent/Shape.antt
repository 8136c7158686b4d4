-- ===== src/Agent/Shape.antt =====
-- The shaped payload, cmd/server/agent_shape.go: what `shapeFreeModelBody` guarantees, what it leaves
-- alone, and that shaping twice gives what shaping once gives.
use opencode_rush_free.Base.{
  Bool, Bool-cases, List, Option, Option-cases, String, [], ap, ap₂, arith, bytes_eq, eq_of_==,
  false, if◌then◌else◌, inl, inr, nat_eq, none, not, refl, some, string_eq, subst, sym, true, ◌&&◌,
  ◌==◌, ◌||◌, ◌∙◌, ◌∷◌, ◌≡◌,
}
use opencode_rush_free.Json.{
  Json, Items, Fields, null, bool, num, str, arr, obj, nil, cons, end, field, get, put,
  append_items, as_bool, as_obj, get-put, put-get_self, append_items-nil,
}
use opencode_rush_free.Agent.{
  Catalog, agent_core_tools, known_agent_tool, agent_tool_name, agent_tools_of, agent_toolset,
  is_known, replace_known, any_known, present, missing_tools, is_empty, force_include_usage,
  force_items, force_agent_tools, is_streaming, shape_payload,
}
use opencode_rush_free.Agent.Declared.{ToolsShaped, shaped_tools, shaped_tools-ToolsShaped}
use opencode_rush_free.Agent.Tools.{
  completed, completed_core, completed_idem, unknown_kept, has_tool, present-agent_tools_of,
  replace_known-agent_tools_of, core_named,
}

-- `stream_options.include_usage` is the Boolean true.
abbrev pub includes_usage : Fields → Bool
includes_usage payload = elim (as_obj (get "stream_options" payload)) [
  | none ↦ false
  | some options ↦ elim (as_bool (get "include_usage" options)) [ some true ↦ true | _ ↦ false ]
]

usage_included : (payload : Fields) → includes_usage (force_include_usage payload).0 ≡ true
unfolding force_include_usage get
usage_included payload =
    let fresh = obj (field "include_usage" (bool true) end) in
    elim (Option-cases (as_obj (get "stream_options" payload))) [
      | inl e ↦ ground (arith, get-put "stream_options" "stream_options" fresh payload)
      | inr (options, e) ↦ ground (
        arith,
        get-put "stream_options" "stream_options" (obj (put "include_usage" (bool true) options))
            payload,
        get-put "include_usage" "include_usage" (bool true) options,
      )
    ]

usage_kept :
    (payload : Fields)
    → includes_usage payload ≡ true
    → force_include_usage payload ≡ (payload, false)
unfolding force_include_usage
usage_kept payload h = ground arith

usage_others :
    (k : String) (payload : Fields)
    → (k == "stream_options") ≡ false
    → get k (force_include_usage payload).0 ≡ get k payload
unfolding force_include_usage
usage_others k payload ne =
    let fresh = obj (field "include_usage" (bool true) end) in
    let off : ("stream_options" == k) ≡ false =
      ground (arith, string_eq.eqb_iff k "stream_options", string_eq.eqb_iff "stream_options" k) in
    elim (Option-cases (as_obj (get "stream_options" payload))) [
      | inl e ↦ ground (arith, get-put "stream_options" k fresh payload)
      | inr (options, e) ↦ ground (
        arith,
        get-put "stream_options" k (obj (put "include_usage" (bool true) options)) payload,
      )
    ]

completed_unchanged :
    (catalog : Catalog) (items : Items)
    → any_known catalog items ≡ false
    → is_empty (missing_tools (present items)) ≡ true
    → completed catalog items ≡ items
unfolding agent_tools_of append_items
completed_unchanged catalog items h e =
    rw (empty_of (missing_tools (present items)) e, unknown_kept catalog items h)
      (append_items-nil items)
  where
    empty_of : (xs : List String) → is_empty xs ≡ true → xs ≡ []
    empty_of [] h = refl
    empty_of (x ∷ xs) h = cc

completed_cases :
    (catalog : Catalog) (items : Items) (missing : List String)
    → (if is_empty missing
        then replace_known catalog items
        else append_items (replace_known catalog items) (agent_toolset catalog (some missing)))
      ≡ append_items (replace_known catalog items) (agent_tools_of catalog missing)
unfolding agent_toolset agent_tools_of
completed_cases catalog items [] = sym (append_items-nil (replace_known catalog items))
completed_cases catalog items (m ∷ missing) = refl

force_items_payload :
    (catalog : Catalog) (items : Items) (payload : Fields)
    → get "tools" payload ≡ some (arr items)
    → (force_items catalog items payload).0 ≡ put "tools" (arr (completed catalog items)) payload
unfolding force_items
force_items_payload catalog items payload h =
    let missing = missing_tools (present items) in
    elim (Bool-cases (any_known catalog items || not (is_empty missing))) [
      | inl e ↦ rw (e, completed_cases catalog items missing)
      | inr e ↦
          let same = completed_unchanged catalog items (ground arith) (ground arith) in
          rw (e, same) (sym (put-get_self "tools" (arr items) payload h))
    ]

abbrev with_tools : Option Json → Fields → Fields
with_tools none payload = payload
with_tools (some v) payload = put "tools" v payload

forced_value :
    (catalog : Catalog) (payload : Fields) (v : Json)
    → get "tools" payload ≡ some v
    → (force_agent_tools catalog payload).0 ≡ with_tools (shaped_tools catalog (some v)) payload
unfolding force_agent_tools
forced_value catalog payload (arr items) e =
    rw (e, force_agent_tools) (force_items_payload catalog items payload e)
forced_value catalog payload null e =
    rw (e, force_agent_tools) (sym (put-get_self "tools" null payload e))
forced_value catalog payload (bool b) e =
    rw (e, force_agent_tools) (sym (put-get_self "tools" (bool b) payload e))
forced_value catalog payload (num n) e =
    rw (e, force_agent_tools) (sym (put-get_self "tools" (num n) payload e))
forced_value catalog payload (str t) e =
    rw (e, force_agent_tools) (sym (put-get_self "tools" (str t) payload e))
forced_value catalog payload (obj m) e =
    rw (e, force_agent_tools) (sym (put-get_self "tools" (obj m) payload e))

forced_payload :
    (catalog : Catalog) (payload : Fields)
    → (force_agent_tools catalog payload).0
      ≡ with_tools (shaped_tools catalog (get "tools" payload)) payload
unfolding force_agent_tools agent_toolset
forced_payload catalog payload = elim (Option-cases (get "tools" payload)) [
  | inl e ↦ rw (e, force_agent_tools)
  | inr (v, e) ↦ rw e (forced_value catalog payload v e)
]

shaped_some : (catalog : Catalog) (o : Option Json) → (v : Json) × (shaped_tools catalog o ≡ some v)
shaped_some catalog none = (arr (agent_tools_of catalog agent_core_tools), refl)
shaped_some catalog (some (arr items)) = (arr (completed catalog items), refl)
shaped_some catalog (some null) = (null, refl)
shaped_some catalog (some (bool b)) = (bool b, refl)
shaped_some catalog (some (num n)) = (num n, refl)
shaped_some catalog (some (str s)) = (str s, refl)
shaped_some catalog (some (obj m)) = (obj m, refl)

-- The tools of the payload, and every other field.
tools_forced :
    (catalog : Catalog) (k : String) (payload : Fields)
    → get k (force_agent_tools catalog payload).0
      ≡ (if "tools" == k then shaped_tools catalog (get "tools" payload) else get k payload)
tools_forced catalog k payload =
    let (v, e) = shaped_some catalog (get "tools" payload) in
    ap (get k) (forced_payload catalog payload ∙ ap (λ o. with_tools o payload) e)
    ∙ get-put "tools" k v payload
    ∙ ap (λ o. if "tools" == k then o else get k payload) (sym e)

abbrev streamed : Fields → Fields
streamed payload = if is_streaming payload then payload else put "stream" (bool true) payload

shape_payload_steps :
    (catalog : Catalog) (payload : Fields)
    → (shape_payload catalog payload).0
      ≡ (force_agent_tools catalog (force_include_usage (streamed payload)).0).0
unfolding shape_payload
shape_payload_steps catalog payload = refl

get-streamed :
    (k : String) (payload : Fields)
    → get k (streamed payload) ≡ (
        if is_streaming payload
        then get k payload
        else if "stream" == k
        then some (bool true)
        else get k payload)
get-streamed k payload = ground (arith, get-put "stream" k (bool true) payload)

get_shaped :
    (catalog : Catalog) (k : String) (payload : Fields)
    → ("tools" == k) ≡ false
    → (k == "stream_options") ≡ false
    → get k (shape_payload catalog payload).0 ≡ get k (streamed payload)
get_shaped catalog k payload t o =
    ap (get k) (shape_payload_steps catalog payload)
    ∙ tools_forced catalog k (force_include_usage (streamed payload)).0
    ∙ rw t (usage_others k (streamed payload) o)

abbrev streams_at : Option Json → Bool
streams_at o = elim (as_bool o) [ some true ↦ true | _ ↦ false ]

abbrev usage_at : Option Json → Bool
usage_at o = elim (as_obj o) [
  | none ↦ false
  | some options ↦ elim (as_bool (get "include_usage" options)) [ some true ↦ true | _ ↦ false ]
]

streamed_streams : (payload : Fields) → is_streaming (streamed payload) ≡ true
streamed_streams payload = elim (Bool-cases (is_streaming payload)) [
  | inl on ↦ rw on on
  | inr off ↦ ap streams_at (
      get-streamed "stream" payload
      ∙ ap (λ b. if b then get "stream" payload else some (bool true)) off)
]

flip : (k j : String) → (k == j) ≡ false → (j == k) ≡ false
flip k j h = ground (arith, string_eq.eqb_iff k j, string_eq.eqb_iff j k)

streamed_others :
    (k : String) (payload : Fields)
    → (k == "stream") ≡ false
    → get k (streamed payload) ≡ get k payload
streamed_others k payload h = ground (arith, get-streamed k payload, flip k "stream" h)

get-tools :
    (catalog : Catalog) (payload : Fields)
    → get "tools" (shape_payload catalog payload).0 ≡ shaped_tools catalog (get "tools" payload)
get-tools catalog payload =
    ap (get "tools") (shape_payload_steps catalog payload)
    ∙ tools_forced catalog "tools" (force_include_usage (streamed payload)).0
    ∙ ap (shaped_tools catalog)
        (usage_others "tools" (streamed payload) refl ∙ streamed_others "tools" payload refl)

-- A shaped payload streams and includes the usage. It declares shell, edit, glob, grep and read if the client declared
-- no tools or a list of tools; a declared list keeps its tools in their places, each with an OpenCode name as the
-- genuine definition and each other as it was; a value of `tools` that is no list stays. Every other field is as
-- the client sent it.
pub shape_payload_lem :
    (catalog : Catalog) (payload : Fields)
    → let p = (shape_payload catalog payload).0 in
      (is_streaming p ≡ true)
      × (includes_usage p ≡ true)
      × ToolsShaped catalog (get "tools" payload) (get "tools" p)
      × (get "tools" p ≡ shaped_tools catalog (get "tools" payload))
      × ((k : String)
          → (k == "stream") ≡ false
          → (k == "stream_options") ≡ false
          → (k == "tools") ≡ false
          → get k p ≡ get k payload)
shape_payload_lem catalog payload = (
  ap streams_at (get_shaped catalog "stream" payload refl refl) ∙ streamed_streams payload,
  ap usage_at (
        ap (get "stream_options") (shape_payload_steps catalog payload)
        ∙ tools_forced catalog "stream_options" (force_include_usage (streamed payload)).0)
      ∙ usage_included (streamed payload),
  subst (ToolsShaped catalog (get "tools" payload)) (sym (get-tools catalog payload))
      (shaped_tools-ToolsShaped catalog (get "tools" payload)),
  get-tools catalog payload,
  λ k s o t. get_shaped catalog k payload (flip k "tools" t) o ∙ streamed_others k payload s,
)

completed_core_tools :
    (catalog : Catalog)
    → completed catalog (agent_tools_of catalog agent_core_tools)
      ≡ agent_tools_of catalog agent_core_tools
unfolding agent_tools_of
completed_core_tools catalog =
    let core = agent_core_tools in
    ap₂ (λ xs names. append_items xs (agent_tools_of catalog (missing_tools names)))
      (replace_known-agent_tools_of catalog core) (present-agent_tools_of catalog core core_named)
    ∙ (unfold missing_tools in append_items-nil (agent_tools_of catalog core))

shaped_tools_idem :
    (catalog : Catalog) (o : Option Json)
    → shaped_tools catalog (shaped_tools catalog o) ≡ shaped_tools catalog o
shaped_tools_idem catalog none = ap (λ xs. some (arr xs)) (completed_core_tools catalog)
shaped_tools_idem catalog (some (arr items)) =
    ap (λ xs. some (arr xs)) (completed_idem catalog items)
shaped_tools_idem catalog (some null) = refl
shaped_tools_idem catalog (some (bool b)) = refl
shaped_tools_idem catalog (some (num n)) = refl
shaped_tools_idem catalog (some (str s)) = refl
shaped_tools_idem catalog (some (obj m)) = refl

with_tools_self :
    (o : Option Json) (payload : Fields) → get "tools" payload ≡ o → with_tools o payload ≡ payload
with_tools_self none payload h = refl
with_tools_self (some v) payload h = put-get_self "tools" v payload h

-- Shaping a shaped payload leaves it as it is.
pub shape_payload_idem :
    (catalog : Catalog) (payload : Fields)
    → let p = (shape_payload catalog payload).0 in (shape_payload catalog p).0 ≡ p
shape_payload_idem catalog payload =
    let p = (shape_payload catalog payload).0 in
    let (streams, usage, _, tools, _) = shape_payload_lem catalog payload in
    shape_payload_steps catalog p
    ∙ ap (λ (q : Fields). (force_agent_tools catalog (force_include_usage q).0).0)
        (ap (λ b. if b then p else put "stream" (bool true) p) streams)
    ∙ ap (λ (r : Fields × Bool). (force_agent_tools catalog r.0).0) (usage_kept p usage)
    ∙ forced_payload catalog p
    ∙ ap (λ o. with_tools o p)
        (ap (shaped_tools catalog) tools ∙ shaped_tools_idem catalog (get "tools" payload))
    ∙ with_tools_self (shaped_tools catalog (get "tools" payload)) p tools

known_present :
    (catalog : Catalog) (n : String) (items : Items)
    → (n == "") ≡ false
    → is_known (known_agent_tool catalog n) ≡ true
    → has_tool n items ≡ true
    → any_known catalog items ≡ true
unfolding present any_known
known_present catalog n nil ne k h = cc
known_present catalog n (cons item rest) ne k h =
    let name = agent_tool_name item in
    elim (Bool-cases (name == n)) [
      | inl same ↦
          let named : (not (n == "") && is_known (known_agent_tool catalog n)) ≡ true =
            rw (ne, k) in
          ap (λ b. b || any_known catalog rest)
            (ap (λ s. not (s == "") && is_known (known_agent_tool catalog s)) (eq_of_== name n same)
              ∙ named)
      | inr other ↦ ground (arith, known_present catalog n rest ne k)
    ]

tools_changed :
    (catalog : Catalog) (items : Items) (payload : Fields)
    → get "tools" payload ≡ some (arr items)
    → any_known catalog items ≡ true
    → (force_agent_tools catalog payload).1 ≡ true
unfolding force_agent_tools force_items
tools_changed catalog items payload h k = rw (h, force_agent_tools, k)

or_last : (a b c : Bool) → c ≡ true → (a || b || c) ≡ true
or_last a b c h = ground arith

-- A body that already satisfies everything is still reported as changed, and encoded anew: with the
-- definition of `shell` known, shaping a shaped payload with a list of tools reports a change.
pub reshaped_changed :
    (catalog : Catalog) (items : Items) (payload : Fields)
    → is_known (known_agent_tool catalog "shell") ≡ true
    → get "tools" payload ≡ some (arr items)
    → (shape_payload catalog (shape_payload catalog payload).0).1 ≡ true
unfolding shape_payload
reshaped_changed catalog items payload k h =
    let p = (shape_payload catalog payload).0 in
    let tools = get-tools catalog payload ∙ ap (shaped_tools catalog) h in
    let counted = (force_include_usage (streamed p)).0 in
    let same = usage_others "tools" (streamed p) refl ∙ streamed_others "tools" p refl ∙ tools in
    or_last (not (is_streaming p)) (force_include_usage (streamed p)).1
      (force_agent_tools catalog counted).1
      (tools_changed catalog (completed catalog items) counted same (
        known_present catalog "shell" (completed catalog items) refl k
          (completed_core catalog items).0))
