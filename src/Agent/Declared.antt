-- ===== src/Agent/Declared.antt =====
-- What becomes of the declared tools in `forceAgentTools`, cmd/server/agent_shape.go, said of the tools themselves.
use opencode_rush_free.Base.{
  Bool-cases, Option, String, any, ap, arith, bytes_eq, eq_of_==, if◌then◌else◌, inl, inr, nat_eq,
  none, refl, some, string_eq, suc, true, ℕ, ◌==◌, ◌∙◌, ◌≡◌,
}
use opencode_rush_free.Json.{Json, Items, null, bool, num, str, arr, obj, nil, cons}
use opencode_rush_free.Agent.{
  Catalog, agent_core_tools, agent_tool_name, agent_tool, agent_tools_of, is_replaced, present,
}
use opencode_rush_free.Agent.Tools.{
  completed, core_named, has_tool, has_tool-completed, present-agent_tools_of, tool_at,
  tool_at-completed,
}

-- One of the tools has that name.
abbrev pub Declares : String → Items → Type 0
Declares name items = (n : ℕ) × (x : Json) × (tool_at n items ≡ some x) × (agent_tool_name x ≡ name)

-- `shell`, `edit`, `glob`, `grep` and `read` are declared.
abbrev pub HasCoreTools : Items → Type 0
HasCoreTools items =
    Declares "shell" items
    × Declares "edit" items
    × Declares "glob" items
    × Declares "grep" items
    × Declares "read" items

-- A declared tool stays in its place: genuine if its name is an OpenCode name, and else as it was.
abbrev pub KeepsTools : Catalog → Items → Items → Type 0
KeepsTools catalog items all =
    (n : ℕ) (x : Json)
    → tool_at n items ≡ some x
    → tool_at n all
      ≡ some (if is_replaced catalog x then agent_tool catalog (agent_tool_name x) else x)

-- The tools before and after: a list, or none, gives a list with the core tools; all else stays.
abbrev pub ToolsShaped : Catalog → Option Json → Option Json → Type 0
ToolsShaped catalog none o = (all : Items) × (o ≡ some (arr all)) × HasCoreTools all
ToolsShaped catalog (some (arr items)) o =
    (all : Items) × (o ≡ some (arr all)) × HasCoreTools all × KeepsTools catalog items all
ToolsShaped catalog (some v) o = o ≡ some v

present-Declares :
    (name : String) (items : Items) → has_tool name items ≡ true → Declares name items
unfolding present tool_at
present-Declares name nil h = cc
present-Declares name (cons item rest) h = elim (Bool-cases (agent_tool_name item == name)) [
  | inl same ↦ (0, item, refl, eq_of_== (agent_tool_name item) name same)
  | inr other ↦
      let (n, x, at, named) = present-Declares name rest (ground arith) in (suc n, x, at, named)
]

core_tools_declared : (catalog : Catalog) → HasCoreTools (agent_tools_of catalog agent_core_tools)
core_tools_declared catalog =
    let tools = agent_tools_of catalog agent_core_tools in
    let e = present-agent_tools_of catalog agent_core_tools core_named in
    let named = λ (n : String) (h : any (λ s. s == n) agent_core_tools ≡ true).
      present-Declares n tools (ap (any (λ s. s == n)) e ∙ h) in
    (named "shell" refl, named "edit" refl, named "glob" refl, named "grep" refl, named "read" refl)

completed-HasCoreTools :
    (catalog : Catalog) (items : Items) → HasCoreTools (completed catalog items)
completed-HasCoreTools catalog items =
    let named = λ (n : String) (h : any (λ s. s == n) agent_core_tools ≡ true).
      present-Declares n (completed catalog items) (has_tool-completed catalog items n h) in
    (named "shell" refl, named "edit" refl, named "glob" refl, named "grep" refl, named "read" refl)

-- What becomes of the declared tools; a value that is no list stays.
abbrev pub shaped_tools : Catalog → Option Json → Option Json
shaped_tools catalog none = some (arr (agent_tools_of catalog agent_core_tools))
shaped_tools catalog (some (arr items)) = some (arr (completed catalog items))
shaped_tools catalog (some null) = some null
shaped_tools catalog (some (bool b)) = some (bool b)
shaped_tools catalog (some (num n)) = some (num n)
shaped_tools catalog (some (str s)) = some (str s)
shaped_tools catalog (some (obj m)) = some (obj m)

pub shaped_tools-ToolsShaped :
    (catalog : Catalog) (o : Option Json) → ToolsShaped catalog o (shaped_tools catalog o)
shaped_tools-ToolsShaped catalog none =
    (agent_tools_of catalog agent_core_tools, refl, core_tools_declared catalog)
shaped_tools-ToolsShaped catalog (some (arr items)) = (
  completed catalog items,
  refl,
  completed-HasCoreTools catalog items,
  λ n x h. tool_at-completed catalog n items x h,
)
shaped_tools-ToolsShaped catalog (some null) = refl
shaped_tools-ToolsShaped catalog (some (bool b)) = refl
shaped_tools-ToolsShaped catalog (some (num n)) = refl
shaped_tools-ToolsShaped catalog (some (str s)) = refl
shaped_tools-ToolsShaped catalog (some (obj m)) = refl
