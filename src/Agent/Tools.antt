-- ===== src/Agent/Tools.antt =====
-- The tool list, cmd/server/agent_shape.go: which tools are there after `forceAgentTools`.
use opencode_rush_free.Base.{
  All, All-filter, All-imp, Bool, List, Option, String, [], any, ap, ap₂, arith, bytes_eq, false,
  filter, if◌then◌else◌, nat_eq, none, not, refl, some, string_eq, suc, true, zero, ℕ, ◌&&◌, ◌++◌,
  ◌==◌, ◌||◌, ◌∙◌, ◌∷◌, ◌≡◌,
}
use opencode_rush_free.Json.{Json, Items, nil, cons, get, append_items, append_items-nil}
use opencode_rush_free.Agent.{
  Catalog, agent_core_tools, agent_tool_name, agent_tool, agent_tools_of, genuine, is_replaced,
  replace_known, any_known, present, missing_tools,
}

pub agent_tool_name-agent_tool :
    (catalog : Catalog) (name : String) → agent_tool_name (agent_tool catalog name) ≡ name
unfolding agent_tool_name agent_tool get
agent_tool_name-agent_tool catalog name = refl

genuine_name :
    (catalog : Catalog) (item : Json)
    → agent_tool_name (genuine catalog item) ≡ agent_tool_name item
unfolding genuine
genuine_name catalog item =
    ground (arith, agent_tool_name-agent_tool catalog (agent_tool_name item))

genuine_idem :
    (catalog : Catalog) (item : Json)
    → genuine catalog (genuine catalog item) ≡ genuine catalog item
unfolding genuine
genuine_idem catalog item =
    ground (arith, agent_tool_name-agent_tool catalog (agent_tool_name item))

pub replace_known_idem :
    (catalog : Catalog) (items : Items)
    → replace_known catalog (replace_known catalog items) ≡ replace_known catalog items
unfolding replace_known
replace_known_idem catalog nil = refl
replace_known_idem catalog (cons item rest) =
    cc (genuine_idem catalog item, replace_known_idem catalog rest)

pub present-replace_known :
    (catalog : Catalog) (items : Items) → present (replace_known catalog items) ≡ present items
unfolding replace_known present
present-replace_known catalog nil = refl
present-replace_known catalog (cons item rest) =
    rw (genuine_name catalog item, present-replace_known catalog rest)

replace_known-append :
    (catalog : Catalog) (xs ys : Items)
    → replace_known catalog (append_items xs ys)
      ≡ append_items (replace_known catalog xs) (replace_known catalog ys)
unfolding replace_known append_items
replace_known-append catalog nil ys = refl
replace_known-append catalog (cons x xs) ys =
    ap (cons (genuine catalog x)) (replace_known-append catalog xs ys)

genuine-agent_tool :
    (catalog : Catalog) (name : String)
    → genuine catalog (agent_tool catalog name) ≡ agent_tool catalog name
unfolding genuine
genuine-agent_tool catalog name = ground (arith, agent_tool_name-agent_tool catalog name)

pub replace_known-agent_tools_of :
    (catalog : Catalog) (names : List String)
    → replace_known catalog (agent_tools_of catalog names) ≡ agent_tools_of catalog names
unfolding replace_known agent_tools_of
replace_known-agent_tools_of catalog [] = refl
replace_known-agent_tools_of catalog (n ∷ names) =
    cc (genuine-agent_tool catalog n, replace_known-agent_tools_of catalog names)

-- A tool of that name is declared.
abbrev pub has_tool : String → Items → Bool
has_tool name items = any (λ s. s == name) (present items)

present-append : (xs ys : Items) → present (append_items xs ys) ≡ present xs ++ present ys
unfolding present append_items
present-append nil ys = refl
present-append (cons x xs) ys = ground (arith, present-append xs ys)

abbrev pub AllNamed : List String → Type 0
AllNamed = All (λ name. (name == "") ≡ false)

pub present-agent_tools_of :
    (catalog : Catalog) (names : List String)
    → AllNamed names
    → present (agent_tools_of catalog names) ≡ names
unfolding present agent_tools_of
present-agent_tools_of catalog [] h = refl
present-agent_tools_of catalog (n ∷ names) h =
    ground (arith, agent_tool_name-agent_tool catalog n, present-agent_tools_of catalog names h.1)

any-append : (p : String → Bool) (xs ys : List String) → any p (xs ++ ys) ≡ (any p xs || any p ys)
any-append p [] ys = refl
any-append p (x ∷ xs) ys = ground (arith, any-append p xs ys)

any-filter_self :
    (q : String → Bool) (n : String) (xs : List String)
    → any (λ s. s == n) (filter q xs) ≡ (any (λ s. s == n) xs && q n)
any-filter_self q n [] = refl
any-filter_self q n (x ∷ xs) = ground (arith, string_eq.eqb_iff x n, any-filter_self q n xs)

filter_none : (p : String → Bool) (xs : List String) → All (λ x. p x ≡ false) xs → filter p xs ≡ []
filter_none p [] h = refl
filter_none p (x ∷ xs) h = rw h.0 (filter_none p xs h.1)

pub core_named : AllNamed agent_core_tools
core_named = (refl, (refl, (refl, (refl, (refl, tt)))))

-- The tools that `forceAgentTools` leaves for a declared list.
abbrev pub completed : Catalog → Items → Items
completed catalog items =
    append_items (replace_known catalog items)
      (agent_tools_of catalog (missing_tools (present items)))

present-completed :
    (catalog : Catalog) (items : Items)
    → present (completed catalog items) ≡ present items ++ missing_tools (present items)
unfolding missing_tools
present-completed catalog items =
    let names = present items in
    let missing = missing_tools names in
    present-append (replace_known catalog items) (agent_tools_of catalog missing)
    ∙ ap (λ xs. xs ++ present (agent_tools_of catalog missing))
        (present-replace_known catalog items)
    ∙ ap (λ xs. names ++ xs)
        (present-agent_tools_of catalog missing (
          All-filter (λ name. (name == "") ≡ false) (λ name. not (any (λ s. s == name) names))
            agent_core_tools core_named))

or_excluded : (b c : Bool) → c ≡ true → (b || (c && not b)) ≡ true
or_excluded b c h = ground arith

pub has_tool-completed :
    (catalog : Catalog) (items : Items) (n : String)
    → any (λ s. s == n) agent_core_tools ≡ true
    → has_tool n (completed catalog items) ≡ true
unfolding missing_tools
has_tool-completed catalog items n core =
    let names = present items in
    let absent = λ (name : String). not (any (λ s. s == name) names) in
    let listed = λ (s : String). s == n in
    ap (any listed) (present-completed catalog items)
    ∙ any-append listed names (filter absent agent_core_tools)
    ∙ ap (λ b. any listed names || b) (any-filter_self absent n agent_core_tools)
    ∙ or_excluded (any listed names) (any listed agent_core_tools) core

-- After `forceAgentTools` on a declared list of tools every core tool is in the list.
pub completed_core :
    (catalog : Catalog) (items : Items)
    → All (λ n. has_tool n (completed catalog items) ≡ true) agent_core_tools
completed_core catalog items =
    All-imp (λ n. any (λ s. s == n) agent_core_tools ≡ true)
      (λ n. has_tool n (completed catalog items) ≡ true) agent_core_tools
      (has_tool-completed catalog items) (refl, (refl, (refl, (refl, (refl, tt)))))

pub missing-completed :
    (catalog : Catalog) (items : Items) → missing_tools (present (completed catalog items)) ≡ []
unfolding missing_tools
missing-completed catalog items =
    filter_none (λ name. not (has_tool name (completed catalog items))) agent_core_tools
      (All-imp (λ n. has_tool n (completed catalog items) ≡ true)
        (λ n. not (has_tool n (completed catalog items)) ≡ false) agent_core_tools (λ n h. rw h)
        (completed_core catalog items))

pub completed_idem :
    (catalog : Catalog) (items : Items)
    → completed catalog (completed catalog items) ≡ completed catalog items
unfolding agent_tools_of
completed_idem catalog items = rw (missing-completed catalog items) (
    append_items-nil _
    ∙ replace_known-append catalog (replace_known catalog items) _
    ∙ ap₂ append_items (replace_known_idem catalog items)
        (replace_known-agent_tools_of catalog (missing_tools (present items))))

pub unknown_kept :
    (catalog : Catalog) (items : Items)
    → any_known catalog items ≡ false
    → replace_known catalog items ≡ items
unfolding any_known replace_known genuine
unknown_kept catalog nil h = refl
unknown_kept catalog (cons item rest) h = ground (arith, unknown_kept catalog rest)

-- The `n`th declared tool.
unfoldable pub tool_at : ℕ → Items → Option Json
tool_at n nil = none
tool_at zero (cons x xs) = some x
tool_at (suc n) (cons x xs) = tool_at n xs

tool_at-append :
    (catalog : Catalog) (n : ℕ) (items ys : Items) (x : Json)
    → tool_at n items ≡ some x
    → tool_at n (append_items (replace_known catalog items) ys) ≡ some (genuine catalog x)
unfolding tool_at append_items replace_known
tool_at-append catalog n nil ys x h = ground arith
tool_at-append catalog zero (cons y xs) ys x h = ground arith
tool_at-append catalog (suc n) (cons y xs) ys x h = tool_at-append catalog n xs ys x h

-- A declared tool keeps its place: with an OpenCode name it becomes the genuine definition of that
-- name, and else it stays exactly as it was declared.
pub tool_at-completed :
    (catalog : Catalog) (n : ℕ) (items : Items) (x : Json)
    → tool_at n items ≡ some x
    → tool_at n (completed catalog items)
      ≡ some (if is_replaced catalog x then agent_tool catalog (agent_tool_name x) else x)
unfolding genuine
tool_at-completed catalog n items x h =
    tool_at-append catalog n items (agent_tools_of catalog (missing_tools (present items))) x h
    ∙ ap some (ground arith)
