-- ===== src/Collapse/ToolCalls.antt =====
-- The tool calls of a collapsed stream, cmd/server/agent_shape.go.
use opencode_rush_free.Base.{
  Bool-cases, Bytes, List, UniqueKeys, UniqueKeys-insert, [], ap, append-nil, append_assoc, arith,
  bytes_eq, eq_of_==, has_prefix, has_prefix-append, has_prefix_self, if◌then◌else◌, inl, inr,
  insert, lookup, lookup-insert, nat_eq, none, refl, some, string_eq, sym, true, ◌++◌, ◌==◌, ◌∙◌,
  ◌∷◌, ◌≡◌,
}
use opencode_rush_free.Base.Int.{ℤ, int_eq}
use opencode_rush_free.Collapse.{
  ChatDeltaTool, CollapsedTool, is_blank, write_merged_name, tool_or_empty, extend_tool, tool_index,
  consume_tool, consume_tools,
}

abbrev pub Tools : Type 0
Tools = List (ℤ × CollapsedTool)

abbrev pub tool_of : ℤ → Tools → CollapsedTool
tool_of i tools = tool_or_empty (lookup i tools)

-- The argument fragments that carry an index, in order.
abbrev pub fragments : ℤ → List ChatDeltaTool → Bytes
fragments i [] = []
fragments i (raw ∷ rest) =
    let later = fragments i rest in
    elim raw.index [ none ↦ later | some j ↦ if j == i then raw.arguments ++ later else later ]

-- Every fragment names its tool call by an index, as the protocol asks.
abbrev pub AllIndexed : List ChatDeltaTool → Type 0
AllIndexed [] = Unit
AllIndexed (raw ∷ rest) = ((j : ℤ) × (raw.index ≡ some j)) × AllIndexed rest

tool_of-insert :
    (i j : ℤ) (t : CollapsedTool) (tools : Tools)
    → tool_of i (insert j t tools) ≡ (if j == i then t else tool_of i tools)
tool_of-insert i j t tools = ground (arith, lookup-insert j i t tools)

consume_tool_args :
    (i j : ℤ) (raw : ChatDeltaTool) (tools : Tools)
    → raw.index ≡ some j
    → (tool_of i (consume_tool raw tools)).args
      ≡ (tool_of i tools).args ++ (if j == i then raw.arguments else [])
unfolding consume_tool extend_tool
consume_tool_args i j raw tools e =
    rw (e, tool_of-insert i j (extend_tool raw (tool_of j tools)) tools)
      (elim (Bool-cases (j == i)) [
        | inl same ↦ rw (same, eq_of_== j i same)
        | inr other ↦ rw other (sym (append-nil _))
      ])

-- With indices on all fragments, the arguments of a tool call are its fragments put together.
pub consume_tools_args :
    (i : ℤ) (raws : List ChatDeltaTool) (tools : Tools)
    → AllIndexed raws
    → (tool_of i (consume_tools raws tools)).args ≡ (tool_of i tools).args ++ fragments i raws
unfolding consume_tools
consume_tools_args i [] tools h = sym (append-nil _)
consume_tools_args i (raw ∷ raws) tools ((j, e), h) =
    consume_tools_args i raws (consume_tool raw tools) h
    ∙ ap (λ s. s ++ fragments i raws) (consume_tool_args i j raw tools e)
    ∙ append_assoc (tool_of i tools).args (if j == i then raw.arguments else []) (fragments i raws)
    ∙ ap (λ s. (tool_of i tools).args ++ s) (rw e (ground arith))

-- A name only grows: the fragment that comes next never takes away what is there.
pub write_merged_name_grows :
    (current fragment : Bytes) → has_prefix (write_merged_name current fragment) current ≡ true
unfolding write_merged_name
write_merged_name_grows [] fragment = unfold has_prefix in refl
write_merged_name_grows (c ∷ current) fragment =
    ground (arith, has_prefix_self (c ∷ current), has_prefix-append (c ∷ current) fragment)

-- A fragment that repeats the name from its start replaces it, so a name that is sent whole again,
-- or grown, is not doubled.
pub write_merged_name_extends :
    (current rest : Bytes) → write_merged_name current (current ++ rest) ≡ current ++ rest
unfolding write_merged_name
write_merged_name_extends [] rest = refl
write_merged_name_extends (c ∷ current) rest =
    elim (Bool-cases ((c ∷ current ++ rest) == (c ∷ current))) [
      | inl same ↦ rw same (sym (eq_of_== (c ∷ current ++ rest) (c ∷ current) same))
      | inr other ↦ rw (other, has_prefix-append (c ∷ current) rest)
    ]

consume_tool_unique :
    (raw : ChatDeltaTool) (tools : Tools) → UniqueKeys tools → UniqueKeys (consume_tool raw tools)
unfolding consume_tool
consume_tool_unique raw tools u = UniqueKeys-insert (tool_index raw tools) _ tools u

tool_name_grows :
    (i : ℤ) (raw : ChatDeltaTool) (tools : Tools)
    → has_prefix (tool_of i (consume_tool raw tools)).name (tool_of i tools).name ≡ true
unfolding consume_tool extend_tool
tool_name_grows i raw tools =
    let j = tool_index raw tools in
    let t = tool_of j tools in
    rw (tool_of-insert i j (extend_tool raw t) tools) (elim (Bool-cases (j == i)) [
      | inl same ↦
          rw (same, ← eq_of_== j i same)
            (elim (Bool-cases (is_blank raw.name)) [
              | inl e ↦ rw e (has_prefix_self t.name)
              | inr e ↦ rw e (write_merged_name_grows t.name raw.name)
            ])
      | inr other ↦ rw other (has_prefix_self (tool_of i tools).name)
    ])

has_prefix_trans :
    (a b c : Bytes) → has_prefix a b ≡ true → has_prefix b c ≡ true → has_prefix a c ≡ true
unfolding has_prefix
has_prefix_trans a b [] h k = refl
has_prefix_trans a [] (z ∷ c) h k = cc
has_prefix_trans [] (y ∷ b) (z ∷ c) h k = cc
has_prefix_trans (x ∷ a) (y ∷ b) (z ∷ c) h k = ground (arith, has_prefix_trans a b c)

-- Whatever fragments come, no tool call is listed twice and the name of each only grows.
pub consume_tools_names :
    (i : ℤ) (raws : List ChatDeltaTool) (tools : Tools)
    → UniqueKeys tools
    → UniqueKeys (consume_tools raws tools)
      × (has_prefix (tool_of i (consume_tools raws tools)).name (tool_of i tools).name ≡ true)
unfolding consume_tools
consume_tools_names i [] tools u = (u, has_prefix_self (tool_of i tools).name)
consume_tools_names i (raw ∷ raws) tools u =
    let (v, g) =
      consume_tools_names i raws (consume_tool raw tools) (consume_tool_unique raw tools u) in
    (v, has_prefix_trans _ _ (tool_of i tools).name g (tool_name_grows i raw tools))
