-- ===== src/Models/Aliases.antt =====
-- The administrator's policies and aliases of models, cmd/server/model_policies.go, and the cache that requests resolve
-- names with, cmd/server/runtime_cache.go. What the database answers is a flag; refreshing the models is not here.
use opencode_rush_free.Base.{
  Bool, Bytes, List, Option, [], any, bytes_eq, false, filter, if◌then◌else◌, insert, leb, length,
  lookup, map, nat_eq, none, not, some, string_eq, suc, trim_space, true, ℕ, ◌&&◌, ◌++◌, ◌==◌, ◌||◌,
  ◌∷◌,
}
use opencode_rush_free.Models.{ModelRuntime, ResolveResult, resolve_model, resolve_target}
pub mod Cached
pub mod Created

pub record ModelRow : Type 0 where
  pub id : ℕ
  pub model_id : Bytes
  pub is_free : Bool

pub record AliasRow : Type 0 where
  pub id : ℕ
  pub alias : Bytes
  pub target : Bytes
  pub enabled : Bool

pub record ModelState : Type 0 where
  pub rows : List ModelRow
  pub policies : List (Bytes × Bool)
  pub aliases : List AliasRow
  pub next_id : ℕ
  pub cached : Option ModelRuntime

-- `COALESCE(p.enabled,1)`.
abbrev pub enabled_of : Option Bool → Bool
enabled_of none = true
enabled_of (some enabled) = enabled

-- The loops of `loadModelRuntime` over the free models and the enabled aliases; `models[id] = ...` overwrites.
unfoldable pub read_models :
    List (Bytes × Bool) → List ModelRow → List (Bytes × Bool) → List (Bytes × Bool)
unfolding insert lookup
read_models policies [] models = models
read_models policies (row ∷ rows) models =
    let next =
      if row.is_free
      then insert row.model_id (enabled_of (lookup row.model_id policies)) models
      else models in
    read_models policies rows next

unfoldable pub read_aliases : List AliasRow → List (Bytes × Bytes) → List (Bytes × Bytes)
unfolding insert
read_aliases [] aliases = aliases
read_aliases (row ∷ rows) aliases =
    let next = if row.enabled then insert row.alias row.target aliases else aliases in
    read_aliases rows next

unfoldable pub runtime_of : ModelState → ModelRuntime
unfolding read_models read_aliases
runtime_of s = record {
  models = read_models s.policies s.rows [];
  aliases = read_aliases s.aliases [];
}

abbrev pub load_from :
    Bool → ModelState → Option ModelRuntime → ModelRuntime → Option ModelRuntime × ModelState
load_from answers s (some rt) fresh = (some rt, s)
load_from false s none fresh = (none, s)
load_from true s none fresh = (some fresh, record s { cached = some fresh })

unfoldable pub load_model_runtime : Bool → ModelState → Option ModelRuntime × ModelState
unfolding runtime_of
load_model_runtime answers s = load_from answers s s.cached (runtime_of s)

-- `invalidateModelRuntimeCache`.
abbrev pub invalidate_models : ModelState → ModelState
invalidate_models s = record s { cached = none }

-- `SELECT model_id FROM models WHERE id=? AND is_free=1`.
unfoldable pub find_free : ℕ → List ModelRow → Option Bytes
find_free id [] = none
find_free id (row ∷ rows) =
    if row.id == id && row.is_free then some row.model_id else find_free id rows

unfoldable pub patch_found_policy : Bool → Bool → Option Bytes → ModelState → ℕ × ModelState
unfolding insert
patch_found_policy answers enabled none s = (404, s)
patch_found_policy answers enabled (some model) s =
    if answers
    then (200, invalidate_models (record s { policies = insert model enabled s.policies }))
    else (500, s)

-- The parsed id, `none` if it is no positive number, and the form's `enabled`, `none` if it is missing.
unfoldable pub patch_model_policy :
    Bool → Bool → Option ℕ → Option Bool → ModelState → ℕ × ModelState
unfolding patch_found_policy find_free
patch_model_policy loads answers none enabled s = (400, s)
patch_model_policy loads answers (some id) none s = (400, s)
patch_model_policy loads answers (some id) (some enabled) s =
    if loads then patch_found_policy answers enabled (find_free id s.rows) s else (500, s)

unfoldable pub valid_alias : Bytes → Bool
valid_alias value =
    not (value == [])
    && (leb (length value) 128 && not (any (λ c. c == 13 || c == 10 || c == 9 || c == 32) value))

-- `SELECT COUNT(*) FROM models WHERE model_id=? AND is_free=1`, tested against zero.
unfoldable pub is_free_model : Bytes → List ModelRow → Bool
is_free_model model rows = any (λ (row : ModelRow). row.is_free && row.model_id == model) rows

-- Every error is answered with 400.
unfoldable pub validate_alias_target : Bool → Bytes → Bytes → List ModelRow → Bool
unfolding valid_alias is_free_model
validate_alias_target counts alias target rows =
    valid_alias alias
    && (not (alias == target)
        && (counts && (not (is_free_model alias rows) && is_free_model target rows)))

abbrev pub has_alias : Bytes → List AliasRow → Bool
has_alias alias rows = any (λ (row : AliasRow). row.alias == alias) rows

pub record AliasForm : Type 0 where
  pub alias : Bytes
  pub target : Bytes

unfoldable pub insert_alias : Bool → Bytes → Bytes → ModelState → ℕ × ModelState
insert_alias answers alias target s =
    if not answers then (500, s) else if has_alias alias s.aliases then (409, s) else (
      201,
      invalidate_models (record s {
        aliases =
            s.aliases
            ++ (record { id = s.next_id; alias = alias; target = target; enabled = true } ∷ []);
        next_id = suc s.next_id;
      }),
    )

unfoldable pub create_model_alias : Bool → Bool → Option AliasForm → ModelState → ℕ × ModelState
unfolding trim_space validate_alias_target insert_alias
create_model_alias counts answers none s = (400, s)
create_model_alias counts answers (some form) s =
    if validate_alias_target counts (trim_space form.alias) (trim_space form.target) s.rows
    then insert_alias answers (trim_space form.alias) (trim_space form.target) s
    else (400, s)

unfoldable pub find_alias : ℕ → List AliasRow → Option AliasRow
find_alias id [] = none
find_alias id (row ∷ rows) = if row.id == id then some row else find_alias id rows

unfoldable pub update_alias : ℕ → Bytes → Bool → AliasRow → AliasRow
update_alias id target enabled row =
    if row.id == id then record row { target = target; enabled = enabled } else row

pub record AliasPatch : Type 0 where
  pub target : Option Bytes
  pub enabled : Option Bool

unfoldable pub new_target : Bytes → Option Bytes → Bytes
unfolding trim_space
new_target old none = old
new_target old (some target) = trim_space target

abbrev pub new_enabled : Bool → Option Bool → Bool
new_enabled old none = old
new_enabled old (some enabled) = enabled

unfoldable pub patch_found_alias :
    Bool → Bool → ℕ → Option AliasPatch → Option AliasRow → ModelState → ℕ × ModelState
unfolding validate_alias_target update_alias new_target
patch_found_alias counts answers id form none s = (404, s)
patch_found_alias counts answers id none (some row) s = (400, s)
patch_found_alias counts answers id (some form) (some row) s =
    let target = new_target row.target form.target in
    if not (validate_alias_target counts row.alias target s.rows)
    then (400, s)
    else if not answers
    then (500, s)
    else (
      200,
      invalidate_models (record s {
        aliases = map (update_alias id target (new_enabled row.enabled form.enabled)) s.aliases;
      }),
    )

unfoldable pub patch_model_alias :
    Bool → Bool → Bool → Option ℕ → Option AliasPatch → ModelState → ℕ × ModelState
unfolding patch_found_alias find_alias
patch_model_alias loads counts answers none form s = (400, s)
patch_model_alias loads counts answers (some id) form s =
    if loads then patch_found_alias counts answers id form (find_alias id s.aliases) s else (500, s)

unfoldable pub delete_model_alias : Bool → Option ℕ → ModelState → ℕ × ModelState
delete_model_alias answers none s = (400, s)
delete_model_alias answers (some id) s =
    let rest = filter (λ (row : AliasRow). not (row.id == id)) s.aliases in
    if not answers
    then (500, s)
    else if length rest == length s.aliases
    then (404, s)
    else (200, invalidate_models (record s { aliases = rest }))
