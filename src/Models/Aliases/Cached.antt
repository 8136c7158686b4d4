-- ===== src/Models/Aliases/Cached.antt =====
-- The cache of models and aliases against the tables, and an alias from its creation to a request,
-- cmd/server/model_policies.go.
use opencode_rush_free.Base.{
  Bool, Bytes, List, Option, [], ap, bytes_eq, false, filter, if◌then◌else◌, insert, length, map,
  nat_eq, none, not, refl, some, string_eq, suc, trim_space, true, ℕ, ◌++◌, ◌==◌, ◌∷◌, ◌≡◌,
}
use opencode_rush_free.Models.{ModelRuntime}
use opencode_rush_free.Models.Aliases.{
  AliasRow, ModelState, runtime_of, load_from, load_model_runtime, invalidate_models, find_free,
  patch_found_policy, patch_model_policy, validate_alias_target, has_alias, AliasForm, insert_alias,
  create_model_alias, find_alias, AliasPatch, patch_found_alias, patch_model_alias,
  delete_model_alias, new_target, update_alias, new_enabled,
}

-- A loaded cache is what reading the tables again gives.
abbrev FreshCache : Option ModelRuntime → ModelRuntime → Type 0
FreshCache none rt = Unit
FreshCache (some cached) rt = cached ≡ rt

unfoldable pub CacheFresh : ModelState → Type 0
unfolding runtime_of
CacheFresh s = FreshCache s.cached (runtime_of s)

emptied : (s : ModelState) → CacheFresh (invalidate_models s)
unfolding CacheFresh
emptied s = tt

either-CacheFresh :
    (b : Bool) (x y : ℕ × ModelState)
    → CacheFresh x.1
    → CacheFresh y.1
    → CacheFresh (if b then x else y).1
either-CacheFresh true x y p q = p
either-CacheFresh false x y p q = q

-- What a request reads through a fresh cache is what the tables say.
pub load_model_runtime-CacheFresh :
    (answers : Bool) (s : ModelState) → CacheFresh s → CacheFresh (load_model_runtime answers s).1
unfolding CacheFresh load_model_runtime runtime_of
load_model_runtime-CacheFresh answers s c = of_cache s.cached answers c
  where
    of_cache :
        (o : Option ModelRuntime) (b : Bool)
        → FreshCache o (runtime_of s)
        → FreshCache
            (load_from b s o (runtime_of s)).1.cached
            (runtime_of (load_from b s o (runtime_of s)).1)
    of_cache (some rt) b e = c
    of_cache none false e = c
    of_cache none true e = refl

loaded : (s : ModelState) → CacheFresh s → (load_model_runtime true s).0 ≡ some (runtime_of s)
unfolding CacheFresh load_model_runtime
loaded s c = of_cache s.cached c
  where
    of_cache :
        (o : Option ModelRuntime)
        → FreshCache o (runtime_of s)
        → (load_from true s o (runtime_of s)).0 ≡ some (runtime_of s)
    of_cache (some rt) e = ap some e
    of_cache none e = refl

pub data ModelOp : Type 0 where
  loads_runtime : Bool → ModelOp
  patches_policy : Bool → Bool → Option ℕ → Option Bool → ModelOp
  creates_alias : Bool → Bool → Option AliasForm → ModelOp
  patches_alias : Bool → Bool → Bool → Option ℕ → Option AliasPatch → ModelOp
  deletes_alias : Bool → Option ℕ → ModelOp

unfoldable pub perform : ModelOp → ModelState → ModelState
unfolding load_model_runtime patch_model_policy create_model_alias patch_model_alias
    delete_model_alias
perform (loads_runtime answers) s = (load_model_runtime answers s).1
perform (patches_policy loads answers id enabled) s =
    (patch_model_policy loads answers id enabled s).1
perform (creates_alias counts answers form) s = (create_model_alias counts answers form s).1
perform (patches_alias loads counts answers id form) s =
    (patch_model_alias loads counts answers id form s).1
perform (deletes_alias answers id) s = (delete_model_alias answers id s).1

patch_model_policy-CacheFresh :
    (loads answers : Bool) (id : Option ℕ) (enabled : Option Bool) (s : ModelState)
    → CacheFresh s
    → CacheFresh (patch_model_policy loads answers id enabled s).1
unfolding patch_model_policy
patch_model_policy-CacheFresh loads answers none enabled s c = c
patch_model_policy-CacheFresh loads answers (some id) none s c = c
patch_model_policy-CacheFresh loads answers (some id) (some enabled) s c =
    either-CacheFresh loads (patch_found_policy answers enabled (find_free id s.rows) s) (500, s)
      (of_model (find_free id s.rows)) c
  where
    of_model : (o : Option Bytes) → CacheFresh (patch_found_policy answers enabled o s).1
    of_model none = c
    of_model (some model) =
        let t = record s { policies = insert model enabled s.policies } in
        either-CacheFresh answers (200, invalidate_models t) (500, s) (emptied t) c

insert_alias-CacheFresh :
    (answers : Bool) (alias target : Bytes) (s : ModelState)
    → CacheFresh s
    → CacheFresh (insert_alias answers alias target s).1
unfolding insert_alias
insert_alias-CacheFresh answers alias target s c =
    let t = record s {
      aliases =
          s.aliases
          ++ (record { id = s.next_id; alias = alias; target = target; enabled = true } ∷ []);
      next_id = suc s.next_id;
    } in
    let taken = has_alias alias s.aliases in
    either-CacheFresh (not answers) (500, s)
      (if taken then (409, s) else (201, invalidate_models t)) c
      (either-CacheFresh taken (409, s) (201, invalidate_models t) c (emptied t))

create_model_alias-CacheFresh :
    (counts answers : Bool) (form : Option AliasForm) (s : ModelState)
    → CacheFresh s
    → CacheFresh (create_model_alias counts answers form s).1
unfolding create_model_alias
create_model_alias-CacheFresh counts answers none s c = c
create_model_alias-CacheFresh counts answers (some form) s c =
    let alias = trim_space form.alias in
    let target = trim_space form.target in
    either-CacheFresh (validate_alias_target counts alias target s.rows)
      (insert_alias answers alias target s) (400, s)
      (insert_alias-CacheFresh answers alias target s c) c

patch_model_alias-CacheFresh :
    (loads counts answers : Bool) (id : Option ℕ) (form : Option AliasPatch) (s : ModelState)
    → CacheFresh s
    → CacheFresh (patch_model_alias loads counts answers id form s).1
unfolding patch_model_alias patch_found_alias
patch_model_alias-CacheFresh loads counts answers none form s c = c
patch_model_alias-CacheFresh loads counts answers (some id) form s c =
    either-CacheFresh loads (patch_found_alias counts answers id form (find_alias id s.aliases) s)
      (500, s) (of_row form (find_alias id s.aliases)) c
  where
    of_row :
        (f : Option AliasPatch) (o : Option AliasRow)
        → CacheFresh (patch_found_alias counts answers id f o s).1
    of_row f none = c
    of_row none (some row) = c
    of_row (some f) (some row) =
        let target = new_target row.target f.target in
        let t = record s {
          aliases = map (update_alias id target (new_enabled row.enabled f.enabled)) s.aliases;
        } in
        let refused = not (validate_alias_target counts row.alias target s.rows) in
        either-CacheFresh refused (400, s)
          (if not answers then (500, s) else (200, invalidate_models t)) c
          (either-CacheFresh (not answers) (500, s) (200, invalidate_models t) c (emptied t))

delete_model_alias-CacheFresh :
    (answers : Bool) (id : Option ℕ) (s : ModelState)
    → CacheFresh s
    → CacheFresh (delete_model_alias answers id s).1
unfolding delete_model_alias
delete_model_alias-CacheFresh answers none s c = c
delete_model_alias-CacheFresh answers (some id) s c =
    let t = record s { aliases = filter (λ (row : AliasRow). not (row.id == id)) s.aliases } in
    let none_gone = length t.aliases == length s.aliases in
    either-CacheFresh (not answers) (500, s)
      (if none_gone then (404, s) else (200, invalidate_models t)) c
      (either-CacheFresh none_gone (404, s) (200, invalidate_models t) c (emptied t))

perform-CacheFresh : (op : ModelOp) (s : ModelState) → CacheFresh s → CacheFresh (perform op s)
unfolding perform
perform-CacheFresh (loads_runtime answers) s c = load_model_runtime-CacheFresh answers s c
perform-CacheFresh (patches_policy loads answers id enabled) s c =
    patch_model_policy-CacheFresh loads answers id enabled s c
perform-CacheFresh (creates_alias counts answers form) s c =
    create_model_alias-CacheFresh counts answers form s c
perform-CacheFresh (patches_alias loads counts answers id form) s c =
    patch_model_alias-CacheFresh loads counts answers id form s c
perform-CacheFresh (deletes_alias answers id) s c = delete_model_alias-CacheFresh answers id s c

unfoldable pub perform_all : List ModelOp → ModelState → ModelState
unfolding perform
perform_all [] s = s
perform_all (op ∷ ops) s = perform_all ops (perform op s)

perform_all-CacheFresh :
    (ops : List ModelOp) (s : ModelState) → CacheFresh s → CacheFresh (perform_all ops s)
unfolding perform_all
perform_all-CacheFresh [] s c = c
perform_all-CacheFresh (op ∷ ops) s c =
    perform_all-CacheFresh ops (perform op s) (perform-CacheFresh op s c)

-- After any operations on policies and aliases and any requests, a request that reads the models through the
-- cache, with a database that answers, gets what the tables say now.
pub load_model_runtime_lem :
    (ops : List ModelOp) (s : ModelState)
    → CacheFresh s
    → (load_model_runtime true (perform_all ops s)).0 ≡ some (runtime_of (perform_all ops s))
load_model_runtime_lem ops s c = loaded (perform_all ops s) (perform_all-CacheFresh ops s c)
