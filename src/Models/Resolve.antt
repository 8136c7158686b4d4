-- ===== src/Models/Resolve.antt =====
-- What the resolution of a model's name promises, cmd/server/model_policies.go.
use opencode_rush_free.Base.{
  Bool, Bytes, Option, ap, bytes_eq, false, if_cases, inl, inr, lookup, nat_eq, none, refl, some,
  string_eq, subst, sym, true, ◌∙◌, ◌≡◌, ◌⊎◌,
}
use opencode_rush_free.Models.{
  ModelRuntime, ResolveResult, resolved, not_enabled, target_missing, is_enabled, model_available,
  resolve_target, resolve_alias, resolve_model,
}

abbrev OnResolved : (Bytes → Type 0) → ResolveResult → Type 0
OnResolved P (resolved id) = P id
OnResolved P _ = Unit

-- The name itself, or the target of its alias.
abbrev pub Names : ModelRuntime → Bytes → Bytes → Type 0
Names rt requested id = (id ≡ requested) ⊎ (lookup requested rt.aliases ≡ some id)

target-available :
    (rt : ModelRuntime) (target : Bytes) (o : Option Bool)
    → lookup target rt.models ≡ o
    → OnResolved (λ id. (id ≡ target) × (model_available rt id ≡ true)) (resolve_target target o)
target-available rt target none e = tt
target-available rt target (some false) e = tt
target-available rt target (some true) e = (refl, ap is_enabled e)

alias-available :
    (rt : ModelRuntime) (requested : Bytes) (o : Option Bytes)
    → lookup requested rt.aliases ≡ o
    → OnResolved (λ id. Names rt requested id × (model_available rt id ≡ true)) (resolve_alias rt o)
alias-available rt requested none e = tt
alias-available rt requested (some target) e =
    narrow (resolve_target target (lookup target rt.models))
      (target-available rt target (lookup target rt.models) refl)
  where
    narrow :
        (r : ResolveResult)
        → OnResolved (λ id. (id ≡ target) × (model_available rt id ≡ true)) r
        → OnResolved (λ id. Names rt requested id × (model_available rt id ≡ true)) r
    narrow (resolved id) h = (inr (e ∙ ap (λ x. some x) (sym h.0)), h.1)
    narrow not_enabled h = tt
    narrow target_missing h = tt

-- A name resolves only to a model that is there and enabled: itself, or what it is an alias for. An alias
-- is not followed twice.
pub resolve_model-available :
    (rt : ModelRuntime) (requested id : Bytes)
    → resolve_model rt requested ≡ resolved id
    → Names rt requested id × (model_available rt id ≡ true)
unfolding resolve_model
resolve_model-available rt requested id h =
    let P = λ (id : Bytes). Names rt requested id × (model_available rt id ≡ true) in
    subst (OnResolved P) h (
      if_cases (OnResolved P) (model_available rt requested) (λ e. (inl refl, e))
        (λ _. alias-available rt requested (lookup requested rt.aliases) refl))
