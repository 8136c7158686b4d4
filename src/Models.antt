-- ===== src/Models.antt =====
-- Which model a request gets, cmd/server/model_policies.go, what is a free model, cmd/server/main.go, and
-- whose error a request is, cmd/server/main.go. `strconv.ParseFloat` is an argument.
use opencode_rush_free.Base.{
  Bool, Bytes, List, Option, String, [], any, bytes_eq, codes, contains, false, if◌then◌else◌, leb,
  lookup, nat_eq, none, not, some, string_eq, to_lower, trim_space, ℕ, ◌==◌, ◌||◌, ◌∷◌,
}
pub mod Resolve
pub mod Aliases
mod Tests

-- The models at hand with whether the administrator has enabled them, and the aliases.
pub record ModelRuntime : Type 0 where
  pub models : List (Bytes × Bool)
  pub aliases : List (Bytes × Bytes)

pub data ResolveResult : Type 0 where
  resolved : Bytes → ResolveResult
  not_enabled : ResolveResult
  target_missing : ResolveResult

abbrev pub is_enabled : Option Bool → Bool
is_enabled none = false
is_enabled (some enabled) = enabled

abbrev pub model_available : ModelRuntime → Bytes → Bool
model_available rt id = is_enabled (lookup id rt.models)

abbrev pub resolve_target : Bytes → Option Bool → ResolveResult
resolve_target target none = target_missing
resolve_target target (some enabled) = if not enabled then not_enabled else resolved target

abbrev pub resolve_alias : ModelRuntime → Option Bytes → ResolveResult
resolve_alias rt none = not_enabled
resolve_alias rt (some target) = resolve_target target (lookup target rt.models)

unfoldable pub resolve_model : ModelRuntime → Bytes → ResolveResult
resolve_model rt requested =
    if model_available rt requested
    then resolved requested
    else resolve_alias rt (lookup requested rt.aliases)

abbrev pub external_markers : List Bytes
external_markers =
    codes "context canceled"
    ∷ codes "context deadline exceeded"
    ∷ codes "unexpected eof"
    ∷ codes "proxyconnect"
    ∷ codes "not enough bandwidth"
    ∷ codes "could not locate image content"
    ∷ codes "vision helper"
    ∷ codes "error from provider"
    ∷ codes "upstream request failed"
    ∷ codes "all proxies failed"
    ∷ []

pub data ErrorOrigin : Type 0 where
  internal external no_error user : ErrorOrigin

unfoldable pub usage_error_origin : String → String → ℕ → Bytes → ErrorOrigin
usage_error_origin kind status code message =
    let lower = to_lower (trim_space message) in
    if not (kind == "chat")
    then internal
    else if code == 0 || code == 499 || leb 500 code || code == 451
    then external
    else if any (λ marker. contains lower marker) external_markers
    then external
    else if status == "success"
    then no_error
    else user
