-- ===== src/Gateway/Engine.antt =====
-- The settings of the Resin gateway, cmd/server/resin.go. `url.Parse` is an argument: the parts of the URL that the
-- code reads, and `String` of what is left without a path.
use opencode_rush_free.Base.{
  Bool, Bytes, List, Option, [], any, bytes_eq, codes, if◌then◌else◌, nat_eq, none, not, some,
  string_eq, to_lower, trim_space, ◌&&◌, ◌==◌, ◌||◌, ◌∷◌,
}

pub record ParsedUrl : Type 0 where
  pub scheme : Bytes
  pub hostname : Bytes
  pub port : Bytes
  pub path : Bytes
  pub has_user : Bool
  pub raw_query : Bytes
  pub fragment : Bytes
  pub without_path : Bytes

abbrev pub resin_schemes : List Bytes
resin_schemes = codes "http" ∷ codes "https" ∷ codes "socks5" ∷ codes "socks5h" ∷ []

abbrev pub has_extra : ParsedUrl → Bool
has_extra u =
    u.has_user
    || not (u.raw_query == [])
    || not (u.fragment == [])
    || (not (u.path == []) && not (u.path == codes "/"))

abbrev pub accepted_url : Option ParsedUrl → Option Bytes
accepted_url none = none
accepted_url (some u) =
    if u.hostname == []
    then none
    else if not (any (λ scheme. u.scheme == scheme) resin_schemes)
    then none
    else if u.port == []
    then none
    else if has_extra u
    then none
    else some u.without_path

unfoldable pub validate_resin_gateway_url : (Bytes → Option ParsedUrl) → Bytes → Option Bytes
unfolding trim_space
validate_resin_gateway_url parse_url raw = accepted_url (parse_url (trim_space raw))

-- `".:|/\\@?#%~ \t\r\n"`.
abbrev pub platform_stops : Bytes
platform_stops = 46 ∷ 58 ∷ 124 ∷ 47 ∷ 92 ∷ 64 ∷ 63 ∷ 35 ∷ 37 ∷ 126 ∷ 32 ∷ 9 ∷ 13 ∷ 10 ∷ []

unfoldable pub validate_resin_platform : Bytes → Option Bytes
unfolding trim_space to_lower
validate_resin_platform raw =
    let value = trim_space raw in
    if value == []
    then none
    else if to_lower value == codes "api"
    then none
    else if any (λ c. any (λ stop. c == stop) platform_stops) value
    then none
    else some value

-- `proxyEngineConfig`, as far as requests read it.
pub record EngineConfig : Type 0 where
  pub is_resin : Bool
  pub gateway_url : Bytes
  pub platform : Bytes
  pub dynamic_scoring : Bool
