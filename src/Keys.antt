-- ===== src/Keys.antt =====
-- The client keys, cmd/server/client_keys.go, and their cache, cmd/server/runtime_cache.go. The table is an
-- association list from the hash, which is unique, to the key; a statement fails if the table behind it
-- had a hash twice, or if the database does not answer, which an argument says. Times are seconds.
use opencode_rush_free.Base.{
  Bool, Bytes, List, Option, [], any, bytes_eq, codes, false, if◌then◌else◌, insert, leb, lookup,
  map, nat_eq, none, not, some, string_eq, suc, true, ℕ, ◌&&◌, ◌++◌, ◌==◌, ◌∷◌,
}
use opencode_rush_free.Limiter.{ClientKey}
pub mod Cache
pub mod Access
pub mod Admin
pub mod Rotation
pub mod Kept
pub mod Steps
pub mod Revocation
pub mod Disabled
pub mod Credential
mod Tests

pub record KeyState : Type 0 where
  pub rows : List (Bytes × ClientKey)
  pub legacy_hash : Option Bytes
  pub next_id : ℕ
  pub cached : Option (List (Bytes × ClientKey))

-- What the database answers to the statements of one request; `hash_token` is the hash of `hashToken`.
pub record Answers : Type 0 where
  pub loads : Bool
  pub reads_legacy : Bool
  pub updates : Bool
  pub inserts : Bool
  pub reloads : Bool

pub data AuthError : Type 0 where
  missing_key invalid_key key_disabled key_expired no_database : AuthError

pub data AuthResult : Type 0 where
  authenticated : ClientKey → AuthResult
  auth_failed : AuthError → AuthResult
  auth_panics : AuthResult

abbrev pub is_none {ℓ} : {A : Type ℓ} → Option A → Bool
is_none none = true
is_none (some a) = false

-- The constraint UNIQUE on the column of the hashes.
unfoldable pub unique_hashes : List (Bytes × ClientKey) → Bool
unfolding lookup
unique_hashes [] = true
unique_hashes ((h, k) ∷ rows) = is_none (lookup h rows) && unique_hashes rows

-- A statement that would leave the given table.
unfoldable pub commit : Bool → List (Bytes × ClientKey) → Option (List (Bytes × ClientKey))
unfolding unique_hashes
commit answers rows = if answers && unique_hashes rows then some rows else none

abbrev pub with_rows : List (Bytes × ClientKey) → KeyState → KeyState
with_rows rows s = record s { rows = rows }

-- `invalidateClientKeyCache`.
abbrev pub invalidate_client_key_cache : KeyState → KeyState
invalidate_client_key_cache s = record s { cached = none }

-- The loop of `loadCachedClientKeys` over the rows.
unfoldable pub read_rows :
    List (Bytes × ClientKey) → List (Bytes × ClientKey) → List (Bytes × ClientKey)
unfolding insert
read_rows [] by_hash = by_hash
read_rows ((h, k) ∷ rows) by_hash = read_rows rows (insert h k by_hash)

unfoldable pub fill_cache : Bool → KeyState → Option (List (Bytes × ClientKey)) × KeyState
unfolding read_rows
fill_cache false s = (none, s)
fill_cache true s = (some (read_rows s.rows []), record s { cached = some (read_rows s.rows []) })

abbrev pub load_of :
    Option (List (Bytes × ClientKey))
    → Bool
    → KeyState
    → Option (List (Bytes × ClientKey)) × KeyState
load_of (some by_hash) answers s = (some by_hash, s)
load_of none answers s = fill_cache answers s

unfoldable pub load_cached_client_keys :
    Bool → KeyState → Option (List (Bytes × ClientKey)) × KeyState
load_cached_client_keys answers s = load_of s.cached answers s

unfoldable pub found_in : Bytes → Option (List (Bytes × ClientKey)) → Option (Option ClientKey)
unfolding lookup
found_in hash none = none
found_in hash (some by_hash) = some (lookup hash by_hash)

-- `cachedClientKey`: `none` is an error of the database, `some none` a hash that is not there.
unfoldable pub cached_client_key : Bool → Bytes → KeyState → Option (Option ClientKey) × KeyState
unfolding load_cached_client_keys
cached_client_key answers hash s =
    let (keys, t) = load_cached_client_keys answers s in (found_in hash keys, t)

-- `!key.ExpiresAt.After(now)`, of a key that expires.
abbrev pub is_past : ℕ → Option ℕ → Bool
is_past now none = false
is_past now (some at) = leb at now

unfoldable pub check_key : ℕ → ClientKey → AuthResult
check_key now key =
    if not key.enabled
    then auth_failed key_disabled
    else if is_past now key.expires_at
    then auth_failed key_expired
    else authenticated key

abbrev pub legacy_name : Bytes
legacy_name = codes "Legacy"

-- A row that the update of the legacy key changes.
unfoldable pub revive_row : Bytes → Bytes × ClientKey → Bytes × ClientKey
revive_row hash (h, key) =
    if key.name == legacy_name
    then (hash, record key { hint = codes "legacy"; enabled = true })
    else (h, key)

abbrev pub new_legacy_key : ℕ → ℕ → ClientKey
new_legacy_key id now = record {
  id = id;
  name = legacy_name;
  hint = codes "legacy";
  enabled = true;
  expires_at = none;
  rpm_limit = 0;
  tpm_limit = 0;
  last_used_at = none;
  created_at = now;
}

abbrev pub inserted : Option (List (Bytes × ClientKey)) → KeyState → KeyState
inserted none s = s
inserted (some rows) s = record s { rows = rows; next_id = suc s.next_id }

-- The insertion of a legacy key, of which the error is dropped.
unfoldable pub insert_legacy : Bool → Bytes → ℕ → KeyState → KeyState
unfolding commit
insert_legacy answers hash now s =
    inserted (commit answers (s.rows ++ ((hash, new_legacy_key s.next_id now) ∷ []))) s

abbrev pub reloaded : Option (Option ClientKey) × KeyState → AuthResult × KeyState
reloaded (some (some key), t) = (authenticated key, t)
reloaded (some none, t) = (auth_failed invalid_key, t)
reloaded (none, t) = (auth_failed invalid_key, t)

-- The legacy branch behind the update. If that fails, the result is nil, and asking it for the rows it has
-- changed panics.
unfoldable pub after_update :
    Answers → Bytes → ℕ → Option (List (Bytes × ClientKey)) → KeyState → AuthResult × KeyState
unfolding insert_legacy cached_client_key
after_update db hash now none s = (auth_panics, s)
after_update db hash now (some rows) s =
    let updated = any (λ (r : Bytes × ClientKey). r.1.name == legacy_name) s.rows in
    let t =
      if updated then with_rows rows s else insert_legacy db.inserts hash now (with_rows rows s) in
    reloaded (cached_client_key db.reloads hash (invalidate_client_key_cache t))

abbrev pub is_legacy : Bool → Bytes → Option Bytes → Bool
is_legacy false hash legacy = false
is_legacy true hash none = false
is_legacy true hash (some legacy) = hash == legacy

unfoldable pub revive_legacy : Answers → Bytes → ℕ → KeyState → AuthResult × KeyState
unfolding after_update revive_row commit
revive_legacy db hash now s =
    if is_legacy db.reads_legacy hash s.legacy_hash
    then after_update db hash now (commit db.updates (map (revive_row hash) s.rows)) s
    else (auth_failed invalid_key, s)

unfoldable pub look_up :
    Answers → Bytes → ℕ → Option (Option ClientKey) × KeyState → AuthResult × KeyState
unfolding check_key revive_legacy
look_up db hash now (none, s) = (auth_failed no_database, s)
look_up db hash now (some none, s) = revive_legacy db hash now s
look_up db hash now (some (some key), s) = (check_key now key, s)

unfoldable pub authenticate_client :
    (Bytes → Bytes) → Answers → Bytes → ℕ → KeyState → AuthResult × KeyState
unfolding cached_client_key
authenticate_client hash_token db supplied now s =
    if supplied == []
    then (auth_failed missing_key, s)
    else look_up db (hash_token supplied) now (cached_client_key db.loads (hash_token supplied) s)
