-- ===== src/Keys/Rotation.antt =====
-- New keys in place of old ones, the migration of the legacy key, and the time of a key's last use,
-- cmd/server/client_keys.go.
use opencode_rush_free.Base.{
  Bool, Bytes, List, Option, [], bytes_eq, codes, false, if◌then◌else◌, lookup, ltb, map, nat_eq,
  none, not, some, string_eq, true, ℕ, ◌&&◌, ◌++◌, ◌-◌, ◌==◌, ◌||◌, ◌∷◌,
}
use opencode_rush_free.Limiter.{ClientKey}
use opencode_rush_free.Keys.{
  KeyState, commit, inserted, with_rows, invalidate_client_key_cache, new_legacy_key,
}
use opencode_rush_free.Keys.Admin.{client_key_hint, find_key, update_row, committed_answer}

-- The columns that a rotation writes.
unfoldable pub rotate_row : Bytes → Bytes → Bytes × ClientKey → Bytes × ClientKey
rotate_row hash hint (h, key) = (hash, record key { hint = hint })

-- The setting of the legacy key is written if the rotated key has its name; an error of that is dropped.
abbrev pub rotated_answer : Bool → Bytes → ClientKey → ℕ × KeyState → ℕ × KeyState
rotated_answer writes hash key (status, s) =
    if status == 200 && writes && key.name == codes "Legacy"
    then (status, record s { legacy_hash = some hash })
    else (status, s)

unfoldable pub rotate_row_of :
    (Bytes → Bytes) → Bool → Bool → ℕ → ClientKey → Option Bytes → KeyState → ℕ × KeyState
unfolding commit update_row rotate_row client_key_hint
rotate_row_of hash_token answers writes id key none s = (500, s)
rotate_row_of hash_token answers writes id key (some plain) s =
    let hash = hash_token plain in
    let rows =
      commit answers (map (update_row id (rotate_row hash (client_key_hint plain))) s.rows) in
    rotated_answer writes hash key (committed_answer rows s)

unfoldable pub rotate_found :
    (Bytes → Bytes) → Bool → Bool → ℕ → Option ClientKey → Option Bytes → KeyState → ℕ × KeyState
unfolding rotate_row_of
rotate_found hash_token answers writes id none random s = (404, s)
rotate_found hash_token answers writes id (some key) random s =
    rotate_row_of hash_token answers writes id key random s

unfoldable pub rotate_named_client_key :
    (Bytes → Bytes) → Bool → Bool → Bool → Option ℕ → Option Bytes → KeyState → ℕ × KeyState
unfolding rotate_found find_key
rotate_named_client_key hash_token loads answers writes none random s = (400, s)
rotate_named_client_key hash_token loads answers writes (some id) random s =
    if not loads
    then (500, s)
    else rotate_found hash_token answers writes id (find_key id s.rows) random s

-- `migrateLegacyClientKey`: the legacy hash gets a row if it has none. `none` is an error.
unfoldable pub migrate_found : ℕ → Bytes → Option ClientKey → KeyState → KeyState
unfolding commit
migrate_found now hash (some key) s = s
migrate_found now hash none s =
    inserted (commit true (s.rows ++ ((hash, new_legacy_key s.next_id now) ∷ []))) s

unfoldable pub migrate_row : Bool → ℕ → Option Bytes → KeyState → Option KeyState
unfolding migrate_found lookup
migrate_row inserts now none s = none
migrate_row inserts now (some hash) s =
    if hash == [] || not inserts
    then none
    else some (invalidate_client_key_cache (migrate_found now hash (lookup hash s.rows) s))

unfoldable pub migrate_legacy_client_key : Bool → Bool → ℕ → KeyState → Option KeyState
unfolding migrate_row
migrate_legacy_client_key false inserts now s = none
migrate_legacy_client_key true inserts now s = migrate_row inserts now s.legacy_hash s

-- `SELECT id ... WHERE name='Legacy' ORDER BY id LIMIT 1`; the rows stand in the order of their ids.
unfoldable pub find_legacy : List (Bytes × ClientKey) → Option ℕ
find_legacy [] = none
find_legacy ((h, key) ∷ rows) = if key.name == codes "Legacy" then some key.id else find_legacy rows

unfoldable pub rotate_migrated :
    (Bytes → Bytes) → Bool → Bool → Bool → Option Bytes → Option ℕ → KeyState → ℕ × KeyState
unfolding rotate_named_client_key
rotate_migrated hash_token loads answers writes random none s = (500, s)
rotate_migrated hash_token loads answers writes random (some id) s =
    rotate_named_client_key hash_token loads answers writes (some id) random s

unfoldable pub rotate_legacy :
    (Bytes → Bytes) → Bool → Bool → Bool → Option Bytes → KeyState → Option KeyState → ℕ × KeyState
unfolding rotate_migrated find_legacy
rotate_legacy hash_token loads answers writes random s none = (500, s)
rotate_legacy hash_token loads answers writes random s (some t) =
    rotate_migrated hash_token loads answers writes random (find_legacy t.rows) t

unfoldable pub rotate_client_key :
    (Bytes → Bytes) → Bool → Bool → Bool → Bool → Bool → ℕ → Option Bytes → KeyState → ℕ × KeyState
unfolding migrate_legacy_client_key rotate_legacy
rotate_client_key hash_token reads inserts loads answers writes now random s =
    rotate_legacy hash_token loads answers writes random s
      (migrate_legacy_client_key reads inserts now s)

-- `touchClientKey`: the time of the last touch, which the cached key and its copies share, is `none` for a key
-- that is not from the cache and `some 0` for one that was never used. The write is made at most once a minute.
abbrev pub touch_row : ℕ → ℕ → Bytes × ClientKey → Bytes × ClientKey
touch_row id now (h, key) =
    if key.id == id then (h, record key { last_used_at = some now }) else (h, key)

abbrev pub touched : ℕ → ClientKey → KeyState → KeyState
touched now key s = with_rows (map (touch_row key.id now) s.rows) s

abbrev pub used_within : ℕ → Option ℕ → Bool
used_within now none = false
used_within now (some at) = ltb (now - at) 60

unfoldable pub touch_client_key : Bool → ℕ → Option ℕ → ClientKey → KeyState → Option ℕ × KeyState
touch_client_key answers now none key s =
    if used_within now key.last_used_at || not answers then (none, s) else (none, touched now key s)
touch_client_key answers now (some at) key s =
    if not (at == 0) && ltb (now - at) 60
    then (some at, s)
    else if not answers
    then (some at, s)
    else (some now, touched now key s)
