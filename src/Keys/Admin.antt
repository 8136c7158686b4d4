-- ===== src/Keys/Admin.antt =====
-- The administrator's operations on the client keys, cmd/server/client_keys.go, each with the status of its
-- answer. What a statement of the database answers is a flag; `time.Parse` and `hashToken` are arguments, the
-- generated key is `none` if there are no random bytes.
use opencode_rush_free.Base.{
  Bool, Bytes, List, Option, [], bytes_eq, codes, drop, filter, if◌then◌else◌, leb, length, ltb,
  map, nat_eq, none, not, some, string_eq, take, trim_space, true, ℕ, ◌++◌, ◌-◌, ◌==◌, ◌||◌, ◌∷◌,
}
use opencode_rush_free.Base.Int.{ℤ, pos, negsuc}
use opencode_rush_free.Limiter.{ClientKey}
use opencode_rush_free.Keys.{KeyState, commit, inserted, with_rows, invalidate_client_key_cache}

pub record CreateForm : Type 0 where
  pub name : Bytes
  pub expires_at : Bytes
  pub rpm_limit : ℤ
  pub tpm_limit : ℤ

pub record PatchForm : Type 0 where
  pub name : Option Bytes
  pub enabled : Option Bool
  pub expires_at : Option Bytes
  pub rpm_limit : Option ℤ
  pub tpm_limit : Option ℤ

unfoldable pub client_key_hint : Bytes → Bytes
client_key_hint key =
    if leb (length key) 10 then key else take 7 key ++ (codes "..." ++ drop (length key - 4) key)

-- A limit in its range.
abbrev pub limit_within : ℕ → ℤ → Option ℕ
limit_within most (pos n) = if ltb most n then none else some n
limit_within most (negsuc n) = none

abbrev pub both {ℓ} : {A : Type ℓ} → Option A → Option A → Option (A × A)
both none b = none
both (some a) none = none
both (some a) (some b) = some (a, b)

unfoldable pub validate_client_key_limits : ℤ → ℤ → Option (ℕ × ℕ)
validate_client_key_limits rpm tpm = both (limit_within 100000 rpm) (limit_within 100000000 tpm)

abbrev pub future : ℕ → Option ℕ → Option (Option ℕ)
future now none = none
future now (some at) = if leb at now then none else some (some at)

-- `none` is an error, `some none` a key that does not expire.
unfoldable pub parse_client_key_expiry : (Bytes → Option ℕ) → ℕ → Bytes → Option (Option ℕ)
unfolding trim_space
parse_client_key_expiry parse_time now raw =
    let text = trim_space raw in if text == [] then some none else future now (parse_time text)

abbrev pub bad_name : Bytes → Bool
bad_name name = name == [] || ltb 80 (length name)

abbrev pub inserted_answer : Option (List (Bytes × ClientKey)) → KeyState → ℕ × KeyState
inserted_answer none s = (500, s)
inserted_answer (some rows) s = (201, invalidate_client_key_cache (inserted (some rows) s))

unfoldable pub insert_key :
    (Bytes → Bytes) → Bool → ℕ → Bytes → ℕ × ℕ → Option ℕ → Option Bytes → KeyState → ℕ × KeyState
unfolding commit client_key_hint
insert_key hash_token answers now name limits expires none s = (500, s)
insert_key hash_token answers now name limits expires (some plain) s =
    let key : ClientKey = record {
      id = s.next_id;
      name = name;
      hint = client_key_hint plain;
      enabled = true;
      expires_at = expires;
      rpm_limit = limits.0;
      tpm_limit = limits.1;
      last_used_at = none;
      created_at = now;
    } in
    inserted_answer (commit answers (s.rows ++ ((hash_token plain, key) ∷ []))) s

-- The checks of the limits and of the expiry, of which a failed one answers 400.
unfoldable pub insert_checked :
    (Bytes → Bytes)
    → Bool
    → ℕ
    → Bytes
    → Option (ℕ × ℕ)
    → Option (Option ℕ)
    → Option Bytes
    → KeyState
    → ℕ × KeyState
unfolding insert_key
insert_checked hash_token answers now name none expires random s = (400, s)
insert_checked hash_token answers now name (some limits) none random s = (400, s)
insert_checked hash_token answers now name (some limits) (some expires) random s =
    insert_key hash_token answers now name limits expires random s

unfoldable pub create_client_key :
    (Bytes → Option ℕ)
    → (Bytes → Bytes)
    → Bool
    → ℕ
    → Option Bytes
    → Option CreateForm
    → KeyState
    → ℕ × KeyState
unfolding insert_checked validate_client_key_limits parse_client_key_expiry trim_space
create_client_key parse_time hash_token answers now random none s = (400, s)
create_client_key parse_time hash_token answers now random (some form) s =
    let limits = validate_client_key_limits form.rpm_limit form.tpm_limit in
    let expires = parse_client_key_expiry parse_time now form.expires_at in
    if bad_name (trim_space form.name)
    then (400, s)
    else insert_checked hash_token answers now (trim_space form.name) limits expires random s

-- `SELECT ... WHERE id=?`.
unfoldable pub find_key : ℕ → List (Bytes × ClientKey) → Option ClientKey
find_key id [] = none
find_key id ((h, key) ∷ rows) = if key.id == id then some key else find_key id rows

-- `UPDATE ... WHERE id=?`.
unfoldable pub update_row :
    ℕ → (Bytes × ClientKey → Bytes × ClientKey) → Bytes × ClientKey → Bytes × ClientKey
update_row id change (h, key) = if key.id == id then change (h, key) else (h, key)

abbrev pub committed_answer : Option (List (Bytes × ClientKey)) → KeyState → ℕ × KeyState
committed_answer none s = (500, s)
committed_answer (some rows) s = (200, invalidate_client_key_cache (with_rows rows s))

-- The columns that a patch writes.
unfoldable pub patch_row : ClientKey → Bytes × ClientKey → Bytes × ClientKey
patch_row new (h, key) = (
  h,
  record key {
    name = new.name;
    enabled = new.enabled;
    expires_at = new.expires_at;
    rpm_limit = new.rpm_limit;
    tpm_limit = new.tpm_limit;
  },
)

abbrev pub or_given {ℓ} : {A : Type ℓ} → A → Option A → A
or_given a none = a
or_given a (some b) = b

-- The new expiry of a patch: the old one if the form has none; `none` is an error.
unfoldable pub patched_expiry : (Bytes → Option ℕ) → ℕ → Option ℕ → Option Bytes → Option (Option ℕ)
unfolding parse_client_key_expiry
patched_expiry parse_time now old none = some old
patched_expiry parse_time now old (some raw) = parse_client_key_expiry parse_time now raw

abbrev pub given_limit : ℕ → Option ℤ → ℤ
given_limit old none = pos old
given_limit old (some new) = new

unfoldable pub patched_name : Bytes → Option Bytes → Bytes
unfolding trim_space
patched_name old none = old
patched_name old (some name) = trim_space name

unfoldable pub patch_checked :
    Bool
    → ℕ
    → Bytes
    → Option Bool
    → Option (ℕ × ℕ)
    → Option (Option ℕ)
    → ClientKey
    → KeyState
    → ℕ × KeyState
unfolding commit update_row patch_row
patch_checked answers id name enabled none expires key s = (400, s)
patch_checked answers id name enabled (some limits) none key s = (400, s)
patch_checked answers id name enabled (some limits) (some expires) key s =
    let new : ClientKey = record key {
      name = name;
      enabled = or_given key.enabled enabled;
      expires_at = expires;
      rpm_limit = limits.0;
      tpm_limit = limits.1;
    } in
    committed_answer (commit answers (map (update_row id (patch_row new)) s.rows)) s

unfoldable pub patch_found :
    (Bytes → Option ℕ) → Bool → ℕ → ℕ → PatchForm → Option ClientKey → KeyState → ℕ × KeyState
unfolding patch_checked patched_name patched_expiry validate_client_key_limits
patch_found parse_time answers now id form none s = (404, s)
patch_found parse_time answers now id form (some key) s =
    let name = patched_name key.name form.name in
    let limits =
      validate_client_key_limits (given_limit key.rpm_limit form.rpm_limit)
        (given_limit key.tpm_limit form.tpm_limit) in
    let expires = patched_expiry parse_time now key.expires_at form.expires_at in
    if bad_name name
    then (400, s)
    else patch_checked answers id name form.enabled limits expires key s

-- The parsed id of the path, `none` if it is no number or not positive.
unfoldable pub patch_client_key :
    (Bytes → Option ℕ) → Bool → Bool → ℕ → Option ℕ → Option PatchForm → KeyState → ℕ × KeyState
unfolding patch_found find_key
patch_client_key parse_time loads answers now none form s = (400, s)
patch_client_key parse_time loads answers now (some id) none s = (400, s)
patch_client_key parse_time loads answers now (some id) (some form) s =
    if not loads
    then (500, s)
    else patch_found parse_time answers now id form (find_key id s.rows) s

unfoldable pub delete_client_key : Bool → Bool → Option ℕ → KeyState → ℕ × KeyState
delete_client_key counts answers none s = (400, s)
delete_client_key counts answers (some id) s =
    let rest = filter (λ (r : Bytes × ClientKey). not (r.1.id == id)) s.rows in
    if not counts || leb (length s.rows) 1
    then (400, s)
    else if not answers
    then (500, s)
    else if length rest == length s.rows
    then (404, s)
    else (200, invalidate_client_key_cache (with_rows rest s))
