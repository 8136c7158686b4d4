-- ===== src/Keys/Tests.antt =====
-- Tests and examples of the client keys.
use opencode_rush_free.Base.{
  Bytes, Option, [], bytes_eq, bytes_eqb, codes, false, if◌then◌else◌, lookup, nat_eq, none, refl,
  some, string_eq, true, ℕ, ◌++◌, ◌==◌, ◌∷◌, ◌≡◌,
}
use opencode_rush_free.Base.Int.{pos, negsuc}
use opencode_rush_free.Limiter.{ClientKey}
use opencode_rush_free.Json.{Json, Items, nil, cons, obj, str, field, end}
use opencode_rush_free.Keys.{
  KeyState, authenticated, auth_failed, auth_panics, key_disabled, key_expired, authenticate_client,
  new_legacy_key, look_up, found_in, fill_cache,
}
use opencode_rush_free.Keys.Cache.{Coherent, Agrees}
use opencode_rush_free.Keys.Access.{without_use, verdict, authenticate_client_lem}
use opencode_rush_free.Keys.Admin.{
  PatchForm, create_client_key, patch_client_key, delete_client_key, client_key_hint,
}
use opencode_rush_free.Keys.Steps.{
  perform_all, perform_all-Coherent, authenticates, deletes, rotates,
}
use opencode_rush_free.Keys.Revocation.{all_answer, deleted_legacy_returns}
use opencode_rush_free.Keys.Disabled.{disabled_at_once}
use opencode_rush_free.Keys.Credential.{client_credential}

-- A stand-in for the hash: the text between two marks.
abbrev toy_hash : Bytes → Bytes
toy_hash s = 35 ∷ (s ++ (35 ∷ []))

abbrev toy_time : Bytes → Option ℕ
toy_time s = if s == codes "soon" then some 500 else none

abbrev old_key : ClientKey
old_key = record {
  id = 1;
  name = codes "Old";
  hint = codes "legacy";
  enabled = true;
  expires_at = none;
  rpm_limit = 5;
  tpm_limit = 0;
  last_used_at = some 7;
  created_at = 1;
}

abbrev short_key : ClientKey
short_key = record old_key { id = 2; name = codes "Short"; expires_at = some 50 }

abbrev two_keys : KeyState
two_keys = record {
  rows = (toy_hash (codes "old"), old_key) ∷ (toy_hash (codes "short"), short_key) ∷ [];
  legacy_hash = some (toy_hash (codes "old"));
  next_id = 3;
  cached = none;
}

two_keys-Coherent : Coherent two_keys
unfolding Coherent bytes_eqb Agrees
two_keys-Coherent = (refl, tt)

abbrev switch_off : PatchForm
switch_off = record {
  name = none;
  enabled = some false;
  expires_at = none;
  rpm_limit = none;
  tpm_limit = none;
}

authenticate_client_lem_example :
    without_use (authenticate_client toy_hash all_answer (codes "short") 50 two_keys).0
    ≡ verdict 50 (some short_key)
unfolding bytes_eqb lookup
authenticate_client_lem_example =
    authenticate_client_lem toy_hash all_answer (codes "short") 50 two_keys two_keys-Coherent refl
      refl refl

short_expires : verdict 50 (some short_key) ≡ auth_failed key_expired
unfolding verdict
short_expires = refl

perform_all-Coherent_example : Coherent (
    perform_all toy_time toy_hash
      (authenticates all_answer (codes "old") 10
        ∷ deletes true true (some 1)
        ∷ rotates true true true (some 2) (some (codes "new"))
        ∷ authenticates all_answer (codes "old") 20
        ∷ [])
      two_keys)
perform_all-Coherent_example =
    perform_all-Coherent toy_time toy_hash
      (authenticates all_answer (codes "old") 10
        ∷ deletes true true (some 1)
        ∷ rotates true true true (some 2) (some (codes "new"))
        ∷ authenticates all_answer (codes "old") 20
        ∷ [])
      two_keys two_keys-Coherent

deleted_legacy_returns_example :
    (authenticate_client toy_hash all_answer
      (codes "old")
      90
      (delete_client_key true true (some 1) two_keys).1).0
    ≡ authenticated (new_legacy_key 3 90)
unfolding bytes_eqb lookup delete_client_key
deleted_legacy_returns_example =
    deleted_legacy_returns toy_hash (codes "old") 90 old_key two_keys two_keys-Coherent refl refl
      refl refl refl

disabled_at_once_example :
    without_use
      (authenticate_client toy_hash all_answer
        (codes "old")
        90
        (patch_client_key toy_time true true 80 (some 1) (some switch_off) two_keys).1).0
    ≡ auth_failed key_disabled
unfolding bytes_eqb lookup switch_off patch_client_key
disabled_at_once_example =
    disabled_at_once toy_time toy_hash true all_answer switch_off (codes "old") 80 90 old_key
      two_keys two_keys-Coherent refl refl refl refl refl

-- An update that would give two rows the same hash fails, and its missing result is asked for.
two_legacy_panic :
    (authenticate_client toy_hash all_answer (codes "gone") 9 (record two_keys {
      rows =
          (toy_hash (codes "a"), record old_key { name = codes "Legacy" })
          ∷ (toy_hash (codes "b"), record short_key { name = codes "Legacy" })
          ∷ [];
      legacy_hash = some (toy_hash (codes "gone"));
    })).0
    ≡ auth_panics
unfolding authenticate_client bytes_eqb look_up found_in fill_cache
two_legacy_panic = refl

hint : client_key_hint (codes "ocp-0123456789") ≡ codes "ocp-012...6789"
unfolding client_key_hint
hint = refl

created :
    (create_client_key toy_time toy_hash true 9
      (some (codes "fresh"))
      (some (record {
        name = codes " CI ";
        expires_at = codes "soon";
        rpm_limit = pos 100000;
        tpm_limit = pos 0;
      }))
      two_keys).0
    ≡ 201
unfolding create_client_key bytes_eqb
created = refl

refused :
    (create_client_key toy_time toy_hash true 9
      (some (codes "fresh"))
      (some
        (record { name = codes "CI"; expires_at = []; rpm_limit = negsuc 0; tpm_limit = pos 0 }))
      two_keys).0
    ≡ 400
unfolding create_client_key bytes_eqb
refused = refl

abbrev key_header : Bytes → Bytes
key_header name = if name == codes "X-API-Key" then codes " 'secret' " else []

abbrev toy_marshal : Json → Option Bytes
toy_marshal (str s) = some (codes s)
toy_marshal _ = none

abbrev opening : Items
opening = cons (obj (field "role" (str "user") (field "content" (str "hi") end))) nil

credential : client_credential key_header ≡ codes "secret"
unfolding client_credential bytes_eqb
credential = refl
