-- ===== src/Keys/Steps.antt =====
-- The requests and the administrator's operations one after the other, cmd/server/client_keys.go.
use opencode_rush_free.Base.{
  Bool, Bytes, List, Option, [], bytes_eqb, none, refl, some, trim_space, ℕ, ◌∷◌,
}
use opencode_rush_free.Limiter.{ClientKey}
use opencode_rush_free.Keys.{KeyState, Answers, authenticate_client}
use opencode_rush_free.Keys.Cache.{Agrees, Coherent}
use opencode_rush_free.Keys.Admin.{
  CreateForm, PatchForm, create_client_key, insert_key, patch_client_key, delete_client_key,
  insert_checked, patch_found, find_key, patch_checked, patched_name,
}
use opencode_rush_free.Keys.Rotation.{
  rotated_answer, migrate_legacy_client_key, find_legacy, rotate_client_key, rotate_migrated,
  touch_client_key, rotate_found, rotate_named_client_key, rotate_row_of, rotate_legacy,
}
use opencode_rush_free.Keys.Kept.{
  inserted_answer-Coherent, committed_answer-Coherent, either-Coherent, touch_client_key-Coherent,
  delete_client_key-Coherent, IfThere, migrated-Coherent, authenticate_client-Coherent,
}

-- What can happen to the keys, with what the database and the random numbers answer.
pub data KeyOp : Type 0 where
  authenticates : Answers → Bytes → ℕ → KeyOp
  touches : Bool → ℕ → Option ℕ → ClientKey → KeyOp
  creates : Bool → ℕ → Option Bytes → Option CreateForm → KeyOp
  patches : Bool → Bool → ℕ → Option ℕ → Option PatchForm → KeyOp
  deletes : Bool → Bool → Option ℕ → KeyOp
  rotates : Bool → Bool → Bool → Option ℕ → Option Bytes → KeyOp
  rotates_legacy : Bool → Bool → Bool → Bool → Bool → ℕ → Option Bytes → KeyOp

module _ (parse_time : Bytes → Option ℕ) (hash_token : Bytes → Bytes) where
  insert_checked-Coherent :
      (answers : Bool) (now : ℕ) (name : Bytes) (limits : Option (ℕ × ℕ))
      (expires : Option (Option ℕ)) (random : Option Bytes) (s : KeyState)
      → Coherent s
      → Coherent (insert_checked hash_token answers now name limits expires random s).1
  unfolding insert_checked insert_key
  insert_checked-Coherent answers now name none expires random s c = c
  insert_checked-Coherent answers now name (some limits) none random s c = c
  insert_checked-Coherent answers now name (some limits) (some expires) none s c = c
  insert_checked-Coherent answers now name (some limits) (some expires) (some plain) s c =
      inserted_answer-Coherent _ answers _ s refl c

  create_client_key-Coherent :
      (answers : Bool) (now : ℕ) (random : Option Bytes) (form : Option CreateForm) (s : KeyState)
      → Coherent s
      → Coherent (create_client_key parse_time hash_token answers now random form s).1
  unfolding create_client_key
  create_client_key-Coherent answers now random none s c = c
  create_client_key-Coherent answers now random (some form) s c =
      either-Coherent _ _ _ c
        (insert_checked-Coherent answers now (trim_space form.name) _ _ random s c)

  patch_found-Coherent :
      (answers : Bool) (now id : ℕ) (form : PatchForm) (key : Option ClientKey) (s : KeyState)
      → Coherent s
      → Coherent (patch_found parse_time answers now id form key s).1
  unfolding patch_found patch_checked
  patch_found-Coherent answers now id form none s c = c
  patch_found-Coherent answers now id form (some key) s c = either-Coherent _ _ _ c (checked _ _)
    where
      checked :
          (limits : Option (ℕ × ℕ)) (expires : Option (Option ℕ))
          → Coherent
              (patch_checked answers id
                (patched_name key.name form.name)
                form.enabled
                limits
                expires
                key
                s).1
      checked none expires = c
      checked (some limits) none = c
      checked (some limits) (some expires) = committed_answer-Coherent _ answers _ s refl c

  pub patch_client_key-Coherent :
      (loads answers : Bool) (now : ℕ) (id : Option ℕ) (form : Option PatchForm) (s : KeyState)
      → Coherent s
      → Coherent (patch_client_key parse_time loads answers now id form s).1
  unfolding patch_client_key
  patch_client_key-Coherent loads answers now none form s c = c
  patch_client_key-Coherent loads answers now (some id) none s c = c
  patch_client_key-Coherent loads answers now (some id) (some form) s c =
      either-Coherent _ _ _ c (patch_found-Coherent answers now id form (find_key id s.rows) s c)

  rotated_answer-Coherent :
      (writes : Bool) (hash : Bytes) (key : ClientKey) (r : ℕ × KeyState)
      → Coherent r.1
      → Coherent (rotated_answer writes hash key r).1
  unfolding Coherent
  rotated_answer-Coherent writes hash key (status, s) c = either-Coherent _ _ _ c c

  rotate_named_client_key-Coherent :
      (loads answers writes : Bool) (id : Option ℕ) (random : Option Bytes) (s : KeyState)
      → Coherent s
      → Coherent (rotate_named_client_key hash_token loads answers writes id random s).1
  unfolding rotate_named_client_key rotate_found rotate_row_of
  rotate_named_client_key-Coherent loads answers writes none random s c = c
  rotate_named_client_key-Coherent loads answers writes (some id) random s c =
      either-Coherent _ _ _ c (found (find_key id s.rows) random)
    where
      found :
          (key : Option ClientKey) (r : Option Bytes)
          → Coherent (rotate_found hash_token answers writes id key r s).1
      found none r = c
      found (some key) none = c
      found (some key) (some plain) =
          rotated_answer-Coherent writes (hash_token plain) key _
            (committed_answer-Coherent _ answers _ s refl c)

  rotate_client_key-Coherent :
      (reads inserts loads answers writes : Bool) (now : ℕ) (random : Option Bytes) (s : KeyState)
      → Coherent s
      → Coherent (rotate_client_key hash_token reads inserts loads answers writes now random s).1
  unfolding rotate_client_key rotate_legacy rotate_migrated Coherent IfThere
  rotate_client_key-Coherent reads inserts loads answers writes now random s c =
      of_state (migrate_legacy_client_key reads inserts now s)
        (migrated-Coherent reads inserts now s c)
    where
      of_id :
          (id : Option ℕ) (t : KeyState)
          → Coherent t
          → Coherent (rotate_migrated hash_token loads answers writes random id t).1
      of_id none t c = c
      of_id (some id) t c =
          rotate_named_client_key-Coherent loads answers writes (some id) random t c

      of_state :
          (o : Option KeyState)
          → IfThere o
          → Coherent (rotate_legacy hash_token loads answers writes random s o).1
      of_state none d = c
      of_state (some t) d = of_id (find_legacy t.rows) t d

  unfoldable pub perform : KeyOp → KeyState → KeyState
  perform (authenticates db supplied now) s = (authenticate_client hash_token db supplied now s).1
  perform (touches answers now at key) s = (touch_client_key answers now at key s).1
  perform (creates answers now random form) s =
      (create_client_key parse_time hash_token answers now random form s).1
  perform (patches loads answers now id form) s =
      (patch_client_key parse_time loads answers now id form s).1
  perform (deletes counts answers id) s = (delete_client_key counts answers id s).1
  perform (rotates loads answers writes id random) s =
      (rotate_named_client_key hash_token loads answers writes id random s).1
  perform (rotates_legacy reads inserts loads answers writes now random) s =
      (rotate_client_key hash_token reads inserts loads answers writes now random s).1

  unfoldable pub perform_all : List KeyOp → KeyState → KeyState
  unfolding perform
  perform_all [] s = s
  perform_all (op ∷ ops) s = perform_all ops (perform op s)

  perform-Coherent : (op : KeyOp) (s : KeyState) → Coherent s → Coherent (perform op s)
  unfolding perform authenticate_client bytes_eqb Coherent Agrees
  perform-Coherent (authenticates db supplied now) s c =
      authenticate_client-Coherent hash_token db supplied now s c
  perform-Coherent (touches answers now at key) s c =
      touch_client_key-Coherent answers now at key s c
  perform-Coherent (creates answers now random form) s c =
      create_client_key-Coherent answers now random form s c
  perform-Coherent (patches loads answers now id form) s c =
      patch_client_key-Coherent loads answers now id form s c
  perform-Coherent (deletes counts answers id) s c =
      delete_client_key-Coherent counts answers id s c
  perform-Coherent (rotates loads answers writes id random) s c =
      rotate_named_client_key-Coherent loads answers writes id random s c
  perform-Coherent (rotates_legacy reads inserts loads answers writes now random) s c =
      rotate_client_key-Coherent reads inserts loads answers writes now random s c

  -- After any requests and operations, whatever the database answers, no hash stands twice in the table, and the
  -- cache, if it is loaded, agrees with the table on every hash, but for the times of the last use.
  pub perform_all-Coherent :
      (ops : List KeyOp) (s : KeyState) → Coherent s → Coherent (perform_all ops s)
  unfolding perform_all
  perform_all-Coherent [] s c = c
  perform_all-Coherent (op ∷ ops) s c =
      perform_all-Coherent ops (perform op s) (perform-Coherent op s c)
