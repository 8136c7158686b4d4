-- ===== src/Keys/Disabled.antt =====
-- A key that a patch switches off, cmd/server/client_keys.go.
use opencode_rush_free.Base.{
  Bool, Bytes, List, Option, [], ap, arith, bytes_eq, false, if◌then◌else◌, lookup, map, nat_eq,
  none, not, refl, some, string_eq, true, ℕ, ◌&&◌, ◌==◌, ◌∙◌, ◌∷◌, ◌≡◌, ◌≢◌,
}
use opencode_rush_free.Limiter.{ClientKey}
use opencode_rush_free.Keys.{
  KeyState, Answers, authenticated, auth_failed, key_disabled, authenticate_client, is_none, commit,
  is_legacy, is_past, key_expired,
}
use opencode_rush_free.Keys.Cache.{Coherent, commit_unique}
use opencode_rush_free.Keys.Steps.{patch_client_key-Coherent}
use opencode_rush_free.Keys.Access.{without_use, verdict, authenticate_client_lem}
use opencode_rush_free.Keys.Admin.{
  update_row, patch_found, patch_row, PatchForm, or_given, committed_answer, patch_checked,
  patch_client_key, patched_name, find_key, validate_client_key_limits, given_limit, patched_expiry,
  bad_name,
}

lookup-patched :
    (h : Bytes) (new key : ClientKey) (id : ℕ) (rows : List (Bytes × ClientKey))
    → lookup h rows ≡ some key
    → key.id ≡ id
    → lookup h (map (update_row id (patch_row new)) rows) ≡ some (patch_row new (h, key)).1
unfolding lookup update_row patch_row
lookup-patched h new key id [] l e = cc
lookup-patched h new key id ((g, k) ∷ rows) l e = ground (arith, lookup-patched h new key id rows)

-- An answer 200 comes with new columns in all rows of the id.
unfoldable pub Written : Option Bool → ℕ → KeyState → ℕ × KeyState → Type 0
unfolding update_row patch_row
Written enabled id s r =
    r.0 ≡ 200
    → (old : ClientKey) × (new : ClientKey) × (new.enabled ≡ or_given old.enabled enabled)
      × (r.1.rows ≡ map (update_row id (patch_row new)) s.rows)

refused-Written :
    (status : ℕ) (enabled : Option Bool) (id : ℕ) (s : KeyState)
    → status ≢ 200
    → Written enabled id s (status, s)
unfolding Written
refused-Written status enabled id s n d = absurd (n d)

either-Written :
    (b : Bool) (enabled : Option Bool) (id : ℕ) (s : KeyState) (x y : ℕ × KeyState)
    → Written enabled id s x
    → Written enabled id s y
    → Written enabled id s (if b then x else y)
either-Written true enabled id s x y p q = p
either-Written false enabled id s x y p q = q

committed-Written :
    (o : Option (List (Bytes × ClientKey))) (answers : Bool) (old new : ClientKey)
    (enabled : Option Bool) (id : ℕ) (s : KeyState)
    → commit answers (map (update_row id (patch_row new)) s.rows) ≡ o
    → new.enabled ≡ or_given old.enabled enabled
    → Written enabled id s (committed_answer o s)
unfolding Written
committed-Written none answers old new enabled id s e w d = absurd (omega arith)
committed-Written (some t) answers old new enabled id s e w d =
    (old, new, w, (commit_unique answers (map (update_row id (patch_row new)) s.rows) t e).0)

patch_found-Written :
    (parse_time : Bytes → Option ℕ) (answers : Bool) (now id : ℕ) (form : PatchForm)
    (key : Option ClientKey) (s : KeyState)
    → Written form.enabled id s (patch_found parse_time answers now id form key s)
unfolding patch_found patch_checked
patch_found-Written parse_time answers now id form none s =
    refused-Written 404 form.enabled id s (λ e. omega arith)
patch_found-Written parse_time answers now id form (some key) s =
    let limits =
      validate_client_key_limits (given_limit key.rpm_limit form.rpm_limit)
        (given_limit key.tpm_limit form.tpm_limit) in
    let name = patched_name key.name form.name in
    let expires = patched_expiry parse_time now key.expires_at form.expires_at in
    either-Written (bad_name name) form.enabled id s (400, s)
      (patch_checked answers id name form.enabled limits expires key s)
      (refused-Written 400 form.enabled id s (λ e. omega arith)) (checked limits expires)
  where
    checked :
        (limits : Option (ℕ × ℕ)) (expires : Option (Option ℕ))
        → Written form.enabled id s (
            patch_checked answers id
              (patched_name key.name form.name)
              form.enabled
              limits
              expires
              key
              s)
    checked none expires = refused-Written 400 form.enabled id s (λ e. omega arith)
    checked (some limits) none = refused-Written 400 form.enabled id s (λ e. omega arith)
    checked (some limits) (some expires) =
        let new : ClientKey = record key {
          name = patched_name key.name form.name;
          enabled = or_given key.enabled form.enabled;
          expires_at = expires;
          rpm_limit = limits.0;
          tpm_limit = limits.1;
        } in
        committed-Written (commit answers (map (update_row id (patch_row new)) s.rows)) answers key
          new form.enabled id s refl refl

patch_client_key-Written :
    (parse_time : Bytes → Option ℕ) (loads answers : Bool) (now id : ℕ) (form : PatchForm)
    (s : KeyState)
    → Written form.enabled id s
        (patch_client_key parse_time loads answers now (some id) (some form) s)
unfolding patch_client_key
patch_client_key-Written parse_time loads answers now id form s =
    either-Written (not loads) form.enabled id s (500, s)
      (patch_found parse_time answers now id form (find_key id s.rows) s)
      (refused-Written 500 form.enabled id s (λ e. omega arith))
      (patch_found-Written parse_time answers now id form (find_key id s.rows) s)

off-verdict :
    (now : ℕ) (key : ClientKey)
    → key.enabled ≡ false
    → verdict now (some key) ≡ auth_failed key_disabled
unfolding verdict
off-verdict now key e =
    ap
      (λ b.
        if not b
        then auth_failed key_disabled
        else if is_past now key.expires_at
        then auth_failed key_expired
        else authenticated (record key { last_used_at = none }))
      e

known-legacy :
    (o : Option ClientKey) (key : ClientKey) (b : Bool) → o ≡ some key → (is_none o && b) ≡ false
known-legacy none key b e = cc
known-legacy (some k) key b e = refl

-- A key that a patch switches off is refused as disabled from the patch's answer 200 on, although the keys are
-- cached: the table is coherent with the cache and answers.
pub disabled_at_once :
    (parse_time : Bytes → Option ℕ) (hash_token : Bytes → Bytes) (answers : Bool) (db : Answers)
    (form : PatchForm) (supplied : Bytes) (then_at now : ℕ) (key : ClientKey) (s : KeyState)
    → Coherent s
    → db.loads ≡ true
    → (supplied == []) ≡ false
    → lookup (hash_token supplied) s.rows ≡ some key
    → form.enabled ≡ some false
    → (patch_client_key parse_time true answers then_at (some key.id) (some form) s).0 ≡ 200
    → without_use
        (authenticate_client hash_token db supplied now
          (patch_client_key parse_time true answers then_at (some key.id) (some form) s).1).0
      ≡ auth_failed key_disabled
unfolding Written
disabled_at_once parse_time hash_token answers db form supplied then_at now key s c l n e f d =
    let h = hash_token supplied in
    let t = (patch_client_key parse_time true answers then_at (some key.id) (some form) s).1 in
    let (old, new, w, r) =
      patch_client_key-Written parse_time true answers then_at key.id form s d in
    let found : lookup h t.rows ≡ some (patch_row new (h, key)).1 =
      ap (lookup h) r ∙ lookup-patched h new key key.id s.rows e refl in
    let k =
      patch_client_key-Coherent parse_time hash_token true answers then_at (some key.id) (some form)
        s c in
    authenticate_client_lem hash_token db supplied now t k l n (
      known-legacy (lookup h t.rows) (patch_row new (h, key)).1
        (is_legacy db.reads_legacy h t.legacy_hash) found)
    ∙ ap (verdict now) found
    ∙ off-verdict now (patch_row new (h, key)).1 (w ∙ ap (or_given old.enabled) f)
