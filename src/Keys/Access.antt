-- ===== src/Keys/Access.antt =====
-- Who is let in, cmd/server/client_keys.go.
use opencode_rush_free.Base.{
  Bytes, Option, [], ap, ap₂, arith, bytes_eq, bytes_eqb, false, if◌then◌else◌, lookup, map, nat_eq,
  none, not, refl, some, string_eq, sym, true, ℕ, ◌&&◌, ◌==◌, ◌∙◌, ◌≡◌,
}
use opencode_rush_free.Limiter.{ClientKey}
use opencode_rush_free.Keys.{
  KeyState, Answers, AuthResult, authenticated, auth_failed, auth_panics, invalid_key, missing_key,
  check_key, is_none, is_legacy, is_past, look_up, revive_legacy, authenticate_client,
  cached_client_key, key_disabled, key_expired, after_update, commit, revive_row,
}
use opencode_rush_free.Keys.Cache.{forget_use, Coherent, cached_client_key_lem}

-- A result without the time of the key's last use.
unfoldable pub without_use : AuthResult → AuthResult
without_use (authenticated key) = authenticated (record key { last_used_at = none })
without_use (auth_failed e) = auth_failed e
without_use auth_panics = auth_panics

-- What the table says of a hash.
unfoldable pub verdict : ℕ → Option ClientKey → AuthResult
verdict now none = auth_failed invalid_key
verdict now (some key) =
    if not key.enabled
    then auth_failed key_disabled
    else if is_past now key.expires_at
    then auth_failed key_expired
    else authenticated (record key { last_used_at = none })

verdict-forgotten : (now : ℕ) (o : Option ClientKey) → verdict now (forget_use o) ≡ verdict now o
unfolding verdict forget_use
verdict-forgotten now none = refl
verdict-forgotten now (some key) = refl

verdict-forget_use :
    (now : ℕ) (k o : Option ClientKey) → forget_use k ≡ forget_use o → verdict now k ≡ verdict now o
verdict-forget_use now k o e =
    sym (verdict-forgotten now k) ∙ ap (verdict now) e ∙ verdict-forgotten now o

without_use-check_key :
    (now : ℕ) (key : ClientKey) → without_use (check_key now key) ≡ verdict now (some key)
unfolding without_use check_key verdict
without_use-check_key now key = ground arith

unknown-verdict :
    (o : Option ClientKey) (now : ℕ) → is_none o ≡ true → verdict now o ≡ auth_failed invalid_key
unfolding verdict
unknown-verdict none now h = refl
unknown-verdict (some key) now h = cc

not_legacy-invalid :
    (db : Answers) (h : Bytes) (now : ℕ) (t : KeyState)
    → is_legacy db.reads_legacy h t.legacy_hash ≡ false
    → (look_up db h now (some none, t)).0 ≡ auth_failed invalid_key
unfolding look_up revive_legacy
not_legacy-invalid db h now t l =
    ap
      (λ b.
        (if b
          then after_update db h now (commit db.updates (map (revive_row h) t.rows)) t
          else (auth_failed invalid_key, t)).0)
      l

look_up-verdict :
    (db : Answers) (h : Bytes) (now : ℕ) (k o : Option ClientKey) (t : KeyState)
    → forget_use k ≡ forget_use o
    → (is_none o && is_legacy db.reads_legacy h t.legacy_hash) ≡ false
    → without_use (look_up db h now (some k, t)).0 ≡ verdict now o
unfolding look_up forget_use verdict without_use
look_up-verdict db h now (some key) o t f l =
    without_use-check_key now key ∙ verdict-forget_use now (some key) o f
look_up-verdict db h now none none t f l = ap without_use (not_legacy-invalid db h now t l)
look_up-verdict db h now none (some key) t f l = cc

-- With a database that answers, a coherent cache and a key that is not empty, whose hash is in the table or is not
-- the legacy one, an authentication gives what the table says now: the key if it is enabled and not expired,
-- and otherwise the error of a disabled, expired or unknown key.
pub authenticate_client_lem :
    (hash_token : Bytes → Bytes) (db : Answers) (supplied : Bytes) (now : ℕ) (s : KeyState)
    → Coherent s
    → db.loads ≡ true
    → (supplied == []) ≡ false
    → (is_none (lookup (hash_token supplied) s.rows)
        && is_legacy db.reads_legacy (hash_token supplied) s.legacy_hash)
      ≡ false
    → without_use (authenticate_client hash_token db supplied now s).0
      ≡ verdict now (lookup (hash_token supplied) s.rows)
unfolding authenticate_client bytes_eqb
authenticate_client_lem hash_token db supplied now s c l n g =
    let h = hash_token supplied in
    let (k, e, f, m) = cached_client_key_lem h s c in
    let t = (cached_client_key true h s).1 in
    let found : (look_up db h now (cached_client_key true h s)).0
        ≡ (look_up db h now (some k, t)).0 =
      ap (λ o. (look_up db h now (o, t)).0) e in
    let asked : (authenticate_client hash_token db supplied now s).0
        ≡ (look_up db h now (cached_client_key true h s)).0 =
      ap₂
        (λ a b.
          (if a
            then (auth_failed missing_key, s)
            else look_up db h now (cached_client_key b h s)).0)
        n l in
    let same : (is_none (lookup h s.rows) && is_legacy db.reads_legacy h t.legacy_hash) ≡ false =
      rw (m, g) in
    ap without_use (asked ∙ found) ∙ look_up-verdict db h now k (lookup h s.rows) t f same
