-- ===== src/Keys/Kept.antt =====
-- What the single operations on the keys keep, cmd/server/client_keys.go.
use opencode_rush_free.Base.{
  Bool, Bytes, List, Option, [], any, arith, bytes_eq, false, filter, if◌then◌else◌, leb, length,
  lookup, ltb, map, nat_eq, none, not, refl, some, string_eq, sym, true, ℕ, ◌&&◌, ◌++◌, ◌-◌, ◌==◌,
  ◌||◌, ◌∙◌, ◌∷◌, ◌≡◌,
}
use opencode_rush_free.Limiter.{ClientKey}
use opencode_rush_free.Keys.{
  KeyState, Answers, unique_hashes, commit, inserted, with_rows, is_none,
  invalidate_client_key_cache, cached_client_key, look_up, after_update, insert_legacy, reloaded,
  authenticate_client, revive_row, is_legacy, new_legacy_key, legacy_name, AuthResult, auth_failed,
  invalid_key, missing_key,
}
use opencode_rush_free.Keys.Cache.{
  forget_use, Agrees, Coherent, cached_client_key-Coherent, commit_unique,
}
use opencode_rush_free.Keys.Admin.{inserted_answer, committed_answer, delete_client_key}
use opencode_rush_free.Keys.Rotation.{
  used_within, migrate_legacy_client_key, touch_row, migrate_found, migrate_row, touch_client_key,
  touched,
}

-- A cache that is thrown away agrees with any table.
fresh-Coherent :
    (s : KeyState) → unique_hashes s.rows ≡ true → Coherent (invalidate_client_key_cache s)
unfolding Coherent Agrees
fresh-Coherent s u = (u, tt)

committed-Coherent :
    (answers : Bool) (rows t : List (Bytes × ClientKey)) (s : KeyState)
    → commit answers rows ≡ some t
    → Coherent (record s { rows = t; cached = none })
committed-Coherent answers rows t s e =
    fresh-Coherent (with_rows t s) (commit_unique answers rows t e).1

inserted_unique :
    (o : Option (List (Bytes × ClientKey))) (answers : Bool) (rows : List (Bytes × ClientKey))
    (s : KeyState)
    → commit answers rows ≡ o
    → unique_hashes s.rows ≡ true
    → unique_hashes (inserted o s).rows ≡ true
inserted_unique none answers rows s e u = u
inserted_unique (some t) answers rows s e u = (commit_unique answers rows t e).1

pub inserted_answer-Coherent :
    (o : Option (List (Bytes × ClientKey))) (answers : Bool) (rows : List (Bytes × ClientKey))
    (s : KeyState)
    → commit answers rows ≡ o
    → Coherent s
    → Coherent (inserted_answer o s).1
inserted_answer-Coherent none answers rows s e c = c
inserted_answer-Coherent (some t) answers rows s e c =
    committed-Coherent answers rows t (inserted (some t) s) e

pub committed_answer-Coherent :
    (o : Option (List (Bytes × ClientKey))) (answers : Bool) (rows : List (Bytes × ClientKey))
    (s : KeyState)
    → commit answers rows ≡ o
    → Coherent s
    → Coherent (committed_answer o s).1
committed_answer-Coherent none answers rows s e c = c
committed_answer-Coherent (some t) answers rows s e c = committed-Coherent answers rows t s e

either_touched :
    (b : Bool) (x y : Option ℕ × KeyState)
    → Coherent x.1
    → Coherent y.1
    → Coherent (if b then x else y).1
either_touched true x y c d = c
either_touched false x y c d = d

either_unique :
    (b : Bool) (x y : KeyState)
    → unique_hashes x.rows ≡ true
    → unique_hashes y.rows ≡ true
    → unique_hashes (if b then x else y).rows ≡ true
either_unique true x y c d = c
either_unique false x y c d = d

-- Both answers of a test keep what the operation has to keep.
pub either-Coherent :
    (b : Bool) (x y : ℕ × KeyState) → Coherent x.1 → Coherent y.1 → Coherent (if b then x else y).1
either-Coherent true x y c d = c
either-Coherent false x y c d = d

-- Rows that a test drops, or columns other than the hash that change, leave the hashes unique.
pub is_none-lookup-filter :
    (p : Bytes × ClientKey → Bool) (h : Bytes) (rows : List (Bytes × ClientKey))
    → is_none (lookup h rows) ≡ true
    → is_none (lookup h (filter p rows)) ≡ true
unfolding lookup
is_none-lookup-filter p h [] n = refl
is_none-lookup-filter p h ((g, k) ∷ rows) n = ground (arith, is_none-lookup-filter p h rows)

pub unique_hashes-filter :
    (p : Bytes × ClientKey → Bool) (rows : List (Bytes × ClientKey))
    → unique_hashes rows ≡ true
    → unique_hashes (filter p rows) ≡ true
unfolding unique_hashes
unique_hashes-filter p [] u = refl
unique_hashes-filter p ((h, k) ∷ rows) u =
    ground (arith, unique_hashes-filter p rows, is_none-lookup-filter p h rows)

forget_use-touch_row :
    (id now : ℕ) (h : Bytes) (rows : List (Bytes × ClientKey))
    → forget_use (lookup h (map (touch_row id now) rows)) ≡ forget_use (lookup h rows)
unfolding lookup forget_use
forget_use-touch_row id now h [] = refl
forget_use-touch_row id now h ((g, k) ∷ rows) = ground (arith, forget_use-touch_row id now h rows)

is_none-forget_use : (o p : Option ClientKey) → forget_use o ≡ forget_use p → is_none o ≡ is_none p
unfolding forget_use
is_none-forget_use none none e = refl
is_none-forget_use none (some b) e = cc
is_none-forget_use (some a) none e = cc
is_none-forget_use (some a) (some b) e = refl

unique_hashes-touch_row :
    (id now : ℕ) (rows : List (Bytes × ClientKey))
    → unique_hashes (map (touch_row id now) rows) ≡ unique_hashes rows
unfolding unique_hashes
unique_hashes-touch_row id now [] = refl
unique_hashes-touch_row id now ((h, k) ∷ rows) = ground (
  arith,
  unique_hashes-touch_row id now rows,
  is_none-forget_use (lookup h (map (touch_row id now) rows)) (lookup h rows)
      (forget_use-touch_row id now h rows),
)

touched-Coherent :
    (now : ℕ) (key : ClientKey) (s : KeyState) → Coherent s → Coherent (touched now key s)
unfolding Coherent Agrees
touched-Coherent now key s c = (unique_hashes-touch_row key.id now s.rows ∙ c.0, agree s.cached c.1)
  where
    agree :
        (o : Option (List (Bytes × ClientKey)))
        → Agrees o s.rows
        → Agrees o (map (touch_row key.id now) s.rows)
    agree none a = tt
    agree (some m) a = λ h. a h ∙ sym (forget_use-touch_row key.id now h s.rows)

pub touch_client_key-Coherent :
    (answers : Bool) (now : ℕ) (at : Option ℕ) (key : ClientKey) (s : KeyState)
    → Coherent s
    → Coherent (touch_client_key answers now at key s).1
unfolding touch_client_key
touch_client_key-Coherent answers now none key s c =
    either_touched (used_within now key.last_used_at || not answers) (none, s)
      (none, touched now key s) c (touched-Coherent now key s c)
touch_client_key-Coherent answers now (some at) key s c =
    let written = if not answers then (some at, s) else (some now, touched now key s) in
    either_touched (not (at == 0) && ltb (now - at) 60) (some at, s) written c
      (either_touched (not answers) (some at, s) (some now, touched now key s) c
        (touched-Coherent now key s c))

pub delete_client_key-Coherent :
    (counts answers : Bool) (id : Option ℕ) (s : KeyState)
    → Coherent s
    → Coherent (delete_client_key counts answers id s).1
unfolding delete_client_key Coherent
delete_client_key-Coherent counts answers none s c = c
delete_client_key-Coherent counts answers (some id) s c =
    let rest = filter (λ (r : Bytes × ClientKey). not (r.1.id == id)) s.rows in
    let gone : ℕ × KeyState = (200, invalidate_client_key_cache (with_rows rest s)) in
    let missing = length rest == length s.rows in
    let last : ℕ × KeyState = if missing then (404, s) else gone in
    either-Coherent (not counts || leb (length s.rows) 1) (400, s)
      (if not answers then (500, s) else last) c
      (either-Coherent (not answers) (500, s) last c
        (either-Coherent missing (404, s) gone c
          (fresh-Coherent (with_rows rest s)
            (unique_hashes-filter (λ (r : Bytes × ClientKey). not (r.1.id == id)) s.rows c.0))))

-- A state, if the operation has one.
unfoldable pub IfThere : Option KeyState → Type 0
unfolding Coherent
IfThere none = Unit
IfThere (some t) = Coherent t

either_there :
    (b : Bool) (x y : Option KeyState) → IfThere x → IfThere y → IfThere (if b then x else y)
either_there true x y c d = c
either_there false x y c d = d

pub migrated-Coherent :
    (reads inserts : Bool) (now : ℕ) (s : KeyState)
    → Coherent s
    → IfThere (migrate_legacy_client_key reads inserts now s)
unfolding migrate_legacy_client_key IfThere Coherent
migrated-Coherent false inserts now s c = tt
migrated-Coherent true inserts now s c = of_hash s.legacy_hash
  where
    found_unique :
        (hash : Bytes) (k : Option ClientKey)
        → unique_hashes (migrate_found now hash k s).rows ≡ true
    found_unique hash none = inserted_unique _ true _ s refl c.0
    found_unique hash (some key) = c.0

    of_hash : (h : Option Bytes) → IfThere (migrate_row inserts now h s)
    of_hash none = tt
    of_hash (some hash) =
        let t = migrate_found now hash (lookup hash s.rows) s in
        either_there (hash == [] || not inserts) none (some (invalidate_client_key_cache t)) tt
          (fresh-Coherent t (found_unique hash (lookup hash s.rows)))

-- An authentication, with its legacy branch.
reloaded-Coherent :
    (r : Option (Option ClientKey) × KeyState) → Coherent r.1 → Coherent (reloaded r).1
reloaded-Coherent (some (some key), t) c = c
reloaded-Coherent (some none, t) c = c
reloaded-Coherent (none, t) c = c

after_update-Coherent :
    (db : Answers) (h : Bytes) (now : ℕ) (rows : Option (List (Bytes × ClientKey)))
    (changed : List (Bytes × ClientKey)) (s : KeyState)
    → commit db.updates changed ≡ rows
    → Coherent s
    → Coherent (after_update db h now rows s).1
unfolding after_update insert_legacy
after_update-Coherent db h now none changed s e c = c
after_update-Coherent db h now (some rows) changed s e c =
    let t = with_rows rows s in
    let u = (commit_unique db.updates changed rows e).1 in
    let v =
      inserted_unique _ db.inserts (rows ++ ((h, new_legacy_key s.next_id now) ∷ [])) t refl u in
    let updated = any (λ (r : Bytes × ClientKey). r.1.name == legacy_name) s.rows in
    let w = if updated then t else insert_legacy db.inserts h now t in
    let fresh = fresh-Coherent w (either_unique updated t (insert_legacy db.inserts h now t) u v) in
    reloaded-Coherent (cached_client_key db.reloads h (invalidate_client_key_cache w))
      (cached_client_key-Coherent db.reloads h (invalidate_client_key_cache w) fresh).0

pub authenticate_client-Coherent :
    (hash_token : Bytes → Bytes) (db : Answers) (supplied : Bytes) (now : ℕ) (s : KeyState)
    → Coherent s
    → Coherent (authenticate_client hash_token db supplied now s).1
unfolding authenticate_client look_up
authenticate_client-Coherent hash_token db supplied now s c =
    let h = hash_token supplied in
    let p = cached_client_key db.loads h s in
    either_result (supplied == []) (auth_failed missing_key, s) (look_up db h now p) c
      (looked p (cached_client_key-Coherent db.loads h s c).0)
  where
    either_result :
        (b : Bool) (x y : AuthResult × KeyState)
        → Coherent x.1
        → Coherent y.1
        → Coherent (if b then x else y).1
    either_result true x y c d = c
    either_result false x y c d = d

    looked :
        (p : Option (Option ClientKey) × KeyState)
        → Coherent p.1
        → Coherent (look_up db (hash_token supplied) now p).1
    looked (none, t) c = c
    looked (some (some key), t) c = c
    looked (some none, t) c =
        either_result (is_legacy db.reads_legacy (hash_token supplied) t.legacy_hash)
          (after_update db (hash_token supplied) now
            (commit db.updates (map (revive_row (hash_token supplied)) t.rows)) t)
          (auth_failed invalid_key, t)
          (after_update-Coherent db (hash_token supplied) now _ _ t refl c) c
