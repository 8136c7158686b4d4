-- ===== src/Keys/Revocation.antt =====
-- Keys that the administrator takes back, cmd/server/client_keys.go.
use opencode_rush_free.Base.{
  ==_self, Bool, Bytes, List, Option, [], any, ap, arith, bytes_eq, eq_of_==, false, filter, lookup,
  map, nat_eq, none, not, refl, some, string_eq, sym, true, ℕ, ◌++◌, ◌==◌, ◌∙◌, ◌∷◌, ◌≡◌,
}
use opencode_rush_free.Limiter.{ClientKey}
use opencode_rush_free.Keys.{
  KeyState, Answers, authenticated, authenticate_client, unique_hashes, is_none, new_legacy_key,
  revive_row, legacy_name, commit, look_up, revive_legacy, after_update, insert_legacy,
  cached_client_key, load_cached_client_keys, fill_cache, found_in,
}
use opencode_rush_free.Keys.Cache.{Coherent, read_rows_lem}
use opencode_rush_free.Keys.Kept.{is_none-lookup-filter, unique_hashes-filter}
use opencode_rush_free.Keys.Admin.{delete_client_key}

named_legacy : Bytes × ClientKey → Bool
named_legacy r = r.1.name == legacy_name

map-revive_row :
    (h : Bytes) (rows : List (Bytes × ClientKey))
    → any (λ (r : Bytes × ClientKey). r.1.name == legacy_name) rows ≡ false
    → map (revive_row h) rows ≡ rows
unfolding revive_row
map-revive_row h [] n = refl
map-revive_row h ((g, k) ∷ rows) n = ground (arith, map-revive_row h rows)

lookup-snoc :
    (h : Bytes) (k : ClientKey) (rows : List (Bytes × ClientKey))
    → lookup h rows ≡ none
    → lookup h (rows ++ ((h, k) ∷ [])) ≡ some k
unfolding lookup
lookup-snoc h k [] n = ground (arith, ==_self h)
lookup-snoc h k ((g, x) ∷ rows) n = ground (arith, lookup-snoc h k rows)

is_none-lookup-snoc :
    (g h : Bytes) (k : ClientKey) (rows : List (Bytes × ClientKey))
    → is_none (lookup g rows) ≡ true
    → (h == g) ≡ false
    → is_none (lookup g (rows ++ ((h, k) ∷ []))) ≡ true
unfolding lookup
is_none-lookup-snoc g h k [] n e = ground arith
is_none-lookup-snoc g h k ((i, x) ∷ rows) n e = ground (arith, is_none-lookup-snoc g h k rows)

unique_hashes-snoc :
    (h : Bytes) (k : ClientKey) (rows : List (Bytes × ClientKey))
    → unique_hashes rows ≡ true
    → lookup h rows ≡ none
    → unique_hashes (rows ++ ((h, k) ∷ [])) ≡ true
unfolding unique_hashes lookup
unique_hashes-snoc h k [] u n = refl
unique_hashes-snoc h k ((g, x) ∷ rows) u n = ground (
  arith,
  unique_hashes-snoc h k rows,
  is_none-lookup-snoc g h k rows,
  eq_of_== g h,
  eq_of_== h g,
  ==_self h,
)

abbrev pub all_answer : Answers
all_answer = record {
  loads = true;
  reads_legacy = true;
  updates = true;
  inserts = true;
  reloads = true;
}

abbrev pub legacy_state : List (Bytes × ClientKey) → Bytes → ℕ → KeyState
legacy_state rows h id = record { rows = rows; legacy_hash = some h; next_id = id; cached = none }

-- A hash that is only the setting's gets a new row, and its key is let in.
revived :
    (hash_token : Bytes → Bytes) (supplied : Bytes) (now id : ℕ) (rows : List (Bytes × ClientKey))
    → (supplied == []) ≡ false
    → unique_hashes rows ≡ true
    → lookup (hash_token supplied) rows ≡ none
    → any (λ (r : Bytes × ClientKey). r.1.name == legacy_name) rows ≡ false
    → (authenticate_client hash_token all_answer supplied now
        (legacy_state rows (hash_token supplied) id)).0
      ≡ authenticated (new_legacy_key id now)
unfolding authenticate_client cached_client_key load_cached_client_keys fill_cache found_in look_up
    revive_legacy after_update insert_legacy commit
revived hash_token supplied now id rows n u l a =
    let h = hash_token supplied in
    let k = new_legacy_key id now in
    let v = unique_hashes-snoc h k rows u l in
    let first = read_rows_lem h rows u ∙ l in
    let second = read_rows_lem h (rows ++ ((h, k) ∷ [])) v ∙ lookup-snoc h k rows l in
    rw (n, first, ==_self h, map-revive_row h rows a, u, a, v, second)

none_of : (o : Option ClientKey) → is_none o ≡ true → o ≡ none
none_of none h = refl
none_of (some key) h = cc

lookup-gone :
    (h : Bytes) (key : ClientKey) (id : ℕ) (rows : List (Bytes × ClientKey))
    → unique_hashes rows ≡ true
    → lookup h rows ≡ some key
    → key.id ≡ id
    → lookup h (filter (λ (r : Bytes × ClientKey). not (r.1.id == id)) rows) ≡ none
unfolding unique_hashes lookup
lookup-gone h key id [] u l e = cc
lookup-gone h key id ((g, k) ∷ rows) u l e = ground (
  arith,
  lookup-gone h key id rows,
  eq_of_== g h,
  none_of (lookup g rows),
  is_none-lookup-filter (λ (r : Bytes × ClientKey). not (r.1.id == id)) g rows,
  none_of (lookup g (filter (λ (r : Bytes × ClientKey). not (r.1.id == id)) rows)),
)

deleted-state :
    (id : ℕ) (s : KeyState)
    → (delete_client_key true true (some id) s).0 ≡ 200
    → (delete_client_key true true (some id) s).1 ≡ record {
      rows = filter (λ (r : Bytes × ClientKey). not (r.1.id == id)) s.rows;
      legacy_hash = s.legacy_hash;
      next_id = s.next_id;
      cached = none;
    }
unfolding delete_client_key
deleted-state id s d = ground arith

-- A legacy key that is deleted comes back: if the deleted key's hash is still the setting's, and no other key is
-- named Legacy, then the next request with it is let in, with a new row that neither expires nor has limits.
pub deleted_legacy_returns :
    (hash_token : Bytes → Bytes) (supplied : Bytes) (now : ℕ) (key : ClientKey) (s : KeyState)
    → Coherent s
    → (supplied == []) ≡ false
    → s.legacy_hash ≡ some (hash_token supplied)
    → lookup (hash_token supplied) s.rows ≡ some key
    → (delete_client_key true true (some key.id) s).0 ≡ 200
    → any
        (λ (r : Bytes × ClientKey). r.1.name == legacy_name)
        (delete_client_key true true (some key.id) s).1.rows
      ≡ false
    → (authenticate_client hash_token all_answer supplied now
        (delete_client_key true true (some key.id) s).1).0
      ≡ authenticated (new_legacy_key s.next_id now)
unfolding Coherent
deleted_legacy_returns hash_token supplied now key s c n h l d a =
    let rows = filter (λ (r : Bytes × ClientKey). not (r.1.id == key.id)) s.rows in
    let e = deleted-state key.id s d in
    let t : (delete_client_key true true (some key.id) s).1
        ≡ legacy_state rows (hash_token supplied) s.next_id =
      e
      ∙ ap
          (λ (o : Option Bytes). record {
            rows = rows;
            legacy_hash = o;
            next_id = s.next_id;
            cached = none;
          })
          h in
    let b : any (λ (r : Bytes × ClientKey). r.1.name == legacy_name) rows ≡ false =
      ap (λ (x : KeyState). any (λ (r : Bytes × ClientKey). r.1.name == legacy_name) x.rows) (sym t)
      ∙ a in
    ap (λ (x : KeyState). (authenticate_client hash_token all_answer supplied now x).0) t
    ∙ revived hash_token supplied now s.next_id rows n
        (unique_hashes-filter (λ (r : Bytes × ClientKey). not (r.1.id == key.id)) s.rows c.0)
        (lookup-gone (hash_token supplied) key key.id s.rows c.0 l refl) b
