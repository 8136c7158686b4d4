-- ===== src/Keys/Cache.antt =====
-- The cache of the client keys, cmd/server/runtime_cache.go, against the table it was read from.
use opencode_rush_free.Base.{
  Bool, Bytes, List, Option, [], ap, arith, bytes_eq, eq_of_==, false, insert, lookup,
  lookup-insert, nat_eq, none, refl, some, string_eq, true, ◌∙◌, ◌∷◌, ◌≡◌,
}
use opencode_rush_free.Limiter.{ClientKey}
use opencode_rush_free.Keys.{
  KeyState, unique_hashes, read_rows, commit, is_none, load_cached_client_keys, load_of,
  cached_client_key, found_in, fill_cache,
}

-- A key without the time of its last use, which is written to the table alone.
unfoldable pub forget_use : Option ClientKey → Option ClientKey
forget_use none = none
forget_use (some key) = some (record key { last_used_at = none })

-- The cache, if it is loaded, holds for every hash what the table holds, but for the last use.
unfoldable pub Agrees : Option (List (Bytes × ClientKey)) → List (Bytes × ClientKey) → Type 0
unfolding forget_use lookup
Agrees none rows = Unit
Agrees (some by_hash) rows =
    (h : Bytes) → forget_use (lookup h by_hash) ≡ forget_use (lookup h rows)

unfoldable pub Coherent : KeyState → Type 0
unfolding unique_hashes
Coherent s = (unique_hashes s.rows ≡ true) × Agrees s.cached s.rows

abbrev or_else : Option ClientKey → Option ClientKey → Option ClientKey
or_else none other = other
or_else (some key) other = some key

is_none_eq : (o : Option ClientKey) → is_none o ≡ true → o ≡ none
is_none_eq none h = refl
is_none_eq (some key) h = cc

-- Reading the rows one after the other gives the first row of a hash, as the hashes are unique.
lookup-read_rows :
    (h : Bytes) (rows by_hash : List (Bytes × ClientKey))
    → unique_hashes rows ≡ true
    → lookup h (read_rows rows by_hash) ≡ or_else (lookup h rows) (lookup h by_hash)
unfolding lookup read_rows unique_hashes
lookup-read_rows h [] by_hash u = refl
lookup-read_rows h ((g, k) ∷ rows) by_hash u = ground (
  arith,
  lookup-read_rows h rows (insert g k by_hash),
  lookup-insert g h k by_hash,
  is_none_eq (lookup g rows),
  eq_of_== g h,
)

or_else-none : (o : Option ClientKey) → or_else o none ≡ o
or_else-none none = refl
or_else-none (some key) = refl

pub read_rows_lem :
    (h : Bytes) (rows : List (Bytes × ClientKey))
    → unique_hashes rows ≡ true
    → lookup h (read_rows rows []) ≡ lookup h rows
unfolding lookup
read_rows_lem h rows u = lookup-read_rows h rows [] u ∙ or_else-none (lookup h rows)

-- What an authentication sees: for a hash the key of the table, but for its last use.
pub cached_client_key_lem :
    (h : Bytes) (s : KeyState)
    → Coherent s
    → (k : Option ClientKey) × ((cached_client_key true h s).0 ≡ some k)
      × (forget_use k ≡ forget_use (lookup h s.rows))
      × ((cached_client_key true h s).1.legacy_hash ≡ s.legacy_hash)
unfolding cached_client_key load_cached_client_keys Coherent found_in fill_cache Agrees
cached_client_key_lem h s c = of_cache s.cached c.1
  where
    of_cache :
        (o : Option (List (Bytes × ClientKey)))
        → Agrees o s.rows
        → (k : Option ClientKey) × (found_in h (load_of o true s).0 ≡ some k)
          × (forget_use k ≡ forget_use (lookup h s.rows))
          × ((load_of o true s).1.legacy_hash ≡ s.legacy_hash)
    of_cache none a =
        (lookup h (read_rows s.rows []), refl, ap forget_use (read_rows_lem h s.rows c.0), refl)
    of_cache (some m) a = (lookup h m, refl, a h, refl)

-- Loading changes the cache alone, and keeps it coherent.
pub cached_client_key-Coherent :
    (answers : Bool) (h : Bytes) (s : KeyState)
    → Coherent s
    → Coherent (cached_client_key answers h s).1 × ((cached_client_key answers h s).1.rows ≡ s.rows)
unfolding cached_client_key load_cached_client_keys Coherent fill_cache Agrees
cached_client_key-Coherent answers h s c = of_cache s.cached c.1 answers
  where
    of_cache :
        (o : Option (List (Bytes × ClientKey)))
        → Agrees o s.rows
        → (b : Bool)
        → ((unique_hashes (load_of o b s).1.rows ≡ true)
            × Agrees (load_of o b s).1.cached (load_of o b s).1.rows)
          × ((load_of o b s).1.rows ≡ s.rows)
    of_cache (some m) a b = ((c.0, c.1), refl)
    of_cache none a false = ((c.0, c.1), refl)
    of_cache none a true = ((c.0, λ g. ap forget_use (read_rows_lem g s.rows c.0)), refl)

-- Every statement that succeeds leaves unique hashes, and a cache that is thrown away agrees with any table.
pub commit_unique :
    (answers : Bool) (rows t : List (Bytes × ClientKey))
    → commit answers rows ≡ some t
    → (t ≡ rows) × (unique_hashes t ≡ true)
unfolding commit
commit_unique answers rows t h = ground arith
