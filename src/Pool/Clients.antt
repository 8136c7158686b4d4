-- ===== src/Pool/Clients.antt =====
-- The cache of HTTP clients, `clientFor` of cmd/server/proxy_runtime.go: a client is its key, the time of
-- its last use in nanoseconds, and whether it belongs to a Resin account. The map is walked in the order
-- of its list.
use opencode_rush_free.Base.{
  ==_self, All, All-imp, Bool, Bool-cases, Bytes, List, Option, Option-cases, [], any, ap, arith,
  bytes_eq, delete, false, filter, if_cases, if◌then◌else◌, inl, inr, insert, leb, length, lookup,
  ltb, nat_eq, none, refl, some, string_eq, suc, true, ℕ, ◌&&◌, ◌*◌, ◌+◌, ◌-◌, ◌==◌, ◌∷◌, ◌≡◌, ◌≤◌,
}
use opencode_rush_free.Pool.{minute}

pub record CachedClient : Type 0 where
  pub last_used : ℕ
  pub dynamic : Bool

abbrev pub ClientCache : Type 0
ClientCache = List (Bytes × CachedClient)

-- `now.Sub(lastUsed) < 10*time.Minute`.
abbrev pub is_recent : ℕ → Bytes × CachedClient → Bool
is_recent now (key, c) = ltb (now - c.last_used) (10 * minute)

abbrev pub is_dynamic : Bytes × CachedClient → Bool
is_dynamic (key, c) = c.dynamic

abbrev pub older : CachedClient → Option (Bytes × CachedClient) → Bool
older c none = true
older c (some (key, old)) = ltb c.last_used old.last_used

-- The first of the dynamic clients with the least time of use.
unfoldable pub oldest_dynamic :
    ClientCache → Option (Bytes × CachedClient) → Option (Bytes × CachedClient)
oldest_dynamic [] acc = acc
oldest_dynamic ((key, c) ∷ m) acc =
    oldest_dynamic m (if c.dynamic && older c acc then some (key, c) else acc)

abbrev pub dynamic_count : ClientCache → ℕ
dynamic_count m = length (filter is_dynamic m)

abbrev pub drop_client : Option (Bytes × CachedClient) → ClientCache → ClientCache
drop_client none m = m
drop_client (some (key, c)) m = delete key m

unfoldable pub make_room : Bool → ClientCache → ClientCache
make_room dynamic m =
    if dynamic && leb 256 (dynamic_count m) then drop_client (oldest_dynamic m none) m else m

abbrev pub touch : ℕ → CachedClient → CachedClient
touch now c = record c { last_used = now }

-- The cache after the lookup, with the client built if it is missing. Another request may have put the
-- client there in between, `raced`.
unfoldable pub add_client : ℕ → Bytes → Bool → ClientCache → Option CachedClient → ClientCache
add_client now key dynamic m (some c) = insert key (touch now c) m
add_client now key dynamic m none =
    insert key (record { last_used = now; dynamic = dynamic })
      (make_room dynamic (filter (is_recent now) m))

unfoldable pub client_for :
    ℕ → Bytes → Bool → Bool → (ClientCache → ClientCache) → ClientCache → ClientCache
client_for now key dynamic build_fails raced m = elim (lookup key m) [
  | some c ↦ insert key (touch now c) m
  | none ↦ if build_fails then m else add_client now key dynamic (raced m) (lookup key (raced m))
]

module _ (full : ClientCache) where
  -- A dynamic client of the key is in the cache.
  abbrev present : Bytes → Bool
  present key = any (λ e. e.0 == key && is_dynamic e) full

  abbrev InCache : Option (Bytes × CachedClient) → Type 0
  InCache none = Unit
  InCache (some (key, c)) = present key ≡ true

  oldest_dynamic-InCache :
      (m : ClientCache) (acc : Option (Bytes × CachedClient))
      → All (λ e. is_dynamic e ≡ true → present e.0 ≡ true) m
      → InCache acc
      → InCache (oldest_dynamic m acc)
  unfolding oldest_dynamic
  oldest_dynamic-InCache [] acc a h = h
  oldest_dynamic-InCache ((key, c) ∷ m) acc a h =
      oldest_dynamic-InCache m _ a.1
        (if_cases InCache (c.dynamic && older c acc) (λ e. a.0 (ground arith)) (λ _. h))

All-in_cache : (m : ClientCache) → All (λ e. is_dynamic e ≡ true → present m e.0 ≡ true) m
All-in_cache [] = tt
All-in_cache (x ∷ m) = (
  λ h. let s = ==_self x.0 in ground arith,
  All-imp (λ e. is_dynamic e ≡ true → present m e.0 ≡ true)
      (λ e. is_dynamic e ≡ true → present (x ∷ m) e.0 ≡ true) m
      (λ e f h. let g = f h in ground arith) (All-in_cache m),
)

abbrev is_some : Option (Bytes × CachedClient) → Bool
is_some none = false
is_some (some x) = true

oldest_dynamic-kept :
    (m : ClientCache) (acc : Option (Bytes × CachedClient))
    → is_some acc ≡ true
    → is_some (oldest_dynamic m acc) ≡ true
unfolding oldest_dynamic
oldest_dynamic-kept [] acc h = h
oldest_dynamic-kept ((key, c) ∷ m) acc h =
    oldest_dynamic-kept m _
      (if_cases (λ o. is_some o ≡ true) (c.dynamic && older c acc) (λ _. refl) (λ _. h))

oldest_dynamic-some :
    (m : ClientCache) (acc : Option (Bytes × CachedClient))
    → 1 ≤ dynamic_count m
    → is_some (oldest_dynamic m acc) ≡ true
unfolding oldest_dynamic
oldest_dynamic-some [] acc h = absurd (omega arith)
oldest_dynamic-some ((key, c) ∷ m) none h = elim (Bool-cases c.dynamic) [
  | inl d ↦ oldest_dynamic-kept m _ (
      if_cases (λ o. is_some o ≡ true) (c.dynamic && true) (λ _. refl) (λ f. absurd (ground arith)))
  | inr d ↦ oldest_dynamic-some m _ (ground arith)
]
oldest_dynamic-some ((key, c) ∷ m) (some x) h =
    oldest_dynamic-kept m _
      (if_cases (λ o. is_some o ≡ true) (c.dynamic && older c (some x)) (λ _. refl) (λ _. refl))

delete_count-le : (key : Bytes) (m : ClientCache) → dynamic_count (delete key m) ≤ dynamic_count m
unfolding delete
delete_count-le key [] = omega arith
delete_count-le key (x ∷ m) = let r = delete_count-le key m in ground arith

delete_count-lt :
    (key : Bytes) (m : ClientCache)
    → present m key ≡ true
    → suc (dynamic_count (delete key m)) ≤ dynamic_count m
unfolding delete
delete_count-lt key [] h = cc
delete_count-lt key (x ∷ m) h =
    let l = delete_count-le key m in let r = delete_count-lt key m in ground arith

insert_count :
    (key : Bytes) (c : CachedClient) (m : ClientCache)
    → dynamic_count (insert key c m) ≤ dynamic_count m + (if c.dynamic then 1 else 0)
unfolding insert
insert_count key c [] = ground arith
insert_count key c (x ∷ m) = let r = insert_count key c m in ground arith

abbrev dynamic_of : Option CachedClient → Bool
dynamic_of none = false
dynamic_of (some c) = c.dynamic

head_dynamic :
    (b : Bool) (c d : CachedClient) (o : Option CachedClient)
    → b ≡ true
    → (if b then some d else o) ≡ some c
    → d.dynamic ≡ c.dynamic
head_dynamic true c d o e h = ap dynamic_of h
head_dynamic false c d o e h = cc

touch_count :
    (now : ℕ) (key : Bytes) (c : CachedClient) (m : ClientCache)
    → lookup key m ≡ some c
    → dynamic_count (insert key (touch now c) m) ≡ dynamic_count m
unfolding insert lookup
touch_count now key c [] h = cc
touch_count now key c ((k, d) ∷ m) h = elim (Bool-cases (k == key)) [
  | inl e ↦ let same = head_dynamic (k == key) c d _ e h in ground arith
  | inr e ↦ let r = touch_count now key c m in ground arith
]

filter_count :
    (f : Bytes × CachedClient → Bool) (m : ClientCache)
    → dynamic_count (filter f m) ≤ dynamic_count m
filter_count f [] = omega arith
filter_count f (x ∷ m) = let r = filter_count f m in ground arith

drop_client-count :
    (m : ClientCache) (o : Option (Bytes × CachedClient))
    → InCache m o
    → is_some o ≡ true
    → suc (dynamic_count (drop_client o m)) ≤ dynamic_count m
drop_client-count m none h s = cc
drop_client-count m (some (key, c)) h s = delete_count-lt key m h

make_room-count :
    (dynamic : Bool) (m : ClientCache)
    → dynamic_count m ≤ 256
    → dynamic_count (make_room dynamic m) + (if dynamic then 1 else 0) ≤ 256
unfolding make_room
make_room-count dynamic m h =
    if_cases (λ r. dynamic_count r + (if dynamic then 1 else 0) ≤ 256)
      (dynamic && leb 256 (dynamic_count m))
      (λ e.
        let o = oldest_dynamic m none in
        let s = oldest_dynamic-some m none (ground arith) in
        let l = drop_client-count m o (oldest_dynamic-InCache m m none (All-in_cache m) tt) s in
        ground arith)
      (λ e. ground arith)

add_client-count :
    (now : ℕ) (key : Bytes) (dynamic : Bool) (m : ClientCache) (o : Option CachedClient)
    → lookup key m ≡ o
    → dynamic_count m ≤ 256
    → dynamic_count (add_client now key dynamic m o) ≤ 256
unfolding add_client
add_client-count now key dynamic m (some c) e h = let t = touch_count now key c m e in ground arith
add_client-count now key dynamic m none e h =
    let kept = filter (is_recent now) m in
    let f = filter_count (is_recent now) m in
    let r = make_room-count dynamic kept (ground arith) in
    let i =
      insert_count key (record { last_used = now; dynamic = dynamic }) (make_room dynamic kept) in
    ground arith

-- The cache never holds more than 256 clients of Resin accounts, also where another request, which keeps
-- that bound, has changed the cache while the client was built.
pub client_for-bounded :
    (now : ℕ) (key : Bytes) (dynamic build_fails : Bool) (raced : ClientCache → ClientCache)
    (m : ClientCache)
    → dynamic_count m ≤ 256
    → dynamic_count (raced m) ≤ 256
    → dynamic_count (client_for now key dynamic build_fails raced m) ≤ 256
unfolding client_for
client_for-bounded now key dynamic build_fails raced m h r = elim (Option-cases (lookup key m)) [
  | inl e ↦
      rw (e, client_for)
        (if_cases (λ x. dynamic_count x ≤ 256) build_fails (λ _. h)
          (λ _. add_client-count now key dynamic (raced m) _ refl r))
  | inr (c, e) ↦ rw (e, client_for) (let t = touch_count now key c m e in ground arith)
]
