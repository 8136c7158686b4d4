-- ===== src/Pool.antt =====
-- The proxies at hand and their health, cmd/server/proxy_runtime.go and cmd/server/main.go: the table
-- `proxies` of the database and the snapshot that the runtime keeps of it. Times are nanoseconds; the
-- database keeps whole seconds. The statements of the database do not fail here.
use opencode_rush_free.Base.{
  Bool, List, Option, String, [], bytes_eq, false, filter, if◌then◌else◌, leb, length, ltb, map,
  nat_eq, none, not, some, string_eq, suc, ℕ, ◌&&◌, ◌*◌, ◌+◌, ◌-◌, ◌/◌, ◌==◌, ◌^◌, ◌∷◌,
}
use opencode_rush_free.Proxy.{ProxyRecord}
use opencode_rush_free.Limiter.{second}
pub mod Clients
pub mod Cooldown
pub mod Snapshot
mod Tests

abbrev pub minute : ℕ
minute = 60 * second

-- A time as the database keeps it.
abbrev pub stored : ℕ → ℕ
stored t = t / second * second

pub record PoolState : Type 0 where
  pub table : List ProxyRecord
  pub snapshot : Option (List ProxyRecord)

abbrev pub is_cooling : ℕ → Option ℕ → Bool
is_cooling now none = false
is_cooling now (some t) = ltb now t

-- `!t.After(now)`.
abbrev pub is_expired : ℕ → Option ℕ → Bool
is_expired now none = false
is_expired now (some t) = leb t now

abbrev pub is_usable : ℕ → ProxyRecord → Bool
is_usable now p =
    p.enabled && not (is_cooling now p.cooldown_until) && not (is_expired now p.expires_at)

unfoldable pub delete_expired_proxies : ℕ → PoolState → PoolState
delete_expired_proxies now s =
    let kept = filter (λ p. not (is_expired (stored now) p.expires_at)) s.table in
    record { table = kept; snapshot = if length kept == length s.table then s.snapshot else none }

-- The rows that are read into a snapshot.
unfoldable pub load_available_proxies : ℕ → PoolState → List ProxyRecord
load_available_proxies now s =
    filter (λ p. not (is_expired now p.expires_at))
      (filter (λ p. not (is_cooling now p.cooldown_until)) (filter (λ p. p.enabled) s.table))

abbrev pub load_snapshot : ℕ → PoolState → PoolState
load_snapshot now s = record s { snapshot = some (load_available_proxies now s) }

abbrev pub loaded_if_none : ℕ → PoolState → Option (List ProxyRecord) → PoolState
loaded_if_none now s (some ps) = s
loaded_if_none now s none = load_snapshot now (delete_expired_proxies now s)

abbrev pub snapshot_or_nil : Option (List ProxyRecord) → List ProxyRecord
snapshot_or_nil none = []
snapshot_or_nil (some ps) = ps

unfoldable pub available : ℕ → PoolState → List ProxyRecord × PoolState
available now s =
    let loaded = loaded_if_none now s s.snapshot in
    (filter (is_usable now) (snapshot_or_nil loaded.snapshot), loaded)

abbrev pub with_health : String → ℕ → Option ℕ → ProxyRecord → ProxyRecord
with_health status failures cooldown p = record p {
  health_status = status;
  failure_count = failures;
  cooldown_until = cooldown;
}

-- The first proxy of the id changes; a snapshot without it stays.
unfoldable pub replace_first : ℕ → (ProxyRecord → ProxyRecord) → List ProxyRecord → List ProxyRecord
replace_first id f [] = []
replace_first id f (p ∷ ps) =
    let rest = replace_first id f ps in if p.id == id then f p ∷ ps else p ∷ rest

abbrev pub replace_in :
    ℕ → (ProxyRecord → ProxyRecord) → Option (List ProxyRecord) → Option (List ProxyRecord)
replace_in id f none = none
replace_in id f (some ps) = some (replace_first id f ps)

unfoldable pub replace_health : ℕ → String → ℕ → Option ℕ → PoolState → PoolState
replace_health id status failures cooldown s = record s {
  snapshot = replace_in id (with_health status failures cooldown) s.snapshot;
}

-- `UPDATE proxies SET ... WHERE id=?`.
abbrev pub update_rows : ℕ → (ProxyRecord → ProxyRecord) → List ProxyRecord → List ProxyRecord
update_rows id f ps = map (λ p. if p.id == id then f p else p) ps

unfoldable pub failure_count_of : ℕ → List ProxyRecord → Option ℕ
failure_count_of id [] = none
failure_count_of id (p ∷ ps) =
    let rest = failure_count_of id ps in if p.id == id then some p.failure_count else rest

-- `time.Minute * time.Duration(1<<min(failures-1, 5))`, at most thirty minutes.
unfoldable pub cooldown_delay : ℕ → ℕ
cooldown_delay failures =
    let delay = minute * 2 ^ (if leb (failures - 1) 5 then failures - 1 else 5) in
    if ltb (30 * minute) delay then 30 * minute else delay

abbrev pub fail_row : ℕ → ℕ → PoolState → Option ℕ → PoolState
fail_row now id s none = s
fail_row now id s (some previous) =
    let failures = suc previous in
    let cooldown = now + cooldown_delay failures in
    replace_health id "cooldown" failures (some cooldown) (record s {
      table = update_rows id (with_health "cooldown" failures (some (stored cooldown))) s.table;
    })

unfoldable pub mark_proxy_failure : ℕ → ℕ → PoolState → PoolState
mark_proxy_failure now id s = fail_row now id s (failure_count_of id s.table)

unfoldable pub mark_proxy_success : ℕ → PoolState → PoolState
mark_proxy_success id s =
    replace_health id "healthy" 0 none
      (record s { table = update_rows id (with_health "healthy" 0 none) s.table })
