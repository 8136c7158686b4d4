-- ===== src/Pool/Snapshot.antt =====
-- What a snapshot of the proxies leaves out, cmd/server/proxy_runtime.go and cmd/server/main.go.
use opencode_rush_free.Base.{
  All, Bool, Bool-cases, List, Option, String, [], ap, arith, bytes_eq, false, filter, if_cases,
  inl, inr, member, nat_eq, none, not, refl, some, string_eq, subst, sym, true, ℕ, ◌==◌, ◌∙◌, ◌∷◌,
  ◌≡◌,
}
use opencode_rush_free.Proxy.{ProxyRecord}
use opencode_rush_free.Pool.{
  PoolState, is_cooling, is_expired, is_usable, delete_expired_proxies, load_available_proxies,
  load_snapshot, loaded_if_none, available, with_health, replace_first, replace_in, replace_health,
  failure_count_of, fail_row, mark_proxy_failure, mark_proxy_success,
}
use opencode_rush_free.Pool.Cooldown.{proxy_ids, filter-absent, available-snapshot}

-- What the requests and the probes report.
pub data Mark : Type 0 where
  failure : ℕ → ℕ → Mark
  success : ℕ → Mark

abbrev pub apply_marks : List Mark → PoolState → PoolState
apply_marks [] s = s
apply_marks (failure now id ∷ ms) s = apply_marks ms (mark_proxy_failure now id s)
apply_marks (success id ∷ ms) s = apply_marks ms (mark_proxy_success id s)

-- A snapshot without the proxy.
abbrev Absent : ℕ → Option (List ProxyRecord) → Type 0
Absent id none = ⊥
Absent id (some ps) = member id (proxy_ids ps) ≡ false

replace_first-ids :
    (j : ℕ) (status : String) (failures : ℕ) (c : Option ℕ) (ps : List ProxyRecord)
    → proxy_ids (replace_first j (with_health status failures c) ps) ≡ proxy_ids ps
unfolding replace_first
replace_first-ids j status failures c [] = refl
replace_first-ids j status failures c (p ∷ ps) =
    if_cases (λ qs. proxy_ids qs ≡ proxy_ids (p ∷ ps)) (p.id == j) (λ _. refl)
      (λ _. ap (λ ids. p.id ∷ ids) (replace_first-ids j status failures c ps))

replace_in-Absent :
    (id j : ℕ) (status : String) (failures : ℕ) (c : Option ℕ) (o : Option (List ProxyRecord))
    → Absent id o
    → Absent id (replace_in j (with_health status failures c) o)
replace_in-Absent id j status failures c none h = h
replace_in-Absent id j status failures c (some ps) h =
    ap (member id) (replace_first-ids j status failures c ps) ∙ h

fail_row-Absent :
    (now id j : ℕ) (s : PoolState) (o : Option ℕ)
    → Absent id s.snapshot
    → Absent id (fail_row now j s o).snapshot
unfolding replace_health
fail_row-Absent now id j s none h = h
fail_row-Absent now id j s (some n) h = replace_in-Absent id j _ _ _ s.snapshot h

apply_marks-Absent :
    (id : ℕ) (ms : List Mark) (s : PoolState)
    → Absent id s.snapshot
    → Absent id (apply_marks ms s).snapshot
unfolding mark_proxy_failure mark_proxy_success replace_health
apply_marks-Absent id [] s h = h
apply_marks-Absent id (failure now j ∷ ms) s h =
    apply_marks-Absent id ms (mark_proxy_failure now j s)
      (fail_row-Absent now id j s (failure_count_of j s.table) h)
apply_marks-Absent id (success j ∷ ms) s h =
    apply_marks-Absent id ms (mark_proxy_success j s) (replace_in-Absent id j _ _ _ s.snapshot h)

available-Absent :
    (now id : ℕ) (s : PoolState) (o : Option (List ProxyRecord))
    → s.snapshot ≡ o
    → Absent id o
    → member id (proxy_ids (available now s).0) ≡ false
available-Absent now id s none e h = absurd h
available-Absent now id s (some ps) e h =
    ap (λ qs. member id (proxy_ids qs)) (available-snapshot now s ps e)
    ∙ filter-absent (is_usable now) id ps h

-- Every row of the id cools.
abbrev pub AllCooling : ℕ → ℕ → List ProxyRecord → Type 0
AllCooling now id ps = All (λ p. (p.id == id) ≡ true → is_cooling now p.cooldown_until ≡ true) ps

cooling-absent :
    (now id : ℕ) (ps : List ProxyRecord)
    → AllCooling now id ps
    → member id (proxy_ids (filter (λ p. not (is_cooling now p.cooldown_until)) ps)) ≡ false
cooling-absent now id [] h = refl
cooling-absent now id (p ∷ ps) h =
    let rest = cooling-absent now id ps h.1 in
    if_cases (λ qs. member id (proxy_ids qs) ≡ false) (not (is_cooling now p.cooldown_until))
      (λ e. elim (Bool-cases (p.id == id)) [
        | inl k ↦ absurd (let c = h.0 k in ground arith)
        | inr k ↦ ground arith
      ])
      (λ _. rest)

AllCooling-filter :
    (now id : ℕ) (f : ProxyRecord → Bool) (ps : List ProxyRecord)
    → AllCooling now id ps
    → AllCooling now id (filter f ps)
AllCooling-filter now id f [] h = tt
AllCooling-filter now id f (p ∷ ps) h =
    let rest = AllCooling-filter now id f ps h.1 in
    if_cases (AllCooling now id) (f p) (λ _. (h.0, rest)) (λ _. rest)

load-Absent :
    (now id : ℕ) (s : PoolState)
    → AllCooling now id s.table
    → member id (proxy_ids (load_available_proxies now s)) ≡ false
unfolding load_available_proxies
load-Absent now id s h =
    filter-absent (λ p. not (is_expired now p.expires_at)) id _
      (cooling-absent now id (filter (λ p. p.enabled) s.table)
        (AllCooling-filter now id (λ p. p.enabled) s.table h))

-- A snapshot that is loaded while every row of an id cools has no proxy of that id, and no mark of a failure
-- or a success brings it back: it is not available, however much later, from that snapshot.
pub cooling_lost :
    (now later id : ℕ) (ms : List Mark) (s : PoolState)
    → s.snapshot ≡ none
    → AllCooling now id s.table
    → member id (proxy_ids (available later (apply_marks ms (available now s).1)).0) ≡ false
unfolding available delete_expired_proxies
cooling_lost now later id ms s e h =
    let loaded = load_snapshot now (delete_expired_proxies now s) in
    let same : (available now s).1 ≡ loaded = ap (loaded_if_none now s) e in
    let a : Absent id loaded.snapshot =
      load-Absent now id (delete_expired_proxies now s) (AllCooling-filter now id _ s.table h) in
    let b =
      apply_marks-Absent id ms (available now s).1
        (subst (λ t. Absent id t.snapshot) (sym same) a) in
    available-Absent later id (apply_marks ms (available now s).1) _ refl b
