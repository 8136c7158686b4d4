-- ===== src/Pool/Cooldown.antt =====
-- A failed proxy is out of use for its cooldown, cmd/server/main.go and cmd/server/proxy_runtime.go.
use opencode_rush_free.Base.{
  Bool, List, NoRepeat, String, [], ap, arith, bytes_eq, false, filter, if_cases, if◌then◌else◌,
  leb, ltb, map, member, nat_eq, refl, some, string_eq, subst, suc, zero, ℕ, ◌*◌, ◌+◌, ◌-◌, ◌<◌,
  ◌==◌, ◌^◌, ◌∙◌, ◌∷◌, ◌≡◌, ◌≤◌,
}
use opencode_rush_free.Proxy.{ProxyRecord}
use opencode_rush_free.Pool.{
  PoolState, minute, is_usable, available, loaded_if_none, snapshot_or_nil, with_health,
  replace_first, replace_in, replace_health, failure_count_of, cooldown_delay, fail_row,
  mark_proxy_failure,
}

abbrev pub proxy_ids : List ProxyRecord → List ℕ
proxy_ids ps = map (λ p. p.id) ps

-- A list without an id.
pub filter-absent :
    (f : ProxyRecord → Bool) (id : ℕ) (ps : List ProxyRecord)
    → member id (proxy_ids ps) ≡ false
    → member id (proxy_ids (filter f ps)) ≡ false
filter-absent f id [] h = refl
filter-absent f id (p ∷ ps) h =
    let rest = filter-absent f id ps (ground arith) in
    if_cases (λ qs. member id (proxy_ids qs) ≡ false) (f p) (λ _. ground arith) (λ _. rest)

-- The proxy that cools is filtered out, wherever it stands.
replaced-absent :
    (now t id : ℕ) (status : String) (failures : ℕ) (ps : List ProxyRecord)
    → now < t
    → NoRepeat (proxy_ids ps)
    → member id (
        proxy_ids
          (filter (is_usable now) (replace_first id (with_health status failures (some t)) ps)))
      ≡ false
unfolding replace_first
replaced-absent now t id status failures [] l u = refl
replaced-absent now t id status failures (p ∷ ps) l u =
    if_cases (λ qs. member id (proxy_ids (filter (is_usable now) qs)) ≡ false) (p.id == id)
      (λ e.
        let same : p.id ≡ id = (ground arith) in
        let h : is_usable now (with_health status failures (some t) p) ≡ false = (ground arith) in
        if_cases (λ qs. member id (proxy_ids qs) ≡ false)
          (is_usable now (with_health status failures (some t) p)) (λ x. absurd (ground arith))
          (λ _.
            filter-absent (is_usable now) id ps
              (subst (λ k. member k (proxy_ids ps) ≡ false) same u.0)))
      (λ e.
        let rest = replaced-absent now t id status failures ps l u.1 in
        if_cases (λ qs. member id (proxy_ids qs) ≡ false) (is_usable now p) (λ _. ground arith)
          (λ _. rest))

-- The available proxies of a state with a snapshot.
pub available-snapshot :
    (now : ℕ) (s : PoolState) (ps : List ProxyRecord)
    → s.snapshot ≡ some ps
    → (available now s).0 ≡ filter (is_usable now) ps
unfolding available
available-snapshot now s ps e =
    ap (λ o. filter (is_usable now) (snapshot_or_nil (loaded_if_none now s o).snapshot)) e
    ∙ ap (λ o. filter (is_usable now) (snapshot_or_nil o)) e

failed-snapshot :
    (now id previous : ℕ) (s : PoolState) (ps : List ProxyRecord)
    → s.snapshot ≡ some ps
    → failure_count_of id s.table ≡ some previous
    → (mark_proxy_failure now id s).snapshot
      ≡ some (
          replace_first id
            (with_health "cooldown" (suc previous) (some (now + cooldown_delay (suc previous))))
            ps)
unfolding mark_proxy_failure replace_health
failed-snapshot now id previous s ps e f =
    ap (λ o. (fail_row now id s o).snapshot) f
    ∙ ap
        (replace_in id
          (with_health "cooldown" (suc previous) (some (now + cooldown_delay (suc previous)))))
        e

-- A proxy of the table whose failure is marked is not available until its cooldown is over, which is as long
-- as its number of failures says; the snapshot, whose ids are distinct, is loaded.
pub mark_proxy_failure-hides :
    (now later id previous : ℕ) (s : PoolState) (ps : List ProxyRecord)
    → s.snapshot ≡ some ps
    → NoRepeat (proxy_ids ps)
    → failure_count_of id s.table ≡ some previous
    → later < now + cooldown_delay (suc previous)
    → member id (proxy_ids (available later (mark_proxy_failure now id s)).0) ≡ false
mark_proxy_failure-hides now later id previous s ps e u f l =
    let until = now + cooldown_delay (suc previous) in
    ap (λ qs. member id (proxy_ids qs))
      (available-snapshot later (mark_proxy_failure now id s) _
        (failed-snapshot now id previous s ps e f))
    ∙ replaced-absent later until id "cooldown" (suc previous) ps l u

doubles : (n : ℕ) → 1 ≤ n → n ≤ 4 → cooldown_delay (suc n) ≡ 2 * cooldown_delay n
unfolding cooldown_delay
doubles zero lo hi = absurd (omega arith)
doubles (suc zero) lo hi = refl
doubles (suc (suc zero)) lo hi = refl
doubles (suc (suc (suc zero))) lo hi = refl
doubles (suc (suc (suc (suc zero)))) lo hi = refl
doubles (suc (suc (suc (suc (suc n))))) lo hi = absurd (omega arith)

abbrev delay_at : ℕ → ℕ
delay_at shift =
    let delay = minute * 2 ^ shift in if ltb (30 * minute) delay then 30 * minute else delay

capped : (n : ℕ) → 6 ≤ n → cooldown_delay n ≡ 30 * minute
unfolding cooldown_delay
capped n h =
    let shift : (if leb (n - 1) 5 then n - 1 else 5) ≡ 5 = (ground arith) in ap delay_at shift

-- The cooldown is a minute after the first failure, doubles with each further one, and stays at thirty
-- minutes from the sixth on.
pub cooldown_delay_lem :
    (n : ℕ)
    → (cooldown_delay 1 ≡ minute)
      × (1 ≤ n → n ≤ 4 → cooldown_delay (suc n) ≡ 2 * cooldown_delay n)
      × (6 ≤ n → cooldown_delay n ≡ 30 * minute)
unfolding cooldown_delay
cooldown_delay_lem n = (refl, doubles n, capped n)
