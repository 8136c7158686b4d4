-- ===== src/Login/Lock.antt =====
-- When the lock on logins of cmd/server/main.go holds and for whom.
use opencode_rush_free.Base.{
  All, Bytes, List, Option, UniqueKeys, UniqueKeys-insert, [], ap, arith, bytes_eq, false, filter,
  if_cases, if◌then◌else◌, keep_if, leb, length, lookup, lookup-filter, lookup-insert_self, ltb,
  nat_eq, none, not, refl, some, string_eq, subst, suc, sym, true, ℕ, ◌+◌, ◌-◌, ◌<◌, ◌∙◌, ◌∷◌, ◌≡◌,
  ◌≤◌,
}
use opencode_rush_free.Login.{
  LoginAttempt, login_window, block_for, max_failures, window_over, is_after, is_stale, retry_of,
  login_retry_after, attempt_or_zero, window_at, one_more, time_until, record_login_failure,
}

abbrev pub fail_all : Bytes → List ℕ → List (Bytes × LoginAttempt) → List (Bytes × LoginAttempt)
fail_all ip [] m = m
fail_all ip (t ∷ ts) m = fail_all ip ts (record_login_failure t ip m)

-- The attempt of an address whose window began at `t0`, with `k` failures of which the last came at `t`.
record Counted (t0 k t : ℕ) (a : LoginAttempt) : Type 0 where
  starts : a.window_start ≡ some t0
  counts : a.failures ≡ k
  blocks : max_failures ≤ k → a.blocked_until ≡ some (t + block_for)

abbrev pub last_time : ℕ → List ℕ → ℕ
last_time t [] = t
last_time t (u ∷ us) = last_time u us

window_at-open :
    (u t0 k t : ℕ) (a : LoginAttempt) → u ≤ t0 + login_window → Counted t0 k t a → window_at u a ≡ a
window_at-open u t0 k t a h c =
    let over : window_over u a.window_start ≡ false =
      ap (window_over u) c.starts ∙ (ground arith) in
    ap (λ b. if b then record { window_start = some u; failures = 0; blocked_until = none } else a)
      over

one_more-Counted :
    (t0 k t u : ℕ) (a : LoginAttempt) → Counted t0 k t a → Counted t0 (suc k) u (one_more u a)
one_more-Counted t0 k t u a c = record {
  starts = c.starts;
  counts = ap suc c.counts;
  blocks = λ h.
      let e = c.counts in
      if_cases (λ o. o ≡ some (u + block_for)) (leb max_failures (suc a.failures)) (λ _. refl)
        (λ x. absurd (ground arith));
}

-- One failure of an address that has an attempt with an open window.
failure-Counted :
    (ip : Bytes) (t0 k t u : ℕ) (m : List (Bytes × LoginAttempt)) (a : LoginAttempt)
    → u ≤ t0 + login_window
    → lookup ip m ≡ some a
    → Counted t0 k t a
    → (b : LoginAttempt) × (lookup ip (record_login_failure u ip m) ≡ some b)
      × Counted t0 (suc k) u b
unfolding record_login_failure
failure-Counted ip t0 k t u m a h e c =
    let f = window_at-open u t0 k t a h c in
    (
      one_more u a,
      lookup-insert_self ip _ m
          ∙ ap (λ o. some (one_more u (window_at u (attempt_or_zero o)))) e
          ∙ ap (λ x. some (one_more u x)) f,
      one_more-Counted t0 k t u a c,
    )

fail_all-Counted :
    (ip : Bytes) (t0 k t : ℕ) (ts : List ℕ) (m : List (Bytes × LoginAttempt)) (a : LoginAttempt)
    → All (λ u. u ≤ t0 + login_window) ts
    → lookup ip m ≡ some a
    → Counted t0 k t a
    → (b : LoginAttempt) × (lookup ip (fail_all ip ts m) ≡ some b)
      × Counted t0 (k + length ts) (last_time t ts) b
fail_all-Counted ip t0 k t [] m a h e c = (a, e, subst (λ n. Counted t0 n t a) (omega arith) c)
fail_all-Counted ip t0 k t (u ∷ us) m a h e c =
    let (b, e', c') = failure-Counted ip t0 k t u m a h.0 e c in
    let (b2, e2, c2) =
      fail_all-Counted ip t0 (suc k) u us (record_login_failure u ip m) b h.1 e' c' in
    (b2, e2, subst (λ n. Counted t0 n (last_time u us) b2) (omega arith) c2)

first-Counted :
    (ip : Bytes) (t0 : ℕ) (m : List (Bytes × LoginAttempt))
    → lookup ip m ≡ none
    → (b : LoginAttempt) × (lookup ip (record_login_failure t0 ip m) ≡ some b) × Counted t0 1 t0 b
unfolding record_login_failure
first-Counted ip t0 m e = (
  one_more t0 (window_at t0 (attempt_or_zero none)),
  lookup-insert_self ip _ m ∙ ap (λ o. some (one_more t0 (window_at t0 (attempt_or_zero o)))) e,
  record { starts = refl; counts = refl; blocks = λ h. absurd (omega arith) },
)

fail_all-UniqueKeys :
    (ip : Bytes) (ts : List ℕ) (m : List (Bytes × LoginAttempt))
    → UniqueKeys m
    → UniqueKeys (fail_all ip ts m)
unfolding record_login_failure
fail_all-UniqueKeys ip [] m u = u
fail_all-UniqueKeys ip (t ∷ ts) m u = fail_all-UniqueKeys ip ts _ (UniqueKeys-insert ip _ m u)

retry_of-blocked :
    (now t : ℕ) (ip : Bytes) (m : List (Bytes × LoginAttempt)) (o : Option LoginAttempt)
    (a : LoginAttempt)
    → o ≡ some a
    → a.blocked_until ≡ some t
    → now < t
    → (retry_of now ip m o).0 ≡ t - now
unfolding retry_of
retry_of-blocked now t ip m o a e b l =
    subst (λ x. (retry_of now ip m x).0 ≡ t - now) (sym e)
      (if_cases (λ (r : ℕ × List (Bytes × LoginAttempt)). r.0 ≡ t - now)
        (is_after a.blocked_until now) (λ _. ap (time_until now) b)
        (λ f. absurd (
          let g : is_after (some t) now ≡ false = ap (λ x. is_after x now) (sym b) ∙ f in
          ground arith)))

kept-lookup :
    (now t : ℕ) (ip : Bytes) (m : List (Bytes × LoginAttempt)) (a : LoginAttempt)
    → UniqueKeys m
    → lookup ip m ≡ some a
    → a.blocked_until ≡ some t
    → now < t
    → lookup ip (if ltb 1024 (length m) then filter (λ e. not (is_stale now e)) m else m) ≡ some a
kept-lookup now t ip m a u e b l =
    if_cases (λ x. lookup ip x ≡ some a) (ltb 1024 (length m))
      (λ _.
        lookup-filter (λ e. not (is_stale now e)) ip m u
        ∙ ap (keep_if (λ e. not (is_stale now e)) ip) e
        ∙ ap (λ c. if c then some a else none) (kept now t ip a b l))
      (λ _. e)
  where
    kept :
        (now t : ℕ) (ip : Bytes) (a : LoginAttempt)
        → a.blocked_until ≡ some t
        → now < t
        → not (is_stale now (ip, a)) ≡ true
    kept now t ip a b l =
        let g : is_after a.blocked_until now ≡ true = ap (λ x. is_after x now) b ∙ (ground arith) in
        ground arith

-- Five failures or more of an address that the table does not have yet, within the window of fifteen minutes
-- that the first one starts, lock it until fifteen minutes behind the last one, however many other addresses are
-- kept, and also where the table is pruned.
pub failures_lock :
    (ip : Bytes) (t0 : ℕ) (ts : List ℕ) (now : ℕ) (m : List (Bytes × LoginAttempt))
    → UniqueKeys m
    → lookup ip m ≡ none
    → All (λ u. u ≤ t0 + login_window) ts
    → 4 ≤ length ts
    → now < last_time t0 ts + block_for
    → (login_retry_after now ip (fail_all ip (t0 ∷ ts) m)).0 ≡ last_time t0 ts + block_for - now
unfolding login_retry_after
failures_lock ip t0 ts now m u e h four l =
    let m1 = record_login_failure t0 ip m in
    let (a, e1, c1) = first-Counted ip t0 m e in
    let (b, e2, c2) = fail_all-Counted ip t0 1 t0 ts m1 a h e1 c1 in
    let until = last_time t0 ts + block_for in
    let blocked : b.blocked_until ≡ some until = c2.blocks (omega arith) in
    retry_of-blocked now until ip _ _ b
      (kept-lookup now until ip (fail_all ip ts m1) b (fail_all-UniqueKeys ip (t0 ∷ ts) m u) e2
        blocked l)
      blocked l
