-- ===== src/Sessions/Rotation.antt =====
-- How the Resin account of a session rotates, cmd/server/resin.go.
use opencode_rush_free.Base.{
  Bytes, List, [], ap, arith, bytes_eq, bytes_eqb, false, if_cases, insert, leb, lookup,
  lookup-insert_self, ltb, nat_eq, none, refl, some, string_eq, subst, suc, sym, zero, ℕ, ◌&&◌, ◌*◌,
  ◌+◌, ◌∙◌, ◌≡◌, ◌≤◌,
}
use opencode_rush_free.Sessions.{
  ResinRoute, next_route, ResinAccount, no_account, account_of, account_failed, next_resin_account,
}

-- The row after `n` requests behind the first one.
abbrev route_after : ℕ → ℕ → ResinRoute
route_after limit zero = next_route limit none
route_after limit (suc n) = next_route limit (some (route_after limit n))

suc_mul : (g l : ℕ) → suc g * l ≡ g * l + l
suc_mul g l = omega arith

next_route-counts :
    (limit n : ℕ) (r : ResinRoute)
    → 1 ≤ limit
    → r.generation * limit + r.request_count ≡ suc n
    → 1 ≤ r.request_count
    → r.request_count ≤ limit
    → let q = next_route limit (some r) in
      (q.generation * limit + q.request_count ≡ suc (suc n))
      × (1 ≤ q.request_count)
      × (q.request_count ≤ limit)
unfolding next_route
next_route-counts limit n r l e lo hi =
    if_cases
      (λ (q : ResinRoute).
        (q.generation * limit + q.request_count ≡ suc (suc n))
        × (1 ≤ q.request_count)
        × (q.request_count ≤ limit))
      (ltb 0 limit && leb limit r.request_count)
      (λ t. (let h = suc_mul r.generation limit in ground arith, omega arith, omega arith))
      (λ f. (omega arith, omega arith, ground arith))

abbrev Counts : ℕ → ℕ → ResinRoute → Type 0
Counts limit n r =
    (r.generation * limit + r.request_count ≡ suc n)
    × (1 ≤ r.request_count)
    × (r.request_count ≤ limit)

route_after-Counts : (limit n : ℕ) → 1 ≤ limit → Counts limit n (route_after limit n)
unfolding next_route
route_after-Counts limit zero l = (omega arith, omega arith, omega arith)
route_after-Counts limit (suc n) l =
    let (e, lo, hi) = route_after-Counts limit n l in
    next_route-counts limit n (route_after limit n) l e lo hi

-- The table after `n` requests of a session.
abbrev pub serve : Bytes → ℕ → ℕ → List (Bytes × ResinRoute) → List (Bytes × ResinRoute)
serve key limit zero m = m
serve key limit (suc n) m = (next_resin_account key limit none none (serve key limit n m)).1

next-served :
    (key : Bytes) (limit : ℕ) (m : List (Bytes × ResinRoute))
    → bytes_eqb key [] ≡ false
    → next_resin_account key limit none none m ≡ (
      account_of key (next_route limit (lookup key m)).generation,
      insert key (next_route limit (lookup key m)) m,
    )
unfolding next_resin_account
next-served key limit m k = rw (k, next_resin_account) refl

serve-row :
    (key : Bytes) (limit n : ℕ) (m : List (Bytes × ResinRoute))
    → bytes_eqb key [] ≡ false
    → lookup key m ≡ none
    → next_route limit (lookup key (serve key limit n m)) ≡ route_after limit n
serve-row key limit zero m k e = ap (next_route limit) e
serve-row key limit (suc n) m k e =
    ap (λ (r : ResinAccount × List (Bytes × ResinRoute)). next_route limit (lookup key r.1))
      (next-served key limit (serve key limit n m) k)
    ∙ ap (next_route limit) (lookup-insert_self key _ (serve key limit n m))
    ∙ ap (λ r. next_route limit (some r)) (serve-row key limit n m k e)

-- The account of the request number `n`, from 0, of a new session.
abbrev pub Rotates : ℕ → ℕ → Bytes → ResinAccount → Type 0
Rotates limit n key (account_of k g) = (k ≡ key) × (g * limit ≤ n) × (suc n ≤ g * limit + limit)
Rotates limit n key no_account = ⊥
Rotates limit n key (account_failed e) = ⊥

-- With a limit of one request or more, the requests of a session that has a key and no row yet take the
-- accounts of the generations 0, 1, 2, ... in turn, each for exactly as many requests as the limit says; the
-- database does not fail.
pub next_resin_account-Rotates :
    (key : Bytes) (limit n : ℕ) (m : List (Bytes × ResinRoute))
    → bytes_eqb key [] ≡ false
    → lookup key m ≡ none
    → 1 ≤ limit
    → Rotates limit n key (next_resin_account key limit none none (serve key limit n m)).0
next_resin_account-Rotates key limit n m k e l =
    let (c, lo, hi) = route_after-Counts limit n l in
    let g = (next_route limit (lookup key (serve key limit n m))).generation in
    let same : g ≡ (route_after limit n).generation =
      ap (λ r. r.generation) (serve-row key limit n m k e) in
    subst (λ (r : ResinAccount × List (Bytes × ResinRoute)). Rotates limit n key r.0)
      (sym (next-served key limit (serve key limit n m) k))
      (subst (λ x. (key ≡ key) × (x * limit ≤ n) × (suc n ≤ x * limit + limit)) (sym same)
        (refl, omega arith, omega arith))
