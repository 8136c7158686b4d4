-- ===== src/Pool/Tests.antt =====
-- A pool of two proxies.
use opencode_rush_free.Base.{
  List, Option, [], arith, codes, false, member, none, refl, some, true, ℕ, ◌∷◌, ◌≡◌, ◌≤◌,
}
use opencode_rush_free.Proxy.{ProxyRecord}
use opencode_rush_free.Pool.{
  PoolState, available, mark_proxy_failure, failure_count_of, cooldown_delay,
}
use opencode_rush_free.Pool.Cooldown.{proxy_ids, mark_proxy_failure-hides}
use opencode_rush_free.Pool.Snapshot.{success, apply_marks, cooling_lost}
use opencode_rush_free.Pool.Clients.{dynamic_count, client_for, client_for-bounded}

abbrev proxy : ℕ → Option ℕ → ProxyRecord
proxy n cooldown = record {
  id = n;
  uri = [];
  username = [];
  password = [];
  enabled = true;
  health_status = "healthy";
  failure_count = 0;
  cooldown_until = cooldown;
  expires_at = none;
}

abbrev two : List ProxyRecord
two = proxy 1 none ∷ proxy 2 none ∷ []

abbrev pool : PoolState
pool = record { table = two; snapshot = some two }

mark_proxy_failure-hides_example :
    member 2 (proxy_ids (available 7 (mark_proxy_failure 5 2 pool)).0) ≡ false
unfolding failure_count_of cooldown_delay
mark_proxy_failure-hides_example =
    mark_proxy_failure-hides 5 7 2 0 pool two refl (refl, (refl, tt)) refl (omega arith)

abbrev cold : PoolState
cold = record { table = proxy 1 (some 100) ∷ proxy 2 none ∷ []; snapshot = none }

cooling_lost_example :
    member 1 (proxy_ids (available 5000 (apply_marks (success 1 ∷ []) (available 0 cold).1)).0)
    ≡ false
cooling_lost_example =
    cooling_lost 0 5000 1 (success 1 ∷ []) cold refl
      ((λ _. refl), ((λ h. absurd (ground arith)), tt))

client_for-bounded_example : dynamic_count (client_for 0 (codes "k") true false (λ m. m) []) ≤ 256
client_for-bounded_example =
    client_for-bounded 0 (codes "k") true false (λ m. m) [] (omega arith) (omega arith)
