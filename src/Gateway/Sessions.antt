-- ===== src/Gateway/Sessions.antt =====
-- The loop of `gatewayChat` together with `pickSessionProxy`, cmd/server/main.go.
use opencode_rush_free.Base.{List, NoRepeat, false, ℕ, ◌≡◌}
use opencode_rush_free.Proxy.{ProxyRecord}
use opencode_rush_free.Sessions.{chosen, PickInput, RouteStore, pick_session_proxy}
use opencode_rush_free.Sessions.Sticky.{pick_session_proxy-fresh}
use opencode_rush_free.Gateway.Types.{LoopConfig, AttemptEnv, picked}
use opencode_rush_free.Gateway.Loop.{run_attempts}
use opencode_rush_free.Gateway.Steps.{forwarded_ids}
use opencode_rush_free.Gateway.Promises.{PicksFresh}
use opencode_rush_free.Gateway.Forwards.{distinct_forwards}

-- Every proxy that an attempt takes is what `pickSessionProxy` returns for the proxies used so far, with
-- the routes as they stand at that attempt.
abbrev pub PicksBySession : (ℕ → AttemptEnv) → (ℕ → PickInput) → (ℕ → RouteStore) → Type 0
PicksBySession env inp store =
    (i : ℕ) (used : List ℕ) (p : ProxyRecord)
    → (env i).pick used ≡ picked p
    → (pick_session_proxy (record (inp i) { used = used }) (store i)).0 ≡ chosen p

session-PicksFresh :
    (env : ℕ → AttemptEnv) (inp : ℕ → PickInput) (store : ℕ → RouteStore)
    → PicksBySession env inp store
    → PicksFresh env
session-PicksFresh env inp store h i used p e =
    (pick_session_proxy-fresh (record (inp i) { used = used }) (store i) p (h i used p e)).1

-- Without Resin, where the proxies come from `pickSessionProxy`, a request is forwarded to every proxy at most
-- once, whatever other requests do to the routes in between.
pub session_forwards :
    (cfg : LoopConfig) (env : ℕ → AttemptEnv) (inp : ℕ → PickInput) (store : ℕ → RouteStore)
    → cfg.resin_mode ≡ false
    → PicksBySession env inp store
    → NoRepeat (forwarded_ids (run_attempts cfg env).effects)
session_forwards cfg env inp store b h =
    distinct_forwards cfg env b (session-PicksFresh env inp store h)
