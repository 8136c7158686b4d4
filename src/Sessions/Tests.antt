-- ===== src/Sessions/Tests.antt =====
-- A session with two proxies.
use opencode_rush_free.Base.{
  [], ap, arith, bytes_eq, bytes_eqb, codes, false, insert, lookup, member, nat_eq, none, refl,
  string_eq, true, ℕ, ◌∷◌, ◌≡◌,
}
use opencode_rush_free.Proxy.{ProxyRecord}
use opencode_rush_free.Sessions.{
  SessionPick, chosen, PickInput, RouteStore, pick_session_proxy, next_resin_account,
}
use opencode_rush_free.Sessions.Sticky.{pick_session_proxy-fresh, pick_session_proxy-stays}
use opencode_rush_free.Sessions.Rotation.{serve, Rotates, next_resin_account-Rotates}

abbrev proxy : ℕ → ProxyRecord
proxy n = record {
  id = n;
  uri = [];
  username = [];
  password = [];
  enabled = true;
  health_status = "healthy";
  failure_count = 0;
  cooldown_until = none;
  expires_at = none;
}

abbrev input : PickInput
input = record {
  key = codes "s";
  limit = 5;
  proxies = proxy 1 ∷ proxy 2 ∷ [];
  used = [];
  read_error = none;
  write_error = none;
}

abbrev store : RouteStore
store = record { routes = (codes "s", record { proxy_id = 2; request_count = 4 }) ∷ []; rr = 0 }

pick_session_proxy-stays_example : pick_session_proxy input store ≡ (
  chosen (proxy 2),
  record store {
    routes = insert (codes "s") (record { proxy_id = 2; request_count = 5 }) store.routes;
  },
)
unfolding lookup bytes_eqb
pick_session_proxy-stays_example =
    pick_session_proxy-stays input store (proxy 2) 1 (record { proxy_id = 2; request_count = 4 })
      refl refl refl refl refl (refl, (refl, tt)) refl refl refl

stays : (pick_session_proxy input store).0 ≡ chosen (proxy 2)
unfolding lookup bytes_eqb
stays =
    ap (λ (r : SessionPick × RouteStore). r.0)
      (pick_session_proxy-stays input store (proxy 2) 1 (record { proxy_id = 2; request_count = 4 })
        refl refl refl refl refl (refl, (refl, tt)) refl refl refl)

pick_session_proxy-fresh_example : (member 2 (1 ∷ 2 ∷ []) ≡ true) × (member 2 [] ≡ false)
pick_session_proxy-fresh_example = pick_session_proxy-fresh input store (proxy 2) stays

next_resin_account-Rotates_example :
    Rotates 5 7
      (codes "s")
      (next_resin_account (codes "s") 5 none none (serve (codes "s") 5 7 [])).0
unfolding lookup bytes_eqb
next_resin_account-Rotates_example =
    next_resin_account-Rotates (codes "s") 5 7 [] refl refl (omega arith)
