-- ===== src/Sessions.antt =====
-- Which proxy, or which Resin account, a session uses: cmd/server/main.go and cmd/server/resin.go. The
-- two tables of the database are maps from the session's key to its row; a statement that fails is an
-- error that the caller gives.
use opencode_rush_free.Base.{
  Bytes, List, Option, [], bytes_eq, bytes_eqb, delete, filter, get_elem?, if◌then◌else◌, insert,
  leb, length, lookup, ltb, member, nat_eq, none, not, some, string_eq, suc, ℕ, ◌%◌, ◌&&◌, ◌+◌, ◌-◌,
  ◌/◌, ◌==◌, ◌||◌, ◌∷◌,
}
use opencode_rush_free.Proxy.{ProxyRecord, GoError}
use opencode_rush_free.Limiter.{word}
pub mod Sticky
pub mod Rotation
mod Tests

-- A row of session_proxy_routes.
pub record SessionRoute : Type 0 where
  pub proxy_id : ℕ
  pub request_count : ℕ

pub data SessionPick : Type 0 where
  chosen : ProxyRecord → SessionPick
  none_left : SessionPick
  query_failed : GoError → SessionPick
  -- The index into the eligible proxies is negative.
  panics : SessionPick

pub record PickInput : Type 0 where
  pub key : Bytes
  pub limit : ℕ
  pub proxies : List ProxyRecord
  pub used : List ℕ
  pub read_error : Option GoError
  pub write_error : Option GoError

pub record RouteStore : Type 0 where
  pub routes : List (Bytes × SessionRoute)
  pub rr : ℕ

-- The row's columns, zero for a missing row.
abbrev pub row_or_zero : Option SessionRoute → SessionRoute
row_or_zero none = record { proxy_id = 0; request_count = 0 }
row_or_zero (some r) = r

-- The first proxy with the row's id, if the session may stay with it.
unfoldable pub sticky_candidate : ℕ → List ℕ → SessionRoute → List ProxyRecord → Option ProxyRecord
sticky_candidate limit used row [] = none
sticky_candidate limit used row (p ∷ ps) =
    let rest = sticky_candidate limit used row ps in
    if p.id == row.proxy_id
    then if not (member p.id used) && (limit == 0 || ltb row.request_count limit)
      then some p
      else none
    else rest

-- `UPDATE ... SET request_count=request_count+1 WHERE session_key=? AND proxy_id=?`.
abbrev pub count_request :
    Bytes → ℕ → Option SessionRoute → List (Bytes × SessionRoute) → List (Bytes × SessionRoute)
count_request key id none routes = routes
count_request key id (some r) routes =
    if r.proxy_id == id
    then insert key (record { proxy_id = id; request_count = suc r.request_count }) routes
    else routes

abbrev pub eligible : List ℕ → List ProxyRecord → List ProxyRecord
eligible used proxies = filter (λ p. not (member p.id used)) proxies

-- `(int(a.rr.Add(1))-1) % len(eligible)` on 64 bits; `none` is a negative index.
unfoldable pub rotation_index : ℕ → ℕ → Option ℕ
rotation_index added n =
    let v = (added + word - 1) % word in
    if ltb v (word / 2) then some (v % n) else if (word - v) % n == 0 then some 0 else none

unfoldable pub store_route : PickInput → ProxyRecord → RouteStore → SessionPick × RouteStore
store_route inp p s = if bytes_eqb inp.key [] then (chosen p, s) else elim inp.write_error [
  | some e ↦ (query_failed e, s)
  | none ↦ (
    chosen p,
    record s { routes = insert inp.key (record { proxy_id = p.id; request_count = 1 }) s.routes },
  )
]

abbrev pub select_at : PickInput → RouteStore → Option ProxyRecord → SessionPick × RouteStore
select_at inp s none = (panics, s)
select_at inp s (some p) = store_route inp p s

abbrev pub elem_at : List ProxyRecord → Option ℕ → Option ProxyRecord
elem_at ps none = none
elem_at ps (some i) = get_elem? ps i

unfoldable pub rotate_proxy : PickInput → List ProxyRecord → RouteStore → SessionPick × RouteStore
rotate_proxy inp [] s = (none_left, s)
rotate_proxy inp (p ∷ ps) s =
    let added = (s.rr + 1) % word in
    select_at inp (record s { rr = added })
      (elem_at (p ∷ ps) (rotation_index added (length (p ∷ ps))))

-- A session with a row that it may stay with, or the rotation.
unfoldable pub stay_or_rotate :
    PickInput → RouteStore → Option ProxyRecord → SessionPick × RouteStore
stay_or_rotate inp s none = rotate_proxy inp (eligible inp.used inp.proxies) s
stay_or_rotate inp s (some p) = elim inp.write_error [
  | some e ↦ (query_failed e, s)
  | none ↦ (
    chosen p,
    record s { routes = count_request inp.key p.id (lookup inp.key s.routes) s.routes },
  )
]

unfoldable pub pick_session_proxy : PickInput → RouteStore → SessionPick × RouteStore
pick_session_proxy inp s =
    if bytes_eqb inp.key [] then stay_or_rotate inp s none else elim inp.read_error [
      | some e ↦ (query_failed e, s)
      | none ↦
          stay_or_rotate inp s (
            sticky_candidate inp.limit inp.used (row_or_zero (lookup inp.key s.routes)) inp.proxies)
    ]

-- `DELETE FROM session_proxy_routes WHERE session_key=? AND proxy_id=?`.
abbrev pub delete_route :
    Bytes → ℕ → Option SessionRoute → List (Bytes × SessionRoute) → List (Bytes × SessionRoute)
delete_route key id none routes = routes
delete_route key id (some r) routes = if r.proxy_id == id then delete key routes else routes

unfoldable pub clear_session_proxy : Bytes → ℕ → Option GoError → RouteStore → RouteStore
clear_session_proxy key id (some e) s = s
clear_session_proxy key id none s =
    if bytes_eqb key []
    then s
    else record s { routes = delete_route key id (lookup key s.routes) s.routes }

-- A row of resin_session_routes.
pub record ResinRoute : Type 0 where
  pub generation : ℕ
  pub request_count : ℕ

unfoldable pub next_route : ℕ → Option ResinRoute → ResinRoute
next_route limit none = record { generation = 0; request_count = 1 }
next_route limit (some r) =
    if ltb 0 limit && leb limit r.request_count
    then record { generation = suc r.generation; request_count = 1 }
    else record { generation = r.generation; request_count = suc r.request_count }

-- The generation, of which `hashToken` makes the account, or the error; no key has the empty account.
pub data ResinAccount : Type 0 where
  no_account : ResinAccount
  account_of : Bytes → ℕ → ResinAccount
  account_failed : GoError → ResinAccount

unfoldable pub next_resin_account :
    Bytes
    → ℕ
    → Option GoError
    → Option GoError
    → List (Bytes × ResinRoute)
    → ResinAccount × List (Bytes × ResinRoute)
next_resin_account key limit read_error write_error m =
    let r = next_route limit (lookup key m) in
    if bytes_eqb key [] then (no_account, m) else elim read_error [
      | some e ↦ (account_failed e, m)
      | none ↦ elim write_error [
        | some e ↦ (account_failed e, m)
        | none ↦ (account_of key r.generation, insert key r m)
      ]
    ]

abbrev pub advance_row :
    Bytes → Option ResinRoute → List (Bytes × ResinRoute) → List (Bytes × ResinRoute)
advance_row key none m = m
advance_row key (some r) m =
    insert key (record { generation = suc r.generation; request_count = 0 }) m

unfoldable pub advance_resin_account :
    Bytes → Option GoError → List (Bytes × ResinRoute) → List (Bytes × ResinRoute)
advance_resin_account key (some e) m = m
advance_resin_account key none m = if bytes_eqb key [] then m else advance_row key (lookup key m) m
