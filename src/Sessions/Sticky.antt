-- ===== src/Sessions/Sticky.antt =====
-- Which proxies a session is given, cmd/server/main.go.
use opencode_rush_free.Base.{
  All, All-imp, List, NoRepeat, Option, Option-cases, [], ap, arith, bytes_eq, bytes_eqb, false,
  get_elem?, if_cases, inl, inr, insert, lookup, ltb, map, member, nat_eq, none, not, refl, some,
  string_eq, subst, suc, sym, true, zero, ℕ, ◌&&◌, ◌==◌, ◌||◌, ◌∙◌, ◌∷◌, ◌≡◌,
}
use opencode_rush_free.Proxy.{ProxyRecord}
use opencode_rush_free.Sessions.{
  SessionRoute, SessionPick, chosen, PickInput, RouteStore, row_or_zero, sticky_candidate,
  count_request, eligible, store_route, select_at, elem_at, rotate_proxy, stay_or_rotate,
  pick_session_proxy,
}

-- What holds of the proxy that a pick returns.
abbrev OnChosen : (ProxyRecord → Type 0) → SessionPick → Type 0
OnChosen P (chosen p) = P p
OnChosen P _ = Unit

OnChosen-apply :
    (P : ProxyRecord → Type 0) (o : SessionPick) (p : ProxyRecord)
    → o ≡ chosen p
    → OnChosen P o
    → P p
OnChosen-apply P o p e h = subst (OnChosen P) e h

abbrev OnSome : (ProxyRecord → Type 0) → Option ProxyRecord → Type 0
OnSome P none = Unit
OnSome P (some p) = P p

sticky_candidate-All :
    (P : ProxyRecord → Type 0) (limit : ℕ) (used : List ℕ) (row : SessionRoute)
    (ps : List ProxyRecord)
    → All P ps
    → OnSome (λ p. P p × (member p.id used ≡ false)) (sticky_candidate limit used row ps)
unfolding sticky_candidate
sticky_candidate-All P limit used row [] h = tt
sticky_candidate-All P limit used row (p ∷ ps) h =
    let Q = OnSome (λ p. P p × (member p.id used ≡ false)) in
    if_cases Q (p.id == row.proxy_id)
      (λ _.
        if_cases Q (not (member p.id used) && (limit == 0 || ltb row.request_count limit))
          (λ e. (h.0, ground arith)) (λ _. tt))
      (λ _. sticky_candidate-All P limit used row ps h.1)

eligible-All :
    (P : ProxyRecord → Type 0) (used : List ℕ) (ps : List ProxyRecord)
    → All P ps
    → All (λ p. P p × (member p.id used ≡ false)) (eligible used ps)
eligible-All P used [] h = tt
eligible-All P used (p ∷ ps) h =
    let Q = λ (p : ProxyRecord). P p × (member p.id used ≡ false) in
    let rest = eligible-All P used ps h.1 in
    if_cases (All Q) (not (member p.id used)) (λ e. ((h.0, ground arith), rest)) (λ _. rest)

elem_at-All :
    (P : ProxyRecord → Type 0) (ps : List ProxyRecord) (o : Option ℕ)
    → All P ps
    → OnSome P (elem_at ps o)
elem_at-All P ps none h = tt
elem_at-All P [] (some i) h = tt
elem_at-All P (p ∷ ps) (some zero) h = h.0
elem_at-All P (p ∷ ps) (some (suc i)) h = elem_at-All P ps (some i) h.1

store_route-OnChosen :
    (P : ProxyRecord → Type 0) (inp : PickInput) (p : ProxyRecord) (s : RouteStore)
    → P p
    → OnChosen P (store_route inp p s).0
unfolding store_route
store_route-OnChosen P inp p s h =
    if_cases (λ (r : SessionPick × RouteStore). OnChosen P r.0) (bytes_eqb inp.key []) (λ _. h)
      (λ _. elim (Option-cases inp.write_error) [ inl e ↦ rw e h | inr (x, e) ↦ rw e tt ])

select_at-OnChosen :
    (P : ProxyRecord → Type 0) (inp : PickInput) (s : RouteStore) (o : Option ProxyRecord)
    → OnSome P o
    → OnChosen P (select_at inp s o).0
select_at-OnChosen P inp s none h = tt
select_at-OnChosen P inp s (some p) h = store_route-OnChosen P inp p s h

rotate_proxy-OnChosen :
    (P : ProxyRecord → Type 0) (inp : PickInput) (ps : List ProxyRecord) (s : RouteStore)
    → All P ps
    → OnChosen P (rotate_proxy inp ps s).0
unfolding rotate_proxy
rotate_proxy-OnChosen P inp [] s h = tt
rotate_proxy-OnChosen P inp (p ∷ ps) s h = select_at-OnChosen P inp _ _ (elem_at-All P (p ∷ ps) _ h)

stay_or_rotate-OnChosen :
    (P : ProxyRecord → Type 0) (inp : PickInput) (s : RouteStore) (o : Option ProxyRecord)
    → OnSome P o
    → All P (eligible inp.used inp.proxies)
    → OnChosen P (stay_or_rotate inp s o).0
unfolding stay_or_rotate
stay_or_rotate-OnChosen P inp s none h a = rotate_proxy-OnChosen P inp _ s a
stay_or_rotate-OnChosen P inp s (some p) h a = elim (Option-cases inp.write_error) [
  | inl e ↦ rw e h
  | inr (x, e) ↦ rw e tt
]

abbrev proxy_ids : List ProxyRecord → List ℕ
proxy_ids ps = map (λ p. p.id) ps

All-present : (ps : List ProxyRecord) → All (λ p. member p.id (proxy_ids ps) ≡ true) ps
All-present [] = tt
All-present (p ∷ ps) = (
  ground arith,
  All-imp (λ q. member q.id (proxy_ids ps) ≡ true) (λ q. member q.id (proxy_ids (p ∷ ps)) ≡ true) ps
      (λ q h. ground arith) (All-present ps),
)

-- A pick returns one of the proxies that it is given, and none that the request has used before.
pub pick_session_proxy-fresh :
    (inp : PickInput) (s : RouteStore) (p : ProxyRecord)
    → (pick_session_proxy inp s).0 ≡ chosen p
    → (member p.id (proxy_ids inp.proxies) ≡ true) × (member p.id inp.used ≡ false)
unfolding pick_session_proxy
pick_session_proxy-fresh inp s p h =
    let P = λ (p : ProxyRecord).
      (member p.id (proxy_ids inp.proxies) ≡ true) × (member p.id inp.used ≡ false) in
    let a = All-present inp.proxies in
    let el =
      eligible-All (λ p. member p.id (proxy_ids inp.proxies) ≡ true) inp.used inp.proxies a in
    OnChosen-apply P (pick_session_proxy inp s).0 p h (
      if_cases (λ (r : SessionPick × RouteStore). OnChosen P r.0) (bytes_eqb inp.key [])
        (λ _. stay_or_rotate-OnChosen P inp s none tt el)
        (λ _. elim (Option-cases inp.read_error) [
          | inl e ↦ rw e (
              stay_or_rotate-OnChosen P inp s _
                (sticky_candidate-All (λ p. member p.id (proxy_ids inp.proxies) ≡ true) inp.limit
                  inp.used _ inp.proxies a)
                el)
          | inr (x, e) ↦ rw e tt
        ]))

-- The proxies have distinct ids, as the table's primary key has it.
abbrev pub DistinctIds : List ProxyRecord → Type 0
DistinctIds ps = NoRepeat (proxy_ids ps)

get_elem-member :
    (ps : List ProxyRecord) (i : ℕ) (p : ProxyRecord)
    → get_elem? ps i ≡ some p
    → member p.id (proxy_ids ps) ≡ true
get_elem-member [] i p h = cc
get_elem-member (q ∷ ps) zero p h =
    let e : q ≡ p = (cc) in subst (λ r. member r.id (proxy_ids (q ∷ ps)) ≡ true) e (ground arith)
get_elem-member (q ∷ ps) (suc i) p h = let r = get_elem-member ps i p h in ground arith

sticky_candidate-found :
    (limit : ℕ) (used : List ℕ) (row : SessionRoute) (p : ProxyRecord) (ps : List ProxyRecord)
    (i : ℕ)
    → get_elem? ps i ≡ some p
    → DistinctIds ps
    → p.id ≡ row.proxy_id
    → member p.id used ≡ false
    → (limit == 0 || ltb row.request_count limit) ≡ true
    → sticky_candidate limit used row ps ≡ some p
unfolding sticky_candidate
sticky_candidate-found limit used row p [] i g d e u l = cc
sticky_candidate-found limit used row p (q ∷ ps) zero g d e u l =
    let same : q ≡ p = (cc) in
    subst (λ r. sticky_candidate limit used row (r ∷ ps) ≡ some p) (sym same)
      (if_cases (λ o. o ≡ some p) (p.id == row.proxy_id)
        (λ _.
          if_cases (λ o. o ≡ some p)
            (not (member p.id used) && (limit == 0 || ltb row.request_count limit)) (λ _. refl)
            (λ f. absurd (ground arith)))
        (λ f. absurd (ground arith)))
sticky_candidate-found limit used row p (q ∷ ps) (suc i) g d e u l =
    let m = get_elem-member ps i p g in
    if_cases (λ o. o ≡ some p) (q.id == row.proxy_id)
      (λ t. absurd (
        let same : q.id ≡ p.id = (ground arith) in
        let n : member p.id (proxy_ids ps) ≡ false =
          subst (λ k. member k (proxy_ids ps) ≡ false) same d.0 in
        ground arith))
      (λ _. sticky_candidate-found limit used row p ps i g d.1 e u l)

stay_or_rotate-stays :
    (inp : PickInput) (s : RouteStore) (o : Option ProxyRecord) (p : ProxyRecord)
    (row : SessionRoute)
    → inp.write_error ≡ none
    → o ≡ some p
    → lookup inp.key s.routes ≡ some row
    → p.id ≡ row.proxy_id
    → stay_or_rotate inp s o ≡ (
      chosen p,
      record s {
        routes =
            insert inp.key
              (record { proxy_id = p.id; request_count = suc row.request_count })
              s.routes;
      },
    )
unfolding stay_or_rotate
stay_or_rotate-stays inp s o p row w e l same =
    let kept : count_request inp.key p.id (some row) s.routes
        ≡ insert inp.key (record { proxy_id = p.id; request_count = suc row.request_count })
            s.routes =
      if_cases
        (λ r.
          r
          ≡ insert inp.key (record { proxy_id = p.id; request_count = suc row.request_count })
              s.routes)
        (row.proxy_id == p.id) (λ _. refl) (λ f. absurd (ground arith)) in
    rw (e, w, stay_or_rotate)
      (ap (λ rs. (chosen p, record s { routes = rs }))
        (ap (λ x. count_request inp.key p.id x s.routes) l ∙ kept))

-- A session with a key whose row names one of the proxies at hand, their ids being distinct, unused by the
-- request and below the limit of the session, stays with that proxy, and its row counts one request more; the
-- database does not fail.
pub pick_session_proxy-stays :
    (inp : PickInput) (s : RouteStore) (p : ProxyRecord) (i : ℕ) (row : SessionRoute)
    → bytes_eqb inp.key [] ≡ false
    → inp.read_error ≡ none
    → inp.write_error ≡ none
    → lookup inp.key s.routes ≡ some row
    → get_elem? inp.proxies i ≡ some p
    → DistinctIds inp.proxies
    → p.id ≡ row.proxy_id
    → member p.id inp.used ≡ false
    → (inp.limit == 0 || ltb row.request_count inp.limit) ≡ true
    → pick_session_proxy inp s ≡ (
      chosen p,
      record s {
        routes =
            insert inp.key
              (record { proxy_id = p.id; request_count = suc row.request_count })
              s.routes;
      },
    )
unfolding pick_session_proxy
pick_session_proxy-stays inp s p i row k re we l g d e u lim =
    let found =
      ap (λ o. sticky_candidate inp.limit inp.used (row_or_zero o) inp.proxies) l
      ∙ sticky_candidate-found inp.limit inp.used row p inp.proxies i g d e u lim in
    rw (k, re, pick_session_proxy) (stay_or_rotate-stays inp s _ p row we found l e)
