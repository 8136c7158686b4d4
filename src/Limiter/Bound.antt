-- ===== src/Limiter/Bound.antt =====
-- What the limiter promises of a key over any run, cmd/server/client_keys.go: the requests admitted
-- in the last minute are exactly what it counts. The log of admitted times is kept beside the window.
use opencode_rush_free.Base.{
  All, All-append, All-filter, Bool, Bool-cases, List, Option, [], ap, arith, false, filter,
  filter-append, get_elem?-lt, inl, inr, leb, length, length-append, length-drop, ltb, none, refl,
  some, subst, sym, true, ℕ, ◌&&◌, ◌++◌, ◌+◌, ◌-◌, ◌<◌, ◌∙◌, ◌∷◌, ◌≡◌, ◌≤◌,
}
use opencode_rush_free.Limiter.{
  ClientKey, KeyWindow, Decision, allowed, limited, panics, key_rpm_limit, key_tpm_limit, minute,
  is_old, prune, admit, allow_window, record_window, decide_window, empty_window,
  until_minute_after, reaches64,
}
use opencode_rush_free.Limiter.Window.{
  drop_while, live_requests, WindowInv, prune_lem, admit_live, admit-WindowInv,
  record_window-WindowInv, empty_window-WindowInv,
}

-- A call of `allow`, with the two readings of the clock, or of `recordTokens`.
pub data LimiterCall : Type 0 where
  asks : ℕ → ℕ → LimiterCall
  records : ℕ → ℕ → LimiterCall

pub record Logged : Type 0 where
  pub window : KeyWindow
  pub log : List ℕ

abbrev log_if_allowed : ℕ → Decision → List ℕ → List ℕ
log_if_allowed now allowed log = log ++ (now ∷ [])
log_if_allowed now _ log = log

unfoldable pub step : ClientKey → LimiterCall → Logged → Logged
step key (asks now later) l =
    let (w, d) = allow_window key now later l.window in
    record { window = w; log = log_if_allowed now d l.log }
step key (records total now) l = record l { window = record_window total now l.window }

unfoldable pub run : ClientKey → List LimiterCall → Logged → Logged
run key [] l = l
run key (c ∷ cs) l = run key cs (step key c l)

abbrev pub start : Logged
start = record { window = empty_window; log = [] }

abbrev pub time_of : LimiterCall → ℕ
time_of (asks now later) = now
time_of (records total now) = now

-- The clock does not run backwards between calls.
abbrev pub InOrder : ℕ → List LimiterCall → Type 0
InOrder t [] = Unit
InOrder t (c ∷ cs) = (t ≤ time_of c) × InOrder (time_of c) cs

abbrev pub last_time : ℕ → List LimiterCall → ℕ
last_time t [] = t
last_time t (c ∷ cs) = last_time (time_of c) cs

-- The logged times that lie in the minute before `now`.
abbrev pub recent : ℕ → List ℕ → List ℕ
recent now = filter (λ t. ltb now (t + minute))

abbrev pub refuses_rpm : Decision → Bool
refuses_rpm (limited wait key_rpm_limit) = true
refuses_rpm _ = false

abbrev Ascending : List ℕ → Type 0
Ascending [] = Unit
Ascending (x ∷ xs) = All (λ y. x ≤ y) xs × Ascending xs

record Tracks (t : ℕ) (l : Logged) : Type 0 where
  sound : WindowInv l.window
  Ascending : Ascending (live_requests l.window)
  past : All (λ x. x ≤ t) (live_requests l.window)
  same : (now : ℕ) → t ≤ now → recent now l.log ≡ recent now (live_requests l.window)

recent-above :
    (now x : ℕ) (xs : List ℕ) → All (λ y. x ≤ y) xs → now < x + minute → recent now xs ≡ xs
recent-above now x [] h lt = refl
recent-above now x (y ∷ xs) h lt = ground (arith, recent-above now x xs h.1)

recent-drop_while :
    (now : ℕ) (xs : List ℕ) → Ascending xs → drop_while (is_old now) xs ≡ recent now xs
recent-drop_while now [] h = refl
recent-drop_while now (x ∷ xs) h =
    ground (arith, recent-drop_while now xs h.1, recent-above now x xs h.0)

recent-recent : (now t : ℕ) (xs : List ℕ) → t ≤ now → recent now (recent t xs) ≡ recent now xs
recent-recent now t [] h = refl
recent-recent now t (x ∷ xs) h = ground (arith, recent-recent now t xs h)

Ascending-filter : (p : ℕ → Bool) (xs : List ℕ) → Ascending xs → Ascending (filter p xs)
Ascending-filter p [] h = tt
Ascending-filter p (x ∷ xs) h =
    ground (arith, All-filter (λ y. x ≤ y) p xs h.0, Ascending-filter p xs h.1)

Ascending-append :
    (xs : List ℕ) (t : ℕ) → Ascending xs → All (λ x. x ≤ t) xs → Ascending (xs ++ (t ∷ []))
Ascending-append [] t h b = (tt, tt)
Ascending-append (x ∷ xs) t h b =
    (All-append (λ y. x ≤ y) xs (t ∷ []) h.0 (b.0, tt), Ascending-append xs t h.1 b.1)

All-le_mono : (s t : ℕ) (xs : List ℕ) → s ≤ t → All (λ x. x ≤ s) xs → All (λ x. x ≤ t) xs
All-le_mono s t [] h a = tt
All-le_mono s t (x ∷ xs) h a = (omega arith, All-le_mono s t xs h a.1)

-- After pruning the queue is the recent part of the log.
prune-Tracks :
    (t now : ℕ) (l : Logged)
    → Tracks t l
    → t ≤ now
    → Tracks now (record { window = prune now l.window; log = l.log })
      × (live_requests (prune now l.window) ≡ recent now l.log)
prune-Tracks t now l v h =
    let live = live_requests l.window in
    let p = prune_lem now l.window v.sound in
    let e : live_requests (prune now l.window) ≡ recent now live =
      p.1 ∙ recent-drop_while now live v.Ascending in
    (
      record {
        sound = p.0;
        Ascending = subst Ascending (sym e) (Ascending-filter _ live v.Ascending);
        past =
            subst (All (λ x. x ≤ now)) (sym e)
              (All-filter _ _ live (All-le_mono t now live h v.past));
        same = λ n g.
            v.same n (omega arith) ∙ sym (recent-recent n now live g) ∙ sym (ap (recent n) e);
      },
      e ∙ sym (v.same now h),
    )

admit-Tracks :
    (now : ℕ) (l : Logged)
    → Tracks now l
    → Tracks now (record { window = admit now l.window; log = l.log ++ (now ∷ []) })
admit-Tracks now l v =
    let live = live_requests l.window in
    let (e, _) = admit_live now l.window v.sound in
    record {
      sound = admit-WindowInv now l.window v.sound;
      Ascending = subst Ascending (sym e) (Ascending-append live now v.Ascending v.past);
      past =
          subst (All (λ x. x ≤ now)) (sym e)
            (All-append (λ x. x ≤ now) live (now ∷ []) v.past (omega arith));
      same = λ n g.
          filter-append _ l.log (now ∷ [])
          ∙ ap (λ xs. xs ++ recent n (now ∷ [])) (v.same n g)
          ∙ sym (filter-append _ live (now ∷ []))
          ∙ sym (ap (recent n) e);
    }

decided-Tracks :
    (key : ClientKey) (now later : ℕ) (l : Logged)
    → Tracks now (record { window = prune now l.window; log = l.log })
    → Tracks now (step key (asks now later) l)
unfolding step allow_window
decided-Tracks key now later l v =
    elim (decide_window key later (prune now l.window))
      as (λ d. Tracks now (record {
        window =
            (elim d as (λ x. KeyWindow × Decision) [
              | allowed ↦ (admit now (prune now l.window), allowed)
              | limited wait code ↦ (prune now l.window, limited wait code)
              | panics ↦ (prune now l.window, panics)
            ]).0;
        log =
            log_if_allowed now
              (elim d as (λ x. KeyWindow × Decision) [
                | allowed ↦ (admit now (prune now l.window), allowed)
                | limited wait code ↦ (prune now l.window, limited wait code)
                | panics ↦ (prune now l.window, panics)
              ]).1
              l.log;
      })) [
        | allowed ↦ admit-Tracks now (record { window = prune now l.window; log = l.log }) v
        | limited wait code ↦ v
        | panics ↦ v
      ]

step-Tracks :
    (key : ClientKey) (c : LimiterCall) (t : ℕ) (l : Logged)
    → t ≤ time_of c
    → Tracks t l
    → Tracks (time_of c) (step key c l)
step-Tracks key (asks now later) t l h v =
    decided-Tracks key now later l (prune-Tracks t now l v h).0
step-Tracks key (records total now) t l h v =
    unfold step record_window in
    record {
      sound = unfold record_window in record_window-WindowInv total now l.window v.sound;
      Ascending = v.Ascending;
      past = All-le_mono t now (live_requests l.window) h v.past;
      same = λ n g. v.same n (omega arith);
    }

run-Tracks :
    (key : ClientKey) (cs : List LimiterCall) (t : ℕ) (l : Logged)
    → InOrder t cs
    → Tracks t l
    → Tracks (last_time t cs) (run key cs l)
unfolding run
run-Tracks key [] t l o v = v
run-Tracks key (c ∷ cs) t l o v =
    run-Tracks key cs (time_of c) (step key c l) o.1 (step-Tracks key c t l o.0 v)

start-Tracks : Tracks 0 start
start-Tracks = record {
  sound = empty_window-WindowInv;
  Ascending = tt;
  past = tt;
  same = λ now h. refl;
}

allow_window_decision :
    (key : ClientKey) (now later : ℕ) (w : KeyWindow)
    → (allow_window key now later w).1 ≡ decide_window key later (prune now w)
unfolding allow_window
allow_window_decision key now later w = ground arith

tpm_refusal :
    (later : ℕ) (o : Option ℕ) → refuses_rpm (until_minute_after later o key_tpm_limit) ≡ false
tpm_refusal later none = refl
tpm_refusal later (some t) = refl

refuses_rpm_lem :
    (key : ClientKey) (later : ℕ) (w : KeyWindow)
    → WindowInv w
    → refuses_rpm (decide_window key later w)
      ≡ (ltb 0 key.rpm_limit && leb key.rpm_limit (length (live_requests w)))
unfolding decide_window
refuses_rpm_lem key later w v =
    rw (length-drop w.request_head w.requests)
      (elim (Bool-cases
        (ltb 0 key.rpm_limit && leb key.rpm_limit (length w.requests - w.request_head))) [
          | inl full ↦
              let (t, e) = get_elem?-lt w.request_head w.requests (ground (arith, full)) in
              rw (full, e)
          | inr room ↦
              elim (Bool-cases (ltb 0 key.tpm_limit && reaches64 w.token_total key.tpm_limit)) [
                | inl spent ↦ rw (room, spent) (tpm_refusal later _)
                | inr left ↦ rw (room, left)
              ]
        ])

-- A request is refused for the request limit exactly if the limit is on and that many requests of
-- the key were admitted in the minute before it, whatever calls came before, in the clock's order.
pub refuses_rpm_iff :
    (key : ClientKey) (cs : List LimiterCall) (now later : ℕ)
    → InOrder 0 cs
    → last_time 0 cs ≤ now
    → refuses_rpm (allow_window key now later (run key cs start).window).1
      ≡ (ltb 0 key.rpm_limit && leb key.rpm_limit (length (recent now (run key cs start).log)))
refuses_rpm_iff key cs now later o h =
    let v = run-Tracks key cs 0 start o start-Tracks in
    let (p, e) = prune-Tracks (last_time 0 cs) now (run key cs start) v h in
    ap refuses_rpm (allow_window_decision key now later (run key cs start).window)
    ∙ refuses_rpm_lem key later (prune now (run key cs start).window) p.sound
    ∙ ap (λ xs. ltb 0 key.rpm_limit && leb key.rpm_limit (length xs)) e

admitted_bound :
    (key : ClientKey) (t now later : ℕ) (l : Logged)
    → Tracks t l
    → t ≤ now
    → 0 < key.rpm_limit
    → (allow_window key now later l.window).1 ≡ allowed
    → length (recent now (step key (asks now later) l).log) ≤ key.rpm_limit
unfolding step
admitted_bound key t now later l v h on ok =
    let (p, e) = prune-Tracks t now l v h in
    let q = ap refuses_rpm (sym (allow_window_decision key now later l.window) ∙ ok) ∙ refl in
    let full = sym (refuses_rpm_lem key later (prune now l.window) p.sound) ∙ q in
    ground (
      arith,
      full,
      ap length e,
      filter-append (λ t. ltb now (t + minute)) l.log (now ∷ []),
      length-append (recent now l.log) (now ∷ []),
    )

-- However calls follow one another in the clock's order, once a request of a key with a request
-- limit is admitted, at most that many requests were admitted in the minute that ends with it.
pub admitted_at_most :
    (key : ClientKey) (cs : List LimiterCall) (now later : ℕ)
    → InOrder 0 cs
    → last_time 0 cs ≤ now
    → 0 < key.rpm_limit
    → (allow_window key now later (run key cs start).window).1 ≡ allowed
    → length (recent now (step key (asks now later) (run key cs start)).log) ≤ key.rpm_limit
admitted_at_most key cs now later o h =
    admitted_bound key (last_time 0 cs) now later (run key cs start)
      (run-Tracks key cs 0 start o start-Tracks) h
