-- ===== src/Gateway/Promises.antt =====
-- What the loop of `gatewayChat` promises of any run, cmd/server/main.go: how often and where a request
-- is forwarded.
use opencode_rush_free.Base.{
  All, All-append, All-imp, Bool, List, NoRepeat, NoRepeat-snoc, Option, [], ap, arith, bytes_eq,
  false, if_cases, if◌then◌else◌, inl, inr, ltb, member, member_subset, nat_eq, none, not, refl,
  some, string_eq, subst, suc, sym, true, zero, ℕ, ◌&&◌, ◌++◌, ◌+◌, ◌==◌, ◌∙◌, ◌∷◌, ◌≡◌, ◌⊎◌,
}
use opencode_rush_free.Proxy.{ProxyRecord, GoError, is_proxy_transport_error}
use opencode_rush_free.Gateway.Types.{
  LoopConfig, Picked, picked, exhausted, pick_failed, Helped, build_failed, request_failed,
  read_failed, refused, unusable, described, AttemptEnv, Effect, forwards, marks_failure,
  clears_session, resin_advances, resin_fails, helper_recorded, LoopState, Next, again, stop,
  copied, emit, fail_with,
}
use opencode_rush_free.Gateway.Vision.{
  VisionNext, proceeds, retries, breaks, vision_step, mark_if_transport,
}
use opencode_rush_free.Gateway.Attempt.{
  forward_step, picked_step, pick_step, cancelled_or, attempt_step, taken_state,
}
use opencode_rush_free.Gateway.Loop.{attempt_loop}
use opencode_rush_free.Gateway.Steps.{
  forwarded_ids, Quiet, OnNext, Quiet-refl, Quiet-trans, emit-Quiet, fail_with-Quiet, mark_quiet,
  forward_step_ids, forwarded_ids-append,
}

abbrev OnVision : (LoopState → Type 0) → VisionNext → Type 0
OnVision P (proceeds t) = P t
OnVision P (retries t) = P t
OnVision P (breaks t) = P t

helper-Quiet :
    (ok : Bool) (e : GoError) (s : LoopState)
    → Quiet s (emit (helper_recorded ok ∷ []) (fail_with e s))
helper-Quiet ok e s =
    fail_with-Quiet e s _ (emit-Quiet (helper_recorded ok ∷ []) (fail_with e s) refl)

then_emit :
    (es : List Effect) (s t : LoopState) → Quiet s t → forwarded_ids es ≡ [] → Quiet s (emit es t)
then_emit es s t q h = Quiet-trans s t (emit es t) q (emit-Quiet es t h)

vision_step-Quiet :
    (cfg : LoopConfig) (i : ℕ) (p : ProxyRecord) (h : Helped) (s : LoopState)
    → OnVision (Quiet s) (vision_step cfg i p h s)
unfolding vision_step
vision_step-Quiet cfg i p (build_failed e) s = helper-Quiet false e s
vision_step-Quiet cfg i p (request_failed e) s =
    let t = emit (helper_recorded false ∷ []) (fail_with e s) in
    let q = helper-Quiet false e s in
    if_cases (OnVision (Quiet s)) (not cfg.vision_use_proxy) (λ _. q)
      (λ _.
        if_cases (OnVision (Quiet s)) cfg.resin_mode
          (λ _. then_emit (resin_fails e ∷ []) s t q refl)
          (λ _.
            then_emit (mark_if_transport e p.id ++ (clears_session p.id ∷ [])) s t q
              (mark_quiet e p.id)))
vision_step-Quiet cfg i p (read_failed e) s =
    let t = emit (helper_recorded false ∷ []) (fail_with e s) in
    let q = helper-Quiet false e s in
    if_cases (OnVision (Quiet s)) (not cfg.vision_use_proxy) (λ _. q)
      (λ _.
        if_cases (OnVision (Quiet s)) (not cfg.resin_mode && is_proxy_transport_error e)
          (λ _. then_emit (marks_failure p.id ∷ clears_session p.id ∷ []) s t q refl) (λ _. q))
vision_step-Quiet cfg i p (refused status e) s =
    let t = emit (helper_recorded false ∷ []) (fail_with e s) in
    let q = helper-Quiet false e s in
    if_cases (OnVision (Quiet s))
      (cfg.vision_use_proxy && status == 429 && ltb (i + 1) cfg.attempts)
      (λ _.
        then_emit ((if cfg.resin_mode then resin_advances else clears_session p.id) ∷ []) s t q
          (ground arith))
      (λ _. q)
vision_step-Quiet cfg i p (unusable e) s = helper-Quiet false e s
vision_step-Quiet cfg i p described s = emit-Quiet (helper_recorded true ∷ []) s refl

-- What one round does to the proxies taken and the forwards.
pub data Round (cfg : LoopConfig) (env : AttemptEnv) (s t : LoopState) : Type 0 where
  none_taken :
      t.used ≡ s.used → forwarded_ids t.effects ≡ forwarded_ids s.effects → Round cfg env s t
  taken :
      (p : ProxyRecord)
      → env.pick s.used ≡ picked p
      → t.used ≡ (if cfg.resin_mode then s.used else p.id ∷ s.used)
      → (forwarded_ids t.effects ≡ forwarded_ids s.effects)
        ⊎ (forwarded_ids t.effects ≡ forwarded_ids s.effects ++ (p.id ∷ []))
      → Round cfg env s t

Quiet-taken :
    (cfg : LoopConfig) (env : AttemptEnv) (i : ℕ) (p : ProxyRecord) (s t : LoopState)
    → env.pick s.used ≡ picked p
    → Quiet (taken_state cfg i p s) t
    → Round cfg env s t
Quiet-taken cfg env i p s t h q = taken p h q.same_used (inl q.same_ids)

forwarded_taken :
    (cfg : LoopConfig) (env : AttemptEnv) (i : ℕ) (p : ProxyRecord) (s u t : LoopState)
    → env.pick s.used ≡ picked p
    → Quiet (taken_state cfg i p s) u
    → Quiet (emit (forwards p.id ∷ []) u) t
    → Round cfg env s t
forwarded_taken cfg env i p s u t h q r = taken p h (r.same_used ∙ q.same_used) (
    inr (
      r.same_ids
      ∙ forwarded_ids-append u.effects (forwards p.id ∷ [])
      ∙ ap (λ xs. xs ++ (p.id ∷ [])) q.same_ids))

forward-Round :
    (cfg : LoopConfig) (env : AttemptEnv) (i : ℕ) (p : ProxyRecord) (s u : LoopState)
    → env.pick s.used ≡ picked p
    → Quiet (taken_state cfg i p s) u
    → OnNext (Round cfg env s) (forward_step cfg i p env u)
forward-Round cfg env i p s u h q =
    OnNext-map (forward_step cfg i p env u) (forwarded_taken cfg env i p s u)
      (forward_step_ids cfg i p env u)
  where
    OnNext-map :
        (n : Next)
        → ((t : LoopState)
            → env.pick s.used ≡ picked p
            → Quiet (taken_state cfg i p s) u
            → Quiet (emit (forwards p.id ∷ []) u) t
            → Round cfg env s t)
        → OnNext (Quiet (emit (forwards p.id ∷ []) u)) n
        → OnNext (Round cfg env s) n
    OnNext-map (again t) f k = f t h q k
    OnNext-map (stop t) f k = f t h q k
    OnNext-map (copied t i status ok) f k = f t h q k

abbrev after_vision : LoopConfig → ℕ → ProxyRecord → AttemptEnv → VisionNext → Next
after_vision cfg i p env v = elim v [
  | proceeds t ↦ forward_step cfg i p env t
  | retries t ↦ again t
  | breaks t ↦ stop t
]

vision-Round :
    (cfg : LoopConfig) (env : AttemptEnv) (i : ℕ) (p : ProxyRecord) (s : LoopState) (v : VisionNext)
    → env.pick s.used ≡ picked p
    → OnVision (Quiet (taken_state cfg i p s)) v
    → OnNext (Round cfg env s) (after_vision cfg i p env v)
vision-Round cfg env i p s (proceeds t) h q = forward-Round cfg env i p s t h q
vision-Round cfg env i p s (retries t) h q = Quiet-taken cfg env i p s t h q
vision-Round cfg env i p s (breaks t) h q = Quiet-taken cfg env i p s t h q

picked-Round :
    (cfg : LoopConfig) (i : ℕ) (env : AttemptEnv) (s : LoopState) (p : ProxyRecord)
    → env.pick s.used ≡ picked p
    → OnNext (Round cfg env s) (picked_step cfg i p env s)
unfolding picked_step
picked-Round cfg i env s p h =
    let s' = taken_state cfg i p s in
    if_cases (OnNext (Round cfg env s)) cfg.vision_enabled
      (λ _.
        vision-Round cfg env i p s (vision_step cfg i p env.helped s') h
          (vision_step-Quiet cfg i p env.helped s'))
      (λ _. forward-Round cfg env i p s s' h (Quiet-refl s'))

pick-Round :
    (cfg : LoopConfig) (i : ℕ) (env : AttemptEnv) (s : LoopState) (o : Picked)
    → env.pick s.used ≡ o
    → OnNext (Round cfg env s) (pick_step cfg i env s o)
unfolding pick_step
pick-Round cfg i env s (pick_failed e) h = none_taken refl refl
pick-Round cfg i env s exhausted h = none_taken refl refl
pick-Round cfg i env s (picked p) h = picked-Round cfg i env s p h

cancelled-Round :
    (cfg : LoopConfig) (env : AttemptEnv) (s : LoopState) (c : Option GoError) (n : Next)
    → OnNext (Round cfg env s) n
    → OnNext (Round cfg env s) (cancelled_or c n s)
cancelled-Round cfg env s none n h = h
cancelled-Round cfg env s (some e) n h = none_taken refl refl

pub attempt-Round :
    (cfg : LoopConfig) (i : ℕ) (env : AttemptEnv) (s : LoopState)
    → OnNext (Round cfg env s) (attempt_step cfg i env s)
unfolding attempt_step
attempt-Round cfg i env s =
    cancelled-Round cfg env s env.cancelled (pick_step cfg i env s (env.pick s.used))
      (pick-Round cfg i env s (env.pick s.used) refl)

-- A picker that never returns a proxy that was taken before.
abbrev pub PicksFresh : (ℕ → AttemptEnv) → Type 0
PicksFresh env =
    (i : ℕ) (used : List ℕ) (p : ProxyRecord)
    → (env i).pick used ≡ picked p
    → member p.id used ≡ false

pub record Distinct (s : LoopState) : Type 0 where
  pub no_repeat : NoRepeat (forwarded_ids s.effects)
  pub in_used : All (λ id. member id s.used ≡ true) (forwarded_ids s.effects)

member-cons : (id n : ℕ) (used : List ℕ) → member id used ≡ true → member id (n ∷ used) ≡ true
member-cons id n used h = ground arith

Round-Distinct :
    (cfg : LoopConfig) (env : AttemptEnv) (s t : LoopState)
    → cfg.resin_mode ≡ false
    → ((used : List ℕ) (p : ProxyRecord) → env.pick used ≡ picked p → member p.id used ≡ false)
    → Round cfg env s t
    → Distinct s
    → Distinct t
Round-Distinct cfg env s t b fresh (none_taken u ids) d = record {
  no_repeat = subst NoRepeat (sym ids) d.no_repeat;
  in_used =
      subst (λ us. All (λ id. member id us ≡ true) (forwarded_ids t.effects)) (sym u)
        (subst (All (λ id. member id s.used ≡ true)) (sym ids) d.in_used);
}
Round-Distinct cfg env s t b fresh (taken p h u o) d =
    let ids = forwarded_ids s.effects in
    let used = p.id ∷ s.used in
    let u' : t.used ≡ used = u ∙ ap (λ c. if c then s.used else used) b in
    let kept =
      All-imp (λ id. member id s.used ≡ true) (λ id. member id used ≡ true) ids
        (λ id. member-cons id p.id s.used) d.in_used in
    let back = subst (λ us. All (λ id. member id us ≡ true) (forwarded_ids t.effects)) (sym u') in
    elim o [
      | inl e ↦ record {
        no_repeat = subst NoRepeat (sym e) d.no_repeat;
        in_used = back (subst (All (λ id. member id used ≡ true)) (sym e) kept);
      }
      | inr e ↦ record {
        no_repeat = subst NoRepeat (sym e) (
            NoRepeat-snoc ids p.id d.no_repeat
              (member_subset p.id ids s.used d.in_used (fresh s.used p h)));
        in_used = back (
            subst (All (λ id. member id used ≡ true)) (sym e)
              (All-append (λ id. member id used ≡ true) ids (p.id ∷ []) kept (ground arith, tt)));
      }
    ]

pub loop-Distinct :
    (cfg : LoopConfig) (left i : ℕ) (env : ℕ → AttemptEnv) (s : LoopState)
    → cfg.resin_mode ≡ false
    → PicksFresh env
    → Distinct s
    → OnNext Distinct (attempt_loop cfg left i env s)
unfolding attempt_loop
loop-Distinct cfg zero i env s b fresh d = d
loop-Distinct cfg (suc left) i env s b fresh d =
    elim (attempt_step cfg i (env i) s)
        as (λ n.
          OnNext (Round cfg (env i) s) n
          → OnNext Distinct (elim n as (λ x. Next) [
            | again t ↦ attempt_loop cfg left (suc i) env t
            | stop t ↦ stop t
            | copied t n status ok ↦ copied t n status ok
          ])) [
            | again t ↦ λ r.
                loop-Distinct cfg left (suc i) env t b fresh
                  (Round-Distinct cfg (env i) s t b (fresh i) r d)
            | stop t ↦ λ r. Round-Distinct cfg (env i) s t b (fresh i) r d
            | copied t n status ok ↦ λ r. Round-Distinct cfg (env i) s t b (fresh i) r d
          ]
      (attempt-Round cfg i (env i) s)
