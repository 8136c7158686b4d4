-- ===== src/Gateway/Steps.antt =====
-- Lemmas on one round of the loop of `gatewayChat`, cmd/server/main.go.
use opencode_rush_free.Base.{
  Bool, Bool-cases, List, Option, Option-cases, [], ap, append-nil, ap₂, arith, bytes_eq, if_cases,
  if◌then◌else◌, inl, inr, ltb, nat_eq, none, not, refl, some, string_eq, ℕ, ◌&&◌, ◌++◌, ◌+◌, ◌==◌,
  ◌||◌, ◌∙◌, ◌∷◌, ◌≡◌,
}
use opencode_rush_free.Proxy.{
  ProxyRecord, GoError, retryable_upstream_status, disqualified_exit_response, retry_after_delay,
}
use opencode_rush_free.Gateway.Types.{
  LoopConfig, Response, Forwarded, failed, answered, AttemptEnv, Effect, forwards, clears_session,
  resin_advances, resin_fails, summarises, waits, LoopState, Next, again, stop, copied, emit,
  fail_with,
}
use opencode_rush_free.Gateway.Vision.{mark_if_transport}
use opencode_rush_free.Gateway.Attempt.{
  gone, observed, forward_failed, health_effects, copy_step, retry_builtin, finish_response,
  rotate_step, response_step, forward_step,
}

-- The proxies that the request was forwarded to, in order.
abbrev pub forwarded_ids : List Effect → List ℕ
forwarded_ids [] = []
forwarded_ids (forwards id ∷ es) = id ∷ forwarded_ids es
forwarded_ids (_ ∷ es) = forwarded_ids es

pub forwarded_ids-append :
    (es fs : List Effect) → forwarded_ids (es ++ fs) ≡ forwarded_ids es ++ forwarded_ids fs
forwarded_ids-append [] fs = refl
forwarded_ids-append (forwards id ∷ es) fs = ap (λ xs. id ∷ xs) (forwarded_ids-append es fs)
forwarded_ids-append (e ∷ es) fs = forwarded_ids-append es fs

-- No forward, no proxy taken and no retry counted between two states.
pub record Quiet (s t : LoopState) : Type 0 where
  pub same_used : t.used ≡ s.used
  pub same_ids : forwarded_ids t.effects ≡ forwarded_ids s.effects

abbrev pub OnNext : (LoopState → Type 0) → Next → Type 0
OnNext P (again t) = P t
OnNext P (stop t) = P t
OnNext P (copied t i status ok) = P t

pub Quiet-refl : (s : LoopState) → Quiet s s
Quiet-refl s = record { same_used = refl; same_ids = refl }

pub Quiet-trans : (s t u : LoopState) → Quiet s t → Quiet t u → Quiet s u
Quiet-trans s t u q r = record {
  same_used = r.same_used ∙ q.same_used;
  same_ids = r.same_ids ∙ q.same_ids;
}

OnNext-trans : (s t : LoopState) (n : Next) → Quiet s t → OnNext (Quiet t) n → OnNext (Quiet s) n
OnNext-trans s t (again u) q r = Quiet-trans s t u q r
OnNext-trans s t (stop u) q r = Quiet-trans s t u q r
OnNext-trans s t (copied u i status ok) q r = Quiet-trans s t u q r

pub emit-Quiet : (es : List Effect) (s : LoopState) → forwarded_ids es ≡ [] → Quiet s (emit es s)
emit-Quiet es s h = record {
  same_used = refl;
  same_ids =
      forwarded_ids-append s.effects es ∙ ap (λ xs. forwarded_ids s.effects ++ xs) h ∙ append-nil _;
}

pub fail_with-Quiet : (e : GoError) (s t : LoopState) → Quiet (fail_with e s) t → Quiet s t
fail_with-Quiet e s t q = record { same_used = q.same_used; same_ids = q.same_ids }

pub gone-Quiet : (e : Option GoError) (s t : LoopState) → Quiet s t → Quiet s (gone e t)
gone-Quiet e s t q = record { same_used = q.same_used; same_ids = q.same_ids }

observed_quiet :
    (cfg : LoopConfig) (status : ℕ) (e : Option GoError)
    → forwarded_ids (observed cfg status e) ≡ []
observed_quiet cfg status e = ground arith

observed_and_quiet :
    (cfg : LoopConfig) (status : ℕ) (e : Option GoError) (fs : List Effect)
    → forwarded_ids fs ≡ []
    → forwarded_ids (observed cfg status e ++ fs) ≡ []
observed_and_quiet cfg status e fs h =
    forwarded_ids-append (observed cfg status e) fs
    ∙ ap₂ (λ xs ys. xs ++ ys) (observed_quiet cfg status e) h

pub mark_quiet :
    (e : GoError) (id : ℕ) → forwarded_ids (mark_if_transport e id ++ (clears_session id ∷ [])) ≡ []
mark_quiet e id = ground arith

forward_failed-Quiet :
    (cfg : LoopConfig) (i : ℕ) (p : ProxyRecord) (env : AttemptEnv) (e : GoError) (s : LoopState)
    → OnNext (Quiet s) (forward_failed cfg i p env e s)
unfolding forward_failed
forward_failed-Quiet cfg i p env e s =
    let fs = observed cfg 0 (some e) ++ (summarises (i + 1) 0 (some e) ∷ []) in
    let s' = emit fs (fail_with e s) in
    let q : Quiet s s' = fail_with-Quiet e s s' (
      emit-Quiet fs (fail_with e s)
        (observed_and_quiet cfg 0 (some e) (summarises (i + 1) 0 (some e) ∷ []) refl)) in
    let marks = mark_if_transport e p.id ++ (clears_session p.id ∷ []) in
    elim (Option-cases env.cancelled_after) [
      | inr (g, c) ↦ rw c (gone-Quiet (some g) s s' q)
      | inl c ↦ rw c (
          if_cases (OnNext (Quiet s)) cfg.resin_mode
            (λ _.
              if_cases (OnNext (Quiet s)) (ltb (i + 1) cfg.attempts)
                (λ _. Quiet-trans s s' _ q (emit-Quiet (resin_advances ∷ []) s' refl))
                (λ _.
                  Quiet-trans s s' _ q (emit-Quiet (resin_advances ∷ resin_fails e ∷ []) s' refl)))
            (λ _. Quiet-trans s s' _ q (emit-Quiet marks s' (mark_quiet e p.id))))
    ]

copy_step-Quiet :
    (cfg : LoopConfig) (i : ℕ) (env : AttemptEnv) (status : ℕ) (s : LoopState)
    → OnNext (Quiet s) (copy_step cfg i env status s)
unfolding copy_step
copy_step-Quiet cfg i env status s =
    emit-Quiet
      (observed cfg status env.copy_error ++ (summarises (i + 1) status env.copy_error ∷ [])) s
      (observed_and_quiet cfg status env.copy_error (summarises (i + 1) status env.copy_error ∷ [])
        refl)

retry_builtin-Quiet :
    (cfg : LoopConfig) (i : ℕ) (p : ProxyRecord) (env : AttemptEnv) (r : Response) (d : Bool)
    (s : LoopState)
    → OnNext (Quiet s) (retry_builtin cfg i p env r d s)
unfolding retry_builtin
retry_builtin-Quiet cfg i p env r d s =
    let fs = summarises (i + 1) r.status none ∷ (if d then clears_session p.id ∷ [] else []) in
    let ws = waits (retry_after_delay r.retry_after i) ∷ [] in
    let t = emit ws (emit fs s) in
    let q : Quiet s t =
      Quiet-trans s (emit fs s) t (emit-Quiet fs s (ground arith))
        (emit-Quiet ws (emit fs s) refl) in
    elim (Option-cases env.wait_cancelled) [
      | inr (e, c) ↦ rw c (gone-Quiet (some e) s t q)
      | inl c ↦ rw c q
    ]

finish_response-Quiet :
    (cfg : LoopConfig) (i : ℕ) (p : ProxyRecord) (env : AttemptEnv) (r : Response) (d : Bool)
    (s : LoopState)
    → OnNext (Quiet s) (finish_response cfg i p env r d s)
unfolding finish_response
finish_response-Quiet cfg i p env r d s =
    elim (Bool-cases (
      (retryable_upstream_status r.status || d)
      && ltb (i + 1) cfg.attempts
      && not cfg.resin_mode)) [
        | inl e ↦ rw e (retry_builtin-Quiet cfg i p env r d s)
        | inr e ↦ rw e (copy_step-Quiet cfg i env r.status s)
      ]

rotate_step-Quiet :
    (cfg : LoopConfig) (i : ℕ) (p : ProxyRecord) (env : AttemptEnv) (r : Response) (d : Bool)
    (s : LoopState)
    → OnNext (Quiet s) (rotate_step cfg i p env r d s)
unfolding rotate_step
rotate_step-Quiet cfg i p env r d s =
    let fs = observed cfg r.status none ++ (resin_advances ∷ []) in
    let rotated = emit fs s in
    let q = emit-Quiet fs s (observed_and_quiet cfg r.status none (resin_advances ∷ []) refl) in
    let cleared = emit (clears_session p.id ∷ []) s in
    elim (Bool-cases (
      cfg.resin_mode
      && (r.status == 429 || retryable_upstream_status r.status || (cfg.resin_mode && d)))) [
        | inl rotates ↦ rw rotates (elim (Bool-cases (ltb (i + 1) cfg.attempts)) [
          | inl more ↦ rw more (
              Quiet-trans s rotated _ q
                (emit-Quiet (summarises (i + 1) r.status none ∷ []) rotated refl))
          | inr last ↦
              rw last (OnNext-trans s rotated _ q (finish_response-Quiet cfg i p env r d rotated))
        ])
        | inr stays ↦ rw stays (elim (Bool-cases (r.status == 401 || r.status == 429)) [
          | inl sticky ↦ rw sticky (
              OnNext-trans s cleared _ (emit-Quiet (clears_session p.id ∷ []) s refl)
                (finish_response-Quiet cfg i p env r d cleared))
          | inr other ↦ rw other (finish_response-Quiet cfg i p env r d s)
        ])
      ]

health_quiet :
    (cfg : LoopConfig) (p : ProxyRecord) (status : ℕ) (d : Bool)
    → forwarded_ids (health_effects cfg p status d) ≡ []
unfolding health_effects
health_quiet cfg p status d = ground arith

response_step-Quiet :
    (cfg : LoopConfig) (i : ℕ) (p : ProxyRecord) (env : AttemptEnv) (r : Response) (s : LoopState)
    → OnNext (Quiet s) (response_step cfg i p env r s)
unfolding response_step
response_step-Quiet cfg i p env r s =
    let d = disqualified_exit_response r.status r.body in
    let fs = health_effects cfg p r.status d in
    let s' = emit fs s in
    let q = emit-Quiet fs s (health_quiet cfg p r.status d) in
    elim (Bool-cases (r.status == 407 && not cfg.resin_mode)) [
      | inl auth ↦
          let t = emit (summarises (i + 1) 407 none ∷ []) s' in
          let u = Quiet-trans s s' t q (emit-Quiet (summarises (i + 1) 407 none ∷ []) s' refl) in
          rw auth (record { same_used = u.same_used; same_ids = u.same_ids })
      | inr other ↦ rw other (OnNext-trans s s' _ q (rotate_step-Quiet cfg i p env r d s'))
    ]

-- A forward adds the one proxy that it goes to.
pub forward_step_ids :
    (cfg : LoopConfig) (i : ℕ) (p : ProxyRecord) (env : AttemptEnv) (s : LoopState)
    → OnNext (Quiet (emit (forwards p.id ∷ []) s)) (forward_step cfg i p env s)
unfolding forward_step
forward_step_ids cfg i p env s = by_outcome env.forwarded refl
  where
    by_outcome :
        (o : Forwarded)
        → env.forwarded ≡ o
        → OnNext (Quiet (emit (forwards p.id ∷ []) s)) (forward_step cfg i p env s)
    by_outcome (failed e) h =
        rw (h, forward_step) (forward_failed-Quiet cfg i p env e (emit (forwards p.id ∷ []) s))
    by_outcome (answered r) h =
        rw (h, forward_step) (response_step-Quiet cfg i p env r (emit (forwards p.id ∷ []) s))
