-- ===== src/Gateway/Forwards.antt =====
-- How often, and over how many proxies, a run of `gatewayChat` (cmd/server/main.go) forwards a request.
use opencode_rush_free.Base.{
  Bool, NoRepeat, [], arith, false, if◌then◌else◌, inl, inr, length, length-append, refl, subst,
  suc, sym, true, zero, ℕ, ◌+◌, ◌∷◌, ◌≡◌, ◌≤◌,
}
use opencode_rush_free.Gateway.Types.{LoopConfig, AttemptEnv, LoopState, Next, again, stop, copied}
use opencode_rush_free.Gateway.Attempt.{attempt_step}
use opencode_rush_free.Gateway.Loop.{
  attempt_count, attempt_loop, start, conclude, conclude_failure, run_attempts,
}
use opencode_rush_free.Gateway.Steps.{forwarded_ids, OnNext}
use opencode_rush_free.Gateway.Admission.{Plan}
use opencode_rush_free.Gateway.Chat.{loop_config}
use opencode_rush_free.Gateway.Promises.{
  Round, none_taken, taken, attempt-Round, PicksFresh, Distinct, loop-Distinct,
}

-- The state that a run ends with.
abbrev last_state : Next → LoopState
last_state (again s) = s
last_state (stop s) = s
last_state (copied s i status ok) = s

conclude_effects : (n : Next) → (conclude n).effects ≡ (last_state n).effects
unfolding conclude conclude_failure
conclude_effects (again s) = refl
conclude_effects (stop s) = refl
conclude_effects (copied s i status ok) = refl

OnNext-last : (P : LoopState → Type 0) (n : Next) → OnNext P n → P (last_state n)
OnNext-last P (again s) h = h
OnNext-last P (stop s) h = h
OnNext-last P (copied s i status ok) h = h

-- Without Resin, and with a picker that returns no proxy that was used before, a request is forwarded to
-- every proxy at most once.
pub distinct_forwards :
    (cfg : LoopConfig) (env : ℕ → AttemptEnv)
    → cfg.resin_mode ≡ false
    → PicksFresh env
    → NoRepeat (forwarded_ids (run_attempts cfg env).effects)
unfolding run_attempts
distinct_forwards cfg env b fresh =
    let n = attempt_loop cfg cfg.attempts 0 env start in
    let d = OnNext-last Distinct n (
      loop-Distinct cfg cfg.attempts 0 env start b fresh
        (record { no_repeat = tt; in_used = tt })) in
    subst (λ es. NoRepeat (forwarded_ids es)) (sym (conclude_effects n)) d.no_repeat

abbrev forward_count : LoopState → ℕ
forward_count s = length (forwarded_ids s.effects)

Round-count :
    (cfg : LoopConfig) (env : AttemptEnv) (s t : LoopState)
    → Round cfg env s t
    → forward_count t ≤ suc (forward_count s)
Round-count cfg env s t (none_taken u ids) = rw ids (ground arith)
Round-count cfg env s t (taken p h u (inl e)) = rw e (ground arith)
Round-count cfg env s t (taken p h u (inr e)) =
    rw e (let h = length-append (forwarded_ids s.effects) (p.id ∷ []) in ground arith)

loop-count :
    (cfg : LoopConfig) (left i : ℕ) (env : ℕ → AttemptEnv) (s : LoopState)
    → forward_count (last_state (attempt_loop cfg left i env s)) ≤ forward_count s + left
unfolding attempt_loop
loop-count cfg zero i env s = omega arith
loop-count cfg (suc left) i env s =
    elim (attempt_step cfg i (env i) s)
        as (λ n.
          OnNext (Round cfg (env i) s) n
          → forward_count (
              last_state (elim n as (λ x. Next) [
                | again t ↦ attempt_loop cfg left (suc i) env t
                | stop t ↦ stop t
                | copied t n status ok ↦ copied t n status ok
              ]))
            ≤ forward_count s + suc left) [
              | again t ↦ λ r.
                  let a = loop-count cfg left (suc i) env t in
                  let b = Round-count cfg (env i) s t r in omega arith
              | stop t ↦ λ r. let b = Round-count cfg (env i) s t r in omega arith
              | copied t n status ok ↦ λ r. let b = Round-count cfg (env i) s t r in omega arith
            ]
      (attempt-Round cfg i (env i) s)

within_attempts :
    (cfg : LoopConfig) (env : ℕ → AttemptEnv)
    → length (forwarded_ids (run_attempts cfg env).effects) ≤ cfg.attempts
unfolding run_attempts
within_attempts cfg env =
    let n = attempt_loop cfg cfg.attempts 0 env start in
    let c : forward_count (last_state n) ≤ 0 + cfg.attempts =
      loop-count cfg cfg.attempts 0 env start in
    subst (λ es. length (forwarded_ids es) ≤ cfg.attempts) (sym (conclude_effects n)) (omega arith)

attempts_limit :
    (resin : Bool) (proxies : ℕ)
    → (attempt_count resin proxies ≤ (if resin then 10 else 3))
      × (attempt_count resin proxies ≤ (if resin then 10 else proxies))
unfolding attempt_count
attempts_limit true proxies = (omega arith, omega arith)
attempts_limit false proxies = (ground arith, ground arith)

-- With Resin a checked request is forwarded at most ten times; without it at most three times, and at most as often as
-- there are proxies, whatever the upstream, the proxies and the client do.
pub forwards_bounded :
    (plan : Plan) (env : ℕ → AttemptEnv)
    → let n = length (forwarded_ids (run_attempts (loop_config plan) env).effects) in
      (n ≤ (if plan.resin_mode then 10 else 3))
      × (n ≤ (if plan.resin_mode then 10 else length plan.proxies))
unfolding loop_config
forwards_bounded plan env =
    let n = within_attempts (loop_config plan) env in
    let (a, b) = attempts_limit plan.resin_mode (length plan.proxies) in (omega arith, omega arith)
