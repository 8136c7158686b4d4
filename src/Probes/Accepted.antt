-- ===== src/Probes/Accepted.antt =====
-- A probe job from its request to its end, cmd/server/proxy_runtime.go.
use opencode_rush_free.Base.{
  Bool, Bytes, List, Option, [], arith, bytes_eq, false, if_cases, if◌then◌else◌, length, lookup,
  lookup-insert_self, ltb, nat_eq, none, not, refl, some, string_eq, subst, true, ℕ, ◌&&◌, ◌+◌, ◌∷◌,
  ◌≡◌, ◌≢◌, ◌≤◌,
}
use opencode_rush_free.Proxy.{ProxyRecord}
use opencode_rush_free.Probes.{
  ProbeStore, ProbeResult, ProbeJob, job_running, job_completed, start_job, create_proxy_probe_job,
  JobRequest, saved_job, proxies_for_probe, add_job, known_mode, is_none, probe_mode,
}
use opencode_rush_free.Probes.Workers.{Event, start_workers, run_events}
use opencode_rush_free.Probes.Progress.{Happens, all_saved, Stuck, runs_complete}

-- An answer 202 comes with a running job of as many probes as there are proxies.
unfoldable Saved : Bytes → ℕ × List ProxyRecord × ProbeStore → Type 0
Saved id r =
    r.0 ≡ 202
    → (job : ProbeJob) × (lookup id r.2.jobs ≡ some job)
      × (job.status ≡ job_running)
      × (job.completed ≡ 0)
      × (job.total ≡ length r.1)
      × (1 ≤ length r.1)

either-Saved :
    (b : Bool) (id : Bytes) (x y : ℕ × List ProxyRecord × ProbeStore)
    → Saved id x
    → Saved id y
    → Saved id (if b then x else y)
either-Saved true id x y p q = p
either-Saved false id x y p q = q

refused-Saved : (status : ℕ) (id : Bytes) (s : ProbeStore) → status ≢ 202 → Saved id (status, [], s)
unfolding Saved
refused-Saved status id s n e = absurd (n e)

new_job-Saved :
    (now : ℕ) (answers : Bool) (id : Bytes) (p : ProxyRecord) (ps : List ProxyRecord)
    (s : ProbeStore)
    → Saved id (start_job now answers (some id) (some (p ∷ ps)) s)
unfolding Saved start_job saved_job add_job
new_job-Saved now answers id p ps s =
    let job : ProbeJob = record {
      status = job_running;
      total = length (p ∷ ps);
      completed = 0;
      created_at = now;
      expires_at = now + 900;
    } in
    if_cases (λ (r : Bool × ProbeStore). Saved id (saved_job (p ∷ ps) r))
      (answers && is_none (lookup id s.jobs))
      (λ e d. (job, lookup-insert_self id job s.jobs, refl, refl, refl, omega arith))
      (λ e d. absurd (omega arith))

start_job-Saved :
    (now : ℕ) (answers : Bool) (id : Bytes) (proxies : Option (List ProxyRecord)) (s : ProbeStore)
    → Saved id (start_job now answers (some id) proxies s)
unfolding start_job
start_job-Saved now answers id none s = refused-Saved 500 id s (λ e. omega arith)
start_job-Saved now answers id (some []) s = refused-Saved 400 id s (λ e. omega arith)
start_job-Saved now answers id (some (p ∷ ps)) s = new_job-Saved now answers id p ps s

create-Saved :
    (now : ℕ) (answers : Bool) (id : Bytes) (stored : Option (List ProxyRecord))
    (request : Option JobRequest) (s : ProbeStore)
    → Saved id (create_proxy_probe_job now answers (some id) stored request s)
unfolding create_proxy_probe_job
create-Saved now answers id stored none s = refused-Saved 400 id s (λ e. omega arith)
create-Saved now answers id stored (some request) s =
    let go = start_job now answers (some id) (proxies_for_probe request.ids stored) s in
    let refused = refused-Saved 400 id s (λ e. omega arith) in
    either-Saved (not (known_mode (probe_mode request.mode))) id (400, [], s)
      (if ltb 1000 (length request.ids) then (400, [], s) else go) refused
      (either-Saved (ltb 1000 (length request.ids)) id (400, [], s) go refused
        (start_job-Saved now answers id (proxies_for_probe request.ids stored) s))

-- A probe job that was accepted with 202 comes to its end however its workers are scheduled, if every result is
-- saved: a run that can go no further has completed the job, with all results counted, after exactly two
-- events for each of its proxies.
pub accepted_jobs_complete :
    (now : ℕ) (answers : Bool) (id : Bytes) (stored : Option (List ProxyRecord))
    (request : Option JobRequest) (s : ProbeStore) (probe : ProxyRecord → ProbeResult)
    (proxies : List ProxyRecord) (store : ProbeStore) (es : List Event)
    → create_proxy_probe_job now answers (some id) stored request s ≡ (202, proxies, store)
    → all_saved es ≡ true
    → Happens id probe es (start_workers proxies store)
    → Stuck (run_events id probe es (start_workers proxies store))
    → (end : ProbeJob) × (lookup id
          (run_events id probe es (start_workers proxies store)).store.jobs
        ≡ some end)
      × (end.status ≡ job_completed)
      × (end.completed ≡ length proxies)
      × (length es ≡ length proxies + length proxies)
unfolding Saved
accepted_jobs_complete now answers id stored request s probe proxies store es c a h st =
    let saved = subst (Saved id) c (create-Saved now answers id stored request s) in
    let (job, l, r, z, t, p) = saved refl in
    runs_complete id probe proxies store job es l r z t p a h st
