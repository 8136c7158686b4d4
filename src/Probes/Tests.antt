-- ===== src/Probes/Tests.antt =====
-- Tests and examples of probe jobs.
use opencode_rush_free.Base.{
  List, [], arith, bytes_eq, bytes_eqb, codes, false, length, lookup, ltb, nat_eq, none, refl, some,
  string_eq, true, ℕ, ◌&&◌, ◌+◌, ◌∷◌, ◌≡◌,
}
use opencode_rush_free.Proxy.{ProxyRecord}
use opencode_rush_free.Probes.{
  ProbeStore, ProbeJob, job_completed, JobRequest, create_proxy_probe_job, snapshot, job_running,
}
use opencode_rush_free.Probes.Probe.{
  exit_answered, upstream_answered, blank_result, probe_proxy, writes_exit, marks_failed,
}
use opencode_rush_free.Probes.Workers.{
  Event, acquires, saves, start_workers, run_events, can_happen,
}
use opencode_rush_free.Probes.Progress.{Stuck, Happens}
use opencode_rush_free.Probes.Accepted.{accepted_jobs_complete}

abbrev proxy : ℕ → ProxyRecord
proxy id = record {
  id = id;
  uri = codes "http://p";
  username = [];
  password = [];
  enabled = true;
  health_status = "healthy";
  failure_count = 0;
  cooldown_until = none;
  expires_at = none;
}

abbrev empty_store : ProbeStore
empty_store = record { jobs = []; results = [] }

abbrev two_proxies : List ProxyRecord
two_proxies = proxy 1 ∷ proxy 2 ∷ []

abbrev request : JobRequest
request = record { ids = 2 ∷ 1 ∷ []; mode = [] }

abbrev saved_store : ProbeStore
saved_store =
    (create_proxy_probe_job 10 true (some (codes "j")) (some (proxy 3 ∷ two_proxies)) (some request)
      empty_store).2

abbrev crossed : List Event
crossed = acquires 1 ∷ acquires 0 ∷ saves 1 true ∷ saves 0 true ∷ []

nothing_below : (i : ℕ) → (ltb i 0 && true) ≡ false
nothing_below i = ground arith

finished :
    Stuck (run_events (codes "j") blank_result crossed (start_workers two_proxies saved_store))
unfolding can_happen run_events
finished (acquires i) = nothing_below i
finished (saves i answers) = ground arith

accepted_jobs_complete_example :
    (end : ProbeJob) × (lookup
        (codes "j")
        (run_events
          (codes "j")
          blank_result
          crossed
          (start_workers two_proxies saved_store)).store.jobs
      ≡ some end)
    × (end.status ≡ job_completed)
    × (end.completed ≡ 2)
    × (length crossed ≡ 2 + 2)
unfolding create_proxy_probe_job bytes_eqb Happens
accepted_jobs_complete_example =
    accepted_jobs_complete 10 true (codes "j") (some (proxy 3 ∷ two_proxies)) (some request)
      empty_store blank_result two_proxies saved_store crossed refl refl
      (refl, (refl, (refl, (refl, tt)))) finished

-- A result that is not saved leaves its job running.
lost_result :
    (snapshot true true 20
      (codes "j")
      (run_events
        (codes "j")
        blank_result
        (acquires 0 ∷ acquires 0 ∷ saves 0 false ∷ saves 0 true ∷ [])
        (start_workers two_proxies saved_store)).store).0
    ≡ some (
      record { status = job_running; total = 2; completed = 1; created_at = 10; expires_at = 910 },
      blank_result (proxy 2) ∷ [],
    )
unfolding snapshot run_events create_proxy_probe_job bytes_eqb
lost_result = refl

exit_fails :
    (probe_proxy
      (λ n. [])
      (codes "both")
      (record {
        exit = exit_answered 502 [];
        exit_latency_ms = 30;
        upstream = upstream_answered 200;
      })
      (proxy 7)).1
    ≡ writes_exit 7 (some 30) [] (codes "exit probe returned HTTP") ∷ marks_failed 7 ∷ []
unfolding probe_proxy
exit_fails = refl
