-- ===== src/Probes.antt =====
-- The jobs that probe proxies, cmd/server/proxy_runtime.go: their store, the request for a job, and the
-- workers. What the database answers is a flag. Times are seconds, where the database's are texts.
use opencode_rush_free.Base.{
  Bool, Bytes, List, Option, [], any, bytes_eq, codes, false, filter, if◌then◌else◌, insert, leb,
  length, lookup, ltb, map, nat_eq, none, not, some, string_eq, true, ℕ, ◌&&◌, ◌++◌, ◌+◌, ◌==◌,
  ◌||◌, ◌∷◌,
}
use opencode_rush_free.Proxy.{ProxyRecord}
pub mod Probe
pub mod Workers
pub mod Progress
pub mod Accepted
mod Tests

pub data JobStatus : Type 0 where
  job_running job_completed job_interrupted : JobStatus

pub record ProbeResult : Type 0 where
  pub proxy_id : ℕ
  pub uri : Bytes
  pub exit_ok : Bool
  pub exit_ip : Bytes
  pub exit_latency_ms : ℕ
  pub upstream_status : Bytes
  pub error : Bytes

pub record ProbeJob : Type 0 where
  pub status : JobStatus
  pub total : ℕ
  pub completed : ℕ
  pub created_at : ℕ
  pub expires_at : ℕ

pub record ProbeStore : Type 0 where
  pub jobs : List (Bytes × ProbeJob)
  pub results : List (Bytes × ProbeResult)

abbrev pub is_none : Option ProbeJob → Bool
is_none none = true
is_none (some job) = false

-- `add`; the id is the primary key. `false` is an error.
unfoldable pub add_job : Bool → Bytes → ProbeJob → ProbeStore → Bool × ProbeStore
unfolding lookup insert
add_job answers id job s =
    if answers && is_none (lookup id s.jobs)
    then (true, record s { jobs = insert id job s.jobs })
    else (false, s)

-- The job behind one more result; only a running job counts.
unfoldable pub counted : JobStatus → ProbeJob → ProbeJob
counted job_running job = record job {
  completed = job.completed + 1;
  status = if leb job.total (job.completed + 1) then job_completed else job_running;
}
counted job_completed job = job
counted job_interrupted job = job

unfoldable pub count_result : ProbeJob → ProbeJob
unfolding counted
count_result job = counted job.status job

unfoldable pub count_in : Bytes → List (Bytes × ProbeJob) → List (Bytes × ProbeJob)
unfolding count_result
count_in id [] = []
count_in id ((j, job) ∷ jobs) =
    let rest = count_in id jobs in if j == id then (j, count_result job) ∷ rest else (j, job) ∷ rest

abbrev pub replaces : Bytes → ProbeResult → Bytes × ProbeResult → Bool
replaces id result r = r.0 == id && r.1.proxy_id == result.proxy_id

-- `appendResult`, one transaction: all of it or nothing.
unfoldable pub append_result : Bool → Bytes → ProbeResult → ProbeStore → ProbeStore
unfolding count_in
append_result answers id result s =
    if answers
    then record {
      jobs = count_in id s.jobs;
      results = filter (λ r. not (replaces id result r)) s.results ++ ((id, result) ∷ []);
    }
    else s

-- `ORDER BY proxy_id`.
unfoldable pub place_result : ProbeResult → List ProbeResult → List ProbeResult
place_result r [] = r ∷ []
place_result r (x ∷ xs) =
    let rest = place_result r xs in if ltb x.proxy_id r.proxy_id then x ∷ rest else r ∷ (x ∷ xs)

unfoldable pub results_of : Bytes → List (Bytes × ProbeResult) → List ProbeResult
unfolding place_result
results_of id [] = []
results_of id ((j, r) ∷ rest) =
    let later = results_of id rest in if j == id then place_result r later else later

abbrev pub with_results : List ProbeResult → Option ProbeJob → Option (ProbeJob × List ProbeResult)
with_results rs none = none
with_results rs (some job) = some (job, rs)

-- `snapshot`: the expired jobs go first, if the database deletes them.
unfoldable pub snapshot :
    Bool → Bool → ℕ → Bytes → ProbeStore → Option (ProbeJob × List ProbeResult) × ProbeStore
unfolding results_of lookup
snapshot deletes reads now id s =
    let left = filter (λ (r : Bytes × ProbeJob). ltb now r.1.expires_at) s.jobs in
    let t = if deletes then record s { jobs = left } else s in
    (if reads then with_results (results_of id t.results) (lookup id t.jobs) else none, t)

-- `UPDATE proxy_probe_jobs SET status='interrupted' WHERE status='running'`, at the start of the server.
unfoldable pub interrupt_jobs : ProbeStore → ProbeStore
interrupt_jobs s = record s {
  jobs =
      map
        (λ (r : Bytes × ProbeJob). elim r.1.status [
          | job_running ↦ (r.0, record r.1 { status = job_interrupted })
          | job_completed ↦ r
          | job_interrupted ↦ r
        ])
        s.jobs;
}

abbrev pub has_id : List ℕ → ProxyRecord → Bool
has_id ids p = any (λ id. p.id == id) ids

-- `proxiesForProbe`: all proxies if no ids are given.
unfoldable pub proxies_for_probe : List ℕ → Option (List ProxyRecord) → Option (List ProxyRecord)
proxies_for_probe ids none = none
proxies_for_probe [] (some all) = some all
proxies_for_probe (id ∷ ids) (some all) = some (filter (has_id (id ∷ ids)) all)

pub record JobRequest : Type 0 where
  pub ids : List ℕ
  pub mode : Bytes

abbrev pub probe_mode : Bytes → Bytes
probe_mode mode = if mode == [] then codes "both" else mode

abbrev pub known_mode : Bytes → Bool
known_mode mode = mode == codes "exit" || mode == codes "upstream" || mode == codes "both"

-- The status of the answer and, with 202, the proxies that the workers get.
unfoldable pub saved_job : List ProxyRecord → Bool × ProbeStore → ℕ × List ProxyRecord × ProbeStore
saved_job proxies (true, s) = (202, proxies, s)
saved_job proxies (false, s) = (500, [], s)

unfoldable pub start_job :
    ℕ
    → Bool
    → Option Bytes
    → Option (List ProxyRecord)
    → ProbeStore
    → ℕ × List ProxyRecord × ProbeStore
unfolding saved_job add_job
start_job now answers id none s = (500, [], s)
start_job now answers id (some []) s = (400, [], s)
start_job now answers none (some (p ∷ ps)) s = (500, [], s)
start_job now answers (some id) (some (p ∷ ps)) s =
    let job : ProbeJob = record {
      status = job_running;
      total = length (p ∷ ps);
      completed = 0;
      created_at = now;
      expires_at = now + 900;
    } in
    saved_job (p ∷ ps) (add_job answers id job s)

unfoldable pub create_proxy_probe_job :
    ℕ
    → Bool
    → Option Bytes
    → Option (List ProxyRecord)
    → Option JobRequest
    → ProbeStore
    → ℕ × List ProxyRecord × ProbeStore
unfolding start_job proxies_for_probe
create_proxy_probe_job now answers id stored none s = (400, [], s)
create_proxy_probe_job now answers id stored (some request) s =
    if not (known_mode (probe_mode request.mode))
    then (400, [], s)
    else if ltb 1000 (length request.ids)
    then (400, [], s)
    else start_job now answers id (proxies_for_probe request.ids stored) s
