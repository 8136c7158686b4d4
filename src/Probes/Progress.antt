-- ===== src/Probes/Progress.antt =====
-- Every probe job comes to its end, cmd/server/proxy_runtime.go.
use opencode_rush_free.Base.{
  Bool, Bytes, List, Option, [], ap, arith, bytes_eq, false, get_elem?, if◌then◌else◌, leb, length,
  length-append, lookup, nat_eq, none, refl, some, string_eq, subst, suc, sym, true, zero, ℕ, ◌&&◌,
  ◌+◌, ◌<◌, ◌∙◌, ◌∷◌, ◌≡◌, ◌≤◌,
}
use opencode_rush_free.Proxy.{ProxyRecord}
use opencode_rush_free.Probes.{
  ProbeStore, ProbeResult, ProbeJob, job_running, job_completed, append_result, count_in,
  count_result, counted,
}
use opencode_rush_free.Probes.Workers.{
  WorkerState, Event, acquires, saves, can_happen, happen, take_semaphore, save_result,
  start_workers, run_events, remove_at,
}

-- Events that happen one after the other, with every result saved.
unfoldable pub Happens : Bytes → (ProxyRecord → ProbeResult) → List Event → WorkerState → Type 0
unfolding can_happen happen
Happens id probe [] s = Unit
Happens id probe (e ∷ es) s = (can_happen e s ≡ true) × Happens id probe es (happen id probe e s)

abbrev pub all_saved : List Event → Bool
all_saved [] = true
all_saved (acquires i ∷ es) = all_saved es
all_saved (saves i answers ∷ es) = answers && all_saved es

-- Nothing more can happen.
abbrev pub Stuck : WorkerState → Type 0
Stuck s = (e : Event) → can_happen e s ≡ false

-- What is left to do.
abbrev pub work_left : WorkerState → ℕ
work_left s = length s.waiting + length s.waiting + length s.probing

module _ {ℓ} {A : Type ℓ} where
  at_index : (i : ℕ) (xs : List A) → i < length xs → (x : A) × (get_elem? xs i ≡ some x)
  at_index i [] l = absurd (omega arith)
  at_index zero (x ∷ xs) l = (x, refl)
  at_index (suc i) (x ∷ xs) l = at_index i xs (omega arith)

  length-remove_at :
      (i : ℕ) (xs : List A) → i < length xs → length xs ≡ suc (length (remove_at i xs))
  length-remove_at i [] l = absurd (omega arith)
  length-remove_at zero (x ∷ xs) l = refl
  length-remove_at (suc i) (x ∷ xs) l = ap suc (length-remove_at i xs (omega arith))

-- The job as it has to stand while there is work: as many results counted as workers have finished.
unfoldable pub JobAt : ℕ → ℕ → Option ProbeJob → Type 0
JobAt total left none = ⊥
JobAt total left (some job) =
    (job.total ≡ total)
    × (job.completed + left ≡ total)
    × (job.status ≡ (if leb 1 left then job_running else job_completed))

lookup-count_in :
    (id : Bytes) (jobs : List (Bytes × ProbeJob)) (job : ProbeJob)
    → lookup id jobs ≡ some job
    → lookup id (count_in id jobs) ≡ some (count_result job)
unfolding lookup count_in
lookup-count_in id [] job e = cc
lookup-count_in id ((j, x) ∷ jobs) job e = ground (arith, lookup-count_in id jobs job)

pick_status :
    (b c : Bool)
    → b ≡ c
    → (if b then job_completed else job_running) ≡ (if c then job_completed else job_running)
pick_status b c e = ap (λ x. if x then job_completed else job_running) e

counted-JobAt :
    (total left : ℕ) (job : ProbeJob)
    → JobAt total (suc left) (some job)
    → JobAt total left (some (counted job_running job))
unfolding JobAt counted
counted-JobAt total left job (t, c, e) = (t, omega arith, ground arith)

count_result-JobAt :
    (total left : ℕ) (job : ProbeJob)
    → JobAt total (suc left) (some job)
    → JobAt total left (some (count_result job))
unfolding JobAt count_result
count_result-JobAt total left job j =
    let running : job.status ≡ job_running = j.2 ∙ (ground arith) in
    subst (λ x. JobAt total left (some (counted x job))) (sym running)
      (counted-JobAt total left job j)

append_result-JobAt :
    (id : Bytes) (r : ProbeResult) (total left : ℕ) (s : ProbeStore)
    → JobAt total (suc left) (lookup id s.jobs)
    → JobAt total left (lookup id (append_result true id r s).jobs)
unfolding append_result JobAt
append_result-JobAt id r total left s j = of_job (lookup id s.jobs) refl j
  where
    of_job :
        (o : Option ProbeJob)
        → lookup id s.jobs ≡ o
        → JobAt total (suc left) o
        → JobAt total left (lookup id (count_in id s.jobs))
    of_job none e k = absurd k
    of_job (some job) e k =
        subst (JobAt total left) (sym (lookup-count_in id s.jobs job e))
          (count_result-JobAt total left job k)

abbrev workers_left : WorkerState → ℕ
workers_left s = length s.waiting + length s.probing

-- An event that can happen keeps the job's count, and leaves one piece of work less.
abbrev Advances : Bytes → ℕ → WorkerState → WorkerState → Type 0
Advances id total s t =
    JobAt total (workers_left t) (lookup id t.store.jobs) × (work_left s ≡ suc (work_left t))

happen-Advances :
    (id : Bytes) (probe : ProxyRecord → ProbeResult) (total : ℕ) (e : Event) (s : WorkerState)
    → all_saved (e ∷ []) ≡ true
    → can_happen e s ≡ true
    → JobAt total (workers_left s) (lookup id s.store.jobs)
    → Advances id total s (happen id probe e s)
unfolding can_happen happen save_result
happen-Advances id probe total (acquires i) s a c j =
    let below : i < length s.waiting = ground arith in
    let (p, e) = at_index i s.waiting below in
    let n = length-remove_at i s.waiting below in
    let m = length-append s.probing (p ∷ []) in
    subst (λ o. Advances id total s (take_semaphore i o s)) (sym e)
      (subst (λ n. JobAt total n (lookup id s.store.jobs)) (omega arith) j, omega arith)
happen-Advances id probe total (saves i false) s a c j = cc
happen-Advances id probe total (saves i true) s a c j =
    let below : i < length s.probing = ground arith in
    let (p, e) = at_index i s.probing below in
    let n = length-remove_at i s.probing below in
    subst (λ o. Advances id total s (save_result id probe i true o s)) (sym e)
      (
        append_result-JobAt id (probe p) total (length s.waiting + length (remove_at i s.probing))
            s.store (subst (λ n. JobAt total n (lookup id s.store.jobs)) (omega arith) j),
        omega arith,
      )

run_events-Advances :
    (id : Bytes) (probe : ProxyRecord → ProbeResult) (total : ℕ) (es : List Event) (s : WorkerState)
    → all_saved es ≡ true
    → Happens id probe es s
    → JobAt total (workers_left s) (lookup id s.store.jobs)
    → JobAt total
        (workers_left (run_events id probe es s))
        (lookup id (run_events id probe es s).store.jobs)
      × (work_left s ≡ length es + work_left (run_events id probe es s))
unfolding run_events Happens
run_events-Advances id probe total [] s a h j = (j, omega arith)
run_events-Advances id probe total (e ∷ es) s a h j =
    let (k, m) = happen-Advances id probe total e s (first_saved e es a) h.0 j in
    let (l, n) =
      run_events-Advances id probe total es (happen id probe e s) (rest_saved e es a) h.1 k in
    (l, omega arith)
  where
    first_saved :
        (e : Event) (es : List Event) → all_saved (e ∷ es) ≡ true → all_saved (e ∷ []) ≡ true
    first_saved (acquires i) es a = refl
    first_saved (saves i answers) es a = ground arith

    rest_saved : (e : Event) (es : List Event) → all_saved (e ∷ es) ≡ true → all_saved es ≡ true
    rest_saved (acquires i) es a = a
    rest_saved (saves i answers) es a = ground arith

-- Where nothing can happen, nothing is left: a waiting worker finds the semaphore free as soon as none is probing.
Stuck-done : (s : WorkerState) → Stuck s → work_left s ≡ 0
unfolding can_happen
Stuck-done s st = let a = st (acquires 0) in let b = st (saves 0 true) in ground arith

ended :
    (o : Option ProbeJob) (total n : ℕ)
    → JobAt total 0 o
    → n ≡ total + total
    → (end : ProbeJob) × (o ≡ some end)
      × (end.status ≡ job_completed)
      × (end.completed ≡ total)
      × (n ≡ total + total)
unfolding JobAt
ended none total n j e = absurd j
ended (some job) total n (t, c, d) e = (job, refl, d, omega arith, e)

-- A saved job, whose total is its number of proxies, comes to its end however its workers are scheduled, if every
-- result is saved: a run that can go no further has completed the job, with all results counted, after exactly
-- two events for each proxy.
pub runs_complete :
    (id : Bytes) (probe : ProxyRecord → ProbeResult) (proxies : List ProxyRecord)
    (store : ProbeStore) (job : ProbeJob) (es : List Event)
    → lookup id store.jobs ≡ some job
    → job.status ≡ job_running
    → job.completed ≡ 0
    → job.total ≡ length proxies
    → 1 ≤ length proxies
    → all_saved es ≡ true
    → Happens id probe es (start_workers proxies store)
    → Stuck (run_events id probe es (start_workers proxies store))
    → (end : ProbeJob) × (lookup id
          (run_events id probe es (start_workers proxies store)).store.jobs
        ≡ some end)
      × (end.status ≡ job_completed)
      × (end.completed ≡ length proxies)
      × (length es ≡ length proxies + length proxies)
unfolding JobAt
runs_complete id probe proxies store job es l r z t p a h st =
    let s = start_workers proxies store in
    let first : JobAt (length proxies) (workers_left s) (lookup id store.jobs) =
      subst (JobAt (length proxies) (workers_left s)) (sym l) (t, omega arith, ground arith) in
    let (k, m) = run_events-Advances id probe (length proxies) es s a h first in
    let done = Stuck-done (run_events id probe es s) st in
    let left = workers_left (run_events id probe es s) in
    let none_left : left ≡ 0 = omega arith in
    ended (lookup id (run_events id probe es s).store.jobs) (length proxies) (length es)
      (subst (λ n. JobAt (length proxies) n (lookup id (run_events id probe es s).store.jobs))
        none_left k)
      (omega arith)
