-- ===== src/Probes/Workers.antt =====
-- The workers of one probe job, cmd/server/proxy_runtime.go: a goroutine for each proxy, ten of which hold the
-- semaphore at a time. An event is one of them taking the semaphore, or saving its result and giving it back.
use opencode_rush_free.Base.{
  Bool, Bytes, List, Option, [], get_elem?, length, ltb, none, some, suc, zero, ℕ, ◌&&◌, ◌++◌, ◌∷◌,
}
use opencode_rush_free.Proxy.{ProxyRecord}
use opencode_rush_free.Probes.{ProbeStore, ProbeResult, append_result}

abbrev pub worker_limit : ℕ
worker_limit = 10

pub record WorkerState : Type 0 where
  pub waiting : List ProxyRecord
  pub probing : List ProxyRecord
  pub store : ProbeStore

-- The goroutine by its place among those waiting or probing; a saved result says whether the database answers.
pub data Event : Type 0 where
  acquires : ℕ → Event
  saves : ℕ → Bool → Event

-- `a[:i] + a[i+1:]`.
abbrev pub remove_at {ℓ} : {A : Type ℓ} → ℕ → List A → List A
remove_at i [] = []
remove_at zero (x ∷ xs) = xs
remove_at (suc i) (x ∷ xs) = x ∷ remove_at i xs

unfoldable pub can_happen : Event → WorkerState → Bool
can_happen (acquires i) s = ltb i (length s.waiting) && ltb (length s.probing) worker_limit
can_happen (saves i answers) s = ltb i (length s.probing)

abbrev pub take_semaphore : ℕ → Option ProxyRecord → WorkerState → WorkerState
take_semaphore i none s = s
take_semaphore i (some p) s = record s {
  waiting = remove_at i s.waiting;
  probing = s.probing ++ (p ∷ []);
}

unfoldable pub save_result :
    Bytes → (ProxyRecord → ProbeResult) → ℕ → Bool → Option ProxyRecord → WorkerState → WorkerState
unfolding append_result
save_result id probe i answers none s = s
save_result id probe i answers (some p) s = record s {
  probing = remove_at i s.probing;
  store = append_result answers id (probe p) s.store;
}

unfoldable pub happen : Bytes → (ProxyRecord → ProbeResult) → Event → WorkerState → WorkerState
unfolding save_result
happen id probe (acquires i) s = take_semaphore i (get_elem? s.waiting i) s
happen id probe (saves i answers) s = save_result id probe i answers (get_elem? s.probing i) s

-- `runProbeJob` at its start, behind the request that saved the job.
abbrev pub start_workers : List ProxyRecord → ProbeStore → WorkerState
start_workers proxies store = record { waiting = proxies; probing = []; store = store }

unfoldable pub run_events :
    Bytes → (ProxyRecord → ProbeResult) → List Event → WorkerState → WorkerState
unfolding happen
run_events id probe [] s = s
run_events id probe (e ∷ es) s = run_events id probe es (happen id probe e s)
