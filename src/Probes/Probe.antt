-- ===== src/Probes/Probe.antt =====
-- One probe of a proxy, cmd/server/proxy_runtime.go. What the network answers is a value; a response comes with no
-- error, as `Client.Do` documents for requests whose redirects are not refused.
use opencode_rush_free.Base.{
  Bool, Bytes, List, Option, [], bytes_eq, codes, false, if◌then◌else◌, leb, ltb, nat_eq, none, not,
  some, string_eq, true, ℕ, ◌&&◌, ◌++◌, ◌==◌, ◌||◌, ◌∷◌,
}
use opencode_rush_free.Proxy.{ProxyRecord}
use opencode_rush_free.Reports.{truncate_error}
use opencode_rush_free.Probes.{ProbeResult}

-- The exit service: an error before any response, or a response with its status and the IP in its body.
pub data ExitAnswer : Type 0 where
  exit_failed : Bytes → ExitAnswer
  exit_answered : ℕ → Bytes → ExitAnswer

-- The upstream: not configured or not readable, an error, or a response's status.
pub data UpstreamAnswer : Type 0 where
  not_configured : UpstreamAnswer
  upstream_failed : Bytes → UpstreamAnswer
  upstream_answered : ℕ → UpstreamAnswer

pub record ProbeEnv : Type 0 where
  pub exit : ExitAnswer
  pub exit_latency_ms : ℕ
  pub upstream : UpstreamAnswer

abbrev pub blank_result : ProxyRecord → ProbeResult
blank_result p = record {
  proxy_id = p.id;
  uri = p.uri;
  exit_ok = false;
  exit_ip = [];
  exit_latency_ms = 0;
  upstream_status = [];
  error = [];
}

abbrev pub is_2xx : ℕ → Bool
is_2xx status = leb 200 status && ltb status 300

abbrev pub failed_exit : ℕ → Bytes → ProbeResult → ProbeResult
failed_exit latency message r = record r { exit_latency_ms = latency; error = message }

-- The exit's part; `itoa` writes a number.
unfoldable pub probe_exit : (ℕ → Bytes) → ProbeEnv → ProbeResult → ProbeResult
unfolding truncate_error
probe_exit itoa env r = elim env.exit [
  | exit_failed message ↦ failed_exit env.exit_latency_ms (truncate_error message) r
  | exit_answered status ip ↦
      if is_2xx status
      then record r { exit_latency_ms = env.exit_latency_ms; exit_ok = true; exit_ip = ip }
      else failed_exit env.exit_latency_ms
          (truncate_error (codes "exit probe returned HTTP " ++ itoa status)) r
]

unfoldable pub probe_upstream : (ℕ → Bytes) → ProbeEnv → ProbeResult → ProbeResult
unfolding truncate_error
probe_upstream itoa env r = elim env.upstream [
  | not_configured ↦ record r { upstream_status = codes "not_configured" }
  | upstream_failed message ↦
      if r.error == []
      then record r { error = truncate_error message; upstream_status = codes "unreachable" }
      else r
  | upstream_answered status ↦ record r { upstream_status = itoa status }
]

-- What a probe writes to the proxy's row, and what it does to the proxy's health.
pub data ProbeEffect : Type 0 where
  writes_exit : ℕ → Option ℕ → Bytes → Bytes → ProbeEffect
  writes_upstream : ℕ → Bytes → ProbeEffect
  marks_failed marks_healthy : ℕ → ProbeEffect

abbrev pub latency_of : ProbeResult → Option ℕ
latency_of r = if r.exit_latency_ms == 0 then none else some r.exit_latency_ms

-- `persistProbeResult`, by the parts that were probed.
unfoldable pub persist_probe_result : Bool → Bool → ProbeResult → List ProbeEffect
persist_probe_result exit_probed upstream_probed r =
    let exit_row =
      if exit_probed
      then writes_exit r.proxy_id (latency_of r) r.exit_ip (if r.exit_ok then [] else r.error) ∷ []
      else [] in
    let upstream_row =
      if upstream_probed then writes_upstream r.proxy_id r.upstream_status ∷ [] else [] in
    let health =
      if exit_probed
      then (if r.exit_ok then marks_healthy r.proxy_id else marks_failed r.proxy_id) ∷ []
      else [] in
    exit_row ++ (upstream_row ++ health)

abbrev pub probes_exit : Bytes → Bool
probes_exit mode = mode == codes "exit" || mode == codes "both"

abbrev pub probes_upstream : Bytes → Bool
probes_upstream mode = mode == codes "upstream" || mode == codes "both"

-- A probe whose exit fails ends there.
unfoldable pub probe_proxy :
    (ℕ → Bytes) → Bytes → ProbeEnv → ProxyRecord → ProbeResult × List ProbeEffect
unfolding probe_exit probe_upstream persist_probe_result
probe_proxy itoa mode env p =
    let exit_probed = probes_exit mode in
    let upstream_probed = probes_upstream mode in
    let r = if exit_probed then probe_exit itoa env (blank_result p) else blank_result p in
    let u = if upstream_probed then probe_upstream itoa env r else r in
    if exit_probed && not r.exit_ok
    then (r, persist_probe_result true false r)
    else (u, persist_probe_result exit_probed upstream_probed u)
