-- ===== src/Limiter/Tests.antt =====
-- Runs of the limiter on small inputs.
use opencode_rush_free.Base.{List, [], arith, codes, length, none, refl, true, ◌*◌, ◌∷◌, ◌≡◌, ◌≤◌}
use opencode_rush_free.Base.Int.{pos, negsuc}
use opencode_rush_free.Limiter.{
  ClientKey, limited, key_rpm_limit, second, empty_window, allow_window, prune, decide_window,
  admit, skip_requests, skip_tokens, new_client_key_limiter, allow, retry_seconds, record_window,
}
use opencode_rush_free.Limiter.Window.{empty_window-WindowInv}
use opencode_rush_free.Limiter.Refinement.{view, allow_queue, view-allow_window}
use opencode_rush_free.Limiter.Bound.{
  LimiterCall, asks, records, run, step, start, recent, admitted_at_most,
}
use opencode_rush_free.Limiter.Shards.{key_view, allow-view, new_client_key_limiter-LimiterInv}

abbrev two_a_minute : ClientKey
two_a_minute = record {
  id = 70;
  name = codes "ci";
  hint = codes "ocp-abc";
  enabled = true;
  expires_at = none;
  rpm_limit = 2;
  tpm_limit = 0;
  last_used_at = none;
  created_at = 0;
}

abbrev calls : List LimiterCall
calls =
    asks (100 * second) (100 * second)
    ∷ records 9 (101 * second)
    ∷ asks (110 * second) (110 * second)
    ∷ []

third_refused :
    (allow_window two_a_minute
      (120 * second)
      (120 * second)
      (run two_a_minute calls start).window).1
    ≡ limited (pos (40 * second)) key_rpm_limit
unfolding run step allow_window record_window prune decide_window admit skip_requests skip_tokens
third_refused = refl

view-allow_window_example :
    (
      view (allow_window two_a_minute 5 5 empty_window).0,
      (allow_window two_a_minute 5 5 empty_window).1,
    )
    ≡ allow_queue two_a_minute 5 5 (view empty_window)
view-allow_window_example = view-allow_window two_a_minute 5 5 empty_window empty_window-WindowInv

admitted_at_most_example :
    length (
      recent
        (165 * second)
        (step two_a_minute (asks (165 * second) (165 * second)) (run two_a_minute calls start)).log)
    ≤ 2
unfolding run step allow_window record_window prune decide_window admit skip_requests skip_tokens
admitted_at_most_example =
    admitted_at_most two_a_minute calls (165 * second) (165 * second) (omega arith) (omega arith)
      (omega arith) refl

allow-view_example :
    (
      key_view (allow new_client_key_limiter two_a_minute 5 5).0 70,
      (allow new_client_key_limiter two_a_minute 5 5).1,
    )
    ≡ allow_queue two_a_minute 5 5 (key_view new_client_key_limiter 70)
allow-view_example =
    (allow-view new_client_key_limiter two_a_minute 5 5 new_client_key_limiter-LimiterInv refl).0

waits : (retry_seconds (pos 1500000000) ≡ 2) × (retry_seconds (negsuc 3) ≡ 1)
unfolding retry_seconds
waits = (refl, refl)
