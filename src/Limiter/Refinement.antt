-- ===== src/Limiter/Refinement.antt =====
-- What the two slices with their head indices stand for, cmd/server/client_keys.go: a window is a
-- pair of plain queues, and `allow` works on those. The compaction of a slice is not visible.
use opencode_rush_free.Base.{
  List, [], ap, arith, get_elem?, get_elem?-drop, if◌then◌else◌, leb, length, length-drop, ltb, ℕ,
  ◌&&◌, ◌++◌, ◌∙◌, ◌∷◌, ◌≡◌,
}
use opencode_rush_free.Limiter.{
  ClientKey, TokenSample, KeyWindow, Decision, allowed, limited, panics, key_rpm_limit,
  key_tpm_limit, is_old, prune, decide_window, allow_window, reaches64, until_minute_after,
  sample_time,
}
use opencode_rush_free.Limiter.Window.{
  drop_while, live_requests, live_tokens, token_sum, WindowInv, prune_lem, admit_live,
}

pub record SlidingWindow : Type 0 where
  pub requests : List ℕ
  pub tokens : List TokenSample

abbrev pub view : KeyWindow → SlidingWindow
view w = record { requests = live_requests w; tokens = live_tokens w }

abbrev pub expire : ℕ → SlidingWindow → SlidingWindow
expire now v = record {
  requests = drop_while (is_old now) v.requests;
  tokens = drop_while (λ s. is_old now s.at) v.tokens;
}

-- The specification: a request is refused while the queue holds as many as the limit, or while the
-- tokens in the queue reach theirs; otherwise its time is appended.
pub decide_queue : ClientKey → ℕ → SlidingWindow → Decision
decide_queue key later v =
    if ltb 0 key.rpm_limit && leb key.rpm_limit (length v.requests)
    then until_minute_after later (get_elem? v.requests 0) key_rpm_limit
    else if ltb 0 key.tpm_limit && reaches64 (token_sum v.tokens) key.tpm_limit
    then until_minute_after later (sample_time (get_elem? v.tokens 0)) key_tpm_limit
    else allowed

pub allow_queue : ClientKey → ℕ → ℕ → SlidingWindow → SlidingWindow × Decision
allow_queue key now later v =
    let v' = expire now v in
    elim (decide_queue key later v') [
      | allowed ↦ (record v' { requests = v'.requests ++ (now ∷ []) }, allowed)
      | limited wait code ↦ (v', limited wait code)
      | panics ↦ (v', panics)
    ]

decide_window-view :
    (key : ClientKey) (later : ℕ) (w : KeyWindow)
    → WindowInv w
    → decide_window key later w ≡ decide_queue key later (view w)
unfolding decide_window decide_queue
decide_window-view key later w v = rw (
  length-drop w.request_head w.requests,
  ← get_elem?-drop w.request_head w.requests,
  ← get_elem?-drop w.token_head w.tokens,
  ← v.total_exact,
)

view-prune : (now : ℕ) (w : KeyWindow) → WindowInv w → view (prune now w) ≡ expire now (view w)
view-prune now w v = let (p, r, t) = prune_lem now w v in cc (r, t)

-- `allow` on a window and `allow` on its queues give the same decision, and the same queues after.
pub view-allow_window :
    (key : ClientKey) (now later : ℕ) (w : KeyWindow)
    → WindowInv w
    → (view (allow_window key now later w).0, (allow_window key now later w).1)
      ≡ allow_queue key now later (view w)
unfolding allow_window allow_queue
view-allow_window key now later w v =
    let p = (prune_lem now w v).0 in
    let (r, t) = admit_live now (prune now w) p in
    let q = view-prune now w v in
    let d = decide_window-view key later (prune now w) p ∙ ap (decide_queue key later) q in
    ground (arith, r, t, q, d)
