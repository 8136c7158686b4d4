-- ===== src/Limiter/Window.antt =====
-- One key's window, cmd/server/client_keys.go: what the loops of `allow` do to the two slices, and
-- the invariant under which no index is out of range.
use opencode_rush_free.Base.{
  Bool, Bool-cases, List, [], ap, arith, drop, drop-append, drop_all, drop_next, get_elem?,
  get_elem?-lt, if◌then◌else◌, inl, inr, leb, length, length-append, ltb, refl, some, suc, sym,
  true, ℕ, ◌&&◌, ◌++◌, ◌-◌, ◌<◌, ◌∙◌, ◌∷◌, ◌≡◌, ◌≢◌, ◌≤◌,
}
use opencode_rush_free.Limiter.{
  ClientKey, TokenSample, KeyWindow, panics, word, add64, sub64, is_old, skip_requests, skip_tokens,
  prune, decide_window, admit, allow_window, record_window, empty_window, reaches64,
}

-- The suffix of a list behind its leading elements that pass a test.
abbrev pub drop_while {ℓ} : {A : Type ℓ} → (A → Bool) → List A → List A
drop_while p [] = []
drop_while p (x ∷ xs) = let rest = drop_while p xs in if p x then rest else x ∷ xs

abbrev pub live_requests : KeyWindow → List ℕ
live_requests w = drop w.request_head w.requests

abbrev pub live_tokens : KeyWindow → List TokenSample
live_tokens w = drop w.token_head w.tokens

-- The sum of the values, as an int64.
abbrev pub token_sum : List TokenSample → ℕ
token_sum [] = 0
token_sum (s ∷ rest) = add64 (token_sum rest) s.value

pub record WindowInv (w : KeyWindow) : Type 0 where
  pub request_bound : w.request_head ≤ length w.requests
  pub token_bound : w.token_head ≤ length w.tokens
  pub total_exact : w.token_total ≡ token_sum (live_tokens w)

pub skip_requests-drop :
    (now : ℕ) (xs : List ℕ) (head : ℕ) (rest : List ℕ)
    → drop head xs ≡ rest
    → head ≤ length xs
    → (drop (skip_requests now rest head) xs ≡ drop_while (is_old now) rest)
      × (skip_requests now rest head ≤ length xs)
unfolding skip_requests
skip_requests-drop now xs head [] e h = (e, h)
skip_requests-drop now xs head (t ∷ rest) e h =
    let (e', h') = drop_next head xs rest t e in
    elim (Bool-cases (is_old now t)) [
      | inl old ↦ rw old (skip_requests-drop now xs (suc head) rest e' h')
      | inr new ↦ rw new (e, h)
    ]

token_sum-bound : (xs : List TokenSample) → token_sum xs < word
token_sum-bound [] = omega arith
token_sum-bound (s ∷ rest) = omega arith

sub64-add64 : (a b : ℕ) → a < word → sub64 (add64 a b) b ≡ a
sub64-add64 a b h = omega arith

pub skip_tokens-drop :
    (now : ℕ) (xs : List TokenSample) (head total : ℕ) (rest : List TokenSample)
    → drop head xs ≡ rest
    → head ≤ length xs
    → total ≡ token_sum rest
    → let (head', total') = skip_tokens now rest head total in
      (drop head' xs ≡ drop_while (λ s. is_old now s.at) rest)
      × (head' ≤ length xs)
      × (total' ≡ token_sum (drop_while (λ s. is_old now s.at) rest))
unfolding skip_tokens
skip_tokens-drop now xs head total [] e h t = (e, h, t)
skip_tokens-drop now xs head total (s ∷ rest) e h t =
    let (e', h') = drop_next head xs rest s e in
    elim (Bool-cases (is_old now s.at)) [
      | inl old ↦ rw old (
          skip_tokens-drop now xs (suc head) (sub64 total s.value) rest e' h' (
            ap (λ n. sub64 n s.value) t
            ∙ sub64-add64 (token_sum rest) s.value (token_sum-bound rest)))
      | inr new ↦ rw new (e, h, t)
    ]

-- What the two loops leave: the slices without their expired front, and the total of the rest.
pub prune_lem :
    (now : ℕ) (w : KeyWindow)
    → WindowInv w
    → WindowInv (prune now w)
      × (live_requests (prune now w) ≡ drop_while (is_old now) (live_requests w))
      × (live_tokens (prune now w) ≡ drop_while (λ s. is_old now s.at) (live_tokens w))
unfolding prune
prune_lem now w v =
    let (r, rb) =
      skip_requests-drop now w.requests w.request_head (live_requests w) refl v.request_bound in
    let (t, tb, total) =
      skip_tokens-drop now w.tokens w.token_head w.token_total (live_tokens w) refl v.token_bound
        v.total_exact in
    (
      record { request_bound = rb; token_bound = tb; total_exact = total ∙ sym (ap token_sum t) },
      r,
      t,
    )

pub admit-WindowInv : (now : ℕ) (w : KeyWindow) → WindowInv w → WindowInv (admit now w)
unfolding admit
admit-WindowInv now w v = record {
  request_bound = ground (arith, length-append w.requests (now ∷ []), v.request_bound);
  token_bound = ground (arith, v.token_bound);
  total_exact = ground (arith, v.total_exact);
}

pub admit_live :
    (now : ℕ) (w : KeyWindow)
    → WindowInv w
    → (live_requests (admit now w) ≡ live_requests w ++ (now ∷ []))
      × (live_tokens (admit now w) ≡ live_tokens w)
unfolding admit
admit_live now w v = ground (arith, drop-append w.request_head w.requests (now ∷ []))

token_sum-append :
    (xs : List TokenSample) (s : TokenSample)
    → token_sum (xs ++ (s ∷ [])) ≡ add64 (token_sum xs) s.value
token_sum-append [] s = refl
token_sum-append (x ∷ xs) s = omega (arith, token_sum-append xs s)

-- Recording a positive token count keeps the invariant and appends one sample.
pub record_window-WindowInv :
    (total now : ℕ) (w : KeyWindow) → WindowInv w → WindowInv (record_window total now w)
unfolding record_window
record_window-WindowInv total now w v =
    let s : TokenSample = record { at = now; value = total } in
    record {
      request_bound = v.request_bound;
      token_bound = omega (arith, length-append w.tokens (s ∷ []), v.token_bound);
      total_exact =
          ap (λ n. add64 n total) v.total_exact
          ∙ sym (token_sum-append (live_tokens w) s)
          ∙ sym (ap token_sum (drop-append w.token_head w.tokens (s ∷ []) v.token_bound));
    }

pub empty_window-WindowInv : WindowInv empty_window
empty_window-WindowInv = omega arith

tokens_remain :
    (w : KeyWindow) (limit : ℕ)
    → WindowInv w
    → 0 < limit
    → reaches64 w.token_total limit ≡ true
    → (s : TokenSample) × (get_elem? w.tokens w.token_head ≡ some s)
tokens_remain w limit v h r = elim (Bool-cases (leb (length w.tokens) w.token_head)) [
  | inl out ↦ absurd (ground (arith, drop_all w.token_head w.tokens, v.total_exact))
  | inr inside ↦ get_elem?-lt w.token_head w.tokens (ground arith)
]

-- With the invariant the head of each slice is in range where `allow` reads it.
pub decide_window-ne-panics :
    (key : ClientKey) (later : ℕ) (w : KeyWindow) → WindowInv w → decide_window key later w ≢ panics
unfolding decide_window
decide_window-ne-panics key later w v =
    elim (Bool-cases
      (ltb 0 key.rpm_limit && leb key.rpm_limit (length w.requests - w.request_head))) [
        | inl full ↦
            let (t, e) = get_elem?-lt w.request_head w.requests (ground (arith, full)) in
            rw (full, e) (λ q. cc)
        | inr room ↦
            elim (Bool-cases (ltb 0 key.tpm_limit && reaches64 w.token_total key.tpm_limit)) [
              | inl spent ↦
                  let (s, e) =
                    tokens_remain w key.tpm_limit v (ground (arith, spent))
                      (ground (arith, spent)) in
                  rw (room, spent, e) (λ q. cc)
              | inr left ↦ rw (room, left) (λ q. cc)
            ]
      ]

-- `allow` keeps the invariant on every outcome, and no outcome is an index out of range.
pub allow_window-WindowInv :
    (key : ClientKey) (now later : ℕ) (w : KeyWindow)
    → WindowInv w
    → WindowInv (allow_window key now later w).0 × ((allow_window key now later w).1 ≢ panics)
unfolding allow_window
allow_window-WindowInv key now later w v =
    let p = (prune_lem now w v).0 in
    ground (
      arith,
      p,
      admit-WindowInv now (prune now w) p,
      decide_window-ne-panics key later (prune now w) p,
    )
