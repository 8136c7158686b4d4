-- ===== src/Limiter/Shards.antt =====
-- The shards of the limiter, cmd/server/client_keys.go: calls never fail, a key's window is touched
-- by its own calls alone, and the removal of idle windows is not visible.
use opencode_rush_free.Base.{
  ==_self, Bool, Bool-cases, Option, Option-cases, UniqueKeys, UniqueKeys-filter, UniqueKeys-insert,
  [], ap, arith, drop-append, drop_all, eq_of_==, false, if◌then◌else◌, inl, inr, keep_if, leb,
  length, lookup, lookup-filter, lookup-insert, ltb, nat_eq, none, not, refl, some, string_eq,
  subst, suc, sym, true, zero, ℕ, ◌%◌, ◌&&◌, ◌*◌, ◌++◌, ◌+◌, ◌==◌, ◌∙◌, ◌∷◌, ◌≡◌, ◌≢◌, ◌⊎◌,
}
use opencode_rush_free.Base.Int.{ℤ, pos, negsuc}
use opencode_rush_free.Limiter.{
  ClientKey, TokenSample, KeyWindow, LimiterShard, ClientKeyLimiter, allowed, panics, empty_window,
  window_or_new, put_window, put_shard, clean_up, allow_shard, allow, record_tokens, allow_window,
  record_window, is_idle, new_client_key_limiter,
}
use opencode_rush_free.Limiter.Window.{
  WindowInv, live_tokens, allow_window-WindowInv, record_window-WindowInv, empty_window-WindowInv,
}
use opencode_rush_free.Limiter.Refinement.{SlidingWindow, view, allow_queue, view-allow_window}

pub record ShardInv (s : LimiterShard) : Type 0 where
  pub unique : UniqueKeys s.windows
  pub windows_sound : (id : ℕ) (w : KeyWindow) → lookup id s.windows ≡ some w → WindowInv w

abbrev pub LimiterInv : ClientKeyLimiter → Type 0
LimiterInv l = (i : ℕ) → ShardInv (l.shards i)

abbrev pub shard_window : ℕ → LimiterShard → KeyWindow
shard_window id s = window_or_new (lookup id s.windows)

abbrev pub key_view : ClientKeyLimiter → ℕ → SlidingWindow
key_view l id = view (shard_window id (l.shards (id % 64)))

shard_window-WindowInv : (id : ℕ) (s : LimiterShard) → ShardInv s → WindowInv (shard_window id s)
shard_window-WindowInv id s v = elim (Option-cases (lookup id s.windows)) [
  | inl e ↦ rw e empty_window-WindowInv
  | inr (w, e) ↦ rw e (v.windows_sound id w e)
]

put_window-ShardInv :
    (id : ℕ) (w : KeyWindow) (s : LimiterShard)
    → ShardInv s
    → WindowInv w
    → ShardInv (put_window id w s)
unfolding put_window
put_window-ShardInv id w s v h = record {
  unique = UniqueKeys-insert id w s.windows v.unique;
  windows_sound = λ j u e. elim (Bool-cases (id == j)) [
    | inl same ↦ subst WindowInv (ground (arith, lookup-insert id j w s.windows, same)) h
    | inr other ↦ v.windows_sound j u (ground (arith, lookup-insert id j w s.windows, other))
  ];
}

idle_view : (now : ℕ) (w : KeyWindow) → is_idle now w ≡ true → view w ≡ view empty_window
idle_view now w h = cc (
  drop_all w.request_head w.requests (ground arith),
  drop_all w.token_head w.tokens (ground arith),
)

abbrev kept : ℕ → ℕ × KeyWindow → Bool
kept now item = if is_idle now item.1 then false else true

view-keep_if :
    (now j : ℕ) (o : Option KeyWindow)
    → view (window_or_new (keep_if (kept now) j o)) ≡ view (window_or_new o)
view-keep_if now j none = refl
view-keep_if now j (some w) = elim (Bool-cases (is_idle now w)) [
  | inl idle ↦ rw idle (sym (idle_view now w idle))
  | inr busy ↦ rw busy
]

keep_if-some :
    (now j : ℕ) (o : Option KeyWindow) (w : KeyWindow)
    → keep_if (kept now) j o ≡ some w
    → o ≡ some w
keep_if-some now j none w e = cc
keep_if-some now j (some u) w e = ground arith

clean_up-view :
    (now j : ℕ) (s : LimiterShard)
    → ShardInv s
    → view (shard_window j (clean_up now s)) ≡ view (shard_window j s)
unfolding clean_up
clean_up-view now j s v =
    ground (
      arith,
      lookup-filter (kept now) j s.windows v.unique,
      view-keep_if now j (lookup j s.windows),
    )

clean_up-ShardInv : (now : ℕ) (s : LimiterShard) → ShardInv s → ShardInv (clean_up now s)
unfolding clean_up
clean_up-ShardInv now s v =
    elim (Bool-cases (ltb 1024 (length s.windows) && leb (s.last_cleanup + 5 * 60000000000) now)) [
      | inl due ↦ rw due (record {
        unique = UniqueKeys-filter (kept now) s.windows v.unique;
        windows_sound = λ j w e. v.windows_sound j w (
            keep_if-some now j (lookup j s.windows) w
              (sym (lookup-filter (kept now) j s.windows v.unique) ∙ e));
      })
      | inr early ↦ rw early v
    ]

-- What `recordTokens` for the key `id` is to the queues of the key `j`.
pub record_queue : ℕ → ℕ → Option ℤ → ℕ → SlidingWindow → SlidingWindow
record_queue id j (some (pos (suc n))) now v =
    if not (id == 0) && id == j
    then record v { tokens = v.tokens ++ (record { at = now; value = suc n } ∷ []) }
    else v
record_queue id j _ now v = v

record_window-view :
    (total now : ℕ) (w : KeyWindow)
    → WindowInv w
    → view (record_window total now w)
      ≡ record (view w) { tokens = live_tokens w ++ (record { at = now; value = total } ∷ []) }
unfolding record_window
record_window-view total now w v =
    let s : TokenSample = record { at = now; value = total } in
    cc (drop-append w.token_head w.tokens (s ∷ []) v.token_bound)

abbrev appended : ℕ → ℕ → SlidingWindow → SlidingWindow
appended total now v = record v { tokens = v.tokens ++ (record { at = now; value = total } ∷ []) }

-- What `allow_shard` comes to: the window of the key by `allow_window`, then perhaps a clean-up.
abbrev after_call : ClientKey → ℕ → ℕ → LimiterShard → LimiterShard
after_call key now later s =
    put_window key.id (allow_window key now later (shard_window key.id s)).0 s

allow_shard_cases :
    (key : ClientKey) (now later : ℕ) (s : LimiterShard)
    → let d = (allow_window key now later (shard_window key.id s)).1 in
      (allow_shard key now later s ≡ (clean_up now (after_call key now later s), d))
      ⊎ (allow_shard key now later s ≡ (after_call key now later s, d))
unfolding allow_shard
allow_shard_cases key now later s = ground arith

after_call-ShardInv :
    (key : ClientKey) (now later : ℕ) (s : LimiterShard)
    → ShardInv s
    → ShardInv (after_call key now later s)
after_call-ShardInv key now later s v =
    put_window-ShardInv key.id _ s v
      (allow_window-WindowInv key now later _ (shard_window-WindowInv key.id s v)).0

allow_shard-ShardInv :
    (key : ClientKey) (now later : ℕ) (s : LimiterShard)
    → ShardInv s
    → ShardInv (allow_shard key now later s).0
allow_shard-ShardInv key now later s v =
    let after = after_call-ShardInv key now later s v in
    elim (allow_shard_cases key now later s) [
      | inl e ↦ rw e (clean_up-ShardInv now (after_call key now later s) after)
      | inr e ↦ rw e after
    ]

put_window-view :
    (id j : ℕ) (w : KeyWindow) (s : LimiterShard)
    → view (shard_window j (put_window id w s))
      ≡ (if id == j then view w else view (shard_window j s))
unfolding put_window
put_window-view id j w s = ground (arith, lookup-insert id j w s.windows)

allow_shard-view :
    (key : ClientKey) (now later j : ℕ) (s : LimiterShard)
    → ShardInv s
    → view (shard_window j (allow_shard key now later s).0) ≡ (
        if key.id == j
        then view (allow_window key now later (shard_window key.id s)).0
        else view (shard_window j s))
allow_shard-view key now later j s v =
    let after = after_call key now later s in
    let e = put_window-view key.id j (allow_window key now later (shard_window key.id s)).0 s in
    elim (allow_shard_cases key now later s) [
      | inl p ↦ rw p (clean_up-view now j after (after_call-ShardInv key now later s v) ∙ e)
      | inr p ↦ rw p e
    ]

allow_shard_decision :
    (key : ClientKey) (now later : ℕ) (s : LimiterShard)
    → (allow_shard key now later s).1 ≡ (allow_window key now later (shard_window key.id s)).1
allow_shard_decision key now later s = elim (allow_shard_cases key now later s) [
  | inl p ↦ rw p
  | inr p ↦ rw p
]

put_shard-LimiterInv :
    (i : ℕ) (s : LimiterShard) (l : ClientKeyLimiter)
    → LimiterInv l
    → ShardInv s
    → LimiterInv (put_shard i s l)
unfolding put_shard
put_shard-LimiterInv i s l v h j = elim (Bool-cases (i == j)) [
  | inl same ↦ rw same h
  | inr other ↦ rw other (v j)
]

-- Calls of `allow` keep the invariant of all windows.
pub allow-LimiterInv :
    (l : ClientKeyLimiter) (key : ClientKey) (now later : ℕ)
    → LimiterInv l
    → LimiterInv (allow l key now later).0
unfolding allow
allow-LimiterInv l key now later v = elim (Bool-cases (key.rpm_limit == 0 && key.tpm_limit == 0)) [
  | inl off ↦ rw off v
  | inr on ↦ rw on (
      put_shard-LimiterInv (key.id % 64) _ l v
        (allow_shard-ShardInv key now later (l.shards (key.id % 64)) (v (key.id % 64))))
]

-- `recordTokens` keeps the invariant of all windows.
pub record_tokens-LimiterInv :
    (l : ClientKeyLimiter) (id : ℕ) (usage : Option ℤ) (now : ℕ)
    → LimiterInv l
    → LimiterInv (record_tokens l id usage now)
unfolding record_tokens
record_tokens-LimiterInv l id none now v = v
record_tokens-LimiterInv l id (some (negsuc n)) now v = v
record_tokens-LimiterInv l id (some (pos zero)) now v = v
record_tokens-LimiterInv l id (some (pos (suc n))) now v = elim (Bool-cases (id == 0)) [
  | inl off ↦ rw off v
  | inr on ↦
      let s = l.shards (id % 64) in
      rw on (
        put_shard-LimiterInv (id % 64) _ l v (
          put_window-ShardInv id _ s (v (id % 64))
            (record_window-WindowInv (suc n) now _ (shard_window-WindowInv id s (v (id % 64))))))
]

-- The limiter starts with the invariant.
pub new_client_key_limiter-LimiterInv : LimiterInv new_client_key_limiter
unfolding new_client_key_limiter lookup
new_client_key_limiter-LimiterInv i = record { unique = tt; windows_sound = λ id w e. absurd (cc) }

allow_unlimited :
    (l : ClientKeyLimiter) (key : ClientKey) (now later : ℕ)
    → (key.rpm_limit == 0 && key.tpm_limit == 0) ≡ true
    → allow l key now later ≡ (l, allowed)
unfolding allow
allow_unlimited l key now later h = rw h

allow_on-view :
    (l : ClientKeyLimiter) (key : ClientKey) (now later j : ℕ)
    → LimiterInv l
    → let i = key.id % 64 in
      key_view (put_shard i (allow_shard key now later (l.shards i)).0 l) j ≡ (
        if key.id == j
        then view (allow_window key now later (shard_window key.id (l.shards i))).0
        else key_view l j)
unfolding put_shard
allow_on-view l key now later j v =
    let i = key.id % 64 in
    let s = l.shards i in
    let here = allow_shard-view key now later j s (v i) in
    elim (Bool-cases (i == j % 64)) [
      | inl same ↦ rw same (
          subst
            (λ n. view (shard_window j (allow_shard key now later s).0) ≡ (
              if key.id == j
              then view (allow_window key now later (shard_window key.id s)).0
              else view (shard_window j (l.shards n))))
            (eq_of_== i (j % 64) same) here)
      | inr other ↦ let ne : (key.id == j) ≡ false = ground arith in rw (other, ne)
    ]

-- A call of `allow` for a key with a limit does on the queues of that key what the specification
-- does, gives its decision, and leaves the queues of every other key as they were; it does not panic.
pub allow-view :
    (l : ClientKeyLimiter) (key : ClientKey) (now later : ℕ)
    → LimiterInv l
    → (key.rpm_limit == 0 && key.tpm_limit == 0) ≡ false
    → ((key_view (allow l key now later).0 key.id, (allow l key now later).1)
        ≡ allow_queue key now later (key_view l key.id))
      × ((j : ℕ) → key.id ≢ j → key_view (allow l key now later).0 j ≡ key_view l j)
      × ((allow l key now later).1 ≢ panics)
unfolding allow
allow-view l key now later v on =
    let s = l.shards (key.id % 64) in
    let w = shard_window key.id s in
    let sound = shard_window-WindowInv key.id s (v (key.id % 64)) in
    let d = allow_shard_decision key now later s in
    rw on (
      ground (
        arith,
        allow_on-view l key now later key.id v,
        ==_self key.id,
        view-allow_window key now later w sound,
        d,
      ),
      λ j ne. ground (arith, allow_on-view l key now later j v),
      rw d (allow_window-WindowInv key now later w sound).1,
    )

record_on-view :
    (l : ClientKeyLimiter) (id j : ℕ) (w : KeyWindow)
    → key_view (put_shard (id % 64) (put_window id w (l.shards (id % 64))) l) j
      ≡ (if id == j then view w else key_view l j)
unfolding put_shard
record_on-view l id j w =
    let i = id % 64 in
    elim (Bool-cases (i == j % 64)) [
      | inl same ↦ rw same (
          subst
            (λ n.
              view (shard_window j (put_window id w (l.shards i)))
              ≡ (if id == j then view w else view (shard_window j (l.shards n))))
            (eq_of_== i (j % 64) same) (put_window-view id j w (l.shards i)))
      | inr other ↦ let ne : (id == j) ≡ false = ground arith in rw (other, ne)
    ]

-- `recordTokens` appends a positive total to the tokens of its key and changes nothing else; a total
-- that is absent, zero or negative, or of the key 0, changes nothing at all.
pub record_tokens-view :
    (l : ClientKeyLimiter) (id j : ℕ) (usage : Option ℤ) (now : ℕ)
    → LimiterInv l
    → key_view (record_tokens l id usage now) j ≡ record_queue id j usage now (key_view l j)
unfolding record_tokens record_queue
record_tokens-view l id j none now v = refl
record_tokens-view l id j (some (negsuc n)) now v = refl
record_tokens-view l id j (some (pos zero)) now v = refl
record_tokens-view l id j (some (pos (suc n))) now v = elim (Bool-cases (id == 0)) [
  | inl off ↦ rw off (ground arith)
  | inr on ↦
      let w = shard_window id (l.shards (id % 64)) in
      rw on (
        record_on-view l id j (record_window (suc n) now w) ∙ elim (Bool-cases (id == j)) [
          | inl same ↦ rw same (
              record_window-view (suc n) now w
                (shard_window-WindowInv id (l.shards (id % 64)) (v (id % 64)))
              ∙ ap (appended (suc n) now) (ap (key_view l) (eq_of_== id j same)))
          | inr other ↦ rw other
        ])
]
