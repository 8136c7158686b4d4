-- ===== src/Scores.antt =====
-- The scores of Resin accounts, `resinScoreStore` of cmd/server/resin.go. Go's zero time is `none`; other
-- times are nanoseconds. A map is walked in the order of its list; the second walk of `pick` has an order
-- of its own, which is an argument.
use opencode_rush_free.Base.{
  Bool, Bytes, List, Option, [], any, bytes_eq, bytes_eqb, codes, contains, delete, false,
  if◌then◌else◌, insert, leb, length, lookup, ltb, map, nat_eq, none, some, string_eq, suc,
  to_lower, true, ℕ, ◌%◌, ◌&&◌, ◌*◌, ◌+◌, ◌-◌, ◌/◌, ◌==◌, ◌||◌, ◌∷◌,
}
use opencode_rush_free.Base.Int.{ℤ, pos, negsuc, ◌+ℤ◌, ◌-ℤ◌}
use opencode_rush_free.Proxy.{GoError}
use opencode_rush_free.Limiter.{word}
use opencode_rush_free.Pool.{minute}
pub mod Ranges
pub mod Choice
mod Tests

pub record ResinScore : Type 0 where
  pub value : ℤ
  pub updated : Option ℕ

pub record ScoreStore : Type 0 where
  pub entries : List (Bytes × ResinScore)
  pub cursor : ℕ

-- `max(0, value-steps)` above zero and `min(0, value+steps)` else.
unfoldable pub decay_value : ℤ → ℕ → ℤ
decay_value (pos n) steps = pos (n - steps)
decay_value (negsuc n) steps = if leb (suc n) steps then pos 0 else negsuc (n - steps)

-- The whole periods of five minutes since `t`; none if `t` lies ahead.
abbrev pub decay_steps : ℕ → ℕ → ℕ
decay_steps now t = (now - t) / (5 * minute)

abbrev pub decay_since : ResinScore → ℕ → Option ℕ → ResinScore
decay_since entry now none = entry
decay_since entry now (some t) =
    let steps = decay_steps now t in
    if steps == 0
    then entry
    else record { value = decay_value entry.value steps; updated = some (t + steps * (5 * minute)) }

unfoldable pub decay_resin_score : ResinScore → ℕ → ResinScore
decay_resin_score entry now = decay_since entry now entry.updated

abbrev pub decay_all : ℕ → List (Bytes × ResinScore) → List (Bytes × ResinScore)
decay_all now m = map (λ (e : Bytes × ResinScore). (e.0, decay_resin_score e.1 now)) m

-- What an account weighs in the choice: nothing if it was used or has no positive score.
abbrev pub positive : ℤ → ℕ
positive (pos n) = n
positive (negsuc n) = 0

abbrev pub weight_of : List Bytes → Bytes × ResinScore → ℕ
weight_of used (account, entry) = if any (λ u. u == account) used then 0 else positive entry.value

unfoldable pub total_weight : List Bytes → List (Bytes × ResinScore) → ℕ
total_weight used [] = 0
total_weight used (e ∷ m) = weight_of used e + total_weight used m

-- The second walk; `none` when it comes to the end.
unfoldable pub walk_to : List Bytes → ℕ → List (Bytes × ResinScore) → Option Bytes
walk_to used choice [] = none
walk_to used choice (e ∷ m) =
    let rest = walk_to used (choice - weight_of used e) m in
    if ltb choice (weight_of used e) then some e.0 else rest

abbrev pub account_or : Bytes → Option Bytes → Bytes
account_or fresh none = fresh
account_or fresh (some account) = account

unfoldable pub pick :
    ℕ
    → Bytes
    → List Bytes
    → (List (Bytes × ResinScore) → List (Bytes × ResinScore))
    → ScoreStore
    → Bytes × ScoreStore
pick now fresh used reorder s =
    let m = decay_all now s.entries in
    let total = 4 + total_weight used m in
    let cursor = (s.cursor + 1) % word in
    let choice = cursor % total in
    (
      if ltb choice 4 then fresh else account_or fresh (walk_to used (choice - 4) (reorder m)),
      record { entries = m; cursor = cursor },
    )

-- The switch of `observe`.
unfoldable pub scored : ℤ → ℕ → Option GoError → ℤ
scored v status (some e) =
    if e.deadline_exceeded || contains (to_lower e.message) (codes "timeout")
    then v -ℤ pos 6
    else v -ℤ pos 4
scored v status none =
    if status == 401 || status == 429
    then v -ℤ pos 10
    else if status == 408 || status == 504
    then v -ℤ pos 6
    else if leb 500 status
    then v -ℤ pos 5
    else if leb 200 status && ltb status 300
    then v +ℤ pos 3
    else v

-- `max(-20, min(20, v))`.
unfoldable pub clamp_score : ℤ → ℤ
clamp_score (pos n) = if leb n 20 then pos n else pos 20
clamp_score (negsuc n) = if leb n 19 then negsuc n else negsuc 19

abbrev pub score_or_zero : Option ResinScore → ResinScore
score_or_zero none = record { value = pos 0; updated = none }
score_or_zero (some e) = e

abbrev pub is_before : Option ℕ → ℕ → Bool
is_before none t = true
is_before (some u) t = ltb u t

-- The walk for the oldest entry; an entry of the zero time is older than all.
unfoldable pub oldest_account : List (Bytes × ResinScore) → Bytes → Option ℕ → Bytes
oldest_account [] account oldest = account
oldest_account ((k, e) ∷ m) account none = oldest_account m account none
oldest_account ((k, e) ∷ m) account (some t) =
    let older = oldest_account m k e.updated in
    let same = oldest_account m account (some t) in if is_before e.updated t then older else same

abbrev pub is_canceled : Option GoError → Bool
is_canceled none = false
is_canceled (some e) = e.canceled

-- Above 256 entries the oldest one goes; a name that is no key, the empty one, takes nothing away.
unfoldable pub evict : ℕ → List (Bytes × ResinScore) → List (Bytes × ResinScore)
evict now m = if ltb 256 (length m) then delete (oldest_account m [] (some now)) m else m

unfoldable pub observed_score : ℕ → ℕ → Option GoError → Option ResinScore → ResinScore
observed_score now status err o =
    let entry = decay_resin_score (score_or_zero o) now in
    record { value = clamp_score (scored entry.value status err); updated = some now }

unfoldable pub observe : ℕ → Bytes → ℕ → Option GoError → ScoreStore → ScoreStore
observe now account status err s = if bytes_eqb account [] || is_canceled err then s else record s {
  entries =
      evict now
        (insert account (observed_score now status err (lookup account s.entries)) s.entries);
}

-- `strings.Cut(username, ".")`, what follows the first dot.
unfoldable pub resin_account : Bytes → Bytes
resin_account [] = []
resin_account (c ∷ rest) = let later = resin_account rest in if c == 46 then rest else later
