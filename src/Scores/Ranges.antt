-- ===== src/Scores/Ranges.antt =====
-- The range of the scores and their decay, cmd/server/resin.go.
use opencode_rush_free.Base.{
  All, Bytes, List, Option, [], arith, bytes_eq, bytes_eqb, delete, if_cases, insert, leb, length,
  lookup, ltb, nat_eq, none, some, string_eq, suc, ℕ, ◌*◌, ◌+◌, ◌==◌, ◌||◌, ◌∷◌, ◌≤◌,
}
use opencode_rush_free.Base.Int.{ℤ, pos, negsuc}
use opencode_rush_free.Proxy.{GoError}
use opencode_rush_free.Pool.{minute}
use opencode_rush_free.Scores.{
  ResinScore, ScoreStore, decay_value, decay_since, decay_resin_score, decay_all, clamp_score,
  oldest_account, is_canceled, evict, observed_score, decay_steps, observe,
}

-- From -20 to 20.
abbrev pub InRange : ℤ → Type 0
InRange (pos n) = n ≤ 20
InRange (negsuc n) = n ≤ 19

abbrev pub AllInRange : List (Bytes × ResinScore) → Type 0
AllInRange m = All (λ e. InRange e.1.value) m

clamp_score-InRange : (v : ℤ) → InRange (clamp_score v)
unfolding clamp_score
clamp_score-InRange (pos n) = if_cases InRange (leb n 20) (λ e. ground arith) (λ _. omega arith)
clamp_score-InRange (negsuc n) = if_cases InRange (leb n 19) (λ e. ground arith) (λ _. omega arith)

decay_value-InRange : (v : ℤ) (k : ℕ) → InRange v → InRange (decay_value v k)
unfolding decay_value
decay_value-InRange (pos n) k h = omega arith
decay_value-InRange (negsuc n) k h =
    if_cases InRange (leb (suc n) k) (λ _. omega arith) (λ _. omega arith)

decay-InRange :
    (e : ResinScore) (now : ℕ) → InRange e.value → InRange (decay_resin_score e now).value
unfolding decay_resin_score
decay-InRange e now h = elim e.updated as (λ o. InRange (decay_since e now o).value) [
  | none ↦ h
  | some t ↦
      if_cases (λ (x : ResinScore). InRange x.value) (decay_steps now t == 0) {x = e}
        {y = record {
          value = decay_value e.value (decay_steps now t);
          updated = some (t + decay_steps now t * (5 * minute));
        }}
        (λ _. h) (λ _. decay_value-InRange e.value (decay_steps now t) h)
]

decay_all-AllInRange :
    (now : ℕ) (m : List (Bytes × ResinScore)) → AllInRange m → AllInRange (decay_all now m)
decay_all-AllInRange now [] h = tt
decay_all-AllInRange now (e ∷ m) h = (decay-InRange e.1 now h.0, decay_all-AllInRange now m h.1)

insert-AllInRange :
    (k : Bytes) (v : ResinScore) (m : List (Bytes × ResinScore))
    → InRange v.value
    → AllInRange m
    → AllInRange (insert k v m)
unfolding insert
insert-AllInRange k v [] r h = (r, tt)
insert-AllInRange k v (e ∷ m) r h =
    if_cases AllInRange (e.0 == k) (λ _. (r, h.1)) (λ _. (h.0, insert-AllInRange k v m r h.1))

delete-AllInRange :
    (k : Bytes) (m : List (Bytes × ResinScore)) → AllInRange m → AllInRange (delete k m)
unfolding delete
delete-AllInRange k [] h = tt
delete-AllInRange k (e ∷ m) h =
    let rest = delete-AllInRange k m h.1 in
    if_cases AllInRange (e.0 == k) (λ _. rest) (λ _. (h.0, rest))

observed-InRange :
    (now status : ℕ) (err : Option GoError) (o : Option ResinScore)
    → InRange (observed_score now status err o).value
unfolding observed_score
observed-InRange now status err o = clamp_score-InRange _

evict-AllInRange :
    (now : ℕ) (m : List (Bytes × ResinScore)) → AllInRange m → AllInRange (evict now m)
unfolding evict
evict-AllInRange now m h =
    if_cases AllInRange (ltb 256 (length m))
      (λ _. delete-AllInRange (oldest_account m [] (some now)) m h) (λ _. h)

-- Every observation, of whatever outcome, keeps all scores between -20 and 20.
pub observe-AllInRange :
    (now : ℕ) (account : Bytes) (status : ℕ) (err : Option GoError) (s : ScoreStore)
    → AllInRange s.entries
    → AllInRange (observe now account status err s).entries
unfolding observe
observe-AllInRange now account status err s h =
    let entry = observed_score now status err (lookup account s.entries) in
    let r =
      insert-AllInRange account entry s.entries
        (observed-InRange now status err (lookup account s.entries)) h in
    if_cases (λ (t : ScoreStore). AllInRange t.entries) (bytes_eqb account [] || is_canceled err)
      (λ _. h) (λ _. evict-AllInRange now (insert account entry s.entries) r)
