-- ===== src/Scores/Choice.antt =====
-- Which account `pick` of cmd/server/resin.go returns.
use opencode_rush_free.Base.{
  ==_self, Bool, Bytes, List, Option, [], any, arith, bytes_eq, if_cases, ltb, nat_eq, none, refl,
  some, string_eq, true, ℕ, ◌%◌, ◌&&◌, ◌+◌, ◌-◌, ◌<◌, ◌==◌, ◌∷◌, ◌≡◌, ◌≤◌,
}
use native.Mathlib.Nat.{mod-lt}
use opencode_rush_free.Limiter.{word}
use opencode_rush_free.Scores.{
  ResinScore, ScoreStore, decay_all, weight_of, total_weight, walk_to, account_or, pick,
}

-- An account that was not used and has a positive score.
abbrev pub is_candidate : List Bytes → Bytes → List (Bytes × ResinScore) → Bool
is_candidate used account m = any (λ e. e.0 == account && ltb 0 (weight_of used e)) m

abbrev FoundIn : List Bytes → List (Bytes × ResinScore) → Option Bytes → Type 0
FoundIn used m none = ⊥
FoundIn used m (some a) = is_candidate used a m ≡ true

FoundIn-more :
    (used : List Bytes) (e : Bytes × ResinScore) (m : List (Bytes × ResinScore)) (o : Option Bytes)
    → FoundIn used m o
    → FoundIn used (e ∷ m) o
FoundIn-more used e m none h = h
FoundIn-more used e m (some a) h = ground arith

walk_to-found :
    (used : List Bytes) (choice : ℕ) (m : List (Bytes × ResinScore))
    → choice < total_weight used m
    → FoundIn used m (walk_to used choice m)
unfolding walk_to total_weight
walk_to-found used choice [] h = absurd (omega arith)
walk_to-found used choice (e ∷ m) h =
    if_cases (FoundIn used (e ∷ m)) (ltb choice (weight_of used e))
      (λ l. let s = ==_self e.0 in ground arith)
      (λ l.
        FoundIn-more used e m _ (walk_to-found used (choice - weight_of used e) m (ground arith)))

FoundIn-account :
    (used : List Bytes) (fresh : Bytes) (m : List (Bytes × ResinScore)) (o : Option Bytes)
    → FoundIn used m o
    → is_candidate used (account_or fresh o) m ≡ true
FoundIn-account used fresh m none h = absurd h
FoundIn-account used fresh m (some a) h = h

-- Whatever order the second walk has, as long as its weights add up to the same total, four choices in the
-- total give the fresh account, and each other one gives an account that the request has not used and whose
-- decayed score is positive: the walk never comes to its end without one.
pub pick_lem :
    (now : ℕ) (fresh : Bytes) (used : List Bytes)
    (reorder : List (Bytes × ResinScore) → List (Bytes × ResinScore)) (s : ScoreStore)
    → total_weight used (reorder (decay_all now s.entries))
      ≡ total_weight used (decay_all now s.entries)
    → let choice =
        (pick now fresh used reorder s).1.cursor
        % (4 + total_weight used (decay_all now s.entries)) in
      (choice < 4 → (pick now fresh used reorder s).0 ≡ fresh)
      × (4 ≤ choice
          → is_candidate used (pick now fresh used reorder s).0 (reorder (decay_all now s.entries))
            ≡ true)
unfolding pick
pick_lem now fresh used reorder s h =
    let m = decay_all now s.entries in
    let total = 4 + total_weight used m in
    let choice = ((s.cursor + 1) % word) % total in
    let bound : choice < total = mod-lt ((s.cursor + 1) % word) (omega arith) in
    (
      λ l. if_cases (λ a. a ≡ fresh) (ltb choice 4) (λ _. refl) (λ f. absurd (ground arith)),
      λ l.
          if_cases (λ a. is_candidate used a (reorder m) ≡ true) (ltb choice 4)
            (λ t. absurd (ground arith))
            (λ _.
              FoundIn-account used fresh (reorder m) _
                (walk_to-found used (choice - 4) (reorder m) (ground arith))),
    )
