-- ===== src/Scores/Tests.antt =====
-- A store with one good account.
use opencode_rush_free.Base.{[], arith, codes, none, refl, some, true, ◌∷◌, ◌≡◌}
use opencode_rush_free.Base.Int.{pos}
use opencode_rush_free.Scores.{
  ScoreStore, pick, observe, total_weight, decay_all, decay_resin_score,
}
use opencode_rush_free.Scores.Ranges.{AllInRange, observe-AllInRange}
use opencode_rush_free.Scores.Choice.{is_candidate, pick_lem}

abbrev store : ScoreStore
store = record {
  entries = (codes "good", record { value = pos 20; updated = some 1000 }) ∷ [];
  cursor = 9;
}

observe-AllInRange_example : AllInRange (observe 2000 (codes "good") 200 none store).entries
observe-AllInRange_example = observe-AllInRange 2000 (codes "good") 200 none store (omega arith, tt)

pick_lem_example :
    is_candidate [] (pick 2000 (codes "new") [] (λ m. m) store).0 (decay_all 2000 store.entries)
    ≡ true
unfolding pick total_weight decay_resin_score
pick_lem_example = (pick_lem 2000 (codes "new") [] (λ m. m) store refl).1 (omega arith)
