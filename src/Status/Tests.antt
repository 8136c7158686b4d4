-- ===== src/Status/Tests.antt =====
-- A page with one model and one request.
use opencode_rush_free.Base.{All, [], codes, none, refl, some, true, ◌∷◌, ◌≡◌}
use opencode_rush_free.Base.Int.{pos}
use opencode_rush_free.Status.{UsageRow, ModelEntry, new_entry, add_rows, summarise}
use opencode_rush_free.Status.Buckets.{EntryInv, add_rows-EntryInv, new_entry-EntryInv}
use opencode_rush_free.Status.Totals.{count_rows, summarise-add_rows}

abbrev row : UsageRow
row = record {
  model = codes "m";
  created = some 1700000000000000000;
  status = "success";
  origin = "user";
  latency = pos 120;
  first = none;
}

abbrev entry : ModelEntry
entry = new_entry (codes "m") [] true

add_rows-EntryInv_example : All EntryInv (add_rows 1700000001000000000 (row ∷ []) (entry ∷ []))
add_rows-EntryInv_example =
    add_rows-EntryInv 1700000001000000000 (row ∷ []) (entry ∷ [])
      (new_entry-EntryInv (codes "m") [] true, tt)

summarise-add_rows_example :
    (summarise (add_rows 1700000001000000000 (row ∷ []) (entry ∷ []))).summary_requests
    ≡ count_rows 1700000001000000000 (entry ∷ []) (row ∷ [])
unfolding new_entry
summarise-add_rows_example = summarise-add_rows 1700000001000000000 (row ∷ []) (entry ∷ []) refl
