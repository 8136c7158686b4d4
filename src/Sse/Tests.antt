-- ===== src/Sse/Tests.antt =====
-- A stream of one event in two chunks.
use opencode_rush_free.Base.{Bytes, List, Option, [], any, arith, codes, some, ◌∷◌, ◌≡◌}
use opencode_rush_free.Json.{Fields, str, end, field}
use opencode_rush_free.Sse.{observe_line, flush, new_detector}
use opencode_rush_free.Sse.Capture.{concat_chunks}
use opencode_rush_free.Sse.Chunks.{lines_of, observe_all, observe_all_lem}

abbrev decode_any : Bytes → Option (List Fields)
decode_any s = some (field "content" (str "x") end ∷ [])

abbrev chunks : List Bytes
chunks = codes "da" ∷ codes "ta:{}" ∷ (10 ∷ []) ∷ []

observe_all_lem_example :
    (flush
      (observe_line decode_any)
      (observe_all (observe_line decode_any) chunks new_detector)).found
    ≡ any (observe_line decode_any) (lines_of (concat_chunks chunks))
observe_all_lem_example = observe_all_lem decode_any chunks (omega arith)
