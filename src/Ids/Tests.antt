-- ===== src/Ids/Tests.antt =====
-- Tests and examples of the identifiers.
use opencode_rush_free.Base.{[], arith, codes, refl, some, true, ◌++◌, ◌<◌, ◌^◌, ◌∷◌, ◌≡◌}
use opencode_rush_free.Ids.{
  base62_alphabet, base62_encode, hex_encode, open_code_id, id_text, IdClock, tick,
}
use opencode_rush_free.Ids.Digits.{decode_from, decode-base62_encode}
use opencode_rush_free.Ids.Order.{lex_lt, ticks, later_ids_sort_later}

abbrev busy : IdClock
busy = record { last_ms = 1700000000000; seq = 0xffe }

first_id : open_code_id (codes "msg") 1700000000000 (some (0 ∷ 61 ∷ [])) busy ≡ (
  some (codes "msg_018bcfe56800143" ++ codes "0z"),
  record { last_ms = 1700000000000; seq = 0xfff },
)
unfolding open_code_id id_text tick base62_encode hex_encode
first_id = refl

decode-base62_encode_example : decode_from 62 base62_alphabet 0 (base62_encode 4095 3) ≡ 4095
decode-base62_encode_example = decode-base62_encode 4095 3 (omega arith)

low : (ticks (1700000000000 ∷ 1699999999999 ∷ []) busy).last_ms < 2 ^ 48
unfolding ticks tick
low = omega arith

later_ids_sort_later_example :
    lex_lt
      (id_text (codes "msg") busy (61 ∷ []))
      (id_text (codes "msg") (ticks (1700000000000 ∷ 1699999999999 ∷ []) busy) (0 ∷ []))
    ≡ true
later_ids_sort_later_example =
    later_ids_sort_later (codes "msg") 1700000000000 (1699999999999 ∷ []) busy (61 ∷ []) (0 ∷ [])
      (omega arith) low
