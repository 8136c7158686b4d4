-- ===== src/Headers/Tests.antt =====
-- One custom header.
use opencode_rush_free.Base.{
  [], bytes_eq, bytes_eqb, codes, insert, lookup, nat_eq, refl, string_eq, to_lower, trim_left,
  trim_space, ◌∷◌, ◌≤◌,
}
use opencode_rush_free.Headers.{
  validate_custom_headers, add_headers, add_header, valid_header_name, valid_header_value,
}
use opencode_rush_free.Headers.Accepted.{HeadersInv, validate_custom_headers_lem}

validate_custom_headers_lem_example :
    HeadersInv (λ s. s) ((codes " x-a", codes "1 ") ∷ []) ((codes "x-a", codes "1") ∷ []) × (1 ≤ 32)
unfolding validate_custom_headers add_headers add_header trim_space trim_left valid_header_name
    valid_header_value to_lower bytes_eqb lookup insert
validate_custom_headers_lem_example =
    validate_custom_headers_lem (λ s. s) ((codes " x-a", codes "1 ") ∷ [])
      ((codes "x-a", codes "1") ∷ []) refl
