-- ===== src/Headers.antt =====
-- The custom headers of an upstream, `validateCustomHeaders` of cmd/server/main.go.
-- `http.CanonicalHeaderKey` is an argument. The map is walked in the order of its list.
use opencode_rush_free.Base.{
  Bool, Bytes, List, [], any, bytes_eq, codes, false, if◌then◌else◌, insert, leb, length, lookup,
  ltb, member, nat_eq, none, not, some, string_eq, to_lower, trim_space, true, ℕ, ◌&&◌, ◌==◌, ◌||◌,
  ◌∷◌,
}
pub mod Accepted
mod Tests

abbrev pub is_between : ℕ → ℕ → ℕ → Bool
is_between lo hi c = leb lo c && leb c hi

-- Letters, digits and !#$%&'*+-.^_`|~.
abbrev pub is_token_char : ℕ → Bool
is_token_char c =
    is_between 97 122 c
    || is_between 65 90 c
    || is_between 48 57 c
    || member c (codes "!#$%&'*+-.^_`|~")

abbrev pub all : (ℕ → Bool) → Bytes → Bool
all f [] = true
all f (c ∷ s) = f c && all f s

unfoldable pub valid_header_name : Bytes → Bool
valid_header_name [] = false
valid_header_name (c ∷ name) = all is_token_char (c ∷ name)

abbrev pub is_plain : ℕ → Bool
is_plain c = leb 32 c && not (c == 127)

unfoldable pub valid_header_value : Bytes → Bool
valid_header_value value = all is_plain value

abbrev pub protected_upstream_headers : List Bytes
protected_upstream_headers =
    codes "authorization"
    ∷ codes "connection"
    ∷ codes "content-length"
    ∷ codes "content-type"
    ∷ codes "host"
    ∷ codes "keep-alive"
    ∷ codes "proxy-authorization"
    ∷ codes "proxy-connection"
    ∷ codes "te"
    ∷ codes "trailer"
    ∷ codes "transfer-encoding"
    ∷ codes "upgrade"
    ∷ codes "user-agent"
    ∷ codes "x-opencode-client"
    ∷ []

pub data HeaderResult : Type 0 where
  accepted : List (Bytes × Bytes) → HeaderResult
  too_many : HeaderResult
  invalid_name invalid_value reserved duplicate : Bytes → HeaderResult

module _ (canonical_header_key : Bytes → Bytes) where
  unfoldable pub add_header : Bytes → Bytes → List (Bytes × Bytes) → HeaderResult
  add_header raw_name raw_value validated =
      let name = trim_space raw_name in
      let value = trim_space raw_value in
      if not (valid_header_name name)
      then invalid_name raw_name
      else if not (valid_header_value value)
      then invalid_value name
      else if any (λ p. p == to_lower name) protected_upstream_headers
      then reserved name
      else elim (lookup (canonical_header_key name) validated) [
        | some _ ↦ duplicate name
        | none ↦ accepted (insert (canonical_header_key name) value validated)
      ]

  unfoldable pub add_headers : List (Bytes × Bytes) → List (Bytes × Bytes) → HeaderResult
  add_headers [] validated = accepted validated
  add_headers ((name, value) ∷ rest) validated = elim (add_header name value validated) [
    | accepted m ↦ add_headers rest m
    | too_many ↦ too_many
    | invalid_name n ↦ invalid_name n
    | invalid_value n ↦ invalid_value n
    | reserved n ↦ reserved n
    | duplicate n ↦ duplicate n
  ]

  unfoldable pub validate_custom_headers : List (Bytes × Bytes) → HeaderResult
  validate_custom_headers headers =
      if ltb 32 (length headers) then too_many else add_headers headers []
