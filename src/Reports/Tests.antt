-- ===== src/Reports/Tests.antt =====
-- Tests and examples of the words of errors.
use opencode_rush_free.Base.{[], bytes_eqb, codes, has_prefix, none, refl, some, ◌++◌, ◌∷◌, ◌≡◌}
use opencode_rush_free.Proxy.{new_error}
use opencode_rush_free.Reports.{
  truncate_error, gateway_attempt_reason, upstream_error_summary, detailed, resin_account_hint,
}

one_line : truncate_error (codes " a  b" ++ (10 ∷ codes "c ")) ≡ codes "a b c"
unfolding truncate_error
one_line = refl

reasons :
    (gateway_attempt_reason 429 none ≡ "rate_limit")
    × (gateway_attempt_reason 0 (some (new_error (codes "Timeout awaiting response headers")))
        ≡ "header_timeout")
unfolding gateway_attempt_reason has_prefix
reasons = (refl, refl)

hint : resin_account_hint (codes "pool.abcdef0123456789") ≡ codes "abcdef01****"
unfolding resin_account_hint bytes_eqb
hint = refl

typed :
    upstream_error_summary (λ b. detailed [] (codes "overloaded")) (codes "{..}")
    ≡ codes "overloaded"
unfolding upstream_error_summary
typed = refl
