-- ===== src/Status/Averages.antt =====
-- The rounding of `publicAverage`, cmd/server/status.go.
use opencode_rush_free.Base.{
  arith, bytes_eq, if_cases, nat_eq, string_eq, ℕ, ◌*◌, ◌+◌, ◌/◌, ◌==◌, ◌≤◌,
}
use opencode_rush_free.Status.{public_average}
use native.Mathlib.Nat.{mod-lt, div-add-mod}

-- For a count above zero the average is rounded to the nearest number: times the count it is off the sum by at
-- most half the count.
pub public_average_lem :
    (sum count : ℕ)
    → 1 ≤ count
    → (2 * (count * public_average sum count) ≤ 2 * sum + count)
      × (2 * sum ≤ 2 * (count * public_average sum count) + count)
unfolding public_average
public_average_lem sum count h =
    if_cases (λ a. (2 * (count * a) ≤ 2 * sum + count) × (2 * sum ≤ 2 * (count * a) + count))
      (count == 0) (λ e. absurd (ground arith))
      (λ e.
        let d = div-add-mod (sum + count / 2) count in
        let m = mod-lt (sum + count / 2) {m = count} h in
        let q = count * ((sum + count / 2) / count) in
        let d2 = div-add-mod count 2 in
        let m2 = mod-lt count {m = 2} (omega arith) in (omega arith, omega arith))
