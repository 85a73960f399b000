-- ===== src/LpFee/Tests.antt =====
-- Runs of the LP fee calculator.
use Prim.Native.Nat.{◌+◌, ◌*◌}
use acrossclone.Prelude.{ℕ, ◌≤◌, ◌≡◌, refl, ok, err, arith}
use acrossclone.Prelude.Int.{pos, ◌+ℤ◌, ◌-ℤ◌, ◌*ℤ◌, ◌/ℤ◌}
use acrossclone.LpFee.{
  division_by_zero, calculate_instantaneous_rate, calculate_apy_from_utilization,
  calculate_area_under_rate_curve, area_of, triangle, div_bn, min_bn, max_bn,
  truncate_18_decimal_bn,
}
use acrossclone.LpFee.Curve.{curve, whole, calculate_instantaneous_rate_bounds}
use acrossclone.LpFee.Area.{calculate_apy_from_utilization_symmetric}

-- 80 %, 0, 4 % and 100 %
abbrev kink : ℕ
kink = 800_000_000_000_000_000

abbrev slope_before : ℕ
slope_before = 40_000_000_000_000_000

abbrev quarter : ℕ
quarter = 250_000_000_000_000_000

abbrev most : ℕ
most = 900_000_000_000_000_000

calculate_instantaneous_rate_runs :
    calculate_instantaneous_rate (curve kink 0 slope_before whole) (pos quarter)
    ≡ ok (pos 12_500_000_000_000_000)
unfolding calculate_instantaneous_rate div_bn min_bn max_bn ◌+ℤ◌ ◌-ℤ◌ ◌*ℤ◌ ◌/ℤ◌
calculate_instantaneous_rate_runs = refl

calculate_apy_from_utilization_runs :
    calculate_apy_from_utilization (curve kink 0 slope_before whole) (pos 0) (pos quarter)
    ≡ ok (pos 6_250_000_000_000_000)
unfolding calculate_apy_from_utilization calculate_area_under_rate_curve area_of triangle
    calculate_instantaneous_rate div_bn min_bn max_bn ◌+ℤ◌ ◌-ℤ◌ ◌*ℤ◌ ◌/ℤ◌
calculate_apy_from_utilization_runs = refl

-- A kink at 100 % divides by 0.
full_kink_throws :
    calculate_instantaneous_rate (curve whole 0 slope_before 0) (pos quarter) ≡ err division_by_zero
unfolding calculate_instantaneous_rate div_bn min_bn max_bn ◌+ℤ◌ ◌-ℤ◌ ◌*ℤ◌ ◌/ℤ◌
full_kink_throws = refl

truncate_18_decimal_bn_runs :
    truncate_18_decimal_bn (pos 123_456_789_012_345) 6 ≡ ok (pos 123_000_000_000_000)
unfolding truncate_18_decimal_bn div_bn ◌*ℤ◌ ◌/ℤ◌
truncate_18_decimal_bn_runs = refl

calculate_instantaneous_rate_bounds_example :
    (low : ℕ) × (high : ℕ) × (capped : ℕ) × (calculate_instantaneous_rate
        (curve kink 0 slope_before whole)
        (pos quarter)
      ≡ ok (pos low))
    × (calculate_instantaneous_rate (curve kink 0 slope_before whole) (pos (2 * whole))
        ≡ ok (pos high))
    × (calculate_instantaneous_rate (curve kink 0 slope_before whole) (pos most) ≡ ok (pos capped))
    × (0 ≤ low)
    × (low ≤ high)
    × (capped ≤ 0 + slope_before + whole)
calculate_instantaneous_rate_bounds_example =
    calculate_instantaneous_rate_bounds kink 0 slope_before whole quarter (2 * whole) most
      (omega arith) (omega arith) (omega arith)

calculate_apy_from_utilization_symmetric_example :
    (apy : ℕ) × (calculate_apy_from_utilization
        (curve kink 0 slope_before whole)
        (pos quarter)
        (pos most)
      ≡ ok (pos apy))
    × (calculate_apy_from_utilization (curve kink 0 slope_before whole) (pos most) (pos quarter)
        ≡ ok (pos apy))
calculate_apy_from_utilization_symmetric_example =
    calculate_apy_from_utilization_symmetric kink 0 slope_before whole quarter most (omega arith)
      (omega arith)
