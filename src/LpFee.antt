-- ===== src/LpFee.antt =====
-- LPFeeCalculator of lpFeeCalculator/lpFeeCalculator.ts, with min and max of utils/common.ts. The
-- decimal arithmetic of decimal.js and the texts of ethers' numbers are an interface.
pub mod Curve
pub mod Area
mod Tests
use Prim.Native.String.{String}
use acrossclone.Prelude.{
  ℕ, ◌-◌, ◌^◌, Bool, true, false, Option, none, some, ltb, ◌==◌, if◌then◌else◌, Result, ok, err,
  ◌>>=◌,
}
use acrossclone.Prelude.Int.{ℤ, pos, ◌+ℤ◌, ◌-ℤ◌, ◌*ℤ◌, ◌/ℤ◌, leb_ℤ, int_eq}
use acrossclone.Json.{Engine, floor, to_bn}

pub data FeeError : Type 0 where
  division_by_zero negative_power not_a_number : FeeError

-- A `BigNumberish` is the number that `toBN` makes of it.
pub record RateModel : Type 0 where
  pub u_bar : ℤ
  pub r0 : ℤ
  pub r1 : ℤ
  pub r2 : ℤ

-- decimal.js on numbers of a type `D`.
pub record Decimals (D : Type 0) : Type 0 where
  pub of_text : String → D
  pub plus : D → D → D
  pub minus : D → D → D
  pub times : D → D → D
  pub divided_by : D → D → D
  pub pow : D → D → D
  pub floor_down : D → D
  pub to_text : D → String
  -- ethers' `formatUnits` and `toString` of a number
  pub format_units : ℤ → String
  pub digits : ℤ → String

-- `a.div(b)`, which throws for 0
unfoldable pub div_bn : ℤ → ℤ → Result FeeError ℤ
div_bn a b = if b == pos 0 then err division_by_zero else ok (a /ℤ b)

-- `min` and `max`
unfoldable pub min_bn : ℤ → ℤ → ℤ
min_bn a b = if leb_ℤ a b then a else b

unfoldable pub max_bn : ℤ → ℤ → ℤ
max_bn a b = if leb_ℤ b a then a else b

-- `fixedPointAdjustment`
abbrev pub fixed_point_adjustment : ℤ
fixed_point_adjustment = pos 1_000_000_000_000_000_000

-- `toBNWei("0.5")`
abbrev pub half : ℤ
half = pos 500_000_000_000_000_000

-- `truncate18DecimalBN`
unfoldable pub truncate_18_decimal_bn : ℤ → ℕ → Result FeeError ℤ
truncate_18_decimal_bn input kept = do
  let multiplier = pos (10 ^ (18 - kept))
  quotient ← div_bn input multiplier
  if ltb 18 kept then err negative_power else ok (quotient *ℤ multiplier)

-- `calculateInstantaneousRate`
unfoldable pub calculate_instantaneous_rate : RateModel → ℤ → Result FeeError ℤ
calculate_instantaneous_rate m utilization = do
  before_kink ←
      (if m.u_bar == pos 0 then ok (pos 0) else div_bn (min_bn utilization m.u_bar *ℤ m.r1) m.u_bar)
  after_kink ←
      div_bn (max_bn (pos 0) (utilization -ℤ m.u_bar) *ℤ m.r2) (fixed_point_adjustment -ℤ m.u_bar)
  ok (m.r0 +ℤ before_kink +ℤ after_kink)

-- `toBNWei("0.5").mul(rise).mul(width).div(fixedPointAdjustment).div(fixedPointAdjustment)`
unfoldable pub triangle : ℤ → ℤ → ℤ
triangle rise width = half *ℤ rise *ℤ width /ℤ fixed_point_adjustment /ℤ fixed_point_adjustment

-- The sum of the rectangles and triangles, from the utilization before and after the kink and the
-- rates there.
unfoldable pub area_of : RateModel → (before after rate_before rate : ℤ) → ℤ
area_of m before after rate_before rate =
    before *ℤ m.r0 /ℤ fixed_point_adjustment
    +ℤ triangle (rate_before -ℤ m.r0) before
    +ℤ after *ℤ (m.r0 +ℤ m.r1) /ℤ fixed_point_adjustment
    +ℤ triangle (rate -ℤ (m.r0 +ℤ m.r1)) after

-- `calculateAreaUnderRateCurve`
unfoldable pub calculate_area_under_rate_curve : RateModel → ℤ → Result FeeError ℤ
calculate_area_under_rate_curve m utilization = do
  let before = min_bn utilization m.u_bar
  rate_before ← calculate_instantaneous_rate m before
  let after = max_bn (pos 0) (utilization -ℤ m.u_bar)
  rate ← calculate_instantaneous_rate m utilization
  ok (area_of m before after rate_before rate)

-- `calculateApyFromUtilization`
unfoldable pub calculate_apy_from_utilization : RateModel → ℤ → ℤ → Result FeeError ℤ
calculate_apy_from_utilization m before after =
    if before == after then calculate_instantaneous_rate m before else (do
      area_before ← calculate_area_under_rate_curve m before
      area_after ← calculate_area_under_rate_curve m after
      div_bn ((area_after -ℤ area_before) *ℤ fixed_point_adjustment) (after -ℤ before))

module _ {D : Type 0} (engine : Engine) (d : Decimals D) where
  -- `convertApyToWeeklyFee`
  unfoldable pub convert_apy_to_weekly_fee : ℤ → Result FeeError ℤ
  convert_apy_to_weekly_fee apy =
      let one = d.of_text "1" in
      let weekly =
        d.minus
          (d.pow (d.plus one (d.of_text (d.format_units apy))) (d.divided_by one (d.of_text "52")))
          one in
      let scaled = d.floor_down (d.times weekly (d.of_text (d.digits fixed_point_adjustment))) in
      elim (to_bn engine floor (d.to_text scaled)) [ none ↦ err not_a_number | some fee ↦ ok fee ]

  -- `calculateRealizedLpFeePct`
  unfoldable pub calculate_realized_lp_fee_pct : RateModel → ℤ → ℤ → Bool → Result FeeError ℤ
  calculate_realized_lp_fee_pct m before after truncate_decimals = do
    apy ← calculate_apy_from_utilization m before after
    fee ← convert_apy_to_weekly_fee apy
    if truncate_decimals then truncate_18_decimal_bn fee 6 else ok fee
