-- ===== src/LpFee/Area.antt =====
-- The area under the rate curve and the yearly rate of lpFeeCalculator/lpFeeCalculator.ts.
use acrossclone.Prelude.{
  ℕ, zero, suc, ◌+◌, ◌-◌, ◌*◌, ◌/◌, ◌≤◌, ◌<◌, min, ◌≡◌, refl, sym, ap, ap₂, ◌∙◌, true, false, inl,
  inr, Bool-cases, ◌==◌, nat_eq, ltb, ok, arith,
}
use acrossclone.Prelude.Int.{ℤ, sub_ℕ, pos, negsuc, ◌-ℤ◌, ◌*ℤ◌, ◌/ℤ◌, int_eq}
use native.Mathlib.Nat.{mul-div_right, zero-div, mul-zero}
use acrossclone.LpFee.{
  RateModel, div_bn, fixed_point_adjustment, half, triangle, area_of,
  calculate_area_under_rate_curve, calculate_apy_from_utilization,
}
use acrossclone.LpFee.Curve.{
  whole, curve, rate, rate_mono, calculate_instantaneous_rate-pos, pos-add, pos-sub, pos-mul,
  pos-div, div_bn-pos, min_bn-pos, max_bn-pos, mul_mono, div_mono,
}

abbrev half_ℕ : ℕ
half_ℕ = 500_000_000_000_000_000

abbrev triangle_ℕ : ℕ → ℕ → ℕ
triangle_ℕ rise width = half_ℕ * rise * width / whole / whole

triangle-pos : (a b : ℕ) → triangle (pos a) (pos b) ≡ pos (triangle_ℕ a b)
unfolding triangle
triangle-pos a b =
    rw (pos-mul half_ℕ a, pos-mul (half_ℕ * a) b, pos-div (half_ℕ * a * b) whole)
      (pos-div (half_ℕ * a * b / whole) whole)

mul-pos_zero : (z : ℤ) → z *ℤ pos 0 ≡ pos 0
unfolding ◌*ℤ◌
mul-pos_zero z = ground arith

triangle_zero : (z : ℤ) → triangle z (pos 0) ≡ pos 0
unfolding triangle
triangle_zero z = rw (mul-pos_zero (half *ℤ z)) (rw (pos-div 0 whole) (pos-div 0 whole))

no_width : (z : ℤ) (n w : ℕ) → w ≡ 0 → triangle z (pos w) ≡ pos (triangle_ℕ n w)
no_width z n w e = rw (e, mul-zero (half_ℕ * n)) (triangle_zero z)

triangle_mono : (a b c d : ℕ) → a ≤ b → c ≤ d → triangle_ℕ a c ≤ triangle_ℕ b d
triangle_mono a b c d h k =
    div_mono (half_ℕ * a * c / whole) (half_ℕ * b * d / whole) whole (omega arith) (
      div_mono (half_ℕ * a * c) (half_ℕ * b * d) whole (omega arith)
        (mul_mono (half_ℕ * a) (half_ℕ * b) c d (mul_mono half_ℕ half_ℕ a b (omega arith) h) k))

-- The area up to a utilization `x`.
abbrev area : (u r0 r1 r2 x : ℕ) → ℕ
area u r0 r1 r2 x =
    min x u * r0 / whole
    + triangle_ℕ (rate u r0 r1 r2 (min x u) - r0) (min x u)
    + (x - u) * (r0 + r1) / whole
    + triangle_ℕ (rate u r0 r1 r2 x - (r0 + r1)) (x - u)

last_triangle :
    (u r0 r1 r2 x : ℕ)
    → 0 < u
    → u < whole
    → triangle (pos (rate u r0 r1 r2 x) -ℤ pos (r0 + r1)) (pos (x - u))
      ≡ pos (triangle_ℕ (rate u r0 r1 r2 x - (r0 + r1)) (x - u))
last_triangle u r0 r1 r2 x p h = elim (Bool-cases (ltb u x)) [
  | inl past ↦
      let full : min x u ≡ u = ground arith in
      let same : min x u * r1 / u ≡ r1 = rw full (mul-div_right r1 p) in
      rw (pos-sub (rate u r0 r1 r2 x) (r0 + r1) (omega (arith, same)))
        (triangle-pos (rate u r0 r1 r2 x - (r0 + r1)) (x - u))
  | inr before ↦
      let none_after : x - u ≡ 0 = ground arith in
      no_width (pos (rate u r0 r1 r2 x) -ℤ pos (r0 + r1)) (rate u r0 r1 r2 x - (r0 + r1)) (x - u)
        none_after
]

area_of-pos :
    (u r0 r1 r2 x : ℕ)
    → 0 < u
    → u < whole
    → area_of
        (curve u r0 r1 r2)
        (pos (min x u))
        (pos (x - u))
        (pos (rate u r0 r1 r2 (min x u)))
        (pos (rate u r0 r1 r2 x))
      ≡ pos (area u r0 r1 r2 x)
unfolding area_of
area_of-pos u r0 r1 r2 x p h =
    let b = min x u in
    let a = x - u in
    rw (pos-add r0 r1, last_triangle u r0 r1 r2 x p h)
      (rw (pos-sub (rate u r0 r1 r2 b) r0 (omega arith), triangle-pos (rate u r0 r1 r2 b - r0) b)
        (rw
          (pos-mul b r0, pos-div (b * r0) whole, pos-mul a (r0 + r1), pos-div (a * (r0 + r1)) whole)
          (rw (pos-add (b * r0 / whole) (triangle_ℕ (rate u r0 r1 r2 b - r0) b)) (
            rw
              (pos-add (b * r0 / whole + triangle_ℕ (rate u r0 r1 r2 b - r0) b)
                (a * (r0 + r1) / whole))
              (pos-add _ _)))))

calculate_area_under_rate_curve-pos :
    (u r0 r1 r2 x : ℕ)
    → 0 < u
    → u < whole
    → calculate_area_under_rate_curve (curve u r0 r1 r2) (pos x) ≡ ok (pos (area u r0 r1 r2 x))
unfolding calculate_area_under_rate_curve
calculate_area_under_rate_curve-pos u r0 r1 r2 x p h =
    let b = min x u in
    let a = x - u in
    rw (min_bn-pos x u, max_bn-pos x u, calculate_area_under_rate_curve)
      (rw
        (
          calculate_instantaneous_rate-pos u r0 r1 r2 b h,
          calculate_instantaneous_rate-pos u r0 r1 r2 x h,
        )
        (ap ok (area_of-pos u r0 r1 r2 x p h)))

area_mono : (u r0 r1 r2 x y : ℕ) → u < whole → x ≤ y → area u r0 r1 r2 x ≤ area u r0 r1 r2 y
area_mono u r0 r1 r2 x y h k =
    let low : min x u ≤ min y u = omega arith in
    let high : x - u ≤ y - u = omega arith in
    omega (
      arith,
      div_mono (min x u * r0) (min y u * r0) whole (omega arith)
          (mul_mono (min x u) (min y u) r0 r0 low (omega arith)),
      div_mono ((x - u) * (r0 + r1)) ((y - u) * (r0 + r1)) whole (omega arith)
          (mul_mono (x - u) (y - u) (r0 + r1) (r0 + r1) high (omega arith)),
      triangle_mono (rate u r0 r1 r2 (min x u) - r0) (rate u r0 r1 r2 (min y u) - r0) (min x u)
          (min y u) (omega (arith, rate_mono u r0 r1 r2 (min x u) (min y u) h low)) low,
      triangle_mono (rate u r0 r1 r2 x - (r0 + r1)) (rate u r0 r1 r2 y - (r0 + r1)) (x - u) (y - u)
          (omega (arith, rate_mono u r0 r1 r2 x y h k)) high,
    )

-- The quotient of two differences, taken either way round.
pos-sub_swap : (a b : ℕ) → a ≤ b → pos a -ℤ pos b ≡ sub_ℕ 0 (b - a)
unfolding ◌-ℤ◌
pos-sub_swap a b h = ground arith

neg_suc : (n : ℕ) → sub_ℕ 0 (suc n) ≡ negsuc n
neg_suc n = ground arith

neg-mul : (a b : ℕ) → sub_ℕ 0 a *ℤ pos b ≡ sub_ℕ 0 (a * b)
unfolding ◌*ℤ◌
neg-mul zero b = ap₂ sub_ℕ (omega arith) (omega arith)
neg-mul (suc a) b = rw (neg_suc a) (ap₂ sub_ℕ (omega arith) (omega arith))

div_bn-neg : (a b : ℕ) → 0 < b → div_bn (sub_ℕ 0 a) (sub_ℕ 0 b) ≡ ok (pos (a / b))
unfolding div_bn ◌/ℤ◌
div_bn-neg a zero h = absurd (omega arith)
div_bn-neg zero (suc b) h =
    rw (neg_suc b)
      (ap (λ n. ok (sub_ℕ 0 n)) (zero-div (suc b)) ∙ ap (λ n. ok (pos n)) (sym (zero-div (suc b))))
div_bn-neg (suc a) (suc b) h = rw (neg_suc a, neg_suc b) refl

slope-pos :
    (a b x y : ℕ)
    → a ≤ b
    → x < y
    → (div_bn ((pos b -ℤ pos a) *ℤ fixed_point_adjustment) (pos y -ℤ pos x)
        ≡ ok (pos ((b - a) * whole / (y - x))))
      × (div_bn ((pos a -ℤ pos b) *ℤ fixed_point_adjustment) (pos x -ℤ pos y)
          ≡ ok (pos ((b - a) * whole / (y - x))))
slope-pos a b x y h k = (
  rw (pos-sub b a h, pos-sub y x (omega arith), pos-mul (b - a) whole)
      (div_bn-pos ((b - a) * whole) (y - x) (omega arith)),
  rw (pos-sub_swap a b h, pos-sub_swap x y (omega arith), neg-mul (b - a) whole)
      (div_bn-neg ((b - a) * whole) (y - x) (omega arith)),
)

-- What both orders of two utilizations give.
abbrev IsRate : (m : RateModel) (x y : ℕ) → Type 0
IsRate m x y =
    (apy : ℕ) × (calculate_apy_from_utilization m (pos x) (pos y) ≡ ok (pos apy))
    × (calculate_apy_from_utilization m (pos y) (pos x) ≡ ok (pos apy))

apy_lt : (u r0 r1 r2 x y : ℕ) → 0 < u → u < whole → x < y → IsRate (curve u r0 r1 r2) x y
unfolding calculate_apy_from_utilization
apy_lt u r0 r1 r2 x y p h k =
    let up = area_mono u r0 r1 r2 x y h (omega arith) in
    let slope = slope-pos (area u r0 r1 r2 x) (area u r0 r1 r2 y) x y up k in
    let low = calculate_area_under_rate_curve-pos u r0 r1 r2 x p h in
    let high = calculate_area_under_rate_curve-pos u r0 r1 r2 y p h in
    let one_way : (pos x == pos y) ≡ false = ground arith in
    let other_way : (pos y == pos x) ≡ false = ground arith in
    (
      (area u r0 r1 r2 y - area u r0 r1 r2 x) * whole / (y - x),
      rw (one_way, low, high, calculate_apy_from_utilization) slope.0,
      rw (other_way, low, high, calculate_apy_from_utilization) slope.1,
    )

-- For a rate model without negative numbers, with its kink above 0 and below 100 %, the yearly rate
-- between two utilizations is always computed, is never negative, and does not depend on which of
-- the two comes first.
pub calculate_apy_from_utilization_symmetric :
    (u r0 r1 r2 x y : ℕ)
    → 0 < u
    → u < whole
    → (apy : ℕ) × (calculate_apy_from_utilization (curve u r0 r1 r2) (pos x) (pos y) ≡ ok (pos apy))
      × (calculate_apy_from_utilization (curve u r0 r1 r2) (pos y) (pos x) ≡ ok (pos apy))
unfolding calculate_apy_from_utilization
calculate_apy_from_utilization_symmetric u r0 r1 r2 x y p h = elim (Bool-cases (ltb x y)) [
  | inl less ↦ apy_lt u r0 r1 r2 x y p h (ground arith)
  | inr not_less ↦ elim (Bool-cases (ltb y x)) [
    | inl more ↦
        let swapped = apy_lt u r0 r1 r2 y x p h (ground arith) in (swapped.0, swapped.2, swapped.1)
    | inr not_more ↦
        let e : x ≡ y = ground arith in
        let same : (pos y == pos y) ≡ true = ground arith in
        let now = calculate_instantaneous_rate-pos u r0 r1 r2 y h in
        rw e (
          rate u r0 r1 r2 y,
          rw (same, now, calculate_apy_from_utilization) refl,
          rw (same, now, calculate_apy_from_utilization) refl,
        )
  ]
]
