-- ===== src/LpFee/Curve.antt =====
-- The rate curve of lpFeeCalculator/lpFeeCalculator.ts in natural numbers.
use acrossclone.Prelude.{
  ℕ, ◌+◌, ◌-◌, ◌*◌, ◌/◌, ◌≤◌, ◌<◌, min, ◌≡◌, refl, sym, ap, subst, false, inl, inr, Bool-cases,
  ◌==◌, nat_eq, if◌then◌else◌, ok, arith,
}
use acrossclone.Prelude.Int.{pos, ◌+ℤ◌, ◌-ℤ◌, ◌*ℤ◌, ◌/ℤ◌, int_eq}
use native.Mathlib.Nat.{
  mul-le-mul_left, mul_comm, le-div_iff_mul-le, div-mul-le_self, mul-div_right, div-zero,
}
use acrossclone.LpFee.{
  RateModel, div_bn, min_bn, max_bn, fixed_point_adjustment, calculate_instantaneous_rate,
}

abbrev pub whole : ℕ
whole = 1_000_000_000_000_000_000

-- A rate model of no negative number.
abbrev pub curve : (u r0 r1 r2 : ℕ) → RateModel
curve u r0 r1 r2 = record { u_bar = pos u; r0 = pos r0; r1 = pos r1; r2 = pos r2 }

pub pos-add : (a b : ℕ) → pos a +ℤ pos b ≡ pos (a + b)
unfolding ◌+ℤ◌
pos-add a b = ground arith

pub pos-sub : (a b : ℕ) → b ≤ a → pos a -ℤ pos b ≡ pos (a - b)
unfolding ◌-ℤ◌
pos-sub a b h = ground arith

pub pos-mul : (a b : ℕ) → pos a *ℤ pos b ≡ pos (a * b)
unfolding ◌*ℤ◌
pos-mul a b = ground arith

pub pos-div : (a b : ℕ) → pos a /ℤ pos b ≡ pos (a / b)
unfolding ◌/ℤ◌
pos-div a b = refl

pub min_bn-pos : (a b : ℕ) → min_bn (pos a) (pos b) ≡ pos (min a b)
unfolding min_bn
min_bn-pos a b = ground arith

pub max_bn-pos : (a b : ℕ) → max_bn (pos 0) (pos a -ℤ pos b) ≡ pos (a - b)
unfolding max_bn ◌-ℤ◌
max_bn-pos a b = ground arith

pub div_bn-pos : (a b : ℕ) → 0 < b → div_bn (pos a) (pos b) ≡ ok (pos (a / b))
unfolding div_bn ◌/ℤ◌
div_bn-pos a b h = let e : (b == 0) ≡ false = ground arith in rw e refl

pub mul_mono : (a b c d : ℕ) → a ≤ b → c ≤ d → a * c ≤ b * d
mul_mono a b c d h k = omega (
  arith,
  mul-le-mul_left {m = c} {n = d} a k,
  mul-le-mul_left {m = a} {n = b} d h,
  mul_comm a d,
  mul_comm b d,
)

pub div_mono : (a b c : ℕ) → 0 < c → a ≤ b → a / c ≤ b / c
div_mono a b c h k =
    (le-div_iff_mul-le {k = c} {x = a / c} {y = b} h).1 (omega (arith, div-mul-le_self a c))

-- At most `r` of `r` is taken.
part_le : (a c r : ℕ) → 0 < c → a ≤ c → a * r / c ≤ r
part_le a c r h k =
    subst (λ n. a * r / c ≤ n) (mul-div_right r h)
      (div_mono (a * r) (c * r) c h (mul_mono a c r r k (omega arith)))

-- The rate at a utilization `x`.
abbrev pub rate : (u r0 r1 r2 x : ℕ) → ℕ
rate u r0 r1 r2 x = r0 + min x u * r1 / u + (x - u) * r2 / (whole - u)

before_kink-pos :
    (u r1 x : ℕ)
    → (if pos u == pos 0 then ok (pos 0) else div_bn (min_bn (pos x) (pos u) *ℤ pos r1) (pos u))
      ≡ ok (pos (min x u * r1 / u))
before_kink-pos u r1 x = elim (Bool-cases (u == 0)) [
  | inl zero_kink ↦ let e : u ≡ 0 = ground arith in rw e (ap (λ n. ok (pos n)) (sym (div-zero _)))
  | inr kinked ↦
      rw (kinked, min_bn-pos x u, pos-mul (min x u) r1) (div_bn-pos (min x u * r1) u (ground arith))
]

after_kink-pos :
    (u r2 x : ℕ)
    → u < whole
    → div_bn (max_bn (pos 0) (pos x -ℤ pos u) *ℤ pos r2) (fixed_point_adjustment -ℤ pos u)
      ≡ ok (pos ((x - u) * r2 / (whole - u)))
after_kink-pos u r2 x h =
    rw (max_bn-pos x u, pos-mul (x - u) r2, pos-sub whole u (omega arith))
      (div_bn-pos ((x - u) * r2) (whole - u) (omega arith))

pub calculate_instantaneous_rate-pos :
    (u r0 r1 r2 x : ℕ)
    → u < whole
    → calculate_instantaneous_rate (curve u r0 r1 r2) (pos x) ≡ ok (pos (rate u r0 r1 r2 x))
unfolding calculate_instantaneous_rate
calculate_instantaneous_rate-pos u r0 r1 r2 x h =
    rw (before_kink-pos u r1 x, calculate_instantaneous_rate)
      (rw (after_kink-pos u r2 x h) (
        rw (pos-add r0 (min x u * r1 / u))
          (ap ok (pos-add (r0 + min x u * r1 / u) ((x - u) * r2 / (whole - u))))))

pub rate_mono : (u r0 r1 r2 x y : ℕ) → u < whole → x ≤ y → rate u r0 r1 r2 x ≤ rate u r0 r1 r2 y
rate_mono u r0 r1 r2 x y h k = elim (Bool-cases (u == 0)) [
  | inl zero_kink ↦
      let e : u ≡ 0 = ground arith in
      rw e
        (omega (arith, div-zero (min x 0 * r1), div-zero (min y 0 * r1), tail_mono 0 (omega arith)))
  | inr kinked ↦ omega (
    arith,
    div_mono (min x u * r1) (min y u * r1) u (ground arith)
        (mul_mono (min x u) (min y u) r1 r1 (omega arith) (omega arith)),
    tail_mono u h,
  )
]
  where
    tail_mono : (v : ℕ) → v < whole → (x - v) * r2 / (whole - v) ≤ (y - v) * r2 / (whole - v)
    tail_mono v l =
        div_mono ((x - v) * r2) ((y - v) * r2) (whole - v) (omega arith)
          (mul_mono (x - v) (y - v) r2 r2 (omega arith) (omega arith))

rate_le : (u r0 r1 r2 x : ℕ) → u < whole → x ≤ whole → rate u r0 r1 r2 x ≤ r0 + r1 + r2
rate_le u r0 r1 r2 x h k =
    let tail = part_le (x - u) (whole - u) r2 (omega arith) (omega arith) in
    elim (Bool-cases (u == 0)) [
      | inl zero_kink ↦
          let e : u ≡ 0 = ground arith in
          let none_before : min x u * r1 / u ≡ 0 = rw e (div-zero (min x 0 * r1)) in
          omega (arith, none_before, tail)
      | inr kinked ↦ omega (arith, part_le (min x u) u r1 (ground arith) (omega arith), tail)
    ]

-- The instantaneous rate of a rate model without negative numbers, with its kink below 100 %, never
-- throws at a utilization that is not negative. It is at least R0 and does not fall while the
-- utilization grows, above 100 % too, and up to 100 % it is at most R0 + R1 + R2.
pub calculate_instantaneous_rate_bounds :
    (u r0 r1 r2 x y z : ℕ)
    → u < whole
    → x ≤ y
    → z ≤ whole
    → (low : ℕ) × (high : ℕ) × (capped : ℕ) × (calculate_instantaneous_rate
          (curve u r0 r1 r2)
          (pos x)
        ≡ ok (pos low))
      × (calculate_instantaneous_rate (curve u r0 r1 r2) (pos y) ≡ ok (pos high))
      × (calculate_instantaneous_rate (curve u r0 r1 r2) (pos z) ≡ ok (pos capped))
      × (r0 ≤ low)
      × (low ≤ high)
      × (capped ≤ r0 + r1 + r2)
calculate_instantaneous_rate_bounds u r0 r1 r2 x y z h k l = (
  rate u r0 r1 r2 x,
  rate u r0 r1 r2 y,
  rate u r0 r1 r2 z,
  calculate_instantaneous_rate-pos u r0 r1 r2 x h,
  calculate_instantaneous_rate-pos u r0 r1 r2 y h,
  calculate_instantaneous_rate-pos u r0 r1 r2 z h,
  omega arith,
  rate_mono u r0 r1 r2 x y h k,
  rate_le u r0 r1 r2 z h l,
)
