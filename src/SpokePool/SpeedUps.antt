-- ===== src/SpokePool/SpeedUps.antt =====
-- appendMaxSpeedUpSignatureToDeposit: the speed-up with the lowest output amount.
use acrossclone.Prelude.{
  ◌≡◌, refl, sym, subst, true, false, List, [], ◌∷◌, nat_eq, string_eq, ◌⊎◌, inl, inr, arith,
  Bool-cases, Memᴰ,
}
use mathlib.Core.List.Memᴰ
use acrossclone.Prelude.Int.{ℤ, leb_ℤ, ltb_ℤ}
use acrossclone.Objects.{array_at}
use acrossclone.SpokePool.{SpokePool, DepositWithBlock, SpeedUp}
use acrossclone.SpokePool.Queries.{
  lower_speed_up, max_speed_up, with_speed_up, apply_speed_ups,
  append_max_speed_up_signature_to_deposit,
}

leb_ℤ_trans : (x y z : ℤ) → leb_ℤ x y ≡ true → leb_ℤ y z ≡ true → leb_ℤ x z ≡ true
leb_ℤ_trans x y z h k = ground arith

abbrev AtMost : SpeedUp → SpeedUp → Type 0
AtMost u v = leb_ℤ u.updated_output_amount v.updated_output_amount ≡ true

AtMost-refl : (u : SpeedUp) → AtMost u u
AtMost-refl u = at_most u.updated_output_amount
  where
    at_most : (x : ℤ) → leb_ℤ x x ≡ true
    at_most x = ground arith

lower_speed_up-AtMost :
    (u v : SpeedUp) → AtMost (lower_speed_up u v) u × AtMost (lower_speed_up u v) v
lower_speed_up-AtMost u v =
    elim (Bool-cases (ltb_ℤ u.updated_output_amount v.updated_output_amount)) [
      | inl less ↦
          rw less (AtMost-refl u, weaken u.updated_output_amount v.updated_output_amount less)
      | inr more ↦
          rw more (turn u.updated_output_amount v.updated_output_amount more, AtMost-refl v)
    ]
  where
    weaken : (x y : ℤ) → ltb_ℤ x y ≡ true → leb_ℤ x y ≡ true
    weaken x y h = ground arith

    turn : (x y : ℤ) → ltb_ℤ x y ≡ false → leb_ℤ y x ≡ true
    turn x y h = ground arith

lower_speed_up-mem : (u v : SpeedUp) (us : List SpeedUp) → Memᴰ (lower_speed_up u v) (u ∷ v ∷ us)
lower_speed_up-mem u v us =
    elim (Bool-cases (ltb_ℤ u.updated_output_amount v.updated_output_amount)) [
      | inl less ↦ rw less (Memᴰ.head refl)
      | inr more ↦ rw more (Memᴰ.tail (Memᴰ.head refl))
    ]

-- The reduction finds one of the speed-ups, and none is lower.
max_speed_up-IsLeast :
    (u : SpeedUp) (us : List SpeedUp)
    → Memᴰ (max_speed_up u us) (u ∷ us)
      × ((v : SpeedUp) → Memᴰ v (u ∷ us) → AtMost (max_speed_up u us) v)
unfolding max_speed_up
max_speed_up-IsLeast u [] = (Memᴰ.head refl, only)
  where
    only : (v : SpeedUp) → Memᴰ v (u ∷ []) → AtMost u v
    only v (Memᴰ.head same) = subst (AtMost u) (sym same) (AtMost-refl u)
    only v (Memᴰ.tail m) = absurd (Memᴰ.not-nil m)
max_speed_up-IsLeast u (w ∷ us) =
    let low = lower_speed_up u w in
    let (listed, below) = max_speed_up-IsLeast low us in
    let (under_u, under_w) = lower_speed_up-AtMost u w in (widen listed, all below under_u under_w)
  where
    widen :
        Memᴰ (max_speed_up (lower_speed_up u w) us) (lower_speed_up u w ∷ us)
        → Memᴰ (max_speed_up (lower_speed_up u w) us) (u ∷ w ∷ us)
    widen (Memᴰ.head same) =
        subst (λ (x : SpeedUp). Memᴰ x (u ∷ w ∷ us)) (sym same) (lower_speed_up-mem u w us)
    widen (Memᴰ.tail m) = Memᴰ.tail (Memᴰ.tail m)

    all :
        ((v : SpeedUp)
          → Memᴰ v (lower_speed_up u w ∷ us)
          → AtMost (max_speed_up (lower_speed_up u w) us) v)
        → AtMost (lower_speed_up u w) u
        → AtMost (lower_speed_up u w) w
        → (v : SpeedUp) → Memᴰ v (u ∷ w ∷ us)
        → AtMost (max_speed_up (lower_speed_up u w) us) v
    all below under_u under_w v (Memᴰ.head same) =
        subst (AtMost (max_speed_up (lower_speed_up u w) us)) (sym same) (
          leb_ℤ_trans (max_speed_up (lower_speed_up u w) us).updated_output_amount
            (lower_speed_up u w).updated_output_amount u.updated_output_amount
            (below (lower_speed_up u w) (Memᴰ.head refl)) under_u)
    all below under_u under_w v (Memᴰ.tail (Memᴰ.head same)) =
        subst (AtMost (max_speed_up (lower_speed_up u w) us)) (sym same) (
          leb_ℤ_trans (max_speed_up (lower_speed_up u w) us).updated_output_amount
            (lower_speed_up u w).updated_output_amount w.updated_output_amount
            (below (lower_speed_up u w) (Memᴰ.head refl)) under_w)
    all below under_u under_w v (Memᴰ.tail (Memᴰ.tail m)) = below v (Memᴰ.tail m)

-- The speed-ups that the client has for the deposit: those of its depositor for its id.
abbrev pub speed_ups_for : SpokePool → DepositWithBlock → List SpeedUp
speed_ups_for s d = array_at d.depositor d.deposit_id s.speed_ups

-- A speed-up that is below the deposit's output amount, and of all of the deposit's the lowest.
pub record IsLowest (us : List SpeedUp) (d : DepositWithBlock) (u : SpeedUp) : Type 0 where
  pub listed : Memᴰ u us
  pub below : leb_ℤ d.output_amount u.updated_output_amount ≡ false
  pub lowest :
      (v : SpeedUp) → Memᴰ v us → leb_ℤ u.updated_output_amount v.updated_output_amount ≡ true

-- appendMaxSpeedUpSignatureToDeposit leaves a deposit as it is when none of its speed-ups is
-- below its output amount; else it writes all fields of a lowest speed-up, never one that
-- would raise the amount.
pub append_max_speed_up_signature_to_deposit-IsLowest :
    (s : SpokePool) (d : DepositWithBlock)
    → ((append_max_speed_up_signature_to_deposit s d ≡ d)
        × ((v : SpeedUp)
            → Memᴰ v (speed_ups_for s d)
            → leb_ℤ d.output_amount v.updated_output_amount ≡ true))
      ⊎ ((u : SpeedUp) × IsLowest (speed_ups_for s d) d u
          × (append_max_speed_up_signature_to_deposit s d ≡ with_speed_up u d))
unfolding append_max_speed_up_signature_to_deposit apply_speed_ups
append_max_speed_up_signature_to_deposit-IsLowest s d = by_list (speed_ups_for s d)
  where
    by_list :
        (us : List SpeedUp)
        → ((apply_speed_ups us d ≡ d)
            × ((v : SpeedUp) → Memᴰ v us → leb_ℤ d.output_amount v.updated_output_amount ≡ true))
          ⊎ ((u : SpeedUp) × IsLowest us d u × (apply_speed_ups us d ≡ with_speed_up u d))
    by_list [] = inl (refl, λ v m. absurd (Memᴰ.not-nil m))
    by_list (u ∷ us) =
        let max = max_speed_up u us in
        let (listed, lowest) = max_speed_up-IsLeast u us in
        elim (Bool-cases (leb_ℤ d.output_amount max.updated_output_amount)) [
          | inl high ↦ inl (
            rw (apply_speed_ups, high) refl,
            λ v m. leb_ℤ_trans d.output_amount _ v.updated_output_amount high (lowest v m),
          )
          | inr low ↦ inr (
            max,
            record { listed = listed; below = low; lowest = lowest },
            rw (apply_speed_ups, low) refl,
          )
        ]
