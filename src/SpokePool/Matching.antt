-- ===== src/SpokePool/Matching.antt =====
-- Which deposit a fill belongs to, and what is left to fill of a deposit.
use Prim.Native.String.{String}
use acrossclone.Prelude.{
  ℕ, ◌<◌, ◌≡◌, refl, sym, ap, ap₂, ◌∙◌, subst, ◌↔◌, true, not, List, [], ◌∷◌, ◌++◌, Option, none,
  some, ◌==◌, nat_eq, string_eq, length, inl, inr, arith, Bool-cases,
}
use mathlib.Core.List.{append_assoc, append-nil}
use acrossclone.Prelude.Int.{pos}
use acrossclone.Prelude.Search.{filter}
use acrossclone.Prelude.Dict.{lookup}
use acrossclone.Objects.{array_of}
use acrossclone.FlowUtils.{validate_fill_for_deposit, validate_v3_fill_for_deposit}
use acrossclone.SpokePool.{
  SpokePool, RelayData, Deposit, DepositWithBlock, FillWithBlock, DepositHash, deposit_hash_eq,
}
use acrossclone.SpokePool.Queries.{
  get_deposit_hash, get_deposit, deposit_of, get_deposit_for_fill, is_valid_fill, group_fills,
  get_valid_unfilled_amount_for_deposit,
}
use acrossclone.SpokePool.Extends.{IsIndexed}

-- The fills that the client has for a deposit's hash.
abbrev pub fills_of : SpokePool → Deposit → List FillWithBlock
fills_of s deposit =
    array_of (get_deposit_hash deposit.deposit_id deposit.origin_chain_id) s.deposit_hashes_to_fills

module _ (hash : RelayData → ℕ → String) where
  -- The fill's relay data and chain have the hash of the deposit's.
  abbrev pub IsFillOf : FillWithBlock → DepositWithBlock → Type 0
  IsFillOf fill d =
      hash fill.relay_data fill.destination_chain_id ≡ hash d.relay_data d.destination_chain_id

  pub validate_iff :
      (fill : FillWithBlock) (d : DepositWithBlock)
      → (validate_fill_for_deposit hash fill.relay_data fill.destination_chain_id (some d.deposit)
          ≡ true)
        ↔ IsFillOf fill d
  unfolding validate_fill_for_deposit validate_v3_fill_for_deposit
  validate_iff fill d = string_eq.same_iff _ _

  for_fill_found :
      (s : SpokePool) (fill : FillWithBlock) (d : DepositWithBlock)
      → get_deposit_for_fill hash s fill ≡ some d
      → (lookup (get_deposit_hash fill.deposit_id fill.origin_chain_id) s.deposit_hashes ≡ some d)
        × IsFillOf fill d
  unfolding get_deposit_for_fill
  for_fill_found s fill d h =
      let key = get_deposit_hash fill.deposit_id fill.origin_chain_id in
      let valid = λ (o : Option DepositWithBlock).
        validate_fill_for_deposit hash fill.relay_data fill.destination_chain_id (deposit_of o) in
      elim (Bool-cases (valid (lookup key s.deposit_hashes))) [
        | inr bad ↦ let clash : none ≡ some d = rw (get_deposit_for_fill, bad) at h in cc
        | inl good ↦
            let found : lookup key s.deposit_hashes ≡ some d =
              rw (get_deposit_for_fill, good) at h in
            (found, (validate_iff fill d).0 (subst (λ o. valid o ≡ true) found good))
      ]

  found_for_fill :
      (s : SpokePool) (fill : FillWithBlock) (d : DepositWithBlock)
      → lookup (get_deposit_hash fill.deposit_id fill.origin_chain_id) s.deposit_hashes ≡ some d
      → IsFillOf fill d
      → get_deposit_for_fill hash s fill ≡ some d
  unfolding get_deposit_for_fill
  found_for_fill s fill d found fits =
      let good = (validate_iff fill d).1 fits in rw (get_deposit_for_fill, found) (rw good refl)

  -- For a client with a sound index getDepositForFill finds a deposit exactly when the fill names the
  -- client's chain as its origin, getDeposit finds the deposit under the fill's deposit id, and
  -- the two have one relay hash.
  pub get_deposit_for_fill_iff :
      (s : SpokePool) (fill : FillWithBlock) (d : DepositWithBlock)
      → IsIndexed s
      → (get_deposit_for_fill hash s fill ≡ some d) ↔ (
          (fill.origin_chain_id ≡ s.chain_id)
          × (get_deposit s fill.deposit_id ≡ some d)
          × IsFillOf fill d)
  unfolding get_deposit get_deposit_hash
  get_deposit_for_fill_iff s fill d i = (
    λ h.
        let (found, fits) = for_fill_found s fill d h in
        let key = get_deposit_hash fill.deposit_id fill.origin_chain_id in
        let own = i.deposits key d found in
        let origin : fill.origin_chain_id ≡ s.chain_id =
          ap (λ (k : DepositHash). k.origin_chain_id) own.key ∙ own.origin in
        (
          origin,
          ap (λ c. lookup (get_deposit_hash fill.deposit_id c) s.deposit_hashes) (sym origin)
              ∙ found,
          fits,
        ),
    λ (origin, known, fits).
        found_for_fill s fill d
          (ap (λ c. lookup (get_deposit_hash fill.deposit_id c) s.deposit_hashes) origin ∙ known)
          fits,
  )

  group_fills-filter :
      (deposit : Deposit) (fills valid invalid : List FillWithBlock)
      → group_fills hash deposit fills (valid, invalid) ≡ (
        valid ++ filter (is_valid_fill hash deposit) fills,
        invalid ++ filter (λ f. not (is_valid_fill hash deposit f)) fills,
      )
  unfolding group_fills filter
  group_fills-filter deposit [] valid invalid =
      ap₂ (λ (a b : List FillWithBlock). (a, b)) (sym (append-nil valid)) (sym (append-nil invalid))
  group_fills-filter deposit (fill ∷ fills) valid invalid =
      let valid_rest = filter (is_valid_fill hash deposit) fills in
      let invalid_rest = filter (λ f. not (is_valid_fill hash deposit f)) fills in
      let pair : List FillWithBlock → List FillWithBlock → List FillWithBlock × List FillWithBlock =
        λ a b. (a, b) in
      elim (Bool-cases (is_valid_fill hash deposit fill)) [
        | inl good ↦ rw good (
            group_fills-filter deposit fills (valid ++ fill ∷ []) invalid
            ∙ ap (λ a. pair a (invalid ++ invalid_rest))
                (append_assoc valid (fill ∷ []) valid_rest))
        | inr bad ↦ rw bad (
            group_fills-filter deposit fills valid (invalid ++ fill ∷ [])
            ∙ ap (pair (valid ++ valid_rest)) (append_assoc invalid (fill ∷ []) invalid_rest))
      ]

  -- getValidUnfilledAmountForDeposit counts the valid ones among the fills of the deposit's hash and
  -- returns the others in their order; the deposit counts as filled in full, with nothing left, as
  -- soon as one fill is valid, and else its whole output amount is left.
  pub get_valid_unfilled_amount_for_deposit-eq :
      (s : SpokePool) (deposit : Deposit)
      → let r = get_valid_unfilled_amount_for_deposit hash s deposit in
        (r.fill_count ≡ length (filter (is_valid_fill hash deposit) (fills_of s deposit)))
        × (r.invalid_fills ≡ filter (λ f. not (is_valid_fill hash deposit f)) (fills_of s deposit))
        × (r.fill_count ≡ 0 → r.unfilled_amount ≡ deposit.output_amount)
        × (0 < r.fill_count → r.unfilled_amount ≡ pos 0)
  unfolding get_valid_unfilled_amount_for_deposit
  get_valid_unfilled_amount_for_deposit-eq s deposit =
      let fills = fills_of s deposit in
      let split = group_fills-filter deposit fills [] [] in
      let count = length (group_fills hash deposit fills ([], [])).0 in
      let valid : count ≡ length (filter (is_valid_fill hash deposit) fills) =
        ap (λ (g : List FillWithBlock × List FillWithBlock). length g.0) split in
      let invalid = ap (λ (g : List FillWithBlock × List FillWithBlock). g.1) split in
      elim (Bool-cases (count == 0)) [
        | inl empty ↦
            let is : count ≡ 0 = (nat_eq.same_iff count 0).0 empty in
            rw (get_valid_unfilled_amount_for_deposit, empty)
              (sym is ∙ valid, invalid, λ h. refl, λ h. absurd (omega arith))
        | inr some_valid ↦
            rw (get_valid_unfilled_amount_for_deposit, some_valid)
              (valid, invalid, λ h. absurd (ground arith), λ h. refl)
      ]
