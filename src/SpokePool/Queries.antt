-- ===== src/SpokePool/Queries.antt =====
-- The look-ups of clients/SpokePoolClient.ts. `hash` is the hash of relay data.
use Prim.Native.String.{String}
use acrossclone.Prelude.{
  ℕ, ◌+◌, Bool, true, ◌&&◌, ◌||◌, List, [], ◌∷◌, ◌++◌, map, Option, none, some, leb, ◌==◌, nat_eq,
  string_eq, if◌then◌else◌, get_last?, length,
}
use acrossclone.Prelude.Int.{ℤ, pos, sub_ℕ, leb_ℤ, ltb_ℤ}
use acrossclone.Prelude.Search.{filter}
use acrossclone.Prelude.Sort.{sort_by}
use acrossclone.Prelude.Dict.{Dict, lookup, values}
use acrossclone.Prelude.Text.{to_lower_case}
use acrossclone.Events.{sort_events_ascending}
use acrossclone.Objects.{array_of, array_at}
use acrossclone.FlowUtils.{validate_fill_for_deposit}
use acrossclone.SpokePool.{
  SpokePool, RelayData, Deposit, DepositWithBlock, FillWithBlock, SpeedUp, SlowFillRequestWithBlock,
  DepositHash, deposit_hash_eq, deposit_sortable, fill_sortable,
}

unfoldable pub get_deposit_hash : (deposit_id origin_chain_id : ℕ) → DepositHash
get_deposit_hash deposit_id origin_chain_id = record {
  deposit_id = deposit_id;
  origin_chain_id = origin_chain_id;
}

unfoldable pub get_deposits_for_destination_chain :
    SpokePool → (destination_chain_id : ℕ) → List DepositWithBlock
unfolding filter
get_deposits_for_destination_chain s destination_chain_id =
    filter (λ deposit. deposit.destination_chain_id == destination_chain_id)
      (values s.deposit_hashes)

-- The test of `getDeposits`, for a filter from a block to a block.
abbrev pub passes : Option (ℕ × ℕ) → DepositWithBlock → Bool
passes none deposit = true
passes (some (from_block, to_block)) deposit =
    leb from_block deposit.block_number && leb deposit.block_number to_block

unfoldable pub get_deposits : SpokePool → Option (ℕ × ℕ) → List DepositWithBlock
unfolding filter sort_events_ascending
get_deposits s range = sort_events_ascending (filter (passes range) (values s.deposit_hashes))

-- `Object.values` of an object whose keys are numbers: JavaScript gives them in ascending order.
unfoldable pub values_by_number {ℓ} : {V : Type ℓ} → Dict ℕ V → List V
unfolding sort_by
values_by_number d = map (λ e. e.1) (sort_by (λ x y. sub_ℕ x.0 y.0) d)

unfoldable pub flat {ℓ} : {A : Type ℓ} → List (List A) → List A
flat [] = []
flat (xs ∷ rest) = xs ++ flat rest

unfoldable pub get_fills : SpokePool → List FillWithBlock
unfolding values_by_number flat sort_events_ascending
get_fills s = sort_events_ascending (flat (values_by_number s.fills))

unfoldable pub get_fills_for_origin_chain : SpokePool → (origin_chain_id : ℕ) → List FillWithBlock
unfolding lookup
get_fills_for_origin_chain s origin_chain_id = array_of origin_chain_id s.fills

unfoldable pub get_fills_for_relayer : SpokePool → (relayer : String) → List FillWithBlock
unfolding get_fills filter
get_fills_for_relayer s relayer = filter (λ fill. fill.relayer == relayer) (get_fills s)

unfoldable pub get_fills_with_block_in_range :
    SpokePool → (starting_block ending_block : ℕ) → List FillWithBlock
unfolding get_fills filter
get_fills_with_block_in_range s starting_block ending_block =
    filter (λ fill. leb starting_block fill.block_number && leb fill.block_number ending_block)
      (get_fills s)

unfoldable pub get_latest_root_bundle_id : SpokePool → ℕ
get_latest_root_bundle_id s = elim (get_last? s.root_bundle_relays) [
  | none ↦ 0
  | some relay ↦ relay.root_bundle_id + 1
]

-- `prev.updatedOutputAmount.lt(current.updatedOutputAmount) ? prev : current`
abbrev pub lower_speed_up : SpeedUp → SpeedUp → SpeedUp
lower_speed_up prev current =
    if ltb_ℤ prev.updated_output_amount current.updated_output_amount then prev else current

-- `speedups.reduce(..)`, after a first element.
unfoldable pub max_speed_up : SpeedUp → List SpeedUp → SpeedUp
max_speed_up prev [] = prev
max_speed_up prev (current ∷ speed_ups) = max_speed_up (lower_speed_up prev current) speed_ups

abbrev pub with_speed_up : SpeedUp → DepositWithBlock → DepositWithBlock
with_speed_up max deposit = record deposit {
  deposit = record deposit.deposit {
    updated = record {
      speed_up_signature = some max.depositor_signature;
      updated_recipient = some max.updated_recipient;
      updated_output_amount = some max.updated_output_amount;
      updated_message = some max.updated_message;
    };
  };
}

-- The deposit, given the speed-ups of its depositor for its id.
unfoldable pub apply_speed_ups : List SpeedUp → DepositWithBlock → DepositWithBlock
unfolding max_speed_up
apply_speed_ups [] deposit = deposit
apply_speed_ups (first ∷ speed_ups) deposit =
    let max = max_speed_up first speed_ups in
    if leb_ℤ deposit.output_amount max.updated_output_amount
    then deposit
    else with_speed_up max deposit

unfoldable pub append_max_speed_up_signature_to_deposit :
    SpokePool → DepositWithBlock → DepositWithBlock
unfolding apply_speed_ups lookup
append_max_speed_up_signature_to_deposit s deposit =
    apply_speed_ups (array_at deposit.depositor deposit.deposit_id s.speed_ups) deposit

unfoldable pub get_deposit : SpokePool → (deposit_id : ℕ) → Option DepositWithBlock
unfolding lookup get_deposit_hash
get_deposit s deposit_id = lookup (get_deposit_hash deposit_id s.chain_id) s.deposit_hashes

-- What `getValidUnfilledAmountForDeposit` returns.
pub record UnfilledAmount : Type 0 where
  pub unfilled_amount : ℤ
  pub fill_count : ℕ
  pub invalid_fills : List FillWithBlock

abbrev pub deposit_of : Option DepositWithBlock → Option Deposit
deposit_of none = none
deposit_of (some d) = some d.deposit

module _ (hash : RelayData → ℕ → String) where
  unfoldable pub get_slow_fill_request : SpokePool → RelayData → Option SlowFillRequestWithBlock
  unfolding lookup
  get_slow_fill_request s relay_data = lookup (hash relay_data s.chain_id) s.slow_fill_requests

  unfoldable pub get_deposit_for_fill : SpokePool → FillWithBlock → Option DepositWithBlock
  unfolding lookup get_deposit_hash validate_fill_for_deposit
  get_deposit_for_fill s fill =
      let deposit =
        lookup (get_deposit_hash fill.deposit_id fill.origin_chain_id) s.deposit_hashes in
      if validate_fill_for_deposit hash fill.relay_data fill.destination_chain_id
        (deposit_of deposit)
      then deposit
      else none

  abbrev pub is_valid_fill : Deposit → FillWithBlock → Bool
  is_valid_fill deposit fill =
      validate_fill_for_deposit hash fill.relay_data fill.destination_chain_id (some deposit)

  -- `fillsForDeposit.reduce(..)`: the valid fills and the others, each after those so far.
  unfoldable pub group_fills :
      Deposit
      → List FillWithBlock
      → List FillWithBlock × List FillWithBlock
      → List FillWithBlock × List FillWithBlock
  unfolding validate_fill_for_deposit
  group_fills deposit [] grouped = grouped
  group_fills deposit (fill ∷ fills) (valid, invalid) =
      let grown : List FillWithBlock × List FillWithBlock =
        if is_valid_fill deposit fill
        then (valid ++ fill ∷ [], invalid)
        else (valid, invalid ++ fill ∷ []) in
      group_fills deposit fills grown

  unfoldable pub get_valid_unfilled_amount_for_deposit : SpokePool → Deposit → UnfilledAmount
  unfolding lookup get_deposit_hash group_fills
  get_valid_unfilled_amount_for_deposit s deposit =
      let fills =
        array_of (get_deposit_hash deposit.deposit_id deposit.origin_chain_id)
          s.deposit_hashes_to_fills in
      let grouped = group_fills deposit fills ([], []) in
      if length grouped.0 == 0
      then record {
        unfilled_amount = deposit.output_amount;
        fill_count = 0;
        invalid_fills = grouped.1;
      }
      else record {
        unfilled_amount = pos 0;
        fill_count = length grouped.0;
        invalid_fills = grouped.1;
      }

unfoldable pub get_slow_fill_requests_for_origin_chain :
    SpokePool → (origin_chain_id : ℕ) → List SlowFillRequestWithBlock
unfolding filter
get_slow_fill_requests_for_origin_chain s origin_chain_id =
    filter (λ e. e.origin_chain_id == origin_chain_id) (values s.slow_fill_requests)

-- Optimism and Base name WETH by the native token in the event, Boba the other way round.
unfoldable pub get_executed_refund_leaf_l2_token :
    (chain_id : ℕ) → (event_l2_token : String) → String
unfolding to_lower_case
get_executed_refund_leaf_l2_token chain_id event_l2_token =
    if (chain_id == 10 || chain_id == 8453)
      && to_lower_case event_l2_token == "0xdeaddeaddeaddeaddeaddeaddeaddeaddead0000"
    then "0x4200000000000000000000000000000000000006"
    else if chain_id == 288
        && to_lower_case event_l2_token == "0x4200000000000000000000000000000000000006"
    then "0xDeadDeAddeAddEAddeadDEaDDEAdDeaDDeAD0000"
    else event_l2_token
