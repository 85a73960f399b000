-- ===== src/FlowUtils.antt =====
-- utils/FlowUtils.ts: whether a fill is one of a deposit. `hash` is the hash of the relay data and
-- the destination chain (ethers' keccak256 of their ABI encoding).
use Prim.Native.String.{String}
use acrossclone.Prelude.{
  ℕ, Bool, false, not, Option, none, some, ◌==◌, nat_eq, string_eq, if◌then◌else◌,
}
use acrossclone.SpokePool.{RelayData, Deposit, FillWithBlock}

module _ (hash : RelayData → ℕ → String) where
  unfoldable pub filled_same_deposit : FillWithBlock → FillWithBlock → Bool
  filled_same_deposit a b =
      if not (a.deposit_id == b.deposit_id)
      then false
      else hash a.relay_data a.destination_chain_id == hash b.relay_data b.destination_chain_id

  -- The relay data and destination chain are those of a fill or of a slow fill request.
  unfoldable pub validate_v3_fill_for_deposit : RelayData → ℕ → Deposit → Bool
  validate_v3_fill_for_deposit relay_data destination_chain_id deposit =
      hash relay_data destination_chain_id == hash deposit.relay_data deposit.destination_chain_id

  unfoldable pub validate_fill_for_deposit : RelayData → ℕ → Option Deposit → Bool
  unfolding validate_v3_fill_for_deposit
  validate_fill_for_deposit relay_data destination_chain_id none = false
  validate_fill_for_deposit relay_data destination_chain_id (some deposit) =
      validate_v3_fill_for_deposit relay_data destination_chain_id deposit
